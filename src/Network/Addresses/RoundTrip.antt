-- ===== src/Network/Addresses/RoundTrip.antt =====
-- Networks of IPv4 are read back from their text (src/network/ipv4.cpp, ipv4_mask.cpp and
-- ipv4_cidr.cpp).
use nanodistro.Base.{
  is_empty, All-append, take-append, drop-behind, ℕ, suc, ◌≤◌, ◌<◌, ◌≡◌, refl, ap, ◌∙◌, Bool, true,
  false, List, [], ◌∷◌, ◌++◌, Bytes, codes, length, ◌==◌, some, ok, arith,
}
use nanodistro.Base.Int.{pos}
use nanodistro.Text.{starts_with, str_split, split_loop}
use nanodistro.Text.Number.{decimal, stoi}
use nanodistro.Text.Number.RoundTrip.{
  decimal-Lacks, IsDigits, decimal-IsDigits, digits-not_empty, stoi-decimal_whole,
}
use nanodistro.Network.{Ipv4, Cidr}
use nanodistro.Network.Addresses.{
  byte_of, bytes_of, up_to, before_slash, is_found, parse_text, cidr_of, items_of, parse_items,
  has_dot, parse_addr, set_addr, addr_to_string, parse_mask, set_mask, parse_cidr, cidr_to_string,
}
use nanodistro.Text.Joined.{Lacks, find-here, find-none, dotted, dotted-long, split_loop-dotted}

byte_of-decimal : (n : ℕ) → n < 256 → byte_of (decimal n) ≡ ok n
unfolding byte_of
byte_of-decimal n h =
    let whole : stoi 10 (decimal n) ≡ ok (pos n, length (decimal n)) =
      stoi-decimal_whole n (omega (arith, h)) in
    rw (digits-not_empty (decimal n) (decimal-IsDigits n), whole) (ground (arith, h))

-- The bytes of an address are bytes.
pub record IsBytes (a : Ipv4) : Type 0 where
  pub first_byte : a.d0 < 256
  pub second_byte : a.d1 < 256
  pub third_byte : a.d2 < 256
  pub fourth_byte : a.d3 < 256

parse_items-to_string : (a : Ipv4) → IsBytes a → parse_items (addr_to_string a) ≡ ok a
unfolding parse_items addr_to_string str_split
parse_items-to_string a v =
    let xs : List Bytes = decimal a.d0 ∷ decimal a.d1 ∷ decimal a.d2 ∷ [] in
    let end : Bytes = decimal a.d3 in
    let lacks : (n : ℕ) → Lacks b'.' (decimal n) = λ n. decimal-Lacks b'.' n refl in
    let split : split_loop (codes ".") (suc (length (dotted b'.' xs end))) (dotted b'.' xs end)
        ≡ some (xs ++ end ∷ []) =
      split_loop-dotted b'.' (suc (length (dotted b'.' xs end))) xs end
        (lacks a.d0, (lacks a.d1, (lacks a.d2, tt))) (lacks a.d3)
        (omega (arith, dotted-long b'.' xs end)) in
    let bytes : bytes_of (xs ++ end ∷ []) ≡ ok (a.d0 ∷ a.d1 ∷ a.d2 ∷ a.d3 ∷ []) =
      unfold bytes_of in
      rw
        (
          byte_of-decimal a.d0 v.first_byte,
          byte_of-decimal a.d1 v.second_byte,
          byte_of-decimal a.d2 v.third_byte,
          byte_of-decimal a.d3 v.fourth_byte,
        )
        refl in
    let all : items_of (some (xs ++ end ∷ [])) ≡ ok a = unfold items_of in rw bytes refl in
    ap items_of split ∙ all

-- A dotted address has a dot, no slash, and is no hexadecimal number.
pub has_dot-to_string : (a : Ipv4) → has_dot (addr_to_string a) ≡ true
unfolding has_dot addr_to_string
has_dot-to_string a = ap is_found (
    find-here b'.' (decimal a.d0) (decimal a.d1 ++ (b'.' ∷ (decimal a.d2 ++ (b'.' ∷ decimal a.d3))))
      (decimal-Lacks b'.' a.d0 refl))

has_dot-decimal : (n : ℕ) → has_dot (decimal n) ≡ false
unfolding has_dot
has_dot-decimal n = ap is_found (find-none b'.' (decimal n) (decimal-Lacks b'.' n refl))

to_string-Lacks : (a : Ipv4) → Lacks b'/' (addr_to_string a)
unfolding addr_to_string
to_string-Lacks a =
    let lacks : (n : ℕ) → Lacks b'/' (decimal n) = λ n. decimal-Lacks b'/' n refl in
    All-append _ (decimal a.d0) _ (lacks a.d0) (
      refl,
      All-append _ (decimal a.d1) _ (lacks a.d1)
          (refl, All-append _ (decimal a.d2) _ (lacks a.d2) (refl, lacks a.d3)),
    )

plain_number :
    (ds rest : Bytes) → IsDigits ds → starts_with (ds ++ b'.' ∷ rest) (codes "0x") ≡ false
plain_number [] rest h = absurd h
plain_number (c ∷ []) rest h = ground arith
plain_number (c ∷ d ∷ ds) rest h =
    let e : (d == b'x') ≡ false = ground (arith, h.1.0) in rw e (ground arith)

not_empty : (ds rest : Bytes) → IsDigits ds → is_empty (ds ++ b'.' ∷ rest) ≡ false
not_empty [] rest h = absurd h
not_empty (c ∷ ds) rest h = refl

pub parse_addr-to_string :
    (little : Bool) (a : Ipv4) → IsBytes a → set_addr little (addr_to_string a) ≡ ok a
unfolding set_addr parse_addr parse_text
parse_addr-to_string little a v =
    let rest : Bytes = decimal a.d1 ++ (b'.' ∷ (decimal a.d2 ++ (b'.' ∷ decimal a.d3))) in
    let there : is_empty (addr_to_string a) ≡ false =
      unfold addr_to_string in not_empty (decimal a.d0) rest (decimal-IsDigits a.d0) in
    let no_hex : starts_with (addr_to_string a) (codes "0x") ≡ false =
      unfold addr_to_string in plain_number (decimal a.d0) rest (decimal-IsDigits a.d0) in
    let short : before_slash (addr_to_string a) ≡ addr_to_string a =
      ap (up_to (addr_to_string a)) (find-none b'/' (addr_to_string a) (to_string-Lacks a)) in
    let read : parse_text little (addr_to_string a) ≡ ok a =
      rw (there, no_hex, has_dot-to_string a, parse_text) (parse_items-to_string a v) in
    rw there (ap (parse_text little) short ∙ read)

set_mask-decimal : (little : Bool) (n : ℕ) → n ≤ 32 → set_mask little (decimal n) ≡ ok n
unfolding set_mask parse_mask
set_mask-decimal little n h =
    let whole : stoi 10 (decimal n) ≡ ok (pos n, length (decimal n)) =
      stoi-decimal_whole n (omega (arith, h)) in
    let same : (length (decimal n) == length (decimal n)) ≡ true = ground arith in
    rw (digits-not_empty (decimal n) (decimal-IsDigits n), has_dot-decimal n, parse_mask)
      (rw (whole, same) (ground (arith, h)))

-- A network whose bytes are below 256 and whose prefix is at most 32 is read back from its text as it
-- was, whatever the byte order of the machine.
pub parse_cidr-to_string :
    (little : Bool) (c : Cidr)
    → IsBytes c.addr
    → c.prefix ≤ 32
    → parse_cidr little (cidr_to_string c) ≡ ok c
unfolding parse_cidr cidr_to_string
parse_cidr-to_string little c v h =
    let text : Bytes = addr_to_string c.addr in
    let mask : Bytes = decimal c.prefix in
    let read : cidr_of little (text ++ b'/' ∷ mask) (some (length text)) ≡ ok c =
      unfold cidr_of in
      rw
        (
          take-append text (b'/' ∷ mask),
          drop-behind text b'/' mask,
          parse_addr-to_string little c.addr v,
          set_mask-decimal little c.prefix h,
        )
        refl in
    ap (cidr_of little (text ++ b'/' ∷ mask)) (find-here b'/' text mask (to_string-Lacks c.addr))
    ∙ read
