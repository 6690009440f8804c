-- ===== src/Network/Ipv6/Networks.antt =====
-- Networks of IPv6 (src/network/ipv6_cidr.cpp): an address and the length of a prefix. A shift of all
-- ones to the left, in a conjunction, clears the low bits; to the right, in a disjunction, it sets
-- them.
use nanodistro.Base.{
  ℕ, suc, ◌+◌, ◌-◌, ◌*◌, ◌/◌, ◌^◌, ◌≤◌, ◌<◌, Bool, false, not, ◌||◌, ◌∷◌, ◌++◌, Bytes, codes,
  length, take, drop, take-append, drop-behind, ltb, ◌==◌, if◌then◌else◌, Option, none, some,
  Result, ok, throw, ◌>>=◌, invalid_argument, All, ◌≡◌, refl, ap, ◌∙◌, arith,
}
use Prim.Native.Nat.{compare, Ordering}
use nanodistro.Base.Int.{ℤ, pos, ltb_ℤ, pos_part}
use nanodistro.Text.{find}
use nanodistro.Text.Number.{stoi, decimal}
use nanodistro.Text.Number.RoundTrip.{stoi-decimal_whole}
use nanodistro.Text.Joined.{find-here}
use nanodistro.Network.Addresses.{Relation, ge, le, holds_of}
use nanodistro.Network.Mac.{compare_bytes}
use nanodistro.Network.Ipv6.{
  Ipv6, empty_ipv6, high, low, of_words, set_ipv6, ipv6_to_string, next_ipv6, prev_ipv6,
  compares_ipv6,
}
use nanodistro.Network.Ipv6.Texts.{parse_ipv6-to_string, to_string-Lacks, to_string-full}

pub record Cidr6 : Type 0 where
  pub addr : Ipv6
  pub prefix : ℕ

abbrev prefix_of : Bytes → ℤ × ℕ → Result ℕ
prefix_of p r =
    if not (r.1 == length p) || ltb_ℤ r.0 (pos 0) || ltb_ℤ (pos 128) r.0
    then throw invalid_argument
    else ok (pos_part r.0)

unfoldable cidr6_of : Bool → Bytes → Option ℕ → Result Cidr6
cidr6_of little s none = throw invalid_argument
cidr6_of little s (some i) = set_ipv6 little (take i s) >>= (λ addr.
    stoi 10 (drop (suc i) s)
    >>= (λ r. prefix_of (drop (suc i) s) r >>= (λ p. ok (record { addr = addr; prefix = p }))))

-- `ipv6_cidr::parse`
unfoldable pub parse_cidr6 : Bool → Bytes → Result Cidr6
unfolding cidr6_of
parse_cidr6 little s = cidr6_of little s (find s (codes "/"))

unfoldable pub cidr6_to_string : Cidr6 → Bytes
cidr6_to_string c = ipv6_to_string false c.addr ++ (b'/' ∷ decimal c.prefix)

abbrev max64 : ℕ
max64 = 2 ^ 64 - 1

-- `w&(UINT64_MAX<<k)`, and `w|(UINT64_MAX>>k)`
abbrev clear_below : ℕ → ℕ → ℕ
clear_below k w = w / 2 ^ k * 2 ^ k

abbrev set_low : ℕ → ℕ → ℕ
set_low k w = w / 2 ^ (64 - k) * 2 ^ (64 - k) + (2 ^ (64 - k) - 1)

unfoldable pub net6 : Bool → Cidr6 → Result Ipv6
net6 little c =
    if ltb 128 c.prefix
    then throw invalid_argument
    else if c.prefix == 0
    then ok (of_words little 0 0)
    else if ltb c.prefix 64
    then ok (of_words little (clear_below (64 - c.prefix) (high little c.addr)) 0)
    else if c.prefix == 64
    then ok (of_words little (high little c.addr) 0)
    else if ltb c.prefix 128
    then ok
        (of_words little (high little c.addr) (clear_below (128 - c.prefix) (low little c.addr)))
    else ok c.addr

unfoldable pub brd6 : Bool → Cidr6 → Result Ipv6
brd6 little c =
    if ltb 128 c.prefix
    then throw invalid_argument
    else if c.prefix == 0
    then ok (of_words little max64 max64)
    else if ltb c.prefix 64
    then ok (
        of_words little (set_low c.prefix (clear_below (64 - c.prefix) (high little c.addr))) max64)
    else if c.prefix == 64
    then ok (of_words little (high little c.addr) max64)
    else if ltb c.prefix 128
    then ok (of_words little (high little c.addr) (set_low (c.prefix - 64) (low little c.addr)))
    else ok c.addr

unfoldable pub begin6 : Bool → Cidr6 → Result Ipv6
unfolding net6
begin6 little c =
    if c.prefix == 0
    then ok empty_ipv6
    else if c.prefix == 128
    then ok c.addr
    else net6 little c >>= (λ m. ok (next_ipv6 little m))

unfoldable pub end6 : Bool → Cidr6 → Result Ipv6
unfolding brd6
end6 little c =
    if c.prefix == 0
    then ok (of_words little max64 max64)
    else if c.prefix == 128
    then ok c.addr
    else brd6 little c >>= (λ m. ok (prev_ipv6 little m))

-- `is_addr_in`; the second side of `&&` is not computed where the first one is false.
unfoldable pub is_addr_in6 : Bool → Cidr6 → Ipv6 → Result Bool
unfolding begin6 end6
is_addr_in6 little c a = begin6 little c >>= (λ b.
    if compares_ipv6 ge a b then end6 little c >>= (λ e. ok (compares_ipv6 le a e)) else ok false)

unfoldable pub set_cidr6 : Ipv6 → ℤ → Result Cidr6
set_cidr6 a p =
    if ltb_ℤ p (pos 0) || ltb_ℤ (pos 128) p
    then throw invalid_argument
    else ok (record { addr = a; prefix = pos_part p })

unfoldable pub compare_cidr6 : Cidr6 → Cidr6 → Ordering
compare_cidr6 a b = elim (compare_bytes a.addr b.addr) [
  | Ordering.lt ↦ Ordering.lt
  | Ordering.eq ↦ compare a.prefix b.prefix
  | Ordering.gt ↦ Ordering.gt
]

unfoldable pub compares_cidr6 : Relation → Cidr6 → Cidr6 → Bool
unfolding compare_cidr6 holds_of
compares_cidr6 r a b = holds_of r (compare_cidr6 a b)

unfoldable pub compares_cidr6_text : Bool → Relation → Cidr6 → Bytes → Result Bool
unfolding compares_cidr6 parse_cidr6
compares_cidr6_text little r a s = parse_cidr6 little s >>= (λ b. ok (compares_cidr6 r a b))

-- A network whose prefix is at most 128 is read back from its text as it was.
pub parse_cidr6-to_string :
    (little : Bool) (c : Cidr6)
    → length c.addr ≡ 8
    → All (λ g. g < 65536) c.addr
    → c.prefix ≤ 128
    → parse_cidr6 little (cidr6_to_string c) ≡ ok c
unfolding parse_cidr6 cidr6_to_string cidr6_of set_ipv6
parse_cidr6-to_string little c l h p =
    let text : Bytes = ipv6_to_string false c.addr in
    let mask : Bytes = decimal c.prefix in
    let number : stoi 10 mask ≡ ok (pos c.prefix, length mask) =
      stoi-decimal_whole c.prefix (omega (arith, p)) in
    let fits : prefix_of mask (pos c.prefix, length mask) ≡ ok c.prefix = ground (arith, p) in
    ap (cidr6_of little (text ++ b'/' ∷ mask))
      (find-here b'/' text mask (to_string-Lacks false c.addr l))
    ∙ rw
        (
          take-append text (b'/' ∷ mask),
          drop-behind text b'/' mask,
          to_string-full false c.addr l,
          parse_ipv6-to_string false little c.addr l h,
          number,
        )
        (rw fits refl)
