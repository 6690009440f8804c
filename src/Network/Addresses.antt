-- ===== src/Network/Addresses.antt =====
-- Addresses, masks and networks of IPv4 as text, and their comparisons (src/network/ipv4.cpp,
-- ipv4_mask.cpp and ipv4_cidr.cpp). The socket addresses are left out.
pub mod RoundTrip
pub mod Wildcards
use Prim.Native.Nat.{compare, Ordering}
use nanodistro.Base.{
  ℕ, suc, ◌+◌, ◌-◌, ◌/◌, ◌%◌, ◌^◌, Bool, true, false, not, ◌&&◌, ◌||◌, List, [], ◌∷◌, ◌++◌, Bytes,
  codes, length, take, drop, is_empty, ltb, ◌==◌, if◌then◌else◌, Option, none, some, Result, ok,
  throw, ◌>>=◌, invalid_argument, out_of_fuel,
}
use nanodistro.Base.Int.{ℤ, pos, negsuc, ltb_ℤ, pos_part}
use nanodistro.Text.{find, starts_with, str_split}
use nanodistro.Text.Number.{stoi, stoul, decimal}
use nanodistro.Network.{
  Ipv4, Cidr, to_word, of_word, set_netmask, set_wildcard, compare_addr, compare_cidr,
}

abbrev pub zero_addr : Ipv4
zero_addr = record { d0 = 0; d1 = 0; d2 = 0; d3 = 0 }

abbrev pub up_to : Bytes → Option ℕ → Bytes
up_to s none = s
up_to s (some i) = take i s

-- The part in front of a slash.
abbrev pub before_slash : Bytes → Bytes
before_slash s = up_to s (find s (codes "/"))

-- an `int` as a word of 32 bits
abbrev pub word_of : ℤ → ℕ
word_of (pos n) = n % 2 ^ 32
word_of (negsuc n) = 2 ^ 32 - 1 - n % 2 ^ 32

-- The number at the start of an item; what follows it is not looked at.
unfoldable pub byte_of : Bytes → Result ℕ
unfolding stoi
byte_of item =
    if is_empty item
    then throw invalid_argument
    else (stoi 10 item >>= λ r.
        if ltb_ℤ r.0 (pos 0) || ltb_ℤ (pos 255) r.0
        then throw invalid_argument
        else ok (pos_part r.0))

unfoldable pub bytes_of : List Bytes → Result (List ℕ)
unfolding byte_of
bytes_of [] = ok []
bytes_of (item ∷ items) = byte_of item >>= λ r. bytes_of items >>= λ rest. ok (r ∷ rest)

-- Two or three bytes are the first ones and the last one; there are at most four.
abbrev pub arrange : List ℕ → Ipv4
arrange [] = zero_addr
arrange (a ∷ []) = record { d0 = a; d1 = 0; d2 = 0; d3 = 0 }
arrange (a ∷ b ∷ []) = record { d0 = a; d1 = 0; d2 = 0; d3 = b }
arrange (a ∷ b ∷ c ∷ []) = record { d0 = a; d1 = b; d2 = 0; d3 = c }
arrange (a ∷ b ∷ c ∷ d ∷ rest) = record { d0 = a; d1 = b; d2 = c; d3 = d }

unfoldable pub items_of : Option (List Bytes) → Result Ipv4
unfolding bytes_of
items_of none = throw out_of_fuel
items_of (some items) =
    if ltb 4 (length items)
    then throw invalid_argument
    else (bytes_of items >>= λ r. ok (arrange r))

unfoldable pub parse_items : Bytes → Result Ipv4
unfolding str_split items_of
parse_items str = items_of (str_split str (codes "."))

abbrev pub is_found : Option ℕ → Bool
is_found none = false
is_found (some i) = true

unfoldable pub has_dot : Bytes → Bool
unfolding find
has_dot str = is_found (find str (codes "."))

-- `ipv4::parse` behind the search for a slash
unfoldable pub parse_text : Bool → Bytes → Result Ipv4
unfolding has_dot parse_items stoi stoul
parse_text little str =
    if is_empty str
    then ok zero_addr
    else if starts_with str (codes "0x")
    then if ltb 10 (length str)
      then throw invalid_argument
      else (stoul 16 str >>= λ r.
          if not (r.1 == length str)
          then throw invalid_argument
          else ok (of_word little (r.0 % 2 ^ 32)))
    else if not (has_dot str)
    then (stoi 10 str >>= λ r.
        if not (r.1 == length str)
        then throw invalid_argument
        else ok (of_word little (word_of r.0)))
    else parse_items str

-- `ipv4::parse`
unfoldable pub parse_addr : Bool → Bytes → Result Ipv4
unfolding find parse_text
parse_addr little s = parse_text little (before_slash s)

-- `ipv4::set` of a string
unfoldable pub set_addr : Bool → Bytes → Result Ipv4
unfolding parse_addr
set_addr little n = if is_empty n then ok zero_addr else parse_addr little n

unfoldable pub addr_to_string : Ipv4 → Bytes
unfolding decimal
addr_to_string a =
    decimal a.d0 ++ (b'.' ∷ (decimal a.d1 ++ (b'.' ∷ (decimal a.d2 ++ (b'.' ∷ decimal a.d3)))))

-- `ipv4_mask::set` of an address, which tells a wildcard by two bits of the word.
unfoldable pub set_mask_addr : Bool → Ipv4 → Result ℕ
unfolding set_wildcard set_netmask
set_mask_addr little v =
    if (to_word little v / 2 ^ 31 % 2 == 0) && not (to_word little v % 2 == 0)
    then set_wildcard v
    else set_netmask v

-- `ipv4_mask::parse`
unfoldable pub parse_mask : Bool → Bytes → Result ℕ
unfolding has_dot parse_addr set_mask_addr stoi
parse_mask little s =
    if not (has_dot s)
    then (stoi 10 s >>= λ r.
        if not (r.1 == length s)
        then throw invalid_argument
        else if ltb_ℤ r.0 (pos 0) || ltb_ℤ (pos 32) r.0
        then throw invalid_argument
        else ok (pos_part r.0))
    else (parse_addr little s >>= λ a. set_mask_addr little a)

unfoldable pub set_mask : Bool → Bytes → Result ℕ
unfolding parse_mask
set_mask little n = if is_empty n then ok 0 else parse_mask little n

unfoldable pub cidr_of : Bool → Bytes → Option ℕ → Result Cidr
unfolding set_addr set_mask
cidr_of little s none = throw invalid_argument
cidr_of little s (some i) = set_addr little (take i s) >>= λ addr.
    set_mask little (drop (suc i) s) >>= λ prefix. ok (record { addr = addr; prefix = prefix })

-- `ipv4_cidr::parse`
unfoldable pub parse_cidr : Bool → Bytes → Result Cidr
unfolding find cidr_of
parse_cidr little s = cidr_of little s (find s (codes "/"))

unfoldable pub cidr_to_string : Cidr → Bytes
unfolding addr_to_string
cidr_to_string c = addr_to_string c.addr ++ (b'/' ∷ decimal c.prefix)

-- The operators of `ipv4`; the other side is an address or a text.
pub data Relation : Type 0 where
  eq ne lt gt le ge : Relation

unfoldable pub holds_of : Relation → Ordering → Bool
holds_of eq Ordering.eq = true
holds_of eq Ordering.lt = false
holds_of eq Ordering.gt = false
holds_of ne Ordering.eq = false
holds_of ne Ordering.lt = true
holds_of ne Ordering.gt = true
holds_of lt Ordering.lt = true
holds_of lt Ordering.eq = false
holds_of lt Ordering.gt = false
holds_of gt Ordering.gt = true
holds_of gt Ordering.eq = false
holds_of gt Ordering.lt = false
holds_of le Ordering.gt = false
holds_of le Ordering.eq = true
holds_of le Ordering.lt = true
holds_of ge Ordering.lt = false
holds_of ge Ordering.eq = true
holds_of ge Ordering.gt = true

unfoldable pub compares_addr : Relation → Ipv4 → Ipv4 → Bool
unfolding compare_addr holds_of
compares_addr r a b = holds_of r (compare_addr a b)

unfoldable pub compares_text : Bool → Relation → Ipv4 → Bytes → Result Bool
unfolding compares_addr parse_addr
compares_text little r a s = parse_addr little s >>= λ b. ok (compares_addr r a b)

-- The operators of `ipv4_mask` and of `ipv4_cidr`
unfoldable pub compares_mask : Relation → ℕ → ℕ → Bool
unfolding holds_of
compares_mask r a b = holds_of r (compare a b)

unfoldable pub compares_mask_text : Bool → Relation → ℕ → Bytes → Result Bool
unfolding compares_mask parse_mask
compares_mask_text little r a s = parse_mask little s >>= λ b. ok (compares_mask r a b)

unfoldable pub compares_cidr : Relation → Cidr → Cidr → Bool
unfolding holds_of compare_cidr
compares_cidr r a b = holds_of r (compare_cidr a b)

unfoldable pub compares_cidr_text : Bool → Relation → Cidr → Bytes → Result Bool
unfolding compares_cidr parse_cidr
compares_cidr_text little r a s = parse_cidr little s >>= λ b. ok (compares_cidr r a b)
