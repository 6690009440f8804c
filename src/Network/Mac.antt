-- ===== src/Network/Mac.antt =====
-- Hardware addresses (src/network/mac.cpp): six bytes.
pub mod Digits
use Prim.Native.Nat.{compare, Ordering}
use nanodistro.Base.{
  ℕ, ◌+◌, ◌*◌, ◌/◌, ◌%◌, Bool, true, false, not, ◌&&◌, ◌||◌, List, [], ◌∷◌, ◌++◌, Bytes, length,
  is_empty, take, ltb, leb, ◌==◌, if◌then◌else◌, Result, ok, throw, ◌>>=◌, invalid_argument,
  undefined,
}
use nanodistro.Text.{hex2dec, dec2hex}
use nanodistro.Network.Addresses.{Relation, holds_of}

-- The member `d`.
abbrev pub Mac : Type 0
Mac = Bytes

abbrev pub empty_mac : Mac
empty_mac = 0 ∷ 0 ∷ 0 ∷ 0 ∷ 0 ∷ 0 ∷ []

-- The loop of `parse`: what is left of the string, and the values in `data` so far. The loop's own
-- test lets `off` reach the 48 bytes of `data`, which has room for twelve values.
unfoldable pub mac_digits : Bytes → Bytes → Result Bytes
mac_digits [] values = ok values
mac_digits (c ∷ s) values =
    let skipped = mac_digits s values in
    if c == 58 || c == 45
    then (if ltb 0 (length values) && length values % 2 == 0
        then skipped
        else throw invalid_argument)
    else hex2dec c
      >>= (λ v. if ltb (length values) 12 then mac_digits s (values ++ v ∷ []) else throw undefined)

-- `m.d[i]=data[i*2]<<4|data[i*2+1]`
unfoldable pub pair_up : Bytes → Bytes
pair_up [] = []
pair_up (a ∷ []) = []
pair_up (a ∷ b ∷ values) = (a * 16 + b) ∷ pair_up values

unfoldable pub parse_mac : Bytes → Result Mac
unfolding mac_digits pair_up
parse_mac str =
    if is_empty str
    then ok empty_mac
    else mac_digits str []
      >>= (λ values. if length values == 12 then ok (pair_up values) else throw invalid_argument)

-- `set` of a `socket_address`: its length, its family and the bytes of `sa_data`
unfoldable pub set_mac_socket : ℕ → ℕ → Bytes → Result Mac
set_mac_socket len family data_bytes =
    if ltb len 8
    then throw invalid_argument
    else if not (family == 1)
    then throw invalid_argument
    else ok (take 6 data_bytes)

-- What `to_string` appends for a byte: the first of the two values is the whole byte.
unfoldable pub mac_byte : ℕ → Bool → Result Bytes
mac_byte d upper =
    dec2hex (d % 256) upper >>= (λ a. dec2hex (d / 16 % 256) upper >>= (λ b. ok (a ∷ b ∷ [])))

unfoldable pub mac_rest : Mac → Bytes → Bool → Result Bytes
unfolding mac_byte
mac_rest [] sep upper = ok []
mac_rest (d ∷ m) sep upper =
    mac_byte d upper >>= (λ t. mac_rest m sep upper >>= (λ rest. ok (sep ++ (t ++ rest))))

unfoldable pub mac_to_string : Mac → Bytes → Bool → Result Bytes
unfolding mac_rest
mac_to_string [] sep upper = ok []
mac_to_string (d ∷ m) sep upper =
    mac_byte d upper >>= (λ t. mac_rest m sep upper >>= (λ rest. ok (t ++ rest)))

-- `set` of a string
unfoldable pub set_mac : Bytes → Result Mac
unfolding parse_mac
set_mac n = if is_empty n then ok empty_mac else parse_mac n

-- `memcmp`
unfoldable pub compare_bytes : Bytes → Bytes → Ordering
compare_bytes [] ys = Ordering.eq
compare_bytes (x ∷ xs) [] = Ordering.eq
compare_bytes (x ∷ xs) (y ∷ ys) =
    let rest = compare_bytes xs ys in
    elim (compare x y) [
      | Ordering.lt ↦ Ordering.lt
      | Ordering.eq ↦ rest
      | Ordering.gt ↦ Ordering.gt
    ]

unfoldable pub compares_mac : Relation → Mac → Mac → Bool
unfolding compare_bytes holds_of
compares_mac r a b = holds_of r (compare_bytes a b)

unfoldable pub compares_mac_text : Relation → Mac → Bytes → Result Bool
unfolding compares_mac parse_mac
compares_mac_text r a s = parse_mac s >>= (λ b. ok (compares_mac r a b))
