-- ===== src/Text/Number.antt =====
-- Numbers in text, as `std::stoi`, `std::stoul` and `std::to_string` read and print them in the "C"
-- locale; the helpers of src/lib/strings.cpp and most other parts call them.
pub mod RoundTrip
use nanodistro.Base.{
  ℕ, zero, suc, ◌+◌, ◌-◌, ◌*◌, ◌/◌, ◌%◌, ◌^◌, Bool, true, false, not, ◌&&◌, ◌||◌, List, [], ◌∷◌,
  ◌++◌, Bytes, length, drop, ltb, leb, ◌==◌, if◌then◌else◌, Option, none, some, Result, ok, throw,
  ◌>>=◌, std_invalid_argument, std_out_of_range,
}
use nanodistro.Base.Int.{ℤ, pos, negsuc, neg_ℕ}
use nanodistro.Text.{in_range, str_trim_start}

-- The value of a digit; 36 for a character that is none.
abbrev pub digit_of : ℕ → ℕ
digit_of c =
    if in_range b'0' b'9' c
    then c - b'0'
    else if in_range b'a' b'z' c
    then c - b'a' + 10
    else if in_range b'A' b'Z' c
    then c - b'A' + 10
    else 36

-- The value of the digits from here on, after those read so far, and what follows them.
unfoldable pub scan : ℕ → Bytes → ℕ → ℕ × Bytes
scan base [] n = (n, [])
scan base (c ∷ s) n =
    let rest = scan base s (n * base + digit_of c) in
    if ltb (digit_of c) base then rest else (n, c ∷ s)

abbrev pub starts_with_digit : ℕ → Bytes → Bool
starts_with_digit base [] = false
starts_with_digit base (c ∷ s) = ltb (digit_of c) base

-- `0x` in front of a hexadecimal number
abbrev pub skip_prefix : ℕ → Bytes → Bytes
skip_prefix base [] = []
skip_prefix base (c ∷ []) = c ∷ []
skip_prefix base (c ∷ x ∷ s) =
    if base == 16 && c == b'0' && (x == b'x' || x == b'X') && starts_with_digit 16 s
    then s
    else c ∷ x ∷ s

abbrev pub unsigned_part : ℕ → Bytes → Option (ℕ × Bytes)
unsigned_part base s =
    if starts_with_digit base (skip_prefix base s)
    then some (scan base (skip_prefix base s) 0)
    else none

-- Whether there is a minus, the value, and what follows the number.
unfoldable pub signed_part : ℕ → Bytes → Bool × Option (ℕ × Bytes)
signed_part base [] = (false, none)
signed_part base (c ∷ s) =
    if c == b'-'
    then (true, unsigned_part base s)
    else if c == b'+'
    then (false, unsigned_part base s)
    else (false, unsigned_part base (c ∷ s))

abbrev pub with_index : Bytes → Bool × Option (ℕ × Bytes) → Option (Bool × ℕ × ℕ)
with_index s (minus, none) = none
with_index s (minus, some vr) = some (minus, vr.0, length s - length vr.1)

-- The value of `strtol`, which has no bounds here, and the number of bytes read.
unfoldable pub strto : ℕ → Bytes → Option (Bool × ℕ × ℕ)
unfolding signed_part scan
strto base s = with_index s (signed_part base (str_trim_start s))

abbrev pub in_bounds : ℕ → Bool × ℕ × ℕ → Result (ℤ × ℕ)
in_bounds top (minus, n, idx) =
    if ltb (if minus then top + 1 else top) n
    then throw std_out_of_range
    else ok (if minus then neg_ℕ n else pos n, idx)

-- `std::stoi(s,&idx,base)`: the number and `idx`
unfoldable pub stoi : ℕ → Bytes → Result (ℤ × ℕ)
unfolding strto
stoi base s = elim (strto base s) [
  | none ↦ throw std_invalid_argument
  | some r ↦ in_bounds 2147483647 r
]

-- `std::stoul` and `std::stoull`: a minus wraps round.
abbrev pub as_word : Bool × ℕ × ℕ → Result (ℕ × ℕ)
as_word (minus, n, idx) =
    if leb (2 ^ 64) n
    then throw std_out_of_range
    else ok (if minus then (2 ^ 64 - n) % 2 ^ 64 else n, idx)

unfoldable pub stoul : ℕ → Bytes → Result (ℕ × ℕ)
unfolding strto
stoul base s = elim (strto base s) [ none ↦ throw std_invalid_argument | some r ↦ as_word r ]

-- The digits of a number, in front of what follows; a number has fewer than fuel digits to go.
unfoldable pub print : ℕ → ℕ → Bytes → Bytes
print zero n out = (b'0' + n % 10) ∷ out
print (suc fuel) n out =
    let more = print fuel (n / 10) ((b'0' + n % 10) ∷ out) in
    if ltb n 10 then (b'0' + n % 10) ∷ out else more

-- `std::format("{}",n)` of a number that is not negative
unfoldable pub decimal : ℕ → Bytes
unfolding print
decimal n = print n n []

unfoldable pub decimal_int : ℤ → Bytes
unfolding decimal
decimal_int (pos n) = decimal n
decimal_int (negsuc n) = b'-' ∷ decimal (suc n)
