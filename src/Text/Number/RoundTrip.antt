-- ===== src/Text/Number/RoundTrip.antt =====
-- A printed number is read back (src/lib/strings.cpp and the other parts that print and read).
use nanodistro.Base.{
  is_empty, ℕ, zero, suc, ◌+◌, ◌-◌, ◌*◌, ◌/◌, ◌%◌, ◌≤◌, ◌<◌, true, false, ◌||◌, [], ◌∷◌, ◌++◌,
  Bytes, length, ltb, ◌==◌, some, Option, ok, All, ◌≡◌, refl, sym, ap, ◌∙◌, arith, length-append,
  append-nil, Bool-cases, inl, inr,
}
use nanodistro.Base.Int.{pos}
use nanodistro.Text.{in_range, str_trim_start, isdigit}
use nanodistro.Text.Number.{
  digit_of, scan, starts_with_digit, skip_prefix, unsigned_part, signed_part, with_index, strto,
  stoi, print, decimal,
}

-- The number ends here.
abbrev pub IsEnd : Bytes → Type 0
IsEnd rest = starts_with_digit 10 rest ≡ false

scan-end : (rest : Bytes) (n : ℕ) → IsEnd rest → scan 10 rest n ≡ (n, rest)
unfolding scan
scan-end [] n h = refl
scan-end (c ∷ rest) n h = rw h refl

scan-digit :
    (d n : ℕ) (out : Bytes) → d < 10 → scan 10 ((b'0' + d) ∷ out) n ≡ scan 10 out (n * 10 + d)
unfolding scan
scan-digit d n out h =
    let e : digit_of (b'0' + d) ≡ d = ground arith in
    let l : ltb d 10 ≡ true = ground arith in rw (e, l)

-- Reading the printed digits is reading on after the number.
scan-print : (fuel n : ℕ) (out : Bytes) → n ≤ fuel → scan 10 (print fuel n out) 0 ≡ scan 10 out n
unfolding print
scan-print zero n out h = let z : n ≡ 0 = omega arith in rw z (scan-digit 0 0 out (omega arith))
scan-print (suc fuel) n out h = elim (Bool-cases (ltb n 10)) [
  | inl e ↦
      let m : n % 10 ≡ n = ground arith in
      rw e (rw m (scan-digit n 0 out (ground arith) ∙ ap (λ (t : ℕ). scan 10 out t) (omega arith)))
  | inr e ↦
      let back : n / 10 * 10 + n % 10 ≡ n = omega arith in
      rw e (
        scan-print fuel (n / 10) ((b'0' + n % 10) ∷ out) (ground arith)
        ∙ scan-digit (n % 10) (n / 10) out (omega arith)
        ∙ ap (λ (t : ℕ). scan 10 out t) back)
]

print-append :
    (fuel n : ℕ) (out rest : Bytes) → print fuel n out ++ rest ≡ print fuel n (out ++ rest)
unfolding print
print-append zero n out rest = refl
print-append (suc fuel) n out rest = elim (Bool-cases (ltb n 10)) [
  | inl e ↦ rw e refl
  | inr e ↦ rw e (print-append fuel (n / 10) ((b'0' + n % 10) ∷ out) rest)
]

-- Digits, at least one.
abbrev pub IsDigits : Bytes → Type 0
IsDigits [] = ⊥
IsDigits (c ∷ ds) = (isdigit c ≡ true) × All (λ d. isdigit d ≡ true) ds

pub digits-not_empty : (ds : Bytes) → IsDigits ds → is_empty ds ≡ false
digits-not_empty [] h = absurd h
digits-not_empty (c ∷ ds) h = refl

print-IsDigits :
    (fuel n : ℕ) (out : Bytes) → All (λ d. isdigit d ≡ true) out → IsDigits (print fuel n out)
unfolding print
print-IsDigits zero n out h = (ground arith, h)
print-IsDigits (suc fuel) n out h = elim (Bool-cases (ltb n 10)) [
  | inl e ↦ rw e (ground arith, h)
  | inr e ↦ rw e (print-IsDigits fuel (n / 10) ((b'0' + n % 10) ∷ out) (ground arith, h))
]

pub decimal-IsDigits : (n : ℕ) → IsDigits (decimal n)
unfolding decimal
decimal-IsDigits n = print-IsDigits n n [] tt

pub decimal-Lacks : (c n : ℕ) → isdigit c ≡ false → All (λ x. (x == c) ≡ false) (decimal n)
decimal-Lacks c n h = all (decimal n) (decimal-IsDigits n)
  where
    byte : (x : ℕ) → isdigit x ≡ true → (x == c) ≡ false
    byte x g = ground (arith, h, g)

    rest : (ds : Bytes) → All (λ d. isdigit d ≡ true) ds → All (λ x. (x == c) ≡ false) ds
    rest [] g = tt
    rest (x ∷ ds) g = (byte x g.0, rest ds g.1)

    all : (ds : Bytes) → IsDigits ds → All (λ x. (x == c) ≡ false) ds
    all [] g = absurd g
    all (x ∷ ds) g = rest (x ∷ ds) g

scan-decimal : (n : ℕ) (rest : Bytes) → IsEnd rest → scan 10 (decimal n ++ rest) 0 ≡ (n, rest)
unfolding decimal
scan-decimal n rest h =
    rw (print-append n n [] rest) (scan-print n n rest (omega arith) ∙ scan-end rest n h)

skip_prefix-ten : (s : Bytes) → skip_prefix 10 s ≡ s
skip_prefix-ten [] = refl
skip_prefix-ten (c ∷ []) = refl
skip_prefix-ten (c ∷ x ∷ s) = refl

-- Digits are read from the first one on: there is nothing to skip and no sign.
strto-digits :
    (ds rest : Bytes)
    → IsDigits ds
    → strto 10 (ds ++ rest)
      ≡ some (
        false,
        (scan 10 (ds ++ rest) 0).0,
        length (ds ++ rest) - length (scan 10 (ds ++ rest) 0).1,
      )
unfolding strto str_trim_start
strto-digits [] rest h = absurd h
strto-digits (c ∷ ds) rest h =
    let whole : Bytes = c ∷ (ds ++ rest) in
    let digit : ltb (digit_of c) 10 ≡ true = ground (arith, h.0) in
    let found : unsigned_part 10 whole ≡ some (scan 10 whole 0) =
      rw (skip_prefix-ten whole) (rw digit refl) in
    ap (λ (t : Bytes). with_index whole (signed_part 10 t)) (trimmed c (ds ++ rest) h.0)
    ∙ ap (with_index whole) (unsigned c (ds ++ rest) h.0)
    ∙ ap (λ (t : Option (ℕ × Bytes)). with_index whole (false, t)) found
  where
    trimmed : (c : ℕ) (s : Bytes) → isdigit c ≡ true → str_trim_start (c ∷ s) ≡ c ∷ s
    trimmed c s h =
        let space : (in_range 9 13 c || c == 32) ≡ false = ground (arith, h) in
        rw (space, str_trim_start) refl

    unsigned :
        (c : ℕ) (s : Bytes)
        → isdigit c ≡ true
        → signed_part 10 (c ∷ s) ≡ (false, unsigned_part 10 (c ∷ s))
    unsigned c s h =
        let minus : (c == b'-') ≡ false = ground (arith, h) in
        let plus : (c == b'+') ≡ false = ground (arith, h) in rw (minus, plus, signed_part) refl

strto-decimal :
    (n : ℕ) (rest : Bytes)
    → IsEnd rest
    → strto 10 (decimal n ++ rest) ≡ some (false, n, length (decimal n))
strto-decimal n rest h =
    let e : length (decimal n ++ rest) - length rest ≡ length (decimal n) =
      omega (arith, length-append (decimal n) rest) in
    strto-digits (decimal n) rest (decimal-IsDigits n) ∙ rw (scan-decimal n rest h) (rw e refl)

-- A printed number is read back with the number of its digits, when no further digit follows and it
-- is an `int`.
pub stoi-decimal :
    (n : ℕ) (rest : Bytes)
    → IsEnd rest
    → n ≤ 2147483647
    → stoi 10 (decimal n ++ rest) ≡ ok (pos n, length (decimal n))
unfolding stoi
stoi-decimal n rest h fits =
    let e : ltb 2147483647 n ≡ false = ground arith in rw (strto-decimal n rest h, stoi) (rw e refl)

pub stoi-decimal_whole :
    (n : ℕ) → n ≤ 2147483647 → stoi 10 (decimal n) ≡ ok (pos n, length (decimal n))
stoi-decimal_whole n fits =
    ap (λ (t : Bytes). stoi 10 t) (sym (append-nil (decimal n))) ∙ stoi-decimal n [] refl fits
