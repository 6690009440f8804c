-- ===== src/Network/Ipv6/Items.antt =====
-- The items of the text of an IPv6 address: a printed value is read back, and a text is split at its
-- colons (src/network/ipv6.cpp, str_split of src/lib/strings.cpp).
use native.Mathlib.Nat.{pow-suc}
use nanodistro.Base.{
  ℕ, zero, suc, ◌+◌, ◌-◌, ◌*◌, ◌/◌, ◌%◌, ◌^◌, ◌≤◌, ◌<◌, Bool, true, false, ◌&&◌, ◌||◌, List, [],
  ◌∷◌, ◌++◌, Bytes, length, length-append, is_empty, drop, take-append, drop-behind, ltb, ◌==◌,
  if◌then◌else◌, Option, some, ok, All, ◌≡◌, refl, ap, ◌∙◌, arith, Bool-cases, inl, inr, All-map,
}
use nanodistro.Base.Int.{pos}
use nanodistro.Text.{split_loop, str_trim_start, in_range}
use nanodistro.Text.Number.{
  digit_of, scan, starts_with_digit, skip_prefix, unsigned_part, signed_part, with_index, strto,
  stoi,
}
use nanodistro.Text.Joined.{Lacks, find-here, find-none}
use nanodistro.Network.Ipv6.{hex_digit, print_hex, hex_text, segment}

-- A digit that is printed, in either case.
abbrev pub IsHex : ℕ → Type 0
IsHex c = (in_range 48 57 c || in_range 65 70 c || in_range 97 102 c) ≡ true

hex_digit-IsHex : (upper : Bool) (d : ℕ) → d < 16 → IsHex (hex_digit upper d)
hex_digit-IsHex true d h = ground arith
hex_digit-IsHex false d h = ground arith

digit_of-hex_digit : (upper : Bool) (d : ℕ) → d < 16 → digit_of (hex_digit upper d) ≡ d
digit_of-hex_digit true d h = ground arith
digit_of-hex_digit false d h = ground arith

scan-hex_digit :
    (upper : Bool) (d n : ℕ) (out : Bytes)
    → d < 16
    → scan 16 (hex_digit upper d ∷ out) n ≡ scan 16 out (n * 16 + d)
unfolding scan
scan-hex_digit upper d n out h =
    let e : digit_of (hex_digit upper d) ≡ d = digit_of-hex_digit upper d h in
    let l : ltb d 16 ≡ true = ground arith in rw (e, l) refl

scan-print_hex :
    (upper : Bool) (fuel n : ℕ) (out : Bytes)
    → n < 16 ^ suc fuel
    → scan 16 (print_hex upper fuel n out) 0 ≡ scan 16 out n
unfolding print_hex
scan-print_hex upper zero n out h =
    let m : n % 16 ≡ n = omega (arith, h) in
    rw m (scan-hex_digit upper n 0 out (omega arith) ∙ ap (λ (t : ℕ). scan 16 out t) (omega arith))
scan-print_hex upper (suc fuel) n out h = elim (Bool-cases (ltb n 16)) [
  | inl e ↦
      let m : n % 16 ≡ n = ground arith in
      rw e (
        rw m (
          scan-hex_digit upper n 0 out (ground arith)
          ∙ ap (λ (t : ℕ). scan 16 out t) (omega arith)))
  | inr e ↦
      let back : n / 16 * 16 + n % 16 ≡ n = omega arith in
      rw e (
        scan-print_hex upper fuel (n / 16) (hex_digit upper (n % 16) ∷ out)
          (omega (arith, h, pow-suc 16 (suc fuel)))
        ∙ scan-hex_digit upper (n % 16) (n / 16) out (omega arith)
        ∙ ap (λ (t : ℕ). scan 16 out t) back)
]

print_hex-IsHex :
    (upper : Bool) (fuel n : ℕ) (out : Bytes)
    → All IsHex out
    → All IsHex (print_hex upper fuel n out)
      × (is_empty (print_hex upper fuel n out) ≡ false)
      × (length (print_hex upper fuel n out) ≤ suc fuel + length out)
      × (0 < length (print_hex upper fuel n out))
unfolding print_hex
print_hex-IsHex upper zero n out h =
    ((hex_digit-IsHex upper (n % 16) (omega arith), h), refl, omega arith, omega arith)
print_hex-IsHex upper (suc fuel) n out h = elim (Bool-cases (ltb n 16)) [
  | inl e ↦ rw e ((hex_digit-IsHex upper (n % 16) (omega arith), h), refl, omega arith, omega arith)
  | inr e ↦
      let (a, b, c, d) =
        print_hex-IsHex upper fuel (n / 16) (hex_digit upper (n % 16) ∷ out)
          (hex_digit-IsHex upper (n % 16) (omega arith), h) in
      rw e (a, b, omega (arith, c), d)
]

-- Hexadecimal digits are a number, and nothing is skipped in front of them.
strto-hex :
    (c : ℕ) (ds : Bytes)
    → All IsHex (c ∷ ds)
    → strto 16 (c ∷ ds)
      ≡ some (false, (scan 16 (c ∷ ds) 0).0, length (c ∷ ds) - length (scan 16 (c ∷ ds) 0).1)
unfolding strto str_trim_start
strto-hex c ds h =
    let digit : ltb (digit_of c) 16 ≡ true = ground (arith, h.0) in
    let found : unsigned_part 16 (c ∷ ds) ≡ some (scan 16 (c ∷ ds) 0) =
      rw (no_prefix c ds h) (rw digit refl) in
    ap (λ (t : Bytes). with_index (c ∷ ds) (signed_part 16 t)) (trimmed c ds h.0)
    ∙ ap (with_index (c ∷ ds)) (unsigned c ds h.0)
    ∙ ap (λ (t : Option (ℕ × Bytes)). with_index (c ∷ ds) (false, t)) found
  where
    trimmed : (c : ℕ) (s : Bytes) → IsHex c → str_trim_start (c ∷ s) ≡ c ∷ s
    trimmed c s h =
        let space : (in_range 9 13 c || c == 32) ≡ false = ground (arith, h) in
        rw (space, str_trim_start) refl

    unsigned :
        (c : ℕ) (s : Bytes) → IsHex c → signed_part 16 (c ∷ s) ≡ (false, unsigned_part 16 (c ∷ s))
    unsigned c s h =
        let minus : (c == b'-') ≡ false = ground (arith, h) in
        let plus : (c == b'+') ≡ false = ground (arith, h) in rw (minus, plus, signed_part) refl

    same :
        (b : Bool) (c x : ℕ) (s : Bytes)
        → (if b && false && starts_with_digit 16 s then s else c ∷ x ∷ s) ≡ c ∷ x ∷ s
    same true c x s = refl
    same false c x s = refl

    no_prefix : (c : ℕ) (s : Bytes) → All IsHex (c ∷ s) → skip_prefix 16 (c ∷ s) ≡ c ∷ s
    no_prefix c [] h = refl
    no_prefix c (x ∷ s) h =
        let lower : (x == b'x') ≡ false = ground (arith, h.1.0) in
        let upper : (x == b'X') ≡ false = ground (arith, h.1.0) in
        rw (lower, upper) (same (16 == 16 && c == b'0') c x s)

-- What a printed value is: digits, one to four, no empty text.
pub record IsItem (t : Bytes) : Type 0 where
  pub digits : All IsHex t
  pub full : is_empty t ≡ false
  pub short : length t ≤ 4
  pub long : 0 < length t

pub hex_text-IsItem : (upper : Bool) (n : ℕ) → IsItem (hex_text upper n)
unfolding hex_text
hex_text-IsItem upper n =
    let (a, b, c, d) = print_hex-IsHex upper 3 n [] tt in
    record { digits = a; full = b; short = omega (arith, c); long = d }

pub digits-Lacks :
    (c : ℕ) (t : Bytes)
    → (in_range 48 57 c || in_range 65 70 c || in_range 97 102 c) ≡ false
    → All IsHex t
    → Lacks c t
digits-Lacks c t h g = All-map IsHex (λ x. (x == c) ≡ false) t (λ x e. ground (arith, h, e)) g

stoi-digits :
    (c : ℕ) (ds : Bytes) (n : ℕ)
    → All IsHex (c ∷ ds)
    → scan 16 (c ∷ ds) 0 ≡ (n, [])
    → n < 65536
    → stoi 16 (c ∷ ds) ≡ ok (pos n, length (c ∷ ds))
unfolding stoi
stoi-digits c ds n v e h =
    let fits : ltb 2147483647 n ≡ false = ground (arith, h) in
    let found : strto 16 (c ∷ ds) ≡ some (false, n, length (c ∷ ds)) =
      strto-hex c ds v
      ∙ ap (λ (r : ℕ × Bytes). some (false, r.0, length (c ∷ ds) - length r.1)) e
      ∙ ap (λ (k : ℕ). some (false, n, k)) (omega arith) in
    rw (found, stoi) (rw fits refl)

segment-digits :
    (t : Bytes) (n : ℕ) → IsItem t → scan 16 t 0 ≡ (n, []) → n < 65536 → segment t ≡ ok n
unfolding segment
segment-digits [] n v e h = absurd (ground (arith, v.full))
segment-digits (c ∷ ds) n v e h =
    let some_digits : (length (c ∷ ds) == 0) ≡ false = ground arith in
    let few : ltb 4 (length (c ∷ ds)) ≡ false = ground (arith, v.short) in
    rw (stoi-digits c ds n v.digits e h) (rw (some_digits, few) (ground (arith, h)))

-- A printed value is read back by the number of its digits.
pub segment-hex_text : (upper : Bool) (n : ℕ) → n < 65536 → segment (hex_text upper n) ≡ ok n
unfolding hex_text scan
segment-hex_text upper n h =
    segment-digits (print_hex upper 3 n []) n (hex_text-IsItem upper n)
      (scan-print_hex upper 3 n [] (omega (arith, h))) h

-- What a text is split into at its colons.
abbrev pub Splits : Bytes → List Bytes → Type 0
Splits s items = (fuel : ℕ) → length s < fuel → split_loop (58 ∷ []) fuel s ≡ some items

pub Splits-one : (x : Bytes) → Lacks 58 x → Splits x (x ∷ [])
unfolding split_loop
Splits-one x h zero l = absurd (omega (arith, l))
Splits-one x h (suc fuel) l = rw (find-none 58 x h, split_loop) refl

pub Splits-more :
    (x rest : Bytes) (items : List Bytes)
    → Lacks 58 x
    → Splits rest items
    → Splits (x ++ 58 ∷ rest) (x ∷ items)
unfolding split_loop
Splits-more x rest items h s zero l = absurd (omega (arith, l))
Splits-more x rest items h s (suc fuel) l =
    let one_more : length x + 1 ≡ suc (length x) = omega arith in
    let behind : drop (length x + 1) (x ++ 58 ∷ rest) ≡ rest =
      ap (λ (n : ℕ). drop n (x ++ 58 ∷ rest)) one_more ∙ drop-behind x 58 rest in
    let on : split_loop (58 ∷ []) fuel rest ≡ some items =
      s fuel (omega (arith, l, length-append x (58 ∷ rest))) in
    rw (find-here 58 x rest h, take-append x (58 ∷ rest), behind, on, split_loop) refl
