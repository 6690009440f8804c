-- ===== src/Network/Mac/Digits.antt =====
-- The digits of a hardware address in its text (src/network/mac.cpp).
use nanodistro.Base.{
  ℕ, Bool-cases, invalid_argument, ◌+◌, ◌*◌, ◌/◌, ◌%◌, ◌≤◌, ◌<◌, Bool, true, false, ◌&&◌, ◌||◌, ltb,
  [], ◌∷◌, ◌++◌, map, append_assoc, append-nil, ◌-◌, Bytes, length, length-append, ◌==◌, Result, ok,
  throw, ◌>>=◌, All, ◌≡◌, refl, sym, ap, ◌∙◌, arith, if◌then◌else◌, ◌⊎◌, inl, inr,
}
use nanodistro.Text.{hex2dec, dec2hex}
use nanodistro.Text.Chars.{hex2dec-dec2hex}
use nanodistro.Network.Mac.{Mac, mac_digits, pair_up, parse_mac, mac_byte, mac_rest, mac_to_string}

-- The digits of a byte, the other way round.
abbrev pub swap_digits : ℕ → ℕ
swap_digits d = d % 16 * 16 + d / 16

-- A character for a digit.
abbrev hex_char : ℕ → Bool → ℕ
hex_char n upper = if ltb n 10 then 48 + n else (if upper then 65 else 97) + (n - 10)

dec2hex-char : (n : ℕ) (upper : Bool) → n < 16 → dec2hex n upper ≡ ok (hex_char n upper)
unfolding dec2hex
dec2hex-char n true h = ground arith
dec2hex-char n false h = ground arith

hex2dec-char : (n : ℕ) (upper : Bool) → n < 16 → hex2dec (hex_char n upper) ≡ ok n
hex2dec-char n upper h =
    sym (ap (λ (r : Result ℕ). r >>= hex2dec) (dec2hex-char n upper h)) ∙ hex2dec-dec2hex n upper h

no_separator :
    (n : ℕ) (upper : Bool) → n < 16 → (hex_char n upper == 58 || hex_char n upper == 45) ≡ false
no_separator n true h = ground arith
no_separator n false h = ground arith

abbrev byte_text : ℕ → Bool → Bytes
byte_text d upper = hex_char (d % 16) upper ∷ hex_char (d / 16) upper ∷ []

mac_byte-text : (d : ℕ) (upper : Bool) → d < 16 → mac_byte d upper ≡ ok (byte_text d upper)
unfolding mac_byte
mac_byte-text d upper h =
    let low : d % 256 ≡ d % 16 = omega (arith, h) in
    let high : d / 16 % 256 ≡ d / 16 = omega (arith, h) in
    rw (low, high)
      (rw
        (dec2hex-char (d % 16) upper (omega arith), dec2hex-char (d / 16) upper (omega (arith, h)))
        refl)

abbrev more_text : Mac → Bytes → Bool → Bytes
more_text [] sep upper = []
more_text (d ∷ m) sep upper = sep ++ (byte_text d upper ++ more_text m sep upper)

mac_rest-text :
    (m : Mac) (sep : Bytes) (upper : Bool)
    → All (λ d. d < 16) m
    → mac_rest m sep upper ≡ ok (more_text m sep upper)
unfolding mac_rest
mac_rest-text [] sep upper h = refl
mac_rest-text (d ∷ m) sep upper h =
    rw (mac_byte-text d upper h.0, mac_rest-text m sep upper h.1) refl

-- The values of the digits, in the order in which they are written.
abbrev halves : Mac → Bytes
halves [] = []
halves (d ∷ m) = d % 16 ∷ d / 16 ∷ halves m

pair_up-halves : (m : Mac) → pair_up (halves m) ≡ map swap_digits m
unfolding pair_up
pair_up-halves [] = refl
pair_up-halves (d ∷ m) = ap (◌∷◌ (swap_digits d)) (pair_up-halves m)

length-halves : (m : Mac) → length (halves m) ≡ 2 * length m
length-halves [] = refl
length-halves (d ∷ m) = omega (arith, length-halves m)

-- Nothing, a colon or a dash between the bytes.
abbrev pub IsSeparator : Bytes → Type 0
IsSeparator [] = Unit
IsSeparator (c ∷ []) = (c == 58 || c == 45) ≡ true
IsSeparator (c ∷ d ∷ s) = ⊥

mac_digits-char :
    (n : ℕ) (upper : Bool) (s values : Bytes)
    → n < 16
    → length values < 12
    → mac_digits (hex_char n upper ∷ s) values ≡ mac_digits s (values ++ n ∷ [])
unfolding mac_digits
mac_digits-char n upper s values h room =
    let fits : ltb (length values) 12 ≡ true = ground arith in
    rw (no_separator n upper h) (rw (hex2dec-char n upper h) (rw fits refl))

mac_digits-byte :
    (d : ℕ) (upper : Bool) (s values : Bytes)
    → d < 16
    → length values + 2 ≤ 12
    → mac_digits (byte_text d upper ++ s) values ≡ mac_digits s (values ++ (d % 16 ∷ d / 16 ∷ []))
mac_digits-byte d upper s values h room =
    mac_digits-char (d % 16) upper (hex_char (d / 16) upper ∷ s) values (omega arith) (omega arith)
    ∙ mac_digits-char (d / 16) upper s (values ++ d % 16 ∷ []) (omega arith)
        (omega (arith, length-append values (d % 16 ∷ [])))
    ∙ ap (mac_digits s) (append_assoc values (d % 16 ∷ []) (d / 16 ∷ []))

mac_digits-sep :
    (sep s values : Bytes)
    → IsSeparator sep
    → 0 < length values
    → length values % 2 ≡ 0
    → mac_digits (sep ++ s) values ≡ mac_digits s values
unfolding mac_digits
mac_digits-sep [] s values h some_values even = refl
mac_digits-sep (c ∷ []) s values h some_values even =
    let inside : (ltb 0 (length values) && length values % 2 == 0) ≡ true = ground arith in
    rw h (rw inside refl)
mac_digits-sep (c ∷ d ∷ r) s values h some_values even = absurd h

mac_digits-more :
    (m : Mac) (sep : Bytes) (upper : Bool) (values : Bytes)
    → IsSeparator sep
    → All (λ d. d < 16) m
    → 0 < length values
    → length values % 2 ≡ 0
    → length values + 2 * length m ≤ 12
    → mac_digits (more_text m sep upper) values ≡ ok (values ++ halves m)
unfolding mac_digits
mac_digits-more [] sep upper values h g some_values even room = ap ok (sym (append-nil values))
mac_digits-more (d ∷ m) sep upper values h g some_values even room =
    let both : Bytes = d % 16 ∷ d / 16 ∷ [] in
    let l : length (values ++ both) ≡ length values + 2 = length-append values both in
    mac_digits-sep sep (byte_text d upper ++ more_text m sep upper) values h some_values even
    ∙ mac_digits-byte d upper (more_text m sep upper) values g.0 (omega arith)
    ∙ mac_digits-more m sep upper (values ++ both) h g.1 (omega arith) (omega arith) (omega arith)
    ∙ ap ok (append_assoc values both (halves m))

mac_to_string-text :
    (d : ℕ) (m : Mac) (sep : Bytes) (upper : Bool)
    → All (λ d. d < 16) (d ∷ m)
    → mac_to_string (d ∷ m) sep upper ≡ ok (byte_text d upper ++ more_text m sep upper)
unfolding mac_to_string
mac_to_string-text d m sep upper h =
    rw (mac_byte-text d upper h.0, mac_rest-text m sep upper h.1) refl

-- The text of an address whose bytes are all below 16, with nothing, a colon or a dash between its
-- bytes and in either case, is read back as an address whose bytes have their two digits swapped.
pub parse_mac-to_string :
    (m : Mac) (sep : Bytes) (upper : Bool)
    → length m ≡ 6
    → All (λ d. d < 16) m
    → IsSeparator sep
    → (mac_to_string m sep upper >>= parse_mac) ≡ ok (map swap_digits m)
unfolding parse_mac
parse_mac-to_string [] sep upper l h g = absurd (omega (arith, l))
parse_mac-to_string (d ∷ m) sep upper l h g =
    let both : Bytes = d % 16 ∷ d / 16 ∷ [] in
    let read : mac_digits (byte_text d upper ++ more_text m sep upper) [] ≡ ok (halves (d ∷ m)) =
      mac_digits-byte d upper (more_text m sep upper) [] h.0 (omega arith)
      ∙ mac_digits-more m sep upper both g h.1 (omega arith) (omega arith) (omega (arith, l)) in
    let twelve : (length (halves (d ∷ m)) == 12) ≡ true =
      ground (arith, l, length-halves (d ∷ m)) in
    rw (mac_to_string-text d m sep upper h) (rw (read, twelve) (ap ok (pair_up-halves (d ∷ m))))

-- The text of a byte of 16 or more ends with an exception.
mac_byte-throws :
    (d : ℕ) (upper : Bool) → 16 ≤ d → d < 256 → mac_byte d upper ≡ throw invalid_argument
unfolding mac_byte dec2hex
mac_byte-throws d upper low high =
    let e : d % 256 ≡ d = omega (arith, high) in
    let large : ltb 15 d ≡ true = ground (arith, low) in rw e (rw large refl)

-- Any other byte has a text, or ends with the same exception.
mac_byte-cases :
    (d : ℕ) (upper : Bool)
    → ((t : Bytes) × (mac_byte d upper ≡ ok t)) ⊎ (mac_byte d upper ≡ throw invalid_argument)
unfolding mac_byte dec2hex
mac_byte-cases d upper =
    go (dec2hex (d % 256) upper) (dec2hex (d / 16 % 256) upper) (one (d % 256)) (one (d / 16 % 256))
  where
    one :
        (n : ℕ) → ((c : ℕ) × (dec2hex n upper ≡ ok c)) ⊎ (dec2hex n upper ≡ throw invalid_argument)
    one n = elim (Bool-cases (ltb 15 n)) [
      | inl e ↦ inr (rw (e, dec2hex) refl)
      | inr e ↦ inl (hex_char n upper, dec2hex-char n upper (ground (arith, e)))
    ]

    go :
        (r s : Result ℕ)
        → ((c : ℕ) × (r ≡ ok c)) ⊎ (r ≡ throw invalid_argument)
        → ((c : ℕ) × (s ≡ ok c)) ⊎ (s ≡ throw invalid_argument)
        → ((t : Bytes) × ((r >>= (λ a. s >>= (λ b. ok (a ∷ b ∷ [])))) ≡ ok t))
          ⊎ ((r >>= (λ a. s >>= (λ b. ok (a ∷ b ∷ [])))) ≡ throw invalid_argument)
    go r s (inr e) v = inr (rw e refl)
    go r s (inl (a, e)) (inr f) = inr (rw e (rw f refl))
    go r s (inl (a, e)) (inl (b, f)) = inl (a ∷ b ∷ [], rw e (rw f refl))

mac_rest-throws :
    (front : Mac) (d : ℕ) (back : Mac) (sep : Bytes) (upper : Bool)
    → 16 ≤ d
    → d < 256
    → mac_rest (front ++ d ∷ back) sep upper ≡ throw invalid_argument
unfolding mac_rest
mac_rest-throws [] d back sep upper low high = rw (mac_byte-throws d upper low high) refl
mac_rest-throws (c ∷ front) d back sep upper low high = elim (mac_byte-cases c upper) [
  | inl (t, e) ↦ rw (e, mac_rest-throws front d back sep upper low high) refl
  | inr e ↦ rw e refl
]

-- An address with a byte of 16 or more anywhere has no text: the call ends with an exception.
pub mac_to_string-throws :
    (front : Mac) (d : ℕ) (back : Mac) (sep : Bytes) (upper : Bool)
    → 16 ≤ d
    → d < 256
    → mac_to_string (front ++ d ∷ back) sep upper ≡ throw invalid_argument
unfolding mac_to_string
mac_to_string-throws [] d back sep upper low high = rw (mac_byte-throws d upper low high) refl
mac_to_string-throws (c ∷ front) d back sep upper low high = elim (mac_byte-cases c upper) [
  | inl (t, e) ↦ rw (e, mac_rest-throws front d back sep upper low high) refl
  | inr e ↦ rw e refl
]
