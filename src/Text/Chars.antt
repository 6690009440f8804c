-- ===== src/Text/Chars.antt =====
-- Digits, code points and words (src/lib/strings.cpp).
use nanodistro.Base.{
  Option, none, some, if◌then◌else◌, ℕ, ◌+◌, ◌-◌, ◌*◌, ◌≤◌, ◌<◌, Bool, true, false, ◌&&◌, List, [],
  ◌∷◌, Bytes, ◌≡◌, refl, ap, arith, Bool-cases, inl, inr, leb, ok, ◌>>=◌, eqb, eqb_sound,
}
use nanodistro.Text.{
  hex2dec, dec2hex, str_unicode_to_utf8, one_of, true_words, false_words, string_is_true,
  string_is_false, string_to_lower,
}

-- A digit that `dec2hex` writes, in either case, is read back as its value.
pub hex2dec-dec2hex : (dec : ℕ) (upper : Bool) → dec < 16 → (dec2hex dec upper >>= hex2dec) ≡ ok dec
unfolding hex2dec dec2hex
hex2dec-dec2hex dec true h = ground arith
hex2dec-dec2hex dec false h = ground arith

-- A byte that continues a sequence.
abbrev is_continuation : ℕ → Bool
is_continuation b = leb 128 b && leb b 191

-- The code point that a UTF-8 sequence stands for: by its first byte, with continuation bytes behind
-- it, and in no more bytes than it needs. Surrogates are code points like others.
abbrev pub utf8_decode : Bytes → Option ℕ
utf8_decode (a ∷ []) = if leb a 127 then some a else none
utf8_decode (a ∷ b ∷ []) =
    let u = (a - 192) * 64 + (b - 128) in
    if leb 192 a && leb a 223 && is_continuation b && leb 128 u then some u else none
utf8_decode (a ∷ b ∷ c ∷ []) =
    let u = ((a - 224) * 64 + (b - 128)) * 64 + (c - 128) in
    if leb 224 a && leb a 239 && is_continuation b && is_continuation c && leb 2048 u
    then some u
    else none
utf8_decode (a ∷ b ∷ c ∷ d ∷ []) =
    let u = (((a - 240) * 64 + (b - 128)) * 64 + (c - 128)) * 64 + (d - 128) in
    if leb 240 a
      && leb a 247
      && is_continuation b
      && is_continuation c
      && is_continuation d
      && leb 65536 u
      && leb u 1114111
    then some u
    else none
utf8_decode other = none

-- Every code point, the surrogates included, has a sequence that is well formed and the shortest,
-- and which decodes to it.
pub utf8_decode-str_unicode_to_utf8 :
    (u : ℕ)
    → u ≤ 1114111
    → (bytes : Bytes) × (str_unicode_to_utf8 u ≡ ok bytes) × (utf8_decode bytes ≡ some u)
unfolding str_unicode_to_utf8
utf8_decode-str_unicode_to_utf8 u h = elim (Bool-cases (leb u 127)) [
  | inl a ↦ rw a (_, refl, rw a refl)
  | inr a ↦ rw a (elim (Bool-cases (leb u 2047)) [
    | inl b ↦ rw b (_, refl, ground arith)
    | inr b ↦ rw b (elim (Bool-cases (leb u 65535)) [
      | inl c ↦ rw c (_, refl, ground arith)
      | inr c ↦ let d : leb u 1114111 ≡ true = ground arith in rw (c, d) (_, refl, ground arith)
    ])
  ])
]

-- No word of the first list is in the second.
abbrev disjoint : List Bytes → List Bytes → Bool
disjoint [] vs = true
disjoint (w ∷ ws) vs = (elim (one_of vs w) [ true ↦ false | false ↦ true ]) && disjoint ws vs

one_of-disjoint :
    (ws vs : List Bytes) (str : Bytes)
    → disjoint ws vs ≡ true
    → one_of ws str ≡ true
    → one_of vs str ≡ false
unfolding one_of
one_of-disjoint [] vs str d h = absurd (ground arith)
one_of-disjoint (w ∷ ws) vs str d h = elim (Bool-cases (eqb str w)) [
  | inl e ↦
      let same : one_of vs str ≡ one_of vs w =
        ap (λ (t : Bytes). one_of vs t) (eqb_sound str w e) in
      ground arith
  | inr e ↦ one_of-disjoint ws vs str (ground arith) (ground arith)
]

-- No setting is both true and false.
pub string_is_true-not_false :
    (str : Bytes) → string_is_true str ≡ true → string_is_false str ≡ false
unfolding string_is_true string_is_false one_of eqb
string_is_true-not_false str h = one_of-disjoint true_words false_words (string_to_lower str) refl h
