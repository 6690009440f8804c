-- ===== src/Json/Escapes.antt =====
-- The escapes of a path (src/lib/json.cpp, src/lib/escape.cpp).
use nanodistro.Base.{
  ℕ, true, false, ◌||◌, [], ◌∷◌, ◌++◌, append_assoc, Bytes, some, ◌==◌, Result, ok, ◌≡◌, Bool-cases,
  inl, inr, refl, ap, arith,
}
use nanodistro.Json.{
  Scan, simple_escape, escape_len, escape_parse, begin_escape, in_escape, escape_byte, look_byte,
  look_loop,
}

escape_len-simple : (c v : ℕ) → simple_escape c ≡ some v → escape_len c ≡ some 1
unfolding escape_len
escape_len-simple c v h = rw (h, escape_len) refl

escape_parse-simple : (c v : ℕ) → simple_escape c ≡ some v → escape_parse (c ∷ []) ≡ ok (v ∷ [])
unfolding escape_parse
escape_parse-simple c v h = rw (h, escape_parse) refl

-- The variables behind an escape, with what it has added to the key.
abbrev pub with_key {ℓ} : {A : Type ℓ} → Scan A → Bytes → Scan A
with_key st more = record st { key = st.key ++ more; in_esc = false; esc_len = 0; esc = [] }

module _ {ℓ} {A : Type ℓ} (push : Bytes → A → Result A) where
  escape_byte-simple :
      (c v : ℕ) (st : Scan A)
      → simple_escape c ≡ some v
      → escape_byte push c (begin_escape st) ≡ ok (with_key st (v ∷ c ∷ []))
  unfolding escape_byte in_escape begin_escape
  escape_byte-simple c v st h =
      rw (escape_len-simple c v h, escape_parse-simple c v h)
        (ap (λ (k : Bytes). ok (record st { key = k; in_esc = false; esc_len = 0; esc = [] }))
          (append_assoc st.key (v ∷ []) (c ∷ [])))

  look_byte-begin :
      (sep : ℕ) (st : Scan A)
      → st.in_esc ≡ false
      → ((st.last_quote == 0) || (st.last_quote == 34)) ≡ true
      → look_byte push sep 92 st ≡ ok (begin_escape st)
  unfolding look_byte
  look_byte-begin sep st e q = elim (Bool-cases (st.last_quote == 0)) [
    | inl z ↦ rw (e, z, look_byte) refl
    | inr z ↦
        let back : (92 == st.last_quote) ≡ false = ground (arith, q, z) in
        let single : (st.last_quote == 39) ≡ false = ground (arith, q, z) in
        rw (e, z, back, single, look_byte) refl
  ]

  -- Outside of single quotes an escape of one character adds the character that it stands for, and
  -- then its own letter as well.
  pub look_loop-escape :
      (sep c v : ℕ) (path : Bytes) (st : Scan A)
      → simple_escape c ≡ some v
      → st.in_esc ≡ false
      → ((st.last_quote == 0) || (st.last_quote == 34)) ≡ true
      → look_loop push sep (92 ∷ c ∷ path) st ≡ look_loop push sep path (with_key st (v ∷ c ∷ []))
  unfolding look_loop
  look_loop-escape sep c v path st h e q =
      rw (look_byte-begin sep st e q) (rw (escape_byte-simple c v st h, look_byte) refl)
