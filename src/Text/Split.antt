-- ===== src/Text/Split.antt =====
-- `str_split` and `vector_to_string` (src/lib/strings.cpp) are inverse to each other.
use mathlib.Core.Option
use mathlib.Core.Option.{some-injective, none-ne-some}
use nanodistro.Base.{
  ℕ, zero, suc, ◌+◌, ◌<◌, Bool, true, false, List, [], ◌∷◌, ◌++◌, append_assoc, Option, none, some,
  Bytes, length, take, drop, ◌≡◌, refl, sym, ap, ◌∙◌, arith, Option-cases, inl, inr, if◌then◌else◌,
  length-append,
}
use nanodistro.Text.{starts_with, find, split_loop, str_split, join_loop, vector_to_string}

starts_with-parts :
    (str sub : Bytes) → starts_with str sub ≡ true → sub ++ drop (length sub) str ≡ str
starts_with-parts str [] h = refl
starts_with-parts [] (x ∷ sub) h = absurd (ground arith)
starts_with-parts (c ∷ str) (x ∷ sub) h =
    let e : x ≡ c = ground arith in rw e (ap (◌∷◌ c) (starts_with-parts str sub (ground arith)))

-- What is found stands at its place.
pub find-parts :
    (str sub : Bytes) (i : ℕ)
    → find str sub ≡ some i
    → take i str ++ (sub ++ drop (i + length sub) str) ≡ str
unfolding find
find-parts [] [] zero h = refl
find-parts [] [] (suc i) h = absurd (ground arith)
find-parts [] (x ∷ sub) i h = absurd (none-ne-some i h)
find-parts (c ∷ str) sub i h =
    go (starts_with (c ∷ str) sub) refl (find str sub) i (λ k f. find-parts str sub k f) h
  where
    go :
        (b : Bool)
        → starts_with (c ∷ str) sub ≡ b
        → (o : Option ℕ) → (i : ℕ)
        → ((k : ℕ) → o ≡ some k → take k str ++ (sub ++ drop (k + length sub) str) ≡ str)
        → (if b then some 0 else Option.map suc o) ≡ some i
        → take i (c ∷ str) ++ (sub ++ drop (i + length sub) (c ∷ str)) ≡ c ∷ str
    go true e o zero ih h =
        let z : 0 + length sub ≡ length sub = omega arith in
        rw z (starts_with-parts (c ∷ str) sub e)
    go true e o (suc i) ih h = absurd (ground arith)
    go false e none i ih h = absurd (none-ne-some i h)
    go false e (some j) i ih h =
        let q : i ≡ suc j = sym (some-injective (suc j) i h) in
        let z : suc j + length sub ≡ suc (j + length sub) = omega arith in
        rw q (rw z (ap (◌∷◌ c) (ih j refl)))

-- The pieces are never none at all, and joined again they are the string, behind any prefix.
split_loop-parts :
    (sep : Bytes) (fuel : ℕ) (str : Bytes)
    → 0 < length sep
    → length str < fuel
    → (p : Bytes) × (ps : List Bytes) × (split_loop sep fuel str ≡ some (p ∷ ps))
      × ((ret : Bytes) → join_loop sep false (ret ++ p) ps ≡ ret ++ str)
unfolding split_loop join_loop
split_loop-parts sep zero str s h = absurd (omega arith)
split_loop-parts sep (suc fuel) str s h = elim (Option-cases (find str sep)) [
  | inl e ↦ rw (e, split_loop) (str, [], refl, λ ret. refl)
  | inr (i, e) ↦
      let whole : take i str ++ (sep ++ drop (i + length sep) str) ≡ str = find-parts str sep i e in
      let left : Bytes = drop (i + length sep) str in
      let shorter : length left < fuel = omega (
        arith,
        ap (λ (t : Bytes). length t) whole,
        length-append (take i str) (sep ++ left),
        length-append sep left,
      ) in
      let (p, ps, r, j) = split_loop-parts sep fuel left s shorter in
      rw (e, split_loop)
        (rw r (
          take i str,
          p ∷ ps,
          refl,
          λ ret.
              j ((ret ++ take i str) ++ sep)
              ∙ append_assoc (ret ++ take i str) sep left
              ∙ append_assoc ret (take i str) (sep ++ left)
              ∙ ap (λ (t : Bytes). ret ++ t) whole,
        ))
]

-- With a separator that is not empty the split ends, and its pieces joined are the string.
pub vector_to_string-str_split :
    (str sep : Bytes)
    → 0 < length sep
    → (parts : List Bytes) × (str_split str sep ≡ some parts) × (vector_to_string parts sep ≡ str)
unfolding str_split vector_to_string join_loop
vector_to_string-str_split str sep s =
    let (p, ps, e, j) = split_loop-parts sep (suc (length str)) str s (omega arith) in
    (p ∷ ps, e, j [])
