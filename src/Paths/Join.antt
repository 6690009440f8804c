-- ===== src/Paths/Join.antt =====
-- A path is joined again from its two parts (src/lib/paths.cpp).
use nanodistro.Base.{
  ℕ, suc, false, [], ◌∷◌, ◌++◌, Bytes, codes, take, drop, ◌==◌, none, some, ◌≡◌, refl, sym, ap, ap₂,
  subst, ◌∙◌, arith, Option-cases, Bool-cases, inl, inr,
}
use mathlib.Core.Option.{some-injective}
use nanodistro.Text.{starts_with, ends_with, str_remove_end}
use nanodistro.Text.Joined.{Lacks}
use nanodistro.Paths.{rfind, part_after, part_before, path_basename, path_dirname, path_join}

rfind-none : (c : ℕ) (s : Bytes) → rfind c s ≡ none → Lacks c s
unfolding rfind
rfind-none c [] h = tt
rfind-none c (x ∷ s) h = elim (Option-cases (rfind c s)) [
  | inl e ↦ (ground (arith, h, e), rfind-none c s e)
  | inr (i, e) ↦ absurd (ground (arith, h, e))
]

-- What the last byte stands between.
abbrev IsLast : ℕ → ℕ → Bytes → Type 0
IsLast c i s = (s ≡ take i s ++ c ∷ drop (suc i) s) × Lacks c (drop (suc i) s)

rfind-IsLast : (c i : ℕ) (s : Bytes) → rfind c s ≡ some i → IsLast c i s
unfolding rfind
rfind-IsLast c i [] h = absurd (ground (arith, h))
rfind-IsLast c i (x ∷ s) h = elim (Option-cases (rfind c s)) [
  | inr (j, e) ↦
      let (parts, lacks) = rfind-IsLast c j s e in
      let k : suc j ≡ i = some-injective (suc j) i (sym (rw e refl) ∙ h) in
      subst (λ (t : ℕ). IsLast c t (x ∷ s)) k (ap (◌∷◌ x) parts, lacks)
  | inl e ↦ elim (Bool-cases (x == c)) [
    | inr z ↦ absurd (ground (arith, h, e, z))
    | inl z ↦
        let k : 0 ≡ i = ground (arith, h, e, z) in
        let same : x ≡ c = ground (arith, z) in
        subst (λ (t : ℕ). IsLast c t (x ∷ s)) k (ap (λ (t : ℕ). t ∷ s) same, rfind-none c s e)
  ]
]

no_slash : (s : Bytes) → Lacks b'/' s → starts_with s (codes "/") ≡ false
no_slash [] h = refl
no_slash (c ∷ s) h = rw h.0 refl

kept :
    (path : Bytes) → ends_with path (codes "/") ≡ false → (str_remove_end path (codes "/")).0 ≡ path
unfolding str_remove_end
kept path h = rw (h, str_remove_end) refl

path_dirname-take :
    (path : Bytes) (i : ℕ)
    → ends_with path (codes "/") ≡ false
    → rfind b'/' path ≡ some i
    → path_dirname path ≡ take i path
unfolding path_dirname
path_dirname-take path i h f =
    ap (λ (p : Bytes). part_before p (rfind b'/' p)) (kept path h) ∙ ap (part_before path) f

path_basename-drop :
    (path : Bytes) (i : ℕ)
    → ends_with path (codes "/") ≡ false
    → rfind b'/' path ≡ some i
    → path_basename path ≡ drop (suc i) path
unfolding path_basename
path_basename-drop path i h f =
    ap (λ (p : Bytes). part_after p (rfind b'/' p)) (kept path h) ∙ ap (part_after path) f

joined :
    (dir file : Bytes)
    → starts_with file (codes "/") ≡ false
    → ends_with dir (codes "/") ≡ false
    → path_join dir file ≡ dir ++ b'/' ∷ file
unfolding path_join
joined dir file h g = rw (h, g, path_join) refl

-- A path that has a slash, does not end in one, and whose directory does not end in one, is its
-- directory joined with its base name.
pub path_join-parts :
    (path : Bytes) (i : ℕ)
    → ends_with path (codes "/") ≡ false
    → rfind b'/' path ≡ some i
    → ends_with (path_dirname path) (codes "/") ≡ false
    → path_join (path_dirname path) (path_basename path) ≡ path
path_join-parts path i whole found single =
    let (parts, lacks) = rfind-IsLast b'/' i path found in
    let base : path_basename path ≡ drop (suc i) path = path_basename-drop path i whole found in
    joined (path_dirname path) (path_basename path)
      (ap (λ (t : Bytes). starts_with t (codes "/")) base ∙ no_slash (drop (suc i) path) lacks)
      single
    ∙ ap₂ (λ (d f : Bytes). d ++ b'/' ∷ f) (path_dirname-take path i whole found) base
    ∙ sym parts
