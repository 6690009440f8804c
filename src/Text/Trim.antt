-- ===== src/Text/Trim.antt =====
-- The trimming functions (src/lib/strings.cpp).
use nanodistro.Base.{
  ℕ, zero, suc, ◌-◌, ◌≤◌, ◌<◌, Bool, true, false, ◌&&◌, [], ◌∷◌, ◌++◌, append_assoc, Bytes, length,
  is_empty, take, All, ◌≡◌, refl, sym, ap, ◌∙◌, arith, Bool-cases, inl, inr, if◌then◌else◌,
  length-take,
}
use nanodistro.Text.{
  isspace, str_trim_start, str_trim_end, str_trim, ends_with, str_remove_end, remove_all_loop,
  str_remove_all_end,
}

abbrev pub AllSpace : Bytes → Type 0
AllSpace xs = All (λ c. isspace c ≡ true) xs

trim_start-parts : (str : Bytes) → (pre : Bytes) × AllSpace pre × (pre ++ str_trim_start str ≡ str)
unfolding str_trim_start
trim_start-parts [] = ([], tt, refl)
trim_start-parts (c ∷ str) = elim (Bool-cases (isspace c)) [
  | inl e ↦ let (pre, s, q) = trim_start-parts str in rw e (c ∷ pre, (e, s), ap (◌∷◌ c) q)
  | inr e ↦ rw e ([], tt, refl)
]

trim_end-parts : (str : Bytes) → (post : Bytes) × AllSpace post × (str_trim_end str ++ post ≡ str)
unfolding str_trim_end
trim_end-parts [] = ([], tt, refl)
trim_end-parts (c ∷ str) =
    let (post, s, q) = trim_end-parts str in go (str_trim_end str) refl post s q
  where
    go :
        (t : Bytes)
        → str_trim_end str ≡ t
        → (post : Bytes) → AllSpace post
        → str_trim_end str ++ post ≡ str
        → (post' : Bytes) × AllSpace post'
          × ((if is_empty t && isspace c then [] else c ∷ t) ++ post' ≡ c ∷ str)
    go [] e post s q = elim (Bool-cases (isspace c)) [
      | inl z ↦ rw z (c ∷ post, (z, s), ap (◌∷◌ c) (sym (ap (λ (t : Bytes). t ++ post) e) ∙ q))
      | inr z ↦ rw z (post, s, ap (◌∷◌ c) (sym (ap (λ (t : Bytes). t ++ post) e) ∙ q))
    ]
    go (x ∷ t) e post s q = (post, s, ap (◌∷◌ c) (sym (ap (λ (u : Bytes). u ++ post) e) ∙ q))

trim_start-twice : (str : Bytes) → str_trim_start (str_trim_start str) ≡ str_trim_start str
unfolding str_trim_start
trim_start-twice [] = refl
trim_start-twice (c ∷ str) = elim (Bool-cases (isspace c)) [
  | inl e ↦ rw e (trim_start-twice str)
  | inr e ↦ rw e (rw e refl)
]

trim_end-twice : (str : Bytes) → str_trim_end (str_trim_end str) ≡ str_trim_end str
unfolding str_trim_end
trim_end-twice [] = refl
trim_end-twice (c ∷ str) = go (str_trim_end str) (trim_end-twice str)
  where
    go :
        (t : Bytes)
        → str_trim_end t ≡ t
        → str_trim_end (if is_empty t && isspace c then [] else c ∷ t)
          ≡ (if is_empty t && isspace c then [] else c ∷ t)
    go [] e = elim (Bool-cases (isspace c)) [ inl z ↦ rw z refl | inr z ↦ rw z (rw z refl) ]
    go (x ∷ t) e = rw e refl

trim_end-tail : (c : ℕ) (str : Bytes) → str_trim_end (c ∷ str) ≡ c ∷ str → str_trim_end str ≡ str
unfolding str_trim_end
trim_end-tail c str h = go (str_trim_end str) (isspace c) h
  where
    go : (t : Bytes) (b : Bool) → (if is_empty t && b then [] else c ∷ t) ≡ c ∷ str → t ≡ str
    go [] true e = absurd (ground arith)
    go [] false e = ground arith
    go (x ∷ t) b e = ground arith

-- Bytes that are taken off the front leave no space at the end.
trim_end-trim_start :
    (str : Bytes) → str_trim_end str ≡ str → str_trim_end (str_trim_start str) ≡ str_trim_start str
unfolding str_trim_start str_trim_end
trim_end-trim_start [] h = refl
trim_end-trim_start (c ∷ str) h = elim (Bool-cases (isspace c)) [
  | inr e ↦ rw e h
  | inl e ↦ rw e (trim_end-trim_start str (trim_end-tail c str h))
]

-- What `str_trim` takes off is space, before and behind what is left.
pub str_trim-parts :
    (str : Bytes)
    → (pre : Bytes) × (post : Bytes) × AllSpace pre
      × AllSpace post
      × (pre ++ (str_trim str ++ post) ≡ str)
unfolding str_trim
str_trim-parts str =
    let (post, b, q) = trim_end-parts str in
    let (pre, a, p) = trim_start-parts (str_trim_end str) in
    (
      pre,
      post,
      a,
      b,
      sym (append_assoc pre (str_trim_start (str_trim_end str)) post)
          ∙ ap (λ (t : Bytes). t ++ post) p
          ∙ q,
    )

-- A second `str_trim` finds nothing to take off.
pub str_trim-str_trim : (str : Bytes) → str_trim (str_trim str) ≡ str_trim str
unfolding str_trim
str_trim-str_trim str =
    ap (λ (t : Bytes). str_trim_start t)
      (trim_end-trim_start (str_trim_end str) (trim_end-twice str))
    ∙ trim_start-twice (str_trim_end str)

remove_all_loop-gone :
    (end : Bytes) (fuel : ℕ) (str : Bytes)
    → 0 < length end
    → length str ≤ fuel
    → ends_with (remove_all_loop str end fuel) end ≡ false
unfolding remove_all_loop str_remove_end
remove_all_loop-gone end zero str p h = ground arith
remove_all_loop-gone end (suc fuel) str p h =
    let filled : is_empty end ≡ false = is_empty-pos end p in
    elim (Bool-cases (ends_with str end)) [
      | inr e ↦ rw (filled, e) e
      | inl e ↦
          rw (filled, e)
            (remove_all_loop-gone end fuel (take (length str - length end) str) p
              (ground (arith, length-take (length str - length end) str)))
    ]
  where
    is_empty-pos : (xs : Bytes) → 0 < length xs → is_empty xs ≡ false
    is_empty-pos [] p = absurd (omega arith)
    is_empty-pos (x ∷ xs) p = refl

-- With an ending that is not empty, the string that is left does not end with it.
pub str_remove_all_end-gone :
    (str end : Bytes) → 0 < length end → ends_with (str_remove_all_end str end) end ≡ false
unfolding str_remove_all_end
str_remove_all_end-gone str end pos_n =
    remove_all_loop-gone end (length str) str pos_n (omega arith)
