-- ===== src/Text/Joined.antt =====
-- A text that was joined with a byte is split there again (str_split of src/lib/strings.cpp).
use nanodistro.Base.{
  drop, take-append, drop-behind, ℕ, zero, suc, ◌+◌, ◌≤◌, ◌<◌, ◌≡◌, refl, ap, ◌∙◌, true, false,
  List, [], ◌∷◌, ◌++◌, Bytes, length, length-append, All, ◌==◌, none, some, arith,
}
use nanodistro.Text.{find, split_loop}

-- A text without a byte.
abbrev pub Lacks : ℕ → Bytes → Type 0
Lacks c s = All (λ x. (x == c) ≡ false) s

pub find-here :
    (c : ℕ) (x rest : Bytes) → Lacks c x → find (x ++ c ∷ rest) (c ∷ []) ≡ some (length x)
unfolding find
find-here c [] rest h = let e : (c == c) ≡ true = ground arith in rw e refl
find-here c (y ∷ x) rest h = rw (h.0, find-here c x rest h.1) refl

pub find-none : (c : ℕ) (x : Bytes) → Lacks c x → find x (c ∷ []) ≡ none
unfolding find
find-none c [] h = refl
find-none c (y ∷ x) h = rw (h.0, find-none c x h.1) refl

-- Texts with a byte between them.
abbrev pub dotted : ℕ → List Bytes → Bytes → Bytes
dotted c [] end = end
dotted c (x ∷ xs) end = x ++ c ∷ dotted c xs end

pub split_loop-dotted :
    (c fuel : ℕ) (xs : List Bytes) (end : Bytes)
    → All (Lacks c) xs
    → Lacks c end
    → length xs < fuel
    → split_loop (c ∷ []) fuel (dotted c xs end) ≡ some (xs ++ end ∷ [])
unfolding split_loop
split_loop-dotted c zero xs end h g l = absurd (omega (arith, l))
split_loop-dotted c (suc fuel) [] end h g l = rw (find-none c end g, split_loop) refl
split_loop-dotted c (suc fuel) (x ∷ xs) end h g l =
    let one_more : length x + 1 ≡ suc (length x) = omega arith in
    let behind : drop (length x + 1) (x ++ c ∷ dotted c xs end) ≡ dotted c xs end =
      ap (λ (n : ℕ). drop n (x ++ c ∷ dotted c xs end)) one_more
      ∙ drop-behind x c (dotted c xs end) in
    let rest : split_loop (c ∷ []) fuel (dotted c xs end) ≡ some (xs ++ end ∷ []) =
      split_loop-dotted c fuel xs end h.1 g (omega (arith, l)) in
    rw
      (
        find-here c x (dotted c xs end) h.0,
        take-append x (c ∷ dotted c xs end),
        behind,
        rest,
        split_loop,
      )
      refl

pub dotted-long : (c : ℕ) (xs : List Bytes) (end : Bytes) → length xs ≤ length (dotted c xs end)
dotted-long c [] end = omega arith
dotted-long c (x ∷ xs) end =
    omega (arith, dotted-long c xs end, length-append x (c ∷ dotted c xs end))
