-- ===== src/Url/Resolve/Idempotent.antt =====
-- What `url::relative` makes of a path (src/lib/url/url.cpp) has no dots left.
use nanodistro.Base.{
  is_empty, All-append, ◌≡◌, refl, sym, ap, ◌∙◌, Bool, true, false, not, ◌&&◌, Bool-cases, inl, inr,
  List, [], ◌∷◌, ◌++◌, append-nil, append_assoc, Bytes, codes, eqb, All, arith, ◌==◌,
}
use nanodistro.Url.Resolve.{ends_in_slash, parts, pop, walk, join_parts, resolve}

-- A part has bytes and no slash, a name is no dots either.
abbrev pub NoSlash : Bytes → Type 0
NoSlash s = All (λ c. (c == b'/') ≡ false) s

abbrev pub IsPart : Bytes → Type 0
IsPart s = (is_empty s ≡ false) × NoSlash s

abbrev pub IsName : Bytes → Type 0
IsName s = (IsPart s) × (eqb s (codes ".") ≡ false) × (eqb s (codes "..") ≡ false)

empty-snoc {ℓ} : {A : Type ℓ} (xs : List A) (y : A) → is_empty (xs ++ y ∷ []) ≡ false
empty-snoc [] y = refl
empty-snoc (x ∷ xs) y = refl

parts-IsPart : (part s : Bytes) → NoSlash part → All IsPart (parts part s)
unfolding parts
parts-IsPart part [] h = elim (Bool-cases (is_empty part)) [
  | inl e ↦ rw e tt
  | inr e ↦ rw e ((e, h), tt)
]
parts-IsPart part (c ∷ s) h = elim (Bool-cases (c == b'/')) [
  | inr e ↦ rw e (parts-IsPart (part ++ c ∷ []) s (All-append _ part (c ∷ []) h (e, tt)))
  | inl e ↦ elim (Bool-cases (is_empty part)) [
    | inl g ↦ rw (e, g) (parts-IsPart [] s tt)
    | inr g ↦ rw (e, g) ((g, h), parts-IsPart [] s tt)
  ]
]

pub pop-All {κ} : (P : Bytes → Type κ) (stack : List Bytes) → All P stack → All P (pop stack)
unfolding pop
pop-All P [] h = tt
pop-All P (x ∷ stack) h = elim (Bool-cases (is_empty stack)) [
  | inl e ↦ rw e tt
  | inr e ↦ rw e (h.0, pop-All P stack h.1)
]

walk-IsName :
    (stack rest : List Bytes) → All IsName stack → All IsPart rest → All IsName (walk stack rest)
unfolding walk
walk-IsName stack [] h g = h
walk-IsName stack (part ∷ rest) h g = elim (Bool-cases (eqb part (codes ".."))) [
  | inl e ↦ rw e (walk-IsName (pop stack) rest (pop-All IsName stack h) g.1)
  | inr e ↦ elim (Bool-cases (eqb part (codes "."))) [
    | inl d ↦ rw (e, d) (walk-IsName stack rest h g.1)
    | inr d ↦
        rw (e, d, g.0.0)
          (walk-IsName (stack ++ part ∷ []) rest
            (All-append IsName stack (part ∷ []) h ((g.0, d, e), tt)) g.1)
  ]
]

-- Names are all kept.
walk-names : (stack names : List Bytes) → All IsName names → walk stack names ≡ stack ++ names
unfolding walk
walk-names stack [] h = sym (append-nil stack)
walk-names stack (part ∷ rest) h =
    rw (h.0.2, h.0.1, h.0.0.0)
      (walk-names (stack ++ part ∷ []) rest h.1 ∙ append_assoc stack (part ∷ []) rest)

parts-append : (part x rest : Bytes) → NoSlash x → parts part (x ++ rest) ≡ parts (part ++ x) rest
unfolding parts
parts-append part [] rest h = ap (λ (t : Bytes). parts t rest) (sym (append-nil part))
parts-append part (c ∷ x) rest h = rw h.0 (
    parts-append (part ++ c ∷ []) x rest h.1
    ∙ ap (λ (t : Bytes). parts t rest) (append_assoc part (c ∷ []) x))

-- The end of a path: nothing, or a slash.
abbrev end : Bool → Bytes
end false = []
end true = codes "/"

parts-last : (x : Bytes) (b : Bool) → IsPart x → parts x (end b) ≡ x ∷ []
unfolding parts
parts-last x false h = rw h.0 refl
parts-last x true h = rw h.0 refl

parts-slash : (x rest : Bytes) → IsPart x → parts x (b'/' ∷ rest) ≡ x ∷ parts [] rest
unfolding parts
parts-slash x rest h = rw h.0 refl

parts-join :
    (names : List Bytes) (b : Bool)
    → All IsName names
    → parts [] (join_parts names ++ end b) ≡ names
unfolding join_parts
parts-join [] false h = unfold parts in refl
parts-join [] true h = unfold parts in refl
parts-join (x ∷ []) b h = parts-append [] x (end b) h.0.0.1 ∙ parts-last x b h.0.0
parts-join (x ∷ y ∷ names) b h =
    let rest : Bytes = join_parts (y ∷ names) in
    ap (parts []) (append_assoc x (b'/' ∷ rest) (end b))
    ∙ parts-append [] x (b'/' ∷ (rest ++ end b)) h.0.0.1
    ∙ parts-slash x (rest ++ end b) h.0.0
    ∙ ap (◌∷◌ x) (parts-join (y ∷ names) b h.1)

ends-slash : (s : Bytes) → ends_in_slash (s ++ codes "/") ≡ true
unfolding ends_in_slash
ends-slash [] = refl
ends-slash (c ∷ s) = rw (empty-snoc s b'/') (ends-slash s)

-- A resolved path by its names: the flag says that there is a slash behind them.
abbrev Path_of : List Bytes → Bool → Bytes
Path_of names b = b'/' ∷ (join_parts names ++ end b)

resolve-names :
    (path : Bytes) (names : List Bytes)
    → walk [] (parts [] path) ≡ names
    → resolve path
      ≡ Path_of names (ends_in_slash path && not (ends_in_slash (b'/' ∷ join_parts names)))
unfolding resolve
resolve-names path names h =
    rw h (elim (Bool-cases (ends_in_slash path && not (ends_in_slash (b'/' ∷ join_parts names)))) [
      | inl e ↦ rw e refl
      | inr e ↦ rw e (ap (◌∷◌ b'/') (sym (append-nil (join_parts names))))
    ])

-- The slash behind the names is found again, and no second one is added.
slash-kept :
    (names : List Bytes) (b : Bool)
    → let short : Bool = ends_in_slash (b'/' ∷ join_parts names) in
      ends_in_slash (Path_of names (b && not short)) && not short ≡ b && not short
slash-kept names b = elim (Bool-cases (b && not (ends_in_slash (b'/' ∷ join_parts names)))) [
  | inl e ↦
      let open_end : not (ends_in_slash (b'/' ∷ join_parts names)) ≡ true = ground (arith, e) in
      rw (e, open_end, ends-slash (b'/' ∷ join_parts names)) refl
  | inr e ↦ rw (e, append-nil (join_parts names)) (self (ends_in_slash (b'/' ∷ join_parts names)))
]
  where
    self : (b : Bool) → b && not b ≡ false
    self b = ground arith

parts-Path_of :
    (names : List Bytes) (b : Bool) → All IsName names → parts [] (Path_of names b) ≡ names
parts-Path_of names b h = step (join_parts names ++ end b) ∙ parts-join names b h
  where
    step : (s : Bytes) → parts [] (b'/' ∷ s) ≡ parts [] s
    step s = unfold parts in refl

-- The path before it is decoded consists of names: it has no empty part, no `.` and no `..`, and to
-- resolve it again changes nothing.
pub resolve-resolve :
    (path : Bytes) → All IsName (parts [] (resolve path)) × (resolve (resolve path) ≡ resolve path)
resolve-resolve path =
    let names : List Bytes = walk [] (parts [] path) in
    let good : All IsName names = walk-IsName [] (parts [] path) tt (parts-IsPart [] path tt) in
    let b : Bool = ends_in_slash path && not (ends_in_slash (b'/' ∷ join_parts names)) in
    let e : resolve path ≡ Path_of names b = resolve-names path names refl in
    let again : parts [] (Path_of names b) ≡ names = parts-Path_of names b good in
    (
      rw (e, again) good,
      ap resolve e
          ∙ resolve-names (Path_of names b) names (ap (walk []) again ∙ walk-names [] names good)
          ∙ ap (Path_of names) (slash-kept names (ends_in_slash path))
          ∙ sym e,
    )
