-- ===== src/Url/Resolve/Names.antt =====
-- `url::relative` on the path of a reference (src/lib/url/url.cpp): the path it sets.
use nanodistro.Base.{
  ℕ, ◌≡◌, refl, Bool, true, false, not, ◌&&◌, Bool-cases, inl, inr, if◌then◌else◌, is_empty, List,
  [], ◌∷◌, ◌++◌, Bytes, codes, eqb, All, All-append, ◌==◌, none, ok,
}
use nanodistro.Text.{find, starts_with}
use nanodistro.Url.{Url, is_among, set_path}
use nanodistro.Url.Plain.{Avoids, decode-same}
use nanodistro.Url.Resolve.{
  ends_in_slash, up_to_slash, directory, new_path, parts, pop, walk, join_parts, resolve, relative,
}
use nanodistro.Url.Resolve.Idempotent.{IsName, pop-All, resolve-resolve}

-- A reference that is a path: no address of its own, no query and no fragment.
abbrev pub IsPathReference : Bytes → Type 0
IsPathReference path =
    (find path (codes "://") ≡ none)
    × (starts_with path (codes "?") ≡ false)
    × (starts_with path (codes "#") ≡ false)

module _ (P : ℕ → Type 0) (slash : P b'/') where
  parts-All : (part s : Bytes) → All P part → All P s → All (All P) (parts part s)
  unfolding parts
  parts-All part [] h g = elim (Bool-cases (is_empty part)) [
    | inl e ↦ rw e tt
    | inr e ↦ rw e (h, tt)
  ]
  parts-All part (c ∷ s) h g = elim (Bool-cases (c == b'/')) [
    | inr e ↦ rw e (parts-All (part ++ c ∷ []) s (All-append P part (c ∷ []) h (g.0, tt)) g.1)
    | inl e ↦ elim (Bool-cases (is_empty part)) [
      | inl f ↦ rw (e, f) (parts-All [] s tt g.1)
      | inr f ↦ rw (e, f) (h, parts-All [] s tt g.1)
    ]
  ]

  walk-All :
      (stack rest : List Bytes)
      → All (All P) stack
      → All (All P) rest
      → All (All P) (walk stack rest)
  unfolding walk
  walk-All stack [] h g = h
  walk-All stack (part ∷ rest) h g = elim (Bool-cases (eqb part (codes ".."))) [
    | inl e ↦ rw e (walk-All (pop stack) rest (pop-All (All P) stack h) g.1)
    | inr e ↦ elim (Bool-cases (not (eqb part (codes ".")) && not (is_empty part))) [
      | inl d ↦
          rw (e, d)
            (walk-All (stack ++ part ∷ []) rest (All-append (All P) stack (part ∷ []) h (g.0, tt))
              g.1)
      | inr d ↦ rw (e, d) (walk-All stack rest h g.1)
    ]
  ]

  join_parts-All : (xs : List Bytes) → All (All P) xs → All P (join_parts xs)
  unfolding join_parts
  join_parts-All [] h = tt
  join_parts-All (x ∷ []) h = h.0
  join_parts-All (x ∷ y ∷ xs) h =
      All-append P x (b'/' ∷ join_parts (y ∷ xs)) h.0 (slash, join_parts-All (y ∷ xs) h.1)

  resolve-All : (path : Bytes) → All P path → All P (resolve path)
  unfolding resolve
  resolve-All path h =
      let resolved : Bytes = b'/' ∷ join_parts (walk [] (parts [] path)) in
      let g : All P resolved =
        (slash, join_parts-All _ (walk-All [] (parts [] path) tt (parts-All [] path tt h))) in
      elim (Bool-cases (ends_in_slash path && not (ends_in_slash resolved))) [
        | inl e ↦ rw e (All-append P resolved (b'/' ∷ []) g (slash, tt))
        | inr e ↦ rw e g
      ]

  up_to_slash-All : (s : Bytes) → All P s → All P (up_to_slash s)
  unfolding up_to_slash
  up_to_slash-All [] h = tt
  up_to_slash-All (c ∷ s) h = elim (Bool-cases (not (is_empty (up_to_slash s)))) [
    | inl e ↦ rw e (h.0, up_to_slash-All s h.1)
    | inr e ↦ elim (Bool-cases (c == b'/')) [ inl f ↦ rw (e, f) (h.0, tt) | inr f ↦ rw (e, f) tt ]
  ]

  either : (b : Bool) (x y : Bytes) → All P x → All P y → All P (if b then x else y)
  either true x y h g = h
  either false x y h g = g

  new_path-All : (base path : Bytes) → All P base → All P path → All P (new_path base path)
  new_path-All base path h g =
      let dir : All P (directory base) =
        either (is_empty (up_to_slash base)) base (up_to_slash base) h (up_to_slash-All base h) in
      let start : Bytes = if not (ends_in_slash base) then directory base else base in
      let below : All P (start ++ path) =
        All-append P start path (either (not (ends_in_slash base)) (directory base) base dir h) g in
      let rooted : All P (codes "/" ++ path) = (slash, g) in
      either (starts_with path (codes "/")) path
        (if not (is_empty base) then start ++ path else codes "/" ++ path) g
        (either (not (is_empty base)) (start ++ path) (codes "/" ++ path) below rooted)

-- A reference that is a path, without `://` and without `?` or `#` in front, is resolved against the
-- path of the address: the query and the fragment are dropped, the other fields kept. The new path
-- consists of names: it has no empty part, no `.` and no `..`, and to resolve it again changes
-- nothing. Neither path has a percent sign or a plus, at which the new path would be decoded.
pub relative-names :
    (u : Url) (path : Bytes)
    → IsPathReference path
    → Avoids (codes "%+") u.path
    → Avoids (codes "%+") path
    → let new = resolve (new_path u.path path) in
      (relative u path ≡ ok (record u { path = new; query = []; fragment = [] }))
      × All IsName (parts [] new)
      × (resolve new ≡ new)
unfolding relative set_path is_among
relative-names u path (plain, query, fragment) h g =
    let new : Bytes = resolve (new_path u.path path) in
    let clean : Avoids (codes "%+") new =
      resolve-All _ refl (new_path u.path path) (new_path-All _ refl u.path path h g) in
    let (names, again) = resolve-resolve (new_path u.path path) in
    (rw (plain, query, fragment, decode-same new clean) refl, names, again)
