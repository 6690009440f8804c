-- ===== src/Network/Routes.antt =====
-- `ipv4_route_table::find` (src/network/ipv4_route.cpp) takes a route with the longest prefix.
use mathlib.Core.Option.{some-injective}
use nanodistro.Base.{
  ℕ, ◌≤◌, Bool, true, false, ◌&&◌, ◌||◌, List, [], ◌∷◌, Option, none, some, ◌≡◌, refl, sym, ◌⊎◌,
  inl, inr, arith, All, Bool-cases, if◌then◌else◌, Result, ok, throw, errno_error,
}
use nanodistro.Base.Int.{ℤ, pos, negsuc, ltb_ℤ, eqb_ℤ, ◌≤ℤ◌}
use nanodistro.Network.{Ipv4, Route, is_addr_in, find_loop, found_or, find_route, int32_max}

-- The route is one of the list.
abbrev pub OneOf : Route → List Route → Type 0
OneOf r [] = ⊥
OneOf r (q ∷ routes) = (r ≡ q) ⊎ OneOf r routes

module _ (little : Bool) (dest : Ipv4) where
  -- A route that does not match, or has no longer prefix.
  abbrev pub Shorter : ℕ → Route → Type 0
  Shorter p q = (is_addr_in little q.dest dest ≡ false) ⊎ (q.dest.prefix ≤ p)

  abbrev Fit : Option Route → ℤ → Type 0
  Fit none bp = bp ≡ negsuc 0
  Fit (some b) bp = (is_addr_in little b.dest dest ≡ true) × (bp ≡ pos b.dest.prefix)

  -- What the loop makes of the routes that are left.
  abbrev Chosen : Option Route → ℤ → List Route → Option Route → Type 0
  Chosen best bp routes none =
      (best ≡ none) × All (λ q. is_addr_in little q.dest dest ≡ false) routes
  Chosen best bp routes (some r) =
      ((best ≡ some r) ⊎ OneOf r routes)
      × (is_addr_in little r.dest dest ≡ true)
      × (bp ≤ℤ pos r.dest.prefix)
      × All (Shorter r.dest.prefix) routes

  start : (best : Option Route) (bp : ℤ) → Fit best bp → Chosen best bp [] best
  start none bp f = (refl, tt)
  start (some b) bp f = (inl refl, f.0, ground arith, tt)

  skip :
      (best : Option Route) (bp : ℤ) (r : Route) (routes : List Route) (o : Option Route)
      → is_addr_in little r.dest dest ≡ false
      → Chosen best bp routes o
      → Chosen best bp (r ∷ routes) o
  skip best bp r routes none away c = (c.0, (away, c.1))
  skip best bp r routes (some s) away (inl e, i, l, a) = (inl e, i, l, (inl away, a))
  skip best bp r routes (some s) away (inr e, i, l, a) = (inr (inr e), i, l, (inl away, a))

  keep :
      (best : Option Route) (bp : ℤ) (r : Route) (routes : List Route) (o : Option Route)
      → Fit best bp
      → ltb_ℤ bp (pos r.dest.prefix) ≡ false
      → Chosen best bp routes o
      → Chosen best bp (r ∷ routes) o
  keep none bp r routes o f n c = absurd (ground arith)
  keep (some b) bp r routes none f n (e, a) = absurd (ground arith)
  keep (some b) bp r routes (some s) f n (inl e, i, l, a) = (inl e, i, l, (inr (ground arith), a))
  keep (some b) bp r routes (some s) f n (inr e, i, l, a) =
      (inr (inr e), i, l, (inr (ground arith), a))

  change :
      (best : Option Route) (bp : ℤ) (r : Route) (routes : List Route) (o : Option Route)
      → bp ≤ℤ pos r.dest.prefix
      → Chosen (some r) (pos r.dest.prefix) routes o
      → Chosen best bp (r ∷ routes) o
  change best bp r routes none l (e, a) = absurd (ground arith)
  change best bp r routes (some s) l (inl e, i, k, a) =
      (inr (inl (sym (some-injective r s e))), i, ground arith, (inr (ground arith), a))
  change best bp r routes (some s) l (inr e, i, k, a) =
      (inr (inr e), i, ground arith, (inr (ground arith), a))

  find_loop-Chosen :
      (routes : List Route) (best : Option Route) (bp bm : ℤ)
      → Fit best bp
      → Chosen best bp routes (find_loop little dest routes best bp bm)
  unfolding find_loop
  find_loop-Chosen [] best bp bm f = start best bp f
  find_loop-Chosen (r ∷ routes) best bp bm f =
      let p : ℤ = pos r.dest.prefix in
      let m : ℤ = if ltb_ℤ r.metric (pos 0) then int32_max else r.metric in
      elim (Bool-cases (is_addr_in little r.dest dest)) [
        | inr away ↦ rw away (skip best bp r routes _ away (find_loop-Chosen routes best bp bm f))
        | inl here ↦ elim (Bool-cases (ltb_ℤ bp p || (eqb_ℤ p bp && ltb_ℤ m bm))) [
          | inl z ↦
              rw (here, z)
                (change best bp r routes _ (ground arith)
                  (find_loop-Chosen routes (some r) p r.metric (here, refl)))
          | inr z ↦
              rw (here, z)
                (keep best bp r routes _ f (ground arith) (find_loop-Chosen routes best bp bm f))
        ]
      ]

  -- What `find` ends with: a route of the table that matches and has the longest prefix of those
  -- that do, or the exception, and then none matches.
  abbrev pub IsLongest : List Route → Result Route → Type 0
  IsLongest routes (ok r) =
      OneOf r routes × (is_addr_in little r.dest dest ≡ true) × All (Shorter r.dest.prefix) routes
  IsLongest routes (throw e) =
      (e ≡ errno_error) × All (λ q. is_addr_in little q.dest dest ≡ false) routes

  -- `find` returns a route of the table that matches the address, with the longest prefix of those
  -- that match, and throws just when none matches, whatever the byte order and the metrics are.
  pub find_route-IsLongest :
      (routes : List Route) → IsLongest routes (find_route little dest routes)
  unfolding find_route
  find_route-IsLongest routes =
      go (find_loop little dest routes none (negsuc 0) int32_max)
        (find_loop-Chosen routes none (negsuc 0) int32_max refl)
    where
      go :
          (o : Option Route)
          → Chosen none (negsuc 0) routes o
          → IsLongest routes (found_or errno_error o)
      go none (e, a) = (refl, a)
      go (some r) (inl e, i, l, a) = absurd (ground arith)
      go (some r) (inr e, i, l, a) = (e, i, a)
