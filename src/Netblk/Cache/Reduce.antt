-- ===== src/Netblk/Cache/Reduce.antt =====
-- `reduce_sector_` and `reduce_half` (src/netblk/cache.cpp) drop the sectors that were touched
-- longest ago.
use nanodistro.Base.{
  ℕ, zero, suc, ◌/◌, ◌<◌, Bool, true, false, List, [], ◌∷◌, none, some, ◌≡◌, ◌++◌, min, subst, ◌==◌,
  leb, refl, sym, ap, ◌∙◌, append_assoc, append-nil, inl, inr, arith, ok, ltb, Bool-cases,
  Option-cases,
}
use nanodistro.Netblk.Lru.{Lru, sectors}
use nanodistro.Netblk.Lru.Order.{contains, without, Distinct, IsConsistent, sectors-forget}
use nanodistro.Netblk.Backend.{Memory}
use nanodistro.Netblk.Cache.{
  Cache, forget_range, clear_sectors, invalidate_sector, clamp_size, ◌>>=◌, ◌>>◌, gets, pure,
  modify, resume, last_of, reduce_loop, reduce_sector, reduce_half, get_cached_sectors,
}
use nanodistro.Netblk.Cache.Bitmap.{is_set, is_set-lt, fill, count_set}
use nanodistro.Netblk.Cache.Invariant.{Geometry, mapped-ok, total-lt-word, IsValid}
use nanodistro.Netblk.Cache.Invalidate.{invalidate_sector-IsValid}

last_of-contains : (v : ℕ) (xs : List ℕ) → last_of xs ≡ some v → contains v xs ≡ true
last_of-contains v [] h = absurd (ground arith)
last_of-contains v (x ∷ []) h = ground arith
last_of-contains v (x ∷ y ∷ xs) h = ground (arith, last_of-contains v (y ∷ xs) h)

-- A list without a last entry has none.
last_of-none : (xs : List ℕ) → last_of xs ≡ none → xs ≡ []
last_of-none [] h = refl
last_of-none (x ∷ []) h = absurd (ground arith)
last_of-none (x ∷ y ∷ xs) h = absurd (ground (arith, last_of-none (y ∷ xs) h))

-- To clear an entry that is set makes the count less by one.
count_set-fill :
    (v : ℕ) (l : List Bool) → is_set v l ≡ true → count_set l ≡ suc (count_set (fill v 1 false l))
unfolding count_set fill
count_set-fill v [] h = absurd (ground arith)
count_set-fill zero (true ∷ l) h = ap suc (ap count_set (sym (fill-none l)))
  where
    fill-none : (l : List Bool) → fill 0 0 false l ≡ l
    fill-none [] = refl
    fill-none (x ∷ l) = refl
count_set-fill zero (false ∷ l) h = absurd (ground arith)
count_set-fill (suc v) (true ∷ l) h = ap suc (count_set-fill v l h)
count_set-fill (suc v) (false ∷ l) h = count_set-fill v l h

count_set-none : (l : List Bool) → ((i : ℕ) → is_set i l ≡ false) → count_set l ≡ 0
unfolding count_set
count_set-none [] h = refl
count_set-none (true ∷ l) h = absurd (ground (arith, h 0))
count_set-none (false ∷ l) h = count_set-none l (λ i. h (suc i))

-- The last entry of a list without doubles stands nowhere else.
without-last :
    (v : ℕ) (xs : List ℕ) → Distinct xs → last_of xs ≡ some v → xs ≡ without v xs ++ v ∷ []
without-last v [] d h = absurd (ground arith)
without-last v (x ∷ []) d h =
    let e : x ≡ v = ground arith in
    let t : (v == x) ≡ true = ground (arith, e) in rw t (ap (λ (z : ℕ). z ∷ []) e)
without-last v (x ∷ y ∷ xs) d h =
    let here : contains v (y ∷ xs) ≡ true = last_of-contains v (y ∷ xs) h in
    let other : (v == x) ≡ false = elim (Bool-cases (v == x)) [
      | inr e ↦ e
      | inl e ↦
          let same : x ≡ v = ground (arith, e) in
          absurd (ground (arith, d.0, here, ap (λ (z : ℕ). contains z (y ∷ xs)) same))
    ] in
    rw (other, without) (ap (◌∷◌ x) (without-last v (y ∷ xs) d.1 h))

sectors-forget_one :
    (v : ℕ) (l : Lru) → IsConsistent l → sectors (forget_range 1 v l) ≡ without v (sectors l)
unfolding forget_range
sectors-forget_one v l h = sectors-forget v l h

module _ {S : Type 0} (image : Memory) (g : Geometry) where
  -- The cache with its last sector dropped.
  drop_victim :
      (v k : ℕ) (c : Cache S)
      → IsValid image g c
      → last_of (sectors c.lru) ≡ some v
      → count_set c.is_cached ≡ suc k
      → (c' : Cache S) × (invalidate_sector v 1 c ≡ (ok tt, c'))
        × IsValid image g c'
        × (count_set c'.is_cached ≡ k)
        × (sectors c.lru ≡ sectors c'.lru ++ v ∷ [])
  unfolding invalidate_sector ◌>>=◌ gets pure modify clear_sectors
  drop_victim v k c h last count =
      let (m, at, agrees) = h.live in
      let set : is_set v c.is_cached ≡ true =
        sym (h.same v) ∙ last_of-contains v (sectors c.lru) last in
      let inside : v < g.total = omega (arith, is_set-lt v c.is_cached set, h.bits) in
      let early : leb c.total_sectors v ≡ false = ground (arith, inside, h.at_total) in
      let one : clamp_size c.total_sectors v 1 ≡ 1 =
        ground (arith, inside, h.at_total, total-lt-word g) in
      let run : invalidate_sector v 1 c ≡ (ok tt, clear_sectors v 1 m c) =
        rw (mapped-ok c m at, early, one) refl in
      let (i, keeps, gone) =
        invalidate_sector-IsValid image g v 1 v c h (omega (arith, inside, total-lt-word g))
          (omega arith) (omega arith) in
      (
        clear_sectors v 1 m c,
        run,
        subst (λ r. IsValid image g r.1) run keeps,
        omega (arith, count, count_set-fill v c.is_cached set),
        without-last v (sectors c.lru) h.order.sectors_once last
            ∙ ap (λ (t : List ℕ). t ++ v ∷ []) (sym (sectors-forget_one v c.lru h.order)),
      )

  -- On a valid cache with k cached sectors, the loop leaves as many of them as it may, and they are
  -- the ones that were touched last.
  reduce_loop-recent :
      (max_cached k : ℕ) (c : Cache S)
      → IsValid image g c
      → count_set c.is_cached ≡ k
      → ((reduce_loop max_cached k c).0 ≡ ok tt)
        × IsValid image g (reduce_loop max_cached k c).1
        × (count_set (reduce_loop max_cached k c).1.is_cached ≡ min k max_cached)
        × ((older : List ℕ) × (sectors c.lru ≡ sectors (reduce_loop max_cached k c).1.lru ++ older))
  unfolding reduce_loop ◌>>=◌ ◌>>◌ gets pure resume
  reduce_loop-recent max_cached zero c h count =
      (refl, h, omega (arith, count), ([], sym (append-nil (sectors c.lru))))
  reduce_loop-recent max_cached (suc k) c h count = elim (Bool-cases (ltb max_cached (suc k))) [
    | inr few ↦
        rw few (refl, h, count ∙ ground (arith, few), ([], sym (append-nil (sectors c.lru))))
    | inl many ↦ elim (Option-cases (last_of (sectors c.lru))) [
      | inl nothing ↦
          let empty : sectors c.lru ≡ [] = last_of-none (sectors c.lru) nothing in
          let zeros : count_set c.is_cached ≡ 0 =
            count_set-none c.is_cached
              (λ i. sym (h.same i) ∙ ap (λ (t : List ℕ). contains i t) empty) in
          absurd (omega (arith, count, zeros))
      | inr (v, last) ↦
          let (c', run, h', count', order') = drop_victim v k c h last count in
          let (done, keeps, left, (older, order'')) =
            reduce_loop-recent max_cached k c' h' count' in
          rw (many, last, run)
            (
              done,
              keeps,
              left ∙ ground (arith, many),
              (
                older ++ v ∷ [],
                order'
                    ∙ ap (λ (t : List ℕ). t ++ v ∷ []) order''
                    ∙ append_assoc (sectors (reduce_loop max_cached k c').1.lru) older (v ∷ []),
              ),
            )
    ]
  ]

  -- On a valid cache, with sectors whose size is a power of two, `reduce_sector_` returns and keeps
  -- it valid. As many sectors are cached afterwards as before, or as it may keep if that is less, and
  -- they are the ones that were touched last: the recency list before is the one afterwards, and
  -- behind it the sectors it drops.
  pub reduce_sector-recent :
      (max_cached : ℕ) (c : Cache S)
      → IsValid image g c
      → ((reduce_sector max_cached c).0 ≡ ok tt)
        × IsValid image g (reduce_sector max_cached c).1
        × (count_set (reduce_sector max_cached c).1.is_cached
            ≡ min (count_set c.is_cached) max_cached)
        × ((older : List ℕ) × (sectors c.lru ≡ sectors (reduce_sector max_cached c).1.lru ++ older))
  unfolding reduce_sector ◌>>=◌ get_cached_sectors gets resume
  reduce_sector-recent max_cached c h =
      let (m, at, agrees) = h.live in
      rw (mapped-ok c m at) (reduce_loop-recent max_cached (count_set c.is_cached) c h refl)

  -- On a valid cache `reduce_half` returns and keeps it valid, and at most half as many sectors are
  -- cached afterwards.
  pub reduce_half-halves :
      (c : Cache S)
      → IsValid image g c
      → ((reduce_half c).0 ≡ ok tt)
        × IsValid image g (reduce_half c).1
        × (count_set (reduce_half c).1.is_cached ≡ count_set c.is_cached / 2)
  unfolding reduce_half ◌>>=◌ get_cached_sectors gets resume
  reduce_half-halves c h =
      let (m, at, agrees) = h.live in
      let (done, keeps, left, (older, order)) =
        reduce_sector-recent (count_set c.is_cached / 2) c h in
      rw (mapped-ok c m at) (done, keeps, left ∙ omega arith)
