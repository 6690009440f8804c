-- ===== src/Netblk/Cache/Fetch.antt =====
-- `cache_sector_` and `cache_` (src/netblk/cache.cpp) make a range cached.
use native.Mathlib.Decide.{dec_lt}
use native.Mathlib.Nat.{div-add-mod', mod-lt, div-lt_iff_lt-mul}
use nanodistro.Base.{
  ◌^◌, ℕ, zero, suc, ◌+◌, ◌-◌, ◌*◌, ◌/◌, ◌%◌, ◌≤◌, ◌<◌, Bool, true, false, ◌≡◌, refl, ap, ◌∙◌, ◌⊎◌,
  inl, inr, arith, ok, ◌==◌, ◌||◌, ltb, leb, Bool-cases, range-cases,
}
use nanodistro.Netblk.Align.{u64, size_to_sector}
use nanodistro.Netblk.Align.Rounding.{IsPow2-pos}
use nanodistro.Netblk.Align.Coverage.{sectors_for, sectors_for-bounds, size_to_sector_aligned}
use nanodistro.Netblk.Backend.{Backend, Memory}
use nanodistro.Netblk.Backend.Retry.{Serves}
use nanodistro.Netblk.Cache.{
  Cache, force_cache_sector, cache_loop, cache_sector, cache_range, clamp_size, ◌>>=◌, ◌>>◌, gets,
  pure, raise_if,
}
use nanodistro.Netblk.Cache.Bitmap.{is_set}
use nanodistro.Netblk.Cache.Invariant.{
  Geometry, mapped-ok, total-lt-word, IsValid, Post, bind_rule, weaken,
}
use nanodistro.Netblk.Cache.Account.{le_of_mul}
use nanodistro.Netblk.Cache.Force.{Grown, force_cache_sector-Grown}

-- The sectors of an aligned range of the image are sectors of the image.
pub sectors_inside :
    (g : Geometry) (offset size : ℕ)
    → offset % g.sector ≡ 0
    → offset + size ≤ g.size
    → offset / g.sector + sectors_for size g.sector ≤ g.total
sectors_inside g offset size aligned fits =
    let s : ℕ = g.sector in
    let d : offset / s * s + offset % s ≡ offset = div-add-mod' offset s in
    let (lo, hi) = sectors_for-bounds g.pow size in
    let (lo', hi') = sectors_for-bounds g.pow g.size in
    let e : g.total * s ≡ sectors_for g.size s * s = ap (λ (t : ℕ). t * s) g.sized in
    le_of_mul (offset / s + sectors_for size s) g.total s (omega arith)

-- The sector of a byte of an aligned range is one of its sectors.
pub sector_of_byte :
    (g : Geometry) (offset size i : ℕ)
    → offset % g.sector ≡ 0
    → offset ≤ i
    → i < offset + size
    → (offset / g.sector ≤ i / g.sector)
      × (i / g.sector < offset / g.sector + sectors_for size g.sector)
sector_of_byte g offset size i aligned lo hi =
    let s : ℕ = g.sector in
    let d : offset / s * s + offset % s ≡ offset = div-add-mod' offset s in
    let e : i / s * s + i % s ≡ i = div-add-mod' i s in
    let l : i % s < s = mod-lt i (IsPow2-pos g.pow) in
    let (a, z) = sectors_for-bounds g.pow size in
    (
      le_of_mul (offset / s) (i / s) s (omega arith),
      (div-lt_iff_lt-mul (IsPow2-pos g.pow)).1 (omega arith),
    )

module _ {S : Type 0} (image : Memory) (g : Geometry) (b : Backend S) (h : Serves image b)
    (w : g.total + g.max_io ≤ 2 ^ 64) where
  -- The sectors passed by the loop are cached, but for the run that is still to be read.
  record Passed (c : Cache S) (start i : ℕ) (found : Bool) (oo oc : ℕ) : Type 0 where
    run : found ≡ true → oo + oc ≡ i
    rest : (j : ℕ) → start ≤ j → j < i → (is_set j c.is_cached ≡ true) ⊎ ((found ≡ true) × (oo ≤ j))

  flush :
      (c : Cache S) (start len oo oc : ℕ)
      → IsValid image g c
      → start + len ≤ g.total
      → Passed c start (start + len) true oo oc
      → Post image g (Grown image g c start len) (force_cache_sector b oo oc c)
  flush c start len oo oc v fits p =
      weaken image g (Grown image g c oo oc) (Grown image g c start len)
        (force_cache_sector b oo oc c)
        (force_cache_sector-Grown image g b h w oo oc c v (omega (arith, p.run refl)))
        (λ u c' r. record {
          valid = r.valid;
          kept = r.kept;
          now_cached = λ j lo hi. elim (p.rest j lo hi) [
            | inl old ↦ r.kept j old
            | inr (_, after) ↦ r.now_cached j after (omega (arith, p.run refl))
          ];
        })

  Grown-trans :
      (c c1 : Cache S) (start a len : ℕ) (u w : Unit {0}) (c2 : Cache S)
      → Grown image g c start a u c1
      → Grown image g c1 start len w c2
      → Grown image g c start len w c2
  Grown-trans c c1 start a len u w c2 r s = record {
    valid = s.valid;
    kept = λ i e. s.kept i (r.kept i e);
    now_cached = s.now_cached;
  }

  cache_loop-Grown :
      (n i : ℕ) (found : Bool) (oo oc : ℕ) (c : Cache S) (start len : ℕ)
      → IsValid image g c
      → start ≤ i
      → start + len ≡ i + n
      → start + len ≤ g.total
      → Passed c start i found oo oc
      → Post image g (Grown image g c start len) (cache_loop b n i found oo oc c)
  unfolding cache_loop ◌>>=◌ ◌>>◌ gets pure
  cache_loop-Grown zero i false oo oc c start len v lo e fits p = record {
    valid = v;
    kept = λ j k. k;
    now_cached = λ j a z. ground (arith, p.rest j a (omega arith));
  }
  cache_loop-Grown zero i true oo oc c start len v lo e fits p =
      flush c start len oo oc v fits
        (record { run = λ t. omega (arith, p.run t); rest = λ j a z. p.rest j a (omega arith) })
  cache_loop-Grown (suc n) i true oo oc c start len v lo e fits p =
      elim (Bool-cases (is_set i c.is_cached)) [
        | inl set ↦ rw set (
            bind_rule image g (Grown image g c start (i - start)) (Grown image g c start len)
              (force_cache_sector b oo oc) (λ _. cache_loop b n (i + 1) false oo oc) c
              (flush c start (i - start) oo oc v (omega arith) (record {
                run = λ t. omega (arith, p.run t);
                rest = λ j a z. p.rest j a (omega arith);
              }))
              (λ u c1 r.
                weaken image g (Grown image g c1 start len) (Grown image g c start len)
                  (cache_loop b n (i + 1) false oo oc c1)
                  (cache_loop-Grown n (i + 1) false oo oc c1 start len r.valid (omega arith)
                    (omega arith) fits
                    (record {
                      run = λ t. absurd (ground arith);
                      rest = λ j a z. elim (range-cases start (i - start) j) [
                        | inr (x, y) ↦ inl (r.now_cached j x y)
                        | inl out ↦ let here : j ≡ i = omega arith in inl (r.kept j (rw here set))
                      ];
                    }))
                  (λ w c2 t. Grown-trans c c1 start (i - start) len u w c2 r t)))
        | inr clear ↦ rw clear (
            cache_loop-Grown n (i + 1) true oo (oc + 1) c start len v (omega arith) (omega arith)
              fits
              (record {
                run = λ t. omega (arith, p.run refl);
                rest = λ j a z. elim (dec_lt j i) [
                  | yes l ↦ p.rest j a l
                  | no l ↦ inr (refl, omega (arith, p.run refl))
                ];
              }))
      ]
  cache_loop-Grown (suc n) i false oo oc c start len v lo e fits p =
      elim (Bool-cases (is_set i c.is_cached)) [
        | inl set ↦ rw set (
            cache_loop-Grown n (i + 1) false oo oc c start len v (omega arith) (omega arith) fits
              (record {
                run = λ t. absurd (ground arith);
                rest = λ j a z. elim (dec_lt j i) [
                  | yes l ↦ p.rest j a l
                  | no l ↦ let here : j ≡ i = omega arith in inl (rw here set)
                ];
              }))
        | inr clear ↦ rw clear (
            cache_loop-Grown n (i + 1) true i 1 c start len v (omega arith) (omega arith) fits
              (record {
                run = λ t. refl;
                rest = λ j a z. elim (dec_lt j i) [
                  | yes l ↦ ground (arith, p.rest j a l)
                  | no l ↦ inr (refl, omega arith)
                ];
              }))
      ]

  -- `cache_sector_` makes every sector of a range inside the image cached, or throws.
  pub cache_sector-Grown :
      (offset count : ℕ) (c : Cache S)
      → IsValid image g c
      → offset + count ≤ g.total
      → Post image g (Grown image g c offset count) (cache_sector b offset count c)
  unfolding cache_sector ◌>>=◌ ◌>>◌ gets raise_if
  cache_sector-Grown offset count c v fits =
      let (m, at, agrees) = v.live in
      let within : ltb c.total_sectors (u64 (offset + count)) ≡ false =
        ground (arith, v.at_total, total-lt-word g) in
      let rounds : u64 (offset + count) - offset ≡ count = omega (arith, total-lt-word g) in
      rw (mapped-ok c m at, within, rounds)
        (cache_loop-Grown count offset false 0 0 c offset count v (omega arith) refl fits
          (record { run = λ t. absurd (ground arith); rest = λ j a z. absurd (omega arith) }))

  -- `cache_` at an aligned offset: every sector that the bytes need is cached, or it throws.
  pub cache_range-Grown :
      (offset size : ℕ) (c : Cache S)
      → IsValid image g c
      → offset % g.sector ≡ 0
      → 0 < size
      → offset + size ≤ g.size
      → Post image g
          (Grown image g c (offset / g.sector) (sectors_for size g.sector))
          (cache_range b offset size c)
  unfolding cache_range ◌>>=◌ ◌>>◌ gets pure
  cache_range-Grown offset size c v aligned pos_n fits =
      let (m, at, agrees) = v.live in
      let more : ((size == 0) || leb c.size offset) ≡ false = ground (arith, v.at_size) in
      let clamped : clamp_size c.size offset size ≡ size =
        ground (arith, v.at_size, g.fits, IsPow2-pos g.pow) in
      let range : size_to_sector offset size c.sector
          ≡ (offset / g.sector, sectors_for size g.sector) =
        ap (λ (t : ℕ). size_to_sector offset size t) v.at_sector
        ∙ size_to_sector_aligned g.pow offset size aligned (omega (arith, g.fits)) in
      rw (mapped-ok c m at, more, clamped, range)
        (cache_sector-Grown (offset / g.sector) (sectors_for size g.sector) c v
          (sectors_inside g offset size aligned fits))

  pub cache_range-zero :
      (offset : ℕ) (c : Cache S) → IsValid image g c → cache_range b offset 0 c ≡ (ok tt, c)
  unfolding cache_range ◌>>=◌ ◌>>◌ gets pure
  cache_range-zero offset c v = let (m, at, agrees) = v.live in rw (mapped-ok c m at)
