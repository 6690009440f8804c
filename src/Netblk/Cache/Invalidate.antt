-- ===== src/Netblk/Cache/Invalidate.antt =====
-- `invalidate_sector_` (src/netblk/cache.cpp) drops sectors and keeps the cache valid.
use native.Mathlib.Decide.{dec_lt}
use nanodistro.Base.{
  ℕ, ◌+◌, ◌*◌, ◌/◌, ◌≤◌, ◌<◌, ◌^◌, suc, Bool, true, false, ◌||◌, List, some, ◌≡◌, refl, sym, ap,
  ◌∙◌, ◌⊎◌, inl, inr, arith, ok, length, leb, ◌==◌, Bool-cases, range-cases,
}
use nanodistro.Netblk.Align.Rounding.{IsPow2-pos}
use nanodistro.Netblk.Backend.{Memory}
use nanodistro.Netblk.Cache.{
  Cache, clear_sectors, invalidate_sector, clamp_size, drop_pages, ◌>>=◌, gets, pure, modify,
}
use nanodistro.Netblk.Cache.Account.{between, mul_mono}
use nanodistro.Netblk.Cache.Bitmap.{
  is_set, is_set-lt, fill, length-fill, is_set-fill_in, is_set-fill_out,
}
use nanodistro.Netblk.Cache.Invariant.{
  Geometry, mapped-ok, IsValid, forget_range-IsConsistent, contains-forget_range_in,
  contains-forget_range_out,
}

-- A byte of a sector outside of the range is not among the dropped pages.
drop_pages-other :
    (o n s i : ℕ) (m : Memory)
    → 1 ≤ s
    → (i / s < o) ⊎ (o + n ≤ i / s)
    → drop_pages (o * s) (n * s) m i ≡ m i
drop_pages-other o n s i m h (inl below) =
    let (a, z) = between (i / s) i s refl h in
    let e : suc (i / s) * s ≤ o * s = mul_mono (suc (i / s)) o s below in ground arith
drop_pages-other o n s i m h (inr above) =
    let (a, z) = between (i / s) i s refl h in
    let e : (o + n) * s ≤ i / s * s = mul_mono (o + n) (i / s) s above in ground arith

-- No entry behind the end of the vector is set.
is_set-past : (i : ℕ) (l : List Bool) → length l ≤ i → is_set i l ≡ false
is_set-past i l h = elim (Bool-cases (is_set i l)) [
  | inr e ↦ e
  | inl e ↦ absurd (omega (arith, is_set-lt i l e))
]

module _ {S : Type 0} (image : Memory) (g : Geometry) where
  clear_sectors-IsValid :
      (o n : ℕ) (m : Memory) (c : Cache S)
      → IsValid image g c
      → c.mem ≡ some m
      → ((i : ℕ) → i < g.size → is_set (i / g.sector) c.is_cached ≡ true → m i ≡ image i)
      → o + n ≤ g.total
      → IsValid image g (clear_sectors o n m c)
  unfolding clear_sectors
  clear_sectors-IsValid o n m c v at agrees fits = record {
    at_size = v.at_size;
    at_sector = v.at_sector;
    at_total = v.at_total;
    at_io = v.at_io;
    bits = length-fill o n false c.is_cached ∙ v.bits;
    order = forget_range-IsConsistent n o c.lru v.order;
    same = λ q. elim (range-cases o n q) [
      | inl out ↦
          contains-forget_range_out n o q c.lru v.order out
          ∙ v.same q
          ∙ sym (is_set-fill_out o n q false c.is_cached out)
      | inr (lo, hi) ↦
          contains-forget_range_in n o q c.lru v.order (inr (lo, hi))
          ∙ sym (is_set-fill_in o n q false c.is_cached lo hi (omega (arith, v.bits)))
    ];
    live = (
      drop_pages (o * c.sector) (n * c.sector) m,
      refl,
      λ i lt e. elim (range-cases o n (i / g.sector)) [
        | inr (lo, hi) ↦ absurd (
            ground (
              arith,
              is_set-fill_in o n (i / g.sector) false c.is_cached lo hi (omega (arith, v.bits)),
            ))
        | inl out ↦
            ap (λ (t : ℕ). drop_pages (o * t) (n * t) m i) v.at_sector
            ∙ drop_pages-other o n g.sector i m (IsPow2-pos g.pow) out
            ∙ agrees i lt (sym (is_set-fill_out o n (i / g.sector) false c.is_cached out) ∙ e)
      ],
    );
  }

  pub invalidate_sector-IsValid :
      (offset size i : ℕ) (c : Cache S)
      → IsValid image g c
      → offset + size < 2 ^ 64
      → offset ≤ i
      → i < offset + size
      → ((invalidate_sector offset size c).0 ≡ ok tt)
        × IsValid image g (invalidate_sector offset size c).1
        × (is_set i (invalidate_sector offset size c).1.is_cached ≡ false)
  unfolding invalidate_sector ◌>>=◌ gets pure modify
  invalidate_sector-IsValid offset size i c v word lo hi =
      let (m, at, agrees) = v.live in
      let n : ℕ = clamp_size c.total_sectors offset size in
      elim (Bool-cases ((size == 0) || leb c.total_sectors offset)) [
        | inl e ↦
            rw (mapped-ok c m at, e)
              (refl, v, is_set-past i c.is_cached (ground (arith, v.bits, v.at_total)))
        | inr e ↦
            let inside : offset + n ≤ g.total = ground (arith, v.at_total) in
            let off : is_set i (fill offset n false c.is_cached) ≡ false = elim (dec_lt i g.total) [
              | yes l ↦
                  is_set-fill_in offset n i false c.is_cached lo (ground (arith, v.at_total))
                    (omega (arith, v.bits))
              | no l ↦
                  is_set-past i (fill offset n false c.is_cached)
                    (omega (arith, length-fill offset n false c.is_cached, v.bits))
            ] in
            rw (mapped-ok c m at, e)
              (
                refl,
                clear_sectors-IsValid offset n m c v at agrees inside,
                unfold clear_sectors in off,
              )
      ]
