-- ===== src/Netblk/Cache/Start.antt =====
-- The constructor of `block_cache` and `init` (src/netblk/cache.cpp) give a cache that is
-- valid, where the sector size is a power of two.
use native.Mathlib.Nat.{mul-div_cancel}
use nanodistro.Base.{
  ℕ, zero, suc, ◌*◌, ◌/◌, ◌%◌, ◌<◌, Bool, true, false, not, ◌||◌, ◌==◌, List, [], ◌∷◌, none, Result,
  ok, throw, ◌≡◌, refl, sym, ap, ◌∙◌, subst, inl, inr, arith, ltb, length, Bool-cases,
}
use nanodistro.Netblk.Lru.{Lru, empty_lru, sectors}
use nanodistro.Netblk.Lru.Order.{IsConsistent, contains}
use nanodistro.Netblk.Align.{align_up}
use nanodistro.Netblk.Align.Rounding.{IsPow2-pos, align_up-rounds}
use nanodistro.Netblk.Align.Coverage.{sectors_for, sectors_for-bounds}
use nanodistro.Netblk.Backend.{Backend, Memory}
use nanodistro.Netblk.Cache.{
  Cache, ◌>>=◌, ◌>>◌, gets, pure, modify, raise_if, is_mapped, resume, new_cache, sized, resize,
  allocate, init,
}
use nanodistro.Netblk.Cache.Bitmap.{is_set}
use nanodistro.Netblk.Cache.Invariant.{Geometry, total-lt-word, IsValid}
use nanodistro.Netblk.Cache.Invalidate.{invalidate_sector-IsValid}

-- A cache before `init`.
abbrev unmapped : {S : Type 0} → S → ℕ → ℕ → ℕ → Cache S
unmapped backend max_io_sector sector page = record {
  backend = backend;
  mem = none;
  is_cached = [];
  lru = empty_lru;
  size = 0;
  alloc_size = 0;
  sector = sector;
  page = page;
  total_sectors = 0;
  max_io_sector = max_io_sector;
}

-- Two results that are equal hold the same value.
pub made : {A : Type 0} (a c : A) → ok a ≡ ok c → a ≡ c
made {A} a c h = ap got h
  where
    got : Result A → A
    got (ok r) = r
    got (throw e) = a

new_cache-unmapped :
    {S : Type 0} (s : S) (max_io sector page : ℕ) (c : Cache S)
    → new_cache s max_io sector page ≡ ok c
    → unmapped s max_io sector page ≡ c
unfolding new_cache
new_cache-unmapped s max_io sector page c h = elim (Bool-cases ((sector == 0) || (max_io == 0))) [
  | inl e ↦ absurd (ground (arith, h, e))
  | inr e ↦ elim (Bool-cases (ltb sector page || not (sector % page == 0))) [
    | inl f ↦ absurd (ground (arith, h, e, f))
    | inr f ↦ made (unmapped s max_io sector page) c (sym (rw (e, f) refl) ∙ h)
  ]
]

length-resize : (n : ℕ) (l : List Bool) → length (resize n l) ≡ n
unfolding resize
length-resize zero l = refl
length-resize (suc n) [] = ap suc (length-resize n [])
length-resize (suc n) (x ∷ l) = ap suc (length-resize n l)

is_set-resize : (n i : ℕ) → is_set i (resize n []) ≡ false
unfolding resize
is_set-resize zero i = refl
is_set-resize (suc n) zero = refl
is_set-resize (suc n) (suc i) = is_set-resize n i

total-rounded : (g : Geometry) → align_up g.size g.sector / g.sector ≡ g.total
total-rounded g =
    ap (λ (t : ℕ). t / g.sector) (align_up-rounds g.pow g.size g.fits)
    ∙ mul-div_cancel (sectors_for g.size g.sector) (IsPow2-pos g.pow)
    ∙ sym g.sized

total-pos : (g : Geometry) → 0 < g.size → 0 < g.total
total-pos g h =
    let (lo, hi) = sectors_for-bounds g.pow g.size in
    pos_of (sectors_for g.size g.sector) g.sector (omega (arith, lo, h)) g.sized
  where
    pos_of : (n s : ℕ) → 0 < n * s → g.total ≡ n → 0 < g.total
    pos_of zero s h e = absurd (grind arith)
    pos_of (suc n) s h e = omega arith

module _ {S : Type 0} (image : Memory) (g : Geometry) where
  -- What `init` has before it clears the sectors: nothing is cached.
  blank-IsValid :
      (c : Cache S)
      → c.size ≡ g.size
      → c.sector ≡ g.sector
      → c.total_sectors ≡ g.total
      → c.max_io_sector ≡ g.max_io
      → c.is_cached ≡ []
      → c.lru ≡ empty_lru
      → IsValid image g (allocate c)
  unfolding allocate
  blank-IsValid c size sector total io bits lru =
      let off : (i : ℕ) → is_set i (resize c.total_sectors c.is_cached) ≡ false = λ i.
        ap (λ (l : List Bool). is_set i (resize c.total_sectors l)) bits
        ∙ is_set-resize c.total_sectors i in
      record {
        at_size = size;
        at_sector = sector;
        at_total = total;
        at_io = io;
        bits = length-resize c.total_sectors c.is_cached ∙ total;
        order =
            subst IsConsistent (sym lru)
              (record { linked = λ s. refl; sectors_once = tt; ids_once = tt; fresh = tt });
        same = λ i. ap (λ (l : Lru). contains i (sectors l)) lru ∙ sym (off i);
        live = ((λ i. 0), refl, λ i lt e. absurd (ground (arith, off (i / g.sector))));
      }

  unmapped-init :
      (b : Backend S) (s : S) (page : ℕ)
      → b.get_size ≡ g.size
      → 0 < g.size
      → ((init b true (unmapped s g.max_io g.sector page)).0 ≡ ok tt)
        × IsValid image g (init b true (unmapped s g.max_io g.sector page)).1
  unfolding init sized ◌>>=◌ ◌>>◌ gets pure modify raise_if is_mapped resume allocate
  unmapped-init b s page size some_bytes =
      let total : align_up b.get_size g.sector / g.sector ≡ g.total =
        ap (λ (t : ℕ). align_up t g.sector / g.sector) size ∙ total-rounded g in
      let start : Cache S = record (sized b.get_size (unmapped s g.max_io g.sector page)) {
        alloc_size = align_up b.get_size page;
      } in
      let set : ((g.sector == 0) || (g.max_io == 0)) ≡ false =
        ground (arith, g.io_pos, IsPow2-pos g.pow) in
      let fine : ((b.get_size == 0) || (align_up b.get_size g.sector / g.sector == 0)) ≡ false =
        ground (arith, size, some_bytes, total, total-pos g some_bytes) in
      let (done, keeps, off) =
        invalidate_sector-IsValid image g 0 (align_up b.get_size g.sector / g.sector) 0
          (allocate start) (blank-IsValid start size refl total refl refl refl)
          (omega (arith, total, total-lt-word g)) (omega arith)
          (omega (arith, total, total-pos g some_bytes)) in
      rw (set, fine) (done, keeps)

  -- A cache that the constructor accepts, and whose sector size is a power of two, is valid after
  -- `init`, whatever the image, where the backend has as many bytes as the image, at least one, and
  -- `mmap` succeeds. The image's size and one sector are together at most 2 ^ 64.
  pub init-IsValid :
      (b : Backend S) (s : S) (page : ℕ) (c : Cache S)
      → b.get_size ≡ g.size
      → 0 < g.size
      → new_cache s g.max_io g.sector page ≡ ok c
      → ((init b true c).0 ≡ ok tt) × IsValid image g (init b true c).1
  init-IsValid b s page c size some_bytes h =
      subst (λ (c : Cache S). ((init b true c).0 ≡ ok tt) × IsValid image g (init b true c).1)
        (new_cache-unmapped s g.max_io g.sector page c h) (unmapped-init b s page size some_bytes)
