-- ===== src/Netblk/Cache/Read.antt =====
-- `cache_sector_`, `cache_` and `cached_read_`: what is read through the cache is the image.
use native.Mathlib.Decide.{dec_lt}
use native.Mathlib.Nat.{div-add-mod', div-le_self}
use nanodistro.Base.{
  ℕ, zero, suc, ◌+◌, ◌-◌, ◌*◌, ◌/◌, ◌%◌, ◌^◌, ◌≤◌, ◌<◌, min, true, false, ◌∷◌, some, ◌≡◌, refl, ap,
  ap₂, arith, ok, ◌==◌, ◌||◌, ltb, leb,
}
use nanodistro.Netblk.Align.{u64, size_to_sector}
use nanodistro.Netblk.Align.Rounding.{IsPow2, IsPow2-pos}
use nanodistro.Netblk.Align.Coverage.{sectors_for, sectors_for-bounds, size_to_sector_short}
use nanodistro.Netblk.Backend.{Backend, Memory}
use nanodistro.Netblk.Backend.Retry.{Serves}
use nanodistro.Netblk.Cache.{
  Cache, cache_loop, cache_sector, cache_range, clamp_size, cached_read, load_from, ◌>>=◌, ◌>>◌,
  gets, pure, raise_if, mapped,
}
use nanodistro.Netblk.Cache.Invariant.{Geometry, mapped-ok, IsValid, Post, bind_rule, weaken}
use nanodistro.Netblk.Cache.Account.{le_of_mul, AllCached}
use nanodistro.Netblk.Cache.Force.{Grown}
use nanodistro.Netblk.Cache.Fetch.{sector_of_byte, cache_range-Grown, cache_range-zero}

load_from-agree :
    (m image : Memory) (n offset : ℕ)
    → ((i : ℕ) → offset ≤ i → i < offset + n → m i ≡ image i)
    → load_from m offset n ≡ load_from image offset n
unfolding load_from
load_from-agree m image zero offset h = refl
load_from-agree m image (suc n) offset h =
    ap₂ (◌∷◌) (h offset (omega arith) (omega arith))
      (load_from-agree m image n (offset + 1) (λ i lo hi. h i (omega arith) (omega arith)))

-- `cache_` at an aligned offset, the empty range included.
cache_range-Cached :
    {S : Type 0} (image : Memory) (g : Geometry) (b : Backend S) (h : Serves image b)
    (w : g.total + g.max_io ≤ 2 ^ 64) (offset size : ℕ) (c : Cache S)
    → IsValid image g c
    → offset % g.sector ≡ 0
    → offset + size ≤ g.size
    → Post image g
        (λ u c'. IsValid image g c' × AllCached (offset / g.sector) (sectors_for size g.sector) c')
        (cache_range b offset size c)
cache_range-Cached image g b h w offset zero c v aligned fits =
    let (lo, hi) = sectors_for-bounds g.pow 0 in
    rw (cache_range-zero image g b h w offset c v) (
      v,
      λ i a z. absurd (omega (arith, le_of_mul (sectors_for 0 g.sector) 0 g.sector (omega arith))),
    )
cache_range-Cached image g b h w offset (suc n) c v aligned fits =
    weaken image g (Grown image g c (offset / g.sector) (sectors_for (suc n) g.sector))
      (λ u c'. IsValid image g c' × AllCached (offset / g.sector) (sectors_for (suc n) g.sector) c')
      (cache_range b offset (suc n) c)
      (cache_range-Grown image g b h w offset (suc n) c v aligned (omega arith) fits)
      (λ u c' r. (r.valid, r.now_cached))

module _ {S : Type 0} (image : Memory) (g : Geometry) (b : Backend S) (h : Serves image b)
    (w : g.total + g.max_io ≤ 2 ^ 64) where
  -- Through a valid cache whose sector size is a power of two and whose backend serves the image, a
  -- read at a sector boundary returns the bytes of the image, as many as were asked for and are
  -- there, or throws; in both cases the cache stays valid. The image's size and one sector are
  -- together at most 2 ^ 64, and so are its sectors and `max_io_sector`.
  pub cached_read-image :
      (offset size : ℕ) (c : Cache S)
      → IsValid image g c
      → offset % g.sector ≡ 0
      → Post image g
          (λ bytes c'.
            IsValid image g c' × (bytes ≡ load_from image offset (min size (g.size - offset))))
          (cached_read b offset size c)
  unfolding cached_read ◌>>=◌ ◌>>◌ gets pure
  cached_read-image offset size c v aligned =
      let (m, at, agrees) = v.live in
      let real : ℕ = min size (g.size - offset) in
      elim (dec_lt offset g.size) [
        | no past ↦
            let stop : leb c.size offset ≡ true = ground (arith, v.at_size) in
            let none_left : min size (g.size - offset) ≡ 0 = omega arith in
            rw (mapped-ok c m at, stop, none_left) (v, unfold load_from in refl)
        | yes inside ↦
            let go : leb c.size offset ≡ false = ground (arith, v.at_size) in
            let same : min size (c.size - offset) ≡ real =
              ap (λ (t : ℕ). min size (t - offset)) v.at_size in
            rw (mapped-ok c m at, go, same)
              (bind_rule image g
                (λ u c'.
                  IsValid image g c' × AllCached (offset / g.sector) (sectors_for real g.sector) c')
                (λ bytes c'. IsValid image g c' × (bytes ≡ load_from image offset real))
                (cache_range b offset real) (λ _. mapped >>= λ m'. pure (load_from m' offset real))
                c (cache_range-Cached image g b h w offset real c v aligned (omega arith))
                (λ u c1 r.
                  let (m1, at1, agrees1) = r.0.live in
                  rw (mapped-ok c1 m1 at1) (
                    r.0,
                    load_from-agree m1 image real offset (λ i lo hi.
                        let (x, y) = sector_of_byte g offset real i aligned lo hi in
                        agrees1 i (omega arith) (r.1 (i / g.sector) x y)),
                  )))
      ]

-- No sectors are asked for.
cache_sector-zero :
    {S : Type 0} (b : Backend S) (c : Cache S) (m : Memory) (offset : ℕ)
    → c.mem ≡ some m
    → offset ≤ c.total_sectors
    → offset < 2 ^ 64
    → cache_sector b offset 0 c ≡ (ok tt, c)
unfolding cache_sector cache_loop ◌>>=◌ ◌>>◌ gets pure raise_if
cache_sector-zero b c m offset at inside fits =
    let within : ltb c.total_sectors (u64 (offset + 0)) ≡ false = ground arith in
    let rounds : u64 (offset + 0) - offset ≡ 0 = omega arith in
    rw (mapped-ok c m at, within, rounds)

-- Where the sector size is a power of two, and the image's size and one sector are together at most
-- 2 ^ 64, a read of the image that starts inside a sector, and is shorter than the distance to the
-- boundary before it, but not empty, never asks the backend: it returns what memory holds, cached or
-- not, and changes nothing.
pub cached_read_short :
    {S : Type 0} (b : Backend S) (c : Cache S) (m : Memory) (offset size : ℕ)
    → IsPow2 c.sector
    → c.mem ≡ some m
    → c.total_sectors ≡ sectors_for c.size c.sector
    → c.size + c.sector ≤ 2 ^ 64
    → 0 < size
    → size < offset % c.sector
    → offset + size ≤ c.size
    → cached_read b offset size c ≡ (ok (load_from m offset size), c)
unfolding cached_read cache_range ◌>>=◌ ◌>>◌ gets pure
cached_read_short b c m offset size p at total fits pos_n short inside =
    let go : leb c.size offset ≡ false = ground arith in
    let same : min size (c.size - offset) ≡ size = omega arith in
    let more : ((size == 0) || leb c.size offset) ≡ false = ground arith in
    let clamped : clamp_size c.size offset size ≡ size = ground (arith, IsPow2-pos p) in
    let range : size_to_sector offset size c.sector ≡ (offset / c.sector, 0) =
      size_to_sector_short p offset size short (omega (arith, IsPow2-pos p)) in
    let d : offset / c.sector * c.sector + offset % c.sector ≡ offset =
      div-add-mod' offset c.sector in
    let (lo, hi) = sectors_for-bounds p c.size in
    let e : c.total_sectors * c.sector ≡ sectors_for c.size c.sector * c.sector =
      ap (λ (t : ℕ). t * c.sector) total in
    let first : offset / c.sector ≤ c.total_sectors =
      le_of_mul (offset / c.sector) c.total_sectors c.sector (omega (arith, IsPow2-pos p)) in
    let small : offset / c.sector < 2 ^ 64 = omega (arith, div-le_self offset c.sector) in
    rw (mapped-ok c m at, go, same, mapped-ok c m at, more, clamped, range)
      (rw (cache_sector-zero b c m (offset / c.sector) at first small) (rw (mapped-ok c m at)))
