-- ===== src/Netblk/Cache/Invariant.antt =====
-- The invariant of a cache in use over an image, and the rule for a sequence of actions.
use nanodistro.Base.{
  ℕ, zero, suc, ◌+◌, ◌/◌, ◌^◌, ◌≤◌, ◌<◌, true, false, length, some, ◌≡◌, ap, ◌*◌, refl, ◌⊎◌, inl,
  inr, arith, Result, ok, throw, runtime_error, ◌==◌, ◌||◌, if◌then◌else◌,
}
use nanodistro.Netblk.Lru.{Lru, touch_sector, forget_sector, sectors}
use nanodistro.Netblk.Lru.Order.{
  IsConsistent, contains, contains-without, sectors-touch, touch-IsConsistent, sectors-forget,
  forget-IsConsistent,
}
use nanodistro.Netblk.Align.Rounding.{IsPow2, IsPow2-pos}
use nanodistro.Netblk.Align.Coverage.{sectors_for, sectors_for-bounds}
use nanodistro.Netblk.Backend.{Memory}
use nanodistro.Netblk.Cache.{Cache, Action, touch_range, forget_range, resume, ◌>>=◌, mapped}
use nanodistro.Netblk.Cache.Bitmap.{is_set}

-- What `init` fixes: the image's size, cut into sectors. The sector size is a power of two, which
-- `align_up` needs and the constructor does not check; the size rounded up is a word.
pub record Geometry : Type 0 where
  pub size : ℕ
  pub sector : ℕ
  pub total : ℕ
  pub max_io : ℕ
  pub pow : IsPow2 sector
  pub sized : total ≡ sectors_for size sector
  pub fits : size + sector ≤ 2 ^ 64
  pub io_pos : 0 < max_io

pub mapped-ok : {S : Type 0} (c : Cache S) (m : Memory) → c.mem ≡ some m → mapped c ≡ (ok m, c)
unfolding mapped
mapped-ok c m at = ground arith

-- No sector number wraps round.
pub total-lt-word : (g : Geometry) → g.total < 2 ^ 64
total-lt-word g =
    let (lo, hi) = sectors_for-bounds g.pow g.size in
    let e : g.total * g.sector ≡ sectors_for g.size g.sector * g.sector =
      ap (λ (t : ℕ). t * g.sector) g.sized in
    let up : g.total ≤ g.total * g.sector = le_mul_pos g.total g.sector (IsPow2-pos g.pow) in
    omega (arith, g.fits)
  where
    le_mul_pos : (t s : ℕ) → 1 ≤ s → t ≤ t * s
    le_mul_pos t s h = grind arith

module _ {S : Type 0} (image : Memory) (g : Geometry) where
  -- The bitmap has an entry for each sector, the recency list holds exactly the cached sectors, and
  -- the cached sectors hold the image.
  pub record IsValid (c : Cache S) : Type 0 where
    pub at_size : c.size ≡ g.size
    pub at_sector : c.sector ≡ g.sector
    pub at_total : c.total_sectors ≡ g.total
    pub at_io : c.max_io_sector ≡ g.max_io
    pub bits : length c.is_cached ≡ g.total
    pub order : IsConsistent c.lru
    pub same : (i : ℕ) → contains i (sectors c.lru) ≡ is_set i c.is_cached
    pub live :
        (m : Memory) × (c.mem ≡ some m)
        × ((i : ℕ) → i < g.size → is_set (i / g.sector) c.is_cached ≡ true → m i ≡ image i)

  -- A result meets Q, or a `RuntimeError` leaves a valid cache.
  abbrev pub Post : {A : Type 0} → (A → Cache S → Type 0) → Result A × Cache S → Type 0
  Post Q (ok a, c) = Q a c
  Post Q (throw e, c) = IsValid c × (e ≡ runtime_error)

  pub bind_rule :
      {A B : Type 0} (Q : A → Cache S → Type 0) (R : B → Cache S → Type 0) (m : Action S A)
      (f : A → Action S B) (c : Cache S)
      → Post Q (m c)
      → ((a : A) (c' : Cache S) → Q a c' → Post R (f a c'))
      → Post R ((m >>= f) c)
  unfolding ◌>>=◌
  bind_rule {A} {B} Q R m f c h k = go (m c) h
    where
      go : (r : Result A × Cache S) → Post Q r → Post R (resume r f)
      go (ok a, c') q = k a c' q
      go (throw e, c') q = q

  pub weaken :
      {A : Type 0} (Q R : A → Cache S → Type 0) (r : Result A × Cache S)
      → Post Q r
      → ((a : A) (c : Cache S) → Q a c → R a c)
      → Post R r
  weaken Q R (ok a, c) q k = k a c q
  weaken Q R (throw e, c) q k = q

contains-touch :
    (s q : ℕ) (l : Lru)
    → IsConsistent l
    → contains q (sectors (touch_sector s l)) ≡ (q == s || contains q (sectors l))
contains-touch s q l h = rw (sectors-touch s l h) (ground (arith, contains-without s q (sectors l)))

contains-forget :
    (s q : ℕ) (l : Lru)
    → IsConsistent l
    → contains q (sectors (forget_sector s l)) ≡ (if q == s then false else contains q (sectors l))
contains-forget s q l h = rw (sectors-forget s l h) (contains-without s q (sectors l))

pub touch_range-IsConsistent :
    (n i : ℕ) (l : Lru) → IsConsistent l → IsConsistent (touch_range n i l)
unfolding touch_range
touch_range-IsConsistent zero i l h = h
touch_range-IsConsistent (suc n) i l h =
    touch_range-IsConsistent n (i + 1) (touch_sector i l) (touch-IsConsistent i l h)

pub forget_range-IsConsistent :
    (n i : ℕ) (l : Lru) → IsConsistent l → IsConsistent (forget_range n i l)
unfolding forget_range
forget_range-IsConsistent zero i l h = h
forget_range-IsConsistent (suc n) i l h =
    forget_range-IsConsistent n (i + 1) (forget_sector i l) (forget-IsConsistent i l h)

-- A range of touched sectors is in the list, and the others are as before.
pub contains-touch_range_in :
    (n i q : ℕ) (l : Lru)
    → IsConsistent l
    → (contains q (sectors l) ≡ true) ⊎ ((i ≤ q) × (q < i + n))
    → contains q (sectors (touch_range n i l)) ≡ true
unfolding touch_range
contains-touch_range_in zero i q l h (inl old) = old
contains-touch_range_in zero i q l h (inr r) = absurd (omega arith)
contains-touch_range_in (suc n) i q l h side =
    contains-touch_range_in n (i + 1) q (touch_sector i l) (touch-IsConsistent i l h)
      (ground (arith, contains-touch i q l h))

pub contains-touch_range_out :
    (n i q : ℕ) (l : Lru)
    → IsConsistent l
    → (q < i) ⊎ (i + n ≤ q)
    → contains q (sectors (touch_range n i l)) ≡ contains q (sectors l)
unfolding touch_range
contains-touch_range_out zero i q l h side = refl
contains-touch_range_out (suc n) i q l h side =
    let rest : contains q (sectors (touch_range n (i + 1) (touch_sector i l)))
        ≡ contains q (sectors (touch_sector i l)) =
      contains-touch_range_out n (i + 1) q (touch_sector i l) (touch-IsConsistent i l h)
        (omega arith) in
    ground (arith, contains-touch i q l h, rest)

pub contains-forget_range_in :
    (n i q : ℕ) (l : Lru)
    → IsConsistent l
    → (contains q (sectors l) ≡ false) ⊎ ((i ≤ q) × (q < i + n))
    → contains q (sectors (forget_range n i l)) ≡ false
unfolding forget_range
contains-forget_range_in zero i q l h (inl old) = old
contains-forget_range_in zero i q l h (inr r) = absurd (omega arith)
contains-forget_range_in (suc n) i q l h side =
    contains-forget_range_in n (i + 1) q (forget_sector i l) (forget-IsConsistent i l h)
      (ground (arith, contains-forget i q l h))

pub contains-forget_range_out :
    (n i q : ℕ) (l : Lru)
    → IsConsistent l
    → (q < i) ⊎ (i + n ≤ q)
    → contains q (sectors (forget_range n i l)) ≡ contains q (sectors l)
unfolding forget_range
contains-forget_range_out zero i q l h side = refl
contains-forget_range_out (suc n) i q l h side =
    let rest : contains q (sectors (forget_range n (i + 1) (forget_sector i l)))
        ≡ contains q (sectors (forget_sector i l)) =
      contains-forget_range_out n (i + 1) q (forget_sector i l) (forget-IsConsistent i l h)
        (omega arith) in
    ground (arith, contains-forget i q l h, rest)
