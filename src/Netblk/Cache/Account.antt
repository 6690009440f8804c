-- ===== src/Netblk/Cache/Account.antt =====
-- The sector numbers of one round of `force_cache_sector_` (src/netblk/cache.cpp).
use native.Mathlib.Nat.{div-add-mod', mod-lt, le_antisymm}
use nanodistro.Base.{
  ℕ, zero, suc, ◌+◌, ◌-◌, ◌*◌, ◌/◌, ◌%◌, ◌≤◌, ◌<◌, ◌^◌, min, max, ltb, Bool, true, false, List,
  Bool-cases, inl, inr, ok, ◌≡◌, refl, ap, arith, throw, Error, runtime_error,
}
use nanodistro.Netblk.Align.{u64}
use nanodistro.Netblk.Align.Coverage.{sectors_for}
use nanodistro.Netblk.Cache.{Cache, once_of, sectors_read, extend_back}
use nanodistro.Netblk.Cache.Bitmap.{is_set, find_set, find_set_bounds}

-- No sector that was cached has been dropped.
abbrev pub Kept : {S : Type 0} → Cache S → Cache S → Type 0
Kept c c' = (i : ℕ) → is_set i c.is_cached ≡ true → is_set i c'.is_cached ≡ true

-- The sectors of a range are cached.
abbrev pub AllCached : {S : Type 0} → ℕ → ℕ → Cache S → Type 0
AllCached offset count c = (i : ℕ) → offset ≤ i → i < offset + count → is_set i c.is_cached ≡ true

-- One round asks for at least one sector, and for none past the end.
pub once_of_bounds :
    {S : Type 0} (c : Cache S) (offset count : ℕ)
    → 0 < count
    → 0 < c.max_io_sector
    → offset + count ≤ c.total_sectors
    → c.total_sectors + c.max_io_sector ≤ 2 ^ 64
    → (once : ℕ) × (once_of c offset count ≡ ok once)
      × (1 ≤ once)
      × (offset + once ≤ c.total_sectors)
unfolding once_of
once_of_bounds c offset count h io fits word =
    let once : ℕ = min count c.max_io_sector in
    elim (Bool-cases (ltb once c.max_io_sector)) [
      | inr e ↦ rw e (once, refl, omega arith, omega arith)
      | inl e ↦
          let small : once < c.max_io_sector = ground (arith, e) in
          let end : u64 (offset + c.max_io_sector) ≡ offset + c.max_io_sector = omega arith in
          let last : ℕ = min (offset + c.max_io_sector) c.total_sectors in
          let forward : ltb last (offset + once) ≡ false = ground (arith, small) in
          rw (e, end, forward)
            (
              max once (find_set c.is_cached (offset + once) (last - (offset + once)) - offset),
              refl,
              omega arith,
              omega (
                arith,
                small,
                find_set_bounds c.is_cached (offset + once) (last - (offset + once)),
              ),
            )
    ]

-- To cancel a factor.
pub le_of_mul : (a b s : ℕ) → a * s < b * s + s → a ≤ b
le_of_mul a b s h = grind arith

pub mul_mono : (a b s : ℕ) → a ≤ b → a * s ≤ b * s
mul_mono a b s h = grind arith

pub sectors_read_error :
    {S : Type 0} (c : Cache S) (offset n : ℕ) (e : Error)
    → sectors_read c offset n ≡ throw e
    → e ≡ runtime_error
unfolding sectors_read
sectors_read_error c offset n e h = ground arith

-- The quotient of a number between two multiples.
pub between : (q i s : ℕ) → i / s ≡ q → 1 ≤ s → (q * s ≤ i) × (i < q * s + s)
between q i s e h =
    let d : i / s * s + i % s ≡ i = div-add-mod' i s in
    let m : i % s < s = mod-lt i h in
    let e' : i / s * s ≡ q * s = ap (λ (t : ℕ). t * s) e in (omega arith, omega arith)

-- A size that needs `offset + 1` sectors, the last of them not full.
pub tail_of :
    (s size offset r : ℕ)
    → 1 ≤ s
    → sectors_for size s ≡ offset + 1
    → size % s ≡ r
    → 0 < r
    → size ≡ offset * s + r
tail_of s size offset r h e m lo =
    let q : ℕ = size / s in
    let d : q * s + size % s ≡ size = div-add-mod' size s in
    let l : size % s < s = mod-lt size h in
    let u : (size + s - 1) / s * s + (size + s - 1) % s ≡ size + s - 1 =
      div-add-mod' (size + s - 1) s in
    let w : (size + s - 1) % s < s = mod-lt (size + s - 1) h in
    let f : (size + s - 1) / s * s ≡ (offset + 1) * s = ap (λ (t : ℕ). t * s) e in
    let up : offset ≤ q = le_of_mul offset q s (omega arith) in
    let down : q ≤ offset = le_of_mul q offset s (omega arith) in
    let eq : q * s ≡ offset * s = ap (λ (t : ℕ). t * s) (le_antisymm down up) in omega arith

pub account_short :
    (s size offset n i : ℕ)
    → 1 ≤ s
    → sectors_for size s ≡ offset + 1
    → n / s ≡ 0
    → n % s ≡ size % s
    → 0 < n
    → i < size
    → i / s ≡ offset
    → (offset * s ≤ i) × (i < offset * s + n)
account_short s size offset n i h e small tail pos_n lt eq =
    let d : n / s * s + n % s ≡ n = div-add-mod' n s in
    let z : n / s * s ≡ 0 * s = ap (λ (t : ℕ). t * s) small in
    let t : size ≡ offset * s + n = tail_of s size offset n h e (omega arith) pos_n in
    ((between offset i s eq h).0, omega arith)

pub account_whole :
    (s offset n i : ℕ)
    → 1 ≤ s
    → n % s ≡ 0
    → offset ≤ i / s
    → i / s < offset + n / s
    → (offset * s ≤ i) × (i < offset * s + n)
account_whole s offset n i h whole lo hi =
    let d : n / s * s + n % s ≡ n = div-add-mod' n s in
    let (a, b) = between (i / s) i s refl h in
    let m : offset * s ≤ i / s * s = mul_mono offset (i / s) s lo in
    let k : (i / s + 1) * s ≤ (offset + n / s) * s =
      mul_mono (i / s + 1) (offset + n / s) s (omega arith) in
    (omega arith, omega arith)

pub extend_back_bounds :
    (max_io : ℕ) (l : List Bool) (offset count : ℕ)
    → ((extend_back max_io l offset count).0 + (extend_back max_io l offset count).1
        ≡ offset + count)
      × ((extend_back max_io l offset count).0 ≤ offset)
unfolding extend_back
extend_back_bounds max_io l zero count = (omega arith, omega arith)
extend_back_bounds max_io l (suc o) count =
    ground (arith, extend_back_bounds max_io l o (count + 1))
