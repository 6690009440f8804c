-- ===== src/Netblk/Cache/Force.antt =====
-- `force_cache_sector_` reads the sectors that it is asked for, and keeps the cache valid.
use native.Mathlib.Nat.{div-add-mod'}
use nanodistro.Base.{
  ◌^◌, ℕ, zero, suc, ◌+◌, ◌-◌, ◌*◌, ◌/◌, ◌%◌, ◌≤◌, ◌<◌, Bool, true, false, List, some, ◌≡◌, refl,
  sym, ap, ◌∙◌, subst, ◌⊎◌, inl, inr, arith, ok, ltb, range-cases, Result-cases,
}
use nanodistro.Base.Int.{ℤ, pos, negsuc}
use nanodistro.Netblk.Align.{u64}
use nanodistro.Netblk.Align.Rounding.{IsPow2-pos}
use nanodistro.Netblk.Backend.{Backend, Memory, do_read}
use nanodistro.Netblk.Backend.Retry.{Serves, Filled, do_read-Filled}
use nanodistro.Netblk.Cache.{
  Cache, lift, sectors_read, mark_cached, finish_read, read_into, force_once, force_loop,
  force_cache_sector, extend_back, ◌>>=◌, ◌>>◌, gets, pure, raise_if, modify,
}
use nanodistro.Netblk.Cache.Bitmap.{is_set, length-fill, is_set-fill_in, is_set-fill_out, is_set-lt}
use nanodistro.Netblk.Cache.Invariant.{
  Geometry, mapped-ok, total-lt-word, IsValid, Post, bind_rule, weaken, touch_range-IsConsistent,
  contains-touch_range_in, contains-touch_range_out,
}
use nanodistro.Netblk.Cache.Account.{
  Kept, AllCached, once_of_bounds, le_of_mul, sectors_read_error, account_short, account_whole,
  extend_back_bounds,
}

module _ {S : Type 0} (image : Memory) (g : Geometry) where
  -- After `do_read` the cache is valid, its bitmap is as it was, and as many bytes of the image as
  -- the result says stand in memory.
  record AfterRead (c : Cache S) (off len : ℕ) (ret : ℤ) (c' : Cache S) : Type 0 where
    valid : IsValid image g c'
    same_bits : c'.is_cached ≡ c.is_cached
    bounded : (k : ℕ) → ret ≡ pos k → k ≤ len
    stored :
        (m : Memory) × (c'.mem ≡ some m)
        × ((k i : ℕ) → ret ≡ pos k → off ≤ i → i < off + k → m i ≡ image i)

  read_into-AfterRead :
      (b : Backend S)
      → Serves image b
      → (c : Cache S) (off len : ℕ) → IsValid image g c
      → Post image g (AfterRead c off len) (read_into b off len c)
  unfolding read_into
  read_into-AfterRead b h c off len v =
      let (m, at, agrees) = v.live in
      let f : Filled b h off len m (do_read b off off len c.backend m) =
        do_read-Filled b h off len c.backend m in
      rw (at, read_into)
        (record {
          valid = record {
            at_size = v.at_size;
            at_sector = v.at_sector;
            at_total = v.at_total;
            at_io = v.at_io;
            bits = v.bits;
            order = v.order;
            same = v.same;
            live =
                ((do_read b off off len c.backend m).1, refl, λ i lt e. f.grows i (agrees i lt e));
          };
          same_bits = refl;
          bounded = f.bounded;
          stored = ((do_read b off off len c.backend m).1, refl, f.stored);
        })

  sectors_read_cases :
      (c : Cache S) (offset n proc : ℕ)
      → IsValid image g c
      → sectors_read c offset n ≡ ok proc
      → ((proc ≡ 1)
          × (n / g.sector ≡ 0)
          × (offset + 1 ≡ g.total)
          × (n % g.sector ≡ g.size % g.sector))
        ⊎ ((proc ≡ n / g.sector) × (n % g.sector ≡ 0) × (1 ≤ proc))
  unfolding sectors_read
  sectors_read_cases c offset n proc v e = ground (arith, v.at_sector, v.at_total, v.at_size)

  -- The bytes that a round has to account for.
  sectors_read_ok :
      (c : Cache S) (offset once n proc : ℕ)
      → IsValid image g c
      → 0 < n
      → 1 ≤ once
      → n ≤ once * g.sector
      → sectors_read c offset n ≡ ok proc
      → (1 ≤ proc)
        × (proc ≤ once)
        × ((i : ℕ)
            → i < g.size
            → offset ≤ i / g.sector
            → i / g.sector < offset + proc
            → (offset * g.sector ≤ i) × (i < offset * g.sector + n))
  sectors_read_ok c offset once n proc v pos_n o h e =
      let pos_s : 1 ≤ g.sector = IsPow2-pos g.pow in
      elim (sectors_read_cases c offset n proc v e) [
        | inl (one, small, last, tail) ↦ (
          omega arith,
          omega arith,
          λ i lt lo hi.
              account_short g.sector g.size offset n i pos_s (sym g.sized ∙ sym last) small tail
                pos_n lt (omega arith),
        )
        | inr (all, whole, some_) ↦
            let d : n / g.sector * g.sector + n % g.sector ≡ n = div-add-mod' n g.sector in
            (
              some_,
              rw all (le_of_mul (n / g.sector) once g.sector (omega arith)),
              λ i lt lo hi. account_whole g.sector offset n i pos_s whole lo (omega arith),
            )
      ]

  -- What one round that started at `offset` leaves behind.
  record Forced (c : Cache S) (offset : ℕ) (proc : ℕ) (c' : Cache S) : Type 0 where
    valid : IsValid image g c'
    kept : Kept c c'
    some_read : 1 ≤ proc
    inside : offset + proc ≤ g.total
    now_cached : AllCached offset proc c'

  mark_cached-Forced :
      (c c1 : Cache S) (offset once n proc : ℕ)
      → AfterRead c (offset * g.sector) (once * g.sector) (pos n) c1
      → 0 < n
      → 1 ≤ once
      → offset + once ≤ g.total
      → sectors_read c1 offset n ≡ ok proc
      → Forced c offset proc (mark_cached offset proc c1)
  unfolding mark_cached
  mark_cached-Forced c c1 offset once n proc a pos_n o inside e =
      let (x, y, bytes) =
        sectors_read_ok c1 offset once n proc a.valid pos_n o (a.bounded n refl) e in
      let (m, at, stored) = a.stored in
      let (m', at', agrees) = a.valid.live in
      record {
        valid = record {
          at_size = a.valid.at_size;
          at_sector = a.valid.at_sector;
          at_total = a.valid.at_total;
          at_io = a.valid.at_io;
          bits = length-fill offset proc true c1.is_cached ∙ a.valid.bits;
          order = touch_range-IsConsistent proc offset c1.lru a.valid.order;
          same = λ i. elim (range-cases offset proc i) [
            | inl out ↦
                contains-touch_range_out proc offset i c1.lru a.valid.order out
                ∙ a.valid.same i
                ∙ sym (is_set-fill_out offset proc i true c1.is_cached out)
            | inr (lo, hi) ↦
                contains-touch_range_in proc offset i c1.lru a.valid.order (inr (lo, hi))
                ∙ sym (
                    is_set-fill_in offset proc i true c1.is_cached lo hi
                      (omega (arith, a.valid.bits)))
          ];
          live = (
            m',
            at',
            λ i lt set. elim (range-cases offset proc (i / g.sector)) [
              | inl out ↦
                  agrees i lt
                    (sym (is_set-fill_out offset proc (i / g.sector) true c1.is_cached out) ∙ set)
              | inr (lo, hi) ↦
                  let (first, last) = bytes i lt lo hi in
                  let one : m' ≡ m = cc (at', at) in
                  ap (λ (t : Memory). t i) one ∙ stored n i refl first last
            ],
          );
        };
        kept = λ i old.
            let old' : is_set i c1.is_cached ≡ true =
              ap (λ (t : List Bool). is_set i t) a.same_bits ∙ old in
            elim (range-cases offset proc i) [
              | inl out ↦ is_set-fill_out offset proc i true c1.is_cached out ∙ old'
              | inr (lo, hi) ↦
                  is_set-fill_in offset proc i true c1.is_cached lo hi
                    (is_set-lt i c1.is_cached old')
            ];
        some_read = x;
        inside = omega arith;
        now_cached = λ i lo hi.
            is_set-fill_in offset proc i true c1.is_cached lo hi (omega (arith, a.valid.bits));
      }

  finish_read-Forced :
      (c c1 : Cache S) (offset once : ℕ) (ret : ℤ)
      → AfterRead c (offset * g.sector) (once * g.sector) ret c1
      → 1 ≤ once
      → offset + once ≤ g.total
      → Post image g (Forced c offset) (finish_read offset ret c1)
  unfolding finish_read ◌>>=◌ ◌>>◌ gets modify pure raise_if
  finish_read-Forced c c1 offset once (negsuc k) a o inside = (a.valid, refl)
  finish_read-Forced c c1 offset once (pos zero) a o inside = (a.valid, refl)
  finish_read-Forced c c1 offset once (pos (suc k)) a o inside =
      elim (Result-cases (sectors_read c1 offset (suc k))) [
        | inl (proc, e) ↦
            let f : Forced c offset proc (mark_cached offset proc c1) =
              mark_cached-Forced c c1 offset once (suc k) proc a (omega arith) o inside e in
            let within : ltb c1.total_sectors (offset + proc) ≡ false =
              ground (arith, f.inside, a.valid.at_total) in
            rw (e, within) f
        | inr (x, e) ↦ rw e (a.valid, sectors_read_error c1 offset (suc k) x e)
      ]

  -- One round.
  force_once-Forced :
      (b : Backend S)
      → Serves image b
      → g.total + g.max_io ≤ 2 ^ 64
      → (c : Cache S) (offset count : ℕ) → IsValid image g c
      → 0 < count
      → offset + count ≤ g.total
      → Post image g (Forced c offset) (force_once b offset count c)
  unfolding force_once ◌>>=◌ gets lift
  force_once-Forced b h w c offset count v pos_c fits =
      let (once, chosen, pos_once, inside) =
        once_of_bounds c offset count pos_c (omega (arith, v.at_io, g.io_pos))
          (omega (arith, v.at_total)) (omega (arith, v.at_total, v.at_io, w)) in
      rw chosen (
        bind_rule image g (AfterRead c (offset * g.sector) (once * g.sector)) (Forced c offset)
          (read_into b (offset * c.sector) (once * c.sector)) (finish_read offset) c
          (subst
            (λ (t : ℕ).
              Post image g (AfterRead c (offset * t) (once * t))
                (read_into b (offset * c.sector) (once * c.sector) c))
            v.at_sector (read_into-AfterRead b h c (offset * c.sector) (once * c.sector) v))
          (λ ret c1 a.
            finish_read-Forced c c1 offset once ret a pos_once (omega (arith, inside, v.at_total))))

  -- A valid cache that has grown by a range of sectors.
  pub record Grown (c : Cache S) (offset count : ℕ) (done : Unit {0}) (c' : Cache S) : Type 0 where
    pub valid : IsValid image g c'
    pub kept : Kept c c'
    pub now_cached : AllCached offset count c'

  module _ (b : Backend S) (h : Serves image b) (w : g.total + g.max_io ≤ 2 ^ 64) where
    force_loop-Grown :
        (fuel offset count : ℕ) (c : Cache S)
        → IsValid image g c
        → offset + count ≤ g.total
        → count ≤ fuel
        → Post image g (Grown c offset count) (force_loop b offset count fuel c)
    unfolding force_loop ◌>>=◌ pure
    force_loop-Grown fuel offset zero c v fits enough = record {
      valid = v;
      kept = λ i e. e;
      now_cached = λ i lo hi. absurd (omega arith);
    }
    force_loop-Grown zero offset (suc n) c v fits enough = absurd (omega arith)
    force_loop-Grown (suc fuel) offset (suc n) c v fits enough =
        bind_rule image g (Forced c offset) (Grown c offset (suc n)) (force_once b offset (suc n))
          (λ proc. force_loop b (offset + proc) (suc n - proc) fuel) c
          (force_once-Forced b h w c offset (suc n) v (omega arith) fits)
          (λ proc c1 f.
            weaken image g (Grown c1 (offset + proc) (suc n - proc)) (Grown c offset (suc n))
              (force_loop b (offset + proc) (suc n - proc) fuel c1)
              (force_loop-Grown fuel (offset + proc) (suc n - proc) c1 f.valid
                (omega (arith, f.inside)) (omega (arith, f.some_read)))
              (λ u c2 r. record {
                valid = r.valid;
                kept = λ i e. r.kept i (f.kept i e);
                now_cached = λ i lo hi. elim (range-cases offset proc i) [
                  | inl out ↦ r.now_cached i (omega arith) (omega arith)
                  | inr (a, z) ↦ r.kept i (f.now_cached i a z)
                ];
              }))

    -- On a valid cache whose sector size is a power of two and whose backend serves the image,
    -- `force_cache_sector_` of a range of its sectors either makes every sector of the range cached,
    -- or throws a `RuntimeError`; in both cases the cache stays valid. The image's size and one
    -- sector are together at most 2 ^ 64, and so are its sectors and `max_io_sector`.
    pub force_cache_sector-Grown :
        (offset count : ℕ) (c : Cache S)
        → IsValid image g c
        → offset + count ≤ g.total
        → Post image g (Grown c offset count) (force_cache_sector b offset count c)
    unfolding force_cache_sector ◌>>=◌ ◌>>◌ gets raise_if
    force_cache_sector-Grown offset count c v fits =
        let (m, at, agrees) = v.live in
        let start : ℕ × ℕ = extend_back c.max_io_sector c.is_cached offset count in
        let (sum, first) = extend_back_bounds c.max_io_sector c.is_cached offset count in
        let within : ltb c.total_sectors (u64 (offset + count)) ≡ false =
          ground (arith, v.at_total, total-lt-word g) in
        rw (mapped-ok c m at, within)
          (weaken image g (Grown c start.0 start.1) (Grown c offset count)
            (force_loop b start.0 start.1 start.1 c)
            (force_loop-Grown start.1 start.0 start.1 c v (omega arith) (omega arith))
            (λ u c' r. record {
              valid = r.valid;
              kept = r.kept;
              now_cached = λ i lo hi. r.now_cached i (omega arith) (omega arith);
            }))
