-- ===== src/Netblk/Cache.antt =====
-- `block_cache` (src/netblk/internal.h, src/netblk/cache.cpp): an image kept in memory sector by
-- sector, filled from a backend on demand. A method is an action on the cache: an exception leaves
-- the changes that were made before it. The functions of src/netblk/cache_lock.cpp take the mutex
-- round the function of the same name with a final `_`, and are these actions in one thread.
pub mod Bitmap
pub mod Invariant
pub mod Account
pub mod Force
pub mod Fetch
pub mod Invalidate
pub mod Read
pub mod Reduce
pub mod Start
use nanodistro.Base.{
  ℕ, zero, suc, ◌+◌, ◌-◌, ◌*◌, ◌/◌, ◌%◌, min, max, Bool, true, false, not, ◌&&◌, ◌||◌, List, [],
  ◌∷◌, Bytes, Option, none, some, get_or, length, is_empty, replicate, ltb, leb, ◌==◌,
  if◌then◌else◌, Result, ok, throw, Error, invalid_argument, runtime_error, errno_error, undefined,
  out_of_fuel,
}
use nanodistro.Base.Int.{ℤ, pos, negsuc}
use nanodistro.Netblk.Lru.{Lru, Node, empty_lru, touch_sector, forget_sector, sectors}
use nanodistro.Netblk.Align.{u64, align_up, size_to_sector}
use nanodistro.Netblk.Backend.{Backend, Memory, do_read, can_access, s_iroth}
use Bitmap.{is_set, fill, find_set, count_set}

-- `mem` is none for a null pointer; an address is an offset into the mapping. A backend is the
-- interface, which is a parameter of the actions, and its state.
pub record Cache (S : Type 0) : Type 0 where
  pub backend : S
  pub mem : Option Memory
  pub is_cached : List Bool
  pub lru : Lru
  pub size : ℕ
  pub alloc_size : ℕ
  pub sector : ℕ
  pub page : ℕ
  pub total_sectors : ℕ
  pub max_io_sector : ℕ

abbrev pub Action : Type 0 → Type 0 → Type 0
Action S A = Cache S → Result A × Cache S

unfoldable pub resume :
    {S A B : Type 0} → Result A × Cache S → (A → Action S B) → Result B × Cache S
resume (ok a, c) f = f a c
resume (throw e, c) f = (throw e, c)

infixl 5 ◌>>=◌ ◌>>◌
unfoldable pub ◌>>=◌ : {S A B : Type 0} → Action S A → (A → Action S B) → Action S B
unfolding resume
◌>>=◌ m f c = resume (m c) f

unfoldable pub ◌>>◌ : {S B : Type 0} → Action S (Unit {0}) → Action S B → Action S B
unfolding ◌>>=◌
m >> k = m >>= λ _. k

unfoldable pub pure : {S A : Type 0} → A → Action S A
pure a c = (ok a, c)

unfoldable pub raise : {S A : Type 0} → Error → Action S A
raise e c = (throw e, c)

-- `if(b)throw e;`
unfoldable pub raise_if : {S : Type 0} → Bool → Error → Action S (Unit {0})
raise_if true e c = (throw e, c)
raise_if false e c = (ok tt, c)

unfoldable pub gets : {S A : Type 0} → (Cache S → A) → Action S A
gets f c = (ok (f c), c)

unfoldable pub modify : {S : Type 0} → (Cache S → Cache S) → Action S (Unit {0})
modify f c = (ok tt, f c)

-- `if(!mem)throw RuntimeError("not initialized");` and the pointer
unfoldable pub mapped : {S : Type 0} → Action S Memory
mapped c = elim c.mem [ none ↦ (throw runtime_error, c) | some m ↦ (ok m, c) ]

-- `touch_sector_` for n sectors from i on
unfoldable pub touch_range : ℕ → ℕ → Lru → Lru
touch_range zero i l = l
touch_range (suc n) i l = touch_range n (i + 1) (touch_sector i l)

unfoldable pub forget_range : ℕ → ℕ → Lru → Lru
forget_range zero i l = l
forget_range (suc n) i l = forget_range n (i + 1) (forget_sector i l)

-- `if(offset+size>whole)size=whole-offset;`
abbrev pub clamp_size : ℕ → ℕ → ℕ → ℕ
clamp_size whole offset size = if ltb whole (u64 (offset + size)) then whole - offset else size

-- `memcpy(buf,(uint8_t*)mem+offset,n)`
unfoldable pub load_from : Memory → ℕ → ℕ → Bytes
load_from m offset zero = []
load_from m offset (suc n) = m offset ∷ load_from m (offset + 1) n

unfoldable pub is_mapped : {S : Type 0} → Cache S → Bool
is_mapped c = elim c.mem [ none ↦ false | some m ↦ true ]

-- `madvise(MADV_DONTNEED)` on an anonymous private mapping: the pages read as zero.
abbrev pub drop_pages : ℕ → ℕ → Memory → Memory
drop_pages off len m i = if leb off i && ltb i (off + len) then 0 else m i

-- the first `while` of `force_cache_sector_`: the offset and the count after it
unfoldable pub extend_back : ℕ → List Bool → ℕ → ℕ → ℕ × ℕ
extend_back max_io cached zero count = (zero, count)
extend_back max_io cached (suc o) count =
    elim (not (suc o % max_io == 0) && not (is_set o cached)) [
      | true ↦ extend_back max_io cached o (count + 1)
      | false ↦ (suc o, count)
    ]

-- `once` of one round of the second `while`; to search a range that ends before it starts is
-- undefined.
unfoldable pub once_of : {S : Type 0} → Cache S → ℕ → ℕ → Result ℕ
once_of c offset count =
    let once = min count c.max_io_sector in
    if ltb once c.max_io_sector
    then (let end = min (u64 (offset + c.max_io_sector)) c.total_sectors in
        if ltb end (offset + once)
        then throw undefined
        else ok (max once (find_set c.is_cached (offset + once) (end - (offset + once)) - offset)))
    else ok once

-- The sectors that `ret` bytes count for: a short last sector counts as one.
unfoldable pub sectors_read : {S : Type 0} → Cache S → ℕ → ℕ → Result ℕ
sectors_read c offset ret =
    let proc = ret / c.sector in
    let unaligned = ret % c.sector in
    if (proc == 0) && (offset + 1 == c.total_sectors) && (unaligned == c.size % c.sector)
    then ok 1
    else if (proc == 0) || not (unaligned == 0)
    then throw runtime_error
    else ok proc

unfoldable pub lift : {S A : Type 0} → Result A → Action S A
lift r c = (r, c)

-- `ret<=0` throws.
unfoldable pub positive : {S : Type 0} → ℤ → Action S ℕ
positive (negsuc n) c = (throw runtime_error, c)
positive (pos zero) c = (throw runtime_error, c)
positive (pos (suc n)) c = (ok (suc n), c)

unfoldable pub mark_cached : {S : Type 0} → ℕ → ℕ → Cache S → Cache S
mark_cached offset proc c = record c {
  is_cached = fill offset proc true c.is_cached;
  lru = touch_range proc offset c.lru;
}

-- What one round does with the result of `do_read`. To fill past the end of the vector `is_cached`
-- is undefined.
unfoldable pub finish_read : {S : Type 0} → ℕ → ℤ → Action S ℕ
unfolding positive lift
finish_read offset ret = do
  n ← positive ret
  found ← gets (λ c. sectors_read c offset n)
  proc ← lift found
  total ← gets (λ c. c.total_sectors)
  raise_if (ltb total (offset + proc)) undefined
  modify (mark_cached offset proc)
  pure proc

module _ {S : Type 0} (b : Backend S) where
  -- `backend->do_read(off,(uint8_t*)mem+off,len)`
  unfoldable pub read_into : ℕ → ℕ → Action S ℤ
  read_into off len c = elim c.mem [
    | none ↦ (throw undefined, c)
    | some m ↦
        let (s, m', ret) = do_read b off off len c.backend m in
        (ok ret, record c { backend = s; mem = some m' })
  ]

  -- one round of the second `while`: the sectors that were read
  unfoldable pub force_once : ℕ → ℕ → Action S ℕ
  force_once offset count = do
    sector ← gets (λ c. c.sector)
    chosen ← gets (λ c. once_of c offset count)
    once ← lift chosen
    ret ← read_into (offset * sector) (once * sector)
    finish_read offset ret

  -- The last argument is the fuel.
  unfoldable pub force_loop : ℕ → ℕ → ℕ → Action S (Unit {0})
  force_loop offset zero fuel = pure tt
  force_loop offset (suc c) zero = raise out_of_fuel
  force_loop offset (suc c) (suc fuel) = do
    proc ← force_once offset (suc c)
    force_loop (offset + proc) (suc c - proc) fuel

  unfoldable pub force_cache_sector : ℕ → ℕ → Action S (Unit {0})
  force_cache_sector offset count = do
    m ← mapped
    total ← gets (λ c. c.total_sectors)
    raise_if (ltb total (u64 (offset + count))) runtime_error
    start ← gets (λ c. extend_back c.max_io_sector c.is_cached offset count)
    force_loop start.0 start.1 start.1

  -- the rounds left, `i`, and the run of sectors found so far (`found_start`, `once_offset`,
  -- `once_count`)
  unfoldable pub cache_loop : ℕ → ℕ → Bool → ℕ → ℕ → Action S (Unit {0})
  cache_loop zero i found once_offset once_count = elim found [
    | true ↦ force_cache_sector once_offset once_count
    | false ↦ pure tt
  ]
  cache_loop (suc n) i found once_offset once_count = do
    cached ← gets (λ c. is_set i c.is_cached)
    elim cached [
      | false ↦ elim found [
        | true ↦ cache_loop n (i + 1) true once_offset (once_count + 1)
        | false ↦ cache_loop n (i + 1) true i 1
      ]
      | true ↦ elim found [
        | true ↦ do
          force_cache_sector once_offset once_count
          cache_loop n (i + 1) false once_offset once_count
        | false ↦ cache_loop n (i + 1) false once_offset once_count
      ]
    ]

  unfoldable pub cache_sector : ℕ → ℕ → Action S (Unit {0})
  cache_sector offset count = do
    m ← mapped
    total ← gets (λ c. c.total_sectors)
    raise_if (ltb total (u64 (offset + count))) runtime_error
    cache_loop (u64 (offset + count) - offset) offset false 0 0

  -- `cache_`
  unfoldable pub cache_range : ℕ → ℕ → Action S (Unit {0})
  cache_range offset size = do
    m ← mapped
    whole ← gets (λ c. c.size)
    sector ← gets (λ c. c.sector)
    let range = size_to_sector offset (clamp_size whole offset size) sector
    if (size == 0) || leb whole offset then pure tt else cache_sector range.0 range.1

  -- `cached_read_`: the bytes that are left in `buf`
  unfoldable pub cached_read : ℕ → ℕ → Action S Bytes
  cached_read offset size = do
    m ← mapped
    whole ← gets (λ c. c.size)
    if leb whole offset then pure [] else do
      cache_range offset (min size (whole - offset))
      m' ← mapped
      pure (load_from m' offset (min size (whole - offset)))

-- the bitmap, the pages and the recency order of `invalidate_sector_`
unfoldable pub clear_sectors : {S : Type 0} → ℕ → ℕ → Memory → Cache S → Cache S
clear_sectors offset size m c = record c {
  is_cached = fill offset size false c.is_cached;
  mem = some (drop_pages (offset * c.sector) (size * c.sector) m);
  lru = forget_range size offset c.lru;
}

unfoldable pub invalidate_sector : {S : Type 0} → ℕ → ℕ → Action S (Unit {0})
invalidate_sector offset size = do
  m ← mapped
  total ← gets (λ c. c.total_sectors)
  if (size == 0) || leb total offset
      then pure tt
      else modify (clear_sectors offset (clamp_size total offset size) m)

-- `invalidate()`
unfoldable pub invalidate_all : {S : Type 0} → Action S (Unit {0})
invalidate_all = do total ← gets (λ c. c.total_sectors); invalidate_sector 0 total

-- `invalidate(offset,size)`
unfoldable pub invalidate_range : {S : Type 0} → ℕ → ℕ → Action S (Unit {0})
invalidate_range offset size = do
  m ← mapped
  whole ← gets (λ c. c.size)
  sector ← gets (λ c. c.sector)
  let range = size_to_sector offset (clamp_size whole offset size) sector
  if (size == 0) || leb whole offset then pure tt else invalidate_sector range.0 range.1

unfoldable pub get_cached_sectors : {S : Type 0} → Action S ℕ
get_cached_sectors = do m ← mapped; gets (λ c. count_set c.is_cached)

unfoldable pub get_cached_size : {S : Type 0} → Action S ℕ
get_cached_size = do n ← get_cached_sectors; gets (λ c. n * c.sector)

-- `lru_list.back()`; none if the list is empty
abbrev pub last_of : List ℕ → Option ℕ
last_of [] = none
last_of (x ∷ []) = some x
last_of (x ∷ y ∷ xs) = last_of (y ∷ xs)

-- the loop of `reduce_sector_`; the last argument is `cached`
unfoldable pub reduce_loop : {S : Type 0} → ℕ → ℕ → Action S (Unit {0})
reduce_loop max_cached zero = pure tt
reduce_loop max_cached (suc k) = do
  victim ← gets (λ c. last_of (sectors c.lru))
  elim (ltb max_cached (suc k)) [
    | true ↦ elim victim [
      | none ↦ pure tt
      | some v ↦ do invalidate_sector v 1; reduce_loop max_cached k
    ]
    | false ↦ pure tt
  ]

unfoldable pub reduce_sector : {S : Type 0} → ℕ → Action S (Unit {0})
reduce_sector max_cached = do cached ← get_cached_sectors; reduce_loop max_cached cached

unfoldable pub reduce_half : {S : Type 0} → Action S (Unit {0})
reduce_half = do cached ← get_cached_sectors; reduce_sector (cached / 2)

-- The constructor, whose backend is not null; `page` is the page size of the system.
unfoldable pub new_cache : {S : Type 0} → S → ℕ → ℕ → ℕ → Result (Cache S)
new_cache backend max_io_sector sector page =
    if (sector == 0) || (max_io_sector == 0)
    then throw invalid_argument
    else if ltb sector page || not (sector % page == 0)
    then throw invalid_argument
    else ok (record {
      backend = backend;
      mem = none;
      is_cached = [];
      lru = empty_lru;
      size = 0;
      alloc_size = 0;
      sector = sector;
      page = page;
      total_sectors = 0;
      max_io_sector = max_io_sector;
    })

-- the fields that `init` sets from the size of the backend
unfoldable pub sized : {S : Type 0} → ℕ → Cache S → Cache S
sized size c = record c { size = size; total_sectors = align_up size c.sector / c.sector }

-- `is_cached.resize(n)`
unfoldable pub resize : ℕ → List Bool → List Bool
resize zero l = []
resize (suc n) [] = false ∷ resize n []
resize (suc n) (x ∷ l) = x ∷ resize n l

unfoldable pub allocate : {S : Type 0} → Cache S → Cache S
allocate c = record c { mem = some (λ i. 0); is_cached = resize c.total_sectors c.is_cached }

-- `init`; the flag says whether `mmap` succeeds, and a new mapping reads as zero.
unfoldable pub init : {S : Type 0} → Backend S → Bool → Action S (Unit {0})
init b mapping = do
  used ← gets (λ c. not (c.size == 0) || not (c.total_sectors == 0) || is_mapped c)
  raise_if used invalid_argument
  unset ← gets (λ c. (c.sector == 0) || (c.max_io_sector == 0))
  raise_if unset invalid_argument
  modify (sized b.get_size)
  none_left ← gets (λ c. (c.size == 0) || (c.total_sectors == 0))
  raise_if none_left invalid_argument
  modify (λ c. record c { alloc_size = align_up c.size c.page })
  raise_if (not mapping) errno_error
  modify allocate
  total ← gets (λ c. c.total_sectors)
  invalidate_sector 0 total

unfoldable pub destroy : {S : Type 0} → Cache S → Cache S
destroy c = record c {
  mem = none;
  is_cached = [];
  lru = record empty_lru { next_id = c.lru.next_id };
  size = 0;
  alloc_size = 0;
  total_sectors = 0;
}
