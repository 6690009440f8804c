-- ===== src/Netblk/Tests.antt =====
-- The theorems on the block cache (src/netblk) at a small image: ten bytes in sectors of four.
use nanodistro.Base.{
  ℕ, ◌+◌, ◌-◌, ◌*◌, ◌/◌, ◌≤◌, ◌<◌, min, true, false, List, [], ◌∷◌, ◌++◌, none, some, Bytes, ◌≡◌,
  refl, arith, ok, zero, suc,
}
use nanodistro.Netblk.Backend.Mem.{mem_backend}
use nanodistro.Netblk.Nbd.{
  Request, Device, Incoming, nbd_request_magic, serve, receive, run_job, new_device, started,
  received, stepped,
}
use nanodistro.Netblk.Nbd.Replies.{IsServed, success, Reachable-IsServed}
use nanodistro.Netblk.Nbd.Data.{serve-read-write}
use nanodistro.Netblk.Lru.{Node, empty_lru, sectors}
use nanodistro.Netblk.Lru.Order.{contains, id_of}
use nanodistro.Netblk.Align.{size_to_sector, align_up}
use nanodistro.Netblk.Align.Rounding.{IsPow2}
use nanodistro.Netblk.Align.Coverage.{size_to_sector-covers, size_to_sector-misses}
use nanodistro.Netblk.Backend.{can_access}
use nanodistro.Netblk.Backend.Mem.{frozen, image_of, frozen-Serves}
use nanodistro.Netblk.Cache.{
  gets, raise_if, is_mapped, modify, sized, mapped, allocate, ◌>>=◌, ◌>>◌, Cache, load_from,
  cached_read, force_cache_sector, invalidate_sector, reduce_sector, new_cache, init,
}
use nanodistro.Netblk.Cache.Bitmap.{is_set, count_set}
use nanodistro.Netblk.Cache.Invariant.{Geometry, IsValid, Post}
use nanodistro.Netblk.Cache.Force.{Grown, force_cache_sector-Grown}
use nanodistro.Netblk.Cache.Reduce.{reduce_sector-recent}
use nanodistro.Netblk.Readcache
use nanodistro.Netblk.Readcache.{new_readcache, new_readcache-read}
use nanodistro.Netblk.Cache.Start.{init-IsValid}
use nanodistro.Netblk.Cache.Read.{cached_read-image, cached_read_short}

abbrev ten_bytes : Bytes
ten_bytes = 1 ∷ 2 ∷ 3 ∷ 4 ∷ 5 ∷ 6 ∷ 7 ∷ 8 ∷ 9 ∷ 10 ∷ []

abbrev four : IsPow2 4
four = record { log = 2; is_pow = refl; fits = omega arith }

abbrev three_sectors : Geometry
three_sectors = record {
  size = 10;
  sector = 4;
  total = 3;
  max_io = 2;
  pow = four;
  sized = refl;
  fits = omega arith;
  io_pos = omega arith;
}

abbrev fresh : Cache (Unit {0})
fresh = record {
  backend = tt;
  mem = some (λ i. 0);
  is_cached = false ∷ false ∷ false ∷ [];
  lru = empty_lru;
  size = 10;
  alloc_size = 12;
  sector = 4;
  page = 4;
  total_sectors = 3;
  max_io_sector = 2;
}

clear_at : (i : ℕ) → is_set i (false ∷ false ∷ false ∷ []) ≡ false
clear_at zero = refl
clear_at (suc zero) = refl
clear_at (suc (suc zero)) = refl
clear_at (suc (suc (suc i))) = refl

fresh-IsValid : IsValid (image_of ten_bytes) three_sectors fresh
fresh-IsValid = record {
  at_size = refl;
  at_sector = refl;
  at_total = refl;
  at_io = refl;
  bits = refl;
  order = record { linked = λ s. refl; sectors_once = tt; ids_once = tt; fresh = tt };
  same = λ i. ground (arith, clear_at i);
  live = ((λ i. 0), refl, λ i lt e. absurd (ground (arith, clear_at (i / 4))));
}

size_to_sector-covers_example :
    ((size_to_sector 4 5 4).0 * 4 ≡ 4)
    × (4 + 5 ≤ (size_to_sector 4 5 4).0 * 4 + (size_to_sector 4 5 4).1 * 4)
    × ((size_to_sector 4 5 4).0 * 4 + (size_to_sector 4 5 4).1 * 4 < 4 + 5 + 4)
size_to_sector-covers_example = size_to_sector-covers four 4 5 refl (omega arith)

size_to_sector-misses_example : (size_to_sector 6 4 4).0 * 4 + (size_to_sector 6 4 4).1 * 4 < 6 + 4
size_to_sector-misses_example =
    size_to_sector-misses four 6 4 (omega arith) (omega arith) (omega arith) (omega arith)

force_cache_sector-Grown_example :
    Post
      (image_of ten_bytes)
      three_sectors
      (Grown (image_of ten_bytes) three_sectors fresh 0 2)
      (force_cache_sector (frozen ten_bytes) 0 2 fresh)
force_cache_sector-Grown_example =
    force_cache_sector-Grown (image_of ten_bytes) three_sectors (frozen ten_bytes)
      (frozen-Serves ten_bytes) (omega arith) 0 2 fresh fresh-IsValid (omega arith)

cached_read-image_example :
    Post
      (image_of ten_bytes)
      three_sectors
      (λ bytes c'.
        IsValid (image_of ten_bytes) three_sectors c'
        × (bytes ≡ load_from (image_of ten_bytes) 4 (min 3 (10 - 4))))
      (cached_read (frozen ten_bytes) 4 3 fresh)
cached_read-image_example =
    cached_read-image (image_of ten_bytes) three_sectors (frozen ten_bytes)
      (frozen-Serves ten_bytes) (omega arith) 4 3 fresh fresh-IsValid refl

cached_read_short_example :
    cached_read (frozen ten_bytes) 6 1 fresh ≡ (ok (load_from (λ i. 0) 6 1), fresh)
cached_read_short_example =
    cached_read_short (frozen ten_bytes) fresh (λ i. 0) 6 1 four refl (refl) (omega arith)
      (omega arith) (omega arith) (omega arith)

abbrev any_order : Device Bytes
any_order = run_job (mem_backend 3 10) 0 (
    run_job (mem_backend 3 10) 0 (
      receive (λ n. ok [])
        (Incoming.read (
          37 ∷ 96 ∷ 149 ∷ 19 ∷ 0 ∷ 0 ∷ 0 ∷ 0 ∷ 9 ∷ 8 ∷ 7 ∷ 6 ∷ 5 ∷ 4 ∷ 3 ∷ 2 ∷ 0 ∷ 0 ∷ 0 ∷ 0 ∷ 0 ∷ 0
          ∷ 0 ∷ 2 ∷ 0 ∷ 0 ∷ 0 ∷ 3 ∷ []))
        (new_device ten_bytes)))

Reachable-IsServed_example : IsServed any_order
Reachable-IsServed_example =
    Reachable-IsServed (mem_backend 3 10) any_order
      (stepped 0 _ (stepped 0 _ (received (λ n. ok []) _ _ (started ten_bytes))))

abbrev write_two : Request
write_two = record { magic = nbd_request_magic; type = 1; handle = 1 ∷ []; from = 8; len = 2 }

abbrev read_two : Request
read_two = record { magic = nbd_request_magic; type = 0; handle = 2 ∷ []; from = 8; len = 2 }

serve-read-write_example :
    ((serve
        (mem_backend 3 10)
        (record { req = write_two; buffer = 7 ∷ 7 ∷ []; reply_sent = false })
        ten_bytes).1
      ≡ success write_two [] ∷ [])
    × ((serve
          (mem_backend 3 10)
          (record { req = read_two; buffer = []; reply_sent = false })
          (serve
            (mem_backend 3 10)
            (record { req = write_two; buffer = 7 ∷ 7 ∷ []; reply_sent = false })
            ten_bytes).0).1
        ≡ success read_two (7 ∷ 7 ∷ []) ∷ [])
serve-read-write_example =
    serve-read-write 3 10 ten_bytes (7 ∷ 7 ∷ []) write_two read_two refl refl refl refl refl
      (omega arith) (omega arith) (omega arith)

abbrev warm_nodes : List Node
warm_nodes =
    record { id = 7; at_sector = 1 }
    ∷ record { id = 5; at_sector = 0 }
    ∷ record { id = 4; at_sector = 2 }
    ∷ []

abbrev warm : Cache (Unit {0})
warm = record fresh {
  mem = some (image_of ten_bytes);
  is_cached = true ∷ true ∷ true ∷ [];
  lru = record { lru_list = warm_nodes; lru_map = λ s. id_of s warm_nodes; next_id = 8 };
}

set_at : (i : ℕ) → contains i (1 ∷ 0 ∷ 2 ∷ []) ≡ is_set i (true ∷ true ∷ true ∷ [])
set_at zero = refl
set_at (suc zero) = refl
set_at (suc (suc zero)) = refl
set_at (suc (suc (suc i))) = ground arith

warm-IsValid : IsValid (image_of ten_bytes) three_sectors warm
warm-IsValid = record {
  at_size = refl;
  at_sector = refl;
  at_total = refl;
  at_io = refl;
  bits = refl;
  order = record {
    linked = λ s. refl;
    sectors_once = (refl, (refl, (refl, tt)));
    ids_once = (refl, (refl, (refl, tt)));
    fresh = (omega arith, (omega arith, (omega arith, tt)));
  };
  same = set_at;
  live = (image_of ten_bytes, refl, λ i lt e. refl);
}

reduce_sector-recent_example :
    ((reduce_sector 1 warm).0 ≡ ok tt)
    × IsValid (image_of ten_bytes) three_sectors (reduce_sector 1 warm).1
    × (count_set (reduce_sector 1 warm).1.is_cached ≡ min (count_set warm.is_cached) 1)
    × ((older : List ℕ) × (sectors warm.lru ≡ sectors (reduce_sector 1 warm).1.lru ++ older))
reduce_sector-recent_example =
    reduce_sector-recent (image_of ten_bytes) three_sectors 1 warm warm-IsValid

abbrev unready : Cache (Unit {0})
unready = record fresh { mem = none; is_cached = []; size = 0; alloc_size = 0; total_sectors = 0 }

unready-new_cache : new_cache tt 2 4 4 ≡ ok unready
unfolding new_cache
unready-new_cache = refl

init-IsValid_example :
    ((init (frozen ten_bytes) true unready).0 ≡ ok tt)
    × IsValid (image_of ten_bytes) three_sectors (init (frozen ten_bytes) true unready).1
init-IsValid_example =
    init-IsValid (image_of ten_bytes) three_sectors (frozen ten_bytes) tt 4 unready refl
      (omega arith) unready-new_cache

new_readcache-warm :
    new_readcache (frozen ten_bytes) tt 2 4 4 true ≡ ok (init (frozen ten_bytes) true unready).1
unfolding new_readcache new_cache init can_access ◌>>=◌ gets ◌>>◌ raise_if is_mapped modify sized
    align_up invalidate_sector mapped allocate
new_readcache-warm = refl

new_readcache-read_example :
    Post
      (image_of ten_bytes)
      three_sectors
      (λ bytes c'.
        IsValid (image_of ten_bytes) three_sectors c'
        × (bytes ≡ load_from (image_of ten_bytes) 8 (min 7 (10 - 8))))
      (Readcache.read (frozen ten_bytes) 8 7 (init (frozen ten_bytes) true unready).1)
new_readcache-read_example =
    new_readcache-read (image_of ten_bytes) three_sectors (frozen ten_bytes)
      (frozen-Serves ten_bytes) (omega arith) tt 4 8 7 (init (frozen ten_bytes) true unready).1 refl
      (omega arith) new_readcache-warm refl
