-- ===== src/Netblk/Backend/Mem.antt =====
-- `netblk_backend_mem` (src/netblk/mem.cpp): a backend whose blocks are a string in memory. The
-- buffer of a call is never null.
use nanodistro.Base.{
  ℕ, zero, suc, ◌+◌, ◌-◌, ◌≤◌, ◌<◌, min, [], ◌∷◌, ◌++◌, ◌≡◌, refl, ap, arith, false, ◌∙◌, Bytes,
  length, take, drop, get_or, leb, ◌==◌, if◌then◌else◌, length-take, length-drop, length-append,
}
use nanodistro.Netblk.Backend.{Backend, Outcome, returned, errno_thrown, Memory}
use nanodistro.Netblk.Backend.Retry.{Serves}

abbrev pub erange : ℕ
erange = 34

-- `S_IROTH|S_IWOTH`
abbrev pub mem_access : ℕ
mem_access = 6

unfoldable pub mem_read : Bytes → ℕ → ℕ → Bytes × Outcome
mem_read blocks offset size =
    if size == 0
    then ([], returned 0)
    else if leb (length blocks) offset
    then ([], errno_thrown erange)
    else (let toread = min (length blocks - offset) size in
        (take toread (drop offset blocks), returned toread))

-- `memcpy` over the bytes from an offset on
unfoldable pub overwrite : ℕ → Bytes → Bytes → Bytes
overwrite offset bytes blocks = take offset blocks ++ (bytes ++ drop (offset + length bytes) blocks)

unfoldable pub mem_write : Bytes → ℕ → Bytes → Bytes × Outcome
unfolding overwrite
mem_write blocks offset bytes =
    if length bytes == 0
    then (blocks, returned 0)
    else if leb (length blocks) offset
    then (blocks, errno_thrown erange)
    else (let towrite = min (length blocks - offset) (length bytes) in
        (overwrite offset (take towrite bytes) blocks, returned towrite))

-- The backend with its string as its state; `retry` is `netblk_backend::retry`.
abbrev pub mem_backend : ℕ → ℕ → Backend Bytes
mem_backend retry size = record {
  access = mem_access;
  get_size = size;
  retry = retry;
  read = λ s off len. (let (bytes, outcome) = mem_read s off len in (s, bytes, outcome));
  write = mem_write;
}

-- The same over a string that is never written.
abbrev pub frozen : Bytes → Backend (Unit {0})
frozen blocks = record {
  access = mem_access;
  get_size = length blocks;
  retry = 3;
  read = λ s off len. (let (bytes, outcome) = mem_read blocks off len in (s, bytes, outcome));
  write = λ s off bytes. (s, errno_thrown erange);
}

-- A string as an image: zero behind its end.
abbrev pub image_of : Bytes → Memory
image_of blocks i = get_or blocks i 0

get_or-take : (n : ℕ) (xs : Bytes) (i : ℕ) → i < n → get_or (take n xs) i 0 ≡ get_or xs i 0
get_or-take zero xs i h = absurd (omega arith)
get_or-take (suc n) [] i h = refl
get_or-take (suc n) (x ∷ xs) zero h = refl
get_or-take (suc n) (x ∷ xs) (suc i) h = get_or-take n xs i (omega arith)

get_or-drop : (n : ℕ) (xs : Bytes) (i : ℕ) → get_or (drop n xs) i 0 ≡ get_or xs (n + i) 0
get_or-drop zero xs i = ap (λ (t : ℕ). get_or xs t 0) (omega arith)
get_or-drop (suc n) [] i = refl
get_or-drop (suc n) (x ∷ xs) i =
    let e : suc n + i ≡ suc (n + i) = omega arith in rw e (get_or-drop n xs i)

length-served :
    (n o : ℕ) (xs : Bytes)
    → length (take (min (length xs - o) n) (drop o xs)) ≡ min (length xs - o) n
length-served n o xs =
    omega (arith, length-take (min (length xs - o) n) (drop o xs), length-drop o xs)

pub frozen-Serves : (blocks : Bytes) → Serves (image_of blocks) (frozen blocks)
unfolding mem_read
frozen-Serves blocks = record {
  within = λ s off len. ground (arith, length-served len off blocks);
  of_image = λ s off len i h. ground (
    arith,
    length-served len off blocks,
    get_or-take (min (length blocks - off) len) (drop off blocks) i,
    get_or-drop off blocks i,
  );
  counted = λ s off len k e. ground (arith, length-served len off blocks);
}

overwrite-parts :
    (o : ℕ) (bytes blocks : Bytes)
    → o ≤ length blocks
    → drop o (overwrite o bytes blocks) ≡ bytes ++ drop (o + length bytes) blocks
unfolding overwrite
overwrite-parts zero bytes blocks h = refl
overwrite-parts (suc o) bytes [] h = absurd (omega arith)
overwrite-parts (suc o) bytes (x ∷ blocks) h =
    let e : suc o + length bytes ≡ suc (o + length bytes) = omega arith in
    rw e (overwrite-parts o bytes blocks (omega arith))

take-prefix : (xs ys : Bytes) → take (length xs) (xs ++ ys) ≡ xs
take-prefix [] ys = refl
take-prefix (x ∷ xs) ys = ap (◌∷◌ x) (take-prefix xs ys)

length-overwrite :
    (o : ℕ) (bytes blocks : Bytes)
    → o + length bytes ≤ length blocks
    → length (overwrite o bytes blocks) ≡ length blocks
unfolding overwrite
length-overwrite o bytes blocks h = omega (
  arith,
  length-append (take o blocks) (bytes ++ drop (o + length bytes) blocks),
  length-append bytes (drop (o + length bytes) blocks),
  length-take o blocks,
  length-drop (o + length bytes) blocks,
)

pub take-whole : (xs : Bytes) → take (length xs) xs ≡ xs
take-whole [] = refl
take-whole (x ∷ xs) = ap (◌∷◌ x) (take-whole xs)

mem_write-inside :
    (blocks : Bytes) (offset : ℕ) (bytes : Bytes)
    → 0 < length bytes
    → offset + length bytes ≤ length blocks
    → mem_write blocks offset bytes ≡ (overwrite offset bytes blocks, returned (length bytes))
unfolding mem_write
mem_write-inside blocks offset bytes pos_n fits =
    let a : (length bytes == 0) ≡ false = ground arith in
    let b : leb (length blocks) offset ≡ false = ground arith in
    let c : min (length blocks - offset) (length bytes) ≡ length bytes = omega arith in
    rw (a, b, c) (rw (take-whole bytes))

mem_read-inside :
    (blocks : Bytes) (offset size : ℕ)
    → 0 < size
    → offset + size ≤ length blocks
    → mem_read blocks offset size ≡ (take size (drop offset blocks), returned size)
unfolding mem_read
mem_read-inside blocks offset size pos_n fits =
    let a : (size == 0) ≡ false = ground arith in
    let b : leb (length blocks) offset ≡ false = ground arith in
    let c : min (length blocks - offset) size ≡ size = omega arith in rw (a, b, c)

-- A write that ends inside of the image returns the number of its bytes, keeps the length of the
-- image, and a read of that range then returns these bytes.
pub read-write :
    (blocks : Bytes) (offset : ℕ) (bytes : Bytes)
    → 0 < length bytes
    → offset + length bytes ≤ length blocks
    → ((mem_write blocks offset bytes).1 ≡ returned (length bytes))
      × (length (mem_write blocks offset bytes).0 ≡ length blocks)
      × (mem_read (mem_write blocks offset bytes).0 offset (length bytes)
          ≡ (bytes, returned (length bytes)))
read-write blocks offset bytes pos_n fits =
    let long : length (overwrite offset bytes blocks) ≡ length blocks =
      length-overwrite offset bytes blocks fits in
    rw (mem_write-inside blocks offset bytes pos_n fits) (
      refl,
      long,
      (mem_read-inside (overwrite offset bytes blocks) offset (length bytes) pos_n (omega arith)
          ∙ rw (overwrite-parts offset bytes blocks (omega arith))
              (rw (take-prefix bytes (drop (offset + length bytes) blocks)))),
    )
