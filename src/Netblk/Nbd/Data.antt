-- ===== src/Netblk/Nbd/Data.antt =====
-- What was written through the block device is read through it (src/netblk/nbd.cpp), over the
-- backend in memory (src/netblk/mem.cpp).
use nanodistro.Base.{
  ℕ, suc, ◌+◌, ◌-◌, ◌^◌, ◌≤◌, ◌<◌, max, Bool, true, false, List, [], ◌∷◌, Bytes, length, get_or,
  ◌==◌, ◌≡◌, refl, ap, ap₂, ◌∙◌, arith, append-nil, if◌then◌else◌,
}
use nanodistro.Base.Int.{ℤ, pos}
use nanodistro.Netblk.Backend.{
  Backend, returned, Memory, store_at, to_ssize, after_round, do_read, do_write, read_rounds,
  write_rounds, can_access, s_iroth, s_iwoth,
}
use nanodistro.Netblk.Backend.Mem.{mem_backend, mem_write, read-write, take-whole}
use nanodistro.Netblk.Cache.{load_from}
use nanodistro.Netblk.Nbd.{
  Request, Context, Message, serve, perform, resize_buffer, nbd_cmd_read, nbd_cmd_write,
  nbd_cmd_disc,
}
use nanodistro.Netblk.Nbd.Replies.{success, answer-success}

to_ssize-pos : (k : ℕ) → k < 2 ^ 63 → to_ssize k ≡ pos k
to_ssize-pos k h = ground arith

do_write-first :
    {S : Type 0} (b : Backend S) (offset : ℕ) (bytes : Bytes) (s : S) (k : ℕ)
    → can_access b s_iwoth ≡ true
    → (b.write s offset bytes).1 ≡ returned k
    → do_write b offset bytes s ≡ ((b.write s offset bytes).0, to_ssize k)
unfolding do_write write_rounds after_round
do_write-first b offset bytes s k may e =
    let n : max 1 b.retry ≡ suc (max 1 b.retry - 1) = omega arith in rw (may, n) (rw e refl)

do_read-first :
    {S : Type 0} (b : Backend S) (offset size : ℕ) (s : S) (m : Memory) (k : ℕ)
    → can_access b s_iroth ≡ true
    → (b.read s offset size).2 ≡ returned k
    → do_read b offset 0 size s m
      ≡ ((b.read s offset size).0, store_at 0 (b.read s offset size).1 m, to_ssize k)
unfolding do_read read_rounds after_round
do_read-first b offset size s m k may e =
    let n : max 1 b.retry ≡ suc (max 1 b.retry - 1) = omega arith in rw (may, n) (rw e refl)

load-stored :
    (bytes : Bytes) (f : Memory) (p : ℕ)
    → ((i : ℕ) → i < length bytes → f (p + i) ≡ get_or bytes i 0)
    → load_from f p (length bytes) ≡ bytes
unfolding load_from
load-stored [] f p h = refl
load-stored (x ∷ bytes) f p h =
    let first : f p ≡ x = ap f (omega arith) ∙ h 0 (omega arith) in
    let rest : load_from f (p + 1) (length bytes) ≡ bytes =
      load-stored bytes f (p + 1) (λ i lt. ap f (omega arith) ∙ h (suc i) (omega arith)) in
    rw (first, rest) refl

load_from-store_at :
    (bytes : Bytes) (m : Memory) → load_from (store_at 0 bytes m) 0 (length bytes) ≡ bytes
load_from-store_at bytes m = load-stored bytes (store_at 0 bytes m) 0 (λ i lt. ground (arith, lt))

resize_buffer-same : (s : Bytes) → resize_buffer (length s) s ≡ s
unfolding resize_buffer
resize_buffer-same s =
    let z : length s - length s ≡ 0 = omega arith in rw z (rw (take-whole s) (append-nil s))

abbrev fresh : Request → Bytes → Context
fresh req bytes = record { req = req; buffer = bytes; reply_sent = false }

-- A job whose call of the backend is known.
serve-performed :
    {S : Type 0} (b : Backend S) (c : Context) (s s' : S) (running : Bool) (buffer : Bytes) (k : ℕ)
    → perform b c s true ≡ (s', running, buffer, pos k)
    → serve b c s ≡ (s', success c.req (if c.req.type == nbd_cmd_read then buffer else []) ∷ [])
unfolding serve
serve-performed b c s s' running buffer k e =
    rw e (ap (λ (t : List Message). (s', t)) (answer-success (record c { buffer = buffer }) k))

perform-write :
    {S : Type 0} (b : Backend S) (w : Request) (bytes : Bytes) (s s' : S) (k : ℕ)
    → w.type ≡ nbd_cmd_write
    → w.len ≡ length bytes
    → do_write b w.from bytes s ≡ (s', pos k)
    → perform b (fresh w bytes) s true ≡ (s', true, bytes, pos k)
unfolding perform
perform-write b w bytes s s' k t l e =
    let whole : resize_buffer w.len bytes ≡ bytes =
      ap (λ (n : ℕ). resize_buffer n bytes) l ∙ resize_buffer-same bytes in
    let no_stop : (w.type == nbd_cmd_disc) ≡ false = ground (arith, t) in
    let no_read : (w.type == nbd_cmd_read) ≡ false = ground (arith, t) in
    let is_write : (w.type == nbd_cmd_write) ≡ true = ground (arith, t) in
    rw (no_stop, no_read, is_write, whole) (rw e refl)

perform-read :
    {S : Type 0} (b : Backend S) (r : Request) (bytes : Bytes) (s s' : S) (k : ℕ)
    → r.type ≡ nbd_cmd_read
    → r.len ≡ length bytes
    → ((m : Memory) → do_read b r.from 0 r.len s m ≡ (s', store_at 0 bytes m, pos k))
    → perform b (fresh r []) s true ≡ (s', true, bytes, pos k)
unfolding perform
perform-read b r bytes s s' k t l e =
    let no_stop : (r.type == nbd_cmd_disc) ≡ false = ground (arith, t) in
    let is_read : (r.type == nbd_cmd_read) ≡ true = ground (arith, t) in
    let m : Memory = store_at 0 (resize_buffer r.len []) (λ i. 0) in
    let back : load_from (store_at 0 bytes m) 0 r.len ≡ bytes =
      ap (load_from (store_at 0 bytes m) 0) l ∙ load_from-store_at bytes m in
    rw (no_stop, is_read) (rw (e m) (rw back refl))

serve-write :
    {S : Type 0} (b : Backend S) (w : Request) (bytes : Bytes) (s s' : S) (k : ℕ)
    → w.type ≡ nbd_cmd_write
    → w.len ≡ length bytes
    → do_write b w.from bytes s ≡ (s', pos k)
    → serve b (fresh w bytes) s ≡ (s', success w [] ∷ [])
serve-write b w bytes s s' k t l e =
    let kind : (w.type == nbd_cmd_read) ≡ false = ground (arith, t) in
    serve-performed b (fresh w bytes) s s' true bytes k (perform-write b w bytes s s' k t l e)
    ∙ ap (λ (q : Bool). (s', success w (if q then bytes else []) ∷ [])) kind

serve-read :
    {S : Type 0} (b : Backend S) (r : Request) (bytes : Bytes) (s s' : S) (k : ℕ)
    → r.type ≡ nbd_cmd_read
    → r.len ≡ length bytes
    → ((m : Memory) → do_read b r.from 0 r.len s m ≡ (s', store_at 0 bytes m, pos k))
    → serve b (fresh r []) s ≡ (s', success r bytes ∷ [])
serve-read b r bytes s s' k t l e =
    let kind : (r.type == nbd_cmd_read) ≡ true = ground (arith, t) in
    serve-performed b (fresh r []) s s' true bytes k (perform-read b r bytes s s' k t l e)
    ∙ ap (λ (q : Bool). (s', success r (if q then bytes else []) ∷ [])) kind

-- Over the backend in memory, which can be written: a write of some bytes, fewer than 2 ^ 32, that
-- end inside of its blocks is answered with success and without data; a read of their range that
-- follows is answered with success and these bytes.
pub serve-read-write :
    (retry size : ℕ) (blocks bytes : Bytes) (w r : Request)
    → w.type ≡ nbd_cmd_write
    → w.len ≡ length bytes
    → r.type ≡ nbd_cmd_read
    → r.from ≡ w.from
    → r.len ≡ w.len
    → 0 < w.len
    → w.len < 2 ^ 32
    → w.from + w.len ≤ length blocks
    → let done =
        serve
          (mem_backend retry size)
          (record { req = w; buffer = bytes; reply_sent = false })
          blocks in
      (done.1 ≡ success w [] ∷ [])
      × ((serve
            (mem_backend retry size)
            (record { req = r; buffer = []; reply_sent = false })
            done.0).1
          ≡ success r bytes ∷ [])
unfolding can_access
serve-read-write retry size blocks bytes w r is_write lw is_read fr lr some_bytes word fits =
    let mem : Backend Bytes = mem_backend retry size in
    let (wrote, long, same) = read-write blocks w.from bytes (omega arith) (omega arith) in
    let after : Bytes = (mem_write blocks w.from bytes).0 in
    let n : to_ssize (length bytes) ≡ pos (length bytes) =
      to_ssize-pos (length bytes) (omega arith) in
    let written : do_write mem w.from bytes blocks ≡ (after, pos (length bytes)) =
      do_write-first mem w.from bytes blocks (length bytes) refl wrote
      ∙ ap (λ (t : ℤ). (after, t)) n in
    let first = serve-write mem w bytes blocks after (length bytes) is_write lw written in
    let served : (m : Memory)
        → do_read mem r.from 0 r.len after m ≡ (after, store_at 0 bytes m, pos (length bytes)) =
      λ m.
        ap₂ (λ (o k : ℕ). do_read mem o 0 k after m) fr (lr ∙ lw)
        ∙ do_read-first mem w.from (length bytes) after m (length bytes) refl (ap (λ t. t.1) same)
        ∙ ap (λ (t : Bytes). (after, store_at 0 t m, to_ssize (length bytes))) (ap (λ t. t.0) same)
        ∙ ap (λ (t : ℤ). (after, store_at 0 bytes m, t)) n in
    let second = serve-read mem r bytes after after (length bytes) is_read (lr ∙ lw) served in
    rw first (refl, ap (λ t. t.1) second)
