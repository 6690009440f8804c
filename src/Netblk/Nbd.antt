-- ===== src/Netblk/Nbd.antt =====
-- `netblk_device_nbd` (src/netblk/nbd.cpp): the requests of the kernel's network block device are
-- read from a socket by one thread, and each is answered by a job of the worker pool. A job runs in
-- two steps, the call of the backend and the answer under `write_lock`; the steps of all jobs and of
-- the reader interleave. A socket takes all that is written.
pub mod Replies
pub mod Data
use nanodistro.Base.{
  ℕ, zero, suc, ◌+◌, ◌-◌, ◌*◌, ◌/◌, ◌%◌, Bool, true, false, not, ◌||◌, List, [], ◌∷◌, ◌++◌, Bytes,
  length, is_empty, take, drop, replicate, get_elem?, set, Option, none, some, ltb, ◌==◌,
  if◌then◌else◌, Result, ok, throw, ◌>>=◌, runtime_error, errno_error,
}
use nanodistro.Base.Int.{ℤ, pos, negsuc, sub_ℕ, ltb_ℤ, eqb_ℤ}
use nanodistro.Netblk.Backend.{Backend, Memory, store_at, do_read, do_write, eio}
use nanodistro.Netblk.Cache.{load_from}

-- Numbers of the wire, the highest byte first: `be32toh` and `be64toh`, `htobe32`.
unfoldable pub be_value : ℕ → Bytes → ℕ
be_value n [] = n
be_value n (c ∷ s) = be_value (n * 256 + c) s

unfoldable pub be_bytes : ℕ → ℕ → Bytes → Bytes
be_bytes zero n out = out
be_bytes (suc k) n out = be_bytes k (n / 256) (n % 256 ∷ out)

-- `struct nbd_request` and `struct nbd_reply`, their numbers in the order of the machine
pub record Request : Type 0 where
  pub magic : ℕ
  pub type : ℕ
  pub handle : Bytes
  pub from : ℕ
  pub len : ℕ

pub record Reply : Type 0 where
  pub magic : ℕ
  pub error : ℕ
  pub handle : Bytes

unfoldable pub request_of : Bytes → Request
unfolding be_value
request_of s = record {
  magic = be_value 0 (take 4 s);
  type = be_value 0 (take 4 (drop 4 s));
  handle = take 8 (drop 8 s);
  from = be_value 0 (take 8 (drop 16 s));
  len = be_value 0 (take 4 (drop 24 s));
}

unfoldable pub bytes_of_reply : Reply → Bytes
unfolding be_bytes
bytes_of_reply r = be_bytes 4 r.magic [] ++ (be_bytes 4 r.error [] ++ r.handle)

abbrev pub nbd_request_magic : ℕ
nbd_request_magic = 628295443

abbrev pub nbd_reply_magic : ℕ
nbd_reply_magic = 1732535960

abbrev pub nbd_cmd_read : ℕ
nbd_cmd_read = 0

abbrev pub nbd_cmd_write : ℕ
nbd_cmd_write = 1

abbrev pub nbd_cmd_disc : ℕ
nbd_cmd_disc = 2

abbrev pub enotsup : ℕ
enotsup = 95

-- `netblk_nbd_context`, without its device and its reply, which `fill_reply` writes anew
pub record Context : Type 0 where
  pub req : Request
  pub buffer : Bytes
  pub reply_sent : Bool

-- What one hold of `write_lock` writes, with the request that it answers.
pub record Message : Type 0 where
  pub req : Request
  pub reply : Reply
  pub payload : Bytes

-- A job of the pool: not begun, or its `switch` is done and has left `ret`.
pub data Job : Type 0 where
  queued : Context → Job
  performed : Context → ℤ → Job

-- `accepted` records the requests for which a job was added.
pub record Device (S : Type 0) : Type 0 where
  pub backend : S
  pub running : Bool
  pub jobs : List Job
  pub accepted : List Request
  pub sent : List Message

-- What goes through the socket to the kernel.
unfoldable pub stream : List Message → Bytes
unfolding bytes_of_reply
stream [] = []
stream (m ∷ ms) = bytes_of_reply m.reply ++ (m.payload ++ stream ms)

abbrev pub magnitude : ℤ → ℕ
magnitude (pos n) = n
magnitude (negsuc n) = suc n

unfoldable pub fill_reply : ℤ → Request → Reply
fill_reply err req = record { magic = nbd_reply_magic; error = magnitude err; handle = req.handle }

-- `buffer.resize(len)`
unfoldable pub resize_buffer : ℕ → Bytes → Bytes
resize_buffer len s = take len s ++ replicate (len - length s) 0

module _ {S : Type 0} (b : Backend S) where
  -- The front of `process`, up to the end of its `switch`: the backend, `running`, the buffer
  -- and `ret`.
  unfoldable pub perform : Context → S → Bool → S × Bool × Bytes × ℤ
  unfolding resize_buffer do_read do_write
  perform c s running =
      let buffer = resize_buffer c.req.len c.buffer in
      if c.req.type == nbd_cmd_disc
      then (s, false, buffer, pos 0)
      else if c.req.type == nbd_cmd_read
      then (let (s', m, ret) = do_read b c.req.from 0 c.req.len s (store_at 0 buffer (λ i. 0)) in
          (s', running, load_from m 0 c.req.len, ret))
      else if c.req.type == nbd_cmd_write
      then (let (s', ret) = do_write b c.req.from buffer s in (s', running, buffer, ret))
      else (s, running, buffer, pos enotsup)

-- The rest of `process`: the context and what is written, or the number of an `ErrnoErrorImpl`.
pub data Processed : Type 0 where
  replied : Context → List Message → Processed
  errno_of : ℤ → Processed

unfoldable pub finish_process : Context → ℤ → Processed
unfolding fill_reply
finish_process c ret =
    if ltb_ℤ ret (pos 0)
    then errno_of (pos (magnitude ret))
    else replied (record c { reply_sent = true })
        (record {
          req = c.req;
          reply = fill_reply (pos 0) c.req;
          payload = if c.req.type == nbd_cmd_read then c.buffer else [];
        }
          ∷ [])

unfoldable pub reply_error : ℤ → Context → List Message
unfolding fill_reply
reply_error err c =
    if c.reply_sent
    then []
    else record {
      req = c.req;
      reply = fill_reply (if eqb_ℤ err (pos 0) then pos eio else err) c.req;
      payload = [];
    }
      ∷ []

-- The job of `read_nbd`, behind the call of the backend: all that it writes.
unfoldable pub answer : Context → ℤ → List Message
unfolding finish_process reply_error
answer c ret = elim (finish_process c ret) [
  | replied c' ms ↦ ms ++ reply_error (pos eio) c'
  | errno_of err ↦ reply_error err c
]

-- The whole job, with nothing between its two steps.
unfoldable pub serve : {S : Type 0} → Backend S → Context → S → S × List Message
unfolding perform answer
serve b c s =
    let (s', running, buffer, ret) = perform b c s true in
    (s', answer (record c { buffer = buffer }) ret)

-- How the `read` of a request ends: -1 with an `errno` that is EAGAIN or EINTR or is another one, or
-- the bytes read, none at the end of the file.
pub data Incoming : Type 0 where
  interrupted : Incoming
  failed : Incoming
  read : Bytes → Incoming

-- The payload of a write, where `full_read` of so many bytes gives a string or throws.
unfoldable pub read_payload : (ℕ → Result Bytes) → Request → Result Bytes
read_payload full_read req =
    if req.type == nbd_cmd_write
    then full_read req.len >>= (λ s. if length s == req.len then ok s else throw runtime_error)
    else ok []

unfoldable pub read_request : (ℕ → Result Bytes) → Bytes → Result (Option Context)
unfolding request_of read_payload
read_request full_read s =
    if is_empty s || not (length s == 28)
    then throw runtime_error
    else if not ((request_of s).magic == nbd_request_magic)
    then throw runtime_error
    else read_payload full_read (request_of s)
      >>= (λ p. ok (some (record { req = request_of s; buffer = p; reply_sent = false })))

-- `read_nbd` up to `worker_add`: the job that it adds, if any.
unfoldable pub read_nbd : (ℕ → Result Bytes) → Incoming → Result (Option Context)
unfolding read_request
read_nbd full_read interrupted = ok none
read_nbd full_read failed = throw errno_error
read_nbd full_read (read s) = read_request full_read s

abbrev pub remove_at : ℕ → List Job → List Job
remove_at i [] = []
remove_at zero (j ∷ js) = js
remove_at (suc i) (j ∷ js) = j ∷ remove_at i js

module _ {S : Type 0} where
  abbrev pub worker_add : Context → Device S → Device S
  worker_add c d = record d { jobs = d.jobs ++ queued c ∷ []; accepted = d.accepted ++ c.req ∷ [] }

  abbrev pub request_stop : Device S → Device S
  request_stop d = record d { running = false }

  abbrev pub after_read : Result (Option Context) → Device S → Device S
  after_read (throw e) d = request_stop d
  after_read (ok none) d = d
  after_read (ok (some c)) d = worker_add c d

  -- One round of the loop of `thread_read_main`; an exception ends the thread.
  unfoldable pub receive : (ℕ → Result Bytes) → Incoming → Device S → Device S
  unfolding read_nbd
  receive full_read got d = if d.running then after_read (read_nbd full_read got) d else d

  -- One step of the job with a number.
  unfoldable pub step_job : Backend S → ℕ → Option Job → Device S → Device S
  unfolding perform answer
  step_job b i none d = d
  step_job b i (some (queued c)) d =
      let (s, running, buffer, ret) = perform b c d.backend d.running in
      record d {
        backend = s;
        running = running;
        jobs = set d.jobs i (performed (record c { buffer = buffer }) ret);
      }
  step_job b i (some (performed c ret)) d = record d {
    jobs = remove_at i d.jobs;
    sent = d.sent ++ answer c ret;
  }

  unfoldable pub run_job : Backend S → ℕ → Device S → Device S
  unfolding step_job
  run_job b i d = step_job b i (get_elem? d.jobs i) d

  -- The device behind `init`.
  abbrev pub new_device : S → Device S
  new_device s = record { backend = s; running = true; jobs = []; accepted = []; sent = [] }

-- The states that the reader and the jobs lead to, in any order of their steps; a stop by `destroy`
-- or by the interrupt thread may come at any time.
pub data Reachable {S : Type 0} (b : Backend S) : Device S → Type 1 where
  started : (s : S) → Reachable b (new_device s)
  received :
      (full_read : ℕ → Result Bytes) (got : Incoming) (d : Device S)
      → Reachable b d
      → Reachable b (receive full_read got d)
  stepped : (i : ℕ) (d : Device S) → Reachable b d → Reachable b (run_job b i d)
  stopped : (d : Device S) → Reachable b d → Reachable b (request_stop d)
