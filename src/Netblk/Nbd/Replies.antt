-- ===== src/Netblk/Nbd/Replies.antt =====
-- Each request of the kernel is answered once (src/netblk/nbd.cpp).
use mathlib.Core.Option.{some-injective}
use nanodistro.Base.{
  subst, is_empty, not, ◌||◌, >>=-ok, ok_injective, runtime_error, ℕ, zero, suc, ◌+◌, ◌-◌, Bool,
  true, false, ◌&&◌, List, [], ◌∷◌, ◌++◌, Bytes, length, eqb, take, replicate, get_elem?, set,
  Option, none, some, ◌==◌, if◌then◌else◌, Result, ok, throw, All, All-append, ◌≡◌, refl, sym, ap,
  ◌∙◌, arith, length-append, length-take, length-replicate,
}
use nanodistro.Base.Int.{ℤ, pos, negsuc, ltb_ℤ, eqb_ℤ}
use nanodistro.Netblk.Backend.{store_at, do_read, Backend, Memory}
use nanodistro.Netblk.Cache.{load_from}
use nanodistro.Netblk.Nbd.{
  Request, interrupted, failed, read, request_of, nbd_request_magic, nbd_reply_magic, nbd_cmd_read,
  Context, Message, Job, queued, performed, Device, fill_reply, resize_buffer, perform,
  finish_process, reply_error, answer, read_nbd, read_request, read_payload, Incoming, worker_add,
  after_read, receive, remove_at, step_job, run_job, Reachable, started, received, stepped, stopped,
}

-- How many requests of a list have a handle.
abbrev pub count : Bytes → List Request → ℕ
count h [] = 0
count h (r ∷ rs) = (if eqb r.handle h then 1 else 0) + count h rs

abbrev pub request_of_job : Job → Request
request_of_job (queued c) = c.req
request_of_job (performed c ret) = c.req

abbrev pub pending : List Job → List Request
pending [] = []
pending (j ∷ js) = request_of_job j ∷ pending js

abbrev pub answered : List Message → List Request
answered [] = []
answered (m ∷ ms) = m.req ∷ answered ms

-- A reply with the handle of its request; the data stand behind the reply to a read without error,
-- and nowhere else.
abbrev pub IsReply : Message → Type 0
IsReply m =
    (m.reply.magic ≡ nbd_reply_magic)
    × (m.reply.handle ≡ m.req.handle)
    × (length m.payload
        ≡ (if (m.req.type == nbd_cmd_read) && (m.reply.error == 0) then m.req.len else 0))

-- Nothing of the job has been written; the buffer has the length of the request.
abbrev pub IsPending : Job → Type 0
IsPending (queued c) = c.reply_sent ≡ false
IsPending (performed c ret) = (c.reply_sent ≡ false) × (length c.buffer ≡ c.req.len)

pub record IsServed {S : Type 0} (d : Device S) : Type 0 where
  pub once : (h : Bytes) → count h d.accepted ≡ count h (pending d.jobs) + count h (answered d.sent)
  pub replies : All IsReply d.sent
  pub unsent : All IsPending d.jobs

length-resize : (n : ℕ) (s : Bytes) → length (resize_buffer n s) ≡ n
unfolding resize_buffer
length-resize n s = omega (
  arith,
  length-append (take n s) (replicate (n - length s) 0),
  length-take n s,
  length-replicate {A = ℕ} (n - length s) 0,
)

count-append : (h : Bytes) (xs ys : List Request) → count h (xs ++ ys) ≡ count h xs + count h ys
count-append h [] ys = omega arith
count-append h (x ∷ xs) ys = omega (arith, count-append h xs ys)

answered-append : (xs ys : List Message) → answered (xs ++ ys) ≡ answered xs ++ answered ys
answered-append [] ys = refl
answered-append (m ∷ xs) ys = ap (◌∷◌ m.req) (answered-append xs ys)

pending-append : (xs ys : List Job) → pending (xs ++ ys) ≡ pending xs ++ pending ys
pending-append [] ys = refl
pending-append (j ∷ xs) ys = ap (◌∷◌ (request_of_job j)) (pending-append xs ys)

length-load_from : (m : Memory) (p n : ℕ) → length (load_from m p n) ≡ n
unfolding load_from
length-load_from m p zero = refl
length-load_from m p (suc n) = ap suc (length-load_from m (p + 1) n)

abbrev error_message : ℕ → Request → Message
error_message e req = record {
  req = req;
  reply = record { magic = nbd_reply_magic; error = e; handle = req.handle };
  payload = [];
}

abbrev pub success : Request → Bytes → Message
success req bytes = record {
  req = req;
  reply = record { magic = nbd_reply_magic; error = 0; handle = req.handle };
  payload = bytes;
}

answer-error :
    (c : Context) (n : ℕ)
    → c.reply_sent ≡ false
    → answer c (negsuc n) ≡ error_message (suc n) c.req ∷ []
unfolding answer finish_process reply_error fill_reply
answer-error c n unsent =
    let below : ltb_ℤ (negsuc n) (pos 0) ≡ true = ground arith in
    let set : eqb_ℤ (pos (suc n)) (pos 0) ≡ false = ground arith in
    rw (below, answer, finish_process) (rw (unsent, set) refl)

pub answer-success :
    (c : Context) (n : ℕ)
    → answer c (pos n) ≡ success c.req (if c.req.type == nbd_cmd_read then c.buffer else []) ∷ []
unfolding answer finish_process reply_error fill_reply
answer-success c n =
    let above : ltb_ℤ (pos n) (pos 0) ≡ false = ground arith in
    rw (above, answer, finish_process) refl

-- A job writes one message.
answer-IsReply :
    (c : Context) (ret : ℤ)
    → c.reply_sent ≡ false
    → length c.buffer ≡ c.req.len
    → (m : Message) × (answer c ret ≡ m ∷ []) × (m.req ≡ c.req) × IsReply m
answer-IsReply c (negsuc n) unsent full =
    (error_message (suc n) c.req, answer-error c n unsent, refl, (refl, refl, ground arith))
answer-IsReply c (pos n) unsent full = (
  success c.req (if c.req.type == nbd_cmd_read then c.buffer else []),
  answer-success c n,
  refl,
  (refl, refl, ground (arith, full)),
)

module _ {S : Type 0} (b : Backend S) where
  length-perform :
      (c : Context) (s : S) (running : Bool) → length (perform b c s running).2 ≡ c.req.len
  unfolding perform
  length-perform c s running = ground (
    arith,
    length-resize c.req.len c.buffer,
    length-load_from
        (do_read b c.req.from 0 c.req.len s
          (store_at 0 (resize_buffer c.req.len c.buffer) (λ i. 0))).1
        0 c.req.len,
  )

pending-set :
    (js : List Job) (i : ℕ) (j k : Job)
    → get_elem? js i ≡ some j
    → request_of_job k ≡ request_of_job j
    → pending (set js i k) ≡ pending js
pending-set [] i j k h e = refl
pending-set (x ∷ js) zero j k h e =
    ap (λ (r : Request). r ∷ pending js) (e ∙ sym (ap request_of_job (some-injective x j h)))
pending-set (x ∷ js) (suc i) j k h e = ap (◌∷◌ (request_of_job x)) (pending-set js i j k h e)

count-remove :
    (h : Bytes) (js : List Job) (i : ℕ) (j : Job)
    → get_elem? js i ≡ some j
    → count h (pending js) ≡ count h (request_of_job j ∷ []) + count h (pending (remove_at i js))
count-remove h [] i j e = ground (arith, e)
count-remove h (x ∷ js) zero j e =
    omega (arith, ap (λ (t : Job). count h (request_of_job t ∷ [])) (some-injective x j e))
count-remove h (x ∷ js) (suc i) j e = omega (arith, count-remove h js i j e)

All-at :
    (js : List Job) (i : ℕ) (j : Job) → get_elem? js i ≡ some j → All IsPending js → IsPending j
All-at [] i j e h = absurd (ground (arith, e))
All-at (x ∷ js) zero j e h = subst IsPending (some-injective x j e) h.0
All-at (x ∷ js) (suc i) j e h = All-at js i j e h.1

All-set :
    (js : List Job) (i : ℕ) (j : Job) → IsPending j → All IsPending js → All IsPending (set js i j)
All-set [] i j p h = tt
All-set (x ∷ js) zero j p h = (p, h.1)
All-set (x ∷ js) (suc i) j p h = (h.0, All-set js i j p h.1)

All-remove : (js : List Job) (i : ℕ) → All IsPending js → All IsPending (remove_at i js)
All-remove [] i h = tt
All-remove (x ∷ js) zero h = h.1
All-remove (x ∷ js) (suc i) h = (h.0, All-remove js i h.1)

module _ {S : Type 0} (b : Backend S) where
  step_job-IsServed :
      (i : ℕ) (o : Option Job) (d : Device S)
      → get_elem? d.jobs i ≡ o
      → IsServed d
      → IsServed (step_job b i o d)
  unfolding step_job
  step_job-IsServed i none d e v = v
  step_job-IsServed i (some (queued c)) d e v =
      let r : S × Bool × Bytes × ℤ = perform b c d.backend d.running in
      let next : Job = performed (record c { buffer = r.2 }) r.3 in
      record {
        once = λ h.
            v.once h
            ∙ ap (λ (t : List Request). count h t + count h (answered d.sent))
                (sym (pending-set d.jobs i (queued c) next e refl));
        replies = v.replies;
        unsent =
            All-set d.jobs i next
              (All-at d.jobs i (queued c) e v.unsent, length-perform b c d.backend d.running)
              v.unsent;
      }
  step_job-IsServed i (some (performed c ret)) d e v =
      let was = All-at d.jobs i (performed c ret) e v.unsent in
      let (m, one, same, reply) = answer-IsReply c ret was.0 was.1 in
      let all : answered (d.sent ++ answer c ret) ≡ answered d.sent ++ c.req ∷ [] =
        answered-append d.sent (answer c ret)
        ∙ ap (λ (t : List Message). answered d.sent ++ answered t) one
        ∙ ap (λ (t : Request). answered d.sent ++ t ∷ []) same in
      record {
        once = λ h. omega (
          arith,
          v.once h,
          count-remove h d.jobs i (performed c ret) e,
          ap (count h) all,
          count-append h (answered d.sent) (c.req ∷ []),
        );
        replies =
            All-append IsReply d.sent (answer c ret) v.replies
              (subst (All IsReply) (sym one) (reply, tt));
        unsent = All-remove d.jobs i v.unsent;
      }

worker_add-IsServed :
    {S : Type 0} (c : Context) (d : Device S)
    → c.reply_sent ≡ false
    → IsServed d
    → IsServed (worker_add c d)
worker_add-IsServed c d unsent v = record {
  once = λ h. omega (
    arith,
    v.once h,
    count-append h d.accepted (c.req ∷ []),
    ap (count h) (pending-append d.jobs (queued c ∷ [])),
    count-append h (pending d.jobs) (c.req ∷ []),
  );
  replies = v.replies;
  unsent = All-append IsPending d.jobs (queued c ∷ []) v.unsent (unsent, tt);
}

-- What is read is a request that nothing has been written for.
read_request-unsent :
    (full_read : ℕ → Result Bytes) (s : Bytes) (c : Context)
    → read_request full_read s ≡ ok (some c)
    → c.reply_sent ≡ false
unfolding read_request
read_request-unsent full_read s c h =
    let body : Result Bytes = read_payload full_read (request_of s) in
    let (p, e, r) =
      >>=-ok body (λ p. ok (some (record { req = request_of s; buffer = p; reply_sent = false })))
        (some c)
        (guarded (is_empty s || not (length s == 28))
          (not ((request_of s).magic == nbd_request_magic)) _ h) in
    sym (ap sent_of (ok_injective r))
  where
    sent_of : Option Context → Bool
    sent_of none = false
    sent_of (some d) = d.reply_sent

    guarded :
        (a b : Bool) (r : Result (Option Context))
        → (if a then throw runtime_error else if b then throw runtime_error else r) ≡ ok (some c)
        → r ≡ ok (some c)
    guarded true b r h = absurd (ground (arith, h))
    guarded false true r h = absurd (ground (arith, h))
    guarded false false r h = h

pick-IsServed :
    {S : Type 0} {a b : Device S} (run : Bool)
    → IsServed a
    → IsServed b
    → IsServed (if run then a else b)
pick-IsServed true u v = u
pick-IsServed false u v = v

receive-IsServed :
    {S : Type 0} (full_read : ℕ → Result Bytes) (got : Incoming) (d : Device S)
    → IsServed d
    → IsServed (receive full_read got d)
unfolding receive read_nbd
receive-IsServed full_read got d v =
    pick-IsServed d.running (after (read_nbd full_read got) (unsent got)) v
  where
    unsent :
        (got : Incoming) (c : Context) → read_nbd full_read got ≡ ok (some c) → c.reply_sent ≡ false
    unsent interrupted c h = absurd (ground (arith, h))
    unsent failed c h = absurd (ground (arith, h))
    unsent (read s) c h = read_request-unsent full_read s c h

    after :
        (r : Result (Option Context))
        → ((c : Context) → r ≡ ok (some c) → c.reply_sent ≡ false)
        → IsServed (after_read r d)
    after (throw e) u = record { once = v.once; replies = v.replies; unsent = v.unsent }
    after (ok none) u = v
    after (ok (some c)) u = worker_add-IsServed c d (u c refl) v

-- In whatever order the reader and the jobs take their steps: of the requests with a handle that
-- were accepted, each waits in a job or has been answered by one message; every message carries
-- the handle of its request, and it has as many data as a read asked for if it is the answer to a
-- read without error, and none otherwise; and nothing has been written for a job that waits.
pub Reachable-IsServed : {S : Type 0} (b : Backend S) (d : Device S) → Reachable b d → IsServed d
unfolding run_job
Reachable-IsServed b _ (started s) = record { once = λ h. omega arith; replies = tt; unsent = tt }
Reachable-IsServed b _ (received full_read got d r) =
    receive-IsServed full_read got d (Reachable-IsServed b d r)
Reachable-IsServed b _ (stepped i d r) =
    step_job-IsServed b i (get_elem? d.jobs i) d refl (Reachable-IsServed b d r)
Reachable-IsServed b _ (stopped d r) =
    let v : IsServed d = Reachable-IsServed b d r in
    record { once = v.once; replies = v.replies; unsent = v.unsent }
