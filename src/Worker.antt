-- ===== src/Worker.antt =====
-- The worker pool (src/lib/worker.cpp): a queue of jobs and threads that take them. A thread runs
-- one section under the lock, or one job, in a step; the steps of all threads interleave. The
-- fields `added` and `taken` record the jobs in the order of the calls of `add` and of `pop`.
pub mod Order
mod Tests
use nanodistro.Base.{
  ℕ, zero, suc, ◌+◌, Bool, true, false, not, ◌&&◌, ◌||◌, List, [], ◌∷◌, ◌++◌, length, max, min, ltb,
  ◌==◌, if◌then◌else◌,
}

-- Where a thread stands in `main`: before the lock, in `cond.wait`, in `cb()`, or behind the loop.
pub data Phase : Type 0 where
  ready waiting ended : Phase
  running : ℕ → Phase

pub record Worker : Type 0 where
  pub phase : Phase
  pub idle : Bool
  pub stop_requested : Bool

pub record Pool : Type 0 where
  pub max_workers : ℕ
  pub queue : List ℕ
  pub workers : List Worker
  pub added : List ℕ
  pub taken : List ℕ

-- `idle=false;cb=queue.front();queue.pop();`
abbrev pub take_job : ℕ → List ℕ → Worker → Worker × List ℕ × List ℕ
take_job job queue w = (record w { phase = running job; idle = false }, job ∷ [], queue)

-- One step of `main`: the worker, the jobs that it takes, and the queue that it leaves.
unfoldable pub advance : Phase → List ℕ → Worker → Worker × List ℕ × List ℕ
advance ready [] w =
    if w.stop_requested
    then (record w { phase = ended; idle = false }, [], [])
    else (record w { phase = waiting; idle = true }, [], [])
advance ready (job ∷ queue) w = take_job job queue w
advance waiting [] w = (record w { phase = ready }, [], [])
advance waiting (job ∷ queue) w = take_job job queue w
advance (running job) queue w = (record w { phase = ready }, [], queue)
advance ended queue w = (w, [], queue)

-- The step of the worker with a number.
unfoldable pub advance_at : ℕ → List Worker → List ℕ → List Worker × List ℕ × List ℕ
unfolding advance
advance_at i [] queue = ([], [], queue)
advance_at zero (w ∷ ws) queue =
    let (w', jobs, queue') = advance w.phase queue w in (w' ∷ ws, jobs, queue')
advance_at (suc i) (w ∷ ws) queue =
    let (ws', jobs, queue') = advance_at i ws queue in (w ∷ ws', jobs, queue')

unfoldable pub run_worker : ℕ → Pool → Pool
unfolding advance_at
run_worker i p =
    let (ws, jobs, queue) = advance_at i p.workers p.queue in
    record p { workers = ws; queue = queue; taken = p.taken ++ jobs }

abbrev pub count_idle : List Worker → ℕ
count_idle [] = 0
count_idle (w ∷ ws) = (if w.idle then 1 else 0) + count_idle ws

-- `create`; a worker starts as not idle.
abbrev pub create : Pool → Pool
create p = record p {
  workers = p.workers ++ record { phase = ready; idle = false; stop_requested = false } ∷ [];
}

-- `auto_create`, where the system has so many processors
unfoldable pub auto_create : ℕ → Pool → Pool
auto_create cpus p =
    let limit = if p.max_workers == 0 then min (max cpus 1) 8 else p.max_workers in
    let p' = record p { max_workers = limit } in
    if (count_idle p.workers == 0) && ltb (length p.workers) limit then create p' else p'

unfoldable pub add : ℕ → ℕ → Pool → Pool
unfolding auto_create
add cpus job p =
    let p' = auto_create cpus p in
    record p' { queue = p'.queue ++ job ∷ []; added = p'.added ++ job ∷ [] }

unfoldable pub request_stop : List Worker → List Worker
request_stop [] = []
request_stop (w ∷ ws) = record w { stop_requested = true } ∷ request_stop ws

-- the first loop of `~workers_ctx`
unfoldable pub stop_all : Pool → Pool
unfolding request_stop
stop_all p = record p { workers = request_stop p.workers }

-- The state at the start, with the argument of `init`, or 0.
abbrev pub new_pool : ℕ → Pool
new_pool workers = record {
  max_workers = workers;
  queue = [];
  workers = [];
  added = [];
  taken = [];
}

-- The states that calls of `add`, steps of the threads and the stop lead to.
pub data Reachable (cpus : ℕ) : Pool → Type 0 where
  started : (n : ℕ) → Reachable cpus (new_pool n)
  stepped : (i : ℕ) (p : Pool) → Reachable cpus p → Reachable cpus (run_worker i p)
  called : (job : ℕ) (p : Pool) → Reachable cpus p → Reachable cpus (add cpus job p)
  stopped : (p : Pool) → Reachable cpus p → Reachable cpus (stop_all p)
