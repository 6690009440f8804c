-- ===== src/Worker/Order.antt =====
-- The worker pool (src/lib/worker.cpp) takes the jobs in the order in which they were added.
use nanodistro.Base.{◌≤◌, ◌++◌, length, ◌≡◌}
use nanodistro.Worker.{Worker, Pool}

-- What has been taken, and then what waits, is what has been added; and there are at most
-- `max_workers` workers.
pub record IsFifo (p : Pool) : Type 0 where
  pub fifo : p.taken ++ p.queue ≡ p.added
  pub few : length p.workers ≤ p.max_workers
