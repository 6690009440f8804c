-- ===== src/Worker/Tests.antt =====
-- The theorem on the worker pool (src/lib/worker.cpp) at a pool with two jobs and a worker.
