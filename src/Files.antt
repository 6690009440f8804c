-- ===== src/Files.antt =====
-- The loops around read, write and poll (src/lib/filesystem.cpp). The kernel is the list of its
-- answers, one for each call; a list that is too short ends a loop without a result.
pub mod Transfers
mod Tests
use nanodistro.Base.{
  ℕ, zero, suc, ◌-◌, min, List, [], ◌∷◌, ◌++◌, Bytes, length, is_empty, take, drop, ◌==◌,
  if◌then◌else◌, Result, ok, throw, ◌>>=◌, runtime_error, errno_error, out_of_fuel,
}

-- An answer to `read` or `write`: as many bytes as that at most, of those that are asked for, or -1
-- with an `errno`.
pub data Answer : Type 0 where
  up_to : ℕ → Answer
  interrupted : Answer
  again : Answer
  failed : Answer

-- An answer to `poll`: the number of descriptors that are ready, or -1 with EINTR or another one.
pub data Polled : Type 0 where
  ready : ℕ → Polled
  poll_interrupted : Polled
  poll_failed : Polled

-- Over the bytes that can still be read, the room left in the buffer and what it holds so far: what
-- the buffer holds at the end, and the bytes left.
unfoldable pub full_read : List Answer → Bytes → ℕ → Bytes → Result (Bytes × Bytes)
full_read answers input zero buf = ok (buf, input)
full_read [] input (suc n) buf = throw out_of_fuel
full_read (interrupted ∷ answers) input (suc n) buf = full_read answers input (suc n) buf
full_read (again ∷ answers) input (suc n) buf = ok (buf, input)
full_read (failed ∷ answers) input (suc n) buf = throw errno_error
full_read (up_to k ∷ answers) input (suc n) buf =
    let got = take (min k (suc n)) input in
    let on = full_read answers (drop (min k (suc n)) input) (suc n - length got) (buf ++ got) in
    if length got == 0 then ok (buf, input) else on

-- What is left of the answers.
unfoldable pub io_wait : List Polled → Result (List Polled)
io_wait [] = throw out_of_fuel
io_wait (poll_interrupted ∷ polls) = io_wait polls
io_wait (poll_failed ∷ polls) = throw errno_error
io_wait (ready n ∷ polls) = let on = io_wait polls in if n == 0 then throw runtime_error else on

-- Over the bytes that are still to be written and those that the file has taken.
unfoldable pub full_write : List Answer → List Polled → Bytes → Bytes → Result Bytes
unfolding io_wait
full_write answers polls [] taken = ok taken
full_write [] polls (c ∷ left) taken = throw out_of_fuel
full_write (interrupted ∷ answers) polls (c ∷ left) taken =
    full_write answers polls (c ∷ left) taken
full_write (again ∷ answers) polls (c ∷ left) taken =
    io_wait polls >>= (λ polls'. full_write answers polls' (c ∷ left) taken)
full_write (failed ∷ answers) polls (c ∷ left) taken = throw errno_error
full_write (up_to k ∷ answers) polls (c ∷ left) taken =
    let on = full_write answers polls (drop k (c ∷ left)) (taken ++ take k (c ∷ left)) in
    if k == 0 then throw runtime_error else on
