-- ===== src/Writer/Endings.antt =====
-- How an attempt of the copy ends (src/helper/copy.cpp).
use nanodistro.Base.{
  ℕ, ◌+◌, ◌≤◌, ◌≡◌, refl, sym, ap, ◌∙◌, Bool, false, ◌&&◌, Bool-cases, inl, inr, ltb, leb, ◌==◌, ok,
  throw, arith,
}
use nanodistro.Writer.{
  copy_continue, copy_fallback, copy_end, Errno, eintr, eagain, einval, eperm, enosys, enotsup,
  exdev, other, File, CopyContext, Attempt, range_failed, send_failed, io_failed, moved,
}
use nanodistro.Writer.Faithful.{spliced, IsUnchanged, IsMoved, IsSound}

-- The counter, the flags and the buffer are no part of what is kept.
pub unchanged :
    (s : CopyContext) (calls size : ℕ) (range send buff : Bool)
    → IsUnchanged s (record s {
      calls = calls;
      use_copy_file_range = range;
      use_sendfile = send;
      buff = buff;
      buff_size = size;
    })
unchanged s calls size range send buff = record {
  kept = record { same_stat = refl; same_input = refl; same_output = refl; same_block = refl };
  same_out = refl;
  same_written = refl;
  same_off_in = refl;
  same_off_out = refl;
  same_to_copy = refl;
}

spliced-none : (input : File) (i o : ℕ) (out : File) (j : ℕ) → out j ≡ spliced input i o 0 out j
spliced-none input i o out j =
    let none : (leb o j && ltb j (o + 0)) ≡ false = ground arith in rw none refl

-- Nothing was written.
pub IsMoved-nothing :
    (input : File) (s t : CopyContext) → s.written_cur ≡ 0 → IsUnchanged s t → IsMoved input s t
IsMoved-nothing input s t h u = record {
  kept = u.kept;
  bounded = omega (arith, h, u.same_written);
  wrote = λ j. rw (u.same_written, h, u.same_out) (spliced-none input s.off_in s.off_out s.out j);
}

-- Doing nothing first changes nothing.
IsMoved-after :
    (input : File) (s t u : CopyContext) → IsUnchanged s t → IsMoved input t u → IsMoved input s u
IsMoved-after input s t u h g = record {
  kept = record {
    same_stat = g.kept.same_stat ∙ h.kept.same_stat;
    same_input = g.kept.same_input ∙ h.kept.same_input;
    same_output = g.kept.same_output ∙ h.kept.same_output;
    same_block = g.kept.same_block ∙ h.kept.same_block;
  };
  bounded = omega (arith, g.bounded, h.same_to_copy);
  wrote = λ j.
      g.wrote j
      ∙ ap (λ (i : ℕ). spliced input i t.off_out u.written_cur t.out j) h.same_off_in
      ∙ ap (λ (o : ℕ). spliced input s.off_in o u.written_cur t.out j) h.same_off_out
      ∙ ap (λ (f : File). spliced input s.off_in s.off_out u.written_cur f j) h.same_out;
}

pub IsUnchanged-after : (s t u : CopyContext) → IsUnchanged s t → IsUnchanged t u → IsUnchanged s u
IsUnchanged-after s t u h g = record {
  kept = record {
    same_stat = g.kept.same_stat ∙ h.kept.same_stat;
    same_input = g.kept.same_input ∙ h.kept.same_input;
    same_output = g.kept.same_output ∙ h.kept.same_output;
    same_block = g.kept.same_block ∙ h.kept.same_block;
  };
  same_out = g.same_out ∙ h.same_out;
  same_written = g.same_written ∙ h.same_written;
  same_off_in = g.same_off_in ∙ h.same_off_in;
  same_off_out = g.same_off_out ∙ h.same_off_out;
  same_to_copy = g.same_to_copy ∙ h.same_to_copy;
}

pub IsSound-after :
    (input : File) (s t : CopyContext) (r : Attempt)
    → IsUnchanged s t
    → IsSound input t r
    → IsSound input s r
IsSound-after input s t (throw e) h g = tt
IsSound-after input s t (ok (u, copy_fallback)) h g = IsUnchanged-after s t u h g
IsSound-after input s t (ok (u, copy_continue)) h g = IsMoved-after input s t u h g
IsSound-after input s t (ok (u, copy_end)) h g = IsMoved-after input s t u h g

module _ (input : File) (s : CopyContext) (h : s.written_cur ≡ 0) where
  idle : (t : CopyContext) → IsUnchanged s t → IsMoved input s t
  idle t = IsMoved-nothing input s t h

  pub counted : (c : ℕ) → IsUnchanged s (record s { calls = c })
  counted c = unchanged s c s.buff_size s.use_copy_file_range s.use_sendfile s.buff

  pub range_failed-IsSound :
      (c : ℕ) (e : Errno) → IsSound input s (range_failed (record s { calls = c }) e)
  unfolding range_failed
  range_failed-IsSound c eintr = idle _ (counted c)
  range_failed-IsSound c eagain = idle _ (counted c)
  range_failed-IsSound c einval = unchanged s c s.buff_size false s.use_sendfile s.buff
  range_failed-IsSound c eperm = unchanged s c s.buff_size false s.use_sendfile s.buff
  range_failed-IsSound c enosys = unchanged s c s.buff_size false s.use_sendfile s.buff
  range_failed-IsSound c enotsup = unchanged s c s.buff_size false s.use_sendfile s.buff
  range_failed-IsSound c exdev = unchanged s c s.buff_size false s.use_sendfile s.buff
  range_failed-IsSound c other = tt

  pub send_failed-IsSound :
      (c : ℕ) (e : Errno) → IsSound input s (send_failed (record s { calls = c }) e)
  unfolding send_failed
  send_failed-IsSound c eintr = idle _ (counted c)
  send_failed-IsSound c eagain = idle _ (counted c)
  send_failed-IsSound c einval = unchanged s c s.buff_size s.use_copy_file_range false s.buff
  send_failed-IsSound c enosys = unchanged s c s.buff_size s.use_copy_file_range false s.buff
  send_failed-IsSound c eperm = tt
  send_failed-IsSound c enotsup = tt
  send_failed-IsSound c exdev = tt
  send_failed-IsSound c other = tt

  pub io_failed-IsSound :
      (c : ℕ) (e : Errno) → IsSound input s (io_failed (record s { calls = c }) e)
  unfolding io_failed
  io_failed-IsSound c eintr = idle _ (counted c)
  io_failed-IsSound c eagain = idle _ (counted c)
  io_failed-IsSound c einval = tt
  io_failed-IsSound c eperm = tt
  io_failed-IsSound c enosys = tt
  io_failed-IsSound c enotsup = tt
  io_failed-IsSound c exdev = tt
  io_failed-IsSound c other = tt

  -- The end of an attempt that moved bytes; the offsets are not read again.
  pub moved-IsSound :
      (c off_in off_out ret : ℕ) (out : File)
      → ret ≤ s.to_copy
      → ((j : ℕ) → out j ≡ spliced input s.off_in s.off_out ret s.out j)
      → IsSound input s (moved (record s { calls = c; off_in = off_in; off_out = off_out }) ret out)
  unfolding moved
  moved-IsSound c off_in off_out ret out b w = elim (Bool-cases (ret == 0)) [
    | inl e ↦
        let z : s.written_cur ≡ ret = ground (arith, e, h) in
        rw e (record {
          kept = record {
            same_stat = refl;
            same_input = refl;
            same_output = refl;
            same_block = refl;
          };
          bounded = omega (arith, z);
          wrote = λ j. w j ∙ ap (λ (n : ℕ). spliced input s.off_in s.off_out n s.out j) (sym z);
        })
    | inr e ↦ rw e (record {
      kept = record { same_stat = refl; same_input = refl; same_output = refl; same_block = refl };
      bounded = b;
      wrote = w;
    })
  ]
