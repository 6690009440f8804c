-- ===== src/Writer.antt =====
-- `copy_context` and `copy_status` (src/helper/copy.cpp, src/helper/internal.h): the copy of a
-- file to a device, with the three ways of the kernel to do it. A file is its bytes by position.
-- Offsets are `size_t` and `off_t` that do not overflow. The input is another file than the output.
-- Faithful.antt states what the kernel promises.
pub mod Faithful
pub mod Endings
pub mod Attempts
pub mod Copied
pub mod Prompt
pub mod Finish
pub mod Options
pub mod Main
pub mod Bounds
mod Tests
use nanodistro.Base.{
  ℕ, zero, suc, ◌+◌, ◌-◌, ◌*◌, ◌/◌, ◌%◌, ◌^◌, min, Bool, true, false, not, ◌&&◌, ◌||◌, ltb, ◌==◌,
  if◌then◌else◌, Result, ok, throw, ◌>>=◌, runtime_error, errno_error, out_of_fuel,
}
use nanodistro.Base.Int.{ℤ, pos, ltb_ℤ, pos_part}
use nanodistro.Clock.{Timestamp, second, millisecond, sub, tonumber}

pub data CopyRet : Type 0 where
  copy_continue copy_fallback copy_end : CopyRet

-- The values of `errno` that the code asks for.
pub data Errno : Type 0 where
  eintr eagain einval eperm enosys enotsup exdev other : Errno

abbrev pub File : Type 0
File = ℕ → ℕ

-- What a call that writes gives: the number of bytes with the output file after it, or an error.
pub data Reply : Type 0 where
  done : ℕ → File → Reply
  failed : Errno → Reply

-- What `pread64` gives: the number of bytes and the buffer.
pub data ReadReply : Type 0 where
  got : ℕ → File → ReadReply
  read_failed : Errno → ReadReply

-- The calls of the kernel and of the C library; the first argument of each counts the calls before
-- it. The others are the offset in the input, the one in the output, the length and the output file,
-- and for `pwrite64` the buffer, the length, the offset and the output file.
pub record Kernel : Type 0 where
  pub copy_file_range : ℕ → ℕ → ℕ → ℕ → File → Reply
  pub sendfile : ℕ → ℕ → ℕ → ℕ → File → Reply
  pub pread64 : ℕ → ℕ → ℕ → ReadReply
  pub pwrite64 : ℕ → File → ℕ → ℕ → File → Reply
  pub malloc : ℕ → ℕ → Bool
  pub now : ℕ → Timestamp

pub record Point : Type 0 where
  pub written : ℕ
  pub time : Timestamp

pub record Progress : Type 0 where
  pub percent : ℕ
  pub bytes : ℕ
  pub speed : ℕ
  pub passed : Timestamp

pub record CopyStatus : Type 0 where
  pub total : ℕ
  pub elast : Point
  pub clast : Point
  pub cur : Point
  pub progress : Progress

-- `copy_context`, the output file, the calls made so far and how many of them were `fsync`.
pub record CopyContext : Type 0 where
  pub block_size : ℕ
  pub input_offset : ℕ
  pub output_offset : ℕ
  pub sync : Bool
  pub use_copy_file_range : Bool
  pub use_sendfile : Bool
  pub stat : CopyStatus
  pub to_copy : ℕ
  pub written_cur : ℕ
  pub off_in : ℕ
  pub off_out : ℕ
  pub buff : Bool
  pub buff_size : ℕ
  pub out : File
  pub calls : ℕ
  pub syncs : ℕ

abbrev pub Attempt : Type 0
Attempt = Result (CopyContext × CopyRet)

unfoldable pub range_failed : CopyContext → Errno → Attempt
range_failed s eintr = ok (s, copy_continue)
range_failed s eagain = ok (s, copy_continue)
range_failed s einval = ok (record s { use_copy_file_range = false }, copy_fallback)
range_failed s eperm = ok (record s { use_copy_file_range = false }, copy_fallback)
range_failed s enosys = ok (record s { use_copy_file_range = false }, copy_fallback)
range_failed s enotsup = ok (record s { use_copy_file_range = false }, copy_fallback)
range_failed s exdev = ok (record s { use_copy_file_range = false }, copy_fallback)
range_failed s other = throw errno_error

unfoldable pub send_failed : CopyContext → Errno → Attempt
send_failed s eintr = ok (s, copy_continue)
send_failed s eagain = ok (s, copy_continue)
send_failed s einval = ok (record s { use_sendfile = false }, copy_fallback)
send_failed s enosys = ok (record s { use_sendfile = false }, copy_fallback)
send_failed s eperm = throw errno_error
send_failed s enotsup = throw errno_error
send_failed s exdev = throw errno_error
send_failed s other = throw errno_error

unfoldable pub io_failed : CopyContext → Errno → Attempt
io_failed s eintr = ok (s, copy_continue)
io_failed s eagain = ok (s, copy_continue)
io_failed s einval = throw errno_error
io_failed s eperm = throw errno_error
io_failed s enosys = throw errno_error
io_failed s enotsup = throw errno_error
io_failed s exdev = throw errno_error
io_failed s other = throw errno_error

-- The end of an attempt that wrote: nothing ends the copy.
unfoldable pub moved : CopyContext → ℕ → File → Attempt
moved s ret out =
    if ret == 0
    then ok (record s { out = out }, copy_end)
    else ok (record s { out = out; written_cur = ret }, copy_continue)

unfoldable pub prepare : CopyContext → CopyContext
prepare s = record s {
  to_copy = min s.block_size (s.stat.total - s.stat.cur.written);
  off_in = s.input_offset + s.stat.cur.written;
  off_out = s.output_offset + s.stat.cur.written;
  written_cur = 0;
}

-- The next way is tried when the one before it is not there.
abbrev pub or_else : Bool → (CopyContext → Attempt) → CopyContext × CopyRet → Attempt
or_else enabled attempt (s, copy_continue) = ok (s, copy_continue)
or_else enabled attempt (s, copy_end) = ok (s, copy_end)
or_else enabled attempt (s, copy_fallback) = if enabled then attempt s else ok (s, copy_fallback)

module _ (k : Kernel) where
  unfoldable pub try_copy_file_range : CopyContext → Attempt
  unfolding range_failed moved
  try_copy_file_range s =
      let t : CopyContext = record s { calls = suc s.calls } in
      elim (k.copy_file_range s.calls s.off_in s.off_out s.to_copy s.out) [
        | failed e ↦ range_failed t e
        | done ret out ↦
            moved (record t { off_in = s.off_in + ret; off_out = s.off_out + ret }) ret out
      ]

  -- `lseek` puts the position of the output to `off_out`.
  unfoldable pub try_sendfile : CopyContext → Attempt
  unfolding send_failed moved
  try_sendfile s =
      let t : CopyContext = record s { calls = suc s.calls } in
      elim (k.sendfile s.calls s.off_in s.off_out s.to_copy s.out) [
        | failed e ↦ send_failed t e
        | done ret out ↦ moved (record t { off_in = s.off_in + ret }) ret out
      ]

  -- The buffer grows to what is to be copied.
  unfoldable pub reserve : CopyContext → Result CopyContext
  reserve s =
      if ltb s.buff_size s.to_copy
      then if k.malloc s.calls s.to_copy
        then ok (record s { buff = true; buff_size = s.to_copy; calls = suc s.calls })
        else throw errno_error
      else ok s

  unfoldable pub try_write : CopyContext → ℕ → File → Attempt
  unfolding io_failed moved
  try_write s n buffer =
      let t : CopyContext = record s { calls = suc s.calls } in
      elim (k.pwrite64 s.calls buffer n s.off_out s.out) [
        | failed e ↦ io_failed t e
        | done ret out ↦ moved t ret out
      ]

  unfoldable pub try_read : CopyContext → Attempt
  unfolding io_failed try_write
  try_read s =
      let t : CopyContext = record s { calls = suc s.calls } in
      elim (k.pread64 s.calls s.off_in s.to_copy) [
        | read_failed e ↦ io_failed t e
        | got ret buffer ↦ if ret == 0 then ok (t, copy_end) else try_write t ret buffer
      ]

  unfoldable pub try_readwrite : CopyContext → Attempt
  unfolding reserve try_read
  try_readwrite s = reserve s >>= λ s. if not s.buff then throw runtime_error else try_read s

  unfoldable pub attempts : CopyContext → Attempt
  unfolding try_copy_file_range try_sendfile try_readwrite
  attempts s =
      ((or_else s.use_copy_file_range try_copy_file_range (s, copy_fallback) >>= λ r.
      or_else r.0.use_sendfile try_sendfile r)
        >>= λ r. or_else true try_readwrite r)

  -- What the loop does with the bytes that were written.
  unfoldable pub account : CopyContext → CopyContext
  account s =
      if ltb 0 s.written_cur
      then record s {
        calls = suc s.calls;
        syncs = if s.sync then suc s.syncs else s.syncs;
        stat = record s.stat {
          elast = s.stat.cur;
          cur = record { written = s.stat.cur.written + s.written_cur; time = k.now s.calls };
        };
      }
      else s

  unfoldable pub do_copy : ℕ → CopyContext → Result CopyContext
  unfolding prepare attempts account
  do_copy zero s = throw out_of_fuel
  do_copy (suc fuel) s =
      if not (ltb s.stat.cur.written s.stat.total)
      then ok s
      else (attempts (prepare s) >>= λ r. elim r.1 [
        | copy_fallback ↦ throw runtime_error
        | copy_end ↦ ok (account r.0)
        | copy_continue ↦ do_copy fuel (account r.0)
      ])

-- a - b of `size_t`
abbrev pub sub_size : ℕ → ℕ → ℕ
sub_size a b = (a + (2 ^ 64 - b % 2 ^ 64)) % 2 ^ 64

abbrev pub progress_since : CopyStatus → Point → Timestamp → Progress
progress_since s last passed =
    let bytes : ℕ = sub_size s.cur.written last.written in
    let ms : ℤ = tonumber millisecond passed in
    record {
      passed = passed;
      bytes = bytes;
      speed = if ltb_ℤ (pos 0) ms then (bytes * 1000) % 2 ^ 64 / pos_part ms else 0;
      percent = if ltb 0 s.total then min ((s.cur.written * 100) % 2 ^ 64 / s.total) 100 else 100;
    }

unfoldable pub calc : CopyStatus → CopyStatus
unfolding sub tonumber
calc s =
    let passed = sub s.cur.time s.elast.time in
    record s {
      progress =
          if ltb_ℤ (tonumber second passed) (pos 1)
          then progress_since s s.clast (sub s.cur.time s.clast.time)
          else progress_since s s.elast passed;
      clast = s.cur;
    }
