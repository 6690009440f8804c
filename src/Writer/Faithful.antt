-- ===== src/Writer/Faithful.antt =====
-- What the calls of the kernel promise, and what an attempt of the copy may do (src/helper/copy.cpp).
use nanodistro.Base.{
  ℕ, ◌+◌, ◌-◌, ◌≤◌, ◌<◌, ◌≡◌, refl, ◌&&◌, inl, inr, ◌⊎◌, ltb, leb, if◌then◌else◌, ok, throw,
}
use nanodistro.Writer.{
  copy_continue, copy_fallback, copy_end, Errno, File, Reply, done, failed, ReadReply, got,
  read_failed, Kernel, CopyContext, Attempt,
}

-- The output with n bytes of a file from `off_in` on written to `off_out`.
abbrev pub spliced : File → ℕ → ℕ → ℕ → File → ℕ → ℕ
spliced input off_in off_out n out j =
    if leb off_out j && ltb j (off_out + n) then input (off_in + (j - off_out)) else out j

-- What the manual pages say of a call that succeeds: it moves at most as many bytes as it is asked
-- to, and changes nothing else.
pub record IsFaithful (k : Kernel) (input : File) : Type 0 where
  pub range_copies :
      (c i o len : ℕ) (out : File) (n : ℕ) (new : File)
      → k.copy_file_range c i o len out ≡ done n new
      → (n ≤ len) × ((j : ℕ) → new j ≡ spliced input i o n out j)
  pub send_copies :
      (c i o len : ℕ) (out : File) (n : ℕ) (new : File)
      → k.sendfile c i o len out ≡ done n new
      → (n ≤ len) × ((j : ℕ) → new j ≡ spliced input i o n out j)
  pub read_copies :
      (c i len n : ℕ) (buffer : File)
      → k.pread64 c i len ≡ got n buffer
      → (n ≤ len) × ((j : ℕ) → j < n → buffer j ≡ input (i + j))
  pub write_copies :
      (c : ℕ) (buffer : File) (len o : ℕ) (out : File) (n : ℕ) (new : File)
      → k.pwrite64 c buffer len o out ≡ done n new
      → (n ≤ len) × ((j : ℕ) → new j ≡ spliced buffer 0 o n out j)

pub Reply-cases :
    (r : Reply) → ((e : Errno) × (r ≡ failed e)) ⊎ ((n : ℕ) × (new : File) × (r ≡ done n new))
Reply-cases (failed e) = inl (e, refl)
Reply-cases (done n new) = inr (n, new, refl)

pub ReadReply-cases :
    (r : ReadReply)
    → ((e : Errno) × (r ≡ read_failed e)) ⊎ ((n : ℕ) × (new : File) × (r ≡ got n new))
ReadReply-cases (read_failed e) = inl (e, refl)
ReadReply-cases (got n new) = inr (n, new, refl)

-- The fields that an attempt leaves alone.
pub record IsKept (s t : CopyContext) : Type 0 where
  pub same_stat : t.stat ≡ s.stat
  pub same_input : t.input_offset ≡ s.input_offset
  pub same_output : t.output_offset ≡ s.output_offset
  pub same_block : t.block_size ≡ s.block_size

-- An attempt that is not there has done nothing.
pub record IsUnchanged (s t : CopyContext) : Type 0 where
  pub kept : IsKept s t
  pub same_out : t.out ≡ s.out
  pub same_written : t.written_cur ≡ s.written_cur
  pub same_off_in : t.off_in ≡ s.off_in
  pub same_off_out : t.off_out ≡ s.off_out
  pub same_to_copy : t.to_copy ≡ s.to_copy

pub record IsMoved (input : File) (s t : CopyContext) : Type 0 where
  pub kept : IsKept s t
  pub bounded : t.written_cur ≤ s.to_copy
  pub wrote : (j : ℕ) → t.out j ≡ spliced input s.off_in s.off_out t.written_cur s.out j

abbrev pub IsSound : File → CopyContext → Attempt → Type 0
IsSound input s (throw e) = Unit
IsSound input s (ok (t, copy_fallback)) = IsUnchanged s t
IsSound input s (ok (t, copy_continue)) = IsMoved input s t
IsSound input s (ok (t, copy_end)) = IsMoved input s t
