-- ===== src/Writer/Attempts.antt =====
-- Every way of moving bytes is sound (src/helper/copy.cpp).
use nanodistro.Base.{
  ℕ, suc, ◌+◌, ◌-◌, ◌≤◌, ◌<◌, ◌≡◌, refl, ap, ◌∙◌, Bool, true, false, not, ◌&&◌, Bool-cases, inl,
  inr, ltb, leb, ◌==◌, if◌then◌else◌, ok, throw, ◌>>=◌, runtime_error, arith,
}
use nanodistro.Writer.{
  copy_continue, copy_fallback, copy_end, File, Kernel, CopyContext, Attempt, try_copy_file_range,
  try_sendfile, reserve, try_write, try_read, try_readwrite, or_else, attempts,
}
use nanodistro.Writer.Faithful.{
  spliced, IsFaithful, Reply-cases, ReadReply-cases, IsUnchanged, IsSound,
}
use nanodistro.Writer.Endings.{
  unchanged, IsMoved-nothing, IsSound-after, counted, range_failed-IsSound, send_failed-IsSound,
  io_failed-IsSound, moved-IsSound,
}

module _ (k : Kernel) (input : File) (f : IsFaithful k input) where
  range-IsSound : (s : CopyContext) → s.written_cur ≡ 0 → IsSound input s (try_copy_file_range k s)
  unfolding try_copy_file_range
  range-IsSound s h =
      elim (Reply-cases (k.copy_file_range s.calls s.off_in s.off_out s.to_copy s.out)) [
        | inl (e, r) ↦ rw (r, IsSound) (range_failed-IsSound input s h (suc s.calls) e)
        | inr (n, new, r) ↦
            let (b, w) = f.range_copies s.calls s.off_in s.off_out s.to_copy s.out n new r in
            rw (r, IsSound)
              (moved-IsSound input s h (suc s.calls) (s.off_in + n) (s.off_out + n) n new b w)
      ]

  send-IsSound : (s : CopyContext) → s.written_cur ≡ 0 → IsSound input s (try_sendfile k s)
  unfolding try_sendfile
  send-IsSound s h = elim (Reply-cases (k.sendfile s.calls s.off_in s.off_out s.to_copy s.out)) [
    | inl (e, r) ↦ rw (r, IsSound) (send_failed-IsSound input s h (suc s.calls) e)
    | inr (n, new, r) ↦
        let (b, w) = f.send_copies s.calls s.off_in s.off_out s.to_copy s.out n new r in
        rw (r, IsSound) (moved-IsSound input s h (suc s.calls) (s.off_in + n) s.off_out n new b w)
  ]

  -- Writing a buffer that holds the input.
  write-IsSound :
      (s : CopyContext) (len : ℕ) (buffer : File)
      → s.written_cur ≡ 0
      → len ≤ s.to_copy
      → ((j : ℕ) → j < len → buffer j ≡ input (s.off_in + j))
      → IsSound input s (try_write k s len buffer)
  unfolding try_write
  write-IsSound s len buffer h b r =
      elim (Reply-cases (k.pwrite64 s.calls buffer len s.off_out s.out)) [
        | inl (e, q) ↦ rw (q, IsSound) (io_failed-IsSound input s h (suc s.calls) e)
        | inr (n, new, q) ↦
            let (c, w) = f.write_copies s.calls buffer len s.off_out s.out n new q in
            rw (q, IsSound)
              (moved-IsSound input s h (suc s.calls) s.off_in s.off_out n new (omega (arith, b, c))
                (λ j. w j ∙ copied j n c))
      ]
    where
      copied :
          (j n : ℕ)
          → n ≤ len
          → spliced buffer 0 s.off_out n s.out j ≡ spliced input s.off_in s.off_out n s.out j
      copied j n c = elim (Bool-cases (leb s.off_out j && ltb j (s.off_out + n))) [
        | inl e ↦
            let l : j - s.off_out < len = ground (arith, e, c) in
            let z : 0 + (j - s.off_out) ≡ j - s.off_out = omega arith in
            rw e (ap buffer z ∙ r (j - s.off_out) l)
        | inr e ↦ rw e refl
      ]

  read-IsSound : (s : CopyContext) → s.written_cur ≡ 0 → IsSound input s (try_read k s)
  unfolding try_read
  read-IsSound s h = elim (ReadReply-cases (k.pread64 s.calls s.off_in s.to_copy)) [
    | inl (e, r) ↦ rw (r, IsSound) (io_failed-IsSound input s h (suc s.calls) e)
    | inr (n, buffer, r) ↦
        let (b, w) = f.read_copies s.calls s.off_in s.to_copy n buffer r in
        let t : CopyContext = record s { calls = suc s.calls } in
        elim (Bool-cases (n == 0)) [
          | inl e ↦
              rw (r, e, IsSound) (IsMoved-nothing input s t h (counted input s h (suc s.calls)))
          | inr e ↦
              rw (r, e, IsSound)
                (IsSound-after input s t (try_write k t n buffer) (counted input s h (suc s.calls))
                  (write-IsSound t n buffer h b w))
        ]
  ]

  allocated :
      (s : CopyContext) (b : Bool)
      → IsSound input s (try_read k s)
      → IsSound input s (if not b then throw runtime_error else try_read k s)
  allocated s true h = h
  allocated s false h = tt

  readwrite-IsSound : (s : CopyContext) → s.written_cur ≡ 0 → IsSound input s (try_readwrite k s)
  unfolding try_readwrite reserve
  readwrite-IsSound s h = elim (Bool-cases (ltb s.buff_size s.to_copy)) [
    | inr e ↦ rw e (allocated s s.buff (read-IsSound s h))
    | inl e ↦ elim (Bool-cases (k.malloc s.calls s.to_copy)) [
      | inr m ↦ rw (e, m) tt
      | inl m ↦
          let t : CopyContext = record s {
            buff = true;
            buff_size = s.to_copy;
            calls = suc s.calls;
          } in
          rw (e, m)
            (IsSound-after input s t (try_read k t)
              (unchanged s (suc s.calls) s.to_copy s.use_copy_file_range s.use_sendfile true)
              (read-IsSound t h))
    ]
  ]

  -- A way that is tried after one that was sound.
  or_else-IsSound :
      (s : CopyContext) (b : CopyContext → Bool) (way : CopyContext → Attempt) (r : Attempt)
      → s.written_cur ≡ 0
      → ((t : CopyContext) → t.written_cur ≡ 0 → IsSound input t (way t))
      → IsSound input s r
      → IsSound input s (r >>= λ r. or_else (b r.0) way r)
  or_else-IsSound s b way (throw e) h g u = tt
  or_else-IsSound s b way (ok (t, copy_continue)) h g u = u
  or_else-IsSound s b way (ok (t, copy_end)) h g u = u
  or_else-IsSound s b way (ok (t, copy_fallback)) h g u = elim (Bool-cases (b t)) [
    | inl e ↦ rw e (IsSound-after input s t (way t) u (g t (u.same_written ∙ h)))
    | inr e ↦ rw e u
  ]

  pub attempts-IsSound : (s : CopyContext) → s.written_cur ≡ 0 → IsSound input s (attempts k s)
  unfolding attempts
  attempts-IsSound s h =
      let start : Attempt = ok (s, copy_fallback) in
      let same : IsUnchanged s s = counted input s h s.calls in
      let one : Attempt =
        or_else s.use_copy_file_range (try_copy_file_range k) (s, copy_fallback) in
      let first : IsSound input s one =
        or_else-IsSound s (λ t. t.use_copy_file_range) (try_copy_file_range k) start h range-IsSound
          same in
      let two : Attempt = one >>= λ r. or_else r.0.use_sendfile (try_sendfile k) r in
      let second : IsSound input s two =
        or_else-IsSound s (λ t. t.use_sendfile) (try_sendfile k) one h send-IsSound first in
      or_else-IsSound s (λ t. true) (try_readwrite k) two h readwrite-IsSound second
