-- ===== src/Writer/Prompt.antt =====
-- An attempt of the copy on a kernel that is never interrupted (src/helper/copy.cpp).
use nanodistro.Base.{
  ℕ, suc, ◌+◌, ◌≤◌, ◌<◌, ◌≡◌, refl, ◌∙◌, Bool, true, false, not, Bool-cases, inl, inr, ltb, ◌==◌,
  if◌then◌else◌, ok, throw, ◌>>=◌, runtime_error, arith,
}
use nanodistro.Writer.{
  copy_continue, copy_fallback, copy_end, eintr, eagain, einval, eperm, enosys, enotsup, exdev,
  other, File, Reply, done, failed, got, Kernel, CopyContext, Attempt, range_failed, send_failed,
  moved, try_copy_file_range, try_sendfile, reserve, try_write, try_read, try_readwrite, or_else,
  attempts,
}
use nanodistro.Writer.Faithful.{IsKept, IsUnchanged}
use nanodistro.Writer.Endings.{unchanged, IsUnchanged-after}

-- A call that moves something, or is not there at all.
abbrev pub Moves : Reply → Type 0
Moves (done n new) = 0 < n
Moves (failed enosys) = Unit
Moves (failed einval) = Unit
Moves (failed eintr) = ⊥
Moves (failed eagain) = ⊥
Moves (failed eperm) = ⊥
Moves (failed enotsup) = ⊥
Moves (failed exdev) = ⊥
Moves (failed other) = ⊥

-- No call fails or is interrupted: each moves at least one byte as long as the input has one; the two
-- faster calls may be missing.
pub record IsPrompt (k : Kernel) (size : ℕ) : Type 0 where
  pub range_moves :
      (c i o len : ℕ) (out : File)
      → 0 < len
      → i + len ≤ size
      → Moves (k.copy_file_range c i o len out)
  pub send_moves :
      (c i o len : ℕ) (out : File) → 0 < len → i + len ≤ size → Moves (k.sendfile c i o len out)
  pub reads :
      (c i len : ℕ)
      → 0 < len
      → i + len ≤ size
      → (n : ℕ) × (buffer : File) × (0 < n) × (k.pread64 c i len ≡ got n buffer)
  pub writes :
      (c : ℕ) (buffer : File) (len o : ℕ) (out : File)
      → 0 < len
      → (n : ℕ) × (new : File) × (0 < n) × (k.pwrite64 c buffer len o out ≡ done n new)
  pub allocates : (c n : ℕ) → k.malloc c n ≡ true

-- A buffer with a size is there.
abbrev pub HasBuffer : CopyContext → Type 0
HasBuffer s = 0 < s.buff_size → s.buff ≡ true

-- What a prompt attempt may do: nothing, or move bytes.
abbrev Runs : CopyContext → Attempt → Type 0
Runs s (throw e) = ⊥
Runs s (ok (t, copy_end)) = ⊥
Runs s (ok (t, copy_fallback)) = IsUnchanged s t × HasBuffer t
Runs s (ok (t, copy_continue)) = IsKept s t × (0 < t.written_cur) × HasBuffer t

-- What a prompt attempt by reading and writing does.
abbrev pub Goes : CopyContext → Attempt → Type 0
Goes s (throw e) = ⊥
Goes s (ok (t, copy_end)) = ⊥
Goes s (ok (t, copy_fallback)) = ⊥
Goes s (ok (t, copy_continue)) = IsKept s t × (0 < t.written_cur) × HasBuffer t

Runs-of : (s : CopyContext) (r : Attempt) → Goes s r → Runs s r
Runs-of s (throw e) g = g
Runs-of s (ok (t, copy_end)) g = g
Runs-of s (ok (t, copy_fallback)) g = absurd g
Runs-of s (ok (t, copy_continue)) g = g

IsKept-after : (s t u : CopyContext) → IsUnchanged s t → IsKept t u → IsKept s u
IsKept-after s t u h g = record {
  same_stat = g.same_stat ∙ h.kept.same_stat;
  same_input = g.same_input ∙ h.kept.same_input;
  same_output = g.same_output ∙ h.kept.same_output;
  same_block = g.same_block ∙ h.kept.same_block;
}

Runs-after : (s t : CopyContext) (r : Attempt) → IsUnchanged s t → Runs t r → Runs s r
Runs-after s t (throw e) h g = g
Runs-after s t (ok (u, copy_end)) h g = g
Runs-after s t (ok (u, copy_fallback)) h g = (IsUnchanged-after s t u h g.0, g.1)
Runs-after s t (ok (u, copy_continue)) h g = (IsKept-after s t u h g.0, g.1, g.2)

Goes-after : (s t : CopyContext) (r : Attempt) → IsUnchanged s t → Goes t r → Goes s r
Goes-after s t (throw e) h g = g
Goes-after s t (ok (u, copy_end)) h g = g
Goes-after s t (ok (u, copy_fallback)) h g = g
Goes-after s t (ok (u, copy_continue)) h g = (IsKept-after s t u h g.0, g.1, g.2)

-- The end of an attempt, which leaves the fields that count alone.
moved-Goes :
    (s : CopyContext) (c off_in off_out ret : ℕ) (out : File)
    → HasBuffer s
    → 0 < ret
    → Goes s (moved (record s { calls = c; off_in = off_in; off_out = off_out }) ret out)
unfolding moved
moved-Goes s c off_in off_out ret out b h =
    let e : (ret == 0) ≡ false = ground (arith, h) in
    rw e
      (record { same_stat = refl; same_input = refl; same_output = refl; same_block = refl }, h, b)

module _ (k : Kernel) (size : ℕ) (p : IsPrompt k size) where
  abbrev IsReady : CopyContext → Type 0
  IsReady s = (0 < s.to_copy) × (s.off_in + s.to_copy ≤ size) × HasBuffer s

  range-Runs : (s : CopyContext) → IsReady s → Runs s (try_copy_file_range k s)
  unfolding try_copy_file_range
  range-Runs s h =
      go (k.copy_file_range s.calls s.off_in s.off_out s.to_copy s.out)
        (p.range_moves s.calls s.off_in s.off_out s.to_copy s.out h.0 h.1)
    where
      missing : IsUnchanged s (record s { calls = suc s.calls; use_copy_file_range = false })
      missing = unchanged s (suc s.calls) s.buff_size false s.use_sendfile s.buff

      go :
          (r : Reply)
          → Moves r
          → Runs s (elim r [
            | failed e ↦ range_failed (record s { calls = suc s.calls }) e
            | done ret out ↦
                moved
                  (record s {
                    calls = suc s.calls;
                    off_in = s.off_in + ret;
                    off_out = s.off_out + ret;
                  })
                  ret
                  out
          ])
      go (done n new) m =
          Runs-of s _ (moved-Goes s (suc s.calls) (s.off_in + n) (s.off_out + n) n new h.2 m)
      go (failed enosys) m = unfold range_failed in (missing, h.2)
      go (failed einval) m = unfold range_failed in (missing, h.2)
      go (failed eintr) m = absurd m
      go (failed eagain) m = absurd m
      go (failed eperm) m = absurd m
      go (failed enotsup) m = absurd m
      go (failed exdev) m = absurd m
      go (failed other) m = absurd m

  send-Runs : (s : CopyContext) → IsReady s → Runs s (try_sendfile k s)
  unfolding try_sendfile
  send-Runs s h =
      go (k.sendfile s.calls s.off_in s.off_out s.to_copy s.out)
        (p.send_moves s.calls s.off_in s.off_out s.to_copy s.out h.0 h.1)
    where
      missing : IsUnchanged s (record s { calls = suc s.calls; use_sendfile = false })
      missing = unchanged s (suc s.calls) s.buff_size s.use_copy_file_range false s.buff

      go :
          (r : Reply)
          → Moves r
          → Runs s (elim r [
            | failed e ↦ send_failed (record s { calls = suc s.calls }) e
            | done ret out ↦
                moved (record s { calls = suc s.calls; off_in = s.off_in + ret }) ret out
          ])
      go (done n new) m =
          Runs-of s _ (moved-Goes s (suc s.calls) (s.off_in + n) s.off_out n new h.2 m)
      go (failed enosys) m = unfold send_failed in (missing, h.2)
      go (failed einval) m = unfold send_failed in (missing, h.2)
      go (failed eintr) m = absurd m
      go (failed eagain) m = absurd m
      go (failed eperm) m = absurd m
      go (failed enotsup) m = absurd m
      go (failed exdev) m = absurd m
      go (failed other) m = absurd m

  read-Goes : (s : CopyContext) → IsReady s → Goes s (try_read k s)
  unfolding try_read try_write
  read-Goes s h =
      let (n, buffer, l, r) = p.reads s.calls s.off_in s.to_copy h.0 h.1 in
      let t : CopyContext = record s { calls = suc s.calls } in
      let (m, new, l', w) = p.writes t.calls buffer n t.off_out t.out l in
      let e : (n == 0) ≡ false = ground (arith, l) in
      rw (r, e, w, Goes) (moved-Goes s (suc (suc s.calls)) s.off_in s.off_out m new h.2 l')

  readwrite-Goes : (s : CopyContext) → IsReady s → Goes s (try_readwrite k s)
  unfolding try_readwrite reserve
  readwrite-Goes s h = elim (Bool-cases (ltb s.buff_size s.to_copy)) [
    | inr e ↦
        let b : s.buff ≡ true = h.2 (ground (arith, e, h.0)) in
        rw e (allocated s s.buff b (read-Goes s h))
    | inl e ↦
        let t : CopyContext = record s {
          buff = true;
          buff_size = s.to_copy;
          calls = suc s.calls;
        } in
        rw (e, p.allocates s.calls s.to_copy)
          (Goes-after s t (try_read k t)
            (unchanged s (suc s.calls) s.to_copy s.use_copy_file_range s.use_sendfile true)
            (read-Goes t (h.0, h.1, λ l. refl)))
  ]
    where
      allocated :
          (s : CopyContext) (b : Bool)
          → b ≡ true
          → Goes s (try_read k s)
          → Goes s (if not b then throw runtime_error else try_read k s)
      allocated s b e g = rw e g

  or_else-Runs :
      (s : CopyContext) (b : CopyContext → Bool) (way : CopyContext → Attempt) (r : Attempt)
      → IsReady s
      → ((t : CopyContext) → IsReady t → Runs t (way t))
      → Runs s r
      → Runs s (r >>= λ r. or_else (b r.0) way r)
  or_else-Runs s b way (throw e) h g u = u
  or_else-Runs s b way (ok (t, copy_continue)) h g u = u
  or_else-Runs s b way (ok (t, copy_end)) h g u = u
  or_else-Runs s b way (ok (t, copy_fallback)) h g u =
      let ready : IsReady t = (
        omega (arith, h.0, u.0.same_to_copy),
        omega (arith, h.1, u.0.same_to_copy, u.0.same_off_in),
        u.1,
      ) in
      elim (Bool-cases (b t)) [
        | inl e ↦ rw e (Runs-after s t (way t) u.0 (g t ready))
        | inr e ↦ rw e u
      ]

  pub attempts-Goes : (s : CopyContext) → IsReady s → Goes s (attempts k s)
  unfolding attempts
  attempts-Goes s h =
      let start : Attempt = ok (s, copy_fallback) in
      let same : IsUnchanged s s =
        unchanged s s.calls s.buff_size s.use_copy_file_range s.use_sendfile s.buff in
      let one : Attempt =
        or_else s.use_copy_file_range (try_copy_file_range k) (s, copy_fallback) in
      let first : Runs s one =
        or_else-Runs s (λ t. t.use_copy_file_range) (try_copy_file_range k) start h range-Runs
          (same, h.2) in
      let two : Attempt = one >>= λ r. or_else r.0.use_sendfile (try_sendfile k) r in
      let second : Runs s two =
        or_else-Runs s (λ t. t.use_sendfile) (try_sendfile k) one h send-Runs first in
      last two second
    where
      last : (r : Attempt) → Runs s r → Goes s (r >>= λ r. or_else true (try_readwrite k) r)
      last (throw e) u = u
      last (ok (t, copy_continue)) u = u
      last (ok (t, copy_end)) u = absurd u
      last (ok (t, copy_fallback)) u = Goes-after s t (try_readwrite k t) u.0 (
          readwrite-Goes t (
            omega (arith, h.0, u.0.same_to_copy),
            omega (arith, h.1, u.0.same_to_copy, u.0.same_off_in),
            u.1,
          ))
