-- ===== src/Writer/Finish.antt =====
-- The copy ends (src/helper/copy.cpp).
use nanodistro.Base.{
  ℕ, zero, suc, ◌+◌, ◌-◌, ◌≤◌, ◌<◌, ◌≡◌, refl, ap, ◌∙◌, true, Bool-cases, inl, inr, ltb, Result, ok,
  throw, ◌>>=◌, runtime_error, arith,
}
use nanodistro.Writer.{
  copy_continue, copy_fallback, copy_end, CopyStatus, File, Kernel, CopyContext, Attempt, prepare,
  attempts, account, do_copy,
}
use nanodistro.Writer.Faithful.{IsFaithful}
use nanodistro.Writer.Copied.{IsCopied, do_copy-IsCopied}
use nanodistro.Writer.Prompt.{IsPrompt, HasBuffer, Goes, attempts-Goes}

-- What is to hold of the rest of the loop: it ends with all bytes written.
abbrev Ends : (CopyContext → Result CopyContext) → ℕ → CopyContext → Type 0
Ends next total s = (t : CopyContext) × (next s ≡ ok t) × (total ≤ t.stat.cur.written)

record IsGoing (size total fuel : ℕ) (s : CopyContext) : Type 0 where
  same_total : s.stat.total ≡ total
  has_blocks : 0 < s.block_size
  fits : s.input_offset + total ≤ size
  buffered : HasBuffer s
  fuelled : total - s.stat.cur.written < fuel

-- What the loop does after the attempts, its next round being given.
after_attempts :
    (k : Kernel) (size total fuel : ℕ) (s : CopyContext) (next : CopyContext → Result CopyContext)
    → ((u : CopyContext) → IsGoing size total fuel u → Ends next total u)
    → IsGoing size total (suc fuel) s
    → s.stat.cur.written < total
    → (r : Attempt) → Goes (prepare s) r
    → Ends
        (λ s. r >>= λ r. elim r.1 [
          | copy_fallback ↦ throw runtime_error
          | copy_end ↦ ok (account k r.0)
          | copy_continue ↦ next (account k r.0)
        ])
        total
        s
unfolding account prepare
after_attempts k size total fuel s next ih v l (throw e) g = absurd g
after_attempts k size total fuel s next ih v l (ok (t, copy_end)) g = absurd g
after_attempts k size total fuel s next ih v l (ok (t, copy_fallback)) g = absurd g
after_attempts k size total fuel s next ih v l (ok (t, copy_continue)) g =
    let e : ltb 0 t.written_cur ≡ true = ground (arith, g.1) in
    let now : t.stat.cur.written ≡ s.stat.cur.written =
      ap (λ (x : CopyStatus). x.cur.written) g.0.same_stat in
    ih (account k t) (
      rw e (record {
        same_total = ap (λ (x : CopyStatus). x.total) g.0.same_stat ∙ v.same_total;
        has_blocks = omega (arith, v.has_blocks, g.0.same_block);
        fits = omega (arith, v.fits, g.0.same_input);
        buffered = g.2;
        fuelled = omega (arith, v.fuelled, now, g.1, l);
      }))

-- A round makes progress, so that the bytes that are left are fuel enough.
do_copy-Ends :
    (k : Kernel) (size : ℕ)
    → IsPrompt k size
    → (fuel total : ℕ) (s : CopyContext) → IsGoing size total fuel s
    → Ends (do_copy k fuel) total s
unfolding do_copy prepare
do_copy-Ends k size p zero total s v = absurd (omega (arith, v.fuelled))
do_copy-Ends k size p (suc fuel) total s v =
    elim (Bool-cases (ltb s.stat.cur.written s.stat.total)) [
      | inr e ↦ rw e (s, refl, ground (arith, e, v.same_total))
      | inl e ↦
          let u : CopyContext = prepare s in
          let ready : (0 < u.to_copy) × (u.off_in + u.to_copy ≤ size) × HasBuffer u = (
            ground (arith, e, v.has_blocks),
            ground (arith, e, v.fits, v.same_total),
            v.buffered,
          ) in
          rw e (
            after_attempts k size total fuel s (do_copy k fuel) (do_copy-Ends k size p fuel total) v
              (ground (arith, e, v.same_total)) (attempts k u) (attempts-Goes k size p u ready))
    ]

-- On a faithful kernel where no call fails but for the two faster ones that may be missing, with a
-- block size that is not zero, a buffer for every buffer size, an input that is long enough and an
-- output that holds what was written so far, one round more than there are bytes left is enough for
-- the copy: it returns with exactly `total` bytes written.
pub do_copy-finishes :
    (k : Kernel) (input : File) (size : ℕ) (s0 s : CopyContext)
    → IsFaithful k input
    → IsPrompt k size
    → 0 < s.block_size
    → s.input_offset + s.stat.total ≤ size
    → HasBuffer s
    → IsCopied input s0 s
    → (t : CopyContext) × (do_copy k (suc (s.stat.total - s.stat.cur.written)) s ≡ ok t)
      × (t.stat.cur.written ≡ s0.stat.total)
do_copy-finishes k input size s0 s f p b i h c =
    let fuel : ℕ = suc (s.stat.total - s.stat.cur.written) in
    let (t, runs, full) = do_copy-Ends k size p fuel s.stat.total s (record {
      same_total = refl;
      has_blocks = b;
      fits = i;
      buffered = h;
      fuelled = omega arith;
    }) in
    let d : IsCopied input s0 t = do_copy-IsCopied k input f fuel s0 s t c runs in
    (t, runs, omega (arith, full, d.within, d.same_total, c.same_total))
