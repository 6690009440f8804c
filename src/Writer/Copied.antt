-- ===== src/Writer/Copied.antt =====
-- The copy writes what it reads (src/helper/copy.cpp).
use nanodistro.Base.{
  ℕ, zero, suc, ◌+◌, ◌-◌, ◌≤◌, ◌≡◌, refl, sym, ap, ◌∙◌, subst, true, false, ◌&&◌, Bool-cases, inl,
  inr, ltb, leb, Result, ok, throw, ◌>>=◌, runtime_error, ok_injective, arith,
}
use nanodistro.Writer.{
  copy_continue, copy_fallback, copy_end, CopyStatus, File, Kernel, CopyContext, Attempt, prepare,
  attempts, account, do_copy,
}
use nanodistro.Writer.Faithful.{spliced, IsFaithful, IsMoved, IsSound}
use nanodistro.Writer.Attempts.{attempts-IsSound}

-- The output holds the bytes written so far, and is otherwise as it was.
pub record IsCopied (input : File) (s0 s : CopyContext) : Type 0 where
  pub same_input : s.input_offset ≡ s0.input_offset
  pub same_output : s.output_offset ≡ s0.output_offset
  pub same_total : s.stat.total ≡ s0.stat.total
  pub within : s.stat.cur.written ≤ s.stat.total
  pub copied :
      (j : ℕ) → s.out j ≡ spliced input s0.input_offset s0.output_offset s.stat.cur.written s0.out j

-- Two runs of bytes behind each other are one.
spliced-spliced :
    (input out : File) (i o w n j : ℕ)
    → spliced input (i + w) (o + w) n (spliced input i o w out) j ≡ spliced input i o (w + n) out j
spliced-spliced input out i o w n j = elim (Bool-cases (leb (o + w) j && ltb j (o + w + n))) [
  | inl e ↦
      let both : (leb o j && ltb j (o + (w + n))) ≡ true = ground (arith, e) in
      let at : i + w + (j - (o + w)) ≡ i + (j - o) = ground (arith, e) in rw (e, both) (ap input at)
  | inr e ↦ elim (Bool-cases (leb o j && ltb j (o + w))) [
    | inl g ↦
        let both : (leb o j && ltb j (o + (w + n))) ≡ true = ground (arith, g) in
        rw (e, g, both) refl
    | inr g ↦
        let none : (leb o j && ltb j (o + (w + n))) ≡ false = ground (arith, e, g) in
        rw (e, g, none) refl
  ]
]

module _ (k : Kernel) (input : File) (s0 : CopyContext) where
  -- A round that moved bytes.
  account-IsCopied :
      (s t : CopyContext)
      → IsCopied input s0 s
      → IsMoved input (prepare s) t
      → IsCopied input s0 (account k t)
  unfolding account prepare
  account-IsCopied s t c m =
      let w : ℕ = s.stat.cur.written in
      let total : s.stat.total ≡ t.stat.total =
        ap (λ (x : CopyStatus). x.total) (sym m.kept.same_stat) in
      let now : t.stat.cur.written ≡ w = ap (λ (x : CopyStatus). x.cur.written) m.kept.same_stat in
      let out : (j : ℕ)
          → t.out j ≡ spliced input s0.input_offset s0.output_offset (w + t.written_cur) s0.out j =
        λ j.
          m.wrote j
          ∙ ap (λ (i : ℕ). spliced input (i + w) (s.output_offset + w) t.written_cur s.out j)
              c.same_input
          ∙ ap (λ (o : ℕ). spliced input (s0.input_offset + w) (o + w) t.written_cur s.out j)
              c.same_output
          ∙ spliced-ext (s0.input_offset + w) (s0.output_offset + w) t.written_cur s.out
              (spliced input s0.input_offset s0.output_offset w s0.out) c.copied j
          ∙ spliced-spliced input s0.out s0.input_offset s0.output_offset w t.written_cur j in
      elim (Bool-cases (ltb 0 t.written_cur)) [
        | inl e ↦ rw e (record {
          same_input = m.kept.same_input ∙ c.same_input;
          same_output = m.kept.same_output ∙ c.same_output;
          same_total = sym total ∙ c.same_total;
          within = omega (arith, total, now, m.bounded, c.within);
          copied = λ j.
              out j
              ∙ ap
                  (λ (n : ℕ).
                    spliced input s0.input_offset s0.output_offset (n + t.written_cur) s0.out j)
                  (sym now);
        })
        | inr e ↦
            let z : w + t.written_cur ≡ t.stat.cur.written = ground (arith, e, now) in
            rw e (record {
              same_input = m.kept.same_input ∙ c.same_input;
              same_output = m.kept.same_output ∙ c.same_output;
              same_total = sym total ∙ c.same_total;
              within = omega (arith, total, now, c.within);
              copied = λ j.
                  out j
                  ∙ ap (λ (n : ℕ). spliced input s0.input_offset s0.output_offset n s0.out j) z;
            })
      ]
    where
      spliced-ext :
          (i o n : ℕ) (f g : File)
          → ((j : ℕ) → f j ≡ g j)
          → (j : ℕ) → spliced input i o n f j ≡ spliced input i o n g j
      spliced-ext i o n f g h j = elim (Bool-cases (leb o j && ltb j (o + n))) [
        | inl e ↦ rw e refl
        | inr e ↦ rw e (h j)
      ]

-- What the loop does after the attempts, its next round being given.
after_attempts :
    (k : Kernel) (input : File) (s0 s t : CopyContext) (next : CopyContext → Result CopyContext)
    → ((u : CopyContext) → IsCopied input s0 u → next u ≡ ok t → IsCopied input s0 t)
    → IsCopied input s0 s
    → (r : Attempt) → IsSound input (prepare s) r
    → (r >>= λ r. elim r.1 [
      | copy_fallback ↦ throw runtime_error
      | copy_end ↦ ok (account k r.0)
      | copy_continue ↦ next (account k r.0)
    ])
      ≡ ok t
    → IsCopied input s0 t
after_attempts k input s0 s t next ih c (throw e) g h = absurd (ground (arith, h))
after_attempts k input s0 s t next ih c (ok (u, copy_fallback)) g h = absurd (ground (arith, h))
after_attempts k input s0 s t next ih c (ok (u, copy_end)) g h =
    subst (IsCopied input s0) (ok_injective h) (account-IsCopied k input s0 s u c g)
after_attempts k input s0 s t next ih c (ok (u, copy_continue)) g h =
    ih (account k u) (account-IsCopied k input s0 s u c g) h

-- On a faithful kernel, however often the copy is interrupted and whichever calls there are: when it
-- starts on an output that holds what was written so far and returns, the output holds the bytes of the input from `input_offset` on at `output_offset`, as many as are counted and
-- at most `total`, and every other byte of it is as it was.
pub do_copy-IsCopied :
    (k : Kernel) (input : File)
    → IsFaithful k input
    → (fuel : ℕ) (s0 s t : CopyContext) → IsCopied input s0 s
    → do_copy k fuel s ≡ ok t
    → IsCopied input s0 t
unfolding do_copy prepare
do_copy-IsCopied k input f zero s0 s t c h = absurd (ground (arith, h))
do_copy-IsCopied k input f (suc fuel) s0 s t c h =
    elim (Bool-cases (ltb s.stat.cur.written s.stat.total)) [
      | inr e ↦ subst (IsCopied input s0) (ok_injective (rw e at h)) c
      | inl e ↦
          after_attempts k input s0 s t (do_copy k fuel)
            (λ u v. do_copy-IsCopied k input f fuel s0 u t v) c (attempts k (prepare s))
            (attempts-IsSound k input f (prepare s) refl) (rw e at h)
    ]
