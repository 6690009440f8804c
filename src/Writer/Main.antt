-- ===== src/Writer/Main.antt =====
-- `helper write` as a whole and the percentage it reports (src/helper/cmd_write.cpp).
use nanodistro.Base.{
  ℕ, suc, ◌+◌, ◌≡◌, refl, sym, ap, ◌∙◌, subst, false, not, Bool-cases, inl, inr, ◌==◌, ltb, leb,
  ◌&&◌, if◌then◌else◌, Result, ok, throw, ◌>>=◌, runtime_error, List, Bytes, arith, ok_injective,
  >>=-ok,
}
use nanodistro.Base.Int.{ℤ, pos, ltb_ℤ, ◌+ℤ◌, ◌-ℤ◌, scale, quot}
use nanodistro.Clock.{Timestamp}
use nanodistro.Writer.{File, Kernel, CopyContext, Point, do_copy}
use nanodistro.Writer.Options.{
  Options, System, default_options, load_options, valid_options, open_device,
}
use nanodistro.Writer.Faithful.{IsFaithful, spliced}
use nanodistro.Writer.Copied.{IsCopied, do_copy-IsCopied}

-- `std::clamp`
abbrev pub clamp : ℤ → ℤ → ℤ → ℤ
clamp v lo hi = if ltb_ℤ v lo then lo else if ltb_ℤ hi v then hi else v

-- The percentage that `report_main` reports.
unfoldable pub real_percent : ℤ → ℤ → ℕ → ℤ
real_percent start end percent =
    clamp (start +ℤ quot (scale (end -ℤ start) percent) 100) (pos 0) (pos 100)

-- the copy that `helper_write_main` sets up
unfoldable pub start_copy : Options → File → Timestamp → CopyContext
start_copy opts out start =
    let none : Point = record { written = 0; time = record { tv_sec = pos 0; tv_nsec = pos 0 } } in
    record {
      block_size = opts.block_size;
      input_offset = opts.input_offset;
      output_offset = opts.output_offset;
      sync = opts.force_sync;
      use_copy_file_range = false;
      use_sendfile = false;
      stat = record {
        total = opts.length;
        elast = none;
        clast = none;
        cur = record { written = 0; time = start };
        progress = record { percent = 0; bytes = 0; speed = 0; passed = none.time };
      };
      to_copy = 0;
      written_cur = 0;
      off_in = 0;
      off_out = 0;
      buff = false;
      buff_size = 0;
      out = out;
      calls = 0;
      syncs = 0;
    }

-- `fsync` once more, and the test on what was written
unfoldable pub finish_copy : CopyContext → Result CopyContext
finish_copy c =
    if not (c.stat.cur.written == c.stat.total)
    then throw runtime_error
    else ok (record c { syncs = suc c.syncs })

abbrev pub with_options : Options → CopyContext → Result (Options × CopyContext)
with_options opts c = ok (opts, c)

-- The command from the options on; the output file is the one that the name opens.
unfoldable pub helper_write :
    System
    → Kernel
    → ℕ
    → List (ℕ × Bytes)
    → (Bytes → File)
    → Timestamp
    → Result (Options × CopyContext)
unfolding load_options valid_options open_device start_copy do_copy finish_copy
helper_write sys k fuel args contents start = load_options args default_options >>= λ opts.
    valid_options opts >>= λ opts. open_device sys opts >>= λ opts.
    do_copy k fuel (start_copy opts (contents opts.output_device) start) >>= λ c.
    finish_copy c >>= λ c. with_options opts c

pub start-IsCopied :
    (input : File) (opts : Options) (out : File) (now : Timestamp)
    → IsCopied input (start_copy opts out now) (start_copy opts out now)
unfolding start_copy
start-IsCopied input opts out now = record {
  same_input = refl;
  same_output = refl;
  same_total = refl;
  within = omega arith;
  copied = λ j. none opts.input_offset opts.output_offset j;
}
  where
    none : (i o j : ℕ) → out j ≡ spliced input i o 0 out j
    none i o j = let e : (leb o j && ltb j (o + 0)) ≡ false = ground arith in rw e refl

finish_copy-full :
    (c d : CopyContext)
    → finish_copy c ≡ ok d
    → (d.out ≡ c.out) × (c.stat.cur.written ≡ c.stat.total)
unfolding finish_copy
finish_copy-full c d h = elim (Bool-cases (c.stat.cur.written == c.stat.total)) [
  | inl e ↦ (ap (λ (x : CopyContext). x.out) (sym (ok_injective (rw e at h))), ground (arith, e))
  | inr e ↦ absurd (throw_not_ok (rw e at h))
]
  where
    throw_not_ok : throw runtime_error ≡ ok d → ⊥
    throw_not_ok h = ground (arith, h)

-- The copy and the test behind it.
copy-copies :
    (k : Kernel) (input : File) (fuel : ℕ) (contents : Bytes → File) (start : Timestamp)
    (device opts : Options) (c : CopyContext)
    → IsFaithful k input
    → (do_copy k fuel (start_copy device (contents device.output_device) start) >>= λ c.
        finish_copy c >>= λ c. with_options device c)
      ≡ ok (opts, c)
    → (j : ℕ)
    → c.out j
      ≡ spliced input opts.input_offset opts.output_offset opts.length
          (contents opts.output_device)
          j
unfolding start_copy
copy-copies k input fuel contents start device opts c f h j =
    let out : File = contents device.output_device in
    let s0 : CopyContext = start_copy device out start in
    let (copied, e, h4) = >>=-ok (do_copy k fuel s0) _ (opts, c) h in
    let (last, g, h5) = >>=-ok (finish_copy copied) _ (opts, c) h4 in
    let v : IsCopied input s0 copied =
      do_copy-IsCopied k input f fuel s0 s0 copied (start-IsCopied input device out start) e in
    let (same, full) = finish_copy-full copied last g in
    let both : (device, last) ≡ (opts, c) = ok_injective h5 in
    let end : last.out j
        ≡ spliced input device.input_offset device.output_offset device.length out j =
      ap (λ (o : File). o j) same
      ∙ v.copied j
      ∙ ap (λ (n : ℕ). spliced input device.input_offset device.output_offset n out j)
          (full ∙ v.same_total) in
    subst
      (λ (x : Options × CopyContext).
        x.1.out j
        ≡ spliced input x.0.input_offset x.0.output_offset x.0.length (contents x.0.output_device)
            j)
      both end

-- On a faithful kernel, a `helper write` that succeeds has written all of the bytes that it was to write: with the options
-- as `open_device` has left them, the device holds `length` bytes of the input from `input_offset` on
-- at `output_offset`, and every other byte of it is as it was.
pub helper_write-copies :
    (sys : System) (k : Kernel) (input : File) (fuel : ℕ) (args : List (ℕ × Bytes))
    (contents : Bytes → File) (start : Timestamp) (opts : Options) (c : CopyContext)
    → IsFaithful k input
    → helper_write sys k fuel args contents start ≡ ok (opts, c)
    → (j : ℕ)
    → c.out j
      ≡ spliced input opts.input_offset opts.output_offset opts.length
          (contents opts.output_device)
          j
unfolding helper_write
helper_write-copies sys k input fuel args contents start opts c f h j =
    let (loaded, a, h1) = >>=-ok (load_options args default_options) _ (opts, c) h in
    let (valid, b, h2) = >>=-ok (valid_options loaded) _ (opts, c) h1 in
    let (device, d, h3) = >>=-ok (open_device sys valid) _ (opts, c) h2 in
    copy-copies k input fuel contents start device opts c f h3 j
