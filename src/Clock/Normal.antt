-- ===== src/Clock/Normal.antt =====
-- Normal timestamps, and what fix makes of a sum and a difference (src/lib/time.cpp).
use native.Mathlib.Decide.{dec_lt}
use nanodistro.Base.{ℕ, suc, ◌+◌, ◌-◌, ◌/◌, ◌%◌, ◌<◌, true, false, ◌≡◌, refl, sym, arith, subst}
use nanodistro.Base.Int.{ℤ, pos, negsuc, ltb_ℤ, ◌+ℤ◌, ◌-ℤ◌, scale, quot, rem}
use nanodistro.Clock.{Timestamp, billion, fix}

-- The nanoseconds are those of one second.
pub record IsNormal (t : Timestamp) : Type 0 where
  pub part : ℕ
  pub is_part : t.tv_nsec ≡ pos part
  pub below : part < billion

-- The nanoseconds that a timestamp stands for.
unfoldable pub nanos : Timestamp → ℤ
nanos t = scale t.tv_sec billion +ℤ t.tv_nsec

-- the three cases of `fix`
fix-keeps :
    (s : ℤ) (n : ℕ)
    → n < billion
    → fix (record { tv_sec = s; tv_nsec = pos n }) ≡ record { tv_sec = s; tv_nsec = pos n }
unfolding fix
fix-keeps s n h =
    let a : ltb_ℤ (pos n) (pos 0) ≡ false = ground arith in
    let b : ltb_ℤ (pos n) (pos billion) ≡ true = ground arith in rw (a, b)

fix-carries :
    (s : ℤ) (n : ℕ)
    → n < billion
    → fix (record { tv_sec = s; tv_nsec = pos (billion + n) })
      ≡ record { tv_sec = s +ℤ pos 1; tv_nsec = pos n }
unfolding fix quot rem
fix-carries s n h =
    let a : ltb_ℤ (pos (billion + n)) (pos 0) ≡ false = ground arith in
    let b : ltb_ℤ (pos (billion + n)) (pos billion) ≡ false = ground arith in
    let q : (billion + n) / billion ≡ 1 = omega arith in
    let r : (billion + n) % billion ≡ n = omega arith in rw (a, b) (rw (q, r))

fix-borrows :
    (s : ℤ) (n : ℕ)
    → suc n < billion
    → fix (record { tv_sec = s; tv_nsec = negsuc n })
      ≡ record { tv_sec = s -ℤ pos 1; tv_nsec = pos (billion - suc n) }
unfolding fix
fix-borrows s n h =
    let a : ltb_ℤ (negsuc n) (pos 0) ≡ true = ground arith in
    let q : quot (pos billion -ℤ negsuc n) billion ≡ pos 1 = unfold ◌-ℤ◌ quot in ground arith in
    let r : rem (rem (negsuc n) billion +ℤ pos billion) billion ≡ pos (billion - suc n) =
      unfold ◌+ℤ◌ rem in ground arith in
    rw a (rw (q, r))

nanos-carry :
    (s : ℤ) (n : ℕ)
    → nanos (record { tv_sec = s +ℤ pos 1; tv_nsec = pos n })
      ≡ nanos (record { tv_sec = s; tv_nsec = pos (billion + n) })
unfolding nanos scale ◌+ℤ◌
nanos-carry (pos k) n = ground arith
nanos-carry (negsuc k) n = ground arith

nanos-borrow :
    (s : ℤ) (n : ℕ)
    → suc n < billion
    → nanos (record { tv_sec = s -ℤ pos 1; tv_nsec = pos (billion - suc n) })
      ≡ nanos (record { tv_sec = s; tv_nsec = negsuc n })
unfolding nanos scale ◌+ℤ◌ ◌-ℤ◌
nanos-borrow (pos k) n h = ground arith
nanos-borrow (negsuc k) n h = ground arith

-- A property of normal timestamps holds when it holds of their parts.
pub by_parts :
    (P : Timestamp → Type 0)
    → ((s : ℤ) (n : ℕ) → n < billion → P (record { tv_sec = s; tv_nsec = pos n }))
    → (t : Timestamp) → IsNormal t
    → P t
by_parts P h t v =
    subst (λ n. P (record { tv_sec = t.tv_sec; tv_nsec = n })) (sym v.is_part)
      (h t.tv_sec v.part v.below)

pub normal : (s : ℤ) (n : ℕ) → n < billion → IsNormal (record { tv_sec = s; tv_nsec = pos n })
normal s n h = record { part = n; is_part = refl; below = h }

-- `fix` on the nanoseconds that a sum or a difference has.
pub fix-sum :
    (s : ℤ) (n : ℕ)
    → n < billion + billion
    → let t : Timestamp = record { tv_sec = s; tv_nsec = pos n } in
      IsNormal (fix t) × (nanos (fix t) ≡ nanos t)
fix-sum s n h = elim (dec_lt n billion) [
  | yes l ↦ rw (fix-keeps s n l) (normal s n l, refl)
  | no g ↦
      let k : ℕ = n - billion in
      let e : n ≡ billion + k = omega arith in
      let l : k < billion = omega arith in
      rw e (rw (fix-carries s k l) (normal (s +ℤ pos 1) k l, nanos-carry s k))
]

pub fix-difference :
    (s : ℤ) (n : ℕ)
    → suc n < billion
    → let t : Timestamp = record { tv_sec = s; tv_nsec = negsuc n } in
      IsNormal (fix t) × (nanos (fix t) ≡ nanos t)
fix-difference s n h =
    rw (fix-borrows s n h) (normal (s -ℤ pos 1) (billion - suc n) (omega arith), nanos-borrow s n h)
