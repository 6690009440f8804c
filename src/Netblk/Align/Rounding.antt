-- ===== src/Netblk/Align/Rounding.antt =====
-- At a power of two the two macros round to multiples.
use native.Mathlib.Nat.{pow-suc, pow-zero, one-le-pow, mul_assoc, mul-one, div-eq_of_lt, zero-mul}
use Prim.Native.Nat.{bit_and}
use nanodistro.Base.{
  ℕ, zero, suc, ◌+◌, ◌-◌, ◌*◌, ◌/◌, ◌%◌, ◌^◌, ◌≤◌, ◌<◌, ◌≡◌, sym, ap, ◌∙◌, arith, subst,
}
use nanodistro.Base.Bits.{bit_and_clear}
use nanodistro.Netblk.Align.{u64, not64, align_up, align_down}

-- A power of two that a 64-bit word holds.
pub record IsPow2 (s : ℕ) : Type 0 where
  pub log : ℕ
  pub is_pow : s ≡ 2 ^ log
  pub fits : log < 64

pub pow_split : (k m : ℕ) → 2 ^ (k + m) ≡ 2 ^ m * 2 ^ k
pow_split zero m =
    let e : 0 + m ≡ m = omega arith in
    ap (λ (t : ℕ). 2 ^ t) e ∙ sym (mul-one (2 ^ m)) ∙ ap (λ (t : ℕ). 2 ^ m * t) (sym (pow-zero 2))
pow_split (suc k) m =
    let e : suc k + m ≡ suc (k + m) = omega arith in
    let ih : 2 ^ (k + m) ≡ 2 ^ m * 2 ^ k = pow_split k m in
    ap (λ (t : ℕ). 2 ^ t) e
    ∙ pow-suc 2 (k + m)
    ∙ ap (λ (t : ℕ). t * 2) ih
    ∙ mul_assoc (2 ^ m) (2 ^ k) 2
    ∙ ap (λ (t : ℕ). 2 ^ m * t) (sym (pow-suc 2 k))

module _ {s : ℕ} (p : IsPow2 s) where
  pub IsPow2-pos : 1 ≤ s
  IsPow2-pos = rw p.is_pow (one-le-pow p.log 2 (omega arith))

  pub word_multiple : 2 ^ 64 ≡ 2 ^ (64 - p.log) * s
  word_multiple =
      let e : p.log + (64 - p.log) ≡ 64 = omega (arith, p.fits) in
      ap (λ (t : ℕ). 2 ^ t) (sym e)
      ∙ pow_split p.log (64 - p.log)
      ∙ ap (λ (t : ℕ). 2 ^ (64 - p.log) * t) (sym p.is_pow)

  pub IsPow2-le-word : s ≤ 2 ^ 64
  IsPow2-le-word =
      let one : 1 ≤ 2 ^ (64 - p.log) = one-le-pow (64 - p.log) 2 (omega arith) in
      let pre : 2 ^ (64 - p.log) ≡ suc (2 ^ (64 - p.log) - 1) = omega arith in
      let m : 2 ^ 64 ≡ (1 + (2 ^ (64 - p.log) - 1)) * s =
        word_multiple ∙ ap (λ (t : ℕ). t * s) (pre ∙ omega arith) in
      omega arith

  mask_value : 2 ^ 64 - 1 - (s + 2 ^ 64 - 1) % 2 ^ 64 ≡ (2 ^ (64 - p.log) - 1) * 2 ^ p.log
  mask_value =
      let one : 1 ≤ 2 ^ (64 - p.log) = one-le-pow (64 - p.log) 2 (omega arith) in
      let pre : 2 ^ (64 - p.log) ≡ 1 + (2 ^ (64 - p.log) - 1) = omega arith in
      let m : 2 ^ 64 ≡ (1 + (2 ^ (64 - p.log) - 1)) * s =
        word_multiple ∙ ap (λ (t : ℕ). t * s) pre in
      let e : 2 ^ 64 - 1 - (s + 2 ^ 64 - 1) % 2 ^ 64 ≡ (2 ^ (64 - p.log) - 1) * s =
        omega (arith, IsPow2-pos) in
      e ∙ ap (λ (t : ℕ). (2 ^ (64 - p.log) - 1) * t) p.is_pow

  clear_low : (x : ℕ) → x < 2 ^ 64 → bit_and x (not64 (u64 (s + 2 ^ 64 - 1))) ≡ x / s * s
  clear_low x h =
      let w : 2 ^ 64 ≡ 2 ^ (64 - p.log) * 2 ^ p.log =
        word_multiple ∙ ap (λ (t : ℕ). 2 ^ (64 - p.log) * t) p.is_pow in
      ap (λ (t : ℕ). bit_and x t) mask_value
      ∙ bit_and_clear p.log (64 - p.log) x (subst (λ (t : ℕ). x < t) w h)
      ∙ ap (λ (t : ℕ). x / t * t) (sym p.is_pow)

  -- `x & ~(s - 1)`
  pub align_down-rounds : (x : ℕ) → x < 2 ^ 64 → align_down x s ≡ x / s * s
  unfolding align_down
  align_down-rounds x h = clear_low x h

  pub align_up-rounds : (x : ℕ) → x + s ≤ 2 ^ 64 → align_up x s ≡ (x + s - 1) / s * s
  unfolding align_up
  align_up-rounds x h =
      let e : u64 (x + s + 2 ^ 64 - 1) ≡ x + s - 1 = omega (arith, IsPow2-pos) in
      ap (λ (t : ℕ). bit_and t (not64 (u64 (s + 2 ^ 64 - 1)))) e
      ∙ clear_low (x + s - 1) (omega (arith, IsPow2-pos))

  -- Past the end of the word the sum wraps round to less than one multiple.
  pub align_up_wraps : (x : ℕ) → x < 2 ^ 64 → 2 ^ 64 < x + s → align_up x s ≡ 0
  unfolding align_up
  align_up_wraps x h k =
      let e : u64 (x + s + 2 ^ 64 - 1) ≡ x + s - 1 - 2 ^ 64 =
        omega (arith, IsPow2-pos, IsPow2-le-word) in
      ap (λ (t : ℕ). bit_and t (not64 (u64 (s + 2 ^ 64 - 1)))) e
      ∙ clear_low (x + s - 1 - 2 ^ 64) (omega (arith, IsPow2-le-word))
      ∙ ap (λ (t : ℕ). t * s) (div-eq_of_lt (omega (arith, IsPow2-pos)))
      ∙ zero-mul s
