-- ===== src/Base/Bits.antt =====
-- Bitwise operations on machine words at variables: the lowest binary digit of a conjunction, and
-- masks of the form 2 ^ (k + m) - 2 ^ k, which clear the k low digits.
use Prim.Native.Nat.{
  ℕ, zero, suc, ◌+◌, ◌-◌, ◌*◌, ◌/◌, ◌%◌, ◌^◌, ◌≤◌, ◌<◌, min, bit_and, digits, bit_and-bitwise,
}
use mathlib.Core.Path.{◌≡◌, refl, sym, ◌∙◌, ap, ◌≡⟨◌⟩◌, ◌∎}
use native.Mathlib.Nat.{
  pow-suc, pow-zero, div-div-eq-div-mul, div-one, one-le-pow, mul_comm, mul_assoc, mul-one,
  div-lt_iff_lt-mul,
}
use native.Mathlib.Omega.{arith}

-- The recursion of the conjunction, with its fuel shown.
abbrev conj : ℕ → ℕ → ℕ → ℕ
conj f a b = digits (λ d. zero) min f a b

-- Two amounts of fuel that both cover the first argument give one result.
conj_fuel : (f g a b : ℕ) → a ≤ f → a ≤ g → conj f a b ≡ conj g a b
conj_fuel zero zero a b u v = refl
conj_fuel (suc f) zero zero b u v = refl
conj_fuel (suc f) zero (suc a) b u v = absurd (omega arith)
conj_fuel zero (suc g) zero b u v = refl
conj_fuel zero (suc g) (suc a) b u v = absurd (omega arith)
conj_fuel (suc f) (suc g) zero b u v = refl
conj_fuel (suc f) (suc g) (suc a) b u v =
    let rest : conj f (suc a / 2) (b / 2) ≡ conj g (suc a / 2) (b / 2) =
      conj_fuel f g (suc a / 2) (b / 2) (omega arith) (omega arith) in
    omega (arith, rest)

bit_and_zero_left : (b : ℕ) → bit_and 0 b ≡ 0
bit_and_zero_left b = bit_and-bitwise 0 b

-- The lowest binary digit of a conjunction, and the others.
pub bit_and_digit : (a b : ℕ) → bit_and a b ≡ bit_and (a / 2) (b / 2) * 2 + min (a % 2) (b % 2)
bit_and_digit zero b = omega (arith, bit_and_zero_left b, bit_and_zero_left (b / 2))
bit_and_digit (suc a) b =
    let whole : bit_and (suc a) b ≡ conj (suc a) (suc a) b = bit_and-bitwise (suc a) b in
    let half : bit_and (suc a / 2) (b / 2) ≡ conj (suc a / 2) (suc a / 2) (b / 2) =
      bit_and-bitwise (suc a / 2) (b / 2) in
    let same : conj a (suc a / 2) (b / 2) ≡ conj (suc a / 2) (suc a / 2) (b / 2) =
      conj_fuel a (suc a / 2) (suc a / 2) (b / 2) (omega arith) (omega arith) in
    omega (arith, whole, half, same)

-- A mask of m ones keeps a number of m digits.
pub bit_and_ones : (m x : ℕ) → x < 2 ^ m → bit_and x (2 ^ m - 1) ≡ x
bit_and_ones zero x h =
    let z : x ≡ 0 = omega (arith, pow-zero 2) in rw z (bit_and_zero_left (2 ^ 0 - 1))
bit_and_ones (suc m) x h =
    let p : 2 ^ suc m ≡ 2 ^ m * 2 = pow-suc 2 m in
    let one : 1 ≤ 2 ^ m = one-le-pow m 2 (omega arith) in
    let half : (2 ^ suc m - 1) / 2 ≡ 2 ^ m - 1 = omega arith in
    let ih : bit_and (x / 2) (2 ^ m - 1) ≡ x / 2 = bit_and_ones m (x / 2) (omega arith) in
    let step : bit_and x (2 ^ suc m - 1)
        ≡ bit_and (x / 2) ((2 ^ suc m - 1) / 2) * 2 + min (x % 2) ((2 ^ suc m - 1) % 2) =
      bit_and_digit x (2 ^ suc m - 1) in
    let step' : bit_and x (2 ^ suc m - 1)
        ≡ bit_and (x / 2) (2 ^ m - 1) * 2 + min (x % 2) ((2 ^ suc m - 1) % 2) =
      step ∙ ap (λ (t : ℕ). bit_and (x / 2) t * 2 + min (x % 2) ((2 ^ suc m - 1) % 2)) half in
    omega arith

-- A mask whose k low digits are zero clears those digits.
bit_and_high : (k x c : ℕ) → bit_and x (c * 2 ^ k) ≡ bit_and (x / 2 ^ k) c * 2 ^ k
bit_and_high zero x c =
    rw (pow-zero 2, div-one x)
      (ap (λ (t : ℕ). bit_and x t) (mul-one c) ∙ sym (mul-one (bit_and x c)))
bit_and_high (suc k) x c =
    let e : c * 2 ^ suc k ≡ c * 2 ^ k * 2 =
      ap (λ (t : ℕ). c * t) (pow-suc 2 k) ∙ sym (mul_assoc c (2 ^ k) 2) in
    let d : x / 2 / 2 ^ k ≡ x / 2 ^ suc k =
      div-div-eq-div-mul x 2 (2 ^ k)
      ∙ ap (λ (t : ℕ). x / t) (mul_comm 2 (2 ^ k) ∙ sym (pow-suc 2 k)) in
    let half : c * 2 ^ k * 2 / 2 ≡ c * 2 ^ k = omega arith in
    let ih : bit_and (x / 2) (c * 2 ^ k) ≡ bit_and (x / 2 / 2 ^ k) c * 2 ^ k =
      bit_and_high k (x / 2) c in
    let step : bit_and x (c * 2 ^ k * 2)
        ≡ bit_and (x / 2) (c * 2 ^ k * 2 / 2) * 2 + min (x % 2) (c * 2 ^ k * 2 % 2) =
      bit_and_digit x (c * 2 ^ k * 2) in
    let m : min (x % 2) (c * 2 ^ k * 2 % 2) ≡ 0 = omega arith in
    bit_and x (c * 2 ^ suc k)
    ≡⟨ ap (λ (t : ℕ). bit_and x t) e ⟩ bit_and x (c * 2 ^ k * 2)
    ≡⟨ step ⟩ bit_and (x / 2) (c * 2 ^ k * 2 / 2) * 2 + min (x % 2) (c * 2 ^ k * 2 % 2)
    ≡⟨ ap (λ (t : ℕ). bit_and (x / 2) t * 2 + min (x % 2) (c * 2 ^ k * 2 % 2)) half ⟩
      bit_and (x / 2) (c * 2 ^ k) * 2 + min (x % 2) (c * 2 ^ k * 2 % 2)
    ≡⟨ omega (arith, m, ap (λ (t : ℕ). t * 2) ih) ⟩ bit_and (x / 2 / 2 ^ k) c * 2 ^ k * 2
    ≡⟨ ap (λ (t : ℕ). bit_and t c * 2 ^ k * 2) d ⟩ bit_and (x / 2 ^ suc k) c * 2 ^ k * 2
    ≡⟨ mul_assoc (bit_and (x / 2 ^ suc k) c) (2 ^ k) 2
      ∙ ap (λ (t : ℕ). bit_and (x / 2 ^ suc k) c * t) (sym (pow-suc 2 k)) ⟩
      bit_and (x / 2 ^ suc k) c * 2 ^ suc k ∎

-- `x & ~(2 ^ k - 1)` on a word of k + m bits rounds down to a multiple of 2 ^ k.
pub bit_and_clear :
    (k m x : ℕ) → x < 2 ^ m * 2 ^ k → bit_and x ((2 ^ m - 1) * 2 ^ k) ≡ x / 2 ^ k * 2 ^ k
bit_and_clear k m x h =
    bit_and_high k x (2 ^ m - 1)
    ∙ ap (λ (t : ℕ). t * 2 ^ k)
        (bit_and_ones m (x / 2 ^ k) ((div-lt_iff_lt-mul (one-le-pow k 2 (omega arith))).1 h))
