-- ===== src/Network/Masks.antt =====
-- `ipv4_mask::set_netmask` (src/network/ipv4_mask.cpp) takes the contiguous masks and no others.
use nanodistro.Base.{
  ℕ, zero, suc, ◌+◌, ◌-◌, ◌≤◌, Bool, true, false, List, [], ◌∷◌, ◌++◌, length, replicate, ◌≡◌, ◌↔◌,
  refl, ap, ◌∙◌, arith, ok, subst,
}
use nanodistro.Network.{Ipv4, mask_bits, netmask_loop, set_netmask}

-- p ones, and zeros up to n bits
abbrev pub ones_to : ℕ → ℕ → List Bool
ones_to n p = replicate p true ++ replicate (n - p) false

zeros :
    (bits : List Bool) (n m : ℕ)
    → netmask_loop bits true n ≡ ok m
    → (n ≡ m) × (bits ≡ replicate (length bits) false)
unfolding netmask_loop
zeros [] n m h = (ground arith, refl)
zeros (true ∷ bits) n m h = absurd (ground arith)
zeros (false ∷ bits) n m h = let (a, b) = zeros bits n m h in (a, ap (◌∷◌ false) b)

ones :
    (bits : List Bool) (n m : ℕ)
    → netmask_loop bits false n ≡ ok m
    → (k : ℕ) × (m ≡ n + k) × (k ≤ length bits) × (bits ≡ ones_to (length bits) k)
unfolding netmask_loop
ones [] n m h = (0, ground arith, omega arith, refl)
ones (true ∷ bits) n m h =
    let (k, a, b, c) = ones bits (n + 1) m h in
    let e : suc (length bits) - suc k ≡ length bits - k = omega arith in
    (suc k, omega arith, omega arith, rw e (ap (◌∷◌ true) c))
ones (false ∷ bits) n m h =
    let (a, b) = zeros bits n m h in
    let z : suc (length bits) - 0 ≡ suc (length bits) = omega arith in
    (0, omega arith, omega arith, rw z (ap (◌∷◌ false) b))

loop-zeros : (q n : ℕ) (z : Bool) → netmask_loop (replicate q false) z n ≡ ok n
unfolding netmask_loop
loop-zeros zero n z = refl
loop-zeros (suc q) n z = loop-zeros q n true

loop-ones : (p q n : ℕ) → netmask_loop (replicate p true ++ replicate q false) false n ≡ ok (n + p)
unfolding netmask_loop
loop-ones zero q n = loop-zeros q n false ∙ ap (λ (t : ℕ). ok t) (omega arith)
loop-ones (suc p) q n = loop-ones p q (n + 1) ∙ ap (λ (t : ℕ). ok t) (omega arith)

-- A mask is accepted with a prefix just when its bits are so many ones and then zeros.
pub set_netmask_iff :
    (mask : Ipv4) (p : ℕ) → (set_netmask mask ≡ ok p) ↔ ((p ≤ 32) × (mask_bits mask ≡ ones_to 32 p))
unfolding set_netmask mask_bits
set_netmask_iff mask p = (
  λ h.
      let (k, a, b, c) = ones (mask_bits mask) 0 p h in
      let e : k ≡ p = omega arith in
      subst (λ t. (t ≤ 32) × (mask_bits mask ≡ ones_to 32 t)) e (b, c),
  λ h.
      ap (λ (t : List Bool). netmask_loop t false 0) h.1
      ∙ loop-ones p (32 - p) 0
      ∙ ap (λ (t : ℕ). ok t) (omega arith),
)
