-- ===== src/Clock/Nanos.antt =====
-- Arithmetic and order of timestamps (src/lib/time.cpp) are those of nanoseconds.
use native.Mathlib.Decide.{dec_lt}
use nanodistro.Base.{ℕ, ◌+◌, ◌-◌, ◌<◌, not, ◌≡◌, sym, ap, ◌∙◌, arith}
use nanodistro.Base.Int.{
  ℤ, pos, negsuc, ltb_ℤ, eqb_ℤ, ◌+ℤ◌, ◌-ℤ◌, scale, +ℤ_parts, -ℤ_parts, scale_parts, eq_of_parts,
}
use nanodistro.Clock.{Timestamp, billion, add, sub, holds, less, at_most, equal}
use nanodistro.Clock.Normal.{IsNormal, nanos, by_parts, fix-sum, fix-difference}

nanos-sum :
    (s t : ℤ) (p q : ℕ)
    → nanos (record { tv_sec = s +ℤ t; tv_nsec = pos p +ℤ pos q })
      ≡ nanos (record { tv_sec = s; tv_nsec = pos p })
        +ℤ nanos (record { tv_sec = t; tv_nsec = pos q })
unfolding nanos
nanos-sum s t p q = eq_of_parts _ _ (
    omega (
      arith,
      +ℤ_parts s t,
      +ℤ_parts (pos p) (pos q),
      scale_parts (s +ℤ t) billion,
      scale_parts s billion,
      scale_parts t billion,
      +ℤ_parts (scale (s +ℤ t) billion) (pos p +ℤ pos q),
      +ℤ_parts (scale s billion) (pos p),
      +ℤ_parts (scale t billion) (pos q),
      +ℤ_parts (scale s billion +ℤ pos p) (scale t billion +ℤ pos q),
    ))

nanos-difference :
    (s t : ℤ) (p q : ℕ)
    → nanos (record { tv_sec = s -ℤ t; tv_nsec = pos p -ℤ pos q })
      ≡ nanos (record { tv_sec = s; tv_nsec = pos p })
        -ℤ nanos (record { tv_sec = t; tv_nsec = pos q })
unfolding nanos
nanos-difference s t p q = eq_of_parts _ _ (
    omega (
      arith,
      -ℤ_parts s t,
      -ℤ_parts (pos p) (pos q),
      scale_parts (s -ℤ t) billion,
      scale_parts s billion,
      scale_parts t billion,
      +ℤ_parts (scale (s -ℤ t) billion) (pos p -ℤ pos q),
      +ℤ_parts (scale s billion) (pos p),
      +ℤ_parts (scale t billion) (pos q),
      -ℤ_parts (scale s billion +ℤ pos p) (scale t billion +ℤ pos q),
    ))

abbrev AddsUp : Timestamp → Timestamp → Type 0
AddsUp a b = IsNormal (add a b) × (nanos (add a b) ≡ nanos a +ℤ nanos b)

abbrev Subtracts : Timestamp → Timestamp → Type 0
Subtracts a b = IsNormal (sub a b) × (nanos (sub a b) ≡ nanos a -ℤ nanos b)

add-parts :
    (s t : ℤ) (p q : ℕ)
    → p < billion
    → q < billion
    → AddsUp (record { tv_sec = s; tv_nsec = pos p }) (record { tv_sec = t; tv_nsec = pos q })
unfolding add
add-parts s t p q lp lq =
    let n : pos p +ℤ pos q ≡ pos (p + q) = unfold ◌+ℤ◌ in ground arith in
    let (a, b) = fix-sum (s +ℤ t) (p + q) (omega arith) in
    rw n (
      a,
      b
          ∙ sym (ap (λ (x : ℤ). nanos (record { tv_sec = s +ℤ t; tv_nsec = x })) n)
          ∙ nanos-sum s t p q,
    )

sub-parts :
    (s t : ℤ) (p q : ℕ)
    → p < billion
    → q < billion
    → Subtracts (record { tv_sec = s; tv_nsec = pos p }) (record { tv_sec = t; tv_nsec = pos q })
unfolding sub
sub-parts s t p q lp lq = elim (dec_lt p q) [
  | no g ↦
      let n : pos p -ℤ pos q ≡ pos (p - q) = unfold ◌-ℤ◌ in ground arith in
      let (a, b) = fix-sum (s -ℤ t) (p - q) (omega arith) in
      rw n (
        a,
        b
            ∙ sym (ap (λ (x : ℤ). nanos (record { tv_sec = s -ℤ t; tv_nsec = x })) n)
            ∙ nanos-difference s t p q,
      )
  | yes l ↦
      let n : pos p -ℤ pos q ≡ negsuc (q - p - 1) = unfold ◌-ℤ◌ in ground arith in
      let (a, b) = fix-difference (s -ℤ t) (q - p - 1) (omega arith) in
      rw n (
        a,
        b
            ∙ sym (ap (λ (x : ℤ). nanos (record { tv_sec = s -ℤ t; tv_nsec = x })) n)
            ∙ nanos-difference s t p q,
      )
]

-- Two normal timestamps, by their parts.
by_parts_both :
    (P : Timestamp → Timestamp → Type 0)
    → ((s t : ℤ) (p q : ℕ)
        → p < billion
        → q < billion
        → P (record { tv_sec = s; tv_nsec = pos p }) (record { tv_sec = t; tv_nsec = pos q }))
    → (a b : Timestamp) → IsNormal a
    → IsNormal b
    → P a b
by_parts_both P h a b va vb =
    by_parts (λ x. P x b)
      (λ s p lp.
        by_parts (λ y. P (record { tv_sec = s; tv_nsec = pos p }) y) (λ t q lq. h s t p q lp lq) b
          vb)
      a va

-- The sum and the difference of two normal timestamps are normal, and stand for the sum and the
-- difference of the nanoseconds.
pub add-sub-nanos :
    (a b : Timestamp)
    → IsNormal a
    → IsNormal b
    → (IsNormal (add a b) × (nanos (add a b) ≡ nanos a +ℤ nanos b))
      × (IsNormal (sub a b) × (nanos (sub a b) ≡ nanos a -ℤ nanos b))
add-sub-nanos a b va vb =
    (by_parts_both AddsUp add-parts a b va vb, by_parts_both Subtracts sub-parts a b va vb)

abbrev Agree : Timestamp → Timestamp → Type 0
Agree a b =
    (holds less a b ≡ ltb_ℤ (nanos a) (nanos b))
    × (holds at_most a b ≡ not (ltb_ℤ (nanos b) (nanos a)))
    × (holds equal a b ≡ eqb_ℤ (nanos a) (nanos b))

holds-parts :
    (s t : ℤ) (p q : ℕ)
    → p < billion
    → q < billion
    → Agree (record { tv_sec = s; tv_nsec = pos p }) (record { tv_sec = t; tv_nsec = pos q })
unfolding holds nanos
holds-parts s t p q lp lq = (
  ground (
    arith,
    scale_parts s billion,
    scale_parts t billion,
    +ℤ_parts (scale s billion) (pos p),
    +ℤ_parts (scale t billion) (pos q),
  ),
  ground (
    arith,
    scale_parts s billion,
    scale_parts t billion,
    +ℤ_parts (scale s billion) (pos p),
    +ℤ_parts (scale t billion) (pos q),
  ),
  ground (
    arith,
    scale_parts s billion,
    scale_parts t billion,
    +ℤ_parts (scale s billion) (pos p),
    +ℤ_parts (scale t billion) (pos q),
  ),
)

-- On normal timestamps the comparisons are those of the nanoseconds.
pub holds-nanos :
    (a b : Timestamp)
    → IsNormal a
    → IsNormal b
    → (holds less a b ≡ ltb_ℤ (nanos a) (nanos b))
      × (holds at_most a b ≡ not (ltb_ℤ (nanos b) (nanos a)))
      × (holds equal a b ≡ eqb_ℤ (nanos a) (nanos b))
holds-nanos = by_parts_both Agree holds-parts
