-- ===== src/Netblk/Align/Coverage.antt =====
-- Which bytes the sectors of `size_to_sector` cover.
use native.Mathlib.Nat.{
  div-eq_of_lt-le, add-mul-mod_self_right, mod-eq_of_lt, one-le-pow, one-mul, zero-div,
  div-add-mod', mod-lt, mul-div_cancel,
}
use native.Mathlib.Decide.{dec_lt}
use nanodistro.Base.{
  ℕ, ◌+◌, ◌-◌, ◌*◌, ◌/◌, ◌%◌, ◌^◌, ◌≤◌, ◌<◌, ◌≡◌, sym, ap, ◌∙◌, arith, inl, inr, false, ◌==◌,
  Bool-cases, ==_iff,
}
use nanodistro.Netblk.Align.{
  u64, align_up, align_down, move_to_boundary, round_size, size_to_sector,
}
use nanodistro.Netblk.Align.Rounding.{
  IsPow2, IsPow2-pos, IsPow2-le-word, word_multiple, align_up-rounds, align_up_wraps,
  align_down-rounds,
}

-- The least number of sectors that hold so many bytes.
abbrev pub sectors_for : ℕ → ℕ → ℕ
sectors_for n s = (n + s - 1) / s

module _ {s : ℕ} (p : IsPow2 s) where
  -- A quotient is pinned down by its multiple.
  pub quotient : (q m : ℕ) → q * s ≤ m → m < q * s + s → m / s ≡ q
  quotient q m lo hi = div-eq_of_lt-le s lo (omega (arith, one-mul s))

  of_multiple : (n : ℕ) → n % s ≡ 0 → n / s * s ≡ n
  of_multiple n e = omega (arith, div-add-mod' n s)

  round_size-sectors : (n : ℕ) → n + s ≤ 2 ^ 64 → round_size n s / s ≡ sectors_for n s
  unfolding round_size
  round_size-sectors n h = elim (Bool-cases (n % s == 0)) [
    | inl e ↦ rw e (
        sym (
          quotient (n / s) (n + s - 1)
            (omega (arith, of_multiple n ((==_iff (n % s) 0).0 e), IsPow2-pos p))
            (omega (arith, of_multiple n ((==_iff (n % s) 0).0 e), IsPow2-pos p))))
    | inr e ↦ rw (e, align_up-rounds p n h) (mul-div_cancel (sectors_for n s) (IsPow2-pos p))
  ]

  -- An aligned offset: the sectors are those that the bytes need.
  pub size_to_sector_aligned :
      (offset size : ℕ)
      → offset % s ≡ 0
      → size + s ≤ 2 ^ 64
      → size_to_sector offset size s ≡ (offset / s, sectors_for size s)
  unfolding size_to_sector
  size_to_sector_aligned offset size a h =
      let m : move_to_boundary offset size s ≡ (offset, size) =
        unfold move_to_boundary in ground arith in
      rw m (rw (round_size-sectors size h))

  boundary_unaligned :
      (offset size : ℕ)
      → 0 < offset % s
      → offset < 2 ^ 64
      → move_to_boundary offset size s ≡ (offset / s * s, u64 (size + (2 ^ 64 - offset % s)))
  unfolding move_to_boundary
  boundary_unaligned offset size a c =
      let d : align_down offset s ≡ offset / s * s = align_down-rounds p offset c in
      let e : size + offset / s * s + 2 ^ 64 - offset ≡ size + (2 ^ 64 - offset % s) =
        omega (arith, div-add-mod' offset s) in
      ground (arith, ap (λ (t : ℕ). u64 t) e)

  -- An unaligned offset: the size goes down by the distance to the boundary, where it should go up.
  pub size_to_sector_unaligned :
      (offset size : ℕ)
      → 0 < offset % s
      → offset % s ≤ size
      → offset < 2 ^ 64
      → size + s ≤ 2 ^ 64
      → size_to_sector offset size s ≡ (offset / s, sectors_for (size - offset % s) s)
  unfolding size_to_sector
  size_to_sector_unaligned offset size a b c h =
      let e : u64 (size + (2 ^ 64 - offset % s)) ≡ size - offset % s =
        omega (arith, mod-lt offset (IsPow2-pos p), IsPow2-le-word p, IsPow2-pos p) in
      rw (boundary_unaligned offset size a c) (
        rw (
          e,
          round_size-sectors (size - offset % s) (omega arith),
          mul-div_cancel (offset / s) (IsPow2-pos p),
        ))

  rest_of_short : (r size : ℕ) → r < s → size < r → (size + (2 ^ 64 - r)) % s ≡ s - (r - size)
  rest_of_short r size lt a =
      let one : 1 ≤ 2 ^ (64 - p.log) = one-le-pow (64 - p.log) 2 (omega arith) in
      let pre : 2 ^ (64 - p.log) ≡ 1 + (2 ^ (64 - p.log) - 1) = omega arith in
      let m : 2 ^ 64 ≡ (1 + (2 ^ (64 - p.log) - 1)) * s =
        word_multiple p ∙ ap (λ (t : ℕ). t * s) pre in
      let e : size + (2 ^ 64 - r) ≡ s - (r - size) + (2 ^ (64 - p.log) - 1) * s = omega arith in
      ap (λ (t : ℕ). t % s) e
      ∙ add-mul-mod_self_right (s - (r - size)) (2 ^ (64 - p.log) - 1) s
      ∙ mod-eq_of_lt (omega arith)

  -- Where the size is less than that distance, it wraps round, and no sector is selected.
  pub size_to_sector_short :
      (offset size : ℕ)
      → size < offset % s
      → offset < 2 ^ 64
      → size_to_sector offset size s ≡ (offset / s, 0)
  unfolding size_to_sector
  size_to_sector_short offset size a c =
      let n : ℕ = size + (2 ^ 64 - offset % s) in
      let lt : offset % s < s = mod-lt offset (IsPow2-pos p) in
      let fits : u64 (size + (2 ^ 64 - offset % s)) ≡ n = omega (arith, IsPow2-le-word p) in
      let up : align_up n s ≡ 0 =
        align_up_wraps p n (omega (arith, IsPow2-le-word p)) (omega (arith, IsPow2-le-word p)) in
      let away : (n % s == 0) ≡ false = ground (arith, rest_of_short (offset % s) size lt a) in
      rw (boundary_unaligned offset size (omega arith) c)
        (rw (fits, round_size, away, up, mul-div_cancel (offset / s) (IsPow2-pos p), zero-div s))

  pub sectors_for-bounds : (n : ℕ) → (n ≤ sectors_for n s * s) × (sectors_for n s * s < n + s)
  sectors_for-bounds n =
      let d : (n + s - 1) / s * s + (n + s - 1) % s ≡ n + s - 1 = div-add-mod' (n + s - 1) s in
      let m : (n + s - 1) % s < s = mod-lt (n + s - 1) (IsPow2-pos p) in
      (omega (arith, IsPow2-pos p), omega (arith, IsPow2-pos p))

  -- For a sector size that is a power of two, and a size that is with one sector at most 2 ^ 64: at
  -- an aligned offset the selected sectors start at the offset, hold every byte of the range,
  -- and end less than one sector behind it.
  pub size_to_sector-covers :
      (offset size : ℕ)
      → offset % s ≡ 0
      → size + s ≤ 2 ^ 64
      → ((size_to_sector offset size s).0 * s ≡ offset)
        × (offset + size
            ≤ (size_to_sector offset size s).0 * s + (size_to_sector offset size s).1 * s)
        × ((size_to_sector offset size s).0 * s + (size_to_sector offset size s).1 * s
            < offset + size + s)
  size_to_sector-covers offset size a h =
      let b : (size ≤ sectors_for size s * s) × (sectors_for size s * s < size + s) =
        sectors_for-bounds size in
      rw (size_to_sector_aligned offset size a h) (
        of_multiple offset a,
        omega (arith, of_multiple offset a),
        omega (arith, of_multiple offset a),
      )

  -- For a sector size that is a power of two, and a size that is not zero and with one sector at most
  -- 2 ^ 64: at an offset, a word, that lies in the second half of a sector, the selected sectors end
  -- before the range does, whatever its size. The last byte that is asked for is in none of them.
  pub size_to_sector-misses :
      (offset size : ℕ)
      → 0 < size
      → s ≤ 2 * (offset % s)
      → offset < 2 ^ 64
      → size + s ≤ 2 ^ 64
      → (size_to_sector offset size s).0 * s + (size_to_sector offset size s).1 * s < offset + size
  size_to_sector-misses offset size z a c h = elim (dec_lt size (offset % s)) [
    | yes l ↦
        rw (size_to_sector_short offset size l c)
          (omega (arith, div-add-mod' offset s, IsPow2-pos p))
    | no g ↦
        rw (size_to_sector_unaligned offset size (omega (arith, IsPow2-pos p)) (omega arith) c h) (
          omega
            (arith, div-add-mod' offset s, sectors_for-bounds (size - offset % s), IsPow2-pos p))
  ]
