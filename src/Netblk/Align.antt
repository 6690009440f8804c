-- ===== src/Netblk/Align.antt =====
-- `align_up` and `align_down` of include/std-utils.h on 64-bit words, and `size_to_sector` of
-- src/netblk/cache.cpp.
pub mod Rounding
pub mod Coverage
use Prim.Native.Nat.{bit_and}
use nanodistro.Base.{ℕ, ◌+◌, ◌-◌, ◌/◌, ◌%◌, ◌^◌, ◌==◌, if◌then◌else◌}

-- What a 64-bit register holds.
abbrev pub u64 : ℕ → ℕ
u64 n = n % 2 ^ 64

-- `~x`
abbrev pub not64 : ℕ → ℕ
not64 x = 2 ^ 64 - 1 - x

unfoldable pub align_up : ℕ → ℕ → ℕ
align_up val alg = bit_and (u64 (val + alg + 2 ^ 64 - 1)) (not64 (u64 (alg + 2 ^ 64 - 1)))

unfoldable pub align_down : ℕ → ℕ → ℕ
align_down val alg = bit_and val (not64 (u64 (alg + 2 ^ 64 - 1)))

-- the first `if` of `size_to_sector`: the offset and the size after it
unfoldable pub move_to_boundary : ℕ → ℕ → ℕ → ℕ × ℕ
move_to_boundary in_offset in_size sector =
    if in_offset % sector == 0 then (in_offset, in_size) else (
      align_down in_offset sector,
      u64 (in_size + align_down in_offset sector + 2 ^ 64 - in_offset),
    )

-- the second `if`
unfoldable pub round_size : ℕ → ℕ → ℕ
round_size in_size sector = if in_size % sector == 0 then in_size else align_up in_size sector

-- The sector offset and the sector count.
unfoldable pub size_to_sector : ℕ → ℕ → ℕ → ℕ × ℕ
unfolding move_to_boundary round_size
size_to_sector in_offset in_size sector =
    let (offset, size) = move_to_boundary in_offset in_size sector in
    (offset / sector, round_size size sector / sector)
