-- ===== src/Readable/Units.antt =====
-- The unit of a size (src/lib/readable.cpp).
use nanodistro.Base.{ℕ, ◌/◌, ◌^◌, ◌≤◌, ◌<◌, List, Bytes, length, drop, ◌≡◌, ◌⊎◌}

-- The value has been divided by the block k times, to a value that is not 0, and k units were
-- passed; what is left is less than a block, or the unit is the last one.
abbrev pub IsScaled : ℕ → ℕ → List Bytes → ℕ × List Bytes → Type 0
IsScaled blk val units r =
    (k : ℕ) × (r.1 ≡ drop k units)
    × (r.0 ≡ val / blk ^ k)
    × (0 < r.0)
    × ((r.0 < blk) ⊎ (length r.1 ≤ 1))
