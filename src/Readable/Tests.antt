-- ===== src/Readable/Tests.antt =====
-- The theorem on sizes (src/lib/readable.cpp) at a size of some megabytes, and two fractions.
use nanodistro.Base.{codes, ◌≡◌, refl}
use nanodistro.Text.Number.{decimal}
use nanodistro.Readable.{size_units_ib, format_size_float}

-- 1044 is 1.02 units of 1024, and 2043 is 2.00 of them.
small_fraction : format_size_float 1044 size_units_ib 1024 2 ≡ codes "1.2 KiB"
unfolding format_size_float decimal
small_fraction = refl

large_fraction : format_size_float 2043 size_units_ib 1024 2 ≡ codes "1.1 KiB"
unfolding format_size_float decimal
large_fraction = refl
