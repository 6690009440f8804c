-- ===== src/Clock/Tests.antt =====
-- The theorems on timestamps (src/lib/time.cpp) at concrete times.
use nanodistro.Base.{◌≡◌, refl, arith}
use nanodistro.Base.Int.{pos, negsuc, ◌+ℤ◌, ◌-ℤ◌}
use nanodistro.Clock.{Timestamp, add, sub}
use nanodistro.Clock.Normal.{IsNormal, nanos}
use nanodistro.Clock.Nanos.{add-sub-nanos}

-- 1.7 s and -0.4 s
abbrev early : Timestamp
early = record { tv_sec = negsuc 0; tv_nsec = pos 600000000 }

abbrev late : Timestamp
late = record { tv_sec = pos 1; tv_nsec = pos 700000000 }

early-IsNormal : IsNormal early
early-IsNormal = record { part = 600000000; is_part = refl; below = omega arith }

late-IsNormal : IsNormal late
late-IsNormal = record { part = 700000000; is_part = refl; below = omega arith }

add-sub-nanos_example :
    (IsNormal (add early late) × (nanos (add early late) ≡ nanos early +ℤ nanos late))
    × (IsNormal (sub early late) × (nanos (sub early late) ≡ nanos early -ℤ nanos late))
add-sub-nanos_example = add-sub-nanos early late early-IsNormal late-IsNormal
