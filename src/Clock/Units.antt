-- ===== src/Clock/Units.antt =====
-- Conversions between units (src/lib/time.cpp).
use nanodistro.Base.{ℕ, suc, ◌-◌, ◌*◌, ◌/◌, ◌%◌, ◌<◌, ◌≡◌, refl, arith}
use nanodistro.Base.Int.{pos, negsuc, neg_ℕ, ◌+ℤ◌, scale, quot, rem}
use nanodistro.Clock.{
  TimeUnit, year, month, week, day, hour, second, millisecond, microsecond, nanosecond, num_convert,
  tonumber, convert,
}

-- A number of units that is not negative is read back from its timestamp, in each of the units.
pub convert-same : (val : ℕ) (u : TimeUnit) → convert (pos val) u u ≡ pos val
unfolding convert num_convert tonumber scale quot rem ◌+ℤ◌
convert-same val year = ground arith
convert-same val month = ground arith
convert-same val week = ground arith
convert-same val day = ground arith
convert-same val hour = ground arith
convert-same val second = refl
convert-same val millisecond = ground arith
convert-same val microsecond = ground arith
convert-same val nanosecond = ground arith

-- A negative number of milliseconds that is no whole number of seconds comes back a second too
-- large.
pub convert-negative :
    (n : ℕ) → 0 < suc n % 1000 → convert (negsuc n) millisecond millisecond ≡ negsuc n +ℤ pos 1000
unfolding convert num_convert tonumber
convert-negative n h =
    let r : scale (rem (rem (negsuc n) 1000 +ℤ pos 1000) 1000) 1000000
        ≡ pos ((1000 - suc n % 1000) * 1000000) =
      unfold rem scale ◌+ℤ◌ in ground arith in
    let q : quot (pos ((1000 - suc n % 1000) * 1000000)) 1000000 ≡ pos (1000 - suc n % 1000) =
      unfold quot in ground arith in
    let s : scale (quot (negsuc n) 1000) 1000 ≡ neg_ℕ (suc n / 1000 * 1000) =
      unfold scale quot in ground arith in
    rw (r, q, s) (unfold ◌+ℤ◌ in ground arith)
