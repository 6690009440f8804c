-- ===== src/Clock.antt =====
-- `timestamp` (src/lib/time.cpp, include/time-utils.h): seconds and nanoseconds. The numbers are
-- those of 64-bit arithmetic that does not overflow, which C++ leaves undefined otherwise.
pub mod Normal
pub mod Nanos
pub mod Units
mod Tests
use nanodistro.Base.{
  ℕ, ◌+◌, ◌*◌, Bool, true, false, not, ◌&&◌, ◌||◌, Result, ok, throw, ◌>>=◌, invalid_argument,
  if◌then◌else◌,
}
use nanodistro.Base.Int.{ℤ, pos, negsuc, ltb_ℤ, eqb_ℤ, ◌+ℤ◌, ◌-ℤ◌, scale, quot, rem}

pub record Timestamp : Type 0 where
  pub tv_sec : ℤ
  pub tv_nsec : ℤ

pub data TimeUnit : Type 0 where
  year month week day hour second millisecond microsecond nanosecond : TimeUnit

abbrev pub billion : ℕ
billion = 1000000000

-- the seconds of the units from a year to a second
abbrev pub whole : ℤ → ℕ → Timestamp
whole val seconds = record { tv_sec = scale val seconds; tv_nsec = pos 0 }

unfoldable pub num_convert : ℤ → TimeUnit → Timestamp
num_convert val year = whole val 31536000
num_convert val month = whole val 2592000
num_convert val week = whole val 604800
num_convert val day = whole val 86400
num_convert val hour = whole val 3600
num_convert val second = record { tv_sec = val; tv_nsec = pos 0 }
num_convert val millisecond = record {
  tv_sec = quot val 1000;
  tv_nsec = scale (rem (rem val 1000 +ℤ pos 1000) 1000) 1000000;
}
num_convert val microsecond = record {
  tv_sec = quot val 1000000;
  tv_nsec = scale (rem val 1000000) 1000;
}
num_convert val nanosecond = record { tv_sec = quot val billion; tv_nsec = rem val billion }

unfoldable pub fix : Timestamp → Timestamp
fix t =
    if ltb_ℤ t.tv_nsec (pos 0)
    then record {
      tv_sec = t.tv_sec -ℤ quot (pos billion -ℤ t.tv_nsec) billion;
      tv_nsec = rem (rem t.tv_nsec billion +ℤ pos billion) billion;
    }
    else if not (ltb_ℤ t.tv_nsec (pos billion))
    then record { tv_sec = t.tv_sec +ℤ quot t.tv_nsec billion; tv_nsec = rem t.tv_nsec billion }
    else t

unfoldable pub add : Timestamp → Timestamp → Timestamp
unfolding fix
add t u = fix (record { tv_sec = t.tv_sec +ℤ u.tv_sec; tv_nsec = t.tv_nsec +ℤ u.tv_nsec })

unfoldable pub sub : Timestamp → Timestamp → Timestamp
unfolding fix
sub t u = fix (record { tv_sec = t.tv_sec -ℤ u.tv_sec; tv_nsec = t.tv_nsec -ℤ u.tv_nsec })

unfoldable pub diff : Timestamp → Timestamp → Timestamp
unfolding fix
diff t u = fix (record { tv_sec = t.tv_sec -ℤ u.tv_sec; tv_nsec = t.tv_nsec -ℤ u.tv_nsec })

unfoldable pub tonumber : TimeUnit → Timestamp → ℤ
tonumber year t = quot t.tv_sec 31536000
tonumber month t = quot t.tv_sec 2592000
tonumber week t = quot t.tv_sec 604800
tonumber day t = quot t.tv_sec 86400
tonumber hour t = quot t.tv_sec 3600
tonumber second t = t.tv_sec
tonumber millisecond t = scale t.tv_sec 1000 +ℤ quot t.tv_nsec 1000000
tonumber microsecond t = scale t.tv_sec 1000000 +ℤ quot t.tv_nsec 1000
tonumber nanosecond t = scale t.tv_sec billion +ℤ t.tv_nsec

unfoldable pub convert : ℤ → TimeUnit → TimeUnit → ℤ
unfolding num_convert tonumber
convert val from to = tonumber to (num_convert val from)

unfoldable pub of_timeval : ℤ → ℤ → Timestamp
of_timeval tv_sec tv_usec = record { tv_sec = tv_sec; tv_nsec = scale tv_usec 1000 }

unfoldable pub totimeval : Timestamp → ℤ × ℤ
totimeval t = (t.tv_sec, quot t.tv_nsec 1000)

unfoldable pub is_set : Timestamp → Bool
is_set t = not (eqb_ℤ t.tv_sec (pos 0)) || not (eqb_ℤ t.tv_nsec (pos 0))

-- What an operator takes on its right: a `timestamp`, a `timeval`, a `timespec`, a `tm`, or an
-- integer of any of the four types, which counts seconds. `double` is left out.
pub data Operand (Tm : Type 0) : Type 0 where
  stamp : Timestamp → Operand Tm
  timeval : ℤ → ℤ → Operand Tm
  timespec : ℤ → ℤ → Operand Tm
  broken_down : Tm → Operand Tm
  seconds : ℤ → Operand Tm

pub data Comparison : Type 0 where
  equal not_equal less at_most greater at_least : Comparison

-- the comparisons of two timestamps
unfoldable pub holds : Comparison → Timestamp → Timestamp → Bool
holds equal a b = eqb_ℤ a.tv_sec b.tv_sec && eqb_ℤ a.tv_nsec b.tv_nsec
holds not_equal a b = not (eqb_ℤ a.tv_sec b.tv_sec) || not (eqb_ℤ a.tv_nsec b.tv_nsec)
holds less a b = ltb_ℤ a.tv_sec b.tv_sec || (eqb_ℤ a.tv_sec b.tv_sec && ltb_ℤ a.tv_nsec b.tv_nsec)
holds at_most a b =
    ltb_ℤ a.tv_sec b.tv_sec || (eqb_ℤ a.tv_sec b.tv_sec && not (ltb_ℤ b.tv_nsec a.tv_nsec))
holds greater a b =
    ltb_ℤ b.tv_sec a.tv_sec || (eqb_ℤ a.tv_sec b.tv_sec && ltb_ℤ b.tv_nsec a.tv_nsec)
holds at_least a b =
    ltb_ℤ b.tv_sec a.tv_sec || (eqb_ℤ a.tv_sec b.tv_sec && not (ltb_ℤ a.tv_nsec b.tv_nsec))

-- `mktime` is a parameter; it gives -1 for a failure.
module _ {Tm : Type 0} (mktime : Tm → ℤ) where
  unfoldable pub of_tm : Tm → Result Timestamp
  of_tm tm =
      if eqb_ℤ (mktime tm) (negsuc 0)
      then throw invalid_argument
      else ok (record { tv_sec = mktime tm; tv_nsec = pos 0 })

  unfoldable pub to_timestamp : Operand Tm → Result Timestamp
  unfolding of_tm of_timeval num_convert
  to_timestamp (stamp t) = ok t
  to_timestamp (timeval s us) = ok (of_timeval s us)
  to_timestamp (timespec s ns) = ok (record { tv_sec = s; tv_nsec = ns })
  to_timestamp (broken_down tm) = of_tm tm
  to_timestamp (seconds v) = ok (num_convert v second)

  -- `operator+` and `operator+=`, `operator-` and `operator-=`, `operator=`
  unfoldable pub plus : Timestamp → Operand Tm → Result Timestamp
  unfolding to_timestamp add
  plus t x = to_timestamp x >>= λ u. ok (add t u)

  unfoldable pub minus : Timestamp → Operand Tm → Result Timestamp
  unfolding to_timestamp sub
  minus t x = to_timestamp x >>= λ u. ok (sub t u)

  unfoldable pub assign : Timestamp → Operand Tm → Result Timestamp
  unfolding to_timestamp
  assign t x = to_timestamp x

  -- `operator==` to `operator>=`
  unfoldable pub compares : Comparison → Timestamp → Operand Tm → Result Bool
  unfolding to_timestamp holds
  compares c t x = to_timestamp x >>= λ u. ok (holds c t u)
