-- ===== src/Readable.antt =====
-- Sizes with their units (src/lib/readable.cpp). The array of the units is a list without the null
-- pointer at its end; a buffer is what C reads from it, and its length is that of the array.
pub mod Units
mod Tests
use nanodistro.Base.{
  ℕ, zero, suc, ◌+◌, ◌-◌, ◌*◌, ◌/◌, ◌%◌, ◌^◌, ◌&&◌, List, [], ◌∷◌, ◌++◌, Bytes, codes, take,
  is_empty, ltb, leb, ◌==◌, if◌then◌else◌, Option, none, some,
}
use nanodistro.Text.Number.{decimal}

-- `while((val>=blk)&&units[unit+1])val/=blk,unit++;` with the value and what is left of the units
unfoldable pub scale_units : ℕ → ℕ → List Bytes → ℕ × List Bytes
scale_units blk val [] = (val, [])
scale_units blk val (u ∷ []) = (val, u ∷ [])
scale_units blk val (u ∷ u' ∷ units) =
    let on = scale_units blk (val / blk) (u' ∷ units) in
    if leb blk val then on else (val, u ∷ u' ∷ units)

-- `units[0]`, which `%s` prints
abbrev pub unit_name : List Bytes → Bytes
unit_name [] = codes "(null)"
unit_name (u ∷ units) = u

-- `buf` and `units` are no null pointers; none is the null pointer.
unfoldable pub format_size_ex : ℕ → ℕ → List Bytes → ℕ → Option Bytes
unfolding scale_units
format_size_ex len val units blk =
    if len == 0
    then none
    else if val == 0
    then some (take (len - 1) (codes "0"))
    else (let (v, left) = scale_units blk val units in
        some (take (len - 2) (decimal v ++ (32 ∷ unit_name left))))

-- `while(right>0&&(right%10)==0)right/=10;` with a round for each unit of `right`
unfoldable pub strip_zeros : ℕ → ℕ → ℕ
strip_zeros zero right = right
strip_zeros (suc fuel) right =
    let on = strip_zeros fuel (right / 10) in if ltb 0 right && right % 10 == 0 then on else right

-- `right` from the rounding on
unfoldable pub round_fraction : ℕ → ℕ
unfolding strip_zeros
round_fraction right =
    let rounded = (if leb 5 (right % 10) then (right + 10) % 2 ^ 64 else right) / 10 in
    strip_zeros rounded rounded

-- `left`, `right` and the units, where one more unit may be left
unfoldable pub split_value : ℕ → ℕ → ℕ → List Bytes → ℕ × ℕ × List Bytes
split_value blk pd val [] = (val, 0, [])
split_value blk pd val (u ∷ []) = (val, 0, u ∷ [])
split_value blk pd val (u ∷ u' ∷ units) =
    if leb blk val
    then (val / blk, val % blk * pd % 2 ^ 64 / blk, u' ∷ units)
    else (val, 0, u ∷ u' ∷ units)

-- The loop that divides while the value has two blocks more.
unfoldable pub scale_twice : ℕ → ℕ → List Bytes → ℕ × List Bytes
scale_twice blk val [] = (val, [])
scale_twice blk val (u ∷ []) = (val, u ∷ [])
scale_twice blk val (u ∷ u' ∷ units) =
    let on = scale_twice blk (val / blk) (u' ∷ units) in
    if leb (blk * blk % 2 ^ 64) val then on else (val, u ∷ u' ∷ units)

unfoldable pub format_size_float_ex : ℕ → ℕ → List Bytes → ℕ → ℕ → Option Bytes
unfolding format_size_ex scale_twice split_value round_fraction
format_size_float_ex len val units blk dot =
    if len == 0
    then none
    else if dot == 0
    then format_size_ex len val units blk
    else if val == 0
    then some (take len (codes "0"))
    else (let (v, left_units) = scale_twice blk val units in
        let (left, right, last_units) = split_value blk (10 ^ suc dot % 2 ^ 64) v left_units in
        some (
          take (len - 1) (
            decimal left
            ++ (46 ∷ (decimal (round_fraction right) ++ (32 ∷ unit_name last_units))))))

abbrev pub or_empty : Option Bytes → Bytes
or_empty none = []
or_empty (some s) = s

unfoldable pub format_size : ℕ → List Bytes → ℕ → Bytes
unfolding format_size_ex
format_size val units blk = or_empty (format_size_ex 256 val units blk)

unfoldable pub format_size_float : ℕ → List Bytes → ℕ → ℕ → Bytes
unfolding format_size_float_ex
format_size_float val units blk dot = or_empty (format_size_float_ex 256 val units blk dot)

abbrev pub size_units_ib : List Bytes
size_units_ib =
    codes "B"
    ∷ codes "KiB"
    ∷ codes "MiB"
    ∷ codes "GiB"
    ∷ codes "TiB"
    ∷ codes "PiB"
    ∷ codes "EiB"
    ∷ codes "ZiB"
    ∷ codes "YiB"
    ∷ []

abbrev pub size_units_hz : List Bytes
size_units_hz =
    codes "Hz"
    ∷ codes "KHz"
    ∷ codes "MHz"
    ∷ codes "GHz"
    ∷ codes "THz"
    ∷ codes "PHz"
    ∷ codes "EHz"
    ∷ codes "ZHz"
    ∷ codes "YHz"
    ∷ []

unfoldable pub format_size_hz : ℕ → Bytes
unfolding format_size
format_size_hz val = format_size val size_units_hz 1000

unfoldable pub format_size_float_hz : ℕ → ℕ → Bytes
unfolding format_size_float
format_size_float_hz val dot = format_size_float val size_units_hz 1000 dot
