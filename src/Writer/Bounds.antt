-- ===== src/Writer/Bounds.antt =====
-- What `helper write` accepts and reports stays within bounds (src/helper/cmd_write.cpp).
use native.Mathlib.Nat.{mul-le-mul_left}
use nanodistro.Base.{
  ℕ, ◌+◌, ◌-◌, ◌*◌, ◌/◌, ◌^◌, ◌≤◌, ◌<◌, ◌≡◌, refl, ap, subst, not, ◌&&◌, Bool-cases, inl, inr, ◌==◌,
  ltb, Option, some, none, ok, throw, Bytes, arith, ok_injective, >>=-ok, invalid_argument,
}
use nanodistro.Base.Int.{pos, ◌+ℤ◌, ◌-ℤ◌, ◌≤ℤ◌, scale, quot}
use nanodistro.Writer.Main.{real_percent}
use nanodistro.Writer.Options.{
  Options, System, FileKind, device_size, room, check_room, open_device, opened, device_name,
  default_length, fill_count, fill_length,
}

-- The reported percentage stays between the two that are set, when these are in order and at most
-- 100, and the part that is written is at most 100 percent.
pub real_percent-bounds :
    (start end percent : ℕ)
    → start ≤ end
    → end ≤ 100
    → percent ≤ 100
    → (pos start ≤ℤ real_percent (pos start) (pos end) percent)
      × (real_percent (pos start) (pos end) percent ≤ℤ pos end)
unfolding real_percent
real_percent-bounds start end percent h e p =
    let part : (end - start) * percent ≤ (end - start) * 100 = mul-le-mul_left (end - start) p in
    let share : (end - start) * percent / 100 ≤ end - start = omega arith in
    let width : pos end -ℤ pos start ≡ pos (end - start) = unfold ◌-ℤ◌ in ground arith in
    let scaled : quot (scale (pos (end - start)) percent) 100
        ≡ pos ((end - start) * percent / 100) =
      unfold scale quot in refl in
    let sum : pos start +ℤ pos ((end - start) * percent / 100)
        ≡ pos (start + (end - start) * percent / 100) =
      unfold ◌+ℤ◌ in ground arith in
    rw (width, scaled, sum) (ground arith, ground arith)

check_room-fits :
    (output : FileKind) (opts o : Options)
    → device_size output < 2 ^ 64
    → 0 < device_size output
    → check_room output opts ≡ ok o
    → o.output_offset + o.length ≤ device_size output
unfolding check_room
check_room-fits output opts o b l h =
    elim (Bool-cases
      (not (device_size output == 0) && ltb (device_size output) opts.output_offset)) [
        | inl e ↦ absurd (refused (rw e at h))
        | inr e ↦
            elim (Bool-cases (ltb (room (device_size output) opts.output_offset) opts.length)) [
              | inl g ↦ absurd (refused (rw (e, g) at h))
              | inr g ↦
                  let within : opts.output_offset ≤ device_size output = ground (arith, e, l) in
                  let fits : opts.output_offset + opts.length ≤ device_size output =
                    ground (arith, g, within, b) in
                  subst (λ (x : Options). x.output_offset + x.length ≤ device_size output)
                    (ok_injective (rw (e, g) at h)) fits
            ]
      ]
  where
    refused : throw invalid_argument ≡ ok o → ⊥
    refused h = ground (arith, h)

opened-ok : (x : Option FileKind) (kind : FileKind) → opened x ≡ ok kind → x ≡ some kind
opened-ok none kind h = absurd (ground (arith, h))
opened-ok (some k) kind h = ap some (ok_injective h)

-- Where the sizes of files are words of 64 bits, a device that `open_device` accepts, when it is one
-- with a size, has room for all that is to be
-- written: the offset and the length together stay within it.
pub open_device-fits :
    (sys : System) (opts o : Options)
    → ((name : Bytes) (kind : FileKind)
        → sys.open_file name ≡ some kind
        → device_size kind < 2 ^ 64)
    → open_device sys opts ≡ ok o
    → (dev : Bytes) × (output : FileKind) × (device_name sys opts ≡ ok dev)
      × (sys.open_file dev ≡ some output)
      × (0 < device_size output → o.output_offset + o.length ≤ device_size output)
unfolding open_device
open_device-fits sys opts o b h =
    let (input, a, h1) = >>=-ok (opened (sys.open_file opts.input_file)) _ o h in
    let (dev, d, h2) = >>=-ok (device_name sys opts) _ o h1 in
    let (output, c, h3) = >>=-ok (opened (sys.open_file dev)) _ o h2 in
    let (sized, e, h4) =
      >>=-ok (default_length input (record opts { output_device = dev })) _ o h3 in
    let there : sys.open_file dev ≡ some output = opened-ok (sys.open_file dev) output c in
    (
      dev,
      output,
      d,
      there,
      λ l. check_room-fits output (fill_length (fill_count sized)) o (b dev output there) l h4,
    )
