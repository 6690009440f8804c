-- ===== src/Status/Tests.antt =====
-- The theorem on the status lines (src/lib/status.cpp, src/ui/progress/status.cpp) at three commands.
use nanodistro.Base.{◌≡◌, refl, true, false, List, [], ◌∷◌, codes, ok, eqb}
use nanodistro.Base.Int.{pos}
use nanodistro.Text.{str_trim_start}
use nanodistro.Status.{
  Screen, Command, enable, value, status, proc_buffer, proc_status, set_progress, report_text,
}
use nanodistro.Url.{c_str}
use nanodistro.Status.RoundTrip.{write_all, apply_all, proc_buffer-write_all}

abbrev off : Screen
off = record { progress_enable = false; progress_value = pos 0; report = [] }

abbrev commands : List Command
commands = enable true ∷ value (pos 150) ∷ status (codes " Writing disk\nnow") ∷ []

proc_buffer-write_all_example :
    proc_buffer (write_all commands []) off ≡ ok (apply_all commands off)
proc_buffer-write_all_example = proc_buffer-write_all commands off

means :
    apply_all commands off
    ≡ record { progress_enable = true; progress_value = pos 100; report = codes "Writing disk" }
unfolding apply_all str_trim_start set_progress c_str report_text
means = refl

-- A line that two reads cut in two is lost, or read as a shorter number.
cut_in_two :
    proc_status (codes "set_progress_value 10" ∷ codes "0\n" ∷ []) off
    ≡ ok (record { progress_enable = false; progress_value = pos 10; report = [] })
unfolding proc_status str_trim_start eqb
cut_in_two = refl
