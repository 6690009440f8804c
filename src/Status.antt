-- ===== src/Status.antt =====
-- The lines with which an installer tells the screen its progress: what the installer writes
-- (src/lib/status.cpp) and what the screen makes of it (src/ui/progress/status.cpp and set_progress of
-- src/ui/progress/draw.cpp). Of the widgets the text of the report is modelled.
pub mod RoundTrip
mod Tests
use nanodistro.Base.{
  ℕ, suc, Bool, true, false, not, List, [], ◌∷◌, ◌++◌, Bytes, codes, eqb, length, take, drop,
  is_empty, ◌==◌, if◌then◌else◌, Option, none, some, Result, ok, throw, ◌>>=◌, out_of_fuel,
}
use nanodistro.Base.Int.{ℤ, pos}
use nanodistro.Text.{find, str_split, str_trim, string_is_true, string_is_false}
use nanodistro.Text.Number.{stoi, decimal_int}
use nanodistro.Url.{c_str}
use nanodistro.Writer.Main.{clamp}

pub record Screen : Type 0 where
  pub progress_enable : Bool
  pub progress_value : ℤ
  pub report : Bytes

unfoldable pub set_progress : Bool → ℤ → Screen → Screen
set_progress en val s = record s {
  progress_enable = en;
  progress_value = clamp val (pos 0) (pos 100);
}

abbrev pub cut_at : Bytes → Option ℕ → Bytes
cut_at s none = s
cut_at s (some i) = take i s

-- The text of a report: one line without blanks around it.
unfoldable pub report_text : Bytes → Bytes
unfolding str_trim find
report_text value = cut_at (str_trim value) (find (str_trim value) (codes "\n"))

-- What an installer may tell.
pub data Command : Type 0 where
  enable : Bool → Command
  value : ℤ → Command
  status : Bytes → Command

-- The line of a command, without its end.
unfoldable pub line_of : Command → Bytes
unfolding decimal_int report_text
line_of (enable en) =
    codes "set_progress_enable" ++ (32 ∷ (if en then codes "true" else codes "false"))
line_of (value val) = codes "set_progress_value" ++ (32 ∷ decimal_int (clamp val (pos 0) (pos 100)))
line_of (status val) = codes "set_status_text" ++ (32 ∷ report_text val)

-- What is in the pipe after a command; without a descriptor nothing is written.
unfoldable pub write_cmd : Bool → Command → Bytes → Bytes
unfolding line_of
write_cmd has_fd c pipe = if has_fd then pipe ++ (line_of c ++ codes "\n") else pipe

unfoldable pub proc_value : Bytes → Screen → Result Screen
unfolding set_progress stoi
proc_value val s = stoi 10 val >>= λ r.
    if not (r.1 == length val) then ok s else ok (set_progress s.progress_enable r.0 s)

-- `log` prints a line of JSON and changes nothing here.
unfoldable pub proc_one_status : Bytes → Bytes → Screen → Result Screen
unfolding set_progress proc_value string_is_true string_is_false c_str
proc_one_status key val s =
    if eqb key (codes "set_status_text")
    then ok (record s { report = c_str val })
    else if eqb key (codes "set_progress_enable")
    then if string_is_false val
      then ok (set_progress false s.progress_value s)
      else if string_is_true val
      then ok (set_progress true s.progress_value s)
      else ok s
    else if eqb key (codes "set_progress_value")
    then proc_value val s
    else ok s

unfoldable pub proc_line : Bytes → Option ℕ → Screen → Result Screen
unfolding proc_one_status
proc_line line none s = ok s
proc_line line (some i) s = proc_one_status (take i line) (drop (suc i) line) s

unfoldable pub proc_lines : List Bytes → Screen → Result Screen
unfolding proc_line find
proc_lines [] s = ok s
proc_lines (line ∷ lines) s =
    (if is_empty line then ok s else proc_line line (find line (codes " ")) s) >>= proc_lines lines

unfoldable pub proc_split : Option (List Bytes) → Screen → Result Screen
unfolding proc_lines
proc_split none s = throw out_of_fuel
proc_split (some lines) s = proc_lines lines s

-- One buffer that was read.
unfoldable pub proc_buffer : Bytes → Screen → Result Screen
unfolding proc_split str_split
proc_buffer str s = proc_split (str_split str (codes "\n")) s

-- The buffers that `read` gives until it would block.
unfoldable pub proc_status : List Bytes → Screen → Result Screen
unfolding proc_buffer
proc_status [] s = ok s
proc_status (buff ∷ buffs) s = proc_buffer buff s >>= proc_status buffs
