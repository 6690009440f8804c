-- ===== src/Status/RoundTrip.antt =====
-- The screen understands what an installer writes (src/lib/status.cpp, src/ui/progress/status.cpp).
use mathlib.Core.Option
use nanodistro.Base.{
  Bool, not, ◌&&◌, min, ◌||◌, if◌then◌else◌, ℕ, suc, ◌≤◌, ◌≡◌, refl, sym, ap, ◌∙◌, true, false,
  Bool-cases, inl, inr, List, [], ◌∷◌, ◌++◌, append-nil, append_assoc, Bytes, codes, eqb, length,
  is_empty, All, All-append, take-append, drop-behind, map, ◌==◌, Option, none, some, ok, arith,
}
use nanodistro.Base.Int.{ℤ, pos, negsuc, ltb_ℤ}
use nanodistro.Text.{find, str_split, str_trim, string_is_true, string_is_false}
use nanodistro.Text.Number.{stoi, decimal, decimal_int}
use nanodistro.Text.Number.RoundTrip.{stoi-decimal_whole, decimal-Lacks}
use nanodistro.Text.Joined.{Lacks, find-here, dotted, dotted-long, split_loop-dotted}
use nanodistro.Url.{c_str}
use nanodistro.Writer.Main.{clamp}
use nanodistro.Status.{
  Screen, set_progress, cut_at, report_text, Command, enable, value, status, line_of, write_cmd,
  proc_value, proc_one_status, proc_line, proc_lines, proc_split, proc_buffer,
}

-- The first line of a text, as far as a C string goes.
abbrev pub first_line : Bytes → Bytes
first_line [] = []
first_line (c ∷ s) = if c == 10 || c == 0 then [] else c ∷ first_line s

-- The nearest number from 0 to 100.
abbrev pub percent : ℤ → ℤ
percent (negsuc n) = pos 0
percent (pos n) = pos (min n 100)

-- What a command means to the screen: the field that it sets, and no other.
unfoldable pub apply : Command → Screen → Screen
apply (enable en) s = record {
  progress_enable = en;
  progress_value = percent s.progress_value;
  report = s.report;
}
apply (value val) s = record {
  progress_enable = s.progress_enable;
  progress_value = percent val;
  report = s.report;
}
apply (status val) s = record {
  progress_enable = s.progress_enable;
  progress_value = s.progress_value;
  report = first_line (str_trim val);
}

unfoldable pub apply_all : List Command → Screen → Screen
unfolding apply
apply_all [] s = s
apply_all (c ∷ cs) s = apply_all cs (apply c s)

-- What is in the pipe after some commands.
unfoldable pub write_all : List Command → Bytes → Bytes
unfolding write_cmd
write_all [] pipe = pipe
write_all (c ∷ cs) pipe = write_all cs (write_cmd true c pipe)

-- A text that is cut at a byte lacks it.
cut_at-Lacks : (c : ℕ) (s : Bytes) → Lacks c (cut_at s (find s (c ∷ [])))
unfolding find
cut_at-Lacks c [] = tt
cut_at-Lacks c (x ∷ s) = elim (Bool-cases (x == c)) [
  | inl e ↦ rw e tt
  | inr e ↦ rw e (go e (find s (c ∷ [])) (cut_at-Lacks c s))
]
  where
    go :
        (x == c) ≡ false
        → (o : Option ℕ) → Lacks c (cut_at s o)
        → Lacks c (cut_at (x ∷ s) (Option.map suc o))
    go e none h = (e, h)
    go e (some i) h = (e, h)

c_str-first_line : (s : Bytes) → c_str (cut_at s (find s (codes "\n"))) ≡ first_line s
unfolding c_str find
c_str-first_line [] = refl
c_str-first_line (c ∷ s) = elim (Bool-cases (c == 10)) [
  | inl e ↦ rw e refl
  | inr e ↦ rw e (go (find s (codes "\n")) (c_str-first_line s))
]
  where
    go :
        (o : Option ℕ)
        → c_str (cut_at s o) ≡ first_line s
        → c_str (cut_at (c ∷ s) (Option.map suc o)) ≡ (if c == 0 then [] else c ∷ first_line s)
    go none h = ap (λ (t : Bytes). if c == 0 then [] else c ∷ t) h
    go (some i) h = ap (λ (t : Bytes). if c == 0 then [] else c ∷ t) h

clamp-nearest : (v : ℤ) → clamp v (pos 0) (pos 100) ≡ percent v
clamp-nearest (negsuc n) = ground arith
clamp-nearest (pos n) = ground arith

-- The switch and the percentage as the screen sets them.
set_progress-enable :
    (en : Bool) (s : Screen) → set_progress en s.progress_value s ≡ apply (enable en) s
unfolding set_progress apply
set_progress-enable en s = rw (clamp-nearest s.progress_value) refl

set_progress-value : (v : ℤ) (s : Screen) → set_progress s.progress_enable v s ≡ apply (value v) s
unfolding set_progress apply
set_progress-value v s = rw (clamp-nearest v) refl

abbrev lacks : ℕ → Bytes → Bool
lacks c [] = true
lacks c (x ∷ s) = not (x == c) && lacks c s

Lacks-of : (c : ℕ) (s : Bytes) → lacks c s ≡ true → Lacks c s
Lacks-of c [] h = tt
Lacks-of c (x ∷ s) h = (ground (arith, h), Lacks-of c s (ground (arith, h)))

clamp-percent : (v : ℤ) → (n : ℕ) × (clamp v (pos 0) (pos 100) ≡ pos n) × (n ≤ 100)
clamp-percent (negsuc n) =
    let low : ltb_ℤ (negsuc n) (pos 0) ≡ true = ground arith in (0, rw low refl, omega arith)
clamp-percent (pos n) = elim (Bool-cases (ltb_ℤ (pos 100) (pos n))) [
  | inl e ↦
      let low : ltb_ℤ (pos n) (pos 0) ≡ false = ground arith in (100, rw (low, e) refl, omega arith)
  | inr e ↦
      let low : ltb_ℤ (pos n) (pos 0) ≡ false = ground arith in
      (n, rw (low, e) refl, ground (arith, e))
]

clamp-clamp : (n : ℕ) → n ≤ 100 → clamp (pos n) (pos 0) (pos 100) ≡ pos n
clamp-clamp n h = ground (arith, h)

-- A key and what stands behind the blank.
proc_line-parts :
    (key val : Bytes) (s : Screen)
    → Lacks 32 key
    → proc_line (key ++ 32 ∷ val) (find (key ++ 32 ∷ val) (codes " ")) s ≡ proc_one_status key val s
proc_line-parts key val s h =
    let parts : proc_line (key ++ 32 ∷ val) (some (length key)) s ≡ proc_one_status key val s =
      unfold proc_line in rw (take-append key (32 ∷ val), drop-behind key 32 val) refl in
    ap (λ (o : Option ℕ). proc_line (key ++ 32 ∷ val) o s) (find-here 32 key val h) ∙ parts

proc_value-clamped :
    (v : ℤ) (s : Screen)
    → proc_value (decimal_int (clamp v (pos 0) (pos 100))) s
      ≡ ok (set_progress s.progress_enable v s)
proc_value-clamped v s =
    let (n, e, l) = clamp-percent v in
    let whole : stoi 10 (decimal n) ≡ ok (pos n, length (decimal n)) =
      stoi-decimal_whole n (omega (arith, l)) in
    let same : (length (decimal n) == length (decimal n)) ≡ true = ground arith in
    let read : proc_value (decimal n) s ≡ ok (set_progress s.progress_enable (pos n) s) =
      unfold proc_value in rw (whole, same) refl in
    let print : decimal_int (pos n) ≡ decimal n = unfold decimal_int in refl in
    let set : set_progress s.progress_enable (pos n) s ≡ set_progress s.progress_enable v s =
      unfold set_progress in rw (e, clamp-clamp n l) refl in
    ap (λ (x : ℤ). proc_value (decimal_int x) s) e
    ∙ ap (λ (x : Bytes). proc_value x s) print
    ∙ read
    ∙ ap (λ (x : Screen). ok x) set

-- A line is understood as its command.
proc_line-line_of :
    (c : Command) (s : Screen)
    → proc_line (line_of c) (find (line_of c) (codes " ")) s ≡ ok (apply c s)
proc_line-line_of (enable true) s =
    let key : proc_one_status (codes "set_progress_enable") (codes "true") s
        ≡ ok (set_progress true s.progress_value s) =
      unfold proc_one_status eqb string_is_true string_is_false in refl in
    unfold line_of in
    proc_line-parts (codes "set_progress_enable") (codes "true") s
      (Lacks-of 32 (codes "set_progress_enable") refl)
    ∙ key
    ∙ ap (λ (x : Screen). ok x) (set_progress-enable true s)
proc_line-line_of (enable false) s =
    let key : proc_one_status (codes "set_progress_enable") (codes "false") s
        ≡ ok (set_progress false s.progress_value s) =
      unfold proc_one_status eqb string_is_true string_is_false in refl in
    unfold line_of in
    proc_line-parts (codes "set_progress_enable") (codes "false") s
      (Lacks-of 32 (codes "set_progress_enable") refl)
    ∙ key
    ∙ ap (λ (x : Screen). ok x) (set_progress-enable false s)
proc_line-line_of (value v) s =
    let text : Bytes = decimal_int (clamp v (pos 0) (pos 100)) in
    let key : proc_one_status (codes "set_progress_value") text s ≡ proc_value text s =
      unfold proc_one_status eqb in refl in
    unfold line_of in
    proc_line-parts (codes "set_progress_value") text s
      (Lacks-of 32 (codes "set_progress_value") refl)
    ∙ key
    ∙ proc_value-clamped v s
    ∙ ap (λ (x : Screen). ok x) (set_progress-value v s)
proc_line-line_of (status v) s =
    let key : proc_one_status (codes "set_status_text") (report_text v) s
        ≡ ok (apply (status v) s) =
      unfold proc_one_status eqb apply report_text in
      ap (λ (t : Bytes). ok (record s { report = t })) (c_str-first_line (str_trim v)) in
    unfold line_of in
    proc_line-parts (codes "set_status_text") (report_text v) s
      (Lacks-of 32 (codes "set_status_text") refl)
    ∙ key

decimal_int-Lacks : (v : ℤ) → Lacks 10 (decimal_int (clamp v (pos 0) (pos 100)))
decimal_int-Lacks v =
    let (n, e, l) = clamp-percent v in rw e (unfold decimal_int in decimal-Lacks 10 n refl)

-- It is one line, and is not empty.
line_of-Lacks : (c : Command) → Lacks 10 (line_of c)
unfolding line_of
line_of-Lacks (enable true) = Lacks-of 10 (codes "set_progress_enable true") refl
line_of-Lacks (enable false) = Lacks-of 10 (codes "set_progress_enable false") refl
line_of-Lacks (value v) =
    All-append (λ x. (x == 10) ≡ false) (codes "set_progress_value")
      (32 ∷ decimal_int (clamp v (pos 0) (pos 100))) (Lacks-of 10 (codes "set_progress_value") refl)
      (refl, decimal_int-Lacks v)
line_of-Lacks (status v) =
    All-append (λ x. (x == 10) ≡ false) (codes "set_status_text") (32 ∷ report_text v)
      (Lacks-of 10 (codes "set_status_text") refl)
      (refl, unfold report_text in cut_at-Lacks 10 (str_trim v))

line_of-not_empty : (c : Command) → is_empty (line_of c) ≡ false
unfolding line_of
line_of-not_empty (enable en) = refl
line_of-not_empty (value v) = refl
line_of-not_empty (status v) = refl

lines-Lacks : (cs : List Command) → All (Lacks 10) (map line_of cs)
lines-Lacks [] = tt
lines-Lacks (c ∷ cs) = (line_of-Lacks c, lines-Lacks cs)

write_all-dotted :
    (cs : List Command) (pipe : Bytes) → write_all cs pipe ≡ pipe ++ dotted 10 (map line_of cs) []
unfolding write_all
write_all-dotted [] pipe = sym (append-nil pipe)
write_all-dotted (c ∷ cs) pipe =
    write_all-dotted cs (pipe ++ (line_of c ++ codes "\n"))
    ∙ append_assoc pipe (line_of c ++ codes "\n") (dotted 10 (map line_of cs) [])
    ∙ ap (λ (t : Bytes). pipe ++ t)
        (append_assoc (line_of c) (codes "\n") (dotted 10 (map line_of cs) []))

proc_lines-all :
    (cs : List Command) (s : Screen)
    → proc_lines (map line_of cs ++ [] ∷ []) s ≡ ok (apply_all cs s)
unfolding proc_lines apply_all
proc_lines-all [] s = refl
proc_lines-all (c ∷ cs) s =
    rw (line_of-not_empty c, proc_line-line_of c s) (proc_lines-all cs (apply c s))

-- When one `read` gives the commands of an installer from the first to the last, the screen is as
-- after each of them in its order: a switch is set, a percentage is set to the nearest number from 0
-- to 100, and the report is the first line of the text without blanks around the text, up to a zero.
-- A switch also moves the percentage that the screen has to the nearest number from 0 to 100.
-- Nothing else changes.
pub proc_buffer-write_all :
    (cs : List Command) (s : Screen) → proc_buffer (write_all cs []) s ≡ ok (apply_all cs s)
unfolding proc_buffer str_split
proc_buffer-write_all cs s =
    let lines : List Bytes = map line_of cs in
    let split : str_split (dotted 10 lines []) (codes "\n") ≡ some (lines ++ [] ∷ []) =
      split_loop-dotted 10 (suc (length (dotted 10 lines []))) lines [] (lines-Lacks cs) tt
        (omega (arith, dotted-long 10 lines [])) in
    ap (λ (t : Bytes). proc_buffer t s) (write_all-dotted cs [])
    ∙ ap (λ (o : Option (List Bytes)). proc_split o s) split
    ∙ (unfold proc_split in proc_lines-all cs s)
