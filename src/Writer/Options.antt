-- ===== src/Writer/Options.antt =====
-- The options of `helper write` and the sizes it takes from the two files (src/helper/cmd_write.cpp).
use nanodistro.Base.{
  ℕ, suc, ◌+◌, ◌-◌, ◌*◌, ◌/◌, ◌%◌, ◌^◌, Bool, true, false, not, ◌&&◌, ◌||◌, List, [], ◌∷◌, ◌++◌,
  Bytes, codes, eqb, is_empty, get_or, ltb, ◌==◌, if◌then◌else◌, Option, none, some, Result, ok,
  throw, ◌>>=◌, invalid_argument, errno_error, undefined,
}
use nanodistro.Base.Int.{ℤ, pos, negsuc, ltb_ℤ, eqb_ℤ}
use nanodistro.Text.{isspace, isdigit, toupper, str_trim, find, string_is_true, string_is_false}
use nanodistro.Text.Number.{stoi, stoul, decimal_int}

pub record Options : Type 0 where
  pub progress_start : ℤ
  pub progress_end : ℤ
  pub report_status : Bool
  pub report_progress : Bool
  pub input_file : Bytes
  pub output_device : Bytes
  pub partition : ℤ
  pub block_size : ℕ
  pub input_offset : ℕ
  pub output_offset : ℕ
  pub count : ℕ
  pub length : ℕ
  pub report_period : ℤ
  pub print_period : ℤ
  pub force_sync : Bool
  pub open_sync : Bool

abbrev pub default_options : Options
default_options = record {
  progress_start = pos 0;
  progress_end = pos 100;
  report_status = true;
  report_progress = true;
  input_file = [];
  output_device = codes "auto";
  partition = pos 0;
  block_size = 4096;
  input_offset = 0;
  output_offset = 0;
  count = 0;
  length = 0;
  report_period = pos 1;
  print_period = pos 5;
  force_sync = false;
  open_sync = false;
}

abbrev pub int_min : ℤ
int_min = negsuc 2147483647

abbrev pub int_max : ℤ
int_max = pos 2147483647

unfoldable pub load_int : Bytes → ℤ → ℤ → Result ℤ
unfolding str_trim stoi
load_int optarg min max =
    let val : Bytes = str_trim optarg in
    stoi 10 val >>= λ r.
    if not (r.1 == nanodistro.Base.length val) || ltb_ℤ r.0 min || ltb_ℤ max r.0
    then throw invalid_argument
    else ok r.0

-- The blanks from `idx` on, with `len` for the end.
unfoldable pub skip_blanks : Bytes → ℕ → ℕ → ℕ
skip_blanks [] k idx = idx
skip_blanks (c ∷ s) k idx =
    let here = skip_blanks s 0 (suc idx) in
    let later = skip_blanks s (k - 1) idx in
    if ltb 0 k then later else if isspace c then here else idx

-- `v*=1ULL<<(pos*10)`: a shift by 64 or more is undefined.
unfoldable pub shift_unit : ℕ → ℕ → Result ℕ
shift_unit v place =
    if ltb (place * 10) 64 then ok (v * 2 ^ (place * 10) % 2 ^ 64) else throw undefined

unfoldable pub with_unit : Bytes → ℕ → ℕ → Result ℕ
unfolding shift_unit find
with_unit val v idx =
    if not (idx == nanodistro.Base.length val - 1)
    then throw invalid_argument
    else elim (find (codes "BKMGTPEZY") (toupper (get_or val idx 0) ∷ [])) [
      | none ↦ throw invalid_argument
      | some place ↦ shift_unit v place
    ]

unfoldable pub load_size : Bytes → Result ℕ
unfolding str_trim stoul skip_blanks with_unit
load_size optarg =
    let val : Bytes = str_trim optarg in
    stoul 10 val >>= λ r.
    if r.1 == 0
    then throw invalid_argument
    else if r.1 == nanodistro.Base.length val
    then ok r.0
    else with_unit val r.0 (skip_blanks val r.1 r.1)

unfoldable pub load_bool : Bytes → Result Bool
unfolding string_is_true string_is_false
load_bool optarg =
    if string_is_true optarg
    then ok true
    else if string_is_false optarg
    then ok false
    else throw invalid_argument

-- The options by their letters; `-h` prints the usage and is left out.
unfoldable pub load_option : ℕ → Bytes → Options → Result Options
unfolding load_int load_size load_bool
load_option o optarg opts =
    if o == b'S'
    then (load_int optarg (pos 0) (pos 100) >>= λ v. ok (record opts { progress_start = v }))
    else if o == b'E'
    then (load_int optarg (pos 0) (pos 100) >>= λ v. ok (record opts { progress_end = v }))
    else if o == b'r'
    then (load_bool optarg >>= λ v. ok (record opts { report_status = v }))
    else if o == b'p'
    then (load_bool optarg >>= λ v. ok (record opts { report_progress = v }))
    else if o == b'f'
    then ok (record opts { input_file = optarg })
    else if o == b'd'
    then ok (record opts { output_device = optarg })
    else if o == b'P'
    then (load_int optarg (pos 0) int_max >>= λ v. ok (record opts { partition = v }))
    else if o == b'b'
    then (load_size optarg >>= λ v. ok (record opts { block_size = v }))
    else if o == b'o'
    then (load_size optarg >>= λ v. ok (record opts { input_offset = v }))
    else if o == b's'
    then (load_size optarg >>= λ v. ok (record opts { output_offset = v }))
    else if o == b'c'
    then (load_size optarg >>= λ v. ok (record opts { count = v }))
    else if o == b'l'
    then (load_size optarg >>= λ v. ok (record opts { length = v }))
    else if o == b'i'
    then (load_int optarg int_min int_max >>= λ v. ok (record opts { report_period = v }))
    else if o == b't'
    then (load_int optarg int_min int_max >>= λ v. ok (record opts { print_period = v }))
    else if o == b'F'
    then ok (record opts { force_sync = true })
    else if o == b'C'
    then ok (record opts { open_sync = true })
    else throw invalid_argument

-- The pairs that `getopt_long` gives, in order.
unfoldable pub load_options : List (ℕ × Bytes) → Options → Result Options
unfolding load_option
load_options [] opts = ok opts
load_options ((o, optarg) ∷ rest) opts = load_option o optarg opts >>= load_options rest

unfoldable pub valid_options : Options → Result Options
valid_options opts =
    if is_empty opts.input_file
    then throw invalid_argument
    else if ltb_ℤ opts.progress_end opts.progress_start
    then throw invalid_argument
    else if opts.block_size == 0
    then throw invalid_argument
    else if not (opts.count == 0)
        && not (opts.length == 0)
        && not (opts.count * opts.block_size % 2 ^ 64 == opts.length)
    then throw invalid_argument
    else if not (eqb_ℤ opts.partition (pos 0)) && not (eqb opts.output_device (codes "auto"))
    then throw invalid_argument
    else ok opts

-- What `fstat`, with the ioctl BLKGETSIZE64 for a block device, tells of a file that is open.
pub data FileKind : Type 0 where
  regular : ℕ → FileKind
  block_device : ℕ → FileKind
  other_file : FileKind

-- The operating system and the context of the installer: a file by its name, none if it cannot be
-- opened, and the name of the disk.
pub record System : Type 0 where
  pub open_file : Bytes → Option FileKind
  pub disk_device : Bytes

unfoldable pub last_byte : Bytes → ℕ
last_byte [] = 0
last_byte (c ∷ s) = let rest = last_byte s in if is_empty s then c else rest

-- the name of the output device
unfoldable pub device_name : System → Options → Result Bytes
unfolding decimal_int last_byte
device_name sys opts =
    if not (eqb opts.output_device (codes "auto"))
    then ok opts.output_device
    else if is_empty sys.disk_device
    then throw invalid_argument
    else if eqb_ℤ opts.partition (pos 0)
    then ok sys.disk_device
    else ok (
        (if isdigit (last_byte sys.disk_device)
          then sys.disk_device ++ codes "p"
          else sys.disk_device)
        ++ decimal_int opts.partition)

unfoldable pub real_size : FileKind → Result ℕ
real_size (regular n) = ok n
real_size (block_device n) = ok n
real_size other_file = throw invalid_argument

unfoldable pub device_size : FileKind → ℕ
device_size (regular n) = n
device_size (block_device n) = n
device_size other_file = 0

-- The length from the input file, when neither it nor the count is set.
unfoldable pub default_length : FileKind → Options → Result Options
unfolding real_size
default_length input opts =
    if not (opts.count == 0 && opts.length == 0)
    then ok opts
    else (real_size input >>= λ realsize.
        if ltb realsize opts.input_offset
        then throw invalid_argument
        else if realsize - opts.input_offset == 0
        then throw invalid_argument
        else ok (record opts { length = realsize - opts.input_offset }))

-- `count` is the truth value of the sum: `!=` binds less tightly than `+`.
unfoldable pub fill_count : Options → Options
fill_count opts =
    if opts.count == 0 && not (opts.length == 0)
    then record opts {
      count =
          if not ((opts.length / opts.block_size + opts.length % opts.block_size) % 2 ^ 64 == 0)
          then 1
          else 0;
    }
    else opts

unfoldable pub fill_length : Options → Options
fill_length opts =
    if not (opts.count == 0) && opts.length == 0
    then record opts { length = opts.count * opts.block_size % 2 ^ 64 }
    else opts

-- The size of the device less the offset, of `size_t`.
abbrev pub room : ℕ → ℕ → ℕ
room devsize offset = (devsize + (2 ^ 64 - offset % 2 ^ 64)) % 2 ^ 64

unfoldable pub check_room : FileKind → Options → Result Options
unfolding device_size
check_room output opts =
    if not (device_size output == 0) && ltb (device_size output) opts.output_offset
    then throw invalid_argument
    else if ltb (room (device_size output) opts.output_offset) opts.length
    then throw invalid_argument
    else ok opts

abbrev pub opened : Option FileKind → Result FileKind
opened none = throw errno_error
opened (some kind) = ok kind

unfoldable pub open_device : System → Options → Result Options
unfolding device_name default_length fill_count fill_length check_room
open_device sys opts = opened (sys.open_file opts.input_file) >>= λ input.
    device_name sys opts >>= λ dev. opened (sys.open_file dev) >>= λ output.
    default_length input (record opts { output_device = dev }) >>= λ opts.
    check_room output (fill_length (fill_count opts))
