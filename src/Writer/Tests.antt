-- ===== src/Writer/Tests.antt =====
-- The theorems on `helper write` at a copy of five bytes in blocks of two.
use nanodistro.Base.{
  ℕ, ◌+◌, ◌-◌, ◌^◌, ◌≤◌, ◌<◌, min, ◌≡◌, refl, sym, ap, ◌∙◌, true, eqb, Bool-cases, inl, inr,
  if◌then◌else◌, List, [], ◌∷◌, Bytes, codes, Option, some, none, Result, ok, throw, arith,
}
use nanodistro.Base.Int.{pos}
use nanodistro.Clock.{Timestamp}
use nanodistro.Writer.{
  File, Reply, done, failed, ReadReply, got, read_failed, enosys, Kernel, CopyContext, do_copy,
}
use nanodistro.Writer.Faithful.{spliced, IsFaithful}
use nanodistro.Writer.Copied.{IsCopied, do_copy-IsCopied}
use nanodistro.Writer.Prompt.{IsPrompt}
use nanodistro.Writer.Finish.{do_copy-finishes}
use nanodistro.Writer.Options.{
  Options, default_options, FileKind, block_device, regular, System, device_size, device_name,
  open_device,
}
use nanodistro.Writer.Main.{start_copy, start-IsCopied, helper_write, helper_write-copies}
use nanodistro.Writer.Bounds.{open_device-fits}

abbrev input : File
input j = 10 + j

abbrev zeros : File
zeros j = 0

abbrev epoch : Timestamp
epoch = record { tv_sec = pos 0; tv_nsec = pos 0 }

-- Only reading and writing are there; the input has 100 bytes.
abbrev plain_kernel : Kernel
plain_kernel = record {
  copy_file_range = λ c i o len out. failed enosys;
  sendfile = λ c i o len out. failed enosys;
  pread64 = λ c i len. got (min len (100 - i)) (λ j. input (i + j));
  pwrite64 = λ c buffer len o out. done len (spliced buffer 0 o len out);
  malloc = λ c n. true;
  now = λ c. epoch;
}

missing : (n : ℕ) (new : File) → failed enosys ≡ done n new → ⊥
missing n new h = ground (arith, h)

abbrev count_of : Reply → ℕ
count_of (done n new) = n
count_of (failed e) = 0

abbrev file_of : Reply → File
file_of (done n new) = new
file_of (failed e) = zeros

abbrev read_count : ReadReply → ℕ
read_count (got n buffer) = n
read_count (read_failed e) = 0

abbrev read_file : ReadReply → File
read_file (got n buffer) = buffer
read_file (read_failed e) = zeros

plain_kernel-IsFaithful : IsFaithful plain_kernel input
plain_kernel-IsFaithful = record {
  range_copies = λ c i o len out n new h. absurd (missing n new h);
  send_copies = λ c i o len out n new h. absurd (missing n new h);
  read_copies = λ c i len n buffer h.
      (omega (arith, ap read_count h), λ j l. ap (λ (r : ReadReply). read_file r j) (sym h));
  write_copies = λ c buffer len o out n new h. (
    omega (arith, ap count_of h),
    λ j.
        ap (λ (r : Reply). file_of r j) (sym h)
        ∙ ap (λ (m : ℕ). spliced buffer 0 o m out j) (ap count_of h),
  );
}

plain_kernel-IsPrompt : IsPrompt plain_kernel 100
plain_kernel-IsPrompt = record {
  range_moves = λ c i o len out l b. tt;
  send_moves = λ c i o len out l b. tt;
  reads = λ c i len l b. (min len (100 - i), (λ j. input (i + j)), omega (arith, l, b), refl);
  writes = λ c buffer len o out l. (len, spliced buffer 0 o len out, l, refl);
  allocates = λ c n. refl;
}

abbrev five : Options
five = record default_options { block_size = 2; length = 5; input_offset = 3; output_offset = 7 }

abbrev begun : CopyContext
begun = record (start_copy five zeros epoch) { use_copy_file_range = true; use_sendfile = true }

begun-IsCopied : IsCopied input begun begun
unfolding start_copy
begun-IsCopied = record {
  same_input = refl;
  same_output = refl;
  same_total = refl;
  within = omega arith;
  copied = (start-IsCopied input five zeros epoch).copied;
}

do_copy-finishes_example :
    (t : CopyContext) × (do_copy plain_kernel 6 begun ≡ ok t) × (t.stat.cur.written ≡ 5)
unfolding start_copy
do_copy-finishes_example =
    do_copy-finishes plain_kernel input 100 begun begun plain_kernel-IsFaithful
      plain_kernel-IsPrompt (omega arith) (omega arith) (λ l. absurd (omega (arith, l)))
      begun-IsCopied

-- the state that the copy ends with
abbrev copied : CopyContext
copied = do_copy-finishes_example.0

do_copy-IsCopied_example : IsCopied input begun copied
do_copy-IsCopied_example =
    do_copy-IsCopied plain_kernel input plain_kernel-IsFaithful 6 begun begun copied begun-IsCopied
      do_copy-finishes_example.1

-- A file of 100 bytes and a disk of 4096.
abbrev two_files : System
two_files = record {
  open_file =
      λ name. if eqb name (codes "in") then some (regular 100) else some (block_device 4096);
  disk_device = codes "/dev/vda";
}

two_files-sizes :
    (name : Bytes) (kind : FileKind)
    → two_files.open_file name ≡ some kind
    → device_size kind < 2 ^ 64
unfolding device_size
two_files-sizes name kind h = elim (Bool-cases (eqb name (codes "in"))) [
  | inl e ↦ omega (arith, ap size_of (rw e at h))
  | inr e ↦ omega (arith, ap size_of (rw e at h))
]
  where
    size_of : Option FileKind → ℕ
    size_of none = 0
    size_of (some k) = device_size k

abbrev arguments : List (ℕ × Bytes)
arguments = (b'f', codes "in") ∷ (b'b', codes "2") ∷ (b'l', codes "3") ∷ []

abbrev chosen : Options
chosen = record default_options { input_file = codes "in"; block_size = 2; length = 3 }

abbrev chosen_device : Options
chosen_device = record chosen { output_device = codes "/dev/vda"; count = 1 }

opens : open_device two_files chosen ≡ ok chosen_device
unfolding open_device eqb
opens = refl

open_device-fits_example :
    (dev : Bytes) × (output : FileKind) × (device_name two_files chosen ≡ ok dev)
    × (two_files.open_file dev ≡ some output)
    × (0 < device_size output → 0 + 3 ≤ device_size output)
open_device-fits_example = open_device-fits two_files chosen chosen_device two_files-sizes opens

-- what the command ends with
abbrev result_of : Result (Options × CopyContext) → Options × CopyContext
result_of (ok r) = r
result_of (throw e) = (five, begun)

abbrev command : Result (Options × CopyContext)
command = helper_write two_files plain_kernel 4 arguments (λ name. zeros) epoch

abbrev ended : CopyContext
ended = (result_of command).1

command-runs : command ≡ ok (chosen_device, ended)
unfolding helper_write eqb
command-runs = refl

helper_write-copies_example : ended.out 2 ≡ spliced input 0 0 3 zeros 2
helper_write-copies_example =
    helper_write-copies two_files plain_kernel input 4 arguments (λ name. zeros) epoch chosen_device
      ended plain_kernel-IsFaithful command-runs 2
