-- ===== src/Netblk/Backend.antt =====
-- `netblk_backend` (src/netblk/internal.h): the interface of a source of blocks, with the retrying
-- `do_read` and `do_write` of src/netblk/netblk.cpp. `read` and `write` are the virtual methods; a
-- backend has a state of its own, and what it stores at the caller's buffer is a list of bytes.
pub mod Retry
pub mod Mem
use Prim.Native.Nat.{bit_and}
use nanodistro.Base.{
  ℕ, zero, suc, ◌+◌, ◌-◌, ◌^◌, max, List, Bytes, Bool, ◌&&◌, ◌==◌, ltb, leb, get_or, length,
  if◌then◌else◌,
}
use nanodistro.Base.Int.{ℤ, pos, negsuc, sub_ℕ}

-- How a virtual `read` or `write` ends: a value, an `ErrnoErrorImpl`, or another exception.
pub data Outcome : Type 0 where
  returned : ℕ → Outcome
  errno_thrown : ℕ → Outcome
  other_thrown : Outcome

pub record Backend (S : Type 0) : Type 0 where
  pub access : ℕ
  pub get_size : ℕ
  pub retry : ℕ
  pub read : S → ℕ → ℕ → S × Bytes × Outcome
  pub write : S → ℕ → Bytes → S × Outcome

abbrev pub s_iroth : ℕ
s_iroth = 4

abbrev pub s_iwoth : ℕ
s_iwoth = 2

abbrev pub eio : ℕ
eio = 5

abbrev pub eperm : ℕ
eperm = 1

-- A byte-addressed memory, and a block of bytes stored at an address.
abbrev pub Memory : Type 0
Memory = ℕ → ℕ

abbrev pub store_at : ℕ → Bytes → Memory → Memory
store_at p bytes m i = if leb p i && ltb i (p + length bytes) then get_or bytes (i - p) 0 else m i

-- A `size_t` read as a `ssize_t`.
abbrev pub to_ssize : ℕ → ℤ
to_ssize n = if ltb n (2 ^ 63) then pos n else negsuc (2 ^ 64 - 1 - n)

-- The two handlers of a round: an error number that is not 0 replaces `ret`, and the loop goes on.
unfoldable pub after_round {ℓ} : {R : Type ℓ} → Outcome → ℤ → (ℕ → R) → (ℤ → R) → R
after_round (returned k) ret done again = done k
after_round (errno_thrown e) ret done again = again (if e == 0 then ret else sub_ℕ 0 e)
after_round other_thrown ret done again = again ret

module _ {S : Type 0} (b : Backend S) where
  unfoldable pub can_access : ℕ → Bool
  can_access mode = bit_and b.access mode == mode

  -- the rounds left of the loop of `do_read`, and the variable `ret`
  unfoldable pub read_rounds : ℕ → ℤ → ℕ → ℕ → ℕ → S → Memory → S × Memory × ℤ
  read_rounds zero ret offset buf size s m = (s, m, ret)
  read_rounds (suc n) ret offset buf size s m =
      let (s', bytes, outcome) = b.read s offset size in
      let m' = store_at buf bytes m in
      after_round outcome ret (λ k. (s', m', to_ssize k))
        (λ ret'. read_rounds n ret' offset buf size s' m')

  -- `buf` is an address of the memory.
  unfoldable pub do_read : ℕ → ℕ → ℕ → S → Memory → S × Memory × ℤ
  unfolding can_access
  do_read offset buf size s m =
      if can_access s_iroth
      then read_rounds (max 1 b.retry) (sub_ℕ 0 eio) offset buf size s m
      else (s, m, sub_ℕ 0 eperm)

  unfoldable pub write_rounds : ℕ → ℤ → ℕ → Bytes → S → S × ℤ
  write_rounds zero ret offset bytes s = (s, ret)
  write_rounds (suc n) ret offset bytes s =
      let (s', outcome) = b.write s offset bytes in
      after_round outcome ret (λ k. (s', to_ssize k)) (λ ret'. write_rounds n ret' offset bytes s')

  unfoldable pub do_write : ℕ → Bytes → S → S × ℤ
  unfolding can_access
  do_write offset bytes s =
      if can_access s_iwoth
      then write_rounds (max 1 b.retry) (sub_ℕ 0 eio) offset bytes s
      else (s, sub_ℕ 0 eperm)
