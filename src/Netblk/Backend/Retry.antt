-- ===== src/Netblk/Backend/Retry.antt =====
-- What `do_read` leaves in the caller's buffer, over a backend that serves a fixed image.
use nanodistro.Base.{
  ℕ, zero, suc, ◌+◌, ◌-◌, ◌≤◌, ◌<◌, max, ◌≡◌, refl, arith, length, get_or, if◌then◌else◌, ◌==◌,
  Bool-cases, inl, inr, ap, ◌≢◌,
}
use nanodistro.Base.Int.{ℤ, pos, sub_ℕ}
use nanodistro.Netblk.Backend.{
  Outcome, returned, errno_thrown, other_thrown, Backend, Memory, store_at, to_ssize, can_access,
  after_round, read_rounds, do_read, s_iroth, eio,
}

-- Each `read` stores bytes of the image, at most as many as it was asked for, and returns their
-- number if it returns.
pub record Serves {S : Type 0} (image : Memory) (b : Backend S) : Type 0 where
  pub within : (s : S) (off len : ℕ) → length (b.read s off len).1 ≤ len
  pub of_image :
      (s : S) (off len i : ℕ)
      → i < length (b.read s off len).1
      → get_or (b.read s off len).1 i 0 ≡ image (off + i)
  pub counted :
      (s : S) (off len k : ℕ) → (b.read s off len).2 ≡ returned k → k ≡ length (b.read s off len).1

-- What memory holds of the image, it goes on holding.
abbrev pub Grows : Memory → Memory → Memory → Type 0
Grows image m m' = (i : ℕ) → m i ≡ image i → m' i ≡ image i

-- A negative value, as `ret` is from the start.
abbrev pub IsNegative : ℤ → Type 0
IsNegative ret = (k : ℕ) → ret ≢ pos k

after_round_rule {ℓ κ} :
    {R : Type ℓ} (P : R → Type κ) (o : Outcome) (ret : ℤ) (done : ℕ → R) (again : ℤ → R)
    → IsNegative ret
    → ((k : ℕ) → o ≡ returned k → P (done k))
    → ((r : ℤ) → IsNegative r → P (again r))
    → P (after_round o ret done again)
unfolding after_round
after_round_rule P (returned k) ret done again neg hd ha = hd k refl
after_round_rule P (errno_thrown zero) ret done again neg hd ha = ha ret neg
after_round_rule P (errno_thrown (suc e)) ret done again neg hd ha =
    ha (if suc e == 0 then ret else sub_ℕ 0 (suc e)) (λ k q. ground arith)
after_round_rule P other_thrown ret done again neg hd ha = ha ret neg

to_ssize-pos : (n k : ℕ) → to_ssize n ≡ pos k → k ≡ n
to_ssize-pos n k e = ground arith

offset_back : (o j : ℕ) → o ≤ j → o + (j - o) ≡ j
offset_back o j h = omega arith

module _ {S : Type 0} {image : Memory} (b : Backend S) (h : Serves image b) where
  store_at-Grows :
      (s : S) (off len : ℕ) (m : Memory) → Grows image m (store_at off (b.read s off len).1 m)
  store_at-Grows s off len m i e =
      ground (arith, h.of_image s off len (i - off), ap image (back off i))
    where
      back : (o j : ℕ) → o + (j - o) ≡ max o j
      back o j = omega arith

  -- What `do_read` has returned: the bytes of the image stand in the buffer.
  pub record Filled (off len : ℕ) (m : Memory) (r : S × Memory × ℤ) : Type 0 where
    pub grows : Grows image m r.1
    pub bounded : (k : ℕ) → r.2 ≡ pos k → k ≤ len
    pub stored : (k i : ℕ) → r.2 ≡ pos k → off ≤ i → i < off + k → r.1 i ≡ image i

  read_rounds-Filled :
      (n : ℕ) (ret : ℤ) (off len : ℕ) (s : S) (m : Memory)
      → IsNegative ret
      → Filled off len m (read_rounds b n ret off off len s m)
  unfolding read_rounds
  read_rounds-Filled zero ret off len s m neg = record {
    grows = λ i e. e;
    bounded = λ k e. absurd (neg k e);
    stored = λ k i e. absurd (neg k e);
  }
  read_rounds-Filled (suc n) ret off len s m neg =
      let s' : S = (b.read s off len).0 in
      let m' : Memory = store_at off (b.read s off len).1 m in
      after_round_rule (Filled off len m) (b.read s off len).2 ret (λ k. (s', m', to_ssize k))
        (λ r. read_rounds b n r off off len s' m') neg
        (λ k e. record {
          grows = store_at-Grows s off len m;
          bounded =
              λ j q. omega (arith, to_ssize-pos k j q, h.counted s off len k e, h.within s off len);
          stored = λ j i q lo hi. ground (
            arith,
            to_ssize-pos k j q,
            h.counted s off len k e,
            h.of_image s off len (i - off),
            ap image (offset_back off i lo),
          );
        })
        (λ r nr.
          let rest : Filled off len m' (read_rounds b n r off off len s' m') =
            read_rounds-Filled n r off len s' m' nr in
          record {
            grows = λ i e. rest.grows i (store_at-Grows s off len m i e);
            bounded = rest.bounded;
            stored = rest.stored;
          })

  -- After `do_read` memory holds as much of the image as before, and if the result is a number of
  -- bytes, it is at most the number that was asked for, and so many bytes of the image stand in the
  -- buffer. It may be negative.
  pub do_read-Filled :
      (off len : ℕ) (s : S) (m : Memory) → Filled off len m (do_read b off off len s m)
  unfolding do_read
  do_read-Filled off len s m = elim (Bool-cases (can_access b s_iroth)) [
    | inl e ↦
        rw e (read_rounds-Filled (max 1 b.retry) (sub_ℕ 0 eio) off len s m (λ k q. ground arith))
    | inr e ↦
        rw e (record {
          grows = λ i q. q;
          bounded = λ k q. ground arith;
          stored = λ k i q. ground arith;
        })
  ]
