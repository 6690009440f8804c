-- ===== src/Files/Transfers.antt =====
-- Whole transfers through a file, and the wait that does not end (src/lib/filesystem.cpp).
use nanodistro.Base.{
  ℕ, zero, suc, ◌-◌, ◌≤◌, ◌<◌, min, Bool, true, false, List, [], ◌∷◌, ◌++◌, append_assoc,
  append-nil, Bytes, length, length-take, length-drop, take, drop, take-append-drop, ◌==◌,
  if◌then◌else◌, Result, Error, runtime_error, ap₂, ok, throw, ◌>>=◌, >>=-ok, All, ◌≡◌, ◌≢◌, refl,
  sym, ap, ◌∙◌, arith,
}
use nanodistro.Netblk.Backend.Mem.{take-whole}
use nanodistro.Files.{
  Answer, up_to, interrupted, again, failed, Polled, ready, poll_interrupted, poll_failed,
  full_read, io_wait, full_write,
}

-- The kernel makes progress: it takes or gives a byte, or it is interrupted.
abbrev pub IsPrompt : Answer → Type 0
IsPrompt (up_to k) = 0 < k
IsPrompt interrupted = Unit
IsPrompt again = ⊥
IsPrompt failed = ⊥

-- How many of the answers are not interrupted.
abbrev pub progress : List Answer → ℕ
progress [] = 0
progress (up_to k ∷ answers) = suc (progress answers)
progress (interrupted ∷ answers) = progress answers
progress (again ∷ answers) = progress answers
progress (failed ∷ answers) = progress answers

-- Where every answer makes progress, and there are as many as bytes, all bytes are taken, in order.
pub full_write-whole :
    (answers : List Answer) (polls : List Polled) (left taken : Bytes)
    → All IsPrompt answers
    → length left ≤ progress answers
    → full_write answers polls left taken ≡ ok (taken ++ left)
unfolding full_write
full_write-whole answers polls [] taken h l = ap ok (sym (append-nil taken))
full_write-whole [] polls (c ∷ left) taken h l = absurd (omega (arith, l))
full_write-whole (interrupted ∷ answers) polls (c ∷ left) taken h l =
    full_write-whole answers polls (c ∷ left) taken h.1 l
full_write-whole (again ∷ answers) polls (c ∷ left) taken h l = absurd h.0
full_write-whole (failed ∷ answers) polls (c ∷ left) taken h l = absurd h.0
full_write-whole (up_to k ∷ answers) polls (c ∷ left) taken h l =
    let some_bytes : (k == 0) ≡ false = ground (arith, h.0) in
    rw some_bytes (
      full_write-whole answers polls (drop k (c ∷ left)) (taken ++ take k (c ∷ left)) h.1
        (omega (arith, l, h.0, length-drop k (c ∷ left)))
      ∙ ap ok (append_assoc taken (take k (c ∷ left)) (drop k (c ∷ left)))
      ∙ ap (λ (t : Bytes). ok (taken ++ t)) (take-append-drop k (c ∷ left)))

passed :
    {A : Type 0} (b : Bool) (e : Error) (r : Result A) (a : A)
    → (if b then throw e else r) ≡ ok a
    → r ≡ ok a
passed true e r a h = absurd (ground (arith, h))
passed false e r a h = h

-- The wait for a descriptor ends with an exception, or not at all: where the descriptor is ready it
-- goes on to poll.
pub io_wait-never : (polls rest : List Polled) → io_wait polls ≢ ok rest
unfolding io_wait
io_wait-never [] rest h = ground (arith, h)
io_wait-never (poll_interrupted ∷ polls) rest h = io_wait-never polls rest h
io_wait-never (poll_failed ∷ polls) rest h = ground (arith, h)
io_wait-never (ready n ∷ polls) rest h =
    io_wait-never polls rest (passed (n == 0) runtime_error (io_wait polls) rest h)

-- A write of some bytes that has to wait for its descriptor never returns, whatever follows.
pub full_write-again :
    (answers : List Answer) (polls : List Polled) (c : ℕ) (left taken r : Bytes)
    → full_write (again ∷ answers) polls (c ∷ left) taken ≢ ok r
unfolding full_write
full_write-again answers polls c left taken r h =
    let (rest, waited, e) =
      >>=-ok (io_wait polls) (λ polls'. full_write answers polls' (c ∷ left) taken) r h in
    io_wait-never polls rest waited

take-parts :
    (a s : ℕ) (xs : Bytes)
    → a ≤ s
    → (take a xs ++ take (s - length (take a xs)) (drop a xs) ≡ take s xs)
      × (drop (s - length (take a xs)) (drop a xs) ≡ drop s xs)
take-parts zero s xs h = let e : s - 0 ≡ s = omega arith in rw e (refl, refl)
take-parts (suc a) zero xs h = absurd (omega (arith, h))
take-parts (suc a) (suc s) [] h = let e : suc s - 0 ≡ suc s = omega arith in rw e (refl, refl)
take-parts (suc a) (suc s) (x ∷ xs) h =
    let (t, d) = take-parts a s xs (omega (arith, h)) in
    let e : suc s - suc (length (take a xs)) ≡ s - length (take a xs) = omega arith in
    rw e (ap (◌∷◌ x) t, d)

-- Where every answer makes progress, and there are as many as bytes are asked for, the buffer holds
-- the bytes that come first, as many as there are, and the others are left.
pub full_read-whole :
    (answers : List Answer) (input : Bytes) (size : ℕ) (buf : Bytes)
    → All IsPrompt answers
    → size ≤ progress answers
    → full_read answers input size buf ≡ ok (buf ++ take size input, drop size input)
unfolding full_read
full_read-whole answers input zero buf h l =
    ap (λ (t : Bytes). ok (t, input)) (sym (append-nil buf))
full_read-whole [] input (suc n) buf h l = absurd (omega (arith, l))
full_read-whole (interrupted ∷ answers) input (suc n) buf h l =
    full_read-whole answers input (suc n) buf h.1 l
full_read-whole (again ∷ answers) input (suc n) buf h l = absurd h.0
full_read-whole (failed ∷ answers) input (suc n) buf h l = absurd h.0
full_read-whole (up_to k ∷ answers) [] (suc n) buf h l =
    let nothing : (length {A = ℕ} (take (min k (suc n)) []) == 0) ≡ true =
      ground (arith, length-take {A = ℕ} (min k (suc n)) []) in
    rw nothing (ap (λ (t : Bytes). ok (t, [])) (sym (append-nil buf)))
full_read-whole (up_to k ∷ answers) (c ∷ input) (suc n) buf h l =
    let a : ℕ = min k (suc n) in
    let got : Bytes = take a (c ∷ input) in
    let long : length got ≡ min a (suc (length input)) = length-take a (c ∷ input) in
    let some_bytes : (length got == 0) ≡ false = ground (arith, h.0, long) in
    let (t, d) = take-parts a (suc n) (c ∷ input) (omega arith) in
    rw some_bytes (
      full_read-whole answers (drop a (c ∷ input)) (suc n - length got) (buf ++ got) h.1
        (omega (arith, l, h.0, long))
      ∙ ap (λ (r : Bytes). ok (r, drop (suc n - length got) (drop a (c ∷ input))))
          (append_assoc buf got (take (suc n - length got) (drop a (c ∷ input))))
      ∙ ap₂ (λ (r rest : Bytes). ok (buf ++ r, rest)) t d)

-- Bytes that are written to a pipe are what the other end reads, all of them and in order, however
-- the kernel cuts them on either side: where its answers make progress, and there are as many of
-- them as bytes.
pub full_read-full_write :
    (answers answers' : List Answer) (polls : List Polled) (bytes : Bytes)
    → All IsPrompt answers
    → All IsPrompt answers'
    → length bytes ≤ progress answers
    → length bytes ≤ progress answers'
    → (full_write answers polls bytes [] >>= (λ s. full_read answers' s (length bytes) []))
      ≡ ok (bytes, [])
full_read-full_write answers answers' polls bytes h g l m =
    ap (λ (r : Result Bytes). r >>= (λ s. full_read answers' s (length bytes) []))
      (full_write-whole answers polls bytes [] h l)
    ∙ full_read-whole answers' bytes (length bytes) [] g m
    ∙ ap₂ (λ (t d : Bytes). ok (t, d)) (take-whole bytes) (drop-whole bytes)
  where
    drop-whole : (xs : Bytes) → drop (length xs) xs ≡ []
    drop-whole [] = refl
    drop-whole (x ∷ xs) = drop-whole xs
