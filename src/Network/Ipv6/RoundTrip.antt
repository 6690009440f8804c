-- ===== src/Network/Ipv6/RoundTrip.antt =====
-- IPv6 addresses are read back from their text (src/network/ipv6.cpp).
use nanodistro.Base.{
  ℕ, zero, suc, ◌+◌, ◌≤◌, ◌<◌, Bool, true, false, ◌||◌, List, [], ◌∷◌, ◌++◌, append_assoc,
  append-nil, Bytes, codes, length, length-append, length-replicate, eqb, eqb_sound, is_empty,
  replicate, ltb, ◌==◌, if◌then◌else◌, some, Result, ok, ◌>>=◌, All, All-append, ◌≡◌, refl, sym, ap,
  ◌∙◌, arith, Bool-cases, inl, inr,
}
use nanodistro.Text.{find, starts_with, str_split, in_range}
use nanodistro.Text.Joined.{Lacks, find-none}
use nanodistro.Network.Addresses.{up_to, before_slash}
use nanodistro.Network.Ipv6.{
  hex_text, empty_ipv6, count_items, any_empty, skips_once, jump, segments, whole_addr,
  parse_segments, parse_text6, parse_ipv6,
}
use nanodistro.Network.Ipv6.Items.{hex_text-IsItem, Splits, Splits-more}
use nanodistro.Network.Ipv6.Printed.{behind, joined}
use nanodistro.Network.Ipv6.Segments.{
  value_items, side, hex_text-Lacks, Splits-joined, Splits-front, length-value_items,
  any_empty-value_items, count_items-value_items, NoDot, value_items-NoDot, side-NoDot,
  back_item-NoDot, has_dot-Lacks, skips_once-front, segments-value_items,
}

pub joined-Lacks :
    (upper : Bool) (c : ℕ) (gs : List ℕ)
    → (in_range 48 57 c || in_range 65 70 c || in_range 97 102 c) ≡ false
    → (58 == c) ≡ false
    → Lacks c (joined upper gs)
joined-Lacks upper c gs h colon = all gs
  where
    rest : (gs : List ℕ) → Lacks c (behind upper gs)
    rest [] = tt
    rest (g ∷ gs) =
        (colon, All-append _ (hex_text upper g) _ (hex_text-Lacks upper c g h) (rest gs))

    all : (gs : List ℕ) → Lacks c (joined upper gs)
    all [] = tt
    all (g ∷ gs) = All-append _ (hex_text upper g) _ (hex_text-Lacks upper c g h) (rest gs)

pub length-joined : (upper : Bool) (gs : List ℕ) → length gs ≤ length (joined upper gs)
length-joined upper gs = all gs
  where
    rest : (gs : List ℕ) → length gs ≤ length (behind upper gs)
    rest [] = omega arith
    rest (g ∷ gs) = omega (arith, rest gs, length-append (hex_text upper g) (behind upper gs))

    all : (gs : List ℕ) → length gs ≤ length (joined upper gs)
    all [] = omega arith
    all (g ∷ gs) = omega (
      arith,
      rest gs,
      length-append (hex_text upper g) (behind upper gs),
      (hex_text-IsItem upper g).long,
    )

no_hex : (s : Bytes) → Lacks 120 s → starts_with s (codes "0x") ≡ false
no_hex [] h = refl
no_hex (c ∷ []) h = ground arith
no_hex (c ∷ d ∷ s) h = let e : (d == 120) ≡ false = h.1.0 in rw e (ground arith)

-- A text that is longer than two colons, without a slash and without an x, is split.
pub parse_ipv6-split :
    (little : Bool) (s : Bytes) (items : List Bytes)
    → 2 < length s
    → Lacks 47 s
    → Lacks 120 s
    → Splits s items
    → parse_ipv6 little s ≡ parse_segments little (some items)
unfolding parse_ipv6 parse_text6 str_split
parse_ipv6-split little s items long slash x splits =
    let short : before_slash s ≡ s = ap (up_to s) (find-none 47 s slash) in
    let some_text : is_empty s ≡ false = full s long in
    let other : eqb s (codes "::") ≡ false = elim (Bool-cases (eqb s (codes "::"))) [
      | inl e ↦ absurd (omega (arith, long, ap length (eqb_sound s (codes "::") e)))
      | inr e ↦ e
    ] in
    ap (parse_text6 little) short
    ∙ rw (some_text, other, no_hex s x, parse_text6)
        (ap (parse_segments little) (splits (suc (length s)) (omega arith)))
  where
    full : (s : Bytes) → 2 < length s → is_empty s ≡ false
    full [] h = absurd (omega (arith, h))
    full (c ∷ s) h = refl

-- Items that pass the counts, with no dot in the last one.
parse_segments-plain :
    (little : Bool) (items : List Bytes)
    → length items ≤ 8 + (if any_empty items then 1 else 0)
    → skips_once items ≡ true
    → All NoDot items
    → parse_segments little (some items)
      ≡ (segments little (count_items items) false 0 empty_ipv6 items >>= whole_addr)
unfolding parse_segments
parse_segments-plain little items few once plain =
    let fits : ltb (8 + (if any_empty items then 1 else 0)) (length items) ≡ false =
      ground (arith, few) in
    let none_more : count_items items + 0 ≡ count_items items = omega arith in
    rw (fits, once, back_item-NoDot items plain) (rw none_more refl)

replicate-add : (m n : ℕ) → replicate {A = ℕ} (m + n) 0 ≡ replicate m 0 ++ replicate n 0
replicate-add zero n = ap (λ (k : ℕ). replicate {A = ℕ} k 0) (omega arith)
replicate-add (suc m) n =
    let e : suc m + n ≡ suc (m + n) = omega arith in
    rw e (ap (λ (t : List ℕ). 0 ∷ t) (replicate-add m n))

segments-all :
    (upper little : Bool) (nonempty : ℕ) (a : List ℕ)
    → length a ≡ 8
    → All (λ g. g < 65536) a
    → segments little nonempty false 0 empty_ipv6 (value_items upper a) ≡ ok (8, a)
unfolding segments
segments-all upper little nonempty a l h =
    let eight : length a + 0 ≡ 8 = omega (arith, l) in
    ap (segments little nonempty false 0 empty_ipv6) (sym (append-nil (value_items upper a)))
    ∙ ap (λ (k : ℕ). segments little nonempty false 0 (replicate k 0) (value_items upper a ++ []))
        (sym eight)
    ∙ segments-value_items upper little false nonempty 0 [] a [] (omega (arith, l)) h
    ∙ ap (λ (t : List ℕ). ok (length a, t)) (append-nil a)
    ∙ ap (λ (k : ℕ). ok (k, a)) l

once-value_items : (upper : Bool) (a : List ℕ) → skips_once (value_items upper a) ≡ true
unfolding skips_once
once-value_items upper [] = refl
once-value_items upper (g ∷ []) = refl
once-value_items upper (g ∷ g' ∷ gs) =
    rw (hex_text-IsItem upper g).full (once-value_items upper (g' ∷ gs))

-- All eight values.
pub parse-all :
    (upper little : Bool) (a : List ℕ)
    → length a ≡ 8
    → All (λ g. g < 65536) a
    → parse_ipv6 little (joined upper a) ≡ ok a
parse-all upper little a l h =
    let items : List Bytes = value_items upper a in
    let e : any_empty items ≡ false = any_empty-value_items upper a in
    parse_ipv6-split little (joined upper a) (side upper a)
      (omega (arith, l, length-joined upper a)) (joined-Lacks upper 47 a refl refl)
      (joined-Lacks upper 120 a refl refl) (Splits-joined upper a)
    ∙ ap (λ (t : List Bytes). parse_segments little (some t)) (side-items a l)
    ∙ parse_segments-plain little items (rw e (omega (arith, l, length-value_items upper a)))
        (once-value_items upper a) (value_items-NoDot upper a)
    ∙ ap (λ (r : Result (ℕ × List ℕ)). r >>= whole_addr)
        (segments-all upper little (count_items items) a l h)
  where
    side-items : (a : List ℕ) → length a ≡ 8 → side upper a ≡ value_items upper a
    side-items [] l = absurd (omega (arith, l))
    side-items (g ∷ gs) l = refl

segments-front :
    (upper little : Bool) (k n m : ℕ) (pre : List ℕ) (rest : List Bytes)
    → length pre + n + m ≡ 8
    → All (λ g. g < 65536) pre
    → segments little
        (length pre + m)
        false
        0
        (replicate (length pre + k) 0)
        (side upper pre ++ ([] ∷ rest))
      ≡ segments little (length pre + m) true (length pre + n) (pre ++ replicate k 0) rest
unfolding segments
segments-front upper little k n m [] rest l h =
    let j : jump (0 + m) 0 ≡ 0 + n = omega (arith, l) in
    let z : 0 + k ≡ k = omega arith in rw (j, z) refl
segments-front upper little k n m (g ∷ gs) rest l h =
    let j : jump (length (g ∷ gs) + m) (length (g ∷ gs)) ≡ length (g ∷ gs) + n = omega (arith, l) in
    segments-value_items upper little false (length (g ∷ gs) + m) k [] (g ∷ gs) ([] ∷ rest)
      (omega (arith, l)) h
    ∙ ap (λ (i : ℕ). segments little (length (g ∷ gs) + m) true i ((g ∷ gs) ++ replicate k 0) rest)
        j

segments-back :
    (upper little : Bool) (nonempty : ℕ) (done post : List ℕ)
    → length done + length post ≡ 8
    → All (λ g. g < 65536) post
    → segments little nonempty true
        (length done)
        (done ++ replicate (length post) 0)
        (side upper post)
      ≡ ok (8, done ++ post)
unfolding segments
segments-back upper little nonempty done [] l h =
    ap (λ (k : ℕ). ok (k, done ++ [])) (omega (arith, l))
segments-back upper little nonempty done (g ∷ gs) l h =
    let z : length (g ∷ gs) ≡ length (g ∷ gs) + 0 = omega arith in
    ap
      (λ (k : ℕ).
        segments little nonempty true (length done) (done ++ replicate k 0)
          (value_items upper (g ∷ gs)))
      z
    ∙ ap (segments little nonempty true (length done) (done ++ replicate (length (g ∷ gs) + 0) 0))
        (sym (append-nil (value_items upper (g ∷ gs))))
    ∙ segments-value_items upper little true nonempty 0 done (g ∷ gs) [] (omega (arith, l)) h
    ∙ ap (λ (t : List ℕ). ok (length (done ++ g ∷ gs), t)) (append-nil (done ++ g ∷ gs))
    ∙ ap (λ (k : ℕ). ok (k, done ++ g ∷ gs)) (omega (arith, l, length-append done (g ∷ gs)))

any_empty-middle : (xs ys : List Bytes) → any_empty (xs ++ [] ∷ ys) ≡ true
unfolding any_empty
any_empty-middle [] ys = refl
any_empty-middle (x ∷ xs) ys = rw (any_empty-middle xs ys) (last (is_empty x))
  where
    last : (b : Bool) → (b || true) ≡ true
    last true = refl
    last false = refl

length-side : (upper : Bool) (gs : List ℕ) → length (side upper gs) ≤ length gs + 1
length-side upper [] = omega arith
length-side upper (g ∷ gs) = omega (arith, length-value_items upper (g ∷ gs))

count_items-side : (upper : Bool) (gs : List ℕ) → count_items (side upper gs) ≡ length gs
unfolding count_items
count_items-side upper [] = refl
count_items-side upper (g ∷ gs) =
    ap count_items (sym (append-nil (value_items upper (g ∷ gs))))
    ∙ count_items-value_items upper (g ∷ gs) []
    ∙ omega arith

count_items-around :
    (upper : Bool) (pre post : List ℕ)
    → count_items (side upper pre ++ ([] ∷ side upper post)) ≡ length pre + length post
unfolding count_items
count_items-around upper [] post = omega (arith, count_items-side upper post)
count_items-around upper (g ∷ gs) post =
    count_items-value_items upper (g ∷ gs) ([] ∷ side upper post)
    ∙ omega (arith, count_items-side upper post)

skips_once-around :
    (upper : Bool) (pre post : List ℕ)
    → 0 < length pre + length post
    → skips_once (side upper pre ++ ([] ∷ side upper post)) ≡ true
unfolding skips_once
skips_once-around upper [] [] h = absurd (omega (arith, h))
skips_once-around upper [] (g ∷ gs) h = rw (any_empty-value_items upper (g ∷ gs)) refl
skips_once-around upper (p ∷ pre) [] h = skips_once-front upper (p ∷ pre) [] ([] ∷ [])
skips_once-around upper (p ∷ pre) (g ∷ gs) h =
    skips_once-front upper (p ∷ pre) [] (value_items upper (g ∷ gs))
    ∙ rw (any_empty-value_items upper gs) refl

-- The values around a run of zeros.
segments-around :
    (upper little : Bool) (n : ℕ) (pre post : List ℕ)
    → length pre + n + length post ≡ 8
    → All (λ g. g < 65536) pre
    → All (λ g. g < 65536) post
    → segments little
        (length pre + length post)
        false
        0
        empty_ipv6
        (side upper pre ++ ([] ∷ side upper post))
      ≡ ok (8, (pre ++ replicate n 0) ++ post)
segments-around upper little n pre post l h g =
    let ne : ℕ = length pre + length post in
    let done : List ℕ = pre ++ replicate n 0 in
    let at : length pre + n ≡ length done =
      omega (arith, length-append pre (replicate n 0), length-replicate {A = ℕ} n 0) in
    let eight : 8 ≡ length pre + (n + length post) = omega (arith, l) in
    let room : pre ++ replicate (n + length post) 0 ≡ done ++ replicate (length post) 0 =
      ap (λ (t : List ℕ). pre ++ t) (replicate-add n (length post))
      ∙ sym (append_assoc pre (replicate n 0) (replicate (length post) 0)) in
    ap
      (λ (k : ℕ).
        segments little ne false 0 (replicate k 0) (side upper pre ++ ([] ∷ side upper post)))
      eight
    ∙ segments-front upper little (n + length post) n (length post) pre (side upper post) l h
    ∙ ap
        (λ (i : ℕ).
          segments little ne true i (pre ++ replicate (n + length post) 0) (side upper post))
        at
    ∙ ap (λ (t : List ℕ). segments little ne true (length done) t (side upper post)) room
    ∙ segments-back upper little ne done post (omega (arith, l, at)) g

pub parse-around :
    (upper little : Bool) (n : ℕ) (pre post : List ℕ)
    → length pre + n + length post ≡ 8
    → 2 ≤ n
    → 0 < length pre + length post
    → All (λ g. g < 65536) pre
    → All (λ g. g < 65536) post
    → parse_ipv6 little (joined upper pre ++ (58 ∷ 58 ∷ joined upper post))
      ≡ ok ((pre ++ replicate n 0) ++ post)
parse-around upper little n pre post l two some_values h g =
    let text : Bytes = joined upper pre ++ (58 ∷ 58 ∷ joined upper post) in
    let items : List Bytes = side upper pre ++ ([] ∷ side upper post) in
    let lacks : (c : ℕ)
        → (in_range 48 57 c || in_range 65 70 c || in_range 97 102 c) ≡ false
        → (58 == c) ≡ false
        → Lacks c text =
      λ c d e.
        All-append _ (joined upper pre) _ (joined-Lacks upper c pre d e)
          (e, (e, joined-Lacks upper c post d e)) in
    let splits : Splits text items =
      Splits-front upper pre (58 ∷ joined upper post) ([] ∷ side upper post)
        (Splits-more [] (joined upper post) (side upper post) tt (Splits-joined upper post)) in
    let e : any_empty items ≡ true = any_empty-middle (side upper pre) (side upper post) in
    parse_ipv6-split little text items
      (omega (
        arith,
        some_values,
        length-joined upper pre,
        length-joined upper post,
        length-append (joined upper pre) (58 ∷ 58 ∷ joined upper post),
      ))
      (lacks 47 refl refl) (lacks 120 refl refl) splits
    ∙ parse_segments-plain little items
        (rw e (
          omega (
            arith,
            l,
            two,
            length-side upper pre,
            length-side upper post,
            length-append (side upper pre) ([] ∷ side upper post),
          )))
        (skips_once-around upper pre post some_values)
        (All-append NoDot (side upper pre) ([] ∷ side upper post) (side-NoDot upper pre)
          (has_dot-Lacks [] tt, side-NoDot upper post))
    ∙ ap (λ (k : ℕ). segments little k false 0 empty_ipv6 items >>= whole_addr)
        (count_items-around upper pre post)
    ∙ ap (λ (r : Result (ℕ × List ℕ)). r >>= whole_addr)
        (segments-around upper little n pre post l h g)

pub parse-zero : (little : Bool) → parse_ipv6 little (58 ∷ 58 ∷ []) ≡ ok empty_ipv6
unfolding parse_ipv6 parse_text6 find eqb
parse-zero little = refl
