-- ===== src/Network/Ipv6/Printed.antt =====
-- The shape of the text of an IPv6 address: values with colons between them, and two colons for a
-- run of zeros (src/network/ipv6.cpp).
use nanodistro.Base.{
  ℕ, zero, suc, ◌+◌, ◌-◌, ◌≤◌, ◌<◌, Bool, true, false, List, [], ◌∷◌, ◌++◌, append_assoc,
  append-nil, Bytes, codes, length, length-append, is_empty, replicate, length-replicate, drop, ltb,
  ◌==◌, if◌then◌else◌, Option, none, some, All, ◌≡◌, refl, sym, ap, ◌∙◌, arith, Bool-cases, inl,
  inr, ◌⊎◌,
}
use nanodistro.Network.Ipv6.{
  hex_text, zero_count, longest, zero_run, back_byte, with_colon, print_values,
}
use nanodistro.Network.Ipv6.Items.{IsHex, IsItem, hex_text-IsItem}

-- Each value with a colon in front, and with colons between them only.
abbrev pub behind : Bool → List ℕ → Bytes
behind upper [] = []
behind upper (g ∷ gs) = 58 ∷ (hex_text upper g ++ behind upper gs)

abbrev pub joined : Bool → List ℕ → Bytes
joined upper [] = []
joined upper (g ∷ gs) = hex_text upper g ++ behind upper gs

back_byte-append : (s t : Bytes) → is_empty t ≡ false → back_byte (s ++ t) ≡ back_byte t
unfolding back_byte
back_byte-append [] t h = refl
back_byte-append (c ∷ []) [] h = absurd (ground (arith, h))
back_byte-append (c ∷ []) (d ∷ t) h = refl
back_byte-append (c ∷ d ∷ s) t h = back_byte-append (d ∷ s) t h

back_byte-digits : (t : Bytes) → is_empty t ≡ false → All IsHex t → IsHex (back_byte t)
unfolding back_byte
back_byte-digits [] h g = absurd (ground (arith, h))
back_byte-digits (c ∷ []) h g = g.0
back_byte-digits (c ∷ d ∷ t) h g = back_byte-digits (d ∷ t) refl g.1

-- A text that ends in a value.
abbrev IsOpen : Bytes → Type 0
IsOpen ret = (is_empty ret ≡ false) × ((back_byte ret == 58) ≡ false)

with_colon-open : (ret : Bytes) → IsOpen ret → with_colon ret ≡ ret ++ 58 ∷ []
with_colon-open ret h = rw (h.0, h.1) refl

append-full : (s t : Bytes) → is_empty t ≡ false → is_empty (s ++ t) ≡ false
append-full [] t h = h
append-full (c ∷ s) t h = refl

IsOpen-append : (upper : Bool) (s : Bytes) (g : ℕ) → IsOpen (s ++ hex_text upper g)
IsOpen-append upper s g =
    let v : IsItem (hex_text upper g) = hex_text-IsItem upper g in
    let d : IsHex (back_byte (hex_text upper g)) =
      back_byte-digits (hex_text upper g) v.full v.digits in
    (
      append-full s (hex_text upper g) v.full,
      rw (back_byte-append s (hex_text upper g) v.full) (ground (arith, d)),
    )

-- The rest of the values, when there is no run of zeros ahead.
abbrev IsPast : Option (ℕ × ℕ) → ℕ → Type 0
IsPast none i = Unit
IsPast (some r) i = r.0 < i

print_values-step :
    (upper : Bool) (run : Option (ℕ × ℕ)) (i : ℕ) (ret : Bytes) (g : ℕ) (gs : List ℕ)
    → IsPast run i
    → print_values upper run 0 i ret (g ∷ gs)
      ≡ print_values upper run 0 (suc i) (with_colon ret ++ hex_text upper g) gs
unfolding print_values
print_values-step upper none i ret g gs h = refl
print_values-step upper (some r) i ret g gs h =
    let e : (i == r.0) ≡ false = ground (arith, h) in rw e refl

IsPast-suc : (run : Option (ℕ × ℕ)) (i : ℕ) → IsPast run i → IsPast run (suc i)
IsPast-suc none i h = tt
IsPast-suc (some r) i h = omega (arith, h)

print_values-behind :
    (upper : Bool) (run : Option (ℕ × ℕ)) (i : ℕ) (ret : Bytes) (gs : List ℕ)
    → IsPast run i
    → IsOpen ret
    → print_values upper run 0 i ret gs ≡ ret ++ behind upper gs
unfolding print_values
print_values-behind upper run i ret [] h o = sym (append-nil ret)
print_values-behind upper run i ret (g ∷ gs) h o =
    print_values-step upper run i ret g gs h
    ∙ print_values-behind upper run (suc i) (with_colon ret ++ hex_text upper g) gs
        (IsPast-suc run i h) (IsOpen-append upper (with_colon ret) g)
    ∙ ap (λ (t : Bytes). (t ++ hex_text upper g) ++ behind upper gs) (with_colon-open ret o)
    ∙ append_assoc (ret ++ 58 ∷ []) (hex_text upper g) (behind upper gs)
    ∙ append_assoc ret (58 ∷ []) (hex_text upper g ++ behind upper gs)

-- The same behind a text that is empty or ends in a colon.
print_values-joined :
    (upper : Bool) (run : Option (ℕ × ℕ)) (i : ℕ) (ret : Bytes) (gs : List ℕ)
    → IsPast run i
    → with_colon ret ≡ ret
    → print_values upper run 0 i ret gs ≡ ret ++ joined upper gs
unfolding print_values
print_values-joined upper run i ret [] h o = sym (append-nil ret)
print_values-joined upper run i ret (g ∷ gs) h o =
    print_values-step upper run i ret g gs h
    ∙ print_values-behind upper run (suc i) (with_colon ret ++ hex_text upper g) gs
        (IsPast-suc run i h) (IsOpen-append upper (with_colon ret) g)
    ∙ ap (λ (t : Bytes). (t ++ hex_text upper g) ++ behind upper gs) o
    ∙ append_assoc ret (hex_text upper g) (behind upper gs)

-- Two colons for a run of zeros, and what stands behind.
print_values-skip :
    (upper : Bool) (run : Option (ℕ × ℕ)) (n i : ℕ) (ret : Bytes) (gs post : List ℕ)
    → length gs ≡ n
    → print_values upper run n i ret (gs ++ post) ≡ print_values upper run 0 (i + n) ret post
unfolding print_values
print_values-skip upper run zero i ret [] post h =
    ap (λ (k : ℕ). print_values upper run 0 k ret post) (omega arith)
print_values-skip upper run zero i ret (g ∷ gs) post h = absurd (omega (arith, h))
print_values-skip upper run (suc n) i ret [] post h = absurd (omega (arith, h))
print_values-skip upper run (suc n) i ret (g ∷ gs) post h =
    print_values-skip upper run n (suc i) ret gs post (omega (arith, h))
    ∙ ap (λ (k : ℕ). print_values upper run 0 k ret post) (omega arith)

print_values-before :
    (upper : Bool) (r : ℕ × ℕ) (i : ℕ) (ret : Bytes) (pre rest : List ℕ)
    → i + length pre ≤ r.0
    → IsOpen ret
    → print_values upper (some r) 0 i ret (pre ++ rest)
      ≡ print_values upper (some r) 0 (i + length pre) (ret ++ behind upper pre) rest
unfolding print_values
print_values-before upper r i ret [] rest h o =
    ap (λ (k : ℕ). print_values upper (some r) 0 k ret rest) (omega arith)
    ∙ ap (λ (t : Bytes). print_values upper (some r) 0 (i + 0) t rest) (sym (append-nil ret))
print_values-before upper r i ret (g ∷ pre) rest h o =
    let e : (i == r.0) ≡ false = ground (arith, h) in
    let text : (with_colon ret ++ hex_text upper g) ++ behind upper pre
        ≡ ret ++ behind upper (g ∷ pre) =
      ap (λ (t : Bytes). (t ++ hex_text upper g) ++ behind upper pre) (with_colon-open ret o)
      ∙ append_assoc (ret ++ 58 ∷ []) (hex_text upper g) (behind upper pre)
      ∙ append_assoc ret (58 ∷ []) (hex_text upper g ++ behind upper pre) in
    rw e (
      print_values-before upper r (suc i) (with_colon ret ++ hex_text upper g) pre rest
        (omega (arith, h)) (IsOpen-append upper (with_colon ret) g)
      ∙ ap (λ (t : Bytes). print_values upper (some r) 0 (suc i + length pre) t rest) text
      ∙ ap (λ (k : ℕ). print_values upper (some r) 0 k (ret ++ behind upper (g ∷ pre)) rest)
          (omega arith))

print_values-front :
    (upper : Bool) (r : ℕ × ℕ) (pre rest : List ℕ)
    → length pre ≡ r.0
    → print_values upper (some r) 0 0 [] (pre ++ rest)
      ≡ print_values upper (some r) 0 r.0 (joined upper pre) rest
unfolding print_values
print_values-front upper r [] rest h = ap (λ (k : ℕ). print_values upper (some r) 0 k [] rest) h
print_values-front upper r (g ∷ pre) rest h =
    let e : (0 == r.0) ≡ false = ground (arith, h) in
    rw e (
      print_values-before upper r 1 (hex_text upper g) pre rest (omega (arith, h))
        (IsOpen-append upper [] g)
      ∙ ap (λ (k : ℕ). print_values upper (some r) 0 k (joined upper (g ∷ pre)) rest)
          (omega (arith, h)))

print_values-run :
    (upper : Bool) (r : ℕ × ℕ) (ret : Bytes) (z : ℕ) (zs post : List ℕ)
    → suc (length zs) ≡ r.1
    → print_values upper (some r) 0 r.0 ret (z ∷ (zs ++ post))
      ≡ ret ++ (58 ∷ 58 ∷ joined upper post)
unfolding print_values
print_values-run upper r ret z zs post h =
    let e : (r.0 == r.0) ≡ true = ground arith in
    let last : back_byte (ret ++ codes "::") ≡ 58 =
      back_byte-append ret (codes "::") refl ∙ colon in
    let closed : with_colon (ret ++ codes "::") ≡ ret ++ codes "::" =
      rw (append-full ret (codes "::") refl, last) refl in
    rw e (
      print_values-skip upper (some r) (r.1 - 1) (suc r.0) (ret ++ codes "::") zs post
        (omega (arith, h))
      ∙ print_values-joined upper (some r) (suc r.0 + (r.1 - 1)) (ret ++ codes "::") post
          (omega arith) closed
      ∙ append_assoc ret (codes "::") (joined upper post))
  where
    colon : back_byte (codes "::") ≡ 58
    colon = refl

-- A run of zeros of an address, with what stands around it.
pub record IsRun (a : List ℕ) (r : ℕ × ℕ) : Type 0 where
  pub pre : List ℕ
  pub post : List ℕ
  pub split : a ≡ pre ++ (replicate r.1 0 ++ post)
  pub place : length pre ≡ r.0

zero_count-parts : (gs : List ℕ) → gs ≡ replicate (zero_count gs) 0 ++ drop (zero_count gs) gs
unfolding zero_count
zero_count-parts [] = refl
zero_count-parts (g ∷ gs) = elim (Bool-cases (g == 0)) [
  | inl e ↦
      let z : g ≡ 0 = ground (arith, e) in
      rw e (rw z (ap (λ (t : List ℕ). 0 ∷ t) (zero_count-parts gs)))
  | inr e ↦ rw e refl
]

longest-IsRun :
    (a front gs : List ℕ) (skip i : ℕ) (best : ℕ × ℕ)
    → a ≡ front ++ gs
    → length front ≡ i
    → IsRun a best
    → IsRun a (longest skip i best gs)
unfolding longest
longest-IsRun a front [] skip i best e l v = v
longest-IsRun a front (g ∷ gs) (suc skip) i best e l v =
    longest-IsRun a (front ++ g ∷ []) gs skip (suc i) best
      (e ∙ sym (append_assoc front (g ∷ []) gs)) (omega (arith, l, length-append front (g ∷ []))) v
longest-IsRun a front (g ∷ gs) zero i best e l v =
    let run : ℕ = zero_count (g ∷ gs) in
    let next : a ≡ (front ++ g ∷ []) ++ gs = e ∙ sym (append_assoc front (g ∷ []) gs) in
    let long : length (front ++ g ∷ []) ≡ suc i = omega (arith, l, length-append front (g ∷ [])) in
    let this : IsRun a (i, run) = record {
      pre = front;
      post = drop run (g ∷ gs);
      split = e ∙ ap (λ (t : List ℕ). front ++ t) (zero_count-parts (g ∷ gs));
      place = l;
    } in
    let pick : IsRun a (if ltb best.1 run then (i, run) else best) =
      choose (ltb best.1 run) this v in
    choose (g == 0) (longest-IsRun a (front ++ g ∷ []) gs (run - 1) (suc i) _ next long pick)
      (longest-IsRun a (front ++ g ∷ []) gs zero (suc i) best next long v)
  where
    choose :
        {a : List ℕ} {r s : ℕ × ℕ} (b : Bool) → IsRun a r → IsRun a s → IsRun a (if b then r else s)
    choose true v w = v
    choose false v w = w

-- The text of an address that is not mapped: all values, or those around a run of two zeros or more.
pub print_values-cases :
    (upper : Bool) (a : List ℕ)
    → (print_values upper (zero_run a) 0 0 [] a ≡ joined upper a)
      ⊎ ((r : ℕ × ℕ) × (v : IsRun a r) × (2 ≤ r.1)
          × (print_values upper (zero_run a) 0 0 [] a
              ≡ joined upper v.pre ++ (58 ∷ 58 ∷ joined upper v.post)))
unfolding zero_run
print_values-cases upper a =
    let best : ℕ × ℕ = longest 0 0 (0, 0) a in
    let v : IsRun a best =
      longest-IsRun a [] a 0 0 (0, 0) refl refl
        (record { pre = []; post = a; split = refl; place = refl }) in
    elim (Bool-cases (ltb best.1 2)) [
      | inl e ↦ inl (rw e (print_values-joined upper none 0 [] a tt refl))
      | inr e ↦ inr (best, v, ground (arith, e), rw e (around best v (ground (arith, e))))
    ]
  where
    front :
        (r : ℕ × ℕ) (v : IsRun a r) (n : ℕ)
        → r.1 ≡ suc n
        → print_values upper (some r) 0 0 [] (v.pre ++ (0 ∷ (replicate n 0 ++ v.post)))
          ≡ joined upper v.pre ++ (58 ∷ 58 ∷ joined upper v.post)
    front r v n e =
        print_values-front upper r v.pre (0 ∷ (replicate n 0 ++ v.post)) v.place
        ∙ print_values-run upper r (joined upper v.pre) 0 (replicate n 0) v.post
            (omega (arith, e, length-replicate {A = ℕ} n 0))

    around :
        (r : ℕ × ℕ) (v : IsRun a r)
        → 2 ≤ r.1
        → print_values upper (some r) 0 0 [] a
          ≡ joined upper v.pre ++ (58 ∷ 58 ∷ joined upper v.post)
    around r v h =
        let e : r.1 ≡ suc (r.1 - 1) = omega (arith, h) in
        ap (print_values upper (some r) 0 0 [])
          (v.split ∙ ap (λ (k : ℕ). v.pre ++ (replicate k 0 ++ v.post)) e)
        ∙ front r v (r.1 - 1) e
