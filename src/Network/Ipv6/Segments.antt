-- ===== src/Network/Ipv6/Segments.antt =====
-- The items of an IPv6 address, read back into its values (src/network/ipv6.cpp).
use nanodistro.Base.{
  ℕ, suc, ◌+◌, ◌≤◌, ◌<◌, Bool, true, false, ◌||◌, List, [], ◌∷◌, ◌++◌, append_assoc, append-nil,
  Bytes, length, length-append, set, replicate, ltb, leb, All, ◌≡◌, refl, ap, ◌∙◌, arith,
}
use nanodistro.Text.{in_range}
use nanodistro.Text.Joined.{Lacks, find-none}
use nanodistro.Network.Addresses.{has_dot, is_found}
use nanodistro.Network.Ipv6.{hex_text, count_items, any_empty, back_item, skips_once, put, segments}
use nanodistro.Network.Ipv6.Items.{
  IsItem, hex_text-IsItem, digits-Lacks, segment-hex_text, Splits, Splits-one, Splits-more,
}
use nanodistro.Network.Ipv6.Printed.{joined}

abbrev pub value_items : Bool → List ℕ → List Bytes
value_items upper [] = []
value_items upper (g ∷ gs) = hex_text upper g ∷ value_items upper gs

-- The items on one side of two colons: an empty one, if no value stands there.
abbrev pub side : Bool → List ℕ → List Bytes
side upper [] = [] ∷ []
side upper (g ∷ gs) = value_items upper (g ∷ gs)

pub hex_text-Lacks :
    (upper : Bool) (c g : ℕ)
    → (in_range 48 57 c || in_range 65 70 c || in_range 97 102 c) ≡ false
    → Lacks c (hex_text upper g)
hex_text-Lacks upper c g h = digits-Lacks c (hex_text upper g) h (hex_text-IsItem upper g).digits

pub Splits-joined : (upper : Bool) (gs : List ℕ) → Splits (joined upper gs) (side upper gs)
Splits-joined upper [] = Splits-one [] tt
Splits-joined upper (g ∷ []) =
    let e : joined upper (g ∷ []) ≡ hex_text upper g = append-nil (hex_text upper g) in
    rw e (Splits-one (hex_text upper g) (hex_text-Lacks upper 58 g refl))
Splits-joined upper (g ∷ g' ∷ gs) =
    Splits-more (hex_text upper g) (joined upper (g' ∷ gs)) (side upper (g' ∷ gs))
      (hex_text-Lacks upper 58 g refl) (Splits-joined upper (g' ∷ gs))

pub Splits-front :
    (upper : Bool) (gs : List ℕ) (rest : Bytes) (items : List Bytes)
    → Splits rest items
    → Splits (joined upper gs ++ 58 ∷ rest) (side upper gs ++ items)
Splits-front upper [] rest items s = Splits-more [] rest items tt s
Splits-front upper (g ∷ []) rest items s =
    let e : joined upper (g ∷ []) ≡ hex_text upper g = append-nil (hex_text upper g) in
    rw e (Splits-more (hex_text upper g) rest items (hex_text-Lacks upper 58 g refl) s)
Splits-front upper (g ∷ g' ∷ gs) rest items s =
    let e : joined upper (g ∷ g' ∷ gs) ++ 58 ∷ rest
        ≡ hex_text upper g ++ 58 ∷ (joined upper (g' ∷ gs) ++ 58 ∷ rest) =
      append_assoc (hex_text upper g) (58 ∷ joined upper (g' ∷ gs)) (58 ∷ rest) in
    rw e (
      Splits-more (hex_text upper g) (joined upper (g' ∷ gs) ++ 58 ∷ rest)
        (side upper (g' ∷ gs) ++ items) (hex_text-Lacks upper 58 g refl)
        (Splits-front upper (g' ∷ gs) rest items s))

pub length-value_items : (upper : Bool) (gs : List ℕ) → length (value_items upper gs) ≡ length gs
length-value_items upper [] = refl
length-value_items upper (g ∷ gs) = ap suc (length-value_items upper gs)

pub any_empty-value_items : (upper : Bool) (gs : List ℕ) → any_empty (value_items upper gs) ≡ false
unfolding any_empty
any_empty-value_items upper [] = refl
any_empty-value_items upper (g ∷ gs) =
    rw ((hex_text-IsItem upper g).full, any_empty-value_items upper gs) refl

pub count_items-value_items :
    (upper : Bool) (gs : List ℕ) (rest : List Bytes)
    → count_items (value_items upper gs ++ rest) ≡ length gs + count_items rest
unfolding count_items
count_items-value_items upper [] rest = omega arith
count_items-value_items upper (g ∷ gs) rest =
    rw (hex_text-IsItem upper g).full (omega (arith, count_items-value_items upper gs rest))

abbrev pub NoDot : Bytes → Type 0
NoDot x = has_dot x ≡ false

pub has_dot-Lacks : (x : Bytes) → Lacks 46 x → has_dot x ≡ false
unfolding has_dot
has_dot-Lacks x h = ap is_found (find-none 46 x h)

pub value_items-NoDot : (upper : Bool) (gs : List ℕ) → All NoDot (value_items upper gs)
value_items-NoDot upper [] = tt
value_items-NoDot upper (g ∷ gs) =
    (has_dot-Lacks (hex_text upper g) (hex_text-Lacks upper 46 g refl), value_items-NoDot upper gs)

pub side-NoDot : (upper : Bool) (gs : List ℕ) → All NoDot (side upper gs)
side-NoDot upper [] = (has_dot-Lacks [] tt, tt)
side-NoDot upper (g ∷ gs) = value_items-NoDot upper (g ∷ gs)

pub back_item-NoDot : (xs : List Bytes) → All NoDot xs → NoDot (back_item xs)
unfolding back_item
back_item-NoDot [] h = has_dot-Lacks [] tt
back_item-NoDot (x ∷ []) h = h.0
back_item-NoDot (x ∷ y ∷ xs) h = back_item-NoDot (y ∷ xs) h.1

pub skips_once-front :
    (upper : Bool) (gs : List ℕ) (y : Bytes) (ys : List Bytes)
    → skips_once (value_items upper gs ++ y ∷ ys) ≡ skips_once (y ∷ ys)
unfolding skips_once
skips_once-front upper [] y ys = refl
skips_once-front upper (g ∷ []) y ys = rw (hex_text-IsItem upper g).full refl
skips_once-front upper (g ∷ g' ∷ gs) y ys =
    rw (hex_text-IsItem upper g).full (skips_once-front upper (g' ∷ gs) y ys)

set-behind :
    (done rest : List ℕ) (v w : ℕ)
    → set (done ++ v ∷ rest) (length done) w ≡ (done ++ w ∷ []) ++ rest
set-behind [] rest v w = refl
set-behind (d ∷ done) rest v w = ap (λ (t : List ℕ). d ∷ t) (set-behind done rest v w)

-- Items that are printed values are read one after the other.
pub segments-value_items :
    (upper little passed : Bool) (nonempty k : ℕ) (done gs : List ℕ) (rest : List Bytes)
    → length done + length gs ≤ 8
    → All (λ g. g < 65536) gs
    → segments little nonempty passed
        (length done)
        (done ++ replicate (length gs + k) 0)
        (value_items upper gs ++ rest)
      ≡ segments little nonempty passed (length (done ++ gs)) ((done ++ gs) ++ replicate k 0) rest
unfolding segments put
segments-value_items upper little passed nonempty k done [] rest room h =
    let e : done ++ [] ≡ done = append-nil done in let z : 0 + k ≡ k = omega arith in rw (e, z) refl
segments-value_items upper little passed nonempty k done (g ∷ gs) rest room h =
    let v : IsItem (hex_text upper g) = hex_text-IsItem upper g in
    let low : leb 8 (length done) ≡ false = ground (arith, room) in
    let fits : ltb (length done) 8 ≡ true = ground (arith, room) in
    let count : suc (length gs) + k ≡ suc (length gs + k) = omega arith in
    let here : set (done ++ 0 ∷ replicate (length gs + k) 0) (length done) g
        ≡ (done ++ g ∷ []) ++ replicate (length gs + k) 0 =
      set-behind done (replicate (length gs + k) 0) 0 g in
    let next : suc (length done) ≡ length (done ++ g ∷ []) =
      omega (arith, length-append done (g ∷ [])) in
    let again : (done ++ g ∷ []) ++ gs ≡ done ++ g ∷ gs = append_assoc done (g ∷ []) gs in
    rw
      (
        count,
        v.full,
        low,
        has_dot-Lacks (hex_text upper g) (hex_text-Lacks upper 46 g refl),
        segment-hex_text upper g h.0,
        fits,
        here,
        next,
      )
      (segments-value_items upper little passed nonempty k (done ++ g ∷ []) gs rest
          (omega (arith, room, next)) h.1
        ∙ ap (λ (t : List ℕ). segments little nonempty passed (length t) (t ++ replicate k 0) rest)
            again)
