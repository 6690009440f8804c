-- ===== src/Url/Compare.antt =====
-- The comparisons of addresses (src/lib/url/url.cpp and inline.cpp), which compare their texts. Of
-- what `compare` returns, the sign is modelled.
use nanodistro.Base.{
  ◌≡◌, refl, sym, ap, Bool, not, [], ◌∷◌, Bytes, length, eqb, ltb, if◌then◌else◌, Result, ok, throw,
  arith,
}
use nanodistro.Base.Int.{ℤ, pos, negsuc, ltb_ℤ, eqb_ℤ}
use nanodistro.Clock.{Comparison, equal, not_equal, less, at_most, greater, at_least}
use nanodistro.Url.{Url, c_str}
use nanodistro.Url.Generate.{to_string}
use nanodistro.Url.Parse.{of_string, parse}

-- the sign of `std::string::compare`
unfoldable pub compare_string : Bytes → Bytes → ℤ
compare_string [] [] = pos 0
compare_string [] (y ∷ ys) = negsuc 0
compare_string (x ∷ xs) [] = pos 1
compare_string (x ∷ xs) (y ∷ ys) =
    let rest = compare_string xs ys in if ltb x y then negsuc 0 else if ltb y x then pos 1 else rest

-- The other side of a comparison: an address, a string or a pointer to a text.
pub data Other : Type 0 where
  address : Url → Other
  string : Bytes → Other
  text : Bytes → Other

unfoldable pub compare_url : Url → Url → ℤ
unfolding compare_string to_string
compare_url u v = compare_string (to_string u) (to_string v)

abbrev compare_parsed : Url → Result Url → ℤ
compare_parsed u (ok v) = compare_url u v
compare_parsed u (throw e) = negsuc 0

unfoldable pub compare : Url → Other → ℤ
unfolding compare_url of_string c_str
compare u (address v) = compare_url u v
compare u (string s) = compare_parsed u (of_string s)
compare u (text s) = compare_parsed u (of_string (c_str s))

unfoldable pub equals : Url → Other → Bool
unfolding compare
equals u v = eqb_ℤ (compare u v) (pos 0)

-- `operator==` to `operator<=`; the orders are there for addresses only.
unfoldable pub meets : Comparison → Url → Other → Bool
unfolding equals compare
meets equal u v = equals u v
meets not_equal u v = not (equals u v)
meets greater u v = ltb_ℤ (pos 0) (compare u v)
meets at_least u v = not (ltb_ℤ (compare u v) (pos 0))
meets less u v = ltb_ℤ (compare u v) (pos 0)
meets at_most u v = not (ltb_ℤ (pos 0) (compare u v))

-- `operator=`; the pointer to an address may be null.
unfoldable pub assign_text : Bytes → Url → Result Url
unfolding parse
assign_text str t = parse str (length str) t

compare_string-flip : (a b : Bytes) → eqb_ℤ (compare_string a b) (pos 0) ≡ eqb a b
unfolding compare_string eqb
compare_string-flip [] [] = refl
compare_string-flip [] (y ∷ ys) = refl
compare_string-flip (x ∷ xs) [] = refl
compare_string-flip (x ∷ xs) (y ∷ ys) = ground (arith, compare_string-flip xs ys)

-- Comparing the other way round negates the sign.
compare_string-swap :
    (a b : Bytes) → ltb_ℤ (compare_string a b) (pos 0) ≡ ltb_ℤ (pos 0) (compare_string b a)
unfolding compare_string
compare_string-swap [] [] = refl
compare_string-swap [] (y ∷ ys) = refl
compare_string-swap (x ∷ xs) [] = refl
compare_string-swap (x ∷ xs) (y ∷ ys) = ground (arith, compare_string-swap xs ys)

-- Two addresses are equal exactly when their texts are; the other five operators are those of one
-- total order: each is its opposite with the sides exchanged, or its negation.
pub meets-order :
    (u v : Url)
    → (meets equal u (address v) ≡ eqb (to_string u) (to_string v))
      × (meets not_equal u (address v) ≡ not (eqb (to_string u) (to_string v)))
      × (meets less u (address v) ≡ meets greater v (address u))
      × (meets at_least u (address v) ≡ not (meets less u (address v)))
      × (meets at_most u (address v) ≡ not (meets less v (address u)))
unfolding meets equals compare compare_url
meets-order u v =
    let a : Bytes = to_string u in
    let b : Bytes = to_string v in
    (
      compare_string-flip a b,
      ap not (compare_string-flip a b),
      compare_string-swap a b,
      refl,
      ap not (sym (compare_string-swap b a)),
    )
