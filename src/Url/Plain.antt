-- ===== src/Url/Plain.antt =====
-- Bytes that the percent code leaves alone, and searches in texts without the bytes that are searched
-- for (src/lib/url/).
use nanodistro.Base.{
  is_empty, All-map, take-append, ℕ, suc, ◌≡◌, refl, ap, true, false, not, ◌&&◌, ◌||◌, [], ◌∷◌,
  ◌++◌, Bytes, codes, length, All, ◌==◌, none, some, ok, arith,
}
use nanodistro.Text.Number.RoundTrip.{IsDigits}
use nanodistro.Text.{isdigit}
use nanodistro.Url.{
  is_among, c_str, url_encoding_map, encode_loop, encode, decode, text_of, sized_text,
}
use nanodistro.Url.Parse.{strpbrk, strstr}

-- None of the bytes is in the set.
abbrev pub Avoids : Bytes → Bytes → Type 0
Avoids set s = All (λ c. is_among set c ≡ false) s

-- The bytes of a part that is printed as it is; a path may have slashes, too.
abbrev pub IsPlain : Bytes → Type 0
IsPlain s = All (λ c. (c == url_encoding_map c) && not (c == 0) ≡ true) s

abbrev pub IsPlainPath : Bytes → Type 0
IsPlainPath s = All (λ c. (c == b'/') || (c == url_encoding_map c) && not (c == 0) ≡ true) s

-- The bytes that mean something in an address are none of a plain part.
abbrev pub specials : Bytes
specials = codes ":/?#[]@%+"

pub plain-Avoids : (s : Bytes) → IsPlain s → Avoids (0 ∷ specials) s
plain-Avoids s h = All-map _ _ s byte h
  where
    byte :
        (c : ℕ)
        → (c == url_encoding_map c) && not (c == 0) ≡ true
        → is_among (0 ∷ specials) c ≡ false
    byte c h = unfold is_among in ground (arith, h)

-- A set that is part of another.
abbrev pub IsSubset : Bytes → Bytes → Type 0
IsSubset small large = (c : ℕ) → is_among large c ≡ false → is_among small c ≡ false

pub Avoids-subset : (small large s : Bytes) → IsSubset small large → Avoids large s → Avoids small s
Avoids-subset small large s f h = All-map _ _ s f h

encode_loop-same :
    (m : ℕ → ℕ) (s : Bytes) → All (λ c. (m c ≡ c) × ((m c == 0) ≡ false)) s → encode_loop m s ≡ s
unfolding encode_loop
encode_loop-same m [] h = refl
encode_loop-same m (c ∷ s) h = rw (h.0.1) (rw (h.0.0, encode_loop-same m s h.1) refl)

pub encode-plain : (s : Bytes) → IsPlain s → encode s none [] ≡ s
unfolding encode is_among
encode-plain s h = encode_loop-same _ s (All-map _ _ s (λ c e. ground (arith, e)) h)

pub encode-path : (s : Bytes) → IsPlainPath s → encode s none (codes "/") ≡ s
unfolding encode is_among
encode-path s h = encode_loop-same _ s (All-map _ _ s (λ c e. ground (arith, e)) h)

pub decode-same : (s : Bytes) → Avoids (codes "%+") s → decode s ≡ ok s
unfolding decode is_among
decode-same [] h = refl
decode-same (c ∷ s) h =
    let p : (c == b'%') ≡ false = ground (arith, h.0) in
    let q : (c == b'+') ≡ false = ground (arith, h.0) in rw (p, q, decode-same s h.1) refl

pub c_str-same : (s : Bytes) → Avoids (0 ∷ []) s → c_str s ≡ s
unfolding c_str is_among
c_str-same [] h = refl
c_str-same (c ∷ s) h =
    let z : (c == 0) ≡ false = ground (arith, h.0) in rw z (ap (◌∷◌ c) (c_str-same s h.1))

pub strpbrk-none : (s set : Bytes) → Avoids set s → strpbrk s set ≡ none
unfolding strpbrk
strpbrk-none [] set h = refl
strpbrk-none (c ∷ s) set h = rw (h.0, strpbrk-none s set h.1) refl

pub strpbrk-found :
    (s set : Bytes) (c : ℕ) (rest : Bytes)
    → Avoids set s
    → is_among set c ≡ true
    → strpbrk (s ++ c ∷ rest) set ≡ some (s, c ∷ rest)
unfolding strpbrk
strpbrk-found [] set c rest h e = rw e refl
strpbrk-found (x ∷ s) set c rest h e = rw (h.0, strpbrk-found s set c rest h.1 e) refl

pub strstr-found :
    (s rest : Bytes)
    → Avoids (codes ":") s
    → strstr (s ++ codes "://" ++ rest) (codes "://") ≡ some (s, codes "://" ++ rest)
unfolding strstr is_among
strstr-found [] rest h = refl
strstr-found (x ∷ s) rest h =
    let e : (x == b':') ≡ false = ground (arith, h.0) in rw (e, strstr-found s rest h.1) refl

-- The text that a setter is given for a part in front of the rest.
pub text_of-part :
    (s rest : Bytes) → is_empty s ≡ false → text_of (sized_text (s ++ rest) (length s)) ≡ s
text_of-part [] rest h = absurd (ground (arith, h))
text_of-part (c ∷ s) rest h =
    let e : (suc (length s) == 0) ≡ false = ground arith in rw e (ap (◌∷◌ c) (take-append s rest))

pub text_of-all : (s : Bytes) → Avoids (0 ∷ []) s → text_of (sized_text s 0) ≡ s
unfolding c_str
text_of-all s h = c_str-same s h

pub digits-Avoids : (s : Bytes) → IsDigits s → Avoids (0 ∷ specials) s
digits-Avoids [] h = absurd h
digits-Avoids (c ∷ s) h = (byte c h.0, All-map _ _ s byte h.1)
  where
    byte : (c : ℕ) → isdigit c ≡ true → is_among (0 ∷ specials) c ≡ false
    byte c h = unfold is_among in ground (arith, h)
