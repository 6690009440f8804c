-- ===== src/Url/Tail.antt =====
-- The part of an address behind its host is read back (src/lib/url/parse.cpp).
use nanodistro.Base.{
  is_empty, All-map, ℕ, zero, suc, ◌≤◌, ◌≡◌, refl, sym, ap, ◌∙◌, true, false, not, ◌&&◌, ◌||◌, [],
  ◌∷◌, ◌++◌, append-nil, Bytes, codes, length, ◌==◌, none, some, Result, ok, ◌>>=◌, arith,
}
use nanodistro.Base.Int.{ℤ, pos, negsuc}
use nanodistro.Text.Number.{decimal}
use nanodistro.Text.Number.RoundTrip.{stoi-decimal_whole, decimal-IsDigits, digits-not_empty}
use nanodistro.Url.{
  Url, Text, sized_text, text_of, is_among, url_encoding_map, set_port, set_path, set_query,
  set_fragment,
}
use nanodistro.Url.Parse.{strpbrk, parse_fragment, parse_query, parse_path, parse_port}
use nanodistro.Url.Plain.{
  Avoids, IsPlain, IsPlainPath, IsSubset, specials, Avoids-subset, plain-Avoids, digits-Avoids,
  decode-same, c_str-same, strpbrk-none, strpbrk-found, text_of-part, text_of-all,
}

-- The text of an address, from its end on.
abbrev pub fragment_text : Bytes → Bytes
fragment_text [] = []
fragment_text (c ∷ s) = b'#' ∷ c ∷ s

abbrev pub query_text : Bytes → Bytes → Bytes
query_text [] rest = rest
query_text (c ∷ s) rest = b'?' ∷ c ∷ (s ++ rest)

abbrev pub port_text : ℤ → Bytes → Bytes
port_text (pos n) rest = b':' ∷ (decimal n ++ rest)
port_text (negsuc n) rest = rest

abbrev pub user_text : Bytes → Bytes → Bytes → Bytes
user_text [] password rest = rest
user_text (c ∷ s) [] rest = c ∷ (s ++ b'@' ∷ rest)
user_text (c ∷ s) (d ∷ p) rest = c ∷ (s ++ b':' ∷ d ∷ (p ++ b'@' ∷ rest))

abbrev pub mk : Bytes → Bytes → Bytes → Bytes → ℤ → Bytes → Bytes → Bytes → Url
mk scheme username password host port path query fragment = record {
  scheme = scheme;
  username = username;
  password = password;
  host = host;
  port = port;
  path = path;
  query = query;
  fragment = fragment;
}

-- The port that stands for none, or one that is an `int`.
abbrev pub IsPort : ℤ → Type 0
IsPort (pos n) = n ≤ 2147483647
IsPort (negsuc zero) = Unit
IsPort (negsuc (suc n)) = ⊥

-- What follows a part begins with a byte that ends it, if anything follows.
abbrev pub Stops : Bytes → Bytes → Type 0
Stops set [] = Unit
Stops set (c ∷ rest) = is_among set c ≡ true

-- A part is cut off in front of what follows, and handed to its setter.
pub cut :
    (x rest set : Bytes) (set_it : Text → Result Url) (t : Url) (next : Bytes → Url → Result Url)
    → is_empty x ≡ false
    → Avoids set x
    → Avoids (0 ∷ []) x
    → Stops set rest
    → ((val : Text) → text_of val ≡ x → set_it val ≡ ok t)
    → next [] t ≡ ok t
    → elim (strpbrk (x ++ rest) set) [
      | none ↦ set_it (sized_text (x ++ rest) 0)
      | some c ↦ (set_it (sized_text (x ++ rest) (length c.0)) >>= λ t. next c.1 t)
    ]
      ≡ next rest t
cut x [] set set_it t next e a z h f n =
    let missing : strpbrk (x ++ []) set ≡ none =
      ap (λ (y : Bytes). strpbrk y set) (append-nil x) ∙ strpbrk-none x set a in
    let all : text_of (sized_text (x ++ []) 0) ≡ x =
      ap (λ (y : Bytes). text_of (sized_text y 0)) (append-nil x) ∙ text_of-all x z in
    rw missing (f (sized_text (x ++ []) 0) all ∙ sym n)
cut x (c ∷ rest) set set_it t next e a z h f n =
    rw
      (
        strpbrk-found x set c rest a h,
        f (sized_text (x ++ c ∷ rest) (length x)) (text_of-part x (c ∷ rest) e),
      )
      refl

parse_fragment-text :
    (sc un pw ho : Bytes) (po : ℤ) (pa q f : Bytes)
    → Avoids (0 ∷ []) f
    → parse_fragment (fragment_text f) (mk sc un pw ho po pa q []) ≡ ok (mk sc un pw ho po pa q f)
unfolding parse_fragment set_fragment
parse_fragment-text sc un pw ho po pa q [] h = refl
parse_fragment-text sc un pw ho po pa q (c ∷ s) h =
    ap (λ (f : Bytes). ok (mk sc un pw ho po pa q f)) (c_str-same (c ∷ s) h)

query-Stops : (f : Bytes) → Stops (b'#' ∷ []) (fragment_text f)
unfolding is_among
query-Stops [] = tt
query-Stops (c ∷ s) = refl

parse_query-text :
    (sc un pw ho : Bytes) (po : ℤ) (pa q f : Bytes)
    → Avoids (0 ∷ b'#' ∷ []) q
    → Avoids (0 ∷ []) f
    → parse_query (query_text q (fragment_text f)) (mk sc un pw ho po pa [] [])
      ≡ ok (mk sc un pw ho po pa q f)
unfolding parse_query
parse_query-text sc un pw ho po pa [] [] h g = parse_fragment-text sc un pw ho po pa [] [] g
parse_query-text sc un pw ho po pa [] (c ∷ s) h g =
    parse_fragment-text sc un pw ho po pa [] (c ∷ s) g
parse_query-text sc un pw ho po pa (c ∷ s) f h g =
    cut (c ∷ s) (fragment_text f) (b'#' ∷ [])
      (λ val. ok (set_query val (mk sc un pw ho po pa [] []))) (mk sc un pw ho po pa (c ∷ s) [])
      parse_fragment refl
      (Avoids-subset (b'#' ∷ []) (0 ∷ b'#' ∷ []) (c ∷ s)
        (λ x e. unfold is_among in ground (arith, e)) h)
      (Avoids-subset (0 ∷ []) (0 ∷ b'#' ∷ []) (c ∷ s) (λ x e. unfold is_among in ground (arith, e))
        h)
      (query-Stops f)
      (λ val e. unfold set_query in ap (λ (q : Bytes). ok (mk sc un pw ho po pa q [])) e)
      (unfold parse_fragment in refl)
    ∙ parse_fragment-text sc un pw ho po pa (c ∷ s) f g

-- A plain part has no byte of a smaller set either.
pub plain-Avoids_subset : (set s : Bytes) → IsSubset set (0 ∷ specials) → IsPlain s → Avoids set s
plain-Avoids_subset set s f h = Avoids-subset set (0 ∷ specials) s f (plain-Avoids s h)

pub path-Avoids : (s : Bytes) → IsPlainPath s → Avoids (0 ∷ codes "?#%+") s
path-Avoids s h = All-map _ _ s byte h
  where
    byte :
        (c : ℕ)
        → (c == b'/') || (c == url_encoding_map c) && not (c == 0) ≡ true
        → is_among (0 ∷ codes "?#%+") c ≡ false
    byte c h = unfold is_among in ground (arith, h)

path-Stops : (q f : Bytes) → Stops (codes "?#") (query_text q (fragment_text f))
unfolding is_among
path-Stops [] [] = tt
path-Stops [] (c ∷ s) = refl
path-Stops (c ∷ s) f = refl

-- A path begins with a slash.
parse_path-text :
    (sc un pw ho : Bytes) (po : ℤ) (pa q f : Bytes)
    → IsPlainPath pa
    → Avoids (0 ∷ b'#' ∷ []) q
    → Avoids (0 ∷ []) f
    → parse_path (b'/' ∷ (pa ++ query_text q (fragment_text f))) (mk sc un pw ho po [] [] [])
      ≡ ok (mk sc un pw ho po (b'/' ∷ pa) q f)
unfolding parse_path
parse_path-text sc un pw ho po pa q f a h g =
    let path : Bytes = b'/' ∷ pa in
    let avoids : Avoids (0 ∷ codes "?#%+") path = (unfold is_among in refl, path-Avoids pa a) in
    cut path (query_text q (fragment_text f)) (codes "?#")
      (λ val. set_path val (mk sc un pw ho po [] [] [])) (mk sc un pw ho po path [] []) parse_query
      refl
      (Avoids-subset (codes "?#") (0 ∷ codes "?#%+") path
        (λ x e. unfold is_among in ground (arith, e)) avoids)
      (Avoids-subset (0 ∷ []) (0 ∷ codes "?#%+") path (λ x e. unfold is_among in ground (arith, e))
        avoids)
      (path-Stops q f)
      (λ val e. set_path-text val path e (
        Avoids-subset (codes "%+") (0 ∷ codes "?#%+") path
          (λ x e. unfold is_among in ground (arith, e)) avoids))
      (unfold parse_query in unfold parse_fragment in refl)
    ∙ parse_query-text sc un pw ho po path q f h g
  where
    set_path-text :
        (val : Text) (path : Bytes)
        → text_of val ≡ path
        → Avoids (codes "%+") path
        → set_path val (mk sc un pw ho po [] [] []) ≡ ok (mk sc un pw ho po path [] [])
    set_path-text val path e d = unfold set_path in rw (e, decode-same path d) refl

-- The rest of the text behind the host.
abbrev pub tail_text : ℤ → Bytes → Bytes → Bytes → Bytes
tail_text po pa q f = port_text po (b'/' ∷ (pa ++ query_text q (fragment_text f)))

pub parse_port-text :
    (sc un pw ho : Bytes) (po : ℤ) (pa q f : Bytes)
    → IsPort po
    → IsPlainPath pa
    → Avoids (0 ∷ b'#' ∷ []) q
    → Avoids (0 ∷ []) f
    → parse_port (tail_text po pa q f) (mk sc un pw ho (negsuc 0) [] [] [])
      ≡ ok (mk sc un pw ho po (b'/' ∷ pa) q f)
unfolding parse_port
parse_port-text sc un pw ho (negsuc zero) pa q f p a h g =
    parse_path-text sc un pw ho (negsuc 0) pa q f a h g
parse_port-text sc un pw ho (negsuc (suc n)) pa q f p a h g = absurd p
parse_port-text sc un pw ho (pos n) pa q f p a h g =
    let avoids : Avoids (0 ∷ specials) (decimal n) =
      digits-Avoids (decimal n) (decimal-IsDigits n) in
    cut (decimal n) (b'/' ∷ (pa ++ query_text q (fragment_text f))) (codes "/?#")
      (λ val. set_port val (mk sc un pw ho (negsuc 0) [] [] [])) (mk sc un pw ho (pos n) [] [] [])
      parse_path (digits-not_empty (decimal n) (decimal-IsDigits n))
      (Avoids-subset (codes "/?#") (0 ∷ specials) (decimal n)
        (λ x e. unfold is_among in ground (arith, e)) avoids)
      (Avoids-subset (0 ∷ []) (0 ∷ specials) (decimal n)
        (λ x e. unfold is_among in ground (arith, e)) avoids)
      (unfold is_among in refl) set_port-text
      (unfold parse_path in unfold parse_query in unfold parse_fragment in refl)
    ∙ parse_path-text sc un pw ho (pos n) pa q f a h g
  where
    set_port-text :
        (val : Text)
        → text_of val ≡ decimal n
        → set_port val (mk sc un pw ho (negsuc 0) [] [] []) ≡ ok (mk sc un pw ho (pos n) [] [] [])
    set_port-text val e =
        let same : (length (decimal n) == length (decimal n)) ≡ true = ground arith in
        unfold set_port in rw (e, stoi-decimal_whole n p, same) refl
