-- ===== src/Url/Printed.antt =====
-- The text that `url::to_string` makes, part by part (src/lib/url/generate.cpp).
use nanodistro.Base.{
  ℕ, ◌-◌, ◌≡◌, refl, sym, ap, ◌∙◌, true, false, not, [], ◌∷◌, ◌++◌, append-nil, append_assoc, Bytes,
  codes, length, is_empty, ltb, if◌then◌else◌, none, arith, length-append,
}
use nanodistro.Base.Int.{ℤ, pos, negsuc, ltb_ℤ}
use nanodistro.Text.Number.{decimal, decimal_int}
use nanodistro.Url.{Url, is_among, c_str, encode}
use nanodistro.Url.Generate.{
  has_any, append_scheme, append_username, append_password, append_host, append_port, append_path,
  append_query, append_fragment, append_origin, append_user_info, append_authority,
  append_hierarchical, append_all, to_string,
}
use nanodistro.Url.Plain.{Avoids, IsPlain, IsPlainPath, encode-plain, encode-path, c_str-same}
use nanodistro.Url.Tail.{
  mk, user_text, port_text, query_text, fragment_text, tail_text, plain-Avoids_subset,
}

has_any-none : (set s : Bytes) → Avoids set s → has_any set s ≡ false
unfolding has_any
has_any-none set [] h = refl
has_any-none set (c ∷ s) h = rw h.0 (has_any-none set s h.1)

not_empty : (xs : Bytes) (y : ℕ) (ys : Bytes) → is_empty (xs ++ y ∷ ys) ≡ false
not_empty [] y ys = refl
not_empty (x ∷ xs) y ys = refl

module _ (sc un pw ho : Bytes) (po : ℤ) (pa q f : Bytes) where
  abbrev u : Url
  u = mk sc un pw ho po (b'/' ∷ pa) q f

  fragment-printed :
      (val : Bytes) → is_empty val ≡ false → (append_fragment u val).0 ≡ val ++ fragment_text f
  fragment-printed val h = by_fragment f
    where
      by_fragment :
          (f : Bytes)
          → (append_fragment (mk sc un pw ho po (b'/' ∷ pa) q f) val).0 ≡ val ++ fragment_text f
      by_fragment [] = unfold append_fragment in sym (append-nil val)
      by_fragment (c ∷ s) = unfold append_fragment in rw h (append_assoc val (codes "#") (c ∷ s))

  query-printed :
      (val rest : Bytes)
      → is_empty val ≡ false
      → (append_query u val).0 ++ rest ≡ val ++ query_text q rest
  query-printed val rest h = by_query q
    where
      by_query :
          (q : Bytes)
          → (append_query (mk sc un pw ho po (b'/' ∷ pa) q f) val).0 ++ rest
            ≡ val ++ query_text q rest
      by_query [] = unfold append_query in refl
      by_query (c ∷ s) =
          unfold append_query in
          rw h (
            append_assoc (val ++ codes "?") (c ∷ s) rest
            ∙ append_assoc val (codes "?") (c ∷ (s ++ rest)))

  query-not_empty : (val : Bytes) → is_empty val ≡ false → is_empty (append_query u val).0 ≡ false
  query-not_empty val h = by_query q
    where
      by_query :
          (q : Bytes) → is_empty (append_query (mk sc un pw ho po (b'/' ∷ pa) q f) val).0 ≡ false
      by_query [] = unfold append_query in h
      by_query (c ∷ s) = unfold append_query in rw h (not_empty (val ++ codes "?") c s)

  path-printed :
      (val rest : Bytes)
      → IsPlainPath pa
      → ((append_path u val).0 ++ rest ≡ val ++ b'/' ∷ (pa ++ rest))
        × (is_empty (append_path u val).0 ≡ false)
  unfolding append_path
  path-printed val rest h =
      let same : encode (b'/' ∷ pa) none (codes "/") ≡ b'/' ∷ pa =
        encode-path (b'/' ∷ pa) (refl, h) in
      rw same (append_assoc val (b'/' ∷ pa) rest, not_empty val b'/' pa)

  port-printed : (val rest : Bytes) → (append_port u val).0 ++ rest ≡ val ++ port_text po rest
  port-printed val rest = by_port po
    where
      by_port :
          (po : ℤ)
          → (append_port (mk sc un pw ho po (b'/' ∷ pa) q f) val).0 ++ rest
            ≡ val ++ port_text po rest
      by_port (negsuc n) =
          let low : ltb_ℤ (negsuc n) (pos 0) ≡ true = ground arith in
          unfold append_port in rw low refl
      by_port (pos n) =
          let low : ltb_ℤ (pos n) (pos 0) ≡ false = ground arith in
          unfold append_port decimal_int in
          rw low (
            append_assoc (val ++ codes ":") (decimal n) rest
            ∙ append_assoc val (codes ":") (decimal n ++ rest))

  host-printed :
      (val rest : Bytes) → IsPlain ho → (append_host u val).0 ++ rest ≡ val ++ (ho ++ rest)
  unfolding append_host
  host-printed val rest h =
      let same : c_str ho ≡ ho =
        c_str-same ho
          (plain-Avoids_subset (0 ∷ []) ho (λ x e. unfold is_among in ground (arith, e)) h) in
      let a : has_any (codes "[]#?%") ho ≡ false =
        has_any-none (codes "[]#?%") ho (
          plain-Avoids_subset (codes "[]#?%") ho (λ x e. unfold is_among in ground (arith, e)) h) in
      let b : has_any (codes ":/@") ho ≡ false =
        has_any-none (codes ":/@") ho
          (plain-Avoids_subset (codes ":/@") ho (λ x e. unfold is_among in ground (arith, e)) h) in
      rw same (rw (a, b) (append_assoc val ho rest))

  origin-printed :
      (val rest : Bytes)
      → IsPlain ho
      → (append_origin u val).0 ++ rest ≡ val ++ (ho ++ port_text po rest)
  unfolding append_origin
  origin-printed val rest h =
      port-printed (append_host u val).0 rest ∙ host-printed val (port_text po rest) h

  -- The user and the password with what is between them, and how many bytes that is.
  info-printed :
      (val : Bytes)
      → IsPlain un
      → IsPlain pw
      → (append_user_info u val).0 ≡ (
          let named : Bytes = (if not (is_empty un) then val ++ un else val) in
          if not (is_empty pw) then named ++ codes ":" ++ pw else named)
  unfolding append_user_info append_username append_password
  info-printed val a b = rw (encode-plain un a, encode-plain pw b) refl

  authority-printed :
      (val rest : Bytes)
      → IsPlain un
      → IsPlain pw
      → IsPlain ho
      → (is_empty un ≡ true → pw ≡ [])
      → (append_authority u val).0 ++ rest ≡ val ++ user_text un pw (ho ++ port_text po rest)
  unfolding append_authority append_user_info
  authority-printed val rest a b c d =
      by_user un pw d (append_user_info u val).0 (info-printed val a b)
    where
      more : Bytes
      more = ho ++ port_text po rest

      with_at :
          (info : Bytes) → (append_origin u (info ++ codes "@")).0 ++ rest ≡ info ++ b'@' ∷ more
      with_at info = origin-printed (info ++ codes "@") rest c ∙ append_assoc info (codes "@") more

      longer : (x : Bytes) (y : ℕ) (z : Bytes) → ltb 0 (length (x ++ y ∷ z) - length x) ≡ true
      longer x y z = ground (arith, length-append x (y ∷ z))

      by_user :
          (un pw : Bytes)
          → (is_empty un ≡ true → pw ≡ [])
          → (info : Bytes)
          → info ≡ (
              let named : Bytes = (if not (is_empty un) then val ++ un else val) in
              if not (is_empty pw) then named ++ codes ":" ++ pw else named)
          → (append_origin u
                (if ltb 0 (length info - length val) then info ++ codes "@" else info)).0
              ++ rest
            ≡ val ++ user_text un pw more
      by_user [] [] d info e =
          let none : ltb 0 (length info - length val) ≡ false =
            ground (arith, ap (λ (x : Bytes). length x) e) in
          rw none (ap (λ (x : Bytes). (append_origin u x).0 ++ rest) e ∙ origin-printed val rest c)
      by_user [] (p ∷ pw) d info e = absurd (ground (arith, d refl))
      by_user (x ∷ un) [] d info e =
          let more_of : ltb 0 (length info - length val) ≡ true = rw e (longer val x un) in
          rw more_of (
            with_at info
            ∙ ap (λ (i : Bytes). i ++ b'@' ∷ more) e
            ∙ append_assoc val (x ∷ un) (b'@' ∷ more))
      by_user (x ∷ un) (p ∷ pw) d info e =
          let same : info ≡ val ++ (x ∷ (un ++ b':' ∷ p ∷ pw)) =
            e
            ∙ append_assoc (val ++ x ∷ un) (codes ":") (p ∷ pw)
            ∙ append_assoc val (x ∷ un) (b':' ∷ p ∷ pw) in
          let more_of : ltb 0 (length info - length val) ≡ true =
            rw same (longer val x (un ++ b':' ∷ p ∷ pw)) in
          rw more_of (
            with_at info
            ∙ ap (λ (i : Bytes). i ++ b'@' ∷ more) same
            ∙ append_assoc val (x ∷ (un ++ b':' ∷ p ∷ pw)) (b'@' ∷ more)
            ∙ ap (λ (t : Bytes). val ++ x ∷ t) (append_assoc un (b':' ∷ p ∷ pw) (b'@' ∷ more)))

  scheme-printed :
      (rest : Bytes)
      → is_empty sc ≡ false
      → (append_scheme u []).0 ++ rest ≡ sc ++ codes "://" ++ rest
  unfolding append_scheme
  scheme-printed rest h = rw h (
      append_assoc (sc ++ codes ":") (codes "//") rest
      ∙ append_assoc sc (codes ":") (codes "//" ++ rest)
      ∙ sym (append_assoc sc (codes "://") rest))

  -- All of the text.
  pub to_string-printed :
      is_empty sc ≡ false
      → IsPlain un
      → IsPlain pw
      → IsPlain ho
      → (is_empty un ≡ true → pw ≡ [])
      → IsPlainPath pa
      → to_string u ≡ sc ++ codes "://" ++ user_text un pw (ho ++ tail_text po pa q f)
  unfolding to_string append_all append_hierarchical
  to_string-printed s a b c d p =
      let start : Bytes = (append_scheme u []).0 in
      let named : Bytes = (append_authority u start).0 in
      let placed : Bytes = (append_path u named).0 in
      let there : is_empty placed ≡ false = (path-printed named [] p).1 in
      let asked : Bytes = (append_query u placed).0 in
      let rest : Bytes = b'/' ∷ (pa ++ query_text q (fragment_text f)) in
      fragment-printed asked (query-not_empty placed there)
      ∙ query-printed placed (fragment_text f) there
      ∙ (path-printed named (query_text q (fragment_text f)) p).0
      ∙ authority-printed start rest a b c d
      ∙ scheme-printed (user_text un pw (ho ++ port_text po rest)) s
