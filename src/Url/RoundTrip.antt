-- ===== src/Url/RoundTrip.antt =====
-- An address is read back from its text (src/lib/url/generate.cpp and parse.cpp).
use nanodistro.Base.{
  is_empty, All-append, ℕ, zero, suc, ◌≡◌, refl, sym, ap, ◌∙◌, true, false, Bool-cases, inl, inr,
  [], ◌∷◌, ◌++◌, append_assoc, Bytes, codes, length, get_or, ltb, ◌==◌, some, ok, arith,
}
use nanodistro.Base.Int.{ℤ, pos, negsuc}
use nanodistro.Text.{isspace}
use nanodistro.Text.Number.{decimal}
use nanodistro.Text.Number.RoundTrip.{decimal-IsDigits}
use nanodistro.Url.{Url, sized_text, text_of, empty_url, is_among, c_str, clear, set_scheme}
use nanodistro.Url.Parse.{
  strpbrk, strstr, trim_front, trim_back, parse_user, parse_scheme, parse, of_string,
}
use nanodistro.Url.Plain.{
  Avoids, IsPlain, specials, Avoids-subset, digits-Avoids, c_str-same, strpbrk-found, strstr-found,
  text_of-part,
}
use nanodistro.Url.Tail.{
  mk, user_text, query_text, fragment_text, tail_text, plain-Avoids_subset, path-Avoids,
}
use nanodistro.Url.Generate.{to_string}
use nanodistro.Url.Printed.{to_string-printed}
use nanodistro.Url.Head.{
  IsPrintable, parse_host-text, host_text-slash, parse_user-info, parse_info-user, parse_info-both,
}

parse_user-text :
    (sc un pw ho : Bytes) (po : ℤ) (pa q f : Bytes)
    → IsPrintable sc un pw ho po pa q f
    → parse_user (user_text un pw (ho ++ tail_text po pa q f)) (mk sc [] [] [] (negsuc 0) [] [] [])
      ≡ ok (mk sc un pw ho po (b'/' ∷ pa) q f)
parse_user-text sc [] (d ∷ pw) ho po pa q f v = absurd (ground (arith, v.user_there refl))
parse_user-text sc [] [] ho po pa q f v =
    let (x, rest, a, e) = host_text-slash sc [] [] ho po pa q f v in
    let found : strpbrk (ho ++ tail_text po pa q f) (codes "@/") ≡ some (x, b'/' ∷ rest) =
      ap (λ (t : Bytes). strpbrk t (codes "@/")) e
      ∙ strpbrk-found x (codes "@/") b'/' rest a (unfold is_among in refl) in
    unfold parse_user in rw (found, parse_user) (parse_host-text sc [] [] ho po pa q f v)
parse_user-text sc (c ∷ un) [] ho po pa q f v =
    let user : Bytes = c ∷ un in
    parse_user-info sc user [] ho po pa q f v user (mk sc [] [] [] (negsuc 0) [] [] [])
      (plain-Avoids_subset (codes "@/") user (λ x e. unfold is_among in ground (arith, e))
        v.user_plain)
      (parse_info-user sc user (b'@' ∷ (ho ++ tail_text po pa q f)) v.user_plain refl)
parse_user-text sc (c ∷ un) (d ∷ pw) ho po pa q f v =
    let user : Bytes = c ∷ un in
    let password : Bytes = d ∷ pw in
    let rest : Bytes = b'@' ∷ (ho ++ tail_text po pa q f) in
    let t : Url = mk sc [] [] [] (negsuc 0) [] [] [] in
    ap (λ (p : Bytes). parse_user p t) (sym (append_assoc user (b':' ∷ password) rest))
    ∙ parse_user-info sc user password ho po pa q f v (user ++ b':' ∷ password) t
        (All-append _ user (b':' ∷ password)
          (plain-Avoids_subset (codes "@/") user (λ x e. unfold is_among in ground (arith, e))
            v.user_plain)
          (
            unfold is_among in refl,
            plain-Avoids_subset (codes "@/") password (λ x e. unfold is_among in ground (arith, e))
                v.password_plain,
          ))
        (parse_info-both sc user password rest v.user_plain refl v.password_plain refl)

parse_scheme-text :
    (sc un pw ho : Bytes) (po : ℤ) (pa q f : Bytes)
    → IsPrintable sc un pw ho po pa q f
    → parse_scheme (sc ++ codes "://" ++ user_text un pw (ho ++ tail_text po pa q f)) empty_url
      ≡ ok (mk sc un pw ho po (b'/' ∷ pa) q f)
unfolding parse_scheme set_scheme
parse_scheme-text sc un pw ho po pa q f v =
    let user : Bytes = user_text un pw (ho ++ tail_text po pa q f) in
    let found : strstr (sc ++ codes "://" ++ user) (codes "://") ≡ some (sc, codes "://" ++ user) =
      strstr-found sc user (
        plain-Avoids_subset (codes ":") sc (λ x e. unfold is_among in ground (arith, e))
          v.scheme_plain) in
    let there : ltb 0 (length sc) ≡ true = not_short sc v.scheme_there in
    let named : text_of (sized_text (sc ++ codes "://" ++ user) (length sc)) ≡ sc =
      ap (λ (t : Bytes). text_of (sized_text t (length sc))) (append_assoc sc (codes "://") user)
      ∙ text_of-part sc (codes "://" ++ user) v.scheme_there in
    rw (found, there, named, parse_scheme) (parse_user-text sc un pw ho po pa q f v)
  where
    not_short : (s : Bytes) → is_empty s ≡ false → ltb 0 (length s) ≡ true
    not_short [] h = absurd (ground (arith, h))
    not_short (c ∷ s) h = ground arith

-- A text that does not begin with a blank is more than blanks.
trim_back-there :
    (c : ℕ) (u : Bytes) (n : ℕ) → isspace c ≡ false → (trim_back (c ∷ u) (suc n) == 0) ≡ false
unfolding trim_back
trim_back-there c u zero h = rw h (ground arith)
trim_back-there c u (suc n) h = elim (Bool-cases (isspace (get_or u n 0))) [
  | inl e ↦ rw e (trim_back-there c u n h)
  | inr e ↦ rw e (ground arith)
]

-- A text without a zero byte and without a blank at its front is read from its scheme on.
of_string-text :
    (c : ℕ) (s : Bytes)
    → isspace c ≡ false
    → Avoids (0 ∷ []) (c ∷ s)
    → of_string (c ∷ s) ≡ parse_scheme (c ∷ s) empty_url
unfolding of_string parse trim_front clear c_str
of_string-text c s b z =
    let first : (c == 0) ≡ false = unfold is_among in ground (arith, z.0) in
    let some_length : (suc (length s) == 0) ≡ false = ground arith in
    let long : ltb 0 (suc (length s)) ≡ true = ground arith in
    let same : c_str s ≡ s = c_str-same s z.1 in
    rw (first, some_length) (rw (long, b) (rw (trim_back-there c s (length s) b, same) refl))

-- No part of the text has a zero byte.
text_clean :
    (sc un pw ho : Bytes) (po : ℤ) (pa q f : Bytes)
    → IsPrintable sc un pw ho po pa q f
    → Avoids (0 ∷ []) (sc ++ codes "://" ++ user_text un pw (ho ++ tail_text po pa q f))
text_clean sc un pw ho po pa q f v =
    All-append _ (sc ++ codes "://") _
      (All-append _ sc (codes "://") (clean sc v.scheme_plain)
        (unfold is_among in (refl, (refl, (refl, tt)))))
      (by_user un pw v.user_plain v.password_plain)
  where
    clean : (s : Bytes) → IsPlain s → Avoids (0 ∷ []) s
    clean s h = plain-Avoids_subset (0 ∷ []) s (λ x e. unfold is_among in ground (arith, e)) h

    by_fragment : (f : Bytes) → Avoids (0 ∷ []) f → Avoids (0 ∷ []) (fragment_text f)
    by_fragment [] h = tt
    by_fragment (c ∷ s) h = (unfold is_among in refl, h)

    by_query :
        (q rest : Bytes)
        → Avoids (0 ∷ b'#' ∷ []) q
        → Avoids (0 ∷ []) rest
        → Avoids (0 ∷ []) (query_text q rest)
    by_query [] rest h g = g
    by_query (c ∷ s) rest h g = (
      unfold is_among in refl,
      All-append _ (c ∷ s) rest
          (Avoids-subset (0 ∷ []) (0 ∷ b'#' ∷ []) (c ∷ s)
            (λ x e. unfold is_among in ground (arith, e)) h)
          g,
    )

    path : Avoids (0 ∷ []) (b'/' ∷ (pa ++ query_text q (fragment_text f)))
    path = (
      unfold is_among in refl,
      All-append _ pa _
          (Avoids-subset (0 ∷ []) (0 ∷ codes "?#%+") pa
            (λ x e. unfold is_among in ground (arith, e)) (path-Avoids pa v.path_plain))
          (by_query q (fragment_text f) v.query_clean (by_fragment f v.fragment_clean)),
    )

    by_port : (po : ℤ) → Avoids (0 ∷ []) (tail_text po pa q f)
    by_port (negsuc n) = path
    by_port (pos n) = (
      unfold is_among in refl,
      All-append _ (decimal n) _
          (Avoids-subset (0 ∷ []) (0 ∷ specials) (decimal n)
            (λ x e. unfold is_among in ground (arith, e))
            (digits-Avoids (decimal n) (decimal-IsDigits n)))
          path,
    )

    host : Avoids (0 ∷ []) (ho ++ tail_text po pa q f)
    host = All-append _ ho _ (clean ho v.host_plain) (by_port po)

    by_user :
        (un pw : Bytes)
        → IsPlain un
        → IsPlain pw
        → Avoids (0 ∷ []) (user_text un pw (ho ++ tail_text po pa q f))
    by_user [] pw a b = host
    by_user (c ∷ un) [] a b =
        All-append _ (c ∷ un) _ (clean (c ∷ un) a) (unfold is_among in refl, host)
    by_user (c ∷ un) (d ∷ pw) a b = All-append _ (c ∷ un) _ (clean (c ∷ un) a) (
      unfold is_among in refl,
      All-append _ (d ∷ pw) _ (clean (d ∷ pw) b) (unfold is_among in refl, host),
    )

-- An address that is printed is read back as it was, when its scheme, user, password, host and path
-- consist of letters, digits and `-_.*` (the path of slashes, too), the scheme is not empty, a
-- password comes with a user, the port is -1 for none or an `int` that is not negative, the path
-- begins with a slash, the query has no `#`, and the query and the fragment have no zero byte.
pub of_string-to_string :
    (sc un pw ho : Bytes) (po : ℤ) (pa q f : Bytes)
    → IsPrintable sc un pw ho po pa q f
    → of_string (to_string (mk sc un pw ho po (b'/' ∷ pa) q f))
      ≡ ok (mk sc un pw ho po (b'/' ∷ pa) q f)
of_string-to_string [] un pw ho po pa q f v = absurd (ground (arith, v.scheme_there))
of_string-to_string (c ∷ sc) un pw ho po pa q f v =
    let user : Bytes = user_text un pw (ho ++ tail_text po pa q f) in
    let printed : to_string (mk (c ∷ sc) un pw ho po (b'/' ∷ pa) q f)
        ≡ (c ∷ sc) ++ codes "://" ++ user =
      to_string-printed (c ∷ sc) un pw ho po pa q f refl v.user_plain v.password_plain v.host_plain
        v.user_there v.path_plain in
    let blank : isspace c ≡ false = unfold is_among in ground (arith, v.scheme_plain.0) in
    ap of_string printed
    ∙ of_string-text c (sc ++ codes "://" ++ user) blank (text_clean (c ∷ sc) un pw ho po pa q f v)
    ∙ parse_scheme-text (c ∷ sc) un pw ho po pa q f v
