-- ===== src/Url/Head.antt =====
-- The user and the host of an address are read back (src/lib/url/parse.cpp).
use nanodistro.Base.{
  is_empty, take, drop, All-append, take-append, drop-behind, ℕ, suc, ◌-◌, ◌≡◌, refl, sym, ap, ◌∙◌,
  true, false, [], ◌∷◌, ◌++◌, append_assoc, Bytes, codes, length, ◌==◌, none, some, ok, arith,
}
use nanodistro.Base.Int.{ℤ, pos, negsuc}
use nanodistro.Text.Number.{decimal}
use nanodistro.Text.Number.RoundTrip.{decimal-IsDigits}
use nanodistro.Url.{Url, Text, sized_text, text_of, is_among, set_username, set_password, set_host}
use nanodistro.Url.Parse.{
  strpbrk, at, parse_fragment, parse_query, parse_path, parse_port, parse_host, parse_info,
  parse_user,
}
use nanodistro.Url.Plain.{
  Avoids, IsPlain, IsPlainPath, specials, Avoids-subset, plain-Avoids, digits-Avoids, decode-same,
  strpbrk-none, strpbrk-found, text_of-part,
}
use nanodistro.Url.Tail.{
  mk, query_text, fragment_text, tail_text, IsPort, Stops, cut, plain-Avoids_subset,
  parse_port-text,
}

-- What the printed address has to be: plain parts, a scheme, a user when there is a password, a path
-- from the root, a query without `#`, and no zero byte.
pub record IsPrintable (sc un pw ho : Bytes) (po : ℤ) (pa q f : Bytes) : Type 0 where
  pub scheme_plain : IsPlain sc
  pub scheme_there : is_empty sc ≡ false
  pub user_plain : IsPlain un
  pub password_plain : IsPlain pw
  pub user_there : is_empty un ≡ true → pw ≡ []
  pub host_plain : IsPlain ho
  pub port_int : IsPort po
  pub path_plain : IsPlainPath pa
  pub query_clean : Avoids (0 ∷ b'#' ∷ []) q
  pub fragment_clean : Avoids (0 ∷ []) f

module _ (sc un pw ho : Bytes) (po : ℤ) (pa q f : Bytes)
    (v : IsPrintable sc un pw ho po pa q f) where
  -- all of the address
  abbrev whole_url : Url
  whole_url = mk sc un pw ho po (b'/' ∷ pa) q f

  host-Stops : Stops (codes ":/?#") (tail_text po pa q f)
  host-Stops = stops po
    where
      stops : (po : ℤ) → Stops (codes ":/?#") (tail_text po pa q f)
      stops (pos n) = unfold is_among in refl
      stops (negsuc n) = unfold is_among in refl

  tail_first : (at (tail_text po pa q f) == b'[') ≡ false
  tail_first = first po
    where
      first : (po : ℤ) → (at (tail_text po pa q f) == b'[') ≡ false
      first (pos n) = refl
      first (negsuc n) = refl

  tail_ends : is_among (codes "/:?#") (at (tail_text po pa q f)) ≡ true
  tail_ends = first po
    where
      first : (po : ℤ) → is_among (codes "/:?#") (at (tail_text po pa q f)) ≡ true
      first (pos n) = unfold is_among in refl
      first (negsuc n) = unfold is_among in refl

  pub parse_host-text :
      parse_host (ho ++ tail_text po pa q f) (mk sc un pw [] (negsuc 0) [] [] []) ≡ ok whole_url
  parse_host-text = by_host ho v.host_plain
    where
      rest :
          (h : Bytes)
          → parse_port (tail_text po pa q f) (mk sc un pw h (negsuc 0) [] [] [])
            ≡ ok (mk sc un pw h po (b'/' ∷ pa) q f)
      rest h =
          parse_port-text sc un pw h po pa q f v.port_int v.path_plain v.query_clean
            v.fragment_clean

      set_host-text :
          (h : Bytes) (val : Text)
          → Avoids (codes "%+") h
          → text_of val ≡ h
          → set_host val (mk sc un pw [] (negsuc 0) [] [] [])
            ≡ ok (mk sc un pw h (negsuc 0) [] [] [])
      set_host-text h val a e = unfold set_host in rw (e, decode-same h a) refl

      by_host :
          (h : Bytes)
          → IsPlain h
          → parse_host (h ++ tail_text po pa q f) (mk sc un pw [] (negsuc 0) [] [] [])
            ≡ ok (mk sc un pw h po (b'/' ∷ pa) q f)
      by_host [] p = unfold parse_host in rw (tail_first, tail_ends) (rest [])
      by_host (c ∷ h) p =
          let host : Bytes = c ∷ h in
          let bracket : (c == b'[') ≡ false =
            unfold is_among in ground (arith, (plain-Avoids host p).0) in
          let inside : is_among (codes "/:?#") c ≡ false =
            unfold is_among in ground (arith, (plain-Avoids host p).0) in
          unfold parse_host in
          rw (bracket, inside)
            (cut host (tail_text po pa q f) (codes ":/?#")
                (λ val. set_host val (mk sc un pw [] (negsuc 0) [] [] []))
                (mk sc un pw host (negsuc 0) [] [] []) parse_port refl
                (plain-Avoids_subset (codes ":/?#") host
                  (λ x e. unfold is_among in ground (arith, e)) p)
                (plain-Avoids_subset (0 ∷ []) host (λ x e. unfold is_among in ground (arith, e)) p)
                host-Stops
                (λ val e.
                  set_host-text host val
                    (plain-Avoids_subset (codes "%+") host
                      (λ x e. unfold is_among in ground (arith, e)) p)
                    e)
                (unfold parse_port in
                  unfold parse_path in unfold parse_query in unfold parse_fragment in refl)
              ∙ rest host)

  -- the text from the host on
  abbrev host_text : Bytes
  host_text = ho ++ tail_text po pa q f

  -- The first slash of it ends the port, and there is no `@` before it.
  pub host_text-slash :
      (x : Bytes) × (rest : Bytes) × Avoids (codes "@/") x × (host_text ≡ x ++ b'/' ∷ rest)
  host_text-slash = by_port po
    where
      rest : Bytes
      rest = pa ++ query_text q (fragment_text f)

      host_avoids : Avoids (codes "@/") ho
      host_avoids =
          plain-Avoids_subset (codes "@/") ho (λ x e. unfold is_among in ground (arith, e))
            v.host_plain

      by_port :
          (po : ℤ)
          → (x : Bytes) × (rest : Bytes) × Avoids (codes "@/") x
            × (ho ++ tail_text po pa q f ≡ x ++ b'/' ∷ rest)
      by_port (negsuc n) = (ho, rest, host_avoids, refl)
      by_port (pos n) =
          let ds : Bytes = decimal n in
          let digits : Avoids (codes "@/") ds =
            Avoids-subset (codes "@/") (0 ∷ specials) ds
              (λ x e. unfold is_among in ground (arith, e))
              (digits-Avoids ds (decimal-IsDigits n)) in
          (
            ho ++ b':' ∷ ds,
            rest,
            All-append _ ho (b':' ∷ ds) host_avoids (unfold is_among in refl, digits),
            sym (append_assoc ho (b':' ∷ ds) (b'/' ∷ rest)),
          )

  -- A user in front of the host, read from its text.
  pub parse_user-info :
      (info : Bytes) (t : Url)
      → Avoids (codes "@/") info
      → parse_info (info ++ b'@' ∷ host_text) (length info) t
        ≡ ok (mk sc un pw [] (negsuc 0) [] [] [])
      → parse_user (info ++ b'@' ∷ host_text) t ≡ ok whole_url
  unfolding parse_user
  parse_user-info info t a e =
      let found : strpbrk (info ++ b'@' ∷ host_text) (codes "@/") ≡ some (info, b'@' ∷ host_text) =
        strpbrk-found info (codes "@/") b'@' host_text a (unfold is_among in refl) in
      rw (found, e, parse_user) parse_host-text

set_username-text :
    (sc un : Bytes) (val : Text)
    → IsPlain un
    → text_of val ≡ un
    → set_username val (mk sc [] [] [] (negsuc 0) [] [] [])
      ≡ ok (mk sc un [] [] (negsuc 0) [] [] [])
unfolding set_username
set_username-text sc un val p e =
    rw
      (
        e,
        decode-same un
            (plain-Avoids_subset (codes "%+") un (λ x g. unfold is_among in ground (arith, g)) p),
      )
      refl

set_password-text :
    (sc un pw : Bytes) (val : Text)
    → IsPlain pw
    → text_of val ≡ pw
    → set_password val (mk sc un [] [] (negsuc 0) [] [] [])
      ≡ ok (mk sc un pw [] (negsuc 0) [] [] [])
unfolding set_password
set_password-text sc un pw val p e =
    rw
      (
        e,
        decode-same pw
            (plain-Avoids_subset (codes "%+") pw (λ x g. unfold is_among in ground (arith, g)) p),
      )
      refl

-- A user without a password.
pub parse_info-user :
    (sc un rest : Bytes)
    → IsPlain un
    → is_empty un ≡ false
    → parse_info (un ++ rest) (length un) (mk sc [] [] [] (negsuc 0) [] [] [])
      ≡ ok (mk sc un [] [] (negsuc 0) [] [] [])
unfolding parse_info
parse_info-user sc un rest p e =
    let missing : strpbrk (take (length un) (un ++ rest)) (b':' ∷ []) ≡ none =
      ap (λ (x : Bytes). strpbrk x (b':' ∷ [])) (take-append un rest)
      ∙ strpbrk-none un (b':' ∷ [])
          (plain-Avoids_subset (b':' ∷ []) un (λ x g. unfold is_among in ground (arith, g)) p) in
    rw (missing, parse_info)
      (set_username-text sc un (sized_text (un ++ rest) (length un)) p (text_of-part un rest e))

-- A user and a password.
pub parse_info-both :
    (sc un pw rest : Bytes)
    → IsPlain un
    → is_empty un ≡ false
    → IsPlain pw
    → is_empty pw ≡ false
    → parse_info
        ((un ++ b':' ∷ pw) ++ rest)
        (length (un ++ b':' ∷ pw))
        (mk sc [] [] [] (negsuc 0) [] [] [])
      ≡ ok (mk sc un pw [] (negsuc 0) [] [] [])
unfolding parse_info
parse_info-both sc un pw rest p e g h =
    let info : Bytes = un ++ b':' ∷ pw in
    let found : strpbrk (take (length info) (info ++ rest)) (b':' ∷ []) ≡ some (un, b':' ∷ pw) =
      ap (λ (x : Bytes). strpbrk x (b':' ∷ [])) (take-append info rest)
      ∙ strpbrk-found un (b':' ∷ []) b':' pw
          (plain-Avoids_subset (b':' ∷ []) un (λ x g. unfold is_among in ground (arith, g)) p)
          (unfold is_among in refl) in
    let behind : info ++ rest ≡ un ++ b':' ∷ (pw ++ rest) = append_assoc un (b':' ∷ pw) rest in
    let user : text_of (sized_text (info ++ rest) (length un)) ≡ un =
      ap (λ (x : Bytes). text_of (sized_text x (length un))) behind
      ∙ text_of-part un (b':' ∷ (pw ++ rest)) e in
    let dropped : drop (suc (length un)) (info ++ rest) ≡ pw ++ rest =
      ap (drop (suc (length un))) behind ∙ drop-behind un b':' (pw ++ rest) in
    let size : length (b':' ∷ pw) - 1 ≡ length pw = omega arith in
    let password : text_of
          (sized_text (drop (suc (length un)) (info ++ rest)) (length (b':' ∷ pw) - 1))
        ≡ pw =
      ap (λ (x : Bytes). text_of (sized_text x (length (b':' ∷ pw) - 1))) dropped
      ∙ ap (λ (n : ℕ). text_of (sized_text (pw ++ rest) n)) size
      ∙ text_of-part pw rest h in
    rw (found, set_username-text sc un (sized_text (info ++ rest) (length un)) p user, parse_info)
      (set_password-text sc un pw
        (sized_text (drop (suc (length un)) (info ++ rest)) (length (b':' ∷ pw) - 1)) g password)
