-- ===== src/Url/Tests.antt =====
-- The theorems on addresses (src/lib/url/) at concrete ones.
use nanodistro.Base.{◌≡◌, refl, [], codes, eqb, ok, ◌>>=◌, All, arith}
use nanodistro.Base.Int.{pos}
use nanodistro.Text.{find, str_trim_start}
use nanodistro.Text.Number.{stoi}
use nanodistro.Url.{Url, is_among, decode}
use nanodistro.Url.Generate.{to_string}
use nanodistro.Url.Parse.{of_string}
use nanodistro.Url.Head.{IsPrintable}
use nanodistro.Url.RoundTrip.{of_string-to_string}
use nanodistro.Url.Resolve.{parts, resolve, relative, up_to_slash}
use nanodistro.Url.Resolve.Idempotent.{IsName}
use nanodistro.Url.Resolve.Names.{relative-names}

abbrev example : Url
example = record {
  scheme = codes "http";
  username = codes "me";
  password = codes "pw";
  host = codes "example.org";
  port = pos 8080;
  path = codes "/a/b";
  query = codes "x=1";
  fragment = codes "top";
}

-- the text is that of the parts, and is read back
example-text : to_string example ≡ codes "http://me:pw@example.org:8080/a/b?x=1#top"
unfolding to_string
example-text = refl

example-parse : of_string (codes "http://me:pw@example.org:8080/a/b?x=1#top") ≡ ok example
unfolding of_string stoi str_trim_start
example-parse = refl

-- A text whose user is missing takes the rest of it for the user.
missing_user : (of_string (codes "http://@h/") >>= λ u. ok u.username) ≡ ok (codes "@h/")
unfolding of_string stoi str_trim_start
missing_user = refl

-- A decoded byte is followed by its digits.
digits_stay : (of_string (codes "http://h/%41") >>= λ u. ok u.path) ≡ ok (codes "/A41")
unfolding of_string stoi str_trim_start
digits_stay = refl

resolved : resolve (codes "/a/./b/../c/") ≡ codes "/a/c/"
unfolding resolve eqb
resolved = refl

-- A slash in percent code is decoded after the path is resolved, and leaves an empty part.
encoded_slash : (relative example (codes "/%2Fx") >>= λ u. ok u.path) ≡ ok (codes "//2Fx")
unfolding relative resolve eqb stoi str_trim_start find decode
encoded_slash = refl

relative-names_example :
    (relative example (codes "../b")
      ≡ ok (record example { path = codes "/b"; query = []; fragment = [] }))
    × All IsName (parts [] (codes "/b"))
    × (resolve (codes "/b") ≡ codes "/b")
unfolding resolve eqb up_to_slash find is_among
relative-names_example =
    relative-names example (codes "../b") (refl, refl, refl) (refl, (refl, (refl, (refl, tt))))
      (refl, (refl, (refl, (refl, tt))))

example-IsPrintable :
    IsPrintable
      (codes "http")
      (codes "me")
      (codes "pw")
      (codes "example.org")
      (pos 8080)
      (codes "a/b")
      (codes "x=1")
      (codes "top")
unfolding is_among
example-IsPrintable = record {
  scheme_plain = (refl, (refl, (refl, (refl, tt))));
  scheme_there = refl;
  user_plain = (refl, (refl, tt));
  password_plain = (refl, (refl, tt));
  user_there = λ h. absurd (ground (arith, h));
  host_plain =
      (refl, (refl, (refl, (refl, (refl, (refl, (refl, (refl, (refl, (refl, (refl, tt)))))))))));
  port_int = omega arith;
  path_plain = (refl, (refl, (refl, tt)));
  query_clean = (refl, (refl, (refl, tt)));
  fragment_clean = (refl, (refl, (refl, tt)));
}

of_string-to_string_example : of_string (to_string example) ≡ ok example
of_string-to_string_example =
    of_string-to_string (codes "http") (codes "me") (codes "pw") (codes "example.org") (pos 8080)
      (codes "a/b") (codes "x=1") (codes "top") example-IsPrintable
