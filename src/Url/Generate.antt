-- ===== src/Url/Generate.antt =====
-- The text of an address (src/lib/url/generate.cpp and the getters of inline.cpp). Every function
-- gives the string after the call and the number of bytes that the call has added.
use nanodistro.Base.{
  ℕ, ◌-◌, Bool, false, not, ◌||◌, [], ◌∷◌, ◌++◌, Bytes, codes, length, is_empty, ltb, if◌then◌else◌,
  none,
}
use nanodistro.Base.Int.{pos, ltb_ℤ}
use nanodistro.Text.{starts_with}
use nanodistro.Text.Number.{decimal_int}
use nanodistro.Url.{Url, encode, is_among, c_str}

-- `strpbrk` as a test
unfoldable pub has_any : Bytes → Bytes → Bool
unfolding is_among
has_any set [] = false
has_any set (c ∷ s) = is_among set c || has_any set s

abbrev pub counted : Bytes → Bytes → Bytes × ℕ
counted val new = (new, length new - length val)

unfoldable pub append_scheme : Url → Bytes → Bytes × ℕ
append_scheme u val =
    counted val
      ((if not (is_empty u.scheme) then val ++ u.scheme ++ codes ":" else val) ++ codes "//")

unfoldable pub append_username : Url → Bytes → Bytes × ℕ
unfolding encode
append_username u val =
    counted val (if not (is_empty u.username) then val ++ encode u.username none [] else val)

unfoldable pub append_password : Url → Bytes → Bytes × ℕ
unfolding encode
append_password u val =
    counted val
      (if not (is_empty u.password) then val ++ codes ":" ++ encode u.password none [] else val)

unfoldable pub append_host : Url → Bytes → Bytes × ℕ
unfolding encode has_any c_str
append_host u val = counted val (
    if has_any (codes "[]#?%") (c_str u.host)
    then val ++ encode u.host none []
    else if has_any (codes ":/@") (c_str u.host)
    then val ++ codes "[" ++ u.host ++ codes "]"
    else val ++ u.host)

unfoldable pub append_port : Url → Bytes → Bytes × ℕ
unfolding decimal_int
append_port u val =
    counted val (if not (ltb_ℤ u.port (pos 0)) then val ++ codes ":" ++ decimal_int u.port else val)

unfoldable pub append_path : Url → Bytes → Bytes × ℕ
unfolding encode
append_path u val = counted val (
    (if not (starts_with u.path (codes "/")) then val ++ codes "/" else val)
    ++ encode u.path none (codes "/"))

unfoldable pub append_query : Url → Bytes → Bytes × ℕ
append_query u val = counted val (
    if not (is_empty u.query)
    then (if not (is_empty val) then val ++ codes "?" else val) ++ u.query
    else val)

unfoldable pub append_fragment : Url → Bytes → Bytes × ℕ
append_fragment u val = counted val (
    if not (is_empty u.fragment)
    then (if not (is_empty val) then val ++ codes "#" else val) ++ u.fragment
    else val)

unfoldable pub append_origin : Url → Bytes → Bytes × ℕ
unfolding append_host append_port
append_origin u val = counted val (append_port u (append_host u val).0).0

unfoldable pub append_user_info : Url → Bytes → Bytes × ℕ
unfolding append_username append_password
append_user_info u val = counted val (append_password u (append_username u val).0).0

unfoldable pub append_authority : Url → Bytes → Bytes × ℕ
unfolding append_user_info append_origin
append_authority u val =
    let (info, s) = append_user_info u val in
    counted val (append_origin u (if ltb 0 s then info ++ codes "@" else info)).0

unfoldable pub append_hierarchical : Url → Bytes → Bytes × ℕ
unfolding append_authority append_path
append_hierarchical u val = counted val (append_path u (append_authority u val).0).0

unfoldable pub append_full_path : Url → Bytes → Bytes × ℕ
unfolding append_path append_query append_fragment
append_full_path u val = counted val (append_fragment u (append_query u (append_path u val).0).0).0

unfoldable pub append_all : Url → Bytes → Bytes × ℕ
unfolding append_scheme append_hierarchical append_query append_fragment
append_all u val =
    counted val
      (append_fragment u (append_query u (append_hierarchical u (append_scheme u val).0).0).0).0

-- The getters that write a part of the address to an empty string.
pub data View : Type 0 where
  origin hierarchical user_info authority full_path entire : View

unfoldable pub get_view : View → Url → Bytes
unfolding append_origin append_hierarchical append_user_info append_authority append_full_path
    append_all
get_view origin u = (append_origin u []).0
get_view hierarchical u = (append_hierarchical u []).0
get_view user_info u = (append_user_info u []).0
get_view authority u = (append_authority u []).0
get_view full_path u = (append_full_path u []).0
get_view entire u = (append_all u []).0

unfoldable pub to_string : Url → Bytes
unfolding get_view
to_string u = get_view entire u
