-- ===== src/Url.antt =====
-- `url` (include/url.h, src/lib/url/): the parts, the percent code and the setters and getters
-- (encode.cpp, inline.cpp, url.cpp).
pub mod Generate
pub mod Parse
pub mod Resolve
pub mod Compare
pub mod Plain
pub mod Tail
pub mod Printed
pub mod Head
pub mod RoundTrip
mod Tests
use nanodistro.Base.{
  ℕ, ◌+◌, ◌-◌, ◌/◌, ◌%◌, Bool, true, false, not, ◌||◌, List, [], ◌∷◌, ◌++◌, Bytes, codes, eqb,
  length, take, is_empty, ltb, ◌==◌, if◌then◌else◌, Option, none, some, Result, ok, throw, ◌>>=◌,
  runtime_error,
}
use nanodistro.Base.Int.{ℤ, pos, negsuc, eqb_ℤ}
use nanodistro.Text.{in_range, isdigit, isupper, islower, starts_with}
use nanodistro.Text.Number.{stoi}

pub record Url : Type 0 where
  pub scheme : Bytes
  pub username : Bytes
  pub password : Bytes
  pub host : Bytes
  pub port : ℤ
  pub path : Bytes
  pub query : Bytes
  pub fragment : Bytes

-- Whether a byte is among those of a set.
unfoldable pub is_among : Bytes → ℕ → Bool
is_among [] c = false
is_among (x ∷ xs) c = c == x || is_among xs c

-- `strlen` cuts a string at its first zero.
unfoldable pub c_str : Bytes → Bytes
c_str [] = []
c_str (c ∷ s) = let rest = c_str s in if c == 0 then [] else c ∷ rest

-- `url_encoding_map`; zero stands for a byte that is to be encoded.
abbrev pub url_encoding_map : ℕ → ℕ
url_encoding_map c =
    if islower c || isupper c || isdigit c || is_among (codes "-_.*") c then c else 0

-- a digit of "{0:2X}"
abbrev pub upper_digit : ℕ → ℕ
upper_digit n = if ltb n 10 then b'0' + n else b'A' + (n - 10)

-- "%{0:2X}": the width is filled with a space.
abbrev pub percent_code : ℕ → Bytes
percent_code c = b'%' ∷ (if ltb c 16 then 32 else upper_digit (c / 16)) ∷ upper_digit (c % 16) ∷ []

-- The map after `for(char c:skip)m[(uint8_t)c]=c`.
abbrev pub with_skip : (ℕ → ℕ) → Bytes → ℕ → ℕ
with_skip m skip c = if is_among skip c then c else m c

unfoldable pub encode_loop : (ℕ → ℕ) → Bytes → Bytes
encode_loop m [] = []
encode_loop m (c ∷ src) = (if m c == 0 then percent_code c else m c ∷ []) ++ encode_loop m src

abbrev pub map_or_default : Option (ℕ → ℕ) → ℕ → ℕ
map_or_default none = url_encoding_map
map_or_default (some m) = m

unfoldable pub encode : Bytes → Option (ℕ → ℕ) → Bytes → Bytes
unfolding encode_loop
encode src m skip = encode_loop (with_skip (map_or_default m) skip) src

-- `(char)r`
abbrev pub char_of : ℤ → ℕ
char_of (pos n) = n % 256
char_of (negsuc n) = 255 - n % 256

-- What the branch of `%` adds to the output; it leaves `i` where it is.
unfoldable pub decode_percent : Bytes → Result ℕ
decode_percent s =
    if ltb (length s) 2
    then throw runtime_error
    else (stoi 16 (take 2 s) >>= λ r.
        if not (r.1 == 2) then throw runtime_error else ok (char_of r.0))

unfoldable pub decode : Bytes → Result Bytes
unfolding decode_percent
decode [] = ok []
decode (c ∷ s) =
    let rest = decode s in
    if c == b'%'
    then (decode_percent s >>= λ r. rest >>= λ out. ok (r ∷ out))
    else (rest >>= λ out. ok ((if c == b'+' then 32 else c) ∷ out))

-- The string that a setter is given: a `std::string`, a pointer, or a pointer and a length, where
-- no length stands for all of the string.
pub data Text : Type 0 where
  string_text : Bytes → Text
  pointer : Bytes → Text
  sized_text : Bytes → ℕ → Text

abbrev pub text_of : Text → Bytes
text_of (string_text s) = s
text_of (pointer s) = c_str s
text_of (sized_text s len) = if len == 0 then c_str s else take len s

unfoldable pub set_scheme : Text → Url → Url
set_scheme val u = record u { scheme = text_of val }

unfoldable pub set_username_decoded : Text → Url → Url
set_username_decoded val u = record u { username = text_of val }

unfoldable pub set_password_decoded : Text → Url → Url
set_password_decoded val u = record u { password = text_of val }

unfoldable pub set_host_decoded : Text → Url → Url
set_host_decoded val u = record u { host = text_of val }

unfoldable pub set_port_number : ℤ → Url → Url
set_port_number val u = record u { port = val }

unfoldable pub set_path_decoded : Text → Url → Url
set_path_decoded val u = record u { path = text_of val }

unfoldable pub set_query : Text → Url → Url
set_query val u = record u { query = text_of val }

unfoldable pub set_fragment : Text → Url → Url
set_fragment val u = record u { fragment = text_of val }

unfoldable pub set_username : Text → Url → Result Url
unfolding decode set_username_decoded
set_username val u = decode (text_of val) >>= λ v. ok (set_username_decoded (string_text v) u)

unfoldable pub set_password : Text → Url → Result Url
unfolding decode set_password_decoded
set_password val u = decode (text_of val) >>= λ v. ok (set_password_decoded (string_text v) u)

unfoldable pub set_host : Text → Url → Result Url
unfolding decode set_host_decoded
set_host val u = decode (text_of val) >>= λ v. ok (set_host_decoded (string_text v) u)

unfoldable pub set_path : Text → Url → Result Url
unfolding decode set_path_decoded
set_path val u = decode (text_of val) >>= λ v. ok (set_path_decoded (string_text v) u)

unfoldable pub set_port : Text → Url → Result Url
unfolding set_port_number
set_port val u = stoi 10 (text_of val) >>= λ r.
    if not (r.1 == length (text_of val)) then throw runtime_error else ok (set_port_number r.0 u)

-- The setters and the getters by the part of the address.
pub data Part : Type 0 where
  scheme_part username_part password_part host_part port_part path_part query_part fragment_part :
      Part

unfoldable pub set_part : Part → Text → Url → Result Url
unfolding set_scheme set_username set_password set_host set_port set_path set_query set_fragment
set_part scheme_part val u = ok (set_scheme val u)
set_part username_part val u = set_username val u
set_part password_part val u = set_password val u
set_part host_part val u = set_host val u
set_part port_part val u = set_port val u
set_part path_part val u = set_path val u
set_part query_part val u = ok (set_query val u)
set_part fragment_part val u = ok (set_fragment val u)

unfoldable pub set_decoded : Part → Text → Url → Option Url
unfolding set_username_decoded set_password_decoded set_host_decoded set_path_decoded
set_decoded username_part val u = some (set_username_decoded val u)
set_decoded password_part val u = some (set_password_decoded val u)
set_decoded host_part val u = some (set_host_decoded val u)
set_decoded path_part val u = some (set_path_decoded val u)
set_decoded scheme_part val u = none
set_decoded port_part val u = none
set_decoded query_part val u = none
set_decoded fragment_part val u = none

unfoldable pub get_part : Part → Url → Option Bytes
get_part scheme_part u = some u.scheme
get_part username_part u = some u.username
get_part password_part u = some u.password
get_part host_part u = some u.host
get_part port_part u = none
get_part path_part u = some u.path
get_part query_part u = some u.query
get_part fragment_part u = some u.fragment

abbrev pub empty_url : Url
empty_url = record {
  scheme = [];
  username = [];
  password = [];
  host = [];
  port = negsuc 0;
  path = [];
  query = [];
  fragment = [];
}

-- `clear` by its setters.
unfoldable pub clear : Url → Url
unfolding set_scheme set_username_decoded set_password_decoded set_host_decoded set_port_number
    set_path_decoded set_query set_fragment
clear u = set_fragment (pointer []) (
    set_query (pointer []) (
      set_path_decoded (pointer []) (
        set_port_number (negsuc 0) (
          set_host_decoded (pointer []) (
            set_password_decoded (pointer [])
              (set_username_decoded (pointer []) (set_scheme (pointer []) u)))))))

-- `from`; a null pointer changes nothing.
unfoldable pub from : Option Url → Url → Url
unfolding set_scheme set_username_decoded set_password_decoded set_host_decoded set_port_number
    set_path_decoded set_query set_fragment
from none u = u
from (some v) u = set_fragment (string_text v.fragment) (
    set_query (string_text v.query) (
      set_path_decoded (string_text v.path) (
        set_port_number v.port (
          set_host_decoded (string_text v.host) (
            set_password_decoded (string_text v.password) (
              set_username_decoded (string_text v.username)
                (set_scheme (string_text v.scheme) u)))))))

unfoldable pub is_in_top : Url → Bool
is_in_top u = is_empty u.path || eqb u.path (codes "/")
