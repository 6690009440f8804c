-- ===== src/Json.antt =====
-- Paths into documents (src/lib/json.cpp) with their escapes (src/lib/escape.cpp) and the numbers
-- of `is_number` (src/lib/strings.cpp). A document is what the JSON library makes of it: a record
-- of the operations that the look-up calls.
pub mod Keys
pub mod Escapes
mod Tests
use nanodistro.Base.{
  ℕ, zero, suc, ◌+◌, ◌-◌, ◌%◌, ◌^◌, Bool, true, false, not, ◌&&◌, ◌||◌, List, [], ◌∷◌, ◌++◌, Bytes,
  length, is_empty, take, drop, get_or, Option, none, some, ltb, leb, ◌==◌, if◌then◌else◌, Result,
  ok, throw, ◌>>=◌, runtime_error, invalid_argument,
}
use nanodistro.Base.Int.{ℤ, pos, negsuc}
use nanodistro.Text.{in_range, str_trim_start, str_unicode_to_utf8}
use nanodistro.Text.Number.{strto, stoi, stoul, starts_with_digit}

-- The escapes of one character, and what they stand for.
unfoldable pub simple_escape : ℕ → Option ℕ
simple_escape c =
    if c == b'a'
    then some 7
    else if c == b'b'
    then some 8
    else if c == b'e'
    then some 27
    else if c == b'f'
    then some 12
    else if c == b'n'
    then some 10
    else if c == b'r'
    then some 13
    else if c == b't'
    then some 9
    else if c == b'v'
    then some 11
    else if c == 92 || c == 39 || c == 34 || c == 63
    then some c
    else none

-- The length of the text of an escape; none for -1.
unfoldable pub escape_len : ℕ → Option ℕ
unfolding simple_escape
escape_len c = elim (simple_escape c) [
  | some v ↦ some 1
  | none ↦
      if in_range b'0' b'7' c
      then some 3
      else if c == b'x'
      then some 3
      else if c == b'u'
      then some 5
      else if c == b'U'
      then some 9
      else none
]

-- An `int` as a `char`, and as a `char32_t`.
abbrev pub wrap : ℕ → ℤ → ℕ
wrap m (pos n) = n % m
wrap m (negsuc n) = m - 1 - n % m

unfoldable pub parse_octal : Bytes → Result Bytes
parse_octal esc =
    stoi 8 (take 3 esc)
    >>= (λ r. if r.1 == 0 then throw invalid_argument else ok (wrap 256 r.0 ∷ []))

unfoldable pub parse_hex : Bytes → Result Bytes
parse_hex rest =
    stoi 16 (take 2 rest)
    >>= (λ r. if r.1 == 2 then ok (wrap 256 r.0 ∷ []) else throw invalid_argument)

unfoldable pub parse_short : Bytes → Result Bytes
parse_short rest =
    stoi 16 (take 4 rest)
    >>= (λ r. if r.1 == 4 then str_unicode_to_utf8 (wrap (2 ^ 32) r.0) else throw invalid_argument)

unfoldable pub parse_long : Bytes → Result Bytes
parse_long rest = stoul 16 (take 8 rest) >>= (λ r.
    if not (r.1 == 8)
    then throw invalid_argument
    else if ltb 1114111 (r.0 % 2 ^ 32)
    then throw invalid_argument
    else str_unicode_to_utf8 (r.0 % 2 ^ 32))

unfoldable pub escape_parse : Bytes → Result Bytes
unfolding simple_escape parse_octal parse_hex parse_short parse_long
escape_parse [] = ok []
escape_parse (c ∷ rest) = elim (simple_escape c) [
  | some v ↦ ok (v ∷ [])
  | none ↦
      if in_range b'0' b'7' c
      then parse_octal (c ∷ rest)
      else if c == b'x'
      then parse_hex rest
      else if c == b'u'
      then parse_short rest
      else if c == b'U'
      then parse_long rest
      else throw invalid_argument
]

-- The variables of `LookupNodeWith`, with what the calls of `push` have made so far; the rest of the
-- path stands for `pos`.
pub record Scan {ℓ} (A : Type ℓ) : Type ℓ where
  pub last_quote : ℕ
  pub in_esc : Bool
  pub esc_len : ℕ
  pub key : Bytes
  pub esc : Bytes
  pub pushed : A

-- `if(path[0]==sep)pos++;`
abbrev pub skip_sep : ℕ → Bytes → Bytes
skip_sep sep [] = []
skip_sep sep (c ∷ path) = if c == sep then path else c ∷ path

unfoldable pub begin_escape {ℓ} : {A : Type ℓ} → Scan A → Scan A
begin_escape st = record st { in_esc = true; esc_len = 0; esc = [] }

abbrev pub start {ℓ} : {A : Type ℓ} → A → Scan A
start a = record { last_quote = 0; in_esc = false; esc_len = 0; key = []; esc = []; pushed = a }

module _ {ℓ} {A : Type ℓ} (push : Bytes → A → Result A) where
  unfoldable pub resolve_key : Scan A → Result (Scan A)
  resolve_key st =
      if is_empty st.key
      then throw runtime_error
      else push st.key st.pushed >>= (λ a. ok (record st { key = []; pushed = a }))

  -- `if(esc.length()>=esc_len)`, where `esc` has this byte already
  unfoldable pub in_escape : Bytes → ℕ → Scan A → Result (Scan A)
  in_escape esc len st =
      if leb len (length esc)
      then escape_parse esc >>= (λ v.
        let esc_len : ℕ = 0 in
        ok (record st {
          key = if length esc == esc_len then st.key ++ v else st.key ++ v ++ drop esc_len esc;
          in_esc = false;
          esc_len = esc_len;
          esc = [];
        }))
      else ok (record st { esc = esc; esc_len = len })

  unfoldable pub escape_byte : ℕ → Scan A → Result (Scan A)
  unfolding in_escape
  escape_byte c st =
      if st.esc_len == 0
      then elim (escape_len c) [
        | none ↦ throw runtime_error
        | some len ↦ in_escape (st.esc ++ c ∷ []) len st
      ]
      else in_escape (st.esc ++ c ∷ []) st.esc_len st

  -- One round of the loop.
  unfoldable pub look_byte : ℕ → ℕ → Scan A → Result (Scan A)
  unfolding escape_byte begin_escape resolve_key
  look_byte sep c st =
      if st.in_esc
      then escape_byte c st
      else if not (st.last_quote == 0)
      then (if c == st.last_quote
          then ok (record st { last_quote = 0 })
          else if not (st.last_quote == 39) && c == 92
          then ok (begin_escape st)
          else ok (record st { key = st.key ++ c ∷ [] }))
      else if c == 34 || c == 39
      then ok (record st { last_quote = c })
      else if c == 92
      then ok (begin_escape st)
      else if c == sep
      then resolve_key st
      else ok (record st { key = st.key ++ c ∷ [] })

  unfoldable pub look_loop : ℕ → Bytes → Scan A → Result (Scan A)
  unfolding look_byte
  look_loop sep [] st = ok st
  look_loop sep (c ∷ path) st = look_byte sep c st >>= (λ st'. look_loop sep path st')

  abbrev pub last_escape : Scan A → Result (Scan A)
  last_escape st =
      if st.in_esc
      then (if ltb 0 st.esc_len
          then escape_parse st.esc >>= (λ v. ok (record st { key = st.key ++ v }))
          else throw runtime_error)
      else ok st

  -- Behind the loop.
  unfoldable pub look_end : Scan A → Result A
  unfolding resolve_key
  look_end st = last_escape st >>= (λ st'.
      if not (st'.last_quote == 0)
      then throw runtime_error
      else if is_empty st'.key
      then ok st'.pushed
      else resolve_key st' >>= (λ st''. ok st''.pushed))

  unfoldable pub lookup_with : ℕ → Bytes → A → Result A
  unfolding look_loop look_end
  lookup_with sep path a =
      if is_empty path
      then push [] a
      else look_loop sep (skip_sep sep path) (start a) >>= (λ st. look_end st)

-- The base that `strtoll` finds, for base 0.
abbrev pub base_of_digits : Bytes → ℕ
base_of_digits [] = 10
base_of_digits (c ∷ []) = if c == b'0' then 8 else 10
base_of_digits (c ∷ x ∷ s) =
    if not (c == b'0')
    then 10
    else if (x == b'x' || x == b'X') && starts_with_digit 16 s
    then 16
    else 8

abbrev pub skip_sign : Bytes → Bytes
skip_sign [] = []
skip_sign (c ∷ s) = if c == b'-' || c == b'+' then s else c ∷ s

-- `is_number(str)`, over a string that C takes to end at a NUL
unfoldable pub is_number : Bytes → Bool
is_number s = not (is_empty s) && elim (strto (base_of_digits (skip_sign (str_trim_start s))) s) [
  | none ↦ get_or s 0 0 == 0
  | some (minus, n, idx) ↦ leb n (if minus then 2 ^ 63 else 2 ^ 63 - 1) && get_or s idx 0 == 0
]

-- `Json::Value`, as the look-up uses it: `get(key,null)`, of an object, and `get(index,null)`, of an
-- array.
pub record Documents (V : Type 0) : Type 0 where
  pub null : V
  pub is_object : V → Bool
  pub is_array : V → Bool
  pub get_key : V → Bytes → V
  pub get_index : V → ℕ → V

module _ {V : Type 0} (docs : Documents V) where
  -- An index is an `unsigned int`.
  unfoldable pub at_number : Bytes → V → Result V
  at_number key node = stoul 10 key >>= (λ r.
      if r.1 == length key then ok (docs.get_index node (r.0 % 2 ^ 32)) else throw runtime_error)

  -- The callback of `lookup_node`.
  unfoldable pub descend : Bytes → V → Result V
  unfolding at_number is_number
  descend key node =
      if is_empty key
      then ok docs.null
      else if docs.is_object node
      then ok (docs.get_key node key)
      else if docs.is_array node
      then (if is_number key then at_number key node else ok docs.null)
      else ok docs.null

  unfoldable pub lookup_node : V → Bytes → ℕ → Result V
  unfolding lookup_with descend
  lookup_node root path sep = lookup_with descend sep path root
