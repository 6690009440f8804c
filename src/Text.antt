-- ===== src/Text.antt =====
-- The string helpers (src/lib/strings.cpp): trimming, splitting, settings and digits. A string is
-- the list of its bytes, and the classes of characters are those of the "C" locale. A search is
-- done on the rest of the string in place of a position.
pub mod Split
pub mod Joined
pub mod Trim
pub mod Chars
pub mod Settings
pub mod Number
mod Tests
use mathlib.Core.Option
use nanodistro.Base.{
  ℕ, zero, suc, ◌+◌, ◌-◌, ◌*◌, ◌/◌, ◌%◌, ◌≤◌, Bool, true, false, not, ◌&&◌, ◌||◌, List, [], ◌∷◌,
  ◌++◌, map, reverse, Option, none, some, Bytes, codes, length, is_empty, take, drop, eqb, ltb, leb,
  ◌==◌, if◌then◌else◌, Result, ok, throw, invalid_argument,
}

abbrev pub in_range : ℕ → ℕ → ℕ → Bool
in_range lo hi c = leb lo c && leb c hi

-- `std::isspace`, `std::isupper`, `std::islower`, `std::isdigit`
abbrev pub isspace : ℕ → Bool
isspace c = in_range 9 13 c || c == 32

abbrev pub isupper : ℕ → Bool
isupper c = in_range 65 90 c

abbrev pub islower : ℕ → Bool
islower c = in_range 97 122 c

abbrev pub isdigit : ℕ → Bool
isdigit c = in_range 48 57 c

-- `::toupper` and `::tolower`
abbrev pub toupper : ℕ → ℕ
toupper c = if islower c then c - 32 else c

abbrev pub tolower : ℕ → ℕ
tolower c = if isupper c then c + 32 else c

-- `str.ends_with(end)`
abbrev pub ends_with : Bytes → Bytes → Bool
ends_with str end = leb (length end) (length str) && eqb (drop (length str - length end) str) end

-- The string after the call, and what it returns.
unfoldable pub str_remove_end : Bytes → Bytes → Bytes × Bool
str_remove_end str end =
    if is_empty end
    then (str, false)
    else if ends_with str end
    then (take (length str - length end) str, true)
    else (str, false)

unfoldable pub str_remove_ends : Bytes → List Bytes → Bool → Bytes × Bool
unfolding str_remove_end
str_remove_ends str [] removed = (str, removed)
str_remove_ends str (item ∷ rest) removed =
    let (str', ret) = str_remove_end str item in str_remove_ends str' rest (ret || removed)

-- `while(str_remove_end(str,end));`; the last argument is the fuel.
unfoldable pub remove_all_loop : Bytes → Bytes → ℕ → Bytes
unfolding str_remove_end
remove_all_loop str end zero = str
remove_all_loop str end (suc fuel) =
    let (str', ret) = str_remove_end str end in
    let rest = remove_all_loop str' end fuel in if ret then rest else str'

-- Each round takes a byte away.
unfoldable pub str_remove_all_end : Bytes → Bytes → Bytes
unfolding remove_all_loop
str_remove_all_end str end = remove_all_loop str end (length str)

unfoldable pub str_remove_all_ends : Bytes → List Bytes → Bytes
unfolding str_remove_all_end
str_remove_all_ends str [] = str
str_remove_all_ends str (item ∷ rest) = str_remove_all_ends (str_remove_all_end str item) rest

unfoldable pub str_trim_start : Bytes → Bytes
str_trim_start [] = []
str_trim_start (c ∷ str) = if isspace c then str_trim_start str else c ∷ str

-- `pos` is the number of bytes that stay.
unfoldable pub str_trim_end : Bytes → Bytes
str_trim_end [] = []
str_trim_end (c ∷ str) =
    let rest = str_trim_end str in if is_empty rest && isspace c then [] else c ∷ rest

unfoldable pub str_trim : Bytes → Bytes
unfolding str_trim_start str_trim_end
str_trim str = str_trim_start (str_trim_end str)

-- `str.starts_with(sub)`
abbrev pub starts_with : Bytes → Bytes → Bool
starts_with str [] = true
starts_with [] (x ∷ sub) = false
starts_with (c ∷ str) (x ∷ sub) = c == x && starts_with str sub

-- `str.find(sub)`; none for `npos`
unfoldable pub find : Bytes → Bytes → Option ℕ
find [] sub = if is_empty sub then some 0 else none
find (c ∷ str) sub =
    let rest = find str sub in if starts_with (c ∷ str) sub then some 0 else Option.map suc rest

unfoldable pub str_contains : Bytes → Bytes → Bool
unfolding find
str_contains str1 str2 =
    if is_empty str1
    then false
    else if is_empty str2
    then true
    else elim (find str1 str2) [ none ↦ false | some i ↦ true ]

-- The loop of `str_split` over what is left from `pos` on; none when the fuel runs out.
unfoldable pub split_loop : Bytes → ℕ → Bytes → Option (List Bytes)
unfolding find
split_loop sep zero str = none
split_loop sep (suc fuel) str = elim (find str sep) [
  | none ↦ some (str ∷ [])
  | some idx ↦ Option.map (◌∷◌ (take idx str)) (split_loop sep fuel (drop (idx + length sep) str))
]

-- `str_split` and `split`, with a string or with a single character
unfoldable pub str_split : Bytes → Bytes → Option (List Bytes)
unfolding split_loop
str_split str sep = split_loop sep (suc (length str)) str

-- The flag is `first`.
unfoldable pub join_loop : Bytes → Bool → Bytes → List Bytes → Bytes
join_loop sep first ret [] = ret
join_loop sep first ret (str ∷ strs) =
    join_loop sep false ((if first then ret else ret ++ sep) ++ str) strs

unfoldable pub vector_to_string : List Bytes → Bytes → Bytes
unfolding join_loop
vector_to_string strs sep = join_loop sep true [] strs

-- One line of `parse_environ`: its key and value, if it is a setting.
unfoldable pub parse_line : ℕ → Bool → Bytes → Option (Bytes × Bytes)
unfolding str_trim find
parse_line csep comment line =
    let line' = str_trim line in
    if is_empty line' || (comment && starts_with line' (35 ∷ []))
    then none
    else elim (find line' (csep ∷ [])) [
      | none ↦ none
      | some idx ↦ some (str_trim (take idx line'), str_trim (drop (idx + 1) line'))
    ]

abbrev pub Settings : Type 0
Settings = List (Bytes × Bytes)

-- `ret[key]=val` and a lookup
unfoldable pub insert : Bytes → Bytes → Settings → Settings
insert key val [] = (key, val) ∷ []
insert key val ((k, v) ∷ rest) =
    if eqb k key then (key, val) ∷ rest else (k, v) ∷ insert key val rest

unfoldable pub lookup : Bytes → Settings → Option Bytes
lookup key [] = none
lookup key ((k, v) ∷ rest) = if eqb k key then some v else lookup key rest

unfoldable pub collect : (Bytes → Option (Bytes × Bytes)) → List Bytes → Settings → Settings
unfolding insert
collect parse [] ret = ret
collect parse (line ∷ lines) ret = elim (parse line) [
  | none ↦ collect parse lines ret
  | some kv ↦ collect parse lines (insert kv.0 kv.1 ret)
]

unfoldable pub parse_environ : Bytes → ℕ → ℕ → Bool → Option Settings
unfolding str_split parse_line collect
parse_environ cont lsep csep comment =
    Option.map (λ lines. collect (parse_line csep comment) lines []) (str_split cont (lsep ∷ []))

unfoldable pub hex2dec : ℕ → Result ℕ
hex2dec hex =
    if in_range 48 57 hex
    then ok (hex - 48)
    else if in_range 97 102 hex
    then ok (hex - 97 + 10)
    else if in_range 65 70 hex
    then ok (hex - 65 + 10)
    else throw invalid_argument

-- of a value that is not negative
unfoldable pub dec2hex : ℕ → Bool → Result ℕ
dec2hex dec upper =
    if ltb 15 dec
    then throw invalid_argument
    else if ltb dec 10
    then ok (48 + dec)
    else ok ((if upper then 65 else 97) + (dec - 10))

-- A mask of k ones is a remainder by 2 ^ k, and the or with a prefix that has zeros there a sum.
unfoldable pub str_unicode_to_utf8 : ℕ → Result Bytes
str_unicode_to_utf8 u =
    if leb u 127
    then ok (u ∷ [])
    else if leb u 2047
    then ok ((192 + u / 64 % 32) ∷ (128 + u % 64) ∷ [])
    else if leb u 65535
    then ok ((224 + u / 4096 % 16) ∷ (128 + u / 64 % 64) ∷ (128 + u % 64) ∷ [])
    else if leb u 1114111
    then ok
        ((240 + u / 262144 % 8) ∷ (128 + u / 4096 % 64) ∷ (128 + u / 64 % 64) ∷ (128 + u % 64) ∷ [])
    else throw invalid_argument

abbrev pub check_ident_char : ℕ → Bool → Bool
check_ident_char c first = c == 95 || isupper c || islower c || (not first && isdigit c)

-- The flag is `i==0`.
unfoldable pub check_ident_from : Bool → Bytes → Bool
check_ident_from first [] = true
check_ident_from first (c ∷ str) = check_ident_char c first && check_ident_from false str

abbrev pub check_ident_string : Bytes → Bool
check_ident_string str = check_ident_from true str

abbrev pub string_to_upper : Bytes → Bytes
string_to_upper [] = []
string_to_upper (c ∷ str) = toupper c ∷ string_to_upper str

abbrev pub string_to_lower : Bytes → Bytes
string_to_lower [] = []
string_to_lower (c ∷ str) = tolower c ∷ string_to_lower str

-- `if(str==w)return true;` for each word
unfoldable pub one_of : List Bytes → Bytes → Bool
one_of [] str = false
one_of (w ∷ ws) str = eqb str w || one_of ws str

abbrev pub true_words : List Bytes
true_words =
    codes "1"
    ∷ codes "ok"
    ∷ codes "on"
    ∷ codes "yes"
    ∷ codes "true"
    ∷ codes "always"
    ∷ codes "enable"
    ∷ codes "enabled"
    ∷ []

abbrev pub false_words : List Bytes
false_words =
    codes "0"
    ∷ codes "no"
    ∷ codes "off"
    ∷ codes "false"
    ∷ codes "never"
    ∷ codes "disable"
    ∷ codes "disabled"
    ∷ []

unfoldable pub string_is_true : Bytes → Bool
unfolding one_of
string_is_true str = one_of true_words (string_to_lower str)

unfoldable pub string_is_false : Bytes → Bool
unfolding one_of
string_is_false str = one_of false_words (string_to_lower str)
