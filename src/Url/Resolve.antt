-- ===== src/Url/Resolve.antt =====
-- `url::go_back` and `url::relative` (src/lib/url/url.cpp).
pub mod Idempotent
pub mod Names
use nanodistro.Base.{
  ℕ, suc, Bool, true, false, not, ◌&&◌, ◌||◌, List, [], ◌∷◌, ◌++◌, Bytes, codes, eqb, drop,
  is_empty, length, ◌==◌, if◌then◌else◌, Option, none, some, Result, ok,
}
use nanodistro.Text.{starts_with, ends_with, str_contains, find}
use nanodistro.Url.{Url, string_text, set_path, is_in_top}
use nanodistro.Url.Parse.{of_string}

-- `ends_with('/')`
unfoldable pub ends_in_slash : Bytes → Bool
ends_in_slash [] = false
ends_in_slash (c ∷ s) = let rest = ends_in_slash s in if is_empty s then c == b'/' else rest

-- What `while(!path.ends_with('/')&&!path.empty())path.pop_back();` leaves: the bytes up to the last
-- slash.
unfoldable pub up_to_slash : Bytes → Bytes
up_to_slash [] = []
up_to_slash (c ∷ s) =
    let rest = up_to_slash s in
    if not (is_empty rest) then c ∷ rest else if c == b'/' then c ∷ [] else []

unfoldable pub pop_back : Bytes → Bytes
pop_back [] = []
pop_back (c ∷ s) = let rest = pop_back s in if is_empty s then [] else c ∷ rest

unfoldable pub go_back : Url → Url × Bool
unfolding is_in_top ends_in_slash up_to_slash pop_back
go_back u =
    let path = up_to_slash (if ends_in_slash u.path then pop_back u.path else u.path) in
    if is_in_top u
    then (u, false)
    else (record u { path = path }, not (length path == length u.path))

-- `new_path.erase(rfind('/')+1,npos)`; without a slash the path is kept.
abbrev pub directory : Bytes → Bytes
directory s = if is_empty (up_to_slash s) then s else up_to_slash s

abbrev pub new_path : Bytes → Bytes → Bytes
new_path base path =
    if starts_with path (codes "/")
    then path
    else if not (is_empty base)
    then (if not (ends_in_slash base) then directory base else base) ++ path
    else codes "/" ++ path

-- The parts between the slashes; the accumulator holds the part that is being read.
unfoldable pub parts : Bytes → Bytes → List Bytes
parts part [] = if is_empty part then [] else part ∷ []
parts part (c ∷ s) =
    let next = parts [] s in
    let more = parts (part ++ c ∷ []) s in
    if c == b'/' then (if is_empty part then next else part ∷ next) else more

-- `stack.pop_back()` on a stack that may be empty
unfoldable pub pop : List Bytes → List Bytes
pop [] = []
pop (x ∷ stack) = let rest = pop stack in if is_empty stack then [] else x ∷ rest

-- The stack after the parts, its top last.
unfoldable pub walk : List Bytes → List Bytes → List Bytes
unfolding pop
walk stack [] = stack
walk stack (part ∷ rest) =
    walk
      (if eqb part (codes "..")
        then pop stack
        else if not (eqb part (codes ".")) && not (is_empty part)
        then stack ++ part ∷ []
        else stack)
      rest

unfoldable pub join_parts : List Bytes → Bytes
join_parts [] = []
join_parts (x ∷ xs) = let rest = join_parts xs in if is_empty xs then x else x ++ (b'/' ∷ rest)

-- The string `resolved_path`, which `set_path` then decodes.
unfoldable pub resolve : Bytes → Bytes
unfolding parts walk join_parts ends_in_slash
resolve path =
    let resolved = codes "/" ++ join_parts (walk [] (parts [] path)) in
    if ends_in_slash path && not (ends_in_slash resolved) then resolved ++ codes "/" else resolved

unfoldable pub relative : Url → Bytes → Result Url
unfolding of_string set_path resolve find
relative u path =
    if elim (find path (codes "://")) [ none ↦ false | some i ↦ true ]
    then of_string path
    else if starts_with path (codes "?")
    then ok (record u {
      query = (if not (is_empty u.query) then u.query ++ codes "&" else u.query) ++ drop 1 path;
    })
    else if starts_with path (codes "#")
    then ok (record u { fragment = drop 1 path })
    else set_path (string_text (resolve (new_path u.path path)))
        (record u { query = []; fragment = [] })
