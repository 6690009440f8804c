-- ===== src/Paths.antt =====
-- Parts of paths (src/lib/paths.cpp).
pub mod Join
mod Tests
use nanodistro.Base.{
  ℕ, suc, Bool, true, false, List, [], ◌∷◌, ◌++◌, Bytes, codes, is_empty, take, drop, ◌==◌,
  if◌then◌else◌, Option, none, some, Result, ok, throw, ◌>>=◌, runtime_error, out_of_fuel,
}
use nanodistro.Text.{find, starts_with, ends_with, str_remove_end, str_split}

-- `str.rfind(c)`; none for `npos`
unfoldable pub rfind : ℕ → Bytes → Option ℕ
rfind c [] = none
rfind c (x ∷ str) = elim (rfind c str) [
  | some i ↦ some (suc i)
  | none ↦ if x == c then some 0 else none
]

abbrev pub part_after : Bytes → Option ℕ → Bytes
part_after path none = path
part_after path (some i) = drop (suc i) path

abbrev pub part_before : Bytes → Option ℕ → Bytes
part_before path none = path
part_before path (some i) = take i path

unfoldable pub path_basename : Bytes → Bytes
unfolding str_remove_end rfind
path_basename str =
    let path = (str_remove_end str (codes "/")).0 in part_after path (rfind b'/' path)

unfoldable pub path_dirname : Bytes → Bytes
unfolding str_remove_end rfind
path_dirname str =
    let path = (str_remove_end str (codes "/")).0 in part_before path (rfind b'/' path)

unfoldable pub path_join : Bytes → Bytes → Bytes
path_join dir file =
    if starts_with file (codes "/")
    then file
    else if ends_with dir (codes "/")
    then dir ++ file
    else dir ++ (b'/' ∷ file)

-- The loop of `path_find_exec` over the directories, where `exists` is what `fs_exists` tells.
unfoldable pub find_in : (Bytes → Bool) → Bytes → List Bytes → Result Bytes
unfolding path_join
find_in exists exe [] = throw runtime_error
find_in exists exe (dir ∷ dirs) =
    let rest = find_in exists exe dirs in
    if exists (path_join dir exe) then ok (path_join dir exe) else rest

abbrev pub search : (Bytes → Bool) → Bytes → Option (List Bytes) → Result Bytes
search exists exe none = throw out_of_fuel
search exists exe (some dirs) = find_in exists exe dirs

-- The variable PATH is an argument.
unfoldable pub path_find_exec : (Bytes → Bool) → Bytes → Bytes → Result Bytes
unfolding find find_in str_split
path_find_exec exists paths exe = elim (find exe (codes "/")) [
  | none ↦ search exists exe (str_split paths (codes ":"))
  | some i ↦ ok exe
]
