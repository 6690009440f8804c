-- ===== src/Text/Settings.antt =====
-- The other readers of settings and lists (src/lib/strings.cpp), and what `ret[key]=val` does.
use mathlib.Core.Option
use nanodistro.Base.{
  ℕ, ◌+◌, Bool, false, List, [], ◌∷◌, ◌++◌, Option, none, some, Bytes, length, is_empty, take, drop,
  eqb, eqb_sound, eqb_self, ◌≡◌, refl, sym, ap, ◌∙◌, arith, Bool-cases, inl, inr, if◌then◌else◌,
}
use nanodistro.Text.{
  find, str_split, parse_line, Settings, insert, lookup, collect, str_trim, str_trim_start,
  str_trim_end,
}

-- `str_trim_to`, `str_trim_start_to` and `str_trim_end_to`: a copy, trimmed
unfoldable pub str_trim_to : Bytes → Bytes
str_trim_to str = str_trim str

unfoldable pub str_trim_start_to : Bytes → Bytes
str_trim_start_to str = str_trim_start str

unfoldable pub str_trim_end_to : Bytes → Bytes
str_trim_end_to str = str_trim_end str

-- `str_split` with a character, and the two functions `split`
unfoldable pub str_split_char : Bytes → ℕ → Option (List Bytes)
str_split_char str sep = str_split str (sep ∷ [])

unfoldable pub split : Bytes → Bytes → Option (List Bytes)
split str sep = str_split str sep

unfoldable pub split_char : Bytes → ℕ → Option (List Bytes)
split_char str sep = str_split str (sep ∷ [])

-- `ret.insert({key,val})` on a multimap, whose pairs stand here in the order of insertion
unfoldable pub collect_multi : (Bytes → Option (Bytes × Bytes)) → List Bytes → Settings
collect_multi parse [] = []
collect_multi parse (line ∷ lines) = elim (parse line) [
  | none ↦ collect_multi parse lines
  | some kv ↦ kv ∷ collect_multi parse lines
]

unfoldable pub parse_multi_environ : Bytes → ℕ → ℕ → Bool → Option Settings
unfolding str_split_char collect_multi
parse_multi_environ cont lsep csep comment =
    Option.map (λ lines. collect_multi (parse_line csep comment) lines) (str_split_char cont lsep)

-- One string of `string_array_to_map`: its key and value, if it is a setting.
unfoldable pub parse_item : Bytes → Bytes → Option (Bytes × Bytes)
parse_item sep str = if is_empty str then none else elim (find str sep) [
  | none ↦ none
  | some idx ↦
      if is_empty (take idx str) then none else some (take idx str, drop (idx + length sep) str)
]

-- The array up to its null pointer.
unfoldable pub string_array_to_map : List Bytes → Bytes → Settings
unfolding parse_item
string_array_to_map arr sep = collect (parse_item sep) arr []

-- The strings of `map_to_string_array`.
unfoldable pub map_to_strings : Settings → Bytes → List Bytes
map_to_strings [] sep = []
map_to_strings ((key, value) ∷ strs) sep = (key ++ (sep ++ value)) ∷ map_to_strings strs sep

-- A setting that is written is read back, and the others are as before.
pub lookup-insert :
    (key val : Bytes) (s : Settings) (other : Bytes)
    → lookup other (insert key val s) ≡ (if eqb key other then some val else lookup other s)
unfolding lookup insert
lookup-insert key val [] other = refl
lookup-insert key val ((k, v) ∷ rest) other = elim (Bool-cases (eqb k key)) [
  | inl e ↦
      let same : k ≡ key = eqb_sound k key e in
      rw e (rw same (ground (arith, Bool-cases (eqb key other))))
  | inr e ↦ rw e (elim (Bool-cases (eqb k other)) [
    | inr z ↦ rw z (lookup-insert key val rest other)
    | inl z ↦
        let same : k ≡ other = eqb_sound k other z in
        let away : eqb key other ≡ false = elim (Bool-cases (eqb key other)) [
          | inr y ↦ y
          | inl y ↦
              let both : k ≡ key = same ∙ sym (eqb_sound key other y) in
              absurd (ground (arith, ap (λ (t : Bytes). eqb t key) both, eqb_self key))
        ] in
        rw (z, away) refl
  ])
]
