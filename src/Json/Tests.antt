-- ===== src/Json/Tests.antt =====
-- The theorems on paths (src/lib/json.cpp) at a document of two levels.
use nanodistro.Base.{
  ℕ, true, [], ◌∷◌, ◌++◌, Bytes, eqb, ◌==◌, if◌then◌else◌, Result, ok, ◌≡◌, refl, some,
}
use nanodistro.Json.{
  Documents, descend, start, simple_escape, look_loop, lookup_node, is_number, escape_parse,
}
use nanodistro.Text.{str_trim_start}
use nanodistro.Text.Number.{strto, stoi, stoul}
use nanodistro.Json.Keys.{single, double, path_of, lookup_node-keys}
use nanodistro.Json.Escapes.{with_key, look_loop-escape}

-- The root 1 has the member a/b, which is the array 2, and the element 7 of that is 3.
abbrev documents : Documents ℕ
documents = record {
  null = 0;
  is_object = λ v. v == 1;
  is_array = λ v. v == 2;
  get_key = λ v k. (if eqb k (97 ∷ 47 ∷ 98 ∷ []) then 2 else 0);
  get_index = λ v i. (if i == 7 then 3 else 0);
}

lookup_node-keys_example :
    lookup_node documents 1
      (path_of 47 true (double, 97 ∷ 47 ∷ 98 ∷ []) ((single, 55 ∷ []) ∷ []))
      47
    ≡ ok 3
unfolding descend eqb strto str_trim_start stoul
lookup_node-keys_example =
    lookup_node-keys documents 1 47 true (double, 97 ∷ 47 ∷ 98 ∷ []) ((single, 55 ∷ []) ∷ [])
      (refl, refl, refl)
      ((refl, ((refl, (refl, (refl, tt))), (refl, (refl, (refl, tt))))), ((refl, (refl, tt)), tt))

-- `a.7` without quotes, and an escape.
plain_path : lookup_node documents 1 (97 ∷ 47 ∷ 98 ∷ 46 ∷ 55 ∷ []) 46 ≡ ok 3
unfolding lookup_node eqb strto str_trim_start stoul
plain_path = refl

hexadecimal_key : is_number (48 ∷ 120 ∷ 49 ∷ 48 ∷ []) ≡ true
unfolding is_number strto str_trim_start
hexadecimal_key = refl

letter_a : escape_parse (120 ∷ 52 ∷ 49 ∷ []) ≡ ok (65 ∷ [])
unfolding escape_parse stoi str_trim_start
letter_a = refl

abbrev keep_key : Bytes → Bytes → Result Bytes
keep_key k a = ok (a ++ k)

newline : simple_escape 110 ≡ some 10
unfolding simple_escape
newline = refl

look_loop-escape_example :
    look_loop keep_key 47 (92 ∷ 110 ∷ 98 ∷ []) (start [])
    ≡ look_loop keep_key 47 (98 ∷ []) (with_key (start []) (10 ∷ 110 ∷ []))
look_loop-escape_example =
    look_loop-escape keep_key 47 110 10 (98 ∷ []) (start []) newline refl refl
