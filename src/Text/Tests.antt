-- ===== src/Text/Tests.antt =====
-- The theorems on the string helpers (src/lib/strings.cpp) at short strings.
use nanodistro.Base.{some, List, some, Bytes, codes, ◌≡◌, arith, ok}
use nanodistro.Text.{str_split, vector_to_string, str_unicode_to_utf8}
use nanodistro.Text.Split.{vector_to_string-str_split}
use nanodistro.Text.Chars.{utf8_decode, utf8_decode-str_unicode_to_utf8}

vector_to_string-str_split_example :
    (parts : List Bytes) × (str_split (codes "a, b,, c") (codes ", ") ≡ some parts)
    × (vector_to_string parts (codes ", ") ≡ codes "a, b,, c")
vector_to_string-str_split_example =
    vector_to_string-str_split (codes "a, b,, c") (codes ", ") (omega arith)

utf8_decode-str_unicode_to_utf8_example :
    (bytes : Bytes) × (str_unicode_to_utf8 8364 ≡ ok bytes) × (utf8_decode bytes ≡ some 8364)
utf8_decode-str_unicode_to_utf8_example = utf8_decode-str_unicode_to_utf8 8364 (omega arith)
