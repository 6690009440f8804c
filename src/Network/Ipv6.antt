-- ===== src/Network/Ipv6.antt =====
-- IPv6 addresses (src/network/ipv6.cpp) and networks (src/network/ipv6_cidr.cpp). An address is the
-- eight values `ntohs(d16[i])`; how a member of `d64` stands in them depends on the byte order of the
-- machine, which is the first argument `little`. The socket addresses are left out.
pub mod Items
pub mod Printed
pub mod Segments
pub mod RoundTrip
pub mod Texts
pub mod Networks
use nanodistro.Base.{
  ℕ, zero, suc, ◌+◌, ◌-◌, ◌*◌, ◌/◌, ◌%◌, ◌^◌, Bool, true, false, not, ◌&&◌, ◌||◌, List, [], ◌∷◌,
  ◌++◌, Bytes, codes, length, is_empty, take, drop, eqb, get_or, set, replicate, ltb, leb, ◌==◌,
  if◌then◌else◌, Option, none, some, Result, ok, throw, ◌>>=◌, invalid_argument, out_of_fuel,
  undefined,
}
use nanodistro.Base.Int.{ℤ, pos, negsuc, ltb_ℤ, pos_part}
use nanodistro.Text.{starts_with, str_split}
use nanodistro.Text.Number.{stoi, stoul, decimal}
use nanodistro.Network.{Ipv4}
use nanodistro.Network.Addresses.{
  before_slash, has_dot, parse_addr, addr_to_string, Relation, holds_of,
}
use nanodistro.Network.Mac.{compare_bytes}

abbrev pub Ipv6 : Type 0
Ipv6 = List ℕ

abbrev pub empty_ipv6 : Ipv6
empty_ipv6 = 0 ∷ 0 ∷ 0 ∷ 0 ∷ 0 ∷ 0 ∷ 0 ∷ 0 ∷ []

-- The two bytes of a value, swapped.
abbrev pub swap_bytes : ℕ → ℕ
swap_bytes g = g % 256 * 256 + g / 256

-- A member of `d64` from its four values, and a write to it.
unfoldable pub word_little : List ℕ → ℕ
word_little [] = 0
word_little (g ∷ gs) = word_little gs * 65536 + swap_bytes g

unfoldable pub word_big : ℕ → List ℕ → ℕ
word_big n [] = n
word_big n (g ∷ gs) = word_big (n * 65536 + g) gs

abbrev pub to_word64 : Bool → List ℕ → ℕ
to_word64 little gs = if little then word_little gs else word_big 0 gs

unfoldable pub values_little : ℕ → ℕ → List ℕ
values_little zero w = []
values_little (suc n) w = swap_bytes (w % 65536) ∷ values_little n (w / 65536)

unfoldable pub values_big : ℕ → ℕ → List ℕ → List ℕ
values_big zero w out = out
values_big (suc n) w out = values_big n (w / 65536) (w % 65536 ∷ out)

abbrev pub of_word64 : Bool → ℕ → List ℕ
of_word64 little w = if little then values_little 4 w else values_big 4 w []

unfoldable pub high : Bool → Ipv6 → ℕ
unfolding word_little word_big
high little a = to_word64 little (take 4 a)

unfoldable pub low : Bool → Ipv6 → ℕ
unfolding word_little word_big
low little a = to_word64 little (drop 4 a)

unfoldable pub of_words : Bool → ℕ → ℕ → Ipv6
unfolding values_little values_big
of_words little h l = of_word64 little h ++ of_word64 little l

-- The number of items that are not empty, and whether one is empty.
unfoldable pub count_items : List Bytes → ℕ
count_items [] = 0
count_items (x ∷ xs) = (if is_empty x then 0 else 1) + count_items xs

unfoldable pub any_empty : List Bytes → Bool
any_empty [] = false
any_empty (x ∷ xs) = is_empty x || any_empty xs

-- `items.back()`
unfoldable pub back_item : List Bytes → Bytes
back_item [] = []
back_item (x ∷ []) = x
back_item (x ∷ y ∷ xs) = back_item (y ∷ xs)

-- The loop that sets `skip`: an empty item may follow the first one at once, and no other.
unfoldable pub skips_once : List Bytes → Bool
unfolding any_empty
skips_once [] = true
skips_once (x ∷ []) = true
skips_once (x ∷ y ∷ xs) = if is_empty x then not (any_empty xs) else skips_once (y ∷ xs)

-- `segs[idx++]=...`
unfoldable pub put : List ℕ → ℕ → ℕ → Result (List ℕ)
put segs idx v = if ltb idx 8 then ok (set segs idx v) else throw undefined

unfoldable pub segment : Bytes → Result ℕ
segment item = stoi 16 item >>= (λ r.
    if (r.1 == 0) || ltb 4 r.1 || ltb_ℤ r.0 (pos 0) || ltb_ℤ (pos 65535) r.0
    then throw invalid_argument
    else ok (pos_part r.0))

-- `idx+=8-nonempty_count` on a `size_t`
abbrev pub jump : ℕ → ℕ → ℕ
jump nonempty idx = (idx + 2 ^ 64 + 8 - nonempty) % 2 ^ 64

abbrev pub put_addr : List ℕ → ℕ → Ipv4 → Result (ℕ × List ℕ)
put_addr segs idx v = put segs idx (v.d0 * 256 + v.d1) >>= (λ segs'.
    put segs' (suc idx) (v.d2 * 256 + v.d3) >>= (λ segs''. ok (suc (suc idx), segs'')))

-- The loop over the items; the flag says that the one at `skip` has been passed.
unfoldable pub segments : Bool → ℕ → Bool → ℕ → List ℕ → List Bytes → Result (ℕ × List ℕ)
unfolding segment put
segments little nonempty passed idx segs [] = ok (idx, segs)
segments little nonempty passed idx segs (item ∷ items) =
    let over =
      segments little nonempty true (if passed then idx else jump nonempty idx) segs items in
    if is_empty item
    then over
    else if leb 8 idx
    then throw invalid_argument
    else if has_dot item
    then parse_addr little item >>= (λ v. put_addr segs idx v)
    else segment item
      >>= (λ v. put segs idx v >>= (λ segs'. segments little nonempty passed (suc idx) segs' items))

abbrev pub whole_addr : ℕ × List ℕ → Result Ipv6
whole_addr r = if r.0 == 8 then ok r.1 else throw invalid_argument

unfoldable pub parse_segments : Bool → Option (List Bytes) → Result Ipv6
unfolding count_items any_empty back_item skips_once segments
parse_segments little none = throw out_of_fuel
parse_segments little (some items) =
    if ltb (8 + (if any_empty items then 1 else 0)) (length items)
    then throw invalid_argument
    else if not (skips_once items)
    then throw invalid_argument
    else (let nonempty = count_items items + (if has_dot (back_item items) then 1 else 0) in
        segments little nonempty false 0 empty_ipv6 items >>= whole_addr)

-- Sixteen digits in front of a number.
abbrev pub hex_word : Bytes → Result ℕ
hex_word s = stoul 16 s >>= (λ r. if r.1 == 16 then ok r.0 else throw invalid_argument)

unfoldable pub parse_hex_words : Bool → Bytes → Result Ipv6
unfolding of_words
parse_hex_words little str =
    if ltb 34 (length str)
    then throw invalid_argument
    else hex_word (take 16 (drop 2 str))
      >>= (λ h. hex_word (take 16 (drop 18 str)) >>= (λ l. ok (of_words little h l)))

-- `ipv6::parse`, behind the search for a slash
unfoldable pub parse_text6 : Bool → Bytes → Result Ipv6
unfolding parse_segments parse_hex_words
parse_text6 little str =
    if is_empty str || eqb str (codes "::")
    then ok empty_ipv6
    else if starts_with str (codes "0x")
    then parse_hex_words little str
    else parse_segments little (str_split str (codes ":"))

unfoldable pub parse_ipv6 : Bool → Bytes → Result Ipv6
unfolding parse_text6
parse_ipv6 little s = parse_text6 little (before_slash s)

unfoldable pub set_ipv6 : Bool → Bytes → Result Ipv6
unfolding parse_ipv6
set_ipv6 little n = if is_empty n then ok empty_ipv6 else parse_ipv6 little n

-- `d64[0]==0&&d16[4]==0&&d16[5]==0xFFFF`, with the last two values
unfoldable pub mapped_values : Ipv6 → Option (ℕ × ℕ)
mapped_values (a ∷ b ∷ c ∷ d ∷ e ∷ f ∷ g ∷ h ∷ rest) =
    if a == 0 && b == 0 && c == 0 && d == 0 && e == 0 && f == 65535 then some (g, h) else none
mapped_values short = none

-- `ipv4(d32[3])`
abbrev pub addr_of : ℕ → ℕ → Ipv4
addr_of g h = record { d0 = g / 256; d1 = g % 256; d2 = h / 256; d3 = h % 256 }

unfoldable pub to_ipv4 : Ipv6 → Result Ipv4
unfolding mapped_values
to_ipv4 a = elim (mapped_values a) [
  | none ↦ throw invalid_argument
  | some gh ↦ ok (addr_of gh.0 gh.1)
]

-- A digit of `%x` or of `%X`, and such a number in front of what follows; a number has fewer than fuel
-- digits to go.
abbrev pub hex_digit : Bool → ℕ → ℕ
hex_digit upper d = if ltb d 10 then 48 + d else (if upper then 65 else 97) + (d - 10)

unfoldable pub print_hex : Bool → ℕ → ℕ → Bytes → Bytes
print_hex upper zero n out = hex_digit upper (n % 16) ∷ out
print_hex upper (suc fuel) n out =
    let more = print_hex upper fuel (n / 16) (hex_digit upper (n % 16) ∷ out) in
    if ltb n 16 then hex_digit upper (n % 16) ∷ out else more

-- A value has four digits at most.
unfoldable pub hex_text : Bool → ℕ → Bytes
unfolding print_hex
hex_text upper n = print_hex upper 3 n []

-- How many zeros stand at the front.
unfoldable pub zero_count : List ℕ → ℕ
zero_count [] = 0
zero_count (g ∷ gs) = let rest = zero_count gs in if g == 0 then suc rest else 0

-- The loop that finds `zb` and `zl`, from a position on; it goes on behind a run of zeros.
unfoldable pub longest : ℕ → ℕ → ℕ × ℕ → List ℕ → ℕ × ℕ
unfolding zero_count
longest skip i best [] = best
longest (suc skip) i best (g ∷ gs) = longest skip (suc i) best gs
longest zero i best (g ∷ gs) =
    let run = zero_count (g ∷ gs) in
    let better = longest (run - 1) (suc i) (if ltb best.1 run then (i, run) else best) gs in
    let on = longest zero (suc i) best gs in if g == 0 then better else on

-- `zb` and `zl`, none where `zb` is -1.
unfoldable pub zero_run : Ipv6 → Option (ℕ × ℕ)
unfolding longest
zero_run a = let best = longest 0 0 (0, 0) a in if ltb best.1 2 then none else some best

-- `ret.back()`
unfoldable pub back_byte : Bytes → ℕ
back_byte [] = 0
back_byte (c ∷ []) = c
back_byte (c ∷ d ∷ s) = back_byte (d ∷ s)

abbrev pub with_colon : Bytes → Bytes
with_colon ret = if not (is_empty ret) && not (back_byte ret == 58) then ret ++ 58 ∷ [] else ret

-- The loop that prints.
unfoldable pub print_values : Bool → Option (ℕ × ℕ) → ℕ → ℕ → Bytes → List ℕ → Bytes
unfolding back_byte
print_values upper run skip i ret [] = ret
print_values upper run (suc skip) i ret (g ∷ gs) = print_values upper run skip (suc i) ret gs
print_values upper none zero i ret (g ∷ gs) =
    print_values upper none zero (suc i) (with_colon ret ++ hex_text upper g) gs
print_values upper (some r) zero i ret (g ∷ gs) =
    let inside = print_values upper (some r) (r.1 - 1) (suc i) (ret ++ codes "::") gs in
    let outside =
      print_values upper (some r) zero (suc i) (with_colon ret ++ hex_text upper g) gs in
    if i == r.0 then inside else outside

unfoldable pub ipv6_to_string : Bool → Ipv6 → Bytes
unfolding mapped_values zero_run print_values
ipv6_to_string upper a = elim (mapped_values a) [
  | some gh ↦
      (if upper then codes "::FFFF:" else codes "::ffff:") ++ addr_to_string (addr_of gh.0 gh.1)
  | none ↦ print_values upper (zero_run a) 0 0 [] a
]

unfoldable pub next_ipv6 : Bool → Ipv6 → Ipv6
unfolding high low of_words
next_ipv6 little a =
    let l = (low little a + 1) % 2 ^ 64 in
    of_words little (if l == 0 then (high little a + 1) % 2 ^ 64 else high little a) l

unfoldable pub prev_ipv6 : Bool → Ipv6 → Ipv6
unfolding high low of_words
prev_ipv6 little a =
    let l = (low little a + 2 ^ 64 - 1) % 2 ^ 64 in
    of_words little
      (if l == 2 ^ 64 - 1 then (high little a + 2 ^ 64 - 1) % 2 ^ 64 else high little a) l

unfoldable pub compares_ipv6 : Relation → Ipv6 → Ipv6 → Bool
unfolding compare_bytes holds_of
compares_ipv6 r a b = holds_of r (compare_bytes a b)

unfoldable pub compares_ipv6_text : Bool → Relation → Ipv6 → Bytes → Result Bool
unfolding compares_ipv6 parse_ipv6
compares_ipv6_text little r a s = parse_ipv6 little s >>= (λ b. ok (compares_ipv6 r a b))
