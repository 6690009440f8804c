-- ===== src/Network/Ipv6/Texts.antt =====
-- Every IPv6 address is read back from its text (src/network/ipv6.cpp).
use nanodistro.Base.{
  ℕ, ◌+◌, ◌*◌, ◌/◌, ◌%◌, ◌≤◌, ◌<◌, Bool, true, false, ◌||◌, List, [], ◌∷◌, ◌++◌, append_assoc,
  Bytes, codes, length, length-append, length-replicate, is_empty, replicate, ◌==◌, if◌then◌else◌,
  some, Option-cases, ok, All, All-append, ◌≡◌, refl, sym, ap, subst, ◌∙◌, arith, Bool-cases, inl,
  inr,
}
use nanodistro.Text.{in_range}
use nanodistro.Text.Number.{decimal}
use nanodistro.Text.Number.RoundTrip.{decimal-Lacks}
use nanodistro.Text.Joined.{Lacks}
use nanodistro.Network.{Ipv4}
use nanodistro.Network.Addresses.{zero_addr, parse_addr, set_addr, addr_to_string, has_dot}
use nanodistro.Network.Addresses.RoundTrip.{IsBytes, parse_addr-to_string, has_dot-to_string}
use nanodistro.Network.Ipv6.{
  Ipv6, hex_text, count_items, any_empty, back_item, skips_once, segments, put, addr_of,
  parse_segments, parse_ipv6, mapped_values, zero_run, print_values, ipv6_to_string,
}
use nanodistro.Network.Ipv6.Items.{
  hex_text-IsItem, segment-hex_text, Splits, Splits-one, Splits-more,
}
use nanodistro.Network.Ipv6.Printed.{joined, print_values-cases}
use nanodistro.Network.Ipv6.Segments.{hex_text-Lacks, has_dot-Lacks}
use nanodistro.Network.Ipv6.RoundTrip.{
  joined-Lacks, length-joined, parse_ipv6-split, parse-all, parse-around, parse-zero,
}

-- The text of an IPv4 address.
addr-Lacks :
    (c : ℕ) (a : Ipv4) → in_range 48 57 c ≡ false → (b'.' == c) ≡ false → Lacks c (addr_to_string a)
unfolding addr_to_string
addr-Lacks c a h dot =
    let lacks : (n : ℕ) → Lacks c (decimal n) = λ n. decimal-Lacks c n h in
    All-append _ (decimal a.d0) _ (lacks a.d0) (
      dot,
      All-append _ (decimal a.d1) _ (lacks a.d1)
          (dot, All-append _ (decimal a.d2) _ (lacks a.d2) (dot, lacks a.d3)),
    )

addr-full : (a : Ipv4) → is_empty (addr_to_string a) ≡ false
addr-full a = elim (Bool-cases (is_empty (addr_to_string a))) [
  | inl e ↦ absurd (no_dot (addr_to_string a) e (has_dot-to_string a))
  | inr e ↦ e
]
  where
    no_dot : (s : Bytes) → is_empty s ≡ true → has_dot s ≡ true → ⊥
    no_dot [] e d = ground (arith, d, has_dot-Lacks [] tt)
    no_dot (c ∷ s) e d = ground (arith, e)

parse_addr-text :
    (little : Bool) (a : Ipv4) → IsBytes a → parse_addr little (addr_to_string a) ≡ ok a
unfolding set_addr
parse_addr-text little a v =
    ap (λ (b : Bool). if b then ok zero_addr else parse_addr little (addr_to_string a))
      (sym (addr-full a))
    ∙ parse_addr-to_string little a v

addr_of-IsBytes : (g h : ℕ) → g < 65536 → h < 65536 → IsBytes (addr_of g h)
addr_of-IsBytes g h a b = record {
  first_byte = omega (arith, a);
  second_byte = omega arith;
  third_byte = omega (arith, b);
  fourth_byte = omega arith;
}

abbrev mapped_text : Bool → Ipv4 → Bytes
mapped_text upper v = (if upper then codes "::FFFF:" else codes "::ffff:") ++ addr_to_string v

abbrev mapped_items : Bool → Ipv4 → List Bytes
mapped_items upper v = [] ∷ [] ∷ hex_text upper 65535 ∷ addr_to_string v ∷ []

mapped_text-parts :
    (upper : Bool) (v : Ipv4)
    → mapped_text upper v ≡ 58 ∷ 58 ∷ (hex_text upper 65535 ++ 58 ∷ addr_to_string v)
unfolding hex_text
mapped_text-parts true v = refl
mapped_text-parts false v = refl

mapped_values-Splits :
    (upper : Bool) (v : Ipv4) → Splits (mapped_text upper v) (mapped_items upper v)
mapped_values-Splits upper v =
    let t : Bytes = addr_to_string v in
    rw (mapped_text-parts upper v) (
      Splits-more [] (58 ∷ (hex_text upper 65535 ++ 58 ∷ t)) _ tt (
        Splits-more [] (hex_text upper 65535 ++ 58 ∷ t) _ tt (
          Splits-more (hex_text upper 65535) t (t ∷ []) (hex_text-Lacks upper 58 65535 refl)
            (Splits-one t (addr-Lacks 58 v refl refl)))))

mapped_values-Lacks :
    (upper : Bool) (c : ℕ) (v : Ipv4)
    → (in_range 48 57 c || in_range 65 70 c || in_range 97 102 c) ≡ false
    → (58 == c) ≡ false
    → (b'.' == c) ≡ false
    → Lacks c (mapped_text upper v)
mapped_values-Lacks upper c v h colon dot =
    let digit : in_range 48 57 c ≡ false = ground (arith, h) in
    rw (mapped_text-parts upper v) (
      colon,
      (
        colon,
        All-append _ (hex_text upper 65535) _ (hex_text-Lacks upper c 65535 h)
            (colon, addr-Lacks c v digit dot),
      ),
    )

mapped_values-segments :
    (upper little : Bool) (g h : ℕ)
    → g < 65536
    → h < 65536
    → parse_segments little (some (mapped_items upper (addr_of g h)))
      ≡ ok (0 ∷ 0 ∷ 0 ∷ 0 ∷ 0 ∷ 65535 ∷ g ∷ h ∷ [])
unfolding parse_segments count_items any_empty back_item skips_once segments put
mapped_values-segments upper little g h a b =
    let v : Ipv4 = addr_of g h in
    let first : g / 256 * 256 + g % 256 ≡ g = omega arith in
    let second : h / 256 * 256 + h % 256 ≡ h = omega arith in
    rw (addr-full v, (hex_text-IsItem upper 65535).full, has_dot-to_string v)
      (rw
        (
          has_dot-Lacks (hex_text upper 65535) (hex_text-Lacks upper 46 65535 refl),
          segment-hex_text upper 65535 (omega arith),
          parse_addr-text little v (addr_of-IsBytes g h a b),
        )
        (rw (first, second) refl))

-- What `mapped_values` tells of an address of eight values.
mapped_values-parts :
    (a : List ℕ) (gh : ℕ × ℕ)
    → length a ≡ 8
    → mapped_values a ≡ some gh
    → a ≡ 0 ∷ 0 ∷ 0 ∷ 0 ∷ 0 ∷ 65535 ∷ gh.0 ∷ gh.1 ∷ []
unfolding mapped_values
mapped_values-parts (a ∷ b ∷ c ∷ d ∷ e ∷ f ∷ g ∷ h ∷ []) gh l m = ground (arith, m)
mapped_values-parts a gh l m = absurd (omega (arith, l))

All-left : (xs ys : List ℕ) → All (λ g. g < 65536) (xs ++ ys) → All (λ g. g < 65536) xs
All-left [] ys h = tt
All-left (x ∷ xs) ys h = (h.0, All-left xs ys h.1)

All-right : (xs ys : List ℕ) → All (λ g. g < 65536) (xs ++ ys) → All (λ g. g < 65536) ys
All-right [] ys h = h
All-right (x ∷ xs) ys h = All-right xs ys h.1

parse-run :
    (upper little : Bool) (n : ℕ) (pre post : List ℕ)
    → length pre + n + length post ≡ 8
    → 2 ≤ n
    → All (λ g. g < 65536) pre
    → All (λ g. g < 65536) post
    → parse_ipv6 little (joined upper pre ++ (58 ∷ 58 ∷ joined upper post))
      ≡ ok (pre ++ (replicate n 0 ++ post))
parse-run upper little n [] [] l two h g =
    let eight : n ≡ 8 = omega (arith, l) in rw eight (parse-zero little)
parse-run upper little n [] (y ∷ post) l two h g =
    parse-around upper little n [] (y ∷ post) l two (omega arith) h g
parse-run upper little n (x ∷ pre) post l two h g =
    parse-around upper little n (x ∷ pre) post l two (omega arith) h g
    ∙ ap ok (append_assoc (x ∷ pre) (replicate n 0) post)

parse-mapped :
    (upper little : Bool) (g h : ℕ)
    → g < 65536
    → h < 65536
    → parse_ipv6 little (mapped_text upper (addr_of g h))
      ≡ ok (0 ∷ 0 ∷ 0 ∷ 0 ∷ 0 ∷ 65535 ∷ g ∷ h ∷ [])
parse-mapped upper little g h a b =
    parse_ipv6-split little (mapped_text upper (addr_of g h)) (mapped_items upper (addr_of g h))
      (long upper) (mapped_values-Lacks upper 47 (addr_of g h) refl refl refl)
      (mapped_values-Lacks upper 120 (addr_of g h) refl refl refl)
      (mapped_values-Splits upper (addr_of g h))
    ∙ mapped_values-segments upper little g h a b
  where
    long : (upper : Bool) → 2 < length (mapped_text upper (addr_of g h))
    long true = omega arith
    long false = omega arith

parse-plain :
    (upper little : Bool) (a : Ipv6)
    → length a ≡ 8
    → All (λ g. g < 65536) a
    → parse_ipv6 little (print_values upper (zero_run a) 0 0 [] a) ≡ ok a
parse-plain upper little a l h = elim (print_values-cases upper a) [
  | inl text ↦ ap (parse_ipv6 little) text ∙ parse-all upper little a l h
  | inr (r, v, two, text) ↦
      let all : All (λ g. g < 65536) (v.pre ++ (replicate r.1 0 ++ v.post)) =
        subst (All (λ g. g < 65536)) v.split h in
      let total : length v.pre + r.1 + length v.post ≡ 8 = omega (
        arith,
        l,
        ap length v.split,
        length-append v.pre (replicate r.1 0 ++ v.post),
        length-append (replicate r.1 0) v.post,
        length-replicate {A = ℕ} r.1 0,
      ) in
      ap (parse_ipv6 little) text
      ∙ parse-run upper little r.1 v.pre v.post total two (All-left v.pre _ all)
          (All-right (replicate r.1 0) v.post (All-right v.pre _ all))
      ∙ ap ok (sym v.split)
]

-- Every IPv6 address is read back from its text as it was: with its longest run of zeros left out,
-- with the dotted form of a mapped IPv4 address, and in either case of the digits, whatever the byte
-- order of the machine.
pub parse_ipv6-to_string :
    (upper little : Bool) (a : Ipv6)
    → length a ≡ 8
    → All (λ g. g < 65536) a
    → parse_ipv6 little (ipv6_to_string upper a) ≡ ok a
unfolding ipv6_to_string
parse_ipv6-to_string upper little a l h = elim (Option-cases (mapped_values a)) [
  | inl e ↦ rw (e, ipv6_to_string) (parse-plain upper little a l h)
  | inr (gh, e) ↦
      let parts : a ≡ 0 ∷ 0 ∷ 0 ∷ 0 ∷ 0 ∷ 65535 ∷ gh.0 ∷ gh.1 ∷ [] = mapped_values-parts a gh l e in
      let all = subst (All (λ g. g < 65536)) parts h in
      rw (e, ipv6_to_string)
        (parse-mapped upper little gh.0 gh.1 all.1.1.1.1.1.1.0 all.1.1.1.1.1.1.1.0
          ∙ ap ok (sym parts))
]

-- A text of an address has no slash.
pub to_string-Lacks : (upper : Bool) (a : Ipv6) → length a ≡ 8 → Lacks b'/' (ipv6_to_string upper a)
unfolding ipv6_to_string
to_string-Lacks upper a l = elim (Option-cases (mapped_values a)) [
  | inr (gh, e) ↦
      rw (e, ipv6_to_string) (mapped_values-Lacks upper 47 (addr_of gh.0 gh.1) refl refl refl)
  | inl e ↦
      rw (e, ipv6_to_string)
        (elim (print_values-cases upper a) [
          | inl text ↦ subst (Lacks b'/') (sym text) (joined-Lacks upper 47 a refl refl)
          | inr (r, v, two, text) ↦ subst (Lacks b'/') (sym text) (
              All-append _ (joined upper v.pre) _ (joined-Lacks upper 47 v.pre refl refl)
                (refl, (refl, joined-Lacks upper 47 v.post refl refl)))
        ])
]

pub to_string-full :
    (upper : Bool) (a : Ipv6) → length a ≡ 8 → is_empty (ipv6_to_string upper a) ≡ false
unfolding ipv6_to_string
to_string-full upper a l = elim (Option-cases (mapped_values a)) [
  | inr (gh, e) ↦ rw (e, ipv6_to_string) (colons upper (addr_of gh.0 gh.1))
  | inl e ↦
      rw (e, ipv6_to_string)
        (elim (print_values-cases upper a) [
          | inl text ↦ rw text (full (joined upper a) (omega (arith, l, length-joined upper a)))
          | inr (r, v, two, text) ↦ rw text (
              full _
                (omega (arith, length-append (joined upper v.pre) (58 ∷ 58 ∷ joined upper v.post))))
        ])
]
  where
    colons : (upper : Bool) (v : Ipv4) → is_empty (mapped_text upper v) ≡ false
    colons true v = refl
    colons false v = refl

    full : (s : Bytes) → 0 < length s → is_empty s ≡ false
    full [] h = absurd (omega (arith, h))
    full (c ∷ s) h = refl
