-- ===== src/Url/Parse.antt =====
-- `url::parse` (src/lib/url/parse.cpp). The pointer `p` is the bytes from it on, up to the zero that
-- ends the string.
use nanodistro.Base.{
  ℕ, zero, suc, ◌-◌, not, ◌&&◌, [], ◌∷◌, Bytes, codes, length, drop, take, is_empty, get_or, ltb,
  ◌==◌, if◌then◌else◌, Option, none, some, Result, ok, throw, ◌>>=◌, runtime_error,
}
use nanodistro.Text.{isspace, starts_with}
use nanodistro.Url.{
  Url, sized_text, empty_url, is_among, c_str, clear, set_scheme, set_username, set_password,
  set_host, set_port, set_path, set_query, set_fragment,
}

-- The bytes in front of the one that a search finds, and those from it on.
abbrev pub Found : Type 0
Found = Option (Bytes × Bytes)

abbrev pub pass : ℕ → Found → Found
pass c none = none
pass c (some (before, from)) = some (c ∷ before, from)

unfoldable pub strpbrk : Bytes → Bytes → Found
unfolding is_among
strpbrk [] set = none
strpbrk (c ∷ s) set =
    let rest = strpbrk s set in if is_among set c then some ([], c ∷ s) else pass c rest

-- `strchr`, and `memchr` on the bytes in front of the end
abbrev pub strchr : Bytes → ℕ → Found
strchr s c = strpbrk s (c ∷ [])

unfoldable pub strstr : Bytes → Bytes → Found
strstr [] sub = if is_empty sub then some ([], []) else none
strstr (c ∷ s) sub =
    let rest = strstr s sub in if starts_with (c ∷ s) sub then some ([], c ∷ s) else pass c rest

-- `*p`
abbrev pub at : Bytes → ℕ
at [] = 0
at (c ∷ p) = c

-- `while(len>0&&isspace(u[0]))u++,len--;`
unfoldable pub trim_front : Bytes → ℕ → Bytes × ℕ
trim_front [] len = ([], len)
trim_front (c ∷ u) len =
    let rest = trim_front u (len - 1) in if ltb 0 len && isspace c then rest else (c ∷ u, len)

-- `while(len>0&&isspace(u[len-1]))len--;`
unfoldable pub trim_back : Bytes → ℕ → ℕ
trim_back u zero = 0
trim_back u (suc len) =
    let rest = trim_back u len in if isspace (get_or u len 0) then rest else suc len

-- What `parse` does from each of its blocks on.
unfoldable pub parse_fragment : Bytes → Url → Result Url
unfolding set_fragment
parse_fragment p t = ok (if at p == b'#' then set_fragment (sized_text (drop 1 p) 0) t else t)

unfoldable pub parse_query : Bytes → Url → Result Url
unfolding set_query parse_fragment strpbrk
parse_query p t =
    if at p == b'?'
    then elim (strchr (drop 1 p) b'#') [
      | none ↦ ok (set_query (sized_text (drop 1 p) 0) t)
      | some c ↦ parse_fragment c.1 (set_query (sized_text (drop 1 p) (length c.0)) t)
    ]
    else parse_fragment p t

unfoldable pub parse_path : Bytes → Url → Result Url
unfolding set_path parse_query strpbrk
parse_path p t =
    if at p == b'/'
    then elim (strpbrk p (codes "?#")) [
      | none ↦ set_path (sized_text p 0) t
      | some c ↦ (set_path (sized_text p (length c.0)) t >>= λ t. parse_query c.1 t)
    ]
    else parse_query p t

unfoldable pub parse_port : Bytes → Url → Result Url
unfolding set_port parse_path strpbrk
parse_port p t =
    if at p == b':'
    then elim (strpbrk (drop 1 p) (codes "/?#")) [
      | none ↦ set_port (sized_text (drop 1 p) 0) t
      | some c ↦ (set_port (sized_text (drop 1 p) (length c.0)) t >>= λ t. parse_path c.1 t)
    ]
    else parse_path p t

unfoldable pub parse_host : Bytes → Url → Result Url
unfolding set_host parse_port strpbrk is_among
parse_host p t =
    if at p == b'['
    then elim (strchr p b']') [
      | none ↦ throw runtime_error
      | some c ↦
          (set_host (sized_text (drop 1 p) (length c.0 - 1)) t >>= λ t. parse_port (drop 1 c.1) t)
    ]
    else if not (is_among (codes "/:?#") (at p))
    then elim (strpbrk p (codes ":/?#")) [
      | none ↦ set_host (sized_text p 0) t
      | some c ↦ (set_host (sized_text p (length c.0)) t >>= λ t. parse_port c.1 t)
    ]
    else parse_port p t

-- The user, the pointer to it being `info` and the length `si`.
unfoldable pub parse_info : Bytes → ℕ → Url → Result Url
unfolding set_username set_password strpbrk
parse_info info si t = elim (strchr (take si info) b':') [
  | none ↦ set_username (sized_text info si) t
  | some c ↦
      (set_username (sized_text info (length c.0)) t >>= λ t.
      set_password (sized_text (drop (suc (length c.0)) info) (length c.1 - 1)) t)
]

unfoldable pub parse_user : Bytes → Url → Result Url
unfolding parse_info parse_host strpbrk
parse_user p t = elim (strpbrk p (codes "@/")) [
  | none ↦ parse_host p t
  | some c ↦
      if at c.1 == b'@'
      then (parse_info p (length c.0) t >>= λ t. parse_host (drop 1 c.1) t)
      else parse_host p t
]

unfoldable pub parse_scheme : Bytes → Url → Result Url
unfolding set_scheme parse_user strstr
parse_scheme p t = elim (strstr p (codes "://")) [
  | none ↦ parse_user p t
  | some c ↦
      parse_user (drop 3 c.1)
        (if ltb 0 (length c.0) then set_scheme (sized_text p (length c.0)) t else t)
]

-- `parse` of a string and its length into an object. The blanks at the ends are counted, but `p`
-- stays where it was.
unfoldable pub parse : Bytes → ℕ → Url → Result Url
unfolding trim_front trim_back parse_scheme clear c_str
parse u len t =
    if at u == 0
    then ok t
    else let (rest, left) = trim_front u (if len == 0 then length (c_str u) else len) in
      if trim_back rest left == 0 then ok t else parse_scheme (c_str u) (clear t)

-- the constructors that take a text
unfoldable pub of_string : Bytes → Result Url
unfolding parse
of_string str = parse str (length str) empty_url
