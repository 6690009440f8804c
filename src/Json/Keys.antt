-- ===== src/Json/Keys.antt =====
-- A path of quoted keys leads where the keys do, one after the other (src/lib/json.cpp).
use nanodistro.Base.{
  ℕ, Bool, true, false, List, [], ◌∷◌, ◌++◌, append_assoc, append-nil, Bytes, is_empty, ◌==◌,
  if◌then◌else◌, Result, ok, throw, ◌>>=◌, All, ◌≡◌, refl, ap, ◌∙◌, arith,
}
use nanodistro.Text.Joined.{Lacks}
use nanodistro.Json.{
  Scan, look_byte, look_loop, look_end, resolve_key, skip_sep, lookup_with, Documents, descend,
  lookup_node,
}

-- The two quotes of a path.
pub data Quote : Type 0 where
  single double : Quote

abbrev pub byte_of : Quote → ℕ
byte_of single = 39
byte_of double = 34

-- A key with the quotes it stands in.
abbrev pub Key : Type 0
Key = Quote × Bytes

-- A key between its quotes, and what follows.
abbrev pub quoted : Key → Bytes → Bytes
quoted (q, k) rest = byte_of q ∷ (k ++ byte_of q ∷ rest)

-- The keys of a path with a separator in front of each.
abbrev pub more_keys : ℕ → List Key → Bytes
more_keys sep [] = []
more_keys sep (key ∷ keys) = sep ∷ quoted key (more_keys sep keys)

-- The bytes that a key may not hold: its own quote, and in double quotes a backslash.
abbrev pub IsClean : Quote → Bytes → Type 0
IsClean single k = Lacks 39 k
IsClean double k = Lacks 34 k × Lacks 92 k

-- A key that is not empty, and stands for itself between its quotes.
abbrev pub IsKey : Key → Type 0
IsKey (q, k) = (is_empty k ≡ false) × IsClean q k

-- A byte that separates, in its own right.
abbrev pub IsSep : ℕ → Type 0
IsSep sep = ((sep == 39) ≡ false) × ((sep == 34) ≡ false) × ((sep == 92) ≡ false)

-- A path of quoted keys with a separator between them, and one in front of all or none.
abbrev pub path_of : ℕ → Bool → Key → List Key → Bytes
path_of sep rooted key keys =
    if rooted then sep ∷ quoted key (more_keys sep keys) else quoted key (more_keys sep keys)

skip_sep-path :
    (sep : ℕ) (rooted : Bool) (key : Key) (keys : List Key)
    → IsSep sep
    → skip_sep sep (path_of sep rooted key keys) ≡ quoted key (more_keys sep keys)
skip_sep-path sep true key keys s = let self : (sep == sep) ≡ true = ground arith in rw self refl
skip_sep-path sep false (single, k) keys s =
    let other : (39 == sep) ≡ false = ground (arith, s.0) in rw other refl
skip_sep-path sep false (double, k) keys s =
    let other : (34 == sep) ≡ false = ground (arith, s.1) in rw other refl

path-full :
    (sep : ℕ) (rooted : Bool) (key : Key) (keys : List Key)
    → is_empty (path_of sep rooted key keys) ≡ false
path-full sep true key keys = refl
path-full sep false key keys = refl

module _ {ℓ} {A : Type ℓ} (push : Bytes → A → Result A) where
  -- The calls of `push` on the keys.
  abbrev pub push_all : List Key → A → Result A
  push_all [] a = ok a
  push_all (key ∷ keys) a = push key.1 a >>= (λ a'. push_all keys a')

  abbrev scanned : ℕ → Bytes → A → Scan A
  scanned quote key a = record {
    last_quote = quote;
    in_esc = false;
    esc_len = 0;
    key = key;
    esc = [];
    pushed = a;
  }

  look_loop-single :
      (sep : ℕ) (k rest key : Bytes) (a : A)
      → IsClean single k
      → look_loop push sep (k ++ 39 ∷ rest) (scanned 39 key a)
        ≡ look_loop push sep rest (scanned 0 (key ++ k) a)
  unfolding look_loop look_byte
  look_loop-single sep [] rest key a h = rw (append-nil key) refl
  look_loop-single sep (c ∷ k) rest key a h =
      let e : (key ++ c ∷ []) ++ k ≡ key ++ c ∷ k = append_assoc key (c ∷ []) k in
      rw (h.0, look_loop)
        (look_loop-single sep k rest (key ++ c ∷ []) a h.1
          ∙ ap (λ (t : Bytes). look_loop push sep rest (scanned 0 t a)) e)

  look_loop-double :
      (sep : ℕ) (k rest key : Bytes) (a : A)
      → IsClean double k
      → look_loop push sep (k ++ 34 ∷ rest) (scanned 34 key a)
        ≡ look_loop push sep rest (scanned 0 (key ++ k) a)
  unfolding look_loop look_byte
  look_loop-double sep [] rest key a h = rw (append-nil key) refl
  look_loop-double sep (c ∷ k) rest key a (h, g) =
      let e : (key ++ c ∷ []) ++ k ≡ key ++ c ∷ k = append_assoc key (c ∷ []) k in
      rw (h.0, g.0, look_loop)
        (look_loop-double sep k rest (key ++ c ∷ []) a (h.1, g.1)
          ∙ ap (λ (t : Bytes). look_loop push sep rest (scanned 0 t a)) e)

  look_loop-quoted :
      (sep : ℕ) (key : Key) (rest : Bytes) (a : A)
      → IsClean key.0 key.1
      → look_loop push sep (quoted key rest) (scanned 0 [] a)
        ≡ look_loop push sep rest (scanned 0 key.1 a)
  unfolding look_loop look_byte
  look_loop-quoted sep (single, k) rest a h = look_loop-single sep k rest [] a h
  look_loop-quoted sep (double, k) rest a h = look_loop-double sep k rest [] a h

  look_byte-sep :
      (sep : ℕ) (k : Bytes) (a : A)
      → IsSep sep
      → is_empty k ≡ false
      → look_byte push sep sep (scanned 0 k a) ≡ (push k a >>= (λ a'. ok (scanned 0 [] a')))
  unfolding look_byte resolve_key
  look_byte-sep sep k a s h =
      let self : (sep == sep) ≡ true = ground arith in rw (s.0, s.1, s.2, self) (rw h refl)

  look_end-key :
      (k : Bytes) (a : A)
      → is_empty k ≡ false
      → look_end push (scanned 0 k a) ≡ (push k a >>= (λ a'. ok a'))
  unfolding look_end resolve_key
  look_end-key k a h = rw (h, look_end) (ended (push k a))
    where
      ended :
          (r : Result A)
          → ((r >>= (λ a'. ok (scanned 0 [] a'))) >>= (λ st. ok st.pushed)) ≡ (r >>= (λ a'. ok a'))
      ended (throw e) = refl
      ended (ok a') = refl

  -- What follows a separator is reached by the call of `push`.
  after_push :
      (sep : ℕ) (rest : Bytes) (ks : List Key) (r : Result A)
      → ((a' : A)
          → (look_loop push sep rest (scanned 0 [] a') >>= (λ st. look_end push st))
            ≡ push_all ks a')
      → (((r >>= (λ a'. ok (scanned 0 [] a'))) >>= (λ st'. look_loop push sep rest st'))
          >>= (λ st. look_end push st))
        ≡ (r >>= (λ a'. push_all ks a'))
  after_push sep rest ks (throw e) h = refl
  after_push sep rest ks (ok a') h = h a'

  -- The rest of a path, where a key stands in front of it.
  look_loop-keys :
      (sep : ℕ) (key : Key) (keys : List Key) (a : A)
      → IsSep sep
      → is_empty key.1 ≡ false
      → All IsKey keys
      → (look_loop push sep (more_keys sep keys) (scanned 0 key.1 a) >>= (λ st. look_end push st))
        ≡ push_all (key ∷ keys) a
  unfolding look_loop
  look_loop-keys sep key [] a s h g = look_end-key key.1 a h
  look_loop-keys sep key (next ∷ keys) a s h g =
      let rest : Bytes = quoted next (more_keys sep keys) in
      ap
        (λ (r : Result (Scan A)).
          (r >>= (λ st'. look_loop push sep rest st')) >>= (λ st. look_end push st))
        (look_byte-sep sep key.1 a s h)
      ∙ after_push sep rest (next ∷ keys) (push key.1 a) (λ a'.
        ap (λ (r : Result (Scan A)). r >>= (λ st. look_end push st))
          (look_loop-quoted sep next (more_keys sep keys) a' g.0.1)
        ∙ look_loop-keys sep next keys a' s g.0.0 g.1)

  -- The scan of such a path calls `push` on the keys, in their order.
  pub lookup_with-keys :
      (sep : ℕ) (rooted : Bool) (key : Key) (keys : List Key) (a : A)
      → IsSep sep
      → All IsKey (key ∷ keys)
      → lookup_with push sep (path_of sep rooted key keys) a ≡ push_all (key ∷ keys) a
  unfolding lookup_with
  lookup_with-keys sep rooted key keys a s h =
      rw (path-full sep rooted key keys, skip_sep-path sep rooted key keys s, lookup_with)
        (ap (λ (r : Result (Scan A)). r >>= (λ st. look_end push st))
            (look_loop-quoted sep key (more_keys sep keys) a h.0.1)
          ∙ look_loop-keys sep key keys a s h.0.0 h.1)

-- The look-up of a path of keys in quotes steps down from the root by these keys in their order. Each
-- key is not empty and stands in single or in double quotes; it does not hold its own quote, nor a
-- backslash between double quotes, but may hold any other byte, a separator, too. The separator is
-- no quote and no backslash, and may stand in front of the path as well.
pub lookup_node-keys :
    {V : Type 0} (docs : Documents V) (root : V) (sep : ℕ) (rooted : Bool) (key : Key)
    (keys : List Key)
    → IsSep sep
    → All IsKey (key ∷ keys)
    → lookup_node docs root (path_of sep rooted key keys) sep
      ≡ push_all (descend docs) (key ∷ keys) root
unfolding lookup_node
lookup_node-keys docs root sep rooted key keys s h =
    lookup_with-keys (descend docs) sep rooted key keys root s h
