-- ===== src/EventLoop/Registry.antt =====
-- The two tables of the event loop (src/lib/event-loop.cpp): a handler is registered when it is in
-- the context of its descriptor.
use Prim.Native.Nat.{bit_or, bit_or-bitwise}
use mathlib.Core.Option.{some-injective, none-ne-some}
use nanodistro.Base.{
  ℕ, Bool, true, false, ◌||◌, List, [], ◌∷◌, ◌++◌, Option, none, some, ◌≡◌, refl, sym, ap, ◌∙◌,
  arith, ◌==◌, is_empty, Bool-cases, inl, inr, if◌then◌else◌, ==_iff, subst,
}
use nanodistro.EventLoop.{Loop, Env, HandlerData, FdContext, member, erase, union, update, CtlOp}

abbrev pub Distinct : List ℕ → Type 0
Distinct [] = Unit
Distinct (x ∷ xs) = (member x xs ≡ false) × Distinct xs

abbrev pub Heap : Type 0
Heap = ℕ → HandlerData

abbrev pub Contexts : Type 0
Contexts = ℕ → Option FdContext

abbrev pub ids_of : Option FdContext → List ℕ
ids_of none = []
ids_of (some c) = c.ids

-- The identifier is in the context of its descriptor.
abbrev pub listed : Heap → Contexts → ℕ → Bool
listed heap fds id = member id (ids_of (fds (heap id).fd))

-- What holds of the context of a descriptor: its handlers are on the descriptor, each once and at
-- least one, and it is armed for the events of all.
pub record Fits (heap : Heap) (fd : ℕ) (c : FdContext) : Type 0 where
  pub own : (id : ℕ) → member id c.ids ≡ true → (heap id).fd ≡ fd
  pub once : Distinct c.ids
  pub used : is_empty c.ids ≡ false
  pub covers : c.armed ≡ union heap 0 c.ids

pub record IsConsistent (heap : Heap) (handlers : ℕ → Bool) (fds : Contexts) : Type 0 where
  pub linked : (id : ℕ) → handlers id ≡ listed heap fds id
  pub contexts : (fd : ℕ) (c : FdContext) → fds fd ≡ some c → Fits heap fd c

abbrev pub IsValid : {W : Type 0} → Loop W → Type 0
IsValid l = IsConsistent l.heap l.handlers l.fd_handlers

-- `epoll_ctl` does not fail.
abbrev pub IsReliable : {W : Type 0} → Env W → Type 0
IsReliable {W} env = (w : W) (op : CtlOp) (fd evs : ℕ) → (env.epoll_ctl w op fd evs).1 ≡ none

union-same :
    (heap : ℕ → HandlerData) (id : ℕ) (h : HandlerData) (acc : ℕ) (ids : List ℕ)
    → h.events ≡ (heap id).events
    → union (update heap id h) acc ids ≡ union heap acc ids
union-same heap id h acc [] e = refl
union-same heap id h acc (x ∷ xs) e =
    let h' : (update heap id h x).events ≡ (heap x).events = elim (Bool-cases (x == id)) [
      | inl q ↦ let x_id : x ≡ id = ground arith in rw q (rw x_id e)
      | inr q ↦ rw q
    ] in
    rw h' (union-same heap id h (bit_or acc (heap x).events) xs e)

union-absent :
    (heap : ℕ → HandlerData) (id : ℕ) (h : HandlerData) (acc : ℕ) (ids : List ℕ)
    → member id ids ≡ false
    → union (update heap id h) acc ids ≡ union heap acc ids
union-absent heap id h acc [] e = refl
union-absent heap id h acc (x ∷ xs) e =
    let away : (x == id) ≡ false = ground arith in
    rw away (union-absent heap id h (bit_or acc (heap x).events) xs (ground arith))

union-append :
    (heap : ℕ → HandlerData) (acc : ℕ) (ids : List ℕ) (i : ℕ)
    → union heap acc (ids ++ i ∷ []) ≡ bit_or (union heap acc ids) (heap i).events
union-append heap acc [] i = refl
union-append heap acc (x ∷ xs) i = union-append heap (bit_or acc (heap x).events) xs i

zero-bit_or : (n : ℕ) → bit_or 0 n ≡ n
zero-bit_or n = bit_or-bitwise 0 n

member-append : (i : ℕ) (xs : List ℕ) (j : ℕ) → member i (xs ++ j ∷ []) ≡ (member i xs || i == j)
member-append i [] j = ground arith
member-append i (x ∷ xs) j = ground (arith, member-append i xs j)

Distinct-append :
    (xs : List ℕ) (j : ℕ) → Distinct xs → member j xs ≡ false → Distinct (xs ++ j ∷ [])
Distinct-append [] j d m = (refl, tt)
Distinct-append (x ∷ xs) j d m =
    (ground (arith, member-append x xs j), Distinct-append xs j d.1 (ground arith))

member-erase :
    (i j : ℕ) (xs : List ℕ)
    → Distinct xs
    → member i (erase j xs) ≡ (if i == j then false else member i xs)
member-erase i j [] d = ground arith
member-erase i j (x ∷ xs) d = ground (arith, member-erase i j xs d.1)

Distinct-erase : (j : ℕ) (xs : List ℕ) → Distinct xs → Distinct (erase j xs)
Distinct-erase j [] d = tt
Distinct-erase j (x ∷ xs) d = elim (Bool-cases (j == x)) [
  | inl e ↦ rw e d.1
  | inr e ↦ rw e (ground (arith, member-erase x j xs d.1), Distinct-erase j xs d.1)
]

-- A handler's data changes, but neither its descriptor nor its events.
pub IsConsistent-same :
    {heap : Heap} {handlers : ℕ → Bool} {fds : Contexts} (id : ℕ) (h : HandlerData)
    → IsConsistent heap handlers fds
    → h.fd ≡ (heap id).fd
    → h.events ≡ (heap id).events
    → IsConsistent (update heap id h) handlers fds
IsConsistent-same {heap} {handlers} {fds} id h v e f = record {
  linked = λ q. v.linked q ∙ ap (λ (t : ℕ). member q (ids_of (fds t))) (sym (fd_of q));
  contexts = λ fd c at.
      let r : Fits heap fd c = v.contexts fd c at in
      record {
        own = λ q m. fd_of q ∙ r.own q m;
        once = r.once;
        used = r.used;
        covers = r.covers ∙ sym (union-same heap id h 0 c.ids f);
      };
}
  where
    fd_of : (q : ℕ) → (update heap id h q).fd ≡ (heap q).fd
    fd_of q = elim (Bool-cases (q == id)) [
      | inl z ↦ let q_id : q ≡ id = ground arith in rw z (rw q_id e)
      | inr z ↦ rw z
    ]

-- An identifier that is not registered is in no context.
absent :
    {heap : Heap} {handlers : ℕ → Bool} {fds : Contexts} (id fd : ℕ) (c : FdContext)
    → IsConsistent heap handlers fds
    → handlers id ≡ false
    → fds fd ≡ some c
    → member id c.ids ≡ false
absent {heap} {handlers} {fds} id fd c v free at = elim (Bool-cases (member id c.ids)) [
  | inr out ↦ out
  | inl yes_in ↦
      let there : listed heap fds id ≡ member id c.ids =
        ap (λ (t : ℕ). member id (ids_of (fds t))) ((v.contexts fd c at).own id yes_in)
        ∙ ap (λ (o : Option FdContext). member id (ids_of o)) at in
      absurd (ground (arith, v.linked id, there))
]

is_empty-append : (xs : List ℕ) (j : ℕ) → is_empty (xs ++ j ∷ []) ≡ false
is_empty-append [] j = refl
is_empty-append (x ∷ xs) j = refl

-- A context with these identifiers, or none if there are none.
abbrev pub shrunk : Heap → List ℕ → Option FdContext
shrunk heap [] = none
shrunk heap (x ∷ xs) = some (record { armed = union heap 0 (x ∷ xs); ids = x ∷ xs })

ids_of-shrunk : (heap : Heap) (rest : List ℕ) → ids_of (shrunk heap rest) ≡ rest
ids_of-shrunk heap [] = refl
ids_of-shrunk heap (x ∷ xs) = refl

Fits-shrunk :
    (heap : Heap) (fd : ℕ) (rest : List ℕ) (c : FdContext)
    → ((q : ℕ) → member q rest ≡ true → (heap q).fd ≡ fd)
    → Distinct rest
    → shrunk heap rest ≡ some c
    → Fits heap fd c
Fits-shrunk heap fd [] c own once e = absurd (none-ne-some c e)
Fits-shrunk heap fd (x ∷ xs) c own once e =
    subst (λ d. Fits heap fd d) (some-injective _ _ e)
      (record { own = own; once = once; used = refl; covers = refl })

-- A context of the table after a write is the written one or an old one.
from_update :
    (fds : Contexts) (P : ℕ → FdContext → Type 0) (k fd : ℕ) (o : Option FdContext) (c : FdContext)
    → update fds k o fd ≡ some c
    → (o ≡ some c → P k c)
    → (fds fd ≡ some c → P fd c)
    → P fd c
from_update fds P k fd o c at new old = elim (Bool-cases (fd == k)) [
  | inl z ↦
      let here : update fds k o fd ≡ o = rw z in
      let k_fd : k ≡ fd = ground arith in subst (λ t. P t c) k_fd (new (sym here ∙ at))
  | inr z ↦ let there : update fds k o fd ≡ fds fd = rw z in old (sym there ∙ at)
]

module _ {heap : Heap} {handlers : ℕ → Bool} {fds : Contexts}
    (v : IsConsistent heap handlers fds) where
  Fits-elsewhere :
      (id fd : ℕ) (h : HandlerData) (c : FdContext)
      → handlers id ≡ false
      → fds fd ≡ some c
      → Fits (update heap id h) fd c
  Fits-elsewhere id fd h c free at =
      let r : Fits heap fd c = v.contexts fd c at in
      let out : member id c.ids ≡ false = absent id fd c v free at in
      record {
        own = λ q m.
            let away : (q == id) ≡ false = elim (Bool-cases (q == id)) [
              | inr z ↦ z
              | inl z ↦
                  let same : member q c.ids ≡ member id c.ids =
                    ap (λ (t : ℕ). member t c.ids) ((==_iff q id).0 z) in
                  absurd (ground arith)
            ] in
            rw away (r.own q m);
        once = r.once;
        used = r.used;
        covers = r.covers ∙ sym (union-absent heap id h 0 c.ids out);
      }

  -- the identifiers on a descriptor, with or without a context
  Fits-added :
      (id : ℕ) (h : HandlerData) (o : Option FdContext)
      → handlers id ≡ false
      → fds h.fd ≡ o
      → Fits
          (update heap id h)
          h.fd
          (record { armed = bit_or (union heap 0 (ids_of o)) h.events; ids = ids_of o ++ id ∷ [] })
  Fits-added id h none free at = record {
    own = λ q m. let z : (q == id) ≡ true = ground arith in rw z refl;
    once = (refl, tt);
    used = refl;
    covers = let self : (id == id) ≡ true = ground arith in rw self refl;
  }
  Fits-added id h (some c) free at =
      let r : Fits (update heap id h) h.fd c = Fits-elsewhere id h.fd h c free at in
      let self : (id == id) ≡ true = ground arith in
      record {
        own = λ q m. elim (Bool-cases (q == id)) [
          | inl z ↦ rw z
          | inr z ↦ r.own q (ground (arith, member-append q c.ids id))
        ];
        once = Distinct-append c.ids id r.once (absent id h.fd c v free at);
        used = is_empty-append c.ids id;
        covers = sym (
            union-append (update heap id h) 0 c.ids id
            ∙ rw self (
                ap (λ (t : ℕ). bit_or t h.events)
                  (union-absent heap id h 0 c.ids (absent id h.fd c v free at))));
      }

  -- A new identifier at the end of the context of its descriptor.
  pub IsConsistent-added :
      (id : ℕ) (h : HandlerData) (o : Option FdContext)
      → handlers id ≡ false
      → fds h.fd ≡ o
      → IsConsistent (update heap id h) (update handlers id true) (
          update fds h.fd (
            some (record {
              armed = bit_or (union heap 0 (ids_of o)) h.events;
              ids = ids_of o ++ id ∷ [];
            })))
  IsConsistent-added id h o free at = record {
    linked = λ q. elim (Bool-cases (q == id)) [
      | inl z ↦
          let self : (h.fd == h.fd) ≡ true = ground arith in
          rw (z, self) (ground (arith, member-append q (ids_of o) id))
      | inr z ↦ rw z (elim (Bool-cases ((heap q).fd == h.fd)) [
        | inl y ↦ rw y (
            ground (
              arith,
              member-append q (ids_of o) id,
              v.linked q,
              ap (λ (t : ℕ). member q (ids_of (fds t))) ((==_iff (heap q).fd h.fd).0 y),
              ap (λ (t : Option FdContext). member q (ids_of t)) at,
            ))
        | inr y ↦ rw y (v.linked q)
      ])
    ];
    contexts = λ fd c e.
        from_update fds (λ k d. Fits (update heap id h) k d) h.fd fd
          (some (record {
            armed = bit_or (union heap 0 (ids_of o)) h.events;
            ids = ids_of o ++ id ∷ [];
          }))
          c e
          (λ s.
            subst (λ d. Fits (update heap id h) h.fd d) (some-injective _ _ s)
              (Fits-added id h o free at))
          (λ old. Fits-elsewhere id fd h c free old);
  }

  -- An identifier leaves the context of its descriptor.
  pub IsConsistent-removed :
      (id : ℕ) (c : FdContext)
      → fds (heap id).fd ≡ some c
      → IsConsistent heap
          (update handlers id false)
          (update fds (heap id).fd (shrunk heap (erase id c.ids)))
  IsConsistent-removed id c at =
      let r : Fits heap (heap id).fd c = v.contexts (heap id).fd c at in
      let rest : List ℕ = erase id c.ids in
      record {
        linked = λ q. elim (Bool-cases ((heap q).fd == (heap id).fd)) [
          | inl y ↦
              rw (y, ids_of-shrunk heap rest)
                (ground (
                  arith,
                  member-erase q id c.ids r.once,
                  v.linked q,
                  ap (λ (t : ℕ). member q (ids_of (fds t))) ((==_iff (heap q).fd (heap id).fd).0 y),
                  ap (λ (t : Option FdContext). member q (ids_of t)) at,
                ))
          | inr y ↦
              let away : (q == id) ≡ false = elim (Bool-cases (q == id)) [
                | inr z ↦ z
                | inl z ↦ absurd (ground (arith, ap (λ (t : ℕ). (heap t).fd) ((==_iff q id).0 z)))
              ] in
              rw (y, away) (v.linked q)
        ];
        contexts = λ fd d e.
            from_update fds (Fits heap) (heap id).fd fd (shrunk heap rest) d e
              (Fits-shrunk heap (heap id).fd rest d
                (λ q m. r.own q (ground (arith, member-erase q id c.ids r.once)))
                (Distinct-erase id c.ids r.once))
              (λ old. v.contexts fd d old);
      }
