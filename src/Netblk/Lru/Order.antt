-- ===== src/Netblk/Lru/Order.antt =====
-- `touch_sector_` moves a sector to the front of the recency order, and keeps the list and the map
-- of iterators consistent.
use nanodistro.Base.{
  ℕ, ◌+◌, ◌<◌, Bool, true, false, List, [], ◌∷◌, Option, none, some, ◌==◌, if◌then◌else◌, ◌≡◌, refl,
  arith, All, ◌||◌, Option-cases, inl, inr, ap, sym, ◌∙◌,
}
use nanodistro.Netblk.Lru.{
  Node, Lru, erase_node, erase_found, touch_sector, forget_sector, sectors_of, sectors,
}

-- The iterator of the node of a sector, by a search of the list.
abbrev pub id_of : ℕ → List Node → Option ℕ
id_of s [] = none
id_of s (n ∷ ns) = if s == n.at_sector then some n.id else id_of s ns

abbrev pub has_id : ℕ → List Node → Bool
has_id i [] = false
has_id i (n ∷ ns) = n.id == i || has_id i ns

abbrev pub contains : ℕ → List ℕ → Bool
contains s [] = false
contains s (x ∷ xs) = s == x || contains s xs

-- The list without a sector.
abbrev pub without : ℕ → List ℕ → List ℕ
without s [] = []
without s (x ∷ xs) = if s == x then without s xs else x ∷ without s xs

abbrev pub Distinct : List ℕ → Type 0
Distinct [] = Unit
Distinct (x ∷ xs) = (contains x xs ≡ false) × Distinct xs

abbrev DistinctIds : List Node → Type 0
DistinctIds [] = Unit
DistinctIds (n ∷ ns) = (has_id n.id ns ≡ false) × DistinctIds ns

-- Every iterator of the map is the node of its sector, no sector stands in the list twice, and a
-- new node has a new identity.
pub record IsConsistent (l : Lru) : Type 0 where
  pub linked : (s : ℕ) → l.lru_map s ≡ id_of s l.lru_list
  pub sectors_once : Distinct (sectors l)
  pub ids_once : DistinctIds l.lru_list
  pub fresh : All (λ n. n.id < l.next_id) l.lru_list

without_absent : (s : ℕ) (xs : List ℕ) → contains s xs ≡ false → without s xs ≡ xs
without_absent s [] h = refl
without_absent s (x ∷ xs) h = ground (arith, without_absent s xs)

id_of-none : (s : ℕ) (ns : List Node) → id_of s ns ≡ none → contains s (sectors_of ns) ≡ false
id_of-none s [] h = refl
id_of-none s (n ∷ ns) h = ground (arith, id_of-none s ns)

id_of-has_id : (s i : ℕ) (ns : List Node) → id_of s ns ≡ some i → has_id i ns ≡ true
id_of-has_id s i [] h = ground arith
id_of-has_id s i (n ∷ ns) h = ground (arith, id_of-has_id s i ns)

-- To erase the node of a sector is to drop the sector.
erase_node-without :
    (s i : ℕ) (ns : List Node)
    → id_of s ns ≡ some i
    → DistinctIds ns
    → Distinct (sectors_of ns)
    → sectors_of (erase_node i ns) ≡ without s (sectors_of ns)
unfolding erase_node
erase_node-without s i [] h d e = refl
erase_node-without s i (n ∷ ns) h d e =
    ground (arith, erase_node-without s i ns, id_of-has_id s i ns, without_absent s (sectors_of ns))

id_of_absent : (q : ℕ) (ns : List Node) → contains q (sectors_of ns) ≡ false → id_of q ns ≡ none
id_of_absent q [] h = refl
id_of_absent q (n ∷ ns) h = ground (arith, id_of_absent q ns)

id_of-erase :
    (s i q : ℕ) (ns : List Node)
    → id_of s ns ≡ some i
    → DistinctIds ns
    → Distinct (sectors_of ns)
    → id_of q (erase_node i ns) ≡ (if q == s then none else id_of q ns)
unfolding erase_node
id_of-erase s i q [] h d e = ground arith
id_of-erase s i q (n ∷ ns) h d e =
    ground (arith, id_of-erase s i q ns, id_of-has_id s i ns, id_of_absent q ns)

has_id-erase : (i j : ℕ) (ns : List Node) → has_id i ns ≡ false → has_id i (erase_node j ns) ≡ false
unfolding erase_node
has_id-erase i j [] h = refl
has_id-erase i j (n ∷ ns) h = ground (arith, has_id-erase i j ns)

DistinctIds-erase : (j : ℕ) (ns : List Node) → DistinctIds ns → DistinctIds (erase_node j ns)
unfolding erase_node
DistinctIds-erase j [] h = tt
DistinctIds-erase j (n ∷ ns) h = ground (arith, DistinctIds-erase j ns, has_id-erase n.id j ns)

fresh-erase :
    (k j : ℕ) (ns : List Node) → All (λ n. n.id < k) ns → All (λ n. n.id < k) (erase_node j ns)
unfolding erase_node
fresh-erase k j [] h = tt
fresh-erase k j (n ∷ ns) h = ground (arith, fresh-erase k j ns)

fresh-suc : (k : ℕ) (ns : List Node) → All (λ n. n.id < k) ns → All (λ n. n.id < k + 1) ns
fresh-suc k [] h = tt
fresh-suc k (n ∷ ns) h = (omega arith, fresh-suc k ns h.1)

has_id_fresh : (k : ℕ) (ns : List Node) → All (λ n. n.id < k) ns → has_id k ns ≡ false
has_id_fresh k [] h = refl
has_id_fresh k (n ∷ ns) h = ground (arith, has_id_fresh k ns)

pub contains-without :
    (s q : ℕ) (xs : List ℕ) → contains q (without s xs) ≡ (if q == s then false else contains q xs)
contains-without s q [] = ground arith
contains-without s q (x ∷ xs) = ground (arith, contains-without s q xs)

Distinct-without : (s : ℕ) (xs : List ℕ) → Distinct xs → Distinct (without s xs)
Distinct-without s [] h = tt
Distinct-without s (x ∷ xs) h = ground (arith, Distinct-without s xs, contains-without s x xs)

-- The node of a sector, if it has one, is gone, and nothing else has changed.
record Erased (s : ℕ) (l : Lru) (ns : List Node) : Type 0 where
  order : sectors_of ns ≡ without s (sectors l)
  ids : (q : ℕ) → id_of q ns ≡ (if q == s then none else id_of q l.lru_list)
  once : DistinctIds ns
  old : All (λ n. n.id < l.next_id) ns

erase_found-Erased :
    (s : ℕ) (l : Lru) → IsConsistent l → Erased s l (erase_found (l.lru_map s) l.lru_list)
unfolding erase_found
erase_found-Erased s l h = elim (Option-cases (l.lru_map s)) [
  | inl e ↦ rw e (record {
    order = sym (without_absent s (sectors l) (id_of-none s l.lru_list (sym (h.linked s) ∙ e)));
    ids = λ q. ground (arith, h.linked s);
    once = h.ids_once;
    old = h.fresh;
  })
  | inr (i, e) ↦
      let e' : id_of s l.lru_list ≡ some i = sym (h.linked s) ∙ e in
      rw e (record {
        order = erase_node-without s i l.lru_list e' h.ids_once h.sectors_once;
        ids = λ q. id_of-erase s i q l.lru_list e' h.ids_once h.sectors_once;
        once = DistinctIds-erase i l.lru_list h.ids_once;
        old = fresh-erase l.next_id i l.lru_list h.fresh;
      })
]

module _ (s : ℕ) (l : Lru) (h : IsConsistent l) where
  -- `touch_sector_` puts the sector first, and keeps the order of the others.
  pub sectors-touch : sectors (touch_sector s l) ≡ s ∷ without s (sectors l)
  unfolding touch_sector
  sectors-touch = ap (◌∷◌ s) (erase_found-Erased s l h).order

  -- `touch_sector_` keeps the list and the map in step.
  pub touch-IsConsistent : IsConsistent (touch_sector s l)
  unfolding touch_sector
  touch-IsConsistent =
      let r : Erased s l (erase_found (l.lru_map s) l.lru_list) = erase_found-Erased s l h in
      record {
        linked = λ q. ground (arith, h.linked q, r.ids q);
        sectors_once = rw r.order (
          ground (arith, contains-without s s (sectors l)),
          Distinct-without s (sectors l) h.sectors_once,
        );
        ids_once = (has_id_fresh l.next_id _ r.old, r.once);
        fresh = (omega arith, fresh-suc l.next_id _ r.old);
      }

  -- The loop of `invalidate_sector_` takes the sector out, and keeps the order of the others.
  pub sectors-forget : sectors (forget_sector s l) ≡ without s (sectors l)
  unfolding forget_sector
  sectors-forget = (erase_found-Erased s l h).order

  -- The loop of `invalidate_sector_` keeps the list and the map in step.
  pub forget-IsConsistent : IsConsistent (forget_sector s l)
  unfolding forget_sector
  forget-IsConsistent =
      let r : Erased s l (erase_found (l.lru_map s) l.lru_list) = erase_found-Erased s l h in
      record {
        linked = λ q. ground (arith, h.linked q, r.ids q);
        sectors_once = rw r.order (Distinct-without s (sectors l) h.sectors_once);
        ids_once = r.once;
        fresh = r.old;
      }
