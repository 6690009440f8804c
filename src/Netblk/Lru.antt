-- ===== src/Netblk/Lru.antt =====
-- `lru_list` and `lru_map` of `block_cache` (src/netblk/internal.h, src/netblk/cache.cpp): a linked
-- list of sectors, most recent first, and for each sector the iterator of its list node. A node has
-- an identity, which is what an iterator holds.
pub mod Order
use nanodistro.Base.{
  ℕ, suc, ◌+◌, Bool, true, false, List, [], ◌∷◌, map, Option, none, some, ◌==◌, if◌then◌else◌,
}

pub record Node : Type 0 where
  pub id : ℕ
  pub at_sector : ℕ

pub record Lru : Type 0 where
  pub lru_list : List Node
  pub lru_map : ℕ → Option ℕ
  pub next_id : ℕ

abbrev pub empty_lru : Lru
empty_lru = record { lru_list = []; lru_map = λ s. none; next_id = 0 }

-- `lru_map[sector] = it`, and `lru_map.erase(it)` with `none`.
abbrev pub update : (ℕ → Option ℕ) → ℕ → Option ℕ → ℕ → Option ℕ
update m s v q = if q == s then v else m q

-- `lru_list.erase(it)`
unfoldable pub erase_node : ℕ → List Node → List Node
erase_node i [] = []
erase_node i (n ∷ ns) = if n.id == i then ns else n ∷ erase_node i ns

-- `if(it!=lru_map.end())lru_list.erase(it->second);`
unfoldable pub erase_found : Option ℕ → List Node → List Node
erase_found none ns = ns
erase_found (some i) ns = erase_node i ns

-- `touch_sector_`
unfoldable pub touch_sector : ℕ → Lru → Lru
unfolding erase_found
touch_sector s l = record {
  lru_list = record { id = l.next_id; at_sector = s } ∷ erase_found (l.lru_map s) l.lru_list;
  lru_map = update l.lru_map s (some l.next_id);
  next_id = l.next_id + 1;
}

-- the body of the last loop of `invalidate_sector_`
unfoldable pub forget_sector : ℕ → Lru → Lru
unfolding erase_found
forget_sector s l = record {
  lru_list = erase_found (l.lru_map s) l.lru_list;
  lru_map = update l.lru_map s none;
  next_id = l.next_id;
}

-- What the pair of structures stands for: the cached sectors, most recent first.
abbrev pub sectors_of : List Node → List ℕ
sectors_of [] = []
sectors_of (n ∷ ns) = n.at_sector ∷ sectors_of ns

abbrev pub sectors : Lru → List ℕ
sectors l = sectors_of l.lru_list
