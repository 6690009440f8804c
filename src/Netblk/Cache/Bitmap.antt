-- ===== src/Netblk/Cache/Bitmap.antt =====
-- `is_cached`, a `std::vector<bool>`, under the algorithms that the cache applies to it.
use nanodistro.Base.{
  ℕ, zero, suc, ◌+◌, ◌≤◌, ◌<◌, Bool, true, false, List, [], ◌∷◌, get_or, length, ◌≡◌, refl, ap, ◌⊎◌,
  arith, if◌then◌else◌,
}

abbrev pub is_set : ℕ → List Bool → Bool
is_set i l = get_or l i false

-- `std::fill(begin+offset,begin+offset+n,v)`
unfoldable pub fill : ℕ → ℕ → Bool → List Bool → List Bool
fill offset n v [] = []
fill zero zero v (x ∷ xs) = x ∷ xs
fill zero (suc n) v (x ∷ xs) = v ∷ fill zero n v xs
fill (suc offset) n v (x ∷ xs) = x ∷ fill offset n v xs

-- `std::find(begin+i,begin+i+n,true)`, as an index
unfoldable pub find_set : List Bool → ℕ → ℕ → ℕ
find_set l i zero = i
find_set l i (suc n) = let rest = find_set l (i + 1) n in if is_set i l then i else rest

-- `std::count(begin,end,true)`
unfoldable pub count_set : List Bool → ℕ
count_set [] = 0
count_set (true ∷ l) = suc (count_set l)
count_set (false ∷ l) = count_set l

pub length-fill : (offset n : ℕ) (v : Bool) (l : List Bool) → length (fill offset n v l) ≡ length l
unfolding fill
length-fill offset n v [] = refl
length-fill zero zero v (x ∷ xs) = refl
length-fill zero (suc n) v (x ∷ xs) = ap suc (length-fill zero n v xs)
length-fill (suc offset) n v (x ∷ xs) = ap suc (length-fill offset n v xs)

pub is_set-fill_in :
    (offset n i : ℕ) (v : Bool) (l : List Bool)
    → offset ≤ i
    → i < offset + n
    → i < length l
    → is_set i (fill offset n v l) ≡ v
unfolding fill
is_set-fill_in offset n i v [] lo hi h = absurd (omega arith)
is_set-fill_in zero zero i v (x ∷ xs) lo hi h = absurd (omega arith)
is_set-fill_in zero (suc n) zero v (x ∷ xs) lo hi h = refl
is_set-fill_in zero (suc n) (suc i) v (x ∷ xs) lo hi h =
    is_set-fill_in zero n i v xs (omega arith) (omega arith) (omega arith)
is_set-fill_in (suc offset) n zero v (x ∷ xs) lo hi h = absurd (omega arith)
is_set-fill_in (suc offset) n (suc i) v (x ∷ xs) lo hi h =
    is_set-fill_in offset n i v xs (omega arith) (omega arith) (omega arith)

pub is_set-fill_out :
    (offset n i : ℕ) (v : Bool) (l : List Bool)
    → (i < offset) ⊎ (offset + n ≤ i)
    → is_set i (fill offset n v l) ≡ is_set i l
unfolding fill
is_set-fill_out offset n i v [] h = refl
is_set-fill_out zero zero i v (x ∷ xs) h = refl
is_set-fill_out zero (suc n) zero v (x ∷ xs) h = absurd (omega arith)
is_set-fill_out zero (suc n) (suc i) v (x ∷ xs) h = is_set-fill_out zero n i v xs (omega arith)
is_set-fill_out (suc offset) n zero v (x ∷ xs) h = refl
is_set-fill_out (suc offset) n (suc i) v (x ∷ xs) h = is_set-fill_out offset n i v xs (omega arith)

-- A set entry lies inside the vector.
pub is_set-lt : (i : ℕ) (l : List Bool) → is_set i l ≡ true → i < length l
is_set-lt i [] h = absurd (ground arith)
is_set-lt zero (x ∷ xs) h = omega arith
is_set-lt (suc i) (x ∷ xs) h = omega (arith, is_set-lt i xs h)

-- The search stays in its range, and every entry before its result is clear.
pub find_set_bounds : (l : List Bool) (i n : ℕ) → (i ≤ find_set l i n) × (find_set l i n ≤ i + n)
unfolding find_set
find_set_bounds l i zero = (omega arith, omega arith)
find_set_bounds l i (suc n) = ground (arith, find_set_bounds l (i + 1) n)
