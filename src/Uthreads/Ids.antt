-- ===== src/Uthreads/Ids.antt =====
-- ex2/uthreads.cpp, `struct unique_id`: the identifiers that are free, a `std::set<int>`, as an
-- ascending list.
use os.Common.{
  ℕ, zero, suc, ◌+◌, ◌<◌, ◌≡◌, ◌&&◌, List, [], ◌∷◌, arith, ltb, ◌==◌, if◌then◌else◌, count, Ascends,
  ℤ, pos, negsuc, minus_one,
}

-- `#define MAX_THREAD_NUM 100`
abbrev pub max_thread_num : ℕ
max_thread_num = 100

-- `std::set::insert`
unfoldable pub set_insert : ℕ → List ℕ → List ℕ
set_insert x [] = x ∷ []
set_insert x (y ∷ ys) =
    let rest = set_insert x ys in
    if ltb x y then x ∷ y ∷ ys else (if x == y then y ∷ ys else y ∷ rest)

-- The loop of the constructor, `n` rounds from `i` on.
unfoldable pub fill_ids : ℕ → ℕ → List ℕ
fill_ids zero i = []
fill_ids (suc n) i = i ∷ fill_ids n (i + 1)

-- `unique_id(int _max_id)` for `_max_id = suc n`.
unfoldable pub new_ids : List ℕ
new_ids = fill_ids 99 1

-- `generate_id`: the identifier, or -1, and the set that is left.
unfoldable pub generate_id : List ℕ → ℤ × List ℕ
generate_id [] = (minus_one, [])
generate_id (i ∷ rest) = (pos i, rest)

-- `remove_id`
unfoldable pub remove_id : List ℕ → ℕ → List ℕ
remove_id ids i = set_insert i ids

-- `is_used`: 1 when the set of free identifiers lacks `i`.
unfoldable pub is_used : List ℕ → ℕ → ℕ
is_used ids i = if count i ids == 0 then 1 else 0

-- `is_valid`, on an `int`: 0 when the identifier is in range and `is_used` gives 0.
unfoldable pub is_valid : List ℕ → ℤ → ℕ
unfolding is_used
is_valid ids (negsuc n) = 1
is_valid ids (pos i) = if ltb i max_thread_num && (is_used ids i == 0) then 0 else 1

pub count-set_insert :
    (i x : ℕ) (l : List ℕ)
    → count x l ≡ 0
    → count i (set_insert x l) ≡ count i l + (if i == x then 1 else 0)
unfolding set_insert
count-set_insert i x [] h = ground arith
count-set_insert i x (y ∷ ys) h = ground (arith, count-set_insert i x ys)

pub set_insert-Ascends : (n x : ℕ) (l : List ℕ) → n < x → Ascends n l → Ascends n (set_insert x l)
unfolding set_insert
set_insert-Ascends n x [] h a = (h, tt)
set_insert-Ascends n x (y ∷ ys) h a = ground (arith, set_insert-Ascends y x ys)

fill_ids-Ascends : (n i j : ℕ) → j < i → Ascends j (fill_ids n i)
unfolding fill_ids
fill_ids-Ascends zero i j h = tt
fill_ids-Ascends (suc n) i j h = (h, fill_ids-Ascends n (i + 1) i (omega arith))

count-fill_ids :
    (n i j : ℕ) → count j (fill_ids n i) ≡ (if ltb j i then 0 else if ltb j (i + n) then 1 else 0)
unfolding fill_ids
count-fill_ids zero i j = ground arith
count-fill_ids (suc n) i j = ground (arith, count-fill_ids n (i + 1) j)

pub new_ids-Ascends : Ascends 0 new_ids
unfolding new_ids
new_ids-Ascends = fill_ids-Ascends 99 1 0 (omega arith)

pub count-new_ids : (j : ℕ) → count j new_ids ≡ (if ltb 0 j && ltb j max_thread_num then 1 else 0)
unfolding new_ids
count-new_ids j = ground (arith, count-fill_ids 99 1 j)
