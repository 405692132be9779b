-- ===== src/Whatsapp/Names.antt =====
-- Strings in order, as `std::sort`, `std::set` and `std::map` of `std::string` keep them.
use os.Common.{
  ℕ, ◌+◌, ◌≡◌, refl, Bool, true, false, ◌&&◌, ◌||◌, Option, none, some, List, [], ◌∷◌, ltb, ◌==◌,
  if◌then◌else◌, arith,
}
use os.Whatsapp.Text.{Bytes, str_eq, str_eq_iff}

-- `<` of `std::string`
unfoldable pub str_lt : Bytes → Bytes → Bool
str_lt [] [] = false
str_lt [] (y ∷ ys) = true
str_lt (x ∷ xs) [] = false
str_lt (x ∷ xs) (y ∷ ys) = ltb x y || ((x == y) && str_lt xs ys)

-- How often a string occurs.
unfoldable pub occurrences : Bytes → List Bytes → ℕ
occurrences a [] = 0
occurrences a (x ∷ xs) = (if str_eq a x then 1 else 0) + occurrences a xs

-- `contains(groupUsernames, element)`
unfoldable pub contains : List Bytes → Bytes → Bool
contains [] a = false
contains (x ∷ xs) a = str_eq a x || contains xs a

-- `std::sort`, by insertion.
unfoldable pub insert_sorted : Bytes → List Bytes → List Bytes
insert_sorted a [] = a ∷ []
insert_sorted a (x ∷ xs) =
    let rest = insert_sorted a xs in if str_lt x a then x ∷ rest else a ∷ x ∷ xs

unfoldable pub sort : List Bytes → List Bytes
sort [] = []
sort (x ∷ xs) = insert_sorted x (sort xs)

-- `l.erase(std::unique(l.begin(), l.end()), l.end())`: equal neighbours are merged.
unfoldable pub unique_from : Bytes → List Bytes → List Bytes
unique_from a [] = a ∷ []
unique_from a (x ∷ xs) =
    let same = unique_from a xs in
    let other = unique_from x xs in if str_eq a x then same else a ∷ other

unfoldable pub unique : List Bytes → List Bytes
unique [] = []
unique (x ∷ xs) = unique_from x xs

-- `std::includes` of two sorted ranges.
unfoldable pub includes : List Bytes → List Bytes → Bool
includes xs [] = true
includes [] (y ∷ ys) = false
includes (x ∷ xs) (y ∷ ys) =
    let next = includes xs (y ∷ ys) in
    let both = includes xs ys in if str_lt y x then false else (if str_lt x y then next else both)

-- `std::remove` and `erase`
unfoldable pub remove_name : Bytes → List Bytes → List Bytes
remove_name a [] = []
remove_name a (x ∷ xs) = let rest = remove_name a xs in if str_eq x a then rest else x ∷ rest

module _ {V : Type 0} where
  -- A `std::map` by its pairs in the order of the keys.
  unfoldable pub find : Bytes → List (Bytes × V) → Option V
  find k [] = none
  find k ((j, v) ∷ m) = if str_eq j k then some v else find k m

  -- `m[k] = v`
  unfoldable pub assign : Bytes → V → List (Bytes × V) → List (Bytes × V)
  assign k v [] = (k, v) ∷ []
  assign k v ((j, w) ∷ m) =
      let rest = assign k v m in
      if str_eq j k then (k, v) ∷ m else (if str_lt k j then (k, v) ∷ (j, w) ∷ m else (j, w) ∷ rest)

  -- `m.erase(k)`
  unfoldable pub erase_key : Bytes → List (Bytes × V) → List (Bytes × V)
  erase_key k [] = []
  erase_key k ((j, w) ∷ m) = let rest = erase_key k m in if str_eq j k then rest else (j, w) ∷ rest

  pub find-assign :
      (k j : Bytes) (v : V) (m : List (Bytes × V))
      → find j (assign k v m) ≡ (if str_eq k j then some v else find j m)
  unfolding find assign
  find-assign k j v [] = refl
  find-assign k j v ((i, w) ∷ m) =
      ground (arith, str_eq_iff k j, str_eq_iff i k, str_eq_iff i j, find-assign k j v m)

  pub find-erase_key :
      (k j : Bytes) (m : List (Bytes × V))
      → find j (erase_key k m) ≡ (if str_eq k j then none else find j m)
  unfolding find erase_key
  find-erase_key k j [] = ground arith
  find-erase_key k j ((i, w) ∷ m) =
      ground (arith, str_eq_iff k j, str_eq_iff i k, str_eq_iff i j, find-erase_key k j m)

pub occurrences-insert_sorted :
    (a x : Bytes) (xs : List Bytes)
    → occurrences a (insert_sorted x xs) ≡ (if str_eq a x then 1 else 0) + occurrences a xs
unfolding occurrences insert_sorted
occurrences-insert_sorted a x [] = refl
occurrences-insert_sorted a x (y ∷ ys) = ground (arith, occurrences-insert_sorted a x ys)

pub occurrences-sort : (a : Bytes) (xs : List Bytes) → occurrences a (sort xs) ≡ occurrences a xs
unfolding occurrences sort
occurrences-sort a [] = refl
occurrences-sort a (x ∷ xs) =
    omega (arith, occurrences-insert_sorted a x (sort xs), occurrences-sort a xs)
