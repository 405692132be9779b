-- ===== src/MapReduce/Shuffle.antt =====
-- ex3/MapReduceFramework.cpp: `shufflePhase`, which one thread runs while the others wait for groups.
--
-- A pair of a `K2*` and a `V2*` is a pair of addresses, and `operator<` of the keys, which belongs to
-- the client, is the argument `less` on addresses.
use os.Common.{
  ℕ, zero, suc, ◌+◌, Bool, true, false, ◌&&◌, ◌||◌, not, Option, none, some, List, [], ◌∷◌, ◌++◌,
  ltb, if◌then◌else◌, length,
}

-- `IntermediatePair`
abbrev pub Pair : Type 0
Pair = ℕ × ℕ

-- `IntermediateVec`
abbrev pub Vec : Type 0
Vec = List Pair

-- `<` of `std::pair` on two addresses each.
unfoldable pub pair_lt : Pair → Pair → Bool
pair_lt (a, b) (c, d) = ltb a c || (not (ltb c a) && ltb b d)

-- `vectorComp`: the first pairs are compared, and `none` where a vector has none.
unfoldable pub vector_comp : Vec → Vec → Option Bool
vector_comp [] w = none
vector_comp (p ∷ v) [] = none
vector_comp (p ∷ v) (q ∷ w) = some (pair_lt p q)

-- `vectors->erase(std::remove_if(..., empty), ...)`
unfoldable pub erase_empty : List Vec → List Vec
erase_empty [] = []
erase_empty ([] ∷ vs) = erase_empty vs
erase_empty ((p ∷ v) ∷ vs) = (p ∷ v) ∷ erase_empty vs

-- `std::sort` of the vectors by `vectorComp`, by insertion; no vector is empty there.
abbrev pub precedes : Option Bool → Bool
precedes none = false
precedes (some b) = b

unfoldable pub insert_vector : Vec → List Vec → List Vec
insert_vector v [] = v ∷ []
insert_vector v (w ∷ ws) =
    let rest = insert_vector v ws in if precedes (vector_comp w v) then w ∷ rest else v ∷ w ∷ ws

unfoldable pub sort_vectors : List Vec → List Vec
sort_vectors [] = []
sort_vectors (v ∷ vs) = insert_vector v (sort_vectors vs)

-- `keyEqual2`
unfoldable pub key_equal : (ℕ → ℕ → Bool) → ℕ → ℕ → Bool
key_equal less a b = not (less a b) && not (less b a)

-- The loop over one vector: the pairs it moves to `shuffleVec` and those it leaves.
unfoldable pub take_key : (ℕ → ℕ → Bool) → ℕ → Bool → Vec → Vec × Vec
take_key less k visited [] = ([], [])
take_key less k visited (p ∷ v) =
    let (found, rest) = take_key less k true v in
    let (later, before) = take_key less k false v in
    if key_equal less p.0 k
    then (p ∷ found, rest)
    else (if visited then ([], p ∷ v) else (later, p ∷ before))

-- A vector that has become empty is erased.
abbrev pub keep_vector : Vec → List Vec → List Vec
keep_vector [] vs = vs
keep_vector (p ∷ v) vs = (p ∷ v) ∷ vs

-- The loop over the vectors, up to the first whose first key is greater.
unfoldable pub collect : (ℕ → ℕ → Bool) → ℕ → List Vec → Option (Vec × List Vec)
collect less k [] = some ([], [])
collect less k ([] ∷ vs) = none
collect less k ((p ∷ v) ∷ vs) =
    if less k p.0 then some ([], (p ∷ v) ∷ vs) else elim (collect less k vs) [
      | none ↦ none
      | some (found, rest) ↦ some (
        (take_key less k false (p ∷ v)).0 ++ found,
        keep_vector (take_key less k false (p ∷ v)).1 rest,
      )
    ]

-- The key of a round: the first of the first vector.
unfoldable pub first_key : List Vec → Option ℕ
first_key [] = none
first_key ([] ∷ vs) = none
first_key ((p ∷ v) ∷ vs) = some p.0

-- One round on the sorted vectors.
unfoldable pub round : (ℕ → ℕ → Bool) → List Vec → Option (Vec × List Vec)
round less vs = elim (first_key vs) [ none ↦ none | some k ↦ collect less k vs ]

-- The loop of `shufflePhase` on fuel: the groups in the order in which they are queued.
unfoldable pub shuffle : (ℕ → ℕ → Bool) → ℕ → List Vec → Option (List Vec)
shuffle less n [] = some []
shuffle less zero (v ∷ vs) = none
shuffle less (suc n) (v ∷ vs) = elim (round less (sort_vectors (v ∷ vs))) [
  | none ↦ none
  | some (group, rest) ↦ elim (shuffle less n rest) [
    | none ↦ none
    | some groups ↦ some (group ∷ groups)
  ]
]

-- The number of pairs.
unfoldable pub size : List Vec → ℕ
size [] = 0
size (v ∷ vs) = length v + size vs

-- `shufflePhase`
unfoldable pub shuffle_phase : (ℕ → ℕ → Bool) → List Vec → Option (List Vec)
shuffle_phase less vs = shuffle less (size vs) (erase_empty vs)
