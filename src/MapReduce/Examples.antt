-- ===== src/MapReduce/Examples.antt =====
-- Concrete vectors for `shufflePhase` of ex3/MapReduceFramework.cpp.
use os.Common.{ℕ, ◌+◌, ◌%◌, ◌≡◌, refl, Bool, some, List, [], ◌∷◌, ltb, arith}
use os.MapReduce.Shuffle.{
  Vec, Pair, pair_lt, vector_comp, erase_empty, insert_vector, sort_vectors, key_equal, take_key,
  collect, first_key, round, shuffle, size, shuffle_phase,
}
use os.MapReduce.Conserved.{NoneEmpty, total, shuffle_phase_total}

-- The keys at even addresses are equal, as are those at odd ones, and an odd one is the smaller.
abbrev parity_less : ℕ → ℕ → Bool
parity_less a b = ltb ((a + 1) % 2) ((b + 1) % 2)

abbrev vectors : List Vec
vectors = ((1, 7) ∷ []) ∷ [] ∷ ((2, 8) ∷ []) ∷ ((3, 9) ∷ []) ∷ []

-- The vectors are in the order of addresses, and the round for the key at 1 ends at the vector of the
-- greater key at 2: the equal key at 3 gets a group of its own.
shuffle_phase_splits :
    shuffle_phase parity_less vectors ≡ some (((1, 7) ∷ []) ∷ ((2, 8) ∷ []) ∷ ((3, 9) ∷ []) ∷ [])
unfolding shuffle_phase shuffle size erase_empty sort_vectors insert_vector vector_comp pair_lt
    round first_key collect take_key key_equal
shuffle_phase_splits = refl

shuffle_phase_total_example :
    (groups : List Vec) × (shuffle_phase parity_less vectors ≡ some groups)
    × NoneEmpty groups
    × ((p : Pair) → total p groups ≡ total p vectors)
shuffle_phase_total_example = shuffle_phase_total parity_less vectors (λ k. ground arith)
