-- ===== src/MapReduce/Mapping/Grouped.antt =====
-- ex3/MapReduceFramework.cpp: from the inputs to the groups that the threads reduce.
use os.Common.{
  ℕ, zero, suc, ◌+◌, ◌<◌, ◌≡◌, refl, ◌∙◌, Bool, false, some, List, [], ◌∷◌, ◌++◌, length, arith,
  sum_below, sum_below-zero, sum_below-suc, sym,
}
use os.MapReduce.Shuffle.{Pair, Vec, shuffle_phase}
use os.MapReduce.Conserved.{count, total, NoneEmpty, shuffle_phase_total}
use os.MapReduce.Mapping.{
  finished, Worker, Mapping, ulong_mod, Reach, sequential, insert_pair, sort_phase, sorted_vectors,
}
use os.MapReduce.Mapping.Emitted.{all_emitted}

count-insert_pair :
    (less : ℕ → ℕ → Bool) (p q : Pair) (v : Vec) → count p (insert_pair less q v) ≡ count p (q ∷ v)
unfolding insert_pair count
count-insert_pair less p q [] = refl
count-insert_pair less (a, b) (c, d) ((e, f) ∷ v) =
    ground (arith, count-insert_pair less (a, b) (c, d) v)

count-sort_phase :
    (less : ℕ → ℕ → Bool) (p : Pair) (v : Vec) → count p (sort_phase less v) ≡ count p v
unfolding sort_phase count
count-sort_phase less p [] = refl
count-sort_phase less (a, b) ((c, d) ∷ v) = omega (
  arith,
  count-insert_pair less (a, b) (c, d) (sort_phase less v),
  count-sort_phase less (a, b) v,
)

total_snoc : (p : Pair) (vs : List Vec) (v : Vec) → total p (vs ++ v ∷ []) ≡ total p vs + count p v
unfolding total
total_snoc p [] v = omega arith
total_snoc p (u ∷ vs) v = omega (arith, total_snoc p vs v)

total-sorted_vectors :
    (less : ℕ → ℕ → Bool) (worker : ℕ → Worker) (p : Pair) (n : ℕ)
    → total p (sorted_vectors less worker n) ≡ sum_below (λ i. count p (worker i).vector) n
unfolding sorted_vectors total
total-sorted_vectors less worker p zero = sym (sum_below-zero (λ i. count p (worker i).vector))
total-sorted_vectors less worker p (suc n) = omega (
  arith,
  total-sorted_vectors less worker p n,
  count-sort_phase less p (worker n).vector,
  total_snoc p (sorted_vectors less worker n) (sort_phase less (worker n).vector),
  sum_below-suc (λ i. count p (worker i).vector) n,
)

-- Once all threads have mapped and sorted, the shuffle makes groups, none of them empty, that hold each
-- pair as often as the client emits it for the inputs, whatever the interleaving was: as one thread does
-- that maps the inputs in order. No key may be less than itself, and the inputs and the threads must be
-- fewer than the values of the index's type.
pub groups_refine :
    (client_map : Pair → Vec) (inputs : List Pair) (less : ℕ → ℕ → Bool) (n k : ℕ) (s : Mapping)
    → ((a : ℕ) → less a a ≡ false)
    → length inputs + n < ulong_mod
    → 0 < n
    → Reach client_map inputs n k s
    → ((i : ℕ) → i < n → (s.worker i).place ≡ finished)
    → (groups : List Vec) × (shuffle_phase less (sorted_vectors less s.worker n) ≡ some groups)
      × NoneEmpty groups
      × ((p : Pair) → total p groups ≡ count p (sequential client_map inputs))
groups_refine client_map inputs less n k s irr fits pos r done =
    let (groups, e, ne, all) = shuffle_phase_total less (sorted_vectors less s.worker n) irr in
    (
      groups,
      e,
      ne,
      λ p.
          all p
          ∙ total-sorted_vectors less s.worker p n
          ∙ all_emitted client_map inputs n k s fits pos r done p,
    )
