-- ===== src/MapReduce/Framework.antt =====
-- ex3/MapReduceFramework.cpp: `singleThread` in all threads, from the inputs to the end.
--
-- The barrier at the end of `sortPhase` stands between the phases: thread 0 shuffles what all threads have
-- sorted.
use os.Common.{ℕ, ◌+◌, ◌<◌, ◌≡◌, refl, ap, Bool, false, some, none, List, [], ◌∷◌, length, arith}
use os.MapReduce.Shuffle.{Pair, Vec, shuffle_phase}
use os.MapReduce.Conserved.{count, total}
use os.MapReduce.Mapping
use os.MapReduce.Reducing
use os.MapReduce.Mapping.{Mapping, ulong_mod, sequential, sorted_vectors}
use os.MapReduce.Mapping.Grouped.{groups_refine}
use os.MapReduce.Reducing.{Reducing, thread_step}
use os.MapReduce.Reducing.Accounts.{weigh}
use os.MapReduce.Reducing.Complete.{reduce_phase_complete}

weigh-total : (p : Pair) (vs : List Vec) → weigh (count p) vs ≡ total p vs
unfolding total
weigh-total p [] = refl
weigh-total p (v ∷ vs) = ap (λ k. count p v + k) (weigh-total p vs)

-- When the threads that map have finished, and then, with the groups that the shuffle makes of their
-- sorted vectors, no thread can make a step any more, all threads have finished, and the groups that
-- `reduce` was called on hold each pair as often as one thread emits it that maps the inputs in order. No
-- key may be less than itself, and the inputs and the threads must be fewer than the values of the
-- index's type.
pub each_pair_reduced :
    (client_map : Pair → Vec) (inputs : List Pair) (less : ℕ → ℕ → Bool) (n k l : ℕ) (s : Mapping)
    (groups : List Vec) (t : Reducing)
    → ((a : ℕ) → less a a ≡ false)
    → length inputs + n < ulong_mod
    → 0 < n
    → Mapping.Reach client_map inputs n k s
    → ((i : ℕ) → i < n → (s.worker i).place ≡ Mapping.finished)
    → shuffle_phase less (sorted_vectors less s.worker n) ≡ some groups
    → Reducing.Reach groups n l t
    → ((i : ℕ) → i < n → thread_step n t i (t.place i) ≡ none)
    → ((i : ℕ) → i < n → t.place i ≡ Reducing.finished)
      × ((p : Pair) → total p t.reduced ≡ count p (sequential client_map inputs))
each_pair_reduced client_map inputs less n k l s groups t irr fits pos mapped done made reached
      stuck =
    let (groups', e, _, all) =
      groups_refine client_map inputs less n k s irr fits pos mapped done in
    let (finished, _, once) = reduce_phase_complete pos reached stuck in
    let same : groups' ≡ groups = cc in
    (
      finished,
      λ p. omega (
        arith,
        weigh-total p t.reduced,
        once (count p),
        weigh-total p groups,
        ap (total p) same,
        all p,
      ),
    )
