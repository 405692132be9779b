-- ===== src/MapReduce/System/Complete.antt =====
-- ex3/MapReduceFramework.cpp: the threads come to their end, and with the right result.
use os.Common.{
  ℕ, zero, suc, ◌+◌, ◌≤◌, ◌<◌, ◌≡◌, ◌≢◌, refl, sym, ap, ◌∙◌, Bool, false, Option, none, some, List,
  [], length, arith, inl, inr, ◌⊎◌, Option-cases, sum_below_bound, ◌*◌,
}
use mathlib.Core.Path.{subst}
use os.MapReduce.Shuffle.{Pair, Vec, shuffle_phase}
use os.MapReduce.Conserved.{count, total, shuffle_phase_total}
use os.MapReduce.Barrier
use os.MapReduce.Barrier.Rounds.{barrier_rounds, all_left, waiting-calls}
use os.MapReduce.Mapping
use os.MapReduce.Mapping.{Mapping, StrictWeak, ulong_mod, sequential, sorted_vectors}
use os.MapReduce.Mapping.Emitted.{map_phase_bounds}
use os.MapReduce.Reducing
use os.MapReduce.Reducing.{Reducing, thread_step}
use os.MapReduce.Reducing.Complete.{reduce_phase_bounds, reduce_phase_complete}
use os.MapReduce.Framework.{each_pair_reduced}
use os.MapReduce.System.{System, begins, goes_on, behind_barrier, at_barrier, single_thread, Reach}
use os.MapReduce.System.Invariant.{Inv, Mapped, Shuffled, crossings, Reach-Inv}

stuck_mapped :
    (client_map : Pair → Vec) (inputs : List Pair) (less : ℕ → ℕ → Bool) (n : ℕ) (s : System)
    (i : ℕ) (p : Mapping.Place)
    → single_thread client_map inputs less n s i p ≡ none
    → (p ≡ Mapping.finished)
      × (at_barrier less n s i (s.barrier.calls i) (s.barrier.place i) ≡ none)
unfolding single_thread
stuck_mapped client_map inputs less n s i Mapping.fetching e = cc
stuck_mapped client_map inputs less n s i (Mapping.mapping x) e = cc
stuck_mapped client_map inputs less n s i Mapping.finished e = (refl, e)

module _ (less : ℕ → ℕ → Bool) (n : ℕ) (s : System) (i : ℕ) where
  -- A thread that is stuck behind `mapPhase` waits at the barrier, or it is behind it.
  stuck_barrier :
      (k : ℕ) (p : Barrier.Place)
      → at_barrier less n s i k p ≡ none
      → (p ≡ Barrier.waiting)
        ⊎ ((p ≡ Barrier.outside) × (0 < k) × (behind_barrier less n s i s.reducing ≡ none))
  unfolding at_barrier
  stuck_barrier k Barrier.waiting e = inl refl
  stuck_barrier k Barrier.woken e = cc
  stuck_barrier zero Barrier.outside e = cc
  stuck_barrier (suc k) Barrier.outside e = inr (refl, omega arith, e)

  stuck_reducing :
      (r : Reducing)
      → behind_barrier less n s i (some r) ≡ none
      → thread_step n r i (r.place i) ≡ none
  unfolding behind_barrier goes_on
  stuck_reducing r e = ground (arith, e, Option-cases (thread_step n r i (r.place i)))

-- Thread 0 is never stuck before it shuffles.
must_begin :
    (less : ℕ → ℕ → Bool) (n : ℕ) (s : System)
    → ((a : ℕ) → less a a ≡ false)
    → behind_barrier less n s 0 none ≢ none
unfolding behind_barrier begins
must_begin less n s irr e =
    let (groups, made, _, _) =
      shuffle_phase_total less (sorted_vectors less s.mapping.worker n) irr in
    cc

module _ (client_map : Pair → Vec) (inputs : List Pair) (less : ℕ → ℕ → Bool) (n : ℕ) (s : System)
    (irr : (a : ℕ) → less a a ≡ false) (pos : 0 < n) (k : ℕ) (v : Inv client_map inputs less n k s)
    (stuck : (i : ℕ)
      → i < n
      → single_thread client_map inputs less n s i (s.mapping.worker i).place ≡ none) where
  at_end :
      (i : ℕ)
      → i < n
      → (s.barrier.place i ≡ Barrier.waiting)
        ⊎ ((s.barrier.place i ≡ Barrier.outside)
            × (0 < s.barrier.calls i)
            × (behind_barrier less n s i s.reducing ≡ none))
  at_end i l =
      stuck_barrier less n s i _ _ (stuck_mapped client_map inputs less n s i _ (stuck i l)).1

  called_once : (i : ℕ) → i < n → s.barrier.calls i ≡ 1
  called_once i l = elim (at_end i l) [
    | inl w ↦ omega (arith, v.once i l, waiting-calls v.met i l w)
    | inr (_, c, _) ↦ omega (arith, v.once i l, c)
  ]

  none_woken : (i : ℕ) → i < n → s.barrier.place i ≢ Barrier.woken
  none_woken i l w = elim (at_end i l) [ inl e ↦ cc | inr (e, _, _) ↦ cc ]

  all_behind : (i : ℕ) → i < n → behind_barrier less n s i s.reducing ≡ none
  all_behind i l = elim (at_end i l) [
    | inl w ↦ let out = all_left pos v.met called_once none_woken i l in cc
    | inr (_, _, e) ↦ e
  ]

  has_begun : (o : Option Reducing) → s.reducing ≡ o → (r : Reducing) × (s.reducing ≡ some r)
  has_begun none e =
      absurd (must_begin less n s irr (ap (behind_barrier less n s 0) (sym e) ∙ all_behind 0 pos))
  has_begun (some r) e = (r, e)

  each_stuck :
      (r : Reducing) → s.reducing ≡ some r → (i : ℕ) → i < n → thread_step n r i (r.place i) ≡ none
  each_stuck r e i l =
      stuck_reducing less n s i r (ap (behind_barrier less n s i) (sym e) ∙ all_behind i l)

-- What is left when all threads have come to their end.
pub record Completed (client_map : Pair → Vec) (inputs : List Pair) (n : ℕ) (r : Reducing)
    : Type 0 where
  pub all_finished : (i : ℕ) → i < n → r.place i ≡ Reducing.finished
  pub none_queued : r.queue ≡ []
  pub each_pair : (p : Pair) → total p r.reduced ≡ count p (sequential client_map inputs)

completed :
    (client_map : Pair → Vec) (inputs : List Pair) (less : ℕ → ℕ → Bool) (n : ℕ) (s : System)
    (r : Reducing) (k j : ℕ)
    → ((a : ℕ) → less a a ≡ false)
    → length inputs + n < ulong_mod
    → 0 < n
    → Mapping.Reach client_map inputs n k s.mapping
    → Shuffled client_map inputs less n j s.mapping (some r)
    → ((i : ℕ) → i < n → thread_step n r i (r.place i) ≡ none)
    → Completed client_map inputs n r
completed client_map inputs less n s r k j irr fits pos m (all, (groups, made, (l, reached, _)))
      stuck =
    let (finished, total_lem) =
      each_pair_reduced client_map inputs less n k l s.mapping groups r irr fits pos m all made
        reached stuck in
    record {
      all_finished = finished;
      none_queued = (reduce_phase_complete pos reached stuck).1;
      each_pair = total_lem;
    }

-- In whatever order the threads make their steps, when no thread has woken up by itself and none can make a
-- step, all have come to the end of `reducePhase`: none waits for ever at the barrier or for the semaphore. The queue is empty,
-- and the groups that were reduced hold each pair as often as one thread emits it that maps the inputs in
-- order. The order of the keys is a strict weak one, there is a thread, and the inputs and the threads must be
-- fewer than the values of the index's type.
pub framework_complete :
    (client_map : Pair → Vec) (inputs : List Pair) (less : ℕ → ℕ → Bool) (n k : ℕ) (s : System)
    → StrictWeak less
    → length inputs + n < ulong_mod
    → 0 < n
    → Reach client_map inputs less n 0 k s
    → ((i : ℕ)
        → i < n
        → single_thread client_map inputs less n s i (s.mapping.worker i).place ≡ none)
    → (r : Reducing) × (s.reducing ≡ some r) × Completed client_map inputs n r
framework_complete client_map inputs less n k s weak fits pos reached stuck =
    let irr = weak.irreflexive in
    let v = Reach-Inv client_map inputs less n refl reached in
    let (r, e) = has_begun client_map inputs less n s irr pos k v stuck s.reducing refl in
    (
      r,
      e,
      completed client_map inputs less n s r v.map_steps v.reduce_steps irr fits pos v.mapped
          (subst (Shuffled client_map inputs less n v.reduce_steps s.mapping) e v.shuffled)
          (each_stuck client_map inputs less n s irr pos k v stuck r e),
    )

-- If no thread wakes up by itself at the barrier and the order of the keys is a strict weak one, nobody shuffles
-- or reduces before all threads have finished mapping, and `reduce` is never called on a
-- null pointer.
pub framework_safe :
    (client_map : Pair → Vec) (inputs : List Pair) (less : ℕ → ℕ → Bool) (n k : ℕ) (s : System)
    (r : Reducing)
    → StrictWeak less
    → 0 < n
    → Reach client_map inputs less n 0 k s
    → s.reducing ≡ some r
    → Mapped client_map inputs less n s.mapping × ((i : ℕ) → r.place i ≢ Reducing.crashed)
framework_safe client_map inputs less n k s r weak pos reached e =
    let v = Reach-Inv client_map inputs less n refl reached in
    let (all, (groups, _, (l, h, _))) =
      subst (Shuffled client_map inputs less n v.reduce_steps s.mapping) e v.shuffled in
    (all, (reduce_phase_bounds pos h).1)

crossings-le :
    (client_map : Pair → Vec) (inputs : List Pair) (less : ℕ → ℕ → Bool) (n k : ℕ) (s : System)
    → 0 < n
    → Inv client_map inputs less n k s
    → crossings client_map inputs less n s.barrier ≤ n + n
crossings-le client_map inputs less n k s pos v = omega (
  arith,
  sum_below_bound (λ i. s.barrier.calls i) n v.once,
  sum_below_bound (λ i. s.barrier.returns i) n
      (λ i l. omega (arith, v.once i l, (barrier_rounds pos v.met).0 i i l l)),
)

reduce_steps-le :
    (client_map : Pair → Vec) (inputs : List Pair) (less : ℕ → ℕ → Bool) (n k : ℕ) (m : Mapping)
    (o : Option Reducing)
    → 0 < n
    → Shuffled client_map inputs less n k m o
    → ((o ≡ none) × (k ≡ 0))
      ⊎ ((groups : List Vec) × (shuffle_phase less (sorted_vectors less m.worker n) ≡ some groups)
          × (k ≤ 5 * length groups + 4 * n + 3))
reduce_steps-le client_map inputs less n k m none pos h = inl (refl, h)
reduce_steps-le client_map inputs less n k m (some r) pos (all, (groups, made, (l, h, same))) =
    inr (groups, made, omega (arith, same, (reduce_phase_bounds pos h).0))

-- If no thread wakes up by itself at the barrier, the order of the keys is a strict weak one, there is a thread,
-- and the inputs and the threads are fewer than the values of the index's type, every run ends: until thread 0 shuffles, the threads make at most three steps for each input and three
-- for each thread, and in all at most seven for each thread, three more, and five for each group that
-- the shuffle makes.
pub framework_bounds :
    (client_map : Pair → Vec) (inputs : List Pair) (less : ℕ → ℕ → Bool) (n k : ℕ) (s : System)
    → StrictWeak less
    → length inputs + n < ulong_mod
    → 0 < n
    → Reach client_map inputs less n 0 k s
    → ((s.reducing ≡ none) × (k ≤ 3 * length inputs + 3 * n))
      ⊎ ((groups : List Vec) × (shuffle_phase less (sorted_vectors less s.mapping.worker n)
            ≡ some groups)
          × (k ≤ 3 * length inputs + 7 * n + 3 + 5 * length groups))
framework_bounds client_map inputs less n k s weak fits pos reached =
    let v = Reach-Inv client_map inputs less n refl reached in
    let maps = (map_phase_bounds client_map inputs n v.map_steps s.mapping fits v.mapped).0 in
    let meets = crossings-le client_map inputs less n k s pos v in
    elim (reduce_steps-le client_map inputs less n v.reduce_steps s.mapping s.reducing pos
      v.shuffled) [
        | inl (none_yet, z) ↦ inl (none_yet, omega (arith, v.spent, maps, meets, z))
        | inr (groups, made, few) ↦ inr (groups, made, omega (arith, v.spent, maps, meets, few))
      ]
