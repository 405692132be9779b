-- ===== src/MapReduce/Scenarios.antt =====
-- Concrete threads of ex3/MapReduceFramework.cpp and ex3/Barrier.cpp.
use os.Common.{
  ℕ, zero, suc, true, ◌↔◌, ◌-◌, ◌+◌, ◌*◌, ◌%◌, ◌≤◌, ◌<◌, ◌≡◌, ◌≢◌, refl, ◌⊎◌, sum_below, Option,
  none, some, List, [], ◌∷◌, length, arith,
}
use mathlib.Core.Path.{subst}
use os.MapReduce.Shuffle.{Pair, Vec}
use os.MapReduce.Conserved.{count}
use os.MapReduce.Barrier
use os.MapReduce.Barrier.{Barrier, barrier_init, enter, leave, arrive, resume}
use os.MapReduce.Barrier.Rounds.{barrier_rounds}
use os.MapReduce.Mapping
use os.MapReduce.Mapping.{
  Mapping, sequential, map_init, map_step, emit_all, emit2, sorted_vectors, sort_phase, insert_pair,
  ulong_mod,
}
use os.MapReduce.Output
use os.MapReduce.Output.{Output, output_init, emit3_step}
use os.MapReduce.Output.Emits.{inside, emit3_exclusive, outputs_complete}
use os.MapReduce.Launch.{Replies, returned, run_framework, from, AllOf}
use os.MapReduce.Launch.Returns.{run_framework_iff, Released}
use os.MapReduce.Schedule.{run, or_else, run-Reaches}

-- Of two threads the first waits, and the second comes and goes on.
abbrev both_came : Barrier
both_came = enter 2 (enter 2 barrier_init 0) 1

both_came-Reach : Barrier.Reach 2 both_came
unfolding enter barrier_init
both_came-Reach =
    Barrier.later (Barrier.later Barrier.start (arrive 0 (omega arith) refl))
      (arrive 1 (omega arith) refl)

barrier_rounds_example :
    ((i j : ℕ) → i < 2 → j < 2 → both_came.returns i ≤ both_came.calls j)
    × ((j : ℕ) × (j < 2) × (both_came.place j ≢ Barrier.waiting))
barrier_rounds_example = barrier_rounds (omega arith) both_came-Reach

-- A client that emits each input under the remainder of its value by 2, and once more under 9.
abbrev by_parity : Pair → Vec
by_parity (k, v) = (v % 2, v) ∷ (9, v) ∷ []

abbrev inputs : List Pair
inputs = (1, 4) ∷ (2, 7) ∷ []

-- The threads of a schedule make a step each.
abbrev map_run : List ℕ → Mapping → Mapping
map_run [] s = s
map_run (i ∷ is) s = map_run is (map_step by_parity inputs s i (s.worker i).place)

abbrev Moving : List ℕ → Mapping → Type 0
Moving [] s = Unit {0}
Moving (i ∷ is) s =
    (i < 2)
    × ((s.worker i).place ≢ Mapping.finished)
    × Moving is (map_step by_parity inputs s i (s.worker i).place)

map_run-Reach :
    (is : List ℕ) (k : ℕ) (s : Mapping)
    → Mapping.Reach by_parity inputs 2 k s
    → Moving is s
    → Mapping.Reach by_parity inputs 2 (length is + k) (map_run is s)
map_run-Reach [] k s r h =
    let e : k ≡ 0 + k = omega arith in subst (λ j. Mapping.Reach by_parity inputs 2 j s) e r
map_run-Reach (i ∷ is) k s r h =
    let e : length is + suc k ≡ suc (length is) + k = omega arith in
    subst (λ j. Mapping.Reach by_parity inputs 2 j (map_run (i ∷ is) s)) e
      (map_run-Reach is (suc k) _ (Mapping.later r i h.0 refl h.1) h.2)

abbrev all_mapped : Mapping
all_mapped = map_run (0 ∷ 1 ∷ 1 ∷ 0 ∷ 0 ∷ 1 ∷ []) map_init

all_mapped-Reach : Mapping.Reach by_parity inputs 2 6 all_mapped
unfolding map_init map_step emit_all emit2
all_mapped-Reach = map_run-Reach (0 ∷ 1 ∷ 1 ∷ 0 ∷ 0 ∷ 1 ∷ []) 0 map_init Mapping.start (
  omega arith,
  (λ e. cc),
  (
    omega arith,
    (λ e. cc),
    (
      omega arith,
      (λ e. cc),
      (omega arith, (λ e. cc), (omega arith, (λ e. cc), (omega arith, (λ e. cc), tt))),
    ),
  ),
)

-- Thread 0 emits one pair and thread 1 two, behind one that is there.
abbrev two_emitters : ℕ → Vec
two_emitters zero = (1, 10) ∷ []
two_emitters (suc i) = (2, 20) ∷ (3, 30) ∷ []

abbrev emit_step : Output → ℕ → Option Output
emit_step s i = emit3_step s i (s.place i)

abbrev emitting : Output
emitting = output_init ((0, 5) ∷ []) two_emitters

abbrev all_emitted : Output
all_emitted =
    or_else emitting (run emit_step (some emitting) (1 ∷ 1 ∷ 1 ∷ 0 ∷ 0 ∷ 0 ∷ 1 ∷ 1 ∷ 1 ∷ []))

all_emitted-Reach : Output.Reach ((0, 5) ∷ []) two_emitters 2 9 all_emitted
unfolding output_init emit3_step
all_emitted-Reach =
    run-Reaches emit_step 2 (Output.Reach ((0, 5) ∷ []) two_emitters 2)
      (λ k i s t r l e. Output.later r i l refl e) (1 ∷ 1 ∷ 1 ∷ 0 ∷ 0 ∷ 0 ∷ 1 ∷ 1 ∷ 1 ∷ []) 0
      emitting all_emitted Output.start (omega arith) refl

all_emitted_stuck : (i : ℕ) → i < 2 → emit3_step all_emitted i (all_emitted.place i) ≡ none
unfolding output_init emit3_step
all_emitted_stuck zero h = refl
all_emitted_stuck (suc zero) h = refl
all_emitted_stuck (suc (suc i)) h = absurd (omega arith)

emit3_exclusive_example :
    ((i j : ℕ)
      → i < 2
      → j < 2
      → i ≢ j
      → (inside (all_emitted.place i) ≡ 0) ⊎ (inside (all_emitted.place j) ≡ 0))
    × (9 ≤ sum_below (λ i. 3 * length (two_emitters i)) 2)
emit3_exclusive_example =
    emit3_exclusive ((0, 5) ∷ []) two_emitters 2 9 all_emitted all_emitted-Reach

outputs_complete_example :
    ((i : ℕ) → i < 2 → all_emitted.place i ≡ Output.calling [])
    × ((p : Pair)
        → count p all_emitted.vector
          ≡ count p ((0, 5) ∷ []) + sum_below (λ i. count p (two_emitters i)) 2)
outputs_complete_example =
    outputs_complete ((0, 5) ∷ []) two_emitters 2 9 all_emitted all_emitted-Reach all_emitted_stuck

all_succeed : Replies
all_succeed = record {
  inits_semaphore = true;
  inits_mutexes = true;
  creates = λ i. true;
  runs = true;
  joins = λ i. true;
  destroys_mutexes = true;
  destroys_semaphore = true;
  destroys_barrier_mutex = true;
  destroys_condition = true;
}

run_framework_iff_example : (run_framework all_succeed 3 ≡ returned (0 ∷ 1 ∷ []) (0 ∷ 1 ∷ [])) ↔ (
    (0 < 3)
    × (all_succeed.inits_semaphore ≡ true)
    × (all_succeed.inits_mutexes ≡ true)
    × AllOf all_succeed.creates (from 0 (3 - 1))
    × (all_succeed.runs ≡ true)
    × AllOf all_succeed.joins (from 0 (3 - 1))
    × Released all_succeed
    × (from 0 (3 - 1) ≡ 0 ∷ 1 ∷ [])
    × (from 0 (3 - 1) ≡ 0 ∷ 1 ∷ []))
run_framework_iff_example = run_framework_iff all_succeed 3 (0 ∷ 1 ∷ []) (0 ∷ 1 ∷ [])
