-- ===== src/MapReduce/System/Scenarios.antt =====
-- Two threads of ex3/MapReduceFramework.cpp, from two inputs to the end.
use os.Common.{
  true, is_some, ℕ, zero, suc, ◌+◌, ◌*◌, ◌%◌, ◌≤◌, ◌<◌, ◌≡◌, ◌≢◌, refl, Option, none, some, List,
  [], ◌∷◌, length, ltb, arith, ◌⊎◌,
}
use os.MapReduce.Shuffle.{
  Pair, Vec, shuffle_phase, shuffle, erase_empty, size, round, first_key, sort_vectors,
  insert_vector, vector_comp, pair_lt, collect, key_equal, take_key,
}
use os.MapReduce.Barrier.{barrier_init, enter, leave}
use os.MapReduce.Mapping
use os.MapReduce.Mapping.{
  StrictWeak, map_init, map_step, emit_all, emit2, sorted_vectors, sort_phase, insert_pair,
}
use os.MapReduce.Reducing
use os.MapReduce.Reducing.{Reducing, thread_step, reduce_step, reduce_init}
use os.MapReduce.Schedule.{run, or_else, run-Reaches}
use os.MapReduce.System.{
  System, system_init, single_thread, Reach, start, later, wakes_up, begins, goes_on, at_barrier,
  in_map, behind_barrier,
}
use os.MapReduce.System.Invariant.{Mapped}
use os.MapReduce.System.Complete.{Completed, framework_complete, framework_safe, framework_bounds}

-- A client that emits each input under the remainder of its value by 2, and once more under 9.
abbrev by_parity : Pair → Vec
by_parity (k, v) = (v % 2, v) ∷ (9, v) ∷ []

abbrev inputs : List Pair
inputs = (1, 4) ∷ (2, 7) ∷ []

abbrev step : System → ℕ → Option System
step s i = single_thread by_parity inputs ltb 2 s i (s.mapping.worker i).place

abbrev Reaches : ℕ → System → Type 0
Reaches k s = Reach by_parity inputs ltb 2 0 k s

-- The threads map one input each, meet at the barrier, and share the groups.
abbrev schedule : List ℕ
schedule =
    0 ∷ 1 ∷ 1 ∷ 0 ∷ 0 ∷ 1 ∷ 0 ∷ 1 ∷ 0 ∷ 0 ∷ 0 ∷ 0 ∷ 1 ∷ 1 ∷ 1 ∷ 0 ∷ 0 ∷ 0 ∷ 0 ∷ 0 ∷ 0 ∷ 0 ∷ 0 ∷ 0
    ∷ 0 ∷ 0 ∷ 0 ∷ 0 ∷ 0 ∷ 0 ∷ 0 ∷ 0 ∷ 1 ∷ 1 ∷ 1 ∷ []

abbrev last : System
last =
    or_else (record { mapping = map_init; barrier = barrier_init; reducing = none })
      (run step (some system_init) schedule)

last-Reach : Reaches 35 last
unfolding system_init single_thread map_init map_step barrier_init enter leave shuffle_phase shuffle
    erase_empty sorted_vectors sort_phase emit_all emit2 insert_pair size round first_key
    sort_vectors reduce_init reduce_step thread_step collect insert_vector key_equal pair_lt
    take_key vector_comp at_barrier begins behind_barrier goes_on in_map
last-Reach =
    run-Reaches step 2 Reaches (λ k i s t r l e. later r i l e) schedule 0 system_init last start
      (omega arith) refl

last_stuck : (i : ℕ) → i < 2 → step last i ≡ none
unfolding system_init single_thread map_init map_step barrier_init enter leave shuffle_phase shuffle
    erase_empty sorted_vectors sort_phase emit_all emit2 insert_pair size round first_key
    sort_vectors reduce_init reduce_step thread_step collect insert_vector key_equal pair_lt
    take_key vector_comp at_barrier begins behind_barrier goes_on in_map
last_stuck zero h = refl
last_stuck (suc zero) h = refl
last_stuck (suc (suc i)) h = absurd (omega arith)

ltb-StrictWeak : StrictWeak ltb
ltb-StrictWeak = record {
  irreflexive = λ a. ground arith;
  transitive = λ a b c h k. ground (arith, h, k);
  incomparable = λ a b c h h' k k'. ground (arith, h, h', k, k');
}

framework_complete_example :
    (r : Reducing) × (last.reducing ≡ some r) × Completed by_parity inputs 2 r
framework_complete_example =
    framework_complete by_parity inputs ltb 2 35 last ltb-StrictWeak (omega arith) (omega arith)
      last-Reach last_stuck

last_reducing : last.reducing ≡ some (or_else (reduce_init []) last.reducing)
unfolding system_init single_thread map_init map_step barrier_init enter leave shuffle_phase shuffle
    erase_empty sorted_vectors sort_phase emit_all emit2 insert_pair size round first_key
    sort_vectors reduce_init reduce_step thread_step collect insert_vector key_equal pair_lt
    take_key vector_comp at_barrier begins behind_barrier goes_on in_map
last_reducing = refl

framework_safe_example :
    Mapped by_parity inputs ltb 2 last.mapping
    × ((i : ℕ) → (or_else (reduce_init []) last.reducing).place i ≢ Reducing.crashed)
framework_safe_example =
    framework_safe by_parity inputs ltb 2 35 last (or_else (reduce_init []) last.reducing)
      ltb-StrictWeak (omega arith) last-Reach last_reducing

framework_bounds_example :
    ((last.reducing ≡ none) × (35 ≤ 3 * length inputs + 3 * 2))
    ⊎ ((groups : List Vec) × (shuffle_phase ltb (sorted_vectors ltb last.mapping.worker 2)
          ≡ some groups)
        × (35 ≤ 3 * length inputs + 7 * 2 + 3 + 5 * length groups))
framework_bounds_example =
    framework_bounds by_parity inputs ltb 2 35 last ltb-StrictWeak (omega arith) (omega arith)
      last-Reach

-- Thread 0 alone, up to its wait at the barrier.
abbrev alone : List ℕ
alone = 0 ∷ 0 ∷ 0 ∷ 0 ∷ 0 ∷ 0 ∷ []

abbrev mapped_alone : System
mapped_alone =
    or_else (record { mapping = map_init; barrier = barrier_init; reducing = none })
      (run step (some system_init) alone)

-- With one wake-up that no broadcast caused, thread 0 shuffles while thread 1 has not begun to map.
abbrev Early : Type 0
Early =
    (s : System) × Reach by_parity inputs ltb 2 1 9 s
    × (is_some s.reducing ≡ true)
    × ((s.mapping.worker 1).place ≡ Mapping.fetching)

early : Early
unfolding system_init single_thread map_init map_step barrier_init enter leave shuffle_phase shuffle
    erase_empty sorted_vectors sort_phase emit_all emit2 insert_pair size round first_key
    sort_vectors reduce_init reduce_step thread_step collect insert_vector key_equal pair_lt
    take_key vector_comp at_barrier begins behind_barrier goes_on in_map
early =
    let mapped =
      run-Reaches step 2 Reaches (λ k i s t r l e. later r i l e) alone 0 system_init mapped_alone
        start (omega arith) refl in
    (
      _,
      later (later (wakes_up mapped 0 (omega arith) refl) 0 (omega arith) refl) 0 (omega arith)
          refl,
      refl,
      refl,
    )
