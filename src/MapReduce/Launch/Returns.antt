-- ===== src/MapReduce/Launch/Returns.antt =====
-- ex3/MapReduceFramework.cpp: when `runMapReduceFramework` returns, and what it leaves when it does not.
use mathlib.Core.List.{append_assoc, append-nil}
use os.Common.{ℕ, zero, suc, ◌+◌, ◌-◌, ◌<◌, ◌≡◌, ap, true, false, List, [], ◌∷◌, ◌++◌, arith, ◌↔◌}
use os.MapReduce.Launch.{
  pthread_create, Replies, returned, exited, release, destroy_barrier, join_threads, create_threads,
  run_framework, from, AllOf,
}

-- The mutexes, the semaphore and the barrier are destroyed.
abbrev pub Released : Replies → Type 0
Released r =
    (r.destroys_mutexes ≡ true)
    × (r.destroys_semaphore ≡ true)
    × (r.destroys_barrier_mutex ≡ true)
    × (r.destroys_condition ≡ true)

module _ (r : Replies) (c' j' : List ℕ) where
  release_iff :
      (c j : List ℕ) → (release r c j ≡ returned c' j') ↔ (Released r × (c ≡ c') × (j ≡ j'))
  unfolding release destroy_barrier
  release_iff c j = ground arith

  join_iff :
      (k i : ℕ) (c j : List ℕ)
      → (join_threads r k i c j ≡ returned c' j')
        ↔ (AllOf r.joins (from i k) × Released r × (c ≡ c') × (j ++ from i k ≡ j'))
  unfolding join_threads
  join_iff zero i c j = rw (append-nil j) (ground (arith, release_iff c j))
  join_iff (suc k) i c j =
      ground (arith, join_iff k (i + 1) c (j ++ i ∷ []), append_assoc j (i ∷ []) (from (i + 1) k))

  create_iff :
      (m k i : ℕ) (c : List ℕ)
      → (create_threads r m k i c ≡ returned c' j') ↔ (
          AllOf r.creates (from i k)
          × (r.runs ≡ true)
          × AllOf r.joins (from 0 m)
          × Released r
          × (c ++ from i k ≡ c')
          × (from 0 m ≡ j'))
  unfolding create_threads
  create_iff m zero i c = rw (append-nil c) (ground (arith, join_iff m 0 c []))
  create_iff m (suc k) i c =
      ground (arith, create_iff m k (i + 1) (c ++ i ∷ []), append_assoc c (i ∷ []) (from (i + 1) k))

-- `runMapReduceFramework` with `n` threads returns exactly when there is a thread and no call fails, neither its
-- own nor one in the threads or in the barrier's destructor; it has then created the threads from 0 to `n - 2`, each once, and joined all of them.
pub run_framework_iff :
    (r : Replies) (n : ℕ) (created joined : List ℕ)
    → (run_framework r n ≡ returned created joined) ↔ (
        (0 < n)
        × (r.inits_semaphore ≡ true)
        × (r.inits_mutexes ≡ true)
        × AllOf r.creates (from 0 (n - 1))
        × (r.runs ≡ true)
        × AllOf r.joins (from 0 (n - 1))
        × Released r
        × (from 0 (n - 1) ≡ created)
        × (from 0 (n - 1) ≡ joined))
unfolding run_framework
run_framework_iff r zero created joined = (λ h. cc, λ h. absurd (omega (arith, h.0)))
run_framework_iff r (suc m) created joined =
    let e : suc m - 1 ≡ m = omega arith in
    rw e (ground (arith, create_iff r created joined m m 0 []))

-- When thread `i` cannot be created, the process ends by `exit(1)` while the threads before it run.
create_fails :
    (r : Replies) (m k i j : ℕ) (c : List ℕ)
    → AllOf r.creates (from i j)
    → r.creates (i + j) ≡ false
    → j < k
    → create_threads r m k i c ≡ exited pthread_create (c ++ from i j)
unfolding create_threads
create_fails r m zero i j c all fails l = absurd (omega arith)
create_fails r m (suc k) i zero c all fails l =
    let e : i + 0 ≡ i = omega arith in rw (append-nil c) (ground (arith, ap r.creates e))
create_fails r m (suc k) i (suc j) c all fails l =
    let e : i + 1 + j ≡ i + suc j = omega arith in
    ground (
      arith,
      ap r.creates e,
      create_fails r m k (i + 1) j (c ++ i ∷ []) all.1,
      append_assoc c (i ∷ []) (from (i + 1) j),
    )
