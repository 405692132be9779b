-- ===== src/MapReduce/System.antt =====
-- ex3/MapReduceFramework.cpp: `singleThread` in all threads at once, from the inputs to the end.
--
-- A step of a thread is one of `mapPhase`, of the barrier, or of the phases behind it. In `sortPhase` a
-- thread sorts its own vector, which no other thread reads before the barrier: what thread 0 shuffles are
-- the sorted vectors. A thread may also wake up by itself at the barrier. The client's `map` and the order of its keys are arguments.
use os.Common.{ℕ, zero, suc, ◌+◌, ◌<◌, ◌≡◌, Bool, Option, none, some, List, if◌then◌else◌, ◌==◌}
use os.MapReduce.Shuffle.{Pair, Vec, shuffle_phase}
use os.MapReduce.Barrier
use os.MapReduce.Barrier.{Barrier, barrier_init, enter, leave, wake_one}
use os.MapReduce.Mapping
use os.MapReduce.Mapping.{Mapping, map_init, map_step, sorted_vectors}
use os.MapReduce.Reducing.{Reducing, thread_step, reduce_init}
pub mod Invariant
pub mod Complete
mod Scenarios

-- The threads in `mapPhase`, at the barrier, and behind it. Before thread 0 begins to shuffle, the
-- semaphore is 0 and no other thread can get on: `none`.
pub record System : Type 0 where
  pub mapping : Mapping
  pub barrier : Barrier
  pub reducing : Option Reducing

unfoldable pub system_init : System
system_init = record { mapping = map_init; barrier = barrier_init; reducing = none }

-- Thread 0 begins to shuffle; `none` stands for undefined behaviour in the shuffle.
unfoldable pub begins : System → Option (List Vec) → Option System
begins s none = none
begins s (some groups) = some (record s { reducing = some (reduce_init groups) })

unfoldable pub goes_on : System → Option Reducing → Option System
goes_on s none = none
goes_on s (some r) = some (record s { reducing = some r })

-- Behind the barrier: `shufflePhase` in thread 0, and `reducePhase`.
unfoldable pub behind_barrier : (ℕ → ℕ → Bool) → ℕ → System → ℕ → Option Reducing → Option System
unfolding begins goes_on
behind_barrier less n s i none =
    if i == 0 then begins s (shuffle_phase less (sorted_vectors less s.mapping.worker n)) else none
behind_barrier less n s i (some r) = goes_on s (thread_step n r i (r.place i))

-- Behind `mapPhase`, for a thread that waits only until it is woken; the number is how often the thread has called `barrier`.
unfoldable pub at_barrier : (ℕ → ℕ → Bool) → ℕ → System → ℕ → ℕ → Barrier.Place → Option System
unfolding behind_barrier
at_barrier less n s i calls Barrier.waiting = none
at_barrier less n s i calls Barrier.woken = some (record s { barrier = leave s.barrier i })
at_barrier less n s i zero Barrier.outside = some (record s { barrier = enter n s.barrier i })
at_barrier less n s i (suc k) Barrier.outside = behind_barrier less n s i s.reducing

unfoldable pub in_map : (Pair → Vec) → List Pair → System → ℕ → Mapping.Place → System
in_map client_map inputs s i p = record s { mapping = map_step client_map inputs s.mapping i p }

-- One step of thread `i` of `n` in `singleThread`; `none` while it cannot make one.
unfoldable pub single_thread :
    (Pair → Vec) → List Pair → (ℕ → ℕ → Bool) → ℕ → System → ℕ → Mapping.Place → Option System
unfolding in_map at_barrier
single_thread client_map inputs less n s i Mapping.fetching =
    some (in_map client_map inputs s i Mapping.fetching)
single_thread client_map inputs less n s i (Mapping.mapping x) =
    some (in_map client_map inputs s i (Mapping.mapping x))
single_thread client_map inputs less n s i Mapping.finished =
    at_barrier less n s i (s.barrier.calls i) (s.barrier.place i)

-- The threads after `k` steps in any order, of which the first number are wake-ups that no broadcast caused. POSIX
-- allows them, and `barrier` does not test again behind its wait.
pub data Reach (client_map : Pair → Vec) (inputs : List Pair) (less : ℕ → ℕ → Bool) (n : ℕ)
    : ℕ → ℕ → System → Type 0 where
  start : Reach client_map inputs less n 0 0 system_init
  later :
      {w k : ℕ} {s t : System}
      → Reach client_map inputs less n w k s
      → (i : ℕ) → i < n
      → single_thread client_map inputs less n s i (s.mapping.worker i).place ≡ some t
      → Reach client_map inputs less n w (suc k) t
  wakes_up :
      {w k : ℕ} {s : System}
      → Reach client_map inputs less n w k s
      → (i : ℕ) → i < n
      → s.barrier.place i ≡ Barrier.waiting
      → Reach client_map inputs less n (suc w) (suc k) (record s { barrier = wake_one s.barrier i })
