-- ===== src/MapReduce/Reducing.antt =====
-- ex3/MapReduceFramework.cpp: thread 0 shuffles and all threads reduce, with a queue of groups under a
-- mutex, a semaphore and a flag.
--
-- A step of a thread is one block under the mutex, one operation on the semaphore, one access of the flag,
-- or one call of the client's `reduce`. A thread waits in `sem_wait` as long as the semaphore is 0. The
-- groups that `shufflePhase` makes are an argument. A call that fails ends the process and is left
-- out.
use os.Common.{
  ℕ, zero, suc, ◌+◌, ◌-◌, ◌<◌, ◌≡◌, Bool, true, false, Option, none, some, List, [], ◌∷◌,
  if◌then◌else◌, ◌==◌, update,
}
use os.MapReduce.Shuffle.{Vec}
pub mod Accounts
pub mod Moves
pub mod Steps
pub mod Complete

-- Where a thread stands. Only thread 0 shuffles.
pub data Place : Type 0 where
  pushing : List Vec → Place  -- the head of the loop of `shufflePhase`, with the groups to come
  posting : List Vec → Place  -- behind the `push_back`, before its `sem_post`
  closing : ℕ → Place  -- the last loop of `shufflePhase`, with the posts to come
  waiting : Place  -- before `sem_wait`
  woken : Place  -- behind it, before the queue is locked
  popped : Option Vec → Place  -- with the group from the queue, or with a null pointer
  crashed : Place  -- `reduce` on a null pointer
  finished : Place

-- The queue stands with its back first.
pub record Reducing : Type 0 where
  pub queue : List Vec
  pub semaphore : ℕ
  pub is_shuffle_done : Bool
  pub reduced : List Vec  -- the groups that `reduce` was called on, the last first
  pub place : ℕ → Place

-- `shuffleVectors.empty()`, `back` and `pop_back`
abbrev pub back : List Vec → Option Vec
back [] = none
back (v ∷ vs) = some v

abbrev pub pop_back : List Vec → List Vec
pop_back [] = []
pop_back (v ∷ vs) = vs

-- Thread `i` comes to another place.
abbrev pub goes : Reducing → ℕ → Place → Reducing
goes s i p = record s { place = update s.place i p }

-- Behind the pop: `none` is `queueIsEmpty`.
unfoldable pub reduce_step : Reducing → ℕ → Option Vec → Reducing
reduce_step s i (some v) = record (goes s i waiting) { reduced = v ∷ s.reduced }
reduce_step s i none = goes s i (if s.is_shuffle_done then finished else crashed)

-- One step of thread `i`, of `num_threads`; `none` while it cannot make one.
unfoldable pub thread_step : ℕ → Reducing → ℕ → Place → Option Reducing
thread_step num_threads s i (pushing (v ∷ vs)) =
    some (record (goes s i (posting vs)) { queue = v ∷ s.queue })
thread_step num_threads s i (pushing []) =
    some (record (goes s i (closing num_threads)) { is_shuffle_done = true })
thread_step num_threads s i (posting vs) =
    some (record (goes s i (pushing vs)) { semaphore = s.semaphore + 1 })
thread_step num_threads s i (closing (suc k)) =
    some (record (goes s i (closing k)) { semaphore = s.semaphore + 1 })
thread_step num_threads s i (closing zero) = some (goes s i waiting)
thread_step num_threads s i waiting =
    if s.semaphore == 0
    then none
    else some (record (goes s i woken) { semaphore = s.semaphore - 1 })
thread_step num_threads s i woken =
    some (record (goes s i (popped (back s.queue))) { queue = pop_back s.queue })
thread_step num_threads s i (popped o) = some (reduce_step s i o)
thread_step num_threads s i crashed = none
thread_step num_threads s i finished = none

-- Behind the barrier: thread 0 begins to shuffle, the others to reduce.
unfoldable pub reduce_init : List Vec → Reducing
reduce_init groups = record {
  queue = [];
  semaphore = 0;
  is_shuffle_done = false;
  reduced = [];
  place = λ i. if i == 0 then pushing groups else waiting;
}

-- The threads after `k` steps in any order.
pub data Reach (groups : List Vec) (n : ℕ) : ℕ → Reducing → Type 0 where
  start : Reach groups n 0 (reduce_init groups)
  later :
      {k : ℕ} {s t : Reducing} {p : Place}
      → Reach groups n k s
      → (i : ℕ) → i < n
      → s.place i ≡ p
      → thread_step n s i p ≡ some t
      → Reach groups n (suc k) t
