-- ===== src/MapReduce/Output.antt =====
-- ex3/MapReduceFramework.cpp: `emit3`, by which the threads push their results to one vector, under a mutex.
--
-- A step of a thread is one of the three statements of `emit3`. A thread waits in `pthread_mutex_lock` as
-- long as another holds the mutex. A call that fails ends the process and is left out.
use os.Common.{
  ℕ, zero, suc, ◌+◌, ◌<◌, ◌≡◌, Bool, true, false, Option, none, some, List, [], ◌∷◌, ◌++◌,
  if◌then◌else◌, update,
}
use os.MapReduce.Shuffle.{Pair, Vec}
pub mod Emits

-- Where a thread stands, with the pairs for which its client will call `emit3` still.
pub data Place : Type 0 where
  calling : Vec → Place
  holding : Pair → Vec → Place  -- behind the lock, before `push_back`
  pushed : Vec → Place  -- before the unlock

pub record Output : Type 0 where
  pub locked : Bool  -- `reduce_mutex`
  pub vector : Vec  -- `outputVec`
  pub place : ℕ → Place

-- One step of thread `i` in `emit3`; `none` while it cannot make one.
unfoldable pub emit3_step : Output → ℕ → Place → Option Output
emit3_step s i (calling []) = none
emit3_step s i (calling (p ∷ ps)) =
    if s.locked
    then none
    else some (record s { locked = true; place = update s.place i (holding p ps) })
emit3_step s i (holding p ps) =
    some (record s { vector = s.vector ++ p ∷ []; place = update s.place i (pushed ps) })
emit3_step s i (pushed ps) =
    some (record s { locked = false; place = update s.place i (calling ps) })

-- Thread `i` will emit the pairs `todo i`, behind those that the vector has.
unfoldable pub output_init : Vec → (ℕ → Vec) → Output
output_init given todo = record { locked = false; vector = given; place = λ i. calling (todo i) }

-- The threads after `k` steps in any order.
pub data Reach (given : Vec) (todo : ℕ → Vec) (n : ℕ) : ℕ → Output → Type 0 where
  start : Reach given todo n 0 (output_init given todo)
  later :
      {k : ℕ} {s t : Output} {p : Place}
      → Reach given todo n k s
      → (i : ℕ) → i < n
      → s.place i ≡ p
      → emit3_step s i p ≡ some t
      → Reach given todo n (suc k) t
