-- ===== src/MapReduce/Launch.antt =====
-- ex3/MapReduceFramework.cpp: `runMapReduceFramework`, which creates the threads, is one of them itself, and
-- joins the others. On its return it destroys the barrier, ex3/Barrier.cpp.
--
-- Thread `i` gets the context with `threadID` `i`, and the caller is the last thread. What the threads do is
-- in System; `exit(1)` in one of them ends the process. Whether a call of the system succeeds is an argument.
pub mod Returns
use os.Common.{
  ℕ, zero, suc, ◌+◌, ◌<◌, ◌≡◌, ◌≢◌, refl, sym, ap, ◌∙◌, Bool, true, false, List, [], ◌∷◌, ◌++◌,
  if◌then◌else◌, arith, Bool-cases, inl, inr, ◌⊎◌, ◌↔◌,
}

-- What ends the process: one of these calls, or with `single_thread` one in the caller's own thread.
pub data SysCall : Type 0 where
  sem_init pthread_mutex_init pthread_create pthread_join pthread_mutex_destroy sem_destroy
        single_thread pthread_cond_destroy :
      SysCall

-- Which calls succeed; those of `pthread_create` and `pthread_join` by the thread, those for the two mutexes
-- together.
pub record Replies : Type 0 where
  pub inits_semaphore : Bool
  pub inits_mutexes : Bool
  pub creates : ℕ → Bool
  pub runs : Bool  -- no call fails in the caller's own `singleThread`
  pub joins : ℕ → Bool  -- no call fails in the thread, and it is joined
  pub destroys_mutexes : Bool
  pub destroys_semaphore : Bool
  pub destroys_barrier_mutex : Bool
  pub destroys_condition : Bool

pub data Run : Type 0 where
  returned : List ℕ → List ℕ → Run  -- the threads that were created, and those that were joined
  exited : SysCall → List ℕ → Run  -- `exit(1)`, and the threads that were created
  undefined : Run

-- `Barrier::~Barrier`, on the return from `runMapReduceFramework`.
unfoldable pub destroy_barrier : Replies → List ℕ → List ℕ → Run
destroy_barrier r created joined =
    if r.destroys_barrier_mutex
    then (if r.destroys_condition
        then returned created joined
        else exited pthread_cond_destroy created)
    else exited pthread_mutex_destroy created

-- Behind the last `pthread_join`.
unfoldable pub release : Replies → List ℕ → List ℕ → Run
release r created joined =
    if r.destroys_mutexes
    then (if r.destroys_semaphore
        then destroy_barrier r created joined
        else exited sem_destroy created)
    else exited pthread_mutex_destroy created

-- The loop over `pthread_join`, with `k` threads from `i` on.
unfoldable pub join_threads : Replies → ℕ → ℕ → List ℕ → List ℕ → Run
join_threads r zero i created joined = release r created joined
join_threads r (suc k) i created joined =
    let rest = join_threads r k (i + 1) created (joined ++ i ∷ []) in
    if r.joins i then rest else exited pthread_join created

-- The loop over `pthread_create`; then the caller runs `singleThread`, and all `m` others are joined.
unfoldable pub create_threads : Replies → ℕ → ℕ → ℕ → List ℕ → Run
create_threads r m zero i created =
    if r.runs then join_threads r m 0 created [] else exited single_thread created
create_threads r m (suc k) i created =
    let rest = create_threads r m k (i + 1) (created ++ i ∷ []) in
    if r.creates i then rest else exited pthread_create created

-- `runMapReduceFramework`. With no thread its arrays would have a negative size.
unfoldable pub run_framework : Replies → ℕ → Run
run_framework r zero = undefined
run_framework r (suc m) =
    if r.inits_semaphore
    then (if r.inits_mutexes then create_threads r m m 0 [] else exited pthread_mutex_init [])
    else exited sem_init []

-- The numbers from `i` on, `k` of them.
abbrev pub from : ℕ → ℕ → List ℕ
from i zero = []
from i (suc k) = i ∷ from (i + 1) k

-- All the calls of a kind succeed for these threads.
abbrev pub AllOf : (ℕ → Bool) → List ℕ → Type 0
AllOf ok [] = Unit {0}
AllOf ok (i ∷ is) = (ok i ≡ true) × AllOf ok is
