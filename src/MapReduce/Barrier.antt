-- ===== src/MapReduce/Barrier.antt =====
-- ex3/Barrier.cpp and ex3/Barrier.h: a barrier of a mutex, a condition variable and a count, which
-- threads use again and again.
--
-- Between its lock and its wait, its broadcast or its unlock a thread holds the mutex, so a call
-- of `barrier` has two steps: `enter`, and `leave` for a thread that had to wait. The mutex and the
-- condition variable belong to the system: a broadcast wakes all threads that wait, and a thread may also
-- wake up by itself, which POSIX allows. A call that fails ends the process and is left out.
pub mod Rounds
pub mod Spurious
use os.Common.{ℕ, ◌+◌, ◌<◌, ◌≡◌, Bool, true, false, ltb, if◌then◌else◌, update}

-- Where a thread stands.
pub data Place : Type 0 where
  outside : Place
  waiting : Place  -- in `pthread_cond_wait`
  woken : Place  -- behind it, and before it has the mutex again

-- The barrier's `count`, and of each thread its place, how often it has called `barrier`, and how often
-- the call has returned.
pub record Barrier : Type 0 where
  pub count : ℕ
  pub place : ℕ → Place
  pub calls : ℕ → ℕ
  pub returns : ℕ → ℕ

-- `Barrier::Barrier`
unfoldable pub barrier_init : Barrier
barrier_init = record { count = 0; place = λ i. outside; calls = λ i. 0; returns = λ i. 0 }

-- `pthread_cond_broadcast`
abbrev pub wake : Place → Place
wake waiting = woken
wake outside = outside
wake woken = woken

-- `barrier` up to the wait, or to its end for the last thread.
unfoldable pub enter : ℕ → Barrier → ℕ → Barrier
enter num_threads b i =
    if ltb (b.count + 1) num_threads
    then record b {
      count = b.count + 1;
      place = update b.place i waiting;
      calls = update b.calls i (b.calls i + 1);
    }
    else record b {
      count = 0;
      place = λ j. wake (b.place j);
      calls = update b.calls i (b.calls i + 1);
      returns = update b.returns i (b.returns i + 1);
    }

-- The end of `barrier` behind the wait.
unfoldable pub leave : Barrier → ℕ → Barrier
leave b i = record b {
  place = update b.place i outside;
  returns = update b.returns i (b.returns i + 1);
}

-- A thread wakes up by itself.
abbrev pub wake_one : Barrier → ℕ → Barrier
wake_one b i = record b { place = update b.place i woken }

-- One step of thread `i`. Nothing else is taken to wake a thread but a broadcast.
pub data Step (n : ℕ) (b : Barrier) : Barrier → Type 0 where
  arrive : (i : ℕ) → i < n → b.place i ≡ outside → Step n b (enter n b i)
  resume : (i : ℕ) → i < n → b.place i ≡ woken → Step n b (leave b i)

pub data Reach (n : ℕ) : Barrier → Type 0 where
  start : Reach n barrier_init
  later : {b c : Barrier} → Reach n b → Step n b c → Reach n c
