-- ===== src/Uthreads/Timing.antt =====
-- ex2/uthreads.cpp, `uthread_init`: the length of a quantum and the first counts.
use os.Common.{ℕ, ◌+◌, ◌*◌, ◌<◌, ◌≡◌, refl, arith, pos, negsuc, minus_one}
use os.Uthreads.Machine.{State, Replies, returned, start_state}
use os.Uthreads.Calls.{uthread_init, first_state, quantum_timer, second}
use os.Uthreads.Invariant.{quantums_of}
use os.Uthreads.Schedule.{quiet}

-- The timer of a positive quantum has less than a second of microseconds, and runs for the quantum.
timer_exact :
    (q : ℕ)
    → ((quantum_timer q).secs * second + (quantum_timer q).usecs ≡ q)
      × ((quantum_timer q).usecs < second)
unfolding quantum_timer
timer_exact q = (ground arith, ground arith)

-- The main thread runs, in its first quantum, and the timer is set for quantums of `q`.
pub record FirstQuantum (q : ℕ) (s : State) : Type 0 where
  pub exact : s.timer.secs * second + s.timer.usecs ≡ q
  pub below_second : s.timer.usecs < second
  pub main_runs : s.current_thread ≡ 0
  pub one_quantum : s.total_quantums ≡ 1
  pub own_quantum : quantums_of (s.threads 0) ≡ 1

first_state-FirstQuantum : (q : ℕ) → FirstQuantum q (first_state q)
unfolding first_state
first_state-FirstQuantum q =
    let (exact, small) = timer_exact q in
    record {
      exact = exact;
      below_second = small;
      main_runs = refl;
      one_quantum = refl;
      own_quantum = refl;
    }

-- `uthread_init` refuses a quantum that is not positive. Otherwise, if no system call fails, it
-- returns 0, the timer runs for exactly the quantum, with the microseconds below a second, and the
-- main thread runs in its first quantum, which is the only one so far.
pub uthread_init_lem :
    (r : Replies)
    → ((n : ℕ) → uthread_init r (negsuc n) ≡ returned minus_one start_state)
      × (uthread_init r (pos 0) ≡ returned minus_one start_state)
      × ((q : ℕ)
          → 0 < q
          → (s : State) × (uthread_init quiet (pos q) ≡ returned (pos 0) s) × FirstQuantum q s)
unfolding uthread_init
uthread_init_lem r =
    (λ n. refl, refl, λ q h. (first_state q, ground arith, first_state-FirstQuantum q))
