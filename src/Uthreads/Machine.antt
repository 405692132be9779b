-- ===== src/Uthreads/Machine.antt =====
-- ex2/uthreads.cpp: the library's global variables, and `switch_threads`, which gives the processor
-- to the thread at the front of the ready queue.
--
-- The operating system answers through `Replies`: one answer for each system call whose result the
-- code reads. `sigsetjmp` stores a context and `siglongjmp` continues it, so a call that switches
-- does not return to its caller: the outcome says which state the next thread finds.
use os.Common.{
  ℕ, ◌+◌, Bool, false, ◌||◌, Option, none, some, List, [], ◌∷◌, ◌++◌, ltb, leb, if◌then◌else◌,
  update, ℤ,
}
use os.Uthreads.Ids.{max_thread_num, new_ids}

-- `class thread`, without its stack.
pub record Thread : Type 0 where
  pub blocked_directly : Bool
  pub sync_blocked : Bool
  pub quantums : ℕ
  pub sync_dependencies : List ℕ

-- What `env[tid]` holds: nothing, the entry point that `uthread_spawn` wrote, or a point inside
-- `switch_threads`, behind `sigsetjmp`.
pub data Saved : Type 0 where
  unset entry in_switch : Saved

-- `sa.sa_handler`, as the last successful `sigaction` made it known.
pub data Handler : Type 0 where
  dfl ignored switcher : Handler

-- `struct itimerval timer`: the interval, in seconds and microseconds.
pub record Timer : Type 0 where
  pub secs : ℕ
  pub usecs : ℕ

pub record State : Type 0 where
  pub threads : ℕ → Option Thread  -- `uthreads[]`; `none` is the null pointer
  pub env : ℕ → Saved
  pub unused_ids : List ℕ  -- `tids`
  pub ready : List ℕ
  pub current_thread : ℕ
  pub total_quantums : ℕ
  pub masked : Bool  -- SIGVTALRM is blocked by `sigprocmask`
  pub handler : Handler
  pub timer : Timer

-- The answers of the system: `true` for a call that fails.
pub record Replies : Type 0 where
  pub ignore_fails : Bool  -- `sigaction` at the start of `switch_threads`
  pub restore_fails : Bool  -- `sigaction` before `siglongjmp`, whose result is not read
  pub timer_fails : Bool  -- `setitimer` before `siglongjmp`
  pub wake_action_fails : Bool  -- `sigaction` behind `sigsetjmp`
  pub wake_timer_fails : Bool  -- `setitimer` behind `sigsetjmp`
  pub alloc_fails : Bool  -- `new thread()`

-- How a call ends. `undefined` is C++'s undefined behaviour.
pub data Outcome : Type 0 where
  returned : ℤ → State → Outcome
  switched : State → Outcome
  exited : ℕ → Outcome
  undefined : Outcome

-- The largest `int`.
abbrev pub int_max : ℕ
int_max = 2147483647

-- `SIGVTALRM`, `TERMINATE_SWITCH` and `BLOCK_SWITCH`.
pub data Reason : Type 0 where
  sigvtalrm terminate_switch block_switch : Reason

-- `uthreads[tid]`; `none` when it is null or out of the array's bounds.
unfoldable pub thread_at : State → ℕ → Option Thread
thread_at s i = if ltb i max_thread_num then s.threads i else none

-- Global initialisation, before `uthread_init`.
unfoldable pub start_state : State
start_state = record {
  threads = λ i. none;
  env = λ i. unset;
  unused_ids = new_ids;
  ready = [];
  current_thread = 0;
  total_quantums = 0;
  masked = false;
  handler = dfl;
  timer = record { secs = 0; usecs = 0 };
}

-- What `siglongjmp(env[t], 1)` continues with, and the signal mask that it restores.
unfoldable pub resume : Replies → State → Saved → Outcome
resume r s unset = undefined
resume r s entry = switched (record s { masked = false })
resume r s in_switch =
    if r.wake_action_fails || r.wake_timer_fails
    then exited 1
    else switched (record s { handler = switcher; masked = false })

-- The counters of thread `t` and of all threads grow, and the handler is set up again.
unfoldable pub charge : Replies → State → ℕ → Thread → State
charge r s t th = record s {
  threads = update s.threads t (some (record th { quantums = th.quantums + 1 }));
  total_quantums = s.total_quantums + 1;
  handler = if r.restore_fails then ignored else switcher;
}

-- From `uthreads[current_thread]->quantums += 1` on. A counter at the largest `int` overflows.
unfoldable pub run_thread : Replies → State → ℕ → Option Thread → Outcome
unfolding resume charge
run_thread r s t none = undefined
run_thread r s t (some th) =
    if leb int_max th.quantums || leb int_max s.total_quantums
    then undefined
    else (if r.timer_fails then exited 1 else resume r (charge r s t th) (s.env t))

-- `current_thread = ready.front(); ready.pop_front();` and on: undefined on an empty queue.
unfoldable pub run_front : Replies → State → List ℕ → Outcome
unfolding run_thread thread_at
run_front r s [] = undefined
run_front r s (t ∷ rest) =
    run_thread r (record s { current_thread = t; ready = rest }) t (thread_at s t)

-- What the thread that leaves the processor becomes. With `TERMINATE_SWITCH` the code deletes the stack that it runs
-- on, which is undefined behaviour; the stacks are left out, so it is none here.
unfoldable pub leave : Reason → State → State
leave sigvtalrm s = record s { ready = s.ready ++ s.current_thread ∷ [] }
leave terminate_switch s = record s { threads = update s.threads s.current_thread none }
leave block_switch s = s

-- `switch_threads(signum)`
unfoldable pub switch_threads : Replies → Reason → State → Outcome
unfolding leave
switch_threads r reason s =
    let s1 = record s { handler = ignored; env = update s.env s.current_thread in_switch } in
    let s2 = leave reason s1 in if r.ignore_fails then exited 1 else run_front r s2 s2.ready
