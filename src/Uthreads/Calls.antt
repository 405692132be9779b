-- ===== src/Uthreads/Calls.antt =====
-- ex2/uthreads.cpp: the functions of the library's interface (ex2/uthreads.h). An identifier is an
-- `int`, so a caller may pass a negative one. The messages on `cerr` are left out.
-- `uthread_sync` and the functions that only read are in a child module.
use os.Common.{
  ℕ, ◌-◌, ◌*◌, ◌/◌, Bool, true, false, ◌||◌, Option, none, some, List, [], ◌∷◌, ◌++◌, leb, ◌==◌,
  if◌then◌else◌, erase_all, update, ℤ, pos, negsuc, minus_one,
}
use os.Uthreads.Ids.{generate_id, remove_id, is_valid}
use os.Uthreads.Machine.{
  Thread, entry, switcher, Timer, State, Replies, Outcome, returned, exited, undefined,
  terminate_switch, block_switch, thread_at, start_state, switch_threads,
}
pub mod Waiting

-- `thread()`
unfoldable pub new_thread : Thread
new_thread = record {
  blocked_directly = false;
  sync_blocked = false;
  quantums = 0;
  sync_dependencies = [];
}

-- `#define SECOND 1000000`
abbrev pub second : ℕ
second = 1000000

-- The split of the quantum into seconds and microseconds.
unfoldable pub quantum_timer : ℕ → Timer
quantum_timer q =
    let quantum_secs = if leb 1 (q / second) then q / second else 0 in
    record { secs = quantum_secs; usecs = q - quantum_secs * second }

-- `sigprocmask(SIG_BLOCK, &set, nullptr)` and `sigprocmask(SIG_UNBLOCK, &set, nullptr)`
unfoldable pub mask : State → State
mask s = record s { masked = true }

unfoldable pub unmask : State → State
unmask s = record s { masked = false }

-- The variables that a successful `uthread_init` leaves.
unfoldable pub first_state : ℕ → State
unfolding new_thread quantum_timer start_state
first_state q = record start_state {
  threads = update start_state.threads 0 (some (record new_thread { quantums = 1 }));
  total_quantums = 1;
  handler = switcher;
  timer = quantum_timer q;
}

-- `uthread_init`. `ignore_fails` and `timer_fails` answer its `sigaction` and `setitimer`.
unfoldable pub uthread_init : Replies → ℤ → Outcome
uthread_init r (negsuc n) = returned minus_one start_state
uthread_init r (pos q) =
    if q == 0
    then returned minus_one start_state
    else (if r.ignore_fails || r.timer_fails || r.alloc_fails
        then exited 1
        else returned (pos 0) (first_state q))

-- `uthread_spawn`, from `generate_id` on.
unfoldable pub spawn_as : Replies → State → ℤ × List ℕ → Outcome
unfolding new_thread unmask
spawn_as r s (negsuc n, ids) = returned minus_one (unmask s)
spawn_as r s (pos i, ids) =
    if r.alloc_fails
    then exited 1
    else returned (pos i) (
        unmask (record s {
          threads = update s.threads i (some new_thread);
          env = update s.env i entry;
          unused_ids = ids;
          ready = s.ready ++ i ∷ [];
        }))

unfoldable pub uthread_spawn : Replies → State → Outcome
unfolding mask
uthread_spawn r s = spawn_as r (mask s) (generate_id s.unused_ids)

-- Writes through the pointer `uthreads[i]`; `none` is a null pointer or an index out of bounds.
unfoldable pub with_thread : State → ℕ → (Thread → State) → Option State
with_thread s i f = elim (thread_at s i) [ none ↦ none | some th ↦ some (f th) ]

-- One round of the loop over `sync_dependencies`.
unfoldable pub release_one : State → ℕ → Thread → State
release_one s i th = record s {
  threads = update s.threads i (some (record th { sync_blocked = false }));
  ready = if th.blocked_directly then s.ready else s.ready ++ i ∷ [];
}

unfoldable pub release_all : List ℕ → State → Option State
release_all [] s = some s
release_all (i ∷ rest) s = elim (with_thread s i (release_one s i)) [
  | none ↦ none
  | some s' ↦ release_all rest s'
]

-- `uthread_terminate`, behind the loop.
unfoldable pub terminate_last : Replies → ℕ → Option State → Outcome
unfolding unmask
terminate_last r i none = undefined
terminate_last r i (some s) =
    if s.current_thread == i
    then switch_threads r terminate_switch (unmask s)
    else returned (pos 0) (unmask (record s { threads = update s.threads i none }))

-- The same, with `uthreads[tid]` read.
unfoldable pub terminate_thread : Replies → State → ℕ → Option Thread → Outcome
terminate_thread r s i none = undefined
terminate_thread r s i (some th) = terminate_last r i (
    release_all th.sync_dependencies
      (record s { unused_ids = remove_id s.unused_ids i; ready = erase_all i s.ready }))

-- An identifier below 0 or above the array's end that passes the test faults at `uthreads[tid]`.
unfoldable pub terminate_id : Replies → State → ℤ → Outcome
terminate_id r s (negsuc n) = undefined
terminate_id r s (pos i) = if i == 0 then exited 0 else terminate_thread r s i (thread_at s i)

-- `uthread_terminate`. The error return leaves the signal masked.
unfoldable pub uthread_terminate : Replies → State → ℤ → Outcome
unfolding mask
uthread_terminate r s tid =
    if is_valid s.unused_ids tid == 0
    then returned minus_one (mask s)
    else terminate_id r (mask s) tid

-- `tid == MAIN_THREAD_ID`
abbrev pub is_main : ℤ → Bool
is_main (negsuc n) = false
is_main (pos i) = i == 0

-- `uthreads[tid]->blocked_directly = true`
unfoldable pub block_directly : State → ℕ → Thread → State
block_directly s i th = record s {
  threads = update s.threads i (some (record th { blocked_directly = true }));
}

unfoldable pub block_thread : Replies → State → ℕ → Option Thread → Outcome
unfolding block_directly unmask
block_thread r s i none = undefined
block_thread r s i (some th) =
    if s.current_thread == i
    then switch_threads r block_switch (unmask (block_directly s i th))
    else (if th.blocked_directly
        then returned (pos 0) s
        else returned (pos 0)
            (unmask (record (block_directly s i th) { ready = erase_all i s.ready })))

unfoldable pub block_id : Replies → State → ℤ → Outcome
unfolding block_thread
block_id r s (negsuc n) = undefined
block_id r s (pos i) = block_thread r s i (thread_at s i)

-- `uthread_block`
unfoldable pub uthread_block : Replies → State → ℤ → Outcome
unfolding mask unmask block_id
uthread_block r s tid =
    if (is_valid s.unused_ids tid == 0) || is_main tid
    then returned minus_one (unmask (mask s))
    else block_id r (mask s) tid

unfoldable pub resume_thread : State → ℕ → Option Thread → Outcome
unfolding unmask
resume_thread s i none = undefined
resume_thread s i (some th) =
    if th.blocked_directly
    then returned (pos 0) (
        unmask (record s {
          threads = update s.threads i (some (record th { blocked_directly = false }));
          ready = if th.sync_blocked then s.ready else s.ready ++ i ∷ [];
        }))
    else returned (pos 0) (unmask s)

unfoldable pub resume_id : State → ℤ → Outcome
unfolding resume_thread
resume_id s (negsuc n) = undefined
resume_id s (pos i) =
    if (i == 0) || (i == s.current_thread)
    then returned (pos 0) (unmask s)
    else resume_thread s i (thread_at s i)

-- `uthread_resume`. The error return leaves the signal masked.
unfoldable pub uthread_resume : State → ℤ → Outcome
unfolding mask resume_id
uthread_resume s tid =
    if is_valid s.unused_ids tid == 0 then returned minus_one (mask s) else resume_id (mask s) tid
