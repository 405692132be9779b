-- ===== src/Uthreads/States.antt =====
-- Concrete states of the model of ex2/uthreads.cpp, one after the other.
use os.Common.{◌≡◌, refl, true, false, [], ◌∷◌, arith, pos}
use os.Uthreads.Ids.{fill_ids, new_ids, generate_id, is_valid}
use os.Uthreads.Machine.{
  Thread, State, Outcome, returned, switched, exited, undefined, sigvtalrm, switch_threads,
  run_front, thread_at, start_state,
}
use os.Uthreads.Calls.{
  first_state, uthread_spawn, spawn_as, uthread_block, block_thread, with_thread,
}
use os.Uthreads.Calls.Waiting.{uthread_sync, sync_id, sync_with, mark_synced}
use os.Uthreads.Invariant.{Inv}
use os.Uthreads.Spawn.{first_state-Inv, uthread_spawn-Keeps}
use os.Uthreads.Blocking.{uthread_block-Keeps}
use os.Uthreads.Schedule.{quiet}
use os.Uthreads.Switch.{preempt-Keeps}
use os.Uthreads.Sync.{uthread_sync-Keeps}

-- The state in which a thread goes on after a call.
abbrev pub state_after : Outcome → State
state_after (returned v s) = s
state_after (switched s) = s
state_after (exited code) = start_state
state_after undefined = start_state

-- Only the main thread.
unfoldable pub alone : State
alone = first_state 1500000

-- It has spawned threads 1 and 2.
unfoldable pub one_more : State
unfolding alone uthread_spawn spawn_as generate_id new_ids fill_ids first_state
one_more = state_after (uthread_spawn quiet alone)

unfoldable pub trio : State
unfolding one_more
trio = state_after (uthread_spawn quiet one_more)

trio_ready : trio.ready ≡ 1 ∷ 2 ∷ []
unfolding trio
trio_ready = refl

pub alone-Inv : Inv alone
unfolding alone
alone-Inv = first_state-Inv 1500000

pub one_more-Inv : Inv one_more
unfolding one_more
one_more-Inv = uthread_spawn-Keeps quiet alone alone-Inv

pub trio-Inv : Inv trio
unfolding trio
trio-Inv = uthread_spawn-Keeps quiet one_more one_more-Inv

-- Thread 1 runs; 2 and 0 are ready.
unfoldable pub first_runs : State
unfolding trio switch_threads run_front
first_runs = state_after (switch_threads quiet sigvtalrm trio)

pub first_runs-Inv : Inv first_runs
unfolding first_runs
first_runs-Inv = preempt-Keeps quiet trio trio-Inv (omega arith)

-- Thread 1 waits for 2, which runs.
unfoldable pub first_waits : State
unfolding first_runs uthread_sync sync_id sync_with with_thread mark_synced is_valid
first_waits = state_after (uthread_sync quiet first_runs (pos 2))

pub first_waits-Inv : Inv first_waits
unfolding first_waits
first_waits-Inv =
    uthread_sync-Keeps quiet first_runs (pos 2) first_runs-Inv (omega arith) (omega arith)

first_waits_test : (first_waits.current_thread ≡ 2) × (first_waits.ready ≡ 0 ∷ [])
unfolding first_waits
first_waits_test = (refl, refl)

-- The main thread runs again; thread 2 is ready, and 1 still waits for it.
unfoldable pub main_again : State
unfolding first_waits switch_threads run_front
main_again = state_after (switch_threads quiet sigvtalrm first_waits)

pub main_again-Inv : Inv main_again
unfolding main_again
main_again-Inv = preempt-Keeps quiet first_waits first_waits-Inv (omega arith)

-- Thread 2 is blocked.
unfoldable pub second_blocked : State
unfolding trio uthread_block block_thread is_valid thread_at
second_blocked = state_after (uthread_block quiet trio (pos 2))

pub second_blocked-Inv : Inv second_blocked
unfolding second_blocked
second_blocked-Inv = uthread_block-Keeps quiet trio (pos 2) trio-Inv (omega arith) (omega arith)

abbrev pub blocked_thread : Thread
blocked_thread = record {
  blocked_directly = true;
  sync_blocked = false;
  quantums = 0;
  sync_dependencies = [];
}

abbrev pub waiting_thread : Thread
waiting_thread = record {
  blocked_directly = false;
  sync_blocked = true;
  quantums = 1;
  sync_dependencies = [];
}

abbrev pub awaited_thread : Thread
awaited_thread = record {
  blocked_directly = false;
  sync_blocked = false;
  quantums = 1;
  sync_dependencies = 1 ∷ [];
}

abbrev pub fresh_thread : Thread
fresh_thread = record {
  blocked_directly = false;
  sync_blocked = false;
  quantums = 0;
  sync_dependencies = [];
}
