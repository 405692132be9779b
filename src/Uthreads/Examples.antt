-- ===== src/Uthreads/Examples.antt =====
-- Tests of the model of ex2/uthreads.cpp, and its theorems at concrete states.
use os.Common.{
  ℕ, ◌≤◌, ◌<◌, ◌≡◌, ◌≢◌, refl, true, false, none, [], ◌∷◌, if◌then◌else◌, is_some, arith, pos,
  minus_one, count,
}
use os.Common.{◌↔◌}
use os.Common.{◌+◌}
use os.Uthreads.Accounts.Conserved.{all_quantums, lost, quantums_conserved}
use os.Uthreads.Interrupted.Ending.{terminate_interrupted, terminate_interrupted_lem}
use os.Uthreads.Exit.{uthreads_exit, exit_deletes}
use os.Uthreads.Machine.{sigvtalrm, switch_threads, run_front}
use os.Uthreads.Run.{tick, Continues, switches}
use os.Uthreads.States.{state_after}
use os.Uthreads.Lifecycle.{running, ready, phase, Moves}
use os.Uthreads.Lifecycle.Complete.{life_cycle}
use os.Uthreads.Ids.{max_thread_num}
use os.Uthreads.Machine.{Thread, State, returned, switched, undefined}
use os.Uthreads.Calls.{
  uthread_init, uthread_spawn, uthread_terminate, uthread_block, uthread_resume,
}
use os.Uthreads.Calls.Waiting.{uthread_sync, uthread_get_quantums}
use os.Uthreads.Invariant.{is_unblocked, Inv, Keeps, is_synced}
use os.Uthreads.Release.{is_blocked}
use os.Uthreads.Run.{perform, perform-Keeps, blocks, spawns, Reach, inits, next, Reach-Inv, returns}
use os.Uthreads.Rejected.{out_of_range_undefined, dead_rejected}
use os.Uthreads.Dangling.{terminate_waiter_undefined}
use os.Uthreads.Wakeup.{uthread_spawn_lem, Spawned, terminate_wakes}
use os.Uthreads.Schedule.{quiet, round_robin, ticks, Turn}
use os.Uthreads.States.{
  alone, one_more, trio, trio-Inv, first_runs, first_runs-Inv, main_again, main_again-Inv,
  waiting_thread, awaited_thread,
}
use os.Uthreads.Interrupted.{block_interrupted, block_interrupted_lem}

perform-Keeps_example : Keeps (perform quiet trio (blocks (pos 1)))
unfolding trio
perform-Keeps_example =
    perform-Keeps quiet trio (blocks (pos 1)) trio-Inv (omega arith) (omega arith)

one_more-Reach : Reach one_more
unfolding one_more perform uthread_init
one_more-Reach =
    next {s = alone} quiet spawns (inits quiet 1500000 (omega arith) returns) tt (omega arith)
      returns

Reach-Inv_example : Inv one_more
Reach-Inv_example = Reach-Inv one_more-Reach

round_robin_example : (t : State) × (ticks 2 trio ≡ switched t) × Turn trio 2 (0 ∷ 1 ∷ []) 2 t
unfolding trio
round_robin_example = round_robin (1 ∷ []) trio 2 [] trio-Inv (omega arith) refl

terminate_wakes_example :
    (u : State) × (uthread_terminate quiet main_again (pos 2) ≡ returned (pos 0) u)
    × (u.threads 2 ≡ none)
    × (count 2 u.unused_ids ≡ 1)
    × ((d : ℕ)
        → 0 < count d awaited_thread.sync_dependencies
        → d ≢ 2
        → (is_synced (u.threads d) ≡ false)
          × (count d u.ready ≡ (if is_blocked (main_again.threads d) then 0 else 1)))
unfolding main_again
terminate_wakes_example =
    terminate_wakes quiet main_again 2 awaited_thread main_again-Inv (omega arith) refl
      (omega arith)

terminate_waiter_undefined_example :
    (s1 : State) × (uthread_terminate quiet main_again (pos 1) ≡ returned (pos 0) s1)
    × (uthread_terminate quiet s1 (pos 2) ≡ undefined)
unfolding main_again
terminate_waiter_undefined_example =
    terminate_waiter_undefined quiet main_again 1 2 waiting_thread awaited_thread main_again-Inv
      (omega arith) (omega arith) refl refl (omega arith) (omega arith)

out_of_range_undefined_example :
    (uthread_terminate quiet trio (pos 100) ≡ undefined)
    × (uthread_block quiet trio (pos 100) ≡ undefined)
    × (uthread_resume trio (pos 100) ≡ undefined)
    × (uthread_get_quantums trio (pos 100) ≡ undefined)
    × (0 < trio.current_thread → uthread_sync quiet trio (pos 100) ≡ undefined)
out_of_range_undefined_example = out_of_range_undefined quiet trio (pos 100) trio-Inv (omega arith)

dead_rejected_example :
    (uthread_terminate quiet trio (pos 7) ≡ returned minus_one (record trio { masked = true }))
    × (uthread_block quiet trio (pos 7) ≡ returned minus_one (record trio { masked = false }))
    × (uthread_resume trio (pos 7) ≡ returned minus_one (record trio { masked = true }))
    × (uthread_sync quiet trio (pos 7) ≡ returned minus_one (record trio { masked = false }))
    × (uthread_get_quantums trio (pos 7) ≡ returned minus_one trio)
unfolding trio
dead_rejected_example = dead_rejected quiet trio 7 trio-Inv (omega arith) refl

uthread_spawn_lem_example :
    ((j : ℕ)
      → 0 < j
      → j < max_thread_num
      → trio.threads j ≡ none
      → (i : ℕ) × (t : State) × (uthread_spawn quiet trio ≡ returned (pos i) t)
        × Spawned trio i t
        × (i ≤ j))
    × (((j : ℕ) → 0 < j → j < max_thread_num → is_some (trio.threads j) ≡ true)
        → uthread_spawn quiet trio ≡ returned minus_one (record trio { masked = false }))
uthread_spawn_lem_example = uthread_spawn_lem quiet trio trio-Inv refl

abbrev running_thread : Thread
running_thread = record {
  blocked_directly = false;
  sync_blocked = false;
  quantums = 1;
  sync_dependencies = [];
}

block_interrupted_lem_example :
    (t : State) × (block_interrupted quiet first_runs 1 running_thread ≡ switched t)
    × (is_unblocked (t.threads 1) ≡ false)
    × (count 1 t.ready ≡ 1)
    × ¬ Inv t
unfolding first_runs
block_interrupted_lem_example =
    block_interrupted_lem first_runs 1 running_thread first_runs-Inv (omega arith) refl
      (omega arith) refl

-- The timer interrupts the main thread, and thread 1 runs.
after_tick : State
unfolding one_more switch_threads run_front
after_tick = state_after (switch_threads quiet sigvtalrm one_more)

one_more_ticks : Continues (perform quiet one_more tick) after_tick
unfolding perform after_tick
one_more_ticks = switches

life_cycle_example :
    ((phase one_more 1 ≡ running) ↔ (1 ≡ one_more.current_thread))
    × ((phase one_more 1 ≡ ready) ↔ (0 < count 1 one_more.ready))
    × Moves one_more tick 1 (phase one_more 1) (phase after_tick 1)
unfolding one_more
life_cycle_example = life_cycle quiet tick one_more-Reach (refl, refl) one_more_ticks 1

terminate_interrupted_lem_example :
    (u : State) × (terminate_interrupted quiet first_runs 1 running_thread ≡ switched u)
    × (is_some (u.threads 1) ≡ true)
    × (count 1 u.ready ≡ 1)
    × (count 1 u.unused_ids ≡ 1)
    × ¬ Inv u
unfolding first_runs
terminate_interrupted_lem_example =
    terminate_interrupted_lem first_runs 1 running_thread first_runs-Inv (omega arith) refl
      (omega arith) refl

exit_deletes_example :
    ((uthreads_exit 0 trio).left.threads 2 ≡ none)
    × (count 2 (uthreads_exit 0 trio).left.freed ≡ (if is_some (trio.threads 2) then 1 else 0))
    × (count trio.current_thread (uthreads_exit 0 trio).left.freed ≡ 1)
exit_deletes_example = exit_deletes trio 0 2 trio-Inv

quantums_conserved_example :
    (all_quantums one_more ≤ one_more.total_quantums)
    × (after_tick.total_quantums + all_quantums one_more
        ≡ one_more.total_quantums + all_quantums after_tick + lost one_more tick)
unfolding one_more
quantums_conserved_example =
    quantums_conserved quiet tick one_more-Reach (refl, refl) (omega arith) one_more_ticks
