-- ===== src/Uthreads/Calls/Waiting.antt =====
-- ex2/uthreads.cpp: `uthread_sync`, by which the running thread waits for another, and the functions
-- that only read.
use os.Common.{
  ℕ, Bool, true, false, ◌||◌, Option, none, some, [], ◌∷◌, ◌++◌, ◌==◌, if◌then◌else◌, update, ℤ,
  pos, negsuc, minus_one,
}
use os.Uthreads.Ids.{is_valid}
use os.Uthreads.Machine.{
  Thread, State, Replies, Outcome, returned, undefined, block_switch, thread_at, switch_threads,
}
use os.Uthreads.Calls.{mask, unmask, with_thread}

-- `tid == current_thread`
abbrev pub is_current : State → ℤ → Bool
is_current s (negsuc n) = false
is_current s (pos i) = i == s.current_thread

-- Behind the checks: the running thread is marked, then enters the queue of `tid`.
unfoldable pub sync_with : Replies → State → ℕ → Option Thread → Outcome
unfolding unmask
sync_with r s i none = undefined
sync_with r s i (some th) = switch_threads r block_switch (
    unmask (record s {
      threads =
          update s.threads i (
            some (record th { sync_dependencies = th.sync_dependencies ++ s.current_thread ∷ [] }));
    }))

unfoldable pub mark_synced : State → Thread → State
mark_synced s me = record s {
  threads = update s.threads s.current_thread (some (record me { sync_blocked = true }));
}

unfoldable pub sync_marked : Replies → Option State → ℕ → Outcome
unfolding sync_with
sync_marked r none i = undefined
sync_marked r (some s) i = sync_with r s i (thread_at s i)

unfoldable pub sync_id : Replies → State → ℤ → Outcome
unfolding sync_marked
sync_id r s (negsuc n) = undefined
sync_id r s (pos i) = sync_marked r (with_thread s s.current_thread (mark_synced s)) i

-- `uthread_sync`
unfoldable pub uthread_sync : Replies → State → ℤ → Outcome
unfolding mask unmask
uthread_sync r s tid =
    if (is_valid s.unused_ids tid == 0) || (s.current_thread == 0) || is_current s tid
    then returned minus_one (unmask (mask s))
    else sync_id r (mask s) tid

unfoldable pub uthread_get_tid : State → ℕ
uthread_get_tid s = s.current_thread

unfoldable pub uthread_get_total_quantums : State → ℕ
uthread_get_total_quantums s = s.total_quantums

unfoldable pub quantums_of_thread : State → Option Thread → Outcome
quantums_of_thread s none = undefined
quantums_of_thread s (some th) = returned (pos th.quantums) s

unfoldable pub quantums_of_id : State → ℤ → Outcome
unfolding quantums_of_thread
quantums_of_id s (negsuc n) = undefined
quantums_of_id s (pos i) = quantums_of_thread s (thread_at s i)

-- `uthread_get_quantums`
unfoldable pub uthread_get_quantums : State → ℤ → Outcome
unfolding quantums_of_id
uthread_get_quantums s tid =
    if is_valid s.unused_ids tid == 0 then returned minus_one s else quantums_of_id s tid
