-- ===== src/Uthreads/Rejected.antt =====
-- ex2/uthreads.cpp: how the interface treats identifiers that belong to no thread.
use os.Common.{
  ℕ, ◌≤◌, ◌<◌, ◌≡◌, ◌≢◌, refl, true, false, Option, none, some, ◌==◌, is_some, arith, ℤ, pos,
  negsuc, minus_one,
}
use os.Uthreads.Ids.{max_thread_num, is_valid}
use os.Uthreads.Machine.{Thread, State, Replies, returned, undefined, thread_at}
use os.Uthreads.Calls.{
  mask, uthread_terminate, terminate_id, terminate_thread, uthread_block, block_thread,
  uthread_resume, resume_thread, with_thread,
}
use os.Uthreads.Calls.Waiting.{
  uthread_sync, sync_id, sync_marked, sync_with, mark_synced, uthread_get_quantums, quantums_of_id,
  quantums_of_thread,
}
use os.Uthreads.Invariant.{Inv}
use os.Uthreads.Blocking.{InRange, thread_at_lem}

thread_at_out : (s : State) (i : ℕ) → max_thread_num ≤ i → thread_at s i ≡ none
unfolding thread_at
thread_at_out s i h = ground arith

is_valid_out :
    (s : State) (i : ℕ) → max_thread_num ≤ i → (is_valid s.unused_ids (pos i) == 0) ≡ false
unfolding is_valid
is_valid_out s i h = ground arith

pub live_valid :
    (s : State) (i : ℕ)
    → Inv s
    → 0 < i
    → is_some (s.threads i) ≡ true
    → (is_valid s.unused_ids (pos i) == 0) ≡ false
unfolding is_valid
live_valid s i v p e = ground (arith, v.sound.unused i)

module _ (r : Replies) (s : State) (i : ℕ) (h : max_thread_num ≤ i) where
  terminate_out : uthread_terminate r s (pos i) ≡ undefined
  unfolding uthread_terminate terminate_id terminate_thread
  terminate_out = ground (arith, is_valid_out s i h, thread_at_out (mask s) i h)

  block_out : uthread_block r s (pos i) ≡ undefined
  unfolding uthread_block block_thread
  block_out = ground (arith, is_valid_out s i h, thread_at_out (mask s) i h)

  resume_out : i ≢ s.current_thread → uthread_resume s (pos i) ≡ undefined
  unfolding uthread_resume resume_thread
  resume_out n = ground (arith, is_valid_out s i h, thread_at_out (mask s) i h)

  get_quantums_out : uthread_get_quantums s (pos i) ≡ undefined
  unfolding uthread_get_quantums quantums_of_thread
  get_quantums_out = ground (arith, is_valid_out s i h, thread_at_out s i h)

  sync_marked_out : (o : Option State) → sync_marked r o i ≡ undefined
  unfolding sync_marked sync_with
  sync_marked_out none = refl
  sync_marked_out (some t) = ground (arith, thread_at_out t i h)

  sync_out : i ≢ s.current_thread → 0 < s.current_thread → uthread_sync r s (pos i) ≡ undefined
  unfolding uthread_sync sync_id
  sync_out n p = ground (
    arith,
    is_valid_out s i h,
    sync_marked_out (with_thread (mask s) s.current_thread (mark_synced (mask s))),
  )

-- The test `!tids.is_valid(tid)` refuses no identifier outside the array: `uthread_terminate`,
-- `uthread_block`, `uthread_resume`, `uthread_get_quantums`, and `uthread_sync` outside the main
-- thread, then read `uthreads[tid]` out of bounds.
pub out_of_range_undefined :
    (r : Replies) (s : State) (tid : ℤ)
    → Inv s
    → ¬ InRange tid
    → (uthread_terminate r s tid ≡ undefined)
      × (uthread_block r s tid ≡ undefined)
      × (uthread_resume s tid ≡ undefined)
      × (uthread_get_quantums s tid ≡ undefined)
      × (0 < s.current_thread → uthread_sync r s tid ≡ undefined)
unfolding uthread_terminate terminate_id uthread_block uthread_resume uthread_get_quantums
    quantums_of_id uthread_sync sync_id is_valid
out_of_range_undefined r s (negsuc n) v h = (refl, refl, refl, refl, λ p. ground arith)
out_of_range_undefined r s (pos i) v h = (
  terminate_out r s i out,
  block_out r s i out,
  resume_out r s i out away,
  get_quantums_out r s i out,
  sync_out r s i out away,
)
  where
    out : max_thread_num ≤ i
    out = omega arith

    away : i ≢ s.current_thread
    away e = ground (arith, v.running, v.sound.bounded s.current_thread)

-- An identifier in range that no thread has: each function returns -1 and changes nothing but the
-- signal mask. `uthread_terminate` and `uthread_resume` leave the timer signal blocked.
pub dead_rejected :
    (r : Replies) (s : State) (i : ℕ)
    → Inv s
    → i < max_thread_num
    → s.threads i ≡ none
    → (uthread_terminate r s (pos i) ≡ returned minus_one (record s { masked = true }))
      × (uthread_block r s (pos i) ≡ returned minus_one (record s { masked = false }))
      × (uthread_resume s (pos i) ≡ returned minus_one (record s { masked = true }))
      × (uthread_sync r s (pos i) ≡ returned minus_one (record s { masked = false }))
      × (uthread_get_quantums s (pos i) ≡ returned minus_one s)
unfolding uthread_terminate uthread_block uthread_resume uthread_sync uthread_get_quantums
dead_rejected r s i v h e = (
  ground (arith, bad),
  ground (arith, bad),
  ground (arith, bad),
  ground (arith, bad),
  ground (arith, bad),
)
  where
    bad : (is_valid s.unused_ids (pos i) == 0) ≡ true
    bad = unfold is_valid in ground (arith, v.sound.unused i, v.sound.main_unblocked)

-- A thread blocked directly is blocked once more: nothing changes, and the call returns 0, but the
-- timer signal stays blocked.
pub block_twice :
    (r : Replies) (s : State) (i : ℕ) (th : Thread)
    → Inv s
    → 0 < i
    → s.threads i ≡ some th
    → th.blocked_directly ≡ true
    → uthread_block r s (pos i) ≡ returned (pos 0) (record s { masked = true })
unfolding uthread_block block_thread
block_twice r s i th v p e b = ground (
  arith,
  thread_at_lem (mask s) i (ground (arith, v.sound.bounded i)) e,
  live_valid s i v p (ground (arith, e)),
  v.running,
)
