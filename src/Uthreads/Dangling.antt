-- ===== src/Uthreads/Dangling.antt =====
-- ex2/uthreads.cpp, `uthread_terminate` of a thread that waits in another's `sync_dependencies`.

use os.Common.{
  ℕ, ◌<◌, ◌≡◌, ◌≢◌, refl, true, false, none, some, List, [], ◌∷◌, ltb, ◌==◌, arith, pos, count, inl,
  inr, Bool-cases, Option-cases, update, ap,
}
use os.Uthreads.Ids.{max_thread_num, is_valid, remove_id, count-set_insert}
use os.Uthreads.Machine.{Thread, State, Replies, returned, undefined, thread_at}
use os.Uthreads.Calls.{
  mask, uthread_terminate, terminate_id, terminate_thread, terminate_last, release_all, release_one,
  with_thread,
}
use os.Uthreads.Invariant.{Inv, Inv-masked, deps_of}
use os.Uthreads.Blocking.{thread_at_lem}
use os.Uthreads.Rejected.{live_valid}
use os.Uthreads.Release.{Released, release_all_lem}
use os.Uthreads.Terminate.{retired, releasable}

step_past :
    (s t : State) (i d : ℕ)
    → s.threads d ≡ none
    → with_thread s i (release_one s i) ≡ some t
    → (t.threads d ≡ none) × (d ≢ i)
unfolding with_thread release_one thread_at
step_past s t i d e go = ground arith

-- The loop over a queue with a thread that is gone meets a null pointer.
release_all-missing :
    (l : List ℕ) (s : State) (d : ℕ) → s.threads d ≡ none → 0 < count d l → release_all l s ≡ none
unfolding release_all
release_all-missing [] s d e h = absurd (ground arith)
release_all-missing (i ∷ l) s d e h = elim (Option-cases (with_thread s i (release_one s i))) [
  | inl stop ↦ rw (stop, release_all) refl
  | inr (t, go) ↦
      let (gone, other) = step_past s t i d e go in
      rw (go, release_all) (release_all-missing l t d gone (ground arith))
]

-- After the waiter `d` is gone, its identifier still stands in the queue of `t`.
abbrev without : State → ℕ → State
without s d = record s { threads = update s.threads d none; masked = false }

module _ (r : Replies) (s : State) (d t : ℕ) (waiter target : Thread) (v : Inv s) (pd : 0 < d)
    (pt : 0 < t) (ed : s.threads d ≡ some waiter) (et : s.threads t ≡ some target) (ne : d ≢ t)
    (waits : 0 < count d target.sync_dependencies) where
  in_queue : 0 < count d (deps_of (s.threads t))
  in_queue = ground (arith, waits)

  lt_d : d < max_thread_num
  lt_d = ground (arith, v.sound.bounded d)

  lt_t : t < max_thread_num
  lt_t = ground (arith, v.sound.bounded t)

  not_running : d ≢ s.current_thread
  not_running e = ground (arith, v.sound.waiting t d, in_queue, v.running)

  first_call :
      (u : State)
      → release_all waiter.sync_dependencies (retired (mask s) d) ≡ some u
      → u.current_thread ≡ s.current_thread
      → uthread_terminate r s (pos d) ≡ returned (pos 0) (without u d)
  unfolding uthread_terminate terminate_id terminate_thread terminate_last mask
  first_call u run same = ground (
    arith,
    live_valid s d v pd (ground (arith, ed)),
    thread_at_lem (mask s) d lt_d ed,
    run,
    not_running,
  )

  module _ (u : State) (f : Released waiter.sync_dependencies (retired (mask s) d) u) where
    target_left :
        (w : Thread) × (u.threads t ≡ some w) × (w.sync_dependencies ≡ target.sync_dependencies)
    unfolding mask
    target_left = elim (Bool-cases (ltb 0 (count t waiter.sync_dependencies))) [
      | inl yes' ↦ (record target { sync_blocked = false }, ground (arith, f.freed t), refl)
      | inr no' ↦ (target, ground (arith, f.freed t), refl)
    ]

    still_valid : (is_valid (without u d).unused_ids (pos t) == 0) ≡ false
    unfolding is_valid remove_id mask
    still_valid =
        ground
          (arith, f.same_ids, count-set_insert t d s.unused_ids, v.sound.unused d, v.sound.unused t)

    second_call : uthread_terminate r (without u d) (pos t) ≡ undefined
    unfolding uthread_terminate terminate_id terminate_thread terminate_last mask
    second_call =
        let (w, e, same) = target_left in
        ground (
          arith,
          still_valid,
          thread_at_lem (mask (without u d)) t {o = some w} lt_t (ground (arith, e, ne)),
          release_all-missing w.sync_dependencies (retired (mask (without u d)) t) d,
          ap (count d) same,
        )

  -- A waiting thread is terminated, and then the thread that it waits for: the second call follows
  -- a null pointer.
  pub terminate_waiter_undefined :
      (s1 : State) × (uthread_terminate r s (pos d) ≡ returned (pos 0) s1)
      × (uthread_terminate r s1 (pos t) ≡ undefined)
  unfolding mask
  terminate_waiter_undefined =
      let (u, run, f) =
        release_all_lem waiter.sync_dependencies (retired (mask s) d)
          (releasable (mask s) d waiter (Inv-masked s true v) ed) in
      (without u d, first_call u run f.same_current, second_call u f)
