-- ===== src/Uthreads/Outcomes.antt =====
-- ex2/uthreads.cpp: the ways that a call with an identifier in range may take, for any property of its
-- outcome.
use os.Common.{
  ℕ, ◌<◌, ◌≡◌, ◌≢◌, ◌||◌, true, some, none, ◌==◌, inl, inr, arith, pos, minus_one, Bool-cases,
}
use os.Uthreads.Ids.{max_thread_num, is_valid}
use os.Uthreads.Machine.{Thread, State, Replies, Outcome, returned, exited}
use os.Uthreads.Calls.{
  mask, unmask, release_all, uthread_block, block_thread, uthread_resume, resume_id, resume_thread,
  uthread_terminate, terminate_id, terminate_thread, terminate_last,
}
use os.Uthreads.Calls.Waiting.{uthread_sync, sync_id, sync_with, mark_synced}
use os.Uthreads.Invariant.{Inv, Inv-masked}
use os.Uthreads.Blocking.{alive, thread_at_lem, with_thread_lem}
use os.Uthreads.Sync.{current_lt, current_thread_at}
use os.Uthreads.Release.{Released, release_all_lem}
use os.Uthreads.Terminate.{retired, releasable}

module _ (P : Outcome → Type 0) (r : Replies) (s : State) (i : ℕ) (v : Inv s)
    (h : i < max_thread_num) where
  pub block_cases :
      P (returned minus_one (unmask (mask s)))
      → ((th : Thread) → s.threads i ≡ some th → 0 < i → P (block_thread r (mask s) i (some th)))
      → P (uthread_block r s (pos i))
  unfolding uthread_block mask
  block_cases refused live = elim (Bool-cases ((is_valid s.unused_ids (pos i) == 0) || (i == 0))) [
    | inl bad ↦ rw bad refused
    | inr good ↦
        let (th, e) = alive s i v h (ground (arith, good)) in
        rw good (rw (thread_at_lem (mask s) i h e) (live th e (ground arith)))
  ]

  resume_live :
      (th : Thread)
      → s.threads i ≡ some th
      → P (returned (pos 0) (unmask (mask s)))
      → (0 < i → i ≢ s.current_thread → P (resume_thread (mask s) i (some th)))
      → P (resume_id (mask s) (pos i))
  unfolding resume_id mask
  resume_live th e idle live = elim (Bool-cases ((i == 0) || (i == s.current_thread))) [
    | inl here ↦ rw here idle
    | inr away ↦ rw away (rw (thread_at_lem (mask s) i h e) (live (ground arith) (ground arith)))
  ]

  pub resume_cases :
      P (returned minus_one (mask s))
      → P (returned (pos 0) (unmask (mask s)))
      → ((th : Thread)
          → s.threads i ≡ some th
          → 0 < i
          → i ≢ s.current_thread
          → P (resume_thread (mask s) i (some th)))
      → P (uthread_resume s (pos i))
  unfolding uthread_resume mask
  resume_cases refused idle live = elim (Bool-cases (is_valid s.unused_ids (pos i) == 0)) [
    | inl bad ↦ rw bad refused
    | inr good ↦ let (th, e) = alive s i v h good in rw good (resume_live th e idle (live th e))
  ]

  pub sync_cases :
      P (returned minus_one (unmask (mask s)))
      → ((me th : Thread)
          → s.threads s.current_thread ≡ some me
          → s.threads i ≡ some th
          → i ≢ s.current_thread
          → P (sync_with r (mark_synced (mask s) me) i (some th)))
      → P (uthread_sync r s (pos i))
  unfolding uthread_sync sync_id mask
  sync_cases refused live =
      elim (Bool-cases (
        (is_valid s.unused_ids (pos i) == 0)
        || (s.current_thread == 0)
        || (i == s.current_thread))) [
          | inl bad ↦ rw bad refused
          | inr good ↦
              let (th, e) = alive s i v h (ground (arith, good)) in
              let (me, mine) = current_thread_at s v in
              let other : i ≢ s.current_thread = ground (arith, good) in
              rw good (
                rw
                  (with_thread_lem (mask s) s.current_thread (mark_synced (mask s)) (current_lt s v)
                    mine)
                  (rw (thread_at_lem (mark_synced (mask s) me) i h (marked me th e other))
                    (live me th mine e other)))
        ]
    where
      marked :
          (me th : Thread)
          → s.threads i ≡ some th
          → i ≢ s.current_thread
          → (mark_synced (mask s) me).threads i ≡ some th
      marked me th e n = unfold mark_synced in ground (arith, e)

  terminate_live :
      (th : Thread)
      → s.threads i ≡ some th
      → ((t : State)
          → release_all th.sync_dependencies (retired (mask s) i) ≡ some t
          → Released th.sync_dependencies (retired (mask s) i) t
          → P (terminate_last r i (some t)))
      → P (terminate_thread r (mask s) i (some th))
  unfolding terminate_thread mask
  terminate_live th e last =
      let (t, run, f) =
        release_all_lem th.sync_dependencies (retired (mask s) i)
          (releasable (mask s) i th (Inv-masked s true v) e) in
      rw run (last t run f)

  dead : (is_valid s.unused_ids (pos i) == 0) ≡ true → s.threads i ≡ none
  unfolding is_valid
  dead bad = ground (arith, v.sound.unused i, bad)

  pub terminate_cases :
      (s.threads i ≡ none → P (returned minus_one (mask s)))
      → P (exited 0)
      → ((th : Thread) (t : State)
          → s.threads i ≡ some th
          → 0 < i
          → release_all th.sync_dependencies (retired (mask s) i) ≡ some t
          → Released th.sync_dependencies (retired (mask s) i) t
          → P (terminate_last r i (some t)))
      → P (uthread_terminate r s (pos i))
  unfolding uthread_terminate terminate_id mask
  terminate_cases refused main last = elim (Bool-cases (is_valid s.unused_ids (pos i) == 0)) [
    | inl bad ↦ rw bad (refused (dead bad))
    | inr good ↦ let (th, e) = alive s i v h good in rw good (live th e)
  ]
    where
      live : (th : Thread) → s.threads i ≡ some th → P (terminate_id r (mask s) (pos i))
      live th e = elim (Bool-cases (i == 0)) [
        | inl zero_id ↦ simp zero_id main
        | inr other ↦ simp other (
            rw (thread_at_lem (mask s) i h e)
              (terminate_live th e (λ t. last th t e (ground arith))))
      ]
