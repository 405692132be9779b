-- ===== src/Uthreads/Lifecycle/Several.antt =====
-- ex2/uthreads.cpp: what `uthread_sync` and `uthread_terminate` do to the threads' states.
use os.Common.{
  ℕ, ◌<◌, ◌≡◌, ◌≢◌, refl, none, some, List, [], ◌∷◌, ◌++◌, ◌==◌, update, erase_all, sym, ap, ◌∙◌,
  inl, inr, count, arith, pos, Bool-cases, Option-cases, erase_all_absent,
}
use os.Uthreads.Ids.{max_thread_num}
use os.Uthreads.Machine.{
  Thread, State, Replies, leave, switch_threads, block_switch, terminate_switch, thread_at,
}
use os.Uthreads.Invariant.{Inv}
use os.Uthreads.Run.{terminates, syncs}
use os.Uthreads.Switch.{stored}
use os.Uthreads.Lifecycle.{status, phase_of, phase, first, Moves, Lives}
use os.Uthreads.Calls.{
  mask, unmask, with_thread, release_one, release_all, uthread_terminate, terminate_last,
}
use os.Uthreads.Calls.Waiting.{uthread_sync, sync_with, mark_synced}
use os.Uthreads.Outcomes.{sync_cases, terminate_cases}
use os.Uthreads.Release.{Released}
use os.Uthreads.Terminate.{retired}
use os.Uthreads.Lifecycle.Dispatching.{switch-Dispatches, Dispatches-Lives, same-Moves}

sync_with-Lives :
    (r : Replies) (s : State) (i : ℕ) (me th : Thread)
    → Inv s
    → s.threads s.current_thread ≡ some me
    → s.threads i ≡ some th
    → i ≢ s.current_thread
    → Lives s (syncs (pos i)) (sync_with r (mark_synced (mask s) me) i (some th))
unfolding sync_with mark_synced mask unmask leave
sync_with-Lives r s i me th v mine e other =
    let x : State = unmask (record (mark_synced (mask s) me) {
      threads =
          update (mark_synced (mask s) me).threads i (
            some (record th { sync_dependencies = th.sync_dependencies ++ s.current_thread ∷ [] }));
    }) in
    Dispatches-Lives s (leave block_switch (stored x)) (syncs (pos i))
      (switch_threads r block_switch x) (switch-Dispatches r block_switch x)
      (λ j n f. ground (arith, f, e, mine, other, v.running))

pub sync-Lives :
    (r : Replies) (s : State) (i : ℕ)
    → Inv s
    → i < max_thread_num
    → Lives s (syncs (pos i)) (uthread_sync r s (pos i))
unfolding mask unmask
sync-Lives r s i v h =
    sync_cases (Lives s (syncs (pos i))) r s i v h (same-Moves s (syncs (pos i)))
      (λ me th. sync_with-Lives r s i me th v)

first-append : (l more : List ℕ) (m : ℕ) → first l ≡ some m → first (l ++ more) ≡ some m
first-append [] more m h = cc
first-append (x ∷ l) more m h = h

-- Whoever is released is queued behind the others.
pub first-release_all :
    (l : List ℕ) (s t : State) (m : ℕ)
    → release_all l s ≡ some t
    → first s.ready ≡ some m
    → first t.ready ≡ some m
unfolding release_all with_thread release_one
first-release_all [] s t m run f = let q : s ≡ t = cc in rw (← q) f
first-release_all (i ∷ l) s t m run f = elim (Option-cases (thread_at s i)) [
  | inl missing ↦ absurd (ground (arith, missing))
  | inr (th, e) ↦
      first-release_all l (release_one s i th) t m (ground (arith, e))
        (ground (arith, f, first-append s.ready (i ∷ []) m))
]

-- A queue with a member has a front.
pub front_of : (l : List ℕ) (k : ℕ) → 0 < count k l → (m : ℕ) × (first l ≡ some m) × (0 < count m l)
front_of [] k h = elim h [ ]
front_of (x ∷ l) k h = (x, refl, ground arith)

module _ (s t : State) (i : ℕ) (th : Thread) (v : Inv s) (e : s.threads i ≡ some th) (nz : 0 < i)
    (f : Released th.sync_dependencies (retired (mask s) i) t)
    (run : release_all th.sync_dependencies (retired (mask s) i) ≡ some t) where
  ended_move :
      (j : ℕ)
      → Moves s
          (terminates (pos i))
          j
          (phase s j)
          (phase_of (j == s.current_thread) (status (update t.threads i none j)))
  unfolding mask
  ended_move j = ground (arith, f.freed j, e, v.sound.waiting i j)

  self_move :
      i ≡ s.current_thread
      → (j n : ℕ) → first t.ready ≡ some n
      → Moves s
          (terminates (pos i))
          j
          (phase s j)
          (phase_of (j == n) (status (update t.threads i none j)))
  unfolding mask
  self_move here j n g =
      let (m, fm, queued) =
        front_of s.ready 0 (ground (arith, v.sound.scheduled 0, v.sound.main_unblocked)) in
      let kept : erase_all i s.ready ≡ s.ready =
        erase_all_absent i s.ready (ground (arith, v.sound.scheduled i)) in
      let front : first t.ready ≡ some m =
        first-release_all th.sync_dependencies (retired (mask s) i) t m run (ap first kept ∙ fm) in
      let same : n ≡ m = cc in
      ground (arith, f.freed j, e, same, fm, v.sound.scheduled m, v.sound.waiting i j, v.running)

terminate_last-Lives :
    (r : Replies) (s t : State) (i : ℕ) (th : Thread)
    → Inv s
    → s.threads i ≡ some th
    → 0 < i
    → Released th.sync_dependencies (retired (mask s) i) t
    → release_all th.sync_dependencies (retired (mask s) i) ≡ some t
    → Lives s (terminates (pos i)) (terminate_last r i (some t))
unfolding terminate_last unmask leave mask
terminate_last-Lives r s t i th v e nz f run = elim (Bool-cases (t.current_thread == i)) [
  | inl here ↦ simp here (
      let x : State = unmask t in
      Dispatches-Lives s (leave terminate_switch (stored x)) (terminates (pos i))
        (switch_threads r terminate_switch x) (switch-Dispatches r terminate_switch x)
        (λ j n g.
          let c : t.current_thread ≡ i = ground arith in
          simp c (self_move s t i th v e nz f run (sym c ∙ f.same_current) j n g)))
  | inr away ↦ simp away (λ j. simp f.same_current (ended_move s t i th v e nz f run j))
]

pub terminate-Lives :
    (r : Replies) (s : State) (i : ℕ)
    → Inv s
    → i < max_thread_num
    → Lives s (terminates (pos i)) (uthread_terminate r s (pos i))
unfolding mask
terminate-Lives r s i v h =
    terminate_cases (Lives s (terminates (pos i))) r s i v h
      (λ e. same-Moves s (terminates (pos i))) tt
      (λ th t e nz run f. terminate_last-Lives r s t i th v e nz f run)
