-- ===== src/Uthreads/Accounts/Calls.antt =====
-- ex2/uthreads.cpp: what each call does to the counters of quantums.
use os.Common.{
  ℕ, ◌<◌, ◌≡◌, ◌≢◌, refl, some, none, List, [], ◌∷◌, ◌==◌, update, count, arith, pos, inl, inr,
  Bool-cases,
}
use os.Uthreads.Ids.{max_thread_num, generate_id}
use os.Uthreads.Machine.{Thread, State, Replies, exited, leave, block_switch, terminate_switch}
use os.Uthreads.Calls.{
  mask, unmask, new_thread, uthread_spawn, spawn_as, uthread_block, block_thread, block_directly,
  uthread_resume, resume_thread, uthread_terminate, terminate_last,
}
use os.Uthreads.Calls.Waiting.{uthread_sync, sync_with, mark_synced}
use os.Uthreads.Invariant.{Inv, quantums_of}
use os.Uthreads.Run.{spawns, terminates, blocks, resumes, syncs}
use os.Uthreads.Release.{Released}
use os.Uthreads.Terminate.{retired}
use os.Uthreads.Outcomes.{block_cases, resume_cases, sync_cases, terminate_cases}
use os.Uthreads.Accounts.{Counts, kept, switch-Counts, guarded-Counts}

spawn_as-Counts :
    (r : Replies) (s : State) (ids : List ℕ)
    → s.unused_ids ≡ ids
    → Inv s
    → Counts s spawns (spawn_as r (mask s) (generate_id ids))
unfolding spawn_as generate_id mask unmask new_thread
spawn_as-Counts r s [] e v = (refl, λ i. refl)
spawn_as-Counts r s (k ∷ ids) e v =
    guarded-Counts r.alloc_fails s spawns (exited 1) _ tt
      (refl, λ i. ground (arith, v.sound.unused k, listed))
  where
    listed : 0 < count k s.unused_ids
    listed = rw e (ground arith)

pub spawn-Counts : (r : Replies) (s : State) → Inv s → Counts s spawns (uthread_spawn r s)
unfolding uthread_spawn mask
spawn-Counts r s v = spawn_as-Counts r s s.unused_ids refl v

block_thread-Counts :
    (r : Replies) (s : State) (i : ℕ) (th : Thread)
    → s.threads i ≡ some th
    → Counts s (blocks (pos i)) (block_thread r (mask s) i (some th))
unfolding block_thread block_directly mask unmask leave
block_thread-Counts r s i th e = elim (Bool-cases (s.current_thread == i)) [
  | inl here ↦ rw here (
      switch-Counts r block_switch s (unmask (block_directly (mask s) i th)) (blocks (pos i)) refl
        (λ j. ground (arith, e)))
  | inr away ↦ rw away (
      guarded-Counts th.blocked_directly s (blocks (pos i)) _ _ (refl, λ j. refl)
        (refl, λ j. ground (arith, e)))
]

pub block-Counts :
    (r : Replies) (s : State) (i : ℕ)
    → Inv s
    → i < max_thread_num
    → Counts s (blocks (pos i)) (uthread_block r s (pos i))
unfolding mask unmask
block-Counts r s i v h =
    block_cases (Counts s (blocks (pos i))) r s i v h (refl, λ j. refl)
      (λ th e p. block_thread-Counts r s i th e)

resume_thread-Counts :
    (s : State) (i : ℕ) (th : Thread)
    → s.threads i ≡ some th
    → Counts s (resumes (pos i)) (resume_thread (mask s) i (some th))
unfolding resume_thread mask unmask
resume_thread-Counts s i th e =
    guarded-Counts th.blocked_directly s (resumes (pos i)) _ _ (refl, λ j. ground (arith, e))
      (refl, λ j. refl)

pub resume-Counts :
    (r : Replies) (s : State) (i : ℕ)
    → Inv s
    → i < max_thread_num
    → Counts s (resumes (pos i)) (uthread_resume s (pos i))
unfolding mask unmask
resume-Counts r s i v h =
    resume_cases (Counts s (resumes (pos i))) r s i v h (refl, λ j. refl) (refl, λ j. refl)
      (λ th e p n. resume_thread-Counts s i th e)

sync_with-Counts :
    (r : Replies) (s : State) (i : ℕ) (me th : Thread)
    → s.threads s.current_thread ≡ some me
    → s.threads i ≡ some th
    → i ≢ s.current_thread
    → Counts s (syncs (pos i)) (sync_with r (mark_synced (mask s) me) i (some th))
unfolding sync_with mark_synced mask unmask leave
sync_with-Counts r s i me th mine e other =
    switch-Counts r block_switch s _ (syncs (pos i)) refl (λ j. ground (arith, e, mine, other))

pub sync-Counts :
    (r : Replies) (s : State) (i : ℕ)
    → Inv s
    → i < max_thread_num
    → Counts s (syncs (pos i)) (uthread_sync r s (pos i))
unfolding mask unmask
sync-Counts r s i v h =
    sync_cases (Counts s (syncs (pos i))) r s i v h (refl, λ j. refl)
      (λ me th. sync_with-Counts r s i me th)

module _ (r : Replies) (s t : State) (i : ℕ) (th : Thread) (v : Inv s) (e : s.threads i ≡ some th)
    (f : Released th.sync_dependencies (retired (mask s) i) t) where
  gone_counter : (j : ℕ) → quantums_of (update t.threads i none j) ≡ kept s (terminates (pos i)) j
  unfolding mask
  gone_counter j = ground (arith, f.freed j)

  terminate_last-Counts : Counts s (terminates (pos i)) (terminate_last r i (some t))
  unfolding terminate_last mask unmask leave
  terminate_last-Counts = elim (Bool-cases (t.current_thread == i)) [
    | inl here ↦ simp here (
        switch-Counts r terminate_switch s (unmask t) (terminates (pos i)) f.same_total
          (λ j. let c : t.current_thread ≡ i = ground arith in simp c (gone_counter j)))
    | inr away ↦ simp away (f.same_total, gone_counter)
  ]

pub terminate-Counts :
    (r : Replies) (s : State) (i : ℕ)
    → Inv s
    → i < max_thread_num
    → Counts s (terminates (pos i)) (uthread_terminate r s (pos i))
unfolding mask
terminate-Counts r s i v h =
    terminate_cases (Counts s (terminates (pos i))) r s i v h (λ e. (refl, λ j. ground (arith, e)))
      tt (λ th t e nz run f. terminate_last-Counts r s t i th v e f)
