-- ===== src/Uthreads/Lifecycle/Single.antt =====
-- ex2/uthreads.cpp: what `uthread_spawn`, `uthread_block` and `uthread_resume` do to the threads' states.
use os.Common.{
  ℕ, ◌<◌, ◌≡◌, ◌≢◌, refl, some, List, [], ◌∷◌, ◌==◌, inl, inr, count, arith, pos, Bool-cases,
}
use os.Uthreads.Ids.{generate_id}
use os.Uthreads.Machine.{Thread, State, Replies, exited, leave, switch_threads, block_switch}
use os.Uthreads.Invariant.{Inv}
use os.Uthreads.Run.{spawns, blocks, resumes}
use os.Uthreads.Switch.{stored}
use os.Uthreads.Lifecycle.{Lives}
use os.Uthreads.Calls.{
  mask, unmask, new_thread, uthread_spawn, spawn_as, uthread_block, block_thread, block_directly,
  uthread_resume, resume_thread,
}
use os.Uthreads.Ids.{max_thread_num}
use os.Uthreads.Outcomes.{block_cases, resume_cases}
use os.Uthreads.Lifecycle.Dispatching.{
  switch-Dispatches, Dispatches-Lives, guarded-Lives, same-Moves,
}

spawn_as-Lives :
    (r : Replies) (s : State) (ids : List ℕ)
    → s.unused_ids ≡ ids
    → Inv s
    → Lives s spawns (spawn_as r (mask s) (generate_id ids))
unfolding spawn_as generate_id mask unmask new_thread
spawn_as-Lives r s [] e v = same-Moves s spawns
spawn_as-Lives r s (k ∷ ids) e v =
    guarded-Lives r.alloc_fails s spawns (exited 1) _ tt
      (λ i. ground (arith, v.sound.unused k, listed, v.running))
  where
    listed : 0 < count k s.unused_ids
    listed = rw e (ground arith)

pub spawn-Lives : (r : Replies) (s : State) → Inv s → Lives s spawns (uthread_spawn r s)
unfolding uthread_spawn mask
spawn-Lives r s v = spawn_as-Lives r s s.unused_ids refl v

block_thread-Lives :
    (r : Replies) (s : State) (i : ℕ) (th : Thread)
    → Inv s
    → s.threads i ≡ some th
    → 0 < i
    → Lives s (blocks (pos i)) (block_thread r (mask s) i (some th))
unfolding block_thread block_directly mask unmask leave
block_thread-Lives r s i th v e nz = elim (Bool-cases (s.current_thread == i)) [
  | inl here ↦ rw here (
      let x : State = unmask (block_directly (mask s) i th) in
      Dispatches-Lives s (leave block_switch (stored x)) (blocks (pos i))
        (switch_threads r block_switch x) (switch-Dispatches r block_switch x)
        (λ j n f. ground (arith, f, e, v.running)))
  | inr away ↦ rw away (
      guarded-Lives th.blocked_directly s (blocks (pos i)) _ _ (same-Moves s (blocks (pos i)))
        (λ j. ground (arith, e)))
]

pub block-Lives :
    (r : Replies) (s : State) (i : ℕ)
    → Inv s
    → i < max_thread_num
    → Lives s (blocks (pos i)) (uthread_block r s (pos i))
unfolding mask unmask
block-Lives r s i v h =
    block_cases (Lives s (blocks (pos i))) r s i v h (same-Moves s (blocks (pos i)))
      (λ th e. block_thread-Lives r s i th v e)

resume_thread-Lives :
    (s : State) (i : ℕ) (th : Thread)
    → s.threads i ≡ some th
    → i ≢ s.current_thread
    → Lives s (resumes (pos i)) (resume_thread (mask s) i (some th))
unfolding resume_thread mask unmask
resume_thread-Lives s i th e away = elim (Bool-cases th.blocked_directly) [
  | inl b ↦ simp b (λ j. ground (arith, e))
  | inr b ↦ simp b (same-Moves s (resumes (pos i)))
]

pub resume-Lives :
    (r : Replies) (s : State) (i : ℕ)
    → Inv s
    → i < max_thread_num
    → Lives s (resumes (pos i)) (uthread_resume s (pos i))
unfolding mask unmask
resume-Lives r s i v h =
    resume_cases (Lives s (resumes (pos i))) r s i v h (same-Moves s (resumes (pos i)))
      (same-Moves s (resumes (pos i))) (λ th e p. resume_thread-Lives s i th e)
