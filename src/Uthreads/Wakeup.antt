-- ===== src/Uthreads/Wakeup.antt =====
-- ex2/uthreads.cpp: which threads a call makes ready to run.
use os.Common.{
  ℕ, ◌≤◌, ◌<◌, ◌≡◌, ◌≢◌, refl, true, false, none, some, List, [], ◌∷◌, ◌++◌, is_some, if◌then◌else◌,
  arith, pos, minus_one, count, update, erase_all, count-erase_all, lt-of_Ascends, Ascends,
}
use mathlib.Core.Path.{subst}
use os.Uthreads.Ids.{max_thread_num, is_valid, generate_id, remove_id, count-set_insert}
use os.Uthreads.Machine.{Thread, State, entry, Replies, returned}
use os.Uthreads.Calls.{
  mask, new_thread, uthread_spawn, spawn_as, uthread_terminate, terminate_id, terminate_thread,
  terminate_last, release_all, uthread_block, block_thread, uthread_resume, resume_thread,
}
use os.Uthreads.Invariant.{Inv, Inv-masked, is_synced, deps_of}
use os.Uthreads.Blocking.{thread_at_lem}
use os.Uthreads.Rejected.{live_valid}
use os.Uthreads.Release.{Released, release_all_lem, is_blocked}
use os.Uthreads.Terminate.{retired, releasable}

-- `t` is `s` with the new thread `i`, at the back of the ready queue.
pub record Spawned (s : State) (i : ℕ) (t : State) : Type 0 where
  pub positive : 0 < i
  pub fresh : s.threads i ≡ none
  pub created : t.threads i ≡ some new_thread
  pub others : (k : ℕ) → k ≢ i → t.threads k ≡ s.threads k
  pub queued : t.ready ≡ s.ready ++ i ∷ []
  pub runs_on : t.current_thread ≡ s.current_thread

abbrev spawned : State → ℕ → List ℕ → State
spawned s i ids = record s {
  threads = update s.threads i (some new_thread);
  env = update s.env i entry;
  unused_ids = ids;
  ready = s.ready ++ i ∷ [];
  masked = false;
}

spawn_first :
    (r : Replies) (s : State) (ids : List ℕ) (j : ℕ)
    → s.unused_ids ≡ ids
    → Inv s
    → r.alloc_fails ≡ false
    → 0 < count j ids
    → (i : ℕ) × (t : State) × (spawn_as r (mask s) (generate_id ids) ≡ returned (pos i) t)
      × Spawned s i t
      × (i ≤ j)
unfolding spawn_as generate_id mask
spawn_first r s [] j e v a h = absurd (omega arith)
spawn_first r s (i ∷ ids) j e v a h =
    (i, spawned s i ids, ground arith, result, ground (arith, lt-of_Ascends i j ids above.1))
  where
    above : Ascends 0 (i ∷ ids)
    above = subst (Ascends 0) e v.sound.ascends

    listed : 0 < count i s.unused_ids
    listed = rw e (ground arith)

    result : Spawned s i (spawned s i ids)
    result = record {
      positive = above.0;
      fresh = ground (arith, v.sound.unused i, listed);
      created = ground arith;
      others = λ k n. ground arith;
      queued = refl;
      runs_on = refl;
    }

spawn_none :
    (r : Replies) (s : State) (ids : List ℕ)
    → ((j : ℕ) → count j ids ≡ 0)
    → spawn_as r (mask s) (generate_id ids) ≡ returned minus_one (record s { masked = false })
unfolding spawn_as generate_id mask
spawn_none r s [] h = refl
spawn_none r s (i ∷ ids) h = absurd (ground (arith, h i))

-- If memory is there: while some identifier `j` is free, `uthread_spawn` returns a free identifier
-- that is at most `j`, and puts a new thread of that identifier at the back of the ready queue. With
-- all identifiers taken it returns -1, and nothing changes but that the timer signal is no longer blocked.
pub uthread_spawn_lem :
    (r : Replies) (s : State)
    → Inv s
    → r.alloc_fails ≡ false
    → ((j : ℕ)
        → 0 < j
        → j < max_thread_num
        → s.threads j ≡ none
        → (i : ℕ) × (t : State) × (uthread_spawn r s ≡ returned (pos i) t)
          × Spawned s i t
          × (i ≤ j))
      × (((j : ℕ) → 0 < j → j < max_thread_num → is_some (s.threads j) ≡ true)
          → uthread_spawn r s ≡ returned minus_one (record s { masked = false }))
unfolding uthread_spawn
uthread_spawn_lem r s v a = (
  λ j p h e. spawn_first r s s.unused_ids j refl v a (ground (arith, v.sound.unused j)),
  λ full. spawn_none r s s.unused_ids (λ j. ground (arith, v.sound.unused j, full j)),
)

abbrev after_block : State → ℕ → Thread → State
after_block s i th = record s {
  threads = update s.threads i (some (record th { blocked_directly = true }));
  ready = erase_all i s.ready;
  masked = false;
}

abbrev after_resume : State → ℕ → Thread → State
after_resume s i th = record s {
  threads =
      update (update s.threads i (some (record th { blocked_directly = true }))) i
        (some (record th { blocked_directly = false }));
  ready = if th.sync_blocked then erase_all i s.ready else erase_all i s.ready ++ i ∷ [];
  masked = false;
}

module _ (r : Replies) (s : State) (i : ℕ) (th : Thread) (v : Inv s) (p : 0 < i)
    (e : s.threads i ≡ some th) (away : i ≢ s.current_thread)
    (unblocked : th.blocked_directly ≡ false) where
  lt_i : i < max_thread_num
  lt_i = ground (arith, v.sound.bounded i)

  block_other : uthread_block r s (pos i) ≡ returned (pos 0) (after_block s i th)
  unfolding uthread_block block_thread mask
  block_other =
      ground (arith, live_valid s i v p (ground (arith, e)), thread_at_lem (mask s) i lt_i e, away)

  resume_other :
      uthread_resume (after_block s i th) (pos i) ≡ returned (pos 0) (after_resume s i th)
  unfolding uthread_resume resume_thread mask is_valid
  resume_other = ground (
    arith,
    live_valid s i v p (ground (arith, e)),
    thread_at_lem (mask (after_block s i th)) i {o = some (record th { blocked_directly = true })}
        lt_i (ground arith),
    away,
  )

  -- A thread that does not run and is not blocked directly is blocked and then resumed: both calls
  -- return 0, between them it is in no ready queue, in the end every thread is as it was, and the
  -- thread is at the back of the ready queue, unless it still waits for another one.
  pub block_then_resume :
      (s1 s2 : State) × (uthread_block r s (pos i) ≡ returned (pos 0) s1)
      × (count i s1.ready ≡ 0)
      × (uthread_resume s1 (pos i) ≡ returned (pos 0) s2)
      × ((k : ℕ) → s2.threads k ≡ s.threads k)
      × (s2.ready ≡ (if th.sync_blocked then s1.ready else s1.ready ++ i ∷ []))
  block_then_resume = (
    after_block s i th,
    after_resume s i th,
    block_other,
    ground (arith, count-erase_all i i s.ready),
    resume_other,
    λ k. ground arith,
    refl,
  )

-- The end of a thread makes ready who waits for it.
module _ (r : Replies) (s : State) (i : ℕ) (th : Thread) (v : Inv s) (p : 0 < i)
    (e : s.threads i ≡ some th) (away : i ≢ s.current_thread) where
  abbrev ended : State → State
  ended u = record u { threads = update u.threads i none; masked = false }

  terminate_other :
      (u : State)
      → release_all th.sync_dependencies (retired (mask s) i) ≡ some u
      → u.current_thread ≡ s.current_thread
      → uthread_terminate r s (pos i) ≡ returned (pos 0) (ended u)
  unfolding uthread_terminate terminate_id terminate_thread terminate_last mask
  terminate_other u run same = ground (
    arith,
    live_valid s i v p (ground (arith, e)),
    thread_at_lem (mask s) i (ground (arith, v.sound.bounded i)) e,
    run,
    away,
  )

  woken :
      (u : State) (d : ℕ)
      → Released th.sync_dependencies (retired (mask s) i) u
      → 0 < count d th.sync_dependencies
      → d ≢ i
      → (is_synced (u.threads d) ≡ false)
        × (count d u.ready ≡ (if is_blocked (s.threads d) then 0 else 1))
  unfolding mask
  woken u d f h n = (
    ground (arith, f.freed d),
    ground (arith, f.queued d, count-erase_all d i s.ready, v.sound.scheduled d, waits),
  )
    where
      waits : is_synced (s.threads d) ≡ true
      waits = ground (arith, v.sound.waiting i d, queue)
        where
          queue : count d (deps_of (s.threads i)) ≡ count d th.sync_dependencies
          queue = ground arith

  -- A running thread terminates another thread: the call returns 0, the thread is gone and its
  -- identifier free, and each other thread `d` that waited for it no longer does, and is in the
  -- ready queue once, unless it is also blocked directly, and then it is not there.
  pub terminate_wakes :
      (u : State) × (uthread_terminate r s (pos i) ≡ returned (pos 0) u)
      × (u.threads i ≡ none)
      × (count i u.unused_ids ≡ 1)
      × ((d : ℕ)
          → 0 < count d th.sync_dependencies
          → d ≢ i
          → (is_synced (u.threads d) ≡ false)
            × (count d u.ready ≡ (if is_blocked (s.threads d) then 0 else 1)))
  unfolding mask remove_id
  terminate_wakes =
      let (t, run, f) =
        release_all_lem th.sync_dependencies (retired (mask s) i)
          (releasable (mask s) i th (Inv-masked s true v) e) in
      (
        ended t,
        terminate_other t run f.same_current,
        ground arith,
        ground (arith, f.same_ids, count-set_insert i i s.unused_ids, v.sound.unused i),
        λ d h n. let (free, queue) = woken t d f h n in (ground (arith, free), queue),
      )
