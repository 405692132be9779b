-- ===== src/Uthreads/Terminate.antt =====
-- ex2/uthreads.cpp: `uthread_terminate` keeps the invariant, unless the thread waits for another.
use os.Common.{
  ℕ, ◌<◌, ◌≡◌, ◌≢◌, sym, ◌∙◌, true, false, ◌&&◌, not, none, some, ◌==◌, update, count, erase_all,
  count-erase_all, arith, pos, inl, inr, Bool-cases,
}
use mathlib.Core.Path.{subst}
use os.Uthreads.Ids.{max_thread_num, is_valid, remove_id, count-set_insert, set_insert-Ascends}
use os.Uthreads.Machine.{Thread, State, Replies, int_max, terminate_switch, switch_threads}
use os.Uthreads.Calls.{mask, uthread_terminate, terminate_id, terminate_thread, terminate_last}
use os.Uthreads.Invariant.{
  is_synced, deps_of, Sound, Inv, Keeps, Inv-masked, Sound-masked, Sound-cast,
}
use os.Uthreads.Switch.{terminate-Keeps}
use os.Uthreads.Dispatch.{nobody}
use os.Uthreads.Blocking.{alive, thread_at_lem}
use os.Uthreads.Release.{Released, Releasable, release_all_lem}

-- The state before the loop.
abbrev pub retired : State → ℕ → State
retired s i = record s { unused_ids = remove_id s.unused_ids i; ready = erase_all i s.ready }

pub releasable :
    (s : State) (i : ℕ) (th : Thread)
    → Inv s
    → s.threads i ≡ some th
    → Releasable th.sync_dependencies (retired s i)
releasable s i th v e d = ground (arith, v.sound.waiting i d, v.sound.bounded d)

module _ (s t : State) (i : ℕ) (th : Thread) (v : Inv s) (e : s.threads i ≡ some th) (nz : 0 < i)
    (free : th.sync_blocked ≡ false) (f : Released th.sync_dependencies (retired s i) t) where
  abbrev gone : State
  gone = record t { threads = update t.threads i none }

  member : (d : ℕ) → count d (deps_of (s.threads i)) ≡ count d th.sync_dependencies
  member d = ground arith

  gone-Sound : Sound (λ j. (j == s.current_thread) && not (j == i)) gone
  unfolding remove_id
  gone-Sound = record {
    main_unblocked = ground (arith, v.sound.main_unblocked, f.freed 0);
    scheduled = λ j. ground (
      arith,
      v.sound.scheduled j,
      f.queued j,
      f.freed j,
      count-erase_all j i s.ready,
      v.sound.waiting i j,
      v.running,
    );
    unused = λ j. ground (
      arith,
      v.sound.unused j,
      v.sound.unused i,
      v.sound.bounded i,
      count-set_insert j i s.unused_ids,
      f.same_ids,
      f.freed j,
    );
    ascends = rw f.same_ids (set_insert-Ascends 0 i s.unused_ids nz v.sound.ascends);
    bounded = λ j h. ground (arith, v.sound.bounded j h, f.freed j);
    saved = λ j h. ground (arith, v.sound.saved j, f.freed j, f.same_env j);
    charged = λ j. ground (arith, v.sound.charged j, f.freed j, f.same_total);
    waiting = λ a d. ground (
      arith,
      v.sound.waiting a d,
      f.freed a,
      f.freed d,
      v.sound.apart i a d,
      v.sound.waiting a i,
    );
    apart = λ a b d n. ground (arith, v.sound.apart a b d n, f.freed a, f.freed b);
    awaited = λ d h.
        let (w, p) = v.sound.awaited d (ground (arith, f.freed d)) in
        (w, ground (arith, p, f.freed w, f.freed d, member d));
  }

  gone_other : i ≢ s.current_thread → Inv gone
  gone_other away = record {
    sound =
        Sound-cast _ (λ j. j == t.current_thread) gone (λ j. ground (arith, f.same_current))
          gone-Sound;
    running = ground (
      arith,
      v.running,
      f.freed s.current_thread,
      f.same_current,
      away,
      v.sound.waiting i s.current_thread,
    );
  }

  gone_self : i ≡ s.current_thread → Sound nobody gone
  gone_self here = Sound-cast _ nobody gone (λ j. ground arith) gone-Sound

module _ (r : Replies) (s t : State) (i : ℕ) (th : Thread) (v : Inv s) (e : s.threads i ≡ some th)
    (nz : 0 < i) (free : th.sync_blocked ≡ false)
    (f : Released th.sync_dependencies (retired s i) t) (below : s.total_quantums < int_max) where
  terminate_self :
      i ≡ s.current_thread → Keeps (switch_threads r terminate_switch (record t { masked = false }))
  terminate_self here =
      terminate-Keeps r (record t { masked = false })
        (subst (λ k. Sound nobody (record t { masked = false; threads = update t.threads k none }))
          (here ∙ sym f.same_current)
          (Sound-masked nobody (gone s t i th v e nz free f) false
            (gone_self s t i th v e nz free f here)))
        (ground (arith, f.same_total))

  terminate_last-Keeps : Keeps (terminate_last r i (some t))
  unfolding terminate_last
  terminate_last-Keeps = elim (Bool-cases (t.current_thread == i)) [
    | inl here ↦ simp here (terminate_self (ground (arith, f.same_current)))
    | inr away ↦ simp away (
        Inv-masked (gone s t i th v e nz free f) false
          (gone_other s t i th v e nz free f (ground (arith, f.same_current))))
  ]

terminate_thread-Keeps :
    (r : Replies) (s : State) (i : ℕ) (th : Thread)
    → Inv s
    → s.threads i ≡ some th
    → 0 < i
    → th.sync_blocked ≡ false
    → s.total_quantums < int_max
    → Keeps (terminate_thread r s i (some th))
unfolding terminate_thread
terminate_thread-Keeps r s i th v e nz free below =
    let (t, run, f) = release_all_lem th.sync_dependencies (retired s i) (releasable s i th v e) in
    rw run (terminate_last-Keeps r s t i th v e nz free f below)

-- `uthread_terminate` keeps the invariant for every identifier in range, live or not, of a thread
-- that does not wait for another.
pub uthread_terminate-Keeps :
    (r : Replies) (s : State) (tid : ℕ)
    → Inv s
    → tid < max_thread_num
    → is_synced (s.threads tid) ≡ false
    → s.total_quantums < int_max
    → Keeps (uthread_terminate r s (pos tid))
unfolding uthread_terminate terminate_id
uthread_terminate-Keeps r s i v h free below =
    elim (Bool-cases (is_valid s.unused_ids (pos i) == 0)) [
      | inl bad ↦ rw bad (Inv-masked s true v)
      | inr good ↦ let (th, e) = alive s i v h good in rw good (live th e)
    ]
  where
    live : (th : Thread) → s.threads i ≡ some th → Keeps (terminate_id r (mask s) (pos i))
    live th e = elim (Bool-cases (i == 0)) [
      | inl main ↦ simp main tt
      | inr other ↦ simp other (
          rw (thread_at_lem (mask s) i h e) (
            terminate_thread-Keeps r (mask s) i th (Inv-masked s true v) e (ground arith)
              (ground arith) below))
    ]
