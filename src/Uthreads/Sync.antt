-- ===== src/Uthreads/Sync.antt =====
-- ex2/uthreads.cpp: `uthread_sync` keeps the invariant.
use os.Common.{
  ℕ, ◌<◌, ◌≡◌, ◌≢◌, true, false, ◌||◌, some, [], ◌∷◌, ◌++◌, ◌==◌, update, count, count-snoc, arith,
  ℤ, pos, negsuc, inl, inr, Bool-cases, Option-cases,
}
use os.Uthreads.Ids.{max_thread_num, is_valid}
use os.Uthreads.Machine.{Thread, State, Replies, int_max}
use os.Uthreads.Calls.{mask}
use os.Uthreads.Calls.Waiting.{uthread_sync, sync_id, sync_with, mark_synced}
use os.Uthreads.Invariant.{is_synced, deps_of, Sound, Inv, Keeps, Inv-masked, Sound-masked}
use os.Uthreads.Switch.{on_cpu, block-Keeps}
use os.Uthreads.Blocking.{InRange, alive, thread_at_lem, with_thread_lem}

-- The running thread, marked, stands in the queue of thread `i`.
module _ (s : State) (i : ℕ) (me th : Thread) (v : Inv s)
    (mine : s.threads s.current_thread ≡ some me) (e : s.threads i ≡ some th)
    (other : i ≢ s.current_thread) (nz : 0 < s.current_thread) where
  abbrev synced : State
  synced = record s {
    threads =
        update (update s.threads s.current_thread (some (record me { sync_blocked = true }))) i
          (some (record th { sync_dependencies = th.sync_dependencies ++ s.current_thread ∷ [] }));
  }

  waits :
      (d : ℕ)
      → is_synced (synced.threads d) ≡ true
      → (t : ℕ) × (0 < count d (deps_of (synced.threads t)))
  waits d h = elim (Bool-cases (d == s.current_thread)) [
    | inl now ↦ (i, ground (arith, count-snoc d s.current_thread th.sync_dependencies))
    | inr before ↦
        let (w, p) = v.sound.awaited d (ground arith) in
        (w, ground (arith, p, count-snoc d s.current_thread th.sync_dependencies))
  ]

  synced-Sound : Sound (on_cpu s) synced
  synced-Sound = record {
    main_unblocked = ground (arith, v.sound.main_unblocked);
    scheduled = λ j. ground (arith, v.sound.scheduled j);
    unused = λ j. ground (arith, v.sound.unused j);
    ascends = v.sound.ascends;
    bounded = λ j h. ground (arith, v.sound.bounded j h);
    saved = λ j h. ground (arith, v.sound.saved j);
    charged = λ j. ground (arith, v.sound.charged j);
    waiting = λ t d.
        ground (
          arith,
          v.sound.waiting t d,
          v.running,
          count-snoc d s.current_thread th.sync_dependencies,
        );
    apart = λ t u d n. ground (
      arith,
      v.sound.apart t u d n,
      v.sound.waiting t d,
      v.sound.waiting u d,
      v.running,
      count-snoc d s.current_thread th.sync_dependencies,
    );
    awaited = λ d h. waits d h;
  }

sync_with-Keeps :
    (r : Replies) (s : State) (i : ℕ) (me th : Thread)
    → Inv s
    → s.threads s.current_thread ≡ some me
    → s.threads i ≡ some th
    → i ≢ s.current_thread
    → 0 < s.current_thread
    → s.total_quantums < int_max
    → Keeps (sync_with r (mark_synced s me) i (some th))
unfolding sync_with mark_synced
sync_with-Keeps r s i me th v mine e other nz below =
    block-Keeps r (record (synced s i me th v mine e other nz) { masked = false })
      (Sound-masked (on_cpu s) _ false (synced-Sound s i me th v mine e other nz)) (ground arith)
      below

pub current_lt : (s : State) → Inv s → s.current_thread < max_thread_num
current_lt s v = ground (arith, v.running, v.sound.bounded s.current_thread)

pub current_thread_at : (s : State) → Inv s → (me : Thread) × (s.threads s.current_thread ≡ some me)
current_thread_at s v = elim (Option-cases (s.threads s.current_thread)) [
  | inl missing ↦ absurd (ground (arith, v.running))
  | inr found ↦ found
]

sync_id-Keeps :
    (r : Replies) (s : State) (i : ℕ) (th : Thread)
    → Inv s
    → i < max_thread_num
    → s.threads i ≡ some th
    → i ≢ s.current_thread
    → 0 < s.current_thread
    → s.total_quantums < int_max
    → Keeps (sync_id r s (pos i))
unfolding sync_id mark_synced
sync_id-Keeps r s i th v h e other nz below =
    let (me, mine) = current_thread_at s v in
    rw (with_thread_lem s s.current_thread (mark_synced s) (current_lt s v) mine) (
      rw (thread_at_lem (mark_synced s me) i h (marked me))
        (sync_with-Keeps r s i me th v mine e other nz below))
  where
    marked : (me : Thread) → (mark_synced s me).threads i ≡ some th
    marked me = ground (arith, e)

-- `uthread_sync` keeps the invariant for every identifier in range, live or not.
pub uthread_sync-Keeps :
    (r : Replies) (s : State) (tid : ℤ)
    → Inv s
    → InRange tid
    → s.total_quantums < int_max
    → Keeps (uthread_sync r s tid)
unfolding uthread_sync
uthread_sync-Keeps r s (negsuc n) v h below = elim h [ ]
uthread_sync-Keeps r s (pos i) v h below =
    elim (Bool-cases (
      (is_valid s.unused_ids (pos i) == 0) || (s.current_thread == 0) || (i == s.current_thread))) [
        | inl bad ↦ rw bad (Inv-masked s false v)
        | inr good ↦
            let (th, e) = alive s i v h (ground (arith, good)) in
            rw good (
              sync_id-Keeps r (mask s) i th (Inv-masked s true v) h e (ground arith) (ground arith)
                below)
      ]
