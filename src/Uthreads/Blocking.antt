-- ===== src/Uthreads/Blocking.antt =====
-- ex2/uthreads.cpp: `uthread_block` and `uthread_resume` keep the invariant.
use os.Common.{
  ℕ, ◌<◌, ◌≡◌, ◌≢◌, true, false, ◌||◌, Option, some, [], ◌∷◌, ◌++◌, ◌==◌, if◌then◌else◌, update,
  count-snoc, erase_all, count-erase_all, arith, ℤ, pos, negsuc, inl, inr, Bool-cases, Option-cases,
}
use os.Uthreads.Ids.{max_thread_num, is_valid}
use os.Uthreads.Machine.{Thread, State, Replies, thread_at, int_max}
use os.Uthreads.Calls.{
  mask, unmask, uthread_block, block_thread, block_directly, uthread_resume, resume_id,
  resume_thread, with_thread,
}
use os.Uthreads.Invariant.{Sound, Inv, Keeps, Inv-masked, Sound-masked}
use os.Uthreads.Switch.{on_cpu, block-Keeps}

-- The identifiers for which the array has a place.
abbrev pub InRange : ℤ → Type 0
InRange (pos i) = i < max_thread_num
InRange (negsuc n) = ⊥

-- An identifier in range that passes the test of validity belongs to a live thread.
pub alive :
    (s : State) (i : ℕ)
    → Inv s
    → i < max_thread_num
    → (is_valid s.unused_ids (pos i) == 0) ≡ false
    → (th : Thread) × (s.threads i ≡ some th)
unfolding is_valid
alive s i v h e = elim (Option-cases (s.threads i)) [
  | inl missing ↦ absurd (ground (arith, v.sound.unused i, v.sound.main_unblocked))
  | inr found ↦ found
]

pub thread_at_lem :
    (s : State) (i : ℕ) {o : Option Thread}
    → i < max_thread_num
    → s.threads i ≡ o
    → thread_at s i ≡ o
unfolding thread_at
thread_at_lem s i h e = ground arith

pub with_thread_lem :
    (s : State) (i : ℕ) {th : Thread} (f : Thread → State)
    → i < max_thread_num
    → s.threads i ≡ some th
    → with_thread s i f ≡ some (f th)
unfolding with_thread
with_thread_lem s i f h e = ground (arith, thread_at_lem s i h e)

module _ (s : State) (i : ℕ) (th : Thread) (v : Inv s) (e : s.threads i ≡ some th)
    (nz : 0 < i) where
  blocked_here : i ≡ s.current_thread → Sound (on_cpu s) (block_directly s i th)
  unfolding block_directly
  blocked_here c = record {
    main_unblocked = ground (arith, v.sound.main_unblocked);
    scheduled = λ j. ground (arith, v.sound.scheduled j);
    unused = λ j. ground (arith, v.sound.unused j);
    ascends = v.sound.ascends;
    bounded = λ j h. ground (arith, v.sound.bounded j h);
    saved = λ j h. ground (arith, v.sound.saved j);
    charged = λ j. ground (arith, v.sound.charged j);
    waiting = λ t d. ground (arith, v.sound.waiting t d);
    apart = λ t u d n. ground (arith, v.sound.apart t u d n);
    awaited = λ d h. let (w, p) = v.sound.awaited d (ground arith) in (w, ground (arith, p));
  }

  blocked_other :
      i ≢ s.current_thread → Inv (record (block_directly s i th) { ready = erase_all i s.ready })
  unfolding block_directly
  blocked_other c = record {
    sound = record {
      main_unblocked = ground (arith, v.sound.main_unblocked);
      scheduled = λ j. ground (arith, v.sound.scheduled j, count-erase_all j i s.ready);
      unused = λ j. ground (arith, v.sound.unused j);
      ascends = v.sound.ascends;
      bounded = λ j h. ground (arith, v.sound.bounded j h);
      saved = λ j h. ground (arith, v.sound.saved j);
      charged = λ j. ground (arith, v.sound.charged j);
      waiting = λ t d. ground (arith, v.sound.waiting t d);
      apart = λ t u d n. ground (arith, v.sound.apart t u d n);
      awaited = λ d h. let (w, p) = v.sound.awaited d (ground arith) in (w, ground (arith, p));
    };
    running = ground (arith, v.running);
  }

  resumed_other :
      i ≢ s.current_thread
      → th.blocked_directly ≡ true
      → Inv (record s {
        threads = update s.threads i (some (record th { blocked_directly = false }));
        ready = if th.sync_blocked then s.ready else s.ready ++ i ∷ [];
      })
  resumed_other c b = record {
    sound = record {
      main_unblocked = ground (arith, v.sound.main_unblocked);
      scheduled = λ j. ground (arith, v.sound.scheduled j, count-snoc j i s.ready);
      unused = λ j. ground (arith, v.sound.unused j);
      ascends = v.sound.ascends;
      bounded = λ j h. ground (arith, v.sound.bounded j h);
      saved = λ j h. ground (arith, v.sound.saved j);
      charged = λ j. ground (arith, v.sound.charged j);
      waiting = λ t d. ground (arith, v.sound.waiting t d);
      apart = λ t u d n. ground (arith, v.sound.apart t u d n);
      awaited = λ d h. let (w, p) = v.sound.awaited d (ground arith) in (w, ground (arith, p));
    };
    running = ground (arith, v.running);
  }

block_thread-Keeps :
    (r : Replies) (s : State) (i : ℕ) (th : Thread)
    → Inv s
    → s.threads i ≡ some th
    → 0 < i
    → s.total_quantums < int_max
    → Keeps (block_thread r s i (some th))
unfolding block_thread block_directly
block_thread-Keeps r s i th v e nz below = elim (Bool-cases (s.current_thread == i)) [
  | inl here ↦ rw here (
      block-Keeps r (unmask (block_directly s i th))
        (Sound-masked (on_cpu s) _ false (blocked_here s i th v e nz (ground arith))) (ground arith)
        below)
  | inr away ↦
      rw away (ground (arith, v, Inv-masked _ false (blocked_other s i th v e nz (ground arith))))
]

-- `uthread_block` keeps the invariant for every identifier in range, live or not.
pub uthread_block-Keeps :
    (r : Replies) (s : State) (tid : ℤ)
    → Inv s
    → InRange tid
    → s.total_quantums < int_max
    → Keeps (uthread_block r s tid)
unfolding uthread_block
uthread_block-Keeps r s (negsuc n) v h below = elim h [ ]
uthread_block-Keeps r s (pos i) v h below =
    elim (Bool-cases ((is_valid s.unused_ids (pos i) == 0) || (i == 0))) [
      | inl bad ↦ rw bad (Inv-masked s false v)
      | inr good ↦
          let (th, e) = alive s i v h (ground (arith, good)) in
          rw good (
            rw (thread_at_lem (mask s) i h e)
              (block_thread-Keeps r (mask s) i th (Inv-masked s true v) e (ground arith) below))
    ]

resume_thread-Keeps :
    (s : State) (i : ℕ) (th : Thread)
    → Inv s
    → s.threads i ≡ some th
    → 0 < i
    → i ≢ s.current_thread
    → Keeps (resume_thread s i (some th))
unfolding resume_thread
resume_thread-Keeps s i th v e nz away = elim (Bool-cases th.blocked_directly) [
  | inl b ↦ simp b (Inv-masked _ false (resumed_other s i th v e nz away b))
  | inr b ↦ simp b (Inv-masked s false v)
]

pub uthread_resume-Keeps :
    (s : State) (tid : ℤ) → Inv s → InRange tid → Keeps (uthread_resume s tid)
unfolding uthread_resume
uthread_resume-Keeps s (negsuc n) v h = elim h [ ]
uthread_resume-Keeps s (pos i) v h = elim (Bool-cases (is_valid s.unused_ids (pos i) == 0)) [
  | inl bad ↦ rw bad (Inv-masked s true v)
  | inr good ↦ let (th, e) = alive s i v h good in rw good (resume-Keeps th e)
]
  where
    resume-Keeps : (th : Thread) → s.threads i ≡ some th → Keeps (resume_id (mask s) (pos i))
    resume-Keeps th e = elim (Bool-cases ((i == 0) || (i == s.current_thread))) [
      | inl idle ↦ rw idle (Inv-masked s false v)
      | inr away ↦ rw away (
          rw (thread_at_lem (mask s) i h e) (
            resume_thread-Keeps (mask s) i th (Inv-masked s true v) e (ground arith)
              (ground arith)))
    ]
