-- ===== src/Uthreads/Spawn.antt =====
-- ex2/uthreads.cpp, `uthread_init` and `uthread_spawn`.
use os.Common.{
  ℕ, ◌+◌, ◌<◌, ◌≡◌, refl, true, false, some, List, [], ◌∷◌, ◌++◌, ◌==◌, if◌then◌else◌, update,
  count, count-snoc, Ascends, arith, pos, Ascends-mono,
}
use mathlib.Core.Path.{subst}
use os.Uthreads.Ids.{new_ids-Ascends, count-new_ids, generate_id}
use os.Uthreads.Machine.{State, Replies, entry}
use os.Uthreads.Calls.{new_thread, first_state, uthread_init, spawn_as, uthread_spawn, mask}
use os.Uthreads.Invariant.{is_free, Inv, Keeps, Inv-masked}

pub first_state-Inv : (q : ℕ) → Inv (first_state q)
unfolding first_state
first_state-Inv q = record {
  sound = record {
    main_unblocked = refl;
    scheduled = λ i. ground arith;
    unused = λ i. ground (arith, count-new_ids i);
    ascends = new_ids-Ascends;
    bounded = λ i h. ground arith;
    saved = λ i h. ground arith;
    charged = λ i. ground arith;
    waiting = λ t d. ground arith;
    apart = λ t u d n. ground arith;
    awaited = λ d h. absurd (ground arith);
  };
  running = refl;
}

-- Initialisation establishes the invariant.
pub uthread_init-Keeps : (r : Replies) (q : ℕ) → 0 < q → Keeps (uthread_init r (pos q))
unfolding uthread_init
uthread_init-Keeps r q h = ground (arith, first_state-Inv q)

module _ (s : State) (i : ℕ) (ids : List ℕ) (v : Inv s) (e : s.unused_ids ≡ i ∷ ids) where
  count-ids : (j : ℕ) → count j s.unused_ids ≡ (if j == i then 1 else 0) + count j ids
  count-ids j = cc e

  fresh : is_free s i ≡ true
  fresh = ground (arith, v.sound.unused i, count-ids i)

  ids-Ascends : Ascends 0 (i ∷ ids)
  ids-Ascends = subst (Ascends 0) e v.sound.ascends

  abbrev spawned : State
  spawned = record s {
    threads = update s.threads i (some new_thread);
    env = update s.env i entry;
    unused_ids = ids;
    ready = s.ready ++ i ∷ [];
  }

  spawned-Inv : Inv spawned
  unfolding new_thread
  spawned-Inv = record {
    sound = record {
      main_unblocked = ground (arith, v.sound.main_unblocked);
      scheduled =
          λ j. ground (arith, v.sound.scheduled j, count-snoc j i s.ready, fresh, v.running);
      unused = λ j. ground (arith, v.sound.unused j, count-ids j, fresh);
      ascends = Ascends-mono 0 i ids (ground arith) ids-Ascends.1;
      bounded = λ j h. ground (arith, v.sound.bounded j h, fresh);
      saved = λ j h. ground (arith, v.sound.saved j);
      charged = λ j. ground (arith, v.sound.charged j);
      waiting = λ t d. ground (arith, v.sound.waiting t d, fresh, v.sound.waiting t i);
      apart = λ t u d n. ground (arith, v.sound.apart t u d n);
      awaited =
          λ d h. let (w, p) = v.sound.awaited d (ground arith) in (w, ground (arith, p, fresh));
    };
    running = ground (arith, v.running, fresh);
  }

spawn-Keeps :
    (r : Replies) (s : State) (ids : List ℕ)
    → s.unused_ids ≡ ids
    → Inv s
    → Keeps (spawn_as r s (generate_id ids))
unfolding spawn_as generate_id
spawn-Keeps r s [] e v = Inv-masked s false v
spawn-Keeps r s (i ∷ ids) e v =
    ground (arith, Inv-masked (spawned s i ids v e) false (spawned-Inv s i ids v e))

pub uthread_spawn-Keeps : (r : Replies) (s : State) → Inv s → Keeps (uthread_spawn r s)
unfolding uthread_spawn
uthread_spawn-Keeps r s v = spawn-Keeps r (mask s) s.unused_ids refl (Inv-masked s true v)
