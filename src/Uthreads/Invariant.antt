-- ===== src/Uthreads/Invariant.antt =====
-- ex2/uthreads.cpp: what holds of the library's variables whenever a thread runs its own code.
use os.Common.{
  ℕ, ◌+◌, ◌≤◌, ◌<◌, ◌≡◌, ◌≢◌, Bool, true, false, ◌&&◌, ◌||◌, not, Option, none, some, List, [], ltb,
  ◌==◌, if◌then◌else◌, is_some, count, Ascends, arith,
}
use os.Uthreads.Ids.{max_thread_num}
use os.Uthreads.Machine.{
  Thread, Saved, unset, entry, in_switch, State, Outcome, returned, switched, exited, undefined,
}

abbrev pub is_unblocked : Option Thread → Bool
is_unblocked none = false
is_unblocked (some th) = not th.blocked_directly && not th.sync_blocked

abbrev pub is_synced : Option Thread → Bool
is_synced none = false
is_synced (some th) = th.sync_blocked

abbrev pub deps_of : Option Thread → List ℕ
deps_of none = []
deps_of (some th) = th.sync_dependencies

abbrev pub quantums_of : Option Thread → ℕ
quantums_of none = 0
quantums_of (some th) = th.quantums

abbrev pub is_set : Saved → Bool
is_set unset = false
is_set entry = true
is_set in_switch = true

abbrev pub is_free : State → ℕ → Bool
is_free s i = ltb 0 i && ltb i max_thread_num && not (is_some (s.threads i))

-- `held i` says that thread `i` has the processor.
pub record Sound (held : ℕ → Bool) (s : State) : Type 0 where
  pub main_unblocked : is_unblocked (s.threads 0) ≡ true
  -- The ready queue holds each unblocked thread once, but not the one that runs.
  pub scheduled :
      (i : ℕ) → count i s.ready ≡ (if is_unblocked (s.threads i) && not (held i) then 1 else 0)
  -- The free identifiers are those of no thread, but for 0.
  pub unused : (i : ℕ) → count i s.unused_ids ≡ (if is_free s i then 1 else 0)
  pub ascends : Ascends 0 s.unused_ids
  pub bounded : (i : ℕ) → max_thread_num ≤ i → is_some (s.threads i) ≡ false
  -- A thread that does not run has a stored context.
  pub saved : (i : ℕ) → is_some (s.threads i) ≡ true → (held i || is_set (s.env i)) ≡ true
  pub charged : (i : ℕ) → quantums_of (s.threads i) ≤ s.total_quantums
  -- Who waits in a thread's queue is a live thread blocked by `uthread_sync`, there once, and in no
  -- other queue; and each such thread waits in some queue.
  pub waiting :
      (t d : ℕ) → count d (deps_of (s.threads t)) ≤ (if is_synced (s.threads d) then 1 else 0)
  pub apart :
      (t u d : ℕ) → t ≢ u → count d (deps_of (s.threads t)) + count d (deps_of (s.threads u)) ≤ 1
  pub awaited :
      (d : ℕ) → is_synced (s.threads d) ≡ true → (t : ℕ) × (0 < count d (deps_of (s.threads t)))

pub record Inv (s : State) : Type 0 where
  pub sound : Sound (λ i. i == s.current_thread) s
  pub running : is_unblocked (s.threads s.current_thread) ≡ true

-- No undefined behaviour, and the invariant wherever a thread goes on.
abbrev pub Keeps : Outcome → Type 0
Keeps (returned v s) = Inv s
Keeps (switched s) = Inv s
Keeps (exited code) = Unit
Keeps undefined = ⊥

-- `held` may be given in another form.
pub Sound-cast :
    (held other : ℕ → Bool) (s : State)
    → ((i : ℕ) → held i ≡ other i)
    → Sound held s
    → Sound other s
Sound-cast held other s e v = record {
  main_unblocked = v.main_unblocked;
  scheduled = λ i. ground (arith, v.scheduled i, e i);
  unused = v.unused;
  ascends = v.ascends;
  bounded = v.bounded;
  saved = λ i h. ground (arith, v.saved i h, e i);
  charged = v.charged;
  waiting = v.waiting;
  apart = v.apart;
  awaited = v.awaited;
}

-- The signal mask is no part of it.
pub Sound-masked :
    (held : ℕ → Bool) (s : State) (b : Bool) → Sound held s → Sound held (record s { masked = b })
Sound-masked held s b v = record {
  main_unblocked = v.main_unblocked;
  scheduled = v.scheduled;
  unused = v.unused;
  ascends = v.ascends;
  bounded = v.bounded;
  saved = v.saved;
  charged = v.charged;
  waiting = v.waiting;
  apart = v.apart;
  awaited = v.awaited;
}

pub Inv-masked : (s : State) (b : Bool) → Inv s → Inv (record s { masked = b })
Inv-masked s b v = record {
  sound = Sound-masked (λ i. i == s.current_thread) s b v.sound;
  running = v.running;
}
