-- ===== src/Uthreads/Lifecycle.antt =====
-- ex2/uthreads.h: the states of a thread, and the moves between them that the library's events may make.
pub mod Dispatching
pub mod Single
pub mod Several
pub mod Complete
use os.Common.{
  ℕ, ◌<◌, ◌≡◌, ◌≢◌, refl, Bool, true, false, ◌||◌, Option, none, some, List, [], ◌∷◌, ◌++◌, ◌==◌,
  if◌then◌else◌, ◌⊎◌, inl, inr, count, arith, ℤ, pos, negsuc,
}
use os.Uthreads.Machine.{
  Thread, Saved, State, Replies, Outcome, returned, switched, exited, undefined, run_front,
  run_thread, resume, charge, leave, switch_threads, sigvtalrm, thread_at, Reason,
}
use os.Uthreads.Invariant.{deps_of, Inv}
use os.Uthreads.Run.{Event, spawns, tick, terminates, blocks, resumes, syncs}

pub data Phase : Type 0 where
  absent running ready blocked : Phase

-- Whether there is a thread, and whether it is blocked.
abbrev pub status : Option Thread → Option Bool
status none = none
status (some th) = some (th.blocked_directly || th.sync_blocked)

abbrev pub phase_of : Bool → Option Bool → Phase
phase_of here none = absent
phase_of here (some true) = blocked
phase_of here (some false) = if here then running else ready

-- The state of thread `i`.
abbrev pub phase : State → ℕ → Phase
phase s i = phase_of (i == s.current_thread) (status (s.threads i))

abbrev pub first : List ℕ → Option ℕ
first [] = none
first (x ∷ xs) = some x

-- The events after which the running thread does not go on.
abbrev pub GivesUp : State → Event → Type 0
GivesUp s spawns = ⊥
GivesUp s tick = Unit {0}
GivesUp s (terminates tid) = tid ≡ pos s.current_thread
GivesUp s (blocks tid) = tid ≡ pos s.current_thread
GivesUp s (resumes tid) = ⊥
GivesUp s (syncs tid) = Unit {0}

-- The events that block the running thread, if that is `i`.
abbrev pub Suspends : Event → ℕ → Type 0
Suspends spawns i = ⊥
Suspends tick i = ⊥
Suspends (terminates tid) i = ⊥
Suspends (blocks tid) i = tid ≡ pos i
Suspends (resumes tid) i = ⊥
Suspends (syncs tid) i = Unit {0}

-- The events that may make the blocked thread `i` ready: it is resumed, or a thread ends for which it
-- waits.
abbrev pub Wakes : State → Event → ℕ → Type 0
Wakes s spawns i = ⊥
Wakes s tick i = ⊥
Wakes s (terminates (pos j)) i = 0 < count i (deps_of (s.threads j))
Wakes s (terminates (negsuc j)) i = ⊥
Wakes s (blocks tid) i = ⊥
Wakes s (resumes tid) i = tid ≡ pos i
Wakes s (syncs tid) i = ⊥

-- The moves that an event in a state may make a thread do.
abbrev pub Moves : State → Event → ℕ → Phase → Phase → Type 0
Moves s e i absent absent = Unit {0}
Moves s e i absent running = ⊥
Moves s e i absent ready = e ≡ spawns
Moves s e i absent blocked = ⊥
Moves s e i running absent = e ≡ terminates (pos i)
Moves s e i running running = Unit {0}
Moves s e i running ready = e ≡ tick
Moves s e i running blocked = Suspends e i
Moves s e i ready absent = e ≡ terminates (pos i)
Moves s e i ready running = GivesUp s e × (first s.ready ≡ some i)
Moves s e i ready ready = Unit {0}
Moves s e i ready blocked = e ≡ blocks (pos i)
Moves s e i blocked absent = e ≡ terminates (pos i)
Moves s e i blocked running = ⊥
Moves s e i blocked ready = Wakes s e i
Moves s e i blocked blocked = Unit {0}

-- Every thread does such a move.
abbrev pub Lives : State → Event → Outcome → Type 0
Lives s e (returned v t) = (i : ℕ) → Moves s e i (phase s i) (phase t i)
Lives s e (switched t) = (i : ℕ) → Moves s e i (phase s i) (phase t i)
Lives s e (exited code) = Unit {0}
Lives s e undefined = Unit {0}

-- The front of the queue has taken the processor, and nobody's status has changed.
pub record Dispatched (u t : State) : Type 0 where
  pub from_front : first u.ready ≡ some t.current_thread
  pub same_status : (i : ℕ) → status (t.threads i) ≡ status (u.threads i)

abbrev pub Dispatches : State → Outcome → Type 0
Dispatches u (returned v t) = ⊥
Dispatches u (switched t) = Dispatched u t
Dispatches u (exited code) = Unit {0}
Dispatches u undefined = Unit {0}
