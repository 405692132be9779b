-- ===== src/Uthreads/Run.antt =====
-- ex2/uthreads.cpp as a transition system: any sequence of calls by the running thread and of timer
-- signals. A signal comes between two calls, as it finds the thread in its own code.
use os.Common.{ℕ, ◌<◌, ◌≡◌, false, ℤ, pos, negsuc}
use os.Uthreads.Machine.{
  State, Replies, Outcome, returned, switched, int_max, sigvtalrm, switch_threads, switcher,
}
use os.Uthreads.Calls.{
  uthread_init, uthread_spawn, uthread_terminate, uthread_block, uthread_resume,
}
use os.Uthreads.Calls.Waiting.{uthread_sync}
use os.Uthreads.Invariant.{is_synced, Inv, Keeps}
use os.Uthreads.Switch.{preempt-Keeps}
use os.Uthreads.Spawn.{uthread_init-Keeps, uthread_spawn-Keeps}
use os.Uthreads.Blocking.{InRange, uthread_block-Keeps, uthread_resume-Keeps}
use os.Uthreads.Sync.{uthread_sync-Keeps}
use os.Uthreads.Terminate.{uthread_terminate-Keeps}

pub data Event : Type 0 where
  spawns tick : Event
  terminates blocks resumes syncs : ℤ → Event

unfoldable pub perform : Replies → State → Event → Outcome
perform r s spawns = uthread_spawn r s
perform r s tick = switch_threads r sigvtalrm s
perform r s (terminates tid) = uthread_terminate r s tid
perform r s (blocks tid) = uthread_block r s tid
perform r s (resumes tid) = uthread_resume s tid
perform r s (syncs tid) = uthread_sync r s tid

-- Identifiers are in range; the signal arrives only if it is neither blocked nor ignored; and no
-- thread is terminated while it waits for another.
abbrev pub Admitted : State → Event → Type 0
Admitted s spawns = Unit {0}
Admitted s tick = (s.masked ≡ false) × (s.handler ≡ switcher)
Admitted s (terminates (negsuc n)) = ⊥
Admitted s (terminates (pos i)) = InRange (pos i) × (is_synced (s.threads i) ≡ false)
Admitted s (blocks tid) = InRange tid
Admitted s (resumes tid) = InRange tid
Admitted s (syncs tid) = InRange tid

-- While the total of quantums is below the largest `int`, no admitted event in a state of the invariant reads
-- outside the array, follows a null pointer, takes from an empty queue or lets a counter overflow, and each one that
-- lets a thread go on keeps the invariant. The threads' stacks are left out: that a thread which ends itself frees
-- the stack that it runs on does not count.
pub perform-Keeps :
    (r : Replies) (s : State) (e : Event)
    → Inv s
    → Admitted s e
    → s.total_quantums < int_max
    → Keeps (perform r s e)
unfolding perform
perform-Keeps r s spawns v a below = uthread_spawn-Keeps r s v
perform-Keeps r s tick v a below = preempt-Keeps r s v below
perform-Keeps r s (terminates (negsuc n)) v a below = elim a [ ]
perform-Keeps r s (terminates (pos i)) v a below = uthread_terminate-Keeps r s i v a.0 a.1 below
perform-Keeps r s (blocks tid) v a below = uthread_block-Keeps r s tid v a below
perform-Keeps r s (resumes tid) v a below = uthread_resume-Keeps s tid v a
perform-Keeps r s (syncs tid) v a below = uthread_sync-Keeps r s tid v a below

-- The state in which a thread goes on.
pub data Continues : Outcome → State → Type 0 where
  returns : {v : ℤ} {t : State} → Continues (returned v t) t
  switches : {t : State} → Continues (switched t) t

pub data Reach : State → Type 0 where
  inits : {s : State} (r : Replies) (q : ℕ) → 0 < q → Continues (uthread_init r (pos q)) s → Reach s
  next :
      {s t : State} (r : Replies) (e : Event)
      → Reach s
      → Admitted s e
      → s.total_quantums < int_max
      → Continues (perform r s e) t
      → Reach t

Keeps-Continues : {o : Outcome} {t : State} → Continues o t → Keeps o → Inv t
Keeps-Continues returns k = k
Keeps-Continues switches k = k

-- The invariant holds in every state that admitted events reach from a successful `uthread_init`.
pub Reach-Inv : {s : State} → Reach s → Inv s
Reach-Inv (inits r q h c) = Keeps-Continues c (uthread_init-Keeps r q h)
Reach-Inv (next {s = s} r e before a below c) =
    Keeps-Continues c (perform-Keeps r s e (Reach-Inv before) a below)
