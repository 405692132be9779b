-- ===== src/Uthreads/Lifecycle/Complete.antt =====
-- ex2/uthreads.cpp: every event of the library makes only the moves of ex2/uthreads.h.
use os.Common.{ℕ, ◌<◌, ◌≡◌, ◌↔◌, count, arith, pos, negsuc}
use os.Uthreads.Machine.{State, Replies, Outcome}
use os.Uthreads.Invariant.{Inv}
use os.Uthreads.Run.{Event, spawns, tick, terminates, blocks, resumes, syncs, Admitted}
use os.Uthreads.Lifecycle.{running, ready, phase, Moves, Lives}
use os.Uthreads.Run.{perform, Reach, Continues, returns, switches, Reach-Inv}
use os.Uthreads.Lifecycle.Dispatching.{tick-Lives}
use os.Uthreads.Lifecycle.Single.{spawn-Lives, block-Lives, resume-Lives}
use os.Uthreads.Lifecycle.Several.{sync-Lives, terminate-Lives}

perform-Lives :
    (r : Replies) (s : State) (e : Event) → Inv s → Admitted s e → Lives s e (perform r s e)
unfolding perform
perform-Lives r s spawns v a = spawn-Lives r s v
perform-Lives r s tick v a = tick-Lives r s
perform-Lives r s (terminates (negsuc n)) v a = elim a [ ]
perform-Lives r s (terminates (pos i)) v a = terminate-Lives r s i v a.0
perform-Lives r s (blocks (negsuc n)) v a = elim a [ ]
perform-Lives r s (blocks (pos i)) v a = block-Lives r s i v a
perform-Lives r s (resumes (negsuc n)) v a = elim a [ ]
perform-Lives r s (resumes (pos i)) v a = resume-Lives r s i v a
perform-Lives r s (syncs (negsuc n)) v a = elim a [ ]
perform-Lives r s (syncs (pos i)) v a = sync-Lives r s i v a

Lives-Continues :
    (s : State) (e : Event) {t : State} {o : Outcome}
    → Continues o t
    → Lives s e o
    → (i : ℕ) → Moves s e i (phase s i) (phase t i)
Lives-Continues s e returns l = l
Lives-Continues s e switches l = l

-- Exactly one thread is running.
one_runs : (s : State) → Inv s → (i : ℕ) → (phase s i ≡ running) ↔ (i ≡ s.current_thread)
one_runs s v i = ground (arith, v.running)

queue_ready : (s : State) → Inv s → (i : ℕ) → (phase s i ≡ ready) ↔ (0 < count i s.ready)
queue_ready s v i = ground (arith, v.sound.scheduled i)

-- In every state that admitted events reach, just the current thread is running, and the ready queue holds just
-- the ready threads; and whichever thread goes on after an admitted event, each thread has made a move
-- that the states of threads allow: it becomes ready when it is spawned, preempted, resumed, or a thread that it waits
-- for ends; it becomes running only from the front of the ready queue, when the running thread gives up
-- the processor; it becomes blocked only by `uthread_block` with its identifier or, if it runs, by `uthread_sync`;
-- and it is gone only by `uthread_terminate` with its identifier.
pub life_cycle :
    {s t : State} (r : Replies) (e : Event)
    → Reach s
    → Admitted s e
    → Continues (perform r s e) t
    → (i : ℕ)
    → ((phase s i ≡ running) ↔ (i ≡ s.current_thread))
      × ((phase s i ≡ ready) ↔ (0 < count i s.ready))
      × Moves s e i (phase s i) (phase t i)
life_cycle {s} {t} r e reach a go i =
    let v = Reach-Inv reach in
    (one_runs s v i, queue_ready s v i, Lives-Continues s e go (perform-Lives r s e v a) i)
