-- ===== src/Uthreads/Lifecycle/Dispatching.antt =====
-- ex2/uthreads.cpp, `switch_threads`: who runs next, and that the switch changes no other thread's state.
use os.Common.{
  ℕ, ◌≡◌, refl, Bool, true, false, ◌||◌, Option, none, some, List, [], ◌∷◌, ◌++◌, ◌==◌,
  if◌then◌else◌, ap, ◌∙◌, arith, leb,
}
use os.Uthreads.Machine.{
  Thread, Saved, unset, entry, in_switch, State, Replies, Outcome, returned, switched, exited,
  undefined, run_front, run_thread, resume, charge, leave, switch_threads, sigvtalrm, thread_at,
  switcher, Reason, int_max,
}
use os.Uthreads.Run.{Event, tick}
use os.Uthreads.Switch.{stored}
use os.Uthreads.Lifecycle.{
  Phase, absent, running, ready, blocked, status, phase_of, phase, first, Moves, Lives, Dispatched,
  Dispatches,
}

guarded-Dispatches :
    (b : Bool) (u : State) (x o : Outcome)
    → Dispatches u x
    → Dispatches u o
    → Dispatches u (if b then x else o)
guarded-Dispatches true u x o k m = k
guarded-Dispatches false u x o k m = m

resume-Dispatches :
    (r : Replies) (u s : State) (c : Saved) → Dispatched u s → Dispatches u (resume r s c)
unfolding resume
resume-Dispatches r u s unset d = tt
resume-Dispatches r u s entry d = record { from_front = d.from_front; same_status = d.same_status }
resume-Dispatches r u s in_switch d =
    guarded-Dispatches (r.wake_action_fails || r.wake_timer_fails) u (exited 1)
      (switched (record s { handler = switcher; masked = false })) tt
      (record { from_front = d.from_front; same_status = d.same_status })

charge-Dispatched :
    (r : Replies) (u s : State) (t : ℕ) (th : Thread)
    → s.threads t ≡ some th
    → s.current_thread ≡ t
    → first u.ready ≡ some t
    → ((i : ℕ) → s.threads i ≡ u.threads i)
    → Dispatched u (charge r s t th)
unfolding charge
charge-Dispatched r u s t th e c f same = record {
  from_front = rw c f;
  same_status = λ i. ground (arith, e, same i);
}

found : (s : State) (t : ℕ) (th : Thread) → thread_at s t ≡ some th → s.threads t ≡ some th
unfolding thread_at
found s t th e = ground (arith, e)

run_thread-Dispatches :
    (r : Replies) (u s : State) (t : ℕ) (o : Option Thread)
    → thread_at u t ≡ o
    → s.current_thread ≡ t
    → first u.ready ≡ some t
    → ((i : ℕ) → s.threads i ≡ u.threads i)
    → Dispatches u (run_thread r s t o)
unfolding run_thread
run_thread-Dispatches r u s t none e c f same = tt
run_thread-Dispatches r u s t (some th) e c f same =
    guarded-Dispatches (leb int_max th.quantums || leb int_max s.total_quantums) u undefined
      (if r.timer_fails then exited 1 else resume r (charge r s t th) (s.env t)) tt
      (guarded-Dispatches r.timer_fails u (exited 1) (resume r (charge r s t th) (s.env t)) tt (
        resume-Dispatches r u (charge r s t th) (s.env t)
          (charge-Dispatched r u s t th (same t ∙ found u t th e) c f same)))

run_front-Dispatches :
    (r : Replies) (s : State) (l : List ℕ) → s.ready ≡ l → Dispatches s (run_front r s l)
unfolding run_front
run_front-Dispatches r s [] e = tt
run_front-Dispatches r s (t ∷ rest) e =
    run_thread-Dispatches r s (record s { current_thread = t; ready = rest }) t (thread_at s t) refl
      refl (ap first e) (λ i. refl)

-- Whoever runs next is at the front of the queue that the leaving thread has left.
pub switch-Dispatches :
    (r : Replies) (reason : Reason) (s : State)
    → Dispatches (leave reason (stored s)) (switch_threads r reason s)
unfolding switch_threads
switch-Dispatches r reason s =
    let u = leave reason (stored s) in
    guarded-Dispatches r.ignore_fails u (exited 1) (run_front r u u.ready) tt
      (run_front-Dispatches r u u.ready refl)

-- From what the switch does, what it does to each thread.
pub Dispatches-Lives :
    (s u : State) (e : Event) (o : Outcome)
    → Dispatches u o
    → ((i n : ℕ)
        → first u.ready ≡ some n
        → Moves s e i (phase s i) (phase_of (i == n) (status (u.threads i))))
    → Lives s e o
Dispatches-Lives s u e (returned v t) d m = absurd d
Dispatches-Lives s u e (switched t) d m =
    λ i. rw (d.same_status i) (m i t.current_thread d.from_front)
Dispatches-Lives s u e (exited code) d m = tt
Dispatches-Lives s u e undefined d m = tt

pub guarded-Lives :
    (b : Bool) (s : State) (e : Event) (x o : Outcome)
    → Lives s e x
    → Lives s e o
    → Lives s e (if b then x else o)
guarded-Lives true s e x o k m = k
guarded-Lives false s e x o k m = m

-- Where no thread's status changes, and the same one runs on.
pub same-Moves : (s : State) (e : Event) (i : ℕ) → Moves s e i (phase s i) (phase s i)
same-Moves s e i = stays (phase s i)
  where
    stays : (p : Phase) → Moves s e i p p
    stays absent = tt
    stays running = tt
    stays ready = tt
    stays blocked = tt

-- The timer signal.
pub tick-Lives : (r : Replies) (s : State) → Lives s tick (switch_threads r sigvtalrm s)
unfolding leave
tick-Lives r s =
    Dispatches-Lives s (leave sigvtalrm (stored s)) tick (switch_threads r sigvtalrm s)
      (switch-Dispatches r sigvtalrm s) (λ i n f. tick_move i n (status (s.threads i)) f)
  where
    tick_move :
        (i n : ℕ) (o : Option Bool)
        → first (s.ready ++ s.current_thread ∷ []) ≡ some n
        → Moves s tick i (phase_of (i == s.current_thread) o) (phase_of (i == n) o)
    tick_move i n o f = ground (arith, f)
