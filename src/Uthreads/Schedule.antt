-- ===== src/Uthreads/Schedule.antt =====
-- ex2/uthreads.cpp: the accounts of quantums, and the turns of the ready queue.
use mathlib.Core.List.{append_assoc}
use os.Common.{
  ℕ, zero, suc, ◌+◌, ◌<◌, ◌≡◌, ◌≢◌, refl, sym, ap, ◌∙◌, ◌⊎◌, inl, inr, Bool, true, false, Option,
  none, some, List, [], ◌∷◌, ◌++◌, if◌then◌else◌, arith, length, Option-cases,
}
use os.Uthreads.Machine.{
  Thread, State, Replies, Outcome, returned, switched, exited, undefined, Reason, sigvtalrm,
  terminate_switch, block_switch, int_max, switch_threads, run_front, run_thread, leave, thread_at,
  resume, charge, Saved, unset, entry, in_switch,
}
use os.Uthreads.Invariant.{Inv, quantums_of}
use os.Uthreads.Switch.{preempt-Keeps, stored}

-- `t` follows `s`, in which nobody has the processor: the front of the queue runs.
pub record Charged (s t : State) : Type 0 where
  pub front : s.ready ≡ t.current_thread ∷ t.ready
  pub total : t.total_quantums ≡ s.total_quantums + 1
  pub own : quantums_of (t.threads t.current_thread) ≡ quantums_of (s.threads t.current_thread) + 1
  pub others : (k : ℕ) → k ≢ t.current_thread → t.threads k ≡ s.threads k
  pub unmasked : t.masked ≡ false
  pub same_ids : t.unused_ids ≡ s.unused_ids

run_thread-Charged :
    (r : Replies) (s t : State) (i : ℕ) (rest : List ℕ) (o : Option Thread)
    → s.ready ≡ i ∷ rest
    → s.threads i ≡ o
    → run_thread r (record s { current_thread = i; ready = rest }) i o ≡ switched t
    → Charged s t
unfolding run_thread
run_thread-Charged r s t i rest none e f h = cc
run_thread-Charged r s t i rest (some th) e f h = record {
  front = ground (arith, e);
  total = ground arith;
  own = ground (arith, f);
  others = λ k n. ground arith;
  unmasked = ground arith;
  same_ids = ground arith;
}

threads-of_thread_at :
    (s : State) (i : ℕ) {th : Thread} → thread_at s i ≡ some th → s.threads i ≡ some th
unfolding thread_at
threads-of_thread_at s i h = ground arith

run_front-Charged :
    (r : Replies) (s t : State) (l : List ℕ)
    → s.ready ≡ l
    → run_front r s l ≡ switched t
    → Charged s t
unfolding run_front
run_front-Charged r s t [] e h = cc
run_front-Charged r s t (i ∷ rest) e h = elim (Option-cases (thread_at s i)) [
  | inl missing ↦ absurd (unfold run_thread in ground (arith, missing))
  | inr (th, found) ↦
      run_thread-Charged r s t i rest (some th) e (threads-of_thread_at s i found) (rw found at h)
]

-- Every successful switch starts the thread at the front of the ready queue, as the queue is once
-- the leaving thread is dealt with: the total and that thread's count grow by one, no other thread
-- changes, and the timer signal is not blocked.
pub switch_charges :
    (r : Replies) (reason : Reason) (s t : State)
    → switch_threads r reason s ≡ switched t
    → Charged (leave reason s) t
unfolding switch_threads
switch_charges r reason s t h =
    restored reason (run_front-Charged r (leave reason (stored s)) t _ refl (ground arith))
  where
    restored : (q : Reason) → Charged (leave q (stored s)) t → Charged (leave q s) t
    restored sigvtalrm c = record {
      front = c.front;
      total = c.total;
      own = c.own;
      others = c.others;
      unmasked = c.unmasked;
      same_ids = c.same_ids;
    }
    restored terminate_switch c = record {
      front = c.front;
      total = c.total;
      own = c.own;
      others = c.others;
      unmasked = c.unmasked;
      same_ids = c.same_ids;
    }
    restored block_switch c = record {
      front = c.front;
      total = c.total;
      own = c.own;
      others = c.others;
      unmasked = c.unmasked;
      same_ids = c.same_ids;
    }

-- All system calls succeed.
abbrev pub quiet : Replies
quiet = record {
  ignore_fails = false;
  restore_fails = false;
  timer_fails = false;
  wake_action_fails = false;
  wake_timer_fails = false;
  alloc_fails = false;
}

abbrev pub FaultsOrSwitches : Outcome → Type 0
FaultsOrSwitches o = (o ≡ undefined) ⊎ ((t : State) × (o ≡ switched t))

guarded-FaultsOrSwitches :
    (b : Bool) (o : Outcome) → FaultsOrSwitches o → FaultsOrSwitches (if b then undefined else o)
guarded-FaultsOrSwitches true o h = inl refl
guarded-FaultsOrSwitches false o h = h

resume-FaultsOrSwitches : (s : State) (e : Saved) → FaultsOrSwitches (resume quiet s e)
unfolding resume
resume-FaultsOrSwitches s unset = inl refl
resume-FaultsOrSwitches s entry = inr (_, refl)
resume-FaultsOrSwitches s in_switch = inr (_, refl)

run_thread-FaultsOrSwitches :
    (s : State) (i : ℕ) (o : Option Thread) → FaultsOrSwitches (run_thread quiet s i o)
unfolding run_thread
run_thread-FaultsOrSwitches s i none = inl refl
run_thread-FaultsOrSwitches s i (some th) =
    guarded-FaultsOrSwitches _ _ (resume-FaultsOrSwitches (charge quiet s i th) (s.env i))

run_front-FaultsOrSwitches : (s : State) (l : List ℕ) → FaultsOrSwitches (run_front quiet s l)
unfolding run_front
run_front-FaultsOrSwitches s [] = inl refl
run_front-FaultsOrSwitches s (i ∷ rest) =
    run_thread-FaultsOrSwitches (record s { current_thread = i; ready = rest }) i (thread_at s i)

pub tick-FaultsOrSwitches : (s : State) → FaultsOrSwitches (switch_threads quiet sigvtalrm s)
unfolding switch_threads leave
tick-FaultsOrSwitches s =
    run_front-FaultsOrSwitches (leave sigvtalrm (stored s)) (s.ready ++ s.current_thread ∷ [])

-- With no failing system call a signal always finds a thread to run.
tick_runs :
    (s : State)
    → Inv s
    → s.total_quantums < int_max
    → (t : State) × (switch_threads quiet sigvtalrm s ≡ switched t) × Inv t
tick_runs s v below = elim (tick-FaultsOrSwitches s) [
  | inl fault ↦ absurd (rw fault at (preempt-Keeps quiet s v below))
  | inr (t, go) ↦ (t, go, rw go at (preempt-Keeps quiet s v below))
]

-- A signal in each state that comes about.
pub ticks : ℕ → State → Outcome
ticks zero s = switched s
ticks (suc n) s = elim (switch_threads quiet sigvtalrm s) [
  | switched t ↦ ticks n t
  | returned w t ↦ returned w t
  | exited code ↦ exited code
  | undefined ↦ undefined
]

ticks-suc :
    (n : ℕ) (s t : State)
    → switch_threads quiet sigvtalrm s ≡ switched t
    → ticks (suc n) s ≡ ticks n t
unfolding ticks
ticks-suc n s t h = rw (h, ticks)

-- `t` runs thread `i`, with this ready queue behind it, `n` quantums after `s`.
pub record Turn (s : State) (i : ℕ) (queue : List ℕ) (n : ℕ) (t : State) : Type 0 where
  pub runs : t.current_thread ≡ i
  pub queue_behind : t.ready ≡ queue
  pub quantums_passed : t.total_quantums ≡ s.total_quantums + n

tick-Turn :
    (s t : State) (i : ℕ) (after : List ℕ)
    → switch_threads quiet sigvtalrm s ≡ switched t
    → s.ready ≡ i ∷ after
    → Turn s i (after ++ s.current_thread ∷ []) 1 t
tick-Turn s t i after h e =
    let c = switch_charges quiet sigvtalrm s t h in
    let front : (i ∷ after) ++ s.current_thread ∷ [] ≡ t.current_thread ∷ t.ready =
      ap (λ l. l ++ s.current_thread ∷ []) (sym e) ∙ (unfold leave in c.front) in
    record { runs = cc front; queue_behind = cc front; quantums_passed = unfold leave in c.total }

Turn-tick :
    (s t u : State) (x i c n : ℕ) (after before rest : List ℕ)
    → Turn s x rest 1 t
    → Turn t i ((after ++ c ∷ []) ++ t.current_thread ∷ before) (suc n) u
    → Turn s i (after ++ c ∷ x ∷ before) (suc (suc n)) u
Turn-tick s t u x i c n after before rest a b = record {
  runs = b.runs;
  queue_behind =
      b.queue_behind
      ∙ append_assoc after (c ∷ []) (t.current_thread ∷ before)
      ∙ ap (λ k. after ++ c ∷ k ∷ before) a.runs;
  quantums_passed = omega (arith, a.quantums_passed, b.quantums_passed);
}

-- If no call fails and the total of quantums stays below the largest `int`, the queue is served in order: a thread with `n` threads before it runs after `n + 1` signals, and
-- then the thread that ran first, and after it those that were before it, stand behind all others.
pub round_robin :
    (before : List ℕ) (s : State) (i : ℕ) (after : List ℕ)
    → Inv s
    → s.total_quantums + length before < int_max
    → s.ready ≡ before ++ i ∷ after
    → (t : State) × (ticks (suc (length before)) s ≡ switched t)
      × Turn s i (after ++ s.current_thread ∷ before) (suc (length before)) t
round_robin [] s i after v below e =
    let (t, go, w) = tick_runs s v (omega arith) in
    (t, ticks-suc 0 s t go ∙ (unfold ticks in refl), tick-Turn s t i after go e)
round_robin (x ∷ before) s i after v below e =
    let (t, go, w) = tick_runs s v (omega arith) in
    let turn = tick-Turn s t x (before ++ i ∷ after) go e in
    let (u, run, last) =
      round_robin before t i (after ++ s.current_thread ∷ []) w
        (omega (arith, turn.quantums_passed))
        (turn.queue_behind ∙ append_assoc before (i ∷ after) (s.current_thread ∷ [])) in
    (
      u,
      ticks-suc (suc (length before)) s t go ∙ run,
      Turn-tick s t u x i s.current_thread (length before) after before _ turn last,
    )
