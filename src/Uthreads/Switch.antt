-- ===== src/Uthreads/Switch.antt =====
-- ex2/uthreads.cpp, `switch_threads` as a whole, for each of its three reasons.
use os.Common.{
  ℕ, ◌<◌, ◌≡◌, refl, Bool, true, false, none, ◌==◌, update, count-snoc, arith, if◌then◌else◌,
}
use os.Uthreads.Machine.{
  State, Replies, Outcome, exited, int_max, switch_threads, leave, Reason, sigvtalrm, block_switch,
  terminate_switch, ignored, in_switch,
}
use os.Uthreads.Invariant.{is_unblocked, Sound, Inv, Keeps}
use os.Uthreads.Dispatch.{nobody, run_front-Keeps}

abbrev pub stored : State → State
stored s = record s { handler = ignored; env = update s.env s.current_thread in_switch }

abbrev pub on_cpu : State → ℕ → Bool
on_cpu s i = i == s.current_thread

preempted-Sound : (s : State) → Inv s → Sound nobody (leave sigvtalrm (stored s))
unfolding leave
preempted-Sound s v = record {
  main_unblocked = v.sound.main_unblocked;
  scheduled =
      λ i. ground (arith, v.sound.scheduled i, count-snoc i s.current_thread s.ready, v.running);
  unused = v.sound.unused;
  ascends = v.sound.ascends;
  bounded = v.sound.bounded;
  saved = λ i h. ground (arith, v.sound.saved i h);
  charged = v.sound.charged;
  waiting = v.sound.waiting;
  apart = v.sound.apart;
  awaited = v.sound.awaited;
}

blocked-Sound :
    (s : State)
    → Sound (on_cpu s) s
    → is_unblocked (s.threads s.current_thread) ≡ false
    → Sound nobody (leave block_switch (stored s))
unfolding leave
blocked-Sound s v b = record {
  main_unblocked = v.main_unblocked;
  scheduled = λ i. ground (arith, v.scheduled i);
  unused = v.unused;
  ascends = v.ascends;
  bounded = v.bounded;
  saved = λ i h. ground (arith, v.saved i h);
  charged = v.charged;
  waiting = v.waiting;
  apart = v.apart;
  awaited = v.awaited;
}

guarded-Keeps : (b : Bool) (o : Outcome) → Keeps o → Keeps (if b then exited 1 else o)
guarded-Keeps true o k = tt
guarded-Keeps false o k = k

-- Once the thread that leaves is accounted for, the switch succeeds.
switch-Keeps :
    (r : Replies) (reason : Reason) (s : State)
    → Sound nobody (leave reason (stored s))
    → (leave reason (stored s)).total_quantums < int_max
    → Keeps (switch_threads r reason s)
unfolding switch_threads
switch-Keeps r reason s v below =
    guarded-Keeps r.ignore_fails _ (run_front-Keeps r (leave reason (stored s)) _ refl v below)

-- The timer may interrupt any thread.
pub preempt-Keeps :
    (r : Replies) (s : State)
    → Inv s
    → s.total_quantums < int_max
    → Keeps (switch_threads r sigvtalrm s)
unfolding leave
preempt-Keeps r s v below = switch-Keeps r sigvtalrm s (preempted-Sound s v) below

pub block-Keeps :
    (r : Replies) (s : State)
    → Sound (on_cpu s) s
    → is_unblocked (s.threads s.current_thread) ≡ false
    → s.total_quantums < int_max
    → Keeps (switch_threads r block_switch s)
unfolding leave
block-Keeps r s v b below = switch-Keeps r block_switch s (blocked-Sound s v b) below

pub terminate-Keeps :
    (r : Replies) (s : State)
    → Sound nobody (record s { threads = update s.threads s.current_thread none })
    → s.total_quantums < int_max
    → Keeps (switch_threads r terminate_switch s)
unfolding leave
terminate-Keeps r s v below = switch-Keeps r terminate_switch s gone below
  where
    gone : Sound nobody (leave terminate_switch (stored s))
    gone = record {
      main_unblocked = v.main_unblocked;
      scheduled = v.scheduled;
      unused = v.unused;
      ascends = v.ascends;
      bounded = v.bounded;
      saved = λ i h. ground (arith, v.saved i h);
      charged = v.charged;
      waiting = v.waiting;
      apart = v.apart;
      awaited = v.awaited;
    }
