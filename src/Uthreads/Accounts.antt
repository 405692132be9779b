-- ===== src/Uthreads/Accounts.antt =====
-- ex2/uthreads.cpp: what each event does to the counters of quantums.
pub mod Calls
pub mod Conserved
use os.Common.{
  ℕ, ◌+◌, ◌≡◌, refl, sym, ap, ◌∙◌, Bool, true, false, ◌==◌, if◌then◌else◌, arith, ℤ, pos, negsuc,
  Bool-cases, inl, inr, eq_of_==, ne_of_==,
}
use os.Uthreads.Machine.{
  State, Replies, Outcome, returned, switched, exited, undefined, Reason, leave, switch_threads,
  sigvtalrm,
}
use os.Uthreads.Invariant.{quantums_of}
use os.Uthreads.Run.{Event, spawns, tick, terminates, blocks, resumes, syncs}
use os.Uthreads.Switch.{stored}
use os.Uthreads.Schedule.{Charged, switch_charges}
use os.Uthreads.Lifecycle.{Dispatches}
use os.Uthreads.Lifecycle.Dispatching.{switch-Dispatches}

-- The counter of thread `i`.
abbrev pub counter : State → ℕ → ℕ
counter s i = quantums_of (s.threads i)

-- The event ends thread `i`.
abbrev pub ends : Event → ℕ → Bool
ends (terminates (pos j)) i = i == j
ends (terminates (negsuc j)) i = false
ends spawns i = false
ends tick i = false
ends (blocks tid) i = false
ends (resumes tid) i = false
ends (syncs tid) i = false

-- What an event leaves of a counter before a switch.
abbrev pub kept : State → Event → ℕ → ℕ
kept s e i = if ends e i then 0 else counter s i

-- A call that returns changes no other counter; a switch adds one quantum to the total and one to the counter of
-- the thread that goes on.
abbrev pub Counts : State → Event → Outcome → Type 0
Counts s e (returned v t) =
    (t.total_quantums ≡ s.total_quantums) × ((i : ℕ) → counter t i ≡ kept s e i)
Counts s e (switched t) =
    (t.total_quantums ≡ s.total_quantums + 1)
    × ((i : ℕ) → counter t i ≡ kept s e i + (if i == t.current_thread then 1 else 0))
Counts s e (exited code) = Unit {0}
Counts s e undefined = Unit {0}

module _ (r : Replies) (reason : Reason) (s x : State) (e : Event)
    (same : (leave reason x).total_quantums ≡ s.total_quantums)
    (before : (i : ℕ) → counter (leave reason x) i ≡ kept s e i) where
  Charged-Counts : (t : State) → Charged (leave reason x) t → Counts s e (switched t)
  Charged-Counts t c = (ground (arith, c.total, same), λ i. one i)
    where
      one : (i : ℕ) → counter t i ≡ kept s e i + (if i == t.current_thread then 1 else 0)
      one i = elim (Bool-cases (i == t.current_thread)) [
        | inl q ↦
            let k : i ≡ t.current_thread = eq_of_== i t.current_thread q in
            rw q (omega (arith, ap (counter t) k, c.own, ap (counter (leave reason x)) k, before i))
        | inr q ↦
            rw q
              (omega (arith, ap quantums_of (c.others i (ne_of_== i t.current_thread q)), before i))
      ]

  ended-Counts :
      (o : Outcome)
      → switch_threads r reason x ≡ o
      → Dispatches (leave reason (stored x)) o
      → Counts s e o
  ended-Counts (returned v t) h d = absurd d
  ended-Counts (switched t) h d = Charged-Counts t (switch_charges r reason x t h)
  ended-Counts (exited code) h d = tt
  ended-Counts undefined h d = tt

  pub switch-Counts : Counts s e (switch_threads r reason x)
  switch-Counts = ended-Counts (switch_threads r reason x) refl (switch-Dispatches r reason x)

pub guarded-Counts :
    (b : Bool) (s : State) (e : Event) (x o : Outcome)
    → Counts s e x
    → Counts s e o
    → Counts s e (if b then x else o)
guarded-Counts true s e x o k m = k
guarded-Counts false s e x o k m = m

pub tick-Counts : (r : Replies) (s : State) → Counts s tick (switch_threads r sigvtalrm s)
unfolding leave
tick-Counts r s = switch-Counts r sigvtalrm s s tick refl (λ i. refl)
