-- ===== src/Uthreads/Interrupted.antt =====
-- ex2/uthreads.cpp, `uthread_block` by the running thread: it lets the timer signal in again before it
-- calls `switch_threads`. Here the signal comes at that point.
pub mod Ending
use os.Common.{
  ℕ, ◌<◌, ◌≡◌, ◌≢◌, refl, sym, ap, ◌∙◌, ◌⊎◌, inl, inr, true, false, some, List, [], ◌∷◌, ◌++◌,
  count, count-snoc, arith, Option-cases,
}
use os.Uthreads.Ids.{max_thread_num}
use os.Uthreads.Machine.{
  Thread, State, Replies, Outcome, switched, undefined, sigvtalrm, int_max, switch_threads,
  run_front, run_thread, leave, thread_at, resume, Saved, unset, entry, in_switch,
}
use os.Uthreads.Calls.{mask, unmask, block_directly}
use os.Uthreads.Invariant.{Inv, is_unblocked, is_set}
use os.Uthreads.Switch.{stored}
use os.Uthreads.Schedule.{quiet, tick-FaultsOrSwitches, switch_charges}

-- Behind `sigprocmask(SIG_UNBLOCK, ...)` in `uthread_block`, the signal's handler runs.
unfoldable pub block_interrupted : Replies → State → ℕ → Thread → Outcome
block_interrupted r s i th = switch_threads r sigvtalrm (unmask (block_directly (mask s) i th))

env_cases : (e : Saved) → (e ≡ unset) ⊎ (e ≡ entry) ⊎ (e ≡ in_switch)
env_cases unset = inl refl
env_cases entry = inr (inl refl)
env_cases in_switch = inr (inr refl)

-- With a front that has a thread, a context and counters below the largest `int` there is no undefined
-- behaviour.
pub run_front_defined :
    (s : State) (i : ℕ) (rest : List ℕ) (th : Thread)
    → s.threads i ≡ some th
    → i < max_thread_num
    → th.quantums < int_max
    → s.total_quantums < int_max
    → is_set (s.env i) ≡ true
    → run_front quiet s (i ∷ rest) ≢ undefined
unfolding run_front thread_at run_thread resume
run_front_defined s i rest th e l q t c u = ground (arith, e, c, u, env_cases (s.env i))

module _ (s : State) (i : ℕ) (th : Thread) (v : Inv s) (below : s.total_quantums < int_max)
    (runs : s.current_thread ≡ i) (not_main : i ≢ 0) (own : s.threads i ≡ some th) where
  -- The state in which the handler starts.
  abbrev at_signal : State
  at_signal = unmask (block_directly (mask s) i th)

  -- The front of the queue is another thread, and it can run.
  front_ready :
      (f : ℕ) (rest : List ℕ) → s.ready ≡ f ∷ rest → (f ≢ i) × (is_unblocked (s.threads f) ≡ true)
  front_ready f rest e = ground (arith, v.sound.scheduled f, e, runs)

  front_thread : (f : ℕ) → is_unblocked (s.threads f) ≡ true → (w : Thread) × (s.threads f ≡ some w)
  front_thread f h = elim (Option-cases (s.threads f)) [ inl n ↦ ground (arith, n, h) | inr w ↦ w ]

  front_defined :
      (f : ℕ) (rest : List ℕ)
      → s.ready ≡ f ∷ rest
      → run_front quiet (leave sigvtalrm (stored at_signal)) (f ∷ (rest ++ i ∷ [])) ≢ undefined
  unfolding leave block_directly unmask mask
  front_defined f rest e =
      let (other, free) = front_ready f rest e in
      let (w, h) = front_thread f free in
      run_front_defined (leave sigvtalrm (stored at_signal)) f (rest ++ i ∷ []) w
        (ground (arith, other, h)) (ground (arith, v.sound.bounded f, h))
        (ground (arith, v.sound.charged f, h, below)) below
        (ground (arith, v.sound.saved f, h, other, runs))

  queue_cases : (l : List ℕ) → s.ready ≡ l → (f : ℕ) × ((rest : List ℕ) × (s.ready ≡ f ∷ rest))
  queue_cases [] e =
      absurd (ground (arith, v.sound.scheduled 0, v.sound.main_unblocked, e, runs, not_main))
  queue_cases (f ∷ rest) e = (f, (rest, e))

  queue_after :
      (f : ℕ) (rest : List ℕ)
      → s.ready ≡ f ∷ rest
      → s.ready ++ s.current_thread ∷ [] ≡ f ∷ (rest ++ i ∷ [])
  queue_after f rest e =
      ap (λ l. l ++ s.current_thread ∷ []) e ∙ ap (λ k. f ∷ (rest ++ k ∷ [])) runs

  -- The signal comes after all, with the queue that the handler leaves.
  switched_on :
      (f : ℕ) (rest : List ℕ)
      → s.ready ≡ f ∷ rest
      → (t : State) × (block_interrupted quiet s i th ≡ switched t)
  unfolding block_interrupted switch_threads leave unmask block_directly mask
  switched_on f rest e = elim (tick-FaultsOrSwitches at_signal) [
    | inr go ↦ go
    | inl fault ↦ absurd (
        front_defined f rest e (
          ap (run_front quiet (leave sigvtalrm (stored at_signal))) (sym (queue_after f rest e))
          ∙ fault))
  ]

  blocked_and_ready :
      (f : ℕ) (rest : List ℕ) (t : State)
      → s.ready ≡ f ∷ rest
      → block_interrupted quiet s i th ≡ switched t
      → (is_unblocked (t.threads i) ≡ false) × (count i t.ready ≡ 1)
  unfolding block_interrupted leave unmask block_directly mask
  blocked_and_ready f rest t e h =
      let c = switch_charges quiet sigvtalrm at_signal t h in
      let other = (front_ready f rest e).0 in
      let front : f ∷ (rest ++ i ∷ []) ≡ t.current_thread ∷ t.ready =
        sym (queue_after f rest e) ∙ c.front in
      let same : t.current_thread ≡ f = cc front in
      let queue : t.ready ≡ rest ++ i ∷ [] = cc front in
      (
        ground (arith, c.others i, same, other),
        ap (count i) queue
            ∙ ground (arith, count-snoc i i rest, v.sound.scheduled i, e, runs, other),
      )

-- A timer signal may come between the unblocking of the signal in `uthread_block` and its call of
-- `switch_threads`. A thread that blocks itself then stands in the ready queue although it is blocked, so
-- the invariant is lost: it will be given the processor without anybody having resumed it.
pub block_interrupted_lem :
    (s : State) (i : ℕ) (th : Thread)
    → Inv s
    → s.total_quantums < int_max
    → s.current_thread ≡ i
    → i ≢ 0
    → s.threads i ≡ some th
    → (t : State) × (block_interrupted quiet s i th ≡ switched t)
      × (is_unblocked (t.threads i) ≡ false)
      × (count i t.ready ≡ 1)
      × ¬ Inv t
block_interrupted_lem s i th v below runs not_main own =
    let (f, (rest, e)) = queue_cases s i th v below runs not_main own s.ready refl in
    let (t, go) = switched_on s i th v below runs not_main own f rest e in
    let (blocked, ready) = blocked_and_ready s i th v below runs not_main own f rest t e go in
    (t, go, blocked, ready, λ w. ground (arith, w.sound.scheduled i, blocked, ready))
