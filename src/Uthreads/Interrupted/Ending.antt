-- ===== src/Uthreads/Interrupted/Ending.antt =====
-- ex2/uthreads.cpp, `uthread_terminate` by the running thread: it lets the timer signal in again before it
-- calls `switch_threads`. Here the signal comes at that point.
use os.Common.{
  ℕ, ◌<◌, ◌≡◌, ◌≢◌, sym, ap, ◌∙◌, inl, inr, true, Option, none, some, List, [], ◌∷◌, ◌++◌, is_some,
  count, count-snoc, arith, Option-cases, erase_all, erase_all_absent, count-erase_all,
}
use os.Uthreads.Ids.{max_thread_num, remove_id, count-set_insert}
use os.Uthreads.Machine.{
  Thread, State, Replies, Outcome, switched, undefined, sigvtalrm, int_max, switch_threads,
  run_front, leave,
}
use os.Uthreads.Calls.{mask, unmask, release_all}
use os.Uthreads.Invariant.{Inv, Inv-masked, is_unblocked, is_set}
use os.Uthreads.Switch.{stored}
use os.Uthreads.Release.{Released, release_all_lem}
use os.Uthreads.Terminate.{retired, releasable}
use os.Uthreads.Schedule.{quiet, tick-FaultsOrSwitches, switch_charges}
use os.Uthreads.Interrupted.{run_front_defined}
use os.Uthreads.Lifecycle.{first}
use os.Uthreads.Lifecycle.Several.{front_of, first-release_all}

-- Behind `sigprocmask(SIG_UNBLOCK, ...)` in `uthread_terminate`, by what the loop over
-- `sync_dependencies` has left, the signal's handler runs.
unfoldable pub handled_late : Replies → Option State → Outcome
handled_late r none = undefined
handled_late r (some t) = switch_threads r sigvtalrm (unmask t)

unfoldable pub terminate_interrupted : Replies → State → ℕ → Thread → Outcome
terminate_interrupted r s i th = handled_late r (
    release_all th.sync_dependencies
      (record (mask s) { unused_ids = remove_id s.unused_ids i; ready = erase_all i s.ready }))

-- With a front that can run, the timer signal switches to it.
tick_on :
    (x : State) (f : ℕ) (rest : List ℕ) (w : Thread)
    → x.ready ≡ f ∷ rest
    → f ≢ x.current_thread
    → x.threads f ≡ some w
    → f < max_thread_num
    → w.quantums < int_max
    → x.total_quantums < int_max
    → is_set (x.env f) ≡ true
    → (t : State) × (switch_threads quiet sigvtalrm x ≡ switched t)
unfolding switch_threads leave
tick_on x f rest w e other here low own total context = elim (tick-FaultsOrSwitches x) [
  | inr go ↦ go
  | inl fault ↦ absurd (
      run_front_defined (leave sigvtalrm (stored x)) f (rest ++ x.current_thread ∷ []) w here low
        own total (ground (arith, context, other))
        (ap (run_front quiet (leave sigvtalrm (stored x)))
            (sym (ap (λ l. l ++ x.current_thread ∷ []) e))
          ∙ fault))
]

first_cons : (l : List ℕ) (m : ℕ) → first l ≡ some m → (rest : List ℕ) × (l ≡ m ∷ rest)
first_cons [] m h = cc
first_cons (x ∷ l) m h = (l, cc)

module _ (s t : State) (i : ℕ) (th : Thread) (v : Inv s) (below : s.total_quantums < int_max)
    (runs : s.current_thread ≡ i) (not_main : i ≢ 0) (own : s.threads i ≡ some th)
    (f : Released th.sync_dependencies (retired (mask s) i) t)
    (run : release_all th.sync_dependencies (retired (mask s) i) ≡ some t) where
  -- The front of the queue was there before, and is another thread.
  front_of_queue :
      (m : ℕ) × (rest : List ℕ) × (t.ready ≡ m ∷ rest)
      × (m ≢ i)
      × (is_unblocked (s.threads m) ≡ true)
  unfolding mask
  front_of_queue =
      let (m, fm, queued) =
        front_of s.ready 0 (ground (arith, v.sound.scheduled 0, v.sound.main_unblocked)) in
      let kept : erase_all i s.ready ≡ s.ready =
        erase_all_absent i s.ready (ground (arith, v.sound.scheduled i)) in
      let front : first t.ready ≡ some m =
        first-release_all th.sync_dependencies (retired (mask s) i) t m run (ap first kept ∙ fm) in
      let (rest, e) = first_cons t.ready m front in
      (
        m,
        rest,
        e,
        (λ k. ground (arith, v.sound.scheduled m, queued, k, runs)),
        ground (arith, v.sound.scheduled m),
      )

  kept_thread :
      (m : ℕ) (w : Thread)
      → is_unblocked (s.threads m) ≡ true
      → s.threads m ≡ some w
      → t.threads m ≡ some w
  unfolding mask
  kept_thread m w free e = ground (arith, f.freed m, v.sound.waiting i m, own, e, free)

  front_runs : (u : State) × (switch_threads quiet sigvtalrm (unmask t) ≡ switched u)
  unfolding mask unmask
  front_runs =
      let (m, rest, e, other, free) = front_of_queue in
      elim (Option-cases (s.threads m)) [
        | inl n ↦ absurd (ground (arith, n, free))
        | inr (w, here) ↦
            tick_on (unmask t) m rest w e (ground (arith, other, f.same_current))
              (kept_thread m w free here) (ground (arith, v.sound.bounded m, here))
              (ground (arith, v.sound.charged m, here, below)) (ground (arith, f.same_total))
              (ground (arith, v.sound.saved m, here, other, runs, f.same_env m))
      ]

  after_signal :
      (u : State)
      → switch_threads quiet sigvtalrm (unmask t) ≡ switched u
      → (is_some (u.threads i) ≡ true) × (count i u.ready ≡ 1) × (count i u.unused_ids ≡ 1)
  unfolding mask unmask leave remove_id
  after_signal u h =
      let c = switch_charges quiet sigvtalrm (unmask t) u h in
      let (m, rest, e, other, free) = front_of_queue in
      let queue : m ∷ (rest ++ t.current_thread ∷ []) ≡ u.current_thread ∷ u.ready =
        ap (λ l. l ++ t.current_thread ∷ []) (sym e) ∙ c.front in
      let same : u.current_thread ≡ m = cc queue in
      let behind : u.ready ≡ rest ++ t.current_thread ∷ [] = cc queue in
      let absent : count i t.ready ≡ 0 =
        ground
          (arith, f.queued i, count-erase_all i i s.ready, v.sound.waiting i i, own, v.running) in
      (
        ground (arith, c.others i, same, other, f.freed i, own),
        ap (count i) behind
            ∙ ground (arith, count-snoc i t.current_thread rest, absent, e, f.same_current),
        ap (count i) (c.same_ids ∙ f.same_ids)
            ∙ ground (arith, count-set_insert i i s.unused_ids, v.sound.unused i, own),
      )

-- A timer signal may come between the unblocking of the signal in `uthread_terminate` and its call of
-- `switch_threads`. A thread that ends itself then stands in the ready queue, not deleted, although its
-- identifier is free, so the invariant is lost.
pub terminate_interrupted_lem :
    (s : State) (i : ℕ) (th : Thread)
    → Inv s
    → s.total_quantums < int_max
    → s.current_thread ≡ i
    → i ≢ 0
    → s.threads i ≡ some th
    → (u : State) × (terminate_interrupted quiet s i th ≡ switched u)
      × (is_some (u.threads i) ≡ true)
      × (count i u.ready ≡ 1)
      × (count i u.unused_ids ≡ 1)
      × ¬ Inv u
unfolding terminate_interrupted handled_late mask
terminate_interrupted_lem s i th v below runs not_main own =
    let (t, run, f) =
      release_all_lem th.sync_dependencies (retired (mask s) i)
        (releasable (mask s) i th (Inv-masked s true v) own) in
    let (u, go) = front_runs s t i th v below runs not_main own f run in
    let (there, queued, free) = after_signal s t i th v below runs not_main own f run u go in
    (u, rw run go, there, queued, free, λ w. ground (arith, w.sound.unused i, there, free))
