-- ===== src/Uthreads/Dispatch.antt =====
-- ex2/uthreads.cpp, `switch_threads`: from a state in which nobody has the processor, the front of
-- the ready queue takes it.
use os.Common.{
  ℕ, ◌+◌, ◌<◌, ◌≡◌, Bool, true, false, some, List, [], ◌∷◌, ◌==◌, update, count, arith, inl, inr,
  Option-cases, if◌then◌else◌,
}
use os.Uthreads.Ids.{max_thread_num}
use os.Uthreads.Machine.{
  Thread, Handler, State, Replies, ignored, switcher, int_max, thread_at, run_front,
}
use os.Uthreads.Invariant.{is_unblocked, is_set, Sound, Inv, Keeps}

abbrev pub nobody : ℕ → Bool
nobody i = false

-- The state in which thread `t` goes on.
abbrev pub started : State → ℕ → List ℕ → Thread → Handler → State
started s t rest th h = record s {
  threads = update s.threads t (some (record th { quantums = th.quantums + 1 }));
  ready = rest;
  current_thread = t;
  total_quantums = s.total_quantums + 1;
  masked = false;
  handler = h;
}

module _ (s : State) (t : ℕ) (rest : List ℕ) (v : Sound nobody s) (front : s.ready ≡ t ∷ rest) where
  count-front : (i : ℕ) → count i s.ready ≡ (if i == t then 1 else 0) + count i rest
  count-front i = cc (front)

  front_unblocked : is_unblocked (s.threads t) ≡ true
  front_unblocked = ground (arith, v.scheduled t, count-front t)

  front_lt : t < max_thread_num
  front_lt = ground (arith, v.bounded t, front_unblocked)

  module _ (th : Thread) (e : s.threads t ≡ some th) where
    front_set : is_set (s.env t) ≡ true
    front_set = ground (arith, v.saved t)

    started-Sound : (h : Handler) → Sound (λ i. i == t) (started s t rest th h)
    started-Sound h = record {
      main_unblocked = ground (arith, v.main_unblocked);
      scheduled = λ i. ground (arith, v.scheduled i, count-front i, front_unblocked);
      unused = λ i. ground (arith, v.unused i);
      ascends = v.ascends;
      bounded = λ i b. ground (arith, v.bounded i b);
      saved = λ i b. ground (arith, v.saved i);
      charged = λ i. ground (arith, v.charged i);
      waiting = λ a d. ground (arith, v.waiting a d);
      apart = λ a b d n. ground (arith, v.apart a b d n);
      awaited = λ d b. let (w, p) = v.awaited d (ground arith) in (w, ground (arith, p));
    }

    started-Inv : (h : Handler) → Inv (started s t rest th h)
    started-Inv h = record { sound = started-Sound h; running = ground (arith, front_unblocked) }

    front_at : thread_at s t ≡ some th
    unfolding thread_at
    front_at = ground (arith, front_lt)

    run_front_cons-Keeps :
        (r : Replies) → s.total_quantums < int_max → Keeps (run_front r s (t ∷ rest))
    unfolding run_front
    run_front_cons-Keeps r below = ground (
      arith,
      front_at,
      front_set,
      v.charged t,
      started-Inv (if r.restore_fails then ignored else switcher),
      started-Inv switcher,
    )

-- With the processor free and the counter below its limit, the front of the queue always runs.
pub run_front-Keeps :
    (r : Replies) (s : State) (l : List ℕ)
    → s.ready ≡ l
    → Sound nobody s
    → s.total_quantums < int_max
    → Keeps (run_front r s l)
unfolding run_front
run_front-Keeps r s [] e v below = absurd (ground (arith, v.scheduled 0, v.main_unblocked))
run_front-Keeps r s (t ∷ rest) e v below = elim (Option-cases (s.threads t)) [
  | inl missing ↦ absurd (ground (arith, front_unblocked s t rest v e))
  | inr (th, found) ↦ run_front_cons-Keeps s t rest v e th found r below
]
