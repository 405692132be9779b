-- ===== src/MapReduce/Reducing/Complete.antt =====
-- ex3/MapReduceFramework.cpp: the shuffling and the reducing threads come to an end, with each group
-- reduced once.
use os.Common.{
  ℕ, zero, suc, ◌+◌, ◌*◌, ◌≤◌, ◌<◌, ◌≡◌, ◌≢◌, refl, ap, ◌∙◌, true, none, List, [], ◌∷◌,
  if◌then◌else◌, ◌==◌, length, arith, sum_below, sum_below_none, sum_below-ext, one_gap, ◌⊎◌, inl,
  inr, Bool-cases,
}
use mathlib.Core.Path.{subst}
use os.MapReduce.Shuffle.{Vec}
use os.MapReduce.Reducing.{
  Place, pushing, posting, closing, waiting, woken, popped, crashed, finished, Reducing,
  thread_step, Reach,
}
use os.MapReduce.Reducing.Accounts.{credit, weigh, held, Fact, Inv}
use os.MapReduce.Reducing.Steps.{Reach-Inv}

-- A thread that can make no step waits for the semaphore, or is at an end.
stuck_places :
    (n i : ℕ) (s : Reducing) (p : Place)
    → thread_step n s i p ≡ none
    → ((p ≡ waiting) × (s.semaphore ≡ 0)) ⊎ (p ≡ crashed) ⊎ (p ≡ finished)
unfolding thread_step
stuck_places n i s (pushing (x ∷ vs)) h = cc
stuck_places n i s (pushing []) h = cc
stuck_places n i s (posting vs) h = cc
stuck_places n i s (closing (suc k)) h = cc
stuck_places n i s (closing zero) h = cc
stuck_places n i s waiting h = elim (Bool-cases (s.semaphore == 0)) [
  | inl z ↦ inl (refl, ground (arith, z))
  | inr nz ↦ ground (arith, nz, h)
]
stuck_places n i s woken h = cc
stuck_places n i s (popped o) h = cc
stuck_places n i s crashed h = inr (inl refl)
stuck_places n i s finished h = inr (inr refl)

abbrev ending : Place → ℕ
ending p = elim p [
  | finished ↦ 1
  | pushing vs ↦ 0
  | posting vs ↦ 0
  | closing k ↦ 0
  | waiting ↦ 0
  | woken ↦ 0
  | popped o ↦ 0
  | crashed ↦ 0
]

ending-le : (p : Place) → ending p ≤ 1
ending-le p = ground arith

module _ (groups : List Vec) (n k : ℕ) (s : Reducing) (pos : 0 < n) (v : Inv groups n k s) where
  no_crash : (i : ℕ) → s.place i ≢ crashed
  no_crash i e = subst (Fact s.is_shuffle_done s.queue i) e (v.facts i)

  module _ (stuck : (i : ℕ) → i < n → thread_step n s i (s.place i) ≡ none) where
    at_rest : (i : ℕ) → i < n → ((s.place i ≡ waiting) × (s.semaphore ≡ 0)) ⊎ (s.place i ≡ finished)
    at_rest i l = elim (stuck_places n i s (s.place i) (stuck i l)) [
      | inl w ↦ inl w
      | inr r ↦ elim r [ inl c ↦ absurd (no_crash i c) | inr f ↦ inr f ]
    ]

    done : s.is_shuffle_done ≡ true
    done = elim (Bool-cases s.is_shuffle_done) [
      | inl d ↦ d
      | inr d ↦ absurd (ground (arith, at_rest 0 pos, v.shuffler d))
    ]

    same_credit : (i : ℕ) → i < n → credit (s.place i) ≡ ending (s.place i)
    same_credit i l = ground (arith, at_rest i l)

    all_finished : (i : ℕ) → i < n → s.place i ≡ finished
    all_finished i l = elim (at_rest i l) [
      | inr f ↦ f
      | inl (w, z) ↦
          let short : sum_below (λ j. credit (s.place j)) n < n = omega (
            arith,
            sum_below-ext _ _ n same_credit,
            one_gap (λ j. ending (s.place j)) n i (λ j. ending-le (s.place j)) l (ap ending w),
          ) in
          let total : (if s.is_shuffle_done then n else 0) ≡ n = rw done refl in
          absurd (omega (arith, v.balance, short, total, z))
    ]

    no_groups_held : (w : Vec → ℕ) → sum_below (λ i. held w (s.place i)) n ≡ 0
    no_groups_held w =
        sum_below-ext _ (λ i. 0) n (λ i l. ap (held w) (all_finished i l)) ∙ sum_below_none n

    none_left : s.queue ≡ []
    none_left = (subst (Fact s.is_shuffle_done s.queue 0) (all_finished 0 pos) (v.facts 0)).1

    each_once : (w : Vec → ℕ) → weigh w s.reduced ≡ weigh w groups
    each_once w = omega (arith, v.kept w, no_groups_held w, ap (weigh w) none_left)

-- However thread 0, which shuffles, and the others interleave, they make at most five steps for each
-- group, four for each thread and two more, and `reduce` is never called on a null pointer.
pub reduce_phase_bounds :
    {groups : List Vec} {n k : ℕ} {s : Reducing}
    → 0 < n
    → Reach groups n k s
    → (k ≤ 5 * length groups + 4 * n + 2) × ((i : ℕ) → s.place i ≢ crashed)
reduce_phase_bounds {groups} {n} {k} {s} pos r =
    let v = Reach-Inv pos r in (omega (arith, v.spent), no_crash groups n k s pos v)

-- When no thread can make a step, all have finished: nobody waits for the semaphore for ever. The queue
-- is then empty, and each group was reduced exactly once: a sum over the reduced groups is that over all
-- groups, whatever is summed up.
pub reduce_phase_complete :
    {groups : List Vec} {n k : ℕ} {s : Reducing}
    → 0 < n
    → Reach groups n k s
    → ((i : ℕ) → i < n → thread_step n s i (s.place i) ≡ none)
    → ((i : ℕ) → i < n → s.place i ≡ finished)
      × (s.queue ≡ [])
      × ((w : Vec → ℕ) → weigh w s.reduced ≡ weigh w groups)
reduce_phase_complete {groups} {n} {k} {s} pos r stuck =
    let v = Reach-Inv pos r in
    (
      all_finished groups n k s pos v stuck,
      none_left groups n k s pos v stuck,
      each_once groups n k s pos v stuck,
    )
