-- ===== src/MapReduce/System/Invariant.antt =====
-- ex3/MapReduceFramework.cpp: what holds of the threads at every moment. A thread that has come to the
-- barrier has finished mapping, and nobody shuffles or reduces before all have.
use os.Common.{
  sum_below, sum_below-update, ℕ, zero, suc, ◌+◌, ◌≤◌, ◌<◌, ◌≡◌, ◌≢◌, refl, sym, ap, ◌∙◌, Bool,
  true, Option, none, some, List, if◌then◌else◌, ◌==◌, arith, Bool-cases, inl, inr,
}
use mathlib.Core.Path.{subst}
use os.MapReduce.Shuffle.{Pair, Vec, shuffle_phase}
use os.MapReduce.Barrier
use os.MapReduce.Barrier.{Barrier, barrier_init, enter, leave, Step, arrive, resume, wake}
use os.MapReduce.Barrier.Rounds.{barrier_rounds, returns-calls}
use os.MapReduce.Mapping
use os.MapReduce.Mapping.{Mapping, map_init, map_step, sorted_vectors}
use os.MapReduce.Reducing
use os.MapReduce.Reducing.{Reducing, thread_step, reduce_init}
use os.MapReduce.System.{
  System, system_init, begins, goes_on, behind_barrier, at_barrier, in_map, single_thread, Reach,
  start, later, wakes_up,
}

same_number : (i j : ℕ) → (i == j) ≡ true → i ≡ j
same_number i j h = ground arith

enter_calls :
    (n : ℕ) (b : Barrier) (i j : ℕ)
    → (enter n b i).calls j ≡ (if i == j then b.calls i + 1 else b.calls j)
unfolding enter
enter_calls n b i j = ground arith

module _ (client_map : Pair → Vec) (inputs : List Pair) (less : ℕ → ℕ → Bool) (n : ℕ) where
  -- All threads have finished mapping.
  abbrev pub Mapped : Mapping → Type 0
  Mapped m = (i : ℕ) → i < n → (m.worker i).place ≡ Mapping.finished

  -- The groups are those of the sorted vectors, and what happens to them is what Reducing says; `k` is the
  -- number of steps behind the barrier.
  abbrev pub Shuffled : ℕ → Mapping → Option Reducing → Type 0
  Shuffled k m none = k ≡ 0
  Shuffled k m (some r) =
      Mapped m
      × ((groups : List Vec) × (shuffle_phase less (sorted_vectors less m.worker n) ≡ some groups)
          × ((l : ℕ) × Reducing.Reach groups n l r × (k ≡ l + 1)))

  -- The steps at the barrier, but for those that are the calls of the last thread to come.
  abbrev pub crossings : Barrier → ℕ
  crossings b = sum_below (λ i. b.calls i) n + sum_below (λ i. b.returns i) n

  pub record Inv (k : ℕ) (s : System) : Type 0 where
    pub map_steps : ℕ
    pub mapped : Mapping.Reach client_map inputs n map_steps s.mapping
    pub met : Barrier.Reach n s.barrier
    pub came :
        (i : ℕ) → i < n → 0 < s.barrier.calls i → (s.mapping.worker i).place ≡ Mapping.finished
    pub once : (i : ℕ) → i < n → s.barrier.calls i ≤ 1
    pub reduce_steps : ℕ
    pub shuffled : Shuffled reduce_steps s.mapping s.reducing
    pub spent : k ≤ map_steps + crossings s.barrier + reduce_steps

  -- What a step must leave.
  abbrev Keeps : ℕ → Option System → Type 0
  Keeps k none = Unit {0}
  Keeps k (some t) = Inv (suc k) t

  other_worker :
      (m : Mapping) (i j : ℕ) (p : Mapping.Place)
      → i ≢ j
      → (map_step client_map inputs m i p).worker j ≡ m.worker j
  unfolding map_step
  other_worker m i j Mapping.fetching ne = ground arith
  other_worker m i j (Mapping.mapping x) ne = ground arith
  other_worker m i j Mapping.finished ne = refl

  -- While a thread maps, nobody shuffles.
  not-Shuffled :
      (k : ℕ) (m m' : Mapping) (o : Option Reducing) (i : ℕ)
      → i < n
      → (m.worker i).place ≢ Mapping.finished
      → Shuffled k m o
      → Shuffled k m' o
  not-Shuffled k m m' none i l ne h = h
  not-Shuffled k m m' (some r) i l ne h = absurd (ne (h.0 i l))

  crossings-enter : (b : Barrier) (i : ℕ) → i < n → crossings b + 1 ≤ crossings (enter n b i)
  unfolding enter
  crossings-enter b i l = ground (
    arith,
    sum_below-update (λ (k : ℕ). k) b.calls i (b.calls i + 1) n l,
    sum_below-update (λ (k : ℕ). k) b.returns i (b.returns i + 1) n l,
  )

  crossings-leave : (b : Barrier) (i : ℕ) → i < n → crossings b + 1 ≤ crossings (leave b i)
  unfolding leave
  crossings-leave b i l =
      omega (arith, sum_below-update (λ (k : ℕ). k) b.returns i (b.returns i + 1) n l)

  map-Inv :
      (k : ℕ) (s : System) (i : ℕ) (p : Mapping.Place)
      → Inv k s
      → i < n
      → (s.mapping.worker i).place ≡ p
      → p ≢ Mapping.finished
      → Inv (suc k) (in_map client_map inputs s i p)
  unfolding in_map
  map-Inv k s i p v l e ne = record {
    map_steps = suc v.map_steps;
    mapped = Mapping.later v.mapped i l e ne;
    reduce_steps = v.reduce_steps;
    met = v.met;
    came = λ j lj c. elim (Bool-cases (i == j)) [
      | inl here ↦ absurd (
          ne (
            sym e ∙ v.came i l (subst (λ h. 0 < s.barrier.calls h) (sym (same_number i j here)) c)))
      | inr other ↦
          ap (λ (w : Mapping.Worker). w.place) (other_worker s.mapping i j p (ground arith))
          ∙ v.came j lj c
    ];
    once = v.once;
    shuffled =
        not-Shuffled v.reduce_steps s.mapping (map_step client_map inputs s.mapping i p) s.reducing
          i l (λ f. ne (sym e ∙ f)) v.shuffled;
    spent = omega (arith, v.spent);
  }

  enter-Inv :
      (k : ℕ) (s : System) (i : ℕ)
      → Inv k s
      → i < n
      → (s.mapping.worker i).place ≡ Mapping.finished
      → s.barrier.calls i ≡ 0
      → s.barrier.place i ≡ Barrier.outside
      → Inv (suc k) (record s { barrier = enter n s.barrier i })
  enter-Inv k s i v l e z out = record {
    map_steps = v.map_steps;
    mapped = v.mapped;
    met = Barrier.later v.met (arrive i l out);
    came = λ j lj c. elim (Bool-cases (i == j)) [
      | inl here ↦
          subst (λ h. (s.mapping.worker h).place ≡ Mapping.finished) (same_number i j here) e
      | inr other ↦ v.came j lj (ground (arith, enter_calls n s.barrier i j, other, c))
    ];
    once = λ j lj. ground (arith, enter_calls n s.barrier i j, v.once j lj, z);
    reduce_steps = v.reduce_steps;
    shuffled = v.shuffled;
    spent = omega (arith, v.spent, crossings-enter s.barrier i l);
  }

  leave-Inv :
      (k : ℕ) (s : System) (i : ℕ)
      → Inv k s
      → i < n
      → s.barrier.place i ≡ Barrier.woken
      → Inv (suc k) (record s { barrier = leave s.barrier i })
  unfolding leave
  leave-Inv k s i v l w = record {
    map_steps = v.map_steps;
    mapped = v.mapped;
    met = Barrier.later v.met (resume i l w);
    came = v.came;
    once = v.once;
    reduce_steps = v.reduce_steps;
    shuffled = v.shuffled;
    spent = omega (arith, v.spent, crossings-leave s.barrier i l);
  }

  none_taken : (k : ℕ) (m : Mapping) (o : Option Reducing) → o ≡ none → Shuffled k m o → k ≡ 0
  none_taken k m none e h = h
  none_taken k m (some r) e h = cc

  begins-Inv :
      (k : ℕ) (s : System) (o : Option (List Vec))
      → Inv k s
      → Mapped s.mapping
      → s.reducing ≡ none
      → shuffle_phase less (sorted_vectors less s.mapping.worker n) ≡ o
      → Keeps k (begins s o)
  unfolding begins
  begins-Inv k s none v all before e = tt
  begins-Inv k s (some groups) v all before e = record {
    map_steps = v.map_steps;
    mapped = v.mapped;
    met = v.met;
    came = v.came;
    once = v.once;
    reduce_steps = 1;
    shuffled = (all, (groups, e, (0, Reducing.start, omega arith)));
    spent =
        omega (arith, v.spent, none_taken v.reduce_steps s.mapping s.reducing before v.shuffled);
  }

  goes_on-Inv :
      (k : ℕ) (s : System) (r : Reducing) (i : ℕ) (o : Option Reducing) (v : Inv k s)
      → i < n
      → Shuffled v.reduce_steps s.mapping (some r)
      → thread_step n r i (r.place i) ≡ o
      → Keeps k (goes_on s o)
  unfolding goes_on
  goes_on-Inv k s r i none v l h e = tt
  goes_on-Inv k s r i (some t) v l (all, (groups, made, (j, reached, same))) e = record {
    map_steps = v.map_steps;
    mapped = v.mapped;
    met = v.met;
    came = v.came;
    once = v.once;
    reduce_steps = suc v.reduce_steps;
    shuffled =
        (all, (groups, made, (suc j, Reducing.later reached i l refl e, omega (arith, same))));
    spent = omega (arith, v.spent);
  }

  -- A thread is behind the barrier only when all have come to it.
  all_mapped :
      (k : ℕ) (s : System) (i : ℕ)
      → Inv k s
      → i < n
      → 0 < s.barrier.calls i
      → s.barrier.place i ≡ Barrier.outside
      → Mapped s.mapping
  all_mapped k s i v l came out j lj =
      v.came j lj (
        omega (arith, (barrier_rounds (omega arith) v.met).0 i j l lj, returns-calls v.met i l out))

  behind-Inv :
      (k : ℕ) (s : System) (i : ℕ) (o : Option Reducing)
      → Inv k s
      → i < n
      → Mapped s.mapping
      → s.reducing ≡ o
      → Keeps k (behind_barrier less n s i o)
  unfolding behind_barrier
  behind-Inv k s i none v l all e = elim (Bool-cases (i == 0)) [
    | inl first ↦ rw first (begins-Inv k s _ v all e refl)
    | inr other ↦ rw other tt
  ]
  behind-Inv k s i (some r) v l all e =
      goes_on-Inv k s r i _ v l (subst (Shuffled v.reduce_steps s.mapping) e v.shuffled) refl

  barrier-Inv :
      (k : ℕ) (s : System) (i c : ℕ) (p : Barrier.Place)
      → Inv k s
      → i < n
      → (s.mapping.worker i).place ≡ Mapping.finished
      → s.barrier.calls i ≡ c
      → s.barrier.place i ≡ p
      → Keeps k (at_barrier less n s i c p)
  unfolding at_barrier
  barrier-Inv k s i c Barrier.waiting v l e called out = tt
  barrier-Inv k s i c Barrier.woken v l e called out = leave-Inv k s i v l out
  barrier-Inv k s i zero Barrier.outside v l e called out = enter-Inv k s i v l e called out
  barrier-Inv k s i (suc c) Barrier.outside v l e called out =
      behind-Inv k s i s.reducing v l (all_mapped k s i v l (omega arith) out) refl

  step-Inv :
      (k : ℕ) (s : System) (i : ℕ) (p : Mapping.Place)
      → Inv k s
      → i < n
      → (s.mapping.worker i).place ≡ p
      → Keeps k (single_thread client_map inputs less n s i p)
  unfolding single_thread
  step-Inv k s i Mapping.fetching v l e = map-Inv k s i Mapping.fetching v l e (λ h. cc)
  step-Inv k s i (Mapping.mapping x) v l e = map-Inv k s i (Mapping.mapping x) v l e (λ h. cc)
  step-Inv k s i Mapping.finished v l e = barrier-Inv k s i _ _ v l e refl refl

  -- As long as no thread wakes up by itself.
  pub Reach-Inv : {w k : ℕ} {s : System} → w ≡ 0 → Reach client_map inputs less n w k s → Inv k s
  unfolding system_init barrier_init
  Reach-Inv z start = record {
    map_steps = 0;
    mapped = Mapping.start;
    reduce_steps = 0;
    met = Barrier.start;
    came = λ i l c. absurd (omega arith);
    once = λ i l. omega arith;
    shuffled = refl;
    spent = omega arith;
  }
  Reach-Inv z (wakes_up r i l e) = absurd (omega arith)
  Reach-Inv z (later {w} {k} {s} {t} r i l e) =
      subst (Keeps k) e (step-Inv k s i (s.mapping.worker i).place (Reach-Inv z r) l refl)
