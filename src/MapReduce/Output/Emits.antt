-- ===== src/MapReduce/Output/Emits.antt =====
-- ex3/MapReduceFramework.cpp: the mutex keeps the threads apart, and no result is lost.
use os.Common.{
  ℕ, suc, ◌+◌, ◌*◌, ◌≤◌, ◌<◌, ◌≡◌, ◌≢◌, refl, sym, ap, ◌∙◌, Bool, true, false, Option, none, some,
  [], ◌∷◌, update, length, arith, Bool-cases, inl, inr, ◌⊎◌, sum_below, sum_below-update,
  sum_below-ext, sum_below_none, le-sum_below,
}
use mathlib.Core.Path.{subst}
use os.MapReduce.Shuffle.{Pair, Vec}
use os.MapReduce.Conserved.{count, count-append}
use os.MapReduce.Output.{
  Place, calling, holding, pushed, Output, emit3_step, output_init, Reach, start, later,
}

-- 1 for a thread that holds the mutex.
abbrev pub inside : Place → ℕ
inside (calling ps) = 0
inside (holding p ps) = 1
inside (pushed ps) = 1

-- The pairs that are still to be pushed.
abbrev left : Place → Vec
left (calling ps) = ps
left (holding p ps) = p ∷ ps
left (pushed ps) = ps

-- The steps still to be made.
abbrev cost : Place → ℕ
cost (calling ps) = 3 * length ps
cost (holding p ps) = 3 * length ps + 2
cost (pushed ps) = 3 * length ps + 1

abbrev taken : Bool → ℕ
taken true = 1
taken false = 0

taken-le : (b : Bool) → taken b ≤ 1
taken-le true = omega arith
taken-le false = omega arith

taken-zero : (b : Bool) → taken b ≡ 0 → b ≡ false
taken-zero true h = absurd (omega arith)
taken-zero false h = refl

stuck_calling :
    (s : Output) (i : ℕ) (p : Place)
    → emit3_step s i p ≡ none
    → (inside p ≡ 0) × (s.locked ≡ false → p ≡ calling [])
unfolding emit3_step
stuck_calling s i (calling []) e = (refl, λ h. refl)
stuck_calling s i (calling (q ∷ ps)) e = (refl, λ h. ground (arith, h, e))
stuck_calling s i (holding q ps) e = cc
stuck_calling s i (pushed ps) e = cc

-- Two different threads count twice.
le-sum_below_two :
    (place : ℕ → Place) (n i j : ℕ)
    → i < n
    → j < n
    → i ≢ j
    → inside (place i) + inside (place j) ≤ sum_below (λ k. inside (place k)) n
le-sum_below_two place n i j li lj ne = omega (
  arith,
  sum_below-update inside place i (calling []) n li,
  le-sum_below (λ k. inside (update place i (calling []) k)) n j lj,
  ap inside (elsewhere),
)
  where
    elsewhere : update place i (calling []) j ≡ place j
    elsewhere = ground arith

module _ (given : Vec) (todo : ℕ → Vec) (n : ℕ) where
  record Inv (k : ℕ) (s : Output) : Type 0 where
    held : sum_below (λ i. inside (s.place i)) n ≡ taken s.locked
    kept :
        (p : Pair)
        → count p s.vector + sum_below (λ i. count p (left (s.place i))) n
          ≡ count p given + sum_below (λ i. count p (todo i)) n
    spent : k + sum_below (λ i. cost (s.place i)) n ≡ sum_below (λ i. 3 * length (todo i)) n

  abbrev Keeps : ℕ → Option Output → Type 0
  Keeps k none = Unit {0}
  Keeps k (some t) = Inv (suc k) t

  step-Inv :
      (k i : ℕ) (s : Output) (p : Place)
      → Inv k s
      → i < n
      → s.place i ≡ p
      → Keeps k (emit3_step s i p)
  unfolding emit3_step
  step-Inv k i s (calling []) v l e = tt
  step-Inv k i s (calling (q ∷ ps)) v l e = elim (Bool-cases s.locked) [
    | inl busy ↦ rw busy tt
    | inr free ↦ rw free record {
      held = omega (
        arith,
        v.held,
        ap taken free,
        sum_below-update inside s.place i (holding q ps) n l,
        ap inside e,
      );
      kept = λ p. omega (
        arith,
        v.kept p,
        sum_below-update (λ a. count p (left a)) s.place i (holding q ps) n l,
        ap (λ a. count p (left a)) e,
      );
      spent = omega (arith, v.spent, sum_below-update cost s.place i (holding q ps) n l, ap cost e);
    }
  ]
  step-Inv k i s (holding q ps) v l e = record {
    held = omega (arith, v.held, sum_below-update inside s.place i (pushed ps) n l, ap inside e);
    kept = λ p. omega (
      arith,
      v.kept p,
      count-append p s.vector (q ∷ []),
      count-append p (q ∷ []) ps,
      sum_below-update (λ a. count p (left a)) s.place i (pushed ps) n l,
      ap (λ a. count p (left a)) e,
    );
    spent = omega (arith, v.spent, sum_below-update cost s.place i (pushed ps) n l, ap cost e);
  }
  step-Inv k i s (pushed ps) v l e = record {
    held = omega (
      arith,
      v.held,
      taken-le s.locked,
      sum_below-update inside s.place i (calling ps) n l,
      ap inside e,
    );
    kept = λ p. omega (
      arith,
      v.kept p,
      sum_below-update (λ a. count p (left a)) s.place i (calling ps) n l,
      ap (λ a. count p (left a)) e,
    );
    spent = omega (arith, v.spent, sum_below-update cost s.place i (calling ps) n l, ap cost e);
  }

  Reach-Inv : {k : ℕ} {s : Output} → Reach given todo n k s → Inv k s
  unfolding output_init
  Reach-Inv start = record { held = sum_below_none n; kept = λ p. refl; spent = omega arith }
  Reach-Inv (later {k} {s} {t} {p} r i l e st) =
      subst (Keeps k) st (step-Inv k i s p (Reach-Inv r) l e)

-- `outputVec` is pushed to by one thread at a time: no two of them are between the lock and the unlock
-- of `emit3`. And the threads make at most three steps for each pair.
pub emit3_exclusive :
    (given : Vec) (todo : ℕ → Vec) (n k : ℕ) (s : Output)
    → Reach given todo n k s
    → ((i j : ℕ) → i < n → j < n → i ≢ j → (inside (s.place i) ≡ 0) ⊎ (inside (s.place j) ≡ 0))
      × (k ≤ sum_below (λ i. 3 * length (todo i)) n)
emit3_exclusive given todo n k s r =
    let v = Reach-Inv given todo n r in
    (
      λ i j li lj ne.
          one_free (s.place i) (s.place j)
            (omega (arith, v.held, taken-le s.locked, le-sum_below_two s.place n i j li lj ne)),
      omega (arith, v.spent),
    )
  where
    one_free : (p q : Place) → inside p + inside q ≤ 1 → (inside p ≡ 0) ⊎ (inside q ≡ 0)
    one_free (calling ps) q h = inl refl
    one_free (holding p ps) q h = inr (omega (arith, h))
    one_free (pushed ps) q h = inr (omega (arith, h))

-- When no thread can make a step, each has emitted all its pairs, none waits for the mutex for ever, and
-- the vector has each pair as often as it had it before and the threads emit it together.
pub outputs_complete :
    (given : Vec) (todo : ℕ → Vec) (n k : ℕ) (s : Output)
    → Reach given todo n k s
    → ((i : ℕ) → i < n → emit3_step s i (s.place i) ≡ none)
    → ((i : ℕ) → i < n → s.place i ≡ calling [])
      × ((p : Pair) → count p s.vector ≡ count p given + sum_below (λ i. count p (todo i)) n)
outputs_complete given todo n k s r stuck = (ended, λ p. omega (arith, v.kept p, nothing_left p))
  where
    v : Inv given todo n k s
    v = Reach-Inv given todo n r

    free : s.locked ≡ false
    free = taken-zero s.locked (
        sym v.held
        ∙ sum_below-ext _ (λ i. 0) n (λ i l. (stuck_calling s i _ (stuck i l)).0)
        ∙ sum_below_none n)

    ended : (i : ℕ) → i < n → s.place i ≡ calling []
    ended i l = (stuck_calling s i _ (stuck i l)).1 free

    nothing_left : (p : Pair) → sum_below (λ i. count p (left (s.place i))) n ≡ 0
    nothing_left p =
        sum_below-ext _ (λ i. 0) n (λ i l. ap (λ a. count p (left a)) (ended i l) ∙ none_of p)
        ∙ sum_below_none n
      where
        none_of : (p : Pair) → count p [] ≡ 0
        none_of p = unfold count in refl
