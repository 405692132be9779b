-- ===== src/MapReduce/Reducing/Moves.antt =====
-- ex3/MapReduceFramework.cpp: each step of a thread keeps the accounts.
use os.Common.{
  ℕ, zero, suc, ◌+◌, ◌-◌, ◌<◌, ◌≡◌, refl, sym, ap, ◌∙◌, true, false, none, some, List, [], ◌∷◌,
  if◌then◌else◌, ◌==◌, update, arith, sum_below, sum_below-update, inl, inr, Bool-cases, eq_of_==,
}
use mathlib.Core.Path.{subst}
use os.MapReduce.Shuffle.{Vec}
use os.MapReduce.Reducing.{
  Place, pushing, posting, closing, waiting, woken, popped, finished, Reducing, goes,
}
use os.MapReduce.Reducing.Accounts.{credit, held, cost, Fact, shuffles, Inv, all_facts}

module _ (groups : List Vec) (n k i : ℕ) (s : Reducing) (p : Place) (li : i < n) (e : s.place i ≡ p)
    (v : Inv groups n k s) where
  pub own : Fact s.is_shuffle_done s.queue i p
  own = subst (Fact s.is_shuffle_done s.queue i) e (v.facts i)

  pub moved :
      (f : Place → ℕ) (q : Place)
      → sum_below (λ j. f (update s.place i q j)) n + f p ≡ sum_below (λ j. f (s.place j)) n + f q
  moved f q = omega (arith, sum_below-update f s.place i q n li, ap f e)

  -- A thread that does not shuffle leaves the shuffling thread where it is.
  pub others :
      (q : Place)
      → shuffles p ≡ false
      → s.is_shuffle_done ≡ false
      → shuffles (update s.place i q 0) ≡ true
  others q h z = elim (Bool-cases (0 == i)) [
    | inl a ↦
        let at_zero : s.place 0 ≡ p = ap s.place (eq_of_== 0 i a) ∙ e in
        absurd (ground (arith, v.shuffler z, at_zero, h))
    | inr a ↦ rw a (v.shuffler z)
  ]

  at_zero : (q : Place) → i ≡ 0 → shuffles q ≡ true → shuffles (update s.place i q 0) ≡ true
  at_zero q h g = ground (arith, h, g)

pub push-Inv :
    (groups : List Vec) (n k i : ℕ) (s : Reducing) (x : Vec) (vs : List Vec)
    → i < n
    → s.place i ≡ pushing (x ∷ vs)
    → Inv groups n k s
    → Inv groups n (suc k) (record (goes s i (posting vs)) { queue = x ∷ s.queue })
push-Inv groups n k i s x vs li e v =
    let m = moved groups n k i s (pushing (x ∷ vs)) li e v in
    let here = own groups n k i s (pushing (x ∷ vs)) li e v in
    record {
      balance = omega (arith, v.balance, m credit (posting vs));
      kept = λ w. omega (arith, v.kept w, m (held w) (posting vs));
      spent = omega (arith, v.spent, m (cost n) (posting vs));
      facts =
          all_facts s.is_shuffle_done s.is_shuffle_done s.queue (x ∷ s.queue) s.place i (posting vs)
            v.facts (λ j ne a b. a) (λ a. a) (λ a b. ground (arith, a, here)) here;
      shuffler = λ a. at_zero groups n k i s (pushing (x ∷ vs)) li e v (posting vs) here.0 refl;
    }

pub close-Inv :
    (groups : List Vec) (n k i : ℕ) (s : Reducing)
    → i < n
    → s.place i ≡ pushing []
    → Inv groups n k s
    → Inv groups n (suc k) (record (goes s i (closing n)) { is_shuffle_done = true })
close-Inv groups n k i s li e v =
    let m = moved groups n k i s (pushing []) li e v in
    let here = own groups n k i s (pushing []) li e v in
    let before : (if s.is_shuffle_done then n else 0) ≡ 0 = rw here.1 refl in
    record {
      balance = omega (arith, v.balance, m credit (closing n), before);
      kept = λ w. omega (arith, v.kept w, m (held w) (closing n), before);
      spent = omega (arith, v.spent, m (cost n) (closing n), before);
      facts =
          all_facts s.is_shuffle_done true s.queue s.queue s.place i (closing n) v.facts
            (λ j ne a b. absurd (ne (b ∙ sym here.0))) (λ a. refl) (λ a b. b) (here.0, refl);
      shuffler = λ a. cc;
    }

pub post-Inv :
    (groups : List Vec) (n k i : ℕ) (s : Reducing) (vs : List Vec)
    → i < n
    → s.place i ≡ posting vs
    → Inv groups n k s
    → Inv groups n (suc k) (record (goes s i (pushing vs)) { semaphore = s.semaphore + 1 })
post-Inv groups n k i s vs li e v =
    let m = moved groups n k i s (posting vs) li e v in
    let here = own groups n k i s (posting vs) li e v in
    record {
      balance = omega (arith, v.balance, m credit (pushing vs));
      kept = λ w. omega (arith, v.kept w, m (held w) (pushing vs));
      spent = omega (arith, v.spent, m (cost n) (pushing vs));
      facts =
          all_facts s.is_shuffle_done s.is_shuffle_done s.queue s.queue s.place i (pushing vs)
            v.facts (λ j ne a b. a) (λ a. a) (λ a b. b) here;
      shuffler = λ a. at_zero groups n k i s (posting vs) li e v (pushing vs) here.0 refl;
    }

pub last_post-Inv :
    (groups : List Vec) (n k i : ℕ) (s : Reducing) (j : ℕ)
    → i < n
    → s.place i ≡ closing (suc j)
    → Inv groups n k s
    → Inv groups n (suc k) (record (goes s i (closing j)) { semaphore = s.semaphore + 1 })
last_post-Inv groups n k i s j li e v =
    let m = moved groups n k i s (closing (suc j)) li e v in
    let here = own groups n k i s (closing (suc j)) li e v in
    record {
      balance = omega (arith, v.balance, m credit (closing j));
      kept = λ w. omega (arith, v.kept w, m (held w) (closing j));
      spent = omega (arith, v.spent, m (cost n) (closing j));
      facts =
          all_facts s.is_shuffle_done s.is_shuffle_done s.queue s.queue s.place i (closing j)
            v.facts (λ j ne a b. a) (λ a. a) (λ a b. b) here;
      shuffler = λ a. others groups n k i s (closing (suc j)) li e v (closing j) refl a;
    }

pub closed-Inv :
    (groups : List Vec) (n k i : ℕ) (s : Reducing)
    → i < n
    → s.place i ≡ closing zero
    → Inv groups n k s
    → Inv groups n (suc k) (goes s i waiting)
closed-Inv groups n k i s li e v =
    let m = moved groups n k i s (closing zero) li e v in
    let here = own groups n k i s (closing zero) li e v in
    record {
      balance = omega (arith, v.balance, m credit (waiting));
      kept = λ w. omega (arith, v.kept w, m (held w) (waiting));
      spent = omega (arith, v.spent, m (cost n) (waiting));
      facts =
          all_facts s.is_shuffle_done s.is_shuffle_done s.queue s.queue s.place i (waiting) v.facts
            (λ j ne a b. a) (λ a. a) (λ a b. b) tt;
      shuffler = λ a. others groups n k i s (closing zero) li e v (waiting) refl a;
    }

pub wait-Inv :
    (groups : List Vec) (n k i : ℕ) (s : Reducing)
    → i < n
    → s.place i ≡ waiting
    → 0 < s.semaphore
    → Inv groups n k s
    → Inv groups n (suc k) (record (goes s i woken) { semaphore = s.semaphore - 1 })
wait-Inv groups n k i s li e pos v =
    let m = moved groups n k i s (waiting) li e v in
    let here = own groups n k i s (waiting) li e v in
    record {
      balance = omega (arith, v.balance, m credit (woken));
      kept = λ w. omega (arith, v.kept w, m (held w) (woken));
      spent = omega (arith, v.spent, m (cost n) (woken));
      facts =
          all_facts s.is_shuffle_done s.is_shuffle_done s.queue s.queue s.place i (woken) v.facts
            (λ j ne a b. a) (λ a. a) (λ a b. b) tt;
      shuffler = λ a. others groups n k i s (waiting) li e v (woken) refl a;
    }

pub reduce-Inv :
    (groups : List Vec) (n k i : ℕ) (s : Reducing) (x : Vec)
    → i < n
    → s.place i ≡ popped (some x)
    → Inv groups n k s
    → Inv groups n (suc k) (record (goes s i waiting) { reduced = x ∷ s.reduced })
reduce-Inv groups n k i s x li e v =
    let m = moved groups n k i s (popped (some x)) li e v in
    let here = own groups n k i s (popped (some x)) li e v in
    record {
      balance = omega (arith, v.balance, m credit (waiting));
      kept = λ w. omega (arith, v.kept w, m (held w) (waiting));
      spent = omega (arith, v.spent, m (cost n) (waiting));
      facts =
          all_facts s.is_shuffle_done s.is_shuffle_done s.queue s.queue s.place i (waiting) v.facts
            (λ j ne a b. a) (λ a. a) (λ a b. b) tt;
      shuffler = λ a. others groups n k i s (popped (some x)) li e v (waiting) refl a;
    }

pub finish-Inv :
    (groups : List Vec) (n k i : ℕ) (s : Reducing)
    → i < n
    → s.place i ≡ popped none
    → Inv groups n k s
    → Inv groups n (suc k) (goes s i finished)
finish-Inv groups n k i s li e v =
    let m = moved groups n k i s (popped none) li e v in
    let here = own groups n k i s (popped none) li e v in
    record {
      balance = omega (arith, v.balance, m credit (finished));
      kept = λ w. omega (arith, v.kept w, m (held w) (finished));
      spent = omega (arith, v.spent, m (cost n) (finished));
      facts =
          all_facts s.is_shuffle_done s.is_shuffle_done s.queue s.queue s.place i (finished) v.facts
            (λ j ne a b. a) (λ a. a) (λ a b. b) here;
      shuffler = λ a. others groups n k i s (popped none) li e v (finished) refl a;
    }
