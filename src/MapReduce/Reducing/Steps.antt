-- ===== src/MapReduce/Reducing/Steps.antt =====
-- ex3/MapReduceFramework.cpp: every reachable state keeps the accounts.
use os.Common.{
  ℕ, zero, suc, ◌<◌, ◌≡◌, refl, sym, ap, true, none, some, List, [], ◌∷◌, if◌then◌else◌, ◌==◌,
  length, arith, sum_below, sum_below-update, sum_below_none, sum_below-ext, le-sum_below, inl, inr,
  Bool-cases,
}
use mathlib.Core.Path.{subst}
use os.MapReduce.Shuffle.{Vec}
use os.MapReduce.Reducing.{
  Place, pushing, posting, closing, waiting, woken, popped, crashed, finished, Reducing, back,
  pop_back, goes, reduce_step, thread_step, reduce_init, Reach, start, later,
}
use os.MapReduce.Reducing.Accounts.{credit, weigh, held, cost, Inv, all_facts}
use os.MapReduce.Reducing.Moves.{
  own, moved, others, push-Inv, close-Inv, post-Inv, last_post-Inv, closed-Inv, wait-Inv,
  reduce-Inv, finish-Inv,
}

-- A thread behind the semaphore finds a group, or the shuffle is done.
pop_some-Inv :
    (groups : List Vec) (n k i : ℕ) (s : Reducing) (x : Vec) (vs : List Vec)
    → i < n
    → s.place i ≡ woken
    → s.queue ≡ x ∷ vs
    → Inv groups n k s
    → Inv groups n (suc k) (record (goes s i (popped (some x))) { queue = vs })
pop_some-Inv groups n k i s x vs li e q v =
    let m = moved groups n k i s woken li e v in
    record {
      balance = omega (arith, v.balance, m credit (popped (some x)), ap (λ l. length l) q);
      kept = λ w. omega (arith, v.kept w, m (held w) (popped (some x)), ap (weigh w) q);
      spent = omega (arith, v.spent, m (cost n) (popped (some x)));
      facts =
          all_facts s.is_shuffle_done s.is_shuffle_done s.queue vs s.place i (popped (some x))
            v.facts (λ j ne a b. a) (λ a. a) (λ a b. ground (arith, q, b)) tt;
      shuffler = λ a. others groups n k i s woken li e v (popped (some x)) refl a;
    }

pop_none-Inv :
    (groups : List Vec) (n k i : ℕ) (s : Reducing)
    → i < n
    → s.place i ≡ woken
    → s.queue ≡ []
    → Inv groups n k s
    → Inv groups n (suc k) (record (goes s i (popped none)) { queue = [] })
pop_none-Inv groups n k i s li e q v =
    let m = moved groups n k i s woken li e v in
    let done : s.is_shuffle_done ≡ true = elim (Bool-cases s.is_shuffle_done) [
      | inl d ↦ d
      | inr d ↦
          let before : (if s.is_shuffle_done then n else 0) ≡ 0 = rw d refl in
          absurd (
            omega (
              arith,
              v.balance,
              before,
              ap (λ l. length l) q,
              le-sum_below (λ j. credit (s.place j)) n i li,
              ap credit e,
            ))
    ] in
    record {
      balance = omega (arith, v.balance, m credit (popped none), ap (λ l. length l) q);
      kept = λ w. omega (arith, v.kept w, m (held w) (popped none), ap (weigh w) q);
      spent = omega (arith, v.spent, m (cost n) (popped none));
      facts =
          all_facts s.is_shuffle_done s.is_shuffle_done s.queue [] s.place i (popped none) v.facts
            (λ j ne a b. a) (λ a. a) (λ a b. refl) (done, refl);
      shuffler = λ a. others groups n k i s woken li e v (popped none) refl a;
    }

pop-Inv :
    (groups : List Vec) (n k i : ℕ) (s : Reducing) (q : List Vec)
    → i < n
    → s.place i ≡ woken
    → s.queue ≡ q
    → Inv groups n k s
    → Inv groups n (suc k) (record (goes s i (popped (back q))) { queue = pop_back q })
pop-Inv groups n k i s [] li e h v = pop_none-Inv groups n k i s li e h v
pop-Inv groups n k i s (x ∷ vs) li e h v = pop_some-Inv groups n k i s x vs li e h v

stepped : {A : Type 0} (P : A → Type 0) (x t : A) → some x ≡ some t → P x → P t
stepped P x t e h = let f : x ≡ t = cc in subst P f h

finish_done-Inv :
    (groups : List Vec) (n k i : ℕ) (s : Reducing)
    → i < n
    → s.place i ≡ popped none
    → Inv groups n k s
    → Inv groups n (suc k) (reduce_step s i none)
unfolding reduce_step
finish_done-Inv groups n k i s li e v =
    let done = (own groups n k i s (popped none) li e v).0 in
    let same : (if s.is_shuffle_done then finished else crashed) ≡ finished = rw done refl in
    subst (λ r. Inv groups n (suc k) (goes s i r)) (sym same) (finish-Inv groups n k i s li e v)

pub step-Inv :
    (groups : List Vec) (n k i : ℕ) (s t : Reducing) (p : Place)
    → i < n
    → s.place i ≡ p
    → thread_step n s i p ≡ some t
    → Inv groups n k s
    → Inv groups n (suc k) t
unfolding thread_step
step-Inv groups n k i s t (pushing (x ∷ vs)) li e h v =
    stepped (Inv groups n (suc k)) _ t h (push-Inv groups n k i s x vs li e v)
step-Inv groups n k i s t (pushing []) li e h v =
    stepped (Inv groups n (suc k)) _ t h (close-Inv groups n k i s li e v)
step-Inv groups n k i s t (posting vs) li e h v =
    stepped (Inv groups n (suc k)) _ t h (post-Inv groups n k i s vs li e v)
step-Inv groups n k i s t (closing (suc j)) li e h v =
    stepped (Inv groups n (suc k)) _ t h (last_post-Inv groups n k i s j li e v)
step-Inv groups n k i s t (closing zero) li e h v =
    stepped (Inv groups n (suc k)) _ t h (closed-Inv groups n k i s li e v)
step-Inv groups n k i s t waiting li e h v = elim (Bool-cases (s.semaphore == 0)) [
  | inl z ↦ ground (arith, z, h)
  | inr nz ↦
      stepped (Inv groups n (suc k)) _ t (ground (arith, nz, h))
        (wait-Inv groups n k i s li e (ground (arith, nz)) v)
]
step-Inv groups n k i s t woken li e h v =
    stepped (Inv groups n (suc k)) _ t h (pop-Inv groups n k i s s.queue li e refl v)
step-Inv groups n k i s t (popped (some x)) li e h v =
    stepped (Inv groups n (suc k)) _ t h (unfold reduce_step in reduce-Inv groups n k i s x li e v)
step-Inv groups n k i s t (popped none) li e h v =
    stepped (Inv groups n (suc k)) _ t h (finish_done-Inv groups n k i s li e v)
step-Inv groups n k i s t crashed li e h v = cc
step-Inv groups n k i s t finished li e h v = cc

init-Inv : (groups : List Vec) (n : ℕ) → 0 < n → Inv groups n 0 (reduce_init groups)
unfolding reduce_init
init-Inv groups n pos = record {
  balance = omega (arith, only credit refl);
  kept = λ w. omega (arith, only (held w) refl);
  spent = omega (arith, only (cost n) refl);
  facts = λ i. ground arith;
  shuffler = λ a. refl;
}
  where
    -- Only thread 0 is not waiting.
    only :
        (f : Place → ℕ)
        → f waiting ≡ 0
        → sum_below (λ i. f (if i == 0 then pushing groups else waiting)) n ≡ f (pushing groups)
    only f z = omega (
      arith,
      sum_below-update f (λ i. waiting) 0 (pushing groups) n pos,
      sum_below-ext (λ i. f waiting) (λ i. 0) n (λ i l. z),
      sum_below_none n,
      z,
    )

pub Reach-Inv :
    {groups : List Vec} {n k : ℕ} {s : Reducing} → 0 < n → Reach groups n k s → Inv groups n k s
Reach-Inv {groups} {n} pos start = init-Inv groups n pos
Reach-Inv {groups} {n} pos (later {k} {s} {t} {p} r i li e h) =
    step-Inv groups n k i s t p li e h (Reach-Inv pos r)
