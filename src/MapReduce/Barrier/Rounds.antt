-- ===== src/MapReduce/Barrier/Rounds.antt =====
-- ex3/Barrier.cpp: no thread gets past the barrier before all have come to it, round after round.
use os.Common.{
  ℕ, ◌+◌, ◌≤◌, ◌<◌, ◌≡◌, ◌≢◌, refl, sym, ap, ◌∙◌, ltb, arith, sum_below, sum_below-update,
  sum_below_gap, sum_below_none, two_gaps, sum_below-ext, Bool-cases, inl, inr, ◌⊎◌,
}
use os.MapReduce.Barrier.{
  Place, outside, waiting, woken, Barrier, barrier_init, wake, enter, leave, Step, arrive, resume,
  Reach, start, later,
}

-- 1 for a thread that waits.
abbrev pub waits : Place → ℕ
waits waiting = 1
waits outside = 0
waits woken = 0

-- After `g` broadcasts: the calls and the returns of a thread by its place.
abbrev pub Accounts : ℕ → Place → ℕ → ℕ → Type 0
Accounts g outside c r = (c ≡ g) × (r ≡ g)
Accounts g waiting c r = (c ≡ g + 1) × (r ≡ g)
Accounts g woken c r = (c ≡ g) × (r + 1 ≡ g)

pub record Inv (n g : ℕ) (b : Barrier) : Type 0 where
  pub room : 0 < n → b.count < n
  pub counted : b.count ≡ sum_below (λ i. waits (b.place i)) n
  pub accounts : (i : ℕ) → i < n → Accounts g (b.place i) (b.calls i) (b.returns i)

waits-le : (p : Place) → waits p ≤ 1
waits-le waiting = omega arith
waits-le outside = omega arith
waits-le woken = omega arith

waits_cases : (p : Place) → (waits p ≡ 0) ⊎ (p ≡ waiting)
waits_cases waiting = inr refl
waits_cases outside = inl refl
waits_cases woken = inl refl

none_wait : (place : ℕ → Place) (n : ℕ) → sum_below (λ i. waits (wake (place i))) n ≡ 0
none_wait place n = sum_below-ext _ (λ i. 0) n (λ i l. woken_lem (place i)) ∙ sum_below_none n
  where
    woken_lem : (p : Place) → waits (wake p) ≡ 0
    woken_lem waiting = refl
    woken_lem outside = refl
    woken_lem woken = refl

-- The next thread to come is the last: all others wait.
others_wait :
    (n g i : ℕ) (b : Barrier)
    → Inv n g b
    → i < n
    → b.place i ≡ outside
    → n ≤ b.count + 1
    → (j : ℕ) → j < n
    → j ≢ i
    → b.place j ≡ waiting
others_wait n g i b v li e full j lj ne = elim (waits_cases (b.place j)) [
  | inr w ↦ w
  | inl z ↦ absurd (
      omega (
        arith,
        v.counted,
        two_gaps (λ k. waits (b.place k)) n j i (λ k. waits-le (b.place k)) lj li ne z (ap waits e),
      ))
]

enter-Inv :
    (n g i : ℕ) (b : Barrier)
    → Inv n g b
    → i < n
    → b.place i ≡ outside
    → (h : ℕ) × Inv n h (enter n b i)
unfolding enter
enter-Inv n g i b v li e = elim (Bool-cases (ltb (b.count + 1) n)) [
  | inl more ↦ (
    g,
    rw more record {
      counted = omega (arith, v.counted, sum_below-update waits b.place i waiting n li, ap waits e);
      accounts = λ j lj. ground (arith, v.accounts j lj, e);
      room = λ h. ground (arith, more);
    },
  )
  | inr last ↦ (
    g + 1,
    rw last record {
      counted = sym (none_wait b.place n);
      accounts = λ j lj.
          ground
            (arith, v.accounts j lj, e, others_wait n g i b v li e (ground (arith, last)) j lj);
      room = λ h. h;
    },
  )
]

leave-Inv : (n g i : ℕ) (b : Barrier) → Inv n g b → i < n → b.place i ≡ woken → Inv n g (leave b i)
unfolding leave
leave-Inv n g i b v li e = record {
  counted = omega (arith, v.counted, sum_below-update waits b.place i outside n li, ap waits e);
  accounts = λ j lj. ground (arith, v.accounts j lj, e);
  room = v.room;
}

Step-Inv : {n g : ℕ} {b c : Barrier} → Inv n g b → Step n b c → (h : ℕ) × Inv n h c
Step-Inv {n} {g} {b} v (arrive i l e) = enter-Inv n g i b v l e
Step-Inv {n} {g} {b} v (resume i l e) = (g, leave-Inv n g i b v l e)

Reach-Inv : {n : ℕ} {b : Barrier} → Reach n b → (g : ℕ) × Inv n g b
unfolding barrier_init
Reach-Inv {n} start =
    (0, record { room = λ h. h; counted = sym (sum_below_none n); accounts = λ i l. omega arith })
Reach-Inv (later r st) = Step-Inv (Reach-Inv r).1 st

returns-le-calls : (g : ℕ) (p q : Place) (c r d s : ℕ) → Accounts g p c r → Accounts g q d s → r ≤ d
returns-le-calls g outside outside c r d s h k = omega arith
returns-le-calls g outside waiting c r d s h k = omega arith
returns-le-calls g outside woken c r d s h k = omega arith
returns-le-calls g waiting q c r d s h k = ground arith
returns-le-calls g woken q c r d s h k = ground arith

-- However the threads interleave, a call of `barrier` returns only when every thread has come to the
-- barrier as often: no thread has more returns than another has calls. And some thread is always not
-- waiting in the barrier, so it never holds all of them.
pub barrier_rounds :
    {n : ℕ} {b : Barrier}
    → 0 < n
    → Reach n b
    → ((i j : ℕ) → i < n → j < n → b.returns i ≤ b.calls j)
      × ((j : ℕ) × (j < n) × (b.place j ≢ waiting))
barrier_rounds {n} {b} h r =
    let (g, v) = Reach-Inv r in
    (
      λ i j li lj.
          returns-le-calls g (b.place i) (b.place j) _ _ _ _ (v.accounts i li) (v.accounts j lj),
      let (j, lj, z) =
            sum_below_gap (λ i. waits (b.place i)) n (λ i. waits-le (b.place i))
              (omega (arith, v.room h, v.counted)) in
          (j, lj, λ e. ground (arith, z, e)),
    )

-- A thread that is not in `barrier` has come back from each call.
pub returns-calls :
    {n : ℕ} {b : Barrier}
    → Reach n b
    → (i : ℕ) → i < n
    → b.place i ≡ outside
    → b.returns i ≡ b.calls i
returns-calls r i l e = let (g, v) = Reach-Inv r in ground (arith, v.accounts i l, e)

waiting_cases : (p : Place) → p ≢ woken → (p ≡ waiting) ⊎ (p ≡ outside)
waiting_cases waiting h = inl refl
waiting_cases outside h = inr refl
waiting_cases woken h = absurd (h refl)

-- When each thread has come once and none is about to leave, all have left.
pub all_left :
    {n : ℕ} {b : Barrier}
    → 0 < n
    → Reach n b
    → ((i : ℕ) → i < n → b.calls i ≡ 1)
    → ((i : ℕ) → i < n → b.place i ≢ woken)
    → (i : ℕ) → i < n
    → b.place i ≡ outside
all_left {n} {b} pos r once none_woken i l =
    let (g, v) = Reach-Inv r in
    let (j, lj, free) = (barrier_rounds pos r).1 in
    elim (waiting_cases (b.place i) (none_woken i l)) [
      | inr out ↦ out
      | inl stays ↦ elim (waiting_cases (b.place j) (none_woken j lj)) [
        | inl w ↦ absurd (free w)
        | inr out ↦ ground (arith, v.accounts i l, v.accounts j lj, stays, out, once i l, once j lj)
      ]
    ]

pub waiting-calls :
    {n : ℕ} {b : Barrier} → Reach n b → (i : ℕ) → i < n → b.place i ≡ waiting → 0 < b.calls i
waiting-calls r i l e = let (g, v) = Reach-Inv r in ground (arith, v.accounts i l, e)
