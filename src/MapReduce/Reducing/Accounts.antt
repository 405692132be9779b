-- ===== src/MapReduce/Reducing/Accounts.antt =====
-- ex3/MapReduceFramework.cpp: what holds between the queue, the semaphore, the flag and the threads.
use os.Common.{
  ℕ, ◌+◌, ◌*◌, ◌≤◌, ◌≡◌, ◌≢◌, sym, Bool, true, false, none, some, List, [], ◌∷◌, if◌then◌else◌,
  ◌==◌, update, length, sum_below, inl, inr, Bool-cases, eq_of_==, ne_of_==,
}
use mathlib.Core.Path.{subst}
use os.MapReduce.Shuffle.{Vec}
use os.MapReduce.Reducing.{
  Place, pushing, posting, closing, waiting, woken, popped, crashed, finished, Reducing,
}

-- The semaphore's units that a thread has taken and not used, or has to give, or has used up at its end.
abbrev pub credit : Place → ℕ
credit (posting vs) = 1
credit (closing k) = k
credit woken = 1
credit (popped none) = 1
credit finished = 1
credit (pushing vs) = 0
credit waiting = 0
credit (popped (some v)) = 0
credit crashed = 0

-- A sum over groups.
abbrev pub weigh : (Vec → ℕ) → List Vec → ℕ
weigh w [] = 0
weigh w (v ∷ vs) = w v + weigh w vs

-- The groups that a thread has in its hands.
abbrev pub held : (Vec → ℕ) → Place → ℕ
held w (pushing vs) = weigh w vs
held w (posting vs) = weigh w vs
held w (popped (some v)) = w v
held w (popped none) = 0
held w (closing k) = 0
held w woken = 0
held w finished = 0
held w waiting = 0
held w crashed = 0

-- A bound of the steps to come, where a unit of the semaphore counts for three.
abbrev pub cost : ℕ → Place → ℕ
cost n (pushing vs) = 5 * length vs + 4 * n + 2
cost n (posting vs) = 5 * length vs + 4 * n + 6
cost n (closing k) = 4 * k + 1
cost n waiting = 0
cost n woken = 2
cost n (popped o) = 1
cost n crashed = 0
cost n finished = 0

-- What the place of thread `i` says of the rest.
abbrev pub Fact : Bool → List Vec → ℕ → Place → Type 0
Fact d q i (pushing vs) = (i ≡ 0) × (d ≡ false)
Fact d q i (posting vs) = (i ≡ 0) × (d ≡ false)
Fact d q i (closing k) = (i ≡ 0) × (d ≡ true)
Fact d q i (popped none) = (d ≡ true) × (q ≡ [])
Fact d q i finished = (d ≡ true) × (q ≡ [])
Fact d q i crashed = ⊥
Fact d q i waiting = Unit {0}
Fact d q i woken = Unit {0}
Fact d q i (popped (some v)) = Unit {0}

abbrev pub shuffles : Place → Bool
shuffles (pushing vs) = true
shuffles (posting vs) = true
shuffles (closing k) = false
shuffles waiting = false
shuffles woken = false
shuffles (popped o) = false
shuffles crashed = false
shuffles finished = false

module _ (groups : List Vec) (n : ℕ) where
  pub record Inv (k : ℕ) (s : Reducing) : Type 0 where
    pub balance :
        s.semaphore + sum_below (λ i. credit (s.place i)) n
        ≡ length s.queue + (if s.is_shuffle_done then n else 0)
    pub kept :
        (w : Vec → ℕ)
        → weigh w s.reduced + sum_below (λ i. held w (s.place i)) n + weigh w s.queue
          ≡ weigh w groups
    pub spent :
        k + 3 * s.semaphore + sum_below (λ i. cost n (s.place i)) n ≤ 5 * length groups + 4 * n + 2
    pub facts : (i : ℕ) → Fact s.is_shuffle_done s.queue i (s.place i)
    pub shuffler : s.is_shuffle_done ≡ false → shuffles (s.place 0) ≡ true

-- The places of the other threads stay true to the rest.
other_fact :
    (d d' : Bool) (q q' : List Vec) (j : ℕ) (p : Place)
    → (d ≡ false → j ≡ 0 → d' ≡ false)
    → (d ≡ true → d' ≡ true)
    → (d ≡ true → q ≡ [] → q' ≡ [])
    → Fact d q j p
    → Fact d' q' j p
other_fact d d' q q' j (pushing vs) a b c h = (h.0, a h.1 h.0)
other_fact d d' q q' j (posting vs) a b c h = (h.0, a h.1 h.0)
other_fact d d' q q' j (closing k) a b c h = (h.0, b h.1)
other_fact d d' q q' j (popped none) a b c h = (b h.0, c h.0 h.1)
other_fact d d' q q' j (popped (some v)) a b c h = tt
other_fact d d' q q' j finished a b c h = (b h.0, c h.0 h.1)
other_fact d d' q q' j waiting a b c h = tt
other_fact d d' q q' j woken a b c h = tt
other_fact d d' q q' j crashed a b c h = h

pub all_facts :
    (d d' : Bool) (q q' : List Vec) (place : ℕ → Place) (i : ℕ) (r : Place)
    → ((j : ℕ) → Fact d q j (place j))
    → ((j : ℕ) → j ≢ i → d ≡ false → j ≡ 0 → d' ≡ false)
    → (d ≡ true → d' ≡ true)
    → (d ≡ true → q ≡ [] → q' ≡ [])
    → Fact d' q' i r
    → (j : ℕ) → Fact d' q' j (update place i r j)
all_facts d d' q q' place i r old a b c new j = elim (Bool-cases (j == i)) [
  | inl e ↦ rw e (subst (λ m. Fact d' q' m r) (sym (eq_of_== j i e)) new)
  | inr e ↦ rw e (other_fact d d' q q' j (place j) (a j (ne_of_== j i e)) b c (old j))
]
