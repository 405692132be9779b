-- ===== src/Uthreads/Accounts/Conserved.antt =====
-- ex2/uthreads.cpp: the total of quantums against the counters of the threads.
use os.Common.{
  ℕ, ◌+◌, ◌<◌, ◌≤◌, ◌≡◌, refl, Bool, true, false, ◌==◌, if◌then◌else◌, arith, pos, negsuc,
  sum_below, sum_below-ext, sum_below_swap, sum_below_add_one, sum_below_none, ◌||◌, inl, inr,
  Bool-cases,
}
use os.Uthreads.Ids.{max_thread_num}
use os.Uthreads.Machine.{State, Replies, Outcome, returned, switched, exited, undefined, int_max}
use os.Uthreads.Calls.{uthread_init, first_state}
use os.Uthreads.Invariant.{Inv}
use os.Uthreads.Run.{
  Event, spawns, tick, terminates, blocks, resumes, syncs, Admitted, perform, Reach, inits, next,
  Reach-Inv, Continues, returns, switches,
}
use os.Uthreads.Accounts.{Counts, counter, kept, tick-Counts}
use os.Uthreads.Accounts.Calls.{
  spawn-Counts, block-Counts, resume-Counts, sync-Counts, terminate-Counts,
}

-- The sum of `uthread_get_quantums` over the threads.
abbrev pub all_quantums : State → ℕ
all_quantums s = sum_below (counter s) max_thread_num

-- What the thread has used that an event ends.
abbrev pub lost : State → Event → ℕ
lost s spawns = 0
lost s tick = 0
lost s (terminates (pos i)) = counter s i
lost s (terminates (negsuc i)) = 0
lost s (blocks tid) = 0
lost s (resumes tid) = 0
lost s (syncs tid) = 0

perform-Counts :
    (r : Replies) (s : State) (e : Event) → Inv s → Admitted s e → Counts s e (perform r s e)
unfolding perform
perform-Counts r s spawns v a = spawn-Counts r s v
perform-Counts r s tick v a = tick-Counts r s
perform-Counts r s (terminates (negsuc n)) v a = elim a [ ]
perform-Counts r s (terminates (pos i)) v a = terminate-Counts r s i v a.0
perform-Counts r s (blocks (negsuc n)) v a = elim a [ ]
perform-Counts r s (blocks (pos i)) v a = block-Counts r s i v a
perform-Counts r s (resumes (negsuc n)) v a = elim a [ ]
perform-Counts r s (resumes (pos i)) v a = resume-Counts r s i v a
perform-Counts r s (syncs (negsuc n)) v a = elim a [ ]
perform-Counts r s (syncs (pos i)) v a = sync-Counts r s i v a

-- What an event leaves before a switch, and what it ends, make up the sum.
kept_sum :
    (s : State) (e : Event)
    → Admitted s e
    → sum_below (kept s e) max_thread_num + lost s e ≡ all_quantums s
kept_sum s spawns a = omega arith
kept_sum s tick a = omega arith
kept_sum s (terminates (negsuc n)) a = omega arith
kept_sum s (terminates (pos i)) a = omega (
  arith,
  sum_below_swap (kept s (terminates (pos i))) (counter s) max_thread_num i a.0
      (λ j ne. ground (arith, ne)),
  own,
)
  where
    own : kept s (terminates (pos i)) i ≡ 0
    own = ground arith
kept_sum s (blocks tid) a = omega arith
kept_sum s (resumes tid) a = omega arith
kept_sum s (syncs tid) a = omega arith

module _ (s : State) (e : Event) (a : Admitted s e) where
  account :
      {o : Outcome} {t : State}
      → Continues o t
      → Counts s e o
      → t.current_thread < max_thread_num
      → t.total_quantums + all_quantums s ≡ s.total_quantums + all_quantums t + lost s e
  account (returns {t = t}) (total, each) h =
      let same = sum_below-ext (counter t) (kept s e) max_thread_num (λ i l. each i) in
      omega (arith, total, same, kept_sum s e a)
  account (switches {t = t}) (total, each) h =
      let same =
        sum_below-ext (counter t) (λ i. kept s e i + (if i == t.current_thread then 1 else 0))
          max_thread_num (λ i l. each i) in
      omega (
        arith,
        total,
        same,
        sum_below_add_one (kept s e) max_thread_num t.current_thread h,
        kept_sum s e a,
      )

current_lt : (t : State) → Inv t → t.current_thread < max_thread_num
current_lt t v = ground (arith, v.running, v.sound.bounded t.current_thread)

-- `uthread_init` starts with one quantum, that of the main thread.
abbrev Covered : Outcome → Type 0
Covered (returned v t) = all_quantums t ≤ t.total_quantums
Covered (switched t) = ⊥
Covered (exited code) = Unit {0}
Covered undefined = Unit {0}

started_sum : (q : ℕ) → all_quantums (first_state q) ≡ 1
unfolding first_state
started_sum q =
    let one =
      sum_below_swap (counter (first_state q)) (λ i. 0) max_thread_num 0 (omega arith)
        (λ j ne. ground (arith, ne)) in
    omega (arith, one, sum_below_none max_thread_num)

started_total : (q : ℕ) → (first_state q).total_quantums ≡ 1
unfolding first_state
started_total q = refl

init-Covered : (r : Replies) (q : ℕ) → 0 < q → Covered (uthread_init r (pos q))
unfolding uthread_init
init-Covered r q h = elim (Bool-cases (q == 0)) [
  | inl z ↦ absurd (ground (arith, z))
  | inr nz ↦ rw nz (covered (r.ignore_fails || r.timer_fails || r.alloc_fails))
]
  where
    within : all_quantums (first_state q) ≤ (first_state q).total_quantums
    within = omega (arith, started_sum q, started_total q)

    covered : (b : Bool) → Covered (if b then exited 1 else returned (pos 0) (first_state q))
    covered true = tt
    covered false = within

Continues-le :
    {o : Outcome} {s : State} → Continues o s → Covered o → all_quantums s ≤ s.total_quantums
Continues-le returns c = c
Continues-le switches c = absurd c

grows :
    {s t : State} (r : Replies) (e : Event)
    → Reach s
    → Admitted s e
    → s.total_quantums < int_max
    → Continues (perform r s e) t
    → t.total_quantums + all_quantums s ≡ s.total_quantums + all_quantums t + lost s e
grows {s} {t} r e reach a below go =
    let w = Reach-Inv (next r e reach a below go) in
    account s e a go (perform-Counts r s e (Reach-Inv reach) a) (current_lt t w)

all_quantums-le : {s : State} → Reach s → all_quantums s ≤ s.total_quantums
all_quantums-le (inits r q h c) = Continues-le c (init-Covered r q h)
all_quantums-le (next r e before a below c) =
    omega (arith, grows r e before a below c, all_quantums-le before)

-- While the total of quantums is below the largest `int`: in every state that admitted events reach, the counters of the threads are together at most the total of
-- quantums; and an admitted event adds to the total just what it adds to the counters together, apart from the
-- counter of a thread that it ends, which goes.
pub quantums_conserved :
    {s t : State} (r : Replies) (e : Event)
    → Reach s
    → Admitted s e
    → s.total_quantums < int_max
    → Continues (perform r s e) t
    → (all_quantums s ≤ s.total_quantums)
      × (t.total_quantums + all_quantums s ≡ s.total_quantums + all_quantums t + lost s e)
quantums_conserved r e reach a below go = (all_quantums-le reach, grows r e reach a below go)
