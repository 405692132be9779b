-- ===== src/MapReduce/Barrier/Spurious.antt =====
-- ex3/Barrier.cpp: what a thread that wakes up by itself does. `barrier` does not test again behind
-- `pthread_cond_wait`.
use os.Common.{ℕ, ◌≤◌, ◌<◌, ◌≡◌, ◌≢◌, refl, update, arith}
use os.MapReduce.Barrier.{waiting, woken, Barrier, barrier_init, enter, leave, Step, arrive, resume}

-- The steps of before, and a wake-up that no broadcast caused.
pub data AnyStep (n : ℕ) (b : Barrier) : Barrier → Type 0 where
  ordinary : {c : Barrier} → Step n b c → AnyStep n b c
  spurious :
      (i : ℕ)
      → i < n
      → b.place i ≡ waiting
      → AnyStep n b (record b { place = update b.place i woken })

pub data AnyReach (n : ℕ) : Barrier → Type 0 where
  begin : AnyReach n barrier_init
  next : {b c : Barrier} → AnyReach n b → AnyStep n b c → AnyReach n c

arrived : (n i : ℕ) → 2 ≤ n → i < n → (enter n barrier_init i).place i ≡ waiting
unfolding enter barrier_init
arrived n i h li = ground arith

-- One spurious wake-up is enough for a thread to get past the barrier while another, for any two of
-- them, has not even come to it.
pub spurious_passes :
    (n i j : ℕ)
    → i < n
    → j < n
    → i ≢ j
    → (b : Barrier) × AnyReach n b × (b.returns i ≡ 1) × (b.calls j ≡ 0)
unfolding enter leave barrier_init
spurious_passes n i j li lj ne =
    let h : 2 ≤ n = ground arith in
    let b1 = enter n barrier_init i in
    let b2 : Barrier = record b1 { place = update b1.place i woken } in
    (
      leave b2 i,
      next (next (next begin (ordinary (arrive i li refl))) (spurious i li (arrived n i h li)))
          (ordinary (resume i li (ground arith))),
      ground arith,
      ground arith,
    )
