-- ===== src/MapReduce/Mapping/Emitted.antt =====
-- ex3/MapReduceFramework.cpp: the threads together emit what one thread alone would.
use os.Common.{
  ℕ, zero, suc, ◌+◌, ◌-◌, ◌*◌, ◌%◌, ◌≤◌, ◌<◌, ◌≡◌, ◌≢◌, refl, ap, ◌∙◌, none, some, List, [], ◌∷◌,
  update, length, take, arith, ◌⊎◌, inl, inr, sum_below, sum_below-update, sum_below-ext,
  sum_below_none, sum_below-le, sum_below_ones, one_gap,
}
use os.MapReduce.Shuffle.{Pair, Vec}
use os.MapReduce.Conserved.{count, count-append}
use os.MapReduce.Mapping.{
  Place, fetching, mapping, finished, Worker, Mapping, ulong_mod, get_elem?, emit2, emit_all,
  fetched, map_step, map_init, Reach, start, later, sequential,
}

emit_all_lem :
    (w : Worker) (ps : Vec)
    → ((emit_all w ps).place ≡ w.place)
      × ((p : Pair) → count p (emit_all w ps).vector ≡ count p w.vector + count p ps)
unfolding emit_all emit2
emit_all_lem w [] = (refl, λ p. unfold count in omega arith)
emit_all_lem w (q ∷ ps) =
    let (same, all) = emit_all_lem (emit2 w q) ps in
    (same, λ p. omega (arith, all p, count-append p w.vector (q ∷ []), count-append p (q ∷ []) ps))

module _ (client_map : Pair → Vec) where
  -- The pairs that a thread has fetched the input of and not emitted yet.
  abbrev pending : Pair → Place → ℕ
  pending p (mapping x) = count p (client_map x)
  pending p fetching = 0
  pending p finished = 0

  abbrev weight : Pair → Worker → ℕ
  weight p w = count p w.vector + pending p w.place

  sequential-take :
      (p : Pair) (k : ℕ) (inputs : List Pair)
      → count p (sequential client_map (take (suc k) inputs))
        ≡ count p (sequential client_map (take k inputs)) + pending p (fetched (get_elem? inputs k))
  unfolding sequential count
  sequential-take p zero [] = refl
  sequential-take p (suc k) [] = refl
  sequential-take p zero (x ∷ xs) = omega (arith, count-append p (client_map x) [])
  sequential-take p (suc k) (x ∷ xs) = omega (
    arith,
    sequential-take p k xs,
    count-append p (client_map x) (sequential client_map (take k xs)),
    count-append p (client_map x) (sequential client_map (take (suc k) xs)),
  )

abbrev fin : Worker → ℕ
fin w = elim w.place [ finished ↦ 1 | fetching ↦ 0 | mapping x ↦ 0 ]

-- A bound of the steps that a thread has still to make, but for new inputs.
abbrev cost : Worker → ℕ
cost w = elim w.place [ finished ↦ 0 | fetching ↦ 1 | mapping x ↦ 2 ]

fin-le : (w : Worker) → fin w ≤ 1
fin-le w = ground arith

fetched_cases :
    (inputs : List Pair) (i : ℕ)
    → ((i < length inputs) × ((x : Pair) × (get_elem? inputs i ≡ some x)))
      ⊎ ((length inputs ≤ i) × (get_elem? inputs i ≡ none))
fetched_cases [] i = inr (omega arith, refl)
fetched_cases (x ∷ xs) zero = inl (omega arith, (x, refl))
fetched_cases (x ∷ xs) (suc i) = elim (fetched_cases xs i) [
  | inl (h, e) ↦ inl (omega arith, e)
  | inr (h, e) ↦ inr (omega arith, e)
]

module _ (client_map : Pair → Vec) (inputs : List Pair) (n : ℕ) where
  record Inv (k : ℕ) (s : Mapping) : Type 0 where
    bounded : s.index ≤ length inputs + sum_below (λ i. fin (s.worker i)) n
    ended : (i : ℕ) → i < n → (s.worker i).place ≡ finished → length inputs ≤ s.index
    emitted :
        (p : Pair)
        → sum_below (λ i. weight client_map p (s.worker i)) n
          ≡ count p (sequential client_map (take s.index inputs))
    spent :
        k + 3 * (length inputs - s.index) + sum_below (λ i. cost (s.worker i)) n
        ≤ 3 * length inputs + n

  fetch-Inv :
      (k i : ℕ) (s : Mapping)
      → length inputs + n < ulong_mod
      → Inv k s
      → i < n
      → (s.worker i).place ≡ fetching
      → Inv (suc k) (map_step client_map inputs s i fetching)
  unfolding map_step
  fetch-Inv k i s fits v li e =
      let w : Worker = record (s.worker i) { place = fetched (get_elem? inputs s.index) } in
      let gap =
        one_gap (λ j. fin (s.worker j)) n i (λ j. fin-le (s.worker j)) li (ground (arith, e)) in
      let next : (s.index + 1) % ulong_mod ≡ suc s.index = omega (arith, v.bounded) in
      let f = sum_below-update fin s.worker i w n li in
      let c = sum_below-update cost s.worker i w n li in
      let old_fin : fin (s.worker i) ≡ 0 = ground (arith, e) in
      let old_cost : cost (s.worker i) ≡ 1 = ground (arith, e) in
      let all : (p : Pair)
          → sum_below (λ j. weight client_map p (update s.worker i w j)) n
            ≡ count p (sequential client_map (take (suc s.index) inputs)) =
        λ p. omega (
          arith,
          v.emitted p,
          sum_below-update (weight client_map p) s.worker i w n li,
          sequential-take client_map p s.index inputs,
          ap (pending client_map p) e,
        ) in
      elim (fetched_cases inputs s.index) [
        | inl (h, (x, g)) ↦ rw next (record {
          bounded = omega (arith, h);
          ended = λ j lj. ground (arith, g, v.ended j lj);
          emitted = all;
          spent =
              let new : cost w ≡ 2 = ap (λ o. cost (record (s.worker i) { place = fetched o })) g in
              omega (arith, h, c, old_cost, new, v.spent);
        })
        | inr (h, g) ↦ rw next (record {
          bounded =
              let new : fin w ≡ 1 = ap (λ o. fin (record (s.worker i) { place = fetched o })) g in
              omega (arith, f, old_fin, new, v.bounded);
          ended = λ j lj q. omega (arith, h);
          emitted = all;
          spent =
              let new : cost w ≡ 0 = ap (λ o. cost (record (s.worker i) { place = fetched o })) g in
              omega (arith, h, c, old_cost, new, v.spent);
        })
      ]

  emit-Inv :
      (k i : ℕ) (s : Mapping) (x : Pair)
      → Inv k s
      → i < n
      → (s.worker i).place ≡ mapping x
      → Inv (suc k) (map_step client_map inputs s i (mapping x))
  unfolding map_step
  emit-Inv k i s x v li e =
      let w : Worker = record (emit_all (s.worker i) (client_map x)) { place = fetching } in
      let (same, all) = emit_all_lem (s.worker i) (client_map x) in
      let old_fin : fin (s.worker i) ≡ 0 = ground (arith, e) in
      let old_cost : cost (s.worker i) ≡ 2 = ground (arith, e) in
      record {
        bounded = omega (arith, v.bounded, sum_below-update fin s.worker i w n li, old_fin);
        ended = λ j lj. ground (arith, v.ended j lj);
        emitted = λ p. omega (
          arith,
          v.emitted p,
          sum_below-update (weight client_map p) s.worker i w n li,
          all p,
          ap (pending client_map p) e,
        );
        spent = omega (arith, v.spent, sum_below-update cost s.worker i w n li, old_cost);
      }

  step-Inv :
      (k i : ℕ) (s : Mapping) (p : Place)
      → length inputs + n < ulong_mod
      → Inv k s
      → i < n
      → (s.worker i).place ≡ p
      → p ≢ finished
      → Inv (suc k) (map_step client_map inputs s i p)
  step-Inv k i s fetching fits v li e ne = fetch-Inv k i s fits v li e
  step-Inv k i s (mapping x) fits v li e ne = emit-Inv k i s x v li e
  step-Inv k i s finished fits v li e ne = absurd (ne refl)

  Reach-Inv :
      {k : ℕ} {s : Mapping}
      → length inputs + n < ulong_mod
      → Reach client_map inputs n k s
      → Inv k s
  unfolding map_init count sequential
  Reach-Inv fits start = record {
    bounded = omega arith;
    ended = λ i l e. cc;
    emitted = λ p. sum_below_none n;
    spent = omega (arith, sum_below_ones n);
  }
  Reach-Inv fits (later {k} {s} {p} r i li e ne) = step-Inv k i s p fits (Reach-Inv fits r) li e ne

take_all : (n : ℕ) (xs : List Pair) → length xs ≤ n → take n xs ≡ xs
take_all zero [] h = refl
take_all zero (x ∷ xs) h = elim h [ ]
take_all (suc n) [] h = refl
take_all (suc n) (x ∷ xs) h = ap (λ r. x ∷ r) (take_all n xs (omega arith))

-- In whatever order the threads take the inputs, they make at most three steps for each input and one
-- more for each thread, and the shared index stays at most the inputs and the threads together: it never
-- wraps around, if these are fewer than the values of its type.
pub map_phase_bounds :
    (client_map : Pair → Vec) (inputs : List Pair) (n k : ℕ) (s : Mapping)
    → length inputs + n < ulong_mod
    → Reach client_map inputs n k s
    → (k ≤ 3 * length inputs + n) × (s.index ≤ length inputs + n)
map_phase_bounds client_map inputs n k s fits r =
    let v = Reach-Inv client_map inputs n fits r in
    (
      omega (arith, v.spent),
      omega (arith, v.bounded, sum_below-le (λ i. fin (s.worker i)) n (λ i. fin-le (s.worker i))),
    )

-- When all threads have finished, they have emitted together what one thread does.
pub all_emitted :
    (client_map : Pair → Vec) (inputs : List Pair) (n k : ℕ) (s : Mapping)
    → length inputs + n < ulong_mod
    → 0 < n
    → Reach client_map inputs n k s
    → ((i : ℕ) → i < n → (s.worker i).place ≡ finished)
    → (p : Pair)
    → sum_below (λ i. count p (s.worker i).vector) n ≡ count p (sequential client_map inputs)
all_emitted client_map inputs n k s fits pos r done p =
    let v = Reach-Inv client_map inputs n fits r in
    sum_below-ext _ _ n (λ i l. omega (arith, ap (pending client_map p) (done i l)))
    ∙ v.emitted p
    ∙ ap (λ l. count p (sequential client_map l))
        (take_all s.index inputs (v.ended 0 pos (done 0 pos)))
