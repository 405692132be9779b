-- ===== src/MapReduce/Conserved.antt =====
-- ex3/MapReduceFramework.cpp: `shufflePhase` ends, and loses and invents no pair.
use os.Common.{
  ℕ, zero, suc, ◌+◌, ◌≤◌, ◌<◌, ◌≡◌, refl, ◌∙◌, Bool, true, false, ◌&&◌, some, List, [], ◌∷◌, ◌++◌,
  ◌==◌, if◌then◌else◌, length, length-append, arith, Bool-cases, Option-cases, inl, inr,
}
use os.MapReduce.Shuffle.{
  Pair, Vec, erase_empty, insert_vector, sort_vectors, key_equal, take_key, keep_vector, collect,
  first_key, round, shuffle, size, shuffle_phase,
}

-- How often a pair occurs in a vector, and in all vectors.
unfoldable pub count : Pair → Vec → ℕ
count p [] = 0
count (a, b) ((c, d) ∷ v) = (if (a == c) && (b == d) then 1 else 0) + count (a, b) v

unfoldable pub total : Pair → List Vec → ℕ
total p [] = 0
total p (v ∷ vs) = count p v + total p vs

abbrev pub NoneEmpty : List Vec → Type 0
NoneEmpty [] = Unit {0}
NoneEmpty (v ∷ vs) = (0 < length v) × NoneEmpty vs

pub count-append : (p : Pair) (v w : Vec) → count p (v ++ w) ≡ count p v + count p w
unfolding count
count-append p [] w = omega arith
count-append (a, b) ((c, d) ∷ v) w = omega (arith, count-append (a, b) v w)

take_key-count :
    (less : ℕ → ℕ → Bool) (k : ℕ) (visited : Bool) (p : Pair) (v : Vec)
    → count p (take_key less k visited v).0 + count p (take_key less k visited v).1 ≡ count p v
unfolding take_key count
take_key-count less k visited p [] = omega arith
take_key-count less k visited (a, b) ((c, d) ∷ v) =
    ground (arith, take_key-count less k true (a, b) v, take_key-count less k false (a, b) v)

take_key-length :
    (less : ℕ → ℕ → Bool) (k : ℕ) (visited : Bool) (v : Vec)
    → length (take_key less k visited v).0 + length (take_key less k visited v).1 ≡ length v
unfolding take_key
take_key-length less k visited [] = omega arith
take_key-length less k visited ((c, d) ∷ v) =
    ground (arith, take_key-length less k true v, take_key-length less k false v)

total-keep_vector :
    (p : Pair) (v : Vec) (vs : List Vec) → total p (keep_vector v vs) ≡ count p v + total p vs
unfolding total count
total-keep_vector p [] vs = omega arith
total-keep_vector p (q ∷ v) vs = refl

size-keep_vector : (v : Vec) (vs : List Vec) → size (keep_vector v vs) ≡ length v + size vs
unfolding size
size-keep_vector [] vs = omega arith
size-keep_vector (q ∷ v) vs = refl

keep_vector-NoneEmpty : (v : Vec) (vs : List Vec) → NoneEmpty vs → NoneEmpty (keep_vector v vs)
keep_vector-NoneEmpty [] vs h = h
keep_vector-NoneEmpty (q ∷ v) vs h = (omega arith, h)

-- The pairs of a group and of the vectors left are those of the vectors before.
abbrev pub Splits : List Vec → Vec → List Vec → Type 0
Splits vs group rest =
    NoneEmpty rest
    × (length group + size rest ≡ size vs)
    × ((p : Pair) → count p group + total p rest ≡ total p vs)

collect-Splits :
    (less : ℕ → ℕ → Bool) (k : ℕ) (vs : List Vec)
    → NoneEmpty vs
    → (group : Vec) × (rest : List Vec) × (collect less k vs ≡ some (group, rest))
      × Splits vs group rest
unfolding collect size total
collect-Splits less k [] h =
    ([], [], refl, (record {}, omega arith, λ p. unfold count in omega arith))
collect-Splits less k ([] ∷ vs) h = elim h.0 [ ]
collect-Splits less k ((q ∷ v) ∷ vs) h =
    let (found, rest, e, (ne, len, all)) = collect-Splits less k vs h.1 in
    let t = take_key less k false (q ∷ v) in
    elim (Bool-cases (less k q.0)) [
      | inl stop ↦
          ([], (q ∷ v) ∷ vs, rw stop refl, (h, omega arith, λ p. unfold count in omega arith))
      | inr go ↦ (
        t.0 ++ found,
        keep_vector t.1 rest,
        rw go (rw e refl),
        (
          keep_vector-NoneEmpty t.1 rest ne,
          omega (
            arith,
            length-append t.0 found,
            size-keep_vector t.1 rest,
            take_key-length less k false (q ∷ v),
            len,
          ),
          λ p. omega (
            arith,
            count-append p t.0 found,
            total-keep_vector p t.1 rest,
            take_key-count less k false p (q ∷ v),
            all p,
          ),
        ),
      )
    ]

insert_vector-Same :
    (v : Vec) (vs : List Vec)
    → (size (insert_vector v vs) ≡ length v + size vs)
      × ((p : Pair) → total p (insert_vector v vs) ≡ count p v + total p vs)
      × (0 < length v → NoneEmpty vs → NoneEmpty (insert_vector v vs))
unfolding insert_vector size total
insert_vector-Same v [] = (refl, λ p. refl, λ h k. (h, k))
insert_vector-Same v (w ∷ ws) =
    let (a, b, c) = insert_vector-Same v ws in
    (ground (arith, a), λ p. ground (arith, b p), λ h k. ground (arith, c h k.1, k.0, k.1, h))

sort_vectors-Same :
    (vs : List Vec)
    → (size (sort_vectors vs) ≡ size vs)
      × ((p : Pair) → total p (sort_vectors vs) ≡ total p vs)
      × (NoneEmpty vs → NoneEmpty (sort_vectors vs))
unfolding sort_vectors size total
sort_vectors-Same [] = (refl, λ p. refl, λ h. h)
sort_vectors-Same (v ∷ vs) =
    let (a, b, c) = sort_vectors-Same vs in
    let (d, e, f) = insert_vector-Same v (sort_vectors vs) in
    (omega (arith, a, d), λ p. omega (arith, b p, e p), λ h. f h.0 (c h.1))

-- The first pair of the first vector is always taken.
collect_takes :
    (less : ℕ → ℕ → Bool) (q : Pair) (v : Vec) (vs rest : List Vec) (group : Vec)
    → ((k : ℕ) → less k k ≡ false)
    → collect less q.0 ((q ∷ v) ∷ vs) ≡ some (group, rest)
    → 0 < length group
unfolding collect take_key key_equal
collect_takes less (a, b) v vs rest group irr e = elim (Option-cases (collect less a vs)) [
  | inl f ↦ ground (arith, irr a, f, e)
  | inr ((found, r), f) ↦ ground (arith, irr a, f, e)
]

round-Splits :
    (less : ℕ → ℕ → Bool) (vs : List Vec)
    → ((k : ℕ) → less k k ≡ false)
    → NoneEmpty vs
    → 0 < size vs
    → (group : Vec) × (rest : List Vec) × (round less vs ≡ some (group, rest))
      × (0 < length group)
      × Splits vs group rest
unfolding round first_key size
round-Splits less [] irr h k = elim k [ ]
round-Splits less ([] ∷ vs) irr h k = elim h.0 [ ]
round-Splits less ((q ∷ v) ∷ vs) irr h k =
    let (group, rest, e, s) = collect-Splits less q.0 ((q ∷ v) ∷ vs) h in
    (group, rest, e, collect_takes less q v vs rest group irr e, s)

shuffle-round :
    (less : ℕ → ℕ → Bool) (n : ℕ) (v : Vec) (vs rest : List Vec) (group : Vec) (groups : List Vec)
    → round less (sort_vectors (v ∷ vs)) ≡ some (group, rest)
    → shuffle less n rest ≡ some groups
    → shuffle less (suc n) (v ∷ vs) ≡ some (group ∷ groups)
unfolding shuffle
shuffle-round less n v vs rest group groups e f = rw (e, shuffle) (rw f refl)

-- Each round queues at least one pair, so a round for each pair is enough.
shuffle_total :
    (less : ℕ → ℕ → Bool) (n : ℕ) (vs : List Vec)
    → ((k : ℕ) → less k k ≡ false)
    → NoneEmpty vs
    → size vs ≤ n
    → (groups : List Vec) × (shuffle less n vs ≡ some groups)
      × NoneEmpty groups
      × ((p : Pair) → total p groups ≡ total p vs)
unfolding shuffle size total
shuffle_total less n [] irr h le = ([], refl, record {}, λ p. refl)
shuffle_total less zero (v ∷ vs) irr h le = absurd (omega (arith, h.0))
shuffle_total less (suc n) (v ∷ vs) irr h le =
    let (same, all, none_empty) = sort_vectors-Same (v ∷ vs) in
    let (group, rest, e, pos, (ne, len, split)) =
      round-Splits less (sort_vectors (v ∷ vs)) irr (none_empty h) (omega (arith, same, h.0)) in
    let (groups, f, ge, gs) = shuffle_total less n rest irr ne (omega (arith, same, len, pos)) in
    (
      group ∷ groups,
      shuffle-round less n v vs rest group groups e f,
      (pos, ge),
      λ p. omega (arith, gs p, split p, all p),
    )

erase_empty-Same :
    (vs : List Vec)
    → (size (erase_empty vs) ≡ size vs)
      × ((p : Pair) → total p (erase_empty vs) ≡ total p vs)
      × NoneEmpty (erase_empty vs)
unfolding erase_empty size total count
erase_empty-Same [] = (refl, λ p. refl, record {})
erase_empty-Same ([] ∷ vs) =
    let (a, b, c) = erase_empty-Same vs in (omega (arith, a), λ p. omega (arith, b p), c)
erase_empty-Same ((q ∷ v) ∷ vs) =
    let (a, b, c) = erase_empty-Same vs in
    (omega (arith, a), λ p. omega (arith, b p), (omega arith, c))

-- If no key is less than itself, `shufflePhase` ends after at most as many rounds as there are pairs,
-- never reads from an empty vector, queues no empty group, and the groups together have each pair as
-- often as the threads' vectors have it.
pub shuffle_phase_total :
    (less : ℕ → ℕ → Bool) (vs : List Vec)
    → ((k : ℕ) → less k k ≡ false)
    → (groups : List Vec) × (shuffle_phase less vs ≡ some groups)
      × NoneEmpty groups
      × ((p : Pair) → total p groups ≡ total p vs)
unfolding shuffle_phase
shuffle_phase_total less vs irr =
    let (same, all, ne) = erase_empty-Same vs in
    let (groups, e, ge, gs) =
      shuffle_total less (size vs) (erase_empty vs) irr ne (omega (arith, same)) in
    (groups, e, ge, λ p. gs p ∙ all p)
