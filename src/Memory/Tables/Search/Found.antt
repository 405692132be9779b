-- ===== src/Memory/Tables/Search/Found.antt =====
-- ex5/VirtualMemory.cpp: what `findEmptyTable` and `findFreeFrame` find.
use os.Common.{
  ℕ, zero, suc, ◌+◌, ◌%◌, ◌/◌, ◌≡◌, ◌≢◌, refl, sym, ap, ◌∙◌, ◌⊎◌, inl, inr, Bool, true, false, none,
  some, ltb, ◌==◌, arith, Bool-cases,
}
use mathlib.Core.Path.{subst}
use os.Memory.Physical.{ram_size, initialize, Memory, page_size, ensure, pm_read}
use os.Memory.Tables.Clear.{address, empty_from, is_frame_empty, ensure_sized}
use os.Memory.Tables.Empty.{empty_from-ensure}
use os.Memory.Tables.Unlink.{to_u64}
use os.Memory.Tables.Search.{
  Search, returns, aborts, undefined, larger, may_take, after_call, search_entries,
  find_empty_table, use_found, find_free_frame,
}

read_cases :
    (m : Memory) (a : ℕ)
    → m.sized ≡ true
    → (pm_read m a ≡ none) ⊎ ((v : ℕ) × (pm_read m a ≡ some (v, m)))
unfolding pm_read
read_cases m a sized = elim (Bool-cases (ltb a ram_size)) [
  | inl e ↦ inr (
    m.ram (a / page_size) (a % page_size),
    rw e (
        ap (λ (k : Memory). some (k.ram (a / page_size) (a % page_size), k))
          (ensure_sized m sized)),
  )
  | inr e ↦ inl (rw e refl)
]

empty_from_cases :
    (n i f : ℕ) (m : Memory)
    → m.sized ≡ true
    → (empty_from n i m f ≡ none) ⊎ ((b : Bool) × (empty_from n i m f ≡ some (b, m)))
unfolding empty_from
empty_from_cases zero i f m sized = inr (true, refl)
empty_from_cases (suc n) i f m sized = elim (read_cases m (address f i) sized) [
  | inl e ↦ inl (rw (e, empty_from) refl)
  | inr (v, e) ↦ elim (Bool-cases (v == 0)) [
    | inl z ↦ rw (e, empty_from) (rw (z, empty_from) (empty_from_cases n (i + 1) f m sized))
    | inr nz ↦ inr (false, rw (e, empty_from) (rw (nz, empty_from) refl))
  ]
]

-- A test of a frame fails an assertion or leaves the memory as it is.
empty_cases :
    (m : Memory) (f : ℕ)
    → m.sized ≡ true
    → (is_frame_empty m f ≡ none) ⊎ ((b : Bool) × (is_frame_empty m f ≡ some (b, m)))
unfolding is_frame_empty
empty_cases m f sized = empty_from_cases 16 0 f m sized

-- What a search found in memory `m`, if it returned anything.
abbrev pub FoundEmpty : Memory → Search → Type 0
FoundEmpty m (returns f parent max_frame m') =
    (m' ≡ m) × (f ≢ 0) × (is_frame_empty m f ≡ some (true, m))
FoundEmpty m aborts = Unit {0}
FoundEmpty m undefined = Unit {0}

abbrev Finds : Memory → Search → Type 0
Finds m (returns f parent max_frame m') =
    (m' ≡ m) × ((f ≡ 0) ⊎ (is_frame_empty m f ≡ some (true, m)))
Finds m aborts = Unit {0}
Finds m undefined = Unit {0}

to_u64-zero : (v : ℕ) → (v == 0) ≡ false → to_u64 v ≢ 0
unfolding to_u64
to_u64-zero v e h = ground arith

after_call_found :
    (rest : ℕ → ℕ → Memory → Search) (parent : ℕ) (m : Memory) (o : Search)
    → ((f x : ℕ) → FoundEmpty m (rest f x m))
    → Finds m o
    → FoundEmpty m (after_call rest parent o)
unfolding after_call
after_call_found rest parent m aborts h g = tt
after_call_found rest parent m undefined h g = tt
after_call_found rest parent m (returns found f x m') h (same, g) = elim (Bool-cases (found == 0)) [
  | inl z ↦ rw (z, after_call) (subst (λ k. FoundEmpty m (rest f x k)) (sym same) (h f x))
  | inr nz ↦ rw (nz, after_call) (same, ground (arith, nz), ground (arith, nz, g))
]

entry_found :
    (rest : ℕ → ℕ → Memory → Search) (avoid v f parent x : ℕ) (m : Memory) (is_empty : Bool)
    (o : Search)
    → (v == 0) ≡ false
    → is_frame_empty m (to_u64 v) ≡ some (is_empty, m)
    → FoundEmpty m (after_call rest parent o)
    → FoundEmpty m (elim (may_take avoid (to_u64 v) is_empty) [
      | true ↦ returns (to_u64 v) f x m
      | false ↦ after_call rest parent o
    ])
unfolding may_take
entry_found rest avoid v f parent x m false o nz e h = h
entry_found rest avoid v f parent x m true o nz e h = elim (Bool-cases (avoid == to_u64 v)) [
  | inl k ↦ rw k h
  | inr k ↦ rw k (refl, to_u64-zero v nz, e)
]

entries_found :
    (deeper : ℕ → ℕ → ℕ → Memory → Search) (avoid : ℕ) (m : Memory)
    → m.sized ≡ true
    → ((f parent x : ℕ) → Finds m (deeper f parent x m))
    → (n i f parent x : ℕ) → FoundEmpty m (search_entries deeper avoid n i f parent x m)
unfolding search_entries
entries_found deeper avoid m sized h zero i f parent x = tt
entries_found deeper avoid m sized h (suc n) i f parent x =
    elim (read_cases m (address f i) sized) [
      | inl e ↦ rw (e, search_entries) tt
      | inr (v, e) ↦ elim (Bool-cases (v == 0)) [
        | inl z ↦
            rw (e, search_entries)
              (rw (z, search_entries) (entries_found deeper avoid m sized h n (i + 1) f parent x))
        | inr nz ↦ elim (empty_cases m (to_u64 v) sized) [
          | inl k ↦ rw (e, search_entries) (rw (nz, search_entries) (rw (k, search_entries) tt))
          | inr (b, k) ↦
              rw (e, search_entries)
                (rw (nz, search_entries)
                  (rw (k, search_entries)
                    (entry_found _ avoid v f parent _ m b _ nz k (
                      after_call_found _ parent m _
                        (λ f' x'. entries_found deeper avoid m sized h n (i + 1) f' parent x')
                        (h (to_u64 v) f (larger (to_u64 v) x))))))
        ]
      ]
    ]

Finds-FoundEmpty : (m : Memory) (o : Search) → FoundEmpty m o → Finds m o
Finds-FoundEmpty m aborts h = tt
Finds-FoundEmpty m undefined h = tt
Finds-FoundEmpty m (returns f p x m') (same, nz, e) = (same, inr e)

table-Finds :
    (avoid n f parent x : ℕ) (m : Memory)
    → m.sized ≡ true
    → Finds m (find_empty_table avoid n f parent x m)
unfolding find_empty_table
table-Finds avoid zero f parent x m sized = (refl, inl refl)
table-Finds avoid (suc n) f parent x m sized = elim (empty_cases m f sized) [
  | inl e ↦ rw (e, find_empty_table) tt
  | inr (true, e) ↦ rw (e, find_empty_table) (refl, inr e)
  | inr (false, e) ↦
      rw (e, find_empty_table)
        (Finds-FoundEmpty m _ (
          entries_found (find_empty_table avoid n) avoid m sized
            (λ f' p' x'. table-Finds avoid n f' p' x' m sized) 16 0 f parent x))
]

-- Below a table that is not empty, `findEmptyTable` never answers 0, its sign that it has found nothing:
-- what it returns is an empty frame.
root_found :
    (avoid n f parent x : ℕ) (m : Memory)
    → m.sized ≡ true
    → is_frame_empty m f ≡ some (false, m)
    → FoundEmpty m (find_empty_table avoid (suc n) f parent x m)
unfolding find_empty_table
root_found avoid n f parent x m sized e =
    rw (e, find_empty_table)
      (entries_found (find_empty_table avoid n) avoid m sized
        (λ f' p' x'. table-Finds avoid n f' p' x' m sized) 16 0 f parent x)

use_found_same :
    (evict : Memory → Search) (m : Memory) (o : Search) → FoundEmpty m o → use_found evict o ≡ o
unfolding use_found
use_found_same evict m aborts h = refl
use_found_same evict m undefined h = refl
use_found_same evict m (returns f p x m') (same, nz, e) = ground (arith, nz)

-- The frame that `findFreeFrame` gives: 1 if the root is empty, and else an empty frame other than the root.
abbrev pub FreeFrame : Memory → ℕ → Type 0
FreeFrame m f =
    ((is_frame_empty m 0 ≡ some (true, m)) × (f ≡ 1))
    ⊎ ((is_frame_empty m 0 ≡ some (false, m)) × (f ≢ 0) × (is_frame_empty m f ≡ some (true, m)))

ensure-sized : (m : Memory) → (ensure m).sized ≡ true
unfolding ensure initialize
ensure-sized m = ground arith

is_frame_empty-ensure : (m : Memory) (f : ℕ) → is_frame_empty m f ≡ is_frame_empty (ensure m) f
unfolding is_frame_empty
is_frame_empty-ensure m f = empty_from-ensure 15 0 m f

-- What `findFreeFrame` may give, whatever `frameEvicter` does.
abbrev Gives : Memory → Search → Type 0
Gives m (returns f parent x m') = (m' ≡ m) × FreeFrame m f
Gives m aborts = Unit {0}
Gives m undefined = Unit {0}

FoundEmpty-Gives :
    (m : Memory) (o : Search) → is_frame_empty m 0 ≡ some (false, m) → FoundEmpty m o → Gives m o
FoundEmpty-Gives m aborts z h = tt
FoundEmpty-Gives m undefined z h = tt
FoundEmpty-Gives m (returns f p x m') z (same, nz, e) = (same, inr (z, nz, e))

free_frame_cases :
    (evict : Memory → Search) (avoid : ℕ → ℕ) (d : ℕ) (m : Memory)
    → (o : Search) × ((evict' : Memory → Search) → find_free_frame evict' avoid d m ≡ o)
      × Gives (ensure m) o
unfolding find_free_frame
free_frame_cases evict avoid d m = elim (empty_cases (ensure m) 0 (ensure-sized m)) [
  | inl e ↦ (aborts, λ evict'. rw (first, find_free_frame) (rw (e, find_free_frame) refl), tt)
  | inr (true, e) ↦ (
    returns 1 0 0 (ensure m),
    λ evict'. rw (first, find_free_frame) (rw (e, find_free_frame) refl),
    (refl, inl (e, refl)),
  )
  | inr (false, e) ↦
      let found = root_found (avoid d) 2 0 0 0 (ensure m) (ensure-sized m) e in
      (
        _,
        λ evict'.
            rw (first, find_free_frame)
              (rw (e, find_free_frame) (use_found_same evict' (ensure m) _ found)),
        FoundEmpty-Gives (ensure m) _ e found,
      )
]
  where
    first : is_frame_empty m 0 ≡ is_frame_empty (ensure m) 0
    first = is_frame_empty-ensure m 0

given :
    (m : Memory) (o : Search) (f parent x : ℕ) (m' : Memory)
    → Gives m o
    → o ≡ returns f parent x m'
    → (m' ≡ m) × FreeFrame m f
given m o f parent x m' g e = subst (Gives m) e g

-- If `findFreeFrame` returns at all, it returns 1 when frame 0 is empty and else an empty frame, and changes
-- no word. It never comes to take the frame after the greatest one in use, nor to evict a page: what
-- it does is the same for every `frameEvicter`.
pub find_free_frame_lem :
    (evict evict' : Memory → Search) (avoid : ℕ → ℕ) (d : ℕ) (m : Memory)
    → (find_free_frame evict avoid d m ≡ find_free_frame evict' avoid d m)
      × ((f parent x : ℕ) (m' : Memory)
          → find_free_frame evict avoid d m ≡ returns f parent x m'
          → (m' ≡ ensure m) × FreeFrame (ensure m) f)
find_free_frame_lem evict evict' avoid d m =
    let (o, same, g) = free_frame_cases evict avoid d m in
    (
      same evict ∙ sym (same evict'),
      λ f parent x m' e. given (ensure m) o f parent x m' g (sym (same evict) ∙ e),
    )
