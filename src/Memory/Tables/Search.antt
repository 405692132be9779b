-- ===== src/Memory/Tables/Search.antt =====
-- ex5/VirtualMemory.cpp: `findEmptyTable` looks for an empty table below a table, and
-- `findFreeFrame` for a frame to use.
--
-- `frameEvicter` takes an array of references, which C++ does not have; what it would do is an argument.
-- A message on standard output is left out.
use os.Common.{
  ℕ, zero, suc, ◌+◌, ◌-◌, ◌%◌, ◌^◌, ◌≡◌, Bool, true, false, ◌&&◌, not, Option, none, some, ltb,
  ◌==◌, if◌then◌else◌,
}
use os.Memory.Physical.{Memory, num_frames, pm_read}
use os.Memory.Tables.Clear.{address, is_frame_empty}
use os.Memory.Tables.Unlink.{to_u64}
pub mod Found
pub mod Avoided

-- How a search ends.
pub data Search : Type 0 where
  -- The frame, and what is then in `curr_parentFrame`, in `maxFrameI` and in the memory.
  returns : ℕ → ℕ → ℕ → Memory → Search
  aborts : Search  -- a failed `assert`
  undefined : Search  -- the end of the function, without a `return`

-- `if (new_FrameIndex > maxFrameI) maxFrameI = new_FrameIndex;`
unfoldable pub larger : ℕ → ℕ → ℕ
larger new_frame max_frame = if ltb max_frame new_frame then new_frame else max_frame

-- The test of a child that is not 0: whether it is empty and may be taken.
unfoldable pub may_take : ℕ → ℕ → Bool → Bool
may_take avoid new_frame is_empty = is_empty && not (avoid == new_frame)

-- Behind the recursive call: the `return` for a frame that is not 0, or else the rest of the loop.
unfoldable pub after_call : (ℕ → ℕ → Memory → Search) → ℕ → Search → Search
after_call rest parent aborts = aborts
after_call rest parent undefined = undefined
after_call rest parent (returns found f max_frame m) = elim (found == 0) [
  | true ↦ rest f max_frame m
  | false ↦ returns found parent max_frame m
]

-- The loop over the entries of table `f`, with `n` rounds from `i` on; `deeper` is the recursive
-- call, which has the caller's `frameIndex` for its `curr_parentFrame`.
unfoldable pub search_entries :
    (ℕ → ℕ → ℕ → Memory → Search) → ℕ → ℕ → ℕ → ℕ → ℕ → ℕ → Memory → Search
search_entries deeper avoid zero i f parent max_frame m = undefined
search_entries deeper avoid (suc n) i f parent max_frame m = elim (pm_read m (address f i)) [
  | none ↦ aborts
  | some (v, m1) ↦ elim (v == 0) [
    | true ↦ search_entries deeper avoid n (i + 1) f parent max_frame m1
    | false ↦ elim (is_frame_empty m1 (to_u64 v)) [
      | none ↦ aborts
      | some (is_empty, m2) ↦ elim (may_take avoid (to_u64 v) is_empty) [
        | true ↦ returns (to_u64 v) f (larger (to_u64 v) max_frame) m2
        | false ↦
            after_call (λ f' x m3. search_entries deeper avoid n (i + 1) f' parent x m3) parent
              (deeper (to_u64 v) f (larger (to_u64 v) max_frame) m2)
      ]
    ]
  ]
]

-- `findEmptyTable`, with `TABLES_DEPTH - 1 - curr_depth` levels to go.
unfoldable pub find_empty_table : ℕ → ℕ → ℕ → ℕ → ℕ → Memory → Search
find_empty_table avoid zero f parent max_frame m = returns 0 parent max_frame m
find_empty_table avoid (suc n) f parent max_frame m = elim (is_frame_empty m f) [
  | none ↦ aborts
  | some (true, m') ↦ returns f parent max_frame m'
  | some (false, m') ↦ search_entries (find_empty_table avoid n) avoid 16 0 f parent max_frame m'
]

-- `TABLES_DEPTH`
abbrev pub tables_depth : ℕ
tables_depth = 4

-- What `findFreeFrame` does with the result of the search.
unfoldable pub use_found : (Memory → Search) → Search → Search
use_found evict aborts = aborts
use_found evict undefined = undefined
use_found evict (returns f parent max_frame m) =
    if f == 0
    then (if ltb ((max_frame + 1) % 2 ^ 64) num_frames
        then returns (max_frame + 1) parent max_frame m
        else evict m)
    else returns f parent max_frame m

-- `findFreeFrame`; `avoid` is the array as a function of the index.
unfoldable pub find_free_frame : (Memory → Search) → (ℕ → ℕ) → ℕ → Memory → Search
find_free_frame evict avoid curr_depth m = elim (is_frame_empty m 0) [
  | none ↦ aborts
  | some (true, m') ↦ returns 1 0 0 m'
  | some (false, m') ↦
      use_found evict (find_empty_table (avoid curr_depth) (tables_depth - 1) 0 0 0 m')
]
