-- ===== src/Memory/Examples.antt =====
-- Tests of the model of ex5, and its theorems at concrete memories.
use os.Common.{ℕ, ◌≡◌, refl, true, none, some, arith, update}
use os.Memory.Physical.{
  Memory, put, ensure, pm_read, pm_evict, pm_restore, pm_restore-evict, Restored,
}
use os.Memory.Tables.Clear.{empty_from, is_frame_empty}
use os.Memory.Tables.Search.{Search, returns, aborts, find_free_frame}
use os.Memory.Tables.Search.Found.{FreeFrame, find_free_frame_lem}
use os.Memory.Distance.{calc_cyclic_min}

-- Every word of frame `f` is `f`; frame 2 thus names itself, and no page is in the swap file.
abbrev marked : Memory
marked = record { sized = true; ram = λ f o. f; swap_file = λ p. none }

wrap_test : calc_cyclic_min 65535 1 ≡ 2
unfolding calc_cyclic_min
wrap_test = refl

-- Page 500 is in the swap file, as it was in frame 3.
abbrev evicted : Memory
evicted = record marked { swap_file = update marked.swap_file 500 (some (marked.ram 3)) }

pm_restore-evict_example :
    (r : Memory) × (pm_restore evicted 7 500 ≡ some r) × Restored evicted 7 500 (marked.ram 3) r
unfolding pm_evict
pm_restore-evict_example =
    pm_restore-evict marked evicted evicted 3 7 500 refl refl (omega arith) refl refl

-- The root names frame 5, which is empty; so are all other frames.
abbrev one_table : Memory
one_table = record { sized = true; ram = put (λ f o. 0) 0 0 5; swap_file = λ p. none }

one_table_lem : is_frame_empty one_table 5 ≡ some (true, one_table)
unfolding is_frame_empty empty_from pm_read ensure
one_table_lem = refl

abbrev no_eviction : Memory → Search
no_eviction m = aborts

abbrev evicts_root : Memory → Search
evicts_root m = returns 0 0 0 m

find_free_frame_lem_example :
    (find_free_frame no_eviction (λ i. 5) 2 one_table
      ≡ find_free_frame evicts_root (λ i. 5) 2 one_table)
    × ((f parent x : ℕ) (m' : Memory)
        → find_free_frame no_eviction (λ i. 5) 2 one_table ≡ returns f parent x m'
        → (m' ≡ ensure one_table) × FreeFrame (ensure one_table) f)
find_free_frame_lem_example = find_free_frame_lem no_eviction evicts_root (λ i. 5) 2 one_table
