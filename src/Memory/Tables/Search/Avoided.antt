-- ===== src/Memory/Tables/Search/Avoided.antt =====
-- ex5/VirtualMemory.cpp: the frame that `findEmptyTable` is to avoid.
use os.Common.{ℕ, suc, ◌<◌, ◌≡◌, ◌≢◌, refl, ap, ◌∙◌, true, false, some, ◌==◌, arith}
use os.Memory.Physical.{Memory, num_frames, pm_read}
use os.Memory.Tables.Clear.{address, empty_from, is_frame_empty, ensure_sized}
use os.Memory.Tables.Empty.{pm_read_word}
use os.Memory.Tables.Unlink.{to_u64}
use os.Memory.Tables.Search.{
  Search, returns, larger, may_take, after_call, search_entries, find_empty_table, use_found,
  find_free_frame,
}

small : (v : ℕ) → v < num_frames → to_u64 v ≡ v
unfolding to_u64
small v h = ground arith

greater : (v : ℕ) → v ≢ 0 → larger v 0 ≡ v
unfolding larger
greater v nz = ground arith

not_itself : (v : ℕ) → may_take v v true ≡ false
unfolding may_take
not_itself v = ground arith

not_empty :
    (m : Memory) (v : ℕ)
    → v ≢ 0
    → pm_read m (address 0 0) ≡ some (v, m)
    → is_frame_empty m 0 ≡ some (false, m)
unfolding is_frame_empty empty_from
not_empty m v nz read = rw (read, empty_from) (rw (there, empty_from) refl)
  where
    there : (v == 0) ≡ false
    there = ground arith

empty_table :
    (avoid n f parent x : ℕ) (m : Memory)
    → is_frame_empty m f ≡ some (true, m)
    → find_empty_table avoid (suc n) f parent x m ≡ returns f parent x m
unfolding find_empty_table
empty_table avoid n f parent x m e = rw (e, find_empty_table) refl

full_table :
    (avoid n f parent x : ℕ) (m : Memory)
    → is_frame_empty m f ≡ some (false, m)
    → find_empty_table avoid (suc n) f parent x m
      ≡ search_entries (find_empty_table avoid n) avoid 16 0 f parent x m
unfolding find_empty_table
full_table avoid n f parent x m e = rw (e, find_empty_table) refl

child_returned :
    (rest : ℕ → ℕ → Memory → Search) (v : ℕ) (m : Memory)
    → v ≢ 0
    → after_call rest 0 (returns v 0 v m) ≡ returns v 0 v m
unfolding after_call
child_returned rest v m nz = rw (there, after_call) refl
  where
    there : (v == 0) ≡ false
    there = ground arith

first_child_avoided :
    (deeper : ℕ → ℕ → ℕ → Memory → Search) (n v : ℕ) (m : Memory)
    → v ≢ 0
    → v < num_frames
    → pm_read m (address 0 0) ≡ some (v, m)
    → is_frame_empty m v ≡ some (true, m)
    → deeper v 0 v m ≡ returns v 0 v m
    → search_entries deeper v (suc n) 0 0 0 0 m ≡ returns v 0 v m
unfolding search_entries
first_child_avoided deeper n v m nz h read e call =
    rw (read, search_entries)
      (rw (there, search_entries)
        (rw (empty, search_entries)
          (rw (skipped, search_entries) (rw (called, search_entries) (child_returned _ v m nz)))))
  where
    there : (v == 0) ≡ false
    there = ground arith

    same : to_u64 v ≡ v
    same = small v h

    empty : is_frame_empty m (to_u64 v) ≡ some (true, m)
    empty = ap (is_frame_empty m) same ∙ e

    skipped : may_take v (to_u64 v) true ≡ false
    skipped = ap (λ w. may_take v w true) same ∙ not_itself v

    called : deeper (to_u64 v) 0 (larger (to_u64 v) 0) m ≡ returns v 0 v m
    called =
        ap (λ w. deeper w 0 (larger w 0) m) same ∙ ap (λ x. deeper v 0 x m) (greater v nz) ∙ call

given_back :
    (evict : Memory → Search) (m : Memory) (v : ℕ)
    → v ≢ 0
    → use_found evict (returns v 0 v m) ≡ returns v 0 v m
unfolding use_found
given_back evict m v nz = ground arith

-- The entry 0 of the root names a frame that is empty and that the caller is using, so that it is to be
-- avoided: `findFreeFrame` gives out this frame nevertheless.
pub find_free_frame_avoided :
    (evict : Memory → Search) (avoid : ℕ → ℕ) (d : ℕ) (m : Memory)
    → m.sized ≡ true
    → avoid d ≢ 0
    → avoid d < num_frames
    → m.ram 0 0 ≡ avoid d
    → is_frame_empty m (avoid d) ≡ some (true, m)
    → find_free_frame evict avoid d m ≡ returns (avoid d) 0 (avoid d) m
unfolding find_free_frame
find_free_frame_avoided evict avoid d m sized nz h named e =
    rw (root, find_free_frame) (ap (use_found evict) (table ∙ entries) ∙ returned)
  where
    read : pm_read m (address 0 0) ≡ some (avoid d, m)
    read =
        pm_read_word m 0 0 (omega arith) (omega arith)
        ∙ ap (λ (k : Memory). some (k.ram 0 0, k)) (ensure_sized m sized)
        ∙ ap (λ v. some (v, m)) named

    root : is_frame_empty m 0 ≡ some (false, m)
    root = not_empty m (avoid d) nz read

    table :
        find_empty_table (avoid d) 3 0 0 0 m
        ≡ search_entries (find_empty_table (avoid d) 2) (avoid d) 16 0 0 0 0 m
    table = full_table (avoid d) 2 0 0 0 m root

    entries :
        search_entries (find_empty_table (avoid d) 2) (avoid d) 16 0 0 0 0 m
        ≡ returns (avoid d) 0 (avoid d) m
    entries =
        first_child_avoided (find_empty_table (avoid d) 2) 15 (avoid d) m nz h read e
          (empty_table (avoid d) 1 (avoid d) 0 (avoid d) m e)

    returned : use_found evict (returns (avoid d) 0 (avoid d) m) ≡ returns (avoid d) 0 (avoid d) m
    returned = given_back evict m (avoid d) nz
