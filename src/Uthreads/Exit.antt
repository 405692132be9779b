-- ===== src/Uthreads/Exit.antt =====
-- ex2/uthreads.cpp: `uthreads_exit`, which releases the threads, and `uthreads_sys_error`.
use os.Common.{
  ℕ, zero, suc, ◌+◌, ◌≡◌, refl, Option, none, some, List, [], ◌∷◌, ◌++◌, if◌then◌else◌, leb, ltb,
  ◌&&◌, ◌==◌, is_some, update, count, count-snoc, arith,
}
use os.Uthreads.Ids.{max_thread_num}
use os.Uthreads.Machine.{Thread, State}
use os.Uthreads.Invariant.{Inv}

-- `uthreads[]` in the loop, and the threads that `delete` has released, in order.
pub record Deleted : Type 0 where
  pub threads : ℕ → Option Thread
  pub freed : List ℕ

-- One round of the loop, for the pointer in `uthreads[i]`.
unfoldable pub delete_one : Deleted → ℕ → Option Thread → Deleted
delete_one d i none = d
delete_one d i (some th) = record { threads = update d.threads i none; freed = d.freed ++ i ∷ [] }

-- The loop, with `n` rounds left from `i` on.
unfoldable pub delete_from : ℕ → ℕ → Deleted → Deleted
unfolding delete_one
delete_from zero i d = d
delete_from (suc n) i d = delete_from n (i + 1) (delete_one d i (d.threads i))

-- How the process ends: its exit code, and what is left of the threads.
pub record Ended : Type 0 where
  pub code : ℕ
  pub left : Deleted

-- `uthreads_exit`
unfoldable pub uthreads_exit : ℕ → State → Ended
uthreads_exit code s = record {
  code = code;
  left = delete_from max_thread_num 0 (record { threads = s.threads; freed = [] });
}

-- `uthreads_sys_error`, without its message.
unfoldable pub uthreads_sys_error : State → Ended
uthreads_sys_error s = uthreads_exit 1 s

delete_one_lem :
    (d : Deleted) (i : ℕ) (o : Option Thread)
    → d.threads i ≡ o
    → (k : ℕ)
    → ((delete_one d i o).threads k ≡ (if k == i then none else d.threads k))
      × (count k (delete_one d i o).freed
          ≡ count k d.freed + (if (k == i) && is_some (d.threads k) then 1 else 0))
unfolding delete_one
delete_one_lem d i none e k = ground (arith, e)
delete_one_lem d i (some th) e k = ground (arith, e, count-snoc k i d.freed)

delete_from_lem :
    (n i : ℕ) (d : Deleted) (k : ℕ)
    → ((delete_from n i d).threads k ≡ (if leb i k && ltb k (i + n) then none else d.threads k))
      × (count k (delete_from n i d).freed
          ≡ count k d.freed
            + (if leb i k && (ltb k (i + n) && is_some (d.threads k)) then 1 else 0))
unfolding delete_from delete_one
delete_from_lem zero i d k = ground arith
delete_from_lem (suc n) i d k =
    let next = delete_one d i (d.threads i) in
    let (gone, deleted) = delete_one_lem d i (d.threads i) refl k in
    let (rest, others) = delete_from_lem n (i + 1) next k in
    (ground (arith, gone, rest), ground (arith, gone, deleted, others))

-- When the process ends by `uthreads_exit`, no pointer to a thread is left, and every thread has been
-- deleted exactly once, and nothing else; so has the thread that makes the call.
pub exit_deletes :
    (s : State) (code k : ℕ)
    → Inv s
    → ((uthreads_exit code s).left.threads k ≡ none)
      × (count k (uthreads_exit code s).left.freed ≡ (if is_some (s.threads k) then 1 else 0))
      × (count s.current_thread (uthreads_exit code s).left.freed ≡ 1)
unfolding uthreads_exit
exit_deletes s code k v =
    let all =
      λ (j : ℕ). delete_from_lem max_thread_num 0 (record { threads = s.threads; freed = [] }) j in
    let c = s.current_thread in
    (
      ground (arith, (all k).0, v.sound.bounded k),
      ground (arith, (all k).1, v.sound.bounded k),
      ground (arith, (all c).1, v.sound.bounded c, v.running),
    )
