-- ===== src/Memory/Tables/Unlink.antt =====
-- ex5/VirtualMemory.cpp: `createTable` clears a frame and takes the reference to it out of its parent.
use os.Common.{
  ℕ, zero, suc, ◌+◌, ◌-◌, ◌/◌, ◌%◌, ◌^◌, ◌≤◌, ◌<◌, ◌≡◌, ◌≢◌, refl, ap, ◌∙◌, inl, inr, true, false,
  Option, none, some, ltb, ◌==◌, if◌then◌else◌, arith, Bool-cases, ◌↔◌,
}
use mathlib.Core.Path.{subst}
use os.Memory.Physical.{Memory, page_size, ram_size, num_frames, pm_read, pm_write, put}
use os.Memory.Tables.Clear.{address, clear_table, clear_table-Cleared, Cleared, ensure_sized}
use os.Memory.Tables.Empty.{pm_read_word}

-- A word as it is compared with a `uint64_t`: the sign is extended.
unfoldable pub to_u64 : ℕ → ℕ
to_u64 w = if ltb w (2 ^ 31) then w else w + 2 ^ 64 - 2 ^ 32

-- The loop over the parent's entries.
unlink_from : ℕ → ℕ → Memory → ℕ → ℕ → Option Memory
unlink_from zero i m f p = some m
unlink_from (suc n) i m f p = elim (pm_read m (address p i)) [
  | none ↦ none
  | some (v, m') ↦ elim (to_u64 v == f) [
    | true ↦ pm_write m' (address p i) 0
    | false ↦ unlink_from n (i + 1) m' f p
  ]
]

-- `createTable`
pub create_table : Memory → ℕ → ℕ → Option Memory
create_table m f p = elim (clear_table m f) [ none ↦ none | some m' ↦ unlink_from 16 0 m' f p ]

-- From offset `i` on, the first entry of table `p` that names frame `f`, if there is one, is set to
-- 0, and nothing else changes.
pub data Unlinked (i : ℕ) (m : Memory) (f p : ℕ) (m' : Memory) : Type 0 where
  absent : m' ≡ m → ((o : ℕ) → i ≤ o → o < page_size → m.ram p o ≢ f) → Unlinked i m f p m'
  removed :
      (k : ℕ)
      → i ≤ k
      → k < page_size
      → m.ram p k ≡ f
      → ((o : ℕ) → i ≤ o → o < k → m.ram p o ≢ f)
      → m' ≡ record m { ram = put m.ram p k 0 }
      → Unlinked i m f p m'

names : (w f : ℕ) → f < num_frames → ((to_u64 w == f) ≡ true) ↔ (w ≡ f)
unfolding to_u64
names w f h = (λ e. ground arith, λ e. ground arith)

pm_write_word :
    (m : Memory) (p i v : ℕ)
    → p < num_frames
    → i < page_size
    → m.sized ≡ true
    → pm_write m (address p i) v ≡ some (record m { ram = put m.ram p i v })
unfolding pm_write
pm_write_word m p i v hp hi sized = simp (in_range, sized, frame, offset)
  where
    frame : address p i / page_size ≡ p
    frame = omega arith

    offset : address p i % page_size ≡ i
    offset = omega arith

    in_range : ltb (address p i) ram_size ≡ true
    in_range = ground arith

not_named-later :
    (m : Memory) (f p i o : ℕ) → m.ram p i ≢ f → i ≤ o → (i + 1 ≤ o → m.ram p o ≢ f) → m.ram p o ≢ f
not_named-later m f p i o ne a h = elim (Bool-cases (o == i)) [
  | inl here ↦ subst (λ k. m.ram p k ≢ f) (ground arith) ne
  | inr after ↦ h (ground arith)
]

Unlinked-later :
    (i : ℕ) (m : Memory) (f p : ℕ) (m' : Memory)
    → Unlinked (i + 1) m f p m'
    → m.ram p i ≢ f
    → Unlinked i m f p m'
Unlinked-later i m f p m' (absent same h) ne =
    absent same (λ o a b. not_named-later m f p i o ne a (λ c. h o c b))
Unlinked-later i m f p m' (removed k a b named h same) ne =
    removed k (omega arith) b named (λ o c d. not_named-later m f p i o ne c (λ e. h o e d)) same

unlink_from-Unlinked :
    (n i : ℕ) (m : Memory) (f p : ℕ)
    → f < num_frames
    → p < num_frames
    → i + n ≡ page_size
    → m.sized ≡ true
    → (m' : Memory) × (unlink_from n i m f p ≡ some m') × Unlinked i m f p m'
unfolding unlink_from
unlink_from-Unlinked zero i m f p hf hp e sized =
    (m, refl, absent refl (λ o a b. absurd (omega arith)))
unlink_from-Unlinked (suc n) i m f p hf hp e sized = elim (Bool-cases (to_u64 (m.ram p i) == f)) [
  | inl here ↦ (
    record m { ram = put m.ram p i 0 },
    rw (read, unlink_from) (rw (here, unlink_from) (pm_write_word m p i 0 hp (omega arith) sized)),
    removed i (omega arith) (omega arith) ((names _ f hf).0 here) (λ o a b. absurd (omega arith))
        refl,
  )
  | inr away ↦
      let (m', run, u) = unlink_from-Unlinked n (i + 1) m f p hf hp (omega arith) sized in
      (
        m',
        rw (read, unlink_from) (rw (away, unlink_from) run),
        Unlinked-later i m f p m' u (λ e. ground (arith, (names _ f hf).1 e)),
      )
]
  where
    read : pm_read m (address p i) ≡ some (m.ram p i, m)
    read =
        pm_read_word m p i hp (omega arith)
        ∙ ap (λ (k : Memory). some (k.ram p i, k)) (ensure_sized m sized)

-- `createTable` succeeds on two frames of the memory. The frame's words are set to 0; then the first
-- entry of the parent that names the frame, if there is one, is set to 0; nothing else changes.
pub create_table-Unlinked :
    (m : Memory) (f p : ℕ)
    → f < num_frames
    → p < num_frames
    → (c m' : Memory) × (create_table m f p ≡ some m')
      × Cleared f 0 page_size m c
      × Unlinked 0 c f p m'
unfolding create_table
create_table-Unlinked m f p hf hp =
    let (c, run, cleared) = clear_table-Cleared m f hf in
    let (m', rest, u) = unlink_from-Unlinked 16 0 c f p hf hp (omega arith) cleared.has_frames in
    (c, m', rw (run, create_table) rest, cleared, u)
