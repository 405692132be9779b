-- ===== src/Memory/Tables/Clear.antt =====
-- ex5/VirtualMemory.cpp: `clearTable`, `isFrameEmpty`, `createTable` and `VMinitialize`.
use os.Common.{
  ℕ, zero, suc, ◌+◌, ◌*◌, ◌/◌, ◌%◌, ◌^◌, ◌≤◌, ◌<◌, ◌≡◌, ap, ◌∙◌, Bool, true, false, ◌&&◌, Option,
  none, some, ltb, leb, ◌==◌, if◌then◌else◌, arith,
}
use mathlib.Core.Path.{subst}
use os.Memory.Physical.{Memory, page_size, num_frames, ensure, pm_read, pm_write, put}

-- `frameIndex * PAGE_SIZE + i`
abbrev pub address : ℕ → ℕ → ℕ
address f i = (f * page_size + i) % 2 ^ 64

-- The loop of `clearTable`, with `n` rounds from `i` on.
unfoldable pub clear_from : ℕ → ℕ → Memory → ℕ → Option Memory
clear_from zero i m f = some m
clear_from (suc n) i m f = elim (pm_write m (address f i) 0) [
  | none ↦ none
  | some m' ↦ clear_from n (i + 1) m' f
]

-- `clearTable`
unfoldable pub clear_table : Memory → ℕ → Option Memory
clear_table m f = clear_from 16 0 m f

-- `VMinitialize`
unfoldable pub vm_initialize : Memory → Option Memory
vm_initialize m = clear_table m 0

-- The loop of `isFrameEmpty`, which returns at the first word that is not 0.
unfoldable pub empty_from : ℕ → ℕ → Memory → ℕ → Option (Bool × Memory)
empty_from zero i m f = some (true, m)
empty_from (suc n) i m f = elim (pm_read m (address f i)) [
  | none ↦ none
  | some (v, m') ↦ elim (v == 0) [ true ↦ empty_from n (i + 1) m' f | false ↦ some (false, m') ]
]

-- `isFrameEmpty`
unfoldable pub is_frame_empty : Memory → ℕ → Option (Bool × Memory)
is_frame_empty m f = empty_from 16 0 m f

-- What the first access leaves of a memory whose words are `ram`.
abbrev pub with_words : Memory → (ℕ → ℕ → ℕ) → Memory
with_words m ram = record (ensure m) { ram = ram }

-- The words of frame `f` between offsets `i` and `j` are set to 0.
abbrev pub zeroed : (ℕ → ℕ → ℕ) → ℕ → ℕ → ℕ → ℕ → ℕ → ℕ
zeroed ram f i j g o = if (g == f) && (leb i o && ltb o j) then 0 else ram g o

-- `m'` is `m` with those words set to 0.
pub record Cleared (f i j : ℕ) (m m' : Memory) : Type 0 where
  pub words : (g o : ℕ) → m'.ram g o ≡ zeroed (ensure m).ram f i j g o
  pub has_frames : m'.sized ≡ true
  pub same_swap : (p : ℕ) → m'.swap_file p ≡ m.swap_file p

clear_one :
    (m : Memory) (f i : ℕ)
    → f < num_frames
    → i < page_size
    → (m' : Memory) × (pm_write m (address f i) 0 ≡ some m') × Cleared f i (i + 1) m m'
unfolding pm_write
clear_one m f i hf hi = (
  with_words m (put (ensure m).ram (address f i / page_size) (address f i % page_size) 0),
  ground arith,
  record {
    words = λ g o. ground (arith, frame, offset);
    has_frames = ground arith;
    same_swap = λ p. ground arith;
  },
)
  where
    frame : address f i / page_size ≡ f
    frame = omega arith

    offset : address f i % page_size ≡ i
    offset = omega arith

pub ensure_sized : (m : Memory) → m.sized ≡ true → ensure m ≡ m
unfolding ensure
ensure_sized m h = ground arith

Cleared-trans :
    (f i j : ℕ) (m m' m'' : Memory)
    → i < j
    → Cleared f i (i + 1) m m'
    → Cleared f (i + 1) j m' m''
    → Cleared f i j m m''
Cleared-trans f i j m m' m'' h a b = record {
  words = λ g o. b.words g o ∙ ground (arith, a.words g o, words_of g o);
  has_frames = b.has_frames;
  same_swap = λ p. b.same_swap p ∙ a.same_swap p;
}
  where
    words_of : (g o : ℕ) → (ensure m').ram g o ≡ m'.ram g o
    words_of g o = ap (λ (k : Memory). k.ram g o) (ensure_sized m' a.has_frames)

clear_from-Cleared :
    (n i j : ℕ) (m : Memory) (f : ℕ)
    → f < num_frames
    → i + suc n ≡ j
    → j ≤ page_size
    → (m' : Memory) × (clear_from (suc n) i m f ≡ some m') × Cleared f i j m m'
unfolding clear_from
clear_from-Cleared zero i j m f hf e h =
    let (m', run, one) = clear_one m f i hf (omega arith) in
    let last : i + 1 ≡ j = omega arith in
    (m', rw (run, clear_from), subst (λ k. Cleared f i k m m') last one)
clear_from-Cleared (suc n) i j m f hf e h =
    let (m', run, one) = clear_one m f i hf (omega arith) in
    let (m'', rest, all) = clear_from-Cleared n (i + 1) j m' f hf (omega arith) h in
    (m'', rw (run, clear_from) rest, Cleared-trans f i j m m' m'' (omega arith) one all)

-- `clearTable` sets the words of its frame to 0, and changes nothing else.
pub clear_table-Cleared :
    (m : Memory) (f : ℕ)
    → f < num_frames
    → (m' : Memory) × (clear_table m f ≡ some m') × Cleared f 0 page_size m m'
unfolding clear_table
clear_table-Cleared m f hf = clear_from-Cleared 15 0 page_size m f hf (omega arith) (omega arith)
