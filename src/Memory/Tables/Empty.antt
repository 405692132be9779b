-- ===== src/Memory/Tables/Empty.antt =====
-- ex5/VirtualMemory.cpp: `isFrameEmpty` finds out whether all words of a frame are 0.
use os.Common.{
  ℕ, zero, suc, ◌+◌, ◌/◌, ◌%◌, ◌≤◌, ◌<◌, ◌≡◌, ◌≢◌, refl, ap, ◌∙◌, inl, inr, Bool, true, false, some,
  ◌==◌, arith, Bool-cases, ◌↔◌,
}
use mathlib.Core.Path.{ap₂}
use os.Memory.Physical.{Memory, page_size, num_frames, ensure, pm_read}
use os.Memory.Tables.Clear.{
  address, empty_from, is_frame_empty, ensure_sized, clear_table, clear_table-Cleared, Cleared,
}

pub pm_read_word :
    (m : Memory) (f i : ℕ)
    → f < num_frames
    → i < page_size
    → pm_read m (address f i) ≡ some ((ensure m).ram f i, ensure m)
unfolding pm_read
pm_read_word m f i hf hi = ground (arith, frame, offset)
  where
    frame : address f i / page_size ≡ f
    frame = omega arith

    offset : address f i % page_size ≡ i
    offset = omega arith

pub ensure-ensure : (m : Memory) → ensure (ensure m) ≡ ensure m
unfolding ensure
ensure-ensure m = ground arith

-- From offset `i` on, the words of frame `f` are 0.
abbrev pub ZeroFrom : ℕ → Memory → ℕ → Type 0
ZeroFrom i m f = (o : ℕ) → i ≤ o → o < page_size → m.ram f o ≡ 0

empty_from_lem :
    (n i : ℕ) (m : Memory) (f : ℕ)
    → f < num_frames
    → i + n ≡ page_size
    → ensure m ≡ m
    → (b : Bool) × (empty_from n i m f ≡ some (b, m)) × ((b ≡ true) ↔ ZeroFrom i m f)
unfolding empty_from
empty_from_lem zero i m f hf e en = (true, refl, (λ h o a b. absurd (omega arith), λ h. refl))
empty_from_lem (suc n) i m f hf e en = elim (Bool-cases (m.ram f i == 0)) [
  | inl z ↦
      let (b, run, iff) = empty_from_lem n (i + 1) m f hf (omega arith) en in
      (
        b,
        rw (read, empty_from) (rw (z, empty_from) run),
        (λ h o p q. ground (arith, iff.0 h o), λ h. iff.1 (λ o p q. h o (omega arith) q)),
      )
  | inr nz ↦ (
    false,
    rw (read, empty_from) (rw (nz, empty_from) refl),
    (λ h. cc, λ h. absurd (ground (arith, h i))),
  )
]
  where
    read : pm_read m (address f i) ≡ some (m.ram f i, m)
    read = pm_read_word m f i hf (omega arith) ∙ ap (λ (k : Memory). some (k.ram f i, k)) en

pm_read-ensure : (m : Memory) (a : ℕ) → pm_read m a ≡ pm_read (ensure m) a
unfolding pm_read
pm_read-ensure m a = rw (ensure-ensure m)

pub empty_from-ensure :
    (n i : ℕ) (m : Memory) (f : ℕ) → empty_from (suc n) i m f ≡ empty_from (suc n) i (ensure m) f
unfolding empty_from
empty_from-ensure n i m f = rw (pm_read-ensure m (address f i), empty_from)

-- `isFrameEmpty` answers for each frame of the memory, true exactly when all words of the frame are
-- 0, and leaves the memory as the first access makes it.
pub is_frame_empty_lem :
    (m : Memory) (f : ℕ)
    → f < num_frames
    → (b : Bool) × (is_frame_empty m f ≡ some (b, ensure m))
      × ((b ≡ true) ↔ ZeroFrom 0 (ensure m) f)
unfolding is_frame_empty
is_frame_empty_lem m f hf =
    let (b, run, iff) = empty_from_lem 16 0 (ensure m) f hf (omega arith) (ensure-ensure m) in
    (b, empty_from-ensure 15 0 m f ∙ run, iff)

-- A cleared frame is found empty, another frame is found as it was before, and only the words of the
-- cleared frame differ.
pub is_frame_empty-clear_table :
    (m : Memory) (f : ℕ)
    → f < num_frames
    → (m' : Memory) × (clear_table m f ≡ some m')
      × (is_frame_empty m' f ≡ some (true, m'))
      × ((g o : ℕ) → g ≢ f → m'.ram g o ≡ (ensure m).ram g o)
      × ((p : ℕ) → m'.swap_file p ≡ m.swap_file p)
is_frame_empty-clear_table m f hf =
    let (m', run, c) = clear_table-Cleared m f hf in
    let (b, answer, iff) = is_frame_empty_lem m' f hf in
    (m', run, found m' c b answer iff, λ g o ne. c.words g o ∙ ground (arith, ne), c.same_swap)
  where
    found :
        (m' : Memory)
        → Cleared f 0 page_size m m'
        → (b : Bool) → is_frame_empty m' f ≡ some (b, ensure m')
        → ((b ≡ true) ↔ ZeroFrom 0 (ensure m') f)
        → is_frame_empty m' f ≡ some (true, m')
    found m' c b answer iff =
        let same = ensure_sized m' c.has_frames in
        let zero_words : ZeroFrom 0 (ensure m') f = rw same (λ o p q. c.words f o ∙ ground arith) in
        answer ∙ ap₂ (λ x (y : Memory). some (x, y)) (iff.1 zero_words) same
