-- ===== src/Memory/Physical.antt =====
-- ex5/PhysicalMemory.cpp and ex5/MemoryConstants.h: the memory's frames and the swap file.
--
-- A `word_t` is the bit pattern of an `int`. A frame and a page are functions of the offset, of which
-- the code reads those below the size of a page. A failed `assert` ends the process: `none`.
use os.Common.{
  ℕ, ◌/◌, ◌%◌, ◌<◌, ◌≡◌, ◌≢◌, Bool, true, false, ◌&&◌, Option, none, some, ltb, ◌==◌, if◌then◌else◌,
  update, is_some, arith, ap, ◌∙◌,
}

-- `PAGE_SIZE`, `RAM_SIZE`, `NUM_FRAMES` and `NUM_PAGES`
abbrev pub page_size : ℕ
page_size = 16

abbrev pub ram_size : ℕ
ram_size = 1024

abbrev pub num_frames : ℕ
num_frames = 64

abbrev pub num_pages : ℕ
num_pages = 65536

pub record Memory : Type 0 where
  pub sized : Bool  -- `RAM` has its frames
  pub ram : ℕ → ℕ → ℕ  -- `RAM[frame][offset]`
  pub swap_file : ℕ → Option (ℕ → ℕ)

-- `initialize`
unfoldable pub initialize : Memory → Memory
initialize m = record m { sized = true; ram = λ f o. 0 }

-- `if (RAM.empty()) initialize();`
unfoldable pub ensure : Memory → Memory
unfolding initialize
ensure m = if m.sized then m else initialize m

-- `PMread`
unfoldable pub pm_read : Memory → ℕ → Option (ℕ × Memory)
unfolding ensure
pm_read m a =
    if ltb a ram_size then some ((ensure m).ram (a / page_size) (a % page_size), ensure m) else none

-- A word in its place.
abbrev pub put : (ℕ → ℕ → ℕ) → ℕ → ℕ → ℕ → ℕ → ℕ → ℕ
put ram f o v g p = if (g == f) && (p == o) then v else ram g p

-- `PMwrite`
unfoldable pub pm_write : Memory → ℕ → ℕ → Option Memory
unfolding ensure
pm_write m a v =
    if ltb a ram_size
    then some (record (ensure m) { ram = put (ensure m).ram (a / page_size) (a % page_size) v })
    else none

-- `PMevict`
unfoldable pub pm_evict : Memory → ℕ → ℕ → Option Memory
unfolding ensure
pm_evict m f p =
    if is_some ((ensure m).swap_file p)
    then none
    else (if ltb f num_frames && ltb p num_pages
        then some (record (ensure m) {
          swap_file = update (ensure m).swap_file p (some ((ensure m).ram f));
        })
        else none)

restore_page : Memory → ℕ → ℕ → Option (ℕ → ℕ) → Memory
restore_page m f p none = m
restore_page m f p (some page) = record m {
  ram = update m.ram f page;
  swap_file = update m.swap_file p none;
}

-- `PMrestore`
unfoldable pub pm_restore : Memory → ℕ → ℕ → Option Memory
unfolding ensure restore_page
pm_restore m f p =
    if ltb f num_frames then some (restore_page (ensure m) f p ((ensure m).swap_file p)) else none

abbrev pub value_of : Option (ℕ × Memory) → Option ℕ
value_of none = none
value_of (some (v, m)) = some v

-- `m'` reads `v` at `a`, reads every other address as `m` does, and keeps the swap file.
pub record Written (m : Memory) (a v : ℕ) (m' : Memory) : Type 0 where
  pub own : pm_read m' a ≡ some (v, m')
  pub others : (b : ℕ) → b ≢ a → value_of (pm_read m' b) ≡ value_of (pm_read m b)
  pub kept : (p : ℕ) → m'.swap_file p ≡ m.swap_file p

abbrev written : Memory → ℕ → ℕ → Memory
written m a v = record (ensure m) { ram = put (ensure m).ram (a / page_size) (a % page_size) v }

-- Below the memory's size a write succeeds, the word is read back, and every other address and the
-- swap file are as before.
pub pm_read-write :
    (m : Memory) (a v : ℕ)
    → a < ram_size
    → (m' : Memory) × (pm_write m a v ≡ some m') × Written m a v m'
unfolding pm_read pm_write
pm_read-write m a v h = (
  written m a v,
  ground arith,
  record {
    own = ground arith;
    others = λ b n. ground (arith, apart b n);
    kept = λ p. ground arith;
  },
)
  where
    apart :
        (b : ℕ)
        → b ≢ a
        → ((b / page_size == a / page_size) && (b % page_size == a % page_size)) ≡ false
    apart b n = ground arith

-- `r` is `n` with page `p` of the swap file moved into frame `g`.
pub record Restored (n : Memory) (g p : ℕ) (page : ℕ → ℕ) (r : Memory) : Type 0 where
  pub in_frame : r.ram g ≡ page
  pub other_frames : (h : ℕ) → h ≢ g → r.ram h ≡ n.ram h
  pub taken_out : r.swap_file p ≡ none
  pub other_pages : (q : ℕ) → q ≢ p → r.swap_file q ≡ n.swap_file q

-- A page is evicted from frame `f`, and later restored to a frame `g`, with the frames in any state
-- and the swap file as the eviction left it: frame `g` then holds what frame `f` held, the page is no
-- longer in the swap file, and the other frames and pages are as they were.
pub pm_restore-evict :
    (m e n : Memory) (f g p : ℕ)
    → m.sized ≡ true
    → n.sized ≡ true
    → g < num_frames
    → pm_evict m f p ≡ some e
    → n.swap_file ≡ e.swap_file
    → (r : Memory) × (pm_restore n g p ≡ some r) × Restored n g p (m.ram f) r
unfolding pm_evict pm_restore
pm_restore-evict m e n f g p sized_m sized_n hg evicted same = (
  record n { ram = update n.ram g (m.ram f); swap_file = update n.swap_file p none },
  ground (arith, found),
  record {
    in_frame = ground arith;
    other_frames = λ h ne. ground arith;
    taken_out = ground arith;
    other_pages = λ q ne. ground arith;
  },
)
  where
    stored : e.swap_file p ≡ some (m.ram f)
    stored = ground arith

    found : n.swap_file p ≡ some (m.ram f)
    found = ap (λ s. s p) same ∙ stored
