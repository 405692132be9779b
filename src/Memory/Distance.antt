-- ===== src/Memory/Distance.antt =====
-- ex5/VirtualMemory.cpp: page numbers, offsets, and the distance by which a page is chosen to be
-- evicted.
use os.Common.{ℕ, ◌+◌, ◌-◌, ◌*◌, ◌/◌, ◌%◌, ◌^◌, ◌≤◌, ◌<◌, ◌≡◌, ltb, if◌then◌else◌, arith, ◌↔◌}
use Prim.Native.Nat.{min}
use os.Memory.Physical.{page_size, num_pages}

-- `getOffset`: `log2(VIRTUAL_MEMORY_SIZE) - log2(PAGE_SIZE)` is 20 - 4.
pub get_offset : ℕ → ℕ
get_offset a = a % (20 - 4)

-- `getPageNum`
pub get_page_num : ℕ → ℕ
get_page_num a = a / 2 ^ 4

-- `calc_cyclic_min`; the subtraction from `NUM_PAGES` is one of `uint64_t`.
unfoldable pub calc_cyclic_min : ℕ → ℕ → ℕ
calc_cyclic_min p q =
    let absl = if ltb q p then p - q else q - p in
    let around = (num_pages + 2 ^ 64 - absl) % 2 ^ 64 in if ltb around absl then around else absl

-- A virtual address is its page number and its offset, which is below the size of a page; and each
-- such pair is the address of just one.
pub address_split :
    (a : ℕ)
    → (get_page_num a * page_size + get_offset a ≡ a)
      × (get_offset a < page_size)
      × ((p o : ℕ)
          → o < page_size
          → (get_page_num (p * page_size + o) ≡ p) × (get_offset (p * page_size + o) ≡ o))
unfolding get_page_num get_offset
address_split a = (omega arith, omega arith, λ p o h. omega arith)

-- Without the wrap of `uint64_t`.
calc_cyclic_min-min :
    (p q : ℕ)
    → p < num_pages
    → q < num_pages
    → calc_cyclic_min p q ≡ min (p - q + (q - p)) (num_pages - (p - q + (q - p)))
unfolding calc_cyclic_min
calc_cyclic_min-min p q hp hq = ground arith

-- Between pages of the virtual memory `calc_cyclic_min` is the distance on a circle: the least number
-- of steps forward or back. It is the same both ways, at most half of the circle, 0 only from a page
-- to itself, and no detour is shorter.
pub calc_cyclic_min_metric :
    (p q r : ℕ)
    → p < num_pages
    → q < num_pages
    → r < num_pages
    → (calc_cyclic_min p q
        ≡ min ((p + num_pages - q) % num_pages) ((q + num_pages - p) % num_pages))
      × (calc_cyclic_min p q ≡ calc_cyclic_min q p)
      × (2 * calc_cyclic_min p q ≤ num_pages)
      × ((calc_cyclic_min p q ≡ 0) ↔ (p ≡ q))
      × (calc_cyclic_min p r ≤ calc_cyclic_min p q + calc_cyclic_min q r)
calc_cyclic_min_metric p q r hp hq hr =
    let pq = calc_cyclic_min-min p q hp hq in
    let qp = calc_cyclic_min-min q p hq hp in
    let qr = calc_cyclic_min-min q r hq hr in
    let pr = calc_cyclic_min-min p r hp hr in
    (
      omega (arith, pq),
      omega (arith, pq, qp),
      omega (arith, pq),
      (λ h. omega (arith, pq), λ e. omega (arith, pq)),
      omega (arith, pq, qr, pr),
    )
