-- ===== src/Common/Totals.antt =====
-- Sums over the threads below a bound, of what a function says of each.
use Prim.Native.Nat.{ℕ, zero, suc, ◌+◌, ◌≤◌, ◌<◌}
use mathlib.Core.Path.{◌≡◌, refl, sym, ap, ◌∙◌}
use mathlib.Core.Logic.{◌≢◌, ◌⊎◌, inl, inr}
use native.Mathlib.Omega.{arith}
use os.Common.Tests.{update, ◌==◌, if◌then◌else◌, Bool-cases, eq_of_==, ne_of_==}

pub sum_below : (ℕ → ℕ) → ℕ → ℕ
sum_below f zero = 0
sum_below f (suc n) = f n + sum_below f n

pub sum_below-zero : (f : ℕ → ℕ) → sum_below f 0 ≡ 0
unfolding sum_below
sum_below-zero f = refl

pub sum_below-suc : (f : ℕ → ℕ) (n : ℕ) → sum_below f (suc n) ≡ f n + sum_below f n
unfolding sum_below
sum_below-suc f n = refl

pub sum_below_none : (n : ℕ) → sum_below (λ i. 0) n ≡ 0
unfolding sum_below
sum_below_none zero = refl
sum_below_none (suc n) = omega (arith, sum_below_none n)

pub sum_below_ones : (n : ℕ) → sum_below (λ i. 1) n ≡ n
unfolding sum_below
sum_below_ones zero = refl
sum_below_ones (suc n) = omega (arith, sum_below_ones n)

pub sum_below-ext :
    (f g : ℕ → ℕ) (n : ℕ) → ((i : ℕ) → i < n → f i ≡ g i) → sum_below f n ≡ sum_below g n
unfolding sum_below
sum_below-ext f g zero h = refl
sum_below-ext f g (suc n) h =
    omega (arith, h n (omega arith), sum_below-ext f g n (λ i l. h i (omega arith)))

cases : (i j : ℕ) → (i ≡ j) ⊎ (i ≢ j)
cases i j = elim (Bool-cases (i == j)) [
  | inl e ↦ inl (eq_of_== i j e)
  | inr e ↦ inr (ne_of_== i j e)
]

module _ {A : Type 0} (f : A → ℕ) (g : ℕ → A) (i : ℕ) (a : A) where
  sum_below_beyond :
      (n : ℕ) → n ≤ i → sum_below (λ j. f (update g i a j)) n ≡ sum_below (λ j. f (g j)) n
  sum_below_beyond n h =
      sum_below-ext (λ j. f (update g i a j)) (λ j. f (g j)) n (λ j l. ground arith)

  -- One thread changes: its part goes out and the new one comes in.
  pub sum_below-update :
      (n : ℕ)
      → i < n
      → sum_below (λ j. f (update g i a j)) n + f (g i) ≡ sum_below (λ j. f (g j)) n + f a
  unfolding sum_below
  sum_below-update zero h = elim h [ ]
  sum_below-update (suc n) h = elim (cases i n) [
    | inl e ↦ omega (arith, sum_below_beyond n (omega (arith, e)), at_end e)
    | inr ne ↦ omega (arith, sum_below-update n (ground (arith, ne)), apart ne)
  ]
    where
      at_end : i ≡ n → (f (update g i a n) ≡ f a) × (f (g n) ≡ f (g i))
      at_end e = (ground arith, ap (λ j. f (g j)) (sym e))

      apart : i ≢ n → f (update g i a n) ≡ f (g n)
      apart ne = ground arith

-- Two functions that differ at one thread.
pub sum_below_swap :
    (f g : ℕ → ℕ) (n i : ℕ)
    → i < n
    → ((j : ℕ) → j ≢ i → f j ≡ g j)
    → sum_below f n + g i ≡ sum_below g n + f i
unfolding sum_below
sum_below_swap f g zero i h same = elim h [ ]
sum_below_swap f g (suc n) i h same = elim (cases i n) [
  | inl e ↦
      let rest = sum_below-ext f g n (λ j l. same j (ground (arith, e, l))) in
      omega (arith, rest, ap f e, ap g e)
  | inr ne ↦
      let rest = sum_below_swap f g n i (ground (arith, ne)) same in
      omega (arith, rest, same n (λ q. ne (sym q)))
]

-- One more for one thread is one more in the sum.
pub sum_below_add_one :
    (f : ℕ → ℕ) (n c : ℕ)
    → c < n
    → sum_below (λ i. f i + (if i == c then 1 else 0)) n ≡ sum_below f n + 1
sum_below_add_one f n c h =
    let swap =
      sum_below_swap (λ i. f i + (if i == c then 1 else 0)) f n c h (λ j ne. ground (arith, ne)) in
    ground (arith, swap)

pub le-sum_below : (f : ℕ → ℕ) (n i : ℕ) → i < n → f i ≤ sum_below f n
unfolding sum_below
le-sum_below f zero i h = elim h [ ]
le-sum_below f (suc n) i h = ground (arith, le-sum_below f n i)

pub sum_below-le : (f : ℕ → ℕ) (n : ℕ) → ((i : ℕ) → f i ≤ 1) → sum_below f n ≤ n
unfolding sum_below
sum_below-le f zero h = omega arith
sum_below-le f (suc n) h = omega (arith, h n, sum_below-le f n h)

-- Below the full count some thread has nothing.
pub sum_below_bound : (f : ℕ → ℕ) (n : ℕ) → ((i : ℕ) → i < n → f i ≤ 1) → sum_below f n ≤ n
unfolding sum_below
sum_below_bound f zero h = omega arith
sum_below_bound f (suc n) h =
    omega (arith, h n (omega arith), sum_below_bound f n (λ i l. h i (omega arith)))

pub sum_below_gap :
    (f : ℕ → ℕ) (n : ℕ) → ((i : ℕ) → f i ≤ 1) → sum_below f n < n → (i : ℕ) × (i < n) × (f i ≡ 0)
unfolding sum_below
sum_below_gap f zero h l = absurd (omega arith)
sum_below_gap f (suc n) h l = elim (cases (f n) 0) [
  | inl z ↦ (n, omega arith, z)
  | inr nz ↦ let (i, li, z) = sum_below_gap f n h (ground (arith, nz)) in (i, omega arith, z)
]

pub one_gap : (f : ℕ → ℕ) (n i : ℕ) → ((k : ℕ) → f k ≤ 1) → i < n → f i ≡ 0 → sum_below f n < n
unfolding sum_below
one_gap f zero i h l z = elim l [ ]
one_gap f (suc n) i h l z = elim (cases i n) [
  | inl e ↦ let z' : f n ≡ 0 = ap f (sym e) ∙ z in omega (arith, sum_below-le f n h)
  | inr ne ↦ omega (arith, h n, one_gap f n i h (ground (arith, ne)) z)
]

-- Two threads that do not count leave two out.
pub two_gaps :
    (f : ℕ → ℕ) (n i j : ℕ)
    → ((k : ℕ) → f k ≤ 1)
    → i < n
    → j < n
    → i ≢ j
    → f i ≡ 0
    → f j ≡ 0
    → sum_below f n + 2 ≤ n
unfolding sum_below
two_gaps f zero i j h li lj ne zi zj = elim li [ ]
two_gaps f (suc n) i j h li lj ne zi zj = elim (cases i n) [
  | inl e ↦
      let z : f n ≡ 0 = ap f (sym e) ∙ zi in
      omega (arith, one_gap f n j h (ground (arith, ne, e)) zj)
  | inr a ↦ elim (cases j n) [
    | inl e ↦
        let z : f n ≡ 0 = ap f (sym e) ∙ zj in
        omega (arith, one_gap f n i h (ground (arith, ne, e)) zi)
    | inr b ↦
        omega (arith, h n, two_gaps f n i j h (ground (arith, a)) (ground (arith, b)) ne zi zj)
  ]
]
