-- ===== src/Common/Lists.antt =====
-- Lists over the native numbers: lengths, how often a number occurs, removal, ascending lists.
use Prim.Native.Nat.{ℕ, zero, suc, ◌+◌, ◌-◌, ◌≤◌, ◌<◌}
use mathlib.Core.Path.{◌≡◌, refl, ap, ◌∙◌}
use mathlib.Core.List.{List, [], ◌∷◌, ◌++◌}
use native.Mathlib.Omega.{arith}
use os.Common.Tests.{◌==◌, if◌then◌else◌}

module _ {ℓ} {A : Type ℓ} where
  abbrev pub length : List A → ℕ
  length [] = 0
  length (x ∷ xs) = suc (length xs)

  pub length-append : (xs ys : List A) → length (xs ++ ys) ≡ length xs + length ys
  length-append [] ys = omega arith
  length-append (x ∷ xs) ys = omega (arith, length-append xs ys)

-- How often a number occurs.
abbrev pub count : ℕ → List ℕ → ℕ
count i [] = 0
count i (x ∷ xs) = (if i == x then 1 else 0) + count i xs

pub count-append : (i : ℕ) (xs ys : List ℕ) → count i (xs ++ ys) ≡ count i xs + count i ys
count-append i [] ys = omega arith
count-append i (x ∷ xs) ys = ground (arith, count-append i xs ys)

pub count-snoc :
    (i x : ℕ) (xs : List ℕ) → count i (xs ++ x ∷ []) ≡ count i xs + (if i == x then 1 else 0)
count-snoc i x xs = ground (arith, count-append i xs (x ∷ []))

-- `l.erase(std::remove(l.begin(), l.end(), x), l.end())`.
pub erase_all : ℕ → List ℕ → List ℕ
erase_all x [] = []
erase_all x (y ∷ ys) = let rest = erase_all x ys in if y == x then rest else y ∷ rest

pub count-erase_all :
    (i x : ℕ) (l : List ℕ) → count i (erase_all x l) ≡ (if i == x then 0 else count i l)
unfolding erase_all
count-erase_all i x [] = ground arith
count-erase_all i x (y ∷ ys) = ground (arith, count-erase_all i x ys)

pub erase_all_absent : (x : ℕ) (l : List ℕ) → count x l ≡ 0 → erase_all x l ≡ l
unfolding erase_all
erase_all_absent x [] h = refl
erase_all_absent x (y ∷ ys) h = ground (arith, erase_all_absent x ys)

-- The members ascend and lie above `n`: the order in which a `std::set` is walked.
abbrev pub Ascends : ℕ → List ℕ → Type 0
Ascends n [] = Unit {0}
Ascends n (x ∷ xs) = (n < x) × Ascends x xs

pub Ascends-mono : (m n : ℕ) (l : List ℕ) → m ≤ n → Ascends n l → Ascends m l
Ascends-mono m n [] h a = tt
Ascends-mono m n (x ∷ xs) h a = (omega arith, a.1)

pub lt-of_Ascends : (n i : ℕ) (l : List ℕ) → Ascends n l → 0 < count i l → n < i
lt-of_Ascends n i [] a h = omega arith
lt-of_Ascends n i (x ∷ xs) a h = ground (arith, lt-of_Ascends x i xs a.1)

module _ {ℓ} {A : Type ℓ} where
  abbrev pub take : ℕ → List A → List A
  take zero xs = []
  take (suc n) [] = []
  take (suc n) (x ∷ xs) = x ∷ take n xs

  abbrev pub drop : ℕ → List A → List A
  drop zero xs = xs
  drop (suc n) [] = []
  drop (suc n) (x ∷ xs) = drop n xs

  abbrev pub replicate : ℕ → A → List A
  replicate zero a = []
  replicate (suc n) a = a ∷ replicate n a

  pub take-append-drop : (n : ℕ) (xs : List A) → take n xs ++ drop n xs ≡ xs
  take-append-drop zero xs = refl
  take-append-drop (suc n) [] = refl
  take-append-drop (suc n) (x ∷ xs) = ap (λ r. x ∷ r) (take-append-drop n xs)

  pub length-drop : (n : ℕ) (xs : List A) → length (drop n xs) ≡ length xs - n
  length-drop zero xs = omega arith
  length-drop (suc n) [] = omega arith
  length-drop (suc n) (x ∷ xs) = omega (arith, length-drop n xs)

  pub length-replicate : (n : ℕ) (a : A) → length (replicate n a) ≡ n
  length-replicate zero a = refl
  length-replicate (suc n) a = ap suc (length-replicate n a)

  pub drop_append : (xs ys : List A) → drop (length xs) (xs ++ ys) ≡ ys
  drop_append [] ys = refl
  drop_append (x ∷ xs) ys = drop_append xs ys

  pub drop_all : (n : ℕ) (xs : List A) → length xs ≤ n → drop n xs ≡ []
  drop_all zero [] h = refl
  drop_all zero (x ∷ xs) h = elim h [ ]
  drop_all (suc n) [] h = refl
  drop_all (suc n) (x ∷ xs) h = drop_all n xs (omega arith)

  pub take_append : (xs ys : List A) → take (length xs) (xs ++ ys) ≡ xs
  take_append [] ys = refl
  take_append (x ∷ xs) ys = ap (λ r. x ∷ r) (take_append xs ys)

  pub replicate-append : (m n : ℕ) (a : A) → replicate m a ++ replicate n a ≡ replicate (m + n) a
  replicate-append zero n a = let e : n ≡ zero + n = omega arith in ap (λ k. replicate k a) e
  replicate-append (suc m) n a =
      let e : suc (m + n) ≡ suc m + n = omega arith in
      ap (λ r. a ∷ r) (replicate-append m n a) ∙ ap (λ k. replicate k a) e

  take-replicate : (n k : ℕ) (a : A) → n ≤ k → take n (replicate k a) ≡ replicate n a
  take-replicate zero k a h = refl
  take-replicate (suc n) zero a h = elim h [ ]
  take-replicate (suc n) (suc k) a h = ap (λ r. a ∷ r) (take-replicate n k a (omega arith))

  pub take_padded :
      (xs : List A) (n j k : ℕ) (a : A)
      → n ≡ length xs + j
      → j ≤ k
      → take n (xs ++ replicate k a) ≡ xs ++ replicate j a
  take_padded [] n j k a e h =
      let same : n ≡ j = omega arith in
      take-replicate n k a (omega arith) ∙ ap (λ i. replicate i a) same
  take_padded (x ∷ xs) zero j k a e h = absurd (omega arith)
  take_padded (x ∷ xs) (suc n) j k a e h = ap (λ r. x ∷ r) (take_padded xs n j k a (omega arith) h)

  pub drop-replicate : (n k : ℕ) (a : A) → drop n (replicate (n + k) a) ≡ replicate k a
  drop-replicate zero k a = let e : zero + k ≡ k = omega arith in ap (λ i. replicate i a) e
  drop-replicate (suc n) k a =
      let e : suc n + k ≡ suc (n + k) = omega arith in
      ap (λ i. drop (suc n) (replicate i a)) e ∙ drop-replicate n k a
