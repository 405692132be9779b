-- ===== src/MapReduce/Schedule.antt =====
-- Reachable states by evaluation, for the tests: the threads of a schedule make a step each.
use mathlib.Core.Path.{subst}
use os.Common.{ℕ, suc, ◌+◌, ◌<◌, ◌≡◌, refl, Option, none, some, List, [], ◌∷◌, length, arith}

module _ {S : Type 0} (step : S → ℕ → Option S) where
  abbrev pub step_on : Option S → ℕ → Option S
  step_on none i = none
  step_on (some s) i = step s i

  abbrev pub run : Option S → List ℕ → Option S
  run o [] = o
  run o (i ∷ is) = run (step_on o i) is

  run-none : (is : List ℕ) → run none is ≡ none
  run-none [] = refl
  run-none (i ∷ is) = run-none is

abbrev pub or_else : {S : Type 0} → S → Option S → S
or_else s none = s
or_else s (some t) = t

abbrev pub Below : ℕ → List ℕ → Type 0
Below n [] = Unit {0}
Below n (i ∷ is) = (i < n) × Below n is

module _ {S : Type 0} (step : S → ℕ → Option S) (n : ℕ) (Reaches : ℕ → S → Type 0)
    (more : (k i : ℕ) (s t : S) → Reaches k s → i < n → step s i ≡ some t → Reaches (suc k) t) where
  run_later :
      (i k : ℕ) (is : List ℕ) (s t : S) (o : Option S)
      → Reaches k s
      → i < n
      → step s i ≡ o
      → run step o is ≡ some t
      → ((u : S)
          → Reaches (suc k) u
          → run step (some u) is ≡ some t
          → Reaches (length is + suc k) t)
      → Reaches (length is + suc k) t
  run_later i k is s t none r l f e rest = cc (run-none step is)
  run_later i k is s t (some u) r l f e rest = rest u (more k i s u r l f) e

  pub run-Reaches :
      (is : List ℕ) (k : ℕ) (s t : S)
      → Reaches k s
      → Below n is
      → run step (some s) is ≡ some t
      → Reaches (length is + k) t
  run-Reaches [] k s t r h e =
      let z : k ≡ 0 + k = omega arith in
      let f : s ≡ t = cc in subst (λ j. Reaches j t) z (subst (Reaches k) f r)
  run-Reaches (i ∷ is) k s t r h e =
      let z : length is + suc k ≡ suc (length is) + k = omega arith in
      subst (λ j. Reaches j t) z
        (run_later i k is s t (step s i) r h.0 refl e
          (λ u ru eu. run-Reaches is (suc k) u t ru h.1 eu))
