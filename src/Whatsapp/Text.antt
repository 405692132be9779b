-- ===== src/Whatsapp/Text.antt =====
-- The C strings and `std::string`s of ex4, as lists of bytes, and the parts of the C library that
-- ex4/whatsappio.cpp calls on them.
use Prim.Native.Char.{code}
use Prim.Native.String.{String}
use os.Common.{
  ℕ, ◌≡◌, ◌≢◌, refl, ap, Bool, true, false, ◌&&◌, Option, none, some, List, [], ◌∷◌, ◌++◌, ◌==◌,
  if◌then◌else◌, arith, ◌↔◌,
}

abbrev pub Bytes : Type 0
Bytes = List ℕ

-- The bytes of an ASCII literal.
abbrev pub codes : String → Bytes
codes String.[] = []
codes (String.◌∷◌ c s) = code c ∷ codes s

-- `==` of `std::string`, `!strcmp`
unfoldable pub str_eq : Bytes → Bytes → Bool
str_eq [] [] = true
str_eq [] (y ∷ ys) = false
str_eq (x ∷ xs) [] = false
str_eq (x ∷ xs) (y ∷ ys) = (x == y) && str_eq xs ys

pub str_eq_iff : (xs ys : Bytes) → (str_eq xs ys ≡ true) ↔ (xs ≡ ys)
unfolding str_eq
str_eq_iff [] [] = (λ h. refl, λ h. refl)
str_eq_iff [] (y ∷ ys) = (λ h. cc, λ h. cc)
str_eq_iff (x ∷ xs) [] = (λ h. cc, λ h. cc)
str_eq_iff (x ∷ xs) (y ∷ ys) = ground (arith, str_eq_iff xs ys)

-- No byte of the string is `c`.
abbrev pub Lacks : ℕ → Bytes → Type 0
Lacks c [] = Unit {0}
Lacks c (x ∷ xs) = (x ≢ c) × Lacks c xs

-- What a C string shows of a buffer: the bytes before the first 0.
unfoldable pub c_string : Bytes → Bytes
c_string [] = []
c_string (x ∷ xs) = let rest = c_string xs in if x == 0 then [] else x ∷ rest

pub c_string-append : (xs ys : Bytes) → Lacks 0 xs → c_string (xs ++ ys) ≡ xs ++ c_string ys
unfolding c_string
c_string-append [] ys h = refl
c_string-append (x ∷ xs) ys h = ground (arith, c_string-append xs ys h.1)

-- The bytes up to the first delimiter, and those behind it.
unfoldable pub break_at : ℕ → Bytes → Bytes × Bytes
break_at d [] = ([], [])
break_at d (x ∷ xs) =
    let (token, rest) = break_at d xs in if x == d then ([], xs) else (x ∷ token, rest)

-- The string without the delimiters in front.
unfoldable pub skip : ℕ → Bytes → Bytes
skip d [] = []
skip d (x ∷ xs) = let rest = skip d xs in if x == d then rest else x ∷ xs

-- `strtok_r` with one delimiter: the next token and what the saved pointer then points to, or null.
unfoldable pub strtok : ℕ → Bytes → Option (Bytes × Bytes)
strtok d s = elim (skip d s) [ [] ↦ none | x ∷ xs ↦ some (break_at d (x ∷ xs)) ]

pub break_at-append : (d : ℕ) (xs ys : Bytes) → Lacks d xs → break_at d (xs ++ d ∷ ys) ≡ (xs, ys)
unfolding break_at
break_at-append d [] ys h = ground arith
break_at-append d (x ∷ xs) ys h = ground (arith, break_at-append d xs ys h.1)

pub break_at_all : (d : ℕ) (xs : Bytes) → Lacks d xs → break_at d xs ≡ (xs, [])
unfolding break_at
break_at_all d [] h = refl
break_at_all d (x ∷ xs) h = ground (arith, break_at_all d xs h.1)

pub skip_of_Lacks : (d x : ℕ) (xs : Bytes) → x ≢ d → skip d (x ∷ xs) ≡ x ∷ xs
unfolding skip
skip_of_Lacks d x xs h = ground arith

-- A token that is followed by a delimiter, and one that ends the string.
pub strtok-append :
    (d x : ℕ) (xs ys : Bytes) → Lacks d (x ∷ xs) → strtok d ((x ∷ xs) ++ d ∷ ys) ≡ some (x ∷ xs, ys)
unfolding strtok
strtok-append d x xs ys h =
    rw (skip_of_Lacks d x (xs ++ d ∷ ys) h.0, strtok) (ap some (break_at-append d (x ∷ xs) ys h))

pub strtok_last : (d x : ℕ) (xs : Bytes) → Lacks d (x ∷ xs) → strtok d (x ∷ xs) ≡ some (x ∷ xs, [])
unfolding strtok
strtok_last d x xs h = rw (skip_of_Lacks d x xs h.0, strtok) (ap some (break_at_all d (x ∷ xs) h))
