-- ===== src/Whatsapp/Port.antt =====
-- ex4/whatsappCommon.h: `toUnsignedShort`, which reads the server's port from its argument, and the
-- start of `main` of ex4/whatsappServer.cpp.
use os.Common.{
  ℕ, ◌+◌, ◌-◌, ◌*◌, ◌%◌, ◌<◌, ◌≡◌, refl, ap, ◌∙◌, Bool, true, false, ◌&&◌, Option, none, some, List,
  [], ◌∷◌, leb, ◌==◌, if◌then◌else◌, length, arith, ◌↔◌, ◌⊎◌, inl, inr, Bool-cases,
}
use os.Whatsapp.Text.{Bytes}

-- `unsigned short`, and the bounds of `long`.
abbrev pub ushort_mod : ℕ
ushort_mod = 65536

abbrev pub long_max : ℕ
long_max = 9223372036854775807

unfoldable pub min : ℕ → ℕ → ℕ
min a b = if leb a b then a else b

unfoldable pub is_digit : ℕ → Bool
is_digit c = leb b'0' c && leb c b'9'

-- The digits that `strtol` reads behind the sign: their number, and the text from `p` on.
unfoldable pub read_digits : ℕ → Bytes → ℕ × Bytes
read_digits v [] = (v, [])
read_digits v (c ∷ cs) =
    let more = read_digits (v * 10 + (c - b'0')) cs in if is_digit c then more else (v, c ∷ cs)

-- The conversion of `strtol`'s result, which is `LONG_MAX` or `LONG_MIN` where the number is too large.
unfoldable pub to_short : Bool → ℕ → ℕ
unfolding min
to_short false v = min v long_max % ushort_mod
to_short true v = (ushort_mod - min v (long_max + 1) % ushort_mod) % ushort_mod

-- `return (*p == 0)`
unfoldable pub at_end : Bool → ℕ × Bytes → Option ℕ
at_end neg (v, []) = some (to_short neg v)
at_end neg (v, c ∷ cs) = none

-- Behind a sign; with no digit there, `strtol` leaves `p` at the sign.
unfoldable pub signed : Bool → Bytes → Option ℕ
signed neg [] = none
signed neg (c ∷ cs) = if is_digit c then at_end neg (read_digits 0 (c ∷ cs)) else none

-- `toUnsignedShort`; `none` where it returns false.
unfoldable pub to_unsigned_short : Bytes → Option ℕ
to_unsigned_short [] = none
to_unsigned_short (c ∷ cs) =
    if is_digit c
    then at_end false (read_digits 0 (c ∷ cs))
    else (if c == b'-' then signed true cs else (if c == b'+' then signed false cs else none))

-- The start of the server's `main`, by the arguments behind the name of the program; `none` where it
-- prints its usage and returns.
unfoldable pub server_port : List Bytes → Option ℕ
server_port (s ∷ []) = to_unsigned_short s
server_port _ = none

-- Every byte is a digit.
abbrev pub AllDigits : Bytes → Type 0
AllDigits [] = Unit {0}
AllDigits (c ∷ cs) = (is_digit c ≡ true) × AllDigits cs

-- The number that digits spell behind `v`.
abbrev pub value : ℕ → Bytes → ℕ
value v [] = v
value v (c ∷ cs) = value (v * 10 + (c - b'0')) cs

-- The text `s` is a number with the digits `ds` and perhaps a sign.
abbrev pub Numeral : Bytes → Bool → Bytes → Type 0
Numeral s neg ds =
    ((neg ≡ false) × (s ≡ ds))
    ⊎ ((neg ≡ false) × (s ≡ b'+' ∷ ds))
    ⊎ ((neg ≡ true) × (s ≡ b'-' ∷ ds))

at_end_iff :
    (neg : Bool) (v r : ℕ) (s : Bytes)
    → (at_end neg (read_digits v s) ≡ some r) ↔ (AllDigits s × (r ≡ to_short neg (value v s)))
unfolding at_end read_digits
at_end_iff neg v r [] = ground arith
at_end_iff neg v r (c ∷ cs) = ground (arith, at_end_iff neg (v * 10 + (c - b'0')) r cs)

signed_iff :
    (neg : Bool) (r : ℕ) (s : Bytes)
    → (signed neg s ≡ some r) ↔ ((0 < length s) × AllDigits s × (r ≡ to_short neg (value 0 s)))
unfolding signed
signed_iff neg r [] = (λ h. cc, λ h. absurd (omega (arith, h.0)))
signed_iff neg r (c ∷ cs) = ground (arith, at_end_iff neg 0 r (c ∷ cs))

plain_digits :
    (ds : Bytes) (r : ℕ)
    → 0 < length ds
    → AllDigits ds
    → r ≡ to_short false (value 0 ds)
    → to_unsigned_short ds ≡ some r
unfolding to_unsigned_short
plain_digits [] r h d e = elim h [ ]
plain_digits (c ∷ cs) r h d e = rw d.0 ((at_end_iff false 0 r (c ∷ cs)).1 (d, e))

plus_sign : (ds : Bytes) → to_unsigned_short (b'+' ∷ ds) ≡ signed false ds
unfolding to_unsigned_short is_digit
plus_sign ds = refl

minus_sign : (ds : Bytes) → to_unsigned_short (b'-' ∷ ds) ≡ signed true ds
unfolding to_unsigned_short is_digit
minus_sign ds = refl

complete :
    (s ds : Bytes) (neg : Bool) (r : ℕ)
    → Numeral s neg ds
    → 0 < length ds
    → AllDigits ds
    → r ≡ to_short neg (value 0 ds)
    → to_unsigned_short s ≡ some r
complete s ds neg r (inl (n, t)) l d e =
    ap to_unsigned_short t ∙ plain_digits ds r l d (e ∙ ap (λ b. to_short b (value 0 ds)) n)
complete s ds neg r (inr (inl (n, t))) l d e =
    ap to_unsigned_short t
    ∙ plus_sign ds
    ∙ (signed_iff false r ds).1 (l, d, e ∙ ap (λ b. to_short b (value 0 ds)) n)
complete s ds neg r (inr (inr (n, t))) l d e =
    ap to_unsigned_short t
    ∙ minus_sign ds
    ∙ (signed_iff true r ds).1 (l, d, e ∙ ap (λ b. to_short b (value 0 ds)) n)

-- What a number that is accepted is made of.
abbrev pub Accepts : Bytes → ℕ → Type 0
Accepts s r =
    (neg : Bool) × ((ds : Bytes) × Numeral s neg ds
      × (0 < length ds)
      × AllDigits ds
      × (r ≡ to_short neg (value 0 ds)))

sound : (s : Bytes) (r : ℕ) → to_unsigned_short s ≡ some r → Accepts s r
unfolding to_unsigned_short
sound [] r h = cc
sound (c ∷ cs) r h = elim (Bool-cases (is_digit c)) [
  | inl digit ↦
      let (d, e) = (at_end_iff false 0 r (c ∷ cs)).0 (ground (arith, digit, h)) in
      (false, (c ∷ cs, inl (refl, refl), omega arith, d, e))
  | inr other ↦ elim (Bool-cases (c == b'-')) [
    | inl minus ↦
        let (l, d, e) = (signed_iff true r cs).0 (ground (arith, other, minus, h)) in
        (true, (cs, inr (inr (refl, ground (arith, minus))), l, d, e))
    | inr not_minus ↦ elim (Bool-cases (c == b'+')) [
      | inl plus ↦
          let (l, d, e) = (signed_iff false r cs).0 (ground (arith, other, not_minus, plus, h)) in
          (false, (cs, inr (inl (refl, ground (arith, plus))), l, d, e))
      | inr neither ↦ ground (arith, other, not_minus, neither, h)
    ]
  ]
]

to_short-lt : (neg : Bool) (v : ℕ) → to_short neg v < ushort_mod
unfolding to_short
to_short-lt false v = omega arith
to_short-lt true v = omega arith

-- `toUnsignedShort` accepts exactly the texts of one digit or more with at most one sign before them, and
-- gives the number modulo 2^16, of a number beyond the range of `long` that of the range's end; the result is below 2^16.
pub to_unsigned_short_iff :
    (s : Bytes) (r : ℕ) → (to_unsigned_short s ≡ some r) ↔ (Accepts s r × (r < ushort_mod))
to_unsigned_short_iff s r = (
  λ h. let a = sound s r h in (a, small r a),
  λ ((neg, (ds, n, l, d, e)), lt). complete s ds neg r n l d e,
)
  where
    small : (r : ℕ) → Accepts s r → r < ushort_mod
    small r (neg, (ds, n, l, d, e)) = omega (arith, to_short-lt neg (value 0 ds), e)
