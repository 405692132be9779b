-- ===== src/Whatsapp/Framing/Fits.antt =====
-- ex4/whatsappCommon.h: the messages that a frame holds whole.
use os.Common.{
  Bool, true, if◌then◌else◌, ℕ, zero, suc, ◌≤◌, ◌≡◌, refl, ap, ◌∙◌, false, [], ◌∷◌, length, take,
  leb, arith,
}
use os.Whatsapp.Text.{Bytes, c_string, Lacks}
use os.Whatsapp.Command.Parse.{wa_max_input, Command, Parsed, undefined, parsed, parse_command}
use os.Whatsapp.Framing.Wire.{overflows, arriving}

-- The message has no byte 0, and is not longer than the frame.
abbrev pub Framed : Bytes → Type 0
Framed m = Lacks 0 m × (length m ≤ wa_max_input)

take_all : (n : ℕ) (m : Bytes) → length m ≤ n → take n m ≡ m
take_all zero [] h = refl
take_all (suc n) [] h = refl
take_all zero (x ∷ m) h = absurd (omega (arith, h))
take_all (suc n) (x ∷ m) h = ap (λ s. x ∷ s) (take_all n m (omega (arith, h)))

pub c_string_all : (m : Bytes) → Lacks 0 m → c_string m ≡ m
unfolding c_string
c_string_all [] h = refl
c_string_all (x ∷ m) h = ground (arith, c_string_all m h.1)

pub arriving-Framed : (m : Bytes) → Framed m → arriving m ≡ m
unfolding arriving
arriving-Framed m (lacks, fits) = ap c_string (take_all wa_max_input m fits) ∙ c_string_all m lacks

pub overflows-Framed : (m : Bytes) → Framed m → overflows m ≡ false
unfolding overflows
overflows-Framed m (lacks, fits) = ground arith

-- A line without a byte 0 that `parseCommand` reads fits, since its own buffer has no more room.
pub parsed-Framed :
    (line : Bytes) (d : Command) → Lacks 0 line → parse_command line ≡ parsed d → Framed line
unfolding parse_command
parsed-Framed [] d lacks e = (lacks, omega arith)
parsed-Framed (x ∷ xs) d lacks e =
    let whole = ap (λ s. length s) (c_string_all (x ∷ xs) lacks) in
    (lacks, ground (arith, whole, short (leb wa_max_input (length (c_string (x ∷ xs)))) _ e))
  where
    short : (b : Bool) (p : Parsed) → (if b then undefined else p) ≡ parsed d → b ≡ false
    short true p f = cc
    short false p f = refl
