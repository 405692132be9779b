-- ===== src/Whatsapp/Command/Printed.antt =====
-- ex4/whatsappio.cpp: `parseCommand` on a line "send NAME MESSAGE" or "send NAME".
use mathlib.Core.List.{append-nil, append_assoc}
use mathlib.Core.Path.{ap₂}
use os.Common.{
  ℕ, zero, suc, ◌+◌, ◌≤◌, ◌<◌, ◌≡◌, refl, sym, ap, ◌∙◌, Option, none, some, [], ◌∷◌, ◌++◌, length,
  length-append, arith,
}
use os.Whatsapp.Text.{
  Bytes, codes, str_eq, c_string, strtok, Lacks, c_string-append, strtok-append, strtok_last,
}
use os.Whatsapp.Command.Parse.{
  wa_max_input, space, send, parsed, throws, substr, parse_send, parse_words, parse_command,
}

-- A word that is not empty, has no delimiter, and no 0.
abbrev pub IsWord : ℕ → Bytes → Type 0
IsWord d [] = ⊥
IsWord d (x ∷ xs) = Lacks d (x ∷ xs) × Lacks 0 (x ∷ xs)

abbrev pub send_line : Bytes → Bytes → Bytes
send_line name message = codes "send" ++ space ∷ (name ++ space ∷ message)

substr-append : (xs ys : Bytes) → substr (xs ++ ys) (length xs) ≡ some ys
unfolding substr
substr-append [] ys = refl
substr-append (x ∷ xs) ys = substr-append xs ys

pub strtok_word : (d : ℕ) (w ys : Bytes) → IsWord d w → strtok d (w ++ d ∷ ys) ≡ some (w, ys)
strtok_word d [] ys h = elim h [ ]
strtok_word d (x ∷ xs) ys h = strtok-append d x xs ys h.0

pub c_string_word : (d : ℕ) (w ys : Bytes) → IsWord d w → c_string (w ++ ys) ≡ w ++ c_string ys
c_string_word d [] ys h = elim h [ ]
c_string_word d (x ∷ xs) ys h = c_string-append (x ∷ xs) ys h.1

pub c_string-cons : (x : ℕ) (xs : Bytes) → 0 < x → c_string (x ∷ xs) ≡ x ∷ c_string xs
unfolding c_string
c_string-cons x xs h = ground arith

send_line_seen :
    (name message : Bytes)
    → IsWord space name
    → c_string (send_line name message) ≡ send_line name (c_string message)
send_line_seen name message h =
    c_string-append (codes "send") (space ∷ (name ++ space ∷ message)) (omega arith)
    ∙ ap (λ s. codes "send" ++ s)
        (c_string-cons space (name ++ space ∷ message) (omega arith)
          ∙ ap (λ s. space ∷ s)
              (c_string_word space name (space ∷ message) h
                ∙ ap (λ s. name ++ s) (c_string-cons space message (omega arith))))

substr_message :
    (name message : Bytes) → substr (send_line name message) (length name + 6) ≡ some message
substr_message name message =
    ap₂ substr (ap (λ s. codes "send" ++ space ∷ s) (sym (append_assoc name (space ∷ []) message)))
      at_length
    ∙ substr-append front message
  where
    front : Bytes
    front = codes "send" ++ space ∷ (name ++ space ∷ [])

    at_length : length name + 6 ≡ length front
    at_length = omega (arith, length-append name (space ∷ []))

length-c_string-le : (s : Bytes) → length (c_string s) ≤ length s
unfolding c_string
length-c_string-le [] = omega arith
length-c_string-le (x ∷ xs) = ground (arith, length-c_string-le xs)

pub parse_command-words :
    (x : ℕ) (xs : Bytes) {o : Option (Bytes × Bytes)}
    → length (x ∷ xs) < wa_max_input
    → strtok space (c_string (x ∷ xs)) ≡ o
    → parse_command (x ∷ xs) ≡ parse_words (x ∷ xs) o
unfolding parse_command
parse_command-words x xs {o} fits e = ground (arith, length-c_string-le (x ∷ xs), e)

-- A line "send NAME MESSAGE" that fits the buffer is read as that name and that message, whatever
-- bytes the message has.
pub parse_command-send_line :
    (name message : Bytes)
    → IsWord space name
    → length (send_line name message) < wa_max_input
    → parse_command (send_line name message)
      ≡ parsed (record { kind = send; name = name; message = message; clients = [] })
unfolding parse_words parse_send str_eq
parse_command-send_line name message h fits =
    parse_command-words _ _ fits (ap (strtok space) (send_line_seen name message h) ∙ first)
    ∙ rw (strtok_word space name (c_string message) h) (rw (substr_message name message) refl)
  where
    first :
        strtok space (send_line name (c_string message))
        ≡ some (codes "send", name ++ space ∷ c_string message)
    first = strtok-append space 115 (codes "end") (name ++ space ∷ c_string message) (omega arith)

pub strtok_last_word : (d : ℕ) (w : Bytes) → IsWord d w → strtok d w ≡ some (w, [])
strtok_last_word d [] h = elim h [ ]
strtok_last_word d (x ∷ xs) h = strtok_last d x xs h.0

pub c_string_whole : (d : ℕ) (w : Bytes) → IsWord d w → c_string w ≡ w
c_string_whole d w h =
    ap c_string (sym (append-nil w)) ∙ c_string_word d w [] h ∙ (unfold c_string in append-nil w)

substr-eq-none : (s : Bytes) (n : ℕ) → length s < n → substr s n ≡ none
unfolding substr
substr-eq-none s zero h = elim h [ ]
substr-eq-none [] (suc n) h = refl
substr-eq-none (x ∷ xs) (suc n) h = substr-eq-none xs n (omega arith)

-- A line "send NAME" with nothing behind the name makes `parseCommand` throw.
pub parse_command_throws :
    (name : Bytes)
    → IsWord space name
    → length (codes "send" ++ space ∷ name) < wa_max_input
    → parse_command (codes "send" ++ space ∷ name) ≡ throws
unfolding parse_words parse_send str_eq
parse_command_throws name h fits =
    parse_command-words _ _ fits (ap (strtok space) shown ∙ first)
    ∙ rw (strtok_last_word space name h)
        (rw (substr-eq-none (codes "send" ++ space ∷ name) (length name + 6) (omega arith)) refl)
  where
    shown : c_string (codes "send" ++ space ∷ name) ≡ codes "send" ++ space ∷ name
    shown =
        c_string-append (codes "send") (space ∷ name) (omega arith)
        ∙ ap (λ s. codes "send" ++ s)
            (c_string-cons space name (omega arith)
              ∙ ap (λ s. space ∷ s) (c_string_whole space name h))

    first : strtok space (codes "send" ++ space ∷ name) ≡ some (codes "send", name)
    first = strtok-append space 115 (codes "end") name (omega arith)
