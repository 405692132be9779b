-- ===== src/Whatsapp/Command/Created.antt =====
-- ex4/whatsappio.cpp: `parseCommand` on a line "create_group NAME CLIENTS".

use os.Common.{
  ℕ, zero, suc, ◌≤◌, ◌<◌, ◌≡◌, refl, ap, ◌∙◌, none, some, List, [], ◌∷◌, ◌++◌, length,
  length-append, arith,
}
use os.Whatsapp.Text.{Bytes, codes, skip, str_eq, c_string, strtok, c_string-append, strtok-append}
use os.Whatsapp.Command.Parse.{
  wa_max_input, space, comma, create_group, parsed, client_tokens, parse_create, parse_words,
  parse_command,
}
use os.Whatsapp.Command.Printed.{
  IsWord, strtok_word, c_string_word, c_string-cons, parse_command-words, strtok_last_word,
  c_string_whole,
}

abbrev pub AllWords : ℕ → List Bytes → Type 0
AllWords d [] = Unit {0}
AllWords d (w ∷ ws) = IsWord d w × AllWords d ws

abbrev pub join : List Bytes → Bytes
join [] = []
join (w ∷ []) = w
join (w ∷ v ∷ ws) = w ++ comma ∷ join (v ∷ ws)

abbrev pub create_line : Bytes → List Bytes → Bytes
create_line name clients = codes "create_group" ++ space ∷ (name ++ space ∷ join clients)

strtok_nil : (d : ℕ) → strtok d [] ≡ none
unfolding strtok skip
strtok_nil d = refl

client_tokens_nil : (n : ℕ) → client_tokens n [] ≡ []
unfolding client_tokens
client_tokens_nil zero = refl
client_tokens_nil (suc n) = rw (strtok_nil comma, client_tokens) refl

word_pos : (d : ℕ) (w : Bytes) → IsWord d w → 0 < length w
word_pos d [] h = elim h [ ]
word_pos d (x ∷ xs) h = omega arith

-- As many rounds as the text has bytes are enough for all tokens.
client_tokens-join :
    (ws : List Bytes) (n : ℕ)
    → AllWords comma ws
    → length (join ws) ≤ n
    → client_tokens n (join ws) ≡ ws
unfolding client_tokens
client_tokens-join [] n h le = client_tokens_nil n
client_tokens-join (w ∷ []) zero h le = absurd (omega (arith, word_pos comma w h.0))
client_tokens-join (w ∷ []) (suc n) h le =
    rw (strtok_last_word comma w h.0, client_tokens) (ap (λ ts. w ∷ ts) (client_tokens_nil n))
client_tokens-join (w ∷ v ∷ ws) zero h le =
    absurd (omega (arith, length-append w (comma ∷ join (v ∷ ws))))
client_tokens-join (w ∷ v ∷ ws) (suc n) h le =
    rw (strtok_word comma w (join (v ∷ ws)) h.0, client_tokens)
      (ap (λ ts. w ∷ ts)
        (client_tokens-join (v ∷ ws) n h.1
          (omega (arith, length-append w (comma ∷ join (v ∷ ws))))))

c_string-join : (ws : List Bytes) → AllWords comma ws → c_string (join ws) ≡ join ws
c_string-join [] h = unfold c_string in refl
c_string-join (w ∷ []) h = c_string_whole comma w h.0
c_string-join (w ∷ v ∷ ws) h =
    c_string_word comma w (comma ∷ join (v ∷ ws)) h.0
    ∙ ap (λ s. w ++ s)
        (c_string-cons comma (join (v ∷ ws)) (omega arith)
          ∙ ap (λ s. comma ∷ s) (c_string-join (v ∷ ws) h.1))

create_line_seen :
    (name : Bytes) (ws : List Bytes)
    → IsWord space name
    → AllWords comma ws
    → c_string (create_line name ws) ≡ create_line name ws
create_line_seen name ws h hs =
    c_string-append (codes "create_group") (space ∷ (name ++ space ∷ join ws)) (omega arith)
    ∙ ap (λ s. codes "create_group" ++ s)
        (c_string-cons space (name ++ space ∷ join ws) (omega arith)
          ∙ ap (λ s. space ∷ s)
              (c_string_word space name (space ∷ join ws) h
                ∙ ap (λ s. name ++ s)
                    (c_string-cons space (join ws) (omega arith)
                      ∙ ap (λ s. space ∷ s) (c_string-join ws hs))))

-- A line "create_group NAME CLIENT,...,CLIENT" that fits the buffer is read as that name and those
-- clients in their order, if the name has no space, no client's name a comma, and none is empty.
pub parse_command-create_line :
    (name : Bytes) (ws : List Bytes)
    → IsWord space name
    → AllWords comma ws
    → length (create_line name ws) < wa_max_input
    → parse_command (create_line name ws)
      ≡ parsed (record { kind = create_group; name = name; message = []; clients = ws })
unfolding parse_words parse_create str_eq
parse_command-create_line name ws h hs fits =
    parse_command-words _ _ fits (ap (strtok space) (create_line_seen name ws h hs) ∙ first)
    ∙ rw (strtok_word space name (join ws) h)
        (rw (client_tokens-join ws (length (join ws)) hs (omega arith)) refl)
  where
    first :
        strtok space (create_line name ws) ≡ some (codes "create_group", name ++ space ∷ join ws)
    first = strtok-append space 99 (codes "reate_group") (name ++ space ∷ join ws) (omega arith)
