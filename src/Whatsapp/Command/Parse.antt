-- ===== src/Whatsapp/Command/Parse.antt =====
-- ex4/whatsappio.cpp and ex4/whatsappio.h: `parseCommand`.
use os.Common.{ℕ, zero, suc, ◌+◌, Option, none, some, List, [], ◌∷◌, leb, if◌then◌else◌, length}
use os.Whatsapp.Text.{Bytes, codes, str_eq, c_string, strtok}

-- `WA_MAX_INPUT`: 31 bytes for each of 52 names.
abbrev pub wa_max_input : ℕ
wa_max_input = 1612

abbrev pub space : ℕ
space = b' '

abbrev pub comma : ℕ
comma = b','

pub data CommandType : Type 0 where
  create_group send who exit invalid : CommandType

-- The output arguments of `parseCommand`.
pub record Command : Type 0 where
  pub kind : CommandType
  pub name : Bytes
  pub message : Bytes
  pub clients : List Bytes

-- How a call ends: `throws` is the `std::out_of_range` of `substr`, `undefined` C++'s undefined
-- behaviour.
pub data Parsed : Type 0 where
  parsed : Command → Parsed
  throws : Parsed
  undefined : Parsed

abbrev pub bare : CommandType → Parsed
bare t = parsed (record { kind = t; name = []; message = []; clients = [] })

-- `std::string::substr` from a position to the end; `none` when the position is past the end.
unfoldable pub substr : Bytes → ℕ → Option Bytes
substr s zero = some s
substr [] (suc n) = none
substr (x ∷ xs) (suc n) = substr xs n

-- The loop over the tokens that commas part, of which there are at most `n`.
unfoldable pub client_tokens : ℕ → Bytes → List Bytes
client_tokens zero s = []
client_tokens (suc n) s = elim (strtok comma s) [
  | none ↦ []
  | some (token, rest) ↦ token ∷ client_tokens n rest
]

-- The branch of "create_group".
unfoldable pub parse_create : Option (Bytes × Bytes) → Parsed
parse_create none = bare invalid
parse_create (some (name, rest)) = parsed (record {
  kind = create_group;
  name = name;
  message = [];
  clients = client_tokens (length rest) rest;
})

sent : Bytes → Option Bytes → Parsed
sent name none = throws
sent name (some message) =
    parsed (record { kind = send; name = name; message = message; clients = [] })

-- The branch of "send": the message starts at a fixed distance behind the name's length.
unfoldable pub parse_send : Bytes → Option (Bytes × Bytes) → Parsed
unfolding sent
parse_send command none = bare invalid
parse_send command (some (name, rest)) = sent name (substr command (length name + 6))

unfoldable pub parse_words : Bytes → Option (Bytes × Bytes) → Parsed
parse_words command none = undefined
parse_words command (some (s, rest)) =
    if str_eq s (codes "create_group")
    then parse_create (strtok space rest)
    else (if str_eq s (codes "send")
        then parse_send command (strtok space rest)
        else (if str_eq s (codes "who")
            then bare who
            else (if str_eq s (codes "exit") then bare exit else bare invalid)))

-- `parseCommand`. `strcpy` into the buffer writes beyond it when the text has no room with its end.
unfoldable pub parse_command : Bytes → Parsed
parse_command [] = bare invalid
parse_command (x ∷ xs) =
    if leb wa_max_input (length (c_string (x ∷ xs)))
    then undefined
    else parse_words (x ∷ xs) (strtok space (c_string (x ∷ xs)))
