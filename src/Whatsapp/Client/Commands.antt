-- ===== src/Whatsapp/Client/Commands.antt =====
-- ex4/whatsappClient.cpp: what a client does with a line that its user types.
--
-- The connection belongs to the system: whether the client's message is accepted, what `read_data`
-- then reads, `none` for its failure, and whether the connection closes.
use os.Common.{
  ℕ, Bool, true, false, ◌&&◌, ◌||◌, not, Option, none, some, List, [], ◌∷◌, leb, if◌then◌else◌,
}
use os.Whatsapp.Text.{Bytes, str_eq}
use os.Whatsapp.Command.Parse.{
  CommandType, create_group, send, who, exit, invalid, Command, Parsed, parsed, throws, undefined,
  parse_command,
}
use os.Whatsapp.Framing.Wire.{overflows, Response, success, response_type}

pub record Connection : Type 0 where
  pub writes : Bool
  pub reply : Option Bytes
  pub closes : Bool

-- How a line ends: with a report of success or failure, with the text of `who`, with the message for
-- an invalid input, with `exit(0)`, with `exit(1)`, or in undefined behaviour.
pub data Outcome : Type 0 where
  reported : Bool → Outcome
  shown : Bytes → Outcome
  rejected : Outcome
  left : Outcome
  died : Outcome
  unspecified : Outcome

-- The requests that are sent, and the outcome.
abbrev pub Effect : Type 0
Effect = List Bytes × Outcome

-- `isalnum` in the C locale.
unfoldable pub is_alnum : ℕ → Bool
is_alnum c =
    (leb b'0' c && leb c b'9') || ((leb b'A' c && leb c b'Z') || (leb b'a' c && leb c b'z'))

-- `validateName`
unfoldable pub validate_name : Bytes → Bool
validate_name [] = true
validate_name (c ∷ cs) = if is_alnum c then validate_name cs else false

-- The loop of `create_group` over the members.
unfoldable pub validate_all : List Bytes → Bool
validate_all [] = true
validate_all (n ∷ ns) = if validate_name n then validate_all ns else false

abbrev pub is_success : Response → Bool
is_success success = true
is_success _ = false

-- `responseType(response) == SUCCESS` once the response is read.
unfoldable pub report : Option Bytes → Outcome
report none = died
report (some response) = reported (is_success (response_type response))

abbrev pub requested : Connection → Bytes → List Bytes
requested n command = if n.writes then command ∷ [] else []

-- `send_data` for a command: one that is longer than its buffer is undefined behaviour.
abbrev pub sending : Bytes → Effect → Effect
sending command x = if overflows command then ([], unspecified) else x

-- `create_group`: it goes on to read when `send_data` fails.
unfoldable pub client_create_group : Connection → Bytes → Bytes → List Bytes → Bytes → Effect
client_create_group n own group clients command =
    if validate_name group && (not (str_eq group own) && validate_all clients)
    then sending command (requested n command, report n.reply)
    else ([], reported false)

-- `send`
unfoldable pub client_send : Connection → Bytes → Bytes → Bytes → Effect
client_send n own to command =
    if not (validate_name to) || str_eq to own
    then ([], reported false)
    else sending command (requested n command, (if n.writes then report n.reply else died))

unfoldable pub show : Option Bytes → Outcome
show none = died
show (some text) = shown text

-- `who`
unfoldable pub client_who : Connection → Bytes → Effect
client_who n command =
    sending command (requested n command, (if n.writes then show n.reply else died))

-- `exit_client`
unfoldable pub exit_client : Connection → Bytes → Effect
exit_client n command =
    sending command (requested n command, (if n.writes && n.closes then left else died))

-- The switch of `main` over the kind of the command.
unfoldable pub run_command : Connection → Bytes → Bytes → CommandType → Command → Effect
run_command n own line create_group d = client_create_group n own d.name d.clients line
run_command n own line send d = client_send n own d.name line
run_command n own line who d = client_who n line
run_command n own line exit d = exit_client n line
run_command n own line invalid d = ([], rejected)

unfoldable pub run_parsed : Connection → Bytes → Bytes → Parsed → Effect
run_parsed n own line (parsed d) = run_command n own line d.kind d
run_parsed n own line throws = ([], rejected)
run_parsed n own line undefined = ([], unspecified)

-- The branch of `main` for a line on standard input.
unfoldable pub run_line : Connection → Bytes → Bytes → Effect
run_line n own line = run_parsed n own line (parse_command line)
