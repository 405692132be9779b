-- ===== src/Whatsapp/Client/Main.antt =====
-- ex4/whatsappClient.cpp: the loop of `main`, with what it prints.
--
-- What `select` reports and what is then read belong to the system. When both the socket and standard input
-- are ready, only the socket is looked at.
use os.Common.{Bool, false, Option, none, some, List, [], ◌∷◌, ◌++◌, if◌then◌else◌}
use os.Whatsapp.Text.{Bytes}
use os.Whatsapp.Printing.{
  newline, create_group_line, send_report, client_exit_line, invalid_input_line,
}
use os.Whatsapp.Command.Parse.{
  CommandType, create_group, send, Command, Parsed, parsed, parse_command,
}
use os.Whatsapp.Client.Commands.{
  Connection, Outcome, reported, shown, rejected, left, died, unspecified, Effect, run_parsed,
}
use os.Whatsapp.Client.Session.{Heard, goes_on, left, died, hear}

-- What a round finds: whether `select` succeeds; if the socket is ready, what `read_data` reads from it, and
-- what it reads if it is called again; if a line is typed, the line and how the connection takes requests.
pub record Wake : Type 0 where
  pub selects : Bool
  pub message : Option (Option Bytes × Option Bytes)
  pub typed : Option (Bytes × Connection)

-- The client after some rounds, by what it has printed and the requests that it has sent: it goes on, or it
-- has ended with `exit(0)` or `exit(1)`, or in undefined behaviour.
pub data Turn : Type 0 where
  stays : Bytes → List Bytes → Turn
  leaves : Bytes → List Bytes → Turn
  dies : Turn
  breaks : Turn

-- The report of `create_group` and `send`.
unfoldable pub report_line : Bytes → CommandType → Command → Bool → Bytes
report_line own create_group d b = create_group_line false b own d.name
report_line own send d b = send_report false b own d.name d.message
report_line own _ d b = []

-- What becomes of a typed line, by what was parsed.
unfoldable pub outcome_turn : Bytes → Parsed → List Bytes → Outcome → Turn
outcome_turn own (parsed d) sent (reported b) = stays (report_line own d.kind d b) sent
outcome_turn own p sent (reported b) = stays [] sent
outcome_turn own p sent (shown text) = stays (text ++ newline) sent
outcome_turn own p sent rejected = stays invalid_input_line sent
outcome_turn own p sent left = leaves (client_exit_line false own) sent
outcome_turn own p sent died = dies
outcome_turn own p sent unspecified = breaks

abbrev pub of_effect : Bytes → Parsed → Effect → Turn
of_effect own p (sent, o) = outcome_turn own p sent o

-- The branch for standard input.
unfoldable pub typed_turn : Bytes → Option (Bytes × Connection) → Turn
typed_turn own none = stays [] []
typed_turn own (some (line, c)) =
    of_effect own (parse_command line) (run_parsed c own line (parse_command line))

-- The branch for the socket.
unfoldable pub of_heard : Heard → Turn
of_heard (goes_on text) = stays text []
of_heard (left text) = leaves text []
of_heard died = dies

-- The two branches.
unfoldable pub ready_turn :
    Bytes → Option (Option Bytes × Option Bytes) → Option (Bytes × Connection) → Turn
ready_turn own (some (first, next)) typed = of_heard (hear own first next)
ready_turn own none typed = typed_turn own typed

-- One round.
unfoldable pub client_turn : Bytes → Wake → Turn
client_turn own w = if w.selects then ready_turn own w.message w.typed else dies

-- A round behind those before it.
abbrev pub after_turn : Bytes → List Bytes → Turn → Turn
after_turn text sent (stays more later) = stays (text ++ more) (sent ++ later)
after_turn text sent (leaves more later) = leaves (text ++ more) (sent ++ later)
after_turn text sent dies = dies
after_turn text sent breaks = breaks

-- The loop over the rounds.
unfoldable pub client_all : Bytes → List Wake → Turn → Turn
client_all own [] t = t
client_all own (w ∷ ws) (stays text sent) =
    client_all own ws (after_turn text sent (client_turn own w))
client_all own (w ∷ ws) (leaves text sent) = leaves text sent
client_all own (w ∷ ws) dies = dies
client_all own (w ∷ ws) breaks = breaks
