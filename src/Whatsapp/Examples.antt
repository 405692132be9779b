-- ===== src/Whatsapp/Examples.antt =====
-- Concrete lines and frames for the command parser and the framing of ex4.
use os.Common.{
  refl, true, ◌↔◌, ◌<◌, ℕ, zero, suc, ◌-◌, ◌≡◌, some, List, [], ◌∷◌, ◌++◌, length, replicate,
  length-replicate, arith,
}
use os.Common.{none}
use os.Whatsapp.Text.{str_eq, c_string, break_at, skip, strtok}
use os.Whatsapp.Printing.{client_exit_line}
use os.Whatsapp.Server.State.{send_que}
use os.Whatsapp.Command.Parse.{parse_words}
use os.Whatsapp.Framing.Wire.{overflows}
use os.Whatsapp.Client.Commands.{run_parsed, run_command, exit_client}
use os.Whatsapp.Client.Session.{hear, is_server_exit, is_message_from, show_message}
use os.Whatsapp.Client.Main.{
  Wake, stays, leaves, client_all, client_turn, ready_turn, of_heard, typed_turn, outcome_turn,
}
use os.Whatsapp.Client.Ending.{Explained, client_ends}
use os.Whatsapp.Text.{Bytes, codes}
use os.Whatsapp.Command.Parse.{wa_max_input, send, Command, parsed, parse_command}
use os.Whatsapp.Command.Printed.{send_line, parse_command-send_line}
use os.Whatsapp.Framing.Wire.{zeros, finished, frame, send_data, message, read_data}
use os.Whatsapp.Framing.Sending.{Positive, send_data_lem}
use os.Whatsapp.Framing.Receiving.{read_data-frame, read_data_split}
use os.Whatsapp.Client.Commands.{Connection, run_line}
use os.Whatsapp.Port.{ushort_mod, to_unsigned_short, Accepts, to_unsigned_short_iff}
use os.Whatsapp.Client.Checked.{Admissible, run_line_iff}

abbrev dana : Bytes
dana = codes "dana"

abbrev ron : Bytes
ron = codes "ron"

abbrev greeting : Bytes
greeting = codes "see you at 8, ok"

parse_command-send_line_example :
    parse_command (send_line dana greeting)
    ≡ parsed (record { kind = send; name = dana; message = greeting; clients = [] })
parse_command-send_line_example = parse_command-send_line dana greeting (omega arith) (omega arith)

Positive-replicate : (n k : ℕ) → Positive (replicate n (suc k))
Positive-replicate zero k = record {}
Positive-replicate (suc n) k = (omega arith, Positive-replicate n k)

-- Calls of `write` that accept three bytes each.
abbrev threes : List ℕ
threes = replicate wa_max_input 3

send_data_lem_example :
    send_data threes greeting ≡ some (greeting ++ zeros (wa_max_input - length greeting), finished)
send_data_lem_example =
    send_data_lem threes greeting (Positive-replicate wa_max_input 2)
      (omega (arith, length-replicate {A = ℕ} wa_max_input 3)) (omega arith)

read_data-frame_example : read_data (frame greeting ∷ []) ≡ message greeting []
read_data-frame_example = read_data-frame greeting [] (omega arith) (omega arith)

read_data_split_example :
    (frame dana ≡ (dana ++ zeros 8) ++ zeros 1600)
    × (read_data ((dana ++ zeros 8) ∷ zeros 1600 ∷ []) ≡ message [] [])
read_data_split_example = read_data_split dana 8 1599 [] (omega arith) (omega arith)

-- The server answers with success.
abbrev online : Connection
online = record { writes = true; reply = some (codes "success"); closes = true }

run_line_iff_example :
    ((run_line online dana (send_line ron greeting)).0 ≡ send_line ron greeting ∷ []) ↔ (
      (d : Command) × (parse_command (send_line ron greeting) ≡ parsed d)
      × Admissible dana d.kind d)
run_line_iff_example = run_line_iff online dana (send_line ron greeting) refl (omega arith)

to_unsigned_short_iff_example :
    (to_unsigned_short (codes "65537") ≡ some 1) ↔ (Accepts (codes "65537") 1 × (1 < ushort_mod))
to_unsigned_short_iff_example = to_unsigned_short_iff (codes "65537") 1

-- Ron gets a message of dana, and then types "exit".
abbrev rons_rounds : List Wake
rons_rounds =
    record { selects = true; message = some (some send_que, some (codes "dana: hi")); typed = none }
    ∷ record { selects = true; message = none; typed = some (codes "exit", online) }
    ∷ []

rons_end :
    client_all ron rons_rounds (stays [] [])
    ≡ leaves (codes "dana: hi\nUnregistered successfully.\n") (codes "exit" ∷ [])
unfolding client_all client_turn ready_turn of_heard hear is_server_exit is_message_from
    show_message str_eq typed_turn run_parsed run_command exit_client outcome_turn parse_command
    c_string parse_words break_at skip strtok client_exit_line overflows
rons_end = refl

client_ends_example : Explained ron rons_rounds (client_all ron rons_rounds (stays [] []))
client_ends_example = client_ends ron rons_rounds
