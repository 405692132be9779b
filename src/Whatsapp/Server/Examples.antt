-- ===== src/Whatsapp/Server/Examples.antt =====
-- A concrete chat server and requests to it.
use os.Common.{
  ℕ, ◌≡◌, refl, Bool, true, false, not, none, some, List, [], ◌∷◌, ◌==◌, if◌then◌else◌, inr,
}
use os.Common.{is_some}
use os.Whatsapp.Text.{str_eq, c_string, break_at, skip, strtok}
use os.Whatsapp.Names.{occurrences, find, sort, insert_sorted, str_lt}
use os.Whatsapp.Framing.Fits.{Framed}
use os.Common.{arith}
use os.Whatsapp.Command.Parse.{who, Command, parsed, parse_command, parse_words}
use os.Whatsapp.Command.Created.{join}
use os.Whatsapp.Client.Commands.{shown, run_line}
use os.Whatsapp.Server.Delivery.{Ascending}
use os.Whatsapp.Server.Answers.{unread}
use os.Whatsapp.Printing.{who_server_line}
use os.Whatsapp.Server.Printed.{request_printed}
use os.Whatsapp.Server.Listing.{who_shown}
use os.Whatsapp.Port.{to_unsigned_short, is_digit, at_end, read_digits, to_short, min}
use os.Whatsapp.Server.Main.{Ready, again, ended, server_init}
use os.Whatsapp.Server.Start.{HostNet, served, server_main, exit_typed, server_unnoticed}
use os.Whatsapp.Text.{Bytes, codes}
use os.Whatsapp.Server.Delivery.{all_accepted}
use os.Whatsapp.Server.State.{Server, Sent, handle_client_request}
use os.Whatsapp.Server.Chat.{dana, chat, chat-Consistent}

-- A system in which messages to the descriptor 5 fail.
abbrev ron_fails : ℕ → Bytes → Bool
ron_fails fd m = not (fd == 5)

-- `bind` fails; EXIT is typed in the second round.
abbrev port_taken : HostNet
port_taken = record { finds_host = true; socket = some 3; binds = false; listens = true }

abbrev lonely_rounds : List Ready
lonely_rounds =
    record { connection = some none; std_input = none; client = λ fd. none }
    ∷ record { connection = some none; std_input = some (codes "EXIT"); client = λ fd. none }
    ∷ []

port_read : to_unsigned_short (codes "8080") ≡ some 8080
unfolding to_unsigned_short is_digit at_end read_digits to_short min
port_read = refl

server_unnoticed_example :
    server_main all_accepted port_taken (codes "8080" ∷ []) lonely_rounds
    ≡ served (if exit_typed lonely_rounds then ended [] else again (server_init 3) [])
server_unnoticed_example =
    server_unnoticed all_accepted port_taken (codes "8080") lonely_rounds 8080 3 port_read refl refl
      refl (inr refl, (inr refl, tt))

abbrev who_asked : Command
who_asked = record { kind = who; name = []; message = []; clients = [] }

who_read : parse_command (codes "who") ≡ parsed who_asked
unfolding parse_command c_string parse_words break_at skip str_eq strtok
who_read = refl

danas_entry : find dana chat.clients ≡ some 4
unfolding find str_eq
danas_entry = refl

names_fit : Framed (join (sort chat.clients_list))
unfolding sort insert_sorted str_lt
names_fit = (omega arith, omega arith)

who_shown_example :
    (s' : Server) × (out : Sent) × (ns : List Bytes) × (handle_client_request all_accepted chat
        (dana, 4)
        (some (codes "who"))
      ≡ some (s', out))
    × (run_line (unread 4 out) dana (codes "who") ≡ (codes "who" ∷ [], shown (join ns)))
    × Ascending ns
    × ((k : Bytes) → occurrences k ns ≡ (if is_some (find k chat.clients) then 1 else 0))
    × (s'.clients ≡ chat.clients)
    × (s'.groups ≡ chat.groups)
    × (request_printed all_accepted chat (dana, 4) (some (codes "who"))
        ≡ some (who_server_line dana))
who_shown_example =
    who_shown chat dana (codes "who") 4 who_asked chat-Consistent danas_entry who_read refl
      (omega arith) names_fit
