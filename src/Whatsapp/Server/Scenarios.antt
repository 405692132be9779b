-- ===== src/Whatsapp/Server/Scenarios.antt =====
-- Rounds of a concrete chat server, and clients that come and go.
use os.Common.{
  ℕ, ◌≡◌, refl, true, false, Option, none, some, [], ◌∷◌, ◌++◌, ◌==◌, if◌then◌else◌, ◌⊎◌, inl, inr,
}
use os.Whatsapp.Command.Parse.{parse_command, parse_words}
use os.Whatsapp.Text.{c_string, break_at, skip, strtok, Bytes, str_eq, codes}
use os.Whatsapp.Names.{assign, insert_sorted, str_lt, sort, contains, find}
use os.Whatsapp.Framing.Wire.{overflows, arriving}
use os.Common.{arith}
use os.Whatsapp.Printing.{
  client_exit_line, connection_line, dup_connection_line, connection_server_line, server_exit_line,
}
use os.Whatsapp.Server.Printed.{connect_printed, std_input_printed}
use os.Whatsapp.Client.Commands.{is_alnum, validate_name}
use os.Whatsapp.Client.Session.{hear, left, connected, stopped, initialization}
use os.Whatsapp.Server.Greeting.{first_to, joined, Admitted, greeting}
use os.Whatsapp.Server.State.{
  handle_parsed, handle_command, send_who, who_list, pop_back, Server, Sent, is_taken, server_who,
  connect_new_client, handle_client_request,
}
use os.Whatsapp.Server.Consistent.{Consistent}
use os.Whatsapp.Server.Delivery.{all_accepted}
use os.Whatsapp.Server.Main.{
  ended, server_std_input, serve_round, serve_rest, accept_client, serve_client, still_there, Ready,
  Round, again, broken, serve_clients, serve_all, server_init,
}
use os.Whatsapp.Server.Shutdown.{shutdown}
use os.Whatsapp.Server.Rounds.{Among, serve_all-Consistent, exit_breaks_loop}
use os.Whatsapp.Server.Chat.{dana, ron, chat}

-- Dana connects; then she asks who is there.
abbrev dana_arrives : Ready
dana_arrives = record {
  connection = some (some (4, some dana));
  std_input = none;
  client = λ fd. none;
}

abbrev dana_asks : Ready
dana_asks = record {
  connection = none;
  std_input = none;
  client = λ fd. if fd == 4 then some (some (codes "who")) else none;
}

-- The server after the two rounds.
abbrev with_dana : Server
with_dana = record {
  clients = (dana, 4) ∷ [];
  groups = [];
  clients_list = dana ∷ [];
  watched = 4 ∷ 0 ∷ 3 ∷ [];
}

abbrev two_rounds : Round
two_rounds = serve_all all_accepted (dana_arrives ∷ dana_asks ∷ []) (again (server_init 3) [])

two_rounds_lem : (out : Sent) × (two_rounds ≡ again with_dana out)
unfolding serve_all serve_round serve_rest serve_clients accept_client connect_new_client is_taken
    find server_init assign serve_client still_there handle_client_request handle_parsed
    parse_command c_string parse_words handle_command send_who server_who overflows arriving
    break_at skip str_eq strtok sort insert_sorted str_lt who_list contains pop_back
two_rounds_lem = (_, refl)

serve_all-Consistent_example : Consistent with_dana
serve_all-Consistent_example =
    serve_all-Consistent all_accepted 3 (dana_arrives ∷ dana_asks ∷ []) with_dana two_rounds_lem.0
      two_rounds_lem.1

-- Ron asks to exit, and the other two are silent.
abbrev ron_exits : ℕ → Option (Option Bytes)
ron_exits fd = if fd == 5 then some (some (codes "exit")) else none

exit_breaks_loop_example :
    serve_clients all_accepted ron_exits chat.clients (some (chat, [])) ≡ broken
exit_breaks_loop_example =
    exit_breaks_loop all_accepted ron_exits ron 5 chat.clients (some (chat, [])) (inr (inl refl))
      refl

-- Lea connects to the chat of the three.
greeting_example :
    (x : Server × Sent) × (connect_new_client all_accepted chat 7 (some (arriving (codes "lea")))
      ≡ x)
    × (((initialization (joined 7 x) (codes "lea" ∷ codes "localhost" ∷ codes "8080" ∷ [])
            ≡ connected connection_line)
          × Admitted chat (codes "lea") 7 x.0
          × (connect_printed chat (some (codes "lea")) ≡ connection_server_line (codes "lea")))
        ⊎ ((initialization (joined 7 x) (codes "lea" ∷ codes "localhost" ∷ codes "8080" ∷ [])
              ≡ stopped dup_connection_line)
            × (is_taken chat (codes "lea") ≡ true)
            × (x.0.clients ≡ chat.clients)
            × (x.0.clients_list ≡ chat.clients_list)
            × (connect_printed chat (some (codes "lea")) ≡ [])))
unfolding validate_name is_alnum
greeting_example =
    greeting chat (codes "lea") (codes "localhost") (codes "8080") 7 refl (omega arith)

shutdown_example :
    (goodbye : Sent) × (server_std_input all_accepted chat [] (codes "EXIT")
      ≡ ended ([] ++ goodbye))
    × (std_input_printed (codes "EXIT") ≡ server_exit_line)
    × ((n : Bytes) (fd : ℕ) (next : Option Bytes)
        → Among (n, fd) chat.clients
        → hear n (first_to fd goodbye) next ≡ left (client_exit_line false n))
shutdown_example = shutdown chat []
