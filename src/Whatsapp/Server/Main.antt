-- ===== src/Whatsapp/Server/Main.antt =====
-- ex4/whatsappServer.cpp: a round of the loop in `main`.
--
-- What `select` reports and what is then read belong to the system. `std::map` goes through the clients in
-- the order of their names; on consistent tables no request adds one in the course of the round.
use os.Common.{ℕ, Bool, Option, none, some, List, [], ◌∷◌, ◌++◌, is_some, if◌then◌else◌}
use os.Whatsapp.Text.{Bytes, codes, str_eq}
use os.Whatsapp.Names.{find}
use os.Whatsapp.Server.State.{
  Server, Client, Sent, transmit, handle_client_request, connect_new_client,
}

-- What a round finds: a new connection with its descriptor and what is read from it, `none` where `accept`
-- fails; a line on standard input; and for each descriptor that is ready what is read from it.
pub record Ready : Type 0 where
  pub connection : Option (Option (ℕ × Option Bytes))
  pub std_input : Option Bytes
  pub client : ℕ → Option (Option Bytes)

-- How a round ends.
pub data Round : Type 0 where
  again : Server → Sent → Round
  ended : Sent → Round  -- `exit(0)`
  broken : Round  -- undefined behaviour, or an exception that nothing catches

abbrev pub exit_signal : Bytes
exit_signal = codes "server_exit"

-- `serverExit`
unfoldable pub server_exit : (ℕ → Bytes → Bool) → List Client → Sent
server_exit accepts [] = []
server_exit accepts ((n, fd) ∷ cs) = transmit accepts fd exit_signal ++ server_exit accepts cs

-- `serverStdInput`
unfoldable pub server_std_input : (ℕ → Bytes → Bool) → Server → Sent → Bytes → Round
server_std_input accepts s out line =
    if str_eq line (codes "EXIT") then ended (out ++ server_exit accepts s.clients) else again s out

-- `connectNewClient` with `accept`.
unfoldable pub accept_client :
    (ℕ → Bytes → Bool) → Server → Option (Option (ℕ × Option Bytes)) → Server × Sent
accept_client accepts s none = (s, [])
accept_client accepts s (some none) = (s, [])
accept_client accepts s (some (some (fd, name))) = connect_new_client accepts s fd name

-- The handling of one client. After a request that erases the client from the map, the loop goes on
-- from the erased element.
unfoldable pub still_there : Client → Option (Server × Sent) → Option (Server × Sent)
still_there c none = none
still_there (n, fd) (some (s, out)) = if is_some (find n s.clients) then some (s, out) else none

unfoldable pub serve_client :
    (ℕ → Bytes → Bool) → Server → Client → Option (Option Bytes) → Option (Server × Sent)
serve_client accepts s c none = some (s, [])
serve_client accepts s c (some line) = still_there c (handle_client_request accepts s c line)

-- The messages of a request behind those before it.
abbrev pub appended : Sent → Option (Server × Sent) → Option (Server × Sent)
appended out none = none
appended out (some (s, more)) = some (s, out ++ more)

-- The loop over the clients.
unfoldable pub serve_clients :
    (ℕ → Bytes → Bool) → (ℕ → Option (Option Bytes)) → List Client → Option (Server × Sent) → Round
serve_clients accepts ready cs none = broken
serve_clients accepts ready [] (some (s, out)) = again s out
serve_clients accepts ready ((n, fd) ∷ cs) (some (s, out)) =
    serve_clients accepts ready cs (appended out (serve_client accepts s (n, fd) (ready fd)))

-- The rest of a round: standard input, or else the clients.
unfoldable pub serve_rest :
    (ℕ → Bytes → Bool) → (ℕ → Option (Option Bytes)) → Server × Sent → Option Bytes → Round
serve_rest accepts ready (s, out) (some line) = server_std_input accepts s out line
serve_rest accepts ready (s, out) none = serve_clients accepts ready s.clients (some (s, out))

-- The messages of a round behind those of the rounds before.
abbrev pub behind : Sent → Round → Round
behind out (again s more) = again s (out ++ more)
behind out (ended more) = ended (out ++ more)
behind out broken = broken

-- One round of the loop of `main`.
unfoldable pub serve_round : (ℕ → Bytes → Bool) → Ready → Server → Round
serve_round accepts r s =
    serve_rest accepts r.client (accept_client accepts s r.connection) r.std_input

-- The loop of `main` over the rounds.
unfoldable pub serve_all : (ℕ → Bytes → Bool) → List Ready → Round → Round
serve_all accepts [] o = o
serve_all accepts (r ∷ rs) (again s out) =
    serve_all accepts rs (behind out (serve_round accepts r s))
serve_all accepts (r ∷ rs) (ended out) = ended out
serve_all accepts (r ∷ rs) broken = broken

-- The server when the loop begins, with the descriptors of its socket and of standard input.
unfoldable pub server_init : ℕ → Server
server_init sockfd = record {
  clients = [];
  groups = [];
  clients_list = [];
  watched = 0 ∷ sockfd ∷ [];
}
