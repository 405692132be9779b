-- ===== src/Whatsapp/Server/State.antt =====
-- ex4/whatsappServer.cpp: the tables of `WhatsappServer` and what each request does to them.
--
-- Whether `send_data` to a descriptor succeeds belongs to the system: it is the argument `accepts`.
-- A handler returns the server and the messages that were sent, by descriptor, or `none` where its
-- behaviour is undefined or an exception ends the server. A text that is longer than the buffer of `send_data` is
-- undefined behaviour where it is sent; the signals are shorter. What it prints is in Server.Printed.
use os.Common.{
  ℕ, Bool, true, false, ◌||◌, ◌&&◌, Option, none, some, List, [], ◌∷◌, ◌++◌, ltb, ◌==◌,
  if◌then◌else◌, length, is_some,
}
use os.Whatsapp.Text.{Bytes, codes, str_eq}
use os.Whatsapp.Framing.Wire.{overflows, arriving}
use os.Whatsapp.Names.{contains, sort, unique, includes, remove_name, find, assign, erase_key}
use os.Whatsapp.Command.Parse.{
  comma, CommandType, create_group, send, who, exit, invalid, Command, Parsed, parsed, throws,
  undefined, parse_command,
}

-- `Client`: a name and a descriptor.
abbrev pub Client : Type 0
Client = Bytes × ℕ

pub record Server : Type 0 where
  pub clients : List Client
  pub groups : List (Bytes × List Bytes)
  pub clients_list : List Bytes
  pub watched : List ℕ

abbrev pub Sent : Type 0
Sent = List (ℕ × Bytes)

-- One call of `send_data` with a text that its buffer holds: what arrives.
unfoldable pub transmit : (ℕ → Bytes → Bool) → ℕ → Bytes → Sent
transmit accepts fd m = if accepts fd m then (fd, m) ∷ [] else []

abbrev pub success_signal : Bytes
success_signal = codes "success"

abbrev pub failure_signal : Bytes
failure_signal = codes "failure"

abbrev pub name_exists_signal : Bytes
name_exists_signal = codes "name_exists"

-- `SEND_QUE`
abbrev pub send_que : Bytes
send_que = codes "SEND\n"

-- The name is taken by a client or by a group.
unfoldable pub is_taken : Server → Bytes → Bool
is_taken s n = is_some (find n s.clients) || is_some (find n s.groups)

-- The group as `createGroup` makes it: with the client that asks, in order, without duplicates.
unfoldable pub members : Bytes → List Bytes → List Bytes
members creator group = unique (sort (group ++ creator ∷ []))

-- The part of `createGroup` behind its test for the size: `subset` sorts the list of clients.
unfoldable pub found_group : Server → Bytes → List Bytes → Server × Bytes
found_group s name group =
    let sorted : Server = record s { clients_list = sort s.clients_list } in
    if includes (sort s.clients_list) group
    then (record sorted { groups = assign name group s.groups }, success_signal)
    else (sorted, failure_signal)

-- The tables after `createGroup` and the signal for the client.
unfoldable pub create_group_as : Server → Bytes → Bytes → List Bytes → Server × Bytes
create_group_as s creator name group =
    if is_taken s name
    then (s, name_exists_signal)
    else (if ltb (length (members creator group)) 2
        then (s, failure_signal)
        else found_group s name (members creator group))

-- `createGroup`
unfoldable pub server_create_group :
    (ℕ → Bytes → Bool) → Server → Client → Bytes → List Bytes → Server × Sent
server_create_group accepts s (creator, fd) name group =
    let (s', signal) = create_group_as s creator name group in (s', transmit accepts fd signal)

-- `clients[name]`: a name without an entry gets one, with the descriptor 0.
unfoldable pub lookup : Server → Bytes → Server × ℕ
lookup s n = elim (find n s.clients) [
  | none ↦ (record s { clients = assign n 0 s.clients }, 0)
  | some fd ↦ (s, fd)
]

-- `send_pop` and the message to one client; whether both were accepted. The message is what arrives of the text,
-- and `send_overflows` is the case in which the buffer does not hold it.
unfoldable pub deliver : (ℕ → Bytes → Bool) → ℕ → Bytes → Bool × Sent
deliver accepts fd m =
    if accepts fd send_que
    then (accepts fd m, (fd, send_que) ∷ transmit accepts fd m)
    else (false, [])

-- The loop over the members of a group: it ends at the first failure.
unfoldable pub send_members :
    (ℕ → Bytes → Bool) → Server → Bytes → Bytes → List Bytes → Server × (Bool × Sent)
send_members accepts s sender m [] = (s, (true, []))
send_members accepts s sender m (n ∷ ns) =
    let (s', fd) = lookup s n in
    let (ok, out) = deliver accepts fd m in
    let skipped = send_members accepts s sender m ns in
    let (s'', (later, more)) = send_members accepts s' sender m ns in
    if str_eq n sender
    then skipped
    else (if ok then (s'', (later, out ++ more)) else (s', (false, out)))

-- The signal for the sender at the end of `send`.
abbrev pub verdict : Bool → Bytes
verdict ok = if ok then success_signal else failure_signal

abbrev pub conclude : (ℕ → Bytes → Bool) → ℕ → Server × (Bool × Sent) → Server × Sent
conclude accepts fd (s, (ok, out)) = (s, out ++ transmit accepts fd (verdict ok))

-- `send`, once the addressee is looked up among the clients and among the groups.
unfoldable pub send_found :
    (ℕ → Bytes → Bool) → Server → Client → Bytes → Option ℕ → Option (List Bytes) → Server × Sent
unfolding deliver send_members
send_found accepts s (sender, fd) m (some to) g = conclude accepts fd (s, deliver accepts to m)
send_found accepts s (sender, fd) m none none = (s, transmit accepts fd failure_signal)
send_found accepts s (sender, fd) m none (some ns) =
    if contains ns sender
    then conclude accepts fd (send_members accepts s sender m ns)
    else (s, transmit accepts fd failure_signal)

-- `send`
unfoldable pub server_send : (ℕ → Bytes → Bool) → Server → Client → Bytes → Bytes → Server × Sent
server_send accepts s (sender, fd) to m =
    send_found accepts s (sender, fd) (arriving (sender ++ codes ": " ++ m)) (find to s.clients)
      (find to s.groups)

-- Whether the loop over the members of a group comes to send the text.
unfoldable pub sends_member : (ℕ → Bytes → Bool) → Server → Bytes → List Bytes → Bool
sends_member accepts s sender [] = false
sends_member accepts s sender (n ∷ ns) =
    if str_eq n sender then sends_member accepts s sender ns else accepts (lookup s n).1 send_que

-- Whether `send` comes to send the text, by what the addressee is.
unfoldable pub sends_text :
    (ℕ → Bytes → Bool) → Server → Bytes → Option ℕ → Option (List Bytes) → Bool
sends_text accepts s sender (some to) g = accepts to send_que
sends_text accepts s sender none none = false
sends_text accepts s sender none (some ns) = contains ns sender && sends_member accepts s sender ns

-- `send` writes a text beyond the buffer of `send_data`.
unfoldable pub send_overflows : (ℕ → Bytes → Bool) → Server → Bytes → Bytes → Bytes → Bool
send_overflows accepts s sender to m =
    overflows (sender ++ codes ": " ++ m)
    && sends_text accepts s sender (find to s.clients) (find to s.groups)

abbrev pub unless : {A : Type 0} → Bool → A → Option A
unless true x = none
unless false x = some x

-- The names of `who`, each with a comma behind it.
unfoldable pub who_list : List Bytes → Bytes
who_list [] = []
who_list (n ∷ ns) = n ++ comma ∷ who_list ns

-- `std::string::pop_back`, undefined on the empty string.
unfoldable pub pop_back : Bytes → Option Bytes
pop_back [] = none
pop_back (x ∷ []) = some []
pop_back (x ∷ y ∷ ys) = elim (pop_back (y ∷ ys)) [ none ↦ none | some s ↦ some (x ∷ s) ]

-- The text, if `send_data` has room for it.
abbrev pub sendable : Option Bytes → Option Bytes
sendable none = none
sendable (some text) = unless (overflows text) text

-- `who`, by the text without its last comma.
unfoldable pub send_who : (ℕ → Bytes → Bool) → Server → ℕ → Option Bytes → Option (Server × Sent)
send_who accepts s fd none = none
send_who accepts s fd (some text) =
    some (record s { clients_list = sort s.clients_list }, transmit accepts fd (arriving text))

-- `who`
unfoldable pub server_who : (ℕ → Bytes → Bool) → Server → Client → Option (Server × Sent)
server_who accepts s (n, fd) =
    send_who accepts s fd (sendable (pop_back (who_list (sort s.clients_list))))

-- What remains of a group, in front of the groups behind it. The loop erases a group that has become
-- empty from the map that it runs over, and then goes on from the erased element, which is undefined.
unfoldable pub keep_group :
    Bytes → List Bytes → Option (List (Bytes × List Bytes)) → Option (List (Bytes × List Bytes))
keep_group g [] rest = none
keep_group g (x ∷ xs) none = none
keep_group g (x ∷ xs) (some rest) = some ((g, x ∷ xs) ∷ rest)

-- The loop of `clientExit` over the groups.
unfoldable pub leave_groups : Bytes → List (Bytes × List Bytes) → Option (List (Bytes × List Bytes))
leave_groups n [] = some []
leave_groups n ((g, ns) ∷ m) = keep_group g (remove_name n ns) (leave_groups n m)

-- `FD_CLR`
unfoldable pub unwatch : ℕ → List ℕ → List ℕ
unwatch fd [] = []
unwatch fd (x ∷ xs) = let rest = unwatch fd xs in if x == fd then rest else x ∷ rest

-- The rest of `clientExit`, by the groups after its loop.
unfoldable pub unregister : Server → Client → Option (List (Bytes × List Bytes)) → Option Server
unregister s c none = none
unregister s (n, fd) (some groups) = some (record {
  clients = erase_key n s.clients;
  groups = groups;
  clients_list = remove_name n s.clients_list;
  watched = unwatch fd s.watched;
})

-- `clientExit`
unfoldable pub client_exit : Server → Client → Option Server
client_exit s (n, fd) = unregister s (n, fd) (leave_groups n s.groups)

-- `connectNewClient` after `accept`, by the descriptor and what `read_data` reads, `none` for its
-- failure.
unfoldable pub connect_new_client : (ℕ → Bytes → Bool) → Server → ℕ → Option Bytes → Server × Sent
connect_new_client accepts s fd none =
    (record s { watched = fd ∷ s.watched }, transmit accepts fd failure_signal)
connect_new_client accepts s fd (some n) =
    let watching : Server = record s { watched = fd ∷ s.watched } in
    if is_taken s n then (watching, transmit accepts fd name_exists_signal) else (
      record watching { clients = assign n fd s.clients; clients_list = s.clients_list ++ n ∷ [] },
      transmit accepts fd success_signal,
    )

abbrev pub with_nothing : Option Server → Option (Server × Sent)
with_nothing none = none
with_nothing (some s) = some (s, [])

-- The switch over the kind of the command.
unfoldable pub handle_command :
    (ℕ → Bytes → Bool) → Server → Client → CommandType → Command → Option (Server × Sent)
handle_command accepts s c create_group d = some (server_create_group accepts s c d.name d.clients)
handle_command accepts s (n, fd) send d =
    unless (send_overflows accepts s n d.name d.message)
      (server_send accepts s (n, fd) d.name d.message)
handle_command accepts s c who d = server_who accepts s c
handle_command accepts s c exit d = with_nothing (client_exit s c)
handle_command accepts s c invalid d = some (s, [])

unfoldable pub handle_parsed :
    (ℕ → Bytes → Bool) → Server → Client → Parsed → Option (Server × Sent)
handle_parsed accepts s c (parsed d) = handle_command accepts s c d.kind d
handle_parsed accepts s c throws = none
handle_parsed accepts s c undefined = none

-- `handleClientRequest`, by what `read_data` reads, `none` for its failure.
unfoldable pub handle_client_request :
    (ℕ → Bytes → Bool) → Server → Client → Option Bytes → Option (Server × Sent)
handle_client_request accepts s (n, fd) none = some (s, transmit accepts fd failure_signal)
handle_client_request accepts s c (some line) = handle_parsed accepts s c (parse_command line)
