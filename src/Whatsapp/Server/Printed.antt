-- ===== src/Whatsapp/Server/Printed.antt =====
-- ex4/whatsappServer.cpp: what the handlers print on standard output.
--
-- A handler of Server.State without its messages: the lines are `none` where its behaviour is undefined.
-- What `e` prints on the standard error when a call fails is left out.
use os.Common.{
  ℕ, Bool, true, false, ◌||◌, not, Option, none, some, List, [], ◌++◌, ltb, if◌then◌else◌, length,
}
use os.Whatsapp.Text.{Bytes, codes, str_eq}
use os.Whatsapp.Names.{contains, sort, includes, find}
use os.Whatsapp.Framing.Wire.{arriving}
use os.Whatsapp.Printing.{
  server_exit_line, connection_server_line, create_group_line, send_report, who_server_line,
  client_exit_line,
}
use os.Whatsapp.Command.Parse.{
  CommandType, create_group, send, who, exit, invalid, Command, Parsed, parsed, throws, undefined,
  parse_command,
}
use os.Whatsapp.Server.State.{
  Server, Client, is_taken, members, deliver, send_members, pop_back, who_list, client_exit,
  sendable, unless, send_overflows,
}

-- `createGroup`
unfoldable pub create_group_printed : Server → Bytes → Bytes → List Bytes → Bytes
create_group_printed s creator name group =
    if is_taken s name
    then create_group_line true false creator name
    else (if ltb (length (members creator group)) 2
          || not (includes (sort s.clients_list) (members creator group))
        then create_group_line true false creator name
        else create_group_line true true creator name)

-- `send`, once the addressee is looked up among the clients and among the groups.
unfoldable pub send_found_printed :
    (ℕ → Bytes → Bool) → Server → Bytes → Bytes → Bytes → Option ℕ → Option (List Bytes) → Bytes
send_found_printed accepts s sender to m (some fd) g =
    send_report true (deliver accepts fd (arriving (sender ++ codes ": " ++ m))).0 sender to m
send_found_printed accepts s sender to m none none = send_report true false sender to m
send_found_printed accepts s sender to m none (some ns) =
    if contains ns sender
    then send_report true
        (send_members accepts s sender (arriving (sender ++ codes ": " ++ m)) ns).1.0 sender to m
    else send_report true false sender to m

-- `send`
unfoldable pub send_printed : (ℕ → Bytes → Bool) → Server → Bytes → Bytes → Bytes → Bytes
send_printed accepts s sender to m =
    send_found_printed accepts s sender to m (find to s.clients) (find to s.groups)

-- A line that is printed where the behaviour before it is defined.
abbrev pub line_behind : {A : Type 0} → Bytes → Option A → Option Bytes
line_behind line none = none
line_behind line (some x) = some line

-- `who`: it prints behind `pop_back` and before it sends, which is undefined for a text without room.
unfoldable pub who_printed : Server → Bytes → Option Bytes
who_printed s n =
    line_behind (who_server_line n) (sendable (pop_back (who_list (sort s.clients_list))))

-- `clientExit`
unfoldable pub exit_printed : Server → Client → Option Bytes
exit_printed s (n, fd) = line_behind (client_exit_line true n) (client_exit s (n, fd))

-- The switch over the kind of the command.
unfoldable pub command_printed :
    (ℕ → Bytes → Bool) → Server → Client → CommandType → Command → Option Bytes
command_printed accepts s (n, fd) create_group d = some (create_group_printed s n d.name d.clients)
command_printed accepts s (n, fd) send d =
    unless (send_overflows accepts s n d.name d.message) (send_printed accepts s n d.name d.message)
command_printed accepts s (n, fd) who d = who_printed s n
command_printed accepts s c exit d = exit_printed s c
command_printed accepts s c invalid d = some []

unfoldable pub parsed_printed : (ℕ → Bytes → Bool) → Server → Client → Parsed → Option Bytes
parsed_printed accepts s c (parsed d) = command_printed accepts s c d.kind d
parsed_printed accepts s c throws = none
parsed_printed accepts s c undefined = none

-- `handleClientRequest`, by what `read_data` reads, `none` for its failure.
unfoldable pub request_printed : (ℕ → Bytes → Bool) → Server → Client → Option Bytes → Option Bytes
request_printed accepts s c none = some []
request_printed accepts s c (some line) = parsed_printed accepts s c (parse_command line)

-- `connectNewClient`, by what `read_data` reads.
unfoldable pub connect_printed : Server → Option Bytes → Bytes
connect_printed s none = []
connect_printed s (some n) = if is_taken s n then [] else connection_server_line n

-- `serverStdInput`
unfoldable pub std_input_printed : Bytes → Bytes
std_input_printed line = if str_eq line (codes "EXIT") then server_exit_line else []
