-- ===== src/Whatsapp/Printing.antt =====
-- ex4/whatsappio.cpp: the lines that the server and the clients print. A `%s` shows a string up to its
-- first 0.
use os.Common.{Bool, true, false, List, [], ◌∷◌, ◌++◌, if◌then◌else◌}
use os.Whatsapp.Text.{Bytes, codes, c_string}
use os.Whatsapp.Command.Parse.{comma}

abbrev pub newline : Bytes
newline = codes "\n"

abbrev pub quoted : Bytes → Bytes
quoted s = codes "\"" ++ c_string s ++ codes "\""

-- `printServerExit`
abbrev pub server_exit_line : Bytes
server_exit_line = codes "EXIT command is typed: server is shutting down\n"

-- `printConnection`
abbrev pub connection_line : Bytes
connection_line = codes "Connected Successfully.\n"

-- `printConnectionServer`
unfoldable pub connection_server_line : Bytes → Bytes
connection_server_line client = c_string client ++ codes " connected.\n"

-- `printDupConnection`
abbrev pub dup_connection_line : Bytes
dup_connection_line = codes "Client name is already in use.\n"

-- `printFailedConnection`
abbrev pub failed_connection_line : Bytes
failed_connection_line = codes "Failed to connect the server\n"

-- `printServerUsage`
abbrev pub server_usage_line : Bytes
server_usage_line = codes "Usage: whatsappServer portNum (portNum is only digits, [0-9])\n"

-- `printClientUsage`
abbrev pub client_usage_line : Bytes
client_usage_line = codes "Usage: whatsappClient clientName serverAddress serverPort\n"

-- `printCreateGroup`
unfoldable pub create_group_line : Bool → Bool → Bytes → Bytes → Bytes
create_group_line server success client group =
    if server
    then (if success
        then c_string client
          ++ codes ": Group "
          ++ quoted group
          ++ codes " was created successfully.\n"
        else c_string client ++ codes ": ERROR: failed to create group " ++ quoted group ++ newline)
    else (if success
        then codes "Group " ++ quoted group ++ codes " was created successfully.\n"
        else codes "ERROR: failed to create group " ++ quoted group ++ codes ".\n")

-- `printSend`
unfoldable pub send_report : Bool → Bool → Bytes → Bytes → Bytes → Bytes
send_report server success client name message =
    if server
    then (if success
        then c_string client
          ++ codes ": "
          ++ quoted message
          ++ codes " was sent successfully to "
          ++ c_string name
          ++ codes ".\n"
        else c_string client
          ++ codes ": ERROR: failed to send "
          ++ quoted message
          ++ codes " to "
          ++ c_string name
          ++ codes ".\n")
    else (if success then codes "Sent successfully.\n" else codes "ERROR: failed to send.\n")

-- `printMessage`
unfoldable pub message_line : Bytes → Bytes → Bytes
message_line client message = c_string client ++ codes ": " ++ c_string message ++ newline

-- `printWhoServer`
unfoldable pub who_server_line : Bytes → Bytes
who_server_line client =
    c_string client ++ codes ": Requests the currently connected client names.\n"

-- The loop of `printWhoClient`.
unfoldable pub who_names : Bool → List Bytes → Bytes
who_names first [] = []
who_names first (client ∷ clients) =
    (if first then [] else comma ∷ []) ++ c_string client ++ who_names false clients

-- `printWhoClient`
unfoldable pub who_client_line : Bool → List Bytes → Bytes
who_client_line success clients =
    if success
    then who_names true clients ++ newline
    else codes "ERROR: failed to receive list of connected clients.\n"

-- `printClientExit`
unfoldable pub client_exit_line : Bool → Bytes → Bytes
client_exit_line server client =
    if server
    then c_string client ++ codes ": Unregistered successfully.\n"
    else codes "Unregistered successfully.\n"

-- `printInvalidInput`
abbrev pub invalid_input_line : Bytes
invalid_input_line = codes "ERROR: Invalid input.\n"
