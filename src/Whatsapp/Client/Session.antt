-- ===== src/Whatsapp/Client/Session.antt =====
-- ex4/whatsappClient.cpp and ex4/whatsappCommon.h: how a client starts, and what it does with what the
-- server sends without being asked.
--
-- Whether the host is found, `stoi` reads a number, a socket is there, the connection is made and
-- what `read_data` then reads belong to the system.
use os.Common.{Bool, false, Option, none, some, List, [], ◌∷◌, ◌++◌, if◌then◌else◌}
use os.Whatsapp.Text.{Bytes, str_eq, codes}
use os.Whatsapp.Framing.Wire.{
  overflows, Response, success, failure, name_exists, invalid_response, response_type,
}
use os.Whatsapp.Printing.{
  newline, connection_line, dup_connection_line, failed_connection_line, client_exit_line,
}
use os.Whatsapp.Client.Commands.{validate_name}

-- What the system does as the client starts.
pub record Network : Type 0 where
  pub finds_host : Bytes → Bool  -- `gethostbyname`
  pub reads_port : Bytes → Bool  -- `stoi`, which else throws
  pub has_socket : Bool
  pub connects : Bool
  pub reply : Option Bytes  -- what `read_data` reads, `none` for its failure

-- How `initialization` ends.
pub data Start : Type 0 where
  connected : Bytes → Start  -- 0, and what was printed
  usage : Start  -- -1
  stopped : Bytes → Start  -- `exit(1)`, and what was printed on standard output
  throws : Start
  undefined : Start

-- The switch over the type of the response.
unfoldable pub greet : Response → Start
greet success = connected connection_line
greet name_exists = stopped dup_connection_line
greet failure = stopped failed_connection_line
greet invalid_response = stopped (codes "ERROR\n")

-- `e(read_data(client.sockfd, response), "read")`, and the switch.
unfoldable pub greeted : Option Bytes → Start
greeted none = stopped []
greeted (some response) = greet (response_type response)

-- From the name's test on. The test of `gethostbyname` gives `e` a Boolean, which is never negative, so
-- the null pointer is read. A name that is longer than the buffer of `send_data` is undefined behaviour.
unfoldable pub start_session : Network → Bytes → Bytes → Bytes → Start
start_session n name host port =
    if validate_name name
    then (if n.finds_host host
        then (if n.reads_port port
            then (if n.has_socket
                then (if n.connects
                    then (if overflows name then undefined else greeted n.reply)
                    else stopped failed_connection_line)
                else stopped [])
            else throws)
        else undefined)
    else usage

-- `initialization`, by the arguments behind the name of the program.
unfoldable pub initialization : Network → List Bytes → Start
initialization n (name ∷ host ∷ port ∷ []) = start_session n name host port
initialization n _ = usage

-- `is_server_exit`
unfoldable pub is_server_exit : Bytes → Bool
is_server_exit command = str_eq command (codes "server_exit")

-- `is_message_from`
unfoldable pub is_message_from : Bytes → Bool
is_message_from command = str_eq command (codes "SEND\n")

-- What the client does with a message that it did not ask for: it goes on, with what it prints, or it
-- ends with `exit(0)` or `exit(1)`.
pub data Heard : Type 0 where
  goes_on : Bytes → Heard
  left : Bytes → Heard
  died : Heard

-- The second `read_data`, for the text behind the notice.
unfoldable pub show_message : Option Bytes → Heard
show_message none = died
show_message (some text) = goes_on (text ++ newline)

-- The branch of `main` for the socket; `next` is what a second `read_data` reads.
unfoldable pub hear : Bytes → Option Bytes → Option Bytes → Heard
hear own none next = died
hear own (some command) next =
    if is_server_exit command
    then left (client_exit_line false own)
    else (if is_message_from command then show_message next else goes_on [])
