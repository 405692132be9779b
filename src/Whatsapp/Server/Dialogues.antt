-- ===== src/Whatsapp/Server/Dialogues.antt =====
-- Dialogues of a concrete chat server with its clients.
use os.Common.{ℕ, arith, ◌≡◌, refl, true, false, some, [], ◌∷◌, ◌++◌, ◌⊎◌, inr}
use os.Whatsapp.Command.Parse.{parse_command, parse_words}
use os.Whatsapp.Text.{c_string, break_at, skip, strtok, Bytes, str_eq, str_eq_iff, codes}
use os.Whatsapp.Names.{unique, unique_from, insert_sorted, str_lt, sort, includes, find}
use os.Whatsapp.Client.Commands.{is_alnum}
use os.Whatsapp.Server.State.{
  Server, Sent, is_taken, members, create_group_as, success_signal, handle_client_request,
}
use os.Whatsapp.Server.Delivery.{all_accepted}
use os.Whatsapp.Server.Founding.{Founded}
use os.Whatsapp.Command.Parse.{Command, create_group, parsed, parse_create, client_tokens}
use os.Whatsapp.Client.Checked.{Admissible}
use os.Whatsapp.Client.Commands.{run_line, reported}
use os.Whatsapp.Server.State.{send_que, found_group}
use os.Whatsapp.Server.Answers.{unread, group_answer, group_misreported}
use os.Whatsapp.Command.Parse.{send, parse_send, substr}
use os.Whatsapp.Server.State.{failure_signal}
use os.Whatsapp.Server.Readers.{MayReach, Reads, Hears}
use os.Whatsapp.Server.Messages.{message_read}
use os.Whatsapp.Server.Chat.{team}
use os.Whatsapp.Server.Chat.{dana, ron, tal, chat, chat-Consistent}
use os.Whatsapp.Printing.{create_group_line, send_report}
use os.Whatsapp.Server.Journal.{Logs, told_as_logged}
use os.Common.{Bool}

-- Tal asks for a group of ron and himself.
abbrev tals_line : Bytes
tals_line = codes "create_group all ron"

abbrev tals_group : Command
tals_group = record { kind = create_group; name = codes "all"; message = []; clients = ron ∷ [] }

tals_line_read : parse_command tals_line ≡ parsed tals_group
unfolding parse_command c_string parse_words break_at skip str_eq strtok parse_create client_tokens
tals_line_read = refl

tals_group-Admissible : Admissible tal create_group tals_group
unfolding is_alnum str_eq
tals_group-Admissible = (
  (refl, (refl, (refl, tt))),
  (λ e. let same = (str_eq_iff (codes "all") tal).1 e in cc),
  ((refl, (refl, (refl, tt))), tt),
)

group_answer_example :
    (s' : Server) × ((out : Sent) × (handle_client_request all_accepted chat
          (tal, 6)
          (some tals_line)
        ≡ some (s', out))
      × (((run_line (unread 6 out) tal tals_line ≡ (tals_line ∷ [], reported true))
            × Founded chat tal (codes "all") (ron ∷ []) s')
          ⊎ ((run_line (unread 6 out) tal tals_line ≡ (tals_line ∷ [], reported false))
              × (s'.groups ≡ chat.groups)
              × (s'.clients ≡ chat.clients))))
group_answer_example =
    group_answer chat tal tals_line 6 tals_group chat-Consistent tals_line_read refl
      tals_group-Admissible (omega arith)

abbrev chat_with_all : Server
chat_with_all = (create_group_as chat tal (codes "all") (ron ∷ [])).0

all_founded : create_group_as chat tal (codes "all") (ron ∷ []) ≡ (chat_with_all, success_signal)
unfolding create_group_as is_taken find str_eq members unique sort insert_sorted str_lt unique_from
    found_group includes
all_founded = refl

group_misreported_example :
    (out : Sent) × (handle_client_request all_accepted chat (tal, 6) (some tals_line)
      ≡ some (chat_with_all, out))
    × (run_line (unread 6 ((6, send_que) ∷ (6, codes "dana: hi") ∷ out)) tal tals_line
        ≡ (tals_line ∷ [], reported false))
group_misreported_example =
    group_misreported chat chat_with_all tal tals_line (codes "dana: hi") 6 tals_group
      tals_line_read refl tals_group-Admissible (omega arith) all_founded

-- Dana writes to her group.
abbrev danas_line : Bytes
danas_line = codes "send team hi"

abbrev to_team : Command
to_team = record { kind = send; name = team; message = codes "hi"; clients = [] }

danas_line_read : parse_command danas_line ≡ parsed to_team
unfolding parse_command c_string parse_words break_at skip str_eq strtok parse_send substr
danas_line_read = refl

to_team-Admissible : Admissible dana send to_team
unfolding is_alnum
to_team-Admissible = (
  (refl, (refl, (refl, (refl, tt)))),
  (λ e. let same = (str_eq_iff team dana).1 e in unfold str_eq in cc),
)

danas_descriptor : (j : Bytes) → find j chat.clients ≡ some 4 → j ≡ dana
unfolding find
danas_descriptor j e = ground (arith, e, str_eq_iff dana j, str_eq_iff ron j, str_eq_iff tal j)

message_read_example :
    (out : Sent) × (handle_client_request all_accepted chat (dana, 4) (some danas_line)
      ≡ some (chat, out))
    × (((run_line (unread 4 out) dana danas_line ≡ (danas_line ∷ [], reported true))
          × MayReach chat dana team
          × ((j : Bytes) (to : ℕ)
              → Reads chat dana team j
              → find j chat.clients ≡ some to
              → Hears out (dana ++ codes ": " ++ codes "hi") j to))
        ⊎ ((run_line (unread 4 out) dana danas_line ≡ (danas_line ∷ [], reported false))
            × (¬ MayReach chat dana team)
            × (out ≡ (4, failure_signal) ∷ [])))
message_read_example =
    message_read chat dana danas_line 4 to_team chat-Consistent danas_descriptor danas_line_read
      refl to_team-Admissible (omega arith) (omega arith, omega arith)

told_as_logged_example :
    (s' : Server) × ((out : Sent) × (b : Bool) × (handle_client_request all_accepted chat
          (dana, 4)
          (some danas_line)
        ≡ some (s', out))
      × (run_line (unread 4 out) dana danas_line ≡ (danas_line ∷ [], reported b))
      × (((send ≡ create_group) × Logs chat dana 4 danas_line (create_group_line true b dana team))
          ⊎ ((send ≡ send)
              × Logs chat dana 4 danas_line (send_report true b dana team (codes "hi")))))
told_as_logged_example =
    told_as_logged chat dana danas_line 4 to_team chat-Consistent danas_descriptor danas_line_read
      to_team-Admissible (omega arith) (inr (refl, (omega arith, omega arith)))
