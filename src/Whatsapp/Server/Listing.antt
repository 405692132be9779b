-- ===== src/Whatsapp/Server/Listing.antt =====
-- ex4/whatsappServer.cpp and ex4/whatsappClient.cpp: a client asks who is connected, with both sides of the
-- connection.
use os.Common.{
  Option, ℕ, ◌<◌, ◌≡◌, refl, ap, ◌∙◌, true, some, List, [], ◌∷◌, length, is_some, if◌then◌else◌,
  arith, none,
}
use os.Whatsapp.Framing.Fits.{Framed, overflows-Framed, parsed-Framed}
use os.Whatsapp.Text.{Lacks, Bytes}
use os.Whatsapp.Names.{occurrences, find, sort}
use os.Whatsapp.Command.Parse.{who, Command, parsed, parse_command}
use os.Whatsapp.Command.Created.{join}
use os.Whatsapp.Printing.{who_server_line}
use os.Whatsapp.Client.Commands.{
  Connection, shown, show, run_line, run_parsed, run_command, client_who,
}
use os.Whatsapp.Server.State.{
  Server, Sent, server_who, send_who, who_list, pop_back, sendable, handle_client_request,
  handle_parsed, handle_command,
}
use os.Whatsapp.Server.Printed.{
  line_behind, who_printed, command_printed, parsed_printed, request_printed,
}
use os.Whatsapp.Server.Consistent.{Consistent}
use os.Whatsapp.Server.Delivery.{all_accepted, Ascending, server_who_lem}
use os.Whatsapp.Server.Answers.{unread, head_read}

length_pos : (n : Bytes) (ns : List Bytes) → 0 < occurrences n ns → 0 < length ns
unfolding occurrences
length_pos n [] h = elim h [ ]
length_pos n (k ∷ ns) h = omega arith

-- Where `who` sends an answer it prints its line.
who_logged :
    {x : Server × Sent} {line : Bytes} (s : Server) (fd : ℕ) (o : Option Bytes)
    → send_who all_accepted s fd o ≡ some x
    → line_behind line o ≡ some line
unfolding send_who
who_logged s fd none e = cc
who_logged s fd (some text) e = refl

module _ (n line : Bytes) (d : Command) (read : parse_command line ≡ parsed d) (kind : d.kind ≡ who)
    (lacks : Lacks 0 line) where
  asked : (c : Connection) → c.writes ≡ true → run_line c n line ≡ (line ∷ [], show c.reply)
  unfolding run_line run_parsed run_command client_who
  asked c w =
      rw read (rw kind (ground (arith, w, overflows-Framed line (parsed-Framed line d lacks read))))

  handled :
      (s : Server) (fd : ℕ)
      → handle_client_request all_accepted s (n, fd) (some line) ≡ server_who all_accepted s (n, fd)
  unfolding handle_client_request handle_parsed handle_command
  handled s fd = rw read (rw kind refl)

  answered :
      (fd : ℕ) (text : Bytes)
      → run_line (unread fd ((fd, text) ∷ [])) n line ≡ (line ∷ [], shown text)
  answered fd text =
      asked (unread fd ((fd, text) ∷ [])) refl
      ∙ ap (λ o. (line ∷ [], show o)) (head_read fd text [])
      ∙ (unfold show in refl)

  logged :
      (s : Server) (fd : ℕ) (ns : List Bytes)
      → server_who all_accepted s (n, fd)
        ≡ some (record s { clients_list = ns }, (fd, join ns) ∷ [])
      → request_printed all_accepted s (n, fd) (some line) ≡ some (who_server_line n)
  unfolding request_printed parsed_printed command_printed who_printed server_who send_who
  logged s fd ns e =
      rw read (rw kind (who_logged s fd (sendable (pop_back (who_list (sort s.clients_list)))) e))

-- A connected client asks who is there, by a line without a byte 0; the names fit into a frame, no message fails, and nothing else is on its way to it. Its user
-- sees the names of all connected clients, each once, in order and with commas between them, and no other;
-- the server keeps its clients and its groups, and prints
-- whose request it was.
pub who_shown :
    (s : Server) (n line : Bytes) (fd : ℕ) (d : Command)
    → Consistent s
    → find n s.clients ≡ some fd
    → parse_command line ≡ parsed d
    → d.kind ≡ who
    → Lacks 0 line
    → Framed (join (sort s.clients_list))
    → (s' : Server) × (out : Sent) × (ns : List Bytes) × (handle_client_request all_accepted s
          (n, fd)
          (some line)
        ≡ some (s', out))
      × (run_line (unread fd out) n line ≡ (line ∷ [], shown (join ns)))
      × Ascending ns
      × ((k : Bytes) → occurrences k ns ≡ (if is_some (find k s.clients) then 1 else 0))
      × (s'.clients ≡ s.clients)
      × (s'.groups ≡ s.groups)
      × (request_printed all_accepted s (n, fd) (some line) ≡ some (who_server_line n))
who_shown s n line fd d c there read kind lacks room =
    let once = c.listed n in
    let listed : 0 < occurrences n s.clients_list = ground (arith, once, there) in
    let (ns, e, ascending, same) =
      server_who_lem s n fd (length_pos n s.clients_list listed) room in
    (
      record s { clients_list = ns },
      (fd, join ns) ∷ [],
      ns,
      handled n line d read kind lacks s fd ∙ e,
      answered n line d read kind lacks fd (join ns),
      ascending,
      (λ k. same k ∙ c.listed k),
      refl,
      refl,
      logged n line d read kind lacks s fd ns e,
    )
