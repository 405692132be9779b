-- ===== src/Whatsapp/Server/Messages.antt =====
-- ex4/whatsappServer.cpp and ex4/whatsappClient.cpp: a message from the line that its sender types to the
-- line that its readers see, with all sides of the connections.
use os.Common.{
  ℕ, ◌<◌, ◌≡◌, ◌≢◌, refl, ap, ◌∙◌, Bool, true, false, none, some, List, [], ◌∷◌, ◌++◌, is_some,
  arith, inl, inr, ◌⊎◌, Option-cases, Bool-cases,
}
use os.Whatsapp.Framing.Fits.{Framed, overflows-Framed, arriving-Framed, parsed-Framed}
use os.Whatsapp.Text.{Lacks, Bytes, codes, str_eq_iff}
use os.Whatsapp.Names.{contains, occurrences, remove_name, find}
use os.Whatsapp.Command.Parse.{send, Command, parsed, parse_command}
use os.Whatsapp.Client.Commands.{
  Connection, reported, report, run_line, run_parsed, run_command, client_send,
}
use os.Whatsapp.Client.Checked.{Admissible, validate_name_iff}
use os.Whatsapp.Server.State.{
  Server, Sent, transmit, deliver, server_send, send_found, handle_client_request, handle_parsed,
  handle_command, send_overflows, success_signal, failure_signal, send_que,
}
use os.Whatsapp.Server.Consistent.{Consistent, occurrences-remove_name}
use os.Whatsapp.Server.Delivery.{all_accepted, to_all, send_group_reaches}
use os.Whatsapp.Server.Greeting.{first_to}
use os.Whatsapp.Server.Answers.{unread, head_read, told, success_told, failure_told}
use os.Whatsapp.Server.Readers.{second_to, MayReach, Reads, Hears, hears, to_all_first, to_all_skip}

module _ (n line : Bytes) (d : Command) (read : parse_command line ≡ parsed d)
    (kind : d.kind ≡ send) (may : Admissible n send d) (lacks : Lacks 0 line)
    (room : Framed (n ++ codes ": " ++ d.message)) where
  -- The sender's side: the line goes out, and the answer is told.
  asked : (c : Connection) → c.writes ≡ true → run_line c n line ≡ (line ∷ [], report c.reply)
  unfolding run_line run_parsed run_command client_send
  asked c w = rw read (
      rw kind (
        ground (
          arith,
          w,
          overflows-Framed line (parsed-Framed line d lacks read),
          validate_name_iff d.name,
          str_eq_iff d.name n,
        )))

  answered :
      (fd : ℕ) (out : Sent) (signal : Bytes) (b : Bool)
      → first_to fd out ≡ some signal
      → report (some signal) ≡ reported b
      → run_line (unread fd out) n line ≡ (line ∷ [], reported b)
  answered fd out signal b e t =
      asked (unread fd out) refl ∙ ap (λ o. (line ∷ [], report o)) e ∙ ap (λ o. (line ∷ [], o)) t

  -- The server's side.
  handled :
      (s : Server) (fd : ℕ)
      → handle_client_request all_accepted s (n, fd) (some line)
        ≡ some (server_send all_accepted s (n, fd) d.name d.message)
  unfolding handle_client_request handle_parsed handle_command send_overflows
  handled s fd = rw read (rw kind (rw (overflows-Framed _ room) refl))

-- `send` to a client.
send_client :
    (s : Server) (n to m : Bytes) (fd f : ℕ)
    → Framed (n ++ codes ": " ++ m)
    → find to s.clients ≡ some f
    → server_send all_accepted s (n, fd) to m
      ≡ (s, (f, send_que) ∷ (f, n ++ codes ": " ++ m) ∷ (fd, success_signal) ∷ [])
unfolding server_send send_found deliver transmit
send_client s n to m fd f room e = rw e (rw (arriving-Framed _ room) refl)

-- `send` to a name that the sender may not write to.
send_nobody :
    (s : Server) (n to m : Bytes) (fd : ℕ)
    → find to s.clients ≡ none
    → (find to s.groups ≡ none)
      ⊎ ((ns : List Bytes) × (find to s.groups ≡ some ns) × (contains ns n ≡ false))
    → server_send all_accepted s (n, fd) to m ≡ (s, (fd, failure_signal) ∷ [])
unfolding server_send send_found transmit
send_nobody s n to m fd e (inl f) = rw e (rw f refl)
send_nobody s n to m fd e (inr (ns, f, k)) = rw e (rw f (rw k refl))

module _ (s : Server) (n line : Bytes) (fd : ℕ) (d : Command) (c : Consistent s)
    (own : (j : Bytes) → find j s.clients ≡ some fd → j ≡ n) (read : parse_command line ≡ parsed d)
    (kind : d.kind ≡ send) (may : Admissible n send d) (lacks : Lacks 0 line)
    (room : Framed (n ++ codes ": " ++ d.message)) where
  abbrev text : Bytes
  text = n ++ codes ": " ++ d.message

  -- What becomes of the line.
  abbrev Ends : Type 0
  Ends =
      (out : Sent) × (handle_client_request all_accepted s (n, fd) (some line) ≡ some (s, out))
      × (((run_line (unread fd out) n line ≡ (line ∷ [], reported true))
            × MayReach s n d.name
            × ((j : Bytes) (to : ℕ)
                → Reads s n d.name j
                → find j s.clients ≡ some to
                → Hears out (n ++ codes ": " ++ d.message) j to))
          ⊎ ((run_line (unread fd out) n line ≡ (line ∷ [], reported false))
              × (¬ MayReach s n d.name)
              × (out ≡ (fd, failure_signal) ∷ [])))

  client-Reads :
      (f : ℕ)
      → find d.name s.clients ≡ some f
      → (j : Bytes) (to : ℕ) → Reads s n d.name j
      → find j s.clients ≡ some to
      → (first_to to ((f, send_que) ∷ (f, text) ∷ (fd, success_signal) ∷ []) ≡ some send_que)
        × (second_to to ((f, send_que) ∷ (f, text) ∷ (fd, success_signal) ∷ []) ≡ some text)
  client-Reads f e j to (inl same) g =
      let at_name = ap (λ k. find k s.clients) same ∙ e in let q : f ≡ to = cc in ground (arith, q)
  client-Reads f e j to (inr (ns, h, _, _)) g = let none_there = c.apart d.name (ap is_some h) in cc

  to_sender :
      (ns : List Bytes)
      → first_to fd (to_all s.clients text (remove_name n ns) ++ (fd, success_signal) ∷ [])
        ≡ some success_signal
  to_sender ns =
      to_all_skip s.clients text fd (remove_name n ns) ((fd, success_signal) ∷ []) (λ j k g.
        absurd (ground (arith, own j g, k, occurrences-remove_name j n ns, str_eq_iff n j)))
      ∙ head_read fd success_signal []

  group-Reads :
      (ns : List Bytes)
      → find d.name s.groups ≡ some ns
      → (j : Bytes) (to : ℕ) → Reads s n d.name j
      → find j s.clients ≡ some to
      → 0 < occurrences j (remove_name n ns)
  group-Reads ns e j to (inl same) g =
      let none_there = c.apart d.name (ap is_some e) in
      let at_name = ap (λ k. find k s.clients) same ∙ none_there in cc
  group-Reads ns e j to (inr (ns', h, k, other)) g =
      let same : ns' ≡ ns = cc in
      ground (arith, k, same, other, occurrences-remove_name j n ns, str_eq_iff n j)

  to_client : (f : ℕ) → find d.name s.clients ≡ some f → Ends
  to_client f e =
      let out : Sent = (f, send_que) ∷ (f, text) ∷ (fd, success_signal) ∷ [] in
      let other : f ≢ fd = λ q. may.1 (own d.name (e ∙ ap some q)) in
      (
        out,
        handled n line d read kind may lacks room s fd
            ∙ ap some (send_client s n d.name d.message fd f room e),
        inl (
          answered n line d read kind may lacks room fd out success_signal true
              (ground (arith, other)) (told success_signal true success_told),
          inl (ap is_some e),
          λ j to r g. let (a, b) = client-Reads f e j to r g in hears j text to out a b,
        ),
      )

  to_group : (ns : List Bytes) → find d.name s.groups ≡ some ns → contains ns n ≡ true → Ends
  to_group ns e k =
      let out : Sent = to_all s.clients text (remove_name n ns) ++ (fd, success_signal) ∷ [] in
      (
        out,
        handled n line d read kind may lacks room s fd
            ∙ ap some (
                send_group_reaches s n d.name d.message fd ns c e k
                ∙ ap (λ t. (s, to_all s.clients t (remove_name n ns) ++ (fd, success_signal) ∷ []))
                    (arriving-Framed _ room)),
        inl (
          answered n line d read kind may lacks room fd out success_signal true (to_sender ns)
              (told success_signal true success_told),
          inr (ns, e, k),
          λ j to r g.
              let (a, b) =
                to_all_first s.clients text j to (remove_name n ns) ((fd, success_signal) ∷ []) g
                  (group-Reads ns e j to r g) in
              hears j text to out a b,
        ),
      )

  to_nobody :
      find d.name s.clients ≡ none
      → (find d.name s.groups ≡ none)
        ⊎ ((ns : List Bytes) × (find d.name s.groups ≡ some ns) × (contains ns n ≡ false))
      → Ends
  to_nobody e f = (
    (fd, failure_signal) ∷ [],
    handled n line d read kind may lacks room s fd
        ∙ ap some (send_nobody s n d.name d.message fd e f),
    inr (
      answered n line d read kind may lacks room fd ((fd, failure_signal) ∷ []) failure_signal false
          (head_read fd failure_signal []) (told failure_signal false failure_told),
      λ m. elim m [
        | inl a ↦ cc
        | inr (ns, g, k) ↦ elim f [
          | inl g' ↦ cc
          | inr (ns', g', k') ↦ let same : ns' ≡ ns = cc in cc
        ]
      ],
      refl,
    ),
  )

-- The sender types a line without a byte 0, and its name and the message fit into a frame together; no message
-- fails, the sender's descriptor is its own, and nothing else is on its way to the sender or to a reader. The server keeps its tables. Either the sender may write to the name: it tells its user
-- of a success, and every reader prints the text with the sender's name in front; or it may not, it tells
-- of a failure, and the server sends nothing but the signal.
pub message_read :
    (s : Server) (n line : Bytes) (fd : ℕ) (d : Command)
    → Consistent s
    → ((j : Bytes) → find j s.clients ≡ some fd → j ≡ n)
    → parse_command line ≡ parsed d
    → d.kind ≡ send
    → Admissible n send d
    → Lacks 0 line
    → Framed (n ++ codes ": " ++ d.message)
    → (out : Sent) × (handle_client_request all_accepted s (n, fd) (some line) ≡ some (s, out))
      × (((run_line (unread fd out) n line ≡ (line ∷ [], reported true))
            × MayReach s n d.name
            × ((j : Bytes) (to : ℕ)
                → Reads s n d.name j
                → find j s.clients ≡ some to
                → Hears out (n ++ codes ": " ++ d.message) j to))
          ⊎ ((run_line (unread fd out) n line ≡ (line ∷ [], reported false))
              × (¬ MayReach s n d.name)
              × (out ≡ (fd, failure_signal) ∷ [])))
message_read s n line fd d c own read kind may lacks room =
    elim (Option-cases (find d.name s.clients)) [
      | inr (f, e) ↦ to_client s n line fd d c own read kind may lacks room f e
      | inl e ↦ elim (Option-cases (find d.name s.groups)) [
        | inl g ↦ to_nobody s n line fd d c own read kind may lacks room e (inl g)
        | inr (ns, g) ↦ elim (Bool-cases (contains ns n)) [
          | inl k ↦ to_group s n line fd d c own read kind may lacks room ns g k
          | inr k ↦ to_nobody s n line fd d c own read kind may lacks room e (inr (ns, g, k))
        ]
      ]
    ]
