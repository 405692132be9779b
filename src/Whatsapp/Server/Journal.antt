-- ===== src/Whatsapp/Server/Journal.antt =====
-- ex4/whatsappServer.cpp and ex4/whatsappClient.cpp: the lines of the server against what its clients tell
-- their users.
use mathlib.Core.Path.{subst}
use os.Common.{
  ℕ, ◌≡◌, refl, ap, Bool, true, false, some, List, [], ◌∷◌, ◌++◌, ltb, is_some, length, inl, inr,
  ◌⊎◌, Bool-cases, Option-cases,
}
use os.Whatsapp.Text.{Lacks, Bytes, codes}
use os.Whatsapp.Framing.Fits.{Framed, overflows-Framed}
use os.Whatsapp.Names.{contains, sort, includes, find}
use os.Whatsapp.Printing.{create_group_line, send_report, client_exit_line}
use os.Whatsapp.Command.Parse.{create_group, send, Command, parsed, parse_command}
use os.Whatsapp.Framing.Wire.{arriving, response_type}
use os.Whatsapp.Client.Commands.{is_success, reported, run_line}
use os.Whatsapp.Client.Checked.{Admissible}
use os.Whatsapp.Server.State.{
  Server, Sent, is_taken, members, found_group, create_group_as, deliver, send_overflows,
  handle_client_request,
}
use os.Whatsapp.Server.Consistent.{Consistent}
use os.Whatsapp.Server.Delivery.{all_accepted, send_members_all}
use os.Whatsapp.Server.Answers.{
  unread, handled, answered, success_told, failure_told, name_exists_told,
}
use os.Whatsapp.Server.Leaving.{AllKeep, client_exit_lem, parse_command_exit}
use os.Whatsapp.Server.Readers.{MayReach}
use os.Whatsapp.Server.Messages.{message_read}
use os.Whatsapp.Server.Printed.{
  create_group_printed, send_found_printed, send_printed, command_printed, parsed_printed,
  request_printed, exit_printed,
}

-- The line of `createGroup` follows its signal.
create_group_logged :
    (s : Server) (n name : Bytes) (group : List Bytes)
    → create_group_printed s n name group
      ≡ create_group_line true
          (is_success (response_type (create_group_as s n name group).1))
          n
          name
unfolding create_group_printed create_group_as found_group
create_group_logged s n name group = elim (Bool-cases (is_taken s name)) [
  | inl taken ↦ rw taken (rw name_exists_told refl)
  | inr free ↦ rw free (elim (Bool-cases (ltb (length (members n group)) 2)) [
    | inl few ↦ rw few (rw failure_told refl)
    | inr enough ↦ rw enough (elim (Bool-cases (includes (sort s.clients_list) (members n group))) [
      | inl inc ↦ rw inc (rw success_told refl)
      | inr missing ↦ rw missing (rw failure_told refl)
    ])
  ])
]

-- The line of `send` says whether the sender may write to the name.
reached_logged :
    (s : Server) (n to m : Bytes)
    → Consistent s
    → MayReach s n to
    → send_printed all_accepted s n to m ≡ send_report true true n to m
unfolding send_printed send_found_printed deliver
reached_logged s n to m c (inl e) = elim (Option-cases (find to s.clients)) [
  | inl f ↦ cc
  | inr (fd, f) ↦ rw f refl
]
reached_logged s n to m c (inr (ns, g, k)) = rw (c.apart to (ap is_some g)) (
    rw g (
      rw k (
        ap (λ (x : Server × (Bool × Sent)). send_report true x.1.0 n to m)
          (send_members_all s n (arriving (n ++ codes ": " ++ m)) ns
            (λ j l. c.connected to j ns g l)))))

refused_logged :
    (s : Server) (n to m : Bytes)
    → ¬ MayReach s n to
    → send_printed all_accepted s n to m ≡ send_report true false n to m
unfolding send_printed send_found_printed
refused_logged s n to m never = elim (Option-cases (find to s.clients)) [
  | inr (fd, f) ↦ absurd (never (inl (ap is_some f)))
  | inl f ↦ rw f (elim (Option-cases (find to s.groups)) [
    | inl g ↦ rw g refl
    | inr (ns, g) ↦ rw g (elim (Bool-cases (contains ns n)) [
      | inl k ↦ absurd (never (inr (ns, g, k)))
      | inr k ↦ rw k refl
    ])
  ])
]

-- The line of the server that says how a request ended.
abbrev pub Logs : Server → Bytes → ℕ → Bytes → Bytes → Type 0
Logs s n fd line text = request_printed all_accepted s (n, fd) (some line) ≡ some text

-- A client that leaves is named, where its leaving is defined.
exit_logged :
    (s : Server) (n : Bytes) (fd : ℕ)
    → AllKeep n s.groups
    → Logs s n fd (codes "exit") (client_exit_line true n)
unfolding request_printed parsed_printed command_printed exit_printed
exit_logged s n fd h =
    let (s', e, _) = client_exit_lem s n fd h in rw parse_command_exit (rw e refl)

module _ (s : Server) (n line : Bytes) (fd : ℕ) (d : Command)
    (read : parse_command line ≡ parsed d) where
  group_logged :
      d.kind ≡ create_group
      → Logs s n fd line (
          create_group_line true
            (is_success (response_type (create_group_as s n d.name d.clients).1))
            n
            d.name)
  unfolding request_printed parsed_printed command_printed
  group_logged kind = rw read (rw kind (ap some (create_group_logged s n d.name d.clients)))

  send_logged :
      (text : Bytes)
      → Framed (n ++ codes ": " ++ d.message)
      → d.kind ≡ send
      → send_printed all_accepted s n d.name d.message ≡ text
      → Logs s n fd line text
  unfolding request_printed parsed_printed command_printed send_overflows
  send_logged text room kind e = rw read (rw kind (rw (overflows-Framed _ room) (ap some e)))

-- A line without a byte 0 is typed, and if it is a message, it fits into a frame together with the sender's name.
-- No message fails, the client's descriptor is its own, and nothing else is on its way to the client. On
-- a request for a group, and on a message, the client tells its user of a success exactly if the line that
-- the server prints does.
pub told_as_logged :
    (s : Server) (n line : Bytes) (fd : ℕ) (d : Command)
    → Consistent s
    → ((j : Bytes) → find j s.clients ≡ some fd → j ≡ n)
    → parse_command line ≡ parsed d
    → Admissible n d.kind d
    → Lacks 0 line
    → (d.kind ≡ create_group) ⊎ ((d.kind ≡ send) × Framed (n ++ codes ": " ++ d.message))
    → (s' : Server) × ((out : Sent) × (b : Bool) × (handle_client_request all_accepted s
            (n, fd)
            (some line)
          ≡ some (s', out))
        × (run_line (unread fd out) n line ≡ (line ∷ [], reported b))
        × (((d.kind ≡ create_group) × Logs s n fd line (create_group_line true b n d.name))
            ⊎ ((d.kind ≡ send) × Logs s n fd line (send_report true b n d.name d.message))))
told_as_logged s n line fd d c own read may lacks (inl kind) =
    let may' = subst (λ k. Admissible n k d) kind may in
    let (s', signal) = create_group_as s n d.name d.clients in
    (
      s',
      (
        (fd, signal) ∷ [],
        is_success (response_type signal),
        handled n line d read kind may' lacks s s' fd signal refl,
        answered n line d read kind may' lacks fd signal (is_success (response_type signal)) refl,
        inl (kind, group_logged s n line fd d read kind),
      ),
    )
told_as_logged s n line fd d c own read may lacks (inr (kind, room)) =
    let may' = subst (λ k. Admissible n k d) kind may in
    let (out, h, ends) = message_read s n line fd d c own read kind may' lacks room in
    elim ends [
      | inl (t, reach, _) ↦ (
        s,
        (
          out,
          true,
          h,
          t,
          inr (
            kind,
            send_logged s n line fd d read _ room kind
                (reached_logged s n d.name d.message c reach),
          ),
        ),
      )
      | inr (t, never, _) ↦ (
        s,
        (
          out,
          false,
          h,
          t,
          inr (
            kind,
            send_logged s n line fd d read _ room kind (refused_logged s n d.name d.message never),
          ),
        ),
      )
    ]
