-- ===== src/Whatsapp/Server/Answers.antt =====
-- ex4/whatsappServer.cpp and ex4/whatsappClient.cpp: a client asks for a group, with both sides of the
-- connection, and what it tells its user.
use os.Common.{ℕ, ◌≡◌, refl, ap, ◌∙◌, Bool, true, false, some, [], ◌∷◌, arith, inl, inr, ◌⊎◌}
use os.Whatsapp.Framing.Fits.{overflows-Framed, parsed-Framed}
use os.Whatsapp.Text.{Lacks, Bytes, str_eq, str_eq_iff}
use os.Whatsapp.Command.Parse.{create_group, Command, parsed, parse_command}
use os.Whatsapp.Framing.Wire.{response_type}
use os.Whatsapp.Client.Commands.{
  Connection, reported, report, is_success, run_line, run_parsed, run_command, client_create_group,
}
use os.Whatsapp.Client.Checked.{Admissible, validate_name_iff, validate_all_iff}
use os.Whatsapp.Server.State.{
  Server, Sent, transmit, create_group_as, server_create_group, handle_client_request,
  handle_parsed, handle_command, success_signal, failure_signal, name_exists_signal, send_que,
}
use os.Whatsapp.Server.Consistent.{Consistent}
use os.Whatsapp.Server.Delivery.{all_accepted}
use os.Whatsapp.Server.Founding.{Founded, create_group_as_lem}
use os.Whatsapp.Server.Greeting.{first_to}

-- The connection of a client to whom the server has sent these messages since the client last read.
abbrev pub unread : ℕ → Sent → Connection
unread fd out = record { writes = true; reply = first_to fd out; closes = true }

pub head_read : (fd : ℕ) (m : Bytes) (out : Sent) → first_to fd ((fd, m) ∷ out) ≡ some m
head_read fd m out = ground arith

-- What the client tells its user when it reads a signal.
pub told :
    (signal : Bytes) (b : Bool)
    → is_success (response_type signal) ≡ b
    → report (some signal) ≡ reported b
unfolding report
told signal b e = ap reported e

pub success_told : is_success (response_type success_signal) ≡ true
unfolding response_type str_eq
success_told = refl

pub failure_told : is_success (response_type failure_signal) ≡ false
unfolding response_type str_eq
failure_told = refl

pub name_exists_told : is_success (response_type name_exists_signal) ≡ false
unfolding response_type str_eq
name_exists_told = refl

notice_told : is_success (response_type send_que) ≡ false
unfolding response_type str_eq
notice_told = refl

module _ (n line : Bytes) (d : Command) (read : parse_command line ≡ parsed d)
    (kind : d.kind ≡ create_group) (may : Admissible n create_group d) (lacks : Lacks 0 line) where
  -- The client's side: the line goes out, and the answer is told.
  asked : (c : Connection) → c.writes ≡ true → run_line c n line ≡ (line ∷ [], report c.reply)
  unfolding run_line run_parsed run_command client_create_group
  asked c w = rw read (
      rw kind (
        ground (
          arith,
          w,
          overflows-Framed line (parsed-Framed line d lacks read),
          validate_name_iff d.name,
          validate_all_iff d.clients,
          str_eq_iff d.name n,
        )))

  -- The server's side.
  pub handled :
      (s s' : Server) (fd : ℕ) (signal : Bytes)
      → create_group_as s n d.name d.clients ≡ (s', signal)
      → handle_client_request all_accepted s (n, fd) (some line) ≡ some (s', (fd, signal) ∷ [])
  unfolding handle_client_request handle_parsed handle_command server_create_group transmit
  handled s s' fd signal e = rw read (rw kind (rw e refl))

  -- With nothing else to read the client tells what the signal says.
  pub answered :
      (fd : ℕ) (signal : Bytes) (b : Bool)
      → is_success (response_type signal) ≡ b
      → run_line (unread fd ((fd, signal) ∷ [])) n line ≡ (line ∷ [], reported b)
  answered fd signal b e =
      asked (unread fd ((fd, signal) ∷ [])) refl
      ∙ ap (λ o. (line ∷ [], report o)) (head_read fd signal [])
      ∙ ap (λ o. (line ∷ [], o)) (told signal b e)

  misled :
      (fd : ℕ) (text : Bytes) (out : Sent)
      → run_line (unread fd ((fd, send_que) ∷ (fd, text) ∷ out)) n line
        ≡ (line ∷ [], reported false)
  misled fd text out =
      asked (unread fd ((fd, send_que) ∷ (fd, text) ∷ out)) refl
      ∙ ap (λ o. (line ∷ [], report o)) (head_read fd send_que ((fd, text) ∷ out))
      ∙ ap (λ o. (line ∷ [], o)) (told send_que false notice_told)

-- A client asks for a group, by a line without a byte 0; no message fails, and nothing else is on its way to the client. It tells its
-- user of a success exactly if the server has founded the group, with the named clients and the asking
-- one; otherwise the server keeps its groups and its clients.
pub group_answer :
    (s : Server) (n line : Bytes) (fd : ℕ) (d : Command)
    → Consistent s
    → parse_command line ≡ parsed d
    → d.kind ≡ create_group
    → Admissible n create_group d
    → Lacks 0 line
    → (s' : Server) × ((out : Sent) × (handle_client_request all_accepted s (n, fd) (some line)
          ≡ some (s', out))
        × (((run_line (unread fd out) n line ≡ (line ∷ [], reported true))
              × Founded s n d.name d.clients s')
            ⊎ ((run_line (unread fd out) n line ≡ (line ∷ [], reported false))
                × (s'.groups ≡ s.groups)
                × (s'.clients ≡ s.clients))))
group_answer s n line fd d c read kind may lacks =
    elim (create_group_as_lem s n d.name d.clients c) [
      | inl (_, e) ↦ (
        s,
        (
          (fd, name_exists_signal) ∷ [],
          handled n line d read kind may lacks s s fd name_exists_signal e,
          inr (
            answered n line d read kind may lacks fd name_exists_signal false name_exists_told,
            refl,
            refl,
          ),
        ),
      )
      | inr (inl (s', e, founded)) ↦ (
        s',
        (
          (fd, success_signal) ∷ [],
          handled n line d read kind may lacks s s' fd success_signal e,
          inl (answered n line d read kind may lacks fd success_signal true success_told, founded),
        ),
      )
      | inr (inr (s', e, groups, clients, _, _)) ↦ (
        s',
        (
          (fd, failure_signal) ∷ [],
          handled n line d read kind may lacks s s' fd failure_signal e,
          inr (
            answered n line d read kind may lacks fd failure_signal false failure_told,
            groups,
            clients,
          ),
        ),
      )
    ]

-- When a message of another client is on its way to the client that asks for a group, by a line without a byte 0,
-- the client takes
-- the notice of the message for the answer, and tells its user of a failure, whatever the server answers;
-- also where the server has stored the group.
pub group_misreported :
    (s s' : Server) (n line text : Bytes) (fd : ℕ) (d : Command)
    → parse_command line ≡ parsed d
    → d.kind ≡ create_group
    → Admissible n create_group d
    → Lacks 0 line
    → create_group_as s n d.name d.clients ≡ (s', success_signal)
    → (out : Sent) × (handle_client_request all_accepted s (n, fd) (some line) ≡ some (s', out))
      × (run_line (unread fd ((fd, send_que) ∷ (fd, text) ∷ out)) n line
          ≡ (line ∷ [], reported false))
group_misreported s s' n line text fd d read kind may lacks e = (
  (fd, success_signal) ∷ [],
  handled n line d read kind may lacks s s' fd success_signal e,
  misled n line d read kind may lacks fd text ((fd, success_signal) ∷ []),
)
