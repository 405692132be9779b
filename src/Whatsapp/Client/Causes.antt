-- ===== src/Whatsapp/Client/Causes.antt =====
-- ex4/whatsappClient.cpp: what a round of the client's `main` has found when it ends in some way.
use os.Common.{
  ◌≡◌, ◌≢◌, refl, ap, if◌then◌else◌, not, ◌&&◌, ◌||◌, ◌∙◌, Bool, true, false, Option, none, some,
  List, ◌⊎◌, inl, inr, Bool-cases,
}
use os.Whatsapp.Text.{Bytes, codes, str_eq, str_eq_iff}
use os.Whatsapp.Printing.{client_exit_line}
use os.Whatsapp.Command.Parse.{
  CommandType, create_group, send, who, exit, invalid, Command, Parsed, parsed, throws, undefined,
  parse_command,
}
use os.Whatsapp.Client.Commands.{
  Effect, sending, Connection, Outcome, left, died, validate_name, validate_all, report, show,
  client_create_group, client_send, client_who, exit_client, run_command, run_parsed,
}
use os.Whatsapp.Framing.Wire.{overflows}
use os.Whatsapp.Client.Session.{hear, is_server_exit, is_message_from, show_message}
use os.Whatsapp.Client.Main.{
  Wake, Turn, stays, leaves, dies, breaks, outcome_turn, of_effect, typed_turn, of_heard,
  ready_turn, client_turn,
}

-- The loop reads that the server ends, or else the user types a command to exit. When a command reads this in
-- place of its answer, the client takes it for an answer and goes on.
abbrev pub Asked : Wake → Type 0
Asked w =
    ((next : Option Bytes) × (w.message ≡ some (some (codes "server_exit"), next)))
    ⊎ ((w.message ≡ none)
        × ((line : Bytes) × (c : Connection) × (d : Command) × (w.typed ≡ some (line, c))
            × (parse_command line ≡ parsed d)
            × (d.kind ≡ exit)))

-- A call of the system fails: `select`, one of the two `read_data` of the loop, or one in a command.
abbrev pub Failing : Wake → Type 0
Failing w =
    (w.selects ≡ false)
    ⊎ (((next : Option Bytes) × (w.message ≡ some (none, next)))
        ⊎ (((first : Option Bytes) × (w.message ≡ some (first, none)))
            ⊎ ((line : Bytes) × (c : Connection) × (w.typed ≡ some (line, c))
                × ((c.writes ≡ false) ⊎ ((c.reply ≡ none) ⊎ (c.closes ≡ false))))))

-- A line is typed on which the behaviour of `parseCommand` is undefined, or that of `send_data`, which has no room
-- for it.
abbrev pub Unreadable : Wake → Type 0
Unreadable w =
    (line : Bytes) × (c : Connection) × (w.typed ≡ some (line, c))
    × ((parse_command line ≡ undefined) ⊎ (overflows line ≡ true))

-- What a round that ends so has found.
abbrev pub Found : Bytes → Wake → Turn → Type 0
Found own w (stays text sent) = ¬ Asked w
Found own w (leaves text sent) = Asked w × (text ≡ client_exit_line false own)
Found own w dies = Failing w
Found own w breaks = Unreadable w

module _ (own : Bytes) where
  not_exit :
      (command : Bytes) (next : Option Bytes) (ty : Option (Bytes × Connection))
      → str_eq command (codes "server_exit") ≡ false
      → ¬ Asked (record { selects = true; message = some (some command, next); typed = ty })
  not_exit command next ty e (inl (next', f)) =
      let g : command ≡ codes "server_exit" = cc in
      let h = (str_eq_iff command (codes "server_exit")).1 g in cc
  not_exit command next ty e (inr (f, _)) = cc

  notice-Found :
      (command : Bytes) (next : Option Bytes) (ty : Option (Bytes × Connection))
      → str_eq command (codes "server_exit") ≡ false
      → Found own
          (record { selects = true; message = some (some command, next); typed = ty })
          (of_heard (show_message next))
  unfolding of_heard show_message
  notice-Found command none ty e = inr (inr (inl (some command, refl)))
  notice-Found command (some text) ty e = not_exit command (some text) ty e

  heard-Found :
      (m next : Option Bytes) (ty : Option (Bytes × Connection))
      → Found own
          (record { selects = true; message = some (m, next); typed = ty })
          (of_heard (hear own m next))
  unfolding hear is_server_exit of_heard
  heard-Found none next ty = inr (inl (next, refl))
  heard-Found (some command) next ty = elim (Bool-cases (str_eq command (codes "server_exit"))) [
    | inl e ↦
        let f = (str_eq_iff command (codes "server_exit")).0 e in
        rw e (inl (next, ap (λ k. some (some k, next)) f), refl)
    | inr e ↦ rw e (elim (Bool-cases (is_message_from command)) [
      | inl m ↦ rw m (notice-Found command next ty e)
      | inr m ↦ rw m (not_exit command next ty e)
    ])
  ]

  no_exit :
      (line : Bytes) (c : Connection)
      → ((d : Command) → parse_command line ≡ parsed d → d.kind ≢ exit)
      → ¬ Asked (record { selects = true; message = none; typed = some (line, c) })
  no_exit line c h (inl (next, e)) = cc
  no_exit line c h (inr (_, (line', c', d', e, read, k))) =
      let same : line ≡ line' = cc in h d' (ap parse_command same ∙ read) k

  module _ (d : Command) (line : Bytes) (c : Connection)
      (read : parse_command line ≡ parsed d) where
    abbrev wake : Wake
    wake = record { selects = true; message = none; typed = some (line, c) }

    other_command : d.kind ≢ exit → ¬ Asked wake
    other_command k =
        no_exit line c
          (λ d' r. let same : d ≡ d' = cc in λ e. k (ap (λ (x : Command). x.kind) same ∙ e))

    reply-Found :
        (r : Option Bytes) (sent : List Bytes)
        → d.kind ≢ exit
        → c.reply ≡ r
        → Found own wake (outcome_turn own (parsed d) sent (report r))
    unfolding report outcome_turn
    reply-Found none sent k e = inr (inr (inr (line, c, refl, inr (inl e))))
    reply-Found (some text) sent k e = other_command k

    show-Found :
        (r : Option Bytes) (sent : List Bytes)
        → d.kind ≢ exit
        → c.reply ≡ r
        → Found own wake (outcome_turn own (parsed d) sent (show r))
    unfolding show outcome_turn
    show-Found none sent k e = inr (inr (inr (line, c, refl, inr (inl e))))
    show-Found (some text) sent k e = other_command k

    written-Found :
        (b : Bool) (sent : List Bytes) (o : Outcome)
        → c.writes ≡ b
        → Found own wake (outcome_turn own (parsed d) sent o)
        → Found own wake (outcome_turn own (parsed d) sent (if b then o else died))
    unfolding outcome_turn
    written-Found true sent o e h = h
    written-Found false sent o e h = inr (inr (inr (line, c, refl, inl e)))

    closed-Found :
        (b b' : Bool) (sent : List Bytes)
        → d.kind ≡ exit
        → c.writes ≡ b
        → c.closes ≡ b'
        → Found own wake (outcome_turn own (parsed d) sent (if b && b' then left else died))
    unfolding outcome_turn
    closed-Found true true sent k e f = (inr (refl, (line, c, d, refl, read, k)), refl)
    closed-Found true false sent k e f = inr (inr (inr (line, c, refl, inr (inr f))))
    closed-Found false b' sent k e f = inr (inr (inr (line, c, refl, inl e)))

    sending-Found :
        (x : Effect)
        → Found own wake (of_effect own (parsed d) x)
        → Found own wake (of_effect own (parsed d) (sending line x))
    unfolding outcome_turn
    sending-Found x h = elim (Bool-cases (overflows line)) [
      | inl e ↦ rw e (line, c, refl, inr e)
      | inr e ↦ rw e h
    ]

    command-Found :
        (t : CommandType)
        → d.kind ≡ t
        → Found own wake (of_effect own (parsed d) (run_command c own line t d))
    unfolding run_command outcome_turn client_create_group client_send client_who exit_client
    command-Found create_group k =
        let ok = validate_name d.name && (not (str_eq d.name own) && validate_all d.clients) in
        elim (Bool-cases ok) [
          | inl e ↦ rw e (sending-Found _ (reply-Found c.reply _ (λ f. cc) refl))
          | inr e ↦ rw e (other_command (λ f. cc))
        ]
    command-Found send k = elim (Bool-cases (not (validate_name d.name) || str_eq d.name own)) [
      | inl e ↦ rw e (other_command (λ f. cc))
      | inr e ↦ rw e (
          sending-Found _
            (written-Found c.writes _ (report c.reply) refl (reply-Found c.reply _ (λ f. cc) refl)))
    ]
    command-Found who k =
        sending-Found _
          (written-Found c.writes _ (show c.reply) refl (show-Found c.reply _ (λ f. cc) refl))
    command-Found exit k = sending-Found _ (closed-Found c.writes c.closes _ k refl refl)
    command-Found invalid k = other_command (λ e. cc)

  parsed-Found :
      (p : Parsed) (line : Bytes) (c : Connection)
      → parse_command line ≡ p
      → Found own
          (record { selects = true; message = none; typed = some (line, c) })
          (of_effect own p (run_parsed c own line p))
  unfolding run_parsed outcome_turn
  parsed-Found (parsed d) line c e = command-Found d line c e d.kind refl
  parsed-Found throws line c e = no_exit line c (λ d r. cc)
  parsed-Found undefined line c e = (line, c, refl, inl e)

  typed-Found :
      (ty : Option (Bytes × Connection))
      → Found own (record { selects = true; message = none; typed = ty }) (typed_turn own ty)
  unfolding typed_turn
  typed-Found none = λ a. elim a [ inl (next, e) ↦ cc | inr (_, (line, c, d, e, _, _)) ↦ cc ]
  typed-Found (some (line, c)) = parsed-Found (parse_command line) line c refl

  ready-Found :
      (b : Bool) (m : Option (Option Bytes × Option Bytes)) (ty : Option (Bytes × Connection))
      → Found own
          (record { selects = b; message = m; typed = ty })
          (if b then ready_turn own m ty else dies)
  unfolding ready_turn
  ready-Found false m ty = inl refl
  ready-Found true none ty = typed-Found ty
  ready-Found true (some (first, next)) ty = heard-Found first next ty

  pub turn-Found : (w : Wake) → Found own w (client_turn own w)
  unfolding client_turn
  turn-Found w = ready-Found w.selects w.message w.typed
