-- ===== src/Whatsapp/Client/Checked.antt =====
-- ex4/whatsappClient.cpp: which lines reach the server.
use mathlib.Core.Path.{subst}
use os.Common.{◌≡◌, ◌≢◌, refl, true, false, List, [], ◌∷◌, arith, ◌↔◌}
use os.Whatsapp.Text.{Bytes, Lacks, str_eq_iff}
use os.Whatsapp.Framing.Wire.{overflows}
use os.Whatsapp.Framing.Fits.{overflows-Framed, parsed-Framed}
use os.Whatsapp.Command.Parse.{
  CommandType, create_group, send, who, exit, invalid, Command, Parsed, parsed, throws, undefined,
  parse_command,
}
use os.Whatsapp.Client.Commands.{
  Connection, is_alnum, validate_name, validate_all, client_create_group, client_send, client_who,
  exit_client, run_command, run_parsed, run_line,
}

-- Every byte is a digit or a letter.
abbrev pub Alphanumeric : Bytes → Type 0
Alphanumeric [] = Unit {0}
Alphanumeric (c ∷ cs) = (is_alnum c ≡ true) × Alphanumeric cs

abbrev pub AllAlphanumeric : List Bytes → Type 0
AllAlphanumeric [] = Unit {0}
AllAlphanumeric (n ∷ ns) = Alphanumeric n × AllAlphanumeric ns

-- A command that a client with that name may ask the server for.
abbrev pub Admissible : Bytes → CommandType → Command → Type 0
Admissible own create_group d = Alphanumeric d.name × (d.name ≢ own) × AllAlphanumeric d.clients
Admissible own send d = Alphanumeric d.name × (d.name ≢ own)
Admissible own who d = Unit {0}
Admissible own exit d = Unit {0}
Admissible own invalid d = ⊥

pub validate_name_iff : (n : Bytes) → (validate_name n ≡ true) ↔ Alphanumeric n
unfolding validate_name
validate_name_iff [] = (λ h. record {}, λ h. refl)
validate_name_iff (c ∷ cs) = ground (arith, validate_name_iff cs)

pub validate_all_iff : (ns : List Bytes) → (validate_all ns ≡ true) ↔ AllAlphanumeric ns
unfolding validate_all
validate_all_iff [] = (λ h. record {}, λ h. refl)
validate_all_iff (n ∷ ns) = ground (arith, validate_name_iff n, validate_all_iff ns)

run_command_iff :
    (n : Connection) (own line : Bytes) (t : CommandType) (d : Command)
    → n.writes ≡ true
    → overflows line ≡ false
    → ((run_command n own line t d).0 ≡ line ∷ []) ↔ Admissible own t d
unfolding run_command client_create_group client_send client_who exit_client
run_command_iff n own line create_group d w fits =
    ground
      (arith, w, fits, validate_name_iff d.name, validate_all_iff d.clients, str_eq_iff d.name own)
run_command_iff n own line send d w fits =
    ground (arith, w, fits, validate_name_iff d.name, str_eq_iff d.name own)
run_command_iff n own line who d w fits = ground (arith, w, fits)
run_command_iff n own line exit d w fits = ground (arith, w, fits)
run_command_iff n own line invalid d w fits = (λ h. cc, λ h. elim h [ ])

run_parsed_iff :
    (n : Connection) (own line : Bytes) (p : Parsed)
    → n.writes ≡ true
    → ((d : Command) → p ≡ parsed d → overflows line ≡ false)
    → ((run_parsed n own line p).0 ≡ line ∷ [])
      ↔ ((d : Command) × (p ≡ parsed d) × Admissible own d.kind d)
unfolding run_parsed
run_parsed_iff n own line (parsed d) w fits =
    let r = run_command_iff n own line d.kind d w (fits d refl) in
    (
      λ h. (d, refl, r.0 h),
      λ (d', e, a). let f : d' ≡ d = cc in r.1 (subst (λ c. Admissible own c.kind c) f a),
    )
run_parsed_iff n own line throws w fits = (λ h. cc, λ (d, e, a). cc)
run_parsed_iff n own line undefined w fits = (λ h. cc, λ (d, e, a). cc)

-- When the connection accepts it, a typed line without a byte 0 is sent to the server exactly if it is a command
-- whose names are letters and digits only, and the group or the addressee that it names has not the client's
-- own name.
pub run_line_iff :
    (n : Connection) (own line : Bytes)
    → n.writes ≡ true
    → Lacks 0 line
    → ((run_line n own line).0 ≡ line ∷ [])
      ↔ ((d : Command) × (parse_command line ≡ parsed d) × Admissible own d.kind d)
unfolding run_line
run_line_iff n own line w lacks =
    run_parsed_iff n own line (parse_command line) w
      (λ d e. overflows-Framed line (parsed-Framed line d lacks e))
