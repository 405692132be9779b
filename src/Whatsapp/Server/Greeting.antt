-- ===== src/Whatsapp/Server/Greeting.antt =====
-- ex4/whatsappServer.cpp and ex4/whatsappClient.cpp: a client that connects, with both sides of the
-- connection.
use os.Common.{
  ℕ, ◌≤◌, ◌≢◌, length, ◌≡◌, refl, ap, ◌∙◌, true, false, Option, none, some, [], ◌∷◌, ◌++◌,
  if◌then◌else◌, arith, ◌==◌, Bool-cases, inl, inr, ◌⊎◌,
}
use os.Whatsapp.Command.Parse.{wa_max_input}
use os.Whatsapp.Framing.Wire.{arriving}
use os.Whatsapp.Framing.Fits.{Framed, overflows-Framed, arriving-Framed}
use os.Whatsapp.Text.{Lacks, Bytes, str_eq}
use os.Whatsapp.Names.{find, assign, find-assign}
use os.Whatsapp.Framing.Wire.{response_type}
use os.Whatsapp.Printing.{connection_line, connection_server_line, dup_connection_line}
use os.Whatsapp.Client.Commands.{is_alnum, validate_name}
use os.Whatsapp.Client.Session.{
  Network, connected, stopped, greet, greeted, start_session, initialization,
}
use os.Whatsapp.Server.State.{
  Server, Sent, transmit, is_taken, connect_new_client, success_signal, name_exists_signal,
}
use os.Whatsapp.Server.Printed.{connect_printed}
use os.Whatsapp.Server.Delivery.{all_accepted}

-- What is sent first to a descriptor.
abbrev pub first_to : ℕ → Sent → Option Bytes
first_to fd [] = none
first_to fd ((f, m) ∷ out) = if f == fd then some m else first_to fd out

-- A system in which nothing fails, and the client reads what the server has sent to it.
abbrev pub joined : ℕ → Server × Sent → Network
joined fd x = record {
  finds_host = λ h. true;
  reads_port = λ p. true;
  has_socket = true;
  connects = true;
  reply = first_to fd x.1;
}

-- The server's side of a connection by name.
abbrev pub Admitted : Server → Bytes → ℕ → Server → Type 0
Admitted s name fd s' =
    (is_taken s name ≡ false)
    × (s'.clients_list ≡ s.clients_list ++ name ∷ [])
    × ((j : Bytes) → find j s'.clients ≡ (if str_eq name j then some fd else find j s.clients))

success_read : greeted (some success_signal) ≡ connected connection_line
unfolding greeted greet response_type str_eq
success_read = refl

name_exists_read : greeted (some name_exists_signal) ≡ stopped dup_connection_line
unfolding greeted greet response_type str_eq
name_exists_read = refl

first_sent : (fd : ℕ) (m : Bytes) → first_to fd ((fd, m) ∷ []) ≡ some m
first_sent fd m = ground arith

no_zero : (c : ℕ) → is_alnum c ≡ true → c ≢ 0
unfolding is_alnum
no_zero c h = ground (arith, h)

validate_name-Lacks : (name : Bytes) → validate_name name ≡ true → Lacks 0 name
unfolding validate_name
validate_name-Lacks [] h = tt
validate_name-Lacks (c ∷ cs) h = ground (arith, h, no_zero c, validate_name-Lacks cs)

started :
    (x : Server × Sent) (name host port m : Bytes) (fd : ℕ)
    → validate_name name ≡ true
    → Framed name
    → x.1 ≡ (fd, m) ∷ []
    → initialization (joined fd x) (name ∷ host ∷ port ∷ []) ≡ greeted (some m)
unfolding initialization start_session
started x name host port m fd valid room e =
    rw valid (rw (overflows-Framed name room) (ap greeted (ap (first_to fd) e ∙ first_sent fd m)))

-- The server, and what it has sent, behind a connection by a name that is taken, and by one that is free.
abbrev turned_away : Server → ℕ → Server × Sent
turned_away s fd = (record s { watched = fd ∷ s.watched }, (fd, name_exists_signal) ∷ [])

abbrev taken_up : Server → Bytes → ℕ → Server × Sent
taken_up s name fd = (
  record s {
    watched = fd ∷ s.watched;
    clients = assign name fd s.clients;
    clients_list = s.clients_list ++ name ∷ [];
  },
  (fd, success_signal) ∷ [],
)

connect_taken :
    (s : Server) (name : Bytes) (fd : ℕ)
    → is_taken s name ≡ true
    → connect_new_client all_accepted s fd (some name) ≡ turned_away s fd
unfolding connect_new_client transmit
connect_taken s name fd e = rw e refl

connect_free :
    (s : Server) (name : Bytes) (fd : ℕ)
    → is_taken s name ≡ false
    → connect_new_client all_accepted s fd (some name) ≡ taken_up s name fd
unfolding connect_new_client transmit
connect_free s name fd e = rw e refl

taken_logged :
    (s : Server) (name : Bytes) → is_taken s name ≡ true → connect_printed s (some name) ≡ []
unfolding connect_printed
taken_logged s name e = rw e refl

free_logged :
    (s : Server) (name : Bytes)
    → is_taken s name ≡ false
    → connect_printed s (some name) ≡ connection_server_line name
unfolding connect_printed
free_logged s name e = rw e refl

-- A client with a valid name that fits into a frame connects to a server, and nothing fails. If the name was free, the client
-- prints that it is connected, and so does the server, which has it by that name, beside the clients of
-- before; if it was a client's or a group's, the client says so and exits, and the server prints nothing
-- and its clients are those of before.
pub greeting :
    (s : Server) (name host port : Bytes) (fd : ℕ)
    → validate_name name ≡ true
    → length name ≤ wa_max_input
    → (x : Server × Sent) × (connect_new_client all_accepted s fd (some (arriving name)) ≡ x)
      × (((initialization (joined fd x) (name ∷ host ∷ port ∷ []) ≡ connected connection_line)
            × Admitted s name fd x.0
            × (connect_printed s (some name) ≡ connection_server_line name))
          ⊎ ((initialization (joined fd x) (name ∷ host ∷ port ∷ []) ≡ stopped dup_connection_line)
              × (is_taken s name ≡ true)
              × (x.0.clients ≡ s.clients)
              × (x.0.clients_list ≡ s.clients_list)
              × (connect_printed s (some name) ≡ [])))
greeting s name host port fd valid fits =
    let room : Framed name = (validate_name-Lacks name valid, fits) in
    elim (Bool-cases (is_taken s name)) [
      | inl e ↦ (
        turned_away s fd,
        ap (λ k. connect_new_client all_accepted s fd (some k)) (arriving-Framed name room)
            ∙ connect_taken s name fd e,
        inr (
          started (turned_away s fd) name host port name_exists_signal fd valid room refl
              ∙ name_exists_read,
          e,
          refl,
          refl,
          taken_logged s name e,
        ),
      )
      | inr e ↦ (
        taken_up s name fd,
        ap (λ k. connect_new_client all_accepted s fd (some k)) (arriving-Framed name room)
            ∙ connect_free s name fd e,
        inl (
          started (taken_up s name fd) name host port success_signal fd valid room refl
              ∙ success_read,
          (e, refl, λ j. find-assign name j fd s.clients),
          free_logged s name e,
        ),
      )
    ]
