-- ===== src/Whatsapp/Server/Rounds.antt =====
-- ex4/whatsappServer.cpp: what holds of the server over the rounds of `main`, and how a round with a
-- request to exit ends.
use mathlib.Core.Path.{subst}
use os.Common.{
  ℕ, ◌≡◌, refl, sym, ap, ◌∙◌, Bool, Option, none, some, List, [], ◌∷◌, is_some, arith, Bool-cases,
  inl, inr, ◌⊎◌,
}
use os.Whatsapp.Text.{Bytes, codes, str_eq, str_eq_iff}
use os.Whatsapp.Names.{find, occurrences, find-erase_key}
use os.Whatsapp.Server.State.{
  Server, Client, Sent, handle_client_request, handle_parsed, handle_command, with_nothing,
  client_exit, unregister, leave_groups,
}
use os.Whatsapp.Server.Consistent.{Consistent}
use os.Whatsapp.Server.Requests.{requests-Consistent}
use os.Whatsapp.Server.Leaving.{parse_command_exit}
use os.Whatsapp.Server.Main.{
  Ready, Round, again, ended, broken, server_std_input, accept_client, still_there, serve_client,
  appended, serve_clients, serve_rest, behind, serve_round, serve_all, server_init,
}

module _ (accepts : ℕ → Bytes → Bool) where
  accept_client-Consistent :
      (s : Server) (o : Option (Option (ℕ × Option Bytes)))
      → Consistent s
      → Consistent (accept_client accepts s o).0
  unfolding accept_client
  accept_client-Consistent s none h = h
  accept_client-Consistent s (some none) h = h
  accept_client-Consistent s (some (some (fd, name))) h =
      (requests-Consistent accepts s h).1 fd name

  -- All that is left of a state that a handler may give.
  abbrev Keeps : Option (Server × Sent) → Type 0
  Keeps none = Unit {0}
  Keeps (some (s, out)) = Consistent s

  still_there-Keeps : (c : Client) (o : Option (Server × Sent)) → Keeps o → Keeps (still_there c o)
  unfolding still_there
  still_there-Keeps c none h = tt
  still_there-Keeps (n, fd) (some (s, out)) h = elim (Bool-cases (is_some (find n s.clients))) [
    | inl e ↦ rw e h
    | inr e ↦ rw e tt
  ]

  request-Keeps :
      (s : Server) (c : Client) (line : Option Bytes) (o : Option (Server × Sent))
      → Consistent s
      → handle_client_request accepts s c line ≡ o
      → Keeps o
  request-Keeps s c line none h e = tt
  request-Keeps s c line (some (t, out)) h e = (requests-Consistent accepts s h).0 c line t out e

  serve_client-Keeps :
      (s : Server) (c : Client) (o : Option (Option Bytes))
      → Consistent s
      → Keeps (serve_client accepts s c o)
  unfolding serve_client
  serve_client-Keeps s c none h = h
  serve_client-Keeps s c (some line) h =
      still_there-Keeps c (handle_client_request accepts s c line) (request-Keeps s c line _ h refl)

  appended-Keeps : (out : Sent) (o : Option (Server × Sent)) → Keeps o → Keeps (appended out o)
  appended-Keeps out none h = tt
  appended-Keeps out (some (s, more)) h = h

  serve_clients-Consistent :
      (ready : ℕ → Option (Option Bytes)) (cs : List Client) (o : Option (Server × Sent))
      (t : Server) (out : Sent)
      → Keeps o
      → serve_clients accepts ready cs o ≡ again t out
      → Consistent t
  unfolding serve_clients
  serve_clients-Consistent ready cs none t out h e = cc
  serve_clients-Consistent ready [] (some (s, sent)) t out h e =
      let f : s ≡ t = cc in subst Consistent f h
  serve_clients-Consistent ready ((n, fd) ∷ cs) (some (s, sent)) t out h e =
      serve_clients-Consistent ready cs _ t out
        (appended-Keeps sent (serve_client accepts s (n, fd) (ready fd))
          (serve_client-Keeps s (n, fd) (ready fd) h))
        e

  rest-Consistent :
      (ready : ℕ → Option (Option Bytes)) (x : Server × Sent) (line : Option Bytes) (t : Server)
      (out : Sent)
      → Consistent x.0
      → serve_rest accepts ready x line ≡ again t out
      → Consistent t
  unfolding serve_rest server_std_input
  rest-Consistent ready (s, sent) none t out h e =
      serve_clients-Consistent ready s.clients (some (s, sent)) t out h e
  rest-Consistent ready (s, sent) (some line) t out h e =
      elim (Bool-cases (str_eq line (codes "EXIT"))) [
        | inl stop ↦ ground (arith, stop, e)
        | inr go ↦ let f : s ≡ t = ground (arith, go, e) in subst Consistent f h
      ]

  -- What the rounds keep of a server that has not ended.
  abbrev Holds : Round → Type 0
  Holds (again s out) = Consistent s
  Holds (ended out) = Unit {0}
  Holds broken = Unit {0}

  round-Holds :
      (r : Ready) (s : Server) (o : Round) → Consistent s → serve_round accepts r s ≡ o → Holds o
  unfolding serve_round
  round-Holds r s (again t out) h e =
      rest-Consistent r.client (accept_client accepts s r.connection) r.std_input t out
        (accept_client-Consistent s r.connection h) e
  round-Holds r s (ended out) h e = tt
  round-Holds r s broken h e = tt

  behind-Holds : (out : Sent) (o : Round) → Holds o → Holds (behind out o)
  behind-Holds out (again s more) h = h
  behind-Holds out (ended more) h = tt
  behind-Holds out broken h = tt

  all-Holds : (rs : List Ready) (o : Round) → Holds o → Holds (serve_all accepts rs o)
  unfolding serve_all
  all-Holds [] o h = h
  all-Holds (r ∷ rs) (again s out) h =
      all-Holds rs _ (behind-Holds out (serve_round accepts r s) (round-Holds r s _ h refl))
  all-Holds (r ∷ rs) (ended out) h = tt
  all-Holds (r ∷ rs) broken h = tt

init-Consistent : (sockfd : ℕ) → Consistent (server_init sockfd)
unfolding server_init find occurrences
init-Consistent sockfd = record {
  listed = λ n. refl;
  connected = λ g n ns e k. cc;
  apart = λ n h. refl;
}

-- After any number of rounds from its start a server that still runs has consistent tables, whatever
-- comes in and whichever messages fail.
pub serve_all-Consistent :
    (accepts : ℕ → Bytes → Bool) (sockfd : ℕ) (rs : List Ready) (t : Server) (out : Sent)
    → serve_all accepts rs (again (server_init sockfd) []) ≡ again t out
    → Consistent t
serve_all-Consistent accepts sockfd rs t out e =
    subst (Holds accepts) e
      (all-Holds accepts rs (again (server_init sockfd) []) (init-Consistent sockfd))

abbrev pub Among : Client → List Client → Type 0
Among c [] = ⊥
Among c (d ∷ ds) = (c ≡ d) ⊎ Among c ds

unregistered :
    (s : Server) (n : Bytes) (fd : ℕ) (o : Option (List (Bytes × List Bytes)))
    → still_there (n, fd) (with_nothing (unregister s (n, fd) o)) ≡ none
unfolding still_there unregister
unregistered s n fd none = refl
unregistered s n fd (some groups) =
    rw (find-erase_key n n s.clients) (rw ((str_eq_iff n n).1 refl) refl)

exit_undefined :
    (accepts : ℕ → Bytes → Bool) (s : Server) (n : Bytes) (fd : ℕ)
    → serve_client accepts s (n, fd) (some (some (codes "exit"))) ≡ none
unfolding serve_client handle_client_request handle_parsed handle_command client_exit
exit_undefined accepts s n fd =
    rw parse_command_exit (unregistered s n fd (leave_groups n s.groups))

serve_clients_broken :
    (accepts : ℕ → Bytes → Bool) (ready : ℕ → Option (Option Bytes)) (cs : List Client)
    → serve_clients accepts ready cs none ≡ broken
unfolding serve_clients
serve_clients_broken accepts ready [] = refl
serve_clients_broken accepts ready (c ∷ cs) = refl

-- When `main` finds the line `exit` from any of the clients that it goes through, its loop over them
-- has undefined behaviour, whatever comes before, unless a request before it has ended the server by an exception.
pub exit_breaks_loop :
    (accepts : ℕ → Bytes → Bool) (ready : ℕ → Option (Option Bytes)) (n : Bytes) (fd : ℕ)
    (cs : List Client) (o : Option (Server × Sent))
    → Among (n, fd) cs
    → ready fd ≡ some (some (codes "exit"))
    → serve_clients accepts ready cs o ≡ broken
unfolding serve_clients
exit_breaks_loop accepts ready n fd cs none m e = serve_clients_broken accepts ready cs
exit_breaks_loop accepts ready n fd [] (some (s, out)) m e = elim m [ ]
exit_breaks_loop accepts ready n fd ((j, f) ∷ cs) (some (s, out)) (inr m) e =
    exit_breaks_loop accepts ready n fd cs _ m e
exit_breaks_loop accepts ready n fd ((j, f) ∷ cs) (some (s, out)) (inl m) e =
    let read : ready f ≡ some (some (codes "exit")) =
      ap ready (ap (λ (c : Client). c.1) (sym m)) ∙ e in
    ap (λ r. serve_clients accepts ready cs (appended out (serve_client accepts s (j, f) r))) read
    ∙ ap (λ x. serve_clients accepts ready cs (appended out x)) (exit_undefined accepts s j f)
    ∙ serve_clients_broken accepts ready cs
