-- ===== src/Whatsapp/Server/Start.antt =====
-- ex4/whatsappServer.cpp: `establish`, and `main` with its rounds.
--
-- Whether the host is found, what `socket` gives, and whether `bind` and `listen` succeed belong to the
-- system.
use os.Common.{
  ℕ, ◌≡◌, refl, ap, Bool, true, false, ◌||◌, ◌&&◌, Option, none, some, List, [], ◌∷◌, if◌then◌else◌,
  arith, ◌⊎◌, inl, inr, Bool-cases,
}
use os.Whatsapp.Text.{Bytes, codes, str_eq}
use os.Whatsapp.Port.{server_port, to_unsigned_short}
use os.Whatsapp.Server.State.{Sent}
use os.Whatsapp.Server.Main.{
  Ready, Round, again, ended, server_std_input, server_exit, accept_client, serve_clients,
  serve_rest, serve_round, serve_all, server_init,
}

-- What the system does as the server starts.
pub record HostNet : Type 0 where
  pub finds_host : Bool  -- `gethostbyname`
  pub socket : Option ℕ
  pub binds : Bool
  pub listens : Bool

-- What `establish` leaves in `sockfd`.
pub data Socket : Type 0 where
  listening : ℕ → Socket
  deaf : ℕ → Socket  -- closed, or one that does not listen
  failed : Socket  -- -1
  undefined : Socket

-- `establish` behind `socket`. A failure of `bind` closes the socket; `main` is not told of it.
unfoldable pub bind_socket : HostNet → Option ℕ → Socket
bind_socket n none = failed
bind_socket n (some fd) = if n.binds then (if n.listens then listening fd else deaf fd) else deaf fd

-- `establish`. The test of `gethostbyname` gives `e` a Boolean, which is never negative, so the null pointer
-- is read.
unfoldable pub establish : HostNet → Socket
establish n = if n.finds_host then bind_socket n n.socket else undefined

-- How `main` ends, or what it has done after some rounds.
pub data Service : Type 0 where
  usage : Service
  served : Round → Service
  undefined : Service

-- The loop of `main`. `FD_SET` of -1 is undefined.
unfoldable pub serve_socket : (ℕ → Bytes → Bool) → List Ready → Socket → Service
serve_socket accepts rounds (listening fd) =
    served (serve_all accepts rounds (again (server_init fd) []))
serve_socket accepts rounds (deaf fd) =
    served (serve_all accepts rounds (again (server_init fd) []))
serve_socket accepts rounds failed = undefined
serve_socket accepts rounds undefined = undefined

-- `main`, by the port: it does not look whether `establish` failed.
unfoldable pub serve_port : (ℕ → Bytes → Bool) → HostNet → List Ready → Option ℕ → Service
serve_port accepts n rounds none = usage
serve_port accepts n rounds (some port) = serve_socket accepts rounds (establish n)

-- `main`, by the arguments behind the name of the program.
unfoldable pub server_main : (ℕ → Bytes → Bool) → HostNet → List Bytes → List Ready → Service
server_main accepts n args rounds = serve_port accepts n rounds (server_port args)

-- No call of `accept` succeeds in the rounds.
abbrev pub NobodyConnects : List Ready → Type 0
NobodyConnects [] = Unit {0}
NobodyConnects (r ∷ rs) = ((r.connection ≡ none) ⊎ (r.connection ≡ some none)) × NobodyConnects rs

-- EXIT is typed in one of the rounds.
abbrev pub is_exit : Option Bytes → Bool
is_exit none = false
is_exit (some line) = str_eq line (codes "EXIT")

abbrev pub exit_typed : List Ready → Bool
exit_typed [] = false
exit_typed (r ∷ rs) = is_exit r.std_input || exit_typed rs

module _ (accepts : ℕ → Bytes → Bool) (fd : ℕ) where
  deaf_rest :
      (ready : ℕ → Option (Option Bytes)) (o : Option Bytes)
      → serve_rest accepts ready (server_init fd, []) o
        ≡ (if is_exit o then ended [] else again (server_init fd) [])
  unfolding serve_rest serve_clients server_std_input server_exit server_init
  deaf_rest ready none = refl
  deaf_rest ready (some line) = refl

  deaf_round :
      (r : Ready)
      → (r.connection ≡ none) ⊎ (r.connection ≡ some none)
      → serve_round accepts r (server_init fd)
        ≡ (if is_exit r.std_input then ended [] else again (server_init fd) [])
  unfolding serve_round accept_client
  deaf_round r (inl e) = rw e (deaf_rest r.client r.std_input)
  deaf_round r (inr e) = rw e (deaf_rest r.client r.std_input)

  ended_stays : (rs : List Ready) (out : Sent) → serve_all accepts rs (ended out) ≡ ended out
  unfolding serve_all
  ended_stays [] out = refl
  ended_stays (r ∷ rs) out = refl

  deaf_rounds :
      (rs : List Ready)
      → NobodyConnects rs
      → serve_all accepts rs (again (server_init fd) [])
        ≡ (if exit_typed rs then ended [] else again (server_init fd) [])
  unfolding serve_all
  deaf_rounds [] h = refl
  deaf_rounds (r ∷ rs) h = elim (Bool-cases (is_exit r.std_input)) [
    | inl e ↦ rw (deaf_round r h.0) (rw e (ended_stays rs []))
    | inr e ↦ rw (deaf_round r h.0) (rw e (deaf_rounds rs h.1))
  ]

  deaf_service :
      (n : HostNet) (rs : List Ready)
      → n.finds_host ≡ true
      → n.socket ≡ some fd
      → (n.binds && n.listens) ≡ false
      → NobodyConnects rs
      → serve_socket accepts rs (establish n)
        ≡ served (if exit_typed rs then ended [] else again (server_init fd) [])
  unfolding establish bind_socket serve_socket
  deaf_service n rs host socket fails nobody = rw host (
      rw socket (elim (Bool-cases n.binds) [
        | inl b ↦ rw b (rw (listens_not n b fails) (ap served (deaf_rounds rs nobody)))
        | inr b ↦ rw b (ap served (deaf_rounds rs nobody))
      ]))
    where
      listens_not :
          (n : HostNet) → n.binds ≡ true → (n.binds && n.listens) ≡ false → n.listens ≡ false
      listens_not n b f = ground (arith, b, f)

-- When `bind` or `listen` fails, `main` goes on with a socket that nobody can connect to: as long as
-- `accept` gives no connection, it serves without a client until EXIT is typed.
pub server_unnoticed :
    (accepts : ℕ → Bytes → Bool) (n : HostNet) (arg : Bytes) (rounds : List Ready) (port fd : ℕ)
    → to_unsigned_short arg ≡ some port
    → n.finds_host ≡ true
    → n.socket ≡ some fd
    → (n.binds && n.listens) ≡ false
    → NobodyConnects rounds
    → server_main accepts n (arg ∷ []) rounds
      ≡ served (if exit_typed rounds then ended [] else again (server_init fd) [])
unfolding server_main serve_port server_port
server_unnoticed accepts n arg rounds port fd number host socket fails nobody =
    rw number (deaf_service accepts fd n rounds host socket fails nobody)
