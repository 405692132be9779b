-- ===== src/Whatsapp/Server/Shutdown.antt =====
-- ex4/whatsappServer.cpp and ex4/whatsappClient.cpp: the end of the server, and of its clients.
use os.Common.{
  ℕ, ◌≡◌, refl, ap, ◌∙◌, Bool, false, Option, some, List, [], ◌∷◌, ◌++◌, arith, ◌==◌, Bool-cases,
  inl, inr,
}
use os.Whatsapp.Text.{Bytes, str_eq, codes}
use os.Whatsapp.Printing.{client_exit_line, server_exit_line}
use os.Whatsapp.Server.Printed.{std_input_printed}
use os.Whatsapp.Client.Session.{left, hear, is_server_exit}
use os.Whatsapp.Server.State.{Server, Client, Sent, transmit}
use os.Whatsapp.Server.Main.{ended, exit_signal, server_exit, server_std_input}
use os.Whatsapp.Server.Rounds.{Among}
use os.Whatsapp.Server.Delivery.{all_accepted}
use os.Whatsapp.Server.Greeting.{first_to}

typed_exit :
    (accepts : ℕ → Bytes → Bool) (s : Server) (out : Sent)
    → server_std_input accepts s out (codes "EXIT") ≡ ended (out ++ server_exit accepts s.clients)
unfolding server_std_input str_eq
typed_exit accepts s out = refl

-- Only the signal is sent, so whoever is among the clients gets it.
told_to_exit :
    (n : Bytes) (fd : ℕ) (cs : List Client)
    → Among (n, fd) cs
    → first_to fd (server_exit all_accepted cs) ≡ some exit_signal
unfolding server_exit transmit
told_to_exit n fd [] m = elim m [ ]
told_to_exit n fd ((j, f) ∷ cs) m = elim (Bool-cases (f == fd)) [
  | inl e ↦ rw e refl
  | inr e ↦ rw e (elim m [
    | inl same ↦ let k : fd ≡ f = ap (λ (c : Client). c.1) same in absurd (ground (arith, e, k))
    | inr later ↦ told_to_exit n fd cs later
  ])
]

leaves :
    (own : Bytes) (next : Option Bytes)
    → hear own (some exit_signal) next ≡ left (client_exit_line false own)
unfolding hear is_server_exit str_eq
leaves own next = refl

exit_announced : std_input_printed (codes "EXIT") ≡ server_exit_line
unfolding std_input_printed str_eq
exit_announced = refl

-- When EXIT is typed and no message fails, the server says so and ends, and every client that was connected and
-- waits in its loop, with nothing else on its way to it, ends with `exit(0)` on the message that it then gets, and
-- says that it is unregistered.
pub shutdown :
    (s : Server) (out : Sent)
    → (goodbye : Sent) × (server_std_input all_accepted s out (codes "EXIT")
        ≡ ended (out ++ goodbye))
      × (std_input_printed (codes "EXIT") ≡ server_exit_line)
      × ((n : Bytes) (fd : ℕ) (next : Option Bytes)
          → Among (n, fd) s.clients
          → hear n (first_to fd goodbye) next ≡ left (client_exit_line false n))
shutdown s out = (
  server_exit all_accepted s.clients,
  typed_exit all_accepted s out,
  exit_announced,
  λ n fd next m. ap (λ o. hear n o next) (told_to_exit n fd s.clients m) ∙ leaves n next,
)
