-- ===== src/Whatsapp/Server/Readers.antt =====
-- ex4/whatsappServer.cpp and ex4/whatsappClient.cpp: who gets what `send` sends, and what a reader does
-- with it.
use os.Common.{
  ℕ, ◌<◌, ◌≡◌, ◌≢◌, refl, true, Option, none, some, List, [], ◌∷◌, ◌++◌, if◌then◌else◌, is_some,
  ◌==◌, arith, inl, inr, ◌⊎◌, Option-cases,
}
use os.Whatsapp.Text.{Bytes, str_eq, str_eq_iff}
use os.Whatsapp.Names.{contains, occurrences, find}
use os.Whatsapp.Printing.{newline}
use os.Whatsapp.Client.Session.{goes_on, hear, is_server_exit, is_message_from, show_message}
use os.Whatsapp.Server.State.{Server, Sent, send_que}
use os.Whatsapp.Server.Delivery.{to_all}
use os.Whatsapp.Server.Greeting.{first_to}

-- What is sent to a descriptor behind the first message to it.
abbrev pub second_to : ℕ → Sent → Option Bytes
second_to fd [] = none
second_to fd ((f, m) ∷ out) = if f == fd then first_to fd out else second_to fd out

-- A client may write to another client, and to a group that it belongs to.
abbrev pub MayReach : Server → Bytes → Bytes → Type 0
MayReach s n to =
    (is_some (find to s.clients) ≡ true)
    ⊎ ((ns : List Bytes) × (find to s.groups ≡ some ns) × (contains ns n ≡ true))

-- The readers of what is sent to a name: the client of that name, or the other members of the group.
abbrev pub Reads : Server → Bytes → Bytes → Bytes → Type 0
Reads s n to j =
    (j ≡ to) ⊎ ((ns : List Bytes) × (find to s.groups ≡ some ns) × (0 < occurrences j ns) × (j ≢ n))

-- A reader prints the text.
abbrev pub Hears : Sent → Bytes → Bytes → ℕ → Type 0
Hears out text j to = hear j (first_to to out) (second_to to out) ≡ goes_on (text ++ newline)

pub hear_message :
    (own text : Bytes) → hear own (some send_que) (some text) ≡ goes_on (text ++ newline)
unfolding hear is_server_exit is_message_from show_message str_eq
hear_message own text = refl

pub hears :
    (j text : Bytes) (to : ℕ) (out : Sent)
    → first_to to out ≡ some send_que
    → second_to to out ≡ some text
    → Hears out text j to
hears j text to out e f = rw e (rw f (hear_message j text))

-- Whoever gets something of a message to a group gets the notice, and then the text.
pub to_all_first :
    (clients : List (Bytes × ℕ)) (m j : Bytes) (to : ℕ) (ns : List Bytes) (out : Sent)
    → find j clients ≡ some to
    → 0 < occurrences j ns
    → (first_to to (to_all clients m ns ++ out) ≡ some send_que)
      × (second_to to (to_all clients m ns ++ out) ≡ some m)
unfolding occurrences
to_all_first clients m j to [] out e h = elim h [ ]
to_all_first clients m j to (n ∷ ns) out e h =
    let ih = to_all_first clients m j to ns out e in
    elim (Option-cases (find n clients)) [
      | inl e' ↦ rw e' (ground (arith, ih, e, e', str_eq_iff j n))
      | inr (f, e') ↦ rw e' (ground (arith, ih, e, e', str_eq_iff j n))
    ]

-- Whoever is not addressed gets nothing of it.
pub to_all_skip :
    (clients : List (Bytes × ℕ)) (m : Bytes) (fd : ℕ) (ns : List Bytes) (out : Sent)
    → ((j : Bytes) → 0 < occurrences j ns → find j clients ≢ some fd)
    → first_to fd (to_all clients m ns ++ out) ≡ first_to fd out
unfolding occurrences
to_all_skip clients m fd [] out h = refl
to_all_skip clients m fd (n ∷ ns) out h =
    let ih = to_all_skip clients m fd ns out (λ j k. h j (omega (arith, k))) in
    elim (Option-cases (find n clients)) [
      | inl e ↦ rw e ih
      | inr (f, e) ↦ rw e (ground (arith, ih, e, h n, str_eq_iff n n))
    ]
