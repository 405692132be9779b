-- ===== src/Whatsapp/Client/Ending.antt =====
-- ex4/whatsappClient.cpp: why the loop of the client's `main` ends.

use os.Common.{◌≡◌, refl, ap, false, List, [], ◌∷◌, ◌++◌, ◌⊎◌, inl, inr}
use os.Whatsapp.Text.{Bytes}
use os.Whatsapp.Printing.{client_exit_line}
use os.Whatsapp.Client.Main.{
  Wake, Turn, stays, leaves, dies, breaks, client_turn, after_turn, client_all,
}
use os.Whatsapp.Client.Causes.{Asked, Failing, Unreadable, Found, turn-Found}

-- One of the rounds is such.
abbrev pub AnyRound : (Wake → Type 0) → List Wake → Type 0
AnyRound P [] = ⊥
AnyRound P (w ∷ ws) = P w ⊎ AnyRound P ws

-- What the rounds have found behind which the client is so.
abbrev pub Explained : Bytes → List Wake → Turn → Type 0
Explained own ws (stays text sent) = ¬ AnyRound Asked ws
Explained own ws (leaves text sent) =
    AnyRound Asked ws × ((before : Bytes) × (text ≡ before ++ client_exit_line false own))
Explained own ws dies = AnyRound Failing ws
Explained own ws breaks = AnyRound Unreadable ws

module _ (own : Bytes) where
  -- A round before the others.
  later-Explained :
      (w : Wake) (ws : List Wake) (r : Turn)
      → ¬ Asked w
      → Explained own ws r
      → Explained own (w ∷ ws) r
  later-Explained w ws (stays text sent) n h = λ a. elim a [ inl k ↦ n k | inr k ↦ h k ]
  later-Explained w ws (leaves text sent) n h = (inr h.0, h.1)
  later-Explained w ws dies n h = inr h
  later-Explained w ws breaks n h = inr h

  leaves_on :
      (ws : List Wake) (text : Bytes) (sent : List Bytes)
      → client_all own ws (leaves text sent) ≡ leaves text sent
  unfolding client_all
  leaves_on [] text sent = refl
  leaves_on (w ∷ ws) text sent = refl

  dies_on : (ws : List Wake) → client_all own ws dies ≡ dies
  unfolding client_all
  dies_on [] = refl
  dies_on (w ∷ ws) = refl

  breaks_on : (ws : List Wake) → client_all own ws breaks ≡ breaks
  unfolding client_all
  breaks_on [] = refl
  breaks_on (w ∷ ws) = refl

  round-Explained :
      (w : Wake) (ws : List Wake) (text : Bytes) (sent : List Bytes) (r : Turn)
      → ((t : Bytes) (s : List Bytes) → Explained own ws (client_all own ws (stays t s)))
      → Found own w r
      → Explained own (w ∷ ws) (client_all own ws (after_turn text sent r))
  round-Explained w ws text sent (stays more reqs) ih f =
      later-Explained w ws (client_all own ws (stays (text ++ more) (sent ++ reqs))) f
        (ih (text ++ more) (sent ++ reqs))
  round-Explained w ws text sent (leaves more reqs) ih f =
      rw (leaves_on ws (text ++ more) (sent ++ reqs)) (inl f.0, (text, ap (λ k. text ++ k) f.1))
  round-Explained w ws text sent dies ih f = rw (dies_on ws) (inl f)
  round-Explained w ws text sent breaks ih f = rw (breaks_on ws) (inl f)

  rounds-Explained :
      (ws : List Wake) (text : Bytes) (sent : List Bytes)
      → Explained own ws (client_all own ws (stays text sent))
  unfolding client_all
  rounds-Explained [] text sent = λ a. a
  rounds-Explained (w ∷ ws) text sent =
      round-Explained w ws text sent (client_turn own w) (rounds-Explained ws) (turn-Found own w)

-- The client's loop ends only for a reason. While it goes on, it has neither read in its loop that the server ends,
-- where an answer that a command reads does not count, nor has the user typed a command to exit; when it ends with `exit(0)`, one of them has, and the last that it
-- prints is that it is unregistered; it ends with `exit(1)` only when a call of the system has failed, and
-- its behaviour is undefined only on a line on which that of `parseCommand` is, or that is longer than the buffer
-- of `send_data`.
pub client_ends :
    (own : Bytes) (rounds : List Wake) → Explained own rounds (client_all own rounds (stays [] []))
client_ends own rounds = rounds-Explained own rounds [] []
