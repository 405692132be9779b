-- ===== src/Whatsapp/Framing/Sending.antt =====
-- ex4/whatsappCommon.h: `send_data` sends the whole frame.

use os.Common.{
  ℕ, ◌+◌, ◌-◌, ◌≤◌, ◌<◌, ◌≡◌, refl, ap, some, List, [], ◌∷◌, ◌++◌, length, length-append, drop,
  take-append-drop, length-drop, length-replicate, take_padded, arith,
}
use os.Whatsapp.Text.{Bytes}
use os.Whatsapp.Command.Parse.{wa_max_input}
use os.Whatsapp.Framing.Wire.{zeros, finished, send_loop, frame, send_data}

abbrev pub Positive : List ℕ → Type 0
Positive [] = Unit {0}
Positive (k ∷ ks) = (0 < k) × Positive ks

-- Partial writes do no harm: the loop sends all bytes once and in order.
send_loop_all :
    (replies : List ℕ) (bs : Bytes)
    → Positive replies
    → length bs ≤ length replies
    → send_loop replies bs ≡ (bs, finished)
unfolding send_loop
send_loop_all replies [] p h = refl
send_loop_all [] (b ∷ bs) p h = elim h [ ]
send_loop_all (k ∷ replies) (b ∷ bs) p h =
    let ih = send_loop_all replies (drop k (b ∷ bs)) p.1 (omega (arith, length-drop k (b ∷ bs))) in
    ground (arith, ih, take-append-drop k (b ∷ bs))

pub frame_padded : (m : Bytes) (n : ℕ) → length m + n ≡ wa_max_input → frame m ≡ m ++ zeros n
unfolding frame
frame_padded m n e =
    take_padded m wa_max_input n (wa_max_input + 1 - length m) 0 (omega arith) (omega arith)

pub length_padded : (m : Bytes) (n : ℕ) → length (m ++ zeros n) ≡ length m + n
length_padded m n = omega (arith, length-append m (zeros n), length-replicate {A = ℕ} n 0)

-- For a message that is not longer than a frame: `write` may accept as few bytes as it likes at a time; as long as it accepts some, `send_data`
-- sends the frame of the message, whole and in order, and ends; `WA_MAX_INPUT` calls are enough.
pub send_data_lem :
    (replies : List ℕ) (m : Bytes)
    → Positive replies
    → wa_max_input ≤ length replies
    → length m ≤ wa_max_input
    → send_data replies m ≡ some (m ++ zeros (wa_max_input - length m), finished)
unfolding send_data
send_data_lem replies m p h fits =
    let n = wa_max_input - length m in
    let padded = frame_padded m n (omega arith) in
    let sent =
      send_loop_all replies (frame m) p
        (omega (arith, ap (λ s. length s) padded, length_padded m n)) in
    ground (arith, sent, padded)
