-- ===== src/Whatsapp/Framing/Wire.antt =====
-- ex4/whatsappCommon.h: every message travels as a frame of `WA_MAX_INPUT` bytes.
--
-- `write` and `read` belong to the system: a call of `write` is the number of bytes that it accepts,
-- 0 for a failure, and a call of `read` is the chunk of bytes that it delivers, not more than it is
-- asked for, empty at the end of
-- the stream or on an error. When the list ends, the process waits in the call.

use os.Common.{
  Bool, ℕ, ◌+◌, ◌-◌, Option, none, some, List, [], ◌∷◌, ◌++◌, ltb, ◌==◌, if◌then◌else◌, length,
  take, drop, replicate,
}
use os.Whatsapp.Text.{Bytes, codes, str_eq, c_string}
use os.Whatsapp.Command.Parse.{wa_max_input}

-- The buffer of `send_data` and `read_data` before the message: `WA_MAX_INPUT + 1` zero bytes.
abbrev pub zeros : ℕ → Bytes
zeros n = replicate n 0

-- How a loop ends.
pub data Transfer : Type 0 where
  finished : Transfer
  failed : Transfer
  waiting : Transfer

-- The loop of `send_data`: what reaches the socket of the bytes that are left.
unfoldable pub send_loop : List ℕ → Bytes → Bytes × Transfer
send_loop replies [] = ([], finished)
send_loop [] (b ∷ bs) = ([], waiting)
send_loop (k ∷ replies) (b ∷ bs) =
    let (later, end) = send_loop replies (drop k (b ∷ bs)) in
    if k == 0 then ([], failed) else (take k (b ∷ bs) ++ later, end)

-- The part of the buffer that is sent.
unfoldable pub frame : Bytes → Bytes
frame message = take wa_max_input (message ++ zeros (wa_max_input + 1 - length message))

-- `send_data`; `none` where `memcpy` writes beyond the buffer.
unfoldable pub send_data : List ℕ → Bytes → Option (Bytes × Transfer)
send_data replies message =
    if ltb (wa_max_input + 1) (length message)
    then none
    else some (send_loop replies (frame message))

-- `memcpy` writes beyond the buffer of `send_data`.
unfoldable pub overflows : Bytes → Bool
overflows message = ltb (wa_max_input + 1) (length message)

-- What `read_data` makes of the frame of a message, when it comes in one piece.
unfoldable pub arriving : Bytes → Bytes
arriving message = c_string (take wa_max_input message)

-- Each `read` writes at the start of the buffer.
unfoldable pub overlay : Bytes → Bytes → Bytes
overlay chunk buf = chunk ++ drop (length chunk) buf

-- What `read_data` makes of the stream: the message and the chunks that are left.
pub data Received : Type 0 where
  message : Bytes → List Bytes → Received
  broken : Received
  stuck : Received

-- The loop of `read_data`, with `n` bytes still to come.
unfoldable pub read_loop : List Bytes → Bytes → ℕ → Received
unfolding overlay
read_loop [] buf n = if n == 0 then message (c_string buf) [] else stuck
read_loop (c ∷ cs) buf n =
    let rest = read_loop cs (overlay c buf) (n - length c) in
    if n == 0 then message (c_string buf) (c ∷ cs) else (if length c == 0 then broken else rest)

-- `read_data`
unfoldable pub read_data : List Bytes → Received
read_data chunks = read_loop chunks (zeros (wa_max_input + 1)) wa_max_input

-- `enum Response` and `responseType`
pub data Response : Type 0 where
  success failure name_exists invalid_response : Response

unfoldable pub response_type : Bytes → Response
response_type s =
    if str_eq s (codes "success")
    then success
    else (if str_eq s (codes "failure")
        then failure
        else (if str_eq s (codes "name_exists") then name_exists else invalid_response))
