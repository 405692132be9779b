-- ===== src/Whatsapp/Framing/Receiving.antt =====
-- ex4/whatsappCommon.h: what `read_data` makes of a frame.
use mathlib.Core.List.{append-nil, append_assoc}
use mathlib.Core.Path.{ap₂}
use os.Common.{
  ℕ, zero, suc, ◌+◌, ◌-◌, ◌≤◌, ◌<◌, ◌≡◌, refl, sym, ap, ◌∙◌, List, [], ◌∷◌, ◌++◌, length, drop,
  length-replicate, replicate-append, drop-replicate, arith,
}
use os.Whatsapp.Text.{Bytes, c_string, Lacks, c_string-append}
use os.Whatsapp.Command.Parse.{wa_max_input}
use os.Whatsapp.Framing.Wire.{zeros, frame, overlay, message, read_loop, read_data}
use os.Whatsapp.Framing.Sending.{frame_padded, length_padded}

read_loop_end : (cs : List Bytes) (buf : Bytes) → read_loop cs buf 0 ≡ message (c_string buf) cs
unfolding read_loop
read_loop_end [] buf = refl
read_loop_end (c ∷ cs) buf = refl

read_loop-cons :
    (c : Bytes) (cs : List Bytes) (buf : Bytes) (n : ℕ)
    → 0 < n
    → 0 < length c
    → read_loop (c ∷ cs) buf n ≡ read_loop cs (overlay c buf) (n - length c)
unfolding read_loop
read_loop-cons c cs buf n h k = ground arith

c_string-zeros : (n : ℕ) (r : Bytes) → c_string (zeros n ++ 0 ∷ r) ≡ []
unfolding c_string
c_string-zeros zero r = refl
c_string-zeros (suc n) r = refl

buffer_end : (n : ℕ) → n ≡ wa_max_input → drop n (zeros (wa_max_input + 1)) ≡ 0 ∷ []
buffer_end n e =
    let f : wa_max_input + 1 ≡ n + 1 = omega arith in
    ap (λ k. drop n (zeros k)) f ∙ drop-replicate n 1 0

shown_frame :
    (m f : Bytes) (n : ℕ)
    → Lacks 0 m
    → f ≡ m ++ zeros n
    → length f ≡ wa_max_input
    → c_string (overlay f (zeros (wa_max_input + 1))) ≡ m
unfolding overlay
shown_frame m f n h padded size =
    ap₂ (λ x y. c_string (x ++ y)) padded (buffer_end (length f) size)
    ∙ ap c_string (append_assoc m (zeros n) (0 ∷ []))
    ∙ c_string-append m (zeros n ++ 0 ∷ []) h
    ∙ ap (λ s. m ++ s) (c_string-zeros n [])
    ∙ append-nil m

-- A frame that one call of `read` delivers whole gives back the message, if that has no byte 0 and is not longer
-- than a frame.
pub read_data-frame :
    (m : Bytes) (cs : List Bytes)
    → Lacks 0 m
    → length m ≤ wa_max_input
    → read_data (frame m ∷ cs) ≡ message m cs
unfolding read_data
read_data-frame m cs h fits =
    let n = wa_max_input - length m in
    let padded = frame_padded m n (omega arith) in
    let size : length (frame m) ≡ wa_max_input =
      omega (arith, ap (λ s. length s) padded, length_padded m n) in
    let over : wa_max_input - length (frame m) ≡ 0 = omega arith in
    read_loop-cons (frame m) cs _ wa_max_input (omega arith) (omega arith)
    ∙ ap (λ k. read_loop cs (overlay (frame m) (zeros (wa_max_input + 1))) k) over
    ∙ read_loop_end cs _
    ∙ ap (λ s. message s cs) (shown_frame m (frame m) n h padded size)

overlay-zeros : (n : ℕ) (buf : Bytes) → c_string (overlay (zeros (suc n)) buf) ≡ []
unfolding overlay c_string
overlay-zeros n buf = refl

-- A frame that two calls of `read` deliver, the first of them with the whole message and some of the
-- zeros, or with zeros of an empty message, is read as the empty message: the second part is written
-- over the first.
pub read_data_split :
    (m : Bytes) (a b : ℕ) (cs : List Bytes)
    → length m + a + suc b ≡ wa_max_input
    → 0 < length m + a
    → (frame m ≡ (m ++ zeros a) ++ zeros (suc b))
      × (read_data ((m ++ zeros a) ∷ zeros (suc b) ∷ cs) ≡ message [] cs)
unfolding read_data
read_data_split m a b cs e h = (whole, lost)
  where
    whole : frame m ≡ (m ++ zeros a) ++ zeros (suc b)
    whole =
        frame_padded m (a + suc b) (omega arith)
        ∙ ap (λ s. m ++ s) (sym (replicate-append a (suc b) 0))
        ∙ sym (append_assoc m (zeros a) (zeros (suc b)))

    left : wa_max_input - length (m ++ zeros a) ≡ suc b
    left = omega (arith, length_padded m a)

    none_left : suc b - length (zeros (suc b)) ≡ 0
    none_left = omega (arith, length-replicate {A = ℕ} (suc b) 0)

    first : Bytes
    first = overlay (m ++ zeros a) (zeros (wa_max_input + 1))

    lost : read_data ((m ++ zeros a) ∷ zeros (suc b) ∷ cs) ≡ message [] cs
    lost =
        read_loop-cons (m ++ zeros a) (zeros (suc b) ∷ cs) _ wa_max_input (omega arith)
          (omega (arith, length_padded m a))
        ∙ ap (λ k. read_loop (zeros (suc b) ∷ cs) first k) left
        ∙ read_loop-cons (zeros (suc b)) cs first (suc b) (omega arith) (omega arith)
        ∙ ap (λ k. read_loop cs (overlay (zeros (suc b)) first) k) none_left
        ∙ read_loop_end cs _
        ∙ ap (λ s. message s cs) (overlay-zeros b first)
