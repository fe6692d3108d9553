-- ===== src/Client/P2p/Frames.antt =====
-- Cutting a message into frames and joining them again.
use p2p_spendability_pir.Common.{
  ℕ, ◌+◌, ◌<◌, ◌≤◌, ◌≡◌, refl, sym, ap, ◌∙◌, List, [], ◌∷◌, ◌++◌, append-nil, append_assoc, map,
  Option, none, some, true, false, ◌==◌, length, length-append, concat, chunks, concat-chunks,
  chunks-bound, All, arith,
}
use p2p_spendability_pir.Common.Run.{Run, ok, err, panic}
use p2p_spendability_pir.Protocol.Message.{Message, to_u16, try_from-to_u16}
use p2p_spendability_pir.Protocol.Decoder.{
  MessageDecoder, push, push-steps, extended, changed, current_len, delivered, frame_flag_more,
  max_message_bytes,
}
use p2p_spendability_pir.Client.P2p.{
  Frame, P2pClientError, protocol, frame_error, close_last, more_frame, or_single, frames, receive,
}

-- the bytes that a decoder has of a message
abbrev pub Partial : MessageDecoder → Message → List ℕ → Type 0
Partial decoder message bytes =
    (changed decoder message ≡ false)
    × (current_len decoder ≡ length bytes)
    × ((payload : List ℕ) → extended decoder message payload ≡ (message, bytes ++ payload))

pub Partial-none : (message : Message) → Partial none message []
unfolding changed current_len extended
Partial-none message = (refl, refl, λ payload. refl)

pub Partial-some :
    (message : Message) (bytes : List ℕ) → Partial (some (message, bytes)) message bytes
unfolding changed current_len extended
Partial-some message bytes = (ground arith, refl, λ payload. refl)

pub push-Partial :
    (message : Message) (flags : ℕ) (decoder : MessageDecoder) (bytes payload : List ℕ)
    → flags ≤ 1
    → Partial decoder message bytes
    → length bytes + length payload ≤ max_message_bytes
    → push (to_u16 message) flags payload decoder
      ≡ ok (delivered (flags == frame_flag_more) (message, bytes ++ payload))
push-Partial message flags decoder bytes payload known (same, size, extends) fits =
    push-steps (to_u16 message) flags payload decoder message known (try_from-to_u16 message) same
      (omega (arith, size))
    ∙ ap (λ x. ok (delivered (flags == frame_flag_more) x)) (extends payload)

receive-step :
    (decoder : MessageDecoder) (frame : Frame) (arriving : List Frame)
    (pushed : Option (Message × List ℕ) × MessageDecoder)
    → push frame.message_type frame.flags frame.payload decoder ≡ ok pushed
    → receive decoder (frame ∷ arriving)
      ≡ elim pushed.0 as (λ _. Run P2pClientError (Message × List ℕ)) [
        | some message ↦ ok message
        | none ↦ receive pushed.1 arriving
      ]
unfolding receive
receive-step decoder frame arriving pushed runs =
    ap
      (λ step. elim step as (λ _. Run P2pClientError (Message × List ℕ)) [
        | err e ↦ err (protocol (frame_error e))
        | panic ↦ panic
        | ok pushed ↦ elim pushed.0 as (λ _. Run P2pClientError (Message × List ℕ)) [
          | some message ↦ ok message
          | none ↦ receive pushed.1 arriving
        ]
      ])
      runs

-- Frames that carry the pieces of a message complete it with the last one; what follows is left.
receive-pieces :
    (message : Message) (p : List ℕ) (ps : List (List ℕ)) (decoder : MessageDecoder)
    (bytes : List ℕ) (rest : List Frame)
    → Partial decoder message bytes
    → length bytes + length (concat (p ∷ ps)) ≤ max_message_bytes
    → receive decoder (close_last (map (more_frame message) (p ∷ ps)) ++ rest)
      ≡ ok (message, bytes ++ concat (p ∷ ps))
unfolding close_last concat delivered
receive-pieces message p [] decoder bytes rest part fits =
    receive-step decoder _ rest (delivered false (message, bytes ++ p)) (
      push-Partial message 0 decoder bytes p (omega arith) part
        (omega (arith, length-append p (concat {A = ℕ} []))))
    ∙ ap (λ l. ok (message, bytes ++ l)) (sym (append-nil p))
receive-pieces message p (q ∷ qs) decoder bytes rest part fits =
    receive-step decoder (more_frame message p) _ (delivered true (message, bytes ++ p)) (
      push-Partial message 1 decoder bytes p (omega arith) part
        (omega (arith, length-append p (concat (q ∷ qs)))))
    ∙ receive-pieces message q qs (some (message, bytes ++ p)) (bytes ++ p) rest
        (Partial-some message (bytes ++ p))
        (omega (arith, length-append p (concat (q ∷ qs)), length-append bytes p))
    ∙ ap (λ l. ok (message, l)) (append_assoc bytes p (concat (q ∷ qs)))

receive-or_single :
    (message : Message) (payload : List ℕ) (ps : List (List ℕ)) (rest : List Frame)
    → length payload ≤ max_message_bytes
    → concat ps ≡ payload
    → receive none (or_single message payload (map (more_frame message) ps) ++ rest)
      ≡ ok (message, payload)
unfolding or_single concat delivered
receive-or_single message payload [] rest fits whole =
    receive-step none _ rest (delivered false (message, payload))
      (push-Partial message 0 none [] payload (omega arith) (Partial-none message) (omega arith))
receive-or_single message payload (p ∷ ps) rest fits whole =
    receive-pieces message p ps none [] rest (Partial-none message) (omega (arith, ap length whole))
    ∙ ap (λ l. ok (message, l)) whole

-- A message of at most the limit that is cut into frames of any positive size is read back whole,
-- whatever follows it.
pub receive-frames :
    (size : ℕ) (message : Message) (payload : List ℕ) (rest : List Frame)
    → 0 < size
    → length payload ≤ max_message_bytes
    → receive none (frames size message payload ++ rest) ≡ ok (message, payload)
unfolding frames
receive-frames size message payload rest pos fits =
    receive-or_single message payload (chunks size payload) rest fits
      (concat-chunks size payload pos)

abbrev pub Within : ℕ → Frame → Type 0
Within size frame = length frame.payload ≤ size

close_last-Within :
    (size : ℕ) (fs : List Frame) → All (Within size) fs → All (Within size) (close_last fs)
unfolding close_last
close_last-Within size [] h = tt
close_last-Within size (f ∷ []) h = h
close_last-Within size (f ∷ g ∷ fs) (here, h) = (here, close_last-Within size (g ∷ fs) h)

map-Within :
    (size : ℕ) (message : Message) (ps : List (List ℕ))
    → All (λ p. length p ≤ size) ps
    → All (Within size) (map (more_frame message) ps)
map-Within size message [] h = tt
map-Within size message (p ∷ ps) (here, h) = (here, map-Within size message ps h)

or_single-Within :
    (size : ℕ) (message : Message) (payload : List ℕ) (ps : List (List ℕ))
    → concat ps ≡ payload
    → All (λ p. length p ≤ size) ps
    → All (Within size) (or_single message payload (map (more_frame message) ps))
unfolding or_single concat
or_single-Within size message payload [] whole h = (omega (arith, ap length whole), tt)
or_single-Within size message payload (p ∷ ps) whole h =
    close_last-Within size (map (more_frame message) (p ∷ ps)) (map-Within size message (p ∷ ps) h)

-- No frame of a message carries more than the size allows.
pub frames-Within :
    (size : ℕ) (message : Message) (payload : List ℕ)
    → 0 < size
    → All (Within size) (frames size message payload)
unfolding frames
frames-Within size message payload pos =
    or_single-Within size message payload (chunks size payload) (concat-chunks size payload pos)
      (chunks-bound size payload)
