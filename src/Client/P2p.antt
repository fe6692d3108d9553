-- ===== src/Client/P2p.antt =====
-- crates/client/src/p2p.rs: the frames of a request, and the exchange with the server. The cap on
-- a frame, the JSON of an error and the stream itself belong to other crates: they are arguments.
pub mod Frames
pub mod Sessions
use p2p_spendability_pir.Common.{
  ℕ, ◌-◌, List, [], ◌∷◌, map, if◌then◌else◌, Option, none, some, not, ltb, length, chunks,
}
use p2p_spendability_pir.Common.Run.{Run, ok, err, panic, ◌>>=◌, ◌>>◌, fail_if, ok_or}
use p2p_spendability_pir.Protocol.Message.{
  Message, P2pError, message_too_large, err_res, response, to_u16, same_message,
}
use p2p_spendability_pir.Protocol.Decoder.{MessageDecoder, push, frame_flag_more, max_message_bytes}

pub record Frame : Type 0 where
  pub message_type : ℕ
  pub flags : ℕ
  pub payload : List ℕ

-- what the texts of the errors are made of
pub data Detail : Type 0 where
  frame_error : P2pError → Detail
  bad_json : Detail
  unexpected : Message → Message → Detail

pub data P2pClientError : Type 0 where
  disconnected : P2pClientError
  timeout : P2pClientError
  invalid_request : Message → P2pClientError
  protocol : Detail → P2pClientError
  remote : P2pError → P2pClientError

-- `frames.last_mut()`, where there is one: its flags are cleared
unfoldable pub close_last : List Frame → List Frame
close_last [] = []
close_last (frame ∷ []) = record frame { flags = 0 } ∷ []
close_last (frame ∷ next ∷ frames) = frame ∷ close_last (next ∷ frames)

abbrev pub more_frame : Message → List ℕ → Frame
more_frame message payload = record {
  message_type = to_u16 message;
  flags = frame_flag_more;
  payload = payload;
}

unfoldable pub or_single : Message → List ℕ → List Frame → List Frame
or_single message payload [] =
    record { message_type = to_u16 message; flags = 0; payload = payload } ∷ []
or_single message payload (frame ∷ frames) = close_last (frame ∷ frames)

-- `frame_payload_bytes` is `LOCAL_MAX_CONTROL_FRAME_BYTES - 8`.
unfoldable pub frames : ℕ → Message → List ℕ → List Frame
frames frame_payload_bytes message payload =
    or_single message payload (map (more_frame message) (chunks frame_payload_bytes payload))

-- The loop that reads until a message is complete, on the frames that arrive before the stream
-- closes.
unfoldable pub receive : MessageDecoder → List Frame → Run P2pClientError (Message × List ℕ)
receive decoder [] = err disconnected
receive decoder (frame ∷ arriving) =
    let step = push frame.message_type frame.flags frame.payload decoder in
    elim step [
      | err e ↦ err (protocol (frame_error e))
      | panic ↦ panic
      | ok pushed ↦ elim pushed.0 [ some message ↦ ok message | none ↦ receive pushed.1 arriving ]
    ]

-- what `exchange` makes of the message that it received
unfoldable pub answer_of :
    (List ℕ → Option P2pError) → Message → Message × List ℕ → Run P2pClientError (List ℕ)
answer_of parse_error request (received, payload) =
    if same_message received err_res
    then (ok_or (protocol bad_json) (parse_error payload) >>= λ e. err (remote e))
    else (do
      expected ← ok_or (invalid_request request) (response request)
      fail_if (not (same_message received expected)) (protocol (unexpected expected received))
      ok payload)

-- After the frames of the request were sent. `arriving` are the frames that the server sends.
unfoldable pub exchange :
    (List ℕ → Option P2pError) → Message → List Frame → Run P2pClientError (List ℕ)
exchange parse_error request arriving = do
  message ← receive none arriving
  answer_of parse_error request message
