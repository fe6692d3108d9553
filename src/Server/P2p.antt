-- ===== src/Server/P2p.antt =====
-- crates/server/src/p2p.rs: what the peer-to-peer service answers. The JSON of a value and the
-- answer of the PIR engine belong to other crates: they are fields and arguments, with their
-- failures.

pub mod Forwarded
pub mod Answers
use p2p_spendability_pir.Common.{
  ℕ, List, [], ◌∷◌, ◌++◌, map, ◌⊎◌, inl, inr, Option, none, some, Bool, true, false, not, ◌&&◌,
  ◌==◌, leb, length, chunks,
}
use p2p_spendability_pir.Common.Run.{Run, ok, err, panic, ◌>>=◌, ◌>>◌, fail_if, ok_or}
use p2p_spendability_pir.Protocol.Message.{
  Message, health_req, nullifier_metadata_req, nullifier_params_req, nullifier_query_req,
  witness_metadata_req, witness_broadcast_req, witness_params_req, witness_query_req, health_res,
  nullifier_metadata_res, nullifier_params_res, nullifier_query_res, witness_metadata_res,
  witness_broadcast_res, witness_params_res, witness_query_res, err_res, P2pError,
  service_unavailable, serde_error, query_error, to_u16, try_from,
}
use p2p_spendability_pir.Protocol.Decoder.{MessageDecoder, push}
use p2p_spendability_pir.Client.P2p.{Frame, close_last, more_frame, or_single}

-- `Result`: an error on the left, a value on the right
abbrev pub Result : Type 0 → Type 0 → Type 0
Result E A = E ⊎ A

unfoldable pub map_err : {E F A : Type 0} → (E → F) → Result E A → Result F A
map_err f (inl e) = inl (f e)
map_err f (inr a) = inr a

unfoldable pub and_then : {E A B : Type 0} → Result E A → (A → Result E B) → Result E B
and_then (inl e) f = inl e
and_then (inr a) f = f a

-- `serde_json::to_vec` of a value: its bytes, or the text of the error
abbrev pub Json : Type 0
Json = Result (List ℕ) (List ℕ)

pub record LivePir : Type 0 where
  pub metadata : Json
  pub broadcast : Json
  pub answer_query : List ℕ → Result (List ℕ) (List ℕ)

-- The state of one subsystem; only the witness subsystem is asked for a broadcast.
pub record AppState : Type 0 where
  pub live_pir : Option LivePir
  pub scenario : Json

pub record P2pPirService : Type 0 where
  pub health_response : Json
  pub spend_state : AppState
  pub witness_state : AppState

-- `Protocol` closes the connection, `Local` ends the worker only.
pub data SinkReject : Type 0 where
  reject_protocol : SinkReject
  reject_local : SinkReject

unfoldable pub live : AppState → Result P2pError LivePir
live state = elim state.live_pir [ none ↦ inl service_unavailable | some pir ↦ inr pir ]

-- the requests that must come without a payload
unfoldable pub wants_empty : Message → Bool
wants_empty health_req = true
wants_empty nullifier_metadata_req = true
wants_empty nullifier_params_req = true
wants_empty witness_metadata_req = true
wants_empty witness_broadcast_req = true
wants_empty witness_params_req = true
wants_empty _ = false

unfoldable pub parsed : Run P2pError Message → Run SinkReject Message
parsed (ok message) = ok message
parsed (err e) = err reject_protocol
parsed panic = panic

module _ (frame_payload_bytes : ℕ) where
  unfoldable pub frame : List ℕ → Message → List Frame
  frame payload msg_type =
      or_single msg_type payload (map (more_frame msg_type) (chunks frame_payload_bytes payload))

  unfoldable pub to_json_frame : Json → Message → Result P2pError (List Frame)
  to_json_frame value msg_type =
      and_then (map_err serde_error value) λ payload. inr (frame payload msg_type)

  unfoldable pub query : AppState → List ℕ → Message → Result P2pError (List Frame)
  query state payload msg_type = and_then (live state) λ pir.
      and_then (map_err query_error (pir.answer_query payload)) λ bytes. inr (frame bytes msg_type)

  -- `match message`, with the handlers of the requests in place
  unfoldable pub dispatch :
      P2pPirService → Message → List ℕ → Run SinkReject (Result P2pError (List Frame))
  dispatch service health_req payload = ok (to_json_frame service.health_response health_res)
  dispatch service nullifier_metadata_req payload =
      ok (
        and_then (live service.spend_state)
          λ pir. to_json_frame pir.metadata nullifier_metadata_res)
  dispatch service nullifier_params_req payload =
      ok (to_json_frame service.spend_state.scenario nullifier_params_res)
  dispatch service nullifier_query_req payload =
      ok (query service.spend_state payload nullifier_query_res)
  dispatch service witness_metadata_req payload =
      ok (
        and_then (live service.witness_state)
          λ pir. to_json_frame pir.metadata witness_metadata_res)
  dispatch service witness_broadcast_req payload = ok (
      and_then (live service.witness_state)
        λ pir. to_json_frame pir.broadcast witness_broadcast_res)
  dispatch service witness_params_req payload =
      ok (to_json_frame service.witness_state.scenario witness_params_res)
  dispatch service witness_query_req payload =
      ok (query service.witness_state payload witness_query_res)
  dispatch service _ payload = err reject_protocol

  -- `serialize` is `serde_json::to_vec` of an error, where it succeeds.
  unfoldable pub finish :
      (P2pError → Option (List ℕ)) → Result P2pError (List Frame) → Run SinkReject (List Frame)
  finish serialize (inr frames) = ok frames
  finish serialize (inl e) = do
    payload ← ok_or reject_local (serialize e)
    ok (frame payload err_res)

  unfoldable pub forward_message :
      (P2pError → Option (List ℕ)) → P2pPirService → List ℕ → Message → Run SinkReject (List Frame)
  forward_message serialize service payload message = do
    fail_if (not (length payload == 0) && wants_empty message) reject_protocol
    result ← dispatch service message payload
    finish serialize result

  unfoldable pub forward :
      (P2pError → Option (List ℕ)) → P2pPirService → Frame → Run SinkReject (List Frame)
  forward serialize service request = do
    fail_if (not (request.flags == 0)) reject_protocol
    message ← parsed (try_from request.message_type)
    forward_message serialize service request.payload message

  -- what the worker does with the outcome of `forward`, and what it does on the later frames
  unfoldable pub after_forward : Run SinkReject (List Frame) → List Frame × Bool → List Frame × Bool
  after_forward (ok responses) (sent, cancelled) = (responses ++ sent, cancelled)
  after_forward (err reject_protocol) later = ([], true)
  after_forward (err reject_local) later = ([], false)
  after_forward panic later = ([], false)

  unfoldable pub after_push :
      (P2pError → Option (List ℕ))
      → P2pPirService
      → Option (Message × List ℕ)
      → List Frame × Bool
      → List Frame × Bool
  after_push serialize service none later = later
  after_push serialize service (some (message, payload)) later =
      after_forward
        (forward serialize service
          (record { message_type = to_u16 message; flags = 0; payload = payload }))
        later

  -- The worker of a peer on the frames that arrive before the stream closes: the frames that it
  -- sends, and whether it cancels the connection. All sends succeed.
  unfoldable pub serve :
      (P2pError → Option (List ℕ)) → P2pPirService → MessageDecoder → List Frame → List Frame × Bool
  serve serialize service decoder [] = ([], false)
  serve serialize service decoder (request ∷ arriving) =
      let step = push request.message_type request.flags request.payload decoder in
      elim step [
        | err e ↦ ([], true)
        | panic ↦ ([], false)
        | ok pushed ↦
            after_push serialize service pushed.0 (serve serialize service pushed.1 arriving)
      ]
