-- ===== src/Server/P2p/Forwarded.antt =====
-- The answer to a request, as it is forwarded in frames.
use p2p_spendability_pir.Common.{
  ℕ, ◌≡◌, refl, ap, ◌∙◌, inl, inr, List, Option, some, false, not, ◌&&◌, ◌==◌, length,
}
use p2p_spendability_pir.Common.Run.{ok, ◌>>=◌, ◌>>◌, fail_if}
use p2p_spendability_pir.Protocol.Message.{
  Message, health_req, nullifier_metadata_req, nullifier_params_req, nullifier_query_req,
  witness_metadata_req, witness_broadcast_req, witness_params_req, witness_query_req, P2pError,
  service_unavailable, serde_error, query_error, to_u16, try_from-to_u16, response,
}
use p2p_spendability_pir.Client.P2p.{Frame}
use p2p_spendability_pir.Server.P2p.{
  Result, map_err, and_then, P2pPirService, reject_protocol, live, frame, to_json_frame, query,
  dispatch, wants_empty, finish, forward_message, parsed, forward,
}

-- The answer to a request, before it is cut into frames.
unfoldable pub answer : P2pPirService → Message → List ℕ → Result P2pError (List ℕ)
answer service health_req payload = map_err serde_error service.health_response
answer service nullifier_metadata_req payload =
    and_then (live service.spend_state) λ pir. map_err serde_error pir.metadata
answer service nullifier_params_req payload = map_err serde_error service.spend_state.scenario
answer service nullifier_query_req payload =
    and_then (live service.spend_state) λ pir. map_err query_error (pir.answer_query payload)
answer service witness_metadata_req payload =
    and_then (live service.witness_state) λ pir. map_err serde_error pir.metadata
answer service witness_broadcast_req payload =
    and_then (live service.witness_state) λ pir. map_err serde_error pir.broadcast
answer service witness_params_req payload = map_err serde_error service.witness_state.scenario
answer service witness_query_req payload =
    and_then (live service.witness_state) λ pir. map_err query_error (pir.answer_query payload)
answer service _ payload = inl service_unavailable

unfoldable pub framed : ℕ → Message → Result P2pError (List ℕ) → Result P2pError (List Frame)
framed size message result = and_then result λ bytes. inr (frame size bytes message)

pub and_then_assoc :
    {E A B C : Type 0} (r : Result E A) (f : A → Result E B) (g : B → Result E C)
    → and_then r (λ a. and_then (f a) g) ≡ and_then (and_then r f) g
unfolding and_then
and_then_assoc (inl e) f g = refl
and_then_assoc (inr a) f g = refl

pub some_injective : {A : Type 0} {a b : A} → (◌≡◌ {A = Option A} (some a) (some b)) → a ≡ b
some_injective e = cc

pub dispatch-answer :
    (size : ℕ) (service : P2pPirService) (message reply : Message) (payload : List ℕ)
    → response message ≡ some reply
    → dispatch size service message payload
      ≡ ok (framed size reply (answer service message payload))
unfolding response dispatch answer framed to_json_frame query
dispatch-answer size service health_req reply payload e =
    ap (λ m. ok (to_json_frame size service.health_response m)) (some_injective e)
dispatch-answer size service nullifier_metadata_req reply payload e =
    ap ok (and_then_assoc (live service.spend_state) _ _)
    ∙ ap (λ m. ok (framed size m (answer service nullifier_metadata_req payload)))
        (some_injective e)
dispatch-answer size service nullifier_params_req reply payload e =
    ap (λ m. ok (to_json_frame size service.spend_state.scenario m)) (some_injective e)
dispatch-answer size service nullifier_query_req reply payload e =
    ap ok (and_then_assoc (live service.spend_state) _ _)
    ∙ ap (λ m. ok (framed size m (answer service nullifier_query_req payload))) (some_injective e)
dispatch-answer size service witness_metadata_req reply payload e =
    ap ok (and_then_assoc (live service.witness_state) _ _)
    ∙ ap (λ m. ok (framed size m (answer service witness_metadata_req payload))) (some_injective e)
dispatch-answer size service witness_broadcast_req reply payload e =
    ap ok (and_then_assoc (live service.witness_state) _ _)
    ∙ ap (λ m. ok (framed size m (answer service witness_broadcast_req payload))) (some_injective e)
dispatch-answer size service witness_params_req reply payload e =
    ap (λ m. ok (to_json_frame size service.witness_state.scenario m)) (some_injective e)
dispatch-answer size service witness_query_req reply payload e =
    ap ok (and_then_assoc (live service.witness_state) _ _)
    ∙ ap (λ m. ok (framed size m (answer service witness_query_req payload))) (some_injective e)
dispatch-answer size service _ reply payload e = absurd (cc)

-- what the guard on the payload of a request asks for
abbrev pub Allowed : Message → List ℕ → Type 0
Allowed message payload = (not (length payload == 0) && wants_empty message) ≡ false

pub forward-answer :
    (size : ℕ) (serialize : P2pError → Option (List ℕ)) (service : P2pPirService)
    (message reply : Message) (payload : List ℕ)
    → response message ≡ some reply
    → Allowed message payload
    → forward size serialize service
        (record { message_type = to_u16 message; flags = 0; payload = payload })
      ≡ finish size serialize (framed size reply (answer service message payload))
unfolding forward parsed forward_message
forward-answer size serialize service message reply payload is_request allowed =
    ap (λ m. parsed m >>= forward_message size serialize service payload) (try_from-to_u16 message)
    ∙ ap
        (λ b.
          fail_if b reject_protocol
          >> (dispatch size service message payload >>= finish size serialize))
        allowed
    ∙ ap (λ r. r >>= finish size serialize)
        (dispatch-answer size service message reply payload is_request)
