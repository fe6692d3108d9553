-- ===== src/Server/P2p/Answers.antt =====
-- What a client gets from the service: both ends of a request joined.
use p2p_spendability_pir.Common.{
  ℕ, ◌+◌, ◌<◌, ◌≤◌, ◌≡◌, sym, ap, ◌∙◌, inl, inr, List, [], ◌∷◌, ◌++◌, append-nil, append_assoc, map,
  Option, none, some, Bool, true, false, not, length, length-append, concat, chunks, concat-chunks,
  if◌then◌else◌, ==_refl, arith,
}
use p2p_spendability_pir.Common.Run.{Run, ok, err, panic, ◌>>=◌, ◌>>◌, fail_if, ok_or}
use p2p_spendability_pir.Protocol.Message.{
  Message, health_req, nullifier_metadata_req, nullifier_params_req, nullifier_query_req,
  witness_metadata_req, witness_broadcast_req, witness_params_req, witness_query_req, err_res,
  P2pError, to_u16, response, same_message,
}
use p2p_spendability_pir.Protocol.Decoder.{MessageDecoder, push, delivered, max_message_bytes}
use p2p_spendability_pir.Client.P2p.{
  Frame, P2pClientError, remote, protocol, bad_json, unexpected, invalid_request, close_last,
  more_frame, or_single, frames, answer_of, exchange,
}
use p2p_spendability_pir.Client.P2p.Frames.{
  Partial, Partial-none, Partial-some, push-Partial, receive-frames,
}
use p2p_spendability_pir.Server.P2p.{
  Result, and_then, P2pPirService, reject_local, frame, finish, after_forward, after_push, serve,
}
use p2p_spendability_pir.Server.P2p.Forwarded.{
  answer, framed, some_injective, Allowed, forward-answer,
}

module _ (size : ℕ) (serialize : P2pError → Option (List ℕ)) (service : P2pPirService) where
  serve-step :
      (decoder : MessageDecoder) (request : Frame) (arriving : List Frame)
      (pushed : Option (Message × List ℕ) × MessageDecoder)
      → push request.message_type request.flags request.payload decoder ≡ ok pushed
      → serve size serialize service decoder (request ∷ arriving)
        ≡ after_push size serialize service pushed.0
            (serve size serialize service pushed.1 arriving)
  unfolding serve
  serve-step decoder request arriving pushed runs =
      ap
        (λ step. elim step as (λ _. List Frame × Bool) [
          | err e ↦ ([], true)
          | panic ↦ ([], false)
          | ok pushed ↦
              after_push size serialize service pushed.0
                (serve size serialize service pushed.1 arriving)
        ])
        runs

  serve-pieces :
      (message : Message) (p : List ℕ) (ps : List (List ℕ)) (decoder : MessageDecoder)
      (bytes : List ℕ)
      → Partial decoder message bytes
      → length bytes + length (concat (p ∷ ps)) ≤ max_message_bytes
      → serve size serialize service decoder (close_last (map (more_frame message) (p ∷ ps)))
        ≡ after_push size serialize service (some (message, bytes ++ concat (p ∷ ps))) ([], false)
  unfolding close_last concat delivered after_push serve
  serve-pieces message p [] decoder bytes part fits =
      serve-step decoder _ [] (delivered false (message, bytes ++ p)) (
        push-Partial message 0 decoder bytes p (omega arith) part
          (omega (arith, length-append p (concat {A = ℕ} []))))
      ∙ ap (λ l. after_push size serialize service (some (message, bytes ++ l)) ([], false))
          (sym (append-nil p))
  serve-pieces message p (q ∷ qs) decoder bytes part fits =
      serve-step decoder (more_frame message p) _ (delivered true (message, bytes ++ p)) (
        push-Partial message 1 decoder bytes p (omega arith) part
          (omega (arith, length-append p (concat (q ∷ qs)))))
      ∙ serve-pieces message q qs (some (message, bytes ++ p)) (bytes ++ p)
          (Partial-some message (bytes ++ p))
          (omega (arith, length-append p (concat (q ∷ qs)), length-append bytes p))
      ∙ ap (λ l. after_push size serialize service (some (message, l)) ([], false))
          (append_assoc bytes p (concat (q ∷ qs)))

  serve-or_single :
      (message : Message) (payload : List ℕ) (ps : List (List ℕ))
      → length payload ≤ max_message_bytes
      → concat ps ≡ payload
      → serve size serialize service none (or_single message payload (map (more_frame message) ps))
        ≡ after_push size serialize service (some (message, payload)) ([], false)
  unfolding or_single concat delivered after_push serve
  serve-or_single message payload [] fits whole =
      serve-step none _ [] (delivered false (message, payload))
        (push-Partial message 0 none [] payload (omega arith) (Partial-none message) (omega arith))
  serve-or_single message payload (p ∷ ps) fits whole =
      serve-pieces message p ps none [] (Partial-none message) (omega (arith, ap length whole))
      ∙ ap (λ l. after_push size serialize service (some (message, l)) ([], false)) whole

-- what a client makes of an answer
abbrev pub as_client : Result P2pError (List ℕ) → Run P2pClientError (List ℕ)
as_client (inl e) = err (remote e)
as_client (inr bytes) = ok bytes

-- An answer fits a message, and an error is read back from its JSON.
abbrev pub Sendable :
    (P2pError → Option (List ℕ)) → (List ℕ → Option P2pError) → Result P2pError (List ℕ) → Type 0
Sendable serialize parse (inl e) =
    (text : List ℕ) × (serialize e ≡ some text)
    × (parse text ≡ some e)
    × (length text ≤ max_message_bytes)
Sendable serialize parse (inr bytes) = length bytes ≤ max_message_bytes

no_error_reply :
    (message reply : Message) → response message ≡ some reply → same_message reply err_res ≡ false
unfolding response to_u16
no_error_reply health_req reply e = ap (λ m. same_message m err_res) (sym (some_injective e))
no_error_reply nullifier_metadata_req reply e =
    ap (λ m. same_message m err_res) (sym (some_injective e))
no_error_reply nullifier_params_req reply e =
    ap (λ m. same_message m err_res) (sym (some_injective e))
no_error_reply nullifier_query_req reply e =
    ap (λ m. same_message m err_res) (sym (some_injective e))
no_error_reply witness_metadata_req reply e =
    ap (λ m. same_message m err_res) (sym (some_injective e))
no_error_reply witness_broadcast_req reply e =
    ap (λ m. same_message m err_res) (sym (some_injective e))
no_error_reply witness_params_req reply e =
    ap (λ m. same_message m err_res) (sym (some_injective e))
no_error_reply witness_query_req reply e = ap (λ m. same_message m err_res) (sym (some_injective e))
no_error_reply _ reply e = absurd (cc)

answer_of-reply :
    (parse : List ℕ → Option P2pError) (message reply : Message) (bytes : List ℕ)
    → response message ≡ some reply
    → answer_of parse message (reply, bytes) ≡ ok bytes
unfolding answer_of
answer_of-reply parse message reply bytes known =
    ap
      (λ b.
        if b
        then (ok_or (protocol bad_json) (parse bytes) >>= λ e. err (remote e))
        else (ok_or (invalid_request message) (response message) >>= λ expected.
            fail_if (not (same_message reply expected)) (protocol (unexpected expected reply))
            >> ok bytes))
      (no_error_reply message reply known)
    ∙ ap
        (λ o. ok_or (invalid_request message) o >>= λ expected.
          fail_if (not (same_message reply expected)) (protocol (unexpected expected reply))
          >> ok bytes)
        known
    ∙ ap (λ b. fail_if (not b) (protocol (unexpected reply reply)) >> ok bytes)
        (==_refl (to_u16 reply))

exchange-after_forward :
    (size : ℕ) (serialize : P2pError → Option (List ℕ)) (parse : List ℕ → Option P2pError)
    (message reply : Message) (result : Result P2pError (List ℕ))
    → 0 < size
    → response message ≡ some reply
    → Sendable serialize parse result
    → exchange parse message
        (after_forward size (finish size serialize (framed size reply result)) ([], false)).0
      ≡ as_client result
unfolding exchange answer_of framed and_then finish after_forward frame frames to_u16
exchange-after_forward size serialize parse message reply (inl e) pos known
      (text, writes, reads, fits) =
    ap
      (λ o.
        exchange parse message
          (after_forward size (ok_or reject_local o >>= λ p. ok (frame size p err_res))
            ([], false)).0)
      writes
    ∙ ap (λ r. r >>= answer_of parse message) (receive-frames size err_res text [] pos fits)
    ∙ ap (λ o. ok_or (protocol bad_json) o >>= λ e'. err (remote e')) reads
exchange-after_forward size serialize parse message reply (inr bytes) pos known fits =
    ap (λ r. r >>= answer_of parse message) (receive-frames size reply bytes [] pos fits)
    ∙ answer_of-reply parse message reply bytes known

-- A request of at most the limit that the service allows is answered: the client reads exactly
-- the answer of the service to its payload, or the error that the service met, whatever the size
-- of the frames.
pub exchange-serve :
    (size : ℕ) (serialize : P2pError → Option (List ℕ)) (parse : List ℕ → Option P2pError)
    (service : P2pPirService) (message reply : Message) (payload : List ℕ)
    → 0 < size
    → response message ≡ some reply
    → Allowed message payload
    → length payload ≤ max_message_bytes
    → Sendable serialize parse (answer service message payload)
    → exchange parse message (serve size serialize service none (frames size message payload)).0
      ≡ as_client (answer service message payload)
unfolding frames after_push
exchange-serve size serialize parse service message reply payload pos known allowed fits sendable =
    ap (λ s. exchange parse message s.0)
      (serve-or_single size serialize service message payload (chunks size payload) fits
        (concat-chunks size payload pos))
    ∙ (ap (λ r. exchange parse message (after_forward size r ([], false)).0)
        (forward-answer size serialize service message reply payload known allowed))
    ∙ exchange-after_forward size serialize parse message reply (answer service message payload) pos
        known sendable
