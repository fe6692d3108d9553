-- ===== src/Tests/P2p.antt =====
-- Runs of the peer-to-peer exchange on concrete inputs.
use p2p_spendability_pir.Common.{
  true, ℕ, ◌≡◌, refl, inr, List, [], ◌∷◌, ◌++◌, Option, none, some, ◌==◌, if◌then◌else◌, arith,
}
use p2p_spendability_pir.Common.Run.{ok}
use p2p_spendability_pir.Protocol.Message.{
  nullifier_query_req, nullifier_query_res, witness_query_req, witness_query_res, try_from,
  messages, P2pError, service_unavailable, response,
}
use p2p_spendability_pir.Protocol.Decoder.{
  push, push_message, changed, current_len, extended, delivered, push-Bounded, Bounded,
}
use p2p_spendability_pir.Client.P2p.{frames, receive, exchange}
use p2p_spendability_pir.Client.P2p.Frames.{receive-frames}
use p2p_spendability_pir.Server.P2p.{P2pPirService, serve, wants_empty, live, and_then, map_err}
use p2p_spendability_pir.Client.P2p.Sessions.{
  Event, peer_added, generation_ended, Agrees, run, new, add_peer, remove_generation, is_older,
  run-Agrees, remove_generation-add_peer,
}
use p2p_spendability_pir.Server.P2p.Forwarded.{answer}
use p2p_spendability_pir.Server.P2p.Answers.{as_client, exchange-serve}

-- an engine that answers with the query twice, and a witness subsystem that is not up
abbrev service : P2pPirService
service = record {
  health_response = inr [];
  spend_state = record {
    live_pir =
        some (record { metadata = inr []; broadcast = inr []; answer_query = λ q. inr (q ++ q) });
    scenario = inr [];
  };
  witness_state = record { live_pir = none; scenario = inr [] };
}

abbrev serialize : P2pError → Option (List ℕ)
serialize service_unavailable = some (7 ∷ [])
serialize _ = none

abbrev parse : List ℕ → Option P2pError
parse (tag ∷ []) = if tag == 7 then some service_unavailable else none
parse _ = none

abbrev query_bytes : List ℕ
query_bytes = 1 ∷ 2 ∷ 3 ∷ []

exchange-serve_example :
    exchange parse nullifier_query_req
      (serve 2 serialize service none (frames 2 nullifier_query_req query_bytes)).0
    ≡ as_client (answer service nullifier_query_req query_bytes)
exchange-serve_example =
    exchange-serve 2 serialize parse service nullifier_query_req nullifier_query_res query_bytes
      (omega arith) (unfold response in refl) (unfold wants_empty in refl) (omega arith)
      (unfold answer live and_then map_err in (omega arith))

-- the subsystem that is not up answers with the error
exchange_error_run :
    exchange parse witness_query_req
      (serve 2 serialize service none (frames 2 witness_query_req query_bytes)).0
    ≡ as_client (answer service witness_query_req query_bytes)
exchange_error_run =
    exchange-serve 2 serialize parse service witness_query_req witness_query_res query_bytes
      (omega arith) (unfold response in refl) (unfold wants_empty in refl) (omega arith)
      (unfold answer live and_then map_err in (7 ∷ [], refl, refl, omega arith))

receive-frames_example :
    receive none (frames 2 nullifier_query_req query_bytes ++ [])
    ≡ ok (nullifier_query_req, query_bytes)
receive-frames_example =
    receive-frames 2 nullifier_query_req query_bytes [] (omega arith) (omega arith)

pushed_run : push 3 1 query_bytes none ≡ ok (none, some (nullifier_query_req, query_bytes))
unfolding push push_message try_from messages changed current_len extended delivered
pushed_run = refl

push-Bounded_example : Bounded (some (nullifier_query_req, query_bytes)) × Bounded none
push-Bounded_example =
    push-Bounded 3 1 query_bytes none (some (nullifier_query_req, query_bytes)) none
      (unfold current_len in omega arith) pushed_run

-- a peer with an older connection comes back, and a newer one takes over
abbrev comings : List Event
comings =
    peer_added true (1 ∷ []) 4
    ∷ peer_added true (2 ∷ []) 3
    ∷ peer_added true (2 ∷ []) 6
    ∷ generation_ended (1 ∷ []) 4
    ∷ []

run-Agrees_example : Agrees (run comings new)
run-Agrees_example = run-Agrees comings

remove_generation-add_peer_example :
    remove_generation (1 ∷ []) 4 (add_peer true (2 ∷ []) 6 new) ≡ add_peer true (2 ∷ []) 6 new
remove_generation-add_peer_example =
    remove_generation-add_peer (1 ∷ []) (2 ∷ []) 4 6 new (omega arith) (unfold new is_older in refl)
