-- ===== src/Protocol/Message.antt =====
-- crates/protocol/src/p2p.rs: the messages, their numbers and the errors.
use p2p_spendability_pir.Common.{
  ℕ, ◌≡◌, refl, List, [], ◌∷◌, Option, none, some, Bool, ◌==◌, get_elem?,
}
use p2p_spendability_pir.Common.Run.{Run, ok, ok_or}

-- The texts that the last two errors carry are bytes.
pub data P2pError : Type 0 where
  invalid_message_type : ℕ → P2pError
  invalid_flags : ℕ → P2pError
  message_type_changed : P2pError
  message_too_large : P2pError
  service_unavailable : P2pError
  serde_error : List ℕ → P2pError
  query_error : List ℕ → P2pError

pub data Message : Type 0 where
  health_req : Message
  nullifier_metadata_req : Message
  nullifier_params_req : Message
  nullifier_query_req : Message
  witness_metadata_req : Message
  witness_broadcast_req : Message
  witness_params_req : Message
  witness_query_req : Message
  health_res : Message
  nullifier_metadata_res : Message
  nullifier_params_res : Message
  nullifier_query_res : Message
  witness_metadata_res : Message
  witness_broadcast_res : Message
  witness_params_res : Message
  witness_query_res : Message
  err_res : Message

unfoldable pub response : Message → Option Message
response health_req = some health_res
response nullifier_metadata_req = some nullifier_metadata_res
response nullifier_params_req = some nullifier_params_res
response nullifier_query_req = some nullifier_query_res
response witness_metadata_req = some witness_metadata_res
response witness_broadcast_req = some witness_broadcast_res
response witness_params_req = some witness_params_res
response witness_query_req = some witness_query_res
response _ = none

-- `message as u16`
unfoldable pub to_u16 : Message → ℕ
to_u16 health_req = 0
to_u16 nullifier_metadata_req = 1
to_u16 nullifier_params_req = 2
to_u16 nullifier_query_req = 3
to_u16 witness_metadata_req = 4
to_u16 witness_broadcast_req = 5
to_u16 witness_params_req = 6
to_u16 witness_query_req = 7
to_u16 health_res = 8
to_u16 nullifier_metadata_res = 9
to_u16 nullifier_params_res = 10
to_u16 nullifier_query_res = 11
to_u16 witness_metadata_res = 12
to_u16 witness_broadcast_res = 13
to_u16 witness_params_res = 14
to_u16 witness_query_res = 15
to_u16 err_res = 16

unfoldable pub messages : List Message
messages =
    health_req ∷ nullifier_metadata_req ∷ nullifier_params_req ∷ nullifier_query_req
    ∷ witness_metadata_req ∷ witness_broadcast_req ∷ witness_params_req ∷ witness_query_req
    ∷ health_res ∷ nullifier_metadata_res ∷ nullifier_params_res ∷ nullifier_query_res
    ∷ witness_metadata_res ∷ witness_broadcast_res ∷ witness_params_res ∷ witness_query_res
    ∷ err_res ∷ []

unfoldable pub try_from : ℕ → Run P2pError Message
try_from value = ok_or (invalid_message_type value) (get_elem? messages value)

-- the derived equality
abbrev pub same_message : Message → Message → Bool
same_message a b = to_u16 a == to_u16 b

pub try_from-to_u16 : (m : Message) → try_from (to_u16 m) ≡ ok m
unfolding try_from to_u16 messages
try_from-to_u16 health_req = refl
try_from-to_u16 nullifier_metadata_req = refl
try_from-to_u16 nullifier_params_req = refl
try_from-to_u16 nullifier_query_req = refl
try_from-to_u16 witness_metadata_req = refl
try_from-to_u16 witness_broadcast_req = refl
try_from-to_u16 witness_params_req = refl
try_from-to_u16 witness_query_req = refl
try_from-to_u16 health_res = refl
try_from-to_u16 nullifier_metadata_res = refl
try_from-to_u16 nullifier_params_res = refl
try_from-to_u16 nullifier_query_res = refl
try_from-to_u16 witness_metadata_res = refl
try_from-to_u16 witness_broadcast_res = refl
try_from-to_u16 witness_params_res = refl
try_from-to_u16 witness_query_res = refl
try_from-to_u16 err_res = refl
