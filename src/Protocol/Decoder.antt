-- ===== src/Protocol/Decoder.antt =====
-- crates/protocol/src/p2p.rs: `MessageDecoder`, which joins the frames of a message.
use p2p_spendability_pir.Common.{
  ℕ, ◌+◌, ◌-◌, ◌*◌, ◌≤◌, ◌≡◌, ap, ◌∙◌, List, ◌++◌, Option, none, some, Bool, true, false, not, ltb,
  ◌==◌, length, length-append, ltb→le, le→ltb, subst, arith,
}
use p2p_spendability_pir.Common.Run.{Run, ok, ◌>>=◌, ◌>>◌, fail_if, fail_if-ok, bind-ok}
use p2p_spendability_pir.Protocol.Message.{
  Message, P2pError, invalid_flags, message_type_changed, message_too_large, try_from, same_message,
}

abbrev pub frame_flag_more : ℕ
frame_flag_more = 1

abbrev pub max_message_bytes : ℕ
max_message_bytes = 8 * 1024 * 1024

-- the message whose frames are arriving, with the bytes so far
abbrev pub MessageDecoder : Type 0
MessageDecoder = Option (Message × List ℕ)

unfoldable pub changed : MessageDecoder → Message → Bool
changed none message = false
changed (some (current, payload)) message = not (same_message current message)

unfoldable pub current_len : MessageDecoder → ℕ
current_len none = 0
current_len (some (current, payload)) = length payload

-- `get_or_insert((message_type, Vec::new()))` and `extend`
unfoldable pub extended : MessageDecoder → Message → List ℕ → Message × List ℕ
extended none message payload = (message, payload)
extended (some (current, combined)) message payload = (current, combined ++ payload)

-- `(!more).then(|| self.0.take())`
unfoldable pub delivered : Bool → Message × List ℕ → Option (Message × List ℕ) × MessageDecoder
delivered true combined = (none, some combined)
delivered false combined = (some combined, none)

-- what `push` does once it knows the message
unfoldable pub push_message :
    ℕ
    → List ℕ
    → MessageDecoder
    → Message
    → Run P2pError (Option (Message × List ℕ) × MessageDecoder)
push_message flags payload decoder message = do
  fail_if (changed decoder message) message_type_changed
  fail_if (ltb (max_message_bytes - current_len decoder) (length payload)) message_too_large
  ok (delivered (flags == frame_flag_more) (extended decoder message payload))

-- An error leaves the decoder as it is.
unfoldable pub push :
    ℕ → ℕ → List ℕ → MessageDecoder → Run P2pError (Option (Message × List ℕ) × MessageDecoder)
push message_type flags payload decoder = do
  fail_if (ltb frame_flag_more flags) (invalid_flags flags)
  message ← try_from message_type
  push_message flags payload decoder message

abbrev pub Bounded : MessageDecoder → Type 0
Bounded decoder = current_len decoder ≤ max_message_bytes

extended-bound :
    (decoder : MessageDecoder) (message : Message) (payload : List ℕ)
    → length (extended decoder message payload).1 ≡ current_len decoder + length payload
unfolding extended current_len
extended-bound none message payload = omega arith
extended-bound (some (current, combined)) message payload = length-append combined payload

pub push-steps :
    (message_type flags : ℕ) (payload : List ℕ) (decoder : MessageDecoder) (message : Message)
    → flags ≤ 1
    → try_from message_type ≡ ok message
    → changed decoder message ≡ false
    → current_len decoder + length payload ≤ max_message_bytes
    → push message_type flags payload decoder
      ≡ ok (delivered (flags == frame_flag_more) (extended decoder message payload))
unfolding push push_message
push-steps message_type flags payload decoder message known number same fits =
    ap
      (λ b.
        fail_if b (invalid_flags flags)
        >> (try_from message_type >>= push_message flags payload decoder))
      (le→ltb frame_flag_more flags known)
    ∙ ap (λ r. r >>= push_message flags payload decoder) number
    ∙ ap
        (λ b.
          fail_if b message_type_changed
          >> (fail_if (ltb (max_message_bytes - current_len decoder) (length payload))
                message_too_large
              >> ok (delivered (flags == frame_flag_more) (extended decoder message payload))))
        same
    ∙ ap
        (λ b.
          fail_if b message_too_large
          >> ok (delivered (flags == frame_flag_more) (extended decoder message payload)))
        (le→ltb (max_message_bytes - current_len decoder) (length payload) (omega arith))

delivered-Bounded :
    (more : Bool) (combined : Message × List ℕ) (delivery : Option (Message × List ℕ))
    (decoder' : MessageDecoder)
    → length combined.1 ≤ max_message_bytes
    → delivered more combined ≡ (delivery, decoder')
    → Bounded decoder' × Bounded delivery
unfolding delivered current_len
delivered-Bounded true combined delivery decoder' le e =
    (subst Bounded (ap (λ p. p.1) e) le, subst Bounded (ap (λ p. p.0) e) (omega arith))
delivered-Bounded false combined delivery decoder' le e =
    (subst Bounded (ap (λ p. p.1) e) (omega arith), subst Bounded (ap (λ p. p.0) e) le)

push_message-Bounded :
    (flags : ℕ) (payload : List ℕ) (decoder decoder' : MessageDecoder) (message : Message)
    (delivery : Option (Message × List ℕ))
    → Bounded decoder
    → push_message flags payload decoder message ≡ ok (delivery, decoder')
    → Bounded decoder' × Bounded delivery
unfolding push_message
push_message-Bounded flags payload decoder decoder' message delivery bound runs =
    let (same, later) = fail_if-ok (changed decoder message) message_type_changed _ _ runs in
    let (fits, delivers) =
      fail_if-ok (ltb (max_message_bytes - current_len decoder) (length payload)) message_too_large
        _ _ later in
    delivered-Bounded (flags == frame_flag_more) (extended decoder message payload) delivery
      decoder' (omega (arith, bound, ltb→le _ _ fits, extended-bound decoder message payload))
      (ground (arith, delivers))

-- A decoder never holds more than the limit, and delivers no more, whatever frames arrive.
pub push-Bounded :
    (message_type flags : ℕ) (payload : List ℕ) (decoder decoder' : MessageDecoder)
    (delivery : Option (Message × List ℕ))
    → Bounded decoder
    → push message_type flags payload decoder ≡ ok (delivery, decoder')
    → Bounded decoder' × Bounded delivery
unfolding push
push-Bounded message_type flags payload decoder decoder' delivery bound runs =
    let (known, later) = fail_if-ok (ltb frame_flag_more flags) (invalid_flags flags) _ _ runs in
    let (message, number, pushes) =
      bind-ok (try_from message_type) (push_message flags payload decoder) _ later in
    push_message-Bounded flags payload decoder decoder' message delivery bound pushes
