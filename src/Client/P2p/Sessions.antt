-- ===== src/Client/P2p/Sessions.antt =====
-- crates/client/src/p2p.rs, `ClientService`: which connection to a provider is in use. A peer's
-- name is a list of bytes. Tokens are modelled by the connections that were cancelled through them.
use p2p_spendability_pir.Common.{
  ℕ, ◌<◌, ◌≡◌, refl, sym, ap, ◌∙◌, List, [], ◌∷◌, Option, none, some, Bool, true, false, ◌&&◌, leb,
  ◌==◌, if◌then◌else◌, if_intro, bytes_eq, arith,
}

abbrev pub PeerId : Type 0
PeerId = List ℕ

pub record Generation : Type 0 where
  pub peer_id : PeerId
  pub conn_id : ℕ

pub record ClientService : Type 0 where
  pub sessions : Option (PeerId × ℕ)
  pub current : Option Generation
  pub cancelled_workers : List ℕ
  pub cancelled_services : List ℕ

unfoldable pub new : ClientService
new = record { sessions = none; current = none; cancelled_workers = []; cancelled_services = [] }

unfoldable pub is_current : Option Generation → PeerId → ℕ → Bool
is_current none peer conn_id = false
is_current (some current) peer conn_id = bytes_eq current.peer_id peer && current.conn_id == conn_id

unfoldable pub owns_connection_for_peer : PeerId → ℕ → ClientService → Bool
owns_connection_for_peer peer conn_id s = is_current s.current peer conn_id

abbrev pub torn_down : ℕ → ClientService → ClientService
torn_down conn_id s = record s {
  sessions = none;
  current = none;
  cancelled_workers = conn_id ∷ s.cancelled_workers;
}

unfoldable pub remove_generation : PeerId → ℕ → ClientService → ClientService
remove_generation peer conn_id s =
    if is_current s.current peer conn_id then torn_down conn_id s else s

unfoldable pub is_older : Option Generation → ℕ → Bool
is_older none conn_id = false
is_older (some current) conn_id = leb conn_id current.conn_id

-- the worker of the connection that was replaced
unfoldable pub replaced : Option Generation → List ℕ → List ℕ
replaced none cancelled = cancelled
replaced (some old) cancelled = old.conn_id ∷ cancelled

abbrev pub refused : ℕ → ClientService → ClientService
refused conn_id s = record s { cancelled_services = conn_id ∷ s.cancelled_services }

abbrev pub taken_over : PeerId → ℕ → ClientService → ClientService
taken_over peer conn_id s = record s {
  sessions = some (peer, conn_id);
  current = some (record { peer_id = peer; conn_id = conn_id });
  cancelled_workers = replaced s.current s.cancelled_workers;
}

-- `has_stream`: the peer has a stream of the service to take.
unfoldable pub add_peer : Bool → PeerId → ℕ → ClientService → ClientService
add_peer has_stream peer conn_id s =
    if has_stream
    then (if is_older s.current conn_id then refused conn_id s else taken_over peer conn_id s)
    else s

-- What happens to the service: a peer comes, or a worker ends or the peer goes.
pub data Event : Type 0 where
  peer_added : Bool → PeerId → ℕ → Event
  generation_ended : PeerId → ℕ → Event

unfoldable pub step : Event → ClientService → ClientService
step (peer_added has_stream peer conn_id) s = add_peer has_stream peer conn_id s
step (generation_ended peer conn_id) s = remove_generation peer conn_id s

unfoldable pub run : List Event → ClientService → ClientService
run [] s = s
run (e ∷ events) s = run events (step e s)

unfoldable pub session_of : Option Generation → Option (PeerId × ℕ)
session_of none = none
session_of (some g) = some (g.peer_id, g.conn_id)

abbrev pub Agrees : ClientService → Type 0
Agrees s = s.sessions ≡ session_of s.current

step-Agrees : (e : Event) (s : ClientService) → Agrees s → Agrees (step e s)
unfolding step add_peer remove_generation session_of
step-Agrees (peer_added has_stream peer conn_id) s agrees =
    if_intro Agrees has_stream
      (if is_older s.current conn_id then refused conn_id s else taken_over peer conn_id s) s
      (λ _.
        if_intro Agrees (is_older s.current conn_id) (refused conn_id s) (taken_over peer conn_id s)
          (λ _. agrees) (λ _. refl))
      (λ _. agrees)
step-Agrees (generation_ended peer conn_id) s agrees =
    if_intro Agrees (is_current s.current peer conn_id) (torn_down conn_id s) s (λ _. refl)
      (λ _. agrees)

run-Agrees_from : (events : List Event) (s : ClientService) → Agrees s → Agrees (run events s)
unfolding run
run-Agrees_from [] s agrees = agrees
run-Agrees_from (e ∷ events) s agrees = run-Agrees_from events (step e s) (step-Agrees e s agrees)

-- Whatever peers come and go in whatever order, the session that clients get is the one of the
-- current connection, and there is none when there is no current connection.
pub run-Agrees : (events : List Event) → Agrees (run events new)
unfolding new session_of
run-Agrees events = run-Agrees_from events new refl

and_false : (b : Bool) → (b && false) ≡ false
and_false true = refl
and_false false = refl

different : (a b : ℕ) → b < a → (a == b) ≡ false
different a b lt = ground arith

-- The worker of an older connection that ends after a newer one took over changes nothing.
pub remove_generation-add_peer :
    (old_peer peer : PeerId) (old_conn conn_id : ℕ) (s : ClientService)
    → old_conn < conn_id
    → is_older s.current conn_id ≡ false
    → remove_generation old_peer old_conn (add_peer true peer conn_id s)
      ≡ add_peer true peer conn_id s
unfolding remove_generation add_peer is_current
remove_generation-add_peer old_peer peer old_conn conn_id s older newer =
    let e : add_peer true peer conn_id s ≡ taken_over peer conn_id s =
      ap (λ b. if b then refused conn_id s else taken_over peer conn_id s) newer in
    let other : (bytes_eq peer old_peer && conn_id == old_conn) ≡ false =
      ap (λ b. bytes_eq peer old_peer && b) (different conn_id old_conn older)
      ∙ and_false (bytes_eq peer old_peer) in
    ap (remove_generation old_peer old_conn) e
    ∙ ap
        (λ b.
          if b then torn_down old_conn (taken_over peer conn_id s) else taken_over peer conn_id s)
        other
    ∙ sym e
