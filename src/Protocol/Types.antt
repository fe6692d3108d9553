-- ===== src/Protocol/Types.antt =====
-- crates/protocol/src/lib.rs and the health of crates/protocol/src/p2p.rs: the networks, the
-- phases of a server and the interface of a PIR engine. The engine in use is an external library.
use Prim.Native.String.{String}
use text.Mathlib.Text.{◌==◌}
use text.Mathlib.TextEquality.{eq_iff}
use p2p_spendability_pir.Common.{
  ℕ, ◌≡◌, refl, sym, subst, List, Option, none, some, if◌then◌else◌, arith, ◌↔◌,
}
use p2p_spendability_pir.Common.Run.{Run}

abbrev pub confirmation_depth : ℕ
confirmation_depth = 10

abbrev pub ironwood_pool : String
ironwood_pool = "ironwood"

abbrev pub dataset_version : ℕ
dataset_version = 2

pub data ZcashNetwork : Type 0 where
  main : ZcashNetwork
  test : ZcashNetwork

unfoldable pub as_str : ZcashNetwork → String
as_str main = "main"
as_str test = "test"

-- `FromStr`; the text of the error is left out
unfoldable pub from_str : String → Option ZcashNetwork
from_str value = if value == "main" then some main else if value == "test" then some test else none

pub data ServerPhase : Type 0 where
  syncing : ℕ → ℕ → ServerPhase
  serving : ServerPhase

pub record YpirScenario : Type 0 where
  pub num_items : ℕ
  pub item_size_bits : ℕ
  pub poly_len : ℕ

pub record SubsystemHealth : Type 0 where
  pub phase : String
  pub current_height : Option ℕ
  pub target_height : Option ℕ

unfoldable pub from_phase : ServerPhase → SubsystemHealth
from_phase serving = record { phase = "serving"; current_height = none; target_height = none }
from_phase (syncing current target) = record {
  phase = "syncing";
  current_height = some current;
  target_height = some target;
}

-- the trait `PirEngine`
pub record PirEngine : Type 1 where
  pub ServerState : Type 0
  pub Error : Type 0
  pub setup : List ℕ → YpirScenario → Run Error ServerState
  pub answer_query : ServerState → List ℕ → Run Error (List ℕ)

-- The names of the networks, and nothing else, are read as networks.
pub from_str-exactly :
    (value : String) (n : ZcashNetwork) → (from_str value ≡ some n) ↔ (value ≡ as_str n)
unfolding from_str as_str
from_str-exactly value main = (
  λ h. ground (arith, eq_iff value "main", eq_iff value "test"),
  λ h. subst (λ v. from_str v ≡ some main) (sym h) refl,
)
from_str-exactly value test = (
  λ h. ground (arith, eq_iff value "main", eq_iff value "test"),
  λ h. subst (λ v. from_str v ≡ some test) (sym h) refl,
)
