-- ===== src/Tests/Chain.antt =====
-- A toy lightwalletd and the ingestion of its blocks.
use p2p_spendability_pir.Common.{
  map, ℕ, zero, suc, ◌+◌, ◌-◌, ◌%◌, ◌^◌, ◌<◌, ◌≡◌, ◌↔◌, refl, ap, subst, false, none, some, [], ◌∷◌,
  length, All, replicate, ltb, ltb→lt, if◌then◌else◌, tabulate_from, concat, bytes_eq, ◌∙◌,
  tabulate_from-eq, length-tabulate, Bool-cases, inl, inr, arith,
}
use p2p_spendability_pir.Common.Run.{Run, ok, err}
use p2p_spendability_pir.Orchard.{Hash}
use p2p_spendability_pir.Ingest.Block.{CompactBlock, status, Lightwalletd}
use p2p_spendability_pir.Ingest.Range.{
  PipelineError, ValidatedBlock, validate_range, IsTyped, IsChain, blocks_of, fetch_validated,
  from_client, validate_blocks, validate_block, exact_hash, breaks_link,
}
use p2p_spendability_pir.Ingest.Range.Exact.{validate_range-exactly}
use p2p_spendability_pir.Ingest.Sync.{sync_blocks, last_hash}
use p2p_spendability_pir.Ingest.Sync.Delivery.{AnswersFit, Delivered, sync_blocks-Delivered}
use p2p_spendability_pir.Ingest.Follow.{start, history_start, starts_elsewhere, track, push_history}
use p2p_spendability_pir.Ingest.Follow.Start.{StartsOn, start-EndsAt}
use p2p_spendability_pir.Ingest.Follow.Polls.{TipsFit}
use p2p_spendability_pir.Ingest.Ironwood.{
  extract_ironwood_nullifiers, extract_ironwood_nullifiers-exactly,
}
use p2p_spendability_pir.Tests.Toy.{toy}

abbrev pub toy_hash : ℕ → Hash
toy_hash n = replicate 32 (n % 256)

abbrev pub toy_block : ℕ → CompactBlock
toy_block n = record {
  height = n;
  hash = toy_hash n;
  prev_hash = toy_hash (n + 255);
  vtx = [];
  chain_metadata = some (record { ironwood_commitment_tree_size = 0 });
}

abbrev pub toy_valid : ℕ → ValidatedBlock
toy_valid n = record { block = toy_block n; hash = toy_hash n; prev_hash = toy_hash (n + 255) }

-- It serves the blocks below height 1000, and its tip is at 22.
instance abbrev pub toy_lwd : Lightwalletd
toy_lwd = record {
  LwdClient = Unit {0};
  connect = ok tt;
  get_latest_block = λ lwd. (ok (22, toy_hash 22), lwd);
  get_block_range = λ a b lwd.
      (if ltb b 1000 then ok (tabulate_from a (b + 1 - a) toy_block) else err status, lwd);
  get_tree_state = λ height lwd.
      (ok (record { network = "main"; height = height; ironwood_tree_is_empty = false }), lwd);
  get_subtree_roots = λ lwd. (ok [], lwd);
}

toy-IsTyped : (from n : ℕ) → All IsTyped (tabulate_from from n toy_block)
unfolding tabulate_from concat
toy-IsTyped from zero = tt
toy-IsTyped from (suc n) = ((omega arith, omega arith), toy-IsTyped (from + 1) n)

length-toy : (from n : ℕ) → length (tabulate_from from n toy_block) ≡ n
length-toy from n = ap length (tabulate_from-eq from n toy_block) ∙ length-tabulate n _

pub toy_fit : AnswersFit toy_lwd
toy_fit a b lwd blocks h = elim (Bool-cases (ltb b 1000)) [
  | inl low ↦
      let b_lt : b < 1000 = ltb→lt b 1000 low in
      let same : tabulate_from a (b + 1 - a) toy_block ≡ blocks = ground arith in
      subst (λ l. (length l < 2 ^ 63) × All IsTyped l) same
        (omega (arith, length-toy a (b + 1 - a)), toy-IsTyped a (b + 1 - a))
  | inr high ↦ absurd (ground arith)
]

pub toy_tips : TipsFit toy_lwd
toy_tips lwd height hash h = ground arith

typed : (n : ℕ) → IsTyped (toy_block n)
unfolding concat
typed n = (omega arith, omega arith)

validate_range-exactly_example :
    (validate_range (toy_block 10 ∷ toy_block 11 ∷ []) 10 11 none
      ≡ ok (toy_valid 10 ∷ toy_valid 11 ∷ []))
    ↔ (IsChain 10 none (toy_valid 10 ∷ toy_valid 11 ∷ [])
        × (toy_block 10 ∷ toy_block 11 ∷ [] ≡ blocks_of (toy_valid 10 ∷ toy_valid 11 ∷ []))
        × (10 + length (toy_valid 10 ∷ toy_valid 11 ∷ []) ≡ 11 + 1))
validate_range-exactly_example =
    validate_range-exactly (toy_block 10 ∷ toy_block 11 ∷ []) 10 11 none
      (toy_valid 10 ∷ toy_valid 11 ∷ []) (omega arith) (omega arith) (typed 10, (typed 11, tt))

-- a consumer that counts
abbrev count_block : ValidatedBlock → ℕ → Run PipelineError (Unit {0}) × ℕ
count_block v n = (ok tt, n + 1)

sync_blocks-Delivered_example :
    Delivered count_block (λ e. e) 10 12 none 0 (sync_blocks count_block (λ e. e) 10 12 tt 0)
sync_blocks-Delivered_example =
    sync_blocks-Delivered count_block (λ e. e) toy_fit 10 12 tt 0 (omega arith) (omega arith)

starts : (start 12 (toy_hash 12) 2 tt).0 ≡ ok ((11, toy_hash 11) ∷ (12, toy_hash 12) ∷ [])
unfolding start history_start fetch_validated from_client validate_range validate_blocks
    validate_block exact_hash breaks_link starts_elsewhere track push_history tabulate_from
    replicate bytes_eq last_hash
starts = refl

start-EndsAt_example :
    StartsOn ⦃l = toy_lwd⦄ 12 (toy_hash 12) 2 tt ((11, toy_hash 11) ∷ (12, toy_hash 12) ∷ [])
start-EndsAt_example =
    start-EndsAt toy_fit 12 (toy_hash 12) 2 tt ((11, toy_hash 11) ∷ (12, toy_hash 12) ∷ [])
      (omega arith) (omega arith) starts

abbrev pub spending : CompactBlock
spending = record {
  height = 11;
  hash = toy_hash 11;
  prev_hash = toy_hash 10;
  vtx =
      record {
        actions = record { nullifier = []; cmx = [] } ∷ [];
        ironwood_actions = record { nullifier = replicate 32 7; cmx = replicate 32 1 } ∷ [];
      }
      ∷ [];
  chain_metadata = some (record { ironwood_commitment_tree_size = 1 });
}

extract_ironwood_nullifiers-exactly_example :
    (extract_ironwood_nullifiers spending ≡ ok (replicate 32 7 ∷ [])) ↔ (
      All (λ tx. All (λ a. length a.nullifier ≡ 32) tx.ironwood_actions) spending.vtx
      × (replicate 32 7 ∷ []
          ≡ concat (map (λ tx. map (λ a. a.nullifier) tx.ironwood_actions) spending.vtx)))
extract_ironwood_nullifiers-exactly_example =
    extract_ironwood_nullifiers-exactly spending (replicate 32 7 ∷ [])
