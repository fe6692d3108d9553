-- ===== src/Tests/Sync.antt =====
-- The witness server over the toy chain: a sync, and polls of its follower.
use p2p_spendability_pir.Common.{
  true, ◌+◌, ◌≡◌, ◌≢◌, ◌↔◌, refl, none, false, [], ◌∷◌, length, All, length-replicate, concat, ◌%◌,
  arith,
}
use p2p_spendability_pir.Common.Run.{ok}
use p2p_spendability_pir.Orchard.{Hash}
use p2p_spendability_pir.Protocol.Types.{main, syncing}
use p2p_spendability_pir.Ingest.Range.{ValidatedBlock, Follows, IsTyped}
use p2p_spendability_pir.Ingest.Follow.{Follower, polls, poll, hash_at}
use p2p_spendability_pir.Ingest.Follow.Events.{InStep, Done}
use p2p_spendability_pir.Ingest.Follow.Polls.{poll-Current, Reached}
use p2p_spendability_pir.Witness.Tree.{CommitmentTreeDb, new, append_commitments}
use p2p_spendability_pir.Witness.Tree.Represents.{new-Represents, append_commitments-Represents}
use p2p_spendability_pir.Witness.Tree.Rollback.{all_commitments}
use p2p_spendability_pir.Ingest.Block.{ironwood_actions_of}
use p2p_spendability_pir.Ingest.Commitment.{IsCommitment, commitments_of}
use p2p_spendability_pir.Witness.Tree.{tree_size}
use p2p_spendability_pir.Server.TreeSync.Blocks.{append_block-exactly, Appended, States}
use p2p_spendability_pir.Server.TreeSync.{consume_event, append_block}
use p2p_spendability_pir.Server.TreeSync.Sync.{sync_range, RangeSynced, sync_range-RangeSynced}
use p2p_spendability_pir.Server.TreeSync.Follow.{polls-Mirrors, consume_event-IsKept}
use p2p_spendability_pir.Server.TreeSync.Mirror.{Mirrors}
use p2p_spendability_pir.Server.TableSync
use p2p_spendability_pir.Server.TableSync.{min_sync_height}
use p2p_spendability_pir.Server.TableSync.Fill.{fill_table}
use p2p_spendability_pir.Server.TableSync.Fill.Order.{StartedWith, fill_table-StartedWith}
use p2p_spendability_pir.Server.TableSync.Range.{sync_range-RangeStored, RangeStored}
use p2p_spendability_pir.Nullifier.Table.{HashTableDb, new as empty_table}
use p2p_spendability_pir.Tests.Toy.{toy}
use p2p_spendability_pir.Tests.Chain.{toy_lwd, toy_hash, toy_valid, toy_fit, toy_tips, spending}

sync_range-RangeSynced_example : RangeSynced 10 12 new [] (sync_range main 10 12 (new, syncing 0 0))
sync_range-RangeSynced_example =
    sync_range-RangeSynced toy_fit main 10 12 new (syncing 0 0) [] [] (omega arith) new-Represents

-- a server that has just taken in block 10
at_ten : CommitmentTreeDb
at_ten = append_commitments 10 (toy_hash 10) [] new

follower : Follower (Unit {0}) CommitmentTreeDb
follower = record {
  lwd = tt;
  consumer = at_ten;
  history = (10, toy_hash 10) ∷ [];
  current_height = 10;
}

toy-Follows : Follows 10 none (toy_valid 10)
unfolding concat
toy-Follows = record {
  at_height = refl;
  same_hash = refl;
  same_prev = refl;
  full_hash = length-replicate 32 (10 % 256);
  full_prev = length-replicate 32 (265 % 256);
  linked = tt;
  typed = (omega arith, omega arith);
}

at_ten-Mirrors : Mirrors 10 ((10, toy_hash 10) ∷ []) at_ten
unfolding at_ten append_commitments new all_commitments concat
at_ten-Mirrors = record {
  base = [];
  older = [];
  recent = toy_valid 10 ∷ [];
  start = 10;
  prior = none;
  chain = (toy-Follows, tt);
  reaches = refl;
  window = refl;
  leaves = refl;
  blocks = refl;
  notes = [];
  roots = [];
  represents = append_commitments-Represents 10 (toy_hash 10) [] new-Represents (omega arith);
}

in_step : InStep 20 consume_event Mirrors 10 (toy_hash 10) ((10, toy_hash 10) ∷ []) at_ten
unfolding hash_at
in_step = record {
  is_window = record {
    oldest = 10;
    consecutive = (refl, tt);
    reaches = refl;
    nonempty = omega arith;
    bounded = omega arith;
  };
  has_newest = refl;
  related = at_ten-Mirrors;
}

poll-Current_example :
    Done
      (Reached 20 consume_event Mirrors
        (consume_event-IsKept 20)
        (omega arith)
        10
        (ok (22, toy_hash 22)))
      (poll consume_event 20 10 follower)
unfolding follower
poll-Current_example =
    poll-Current 20 consume_event Mirrors (consume_event-IsKept 20) (omega arith) toy_fit toy_tips
      10 follower (toy_hash 10, in_step)

polls-Mirrors_example :
    Done
      (λ g.
        (newest : Hash) × InStep 20 consume_event Mirrors g.current_height newest g.history
          g.consumer)
      (polls consume_event 20 2 10 follower)
unfolding follower
polls-Mirrors_example =
    polls-Mirrors toy_fit toy_tips 20 2 10 (omega arith) follower (toy_hash 10) in_step

abbrev spending_valid : ValidatedBlock
spending_valid = record { block = spending; hash = toy_hash 11; prev_hash = toy_hash 10 }

spending-IsTyped : IsTyped spending
unfolding concat
spending-IsTyped = (omega arith, omega arith)

append_block-exactly_example :
    (((append_block spending_valid new).0 ≡ ok tt) ↔ (
      All IsCommitment (ironwood_actions_of spending)
      × States spending (tree_size new + length (commitments_of spending))))
    × ((append_block spending_valid new).0 ≡ ok tt
        → Appended spending_valid new [] [] (append_block spending_valid new).1)
    × ((append_block spending_valid new).0 ≢ ok tt → (append_block spending_valid new).1 ≡ new)
append_block-exactly_example =
    append_block-exactly spending_valid new [] [] spending-IsTyped new-Represents

sync_range-RangeStored_example :
    RangeStored 10 12 empty_table (TableSync.sync_range main 10 12 (empty_table, syncing 0 0))
sync_range-RangeStored_example =
    sync_range-RangeStored toy_fit main 10 12 empty_table (syncing 0 0) (omega arith)

-- a table that a snapshot has left with one block
abbrev restored : HashTableDb
restored = record empty_table {
  block_index = (10, record { block_hash = toy_hash 10; slots = [] }) ∷ [];
  block_hash_to_height = (toy_hash 10, 10) ∷ [];
}

fill_table-StartedWith_example :
    StartedWith false main 5 12 empty_table (fill_table main 5 12 false (empty_table, syncing 0 0))
    × StartedWith true main 5 12 restored (fill_table main 5 12 true (restored, syncing 0 0))
fill_table-StartedWith_example = (
  fill_table-StartedWith toy_fit main 5 12 false empty_table (syncing 0 0) (omega arith)
      (unfold empty_table in tt),
  fill_table-StartedWith toy_fit main 5 12 true restored (syncing 0 0) (omega arith)
      (omega arith, tt),
)
