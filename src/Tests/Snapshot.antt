-- ===== src/Tests/Snapshot.antt =====
-- A small tree written to a snapshot and read back.
use p2p_spendability_pir.Common.{
  ◌≡◌, refl, [], ◌∷◌, map, replicate, true, false, arith, length-replicate,
}
use p2p_spendability_pir.Common.Run.{ok}
use p2p_spendability_pir.Orchard.{Hash}
use p2p_spendability_pir.Witness.Tree.{CommitmentTreeDb, new, append_commitments, with_offset}
use p2p_spendability_pir.Witness.Tree.Rollback.{total}
use p2p_spendability_pir.Witness.Tree.Represents.{
  Represents, new-Represents, append_commitments-Represents,
}
use p2p_spendability_pir.Witness.Snapshot.{to_snapshot, from_snapshot}
use p2p_spendability_pir.Witness.Snapshot.Size.{IsWritable, snapshot_payload-bound}
use p2p_spendability_pir.Witness.Snapshot.Restored.{from_snapshot-restores}
use p2p_spendability_pir.Tests.Toy.{toy, toy_to_bytes}

abbrev hash_100 : Hash
hash_100 = replicate 32 7

abbrev two_notes : CommitmentTreeDb
two_notes = append_commitments 100 hash_100 (map toy_to_bytes (true ∷ false ∷ [])) new

two_notes-Represents : Represents two_notes (true ∷ false ∷ []) []
two_notes-Represents =
    append_commitments-Represents 100 hash_100 (true ∷ false ∷ []) new-Represents
      (unfold new in omega arith)

two_notes-IsWritable : IsWritable two_notes
unfolding append_commitments new with_offset total
two_notes-IsWritable = record {
  blocks = ((omega arith, length-replicate 32 7, omega arith), tt);
  counted = refl;
  empties = refl;
  fits = omega (
    arith,
    snapshot_payload-bound two_notes (true ∷ false ∷ []) [] two_notes-Represents
        ((omega arith, length-replicate 32 7, omega arith), tt),
  );
}

from_snapshot-restores_example :
    from_snapshot (λ bytes seed. 0) (to_snapshot (λ bytes seed. 0) two_notes) ≡ ok two_notes
from_snapshot-restores_example =
    from_snapshot-restores (λ bytes seed. 0) two_notes (true ∷ false ∷ []) []
      (λ bytes seed. omega arith) two_notes-Represents two_notes-IsWritable
