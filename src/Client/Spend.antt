-- ===== src/Client/Spend.antt =====
-- crates/client/src/nullifier.rs: how a wallet decides from a retrieved row whether a nullifier is
-- spent. Retrieving a row privately is the YPIR engine's and the transport's: an argument.
use p2p_spendability_pir.Common.{
  ℕ, ◌*◌, ◌<◌, ◌≡◌, ap, ◌∙◌, List, some, Bool, length, take, min, concat, slice, chunks_exact,
  chunks_exact-concat, All, take_short, arith,
}
use p2p_spendability_pir.Common.Run.{Run, ok, ◌>>=◌}
use p2p_spendability_pir.Nullifier.Types.{
  Nullifier, num_buckets, entry_bytes, bucket_bytes, hash_to_bucket,
}
use p2p_spendability_pir.Nullifier.Table.{Bucket, HashTableDb, has_entry, contains, to_pir_bytes}
use p2p_spendability_pir.Nullifier.Table.Cells.{row, Shape}
use p2p_spendability_pir.Nullifier.Table.Space.{hash_to_bucket-bound}
use p2p_spendability_pir.Nullifier.Table.Membership.{contains-eq}
use p2p_spendability_pir.Nullifier.Table.Rows.{Sized, row-Sized, row_bytes, to_pir_bytes-row}

-- `any(|entry| entry == nf)` over the entries is the scan of `contains`.
unfoldable pub bucket_contains : List ℕ → Nullifier → Bool
bucket_contains decoded_row nf =
    has_entry nf
      (chunks_exact entry_bytes (take (min (length decoded_row) bucket_bytes) decoded_row))

-- `retrieve` is the query of a row, its request and the decoding of the response.
unfoldable pub is_spent : {E : Type 0} → (ℕ → Run E (List ℕ)) → Nullifier → Run E Bool
is_spent retrieve nf = do
  decoded_row ← retrieve (hash_to_bucket nf)
  ok (bucket_contains decoded_row nf)

bucket_contains-has_entry :
    (bucket : Bucket) (nf : Nullifier)
    → All (λ e. length e ≡ 32) bucket
    → length (concat bucket) ≡ bucket_bytes
    → bucket_contains (concat bucket) nf ≡ has_entry nf bucket
unfolding bucket_contains
bucket_contains-has_entry bucket nf sized size =
    ap (λ l. has_entry nf (chunks_exact entry_bytes l))
      (take_short (min (length (concat bucket)) bucket_bytes) (concat bucket) (omega (arith, size)))
    ∙ ap (has_entry nf) (chunks_exact-concat 32 bucket (omega arith) sized)

-- A wallet that retrieves the row of a nullifier's bucket from the database of a table of the
-- right shape learns exactly what the table answers to `contains`, and nothing panics.
pub is_spent-contains :
    {E : Type 0} (retrieve : ℕ → Run E (List ℕ)) (db : HashTableDb) (nf : Nullifier)
    → Shape db.buckets
    → Sized db.buckets
    → ((i : ℕ)
        → i < num_buckets
        → retrieve i ≡ ok (slice (i * bucket_bytes) bucket_bytes (to_pir_bytes db)))
    → (spent : Bool) × (is_spent retrieve nf ≡ ok spent) × (contains nf db ≡ some spent)
unfolding is_spent
is_spent-contains retrieve db nf shape sized correct =
    let h = hash_to_bucket nf in
    let lt = hash_to_bucket-bound nf in
    (
      has_entry nf (row db.buckets h),
      ap (λ r. r >>= λ decoded_row. ok (bucket_contains decoded_row nf))
            (correct h lt ∙ ap ok (to_pir_bytes-row db h shape sized lt))
          ∙ ap ok (
              bucket_contains-has_entry (row db.buckets h) nf (row-Sized db.buckets h sized)
                (row_bytes db.buckets h shape sized lt)),
      contains-eq nf db shape,
    )
