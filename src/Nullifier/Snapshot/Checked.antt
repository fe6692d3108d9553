-- ===== src/Nullifier/Snapshot/Checked.antt =====
-- What a snapshot that is accepted has passed, and that a written one passes the outer checks.
use p2p_spendability_pir.Common.{
  ℕ, ◌+◌, ◌-◌, ◌*◌, ◌^◌, ◌<◌, ◌≤◌, ◌≡◌, refl, sym, ap, ap₂, ◌∙◌, subst, List, [], ◌++◌, length,
  length-append, ltb, le→ltb, ◌==◌, not, Bool, true, false, take, drop, take-append, drop-append,
  get_or-tabulate, length-tabulate, to_le_bytes, from_le_bytes, from_le_bytes-to_le_bytes,
  length-to_le_bytes, ltb→le, ==_iff, ==_refl, arith,
}
use p2p_spendability_pir.Common.Run.{Run, ok, ◌>>◌, fail_if, fail_if-ok, bind-ok}
use p2p_spendability_pir.Nullifier.Types.{num_buckets, bucket_capacity, bucket_bytes}
use p2p_spendability_pir.Nullifier.Table.{HashTableDb}
use p2p_spendability_pir.Nullifier.Table.Cells.{Shape}
use p2p_spendability_pir.Nullifier.Snapshot.{
  SnapshotError, data_too_short, checksum_mismatch, bad_magic, unsupported_version,
  bucket_data_truncated, snapshot_payload, read_number, read_blocks, read_buckets, read_payload,
  min_size, to_snapshot, from_snapshot, snapshot_magic, snapshot_version,
}

read_buckets-Shape : (payload : List ℕ) (start : ℕ) → Shape (read_buckets payload start)
unfolding read_buckets
read_buckets-Shape payload start = record {
  size = length-tabulate num_buckets _;
  rows =
      λ i lt. ap length (get_or-tabulate num_buckets _ i [] lt) ∙ length-tabulate bucket_capacity _;
}

ok_injective : {a b : HashTableDb} → (◌≡◌ {A = Run SnapshotError HashTableDb} (ok a) (ok b)) → a ≡ b
ok_injective e = cc

read_payload-Shape :
    (payload : List ℕ) (db : HashTableDb) → read_payload payload ≡ ok db → Shape db.buckets
unfolding read_payload
read_payload-Shape payload db runs =
    let (magic, m, r₁) = bind-ok (read_number 8 payload 0) _ db runs in
    let (known, r₂) = fail_if-ok (not (magic.0 == snapshot_magic)) bad_magic _ db r₁ in
    let (version, v, r₃) = bind-ok (read_number 4 payload magic.1) _ db r₂ in
    let (current, r₄) =
      fail_if-ok (not (version.0 == snapshot_version)) (unsupported_version version.0) _ db r₃ in
    let (num_blocks, n, r₅) = bind-ok (read_number 8 payload version.1) _ db r₄ in
    let (blocks, b, r₆) = bind-ok (read_blocks num_blocks.0 payload num_blocks.1 [] [] 0) _ db r₅ in
    let (whole, r₇) =
      fail_if-ok (ltb (length payload) (blocks.1 + num_buckets * bucket_bytes))
        bucket_data_truncated _ db r₆ in
    subst (λ d. Shape d.buckets) (ok_injective r₇) (read_buckets-Shape payload blocks.1)

refuted_negation : (b : Bool) → not b ≡ false → b ≡ true
refuted_negation true e = refl
refuted_negation false e = sym e

module _ (xxh64 : List ℕ → ℕ → ℕ) where
  -- A snapshot that is accepted is long enough, its checksum is that of its payload, and the
  -- table that is restored has all buckets with all their slots.
  pub from_snapshot-Shape :
      (data_bytes : List ℕ) (db : HashTableDb)
      → from_snapshot xxh64 data_bytes ≡ ok db
      → (min_size ≤ length data_bytes)
        × (from_le_bytes (drop (length data_bytes - 8) data_bytes)
            ≡ xxh64 (take (length data_bytes - 8) data_bytes) 0)
        × Shape db.buckets
  unfolding from_snapshot
  from_snapshot-Shape data_bytes db runs =
      let (long, r₁) = fail_if-ok (ltb (length data_bytes) min_size) data_too_short _ db runs in
      let (passed, r₂) =
        fail_if-ok
          (not (
            from_le_bytes (drop (length data_bytes - 8) data_bytes)
            == xxh64 (take (length data_bytes - 8) data_bytes) 0))
          checksum_mismatch _ db r₁ in
      (
        ltb→le (length data_bytes) min_size long,
        (==_iff _ _).0 (refuted_negation _ passed),
        read_payload-Shape (take (length data_bytes - 8) data_bytes) db r₂,
      )

  -- A snapshot that was written, of at least the least length, passes the checks of its length
  -- and checksum, where checksums are numbers of 64 bits: what is read is its payload.
  pub from_snapshot-to_snapshot :
      (db : HashTableDb)
      → ((bytes : List ℕ) → xxh64 bytes 0 < 256 ^ 8)
      → min_size ≤ length (snapshot_payload db) + 8
      → from_snapshot xxh64 (to_snapshot xxh64 db) ≡ read_payload (snapshot_payload db)
  unfolding from_snapshot to_snapshot
  from_snapshot-to_snapshot db small long =
      let payload = snapshot_payload db in
      let sum = to_le_bytes 8 (xxh64 payload 0) in
      let size : length (payload ++ sum) ≡ length payload + 8 =
        omega (arith, length-append payload sum, length-to_le_bytes 8 (xxh64 payload 0)) in
      let cut : length (payload ++ sum) - 8 ≡ length payload = omega (arith, size) in
      let all = payload ++ sum in
      let rest : ℕ → Run SnapshotError HashTableDb = λ n.
        fail_if (not (from_le_bytes (drop n all) == xxh64 (take n all) 0)) checksum_mismatch
        >> read_payload (take n all) in
      ap (λ b. fail_if b data_too_short >> rest (length all - 8))
        (le→ltb (length all) min_size (omega (arith, size)))
      ∙ ap rest cut
      ∙ ap₂
          (λ t d. fail_if (not (from_le_bytes d == xxh64 t 0)) checksum_mismatch >> read_payload t)
          (take-append payload sum) (drop-append payload sum)
      ∙ ap (λ b. fail_if (not b) checksum_mismatch >> read_payload payload)
          (ap (λ n. n == xxh64 payload 0)
              (from_le_bytes-to_le_bytes 8 (xxh64 payload 0) (small payload))
            ∙ ==_refl (xxh64 payload 0))
