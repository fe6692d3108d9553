-- ===== src/Nullifier/Types.antt =====
-- crates/nullifier/src/types.rs: the geometry of the table and the bucket of a nullifier.
use p2p_spendability_pir.Common.{ℕ, ◌*◌, ◌%◌, List, take, from_le_bytes}

abbrev pub Nullifier : Type 0
Nullifier = List ℕ

abbrev pub target_size : ℕ
target_size = 1000000

abbrev pub num_buckets : ℕ
num_buckets = 16384

abbrev pub bucket_capacity : ℕ
bucket_capacity = 112

abbrev pub entry_bytes : ℕ
entry_bytes = 32

abbrev pub bucket_bytes : ℕ
bucket_bytes = bucket_capacity * entry_bytes

abbrev pub db_bytes : ℕ
db_bytes = num_buckets * bucket_bytes

unfoldable pub hash_to_bucket : Nullifier → ℕ
hash_to_bucket nf = from_le_bytes (take 4 nf) % num_buckets
