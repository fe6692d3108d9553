-- ===== src/Ingest/Range/Exact.antt =====
-- What the validation of a range accepts.
use p2p_spendability_pir.Common.{
  ℕ, ◌+◌, ◌^◌, ◌<◌, ◌≡◌, refl, ap, ap₂, ◌↔◌, subst, Option, none, some, false, not, List, [], ◌∷◌,
  length, All, add64, bytes_eq, bytes_eq_sound, bytes_eq_refl, arith,
}
use p2p_spendability_pir.Common.Run.{ok, bind-ok}
use p2p_spendability_pir.Orchard.{Hash}
use p2p_spendability_pir.Ingest.Block.{CompactBlock}
use p2p_spendability_pir.Ingest.Range.{
  ValidatedBlock, exact_hash, breaks_link, validate_block, validate_blocks, validate_range, Links,
  IsTyped, Follows, IsChain, blocks_of,
}

breaks_link-Links : (prior : Option Hash) (h : Hash) → breaks_link prior h ≡ false → Links prior h
unfolding breaks_link
breaks_link-Links none h e = tt
breaks_link-Links (some prior) h e = bytes_eq_sound prior h (ground arith)

Links-breaks_link : (prior : Option Hash) (h : Hash) → Links prior h → breaks_link prior h ≡ false
unfolding breaks_link
Links-breaks_link none h e = refl
Links-breaks_link (some prior) h e =
    subst (λ k. not (bytes_eq prior k) ≡ false) e (ap not (bytes_eq_refl prior))

validate_block_sound :
    (block : CompactBlock) (start : ℕ) (prior : Option Hash) (v : ValidatedBlock)
    → IsTyped block
    → validate_block block start prior ≡ ok v
    → Follows start prior v × (block ≡ v.block)
unfolding validate_block exact_hash
validate_block_sound block start prior v t h = (
  record {
    at_height = ground arith;
    same_hash = ground arith;
    same_prev = ground arith;
    full_hash = ground arith;
    full_prev = ground arith;
    linked = breaks_link-Links prior v.prev_hash (ground arith);
    typed = subst IsTyped {x = block} {y = v.block} (ground arith) t;
  },
  ground arith,
)

validate_block_complete :
    (v : ValidatedBlock) (start : ℕ) (prior : Option Hash)
    → Follows start prior v
    → validate_block v.block start prior ≡ ok v
unfolding validate_block exact_hash
validate_block_complete v start prior f =
    ground (arith, Links-breaks_link prior v.prev_hash f.linked)

-- what the loop over the blocks accepts, and the height after it
abbrev Accepted : ℕ → Option Hash → List CompactBlock → List ValidatedBlock × ℕ → Type 0
Accepted start prior blocks (vs, n) =
    IsChain start prior vs × (blocks ≡ blocks_of vs) × (n ≡ start + length vs)

pub validate_blocks_sound :
    (blocks : List CompactBlock) (start : ℕ) (prior : Option Hash) (p : List ValidatedBlock × ℕ)
    → start + length blocks < 2 ^ 64
    → All IsTyped blocks
    → validate_blocks blocks start prior ≡ ok p
    → Accepted start prior blocks p
unfolding validate_blocks
validate_blocks_sound [] start prior p small t h =
    let same : ([], start) ≡ p = cc in subst (Accepted start prior []) same (tt, refl, omega arith)
validate_blocks_sound (block ∷ blocks) start prior p small (t, ts) h =
    let (v, body, h1) = bind-ok (validate_block block start prior) _ p h in
    let ((vs, n), inner, h2) =
      bind-ok (validate_blocks blocks (add64 start 1) (some v.hash)) _ p h1 in
    let next : add64 start 1 ≡ start + 1 = omega arith in
    let (chain, same, count) =
      validate_blocks_sound blocks (start + 1) (some v.hash) (vs, n) (omega arith) ts
        (rw next at inner) in
    let (follows, block_same) = validate_block_sound block start prior v t body in
    let whole : (v ∷ vs, n) ≡ p = cc in
    subst (Accepted start prior (block ∷ blocks)) whole
      ((follows, chain), ap₂ ◌∷◌ block_same same, omega arith)

pub validate_blocks_complete :
    (vs : List ValidatedBlock) (start : ℕ) (prior : Option Hash)
    → start + length vs < 2 ^ 64
    → IsChain start prior vs
    → validate_blocks (blocks_of vs) start prior ≡ ok (vs, start + length vs)
unfolding validate_blocks
validate_blocks_complete [] start prior small h = ground arith
validate_blocks_complete (v ∷ vs) start prior small (f, h) =
    let next : add64 start 1 ≡ start + 1 = omega arith in
    rw
      (
        validate_block_complete v start prior f,
        next,
        validate_blocks_complete vs (start + 1) (some v.hash) (omega arith) h,
      )
      (ground arith)

-- validate_range accepts an answer of lightwalletd exactly if it is one block for each height of
-- the range, in order, each with hashes of 32 bytes and naming the block before it (the first one
-- naming the expected block, where one is expected), and it returns these blocks unchanged. The
-- heights stay below 2^64, and tree sizes below 2^32, as their types say.
pub validate_range-exactly :
    (blocks : List CompactBlock) (start end : ℕ) (prior : Option Hash) (vs : List ValidatedBlock)
    → start + length blocks < 2 ^ 64
    → end + 1 < 2 ^ 64
    → All IsTyped blocks
    → (validate_range blocks start end prior ≡ ok vs)
      ↔ (IsChain start prior vs × (blocks ≡ blocks_of vs) × (start + length vs ≡ end + 1))
unfolding validate_range
validate_range-exactly blocks start end prior vs small bound ts = (accepted, returned)
  where
    accepted :
        validate_range blocks start end prior ≡ ok vs
        → IsChain start prior vs × (blocks ≡ blocks_of vs) × (start + length vs ≡ end + 1)
    accepted h =
        let (p, loop, h1) = bind-ok (validate_blocks blocks start prior) _ vs h in
        let (chain, same, count) = validate_blocks_sound blocks start prior p small ts loop in
        let whole : p.0 ≡ vs = ground arith in
        let reached : p.1 ≡ end + 1 = ground arith in
        subst (λ l. IsChain start prior l × (blocks ≡ blocks_of l) × (start + length l ≡ end + 1))
          whole (chain, same, omega arith)

    returned :
        IsChain start prior vs × (blocks ≡ blocks_of vs) × (start + length vs ≡ end + 1)
        → validate_range blocks start end prior ≡ ok vs
    returned (chain, same, count) =
        let loop = validate_blocks_complete vs start prior (omega arith) chain in
        rw (same, loop) (ground arith)
