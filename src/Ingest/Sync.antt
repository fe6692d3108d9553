-- ===== src/Ingest/Sync.antt =====
-- crates/server/src/ingest/pipeline.rs: the sync of a range of heights in validated batches.
-- A consumer is a function on a state of its own, which it leaves changed also where it fails.
pub mod Delivery
use p2p_spendability_pir.Common.{
  ℕ, zero, suc, ◌+◌, ◌-◌, ◌^◌, ◌<◌, ◌≤◌, ◌≡◌, refl, ap, sym, subst, Option, none, some, Bool, true,
  false, List, [], ◌∷◌, ◌++◌, length, leb, if◌then◌else◌, min, add64, sub64, arith, inl, inr, ◌⊎◌,
  inl, inr,
}
use p2p_spendability_pir.Common.Run.{Run, ok, err, panic, Run-cases}
use p2p_spendability_pir.Orchard.{Hash}
use p2p_spendability_pir.Ingest.Block.{Lightwalletd}
use p2p_spendability_pir.Ingest.Range.{PipelineError, ValidatedBlock, fetch_validated, IsChain}

abbrev pub batch_size : ℕ
batch_size = 10000

-- `blocks.last().map(|block| block.hash)`
unfoldable pub last_hash : List ValidatedBlock → Option Hash
last_hash [] = none
last_hash (v ∷ []) = some v.hash
last_hash (v ∷ w ∷ vs) = last_hash (w ∷ vs)

module _ {E S : Type 0} (consume : ValidatedBlock → S → Run E (Unit {0}) × S) where
  -- `for block in blocks { consume(block).await?; }`
  unfoldable pub consume_all : List ValidatedBlock → S → Run E (Unit {0}) × S
  consume_all [] s = (ok tt, s)
  consume_all (v ∷ vs) s =
      let (answer, s') = consume v s in
      elim answer [ ok u ↦ consume_all vs s' | err e ↦ (err e, s') | panic ↦ (panic, s') ]

  pub consume_all-append :
      (vs ws : List ValidatedBlock) (s : S)
      → (consume_all vs s).0 ≡ ok tt
      → consume_all (vs ++ ws) s ≡ consume_all ws (consume_all vs s).1
  unfolding consume_all
  consume_all-append [] ws s h = refl
  consume_all-append (v ∷ vs) ws s h =
      elim (consume v s).0
          as (λ r.
            (elim r as (λ _. Run E (Unit {0}) × S) [
              | ok u ↦ consume_all vs (consume v s).1
              | err e ↦ (err e, (consume v s).1)
              | panic ↦ (panic, (consume v s).1)
            ]).0
              ≡ ok tt
            → (elim r as (λ _. Run E (Unit {0}) × S) [
              | ok u ↦ consume_all (vs ++ ws) (consume v s).1
              | err e ↦ (err e, (consume v s).1)
              | panic ↦ (panic, (consume v s).1)
            ])
              ≡ consume_all ws
                  (elim r as (λ _. Run E (Unit {0}) × S) [
                    | ok u ↦ consume_all vs (consume v s).1
                    | err e ↦ (err e, (consume v s).1)
                    | panic ↦ (panic, (consume v s).1)
                  ]).1) [
                    | ok u ↦ λ e. consume_all-append vs ws (consume v s).1 e
                    | err e ↦ λ q. absurd (cc)
                    | panic ↦ λ q. absurd (cc)
                  ]
        h

  pub consume_all-cons :
      (v : ValidatedBlock) (vs : List ValidatedBlock) (s : S)
      → (consume_all (v ∷ vs) s).0 ≡ ok tt
      → ((consume v s).0 ≡ ok tt) × (consume_all (v ∷ vs) s ≡ consume_all vs (consume v s).1)
  unfolding consume_all
  consume_all-cons v vs s h = elim (Run-cases (consume v s).0) [
    | inl (u, took) ↦ (took, rw (took, consume_all) refl)
    | inr (inl (e, refused)) ↦ absurd (ground arith)
    | inr (inr panicked) ↦ absurd (ground arith)
  ]

  -- `while current <= to`, for `fuel` rounds at most
  unfoldable pub sync_rounds :
      ⦃l : Lightwalletd⦄
      → (PipelineError → E)
      → ℕ
      → ℕ
      → ℕ
      → Option Hash
      → l.LwdClient
      → S
      → Option (Run E (Unit {0}) × S × l.LwdClient)
  sync_rounds from_pipeline zero current to expected_prev lwd s =
      if leb current to then none else some (ok tt, s, lwd)
  sync_rounds from_pipeline (suc fuel) current to expected_prev lwd s = elim (leb current to) [
    | false ↦ some (ok tt, s, lwd)
    | true ↦
        let end = min (sub64 (add64 current batch_size) 1) to in
        let (fetched, lwd') = fetch_validated current end expected_prev lwd in
        elim fetched [
          | err e ↦ some (err (from_pipeline e), s, lwd')
          | panic ↦ some (panic, s, lwd')
          | ok blocks ↦
              let (consumed, s') = consume_all blocks s in
              elim consumed [
                | err e ↦ some (err e, s', lwd')
                | panic ↦ some (panic, s', lwd')
                | ok u ↦ sync_rounds from_pipeline fuel (add64 end 1) to (last_hash blocks) lwd' s'
              ]
        ]
  ]

  unfoldable pub sync_blocks :
      ⦃l : Lightwalletd⦄
      → (PipelineError → E)
      → ℕ
      → ℕ
      → l.LwdClient
      → S
      → Option (Run E (Unit {0}) × S × l.LwdClient)
  sync_blocks from_pipeline from to lwd s =
      sync_rounds from_pipeline (to + 1 - from) from to none lwd s

-- the hash that the next block has to name
abbrev pub chain_end : Option Hash → List ValidatedBlock → Option Hash
chain_end prior [] = prior
chain_end prior (v ∷ vs) = chain_end (some v.hash) vs

pub last_hash-chain_end :
    (prior : Option Hash) (vs : List ValidatedBlock)
    → 0 < length vs
    → last_hash vs ≡ chain_end prior vs
unfolding last_hash
last_hash-chain_end prior [] h = absurd (omega arith)
last_hash-chain_end prior (v ∷ []) h = refl
last_hash-chain_end prior (v ∷ w ∷ vs) h = last_hash-chain_end (some v.hash) (w ∷ vs) (omega arith)

pub IsChain-append :
    (vs ws : List ValidatedBlock) (start : ℕ) (prior : Option Hash)
    → IsChain start prior vs
    → IsChain (start + length vs) (chain_end prior vs) ws
    → IsChain start prior (vs ++ ws)
IsChain-append [] ws start prior h k = subst (λ n. IsChain n prior ws) (omega arith) k
IsChain-append (v ∷ vs) ws start prior (f, h) k = (
  f,
  IsChain-append vs ws (start + 1) (some v.hash) h
      (subst (λ n. IsChain n (chain_end (some v.hash) vs) ws) (omega arith) k),
)
