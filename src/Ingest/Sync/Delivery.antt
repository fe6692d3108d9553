-- ===== src/Ingest/Sync/Delivery.antt =====
-- What a sync hands to its consumer.
use p2p_spendability_pir.Common.{
  ℕ, zero, suc, ◌+◌, ◌-◌, ◌^◌, ◌<◌, ◌≤◌, ◌≡◌, refl, ap, Option, none, some, List, [], ◌++◌, length,
  All, length-append, leb, leb→le, min, max, add64, sub64, arith, ◌⊎◌, inl, inr, Bool-cases, ◌∙◌,
  lt→leb,
}
use p2p_spendability_pir.Common.Run.{Run, ok, err, panic, Run-cases, bind-ok}
use p2p_spendability_pir.Orchard.{Hash}
use p2p_spendability_pir.Ingest.Block.{Lightwalletd, CompactBlock, ClientError}
use p2p_spendability_pir.Ingest.Range.Exact.{validate_range-exactly}
use p2p_spendability_pir.Ingest.Range.{
  PipelineError, ValidatedBlock, fetch_validated, IsTyped, from_client, IsChain,
}
use p2p_spendability_pir.Ingest.Sync.{
  batch_size, consume_all, consume_all-append, sync_rounds, sync_blocks, IsChain-append, chain_end,
  last_hash-chain_end,
}

-- An answer is a `Vec` in memory, which has fewer than 2^63 blocks, and a tree size is a u32.
abbrev pub AnswersFit : Lightwalletd → Type 0
AnswersFit l =
    (start end : ℕ) (lwd : l.LwdClient) (blocks : List CompactBlock)
    → (l.get_block_range start end lwd).0 ≡ ok blocks
    → (length blocks < 2 ^ 63) × All IsTyped blocks

pub from_client-ok : {A : Type 0} (r : Run ClientError A) (a : A) → from_client r ≡ ok a → r ≡ ok a
unfolding from_client
from_client-ok (ok b) a h = cc
from_client-ok (err e) a h = absurd (cc)
from_client-ok panic a h = absurd (cc)

-- what a fetch that succeeds returns
pub fetch_validated-IsChain :
    ⦃l : Lightwalletd⦄ (fit : AnswersFit l) (start end : ℕ) (prior : Option Hash)
    (lwd : l.LwdClient) (vs : List ValidatedBlock)
    → start < 2 ^ 63
    → end + 1 < 2 ^ 63
    → (fetch_validated start end prior lwd).0 ≡ ok vs
    → IsChain start prior vs × (start + length vs ≡ end + 1)
unfolding fetch_validated
fetch_validated-IsChain ⦃l⦄ fit start end prior lwd vs small bound h =
    let (blocks, answer, valid) =
      bind-ok (from_client (l.get_block_range start end lwd).0) _ vs h in
    let short = fit start end lwd blocks (from_client-ok _ blocks answer) in
    let (chain, same, count) =
      (validate_range-exactly blocks start end prior vs (omega arith) (omega arith) short.1).0
        valid in
    (chain, count)

module _ {E S : Type 0} (consume : ValidatedBlock → S → Run E (Unit {0}) × S)
    (from_pipeline : PipelineError → E) where
  -- How a sync from one height to another ended, which handed over these blocks.
  abbrev pub Ended : ℕ → ℕ → S → List ValidatedBlock → S → Run E (Unit {0}) → Type 0
  Ended from to s vs s' (ok u) =
      (consume_all consume vs s ≡ (ok tt, s')) × (from + length vs ≡ max from (to + 1))
  Ended from to s vs s' (err e) =
      (consume_all consume vs s ≡ (err e, s'))
      ⊎ ((consume_all consume vs s ≡ (ok tt, s'))
          × (failure : PipelineError) × (e ≡ from_pipeline failure))
  Ended from to s vs s' panic = (consume_all consume vs s).1 ≡ s'

  abbrev pub Delivered {ℓ} :
      {C : Type ℓ} → ℕ → ℕ → Option Hash → S → Option (Run E (Unit {0}) × S × C) → Type 0
  Delivered from to prior s none = ⊥
  Delivered from to prior s (some (r, s', lwd)) =
      (vs : List ValidatedBlock) × IsChain from prior vs
      × (from + length vs ≤ max from (to + 1))
      × Ended from to s vs s' r

  consume_all-resume :
      (vs ws : List ValidatedBlock) (s s' : S)
      → consume_all consume vs s ≡ (ok tt, s')
      → consume_all consume (vs ++ ws) s ≡ consume_all consume ws s'
  consume_all-resume vs ws s s' h =
      consume_all-append consume vs ws s (ap (λ p. p.0) h) ∙ ap (λ p. consume_all consume ws p.1) h

  Ended-append :
      (vs ws : List ValidatedBlock) (from to : ℕ) (s s' s'' : S) (r : Run E (Unit {0}))
      → from + length vs ≤ to + 1
      → consume_all consume vs s ≡ (ok tt, s')
      → Ended (from + length vs) to s' ws s'' r
      → Ended from to s (vs ++ ws) s'' r
  Ended-append vs ws from to s s' s'' (ok u) bound h ended =
      (consume_all-resume vs ws s s' h ∙ ended.0, omega (arith, ended.1, length-append vs ws))
  Ended-append vs ws from to s s' s'' (err e) bound h (inl refused) =
      inl (consume_all-resume vs ws s s' h ∙ refused)
  Ended-append vs ws from to s s' s'' (err e) bound h (inr (fed, failure, e_is)) =
      inr (consume_all-resume vs ws s s' h ∙ fed, failure, e_is)
  Ended-append vs ws from to s s' s'' panic bound h ended =
      ap (λ p. p.1) (consume_all-resume vs ws s s' h) ∙ ended

  Delivered-append {ℓ} :
      {C : Type ℓ} (vs : List ValidatedBlock) (from to : ℕ) (prior : Option Hash) (s s' : S)
      (r : Option (Run E (Unit {0}) × S × C))
      → from + length vs ≤ to + 1
      → IsChain from prior vs
      → consume_all consume vs s ≡ (ok tt, s')
      → Delivered (from + length vs) to (chain_end prior vs) s' r
      → Delivered from to prior s r
  Delivered-append vs from to prior s s' none bound chain h later = later
  Delivered-append vs from to prior s s' (some (r, s'', lwd)) bound chain h
        (ws, more, reach, ended) =
      (
        vs ++ ws,
        IsChain-append vs ws from prior chain more,
        omega (arith, reach, length-append vs ws),
        Ended-append vs ws from to s s' s'' r bound h ended,
      )

  sync_rounds-Delivered :
      ⦃l : Lightwalletd⦄ (fit : AnswersFit l) (fuel current to : ℕ) (prior : Option Hash)
      (lwd : l.LwdClient) (s : S)
      → to + batch_size + 1 < 2 ^ 63
      → current ≤ to + 1
      → to + 1 - current ≤ fuel
      → Delivered current to prior s (sync_rounds consume from_pipeline fuel current to prior lwd s)
  unfolding sync_rounds consume_all
  sync_rounds-Delivered fit zero current to prior lwd s small bound enough =
      rw (lt→leb current to (omega arith)) ([], tt, omega arith, (refl, omega arith))
  sync_rounds-Delivered fit (suc fuel) current to prior lwd s small bound enough =
      elim (Bool-cases (leb current to)) [
        | inr done ↦ rw (done, Delivered) ([], tt, omega arith, (refl, ground arith))
        | inl more ↦
            let current_le : current ≤ to = leb→le current to more in
            let end = min (sub64 (add64 current batch_size) 1) to in
            let fetched = fetch_validated current end prior lwd in
            rw (more, Delivered)
              (elim (Run-cases fetched.0) [
                | inl (vs, got) ↦
                    let (chain, count) =
                      fetch_validated-IsChain fit current end prior lwd vs (omega arith)
                        (omega arith) got in
                    let s' = (consume_all consume vs s).1 in
                    rw (got, Delivered)
                      (elim (Run-cases (consume_all consume vs s).0) [
                        | inl (u, fed) ↦
                            let next : add64 end 1 ≡ current + length vs = omega arith in
                            let last = last_hash-chain_end prior vs (omega arith) in
                            rw (fed, Delivered)
                              (rw (next, last, Delivered)
                                (Delivered-append vs current to prior s s' _ (omega arith) chain
                                  (ap (λ r. (r, s')) fed)
                                  (sync_rounds-Delivered fit fuel (current + length vs) to
                                    (chain_end prior vs) fetched.1 s' small (omega arith)
                                    (omega arith))))
                        | inr (inl (e, fed)) ↦
                            rw (fed, Delivered)
                              (vs, chain, omega arith, inl (ap (λ r. (r, s')) fed))
                        | inr (inr fed) ↦ rw (fed, Delivered) (vs, chain, omega arith, refl)
                      ])
                | inr (inl (e, got)) ↦
                    rw (got, Delivered) ([], tt, omega arith, inr (refl, e, refl))
                | inr (inr got) ↦ rw (got, Delivered) ([], tt, omega arith, refl)
              ])
      ]

  -- A sync of the heights from one to another ends within its rounds, whatever lightwalletd answers
  -- and the consumer does. The consumer has then been handed a chain of validated blocks that
  -- starts at the first height and goes to the last height at most. A sync that reports success has
  -- handed over every height; one that reports an error passes on the error of the consumer, or a
  -- failure of the pipeline, and then the consumer has accepted every block that it was handed. The
  -- heights are below 2^63 - 10001, and an answer has fewer than 2^63 blocks.
  pub sync_blocks-Delivered :
      ⦃l : Lightwalletd⦄ (fit : AnswersFit l) (from to : ℕ) (lwd : l.LwdClient) (s : S)
      → to + batch_size + 1 < 2 ^ 63
      → from ≤ to + 1
      → Delivered from to none s (sync_blocks consume from_pipeline from to lwd s)
  unfolding sync_blocks
  sync_blocks-Delivered fit from to lwd s small bound =
      sync_rounds-Delivered fit (to + 1 - from) from to none lwd s small bound (omega arith)
