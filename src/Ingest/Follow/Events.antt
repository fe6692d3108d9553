-- ===== src/Ingest/Follow/Events.antt =====
-- The events that a follower hands to its consumer are those of one chain.
use p2p_spendability_pir.Common.{
  ℕ, zero, suc, ◌+◌, ◌-◌, ◌^◌, ◌<◌, ◌≤◌, ◌≡◌, refl, sym, subst, ◌∙◌, Option, none, some, List, [],
  ◌∷◌, length, leb, leb→le, lt→leb, Bool-cases, min, add64, sub64, inl, inr, arith,
}
use p2p_spendability_pir.Common.Run.{Run, ok, err, panic, Run-cases}
use p2p_spendability_pir.Orchard.{Hash}
use p2p_spendability_pir.Ingest.Block.{Lightwalletd}
use p2p_spendability_pir.Ingest.Range.{
  PipelineError, ValidatedBlock, Follows, IsChain, fetch_validated,
}
use p2p_spendability_pir.Ingest.Sync.{batch_size, last_hash, chain_end, last_hash-chain_end}
use p2p_spendability_pir.Ingest.Sync.Delivery.{AnswersFit, fetch_validated-IsChain}
use p2p_spendability_pir.Ingest.Follow.{
  BlockEvent, new_block, reorg, History, hash_at, push_history, drop_newer, Follower, deliver,
  catch_up,
}
use p2p_spendability_pir.Ingest.Follow.Window.{IsWindow, push_history-IsWindow}

-- A relation between a window of recent blocks and the state of the consumer is kept if every
-- event that the consumer accepts moves both in step: a new block follows the newest block of the
-- window, and a reorganisation goes back to a block of the window.
pub record IsKept (window : ℕ) {S : Type 0}
    (consume : BlockEvent → S → Run PipelineError (Unit {0}) × S) (R : ℕ → History → S → Type 0)
    : Type 0 where
  pub extends :
      (current : ℕ) (history : History) (s : S) (hash : Hash) (v : ValidatedBlock)
      → IsWindow window current history
      → hash_at history current ≡ some hash
      → Follows (current + 1) (some hash) v
      → (consume (new_block v) s).0 ≡ ok tt
      → R current history s
      → R
          (current + 1)
          (push_history window (current + 1) v.hash history)
          (consume (new_block v) s).1
  pub goes_back :
      (current fork : ℕ) (history : History) (s : S) (hash : Hash)
      → IsWindow window current history
      → hash_at history fork ≡ some hash
      → fork < current
      → (consume (reorg fork) s).0 ≡ ok tt
      → R current history s
      → R fork (drop_newer fork history) (consume (reorg fork) s).1

-- What holds of a follower after a step that did not fail; the fuel never runs out.
abbrev pub Done :
    {C S : Type 0}
    → (Follower C S → Type 0)
    → Option (Run PipelineError (Unit {0}) × Follower C S)
    → Type 0
Done P none = ⊥
Done P (some (ok u, f)) = P f
Done P (some (err e, f)) = Unit
Done P (some (panic, f)) = Unit

pub Done-imp :
    {C S : Type 0} (P Q : Follower C S → Type 0)
    (r : Option (Run PipelineError (Unit {0}) × Follower C S))
    → ((f : Follower C S) → P f → Q f)
    → Done P r
    → Done Q r
Done-imp P Q none imp h = h
Done-imp P Q (some (ok u, f)) imp h = imp f h
Done-imp P Q (some (err e, f)) imp h = tt
Done-imp P Q (some (panic, f)) imp h = tt

-- A step after a step.
pub Done-then :
    {C S : Type 0} (P Q : Follower C S → Type 0)
    (r : Option (Run PipelineError (Unit {0}) × Follower C S))
    (next : Follower C S → Option (Run PipelineError (Unit {0}) × Follower C S))
    → ((f : Follower C S) → P f → Done Q (next f))
    → Done P r
    → Done Q (elim r [
      | none ↦ none
      | some (answer, f) ↦ elim answer [
        | ok u ↦ next f
        | err e ↦ some (err e, f)
        | panic ↦ some (panic, f)
      ]
    ])
Done-then P Q none next step h = h
Done-then P Q (some (ok u, f)) next step h = step f h
Done-then P Q (some (err e, f)) next step h = tt
Done-then P Q (some (panic, f)) next step h = tt

module _ (window : ℕ) {S : Type 0} (consume : BlockEvent → S → Run PipelineError (Unit {0}) × S)
    (R : ℕ → History → S → Type 0) where
  -- A window of consecutive blocks up to a newest one, with a consumer that is in step with it.
  pub record InStep (current : ℕ) (newest : Hash) (history : History) (s : S) : Type 0 where
    pub is_window : IsWindow window current history
    pub has_newest : hash_at history current ≡ some newest
    pub related : R current history s

  module _ (kept : IsKept window consume R) (pos : 0 < window) where
    extend-InStep :
        (v : ValidatedBlock) (current : ℕ) (newest : Hash) (history : History) (s : S)
        → InStep current newest history s
        → Follows (current + 1) (some newest) v
        → (consume (new_block v) s).0 ≡ ok tt
        → InStep
            (current + 1)
            v.hash
            (push_history window v.block.height v.hash history)
            (consume (new_block v) s).1
    extend-InStep v current newest history s step f took =
        let (w, found) = push_history-IsWindow window current history v.hash pos step.is_window in
        let related =
          kept.extends current history s newest v step.is_window step.has_newest f took
            step.related in
        subst
          (λ n.
            InStep (current + 1) v.hash (push_history window n v.hash history)
              (consume (new_block v) s).1)
          (sym f.at_height) (record { is_window = w; has_newest = found; related = related })

    abbrev Extended : ℕ → Hash → List ValidatedBlock → History × S → Type 0
    Extended current newest vs (history, s) =
        (last : Hash) × InStep (current + length vs) last history s
        × (some last ≡ chain_end (some newest) vs)

    deliver-InStep :
        (vs : List ValidatedBlock) (current : ℕ) (newest : Hash) (history : History) (s : S)
        → InStep current newest history s
        → IsChain (current + 1) (some newest) vs
        → (deliver consume window vs history s).0 ≡ ok tt
        → Extended current newest vs
            ((deliver consume window vs history s).1, (deliver consume window vs history s).2)
    unfolding deliver
    deliver-InStep [] current newest history s step chain h =
        (newest, subst (λ n. InStep n newest history s) (omega arith) step, refl)
    deliver-InStep (v ∷ vs) current newest history s step (f, chain) h =
        elim (Run-cases (consume (new_block v) s).0) [
          | inl (u, took) ↦
              let step' = extend-InStep v current newest history s step f took in
              let (last, after, same) =
                deliver-InStep vs (current + 1) v.hash _ _ step' chain (rw (took, deliver) at h) in
              let count : current + 1 + length vs ≡ current + suc (length vs) = omega arith in
              rw (took, Extended, deliver) (last, rw count at after, same)
          | inr (inl (e, refused)) ↦ absurd (ground arith)
          | inr (inr panicked) ↦ absurd (ground arith)
        ]

    abbrev pub UpTo : {C : Type 0} → ℕ → Follower C S → Type 0
    UpTo target f = (newest : Hash) × InStep target newest f.history f.consumer

    pub catch_up-UpTo :
        ⦃l : Lightwalletd⦄ (fit : AnswersFit l) (fuel current target : ℕ) (newest : Hash)
        (f : Follower l.LwdClient S)
        → target + batch_size + 1 < 2 ^ 63
        → current ≤ target
        → target - current ≤ fuel
        → InStep current newest f.history f.consumer
        → Done (UpTo target) (catch_up consume window fuel (current + 1) target (some newest) f)
    unfolding catch_up
    catch_up-UpTo fit zero current target newest f small bound enough step =
        let there : current ≡ target = omega arith in
        rw (lt→leb (current + 1) target (omega arith), Done)
          (newest, subst (λ n. InStep n newest f.history f.consumer) there step)
    catch_up-UpTo fit (suc fuel) current target newest f small bound enough step =
        elim (Bool-cases (leb (current + 1) target)) [
          | inr done ↦
              let there : current ≡ target = ground arith in
              rw (done, Done) (newest, subst (λ n. InStep n newest f.history f.consumer) there step)
          | inl more ↦
              let next_le : current + 1 ≤ target = leb→le (current + 1) target more in
              let end = min (sub64 (add64 (current + 1) batch_size) 1) target in
              let fetched = fetch_validated (current + 1) end (some newest) f.lwd in
              rw (more, Done)
                (elim (Run-cases fetched.0) [
                  | inl (vs, got) ↦
                      let (chain, count) =
                        fetch_validated-IsChain fit (current + 1) end (some newest) f.lwd vs
                          (omega arith) (omega arith) got in
                      let delivered = deliver consume window vs f.history f.consumer in
                      rw (got, Done)
                        (elim (Run-cases delivered.0) [
                          | inl (u, took) ↦
                              let (last, after, same) =
                                deliver-InStep vs current newest f.history f.consumer step chain
                                  took in
                              let next : add64 end 1 ≡ current + length vs + 1 = omega arith in
                              let prev : last_hash vs ≡ some last =
                                last_hash-chain_end (some newest) vs (omega arith) ∙ sym same in
                              rw (took, Done)
                                (rw (next, prev, Done)
                                  (catch_up-UpTo fit fuel (current + length vs) target last _ small
                                    (omega arith) (omega arith) after))
                          | inr (inl (e, refused)) ↦ rw (refused, Done) tt
                          | inr (inr panicked) ↦ rw (panicked, Done) tt
                        ])
                  | inr (inl (e, got)) ↦ rw (got, Done) tt
                  | inr (inr got) ↦ rw (got, Done) tt
                ])
        ]
