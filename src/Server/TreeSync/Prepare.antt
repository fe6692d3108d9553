-- ===== src/Server/TreeSync/Prepare.antt =====
-- `prepare_tree` of crates/server/src/witness/server.rs: what the tree is before its sync.
use p2p_spendability_pir.Common.{
  ℕ, ◌-◌, ◌<◌, ◌≤◌, ◌≡◌, refl, List, [], ◌∷◌, length, min, max, leb, leb→le, if_intro, Bool-cases,
  inl, inr, ◌⊎◌, arith,
}
use p2p_spendability_pir.Common.Run.{Run, ok, err, panic, Run-cases}
use p2p_spendability_pir.Orchard.{Orchard}
use p2p_spendability_pir.Protocol.Types.{ZcashNetwork, main, test}
use p2p_spendability_pir.Ingest.Ironwood.{nu6_3_activation_height}
use p2p_spendability_pir.Ingest.Block.{SubtreeRoot, Lightwalletd}
use p2p_spendability_pir.Ingest.Sync.Delivery.{AnswersFit}
use p2p_spendability_pir.Witness.Types.{l0_max_shards}
use p2p_spendability_pir.Witness.Tree.{CommitmentTreeDb, new}
use p2p_spendability_pir.Server.TreeSync.{
  ServerError, retain_up_to, prepare_window, prepare_tree, min_sync_height,
}
use p2p_spendability_pir.Server.TreeSync.Window.{
  CallPanics, Windowed, prepare_window-WindowPrepared,
}

-- The request asks for 65535 roots at most.
abbrev pub RootsFit : Lightwalletd → Type 0
RootsFit l =
    (lwd : l.LwdClient) (roots : List SubtreeRoot)
    → (l.get_subtree_roots lwd).0 ≡ ok roots
    → length roots ≤ 65535

length-retain_up_to :
    (target : ℕ) (roots : List SubtreeRoot) → length (retain_up_to target roots) ≤ length roots
unfolding retain_up_to
length-retain_up_to target [] = omega arith
length-retain_up_to target (root ∷ roots) = ground (arith, length-retain_up_to target roots)

-- the roots of the shards that are complete at the target, in their order
pub data Completed (target : ℕ) : List SubtreeRoot → List SubtreeRoot → Type 0 where
  no_roots : Completed target [] []
  complete :
      (root : SubtreeRoot) (roots kept : List SubtreeRoot)
      → root.completing_block_height ≤ target
      → Completed target roots kept
      → Completed target (root ∷ roots) (root ∷ kept)
  incomplete :
      (root : SubtreeRoot) (roots kept : List SubtreeRoot)
      → target < root.completing_block_height
      → Completed target roots kept
      → Completed target (root ∷ roots) kept

retain_up_to-Completed :
    (target : ℕ) (roots : List SubtreeRoot) → Completed target roots (retain_up_to target roots)
unfolding retain_up_to
retain_up_to-Completed target [] = no_roots
retain_up_to-Completed target (root ∷ roots) =
    let rest = retain_up_to-Completed target roots in
    if_intro (Completed target (root ∷ roots)) (leb root.completing_block_height target) _ _
      (λ low. complete root roots _ (leb→le _ _ low) rest)
      (λ high. incomplete root roots _ (ground (arith, high)) rest)

-- The height at which Ironwood is activated.
abbrev pub activated_at : ZcashNetwork → ℕ
activated_at main = 3428143
activated_at test = 4134000

min_sync_height-activated_at :
    (network : ZcashNetwork) → min_sync_height network ≡ activated_at network
unfolding min_sync_height nu6_3_activation_height
min_sync_height-activated_at main = refl
min_sync_height-activated_at test = refl

module _ ⦃o : Orchard⦄ where
  -- How the preparation ended.
  abbrev pub Prepared :
      Lightwalletd
      → ℕ
      → ℕ
      → ZcashNetwork
      → List SubtreeRoot
      → Run ServerError (CommitmentTreeDb × ℕ)
      → Type 0
  Prepared l target limit network roots (ok (t, from)) =
      (kept : List SubtreeRoot) × Completed target roots kept
      × (((length kept < limit) × (t ≡ new) × (from ≡ activated_at network))
          ⊎ ((limit ≤ length kept) × Windowed l kept (length kept - (limit - 1)) t from))
  Prepared l target limit network roots (err e) = Unit
  Prepared l target limit network roots panic = CallPanics l

  abbrev pub clamped : ℕ → ℕ
  clamped limit = max 1 (min limit l0_max_shards)

  -- A tree is prepared from the shards that are complete at the target. While they are fewer than
  -- the limit, of one to sixteen shards, it is the empty tree, to be synced from the activation. If
  -- not, it is a window behind the fetched roots of the first of them. lightwalletd has sent the
  -- block that completes the last of these; the tree holds the last commitments of this block, as
  -- many as the size that the block states is beyond the start of the window, and all of them if
  -- they are fewer. It represents them as notes, lists the block, has the size that the block
  -- states if the block's own commitments reach back to the window, and is to be synced from the
  -- next height. Without a panic of the client there is none. A block's tree size fits 32 bits, and
  -- 65535 roots at most are answered.
  pub prepare_tree-Prepared :
      ⦃l : Lightwalletd⦄ (fit : AnswersFit l) (few : RootsFit l) (target limit : ℕ)
      (network : ZcashNetwork) (lwd : l.LwdClient) (roots : List SubtreeRoot)
      → (l.get_subtree_roots lwd).0 ≡ ok roots
      → Prepared l target (clamped limit) network roots (prepare_tree target limit network lwd).0
  unfolding prepare_tree
  prepare_tree-Prepared ⦃l⦄ fit few target limit network lwd roots sent =
      let kept = retain_up_to target roots in
      let bound = few lwd roots sent in
      let least = length-retain_up_to target roots in
      elim (Bool-cases (leb (clamped limit) (length kept))) [
        | inr low ↦
            rw (sent, low, prepare_tree)
              (
                kept,
                retain_up_to-Completed target roots,
                inl (ground arith, refl, min_sync_height-activated_at network),
              )
        | inl enough ↦
            let le : clamped limit ≤ length kept = ground arith in
            let start = length kept - (clamped limit - 1) in
            let w =
              prepare_window-WindowPrepared fit kept start (l.get_subtree_roots lwd).1 (omega arith)
                (omega arith) (omega arith) in
            let runs : (prepare_tree target limit network lwd).0
                ≡ (prepare_window kept start (l.get_subtree_roots lwd).1).0 =
              rw (sent, enough, prepare_tree) refl in
            rw runs (elim (Run-cases (prepare_window kept start (l.get_subtree_roots lwd).1).0) [
              | inl ((t, from), prepared) ↦
                  rw prepared
                    (kept, retain_up_to-Completed target roots, inr (le, rw prepared at w))
              | inr (inl (e, failed)) ↦ rw failed tt
              | inr (inr panicked) ↦ rw panicked (rw panicked at w)
            ])
      ]
