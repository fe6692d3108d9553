-- ===== src/Server/TreeSync/Sync.antt =====
-- `sync_range` of crates/server/src/witness/server.rs, and what it leaves in the tree.
use p2p_spendability_pir.Common.{
  ℕ, ◌+◌, ◌-◌, ◌%◌, ◌^◌, ◌<◌, ◌≤◌, ◌≡◌, refl, sym, ap, subst, ◌∙◌, true, false, Option, none, some,
  List, [], ◌∷◌, ◌++◌, map, length, ◌==◌, ltb, if◌then◌else◌, inl, inr, arith, append_assoc,
  append-nil, Bool-cases, ltb→le,
}
use p2p_spendability_pir.Common.Run.{Run, ok, err, panic, Run-cases}
use p2p_spendability_pir.Orchard.{Orchard, Hash}
use p2p_spendability_pir.Protocol.Types.{ZcashNetwork, ServerPhase, syncing}
use p2p_spendability_pir.Ingest.Block.{Lightwalletd}
use p2p_spendability_pir.Ingest.Range.{ValidatedBlock, IsChain}
use p2p_spendability_pir.Ingest.Ironwood.{require_ironwood_tree_state}
use p2p_spendability_pir.Ingest.Sync.{sync_blocks, consume_all, consume_all-cons, batch_size}
use p2p_spendability_pir.Ingest.Sync.Delivery.{AnswersFit, sync_blocks-Delivered, Delivered}
use p2p_spendability_pir.Witness.Tree.{CommitmentTreeDb}
use p2p_spendability_pir.Witness.Tree.Represents.{Represents}
use p2p_spendability_pir.Witness.Tree.Rollback.{all_commitments, as_record}
use p2p_spendability_pir.Server.TreeSync.{ServerError, pipeline, endpoint, client, append_block}
use p2p_spendability_pir.Server.TreeSync.Blocks.{as_new, Appended, append_block-exactly}

module _ ⦃o : Orchard⦄ where
  -- The closure of `sync_range`: the tree, and the phase that is shown every 1000 blocks.
  unfoldable pub consume_block :
      ℕ
      → ValidatedBlock
      → CommitmentTreeDb × ServerPhase
      → Run ServerError (Unit {0}) × (CommitmentTreeDb × ServerPhase)
  consume_block to v (tree, phase) =
      let (answer, tree') = append_block v tree in
      elim answer [
        | err e ↦ (err e, (tree', phase))
        | panic ↦ (panic, (tree', phase))
        | ok u ↦ (
          ok tt,
          (tree', if v.block.height % 1000 == 0 then syncing v.block.height to else phase),
        )
      ]

  -- `none` never comes of it: the rounds of `sync_blocks` are enough.
  unfoldable pub sync_range :
      ⦃l : Lightwalletd⦄
      → ZcashNetwork
      → ℕ
      → ℕ
      → CommitmentTreeDb × ServerPhase
      → Option (Run ServerError (Unit {0}) × (CommitmentTreeDb × ServerPhase))
  sync_range ⦃l⦄ network from to state = elim (ltb to from) [
    | true ↦ some (ok tt, state)
    | false ↦ elim l.connect [
      | err e ↦ some (err (client e), state)
      | panic ↦ some (panic, state)
      | ok lwd ↦
          let (checked, lwd') = require_ironwood_tree_state network to lwd in
          elim checked [
            | err e ↦ some (err (endpoint e), state)
            | panic ↦ some (panic, state)
            | ok u ↦ elim (sync_blocks (consume_block to) pipeline from to lwd' state) [
              | none ↦ none
              | some (answer, state', lwd'') ↦ some (answer, state')
            ]
          ]
    ]
  ]

  -- A tree after a chain of blocks.
  pub record Synced (t : CommitmentTreeDb) (ps : List o.Node) (vs : List ValidatedBlock)
      (t' : CommitmentTreeDb) : Type 0 where
    pub notes : List o.Node
    pub represents : Represents t' notes ps
    pub leaves : t'.leaves ≡ t.leaves ++ all_commitments (map as_new vs)
    pub blocks : t'.blocks ≡ t.blocks ++ map as_record (map as_new vs)

  Synced-cons :
      (v : ValidatedBlock) (vs : List ValidatedBlock) (t t' t'' : CommitmentTreeDb)
      (ns ps : List o.Node)
      → Appended v t ns ps t'
      → Synced t' ps vs t''
      → Synced t ps (v ∷ vs) t''
  unfolding all_commitments
  Synced-cons v vs t t' t'' ns ps a s = record {
    notes = s.notes;
    represents = s.represents;
    leaves =
        s.leaves
        ∙ ap (λ l. l ++ all_commitments (map as_new vs)) a.leaves
        ∙ append_assoc t.leaves _ _;
    blocks =
        s.blocks
        ∙ ap (λ l. l ++ map as_record (map as_new vs)) a.blocks
        ∙ append_assoc t.blocks _ _;
  }

  consume_block-ok :
      (to : ℕ) (v : ValidatedBlock) (t : CommitmentTreeDb) (phase : ServerPhase)
      → (consume_block to v (t, phase)).0 ≡ ok tt
      → ((append_block v t).0 ≡ ok tt)
        × ((consume_block to v (t, phase)).1.0 ≡ (append_block v t).1)
  unfolding consume_block
  consume_block-ok to v t phase h = elim (Run-cases (append_block v t).0) [
    | inl (u, took) ↦ (took, rw (took, consume_block) refl)
    | inr (inl (e, refused)) ↦ absurd (ground arith)
    | inr (inr panicked) ↦ absurd (ground arith)
  ]

  consume_all-Synced :
      (to : ℕ) (vs : List ValidatedBlock) (start : ℕ) (prior : Option Hash)
      (state : CommitmentTreeDb × ServerPhase) (ns ps : List o.Node)
      → IsChain start prior vs
      → Represents state.0 ns ps
      → (consume_all (consume_block to) vs state).0 ≡ ok tt
      → Synced state.0 ps vs (consume_all (consume_block to) vs state).1.0
  unfolding consume_all all_commitments
  consume_all-Synced to [] start prior state ns ps c r h = record {
    notes = ns;
    represents = r;
    leaves = sym (append-nil state.0.leaves);
    blocks = sym (append-nil state.0.blocks);
  }
  consume_all-Synced to (v ∷ vs) start prior state ns ps (f, c) r h =
      let (took, rest) = consume_all-cons (consume_block to) v vs state h in
      let (appended, same) = consume_block-ok to v state.0 state.1 took in
      let a = (append_block-exactly v state.0 ns ps f.typed r).1 appended in
      let next = (consume_block to v state).1 in
      let b : Appended v state.0 ns ps next.0 = subst (Appended v state.0 ns ps) (sym same) a in
      subst (λ p. Synced state.0 ps (v ∷ vs) p.1.0) (sym rest)
        (Synced-cons v vs state.0 next.0 _ ns ps b (
          consume_all-Synced to vs (start + 1) (some v.hash) next (ns ++ b.notes) ps c b.represents
            (ap (λ p. p.0) (sym rest) ∙ h)))

  -- A sync ends, and one that reports success has taken in a chain over the whole range.
  abbrev pub RangeSynced :
      ℕ
      → ℕ
      → CommitmentTreeDb
      → List o.Node
      → Option (Run ServerError (Unit {0}) × (CommitmentTreeDb × ServerPhase))
      → Type 0
  RangeSynced from to t ps none = ⊥
  RangeSynced from to t ps (some (ok u, (t', phase))) =
      (vs : List ValidatedBlock) × IsChain from none vs
      × (length vs ≡ to + 1 - from)
      × Synced t ps vs t'
  RangeSynced from to t ps (some (err e, state)) = Unit
  RangeSynced from to t ps (some (panic, state)) = Unit

  relayed :
      {C : Type 0} (from to : ℕ) (state : CommitmentTreeDb × ServerPhase) (ns ps : List o.Node)
      (r : Option (Run ServerError (Unit {0}) × (CommitmentTreeDb × ServerPhase) × C))
      → Represents state.0 ns ps
      → from ≤ to
      → Delivered (consume_block to) pipeline from to none state r
      → RangeSynced from to state.0 ps
          (elim r [ none ↦ none | some (answer, state', lwd) ↦ some (answer, state') ])
  relayed from to state ns ps none r le d = d
  relayed from to state ns ps (some (ok u, state', lwd)) r le (vs, chain, reach, (fed, count)) = (
    vs,
    chain,
    omega arith,
    subst
        (λ (p : Run ServerError (Unit {0}) × (CommitmentTreeDb × ServerPhase)).
          Synced state.0 ps vs p.1.0)
        fed (consume_all-Synced to vs from none state ns ps chain r (ap (λ p. p.0) fed)),
  )
  relayed from to state ns ps (some (err e, state', lwd)) r le d = tt
  relayed from to state ns ps (some (panic, state', lwd)) r le d = tt

  -- A sync of the tree to a height always ends. One that reports success has taken in a chain of
  -- validated blocks, one for each height of the range (none, if the range is empty): the tree
  -- gained exactly their Ironwood commitments and their records, in order, and still represents
  -- its notes. The heights are below 2^63 - 10001, and an answer has fewer than 2^63 blocks.
  pub sync_range-RangeSynced :
      ⦃l : Lightwalletd⦄ (fit : AnswersFit l) (network : ZcashNetwork) (from to : ℕ)
      (t : CommitmentTreeDb) (phase : ServerPhase) (ns ps : List o.Node)
      → to + batch_size + 1 < 2 ^ 63
      → Represents t ns ps
      → RangeSynced from to t ps (sync_range network from to (t, phase))
  unfolding sync_range all_commitments
  sync_range-RangeSynced ⦃l⦄ fit network from to t phase ns ps small r =
      elim (Bool-cases (ltb to from)) [
        | inl empty ↦
            let none_left : 0 ≡ to + 1 - from = ground arith in
            rw (empty, RangeSynced)
              (
                [],
                tt,
                none_left,
                record {
                  notes = ns;
                  represents = r;
                  leaves = sym (append-nil t.leaves);
                  blocks = sym (append-nil t.blocks);
                },
              )
        | inr some_left ↦
            let le : from ≤ to = ltb→le to from some_left in
            rw (some_left, RangeSynced)
              (elim (Run-cases l.connect) [
                | inr (inl (e, failed)) ↦ rw (failed, RangeSynced) tt
                | inr (inr panicked) ↦ rw (panicked, RangeSynced) tt
                | inl (lwd, connected) ↦
                    let required = require_ironwood_tree_state network to lwd in
                    rw (connected, RangeSynced)
                      (elim (Run-cases required.0) [
                        | inr (inl (e, failed)) ↦ rw (failed, RangeSynced) tt
                        | inr (inr panicked) ↦ rw (panicked, RangeSynced) tt
                        | inl (u, checked) ↦
                            rw (checked, RangeSynced)
                              (relayed from to (t, phase) ns ps _ r le
                                (sync_blocks-Delivered (consume_block to) pipeline fit from to
                                  required.1 (t, phase) small (omega arith)))
                      ])
              ])
      ]
