-- ===== src/Server/TreeSync/Window.antt =====
-- `prepare_tree` of crates/server/src/witness/server.rs: its branch for a window.
use p2p_spendability_pir.Common.{
  ℕ, zero, suc, ◌-◌, ◌*◌, ◌<◌, ◌≤◌, ◌≡◌, refl, sym, ap, subst, ◌∙◌, some, List, [], ◌∷◌, map,
  length, take, get_elem?, add64, All, inl, inr, ◌⊎◌, arith,
}
use p2p_spendability_pir.Common.Run.{
  Run, ok, err, panic, ◌>>=◌, expect, bind-ok, bind-panic, Run-cases, gather,
}
use p2p_spendability_pir.Orchard.{Orchard, Hash}
use p2p_spendability_pir.Ingest.Block.{CompactBlock, ClientError, SubtreeRoot, Lightwalletd}
use p2p_spendability_pir.Ingest.Range.{IsTyped}
use p2p_spendability_pir.Ingest.Sync.Delivery.{AnswersFit}
use p2p_spendability_pir.Witness.Types.{shard_leaves}
use p2p_spendability_pir.Witness.Tree.{CommitmentTreeDb}
use p2p_spendability_pir.Server.TreeSync.{
  ServerError, from_lwd, first, check_roots, seed_window, prepare_window,
}
use p2p_spendability_pir.Server.TreeSync.Roots.{check_roots_sound, check_roots_safe}
use p2p_spendability_pir.Server.TreeSync.Seed.{
  seed_window-Seeded, seed_window_safe, SeedRepresents, append_commitments-SeedRepresents,
}

-- A call of lightwalletd's client has panicked.
abbrev pub CallPanics : Lightwalletd → Type 0
CallPanics l =
    (lwd : l.LwdClient) × (((l.get_subtree_roots lwd).0 ≡ panic)
      ⊎ ((start : ℕ) × (end : ℕ) × ((l.get_block_range start end lwd).0 ≡ panic)))

from_lwd-ok : {A : Type 0} (r : Run ClientError A) (a : A) → from_lwd r ≡ ok a → r ≡ ok a
unfolding from_lwd
from_lwd-ok (ok b) a h = cc
from_lwd-ok (err e) a h = absurd (cc)
from_lwd-ok panic a h = absurd (cc)

from_lwd-panic : {A : Type 0} (r : Run ClientError A) → from_lwd r ≡ panic → r ≡ panic
unfolding from_lwd
from_lwd-panic (ok a) h = absurd (cc)
from_lwd-panic (err e) h = absurd (cc)
from_lwd-panic panic h = refl

nth : {A : Type 0} (xs : List A) (i : ℕ) → i < length xs → (a : A) × (get_elem? xs i ≡ some a)
nth [] i lt = absurd (omega arith)
nth (x ∷ xs) zero lt = (x, refl)
nth (x ∷ xs) (suc i) lt = nth xs i (omega arith)

first-All :
    (P : CompactBlock → Type 0) (blocks : List CompactBlock) (block : CompactBlock)
    → first blocks ≡ some block
    → All P blocks
    → P block
unfolding first
first-All P [] block h all = absurd (cc)
first-All P (b ∷ blocks) block h (here, all) = let same : b ≡ block = cc in subst P same here

first-cons :
    (blocks : List CompactBlock) (block : CompactBlock)
    → first blocks ≡ some block
    → (others : List CompactBlock) × (blocks ≡ block ∷ others)
unfolding first
first-cons [] block h = absurd (cc)
first-cons (b ∷ blocks) block h = let same : b ≡ block = cc in (blocks, ap (λ x. x ∷ blocks) same)

module _ ⦃o : Orchard⦄ where
  -- A windowed tree, with the height from which it is to be synced.
  pub record Windowed (l : Lightwalletd) (roots : List SubtreeRoot) (window_start : ℕ)
      (t : CommitmentTreeDb) (from : ℕ) : Type 0 where
    pub shards : List o.Node
    pub fetched : map (λ r. r.root_hash) (take window_start roots) ≡ map o.to_bytes shards
    pub last : SubtreeRoot
    pub is_last : get_elem? roots (window_start - 1) ≡ some last
    pub block : CompactBlock
    pub lwd : l.LwdClient
    pub others : List CompactBlock
    pub sent :
        (l.get_block_range last.completing_block_height last.completing_block_height lwd).0
        ≡ ok (block ∷ others)
    pub completes : block.height ≡ last.completing_block_height
    pub from_next : from ≡ add64 block.height 1
    pub seed : SeedRepresents (window_start * shard_leaves) shards block.height block t

  -- the part of `prepare_window` behind the answer to its request
  seeded :
      List SubtreeRoot
      → ℕ
      → ℕ
      → Run ClientError (List CompactBlock)
      → Run ServerError (CommitmentTreeDb × ℕ)
  seeded roots window_start height answer =
      gather (check_roots 0 (take window_start roots)) >>= λ prefetched.
      from_lwd answer >>= λ blocks.
      seed_window height (window_start * shard_leaves) prefetched blocks >>= λ tree.
      ok (tree, add64 height 1)

  seeded-Windowed :
      ⦃l : Lightwalletd⦄ (fit : AnswersFit l) (roots : List SubtreeRoot) (window_start : ℕ)
      (last : SubtreeRoot) (lwd : l.LwdClient) (t : CommitmentTreeDb) (from : ℕ)
      → window_start ≤ 65535
      → get_elem? roots (window_start - 1) ≡ some last
      → seeded roots window_start last.completing_block_height
          (l.get_block_range last.completing_block_height last.completing_block_height lwd).0
        ≡ ok (t, from)
      → Windowed l roots window_start t from
  unfolding seeded
  seeded-Windowed ⦃l⦄ fit roots window_start last lwd t from small is_last h =
      let height = last.completing_block_height in
      let offset = window_start * shard_leaves in
      let (hs, gathered, h1) =
        bind-ok (gather (check_roots 0 (take window_start roots))) _ (t, from) h in
      let (blocks, sent, h2) =
        bind-ok (from_lwd (l.get_block_range height height lwd).0) _ (t, from) h1 in
      let (tree, grown, h3) = bind-ok (seed_window height offset hs blocks) _ (t, from) h2 in
      let (ps, same, fetched) = check_roots_sound 0 (take window_start roots) hs gathered in
      let of_nodes : seed_window height offset (map o.to_bytes ps) blocks ≡ ok tree =
        subst (λ l. seed_window height offset l blocks ≡ ok tree) same grown in
      let s = seed_window-Seeded height offset (map o.to_bytes ps) blocks tree of_nodes in
      let (others, split) = first-cons blocks s.block s.sent in
      let typed =
        first-All IsTyped blocks s.block s.sent
          (fit height height lwd blocks (from_lwd-ok _ blocks sent)).1 in
      let is_tree : tree ≡ t = cc in
      let represents =
        append_commitments-SeedRepresents offset ps height s.block (omega arith) (omega arith) typed
          s.are_commitments in
      record {
        shards = ps;
        fetched = fetched;
        last = last;
        is_last = is_last;
        block = s.block;
        lwd = lwd;
        others = others;
        sent = from_lwd-ok _ blocks sent ∙ ap (λ (b : List CompactBlock). ok b) split;
        completes = s.at_height;
        from_next = cc (s.at_height);
        seed =
            subst (λ k. SeedRepresents offset ps k s.block t) (sym s.at_height)
              (subst (SeedRepresents offset ps height s.block) (sym s.grown ∙ is_tree) represents);
      }

  seeded-panic :
      ⦃l : Lightwalletd⦄ (roots : List SubtreeRoot) (window_start height : ℕ) (lwd : l.LwdClient)
      → seeded roots window_start height (l.get_block_range height height lwd).0 ≡ panic
      → CallPanics l
  unfolding seeded
  seeded-panic ⦃l⦄ roots window_start height lwd h =
      elim (bind-panic (gather (check_roots 0 (take window_start roots))) _ h) [
        | inl here ↦ absurd (check_roots_safe 0 (take window_start roots) here)
        | inr (hs, gathered, h1) ↦
            elim (bind-panic (from_lwd (l.get_block_range height height lwd).0) _ h1) [
              | inl call ↦ (lwd, inr (height, height, from_lwd-panic _ call))
              | inr (blocks, sent, h2) ↦
                  elim (bind-panic (seed_window height (window_start * shard_leaves) hs blocks) _
                    h2) [
                      | inl seeding ↦ absurd (seed_window_safe height _ hs blocks seeding)
                      | inr (tree, grown, h3) ↦ absurd (cc)
                    ]
            ]
      ]

  prepare_window-seeded :
      ⦃l : Lightwalletd⦄ (roots : List SubtreeRoot) (window_start : ℕ) (lwd : l.LwdClient)
      (hs : List Hash) (last : SubtreeRoot)
      → gather (check_roots 0 (take window_start roots)) ≡ ok hs
      → get_elem? roots (window_start - 1) ≡ some last
      → (prepare_window roots window_start lwd).0
        ≡ seeded roots window_start last.completing_block_height
            (l.get_block_range last.completing_block_height last.completing_block_height lwd).0
  unfolding prepare_window seeded
  prepare_window-seeded ⦃l⦄ roots window_start lwd hs last gathered is_last =
      let prefetched = gather (check_roots 0 (take window_start roots)) in
      let completing : (prefetched >>= λ roots'. expect (get_elem? roots (window_start - 1)))
          ≡ ok last =
        rw (gathered, is_last) refl in
      ap
        (λ c.
          (elim c as (λ _. Run ServerError (CommitmentTreeDb × ℕ) × l.LwdClient) [
            | err e ↦ (err e, lwd)
            | panic ↦ (panic, lwd)
            | ok root ↦ (
              prefetched >>= λ roots'.
                  from_lwd
                    (l.get_block_range root.completing_block_height root.completing_block_height
                      lwd).0
                  >>= λ blocks.
                      seed_window root.completing_block_height (window_start * shard_leaves) roots'
                        blocks
                      >>= λ tree. ok (tree, add64 root.completing_block_height 1),
              (l.get_block_range root.completing_block_height root.completing_block_height lwd).1,
            )
          ]).0)
        completing

  -- How the branch for a window ended.
  abbrev pub WindowPrepared :
      Lightwalletd → List SubtreeRoot → ℕ → Run ServerError (CommitmentTreeDb × ℕ) → Type 0
  WindowPrepared l roots window_start (ok (t, from)) = Windowed l roots window_start t from
  WindowPrepared l roots window_start (err e) = Unit
  WindowPrepared l roots window_start panic = CallPanics l

  pub prepare_window-WindowPrepared :
      ⦃l : Lightwalletd⦄ (fit : AnswersFit l) (roots : List SubtreeRoot) (window_start : ℕ)
      (lwd : l.LwdClient)
      → 0 < window_start
      → window_start ≤ length roots
      → window_start ≤ 65535
      → WindowPrepared l roots window_start (prepare_window roots window_start lwd).0
  unfolding prepare_window seeded
  prepare_window-WindowPrepared ⦃l⦄ fit roots window_start lwd pos le small =
      let (last, is_last) = nth roots (window_start - 1) (omega arith) in
      let height = last.completing_block_height in
      let answer = (l.get_block_range height height lwd).0 in
      elim (Run-cases (gather (check_roots 0 (take window_start roots)))) [
        | inr (inl (e, refused)) ↦ rw (refused, prepare_window) tt
        | inr (inr panicked) ↦ absurd (check_roots_safe 0 (take window_start roots) panicked)
        | inl (hs, gathered) ↦
            let runs = prepare_window-seeded roots window_start lwd hs last gathered is_last in
            rw runs (elim (Run-cases (seeded roots window_start height answer)) [
              | inl ((t, from), prepared) ↦
                  rw prepared
                    (seeded-Windowed fit roots window_start last lwd t from small is_last prepared)
              | inr (inl (e, failed)) ↦ rw failed tt
              | inr (inr panicked) ↦
                  rw panicked (seeded-panic roots window_start height lwd panicked)
            ])
      ]
