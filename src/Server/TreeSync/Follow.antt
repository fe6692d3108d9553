-- ===== src/Server/TreeSync/Follow.antt =====
-- The loop of the witness server, behind the channel of the follower.
use p2p_spendability_pir.Common.{
  ℕ, ◌+◌, ◌-◌, ◌^◌, ◌<◌, ◌≤◌, ◌≡◌, refl, sym, ap, subst, ◌∙◌, Option, some, List, [], ◌∷◌, ◌++◌,
  map, length, length-map, All, ltb, if_intro, inl, inr, arith, reverse, take, le→ltb, append_assoc,
  map-append, length-append, reverse-append, reverse-reverse, All-reverse, length-reverse,
  take-append,
}
use p2p_spendability_pir.Common.Run.{ok, Run-cases}
use p2p_spendability_pir.Orchard.{Orchard, Hash}
use p2p_spendability_pir.Ingest.Block.{Lightwalletd, ironwood_actions_of}
use p2p_spendability_pir.Ingest.Range.{ValidatedBlock, IsChain}
use p2p_spendability_pir.Ingest.Follow.{
  Follower, polls, new_block, reorg, History, hash_at, push_history, drop_newer,
}
use p2p_spendability_pir.Ingest.Follow.Window.{AreConsecutive, hash_at_bounds}
use p2p_spendability_pir.Ingest.Sync.Delivery.{AnswersFit}
use p2p_spendability_pir.Ingest.Follow.Events.{IsKept, InStep, Done}
use p2p_spendability_pir.Ingest.Follow.Polls.{TipsFit, polls-Current}
use p2p_spendability_pir.Witness.Tree.{
  BlockRecord, CommitmentTreeDb, rollback_to, pop_above as pop_blocks,
}
use p2p_spendability_pir.Witness.Tree.Represents.{rollback_to-Represents}
use p2p_spendability_pir.Witness.Tree.Rollback.{
  all_commitments, as_record, total, pop_above-append, total-reverse, total-all_commitments,
}
use p2p_spendability_pir.Server.TreeSync.{as_dropped, handle_event, append_block, consume_event}
use p2p_spendability_pir.Server.TreeSync.Blocks.{as_new, append_block-exactly}
use p2p_spendability_pir.Server.TreeSync.Mirror.{
  entry, split_chain, Mirrors, forget, extended-Mirrors, all_commitments-append,
}

IsChain-AreConsecutive :
    (vs : List ValidatedBlock) (start : ℕ) (prior : Option Hash)
    → IsChain start prior vs
    → AreConsecutive start (map entry vs)
IsChain-AreConsecutive [] start prior c = tt
IsChain-AreConsecutive (v ∷ vs) start prior (f, c) =
    (f.at_height, IsChain-AreConsecutive vs (start + 1) (some v.hash) c)

pop_blocks_stop :
    (target n : ℕ) (xs ys : List BlockRecord)
    → 0 < length xs
    → All (λ b. b.height ≤ target) xs
    → pop_blocks target n (xs ++ ys) ≡ (n, xs ++ ys)
unfolding pop_blocks
pop_blocks_stop target n [] ys h a = absurd (omega arith)
pop_blocks_stop target n (b ∷ xs) ys h a = rw (le→ltb target b.height a.0) refl

All-right {ℓ} : {A : Type ℓ} (P : A → Type 0) (xs ys : List A) → All P (xs ++ ys) → All P ys
All-right P [] ys h = h
All-right P (x ∷ xs) ys h = All-right P xs ys h.1

module _ ⦃o : Orchard⦄ where
  as_records : List ValidatedBlock → List BlockRecord
  as_records vs = map as_record (map as_new vs)

  All-as_records :
      (P : ℕ → Type 0) (vs : List ValidatedBlock)
      → All (λ v. P v.block.height) vs
      → All (λ b. P b.height) (as_records vs)
  unfolding as_records
  All-as_records P [] h = tt
  All-as_records P (v ∷ vs) h = (h.0, All-as_records P vs h.1)

  short_blocks :
      (vs : List ValidatedBlock) (start : ℕ) (prior : Option Hash)
      → IsChain start prior vs
      → All (λ b. length b.commitments < 2 ^ 32) (map as_new vs)
  short_blocks [] start prior c = tt
  short_blocks (v ∷ vs) start prior (f, c) = (
    omega (arith, f.typed.1, length-map (λ a. a.cmx) (ironwood_actions_of v.block)),
    short_blocks vs (start + 1) (some v.hash) c,
  )

  -- What a rollback takes from the end of the block records.
  popped_blocks :
      (fork : ℕ) (older : List BlockRecord) (kept removed : List ValidatedBlock)
      → 0 < length kept
      → All (λ v. v.block.height ≤ fork) kept
      → All (λ v. fork < v.block.height) removed
      → All (λ b. length b.commitments < 2 ^ 32) (map as_new removed)
      → pop_blocks fork 0 (reverse ((older ++ as_records kept) ++ as_records removed))
        ≡ (length (all_commitments (map as_new removed)), reverse (older ++ as_records kept))
  unfolding as_records
  popped_blocks fork older kept removed pos low high short =
      let front = older ++ as_records kept in
      let count : length (reverse (as_records kept)) ≡ length kept =
        length-reverse (as_records kept)
        ∙ length-map as_record (map as_new kept)
        ∙ length-map as_new kept in
      let n = 0 + total (reverse (as_records removed)) in
      let stop : pop_blocks fork n (reverse front) ≡ (n, reverse front) =
        subst (λ l. pop_blocks fork n l ≡ (n, l)) (sym (reverse-append older (as_records kept)))
          (pop_blocks_stop fork n (reverse (as_records kept)) (reverse older) (omega arith) (
            All-reverse (λ b. b.height ≤ fork) (as_records kept)
              (All-as_records (λ h. h ≤ fork) kept low))) in
      ap (pop_blocks fork 0) (reverse-append front (as_records removed))
      ∙ pop_above-append fork 0 (reverse (as_records removed)) (reverse front) (
          All-reverse (λ b. fork < b.height) (as_records removed)
            (All-as_records (λ h. fork < h) removed high))
      ∙ stop
      ∙ ap (λ k. (k, reverse front))
          (omega (
            arith,
            total-reverse (as_records removed),
            total-all_commitments (map as_new removed) short,
          ))

  rolled_back :
      (current fork : ℕ) (history : History) (t : CommitmentTreeDb) (hash : Hash)
      → Mirrors current history t
      → hash_at history fork ≡ some hash
      → Mirrors fork (drop_newer fork history) (rollback_to fork t)
  unfolding rollback_to as_records
  rolled_back current fork history t hash m known =
      let (low, high) =
        hash_at_bounds (map entry m.recent) m.start fork hash
          (IsChain-AreConsecutive m.recent m.start m.prior m.chain)
          (subst (λ l. hash_at l fork ≡ some hash) m.window known) in
      let c =
        split_chain fork m.start m.prior m.recent low
          (omega (arith, high, length-map entry m.recent)) m.chain in
      let kept = map as_new c.kept in
      let removed = map as_new c.removed in
      let news : map as_new m.recent ≡ kept ++ removed =
        ap (map as_new) c.parts ∙ map-append as_new c.kept c.removed in
      let blocks : t.blocks ≡ (m.older ++ as_records c.kept) ++ as_records c.removed =
        m.blocks
        ∙ ap (λ l. m.older ++ map as_record l) news
        ∙ ap (λ l. m.older ++ l) (map-append as_record kept removed)
        ∙ sym (append_assoc m.older (map as_record kept) (map as_record removed)) in
      let leaves : t.leaves ≡ (m.base ++ all_commitments kept) ++ all_commitments removed =
        m.leaves
        ∙ ap (λ l. m.base ++ all_commitments l) news
        ∙ ap (λ l. m.base ++ l) (all_commitments-append kept removed)
        ∙ sym (append_assoc m.base (all_commitments kept) (all_commitments removed)) in
      let popped : pop_blocks fork 0 (reverse t.blocks)
          ≡ (length (all_commitments removed), reverse (m.older ++ as_records c.kept)) =
        ap (λ l. pop_blocks fork 0 (reverse l)) blocks
        ∙ popped_blocks fork m.older c.kept c.removed c.nonempty c.low c.high (
            All-right _ kept removed (
              subst (All (λ b. length b.commitments < 2 ^ 32)) news
                (short_blocks m.recent m.start m.prior m.chain))) in
      let size : length t.leaves - length (all_commitments removed)
          ≡ length (m.base ++ all_commitments kept) =
        omega (
          arith,
          ap length leaves,
          length-append (m.base ++ all_commitments kept) (all_commitments removed),
        ) in
      record {
        base = m.base;
        older = m.older;
        recent = c.kept;
        start = m.start;
        prior = m.prior;
        chain = c.chain;
        reaches = c.reaches;
        window = ap (drop_newer fork) m.window ∙ c.in_window;
        leaves =
            ap (λ p. take (length t.leaves - p.0) t.leaves) popped
            ∙ ap (λ n. take n t.leaves) size
            ∙ ap (take (length (m.base ++ all_commitments kept))) leaves
            ∙ take-append (m.base ++ all_commitments kept) (all_commitments removed);
        blocks = ap (λ p. reverse p.1) popped ∙ reverse-reverse (m.older ++ as_records c.kept);
        notes = take (length m.notes - (pop_blocks fork 0 (reverse t.blocks)).0) m.notes;
        roots = m.roots;
        represents = rollback_to-Represents fork m.represents;
      }

  consume_new-ok :
      (v : ValidatedBlock) (t : CommitmentTreeDb)
      → (consume_event (new_block v) t).0 ≡ ok tt
      → ((append_block v t).0 ≡ ok tt) × ((consume_event (new_block v) t).1 ≡ (append_block v t).1)
  unfolding consume_event handle_event as_dropped
  consume_new-ok v t h = elim (Run-cases (append_block v t).0) [
    | inl (u, took) ↦ (took, rw (took, as_dropped) refl)
    | inr (inl (e, refused)) ↦ absurd (ground arith)
    | inr (inr panicked) ↦ absurd (ground arith)
  ]

  pushed :
      (window current : ℕ) (history : History) (hash : Hash) (t : CommitmentTreeDb)
      → 0 < length history
      → Mirrors current (history ++ (current, hash) ∷ []) t
      → Mirrors current (push_history window current hash history) t
  unfolding push_history
  pushed window current history hash t pos m =
      if_intro (λ l. Mirrors current l t) (ltb window (length (history ++ (current, hash) ∷ []))) _
        _
        (λ full.
          forget current (history ++ (current, hash) ∷ []) t
            (omega (arith, length-append history ((current, hash) ∷ []))) m)
        (λ fits. m)

  rolled_back_event :
      (fork : ℕ) (t : CommitmentTreeDb) {history : History}
      → Mirrors fork history (rollback_to fork t)
      → Mirrors fork history (consume_event (reorg fork) t).1
  unfolding consume_event handle_event as_dropped
  rolled_back_event fork t m = m

  -- The loop of the witness server keeps its tree a mirror of the window of the follower: over a
  -- new block that the tree accepts, and over a reorganisation to any block of the window.
  pub consume_event-IsKept : (window : ℕ) → IsKept window consume_event Mirrors
  consume_event-IsKept window = record {
    extends = λ current history t hash v w newest f took m.
        let (appended, same) = consume_new-ok v t took in
        let a = (append_block-exactly v t m.notes m.roots f.typed m.represents).1 appended in
        subst (Mirrors (current + 1) (push_history window (current + 1) v.hash history)) (sym same)
          (pushed window (current + 1) history v.hash _ w.nonempty
            (extended-Mirrors current history t (append_block v t).1 hash v m newest f a));
    goes_back = λ current fork history t hash w known lt took m.
        rolled_back_event fork t (rolled_back current fork history t hash m known);
  }

  -- A witness server whose tree mirrors the window of its follower: after any number of polls, in
  -- which lightwalletd may move on or switch to another branch that meets the window, a poll that
  -- did not fail leaves the tree a mirror of the window at the new height. The leaves end with the
  -- commitments of a linked chain of validated blocks up to that height, in order, and the tree
  -- represents its notes. An answer of lightwalletd has fewer than 2^63 blocks, heights are below
  -- 2^62, and the rounds of a poll never run out.
  pub polls-Mirrors :
      ⦃l : Lightwalletd⦄ (fit : AnswersFit l) (tips : TipsFit l) (window n depth : ℕ)
      (pos : 0 < window) (f : Follower l.LwdClient CommitmentTreeDb) (newest : Hash)
      → InStep window consume_event Mirrors f.current_height newest f.history f.consumer
      → Done
          (λ g.
            (newest' : Hash) × InStep window consume_event Mirrors g.current_height newest'
              g.history g.consumer)
          (polls consume_event window n depth f)
  polls-Mirrors fit tips window n depth pos f newest step =
      polls-Current window consume_event Mirrors (consume_event-IsKept window) pos fit tips n depth
        f (newest, step)
