-- ===== src/Ingest/Follow/Polls.antt =====
-- A poll, and any number of polls, keep a follower in step with its consumer.
use p2p_spendability_pir.Common.{
  ℕ, zero, suc, ◌+◌, ◌-◌, ◌^◌, ◌<◌, ◌≤◌, ◌≡◌, refl, sym, subst, ◌∙◌, none, some, ltb, ltb→lt,
  ltb→le, if◌then◌else◌, if_intro, Bool-cases, min, add64, inl, inr, arith, Option-cases,
}
use p2p_spendability_pir.Common.Run.{Run, ok, Run-cases}
use p2p_spendability_pir.Orchard.{Hash}
use p2p_spendability_pir.Ingest.Block.{Lightwalletd, ClientError}
use p2p_spendability_pir.Ingest.Range.{PipelineError, fetch_validated, from_client}
use p2p_spendability_pir.Ingest.Sync.{batch_size}
use p2p_spendability_pir.Ingest.Sync.Delivery.{from_client-ok, AnswersFit, fetch_validated-IsChain}
use p2p_spendability_pir.Ingest.Follow.{
  BlockEvent, reorg, History, hash_at, find_fork, Follower, catch_up, extend_to, roll_back, poll,
  polls, oldest_height,
}
use p2p_spendability_pir.Ingest.Follow.Window.{
  hash_at_bounds, drop_newer_lem, find_fork-hash_at, find_fork-le,
}
use p2p_spendability_pir.Ingest.Follow.Events.{
  IsKept, InStep, Done, Done-then, Done-imp, UpTo, catch_up-UpTo,
}

-- The heights of the chain stay far below the range of a u64.
abbrev pub TipsFit : Lightwalletd → Type 0
TipsFit l =
    (lwd : l.LwdClient) (height : ℕ) (hash : Hash)
    → (l.get_latest_block lwd).0 ≡ ok (height, hash)
    → height < 2 ^ 62

module _ (window : ℕ) {S : Type 0} (consume : BlockEvent → S → Run PipelineError (Unit {0}) × S)
    (R : ℕ → History → S → Type 0) (kept : IsKept window consume R) (pos : 0 < window) where
  -- A follower at its height, in step with its consumer.
  abbrev pub Current : {C : Type 0} → Follower C S → Type 0
  Current f = (newest : Hash) × InStep window consume R f.current_height newest f.history f.consumer

  roll_back-InStep :
      {C : Type 0} (fork : ℕ) (hash : Hash) (f : Follower C S)
      → Current f
      → hash_at f.history fork ≡ some hash
      → (roll_back consume window fork f).0 ≡ ok tt
      → InStep window consume R fork hash
          (roll_back consume window fork f).1.history
          (roll_back consume window fork f).1.consumer
  unfolding roll_back
  roll_back-InStep fork hash f (newest, step) known h =
      let (low, high) =
        hash_at_bounds f.history step.is_window.oldest fork hash step.is_window.consecutive known in
      elim (Bool-cases (ltb fork f.current_height)) [
        | inr here ↦
            let same : fork ≡ f.current_height = ground arith in
            rw (here, roll_back)
              (subst (λ n. InStep window consume R n hash f.history f.consumer) (sym same)
                (record {
                  is_window = step.is_window;
                  has_newest = subst (λ n. hash_at f.history n ≡ some hash) same known;
                  related = step.related;
                }))
        | inl below ↦ elim (Run-cases (consume (reorg fork) f.consumer).0) [
          | inl (u, took) ↦
              rw (below, took, roll_back)
                (let (c, count, same) =
                    drop_newer_lem f.history step.is_window.oldest fork step.is_window.consecutive
                      low high in
                  let fork_lt : fork < f.current_height = ltb→lt _ _ below in
                  record {
                    is_window = record {
                      oldest = step.is_window.oldest;
                      consecutive = c;
                      reaches = count;
                      nonempty = omega arith;
                      bounded = omega arith;
                    };
                    has_newest = same fork (omega arith) ∙ known;
                    related =
                        kept.goes_back f.current_height fork f.history f.consumer hash
                          step.is_window known fork_lt took step.related;
                  })
          | inr (inl (e, refused)) ↦ absurd (ground arith)
          | inr (inr panicked) ↦ absurd (ground arith)
        ]
      ]

  extend_to-Current :
      ⦃l : Lightwalletd⦄ (fit : AnswersFit l) (fork target : ℕ) (hash : Hash)
      (f : Follower l.LwdClient S)
      → target + batch_size + 1 < 2 ^ 63
      → fork ≤ target
      → InStep window consume R fork hash f.history f.consumer
      → Done
          (λ f'. (f'.current_height ≡ target) × Current f')
          (extend_to consume window fork target f)
  unfolding extend_to
  extend_to-Current fit fork target hash f small bound step =
      Done-then (UpTo window consume R kept pos target)
        (λ f'. (f'.current_height ≡ target) × Current f')
        (if ltb fork target
          then catch_up consume window (target - fork) (add64 fork 1) target
              (hash_at f.history fork) f
          else some (ok tt, f))
        (λ f'. some (ok tt, record f' { current_height = target })) (λ f' up. (refl, up))
        (if_intro (Done (UpTo window consume R kept pos target)) (ltb fork target) _ _
          (λ less.
            let next : add64 fork 1 ≡ fork + 1 = omega arith in
            rw (next, step.has_newest)
              (catch_up-UpTo window consume R kept pos fit (target - fork) fork target hash f small
                bound (omega arith) step))
          (λ there.
            let same : fork ≡ target = ground arith in
            (hash, subst (λ n. InStep window consume R n hash f.history f.consumer) same step)))

  -- after a poll that lightwalletd answered with this tip
  abbrev pub Reached : {C : Type 0} → ℕ → Run ClientError (ℕ × Hash) → Follower C S → Type 0
  Reached depth tip f =
      Current f
      × (height : ℕ) × (hash : Hash) × (tip ≡ ok (height, hash))
      × (f.current_height ≡ height - depth)

  -- A poll that did not fail brings a follower to the tip that lightwalletd gave, less the
  -- confirmations, with a window of at most the given length of consecutive heights up to there;
  -- whatever its consumer keeps over each block that follows the newest of the window, and over
  -- each return to a block of the window, holds of the consumer again. The rounds of a poll never
  -- run out. An answer of lightwalletd has fewer than 2^63 blocks and tips are below 2^62.
  pub poll-Current :
      ⦃l : Lightwalletd⦄ (fit : AnswersFit l) (tips : TipsFit l) (depth : ℕ)
      (f : Follower l.LwdClient S)
      → Current f
      → Done (Reached depth (l.get_latest_block f.lwd).0) (poll consume window depth f)
  unfolding poll
  poll-Current ⦃l⦄ fit tips depth f (newest, step) =
      let (tip, lwd) = l.get_latest_block f.lwd in
      let old = oldest_height f.history f.current_height in
      elim (Run-cases (from_client tip)) [
        | inr (inl (e, got)) ↦ rw (got, Done) tt
        | inr (inr got) ↦ rw (got, Done) tt
        | inl ((height, tip_hash), got) ↦
            let target = height - depth in
            let end = min f.current_height target in
            let low : height < 2 ^ 62 = tips f.lwd height tip_hash (from_client-ok _ _ got) in
            rw (got, Done)
              (elim (Bool-cases (ltb end old)) [
                | inl beyond ↦ rw (beyond, Done) tt
                | inr within ↦
                    rw (within, Done)
                      (elim (Run-cases (fetch_validated old end none lwd).0) [
                        | inr (inl (e, fetched)) ↦ rw (fetched, Done) tt
                        | inr (inr fetched) ↦ rw (fetched, Done) tt
                        | inl (overlap, fetched) ↦
                            rw (fetched, Done)
                              (let reach : old ≤ end = ltb→le end old within in
                                let (chain, count) =
                                  fetch_validated-IsChain fit old end none lwd overlap (omega arith)
                                    (omega arith) fetched in
                                let lwd' = (fetch_validated old end none lwd).1 in
                                elim (Option-cases (find_fork f.history overlap)) [
                                  | inl unknown ↦ rw (unknown, Done) tt
                                  | inr (fork, known) ↦
                                      let (hash, present) =
                                        find_fork-hash_at f.history overlap fork known in
                                      let f' = record f { lwd = lwd' } in
                                      let rolled = roll_back consume window fork f' in
                                      rw (known, Done)
                                        (elim (Run-cases rolled.0) [
                                          | inr (inl (e, refused)) ↦ rw (refused, Done) tt
                                          | inr (inr panicked) ↦ rw (panicked, Done) tt
                                          | inl (u, took) ↦
                                              let step' =
                                                roll_back-InStep fork hash f' (newest, step) present
                                                  took in
                                              let fork_le =
                                                find_fork-le f.history overlap old end fork chain
                                                  count known in
                                              rw (took, Done)
                                                (Done-imp _
                                                  (Reached depth (l.get_latest_block f.lwd).0) _
                                                  (λ g p. (
                                                    p.1,
                                                    height,
                                                    tip_hash,
                                                    from_client-ok _ _ got,
                                                    p.0,
                                                  ))
                                                  (extend_to-Current fit fork target hash rolled.1
                                                    (omega arith) (omega arith) step'))
                                        ])
                                ])
                      ])
              ])
      ]

  -- any number of polls
  pub polls-Current :
      ⦃l : Lightwalletd⦄ (fit : AnswersFit l) (tips : TipsFit l) (n depth : ℕ)
      (f : Follower l.LwdClient S)
      → Current f
      → Done Current (polls consume window n depth f)
  unfolding polls
  polls-Current fit tips zero depth f c = c
  polls-Current ⦃l⦄ fit tips (suc n) depth f c =
      Done-then (Reached depth (l.get_latest_block f.lwd).0) Current (poll consume window depth f)
        (λ g. polls consume window n depth g) (λ g p. polls-Current fit tips n depth g p.0)
        (poll-Current fit tips depth f c)
