-- ===== src/Ingest/Follow/Start.antt =====
-- The window with which a follower starts.
use p2p_spendability_pir.Common.{
  ℕ, zero, suc, map, max, ◌++◌, append-nil, append_assoc, length-append, le→ltb, if◌then◌else◌,
  drop, ◌⊎◌, inl, inr, ◌+◌, ◌-◌, ◌^◌, ◌<◌, ◌≤◌, ◌≡◌, refl, ap, sym, subst, ◌∙◌, Option, none, some,
  false, List, [], ◌∷◌, length, ltb, arith, bytes_eq_sound,
}
use p2p_spendability_pir.Common.Run.{ok, bind-ok, fail_if-ok}
use p2p_spendability_pir.Orchard.{Hash}
use p2p_spendability_pir.Ingest.Block.{Lightwalletd, CompactBlock}
use p2p_spendability_pir.Ingest.Range.{
  ValidatedBlock, IsChain, fetch_validated, from_client, blocks_of,
}
use p2p_spendability_pir.Ingest.Range.Exact.{validate_range-exactly}
use p2p_spendability_pir.Ingest.Sync.{last_hash, chain_end, last_hash-chain_end}
use p2p_spendability_pir.Ingest.Sync.Delivery.{AnswersFit, from_client-ok}
use p2p_spendability_pir.Ingest.Follow.{
  History, hash_at, push_history, track, start, history_start, starts_elsewhere,
}
use p2p_spendability_pir.Ingest.Follow.Window.{IsWindow, push_history-IsWindow}

-- A window up to a height, the newest block of which has this hash.
abbrev pub EndsAt : ℕ → ℕ → Option Hash → History → Type 0
EndsAt window current newest history =
    IsWindow window current history × (hash_at history current ≡ newest)

track-EndsAt :
    (window : ℕ) (pos : 0 < window) (vs : List ValidatedBlock) (current : ℕ) (newest : Hash)
    (history : History)
    → EndsAt window current (some newest) history
    → IsChain (current + 1) (some newest) vs
    → EndsAt window (current + length vs) (chain_end (some newest) vs) (track window vs history)
unfolding track
track-EndsAt window pos [] current newest history e chain =
    let same : current + 0 ≡ current = omega arith in rw same e
track-EndsAt window pos (v ∷ vs) current newest history (w, e) (f, chain) =
    let pushed = push_history-IsWindow window current history v.hash pos w in
    let count : current + suc (length vs) ≡ current + 1 + length vs = omega arith in
    rw (count, f.at_height) (track-EndsAt window pos vs (current + 1) v.hash _ pushed chain)

first-EndsAt :
    (window height : ℕ) (hash : Hash)
    → 0 < window
    → EndsAt window height (some hash) (push_history window height hash [])
unfolding push_history hash_at
first-EndsAt window height hash pos =
    let fits : ltb window 1 ≡ false = ground arith in
    rw fits (
      record {
        oldest = height;
        consecutive = (refl, tt);
        reaches = refl;
        nonempty = omega arith;
        bounded = omega arith;
      },
      ground arith,
    )

track-first :
    (window : ℕ) (pos : 0 < window) (vs : List ValidatedBlock) (from : ℕ) (prior : Option Hash)
    → 0 < length vs
    → IsChain from prior vs
    → (to : ℕ) → from + length vs ≡ to + 1
    → EndsAt window to (chain_end prior vs) (track window vs [])
unfolding track
track-first window pos [] from prior some_ chain to count = absurd (omega arith)
track-first window pos (v ∷ vs) from prior some_ (f, chain) to count =
    let end : to ≡ from + length vs = omega arith in
    rw (end, f.at_height)
      (track-EndsAt window pos vs from v.hash _ (first-EndsAt window from v.hash pos) chain)

history_start-le : (height window : ℕ) → history_start height window ≤ height
unfolding history_start
history_start-le height window = ground arith

starts_elsewhere-false :
    (o : Option Hash) (hash : Hash) → starts_elsewhere o hash ≡ false → o ≡ some hash
unfolding starts_elsewhere
starts_elsewhere-false none hash h = absurd (cc)
starts_elsewhere-false (some x) hash h = ap some (bytes_eq_sound x hash (ground arith))

track-appends :
    (window : ℕ) (vs : List ValidatedBlock) (history : History)
    → length history + length vs ≤ window
    → track window vs history ≡ history ++ map (λ v. (v.block.height, v.hash)) vs
unfolding track push_history
track-appends window [] history fits = sym (append-nil history)
track-appends window (v ∷ vs) history fits =
    let pushed = history ++ (v.block.height, v.hash) ∷ [] in
    let count : length pushed ≡ length history + 1 =
      length-append history ((v.block.height, v.hash) ∷ []) in
    let short : ltb window (length pushed) ≡ false = le→ltb _ _ (omega (arith, count)) in
    ap (λ b. track window vs (if b then drop 1 pushed else pushed)) short
    ∙ track-appends window vs pushed (omega (arith, count))
    ∙ append_assoc history ((v.block.height, v.hash) ∷ []) (map (λ v. (v.block.height, v.hash)) vs)

-- the first height that a start at this height asks for, for a window of this length
abbrev pub AsksFrom : ℕ → ℕ → ℕ → Type 0
AsksFrom height window from =
    ((height ≡ 0) × (from ≡ 0)) ⊎ ((0 < height) × (from ≡ max 1 (height + 1 - window)))

-- A window whose blocks lightwalletd has sent, as a chain that ends in the given block.
pub record StartsOn ⦃l : Lightwalletd⦄ (height : ℕ) (hash : Hash) (window : ℕ) (lwd : l.LwdClient)
    (history : History) : Type 0 where
  pub from : ℕ
  pub asks : AsksFrom height window from
  pub blocks : List CompactBlock
  pub sent : (l.get_block_range from height lwd).0 ≡ ok blocks
  pub chain : List ValidatedBlock
  pub same : blocks ≡ blocks_of chain
  pub is_chain : IsChain from none chain
  pub reaches : from + length chain ≡ height + 1
  pub newest : chain_end none chain ≡ some hash
  pub recorded : history ≡ map (λ v. (v.block.height, v.hash)) chain
  pub ends : EndsAt window height (some hash) history

history_start-AsksFrom :
    (height window : ℕ) → 0 < window → AsksFrom height window (history_start height window)
unfolding history_start
history_start-AsksFrom zero window pos = inl (refl, ground arith)
history_start-AsksFrom (suc height) window pos = inr (omega arith, ground arith)

-- A follower that starts at a block has checked with lightwalletd that this block is on the chain:
-- lightwalletd has sent the blocks from the first one of the window to that height, each of them
-- links to the one before it, and the last one has that hash. The follower's window lists exactly
-- these blocks with their heights and hashes, and is not longer than was asked for. The height is
-- below 2^63 - 1, the window is not empty, and an answer has fewer than 2^63 blocks.
pub start-EndsAt :
    ⦃l : Lightwalletd⦄ (fit : AnswersFit l) (height : ℕ) (hash : Hash) (window : ℕ)
    (lwd : l.LwdClient) (history : History)
    → height + 1 < 2 ^ 63
    → 0 < window
    → (start height hash window lwd).0 ≡ ok history
    → StartsOn height hash window lwd history
unfolding start fetch_validated
start-EndsAt ⦃l⦄ fit height hash window lwd history small pos h =
    let from = history_start height window in
    let (vs, fetched, h1) = bind-ok (fetch_validated from height none lwd).0 _ history h in
    let low = history_start-le height window in
    let asks = history_start-AsksFrom height window pos in
    let (blocks, answer, valid) =
      bind-ok (from_client (l.get_block_range from height lwd).0) _ vs fetched in
    let sent = from_client-ok _ blocks answer in
    let short = fit from height lwd blocks sent in
    let (chain, same, count) =
      (validate_range-exactly blocks from height none vs (omega arith) (omega arith) short.1).0
        valid in
    let (there, h2) = fail_if-ok _ _ (ok (track window vs [])) history h1 in
    let is_last = starts_elsewhere-false (last_hash vs) hash there in
    let ends : EndsAt window height (chain_end none vs) (track window vs []) =
      track-first window pos vs from none (omega arith) chain height count in
    let last = sym (last_hash-chain_end none vs (omega arith)) ∙ is_last in
    let tracked : track window vs [] ≡ history = cc in
    record {
      from = from;
      asks = asks;
      blocks = blocks;
      sent = sent;
      chain = vs;
      same = same;
      is_chain = chain;
      reaches = count;
      newest = last;
      recorded = sym tracked ∙ track-appends window vs [] (omega (arith, asks, count));
      ends =
          subst (EndsAt window height (some hash)) tracked
            (subst (λ o. EndsAt window height o (track window vs [])) last ends);
    }
