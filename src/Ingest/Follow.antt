-- ===== src/Ingest/Follow.antt =====
-- crates/server/src/ingest/pipeline.rs: following the confirmed chain, and the window of recent
-- blocks by which a fork is found. The window stands in a list with its oldest block first. A poll
-- is one round of the loop of `follow_blocks`, which never ends but by an error.
pub mod Window
pub mod Events
pub mod Start
pub mod Polls
use p2p_spendability_pir.Common.{
  ℕ, zero, suc, ◌+◌, ◌-◌, ◌≡◌, refl, Option, none, some, Bool, true, false, List, [], ◌∷◌, ◌++◌,
  reverse, length, drop, ltb, leb, ◌==◌, if◌then◌else◌, min, max, not, add64, sub64, bytes_eq,
}
use p2p_spendability_pir.Common.Run.{Run, ok, err, panic, ◌>>=◌, ◌>>◌, fail_if}
use p2p_spendability_pir.Orchard.{Hash}
use p2p_spendability_pir.Ingest.Block.{Lightwalletd}
use p2p_spendability_pir.Ingest.Range.{
  PipelineError, reorg_beyond_window, ValidatedBlock, fetch_validated, from_client,
}
use p2p_spendability_pir.Ingest.Sync.{batch_size, last_hash}

pub data BlockEvent : Type 0 where
  new_block : ValidatedBlock → BlockEvent
  reorg : ℕ → BlockEvent

abbrev pub History : Type 0
History = List (ℕ × Hash)

unfoldable pub hash_at : History → ℕ → Option Hash
hash_at [] height = none
hash_at ((candidate, hash) ∷ history) height =
    if candidate == height then some hash else hash_at history height

unfoldable pub push_history : ℕ → ℕ → Hash → History → History
push_history max_depth height hash history =
    let pushed = history ++ (height, hash) ∷ [] in
    if ltb max_depth (length pushed) then drop 1 pushed else pushed

-- `history.front().map_or(current_height, |(height, _)| *height)`
unfoldable pub oldest_height : History → ℕ → ℕ
oldest_height [] current_height = current_height
oldest_height ((height, hash) ∷ history) current_height = height

-- `hash_at(&history, block.height()) == Some(block.hash)`
unfoldable pub is_known : History → ValidatedBlock → Bool
is_known history v = elim (hash_at history v.block.height) [
  | none ↦ false
  | some hash ↦ bytes_eq hash v.hash
]

-- `iter().find(...).map(ValidatedBlock::height)`, on the reversed overlap
unfoldable pub find_known : History → List ValidatedBlock → Option ℕ
find_known history [] = none
find_known history (v ∷ vs) =
    let older = find_known history vs in if is_known history v then some v.block.height else older

unfoldable pub find_fork : History → List ValidatedBlock → Option ℕ
find_fork history overlap = find_known history (reverse overlap)

-- `while history.back().is_some_and(|(height, _)| *height > fork) { history.pop_back(); }`
unfoldable pub drop_newer : ℕ → History → History
drop_newer fork [] = []
drop_newer fork ((height, hash) ∷ history) = elim (drop_newer fork history) [
  | [] ↦ if ltb fork height then [] else (height, hash) ∷ []
  | newer ∷ kept ↦ (height, hash) ∷ newer ∷ kept
]

-- the state of the loop, with the state of its consumer
pub record Follower (C S : Type 0) : Type 0 where
  pub lwd : C
  pub consumer : S
  pub history : History
  pub current_height : ℕ

module _ {S : Type 0} (consume : BlockEvent → S → Run PipelineError (Unit {0}) × S)
    (window : ℕ) where
  -- `for block in blocks { push_history(...); consume(BlockEvent::NewBlock(block)).await?; }`
  unfoldable pub deliver :
      List ValidatedBlock → History → S → Run PipelineError (Unit {0}) × History × S
  deliver [] history s = (ok tt, history, s)
  deliver (v ∷ vs) history s =
      let history' = push_history window v.block.height v.hash history in
      let (answer, s') = consume (new_block v) s in
      elim answer [
        | ok u ↦ deliver vs history' s'
        | err e ↦ (err e, history', s')
        | panic ↦ (panic, history', s')
      ]

  -- `while next <= target`, for `fuel` rounds at most
  unfoldable pub catch_up :
      ⦃l : Lightwalletd⦄
      → ℕ
      → ℕ
      → ℕ
      → Option Hash
      → Follower l.LwdClient S
      → Option (Run PipelineError (Unit {0}) × Follower l.LwdClient S)
  catch_up zero next target expected_prev f = if leb next target then none else some (ok tt, f)
  catch_up (suc fuel) next target expected_prev f = elim (leb next target) [
    | false ↦ some (ok tt, f)
    | true ↦
        let end = min (sub64 (add64 next batch_size) 1) target in
        let (fetched, lwd) = fetch_validated next end expected_prev f.lwd in
        elim fetched [
          | err e ↦ some (err e, record f { lwd = lwd })
          | panic ↦ some (panic, record f { lwd = lwd })
          | ok blocks ↦
              let delivered = deliver blocks f.history f.consumer in
              let f' = record f { lwd = lwd; history = delivered.1; consumer = delivered.2 } in
              elim delivered.0 [
                | err e ↦ some (err e, f')
                | panic ↦ some (panic, f')
                | ok u ↦ catch_up fuel (add64 end 1) target (last_hash blocks) f'
              ]
        ]
  ]

  -- `if fork < target { ... } current_height = target;`
  unfoldable pub extend_to :
      ⦃l : Lightwalletd⦄
      → ℕ
      → ℕ
      → Follower l.LwdClient S
      → Option (Run PipelineError (Unit {0}) × Follower l.LwdClient S)
  extend_to fork target f =
      let caught_up =
        if ltb fork target
        then catch_up (target - fork) (add64 fork 1) target (hash_at f.history fork) f
        else some (ok tt, f) in
      elim caught_up [
        | none ↦ none
        | some (answer, f') ↦ elim answer [
          | ok u ↦ some (ok tt, record f' { current_height = target })
          | err e ↦ some (err e, f')
          | panic ↦ some (panic, f')
        ]
      ]

  -- `if fork < current_height { consume(BlockEvent::Reorg { .. }).await?; ... }`
  unfoldable pub roll_back :
      {C : Type 0} → ℕ → Follower C S → Run PipelineError (Unit {0}) × Follower C S
  roll_back fork f =
      let (answer, s) = consume (reorg fork) f.consumer in
      elim (ltb fork f.current_height) [
        | false ↦ (ok tt, f)
        | true ↦ elim answer [
          | ok u ↦ (ok tt, record f { consumer = s; history = drop_newer fork f.history })
          | err e ↦ (err e, record f { consumer = s })
          | panic ↦ (panic, record f { consumer = s })
        ]
      ]

  -- one round of the loop
  unfoldable pub poll :
      ⦃l : Lightwalletd⦄
      → ℕ
      → Follower l.LwdClient S
      → Option (Run PipelineError (Unit {0}) × Follower l.LwdClient S)
  poll ⦃l⦄ confirmation_depth f =
      let beyond = reorg_beyond_window f.current_height window in
      let oldest = oldest_height f.history f.current_height in
      let (tip, lwd) = l.get_latest_block f.lwd in
      elim (from_client tip) [
        | err e ↦ some (err e, record f { lwd = lwd })
        | panic ↦ some (panic, record f { lwd = lwd })
        | ok (tip_height, tip_hash) ↦
            let target = tip_height - confirmation_depth in
            let overlap_end = min f.current_height target in
            let (fetched, lwd') = fetch_validated oldest overlap_end none lwd in
            elim (ltb overlap_end oldest) [
              | true ↦ some (err beyond, record f { lwd = lwd })
              | false ↦ elim fetched [
                | err e ↦ some (err e, record f { lwd = lwd' })
                | panic ↦ some (panic, record f { lwd = lwd' })
                | ok overlap ↦ elim (find_fork f.history overlap) [
                  | none ↦ some (err beyond, record f { lwd = lwd' })
                  | some fork ↦
                      let (answer, f') = roll_back fork (record f { lwd = lwd' }) in
                      elim answer [
                        | err e ↦ some (err e, f')
                        | panic ↦ some (panic, f')
                        | ok u ↦ extend_to fork target f'
                      ]
                ]
              ]
            ]
      ]

  -- the loop, for so many polls
  unfoldable pub polls :
      ⦃l : Lightwalletd⦄
      → ℕ
      → ℕ
      → Follower l.LwdClient S
      → Option (Run PipelineError (Unit {0}) × Follower l.LwdClient S)
  polls zero confirmation_depth f = some (ok tt, f)
  polls (suc n) confirmation_depth f = elim (poll confirmation_depth f) [
    | none ↦ none
    | some (answer, f') ↦ elim answer [
      | ok u ↦ polls n confirmation_depth f'
      | err e ↦ some (err e, f')
      | panic ↦ some (panic, f')
    ]
  ]

unfoldable pub history_start : ℕ → ℕ → ℕ
history_start start_height reorg_window =
    if start_height == 0 then 0 else max (start_height - (reorg_window - 1)) 1

-- `for block in recent_blocks { push_history(...); }`
unfoldable pub track : ℕ → List ValidatedBlock → History → History
track window [] history = history
track window (v ∷ vs) history = track window vs (push_history window v.block.height v.hash history)

-- `recent_blocks.last().map(|block| block.hash) != Some(start_hash)`
unfoldable pub starts_elsewhere : Option Hash → Hash → Bool
starts_elsewhere none start_hash = true
starts_elsewhere (some hash) start_hash = not (bytes_eq hash start_hash)

-- what `follow_blocks` does before its loop
unfoldable pub start :
    ⦃l : Lightwalletd⦄ → ℕ → Hash → ℕ → l.LwdClient → Run PipelineError History × l.LwdClient
start ⦃l⦄ start_height start_hash reorg_window lwd =
    let (fetched, lwd') =
      fetch_validated (history_start start_height reorg_window) start_height none lwd in
    let history = (do
      recent_blocks ← fetched
      fail_if (starts_elsewhere (last_hash recent_blocks) start_hash)
          (reorg_beyond_window start_height reorg_window)
      ok (track reorg_window recent_blocks [])) in
    (history, lwd')
