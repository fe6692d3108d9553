-- ===== src/Client/Reconstruct/Root.antt =====
-- `reconstruct_witness` on canonical input: it succeeds, and its root is the one that the row and
-- the broadcast determine.
use p2p_spendability_pir.Common.{
  ℕ, zero, suc, ◌+◌, ◌-◌, ◌*◌, ◌<◌, ◌≤◌, ◌≡◌, refl, sym, ap, ◌∙◌, List, [], ◌∷◌, ◌++◌, map,
  map-append, append-nil, some, length, get_or, get_elem?, get_elem?-eq-get_or, drop, get_or-drop,
  length-drop, get_or-map, length-map, tabulate, length-tabulate, tabulate_from, tabulate_from-zero,
  map-tabulate, get_or-tabulate, concat, slice, slice-concat, length-concat, length-replicate,
  replicate, ltb, le→ltb, lt→leb, ◌==◌, ==_iff, false, true, inl, arith,
}
use p2p_spendability_pir.Common.Run.{ok}
use p2p_spendability_pir.Orchard.{Orchard, Hash, is_canonical_hash}
use p2p_spendability_pir.Witness.Types.{BroadcastData}
use p2p_spendability_pir.Witness.Merkle.{node_from, padded}
use p2p_spendability_pir.Client.Reconstruct.{
  root_from, compute_root_from_path, parse_from, parse_leaves, any_non_canonical, malformed,
  validate_broadcast, reconstruct_witness,
}
use p2p_spendability_pir.Client.Reconstruct.Path.{
  HasSiblings, extract_siblings-HasSiblings, root_from-tier,
}

module _ ⦃o : Orchard⦄ where
  is_canonical_hash-to_bytes : (n : o.Node) → is_canonical_hash (o.to_bytes n) ≡ true
  unfolding is_canonical_hash
  is_canonical_hash-to_bytes n = rw (o.from_bytes-to_bytes n)

  any_non_canonical-map : (ns : List o.Node) → any_non_canonical (map o.to_bytes ns) ≡ false
  unfolding any_non_canonical
  any_non_canonical-map [] = refl
  any_non_canonical-map (n ∷ ns) = rw (is_canonical_hash-to_bytes n) (any_non_canonical-map ns)

  abbrev row_of : (ℕ → o.Node) → List ℕ
  row_of g = concat (map o.to_bytes (tabulate 256 g))

  row_of-from : (g : ℕ → o.Node) → row_of g ≡ concat (tabulate_from 0 256 (λ j. o.to_bytes (g j)))
  row_of-from g =
      ap concat
        (map-tabulate o.to_bytes 256 g ∙ sym (tabulate_from-zero 256 (λ j. o.to_bytes (g j))))

  length-row_of : (g : ℕ → o.Node) → length (row_of g) ≡ 8192
  length-row_of g =
      ap length (row_of-from g)
      ∙ length-concat 32 256 (λ j. o.to_bytes (g j)) 0 (λ k. o.length-to_bytes (g k))

  slice-row_of :
      (g : ℕ → o.Node) (k : ℕ) → k < 256 → slice (k * 32) 32 (row_of g) ≡ o.to_bytes (g k)
  slice-row_of g k h =
      ap (slice (k * 32) 32) (row_of-from g ∙ sym (append-nil _))
      ∙ slice-concat 32 256 k (λ j. o.to_bytes (g j)) 0 [] (λ j. o.length-to_bytes (g j)) h
      ∙ ap (λ i. o.to_bytes (g i)) (omega arith)

  parse_from-row_of :
      (g : ℕ → o.Node) (n i : ℕ)
      → i + n ≤ 256
      → parse_from n i (row_of g) ≡ ok (map o.to_bytes (tabulate_from i n g))
  unfolding parse_from tabulate_from
  parse_from-row_of g zero i h = refl
  parse_from-row_of g (suc n) i h = rw (
    slice-row_of g i (omega arith),
    is_canonical_hash-to_bytes (g i),
    parse_from-row_of g n (i + 1) (omega arith),
  )

  -- A row of 256 encoded leaves is parsed to those leaves.
  pub parse_leaves-row_of :
      (g : ℕ → o.Node)
      → parse_leaves (concat (map o.to_bytes (tabulate 256 g)))
        ≡ ok (map o.to_bytes (tabulate 256 g))
  unfolding parse_leaves
  parse_leaves-row_of g = rw (le→ltb (length (row_of g)) 8192 (omega (arith, length-row_of g))) (
      parse_from-row_of g 256 0 (omega arith)
      ∙ ap (λ l. ok (map o.to_bytes l)) (tabulate_from-zero 256 g))

  root_from-nil :
      (level : ℕ) (current : Hash) (pos : ℕ) (xs : List Hash)
      → length xs ≡ 0
      → root_from level current pos xs ≡ ok current
  unfolding root_from
  root_from-nil level current pos [] h = refl
  root_from-nil level current pos (x ∷ xs) h = absurd (omega arith)

  module _ (g : ℕ → o.Node) (ss cs : List o.Node) (shard subshard leaf : ℕ) (hl : leaf < 256)
      (hss : subshard < 256) (hs : shard < 65536)
      (rows_agree : padded 8 ss subshard ≡ node_from 0 (padded 0 (tabulate 256 g)) 8 0)
      (shards_agree : padded 16 cs shard ≡ node_from 8 (padded 8 ss) 8 0) where
    position_of : ℕ
    position_of = shard * 65536 + subshard * 256 + leaf

    -- The three tiers of siblings lead from the leaf to the root above the shard roots.
    three_tiers :
        (s₀ s₁ s₂ s₃ : List Hash)
        → length s₀ ≡ 32
        → HasSiblings 8 0 (tabulate 256 g) leaf s₀ s₁
        → HasSiblings 8 8 ss subshard s₁ s₂
        → HasSiblings 16 16 cs shard s₂ s₃
        → root_from 0 (o.to_bytes (g leaf)) position_of s₃
          ≡ ok (o.to_bytes (node_from 16 (padded 16 cs) 16 0))
    unfolding position_of
    three_tiers s₀ s₁ s₂ s₃ len t₁ t₂ t₃ =
        let size : length s₃ ≡ 32 = omega (arith, t₁.size, t₂.size, t₃.size) in
        let rs = tabulate 256 g in
        ap (λ n. root_from 0 (o.to_bytes n) (shard * 65536 + subshard * 256 + leaf) s₃)
          (sym (get_or-tabulate 256 g leaf (o.empty_root 0) hl))
        ∙ root_from-tier 8 0 rs (shard * 256 + subshard) leaf _ s₃ (omega arith) hl (omega arith)
            (λ l p.
              t₃.kept l (inl (omega arith))
              ∙ t₂.kept l (inl (omega arith))
              ∙ ap (λ i. get_or s₁ i []) {y = 0 + l} (omega arith)
              ∙ t₁.path l p)
        ∙ ap (λ n. root_from 8 (o.to_bytes n) (shard * 256 + subshard) (drop 8 s₃)) (sym rows_agree)
        ∙ root_from-tier 8 8 ss shard subshard _ (drop 8 s₃) refl hss
            (omega (arith, length-drop 8 s₃))
            (λ l p. get_or-drop 8 s₃ l [] ∙ t₃.kept (8 + l) (inl (omega arith)) ∙ t₂.path l p)
        ∙ ap (λ n. root_from 16 (o.to_bytes n) shard (drop 8 (drop 8 s₃))) (sym shards_agree)
        ∙ root_from-tier 16 16 cs 0 shard _ (drop 8 (drop 8 s₃)) (omega arith) hs
            (omega (arith, length-drop 8 s₃, length-drop 8 (drop 8 s₃)))
            (λ l p.
              get_or-drop 8 (drop 8 s₃) l []
              ∙ get_or-drop 8 s₃ (8 + l) []
              ∙ ap (λ i. get_or s₃ i []) (omega arith)
              ∙ t₃.path l p)
        ∙ root_from-nil 32 _ 0 (drop 16 (drop 8 (drop 8 s₃))) (
            omega (
              arith,
              length-drop 8 s₃,
              length-drop 8 (drop 8 s₃),
              length-drop 16 (drop 8 (drop 8 s₃)),
            ))

    valid_broadcast :
        (b : BroadcastData)
        → length ss ≡ 256
        → b.cap.shard_roots ≡ map o.to_bytes cs
        → length cs ≤ 65536
        → malformed shard (record { roots = map o.to_bytes ss }) b ≡ false
    unfolding malformed
    valid_broadcast b len_ss cap len_cs =
        let many : (length (map o.to_bytes ss) == 256) ≡ true =
          (==_iff _ _).1 (length-map o.to_bytes ss ∙ len_ss) in
        let few : ltb 65536 (length (map o.to_bytes cs)) ≡ false =
          le→ltb 65536 _ (omega (arith, length-map o.to_bytes cs)) in
        rw (many, cap, few, lt→leb 65536 shard hs, ← map-append o.to_bytes ss cs)
          (any_non_canonical-map (ss ++ cs))

    -- On a canonical row and broadcast the reconstruction succeeds. Its 32 siblings fold from the
    -- leaf to the root above the shard roots, which it returns as the anchor.
    pub reconstruct_witness-ok :
        (b : BroadcastData)
        → b.window_start_shard ≤ shard
        → get_elem? b.subshard_roots (shard - b.window_start_shard)
          ≡ some (record { roots = map o.to_bytes ss })
        → length ss ≡ 256
        → b.cap.shard_roots ≡ map o.to_bytes cs
        → length cs ≤ 65536
        → (siblings : List Hash) × (reconstruct_witness
              (shard * 65536 + subshard * 256 + leaf)
              shard
              subshard
              leaf
              (concat (map o.to_bytes (tabulate 256 g)))
              b
            ≡ ok (record {
              position = shard * 65536 + subshard * 256 + leaf;
              siblings = siblings;
              anchor_height = b.anchor_height;
              anchor_root = o.to_bytes (node_from 16 (padded 16 cs) 16 0);
            }))
          × (length siblings ≡ 32)
          × (compute_root_from_path
                (shard * 65536 + subshard * 256 + leaf)
                (o.to_bytes (g leaf))
                siblings
              ≡ ok (o.to_bytes (node_from 16 (padded 16 cs) 16 0)))
    unfolding reconstruct_witness validate_broadcast compute_root_from_path position_of
    reconstruct_witness-ok b before at len_ss cap len_cs =
        let rs = tabulate 256 g in
        let blank : List Hash = replicate 32 (replicate 32 0) in
        let size₀ : length blank ≡ 32 = length-replicate 32 (replicate 32 0) in
        let (s₁, run₁, t₁) = extract_siblings-HasSiblings 8 0 rs leaf blank (omega arith) in
        let (s₂, run₂, t₂) =
          extract_siblings-HasSiblings 8 8 ss subshard s₁ (omega (arith, t₁.size)) in
        let (s₃, run₃, t₃) =
          extract_siblings-HasSiblings 16 16 cs shard s₂ (omega (arith, t₁.size, t₂.size)) in
        let folded = three_tiers blank s₁ s₂ s₃ size₀ t₁ t₂ t₃ in
        let leaf_read : get_elem? (map o.to_bytes rs) leaf ≡ some (o.to_bytes (g leaf)) =
          get_elem?-eq-get_or (map o.to_bytes rs) leaf (o.to_bytes (o.empty_root 0))
            (omega (arith, length-map o.to_bytes rs, length-tabulate 256 g))
          ∙ ap some (
              get_or-map o.to_bytes rs leaf (o.empty_root 0)
              ∙ ap o.to_bytes (get_or-tabulate 256 g leaf (o.empty_root 0) hl)) in
        let valid = valid_broadcast b len_ss cap len_cs in
        (
          s₃,
          rw (
            le→ltb shard b.window_start_shard before,
            at,
            valid,
            parse_leaves-row_of g,
            run₁,
            run₂,
            cap,
            run₃,
            leaf_read,
            folded,
          ),
          omega (arith, t₁.size, t₂.size, t₃.size),
          folded,
        )
