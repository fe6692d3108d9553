-- ===== src/Server/TreeSync/Roots.antt =====
-- The fetched roots of the shards before a window.
use p2p_spendability_pir.Common.{
  ℕ, ◌+◌, ◌≡◌, refl, sym, ap₂, ◌∙◌, List, [], ◌∷◌, map, Option-cases, inl, inr, arith,
}
use p2p_spendability_pir.Common.Run.{ok, panic, bind-ok, bind-panic, gather}
use p2p_spendability_pir.Orchard.{Orchard, Hash, is_canonical_hash}
use p2p_spendability_pir.Ingest.Block.{SubtreeRoot}
use p2p_spendability_pir.Server.TreeSync.{check_root, check_roots}

module _ ⦃o : Orchard⦄ where
  -- The roots that passed their check are encodings of nodes.
  pub check_roots_sound :
      (index : ℕ) (roots : List SubtreeRoot) (hs : List Hash)
      → gather (check_roots index roots) ≡ ok hs
      → (ps : List o.Node) × (hs ≡ map o.to_bytes ps)
        × (map (λ r. r.root_hash) roots ≡ map o.to_bytes ps)
  unfolding check_roots check_root gather is_canonical_hash
  check_roots_sound index [] hs h = ([], cc, refl)
  check_roots_sound index (root ∷ roots) hs h = elim (Option-cases (o.from_bytes root.root_hash)) [
    | inl bad ↦ absurd (ground arith)
    | inr (n, good) ↦
        let (hash, here, h1) = bind-ok (check_root index root) _ hs h in
        let (rest, there, h2) = bind-ok (gather (check_roots (index + 1) roots)) _ hs h1 in
        let (ps, same, sent) = check_roots_sound (index + 1) roots rest there in
        let encoded = o.to_bytes-from_bytes root.root_hash n good in
        let is_hash : root.root_hash ≡ hash = ground arith in
        let whole : hash ∷ rest ≡ hs = cc in
        (n ∷ ps, sym whole ∙ ap₂ ◌∷◌ (sym is_hash ∙ sym encoded) same, ap₂ ◌∷◌ (sym encoded) sent)
  ]

  -- The check does not panic.
  pub check_roots_safe :
      (index : ℕ) (roots : List SubtreeRoot) → gather (check_roots index roots) ≡ panic → ⊥
  unfolding check_roots check_root gather
  check_roots_safe index [] h = cc
  check_roots_safe index (root ∷ roots) h = elim (bind-panic (check_root index root) _ h) [
    | inl here ↦ ground arith
    | inr (hash, passed, h1) ↦ elim (bind-panic (gather (check_roots (index + 1) roots)) _ h1) [
      | inl there ↦ check_roots_safe (index + 1) roots there
      | inr (rest, gathered, h2) ↦ cc
    ]
  ]
