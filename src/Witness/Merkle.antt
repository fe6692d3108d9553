-- ===== src/Witness/Merkle.antt =====
-- Binary Merkle trees over numbered nodes: the specification of every root and path that the
-- witness server and client compute.
use p2p_spendability_pir.Common.{
  ℕ, zero, suc, ◌+◌, ◌*◌, ◌/◌, ◌^◌, ◌<◌, ◌≡◌, refl, sym, ap, ap₂, ◌∙◌, fun_ext, List, [], ◌∷◌,
  length, get_or, get_or-beyond, tabulate, get_or-tabulate, arith,
}
use p2p_spendability_pir.Orchard.{Orchard}
use native.Mathlib.Nat.{pow-suc}

low_half : (i h j : ℕ) → 2 * i * 2 ^ h + j ≡ i * 2 ^ suc h + j
low_half i h j = rw (pow-suc 2 h) (omega arith)

high_half : (i h j : ℕ) → (2 * i + 1) * 2 ^ h + j ≡ i * 2 ^ suc h + (2 ^ h + j)
high_half i h j = rw (pow-suc 2 h) (omega arith)

module _ ⦃o : Orchard⦄ where
  -- The node number `i`, `h` levels above the nodes `g` of level `b`.
  pub node_from : ℕ → (ℕ → o.Node) → ℕ → ℕ → o.Node
  node_from b g zero i = g i
  node_from b g (suc h) i =
      o.combine (b + h) (node_from b g h (2 * i)) (node_from b g h (2 * i + 1))

  -- The nodes of a level that is filled from the left.
  abbrev pub padded : ℕ → List o.Node → ℕ → o.Node
  padded b ns i = get_or ns i (o.empty_root b)

  pub node_from-zero : (b : ℕ) (g : ℕ → o.Node) (i : ℕ) → node_from b g zero i ≡ g i
  unfolding node_from
  node_from-zero b g i = refl

  pub node_from-suc :
      (b : ℕ) (g : ℕ → o.Node) (h i : ℕ)
      → node_from b g (suc h) i
        ≡ o.combine (b + h) (node_from b g h (2 * i)) (node_from b g h (2 * i + 1))
  unfolding node_from
  node_from-suc b g h i = refl

  -- A node depends only on the nodes below it.
  pub node_from-local :
      (b : ℕ) (g g' : ℕ → o.Node) (h i i' : ℕ)
      → ((j : ℕ) → j < 2 ^ h → g (i * 2 ^ h + j) ≡ g' (i' * 2 ^ h + j))
      → node_from b g h i ≡ node_from b g' h i'
  unfolding node_from
  node_from-local b g g' zero i i' e = ap g (omega arith) ∙ e 0 (omega arith) ∙ ap g' (omega arith)
  node_from-local b g g' (suc h) i i' e =
      ap₂ (o.combine (b + h))
        (node_from-local b g g' h (2 * i) (2 * i') (λ j p.
          ap g (low_half i h j) ∙ e j (omega (arith, pow-suc 2 h)) ∙ ap g' (sym (low_half i' h j))))
        (node_from-local b g g' h (2 * i + 1) (2 * i' + 1) (λ j p.
          ap g (high_half i h j)
          ∙ e (2 ^ h + j) (omega (arith, pow-suc 2 h))
          ∙ ap g' (sym (high_half i' h j))))

  -- Above empty nodes stand the empty roots.
  pub node_from-empty :
      (b : ℕ) (g : ℕ → o.Node) (h i : ℕ)
      → ((j : ℕ) → j < 2 ^ h → g (i * 2 ^ h + j) ≡ o.empty_root b)
      → node_from b g h i ≡ o.empty_root (b + h)
  unfolding node_from
  node_from-empty b g zero i e =
      ap g (omega arith) ∙ e 0 (omega arith) ∙ ap o.empty_root (omega arith)
  node_from-empty b g (suc h) i e =
      ap₂ (o.combine (b + h))
        (node_from-empty b g h (2 * i)
          (λ j p. ap g (low_half i h j) ∙ e j (omega (arith, pow-suc 2 h))))
        (node_from-empty b g h (2 * i + 1)
          (λ j p. ap g (high_half i h j) ∙ e (2 ^ h + j) (omega (arith, pow-suc 2 h))))
      ∙ sym (o.empty_root-suc (b + h))
      ∙ ap o.empty_root (omega arith)

  -- A tree over the nodes of height `h` is the taller tree.
  pub node_from_tower :
      (b : ℕ) (g : ℕ → o.Node) (h k i : ℕ)
      → node_from (b + h) (node_from b g h) k i ≡ node_from b g (h + k) i
  node_from_tower b g h zero i =
      node_from-zero (b + h) _ i ∙ ap (λ n. node_from b g n i) (omega arith)
  node_from_tower b g h (suc k) i =
      node_from-suc (b + h) _ k i
      ∙ ap₂ (o.combine (b + h + k)) (node_from_tower b g h k (2 * i))
          (node_from_tower b g h k (2 * i + 1))
      ∙ ap (λ l. o.combine l (node_from b g (h + k) (2 * i)) (node_from b g (h + k) (2 * i + 1)))
          (omega arith)
      ∙ sym (node_from-suc b g (h + k) i)
      ∙ ap (λ n. node_from b g n i) (omega arith)

  -- One level of pairs; a last node without a partner is paired with the empty root.
  unfoldable pub pair_up : ℕ → List o.Node → List o.Node
  pair_up b [] = []
  pair_up b (l ∷ []) = o.combine b l (o.empty_root b) ∷ []
  pair_up b (l ∷ r ∷ ns) = o.combine b l r ∷ pair_up b ns

  pub length-pair_up : (b : ℕ) (ns : List o.Node) → length (pair_up b ns) ≡ (length ns + 1) / 2
  unfolding pair_up
  length-pair_up b [] = omega arith
  length-pair_up b (l ∷ []) = omega arith
  length-pair_up b (l ∷ r ∷ ns) = omega (arith, length-pair_up b ns)

  pub padded-pair_up :
      (b : ℕ) (ns : List o.Node) (i : ℕ)
      → padded (suc b) (pair_up b ns) i
        ≡ o.combine b (padded b ns (2 * i)) (padded b ns (2 * i + 1))
  unfolding pair_up
  padded-pair_up b [] i = o.empty_root-suc b
  padded-pair_up b (l ∷ []) zero = refl
  padded-pair_up b (l ∷ []) (suc i) =
      o.empty_root-suc b
      ∙ ap₂ (o.combine b) (sym (get_or-beyond (l ∷ []) (2 * suc i) _ (omega arith)))
          (sym (get_or-beyond (l ∷ []) (2 * suc i + 1) _ (omega arith)))
  padded-pair_up b (l ∷ r ∷ ns) zero = refl
  padded-pair_up b (l ∷ r ∷ ns) (suc i) =
      padded-pair_up b ns i
      ∙ ap₂ (o.combine b) (ap (λ k. padded b (l ∷ r ∷ ns) k) {x = suc (suc (2 * i))} (omega arith))
          (ap (λ k. padded b (l ∷ r ∷ ns) k) {x = suc (suc (2 * i + 1))} (omega arith))

  -- Pairing once and building the rest of the tree is building the whole tree.
  pub node_from-pair_up :
      (b : ℕ) (ns : List o.Node) (h i : ℕ)
      → node_from (suc b) (padded (suc b) (pair_up b ns)) h i ≡ node_from b (padded b ns) (suc h) i
  node_from-pair_up b ns h i =
      ap (λ g. node_from (suc b) g h i) (fun_ext (λ j. padded-pair_up b ns j ∙ one_level j))
      ∙ ap (λ l. node_from l (node_from b (padded b ns) 1) h i) (omega arith)
      ∙ node_from_tower b (padded b ns) 1 h i
      ∙ ap (λ n. node_from b (padded b ns) n i) (omega arith)
    where
      one_level :
          (j : ℕ)
          → o.combine b (padded b ns (2 * j)) (padded b ns (2 * j + 1))
            ≡ node_from b (padded b ns) 1 j
      one_level j =
          ap (λ l. o.combine l (padded b ns (2 * j)) (padded b ns (2 * j + 1))) (omega arith)
          ∙ ap₂ (o.combine (b + 0)) (sym (node_from-zero b (padded b ns) (2 * j)))
              (sym (node_from-zero b (padded b ns) (2 * j + 1)))
          ∙ sym (node_from-suc b (padded b ns) 0 j)

  -- The nodes below one node, as a list.
  pub node_from-tabulate :
      (b : ℕ) (g : ℕ → o.Node) (h i : ℕ)
      → node_from b (padded b (tabulate (2 ^ h) (λ j. g (i * 2 ^ h + j)))) h 0 ≡ node_from b g h i
  node_from-tabulate b g h i = node_from-local b _ g h 0 i (λ j p.
      ap (padded b (tabulate (2 ^ h) (λ k. g (i * 2 ^ h + k)))) (omega arith)
      ∙ get_or-tabulate (2 ^ h) (λ k. g (i * 2 ^ h + k)) j (o.empty_root b) p)
