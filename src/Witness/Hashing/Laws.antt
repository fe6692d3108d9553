-- ===== src/Witness/Hashing/Laws.antt =====
-- The hashing loops compute the nodes of the Merkle specification, and do not panic.
use p2p_spendability_pir.Common.{
  ℕ, zero, suc, ◌+◌, ◌*◌, ◌/◌, ◌%◌, ◌^◌, ◌<◌, ◌≤◌, ◌≡◌, refl, sym, subst, ap, ◌∙◌, List, [], ◌∷◌,
  map, some, length, get_elem?, length-map, get_or-map, get_or-beyond, get_elem?-eq-get_or, arith,
  ltb, leb, ◌==◌, if◌then◌else◌, inl, inr, false, Bool-cases, ltb→lt, leb→le, ltb→le,
}
use p2p_spendability_pir.Orchard.{Orchard, Hash, hash_combine-to_bytes}
use p2p_spendability_pir.Witness.Merkle.{
  node_from, padded, node_from-zero, node_from-suc, node_from-empty, pair_up, length-pair_up,
  node_from-pair_up,
}
use p2p_spendability_pir.Witness.Hashing.{
  trailing_zeros, next_level, collapse, complete_subtree_root, sparse_root_rec, sparse_subtree_root,
  empty_roots_above, precompute_empty_roots,
}
use native.Mathlib.Nat.{pow-suc, one-le-pow}

pub trailing_zeros-pow : (fuel h : ℕ) → h ≤ fuel → trailing_zeros (suc fuel) (2 ^ h) ≡ h
unfolding trailing_zeros
trailing_zeros-pow fuel zero h = refl
trailing_zeros-pow zero (suc k) h = elim h [ ]
trailing_zeros-pow (suc fuel) (suc k) h =
    let half : 2 ^ suc k / 2 ≡ 2 ^ k = omega (arith, pow-suc 2 k) in
    let even : 2 ^ suc k % 2 ≡ 0 = omega (arith, pow-suc 2 k) in
    rw (half, even) (ap suc (trailing_zeros-pow fuel k (omega arith)))

module _ ⦃o : Orchard⦄ where
  -- `empty_roots[l]` is the root of the empty tree of height `l`.
  abbrev pub AreEmptyRoots : List Hash → Type 0
  AreEmptyRoots es = (l : ℕ) → l ≤ 32 → get_elem? es l ≡ some (o.to_bytes (o.empty_root l))

  empty_roots_above-get :
      (n level l : ℕ)
      → l < n
      → get_elem? (empty_roots_above n level (o.empty_root level)) l
        ≡ some (o.to_bytes (o.empty_root (level + suc l)))
  unfolding empty_roots_above
  empty_roots_above-get zero level l h = elim h [ ]
  empty_roots_above-get (suc n) level zero h =
      ap (λ k. some (o.to_bytes k)) (sym (o.empty_root-suc level))
      ∙ ap (λ k. some (o.to_bytes (o.empty_root k))) (omega arith)
  empty_roots_above-get (suc n) level (suc l) h =
      let next : o.combine level (o.empty_root level) (o.empty_root level)
          ≡ o.empty_root (level + 1) =
        sym (o.empty_root-suc level) ∙ ap o.empty_root (omega arith) in
      rw next (
        empty_roots_above-get n (level + 1) l (omega arith)
        ∙ ap (λ k. some (o.to_bytes (o.empty_root k))) (omega arith))

  pub precompute_empty_roots-AreEmptyRoots : AreEmptyRoots precompute_empty_roots
  unfolding precompute_empty_roots
  precompute_empty_roots-AreEmptyRoots zero h =
      ap (λ k. some (o.to_bytes k)) (sym o.empty_root-zero)
  precompute_empty_roots-AreEmptyRoots (suc l) h =
      subst (λ n. get_elem? (empty_roots_above 32 0 n) l ≡ some (o.to_bytes (o.empty_root (suc l))))
        o.empty_root-zero
        (empty_roots_above-get 32 0 l (omega arith)
          ∙ ap (λ k. some (o.to_bytes (o.empty_root k))) (omega arith))

  next_level-pair_up :
      (level m : ℕ) (ns : List o.Node)
      → length ns ≡ 2 * m
      → next_level level (map o.to_bytes ns) ≡ some (map o.to_bytes (pair_up level ns))
  unfolding next_level pair_up
  next_level-pair_up level m [] h = refl
  next_level-pair_up level m (x ∷ []) h = absurd (omega arith)
  next_level-pair_up level zero (x ∷ y ∷ ns) h = absurd (omega arith)
  next_level-pair_up level (suc m) (x ∷ y ∷ ns) h =
      rw (hash_combine-to_bytes level x y, next_level-pair_up level m ns (omega arith))

  collapse-node_from :
      (h fuel level : ℕ) (ns : List o.Node)
      → length ns ≡ 2 ^ h
      → h ≤ fuel
      → collapse fuel level (map o.to_bytes ns)
        ≡ some (o.to_bytes (node_from level (padded level ns) h 0))
  unfolding collapse
  collapse-node_from zero fuel level [] e f = absurd (omega arith)
  collapse-node_from zero fuel level (x ∷ []) e f =
      ap (λ k. some (o.to_bytes k)) (sym (node_from-zero level (padded level (x ∷ [])) 0))
  collapse-node_from zero fuel level (x ∷ y ∷ ns) e f = absurd (omega arith)
  collapse-node_from (suc h) fuel level [] e f =
      absurd (omega (arith, one-le-pow (suc h) 2 (omega arith)))
  collapse-node_from (suc h) fuel level (x ∷ []) e f =
      absurd (omega (arith, pow-suc 2 h, one-le-pow h 2 (omega arith)))
  collapse-node_from (suc h) zero level (x ∷ y ∷ ns) e f = elim f [ ]
  collapse-node_from (suc h) (suc fuel) level (x ∷ y ∷ ns) e f =
      let all = x ∷ y ∷ ns in
      rw (next_level-pair_up level (2 ^ h) all (omega (arith, pow-suc 2 h))) (
        collapse-node_from h fuel (level + 1) (pair_up level all)
          (omega (arith, length-pair_up level all, pow-suc 2 h)) (omega arith)
        ∙ ap (λ l. some (o.to_bytes (node_from l (padded l (pair_up level all)) h 0)))
            {y = suc level} (omega arith)
        ∙ ap (λ k. some (o.to_bytes k)) (node_from-pair_up level all h 0))

  lt-pow : (h : ℕ) → h < 2 ^ h
  lt-pow zero = omega arith
  lt-pow (suc h) = omega (arith, lt-pow h, pow-suc 2 h)

  -- The root of exactly `2 ^ h` canonical hashes is the specified one.
  pub complete_subtree_root-node_from :
      (h level : ℕ) (ns : List o.Node)
      → length ns ≡ 2 ^ h
      → complete_subtree_root (map o.to_bytes ns) level
        ≡ some (o.to_bytes (node_from level (padded level ns) h 0))
  unfolding complete_subtree_root
  complete_subtree_root-node_from h level ns e =
      collapse-node_from h (length (map o.to_bytes ns)) level ns e
        (omega (arith, length-map o.to_bytes ns, lt-pow h))

  module _ (es : List Hash) (empties : AreEmptyRoots es) where
    sparse_leaf :
        (b j : ℕ) (ns : List o.Node)
        → b ≤ 32
        → (if ltb j (length (map o.to_bytes ns))
            then get_elem? (map o.to_bytes ns) j
            else get_elem? es b)
          ≡ some (o.to_bytes (padded b ns j))
    sparse_leaf b j ns hb = elim (Bool-cases (ltb j (length (map o.to_bytes ns)))) [
      | inl inside ↦ rw inside (
          get_elem?-eq-get_or (map o.to_bytes ns) j (o.to_bytes (o.empty_root b))
            (ltb→lt _ _ inside)
          ∙ ap some (get_or-map o.to_bytes ns j (o.empty_root b)))
      | inr outside ↦ rw outside (
          empties b hb
          ∙ ap (λ k. some (o.to_bytes k))
              (sym (
                get_or-beyond ns j (o.empty_root b)
                  (omega (arith, ltb→le _ _ outside, length-map o.to_bytes ns)))))
    ]

    sparse_root_rec-node_from :
        (fuel h b j : ℕ) (ns : List o.Node)
        → h < fuel
        → b + h ≤ 32
        → sparse_root_rec fuel es (map o.to_bytes ns) (j * 2 ^ h) (2 ^ h) b
          ≡ some (o.to_bytes (node_from b (padded b ns) h j))
    unfolding sparse_root_rec
    sparse_root_rec-node_from zero h b j ns hf hb = elim hf [ ]
    sparse_root_rec-node_from (suc fuel) zero b j ns hf hb =
        let one : j * 1 ≡ j = omega arith in
        rw (one, node_from-zero b (padded b ns) j) (sparse_leaf b j ns (omega arith))
    sparse_root_rec-node_from (suc fuel) (suc h) b j ns hf hb =
        let half : 2 ^ suc h / 2 ≡ 2 ^ h = omega (arith, pow-suc 2 h) in
        let left_at : j * 2 ^ suc h ≡ 2 * j * 2 ^ h = rw (pow-suc 2 h) (omega arith) in
        let right_at : 2 * j * 2 ^ h + 2 ^ h ≡ (2 * j + 1) * 2 ^ h = omega arith in
        let large : (2 ^ suc h == 1) ≡ false =
          ground (arith, pow-suc 2 h, one-le-pow h 2 (omega arith)) in
        let left = sparse_root_rec-node_from fuel h b (2 * j) ns (omega arith) (omega arith) in
        let right = sparse_root_rec-node_from fuel h b (2 * j + 1) ns (omega arith) (omega arith) in
        rw (large, half, trailing_zeros-pow 63 h (omega arith), left_at, right_at, left)
          (elim (Bool-cases (leb (length (map o.to_bytes ns)) ((2 * j + 1) * 2 ^ h))) [
            | inl beyond ↦
                rw (beyond, empties (b + h) (omega arith))
                  (hash_combine-to_bytes (b + h) _ _
                    ∙ ap
                        (λ n.
                          some (
                            o.to_bytes (o.combine (b + h) (node_from b (padded b ns) h (2 * j)) n)))
                        (sym (
                          node_from-empty b (padded b ns) h (2 * j + 1) (λ i p.
                            get_or-beyond ns _ _
                              (omega (arith, leb→le _ _ beyond, length-map o.to_bytes ns)))))
                    ∙ whole)
            | inr inside ↦ rw (inside, right) (hash_combine-to_bytes (b + h) _ _ ∙ whole)
          ])
      where
        whole :
            some (
              o.to_bytes (
                o.combine
                  (b + h)
                  (node_from b (padded b ns) h (2 * j))
                  (node_from b (padded b ns) h (2 * j + 1))))
            ≡ some (o.to_bytes (node_from b (padded b ns) (suc h) j))
        whole = ap (λ n. some (o.to_bytes n)) (sym (node_from-suc b (padded b ns) h j))

    -- The root over left-packed canonical hashes, the rest of the level being empty.
    pub sparse_subtree_root-node_from :
        (h b : ℕ) (ns : List o.Node)
        → b + h ≤ 32
        → sparse_subtree_root es (map o.to_bytes ns) (2 ^ h) b
          ≡ some (o.to_bytes (node_from b (padded b ns) h 0))
    unfolding sparse_subtree_root
    sparse_subtree_root-node_from h b ns hb =
        let start : 0 * 2 ^ h ≡ 0 = omega arith in
        rw start at (sparse_root_rec-node_from 64 h b 0 ns (omega arith) hb)
