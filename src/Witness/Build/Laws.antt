-- ===== src/Witness/Build/Laws.antt =====
-- What `build_pir_db_and_broadcast` returns, with any fresh cache.
use p2p_spendability_pir.Common.{
  ℕ, zero, suc, ◌+◌, ◌*◌, ◌^◌, ◌<◌, ◌≤◌, ◌≡◌, ◌⊎◌, refl, sym, ap, ◌∙◌, List, [], ◌∷◌, ◌++◌, map,
  Option, none, some, get_elem?, set, tabulate_from, tabulate_from-eq, tabulate_from-suc, ap₂,
  tabulate_from-add, concat, concat-append, length-set, get_elem?-eq-get_or, Bool, true, false, leb,
  leb→le, Bool-cases, inl, inr, arith, as_u8,
}
use p2p_spendability_pir.Orchard.{Orchard, Hash}
use p2p_spendability_pir.Witness.Types.{ShardSubRoots, subshard_height}
use p2p_spendability_pir.Witness.Hashing.{complete_subtree_root}
use p2p_spendability_pir.Witness.Tree.{CommitmentTreeDb, Cache, tree_size, window_start_shard}
use p2p_spendability_pir.Witness.Tree.Represents.{Represents, IsFresh, subshard_root}
use p2p_spendability_pir.Witness.Roots.Nodes.{
  shard_root, subshard_nodes, shard_nodes, root-subshard_nodes, root-shard_nodes,
  subshard_root-beyond,
}
use p2p_spendability_pir.Witness.Roots.Laws.{
  tree_size-eq, window_start_shard-eq, subshard_leaves_of-nodes,
}
use p2p_spendability_pir.Witness.Build.{cached_root, build_subshard, build_subshards, build_shards}

module _ ⦃o : Orchard⦄ where
  -- the bytes of a row of the database
  unfoldable pub row_bytes : List o.Node → ℕ → List ℕ
  row_bytes ns s = concat (map o.to_bytes (subshard_nodes ns s))

  get_elem?-set :
      (c : Cache) (i s : ℕ) (r q : Hash)
      → get_elem? (set c i (some r)) s ≡ some (some q)
      → ((s ≡ i) × (q ≡ r)) ⊎ (get_elem? c s ≡ some (some q))
  get_elem?-set [] i s r q h = absurd (cc)
  get_elem?-set (x ∷ c) zero zero r q h = inl (refl, ground arith)
  get_elem?-set (x ∷ c) zero (suc s) r q h = inr h
  get_elem?-set (x ∷ c) (suc i) zero r q h = inr h
  get_elem?-set (x ∷ c) (suc i) (suc s) r q h = elim (get_elem?-set c i s r q h) [
    | inl (e, p) ↦ inl (ap suc e, p)
    | inr p ↦ inr p
  ]

  set-IsFresh :
      (ns : List o.Node) (s : ℕ) (cache : Cache)
      → IsFresh ns cache
      → IsFresh ns (set cache s (some (o.to_bytes (subshard_root ns s))))
  set-IsFresh ns s cache f = record {
    width = length-set cache s _ ∙ f.width;
    roots = λ i r h. elim (get_elem?-set cache s i _ r h) [
      | inl (e, p) ↦ p ∙ ap (λ k. o.to_bytes (subshard_root ns k)) (sym e)
      | inr p ↦ f.roots i r p
    ];
  }

  -- with a fresh cache, a hit returns what a miss computes
  cached_root-IsFresh :
      (ns : List o.Node) (s : ℕ) (cache : Cache) (slot : Option Hash)
      → IsFresh ns cache
      → get_elem? cache s ≡ some slot
      → (c : Cache) × (cached_root slot (map o.to_bytes (subshard_nodes ns s)) s cache
          ≡ some (o.to_bytes (subshard_root ns s), c))
        × IsFresh ns c
  unfolding cached_root
  cached_root-IsFresh ns s cache none f e =
      (set cache s _, rw (root-subshard_nodes ns s), set-IsFresh ns s cache f)
  cached_root-IsFresh ns s cache (some r) f e =
      (cache, ap (λ h. some (h, cache)) (f.roots s r e), f)

  module _ {t : CommitmentTreeDb} {ns ps : List o.Node} (v : Represents t ns ps) where
    unfoldable pub empty_ss : Hash
    empty_ss = o.to_bytes (o.empty_root subshard_height)

    module _ (i ss : ℕ) (hs : ss < 256) (hw : window_start_shard t + i < 2 ^ 32)
        (cache : Cache) where
      abbrev slot_of : ℕ
      slot_of = i * 256 + ss

      abbrev past_end : Bool
      past_end = leb (tree_size t) ((window_start_shard t + i) * 65536 + ss * 256)

      build_subshard-empty :
          past_end ≡ true
          → build_subshard t empty_ss (window_start_shard t + i) i ss cache
            ≡ some (row_bytes ns slot_of, o.to_bytes (subshard_root ns slot_of), cache)
      unfolding build_subshard row_bytes empty_ss
      build_subshard-empty beyond =
          let byte : as_u8 ss ≡ ss = omega arith in
          rw (byte, subshard_leaves_of-nodes v i ss hw hs, beyond)
            (ap
              (λ n.
                some
                  (concat (map o.to_bytes (subshard_nodes ns (i * 256 + ss))), o.to_bytes n, cache))
              (sym (
                subshard_root-beyond ns (i * 256 + ss)
                  (omega (arith, leb→le _ _ beyond, tree_size-eq v, window_start_shard-eq v)))))

      build_subshard-slot :
          (slot : Option Hash) (c : Cache)
          → past_end ≡ false
          → get_elem? cache slot_of ≡ some slot
          → cached_root slot (map o.to_bytes (subshard_nodes ns slot_of)) slot_of cache
            ≡ some (o.to_bytes (subshard_root ns slot_of), c)
          → build_subshard t empty_ss (window_start_shard t + i) i ss cache
            ≡ some (row_bytes ns slot_of, o.to_bytes (subshard_root ns slot_of), c)
      unfolding build_subshard row_bytes
      build_subshard-slot slot c inside at found =
          let byte : as_u8 ss ≡ ss = omega arith in
          rw (byte, subshard_leaves_of-nodes v i ss hw hs, inside, at, found)

      build_subshard-IsFresh :
          i < 16
          → IsFresh ns cache
          → (c : Cache) × (build_subshard t empty_ss (window_start_shard t + i) i ss cache
              ≡ some (row_bytes ns slot_of, o.to_bytes (subshard_root ns slot_of), c))
            × IsFresh ns c
      build_subshard-IsFresh hi f = elim (Bool-cases past_end) [
        | inl beyond ↦ (cache, build_subshard-empty beyond, f)
        | inr inside ↦
            let at = get_elem?-eq-get_or cache slot_of none (omega (arith, f.width)) in
            let (c, found, fresh) = cached_root-IsFresh ns slot_of cache _ f at in
            (c, build_subshard-slot _ c inside at found, fresh)
      ]

    build_subshards-step :
        (i n ss : ℕ) (cache c₁ c₂ : Cache)
        → build_subshard t empty_ss (window_start_shard t + i) i ss cache
          ≡ some (row_bytes ns (i * 256 + ss), o.to_bytes (subshard_root ns (i * 256 + ss)), c₁)
        → build_subshards t empty_ss (window_start_shard t + i) i (ss + 1) n c₁
          ≡ some (
            concat (tabulate_from (i * 256 + (ss + 1)) n (row_bytes ns)),
            map o.to_bytes (tabulate_from (i * 256 + (ss + 1)) n (subshard_root ns)),
            c₂,
          )
        → build_subshards t empty_ss (window_start_shard t + i) i ss (suc n) cache
          ≡ some (
            concat (tabulate_from (i * 256 + ss) (suc n) (row_bytes ns)),
            map o.to_bytes (tabulate_from (i * 256 + ss) (suc n) (subshard_root ns)),
            c₂,
          )
    unfolding build_subshards concat tabulate_from
    build_subshards-step i n ss cache c₁ c₂ first rest =
        let next : i * 256 + (ss + 1) ≡ i * 256 + ss + 1 = omega arith in rw (first, rest, next)

    build_subshards-IsFresh :
        (i n ss : ℕ) (cache : Cache)
        → i < 16
        → ss + n ≤ 256
        → window_start_shard t + i < 2 ^ 32
        → IsFresh ns cache
        → (c : Cache) × (build_subshards t empty_ss (window_start_shard t + i) i ss n cache
            ≡ some (
              concat (tabulate_from (i * 256 + ss) n (row_bytes ns)),
              map o.to_bytes (tabulate_from (i * 256 + ss) n (subshard_root ns)),
              c,
            ))
          × IsFresh ns c
    unfolding concat tabulate_from build_subshards
    build_subshards-IsFresh i zero ss cache hi hs hw f = (cache, refl, f)
    build_subshards-IsFresh i (suc n) ss cache hi hs hw f =
        let (c₁, first, f₁) = build_subshard-IsFresh i ss (omega arith) hw cache hi f in
        let (c₂, rest, f₂) = build_subshards-IsFresh i n (ss + 1) c₁ hi (omega arith) hw f₁ in
        (c₂, build_subshards-step i n ss cache c₁ c₂ first rest, f₂)

    abbrev pub shard_sub_roots : ℕ → ShardSubRoots
    shard_sub_roots i = record { roots = map o.to_bytes (shard_nodes ns i) }

    -- one round of the outer loop, on whatever its calls return
    build_shards-round :
        (n i : ℕ) (cache c₁ c₂ : Cache) (bytes rest : List ℕ) (roots cap : List Hash) (root : Hash)
        (subs : List ShardSubRoots)
        → build_subshards t empty_ss (window_start_shard t + i) i 0 256 cache
          ≡ some (bytes, roots, c₁)
        → complete_subtree_root roots subshard_height ≡ some root
        → build_shards t empty_ss (window_start_shard t) (i + 1) n c₁ ≡ some (rest, cap, subs, c₂)
        → build_shards t empty_ss (window_start_shard t) i (suc n) cache
          ≡ some (bytes ++ rest, root ∷ cap, record { roots = roots } ∷ subs, c₂)
    unfolding build_shards
    build_shards-round n i cache c₁ c₂ bytes rest roots cap root subs first top later =
        rw (first, top, later)

    build_shards-step :
        (n i : ℕ) (cache c₁ c₂ : Cache)
        → build_subshards t empty_ss (window_start_shard t + i) i 0 256 cache
          ≡ some (
            concat (tabulate_from (i * 256 + 0) 256 (row_bytes ns)),
            map o.to_bytes (tabulate_from (i * 256 + 0) 256 (subshard_root ns)),
            c₁,
          )
        → build_shards t empty_ss (window_start_shard t) (i + 1) n c₁
          ≡ some (
            concat (tabulate_from ((i + 1) * 256) (n * 256) (row_bytes ns)),
            map o.to_bytes (tabulate_from (i + 1) n (shard_root ns)),
            tabulate_from (i + 1) n shard_sub_roots,
            c₂,
          )
        → build_shards t empty_ss (window_start_shard t) i (suc n) cache
          ≡ some (
            concat (tabulate_from (i * 256) (suc n * 256) (row_bytes ns)),
            map o.to_bytes (tabulate_from i (suc n) (shard_root ns)),
            tabulate_from i (suc n) shard_sub_roots,
            c₂,
          )
    build_shards-step n i cache c₁ c₂ first rest =
        let start : i * 256 + 0 ≡ i * 256 = omega arith in
        let nodes : tabulate_from (i * 256) 256 (subshard_root ns) ≡ shard_nodes ns i =
          unfold shard_nodes in tabulate_from-eq (i * 256) 256 (subshard_root ns) in
        let rows : concat (tabulate_from (i * 256) 256 (row_bytes ns))
              ++ concat (tabulate_from ((i + 1) * 256) (n * 256) (row_bytes ns))
            ≡ concat (tabulate_from (i * 256) (suc n * 256) (row_bytes ns)) =
          ap
            (λ k.
              concat (tabulate_from (i * 256) 256 (row_bytes ns))
              ++ concat (tabulate_from k (n * 256) (row_bytes ns)))
            (omega arith)
          ∙ sym (concat-append (tabulate_from (i * 256) 256 (row_bytes ns)) _)
          ∙ ap concat (sym (tabulate_from-add (i * 256) 256 (n * 256) (row_bytes ns)))
          ∙ ap (λ k. concat (tabulate_from (i * 256) k (row_bytes ns))) (omega arith) in
        build_shards-round n i cache c₁ c₂ _ _ _ _ _ _ (rw (start, nodes) at first)
          (root-shard_nodes ns i) rest
        ∙ ap
            (λ b. some (
              b,
              map o.to_bytes (shard_root ns i ∷ tabulate_from (i + 1) n (shard_root ns)),
              shard_sub_roots i ∷ tabulate_from (i + 1) n shard_sub_roots,
              c₂,
            ))
            rows
        ∙ ap₂
            (λ roots subs. some (
              concat (tabulate_from (i * 256) (suc n * 256) (row_bytes ns)),
              map o.to_bytes roots,
              subs,
              c₂,
            ))
            (sym (tabulate_from-suc i n (shard_root ns)))
            (sym (tabulate_from-suc i n shard_sub_roots))

    pub build_shards-IsFresh :
        (n i : ℕ) (cache : Cache)
        → i + n ≤ 16
        → window_start_shard t + i + n ≤ 2 ^ 32
        → IsFresh ns cache
        → (c : Cache) × (build_shards t empty_ss (window_start_shard t) i n cache
            ≡ some (
              concat (tabulate_from (i * 256) (n * 256) (row_bytes ns)),
              map o.to_bytes (tabulate_from i n (shard_root ns)),
              tabulate_from i n shard_sub_roots,
              c,
            ))
          × IsFresh ns c
    unfolding build_shards concat tabulate_from
    build_shards-IsFresh zero i cache hi hw f = (cache, refl, f)
    build_shards-IsFresh (suc n) i cache hi hw f =
        let (c₁, first, f₁) =
          build_subshards-IsFresh i 256 0 cache (omega arith) (omega arith) (omega arith) f in
        let (c₂, rest, f₂) = build_shards-IsFresh n (i + 1) c₁ (omega arith) (omega arith) f₁ in
        (c₂, build_shards-step n i cache c₁ c₂ first rest, f₂)
