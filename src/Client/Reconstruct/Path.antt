-- ===== src/Client/Reconstruct/Path.antt =====
-- The siblings that are extracted are those of the Merkle specification, and folding them up from
-- the leaf gives its root.
use p2p_spendability_pir.Common.{
  ℕ, zero, suc, ◌+◌, ◌*◌, ◌/◌, ◌%◌, ◌^◌, ◌<◌, ◌≤◌, ◌≡◌, ◌≢◌, refl, sym, ap, ap₂, ◌∙◌, List, [], ◌∷◌,
  map, length, get_or, set, drop, length-map, length-set, get_or-map, get_or-beyond, ltb, ltb→le,
  ◌==◌, if◌then◌else◌, true, false, Bool-cases, ==_iff, ◌⊎◌, inl, inr, arith,
}
use p2p_spendability_pir.Common.Run.{ok}
use p2p_spendability_pir.Orchard.{Orchard, Hash, hash_combine-to_bytes}
use p2p_spendability_pir.Witness.Merkle.{
  node_from, padded, node_from-zero, node_from-suc, pair_up, node_from-pair_up,
}
use p2p_spendability_pir.Client.Reconstruct.{xor_one, next_nodes, extract_siblings, root_from}
use native.Mathlib.Nat.{
  add_comm, add-mul-div_right, div-eq_of_lt, pow-suc, pow-succ', div-div-eq-div-mul,
}

get_or-set_self {ℓ} :
    {A : Type ℓ} (xs : List A) (i : ℕ) (v d : A) → i < length xs → get_or (set xs i v) i d ≡ v
get_or-set_self [] i v d h = elim h [ ]
get_or-set_self (x ∷ xs) zero v d h = refl
get_or-set_self (x ∷ xs) (suc i) v d h = get_or-set_self xs i v d (omega arith)

get_or-set_ne {ℓ} :
    {A : Type ℓ} (xs : List A) (i j : ℕ) (v d : A) → i ≢ j → get_or (set xs i v) j d ≡ get_or xs j d
get_or-set_ne [] i j v d h = refl
get_or-set_ne (x ∷ xs) zero zero v d h = absurd (h refl)
get_or-set_ne (x ∷ xs) zero (suc j) v d h = refl
get_or-set_ne (x ∷ xs) (suc i) zero v d h = refl
get_or-set_ne (x ∷ xs) (suc i) (suc j) v d h = get_or-set_ne xs i j v d (λ e. h (ap suc e))

halve_again : (j n : ℕ) → j / 2 ^ suc n ≡ j / 2 / 2 ^ n
halve_again j n = ap (λ m. j / m) (pow-succ' 2 n) ∙ sym (div-div-eq-div-mul j 2 (2 ^ n))

module _ ⦃o : Orchard⦄ where
  next_nodes-pair_up :
      (level : ℕ) (ns : List o.Node)
      → next_nodes level (map o.to_bytes ns) ≡ ok (map o.to_bytes (pair_up level ns))
  unfolding next_nodes pair_up
  next_nodes-pair_up level [] = refl
  next_nodes-pair_up level (l ∷ []) = rw (hash_combine-to_bytes level l (o.empty_root level))
  next_nodes-pair_up level (l ∷ r ∷ ns) =
      rw (hash_combine-to_bytes level l r, next_nodes-pair_up level ns)

  sibling-padded :
      (level i : ℕ) (ns : List o.Node)
      → (if ltb i (length (map o.to_bytes ns))
          then get_or (map o.to_bytes ns) i (o.to_bytes (o.empty_root level))
          else o.to_bytes (o.empty_root level))
        ≡ o.to_bytes (padded level ns i)
  sibling-padded level i ns = elim (Bool-cases (ltb i (length (map o.to_bytes ns)))) [
    | inl inside ↦ rw inside (get_or-map o.to_bytes ns i (o.empty_root level))
    | inr outside ↦ rw outside (
        ap o.to_bytes (
          sym (
            get_or-beyond ns i (o.empty_root level)
              (omega (arith, ltb→le _ _ outside, length-map o.to_bytes ns)))))
  ]

  -- `out` is `siblings` with the `n` siblings on the way up from node `idx` of level `b` in place.
  pub record HasSiblings (n b : ℕ) (ns : List o.Node) (idx : ℕ) (siblings out : List Hash)
      : Type 0 where
    pub size : length out ≡ length siblings
    pub kept : (l : ℕ) → (l < b) ⊎ (b + n ≤ l) → get_or out l [] ≡ get_or siblings l []
    pub path :
        (l : ℕ)
        → l < n
        → get_or out (b + l) [] ≡ o.to_bytes (node_from b (padded b ns) l (xor_one (idx / 2 ^ l)))

  extend :
      (n b : ℕ) (ns : List o.Node) (idx : ℕ) (siblings out : List Hash)
      → b + suc n ≤ length siblings
      → HasSiblings n
          (b + 1)
          (pair_up b ns)
          (idx / 2)
          (set siblings b (o.to_bytes (padded b ns (xor_one idx))))
          out
      → HasSiblings (suc n) b ns idx siblings out
  extend n b ns idx siblings out h s =
      let sib = o.to_bytes (padded b ns (xor_one idx)) in
      record {
        size = s.size ∙ length-set siblings b sib;
        kept = λ l p.
            s.kept l (elim p [ inl a ↦ inl (omega arith) | inr a ↦ inr (omega arith) ])
            ∙ get_or-set_ne siblings b l sib [] (omega arith);
        path = path;
      }
    where
      path :
          (l : ℕ)
          → l < suc n
          → get_or out (b + l) [] ≡ o.to_bytes (node_from b (padded b ns) l (xor_one (idx / 2 ^ l)))
      path zero p =
          let whole : idx / 1 ≡ idx = omega arith in
          rw (whole, node_from-zero b (padded b ns) (xor_one idx))
            (ap (λ i. get_or out i []) (omega arith)
              ∙ s.kept b (inl (omega arith))
              ∙ get_or-set_self siblings b (o.to_bytes (padded b ns (xor_one idx))) []
                  (omega arith))
      path (suc l) p =
          ap (λ i. get_or out i []) {y = b + 1 + l} (omega arith)
          ∙ s.path l (omega arith)
          ∙ ap
              (λ m.
                o.to_bytes (node_from m (padded m (pair_up b ns)) l (xor_one (idx / 2 / 2 ^ l))))
              {y = suc b} (omega arith)
          ∙ ap o.to_bytes (node_from-pair_up b ns l (xor_one (idx / 2 / 2 ^ l)))
          ∙ ap (λ i. o.to_bytes (node_from b (padded b ns) (suc l) (xor_one i)))
              (sym (halve_again idx l))

  pub extract_siblings-HasSiblings :
      (n b : ℕ) (ns : List o.Node) (idx : ℕ) (siblings : List Hash)
      → b + n ≤ length siblings
      → (out : List Hash) × (extract_siblings n b (map o.to_bytes ns) idx siblings ≡ ok out)
        × HasSiblings n b ns idx siblings out
  unfolding extract_siblings
  extract_siblings-HasSiblings zero b ns idx siblings h =
      (siblings, refl, record { size = refl; kept = λ l _. refl; path = λ l p. elim p [ ] })
  extract_siblings-HasSiblings (suc n) b ns idx siblings h =
      let sib = o.to_bytes (padded b ns (xor_one idx)) in
      let (out, run, s) =
        extract_siblings-HasSiblings n (b + 1) (pair_up b ns) (idx / 2) (set siblings b sib)
          (omega (arith, length-set siblings b sib)) in
      (
        out,
        rw (sibling-padded b (xor_one idx) ns, next_nodes-pair_up b ns) run,
        extend n b ns idx siblings out h s,
      )

  -- one round of the fold: from a node and its sibling to their parent
  one_up :
      (k b : ℕ) (g : ℕ → o.Node) (j pos : ℕ) (s : Hash) (siblings : List Hash)
      → s ≡ o.to_bytes (node_from b g k (xor_one j))
      → pos % 2 ≡ j % 2
      → root_from (b + k) (o.to_bytes (node_from b g k j)) pos (s ∷ siblings)
        ≡ root_from (b + suc k) (o.to_bytes (node_from b g (suc k) (j / 2))) (pos / 2) siblings
  unfolding root_from
  one_up k b g j pos s siblings e parity = elim (Bool-cases (pos % 2 == 0)) [
    | inl even ↦
        let left : 2 * (j / 2) ≡ j = omega (arith, (==_iff _ _).0 even) in
        let j_even : (j % 2 == 0) ≡ true = ground arith in
        rw (even, e, j_even, hash_combine-to_bytes (b + k))
          (ap₂ (λ m n. root_from m (o.to_bytes n) (pos / 2) siblings) (omega arith)
            (ap₂ (λ l r. o.combine (b + k) (node_from b g k l) (node_from b g k r)) (sym left)
                (omega arith)
              ∙ sym (node_from-suc b g k (j / 2))))
    | inr odd ↦
        let j_odd : (j % 2 == 0) ≡ false = ground arith in
        let right : 2 * (j / 2) + 1 ≡ j = ground arith in
        rw (odd, e, j_odd, hash_combine-to_bytes (b + k))
          (ap₂ (λ m n. root_from m (o.to_bytes n) (pos / 2) siblings) (omega arith)
            (ap₂ (λ l r. o.combine (b + k) (node_from b g k l) (node_from b g k r)) (omega arith)
                (sym right)
              ∙ sym (node_from-suc b g k (j / 2))))
  ]

  -- Folding from node `j` up `n` levels, with the siblings at the head of the list, gives the
  -- ancestor. The position agrees with `j` in its lowest `n` bits.
  pub root_from-node_from :
      (n k b : ℕ) (g : ℕ → o.Node) (hi j pos : ℕ) (siblings : List Hash)
      → pos ≡ hi * 2 ^ n + j
      → n ≤ length siblings
      → ((l : ℕ)
          → l < n
          → get_or siblings l [] ≡ o.to_bytes (node_from b g (k + l) (xor_one (j / 2 ^ l))))
      → root_from (b + k) (o.to_bytes (node_from b g k j)) pos siblings
        ≡ root_from
            (b + (k + n))
            (o.to_bytes (node_from b g (k + n) (j / 2 ^ n)))
            (pos / 2 ^ n)
            (drop n siblings)
  root_from-node_from zero k b g hi j pos siblings e len h =
      let same : j / 1 ≡ j = omega arith in
      let pos_same : pos / 1 ≡ pos = omega arith in
      rw (same, pos_same)
        (ap (λ m. root_from (b + m) (o.to_bytes (node_from b g m j)) pos siblings) (omega arith))
  root_from-node_from (suc n) k b g hi j pos [] e len h = elim len [ ]
  root_from-node_from (suc n) k b g hi j pos (s ∷ siblings) e len h =
      let k_here : k + 0 ≡ k = omega arith in
      let j_here : j / 1 ≡ j = omega arith in
      let double : hi * 2 ^ suc n ≡ 2 * (hi * 2 ^ n) = rw (pow-suc 2 n) (omega arith) in
      one_up k b g j pos s siblings (rw (k_here, j_here) at (h 0 (omega arith))) (omega arith)
      ∙ root_from-node_from n (suc k) b g hi (j / 2) (pos / 2) siblings (omega arith) (omega arith)
          (λ l p.
            h (suc l) (omega arith)
            ∙ ap₂ (λ m i. o.to_bytes (node_from b g m (xor_one i))) (omega arith) (halve_again j l))
      ∙ ap₂
          (λ m i.
            root_from (b + m) (o.to_bytes (node_from b g m i)) (pos / 2 / 2 ^ n) (drop n siblings))
          {y = k + suc n} (omega arith) (sym (halve_again j n))
      ∙ ap
          (λ i.
            root_from (b + (k + suc n)) (o.to_bytes (node_from b g (k + suc n) (j / 2 ^ suc n))) i
              (drop n siblings))
          (sym (halve_again pos n))

  -- A whole tier: from node `idx` of the level to the root over its first `2 ^ n` nodes.
  pub root_from-tier :
      (n b : ℕ) (ns : List o.Node) (hi idx pos : ℕ) (xs : List Hash)
      → pos ≡ hi * 2 ^ n + idx
      → idx < 2 ^ n
      → n ≤ length xs
      → ((l : ℕ)
          → l < n
          → get_or xs l [] ≡ o.to_bytes (node_from b (padded b ns) l (xor_one (idx / 2 ^ l))))
      → root_from b (o.to_bytes (padded b ns idx)) pos xs
        ≡ root_from (b + n) (o.to_bytes (node_from b (padded b ns) n 0)) hi (drop n xs)
  root_from-tier n b ns hi idx pos xs e small len h =
      let g = padded b ns in
      let top : idx / 2 ^ n ≡ 0 = div-eq_of_lt small in
      let high : pos / 2 ^ n ≡ hi =
        ap (λ m. m / 2 ^ n) (e ∙ add_comm (hi * 2 ^ n) idx)
        ∙ add-mul-div_right idx hi (omega arith)
        ∙ omega (arith, top) in
      ap₂ (λ m n'. root_from m (o.to_bytes n') pos xs) {y = b + 0} (omega arith)
        (sym (node_from-zero b g idx))
      ∙ root_from-node_from n 0 b g hi idx pos xs e len (λ l p.
        h l p ∙ ap (λ m. o.to_bytes (node_from b g m (xor_one (idx / 2 ^ l)))) (omega arith))
      ∙ ap₂ (λ m i. root_from (b + m) (o.to_bytes (node_from b g m i)) (pos / 2 ^ n) (drop n xs))
          {y = n} (omega arith) top
      ∙ ap (λ i. root_from (b + n) (o.to_bytes (node_from b g n 0)) i (drop n xs)) high
