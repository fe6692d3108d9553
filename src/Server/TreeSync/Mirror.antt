-- ===== src/Server/TreeSync/Mirror.antt =====
-- The tree of a server that follows the chain mirrors the window of the follower.
use p2p_spendability_pir.Common.{
  ℕ, ◌+◌, ◌<◌, ◌≤◌, ◌≡◌, refl, sym, ap, ap₂, subst, ◌∙◌, Option, some, List, [], ◌∷◌, ◌++◌, map,
  length, length-map, All, inl, inr, arith, drop, lt→ltb, le→ltb, append_assoc, map-append,
  length-append, append-nil, equal_or_not, ◌≢◌,
}
use p2p_spendability_pir.Orchard.{Orchard, Hash}
use p2p_spendability_pir.Ingest.Range.{ValidatedBlock, IsChain, Follows}
use p2p_spendability_pir.Ingest.Sync.{chain_end, IsChain-append}
use p2p_spendability_pir.Ingest.Commitment.{commitments_of}
use p2p_spendability_pir.Ingest.Follow.{History, hash_at, drop_newer}
use p2p_spendability_pir.Ingest.Follow.Window.{drop_newer-cons}
use p2p_spendability_pir.Witness.Tree.{BlockRecord, CommitmentTreeDb}
use p2p_spendability_pir.Witness.Tree.Represents.{Represents}
use p2p_spendability_pir.Witness.Tree.Rollback.{NewBlock, all_commitments, as_record}
use p2p_spendability_pir.Server.TreeSync.Blocks.{as_new, Appended}

-- an entry of the window
abbrev pub entry : ValidatedBlock → ℕ × Hash
entry v = (v.block.height, v.hash)

-- Where a chain is cut at one of its heights.
pub record Cut (fork start : ℕ) (prior : Option Hash) (vs : List ValidatedBlock) : Type 0 where
  pub kept : List ValidatedBlock
  pub removed : List ValidatedBlock
  pub parts : vs ≡ kept ++ removed
  pub nonempty : 0 < length kept
  pub low : All (λ v. v.block.height ≤ fork) kept
  pub high : All (λ v. fork < v.block.height) removed
  pub chain : IsChain start prior kept
  pub reaches : start + length kept ≡ fork + 1
  pub in_window : drop_newer fork (map entry vs) ≡ map entry kept

none_at_most :
    (fork start : ℕ) (prior : Option Hash) (vs : List ValidatedBlock)
    → fork < start
    → IsChain start prior vs
    → All (λ v. fork < v.block.height) vs × (drop_newer fork (map entry vs) ≡ [])
unfolding drop_newer
none_at_most fork start prior [] lt c = (tt, refl)
none_at_most fork start prior (v ∷ vs) lt (f, c) =
    let (high, popped) = none_at_most fork (start + 1) (some v.hash) vs (omega arith) c in
    (
      (omega (arith, f.at_height), high),
      rw (popped, lt→ltb fork v.block.height (omega (arith, f.at_height))) refl,
    )

pub split_chain :
    (fork start : ℕ) (prior : Option Hash) (vs : List ValidatedBlock)
    → start ≤ fork
    → fork < start + length vs
    → IsChain start prior vs
    → Cut fork start prior vs
unfolding drop_newer
split_chain fork start prior [] le lt c = absurd (omega arith)
split_chain fork start prior (v ∷ vs) le lt (f, c) = elim (equal_or_not start fork) [
  | inl here ↦
      let (high, popped) = none_at_most fork (start + 1) (some v.hash) vs (omega arith) c in
      record {
        kept = v ∷ [];
        removed = vs;
        parts = refl;
        nonempty = omega arith;
        low = (omega (arith, f.at_height), tt);
        high = high;
        chain = (f, tt);
        reaches = omega arith;
        in_window = rw (popped, le→ltb fork v.block.height (omega (arith, f.at_height))) refl;
      }
  | inr further ↦
      let rest = split_chain fork (start + 1) (some v.hash) vs (omega arith) (omega arith) c in
      record {
        kept = v ∷ rest.kept;
        removed = rest.removed;
        parts = ap (λ l. v ∷ l) rest.parts;
        nonempty = omega arith;
        low = (omega (arith, f.at_height), rest.low);
        high = rest.high;
        chain = (f, rest.chain);
        reaches = omega (arith, rest.reaches);
        in_window =
            drop_newer-cons v.block.height v.hash (map entry vs) fork
              (omega (arith, ap length rest.in_window, length-map entry rest.kept, rest.nonempty))
            ∙ ap (λ l. entry v ∷ l) rest.in_window;
      }
]

-- The newest entry of a window is the end of its chain.
pub hash_at-chain_end :
    (vs : List ValidatedBlock) (start current : ℕ) (prior : Option Hash) (hash : Hash)
    → IsChain start prior vs
    → start + length vs ≡ current + 1
    → hash_at (map entry vs) current ≡ some hash
    → chain_end prior vs ≡ some hash
unfolding hash_at
hash_at-chain_end [] start current prior hash c e h = absurd (cc)
hash_at-chain_end (v ∷ []) start current prior hash (f, c) e h =
    let there : v.block.height ≡ current = omega (arith, f.at_height) in ground arith
hash_at-chain_end (v ∷ w ∷ vs) start current prior hash (f, c) e h =
    let elsewhere : v.block.height ≢ current = omega (arith, f.at_height) in
    hash_at-chain_end (w ∷ vs) (start + 1) current (some v.hash) hash c (omega arith) (ground arith)

module _ ⦃o : Orchard⦄ where
  -- The leaves of the tree end with the commitments of the blocks of the window, and its block
  -- records with theirs; these blocks are a chain of validated blocks up to the current height.
  pub record Mirrors (current : ℕ) (history : History) (t : CommitmentTreeDb) : Type 0 where
    pub base : List Hash
    pub older : List BlockRecord
    pub recent : List ValidatedBlock
    pub start : ℕ
    pub prior : Option Hash
    pub chain : IsChain start prior recent
    pub reaches : start + length recent ≡ current + 1
    pub window : history ≡ map entry recent
    pub leaves : t.leaves ≡ base ++ all_commitments (map as_new recent)
    pub blocks : t.blocks ≡ older ++ map as_record (map as_new recent)
    pub notes : List o.Node
    pub roots : List o.Node
    pub represents : Represents t notes roots

  -- A block that leaves the window stays in the tree.
  forget_first :
      (current : ℕ) (x : ℕ × Hash) (history : History) (t : CommitmentTreeDb) (base : List Hash)
      (older : List BlockRecord) (recent : List ValidatedBlock) (start : ℕ) (prior : Option Hash)
      → IsChain start prior recent
      → start + length recent ≡ current + 1
      → x ∷ history ≡ map entry recent
      → t.leaves ≡ base ++ all_commitments (map as_new recent)
      → t.blocks ≡ older ++ map as_record (map as_new recent)
      → (notes roots : List o.Node) → Represents t notes roots
      → Mirrors current history t
  unfolding all_commitments
  forget_first current x history t base older [] start prior c e w l b notes roots r = absurd (cc)
  forget_first current x history t base older (v ∷ vs) start prior (f, c) e w l b notes roots r =
      record {
        base = base ++ commitments_of v.block;
        older = older ++ as_record (as_new v) ∷ [];
        recent = vs;
        start = start + 1;
        prior = some v.hash;
        chain = c;
        reaches = omega arith;
        window = cc;
        leaves =
            l ∙ sym (append_assoc base (commitments_of v.block) (all_commitments (map as_new vs)));
        blocks =
            b
            ∙ sym (append_assoc older (as_record (as_new v) ∷ []) (map as_record (map as_new vs)));
        notes = notes;
        roots = roots;
        represents = r;
      }

  pub forget :
      (current : ℕ) (history : History) (t : CommitmentTreeDb)
      → 0 < length history
      → Mirrors current history t
      → Mirrors current (drop 1 history) t
  forget current [] t h m = absurd (omega arith)
  forget current (x ∷ history) t h m =
      forget_first current x history t m.base m.older m.recent m.start m.prior m.chain m.reaches
        m.window m.leaves m.blocks m.notes m.roots m.represents

  pub all_commitments-append :
      (xs ys : List NewBlock)
      → all_commitments (xs ++ ys) ≡ all_commitments xs ++ all_commitments ys
  unfolding all_commitments
  all_commitments-append [] ys = refl
  all_commitments-append (b ∷ xs) ys =
      ap (λ l. b.commitments ++ l) (all_commitments-append xs ys)
      ∙ sym (append_assoc b.commitments (all_commitments xs) (all_commitments ys))

  pub extended-Mirrors :
      (current : ℕ) (history : History) (t t' : CommitmentTreeDb) (hash : Hash) (v : ValidatedBlock)
      (m : Mirrors current history t)
      → hash_at history current ≡ some hash
      → Follows (current + 1) (some hash) v
      → Appended v t m.notes m.roots t'
      → Mirrors (current + 1) (history ++ (current + 1, v.hash) ∷ []) t'
  unfolding all_commitments
  extended-Mirrors current history t t' hash v m newest f a =
      let end : chain_end m.prior m.recent ≡ some hash =
        hash_at-chain_end m.recent m.start current m.prior hash m.chain m.reaches
          (subst (λ l. hash_at l current ≡ some hash) m.window newest) in
      let last : IsChain (m.start + length m.recent) (chain_end m.prior m.recent) (v ∷ []) =
        subst (λ n. IsChain n (chain_end m.prior m.recent) (v ∷ [])) (sym m.reaches)
          (subst (λ p. IsChain (current + 1) p (v ∷ [])) (sym end) (f, tt)) in
      let news = map-append as_new m.recent (v ∷ []) in
      record {
        base = m.base;
        older = m.older;
        recent = m.recent ++ v ∷ [];
        start = m.start;
        prior = m.prior;
        chain = IsChain-append m.recent (v ∷ []) m.start m.prior m.chain last;
        reaches = omega (arith, m.reaches, length-append m.recent (v ∷ []));
        window =
            ap₂ (λ l n. l ++ (n, v.hash) ∷ []) m.window (sym f.at_height)
            ∙ sym (map-append entry m.recent (v ∷ []));
        leaves =
            a.leaves
            ∙ ap (λ l. l ++ commitments_of v.block) m.leaves
            ∙ append_assoc m.base (all_commitments (map as_new m.recent)) (commitments_of v.block)
            ∙ ap (λ l. m.base ++ (all_commitments (map as_new m.recent) ++ l))
                (sym (append-nil (commitments_of v.block)))
            ∙ ap (λ l. m.base ++ l)
                (sym (all_commitments-append (map as_new m.recent) (as_new v ∷ [])))
            ∙ ap (λ l. m.base ++ all_commitments l) (sym news);
        blocks =
            a.blocks
            ∙ ap (λ l. l ++ as_record (as_new v) ∷ []) m.blocks
            ∙ append_assoc m.older (map as_record (map as_new m.recent)) (as_record (as_new v) ∷ [])
            ∙ ap (λ l. m.older ++ l)
                (sym (map-append as_record (map as_new m.recent) (as_new v ∷ [])))
            ∙ ap (λ l. m.older ++ map as_record l) (sym news);
        notes = m.notes ++ a.notes;
        roots = m.roots;
        represents = a.represents;
      }
