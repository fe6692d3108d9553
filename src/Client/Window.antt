-- ===== src/Client/Window.antt =====
-- crates/client/src/witness.rs, `get_witnesses`: the check of the window and the rows that are kept
-- between positions. Retrieving a row privately is an argument.
use p2p_spendability_pir.Common.{
  ℕ, ◌+◌, ◌^◌, ◌≡◌, refl, sym, ap, ◌∙◌, inl, inr, List, [], ◌∷◌, Option, none, some, Bool, true,
  false, ◌||◌, ltb, leb, equal_or_not,
}
use p2p_spendability_pir.Common.OrderedMap
use p2p_spendability_pir.Common.Run.{ok, err, panic, ◌>>=◌, ◌>>◌, fail_if}
use p2p_spendability_pir.Orchard.{Orchard}
use p2p_spendability_pir.Witness.Types.{
  BroadcastData, PirWitness, decompose_position, physical_row_index,
}
use p2p_spendability_pir.Client.Reconstruct.{
  Result, WitnessClientError, invalid_params, invalid_pir_window, position_outside_window,
  reconstruct_witness,
}

abbrev pub Rows : Type 0
Rows = List (ℕ × List ℕ)

injective {ℓ} : {A : Type ℓ} {a b : A} → some a ≡ some b → a ≡ b
injective e = cc

module _ ⦃o : Orchard⦄ (retrieve : ℕ → Result (List ℕ)) (broadcast : BroadcastData) where
  -- `decoded_rows.entry(row_idx)`: a row that is not there is queried and kept.
  unfoldable pub cached_row : ℕ → Option (List ℕ) → Rows → Result (List ℕ × Rows)
  cached_row row_idx (some row) decoded_rows = ok (row, decoded_rows)
  cached_row row_idx none decoded_rows = do
    row ← retrieve row_idx
    ok (row, OrderedMap.insert row_idx row decoded_rows)

  -- the loop over the positions
  unfoldable pub witnesses_from : ℕ → List ℕ → Rows → Result (List PirWitness)
  witnesses_from window_end [] decoded_rows = ok []
  witnesses_from window_end (position ∷ positions) decoded_rows = do
    let parts = decompose_position position
    fail_if (ltb parts.0 broadcast.window_start_shard || leb window_end parts.0)
        (position_outside_window position broadcast.window_start_shard window_end)
    let row_idx = physical_row_index parts.0 parts.1 broadcast.window_start_shard
    fetched ← cached_row row_idx (OrderedMap.lookup row_idx decoded_rows) decoded_rows
    witness ← reconstruct_witness position parts.0 parts.1 parts.2 fetched.0 broadcast
    rest ← witnesses_from window_end positions fetched.1
    ok (witness ∷ rest)

  unfoldable pub get_witnesses : List ℕ → Result (List PirWitness)
  get_witnesses positions = do
    let window_end = broadcast.window_start_shard + broadcast.window_shard_count
    fail_if (leb (2 ^ 32) window_end) (invalid_params invalid_pir_window)
    witnesses_from window_end positions []

  -- The same without kept rows: every position queries its row.
  unfoldable pub get_witness_uncached : ℕ → ℕ → Result PirWitness
  get_witness_uncached window_end position = do
    let parts = decompose_position position
    fail_if (ltb parts.0 broadcast.window_start_shard || leb window_end parts.0)
        (position_outside_window position broadcast.window_start_shard window_end)
    row ← retrieve (physical_row_index parts.0 parts.1 broadcast.window_start_shard)
    reconstruct_witness position parts.0 parts.1 parts.2 row broadcast

  unfoldable pub each_witness : ℕ → List ℕ → Result (List PirWitness)
  each_witness window_end [] = ok []
  each_witness window_end (position ∷ positions) = do
    witness ← get_witness_uncached window_end position
    rest ← each_witness window_end positions
    ok (witness ∷ rest)

  Retrieved : Rows → Type 0
  Retrieved decoded_rows =
      (k : ℕ) (row : List ℕ) → OrderedMap.lookup k decoded_rows ≡ some row → retrieve k ≡ ok row

  -- what fetching a row gives, with kept rows and without
  data Fetch (k : ℕ) (fetched : Result (List ℕ × Rows)) : Type 0 where
    got :
        (row : List ℕ) (decoded_rows : Rows)
        → fetched ≡ ok (row, decoded_rows)
        → retrieve k ≡ ok row
        → Retrieved decoded_rows
        → Fetch k fetched
    failed : (e : WitnessClientError) → fetched ≡ err e → retrieve k ≡ err e → Fetch k fetched
    panicked : fetched ≡ panic → retrieve k ≡ panic → Fetch k fetched

  Retrieved-insert :
      (k : ℕ) (row : List ℕ) (decoded_rows : Rows)
      → retrieve k ≡ ok row
      → Retrieved decoded_rows
      → Retrieved (OrderedMap.insert k row decoded_rows)
  unfolding Retrieved
  Retrieved-insert k row decoded_rows at kept j other found = elim (equal_or_not j k) [
    | inl same ↦
        let both : some row ≡ some other =
          sym (OrderedMap.lookup-insert k row decoded_rows)
          ∙ ap (λ n. OrderedMap.lookup n (OrderedMap.insert k row decoded_rows)) (sym same)
          ∙ found in
        ap retrieve same ∙ at ∙ ap ok (injective both)
    | inr apart ↦
        kept j other (sym (OrderedMap.lookup-insert_other k j row decoded_rows apart) ∙ found)
  ]

  cached_row-queried-Fetch :
      (k : ℕ) (decoded_rows : Rows) (r : Result (List ℕ))
      → retrieve k ≡ r
      → Retrieved decoded_rows
      → Fetch k (cached_row k none decoded_rows)
  unfolding cached_row
  cached_row-queried-Fetch k decoded_rows (ok row) e kept =
      got row (OrderedMap.insert k row decoded_rows)
        (ap (λ r. r >>= λ x. ok (x, OrderedMap.insert k x decoded_rows)) e) e
        (Retrieved-insert k row decoded_rows e kept)
  cached_row-queried-Fetch k decoded_rows (err x) e kept =
      failed x (ap (λ r. r >>= λ x. ok (x, OrderedMap.insert k x decoded_rows)) e) e
  cached_row-queried-Fetch k decoded_rows panic e kept =
      panicked (ap (λ r. r >>= λ x. ok (x, OrderedMap.insert k x decoded_rows)) e) e

  cached_row-Fetch :
      (k : ℕ) (decoded_rows : Rows) (o : Option (List ℕ))
      → OrderedMap.lookup k decoded_rows ≡ o
      → Retrieved decoded_rows
      → Fetch k (cached_row k o decoded_rows)
  unfolding cached_row Retrieved
  cached_row-Fetch k decoded_rows (some row) e kept = got row decoded_rows refl (kept k row e) kept
  cached_row-Fetch k decoded_rows none e kept =
      cached_row-queried-Fetch k decoded_rows (retrieve k) refl kept

  bind_assoc :
      {A B C : Type 0} (r : Result A) (f : A → Result B) (g : B → Result C)
      → ((r >>= f) >>= g) ≡ (r >>= λ a. f a >>= g)
  bind_assoc (ok a) f g = refl
  bind_assoc (err e) f g = refl
  bind_assoc panic f g = refl

  fail_if_cases :
      {A : Type 0} (b : Bool) (e : WitnessClientError) (k l : Result A)
      → (b ≡ false → k ≡ l)
      → (fail_if b e >> k) ≡ (fail_if b e >> l)
  fail_if_cases true e k l f = refl
  fail_if_cases false e k l f = f refl

  witnesses_from-each :
      (window_end : ℕ) (positions : List ℕ) (decoded_rows : Rows)
      → Retrieved decoded_rows
      → witnesses_from window_end positions decoded_rows ≡ each_witness window_end positions
  unfolding witnesses_from each_witness get_witness_uncached
  witnesses_from-each window_end [] decoded_rows kept = refl
  witnesses_from-each window_end (position ∷ positions) decoded_rows kept =
      let parts = decompose_position position in
      let k = physical_row_index parts.0 parts.1 broadcast.window_start_shard in
      let recon : List ℕ → Result PirWitness =
        λ row. reconstruct_witness position parts.0 parts.1 parts.2 row broadcast in
      let after : PirWitness → Result (List PirWitness) =
        λ witness. each_witness window_end positions >>= λ rest. ok (witness ∷ rest) in
      let cached : List ℕ × Rows → Result (List PirWitness) = λ fetched.
        recon fetched.0 >>= λ witness.
        witnesses_from window_end positions fetched.1 >>= λ rest. ok (witness ∷ rest) in
      let bad = ltb parts.0 broadcast.window_start_shard || leb window_end parts.0 in
      let outside = position_outside_window position broadcast.window_start_shard window_end in
      fail_if_cases bad outside _ _ (λ inside.
        elim (cached_row-Fetch k decoded_rows (OrderedMap.lookup k decoded_rows) refl kept) [
          | got row rows fetched at kept' ↦
              ap (λ r. r >>= cached) fetched
              ∙ ap (λ r. recon row >>= λ witness. r >>= λ rest. ok (witness ∷ rest))
                  (witnesses_from-each window_end positions rows kept')
              ∙ sym (ap (λ r. (r >>= recon) >>= after) at)
          | failed e fetched at ↦
              ap (λ r. r >>= cached) fetched ∙ sym (ap (λ r. (r >>= recon) >>= after) at)
          | panicked fetched at ↦
              ap (λ r. r >>= cached) fetched ∙ sym (ap (λ r. (r >>= recon) >>= after) at)
        ])
      ∙ sym (bind_assoc (fail_if bad outside) (λ _. retrieve k >>= recon) after)

  -- Keeping the rows between positions changes nothing: where a row always decodes to the same
  -- bytes, `get_witnesses` gives what it would give with a query for every position, errors and
  -- panics included.
  pub get_witnesses-each :
      (positions : List ℕ)
      → get_witnesses positions ≡ (
          fail_if
            (leb (2 ^ 32) (broadcast.window_start_shard + broadcast.window_shard_count))
            (invalid_params invalid_pir_window)
          >> each_witness (broadcast.window_start_shard + broadcast.window_shard_count) positions)
  unfolding get_witnesses Retrieved
  get_witnesses-each positions =
      fail_if_cases (leb (2 ^ 32) (broadcast.window_start_shard + broadcast.window_shard_count))
        (invalid_params invalid_pir_window) _ _
        λ fits.
          witnesses_from-each (broadcast.window_start_shard + broadcast.window_shard_count)
            positions [] (unfold Retrieved in λ k row found. absurd (cc))
