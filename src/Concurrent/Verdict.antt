-- ===== src/Concurrent/Verdict.antt =====
-- rnr/pkg/consensus/concurrent_validation.go: which blocks and transactions pass.
use mathlib.Core.Path.{subst}
use route_n_root.Prelude.{
  ℕ, ◌<◌, ◌≡◌, ◌↔◌, ◌⊎◌, refl, ap, sym, ◌∙◌, inl, inr, Bool, true, Option, none, List, [], ◌∷◌,
  Bytes, Bool-cases, Option-cases, bytes_equal_iff, All, length, map, select, arith,
}
use route_n_root.Core.{Account, Transaction, Block}
use route_n_root.Concurrent.{
  validate_transaction, validate_transactions_concurrently, filter_valid_transactions,
  first_invalid, BlockCheck, check_link, check_poh, check_transactions, run_check, first_error,
  validate_block_parallel,
}
use route_n_root.Concurrent.Order.{occurs, validate_transactions_concurrently_any_order}

abbrev pub Has : BlockCheck → List BlockCheck → Type 0
Has c [] = ⊥
Has c (d ∷ ds) = (d ≡ c) ⊎ Has c ds

module _ (get_account : Bytes → Option Account) where
  -- A transaction passes on its own.
  abbrev pub Passes : Transaction → Type 0
  Passes tx = (validate_transaction get_account tx).valid ≡ true

  first_invalid-map :
      (txs : List Transaction)
      → (first_invalid (map (validate_transaction get_account) txs) ≡ none) ↔ All Passes txs
  unfolding first_invalid
  first_invalid-map [] = ((λ _. tt), λ _. refl)
  first_invalid-map (tx ∷ txs) =
      let rest = first_invalid-map txs in
      elim (Bool-cases ((validate_transaction get_account tx).valid)) [
        | inl good ↦ rw good ((λ h. (refl, rest.0 h)), λ a. rest.1 a.1)
        | inr bad ↦ rw bad ((λ h. cc), λ a. cc)
      ]

  filter_map :
      (txs : List Transaction)
      → filter_valid_transactions txs (map (validate_transaction get_account) txs)
        ≡ select (λ tx. (validate_transaction get_account tx).valid) txs
  unfolding filter_valid_transactions
  filter_map [] = refl
  filter_map (tx ∷ txs) = ground (arith, filter_map txs)

  -- If every goroutine finishes, in whatever order, FilterValidTransactions keeps of the transactions, in their order, those that
  -- pass on their own.
  filter_valid_transactions_any_order :
      (order : List ℕ) (txs : List Transaction)
      → ((j : ℕ) → j < length txs → occurs j order ≡ true)
      → filter_valid_transactions txs (validate_transactions_concurrently get_account order txs)
        ≡ select (λ tx. (validate_transaction get_account tx).valid) txs
  filter_valid_transactions_any_order order txs all =
      ap (filter_valid_transactions txs)
        (validate_transactions_concurrently_any_order get_account order txs all)
      ∙ filter_map txs

module _ (get_account : Bytes → Option Account) (poh_verifier : Bytes → Bool) where
  first_error_lem :
      (order : List ℕ) (b : Block) (prev : Bytes) (checks : List BlockCheck)
      → (first_error get_account poh_verifier order b prev checks ≡ none)
        ↔ All (λ c. run_check get_account poh_verifier order b prev c ≡ none) checks
  unfolding first_error
  first_error_lem order b prev [] = ((λ _. tt), λ _. refl)
  first_error_lem order b prev (c ∷ checks) =
      let rest = first_error_lem order b prev checks in
      elim (Option-cases (run_check get_account poh_verifier order b prev c)) [
        | inl fine ↦ rw (fine, first_error) ((λ h. (refl, rest.0 h)), λ a. rest.1 a.1)
        | inr (e, sent) ↦ rw (sent, first_error) ((λ h. cc), λ a. cc)
      ]

  All-Has :
      (P : BlockCheck → Type 0) (c : BlockCheck) (checks : List BlockCheck)
      → All P checks
      → Has c checks
      → P c
  All-Has P c [] a h = elim h [ ]
  All-Has P c (d ∷ checks) a (inl same) = subst P same a.0
  All-Has P c (d ∷ checks) a (inr later) = All-Has P c checks a.1 later

  every-All :
      (P : BlockCheck → Type 0) (checks : List BlockCheck) → ((c : BlockCheck) → P c) → All P checks
  every-All P [] h = tt
  every-All P (c ∷ checks) h = (h c, every-All P checks h)

  -- If the three checks and all goroutines of the transactions finish, in whatever order, a block other than the genesis block passes
  -- ValidateBlockParallel exactly if it names the previous hash, its proof of history is accepted and each transaction passes on its own.
  pub validate_block_parallel_iff :
      (order : List ℕ) (checks : List BlockCheck) (b : Block) (prev : Bytes)
      → 0 < b.header.height
      → Has check_link checks
      → Has check_poh checks
      → Has check_transactions checks
      → ((j : ℕ) → j < length b.transactions → occurs j order ≡ true)
      → (validate_block_parallel get_account poh_verifier order checks b prev ≡ none) ↔ (
          (b.header.prev_block_hash ≡ prev)
          × (poh_verifier b.poh_sequence ≡ true)
          × All (Passes get_account) b.transactions)
  unfolding validate_block_parallel run_check
  validate_block_parallel_iff order checks b prev high link poh txs all =
      let sequential =
        validate_transactions_concurrently_any_order get_account order b.transactions all in
      let passes = first_invalid-map get_account b.transactions in
      let passed = λ (c : BlockCheck). run_check get_account poh_verifier order b prev c ≡ none in
      let errors = first_error_lem order b prev checks in
      (
        (λ h.
            let a = errors.0 h in
            let l = All-Has passed check_link checks a link in
            let p = All-Has passed check_poh checks a poh in
            let t = All-Has passed check_transactions checks a txs in
            (
              ground (arith, l, high, bytes_equal_iff b.header.prev_block_hash prev),
              ground (arith, p),
              passes.0 (sym (ap first_invalid sequential) ∙ t),
            )),
        λ h. errors.1 (
            every-All passed checks (λ c. elim c as passed [
              | check_link ↦ ground (arith, h.0, bytes_equal_iff b.header.prev_block_hash prev)
              | check_poh ↦ ground (arith, h.1)
              | check_transactions ↦ ap first_invalid sequential ∙ passes.1 h.2
            ])),
      )
