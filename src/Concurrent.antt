-- ===== src/Concurrent.antt =====
-- rnr/pkg/consensus/concurrent_validation.go: transactions and blocks checked by goroutines.
-- Goroutines share a slice, in which each writes its own entry, or a channel of errors. The order in
-- which they finish is an argument: a list of their numbers. blockchain.State is the parameter
-- `get_account`, and the verifier of the proof of history, which the code takes, is another.
pub mod Order
pub mod Verdict
use route_n_root.Prelude.{
  ℕ, zero, suc, ◌+◌, Bool, true, false, not, ◌&&◌, Option, none, some, List, [], ◌∷◌, ◌++◌, Bytes,
  bytes_equal, length, map, if◌then◌else◌, ltb, leb, ◌==◌,
}
use route_n_root.Prelude.Int.{ltb_ℤ}
use route_n_root.Core.{Transaction, Block, Account}
use route_n_root.Platform.{Json, Sha256}

pub data InvalidReason : Type 0 where
  no_sender insufficient_balance invalid_nonce : InvalidReason

pub record ValidationResult : Type 0 where
  pub tx_id : Bytes
  pub valid : Bool
  pub error : Option InvalidReason

-- `make([]ValidationResult, n)` holds zero values.
unfoldable pub blank_result : ValidationResult
blank_result = record { tx_id = []; valid = false; error = none }

module _ {ℓ} {A : Type ℓ} where
  -- `xs[i]`, `none` out of range.
  unfoldable pub get_elem? : List A → ℕ → Option A
  get_elem? [] i = none
  get_elem? (x ∷ xs) zero = some x
  get_elem? (x ∷ xs) (suc i) = get_elem? xs i

  -- `xs[i] = v`, within range.
  unfoldable pub set_elem : ℕ → A → List A → List A
  set_elem i v [] = []
  set_elem zero v (x ∷ xs) = v ∷ xs
  set_elem (suc i) v (x ∷ xs) = x ∷ set_elem i v xs

  -- `make([]A, n)`
  unfoldable pub replicate : ℕ → A → List A
  replicate zero x = []
  replicate (suc n) x = x ∷ replicate n x

-- The goroutines of a loop over `xs` that write `f(xs[i])` to entry i, in the order in which they
-- finish.
unfoldable pub finish_in {ℓ κ} :
    {A : Type ℓ} {B : Type κ} → (A → B) → List A → List ℕ → List B → List B
finish_in f xs [] results = results
finish_in f xs (i ∷ order) results = elim (get_elem? xs i) [
  | none ↦ finish_in f xs order results
  | some x ↦ finish_in f xs order (set_elem i (f x) results)
]

abbrev pub refused : Transaction → InvalidReason → ValidationResult
refused tx reason = record { tx_id = tx.id; valid = false; error = some reason }

-- A goroutine of ValidateTransactionsConcurrently.
unfoldable pub validate_transaction : (Bytes → Option Account) → Transaction → ValidationResult
validate_transaction get_account tx = elim (get_account tx.from) [
  | none ↦ refused tx no_sender
  | some sender ↦
      if ltb_ℤ sender.balance tx.amount
      then refused tx insufficient_balance
      else if leb tx.nonce sender.nonce
      then refused tx invalid_nonce
      else (record { tx_id = tx.id; valid = true; error = none })
]

unfoldable pub validate_transactions_concurrently :
    (Bytes → Option Account) → (order : List ℕ) → List Transaction → List ValidationResult
validate_transactions_concurrently get_account order txs =
    finish_in (validate_transaction get_account) txs order (replicate (length txs) blank_result)

-- FilterValidTransactions, on results as many as the transactions.
unfoldable pub filter_valid_transactions :
    List Transaction → List ValidationResult → List Transaction
filter_valid_transactions (tx ∷ txs) (r ∷ results) =
    let rest = filter_valid_transactions txs results in if r.valid then tx ∷ rest else rest
filter_valid_transactions _ _ = []

-- The errors of ValidateBlockParallel.
pub data BlockError : Type 0 where
  bad_previous_hash bad_poh_sequence : BlockError
  bad_transaction : (tx_id : Bytes) → BlockError

-- The loop of its third goroutine: the first result that is not valid.
unfoldable pub first_invalid : List ValidationResult → Option BlockError
first_invalid [] = none
first_invalid (r ∷ results) =
    if r.valid then first_invalid results else some (bad_transaction (r.tx_id))

pub data BlockCheck : Type 0 where
  check_link check_poh check_transactions : BlockCheck

module _ (get_account : Bytes → Option Account) (poh_verifier : Bytes → Bool) where
  -- What a goroutine of ValidateBlockParallel sends to the channel, if anything; `order` is that of
  -- the goroutines that validate the transactions.
  unfoldable pub run_check :
      (order : List ℕ) → Block → (prev_block_hash : Bytes) → BlockCheck → Option BlockError
  run_check order b prev check_link =
      if b.header.height == 0
      then none
      else if bytes_equal b.header.prev_block_hash prev
      then none
      else some bad_previous_hash
  run_check order b prev check_poh =
      if poh_verifier b.poh_sequence then none else some bad_poh_sequence
  run_check order b prev check_transactions =
      first_invalid (validate_transactions_concurrently get_account order b.transactions)

  -- The channel after the checks have finished in some order; the first error in it is returned.
  unfoldable pub first_error :
      (order : List ℕ) → Block → Bytes → List BlockCheck → Option BlockError
  first_error order b prev [] = none
  first_error order b prev (c ∷ checks) =
      let rest = first_error order b prev checks in
      elim (run_check order b prev c) [ none ↦ rest | some e ↦ some e ]

  unfoldable pub validate_block_parallel :
      (order : List ℕ) (checks : List BlockCheck)
      → Block
      → (prev_block_hash : Bytes) → Option BlockError
  validate_block_parallel order checks b prev = first_error order b prev checks
