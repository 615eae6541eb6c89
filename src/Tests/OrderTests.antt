-- ===== src/Tests/OrderTests.antt =====
-- Tests of the concurrent validation: two transactions whose goroutines finish in reverse.
use route_n_root.Prelude.{
  ℕ, ◌<◌, ◌≡◌, ◌↔◌, refl, inl, inr, true, Option, none, some, List, [], ◌∷◌, Bytes, All, length,
  map, arith,
}
use route_n_root.Prelude.Int.{pos}
use route_n_root.Core.{Account, Transaction}
use route_n_root.Concurrent.{
  validate_transaction, validate_transactions_concurrently, check_link, check_poh,
  check_transactions, BlockCheck, validate_block_parallel,
}
use route_n_root.Concurrent.Order.{occurs, validate_transactions_concurrently_any_order}
use route_n_root.Concurrent.Verdict.{Passes, validate_block_parallel_iff}
use route_n_root.Tests.Fixtures.{payment, block_one}

abbrev rich : Bytes → Option Account
rich _ = some (record { address = []; balance = pos 100; nonce = 0; code_hash = [] })

abbrev reverse_order : List ℕ
reverse_order = 1 ∷ 0 ∷ []

abbrev two_txs : List Transaction
two_txs = payment ∷ record payment { id = 8 ∷ []; nonce = 3 } ∷ []

both_finish : (j : ℕ) → j < length two_txs → occurs j reverse_order ≡ true
both_finish j h = ground arith

one_finishes : (j : ℕ) → j < length block_one.transactions → occurs j reverse_order ≡ true
one_finishes j h = ground arith

validate_transactions_concurrently_any_order_example :
    validate_transactions_concurrently rich reverse_order two_txs
    ≡ map (validate_transaction rich) two_txs
validate_transactions_concurrently_any_order_example =
    validate_transactions_concurrently_any_order rich reverse_order two_txs both_finish

abbrev checks : List BlockCheck
checks = check_poh ∷ check_transactions ∷ check_link ∷ []

validate_block_parallel_iff_example :
    (validate_block_parallel rich
        (λ _. true)
        reverse_order
        checks
        block_one
        block_one.header.prev_block_hash
      ≡ none)
    ↔ ((block_one.header.prev_block_hash ≡ block_one.header.prev_block_hash)
        × (true ≡ true)
        × All (Passes rich) block_one.transactions)
validate_block_parallel_iff_example =
    validate_block_parallel_iff rich (λ _. true) reverse_order checks block_one
      block_one.header.prev_block_hash (omega arith) (inr (inr (inl refl))) (inl refl)
      (inr (inl refl)) one_finishes
