-- ===== src/Tests/PoolTests.antt =====
-- Tests of the mempool and of its synchronisation.
use route_n_root.Prelude.{[], ◌∷◌, All, bytes_key}
use route_n_root.Core.{Transaction}
use route_n_root.Mempool.{new_mempool, add_transaction}
use route_n_root.Mempool.Invariant.{IsValid, new_mempool-IsValid, add_transaction-IsValid}
use route_n_root.MempoolSync.{new_mempool_sync, handle_tx_response}
use route_n_root.MempoolSync.Once.{IsHeld, handle_tx_response_lem}
use route_n_root.Tests.Fixtures.{alice, bob, payment}

abbrev refund : Transaction
refund = record payment { id = 8 ∷ []; from = bob; to = alice }

add_transaction-IsValid_example :
    IsValid (add_transaction (add_transaction new_mempool payment) refund)
add_transaction-IsValid_example =
    add_transaction-IsValid (add_transaction new_mempool payment) refund
      (add_transaction-IsValid new_mempool payment new_mempool-IsValid)

handle_tx_response_lem_example :
    let ms' = handle_tx_response (new_mempool_sync new_mempool) (payment ∷ refund ∷ []) in
    IsValid ms'.mempool × All (λ tx. IsHeld ms' tx.id) (payment ∷ refund ∷ [])
unfolding new_mempool_sync
handle_tx_response_lem_example =
    handle_tx_response_lem (new_mempool_sync new_mempool) (payment ∷ refund ∷ [])
      new_mempool-IsValid
