-- ===== src/Mempool.antt =====
-- rnr/pkg/blockchain/mempool.go: the pending transactions, by ID and in arrival order.
pub mod Invariant
pub mod Capacity
use route_n_root.Prelude.{
  ℕ, zero, suc, ◌+◌, Bool, Option, none, some, List, [], ◌∷◌, ◌++◌, Bytes, bytes_equal, Map,
  is_some, lookup, insert, erase, length, take, bytes_key, if◌then◌else◌, ltb,
}
use route_n_root.Core.{Transaction}

pub record Mempool : Type 0 where
  pub transactions : Map Bytes Transaction
  pub priority_tx : List Transaction

unfoldable pub new_mempool : Mempool
new_mempool = record { transactions = []; priority_tx = [] }

unfoldable pub add_transaction : Mempool → Transaction → Mempool
add_transaction m tx = if is_some (lookup tx.id m.transactions) then m else (record {
  transactions = insert tx.id tx m.transactions;
  priority_tx = m.priority_tx ++ tx ∷ [];
})

-- GetTransactions, for a count that is not negative.
unfoldable pub get_transactions : Mempool → ℕ → List Transaction
get_transactions m count =
    let n = if ltb (length m.priority_tx) count then length m.priority_tx else count in
    take n m.priority_tx

-- The loop of RemoveTransaction: the first entry with the ID goes.
unfoldable pub remove_first : Bytes → List Transaction → List Transaction
remove_first id [] = []
remove_first id (tx ∷ txs) =
    let rest = tx ∷ remove_first id txs in if bytes_equal tx.id id then txs else rest

unfoldable pub remove_transaction : Mempool → Bytes → Mempool
remove_transaction m id = record {
  transactions = erase id m.transactions;
  priority_tx = remove_first id m.priority_tx;
}

unfoldable pub contains : Mempool → Bytes → Bool
contains m id = is_some (lookup id m.transactions)

unfoldable pub size : Mempool → ℕ
size m = length m.transactions

unfoldable pub get_transaction : Mempool → Bytes → Option Transaction
get_transaction m id = lookup id m.transactions

unfoldable pub get_pending_transactions : Mempool → List Transaction
get_pending_transactions m = m.priority_tx

unfoldable pub estimate_transaction_size : Transaction → ℕ
estimate_transaction_size tx = 64 + 42 + 42 + 32 + 8 + 8 + 32 + 64 + length tx.payload

-- The loop of GetTransactionsBySize, from a total so far.
unfoldable pub select_by_size : ℕ → ℕ → List Transaction → List Transaction
select_by_size max_size total [] = []
select_by_size max_size total (tx ∷ txs) =
    let tx_size = estimate_transaction_size tx in
    let taken = tx ∷ select_by_size max_size (total + tx_size) txs in
    if ltb max_size (total + tx_size) then [] else taken

unfoldable pub get_transactions_by_size : Mempool → ℕ → List Transaction
get_transactions_by_size m max_size = select_by_size max_size 0 m.priority_tx
