-- ===== src/Mempool/Capacity.antt =====
-- rnr/pkg/blockchain/mempool.go: the transactions that fit into a block.
use mathlib.Core.Path.{subst}
use route_n_root.Prelude.{
  ℕ, ◌+◌, ◌≤◌, ◌<◌, ◌≡◌, refl, ap, inl, inr, Bool-cases, List, [], ◌∷◌, ◌++◌, ltb, arith,
}
use route_n_root.Core.{Transaction}
use route_n_root.Mempool.{
  Mempool, estimate_transaction_size, select_by_size, get_transactions_by_size,
}

-- The estimated size of a list of transactions.
abbrev pub total_size : List Transaction → ℕ
total_size [] = 0
total_size (tx ∷ txs) = estimate_transaction_size tx + total_size txs

-- The rest of a queue is empty, or its first transaction does not fit any more.
abbrev pub IsFull : ℕ → ℕ → List Transaction → Type 0
IsFull max_size total [] = Unit
IsFull max_size total (tx ∷ _) = max_size < total + estimate_transaction_size tx

select_by_size_lem :
    (max_size total : ℕ) (txs : List Transaction)
    → total ≤ max_size
    → (rest : List Transaction) × (txs ≡ select_by_size max_size total txs ++ rest)
      × (total + total_size (select_by_size max_size total txs) ≤ max_size)
      × IsFull max_size (total + total_size (select_by_size max_size total txs)) rest
unfolding select_by_size
select_by_size_lem max_size total [] h = ([], refl, omega arith, tt)
select_by_size_lem max_size total (tx ∷ txs) h =
    elim (Bool-cases (ltb max_size (total + estimate_transaction_size tx))) [
      | inl over ↦ rw over (tx ∷ txs, refl, omega arith, ground arith)
      | inr fits ↦
          let total' = total + estimate_transaction_size tx in
          let (rest, split, within, full) = select_by_size_lem max_size total' txs (ground arith) in
          let regroup : total' + total_size (select_by_size max_size total' txs)
              ≡ total
                + (estimate_transaction_size tx + total_size (select_by_size max_size total' txs)) =
            omega arith in
          rw fits
            (rest, ap (◌∷◌ tx) split, omega arith, subst (λ n. IsFull max_size n rest) regroup full)
    ]

-- GetTransactionsBySize takes transactions from the front of the queue; their estimated size is
-- within the limit, and with the first one left over, if there is one, it would exceed it.
get_transactions_by_size_lem :
    (m : Mempool) (max_size : ℕ)
    → let chosen = get_transactions_by_size m max_size in
      (rest : List Transaction) × (m.priority_tx ≡ chosen ++ rest)
      × (total_size chosen ≤ max_size)
      × IsFull max_size (total_size chosen) rest
unfolding get_transactions_by_size
get_transactions_by_size_lem m max_size =
    let (rest, split, within, full) = select_by_size_lem max_size 0 m.priority_tx (omega arith) in
    let drop_zero : 0 + total_size (select_by_size max_size 0 m.priority_tx)
        ≡ total_size (select_by_size max_size 0 m.priority_tx) =
      omega arith in
    (rest, split, omega arith, subst (λ n. IsFull max_size n rest) drop_zero full)
