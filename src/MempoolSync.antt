-- ===== src/MempoolSync.antt =====
-- rnr/pkg/mempool/mempool_sync.go: announcing transactions to peers and taking theirs.
-- The callbacks that the node installs are parameters: what a request returns, and whether a
-- broadcast succeeds. A call returns what it broadcast beside the state.
pub mod Once
use route_n_root.Prelude.{
  ℕ, Bool, true, false, not, Option, none, some, List, [], ◌∷◌, Bytes, Map, lookup, insert, keep,
  is_some, length, bytes_key, if◌then◌else◌, ltb, ◌||◌, map,
}
use route_n_root.Core.{Transaction}
use route_n_root.Chain.{find_tx}
use route_n_root.Mempool.{Mempool, add_transaction, get_transaction, get_pending_transactions}

pub data MempoolError : Type 0 where
  broadcast_failed request_failed : MempoolError

-- A call returns, with an error or not, or it panics.
pub data Outcome : Type 0 where
  returned : Option MempoolError → Outcome
  panicked : Outcome

pub record MempoolSync : Type 0 where
  pub mempool : Mempool
  pub known_txs : Map Bytes Bool

unfoldable pub new_mempool_sync : Mempool → MempoolSync
new_mempool_sync m = record { mempool = m; known_txs = [] }

-- `ms.knownTxs[id]`: a missing entry reads as false.
unfoldable pub is_known : MempoolSync → Bytes → Bool
is_known ms id = elim (lookup id ms.known_txs) [ none ↦ false | some b ↦ b ]

unfoldable pub mark_known : MempoolSync → Bytes → MempoolSync
mark_known ms id = record ms { known_txs = insert id true ms.known_txs }

-- The log lines slice names to 12 bytes, which panics on a shorter one.
unfoldable pub log_short : Bytes → Outcome
log_short id = if ltb (length id) 12 then panicked else returned none

-- BroadcastTransaction; `none` for a callback that is not set.
unfoldable pub broadcast_transaction :
    Option (Transaction → Bool) → MempoolSync → Transaction → MempoolSync × Outcome
broadcast_transaction none ms tx = (mark_known ms tx.id, log_short tx.id)
broadcast_transaction (some send) ms tx =
    (mark_known ms tx.id, if send tx then log_short tx.id else returned (some broadcast_failed))

-- What HandleTxAnnouncement does with an ID that it did not know.
unfoldable pub fetch_announced :
    Option (Bytes → Option Transaction) → MempoolSync → Bytes → Bytes → MempoolSync × Outcome
fetch_announced none ms id peer_id = (ms, returned none)
fetch_announced (some request) ms id peer_id = elim (request id) [
  | none ↦ (ms, returned (some request_failed))
  | some tx ↦ (
    record ms { mempool = add_transaction ms.mempool tx },
    if ltb (length peer_id) 12 then panicked else log_short tx.id,
  )
]

unfoldable pub handle_tx_announcement :
    Option (Bytes → Option Transaction) → MempoolSync → Bytes → Bytes → MempoolSync × Outcome
handle_tx_announcement request ms id peer_id =
    if is_known ms id
    then (ms, returned none)
    else if is_some (get_transaction ms.mempool id)
    then (mark_known ms id, returned none)
    else fetch_announced request (mark_known ms id) id peer_id

unfoldable pub handle_tx_request : MempoolSync → List Bytes → List Transaction
handle_tx_request ms [] = []
handle_tx_request ms (id ∷ ids) =
    let rest = handle_tx_request ms ids in
    elim (get_transaction ms.mempool id) [ none ↦ rest | some tx ↦ tx ∷ rest ]

unfoldable pub handle_tx_response : MempoolSync → List Transaction → MempoolSync
handle_tx_response ms [] = ms
handle_tx_response ms (tx ∷ txs) =
    handle_tx_response (record (mark_known ms tx.id) { mempool = add_transaction ms.mempool tx })
      txs

-- A transaction put before those that are sent.
abbrev pub also_sent : Transaction → MempoolSync × List Transaction → MempoolSync × List Transaction
also_sent tx (ms, sent) = (ms, tx ∷ sent)

-- The loop of performSync, with the transactions that it hands to the broadcast callback, if one
-- is set, in order.
unfoldable pub announce_pending : MempoolSync → List Transaction → MempoolSync × List Transaction
announce_pending ms [] = (ms, [])
announce_pending ms (tx ∷ txs) =
    let fresh = also_sent tx (announce_pending (mark_known ms tx.id) txs) in
    let old = announce_pending ms txs in if is_known ms tx.id then old else fresh

unfoldable pub perform_sync : List Bytes → MempoolSync → MempoolSync × List Transaction
perform_sync [] ms = (ms, [])
perform_sync (_ ∷ _) ms = announce_pending ms (get_pending_transactions ms.mempool)

unfoldable pub cleanup_old_known_txs : MempoolSync → MempoolSync
cleanup_old_known_txs ms =
    let pending = get_pending_transactions ms.mempool in
    record ms { known_txs = keep (λ id _. is_some (find_tx id pending)) ms.known_txs }
