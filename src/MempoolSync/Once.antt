-- ===== src/MempoolSync/Once.antt =====
-- rnr/pkg/mempool/mempool_sync.go: what is known is neither fetched nor sent again.
use mathlib.Core.Path.{subst}
use route_n_root.Prelude.{
  ◌≡◌, refl, sym, inl, inr, Bool-cases, true, false, Option, none, some, List, [], ◌∷◌, All, Bytes,
  bytes_equal, bytes_equal_iff, lookup-insert, bytes_key, if◌then◌else◌, arith,
}
use route_n_root.Core.{Transaction}
use route_n_root.Mempool.{Mempool, add_transaction, get_pending_transactions, contains}
use route_n_root.Mempool.Invariant.{IsValid, add_transaction-IsValid}
use route_n_root.MempoolSync.{
  MempoolSync, returned, is_known, mark_known, fetch_announced, handle_tx_announcement,
  handle_tx_response, announce_pending, perform_sync,
}

is_known-mark_known :
    (ms : MempoolSync) (id k : Bytes)
    → is_known (mark_known ms id) k ≡ (if bytes_equal id k then true else is_known ms k)
unfolding is_known mark_known
is_known-mark_known ms id k = ground (arith, lookup-insert id k true ms.known_txs)

mark_known_self : (ms : MempoolSync) (id : Bytes) → is_known (mark_known ms id) id ≡ true
mark_known_self ms id = ground (arith, is_known-mark_known ms id id, bytes_equal_iff id id)

fetch_known :
    (request : Option (Bytes → Option Transaction)) (ms : MempoolSync) (id peer k : Bytes)
    → is_known (fetch_announced request ms id peer).0 k ≡ is_known ms k
unfolding fetch_announced is_known
fetch_known none ms id peer k = refl
fetch_known (some request) ms id peer k = ground arith

-- After one announcement of a transaction, however it went, a second one by any peer returns without
-- an error and changes nothing.
handle_tx_announcement_twice :
    (request again : Option (Bytes → Option Transaction)) (ms : MempoolSync) (id peer other : Bytes)
    → let ms' = (handle_tx_announcement request ms id peer).0 in
      handle_tx_announcement again ms' id other ≡ (ms', returned none)
unfolding handle_tx_announcement
handle_tx_announcement_twice request again ms id peer other =
    ground (arith, mark_known_self ms id, fetch_known request (mark_known ms id) id peer id)

announce_keeps :
    (ms : MempoolSync) (txs : List Transaction) (k : Bytes)
    → is_known ms k ≡ true
    → is_known (announce_pending ms txs).0 k ≡ true
unfolding announce_pending
announce_keeps ms [] k h = h
announce_keeps ms (tx ∷ txs) k h = ground (
  arith,
  announce_keeps ms txs k,
  announce_keeps (mark_known ms tx.id) txs k,
  is_known-mark_known ms tx.id k,
)

announce-mempool :
    (ms : MempoolSync) (txs : List Transaction) → (announce_pending ms txs).0.mempool ≡ ms.mempool
unfolding announce_pending mark_known
announce-mempool ms [] = refl
announce-mempool ms (tx ∷ txs) =
    ground (arith, announce-mempool ms txs, announce-mempool (mark_known ms tx.id) txs)

announce_old :
    (ms : MempoolSync) (tx : Transaction) (txs : List Transaction)
    → is_known ms tx.id ≡ true
    → (announce_pending ms (tx ∷ txs)).0 ≡ (announce_pending ms txs).0
unfolding announce_pending
announce_old ms tx txs h = rw h

announce_fresh :
    (ms : MempoolSync) (tx : Transaction) (txs : List Transaction)
    → is_known ms tx.id ≡ false
    → (announce_pending ms (tx ∷ txs)).0 ≡ (announce_pending (mark_known ms tx.id) txs).0
unfolding announce_pending
announce_fresh ms tx txs h = rw h

announce-All_known :
    (ms : MempoolSync) (txs : List Transaction)
    → All (λ tx. is_known (announce_pending ms txs).0 tx.id ≡ true) txs
announce-All_known ms [] = tt
announce-All_known ms (tx ∷ txs) = elim (Bool-cases (is_known ms tx.id)) [
  | inl h ↦
      subst (λ s. All (λ t. is_known s t.id ≡ true) (tx ∷ txs)) (sym (announce_old ms tx txs h))
        (announce_keeps ms txs tx.id h, announce-All_known ms txs)
  | inr h ↦
      let ms' = mark_known ms tx.id in
      subst (λ s. All (λ t. is_known s t.id ≡ true) (tx ∷ txs)) (sym (announce_fresh ms tx txs h))
        (announce_keeps ms' txs tx.id (mark_known_self ms tx.id), announce-All_known ms' txs)
]

announce_nothing :
    (ms : MempoolSync) (txs : List Transaction)
    → All (λ tx. is_known ms tx.id ≡ true) txs
    → announce_pending ms txs ≡ (ms, [])
unfolding announce_pending
announce_nothing ms [] h = refl
announce_nothing ms (tx ∷ txs) h = rw (h.0) (announce_nothing ms txs h.1)

-- A second round with any peers, right after a first with at least one, sends nothing and changes
-- nothing.
perform_sync_twice :
    (p : Bytes) (peers again : List Bytes) (ms : MempoolSync)
    → let ms' = (perform_sync (p ∷ peers) ms).0 in perform_sync again ms' ≡ (ms', [])
unfolding perform_sync get_pending_transactions
perform_sync_twice p peers [] ms = refl
perform_sync_twice p peers (q ∷ again) ms =
    let txs = get_pending_transactions ms.mempool in
    rw (announce-mempool ms ms.mempool.priority_tx)
      (announce_nothing (announce_pending ms txs).0 txs (announce-All_known ms txs))

-- An ID is known and its transaction is pending.
abbrev pub IsHeld : MempoolSync → Bytes → Type 0
IsHeld ms k = (is_known ms k ≡ true) × (contains ms.mempool k ≡ true)

abbrev after_tx : MempoolSync → Transaction → MempoolSync
after_tx ms tx = record (mark_known ms tx.id) { mempool = add_transaction ms.mempool tx }

contains-add_transaction :
    (m : Mempool) (tx : Transaction) (k : Bytes)
    → contains (add_transaction m tx) k ≡ (if bytes_equal tx.id k then true else contains m k)
unfolding contains add_transaction
contains-add_transaction m tx k =
    ground (arith, lookup-insert tx.id k tx m.transactions, bytes_equal_iff tx.id k)

after_tx-IsHeld :
    (ms : MempoolSync) (tx : Transaction) (k : Bytes)
    → (IsHeld ms k → IsHeld (after_tx ms tx) k) × IsHeld (after_tx ms tx) tx.id
unfolding mark_known is_known
after_tx-IsHeld ms tx k = ground (
  arith,
  contains-add_transaction ms.mempool tx k,
  contains-add_transaction ms.mempool tx tx.id,
  lookup-insert tx.id k true ms.known_txs,
  lookup-insert tx.id tx.id true ms.known_txs,
  bytes_equal_iff tx.id tx.id,
)

response-IsHeld :
    (ms : MempoolSync) (txs : List Transaction) (k : Bytes)
    → IsHeld ms k
    → IsHeld (handle_tx_response ms txs) k
unfolding handle_tx_response
response-IsHeld ms [] k h = h
response-IsHeld ms (tx ∷ txs) k h =
    response-IsHeld (after_tx ms tx) txs k ((after_tx-IsHeld ms tx k).0 h)

-- On a valid mempool, after a response every transaction in it is known and its ID is pending, and
-- the mempool is still valid.
pub handle_tx_response_lem :
    (ms : MempoolSync) (txs : List Transaction)
    → IsValid ms.mempool
    → let ms' = handle_tx_response ms txs in IsValid ms'.mempool × All (λ tx. IsHeld ms' tx.id) txs
unfolding handle_tx_response
handle_tx_response_lem ms [] v = (v, tt)
handle_tx_response_lem ms (tx ∷ txs) v =
    let (valid, held) =
      handle_tx_response_lem (after_tx ms tx) txs (add_transaction-IsValid ms.mempool tx v) in
    (valid, (response-IsHeld (after_tx ms tx) txs tx.id (after_tx-IsHeld ms tx tx.id).1, held))
