-- ===== src/Mempool/Invariant.antt =====
-- rnr/pkg/blockchain/mempool.go: the index by ID and the queue hold the same transactions.
use route_n_root.Prelude.{
  ◌+◌, ◌≡◌, refl, sym, ◌∙◌, inl, inr, Bool-cases, Option-cases, none, some, List, [], ◌∷◌, ◌++◌,
  Bytes, bytes_equal, bytes_equal_iff, lookup, IsDistinct, insert-IsDistinct, erase-IsDistinct,
  lookup-insert, lookup-erase, length-insert, length-erase, length, length-append, is_some,
  bytes_key, if◌then◌else◌, arith,
}
use route_n_root.Core.{Transaction}
use route_n_root.Chain.{find_tx}
use route_n_root.Mempool.{Mempool, new_mempool, add_transaction, remove_first, remove_transaction}

-- No ID stands twice in a queue.
abbrev pub UniqueIds : List Transaction → Type 0
UniqueIds [] = Unit
UniqueIds (tx ∷ txs) = (find_tx tx.id txs ≡ none) × UniqueIds txs

pub record IsValid (m : Mempool) : Type 0 where
  pub distinct : IsDistinct m.transactions
  pub unique : UniqueIds m.priority_tx
  pub indexed : (id : Bytes) → lookup id m.transactions ≡ find_tx id m.priority_tx
  pub sizes : length m.transactions ≡ length m.priority_tx

pub new_mempool-IsValid : IsValid new_mempool
unfolding new_mempool lookup find_tx
new_mempool-IsValid = record { distinct = tt; unique = tt; indexed = λ id. refl; sizes = refl }

find_tx-snoc :
    (id : Bytes) (txs : List Transaction) (tx : Transaction)
    → find_tx id (txs ++ tx ∷ []) ≡ (
        if is_some (find_tx id txs)
        then find_tx id txs
        else if bytes_equal tx.id id
        then some tx
        else none)
unfolding find_tx
find_tx-snoc id [] tx = refl
find_tx-snoc id (x ∷ txs) tx = ground (arith, find_tx-snoc id txs tx)

snoc-UniqueIds :
    (txs : List Transaction) (tx : Transaction)
    → UniqueIds txs
    → find_tx tx.id txs ≡ none
    → UniqueIds (txs ++ tx ∷ [])
unfolding find_tx
snoc-UniqueIds [] tx u h = (refl, tt)
snoc-UniqueIds (x ∷ txs) tx u h = (
  ground (arith, find_tx-snoc x.id txs tx, bytes_equal_iff tx.id x.id, bytes_equal_iff x.id tx.id),
  snoc-UniqueIds txs tx u.1 (ground arith),
)

find_tx-remove_first :
    (id k : Bytes) (txs : List Transaction)
    → UniqueIds txs
    → find_tx k (remove_first id txs) ≡ (if bytes_equal id k then none else find_tx k txs)
unfolding find_tx remove_first
find_tx-remove_first id k [] u = ground arith
find_tx-remove_first id k (x ∷ txs) u = ground (
  arith,
  find_tx-remove_first id k txs u.1,
  bytes_equal_iff x.id id,
  bytes_equal_iff x.id k,
  bytes_equal_iff id k,
)

remove_first-UniqueIds :
    (id : Bytes) (txs : List Transaction) → UniqueIds txs → UniqueIds (remove_first id txs)
unfolding remove_first
remove_first-UniqueIds id [] u = tt
remove_first-UniqueIds id (x ∷ txs) u = elim (Bool-cases (bytes_equal x.id id)) [
  | inl hit ↦ rw hit u.1
  | inr miss ↦
      rw miss
        (ground (arith, find_tx-remove_first id x.id txs u.1), remove_first-UniqueIds id txs u.1)
]

length-remove_first :
    (id : Bytes) (txs : List Transaction)
    → length txs ≡ length (remove_first id txs) + (if is_some (find_tx id txs) then 1 else 0)
unfolding find_tx remove_first
length-remove_first id [] = refl
length-remove_first id (x ∷ txs) = ground (arith, length-remove_first id txs)

-- Adding a transaction keeps a mempool valid: no ID twice in the index or in the queue, the same
-- transaction under each ID in both, and as many entries in one as in the other.
pub add_transaction-IsValid :
    (m : Mempool) (tx : Transaction) → IsValid m → IsValid (add_transaction m tx)
unfolding add_transaction
add_transaction-IsValid m tx v = elim (Option-cases (lookup tx.id m.transactions)) [
  | inr (old, known) ↦ rw (known) v
  | inl fresh ↦ rw (fresh) (record {
    distinct = insert-IsDistinct tx.id tx m.transactions v.distinct;
    unique = snoc-UniqueIds m.priority_tx tx v.unique (sym (v.indexed tx.id) ∙ fresh);
    indexed = λ id. ground (
      arith,
      lookup-insert tx.id id tx m.transactions,
      find_tx-snoc id m.priority_tx tx,
      v.indexed id,
      v.indexed tx.id,
      bytes_equal_iff tx.id id,
    );
    sizes = ground (
      arith,
      length-insert tx.id tx m.transactions,
      length-append m.priority_tx (tx ∷ []),
      v.sizes,
    );
  })
]

-- Removing a transaction keeps a mempool valid: no ID twice in the index or in the queue, the same
-- transaction under each ID in both, and as many entries in one as in the other.
remove_transaction-IsValid :
    (m : Mempool) (id : Bytes) → IsValid m → IsValid (remove_transaction m id)
unfolding remove_transaction
remove_transaction-IsValid m id v = record {
  distinct = erase-IsDistinct id m.transactions v.distinct;
  unique = remove_first-UniqueIds id m.priority_tx v.unique;
  indexed = λ k. ground (
    arith,
    lookup-erase id k m.transactions,
    find_tx-remove_first id k m.priority_tx v.unique,
    v.indexed k,
  );
  sizes = ground (
    arith,
    length-erase id m.transactions v.distinct,
    length-remove_first id m.priority_tx,
    v.indexed id,
    v.sizes,
  );
}
