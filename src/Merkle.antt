-- ===== src/Merkle.antt =====
-- The Merkle roots of a block's transactions: rnr/pkg/blockchain/blockchain.go (ComputeMerkleRoot),
-- rnr/pkg/consensus/validator_service.go (calculateMerkleRoot) and concurrent_validation.go
-- (ComputeMerkleRootConcurrent, computeMerkleTree).
-- A level of the tree is a list of hashes. Each builder takes one round of fuel more than it has
-- hashes; running out is an error of its own, which Binding and Builders rule out.
pub mod Binding
pub mod Builders
use route_n_root.Prelude.{ℕ, zero, suc, Option, none, some, List, [], ◌∷◌, ◌++◌, Bytes, length}
use route_n_root.Prelude.Result.{Result, ok, err, or_err}
use route_n_root.Core.{Transaction}
use route_n_root.Platform.{Json, Sha256}
use route_n_root.Concurrent.{get_elem?, set_elem, replicate}

-- `marshal_failed` carries the error of json.Marshal.
pub data MerkleError : Type 0 where
  marshal_failed : (e : Bytes) → MerkleError
  no_fuel : MerkleError

-- Transaction.Hash, with the error of json.Marshal.
unfoldable pub hash_transaction : Json → Sha256 → Transaction → Result Bytes Bytes
hash_transaction J S tx =
    let unsigned : Transaction = record tx { signature = [] } in
    elim (J.marshal_transaction unsigned) [
      | none ↦ err (J.transaction_error unsigned)
      | some data_bytes ↦ ok (S.sum data_bytes)
    ]

unfoldable pub cons_hash : Bytes → Result Bytes (List Bytes) → Result Bytes (List Bytes)
cons_hash hash (err e) = err e
cons_hash hash (ok hashes) = ok (hash ∷ hashes)

-- The loop of calculateMerkleRoot: it stops at the first error.
unfoldable pub hash_all : Json → Sha256 → List Transaction → Result Bytes (List Bytes)
hash_all J S [] = ok []
hash_all J S (tx ∷ txs) =
    let rest = hash_all J S txs in
    elim (hash_transaction J S tx) [ err e ↦ err e | ok hash ↦ cons_hash hash rest ]

-- The goroutines of ComputeMerkleRootConcurrent, in the order in which they finish: each writes its
-- entry of the hashes, or sends its error to the channel.
unfoldable pub hash_in :
    Json → Sha256 → List Transaction → (order : List ℕ) → List Bytes → List Bytes × List Bytes
hash_in J S txs [] hashes = (hashes, [])
hash_in J S txs (i ∷ order) hashes = elim (get_elem? txs i) [
  | none ↦ hash_in J S txs order hashes
  | some tx ↦ elim (hash_transaction J S tx) [
    | ok hash ↦ hash_in J S txs order (set_elem i hash hashes)
    | err e ↦ let (done, errors) = hash_in J S txs order hashes in (done, e ∷ errors)
  ]
]

-- What ComputeMerkleRootConcurrent finds when its goroutines are done: the error that reached the
-- channel first, or the hashes.
unfoldable pub gather : List Bytes × List Bytes → Result Bytes (List Bytes)
gather (hashes, []) = ok hashes
gather (hashes, e ∷ errors) = err e

-- What a builder returns once the transactions are hashed.
unfoldable pub root_result :
    (List Bytes → Option Bytes) → Result Bytes (List Bytes) → Result MerkleError Bytes
root_result build (err e) = err (marshal_failed e)
root_result build (ok hashes) = or_err no_fuel (build hashes)

module _ (S : Sha256) where
  -- The loop of ComputeMerkleRoot: the next level.
  unfoldable pub pair_hashes : List Bytes → List Bytes
  pair_hashes [] = []
  pair_hashes (x ∷ []) = x ∷ []
  pair_hashes (x ∷ y ∷ hashes) = S.sum (x ++ y) ∷ pair_hashes hashes

  unfoldable pub root_from : ℕ → List Bytes → Option Bytes
  root_from zero hashes = none
  root_from (suc fuel) [] = some []
  root_from (suc fuel) (x ∷ []) = some x
  root_from (suc fuel) (x ∷ y ∷ hashes) = root_from fuel (pair_hashes (x ∷ y ∷ hashes))

  unfoldable pub compute_merkle_root : List Bytes → Option Bytes
  compute_merkle_root hashes = root_from (suc (length hashes)) hashes

  -- The loop of computeMerkleTree.
  unfoldable pub combine_hashes : List Bytes → List Bytes
  combine_hashes [] = []
  combine_hashes (x ∷ []) = x ∷ []
  combine_hashes (x ∷ y ∷ hashes) = let combined = x ++ y in S.sum combined ∷ combine_hashes hashes

  unfoldable pub tree_from : ℕ → List Bytes → Option Bytes
  tree_from zero hashes = none
  tree_from (suc fuel) [] = some []
  tree_from (suc fuel) (x ∷ []) = some x
  tree_from (suc fuel) (x ∷ y ∷ hashes) = tree_from fuel (combine_hashes (x ∷ y ∷ hashes))

  unfoldable pub compute_merkle_tree : List Bytes → Option Bytes
  compute_merkle_tree hashes = tree_from (suc (length hashes)) hashes

  module _ (J : Json) where
    unfoldable pub calculate_merkle_root : List Transaction → Result MerkleError Bytes
    calculate_merkle_root txs = root_result compute_merkle_root (hash_all J S txs)

    -- `order` is the order in which the goroutines finish.
    unfoldable pub compute_merkle_root_concurrent :
        (order : List ℕ) → List Transaction → Result MerkleError Bytes
    compute_merkle_root_concurrent order [] = ok []
    compute_merkle_root_concurrent order (tx ∷ txs) =
        root_result compute_merkle_tree
          (gather (hash_in J S (tx ∷ txs) order (replicate (suc (length txs)) [])))
