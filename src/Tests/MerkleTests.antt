-- ===== src/Tests/MerkleTests.antt =====
-- Tests of the Merkle roots, with a hash that keeps the first 32 bytes of its input.
use route_n_root.Prelude.{ℕ, ◌<◌, ◌≡◌, ◌⊎◌, refl, true, List, [], ◌∷◌, Bytes, length, arith}
use route_n_root.Core.{Transaction}
use route_n_root.Concurrent.Order.{occurs}
use route_n_root.Merkle.{
  pair_hashes, root_from, compute_merkle_root, calculate_merkle_root,
  compute_merkle_root_concurrent,
}
use route_n_root.Merkle.Binding.{Collision, tree_texts, compute_merkle_root-binds}
use route_n_root.Merkle.Builders.{Agree, compute_merkle_root_concurrent_any_order}
use route_n_root.Tests.Fixtures.{byte_json, padded, pad_hash, alice, bob, payment}

abbrev leaves : List Bytes
leaves = pad_hash alice ∷ pad_hash bob ∷ pad_hash alice ∷ []

abbrev other_leaves : List Bytes
other_leaves = pad_hash alice ∷ pad_hash alice ∷ pad_hash bob ∷ []

-- This hash has collisions, so that two lists share a root.
compute_merkle_root-binds_example :
    (leaves ≡ other_leaves)
    ⊎ Collision padded (tree_texts padded 4 leaves) (tree_texts padded 4 other_leaves)
unfolding compute_merkle_root root_from pair_hashes
compute_merkle_root-binds_example =
    compute_merkle_root-binds padded leaves other_leaves refl (refl, (refl, (refl, tt)))
      (refl, (refl, (refl, tt))) refl

abbrev three_txs : List Transaction
three_txs = payment ∷ record payment { id = 8 ∷ [] } ∷ record payment { id = 9 ∷ [] } ∷ []

abbrev mixed_order : List ℕ
mixed_order = 2 ∷ 0 ∷ 1 ∷ []

all_finish : (j : ℕ) → j < length three_txs → occurs j mixed_order ≡ true
all_finish j h = ground arith

compute_merkle_root_concurrent_any_order_example :
    Agree padded byte_json three_txs
      (compute_merkle_root_concurrent padded byte_json mixed_order three_txs)
      (calculate_merkle_root padded byte_json three_txs)
compute_merkle_root_concurrent_any_order_example =
    compute_merkle_root_concurrent_any_order padded byte_json mixed_order three_txs all_finish
