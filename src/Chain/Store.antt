-- ===== src/Chain/Store.antt =====
-- rnr/pkg/blockchain/blockchain.go: what a write to the block store can be read back as.
use route_n_root.Prelude.{
  ℕ, ◌≡◌, ◌≢◌, none, some, Option-cases, inl, inr, Bytes, bytes_equal, bytes_equal_iff, arith,
  if◌then◌else◌, ◌==◌, ap, [], ◌∷◌,
}
use route_n_root.Prelude.Text.{decimal-injective, codes, append-injective}
use route_n_root.Prelude.Result.{ok}
use route_n_root.Prelude.Int.{pos}
use route_n_root.Core.{Block}
use route_n_root.Platform.{LevelDb, Json, Sha256}
use route_n_root.Chain.{
  Blockchain, block_key, current_key, genesis_block, add_block, get_block_by_height, new_blockchain,
}

abbrev first : Bytes → ℕ
first [] = 0
first (x ∷ _) = x

pub block_key-injective : (m n : ℕ) → block_key m ≡ block_key n → m ≡ n
unfolding block_key
block_key-injective m n h = decimal-injective m n (append-injective (codes "block_") _ _ h)

pub current_key-ne : (n : ℕ) → current_key ≢ block_key n
unfolding block_key current_key
current_key-ne n h =
    let e : first current_key ≡ first (block_key n) = ap first h in absurd (omega arith)

same_block_key : (m n : ℕ) → bytes_equal (block_key m) (block_key n) ≡ (m == n)
same_block_key m n =
    ground
      (arith, bytes_equal_iff (block_key m) (block_key n), block_key-injective m n, ap block_key)

module _ (L : LevelDb) (J : Json) (S : Sha256) where
  -- After a block is added without an error, its height reads as that block and every other height
  -- as before.
  pub get_block_by_height-add_block :
      (bc : Blockchain L J S) (b : Block) (h : ℕ)
      → (add_block L J S bc b).1 ≡ none
      → get_block_by_height L J S (add_block L J S bc b).0 h
        ≡ (if b.header.height == h then ok b else get_block_by_height L J S bc h)
  unfolding add_block get_block_by_height
  get_block_by_height-add_block bc b h e = elim (Option-cases (J.marshal_block b)) [
    | inl failed ↦ ground arith
    | inr (bytes, marshalled) ↦
        let (d, stored) = L.put (block_key b.header.height) bytes bc.db in
        ground (
          arith,
          J.unmarshal-marshal b bytes marshalled,
          L.get-put (block_key b.header.height) bytes (block_key h) bc.db,
          L.get-put current_key bytes (block_key h) d,
          same_block_key b.header.height h,
          bytes_equal_iff current_key (block_key h),
          current_key-ne h,
        )
  ]

  -- If the genesis block can be marshalled, the database alone, opened again after a block was
  -- added without an error, gives that block as the tip and stays as it is.
  pub new_blockchain-add_block :
      (bc : Blockchain L J S) (b : Block) {g : Bytes}
      → J.marshal_block genesis_block ≡ some g
      → (add_block L J S bc b).1 ≡ none
      → let bc' = (add_block L J S bc b).0 in
        new_blockchain L J S bc'.db
        ≡ (bc'.db, ok (record { db = bc'.db; current_block = b; difficulty = pos 1 }))
  unfolding add_block new_blockchain
  new_blockchain-add_block bc b m e = elim (Option-cases (J.marshal_block b)) [
    | inl failed ↦ ground arith
    | inr (bytes, marshalled) ↦
        let (d, stored) = L.put (block_key b.header.height) bytes bc.db in
        ground (
          arith,
          J.unmarshal-marshal b bytes marshalled,
          L.get-put current_key bytes current_key d,
          bytes_equal_iff current_key current_key,
        )
  ]
