-- ===== src/Platform.antt =====
-- What the node takes from outside its repository, as interfaces: goleveldb, encoding/json and
-- crypto/sha256. Each is a record of operations with the documented laws that the code relies on.
use route_n_root.Prelude.{
  ◌≡◌, ◌⊎◌, Bool, true, false, ◌||◌, All, List, [], ◌∷◌, Option, none, some, Bytes, bytes_equal,
  if◌then◌else◌, length,
}
use route_n_root.Prelude.Text.{has_prefix}
use route_n_root.Core.{Block, Transaction, Account, ValidatorInfo}

-- github.com/syndtr/goleveldb: a store that maps keys to values. An operation returns the store
-- after it and whether it succeeded; of a failed operation nothing is assumed.
pub record LevelDb : Type 1 where
  pub Db : Type 0
  pub get : Bytes → Db → Option Bytes
  pub put : Bytes → Bytes → Db → Db × Bool
  pub delete : Bytes → Db → Db × Bool
  pub get-put :
      (k v j : Bytes) (d : Db)
      → (put k v d).1 ≡ true
      → get j (put k v d).0 ≡ (if bytes_equal k j then some v else get j d)
  pub get-delete :
      (k j : Bytes) (d : Db)
      → (delete k d).1 ≡ true
      → get j (delete k d).0 ≡ (if bytes_equal k j then none else get j d)

-- Whether a key stands in a list.
abbrev pub listed : Bytes → List Bytes → Bool
listed j [] = false
listed j (k ∷ ks) = bytes_equal k j || listed j ks

-- What a key holds after the puts of a batch, applied one after the other.
abbrev pub batch_value : Bytes → List (Bytes × Bytes) → Option Bytes → Option Bytes
batch_value j [] old = old
batch_value j ((k, v) ∷ batch) old = batch_value j batch (if bytes_equal k j then some v else old)

-- goleveldb's batches of puts. A batch is applied as a whole: after a write that failed the store
-- holds the whole batch or nothing of it.
pub record BatchDb : Type 1 where
  pub Db : Type 0
  pub get : Bytes → Db → Option Bytes
  pub write : List (Bytes × Bytes) → Db → Db × Bool
  pub get-write :
      (batch : List (Bytes × Bytes)) (d : Db)
      → (write batch d).1 ≡ true
      → (j : Bytes) → get j (write batch d).0 ≡ batch_value j batch (get j d)
  pub get-write_failed :
      (batch : List (Bytes × Bytes)) (d : Db)
      → (write batch d).1 ≡ false
      → ((j : Bytes) → get j (write batch d).0 ≡ get j d)
        ⊎ ((j : Bytes) → get j (write batch d).0 ≡ batch_value j batch (get j d))

-- goleveldb's iterators over the keys with a prefix, its batches of deletions and its compaction. An
-- iterator walks over the store as it was when the iterator was made. A batch is applied as a whole
-- or not at all; compaction changes no value.
pub record ScanDb : Type 1 where
  pub Db : Type 0
  pub get : Bytes → Db → Option Bytes
  pub keys : (prefix : Bytes) → Db → List Bytes
  pub iterator_failed : (prefix : Bytes) → Db → Bool
  pub delete_all : List Bytes → Db → Db × Bool
  pub compact : Db → Db × Bool
  pub has_prefix-keys :
      (prefix : Bytes) (d : Db) → All (λ k. has_prefix k prefix ≡ true) (keys prefix d)
  pub keys-complete :
      (prefix k v : Bytes) (d : Db)
      → iterator_failed prefix d ≡ false
      → get k d ≡ some v
      → has_prefix k prefix ≡ true
      → listed k (keys prefix d) ≡ true
  pub get-delete_all :
      (ks : List Bytes) (d : Db)
      → (delete_all ks d).1 ≡ true
      → (j : Bytes) → get j (delete_all ks d).0 ≡ (if listed j ks then none else get j d)
  pub get-delete_all_failed :
      (ks : List Bytes) (d : Db)
      → (delete_all ks d).1 ≡ false
      → ((j : Bytes) → get j (delete_all ks d).0 ≡ get j d)
        ⊎ ((j : Bytes) → get j (delete_all ks d).0 ≡ (if listed j ks then none else get j d))
  pub get-compact : (j : Bytes) (d : Db) → get j (compact d).0 ≡ get j d

-- encoding/json on the entries of the state.
pub record StateJson : Type 0 where
  pub marshal_account : Account → Option Bytes
  pub marshal_validator : ValidatorInfo → Option Bytes

-- encoding/json on the chain's types: what was marshalled can be read back. The texts of a block are
-- valid UTF-8, as json.Marshal replaces other bytes, and a nil slice and an empty one are the same.
-- `transaction_error` is the error of a transaction that cannot be marshalled.
pub record Json : Type 0 where
  pub marshal_block : Block → Option Bytes
  pub unmarshal_block : Bytes → Option Block
  pub unmarshal-marshal :
      (b : Block) (bytes : Bytes) → marshal_block b ≡ some bytes → unmarshal_block bytes ≡ some b
  pub marshal_transaction : Transaction → Option Bytes
  pub transaction_error : Transaction → Bytes

-- crypto/sha256: Sum256 returns 32 bytes.
pub record Sha256 : Type 0 where
  pub sum : Bytes → Bytes
  pub length-sum : (x : Bytes) → length (sum x) ≡ 32
