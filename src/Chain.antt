-- ===== src/Chain.antt =====
-- rnr/pkg/blockchain/blockchain.go: the block store and its queries.
-- `block_<height>` and `current_block` are keys of the database; the object keeps the tip.
-- A method that changes the object returns it, with the error that Go returns.
pub mod Store
pub mod Links
pub mod Growth
pub mod History
use mathlib.Core.Option
use route_n_root.Prelude.{
  ℕ, zero, suc, ◌+◌, ◌-◌, ◌≡◌, Bool, ◌||◌, Option, none, some, List, [], ◌∷◌, ◌++◌, Bytes,
  bytes_equal, if◌then◌else◌, ltb, leb, ◌==◌, length,
}
use route_n_root.Prelude.Int.{ℤ, pos}
use route_n_root.Prelude.Text.{decimal, codes}
use route_n_root.Prelude.Result.{Result, ok, err, or_err}
use route_n_root.Core.{Transaction, BlockHeader, Block, u64}
use route_n_root.Platform.{LevelDb, Json, Sha256}

pub data ChainError : Type 0 where
  marshal_failed put_failed unmarshal_failed not_found : ChainError
  bad_height bad_previous_hash : ChainError

-- fmt.Sprintf("block_%d", height)
unfoldable pub block_key : ℕ → Bytes
block_key h = codes "block_" ++ decimal h

unfoldable pub current_key : Bytes
current_key = codes "current_block"

unfoldable pub genesis_block : Block
genesis_block = record {
  header = record {
    version = 1;
    prev_block_hash = [];
    merkle_root = [];
    timestamp = 63871286400000000000;
    nonce = 0;
    difficulty = pos 1;
    height = 0;
    pob_score = 0x3ff0000000000000;
    pob_weight = 0;
    vrf_proof = [];
    vrf_output = [];
  };
  transactions = [];
  proposer_id = codes "genesis";
  poh_sequence = [];
  signature = [];
  vrf_proof = [];
}

-- Block.Hash: the signature is left out.
unfoldable pub hash_block : Json → Sha256 → Block → Option Bytes
hash_block J S b = Option.map S.sum (J.marshal_block (record b { signature = [] }))

abbrev pub involves : Bytes → Transaction → Bool
involves address tx = bytes_equal tx.from address || bytes_equal tx.to address

-- The inner loop of GetTransactionHistory: it stops when `limit` entries are collected.
unfoldable pub collect : Bytes → ℕ → List Transaction → List Transaction → List Transaction
collect address limit found [] = found
collect address limit found (tx ∷ txs) =
    let found' = found ++ tx ∷ [] in
    let taken = if leb limit (length found') then found' else collect address limit found' txs in
    let skipped = collect address limit found txs in if involves address tx then taken else skipped

unfoldable pub find_tx : Bytes → List Transaction → Option Transaction
find_tx id [] = none
find_tx id (tx ∷ txs) = if bytes_equal tx.id id then some tx else find_tx id txs

module _ (L : LevelDb) (J : Json) (S : Sha256) where
  pub record Blockchain : Type 0 where
    pub db : L.Db
    pub current_block : Block
    pub difficulty : ℤ

  -- The end of NewBlockchain: the tip is read back from its bytes.
  unfoldable pub open_with : L.Db → Bytes → Result ChainError Blockchain
  open_with d bytes = elim (J.unmarshal_block bytes) [
    | none ↦ err unmarshal_failed
    | some b ↦ ok (record { db = d; current_block = b; difficulty = pos 1 })
  ]

  unfoldable pub new_blockchain : L.Db → L.Db × Result ChainError Blockchain
  unfolding open_with
  new_blockchain d = elim (J.marshal_block genesis_block) [
    | none ↦ (d, err marshal_failed)
    | some genesis_bytes ↦ elim (L.get current_key d) [
      | some bytes ↦ (d, open_with d bytes)
      | none ↦
          let (d', stored) = L.put current_key genesis_bytes d in
          (d', if stored then open_with d' genesis_bytes else err put_failed)
    ]
  ]

  unfoldable pub add_block : Blockchain → Block → Blockchain × Option ChainError
  add_block bc b = elim (J.marshal_block b) [
    | none ↦ (bc, some marshal_failed)
    | some bytes ↦
        let (d, stored) = L.put (block_key b.header.height) bytes bc.db in
        let (d', moved) = L.put current_key bytes d in
        if stored
        then (if moved
            then (record bc { db = d'; current_block = b }, none)
            else (record bc { db = d' }, some put_failed))
        else (record bc { db = d }, some put_failed)
  ]

  unfoldable pub get_block_by_height : Blockchain → ℕ → Result ChainError Block
  get_block_by_height bc height = elim (L.get (block_key height) bc.db) [
    | none ↦ err not_found
    | some bytes ↦ or_err unmarshal_failed (J.unmarshal_block bytes)
  ]

  unfoldable pub verify_block : Blockchain → Block → Option ChainError
  verify_block bc b =
      if b.header.height == u64 (bc.current_block.header.height + 1)
      then (elim (hash_block J S bc.current_block) [
        | none ↦ some marshal_failed
        | some prev_hash ↦
            if bytes_equal b.header.prev_block_hash prev_hash then none else some bad_previous_hash
      ])
      else some bad_height

  -- The outer loop of GetTransactionHistory, downwards from a height.
  unfoldable pub history_from : Blockchain → Bytes → ℕ → ℕ → List Transaction → List Transaction
  history_from bc address limit zero found =
      if ltb (length found) limit
      then (elim (get_block_by_height bc zero) [
        | err _ ↦ found
        | ok b ↦ collect address limit found b.transactions
      ])
      else found
  history_from bc address limit (suc h) found =
      let next : List Transaction = elim (get_block_by_height bc (suc h)) [
        | err _ ↦ found
        | ok b ↦ history_from bc address limit h (collect address limit found b.transactions)
      ] in
      if ltb (length found) limit then next else found

  unfoldable pub get_transaction_history : Blockchain → Bytes → ℕ → List Transaction
  unfolding history_from
  get_transaction_history bc address limit =
      history_from bc address limit bc.current_block.header.height []

  unfoldable pub find_from : Blockchain → Bytes → ℕ → Option Transaction
  find_from bc id zero = elim (get_block_by_height bc zero) [
    | err _ ↦ none
    | ok b ↦ find_tx id b.transactions
  ]
  find_from bc id (suc h) = elim (get_block_by_height bc (suc h)) [
    | err _ ↦ none
    | ok b ↦ elim (find_tx id b.transactions) [ some tx ↦ some tx | none ↦ find_from bc id h ]
  ]

  unfoldable pub get_transaction_by_id : Blockchain → Bytes → Option Transaction
  unfolding find_from
  get_transaction_by_id bc id = find_from bc id bc.current_block.header.height

  -- The loop of GetTotalTransactionCount: `rounds` heights are left, from `height` upwards.
  unfoldable pub count_from : Blockchain → ℕ → ℕ → ℕ → ℕ
  count_from bc zero height total = total
  count_from bc (suc rounds) height total = elim (get_block_by_height bc height) [
    | err _ ↦ total
    | ok b ↦ count_from bc rounds (height + 1) (u64 (total + length b.transactions))
  ]

  unfoldable pub get_total_transaction_count : Blockchain → ℕ
  unfolding count_from
  get_total_transaction_count bc = count_from bc (bc.current_block.header.height + 1) 0 0
