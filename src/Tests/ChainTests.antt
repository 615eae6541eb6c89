-- ===== src/Tests/ChainTests.antt =====
-- Tests of the chain and of its synchronisation, on a chain with no block but the genesis block, a
-- verified first block, and managers on these chains.
use route_n_root.Prelude.{
  lookup, insert, bytes_key, suc, ◌-◌, ◌*◌, ◌≡◌, refl, none, List, [], ◌∷◌, take, select, length,
  arith,
}
use route_n_root.Prelude.Int.{pos}
use route_n_root.Prelude.Result.{ok}
use route_n_root.Core.{Block, second}
use route_n_root.Chain.{
  genesis_block, hash_block, involves, new_blockchain, open_with, add_block, verify_block,
  get_transaction_history, get_total_transaction_count,
}
use route_n_root.Chain.Links.{IsChain, add_block-IsChain}
use route_n_root.Chain.Growth.{Grows, here, added, get_total_transaction_count_zero}
use route_n_root.Chain.Store.{new_blockchain-add_block}
use route_n_root.Chain.History.{readable, get_transaction_history_lem}
use route_n_root.Sync.{
  SyncManager, BlockRequest, syncing, synced, process_block_response, handle_block_request,
  process_blocks, finish_sync,
}
use route_n_root.Sync.Request.{Covers, handle_block_request_lem}
use route_n_root.Sync.Progress.{process_block_response-IsChain}
use route_n_root.Tests.Fixtures.{
  memory_db, byte_json, padded, alice, empty_chain, block_one, empty_chain-IsChain, chain_one,
  chain_one-IsChain,
}

block_one-verified : verify_block memory_db byte_json padded empty_chain block_one ≡ none
unfolding verify_block hash_block genesis_block
block_one-verified = refl

block_one-added : (add_block memory_db byte_json padded empty_chain block_one).1 ≡ none
unfolding add_block genesis_block
block_one-added = refl

add_block-IsChain_example :
    IsChain memory_db byte_json padded
      (add_block memory_db byte_json padded empty_chain block_one).0
unfolding genesis_block
add_block-IsChain_example =
    add_block-IsChain memory_db byte_json padded empty_chain block_one empty_chain-IsChain
      (omega arith) block_one-verified block_one-added

new_blockchain-add_block_example :
    new_blockchain memory_db byte_json padded
      (add_block memory_db byte_json padded empty_chain block_one).0.db
    ≡ (
      (add_block memory_db byte_json padded empty_chain block_one).0.db,
      ok (record {
        db = (add_block memory_db byte_json padded empty_chain block_one).0.db;
        current_block = block_one;
        difficulty = pos 1;
      }),
    )
new_blockchain-add_block_example =
    new_blockchain-add_block memory_db byte_json padded empty_chain block_one refl block_one-added

-- The chain with its first block, which holds a transaction, grew from an empty database.
empty-opened : (new_blockchain memory_db byte_json padded []).1 ≡ ok empty_chain
unfolding new_blockchain open_with genesis_block lookup insert
empty-opened = refl

chain_one-Grows : Grows memory_db byte_json padded empty_chain chain_one
unfolding genesis_block
chain_one-Grows = added block_one here (omega arith) block_one-verified block_one-added

get_total_transaction_count_zero_example :
    IsChain memory_db byte_json padded chain_one
    × (get_total_transaction_count memory_db byte_json padded chain_one ≡ 0)
unfolding lookup
get_total_transaction_count_zero_example =
    get_total_transaction_count_zero memory_db byte_json padded [] empty_chain chain_one
      (λ key. refl) empty-opened chain_one-Grows

get_transaction_history_lem_example :
    get_transaction_history memory_db byte_json padded chain_one alice 10
    ≡ take 10 (
        select
          (involves alice)
          (readable memory_db byte_json padded chain_one chain_one.current_block.header.height))
get_transaction_history_lem_example =
    get_transaction_history_lem memory_db byte_json padded chain_one alice 10

-- A manager that is catching up with a peer at height 1, and one that is at height 1.
abbrev behind_manager : SyncManager memory_db byte_json padded
behind_manager = record {
  blockchain = empty_chain;
  status = syncing;
  target_height = 1;
  current_height = 0;
  sync_peer = alice;
  request_timeout = 30 * second;
}

abbrev serving_manager : SyncManager memory_db byte_json padded
serving_manager = record behind_manager {
  blockchain = chain_one;
  status = synced;
  current_height = 1;
}

abbrev first_request : BlockRequest
first_request = record { start_height = 1; end_height = 1 }

handle_block_request_lem_example :
    (bs : List Block) × (handle_block_request memory_db byte_json padded serving_manager
        first_request
      ≡ ok bs)
    × Covers memory_db byte_json padded serving_manager.blockchain first_request.start_height bs
    × (length bs ≡ suc first_request.end_height - first_request.start_height)
unfolding add_block
handle_block_request_lem_example =
    handle_block_request_lem memory_db byte_json padded serving_manager first_request
      chain_one-IsChain (omega arith) (omega arith) (omega arith)

process_block_response-IsChain_example :
    IsChain memory_db byte_json padded
      (process_block_response memory_db byte_json padded behind_manager
        (block_one ∷ [])).0.blockchain
unfolding genesis_block process_block_response process_blocks verify_block hash_block add_block
    finish_sync
process_block_response-IsChain_example =
    process_block_response-IsChain memory_db byte_json padded behind_manager (block_one ∷ [])
      empty_chain-IsChain (omega arith) refl
