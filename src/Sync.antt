-- ===== src/Sync.antt =====
-- rnr/pkg/sync/sync_manager.go: catching up with a peer, and serving peers that catch up.
-- The manager owns its chain here; the node shares the pointer with other parts.
pub mod Request
pub mod Progress
use route_n_root.Prelude.{
  ℕ, zero, suc, ◌+◌, ◌-◌, ◌*◌, ◌^◌, Bool, true, false, Option, none, some, List, [], ◌∷◌, Bytes,
  if◌then◌else◌, ltb, leb, length,
}
use route_n_root.Prelude.Result.{Result, ok, err}
use route_n_root.Core.{Block, u64, second}
use route_n_root.Platform.{LevelDb, Json, Sha256}
use route_n_root.Chain.{Blockchain, ChainError, add_block, get_block_by_height, verify_block}

pub data SyncStatus : Type 0 where
  syncing synced behind : SyncStatus

pub data SyncError : Type 0 where
  empty_response bad_range : SyncError
  invalid_block add_failed : ChainError → SyncError

-- A call returns, with an error or not, or it panics.
pub data Outcome : Type 0 where
  returned : Option SyncError → Outcome
  panicked : Outcome

pub record BlockRequest : Type 0 where
  pub start_height : ℕ
  pub end_height : ℕ

module _ (L : LevelDb) (J : Json) (S : Sha256) where
  pub record SyncManager : Type 0 where
    pub blockchain : Blockchain L J S
    pub status : SyncStatus
    pub target_height : ℕ
    pub current_height : ℕ
    pub sync_peer : Bytes
    pub request_timeout : ℕ

  unfoldable pub new_sync_manager : Blockchain L J S → SyncManager
  new_sync_manager bc = record {
    blockchain = bc;
    status = synced;
    target_height = 0;
    current_height = bc.current_block.header.height;
    sync_peer = [];
    request_timeout = 30 * second;
  }

  unfoldable pub update_height : SyncManager → ℕ → SyncManager
  update_height sm height = record sm { current_height = height }

  -- StartSync. Its log line slices the peer's name to 12 bytes, which panics on a shorter one.
  unfoldable pub start_sync : SyncManager → ℕ → Bytes → SyncManager × Outcome
  start_sync sm peer_height peer_id =
      let height = sm.blockchain.current_block.header.height in
      if leb peer_height height
      then (record sm { current_height = height; status = synced }, returned none)
      else (
        record sm {
          current_height = height;
          status = syncing;
          target_height = peer_height;
          sync_peer = peer_id;
        },
        if ltb (length peer_id) 12 then panicked else returned none,
      )

  unfoldable pub create_block_request : SyncManager → ℕ → BlockRequest
  create_block_request sm batch_size =
      let start = u64 (sm.current_height + 1) in
      let end = u64 (start + batch_size + 2 ^ 64 - 1) in
      record {
        start_height = start;
        end_height = if ltb sm.target_height end then sm.target_height else end;
      }

  -- The loop of ProcessBlockResponse.
  unfoldable pub process_blocks : SyncManager → List Block → SyncManager × Option SyncError
  process_blocks sm [] = (sm, none)
  process_blocks sm (b ∷ bs) = elim (verify_block L J S sm.blockchain b) [
    | some e ↦ (sm, some (invalid_block e))
    | none ↦
        let bc' = (add_block L J S sm.blockchain b).0 in
        elim ((add_block L J S sm.blockchain b).1) [
          | some e ↦ (record sm { blockchain = bc' }, some (add_failed e))
          | none ↦
              process_blocks (record sm { blockchain = bc'; current_height = b.header.height }) bs
        ]
  ]

  -- What ProcessBlockResponse does after its loop.
  unfoldable pub finish_sync : SyncManager → SyncManager
  finish_sync sm =
      if leb sm.target_height sm.current_height then record sm { status = synced } else sm

  unfoldable pub process_block_response : SyncManager → List Block → SyncManager × Option SyncError
  process_block_response sm [] = (sm, some empty_response)
  process_block_response sm (b ∷ bs) =
      let (sm', e) = process_blocks sm (b ∷ bs) in
      elim e [ some x ↦ (sm', some x) | none ↦ (finish_sync sm', none) ]

  -- The loop of HandleBlockRequest: `rounds` heights are left, from `height` upwards.
  unfoldable pub blocks_from : Blockchain L J S → ℕ → ℕ → List Block
  blocks_from bc zero height = []
  blocks_from bc (suc rounds) height = elim (get_block_by_height L J S bc height) [
    | err _ ↦ []
    | ok b ↦ b ∷ blocks_from bc rounds (suc height)
  ]

  unfoldable pub handle_block_request : SyncManager → BlockRequest → Result SyncError (List Block)
  unfolding blocks_from
  handle_block_request sm req =
      if ltb req.end_height req.start_height
      then err bad_range
      else if ltb sm.blockchain.current_block.header.height req.start_height
      then ok []
      else ok (blocks_from sm.blockchain (suc req.end_height - req.start_height) req.start_height)

  unfoldable pub check_if_behind : SyncManager → ℕ → SyncManager × Bool
  check_if_behind sm peer_height =
      if ltb (u64 (sm.current_height + 10)) peer_height
      then (record sm { status = behind }, true)
      else (sm, false)
