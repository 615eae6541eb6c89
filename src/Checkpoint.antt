-- ===== src/Checkpoint.antt =====
-- rnr/pkg/consensus/checkpoint.go: checkpoints and the finalized height.
-- The threshold 0.67 is taken exactly, as 67 hundredths, and rounded down as Go's conversion does.
pub mod Sort
pub mod Finality
use route_n_root.Prelude.{
  ℕ, zero, suc, ◌+◌, ◌*◌, ◌/◌, ◌%◌, Bool, true, false, ◌&&◌, Option, none, some, List, [], ◌∷◌,
  ◌++◌, Bytes, Map, lookup, insert, erase, length, drop, map, nat_key, if◌then◌else◌, ltb, leb,
  ◌==◌,
}
use route_n_root.Prelude.Result.{Result, ok, err, or_err}
use route_n_root.Prelude.Text.{codes, decimal}
use route_n_root.Core.{Block}
use route_n_root.Platform.{LevelDb, Json, Sha256}
use route_n_root.Chain.{hash_block}

pub data CheckpointError : Type 0 where
  hash_failed marshal_failed save_failed not_found insufficient_votes : CheckpointError

pub record Checkpoint : Type 0 where
  pub height : ℕ
  pub block_hash : Bytes
  pub state_root : Bytes
  pub timestamp : ℕ
  pub validator_votes : ℕ
  pub total_validators : ℕ

-- The inner loop of the exchange sort in CleanupOldCheckpoints: the largest height of the rest
-- moves to the front.
unfoldable pub exchange_pass : ℕ → List ℕ → ℕ × List ℕ
exchange_pass x [] = (x, [])
exchange_pass x (y ∷ ys) =
    let (top, rest) = exchange_pass (if ltb x y then y else x) ys in
    (top, (if ltb x y then x else y) ∷ rest)

-- The outer loop; `rounds` positions are left to fill.
unfoldable pub exchange_sort : ℕ → List ℕ → List ℕ
exchange_sort zero xs = xs
exchange_sort (suc rounds) [] = []
exchange_sort (suc rounds) (x ∷ xs) =
    let (top, rest) = exchange_pass x xs in top ∷ exchange_sort rounds rest

-- int(float64(total) * 0.67)
abbrev pub required_for_finality : ℕ → ℕ
required_for_finality total = total * 67 / 100

-- The loop of GetLatestCheckpoint, from the latest one so far.
unfoldable pub latest_from : Option Checkpoint → Map ℕ Checkpoint → Option Checkpoint
latest_from latest [] = latest
latest_from none ((_, cp) ∷ m) = latest_from (some cp) m
latest_from (some best) ((_, cp) ∷ m) =
    latest_from (some (if ltb best.height cp.height then cp else best)) m

module _ (L : LevelDb) (J : Json) (S : Sha256)
    (marshal_checkpoint : Checkpoint → Option Bytes) where
  pub record CheckpointManager : Type 0 where
    pub db : L.Db
    pub checkpoints : Map ℕ Checkpoint
    pub finalized_height : ℕ
    pub checkpoint_interval : ℕ

  unfoldable pub should_create_checkpoint : CheckpointManager → ℕ → Bool
  should_create_checkpoint cm height = height % cm.checkpoint_interval == 0

  unfoldable pub create_checkpoint :
      CheckpointManager → Block → (votes total now : ℕ) → CheckpointManager × Option CheckpointError
  create_checkpoint cm b votes total now = elim (hash_block J S b) [
    | none ↦ (cm, some hash_failed)
    | some block_hash ↦
        let checkpoint : Checkpoint = record {
          height = b.header.height;
          block_hash = block_hash;
          state_root = b.header.merkle_root;
          timestamp = now;
          validator_votes = votes;
          total_validators = total;
        } in
        let cm' : CheckpointManager = record cm {
          checkpoints = insert checkpoint.height checkpoint cm.checkpoints;
        } in
        elim (marshal_checkpoint checkpoint) [
          | none ↦ (cm', some marshal_failed)
          | some bytes ↦
              let (d, saved) =
                L.put (codes "checkpoint_" ++ decimal checkpoint.height) bytes cm.db in
              (record cm' { db = d }, if saved then none else some save_failed)
        ]
  ]

  unfoldable pub finalize_checkpoint :
      CheckpointManager → ℕ → CheckpointManager × Option CheckpointError
  finalize_checkpoint cm height = elim (lookup height cm.checkpoints) [
    | none ↦ (cm, some not_found)
    | some checkpoint ↦
        if ltb checkpoint.validator_votes (required_for_finality checkpoint.total_validators)
        then (cm, some insufficient_votes)
        else (let (d, saved) = L.put (codes "finalized_height") (decimal height) cm.db in
            (
              record cm { finalized_height = height; db = d },
              if saved then none else some save_failed,
            ))
  ]

  unfoldable pub get_finalized_height : CheckpointManager → ℕ
  get_finalized_height cm = cm.finalized_height

  unfoldable pub get_checkpoint : CheckpointManager → ℕ → Result CheckpointError Checkpoint
  get_checkpoint cm height = or_err not_found (lookup height cm.checkpoints)

  unfoldable pub get_latest_checkpoint : CheckpointManager → Option Checkpoint
  get_latest_checkpoint cm = latest_from none cm.checkpoints

  unfoldable pub can_reorg : CheckpointManager → ℕ → Bool
  can_reorg cm to_height = ltb cm.finalized_height to_height

  -- The last loop of CleanupOldCheckpoints, over the heights behind the ones that are kept.
  unfoldable pub remove_heights : CheckpointManager → List ℕ → CheckpointManager
  remove_heights cm [] = cm
  remove_heights cm (height ∷ heights) =
      let cm' : CheckpointManager = record cm {
        checkpoints = erase height cm.checkpoints;
        db = (L.delete (codes "checkpoint_" ++ decimal height) cm.db).0;
      } in
      remove_heights (if leb height cm.finalized_height then cm else cm') heights

  abbrev pub stored_heights : CheckpointManager → List ℕ
  stored_heights cm = map (λ entry. entry.0) cm.checkpoints

  unfoldable pub cleanup_old_checkpoints : CheckpointManager → ℕ → CheckpointManager
  cleanup_old_checkpoints cm keep_last =
      let heights = stored_heights cm in
      if leb (length cm.checkpoints) keep_last
      then cm
      else remove_heights cm (drop keep_last (exchange_sort (length heights) heights))
