-- ===== src/Pruner.antt =====
-- rnr/pkg/blockchain/state_pruner.go: old blocks are deleted from the database.
-- The height of the last final checkpoint, which the code asks of an interface, is an argument.
pub mod Range
pub mod Deletion
use route_n_root.Prelude.{
  ℕ, ◌+◌, ◌-◌, Bool, Option, none, some, List, [], ◌∷◌, ◌++◌, Bytes, if◌then◌else◌, ltb, leb, ◌==◌,
  length,
}
use route_n_root.Prelude.Text.{codes, parse_uint, trim_prefix}
use route_n_root.Platform.{ScanDb}

pub data PruneError : Type 0 where
  batch_failed final_batch_failed iterator_error : PruneError

-- The statistics of GetDatabaseStats.
pub record DatabaseStats : Type 0 where
  pub blocks : ℕ
  pub transactions : ℕ
  pub accounts : ℕ
  pub validators : ℕ
  pub retention_blocks : ℕ
  pub retention_time : ℕ

abbrev pub block_prefix : Bytes
block_prefix = codes "block_"

module _ (D : ScanDb) where
  pub record StatePruner : Type 0 where
    pub db : D.Db
    pub retention_blocks : ℕ
    pub retention_time : ℕ

  -- The state of PruneOldBlocks: the database, the number of deletions and the error, if any.
  pub record Pruned : Type 0 where
    pub db : D.Db
    pub pruned_count : ℕ
    pub error : Option PruneError

  -- The loop of PruneOldBlocks over the keys that are left, with the pending batch and the number of
  -- deletions. A full batch is written inside the loop, the rest of it after the loop.
  unfoldable pub prune_keys : (threshold : ℕ) → List Bytes → List Bytes → ℕ → D.Db → Pruned
  prune_keys threshold [] batch count d =
      let (d', written) = D.delete_all batch d in
      if length batch == 0
      then (record { db = d; pruned_count = count; error = none })
      else (record {
        db = d';
        pruned_count = count;
        error = if written then none else some final_batch_failed;
      })
  prune_keys threshold (key ∷ keys) batch count d =
      elim (parse_uint (trim_prefix key block_prefix)) [
        | none ↦ prune_keys threshold keys batch count d
        | some height ↦
            let old = ltb height threshold in
            let batch' = if old then batch ++ key ∷ [] else batch in
            let count' = if old then count + 1 else count in
            let (d', written) = D.delete_all batch' d in
            let flushed = prune_keys threshold keys [] count' d' in
            let kept = prune_keys threshold keys batch' count' d in
            if leb 100 (length batch')
            then (if written
                then flushed
                else (record { db = d'; pruned_count = count'; error = some batch_failed }))
            else kept
      ]

  -- The end of PruneOldBlocks: the error of the iterator is reported.
  unfoldable pub with_iterator_error : D.Db → Pruned → Pruned
  with_iterator_error d p = elim p.error [
    | some e ↦ p
    | none ↦ record p {
      error = if D.iterator_failed block_prefix d then some iterator_error else none;
    }
  ]

  unfoldable pub prune_old_blocks : (finalized_height : ℕ) → StatePruner → StatePruner × Pruned
  unfolding prune_keys with_iterator_error
  prune_old_blocks finalized sp =
      let nothing : Pruned = record { db = sp.db; pruned_count = 0; error = none } in
      let p =
        with_iterator_error sp.db
          (prune_keys (finalized - sp.retention_blocks) (D.keys block_prefix sp.db) [] 0 sp.db) in
      if finalized == 0
      then (sp, nothing)
      else if leb finalized sp.retention_blocks
      then (sp, nothing)
      else (record sp { db = p.db }, p)

  -- PruneOldTransactions deletes nothing and returns 0.
  unfoldable pub prune_old_transactions : StatePruner → ℕ
  prune_old_transactions sp = 0

  unfoldable pub get_database_stats : StatePruner → DatabaseStats
  get_database_stats sp = record {
    blocks = length (D.keys block_prefix sp.db);
    transactions = length (D.keys (codes "tx_") sp.db);
    accounts = length (D.keys (codes "account_") sp.db);
    validators = length (D.keys (codes "validator_") sp.db);
    retention_blocks = sp.retention_blocks;
    retention_time = sp.retention_time;
  }

  unfoldable pub compact_database : StatePruner → StatePruner × Bool
  compact_database sp = let (d, compacted) = D.compact sp.db in (record sp { db = d }, compacted)

  -- A failed compaction is only logged.
  unfoldable pub perform_maintenance :
      (finalized_height : ℕ) → StatePruner → StatePruner × Option PruneError
  unfolding prune_old_blocks compact_database
  perform_maintenance finalized sp =
      let (sp', p) = prune_old_blocks finalized sp in
      elim p.error [
        | some e ↦ (sp', some e)
        | none ↦ (if leb 1 p.pruned_count then (compact_database sp').0 else sp', none)
      ]
