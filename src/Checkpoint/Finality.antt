-- ===== src/Checkpoint/Finality.antt =====
-- rnr/pkg/consensus/checkpoint.go: when a checkpoint is finalized, and what a cleanup keeps.
use route_n_root.Prelude.{
  ℕ, ◌+◌, ◌*◌, ◌≤◌, ◌<◌, ◌≡◌, ◌⊎◌, ◌↔◌, refl, ap, inl, inr, true, Option, none, some, List, [], ◌∷◌,
  ◌++◌, Bytes, Bool-cases, Option-cases, All, length, drop, Map, lookup, erase, lookup-erase,
  nat_key, ltb, leb, ltb→lt, lt→ltb, arith,
}
use route_n_root.Prelude.Result.{or_err}
use route_n_root.Prelude.Text.{codes, decimal}
use route_n_root.Platform.{LevelDb, Json, Sha256}
use route_n_root.Checkpoint.{
  Checkpoint, required_for_finality, CheckpointManager, finalize_checkpoint, get_checkpoint,
  latest_from, get_latest_checkpoint, can_reorg, remove_heights, cleanup_old_checkpoints,
  stored_heights, exchange_sort, not_found,
}

-- The heights of the checkpoints that a list of entries holds are at most a bound.
abbrev pub AtMost : ℕ → Map ℕ Checkpoint → Type 0
AtMost bound m = All (λ entry. entry.1.height ≤ bound) m

latest_from_lem :
    (best : Checkpoint) (m : Map ℕ Checkpoint)
    → (cp : Checkpoint) × (latest_from (some best) m ≡ some cp)
      × (best.height ≤ cp.height)
      × AtMost cp.height m
unfolding latest_from
latest_from_lem best [] = (best, refl, omega arith, tt)
latest_from_lem best ((h, cp) ∷ m) = elim (Bool-cases (ltb best.height cp.height)) [
  | inl higher ↦
      let (found, eq, le, all) = latest_from_lem cp m in
      (found, rw (higher, latest_from) eq, ground arith, (le, all))
  | inr not_higher ↦
      let (found, eq, le, all) = latest_from_lem best m in
      (found, rw (not_higher, latest_from) eq, le, (ground arith, all))
]

latest_from_empty_or :
    (m : Map ℕ Checkpoint)
    → ((m ≡ []) × (latest_from none m ≡ none))
      ⊎ ((cp : Checkpoint) × (latest_from none m ≡ some cp) × AtMost cp.height m)
unfolding latest_from
latest_from_empty_or [] = inl (refl, refl)
latest_from_empty_or ((h, cp) ∷ m) =
    let (found, eq, le, all) = latest_from_lem cp m in inr (found, eq, (le, all))

module _ (L : LevelDb) (J : Json) (S : Sha256)
    (marshal_checkpoint : Checkpoint → Option Bytes) where
  -- Unless no checkpoint is stored, GetLatestCheckpoint returns one, and no stored checkpoint is higher.
  get_latest_checkpoint_lem :
      (cm : CheckpointManager L J S marshal_checkpoint)
      → ((cm.checkpoints ≡ []) × (get_latest_checkpoint L J S marshal_checkpoint cm ≡ none))
        ⊎ ((cp : Checkpoint) × (get_latest_checkpoint L J S marshal_checkpoint cm ≡ some cp)
            × AtMost cp.height cm.checkpoints)
  unfolding get_latest_checkpoint
  get_latest_checkpoint_lem cm = latest_from_empty_or (cm.checkpoints)

  -- A checkpoint that FinalizeCheckpoint accepts is stored and has, up to the rounding of the threshold, 67 percent of
  -- its validators' votes; afterwards a reorganisation is allowed exactly to heights above it.
  pub finalize_checkpoint-can_reorg :
      (cm : CheckpointManager L J S marshal_checkpoint) (height to_height : ℕ)
      → (finalize_checkpoint L J S marshal_checkpoint cm height).1 ≡ none
      → ((cp : Checkpoint) × (lookup height cm.checkpoints ≡ some cp)
          × (cp.total_validators * 67 < (cp.validator_votes + 1) * 100))
        × ((can_reorg L J S marshal_checkpoint
                (finalize_checkpoint L J S marshal_checkpoint cm height).0
                to_height
              ≡ true)
            ↔ (height < to_height))
  unfolding finalize_checkpoint can_reorg
  finalize_checkpoint-can_reorg cm height to_height h =
      elim (Option-cases (lookup height cm.checkpoints)) [
        | inl missing ↦ cc (rw (missing, finalize_checkpoint) at h)
        | inr (cp, found) ↦
            elim (Bool-cases (ltb cp.validator_votes (required_for_finality cp.total_validators))) [
              | inl short ↦ cc (rw (found, short, finalize_checkpoint) at h)
              | inr enough ↦ (
                (cp, found, ground arith),
                rw (found, enough, finalize_checkpoint)
                    ((λ e. ltb→lt height to_height e), λ e. lt→ltb height to_height e),
              )
            ]
      ]

  -- Any cleanup keeps every checkpoint at or below the finalized height, and that height.
  remove_heights-keeps :
      (cm : CheckpointManager L J S marshal_checkpoint) (heights : List ℕ) (height : ℕ)
      → height ≤ cm.finalized_height
      → (lookup height (remove_heights L J S marshal_checkpoint cm heights).checkpoints
          ≡ lookup height cm.checkpoints)
        × ((remove_heights L J S marshal_checkpoint cm heights).finalized_height
            ≡ cm.finalized_height)
  unfolding remove_heights
  remove_heights-keeps cm [] height h = (refl, refl)
  remove_heights-keeps cm (x ∷ xs) height h = elim (Bool-cases (leb x cm.finalized_height)) [
    | inl old ↦ rw (old, remove_heights) (remove_heights-keeps cm xs height h)
    | inr young ↦
        let cm' : CheckpointManager L J S marshal_checkpoint = record cm {
          checkpoints = erase x cm.checkpoints;
          db = (L.delete (codes "checkpoint_" ++ decimal x) cm.db).0;
        } in
        let rest = remove_heights-keeps cm' xs height h in
        rw (young, remove_heights)
          (ground (arith, rest, lookup-erase x height cm.checkpoints), rest.1)
  ]

  -- CleanupOldCheckpoints keeps every checkpoint at or below the finalized height, and that height.
  cleanup_old_checkpoints-keeps :
      (cm : CheckpointManager L J S marshal_checkpoint) (keep_last height : ℕ)
      → height ≤ cm.finalized_height
      → let cm' = cleanup_old_checkpoints L J S marshal_checkpoint cm keep_last in
        (get_checkpoint L J S marshal_checkpoint cm' height
          ≡ get_checkpoint L J S marshal_checkpoint cm height)
        × (cm'.finalized_height ≡ cm.finalized_height)
  unfolding cleanup_old_checkpoints get_checkpoint
  cleanup_old_checkpoints-keeps cm keep_last height h =
      let heights = stored_heights L J S marshal_checkpoint cm in
      let removed =
        remove_heights-keeps cm (drop keep_last (exchange_sort (length heights) heights)) height
          h in
      elim (Bool-cases (leb (length cm.checkpoints) keep_last)) [
        | inl few ↦ rw (few, cleanup_old_checkpoints) (refl, refl)
        | inr many ↦ rw (many, cleanup_old_checkpoints) (ap (or_err not_found) removed.0, removed.1)
      ]
