-- ===== src/Pruner/Range.antt =====
-- rnr/pkg/blockchain/state_pruner.go: which blocks are deleted and which are kept.
use route_n_root.Prelude.{
  ℕ, ◌+◌, ◌-◌, ◌^◌, ◌≤◌, ◌<◌, ◌≡◌, refl, ap, ◌∙◌, inl, inr, Bool, true, false, ◌||◌, Option, none,
  some, List, [], ◌∷◌, ◌++◌, Bytes, bytes_equal, bytes_equal_iff, Bool-cases, Option-cases, All,
  if◌then◌else◌, ltb, leb, ◌==◌, length, arith,
}
use route_n_root.Prelude.Text.{
  decimal, parse_uint, has_prefix, trim_prefix, parse_uint-decimal, has_prefix-append,
  trim_prefix-append,
}
use route_n_root.Platform.{ScanDb, listed}
use route_n_root.Chain.{block_key}
use route_n_root.Pruner.{
  StatePruner, Pruned, batch_failed, block_prefix, prune_keys, with_iterator_error,
  prune_old_blocks, compact_database, perform_maintenance,
}

abbrev pub at_height : ℕ → Option ℕ → Bool
at_height threshold none = false
at_height threshold (some height) = ltb height threshold

-- The key names a height below the threshold.
abbrev pub is_old : ℕ → Bytes → Bool
is_old threshold key = at_height threshold (parse_uint (trim_prefix key block_prefix))

pub listed-append :
    (j : Bytes) (xs : List Bytes) (k : Bytes)
    → listed j (xs ++ k ∷ []) ≡ (listed j xs || bytes_equal k j)
listed-append j [] k = ground arith
listed-append j (x ∷ xs) k = ground (arith, listed-append j xs k)

pub parse_block_key :
    (height : ℕ)
    → height < 2 ^ 64
    → parse_uint (trim_prefix (block_key height) block_prefix) ≡ some height
unfolding block_key
parse_block_key height fits =
    ap parse_uint (trim_prefix-append block_prefix (decimal height))
    ∙ parse_uint-decimal height fits

pub block_key-prefixed : (height : ℕ) → has_prefix (block_key height) block_prefix ≡ true
unfolding block_key
block_key-prefixed height = has_prefix-append block_prefix (decimal height)

-- The entries of a batch are old.
abbrev AllOld : ℕ → List Bytes → Type 0
AllOld threshold batch = All (λ k. is_old threshold k ≡ true) batch

AllOld-append :
    (threshold : ℕ) (batch : List Bytes) (k : Bytes)
    → AllOld threshold batch
    → is_old threshold k ≡ true
    → AllOld threshold (batch ++ k ∷ [])
AllOld-append threshold [] k a h = (h, tt)
AllOld-append threshold (x ∷ batch) k a h = (a.0, AllOld-append threshold batch k a.1 h)

listed-AllOld :
    (threshold : ℕ) (j : Bytes) (batch : List Bytes)
    → AllOld threshold batch
    → is_old threshold j ≡ false
    → listed j batch ≡ false
listed-AllOld threshold j [] a h = refl
listed-AllOld threshold j (k ∷ batch) a h = elim (Bool-cases (bytes_equal k j)) [
  | inl same ↦ cc (ap (is_old threshold) ((bytes_equal_iff k j).0 same))
  | inr other ↦ rw other (listed-AllOld threshold j batch a.1 h)
]

module _ (D : ScanDb) where
  -- A batch of deletions, written or not, leaves the keys that are not in it.
  delete_all-keeps :
      (ks : List Bytes) (d : D.Db) (j : Bytes)
      → listed j ks ≡ false
      → D.get j (D.delete_all ks d).0 ≡ D.get j d
  delete_all-keeps ks d j h = elim (Bool-cases (D.delete_all ks d).1) [
    | inl written ↦ D.get-delete_all ks d written j ∙ rw h refl
    | inr failed ↦ elim (D.get-delete_all_failed ks d failed) [
      | inl nothing ↦ nothing j
      | inr all ↦ all j ∙ rw h refl
    ]
  ]

  -- One turn of the loop after its key was read: the batch is written when it is full.
  abbrev pub after_key : ℕ → List Bytes → List Bytes → ℕ → D.Db → Pruned D
  after_key threshold keys batch n d =
      let (d', written) = D.delete_all batch d in
      if leb 100 (length batch)
      then (if written
          then prune_keys D threshold keys [] n d'
          else (record { db = d'; pruned_count = n; error = some batch_failed }))
      else prune_keys D threshold keys batch n d

  abbrev pub batch_after : ℕ → Bytes → ℕ → List Bytes → List Bytes
  batch_after threshold key height batch = if ltb height threshold then batch ++ key ∷ [] else batch

  batch_after-AllOld :
      (threshold : ℕ) (key : Bytes) (height : ℕ) (batch : List Bytes)
      → parse_uint (trim_prefix key block_prefix) ≡ some height
      → AllOld threshold batch
      → AllOld threshold (batch_after threshold key height batch)
  batch_after-AllOld threshold key height batch read a = elim (Bool-cases (ltb height threshold)) [
    | inl old ↦ rw old (AllOld-append threshold batch key a (ap (at_height threshold) read ∙ old))
    | inr recent ↦ rw recent a
  ]

  prune_keys-keeps :
      (threshold : ℕ) (keys batch : List Bytes) (n : ℕ) (d : D.Db) (j : Bytes)
      → AllOld threshold batch
      → is_old threshold j ≡ false
      → D.get j (prune_keys D threshold keys batch n d).db ≡ D.get j d
  unfolding prune_keys
  prune_keys-keeps threshold [] batch n d j a h = elim (Bool-cases (length batch == 0)) [
    | inl empty ↦ rw (empty, prune_keys) refl
    | inr some_left ↦
        rw (some_left, prune_keys)
          (delete_all-keeps batch d j (listed-AllOld threshold j batch a h))
  ]
  prune_keys-keeps threshold (key ∷ keys) batch n d j a h =
      elim (Option-cases (parse_uint (trim_prefix key block_prefix))) [
        | inl skipped ↦ rw (skipped, prune_keys) (prune_keys-keeps threshold keys batch n d j a h)
        | inr (height, read) ↦
            let batch' = batch_after threshold key height batch in
            let n' = if ltb height threshold then n + 1 else n in
            let a' = batch_after-AllOld threshold key height batch read a in
            let first = delete_all-keeps batch' d j (listed-AllOld threshold j batch' a' h) in
            let flushed = prune_keys-keeps threshold keys [] n' (D.delete_all batch' d).0 j tt h in
            let kept = prune_keys-keeps threshold keys batch' n' d j a' h in
            rw (read, prune_keys) (ground (arith, first, flushed, kept))
      ]

  pub with_iterator_error-db : (d : D.Db) (p : Pruned D) → (with_iterator_error D d p).db ≡ p.db
  unfolding with_iterator_error
  with_iterator_error-db d p = elim (Option-cases p.error) [
    | inl fine ↦ rw (fine, with_iterator_error) refl
    | inr (e, failed) ↦ rw (failed, with_iterator_error) refl
  ]

  prune_old_blocks-keeps :
      (finalized : ℕ) (sp : StatePruner D) (j : Bytes)
      → is_old (finalized - sp.retention_blocks) j ≡ false
      → D.get j (prune_old_blocks D finalized sp).0.db ≡ D.get j sp.db
  unfolding prune_old_blocks
  prune_old_blocks-keeps finalized sp j h =
      let threshold = finalized - sp.retention_blocks in
      let keys = D.keys block_prefix sp.db in
      let loop = prune_keys D threshold keys [] 0 sp.db in
      let kept =
        ap (D.get j) (with_iterator_error-db sp.db loop)
        ∙ prune_keys-keeps threshold keys [] 0 sp.db j tt h in
      ground (arith, kept)

  -- The maintenance deletes no block at or above the finalized height less the retention, whatever
  -- fails on the way.
  pub perform_maintenance-keeps :
      (finalized : ℕ) (sp : StatePruner D) (height : ℕ)
      → height < 2 ^ 64
      → finalized ≤ height + sp.retention_blocks
      → D.get (block_key height) (perform_maintenance D finalized sp).0.db
        ≡ D.get (block_key height) sp.db
  unfolding perform_maintenance compact_database block_key
  perform_maintenance-keeps finalized sp height fits recent =
      let j = block_key height in
      let (sp', p) = prune_old_blocks D finalized sp in
      let kept = prune_old_blocks-keeps finalized sp j (
        ap (at_height (finalized - sp.retention_blocks)) (parse_block_key height fits)
        ∙ ground arith) in
      elim (Option-cases p.error) [
        | inl fine ↦ rw (fine, perform_maintenance) (ground (arith, kept, D.get-compact j sp'.db))
        | inr (e, failed) ↦ rw (failed, perform_maintenance) kept
      ]
