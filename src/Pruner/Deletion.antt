-- ===== src/Pruner/Deletion.antt =====
-- rnr/pkg/blockchain/state_pruner.go: a run without an error deletes every old block.
use mathlib.Core.Path.{subst}
use route_n_root.Prelude.{
  ℕ, ◌+◌, ◌-◌, ◌^◌, ◌<◌, ◌≡◌, refl, sym, ap, ◌∙◌, inl, inr, Bool, true, false, ◌&&◌, ◌||◌, Option,
  none, some, List, [], ◌∷◌, ◌++◌, Bytes, bytes_equal, bytes_equal_iff, Bool-cases, Option-cases,
  count, if◌then◌else◌, ltb, leb, ◌==◌, length, arith,
}
use route_n_root.Prelude.Text.{parse_uint, trim_prefix}
use route_n_root.Platform.{ScanDb, listed}
use route_n_root.Chain.{block_key}
use route_n_root.Pruner.{
  StatePruner, Pruned, block_prefix, prune_keys, with_iterator_error, prune_old_blocks,
}
use route_n_root.Pruner.Range.{
  is_old, at_height, batch_after, after_key, listed-append, parse_block_key, block_key-prefixed,
  with_iterator_error-db,
}

module _ (D : ScanDb) where
  -- What the loop makes of a key: gone if it was old and still to be read, or in the batch.
  abbrev gone : ℕ → Bytes → List Bytes → List Bytes → Bool
  gone threshold j keys batch = (is_old threshold j && listed j keys) || listed j batch

  abbrev or_gone : Bool → Option Bytes → Option Bytes
  or_gone b v = if b then none else v

  same_old :
      (threshold : ℕ) (k j : Bytes)
      → bytes_equal k j ≡ true
      → is_old threshold k ≡ is_old threshold j
  same_old threshold k j h = ap (is_old threshold) ((bytes_equal_iff k j).0 h)

  gone_skipped :
      (threshold : ℕ) (key j : Bytes) (keys batch : List Bytes)
      → is_old threshold key ≡ false
      → gone threshold j (key ∷ keys) batch ≡ gone threshold j keys batch
  gone_skipped threshold key j keys batch recent = elim (Bool-cases (bytes_equal key j)) [
    | inl same ↦ rw (same, sym (same_old threshold key j same) ∙ recent) refl
    | inr other ↦ rw other refl
  ]

  gone_taken :
      (threshold : ℕ) (key j : Bytes) (keys batch : List Bytes)
      → is_old threshold key ≡ true
      → gone threshold j (key ∷ keys) batch ≡ gone threshold j keys (batch ++ key ∷ [])
  gone_taken threshold key j keys batch old = elim (Bool-cases (bytes_equal key j)) [
    | inl same ↦ ground (arith, listed-append j batch key, same_old threshold key j same)
    | inr other ↦ ground (arith, listed-append j batch key)
  ]

  -- Reading a key moves it from the keys that are left to the batch, if it is old.
  gone_step :
      (threshold : ℕ) (key j : Bytes) (height : ℕ) (keys batch : List Bytes)
      → parse_uint (trim_prefix key block_prefix) ≡ some height
      → gone threshold j (key ∷ keys) batch
        ≡ gone threshold j keys (batch_after D threshold key height batch)
  gone_step threshold key j height keys batch read = elim (Bool-cases (ltb height threshold)) [
    | inl old ↦
        gone_taken threshold key j keys batch (ap (at_height threshold) read ∙ old) ∙ rw old refl
    | inr recent ↦
        gone_skipped threshold key j keys batch (ap (at_height threshold) read ∙ recent)
        ∙ rw recent refl
  ]

  count_step :
      (threshold n : ℕ) (key : Bytes) (height : ℕ) (keys : List Bytes)
      → parse_uint (trim_prefix key block_prefix) ≡ some height
      → (if ltb height threshold then n + 1 else n) + count (is_old threshold) keys
        ≡ n + count (is_old threshold) (key ∷ keys)
  count_step threshold n key height keys read =
      let known : is_old threshold key ≡ ltb height threshold = ap (at_height threshold) read in
      ground (arith, known)

  -- What the loop has done when it ends without an error.
  abbrev Done : ℕ → Bytes → List Bytes → List Bytes → ℕ → D.Db → Pruned D → Type 0
  Done threshold j keys batch n d p =
      (D.get j p.db ≡ or_gone (gone threshold j keys batch) (D.get j d))
      × (p.pruned_count ≡ n + count (is_old threshold) keys)

  after_key_lem :
      (threshold : ℕ) (keys batch : List Bytes) (n : ℕ) (d : D.Db) (j : Bytes)
      → ((batch : List Bytes) (d : D.Db)
          → (prune_keys D threshold keys batch n d).error ≡ none
          → Done threshold j keys batch n d (prune_keys D threshold keys batch n d))
      → (after_key D threshold keys batch n d).error ≡ none
      → Done threshold j keys batch n d (after_key D threshold keys batch n d)
  after_key_lem threshold keys batch n d j rest h = elim (Bool-cases (leb 100 (length batch))) [
    | inl full ↦ elim (Bool-cases (D.delete_all batch d).1) [
      | inl written ↦
          let d' = (D.delete_all batch d).0 in
          let (reads, counted) = rest [] d' (rw (full, written) at h) in
          rw (full, written) (ground (arith, reads, D.get-delete_all batch d written j), counted)
      | inr failed ↦ cc (rw (full, failed) at h)
    ]
    | inr room ↦ rw room (rest batch d (rw room at h))
  ]

  read_step :
      (threshold : ℕ) (key : Bytes) (height : ℕ) (keys batch : List Bytes) (n : ℕ) (d : D.Db)
      → parse_uint (trim_prefix key block_prefix) ≡ some height
      → prune_keys D threshold (key ∷ keys) batch n d
        ≡ after_key D threshold keys
            (batch_after D threshold key height batch)
            (if ltb height threshold then n + 1 else n)
            d
  unfolding prune_keys
  read_step threshold key height keys batch n d read = rw (read, prune_keys) refl

  empty_batch : (batch : List Bytes) → (length batch == 0) ≡ true → batch ≡ []
  empty_batch [] h = refl
  empty_batch (x ∷ batch) h = absurd (ground arith)

  prune_keys_lem :
      (threshold : ℕ) (keys batch : List Bytes) (n : ℕ) (d : D.Db) (j : Bytes)
      → (prune_keys D threshold keys batch n d).error ≡ none
      → Done threshold j keys batch n d (prune_keys D threshold keys batch n d)
  unfolding prune_keys
  prune_keys_lem threshold [] batch n d j h = elim (Bool-cases (length batch == 0)) [
    | inl empty ↦ rw (empty, empty_batch batch empty, prune_keys) (ground arith, omega arith)
    | inr left ↦ elim (Bool-cases (D.delete_all batch d).1) [
      | inl written ↦
          rw (left, prune_keys) (ground (arith, D.get-delete_all batch d written j), omega arith)
      | inr failed ↦ cc (rw (left, failed, prune_keys) at h)
    ]
  ]
  prune_keys_lem threshold (key ∷ keys) batch n d j h =
      elim (Option-cases (parse_uint (trim_prefix key block_prefix))) [
        | inl skipped ↦
            let recent : is_old threshold key ≡ false = ap (at_height threshold) skipped in
            let (reads, counted) =
              prune_keys_lem threshold keys batch n d j (rw (skipped, prune_keys) at h) in
            rw (skipped, prune_keys)
              (
                reads
                    ∙ ap (λ b. or_gone b (D.get j d))
                        (sym (gone_skipped threshold key j keys batch recent)),
                ground (arith, counted, recent),
              )
        | inr (height, read) ↦
            let batch' = batch_after D threshold key height batch in
            let n' = if ltb height threshold then n + 1 else n in
            let step = read_step threshold key height keys batch n d read in
            let (reads, counted) =
              after_key_lem threshold keys batch' n' d j
                (λ b e. prune_keys_lem threshold keys b n' e j)
                (ap (λ (p : Pruned D). p.error) (sym step) ∙ h) in
            subst (Done threshold j (key ∷ keys) batch n d) (sym step) (
              reads
                  ∙ ap (λ b. or_gone b (D.get j d))
                      (sym (gone_step threshold key j height keys batch read)),
              counted ∙ count_step threshold n key height keys read,
            )
      ]

  with_iterator_error-fine :
      (d : D.Db) (p : Pruned D)
      → (with_iterator_error D d p).error ≡ none
      → (p.error ≡ none)
        × (D.iterator_failed block_prefix d ≡ false)
        × ((with_iterator_error D d p).pruned_count ≡ p.pruned_count)
  unfolding with_iterator_error
  with_iterator_error-fine d p h = elim (Option-cases p.error) [
    | inl fine ↦ elim (Bool-cases (D.iterator_failed block_prefix d)) [
      | inl broken ↦ cc (rw (fine, broken, with_iterator_error) at h)
      | inr whole ↦ (fine, whole, rw (fine, with_iterator_error) refl)
    ]
    | inr (e, failed) ↦ let h' = rw (failed, with_iterator_error) at h in cc
  ]

  runs :
      (finalized : ℕ) (sp : StatePruner D)
      → sp.retention_blocks < finalized
      → let p =
          with_iterator_error D sp.db (
            prune_keys D
              (finalized - sp.retention_blocks)
              (D.keys block_prefix sp.db)
              []
              0
              sp.db) in
        prune_old_blocks D finalized sp ≡ (record sp { db = p.db }, p)
  unfolding prune_old_blocks
  runs finalized sp above = ground arith

  block_key-gone :
      (threshold : ℕ) (d : D.Db) (height : ℕ)
      → D.iterator_failed block_prefix d ≡ false
      → height < 2 ^ 64
      → height < threshold
      → or_gone
          (gone threshold (block_key height) (D.keys block_prefix d) [])
          (D.get (block_key height) d)
        ≡ none
  block_key-gone threshold d height whole fits low =
      let old : is_old threshold (block_key height) ≡ true =
        ap (at_height threshold) (parse_block_key height fits) ∙ ground arith in
      elim (Option-cases (D.get (block_key height) d)) [
        | inl missing ↦ ground arith
        | inr (v, found) ↦
            let here =
              D.keys-complete block_prefix (block_key height) v d whole found
                (block_key-prefixed height) in
            rw (old, here) refl
      ]

  -- A run of PruneOldBlocks that returns no error, with a finalized height above the retention,
  -- counts the block keys it found below the finalized height less the retention, and none of the
  -- blocks below that height is left.
  pub prune_old_blocks-deletes :
      (finalized : ℕ) (sp : StatePruner D) (height : ℕ)
      → sp.retention_blocks < finalized
      → (prune_old_blocks D finalized sp).1.error ≡ none
      → height < 2 ^ 64
      → height + sp.retention_blocks < finalized
      → let (sp', p) = prune_old_blocks D finalized sp in
        let threshold = finalized - sp.retention_blocks in
        (p.pruned_count ≡ count (is_old threshold) (D.keys block_prefix sp.db))
        × (D.get (block_key height) sp'.db ≡ none)
  prune_old_blocks-deletes finalized sp height above h fits low =
      let threshold = finalized - sp.retention_blocks in
      let keys = D.keys block_prefix sp.db in
      let loop = prune_keys D threshold keys [] 0 sp.db in
      let ran = runs finalized sp above in
      let (fine, whole, same) =
        with_iterator_error-fine sp.db loop (ap (λ r. r.1.error) (sym ran) ∙ h) in
      (
        ap (λ r. r.1.pruned_count) ran
            ∙ same
            ∙ (prune_keys_lem threshold keys [] 0 sp.db [] fine).1
            ∙ omega arith,
        (let j = block_key height in
            ap (λ r. D.get j r.0.db) ran
            ∙ ap (D.get j) (with_iterator_error-db D sp.db loop)
            ∙ (prune_keys_lem threshold keys [] 0 sp.db j fine).0
            ∙ block_key-gone threshold sp.db height whole fits (omega arith)),
      )
