-- ===== src/AtomicState/Commit.antt =====
-- rnr/pkg/blockchain/atomic_state.go: what committing leaves in memory and on disk.

use route_n_root.Prelude.{
  ℕ, ◌≡◌, ◌≢◌, refl, sym, ◌∙◌, ◌⊎◌, inl, inr, none, some, List, Bytes, Bool-cases, Option-cases,
  All, lookup, bytes_key,
}
use route_n_root.Platform.{BatchDb, StateJson, batch_value}
use route_n_root.AtomicState.{
  State, StateError, StateTransaction, account_key, begin_transaction, commit, stage_accounts,
  batch_update_accounts_atomic,
}
use route_n_root.AtomicState.Staging.{
  lookup-insert_all, IsStaged, begin_transaction-IsStaged, stage_accounts-IsStaged,
  stage_accounts-unstaged,
}

module _ (L : BatchDb) (J : StateJson) where
  -- The account that a pointer in memory stands for is the one on disk, under its own address.
  abbrev pub IsSaved : State L J → Bytes → ℕ → Type 0
  IsSaved s address p =
      ((s.account_at p).address ≡ address)
      × (J.marshal_account (s.account_at p) ≡ L.get (account_key address) s.db)

  -- Memory and disk agree on every account.
  abbrev pub IsPersisted : State L J → Type 0
  IsPersisted s =
      (address : Bytes) (p : ℕ) → lookup address s.accounts ≡ some p → IsSaved s address p

  -- A commit without an error leaves memory and disk in agreement on every account, when they agreed
  -- on the accounts that were not staged.
  pub commit-IsPersisted :
      (s : State L J) (tx : StateTransaction)
      → IsStaged L J s tx
      → ((address : Bytes) (p : ℕ)
          → lookup address tx.account_cache ≡ none
          → lookup address s.accounts ≡ some p
          → IsSaved s address p)
      → (commit L J s tx).1 ≡ none
      → IsPersisted (commit L J s tx).0
  unfolding commit
  commit-IsPersisted s tx i others h = elim (Bool-cases (L.write tx.batch s.db).1) [
    | inl written ↦
        rw (written, commit)
          (λ address p found.
            let held = lookup-insert_all address tx.account_cache s.accounts i.distinct in
            let reads = L.get-write tx.batch s.db written (account_key address) in
            elim (Option-cases (lookup address tx.account_cache)) [
              | inl missing ↦
                  let (named, saved) =
                    others address p missing (sym (rw missing at held) ∙ found) in
                  (named, saved ∙ sym (reads ∙ i.unstaged address _ missing))
              | inr (q, cached) ↦
                  let new : q ≡ p = cc (rw cached at held) in
                  let (named, saved) = i.staged address p (rw new at cached) in
                  (named, saved _ ∙ sym reads)
            ])
    | inr failed ↦ cc (rw (failed, commit) at h)
  ]

  -- A commit with an error leaves memory as it was, and on disk either the whole batch or nothing of
  -- it.
  pub commit_failed :
      (s : State L J) (tx : StateTransaction) (e : StateError)
      → (commit L J s tx).1 ≡ some e
      → let s' = (commit L J s tx).0 in
        (s' ≡ record s { db = s'.db })
        × (((j : Bytes) → L.get j s'.db ≡ L.get j s.db)
            ⊎ ((j : Bytes) → L.get j s'.db ≡ batch_value j tx.batch (L.get j s.db)))
  unfolding commit
  commit_failed s tx e h = elim (Bool-cases (L.write tx.batch s.db).1) [
    | inl written ↦ cc (rw (written, commit) at h)
    | inr failed ↦ rw (failed, commit) (refl, L.get-write_failed tx.batch s.db failed)
  ]

  -- A batch update of accounts that returns no error leaves memory and disk in agreement on every
  -- account, when they agreed on the accounts that are not in the batch.
  pub batch_update_accounts_atomic-IsPersisted :
      (s : State L J) (ps : List ℕ)
      → ((address : Bytes) (p : ℕ)
          → All (λ q. (s.account_at q).address ≢ address) ps
          → lookup address s.accounts ≡ some p
          → IsSaved s address p)
      → (batch_update_accounts_atomic L J s ps).1 ≡ none
      → IsPersisted (batch_update_accounts_atomic L J s ps).0
  unfolding batch_update_accounts_atomic
  batch_update_accounts_atomic-IsPersisted s ps others h =
      elim (Option-cases (stage_accounts L J s ps begin_transaction).1) [
        | inl fine ↦
            rw (fine, batch_update_accounts_atomic)
              (commit-IsPersisted s _
                (stage_accounts-IsStaged L J s ps begin_transaction
                  (begin_transaction-IsStaged L J s) fine)
                (λ address p missing.
                  others address p
                    (stage_accounts-unstaged L J s ps begin_transaction address fine missing).0)
                (rw (fine, batch_update_accounts_atomic) at h))
        | inr (e, failed) ↦ cc (rw (failed, batch_update_accounts_atomic) at h)
      ]
