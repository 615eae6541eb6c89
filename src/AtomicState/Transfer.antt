-- ===== src/AtomicState/Transfer.antt =====
-- rnr/pkg/blockchain/atomic_state.go: what ApplyTransactionAtomic does to balances, memory and disk.
use mathlib.Core.Path.{subst}
use route_n_root.Prelude.{
  ℕ, ◌≡◌, refl, sym, ◌⊎◌, inl, inr, Option, none, some, [], ◌∷◌, Bytes, Bool-cases, Option-cases,
  bytes_key, ◌==◌, arith,
}
use route_n_root.Prelude.Int.{◌≤ℤ◌, ltb_ℤ}
use route_n_root.Core.{Transaction}
use route_n_root.Platform.{BatchDb, StateJson}
use route_n_root.AtomicState.{
  State, StateError, no_sender, insufficient_balance, invalid_nonce, no_recipient, marshal_failed,
  write_failed, debit, credit, settle, apply_transaction_atomic, batch_update_accounts_atomic,
}
use route_n_root.AtomicState.Commit.{IsPersisted, batch_update_accounts_atomic-IsPersisted}
use route_n_root.AtomicState.Settle.{
  moved, moved-IsSaved, IsTransfer, moved-IsTransfer, SameMaps, settle_failed, settle-account_at,
}

module _ (L : BatchDb) (J : StateJson) where
  module _ (get_account : State L J → Bytes → Option ℕ) where
    abbrev pub apply : State L J → Transaction → State L J × Option StateError
    apply = apply_transaction_atomic L J get_account

    -- The checks passed for the accounts that `p` and `q` point to.
    pub record IsAllowed (s : State L J) (tx : Transaction) (p q : ℕ) : Type 0 where
      pub sender : get_account s tx.from ≡ some p
      pub recipient : get_account s tx.to ≡ some q
      pub covered : tx.amount ≤ℤ (s.account_at p).balance
      pub next : (s.account_at p).nonce ≡ tx.nonce

    -- Every call either refuses the transaction and leaves the state as it was, or its checks passed
    -- and it settles.
    pub apply_transaction_atomic-cases :
        (s : State L J) (tx : Transaction)
        → ((e : StateError) × (apply s tx ≡ (s, some e)))
          ⊎ ((p : ℕ) × (q : ℕ) × IsAllowed s tx p q
              × (apply s tx ≡ settle L J (moved L J s tx p q) p q))
    unfolding apply_transaction_atomic
    apply_transaction_atomic-cases s tx = elim (Option-cases (get_account s tx.from)) [
      | inl missing ↦ inl (no_sender, rw (missing, apply_transaction_atomic) refl)
      | inr (p, found) ↦ elim (Bool-cases (ltb_ℤ (s.account_at p).balance tx.amount)) [
        | inl poor ↦ inl (insufficient_balance, rw (found, poor, apply_transaction_atomic) refl)
        | inr rich ↦ elim (Bool-cases ((s.account_at p).nonce == tx.nonce)) [
          | inr other ↦ inl (invalid_nonce, rw (found, rich, other, apply_transaction_atomic) refl)
          | inl same ↦ elim (Option-cases (get_account s tx.to)) [
            | inl nobody ↦
                inl (no_recipient, rw (found, rich, same, nobody, apply_transaction_atomic) refl)
            | inr (q, met) ↦ inr (
              p,
              q,
              record {
                sender = found;
                recipient = met;
                covered = ground arith;
                next = ground arith;
              },
              rw (found, rich, same, met, apply_transaction_atomic) refl,
            )
          ]
        ]
      ]
    ]

    -- A transaction that is applied without an error leaves memory and disk in agreement on every
    -- account, when they agreed before it.
    pub apply_transaction_atomic-IsPersisted :
        (s : State L J) (tx : Transaction)
        → IsPersisted L J s
        → (apply s tx).1 ≡ none
        → IsPersisted L J (apply s tx).0
    unfolding batch_update_accounts_atomic settle credit debit
    apply_transaction_atomic-IsPersisted s tx i h = elim (apply_transaction_atomic-cases s tx) [
      | inl (e, refused) ↦ cc (rw refused at h)
      | inr (p, q, allowed, settles) ↦ rw settles (
          batch_update_accounts_atomic-IsPersisted L J (moved L J s tx p q) (p ∷ q ∷ [])
            (moved-IsSaved L J s tx p q i) (rw settles at h))
    ]

    -- A transaction that is applied without an error was covered and had the sender's nonce; the
    -- balances of two different accounts keep their sum, the sender's nonce is one more (wrapping),
    -- and no other account changes.
    pub apply_transaction_atomic-transfers :
        (s : State L J) (tx : Transaction)
        → (apply s tx).1 ≡ none
        → let s' = (apply s tx).0 in
          (p : ℕ) × (q : ℕ) × IsAllowed s tx p q × IsTransfer L J s tx p q s'.account_at
    apply_transaction_atomic-transfers s tx h = elim (apply_transaction_atomic-cases s tx) [
      | inl (e, refused) ↦ cc (rw refused at h)
      | inr (p, q, allowed, settles) ↦
          let after : (apply s tx).0.account_at ≡ (moved L J s tx p q).account_at =
            rw settles (settle-account_at L J (moved L J s tx p q) p q) in
          (
            p,
            q,
            allowed,
            subst (IsTransfer L J s tx p q) (sym after) (moved-IsTransfer L J s tx p q),
          )
    ]

    -- An error either left the state as it was, or the record could not be marshalled or written:
    -- then the maps of the state are as before, but the accounts they point to have been debited and
    -- credited.
    pub apply_transaction_atomic_failed :
        (s : State L J) (tx : Transaction) (e : StateError)
        → (apply s tx).1 ≡ some e
        → let s' = (apply s tx).0 in
          (s' ≡ s)
          ⊎ ((p : ℕ) × (q : ℕ) × IsAllowed s tx p q
              × ((e ≡ marshal_failed) ⊎ (e ≡ write_failed))
              × SameMaps L J s s'
              × (s'.account_at ≡ (moved L J s tx p q).account_at))
    unfolding credit debit
    apply_transaction_atomic_failed s tx e h = elim (apply_transaction_atomic-cases s tx) [
      | inl (e', refused) ↦ inl (rw refused refl)
      | inr (p, q, allowed, settles) ↦
          let (why, same) = settle_failed L J (moved L J s tx p q) p q e (rw settles at h) in
          inr (
            p,
            q,
            allowed,
            why,
            rw settles same,
            rw settles (settle-account_at L J (moved L J s tx p q) p q),
          )
    ]
