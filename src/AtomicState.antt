-- ===== src/AtomicState.antt =====
-- rnr/pkg/blockchain/atomic_state.go: batches of state changes that are written as a whole.
-- blockchain.State, whose source is not in the repository, is modelled by the three fields that this
-- file uses. Its maps hold pointers: `account_at` and `validator_at` are what the pointers point to,
-- so that a change made through one pointer is seen wherever the pointer is. GetAccount is the
-- parameter `get_account`.
pub mod Staging
pub mod Commit
pub mod Settle
pub mod Transfer
use route_n_root.Prelude.{
  ℕ, ◌+◌, Bool, Option, none, some, List, [], ◌∷◌, ◌++◌, Bytes, Map, insert, bytes_key,
  if◌then◌else◌, ◌==◌,
}
use route_n_root.Prelude.Int.{ltb_ℤ, ◌+ℤ◌, ◌-ℤ◌}
use route_n_root.Prelude.Text.{codes}
use route_n_root.Core.{Transaction, Account, ValidatorInfo, u64}
use route_n_root.Platform.{BatchDb, StateJson}

pub data StateError : Type 0 where
  no_sender insufficient_balance invalid_nonce no_recipient : StateError
  marshal_failed write_failed : StateError

-- StateTransaction; the state it belongs to is an argument of its methods.
pub record StateTransaction : Type 0 where
  pub batch : List (Bytes × Bytes)
  pub account_cache : Map Bytes ℕ
  pub validator_cache : Map Bytes ℕ

unfoldable pub account_key : Bytes → Bytes
account_key address = codes "account_" ++ address

unfoldable pub validator_key : Bytes → Bytes
validator_key id = codes "validator_" ++ id

unfoldable pub begin_transaction : StateTransaction
begin_transaction = record { batch = []; account_cache = []; validator_cache = [] }

-- Rollback leaves a transaction as it began.
unfoldable pub rollback : StateTransaction → StateTransaction
rollback tx = record tx { batch = []; account_cache = []; validator_cache = [] }

-- `for addr, account := range cache { accounts[addr] = account }`
unfoldable pub insert_all : Map Bytes ℕ → Map Bytes ℕ → Map Bytes ℕ
insert_all [] m = m
insert_all ((k, p) ∷ cache) m = insert_all cache (insert k p m)

-- What the pointers point to after `*p = x`.
unfoldable pub assign {ℓ} : {A : Type ℓ} → ℕ → A → (ℕ → A) → ℕ → A
assign p x objects q = if q == p then x else objects q

module _ (L : BatchDb) (J : StateJson) where
  pub record State : Type 0 where
    pub db : L.Db
    pub accounts : Map Bytes ℕ
    pub validators : Map Bytes ℕ
    pub account_at : ℕ → Account
    pub validator_at : ℕ → ValidatorInfo

  unfoldable pub update_account_atomic :
      State → StateTransaction → (account : ℕ) → StateTransaction × Option StateError
  update_account_atomic s tx p = elim (J.marshal_account (s.account_at p)) [
    | none ↦ (tx, some marshal_failed)
    | some bytes ↦ (
      record tx {
        batch = tx.batch ++ (account_key (s.account_at p).address, bytes) ∷ [];
        account_cache = insert (s.account_at p).address p tx.account_cache;
      },
      none,
    )
  ]

  unfoldable pub update_validator_atomic :
      State → StateTransaction → (validator : ℕ) → StateTransaction × Option StateError
  update_validator_atomic s tx p = elim (J.marshal_validator (s.validator_at p)) [
    | none ↦ (tx, some marshal_failed)
    | some bytes ↦ (
      record tx {
        batch = tx.batch ++ (validator_key (s.validator_at p).id, bytes) ∷ [];
        validator_cache = insert (s.validator_at p).id p tx.validator_cache;
      },
      none,
    )
  ]

  unfoldable pub commit : State → StateTransaction → State × Option StateError
  unfolding insert_all
  commit s tx =
      let (d, written) = L.write tx.batch s.db in
      if written
      then (
        record s {
          db = d;
          accounts = insert_all tx.account_cache s.accounts;
          validators = insert_all tx.validator_cache s.validators;
        },
        none,
      )
      else (record s { db = d }, some write_failed)

  -- The loops of the two batch updates, from the transaction staged so far.
  unfoldable pub stage_accounts :
      State → List ℕ → StateTransaction → StateTransaction × Option StateError
  stage_accounts s [] tx = (tx, none)
  stage_accounts s (p ∷ ps) tx =
      let (tx', result) = update_account_atomic s tx p in
      elim result [ none ↦ stage_accounts s ps tx' | some e ↦ (rollback tx', some e) ]

  unfoldable pub stage_validators :
      State → List ℕ → StateTransaction → StateTransaction × Option StateError
  stage_validators s [] tx = (tx, none)
  stage_validators s (p ∷ ps) tx =
      let (tx', result) = update_validator_atomic s tx p in
      elim result [ none ↦ stage_validators s ps tx' | some e ↦ (rollback tx', some e) ]

  unfoldable pub batch_update_accounts_atomic : State → List ℕ → State × Option StateError
  unfolding stage_accounts
  batch_update_accounts_atomic s ps =
      let (tx, result) = stage_accounts s ps begin_transaction in
      elim result [ none ↦ commit s tx | some e ↦ (s, some e) ]

  unfoldable pub batch_update_validators_atomic : State → List ℕ → State × Option StateError
  unfolding stage_validators
  batch_update_validators_atomic s ps =
      let (tx, result) = stage_validators s ps begin_transaction in
      elim result [ none ↦ commit s tx | some e ↦ (s, some e) ]

  -- The assignments of ApplyTransactionAtomic: the debit, then the credit, each through its pointer.
  unfoldable pub debit : State → Transaction → (sender : ℕ) → State
  debit s tx p =
      let a = s.account_at p in
      record s {
        account_at =
            assign p (record a { balance = a.balance -ℤ tx.amount; nonce = u64 (a.nonce + 1) })
              s.account_at;
      }

  unfoldable pub credit : State → Transaction → (recipient : ℕ) → State
  credit s tx q =
      let a = s.account_at q in
      record s {
        account_at = assign q (record a { balance = a.balance +ℤ tx.amount }) s.account_at;
      }

  -- The end of ApplyTransactionAtomic: both accounts are staged and the transaction is committed.
  -- Each Rollback clears a transaction that is not used again.
  unfoldable pub settle : State → (sender recipient : ℕ) → State × Option StateError
  unfolding stage_accounts
  settle s p q =
      let (tx, result) = stage_accounts s (p ∷ q ∷ []) begin_transaction in
      elim result [ none ↦ commit s tx | some e ↦ (s, some e) ]

  module _ (get_account : State → Bytes → Option ℕ) where
    unfoldable pub apply_transaction_atomic : State → Transaction → State × Option StateError
    apply_transaction_atomic s tx = elim (get_account s tx.from) [
      | none ↦ (s, some no_sender)
      | some p ↦
          if ltb_ℤ (s.account_at p).balance tx.amount
          then (s, some insufficient_balance)
          else if (s.account_at p).nonce == tx.nonce
          then (elim (get_account s tx.to) [
            | none ↦ (s, some no_recipient)
            | some q ↦ settle (credit (debit s tx p) tx q) p q
          ])
          else (s, some invalid_nonce)
    ]
