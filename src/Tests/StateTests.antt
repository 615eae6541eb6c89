-- ===== src/Tests/StateTests.antt =====
-- Tests of the atomic state and of the pruner.
use route_n_root.Prelude.{
  ℕ, ◌≡◌, ◌⊎◌, inl, refl, true, false, zero, suc, ◌==◌, Option, none, some, [], ◌∷◌, Bytes, count,
  lookup, bytes_key, arith,
}
use route_n_root.Prelude.Int.{pos}
use route_n_root.Prelude.Text.{decimal, parse_uint, trim_prefix, has_prefix}
use route_n_root.Core.{Account, ValidatorInfo}
use route_n_root.Platform.{BatchDb}
use route_n_root.Chain.{block_key}
use route_n_root.AtomicState.{
  State, marshal_failed, write_failed, apply_transaction_atomic, debit, credit, settle,
  stage_accounts, update_account_atomic, commit, begin_transaction,
}
use route_n_root.AtomicState.Commit.{IsPersisted}
use route_n_root.AtomicState.Settle.{IsTransfer, SameMaps, moved}
use route_n_root.AtomicState.Transfer.{
  IsAllowed, apply_transaction_atomic-IsPersisted, apply_transaction_atomic-transfers,
  apply_transaction_atomic_failed,
}
use route_n_root.Pruner.{
  StatePruner, block_prefix, prune_keys, with_iterator_error, prune_old_blocks, perform_maintenance,
}
use route_n_root.Pruner.Range.{is_old, perform_maintenance-keeps}
use route_n_root.Pruner.Deletion.{prune_old_blocks-deletes}
use route_n_root.Tests.Fixtures.{alice, bob, payment}
use route_n_root.Tests.Instances.{memory_batches, memory_scan, account_json}

abbrev empty_account : Bytes → Account
empty_account address = record { address = address; balance = pos 0; nonce = 0; code_hash = [] }

abbrev blank_validator : ValidatorInfo
blank_validator = record {
  id = [];
  public_key = [];
  vrf_public_key = [];
  pob_score = 0;
  upload_bandwidth = 0;
  latency = 0;
  packet_loss = 0;
  reputation = pos 0;
  last_pob_test = 0;
  is_active = false;
  reward_address = [];
  network_asn = [];
  ip_address = [];
  is_suspended = false;
  suspension_end_time = 0;
  suspension_reason = [];
  is_observer = false;
  observer_start_time = 0;
  observer_duration = 0;
}

-- No account is in memory yet; pointer 0 is for alice, who has 9, and pointer 1 for bob.
abbrev fresh : State memory_batches account_json
fresh = record {
  db = [];
  accounts = [];
  validators = [];
  account_at = λ p. elim p [
    | zero ↦ record (empty_account alice) { balance = pos 9 }
    | suc _ ↦ empty_account bob
  ];
  validator_at = λ p. blank_validator;
}

abbrev pointer_of : {L : BatchDb} → State L account_json → Bytes → Option ℕ
pointer_of s address = elim address [
  | [] ↦ none
  | x ∷ _ ↦ elim (x == 97) [ true ↦ some 0 | false ↦ some 1 ]
]

fresh-paid :
    (apply_transaction_atomic memory_batches account_json pointer_of fresh payment).1 ≡ none
unfolding apply_transaction_atomic settle stage_accounts update_account_atomic commit debit credit
    begin_transaction
fresh-paid = refl

apply_transaction_atomic-IsPersisted_example :
    IsPersisted memory_batches account_json
      (apply_transaction_atomic memory_batches account_json pointer_of fresh payment).0
unfolding lookup
apply_transaction_atomic-IsPersisted_example =
    apply_transaction_atomic-IsPersisted memory_batches account_json pointer_of fresh payment
      (λ address p h. cc) fresh-paid

apply_transaction_atomic-transfers_example :
    (p : ℕ) × (q : ℕ) × IsAllowed memory_batches account_json pointer_of fresh payment p q
    × IsTransfer memory_batches account_json fresh payment p q
        (apply_transaction_atomic memory_batches account_json pointer_of fresh payment).0.account_at
apply_transaction_atomic-transfers_example =
    apply_transaction_atomic-transfers memory_batches account_json pointer_of fresh payment
      fresh-paid

-- A store whose writes fail.
abbrev broken_batches : BatchDb
broken_batches = record {
  Db = Unit;
  get = λ j d. none;
  write = λ batch d. (d, false);
  get-write = λ batch d h. cc;
  get-write_failed = λ batch d h. inl (λ j. refl);
}

abbrev unsaved : State broken_batches account_json
unsaved = record {
  db = tt;
  accounts = (alice, 0) ∷ [];
  validators = [];
  account_at = fresh.account_at;
  validator_at = fresh.validator_at;
}

unsaved-fails :
    (apply_transaction_atomic broken_batches account_json pointer_of unsaved payment).1
    ≡ some write_failed
unfolding apply_transaction_atomic settle stage_accounts update_account_atomic commit debit credit
    begin_transaction
unsaved-fails = refl

apply_transaction_atomic_failed_example :
    let s' = (apply_transaction_atomic broken_batches account_json pointer_of unsaved payment).0 in
    (s' ≡ unsaved)
    ⊎ ((p : ℕ) × (q : ℕ) × IsAllowed broken_batches account_json pointer_of unsaved payment p q
        × ((write_failed ≡ marshal_failed) ⊎ (write_failed ≡ write_failed))
        × SameMaps broken_batches account_json unsaved s'
        × (s'.account_at ≡ (moved broken_batches account_json unsaved payment p q).account_at))
apply_transaction_atomic_failed_example =
    apply_transaction_atomic_failed broken_batches account_json pointer_of unsaved payment
      write_failed unsaved-fails

-- Blocks 3 and 12, and a key that names no height.
abbrev old_blocks : StatePruner memory_scan
old_blocks = record {
  db = (block_key 3, 1 ∷ []) ∷ (block_key 12, 2 ∷ []) ∷ (block_prefix, 3 ∷ []) ∷ [];
  retention_blocks = 5;
  retention_time = 0;
}

perform_maintenance-keeps_example :
    lookup (block_key 12) (perform_maintenance memory_scan 15 old_blocks).0.db
    ≡ lookup (block_key 12) old_blocks.db
perform_maintenance-keeps_example =
    perform_maintenance-keeps memory_scan 15 old_blocks 12 (omega arith) (omega arith)

pruned-fine : (prune_old_blocks memory_scan 15 old_blocks).1.error ≡ none
unfolding prune_old_blocks prune_keys with_iterator_error parse_uint trim_prefix has_prefix
    block_key decimal
pruned-fine = refl

prune_old_blocks-deletes_example :
    ((prune_old_blocks memory_scan 15 old_blocks).1.pruned_count
      ≡ count (is_old 10) (memory_scan.keys block_prefix old_blocks.db))
    × (lookup (block_key 3) (prune_old_blocks memory_scan 15 old_blocks).0.db ≡ none)
prune_old_blocks-deletes_example =
    prune_old_blocks-deletes memory_scan 15 old_blocks 3 (omega arith) pruned-fine (omega arith)
      (omega arith)
