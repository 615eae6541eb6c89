-- ===== src/Registry.antt =====
-- rnr/pkg/consensus/validator_registry.go: validators register as observers, become active, exit.
-- blockchain.State, whose source is not in the repository, is the interface ValidatorState.
-- The observer's time and the entry fee are exact fractions in place of float64 values.
pub mod Exits
pub mod Queries
pub mod Updates
pub mod Duration
pub mod Activation
pub mod Turning
pub mod Steps
pub mod Moves
pub mod Writes
pub mod Lifecycle
pub mod Observation
pub mod Fees
use route_n_root.Prelude.{
  ℕ, ◌+◌, ◌-◌, ◌*◌, ◌/◌, ◌≡◌, Bool, true, false, ◌&&◌, not, Option, none, some, List, [], ◌∷◌,
  Bytes, bytes_equal, Map, lookup, insert, keep, bytes_key, if◌then◌else◌, ltb, leb, length,
}
use route_n_root.Prelude.Int.{ℤ, pos, ◌-ℤ◌, ltb_ℤ}
use route_n_root.Prelude.Text.{codes}
use route_n_root.Prelude.Result.{Result, or_err}
use route_n_root.Core.{Account, ValidatorInfo, second, hour}

pub data ValidatorStatus : Type 0 where
  pending active inactive slashed exiting : ValidatorStatus

pub record ValidatorRegistration : Type 0 where
  pub validator_id : Bytes
  pub public_key : Bytes
  pub status : ValidatorStatus
  pub registration_time : ℕ
  pub observer_start_time : ℕ
  pub activation_time : ℕ
  pub exit_time : ℕ
  pub reward_address : Bytes

pub record RegistrationTx : Type 0 where
  pub validator_id : Bytes
  pub public_key : Bytes
  pub reward_address : Bytes
  pub signature : Bytes

-- What the registry asks of blockchain.State: accounts and validators kept by address and by ID.
pub record ValidatorState : Type 1 where
  pub State : Type 0
  pub get_validator : Bytes → State → Option ValidatorInfo
  pub update_validator : ValidatorInfo → State → State
  pub get_active_validators : State → List Bytes
  pub get_account : Bytes → State → Option Account
  pub update_account : Account → State → State
  pub validator_named :
      (id : Bytes) (s : State) (v : ValidatorInfo) → get_validator id s ≡ some v → v.id ≡ id
  pub get_validator-update :
      (v : ValidatorInfo) (id : Bytes) (s : State)
      → get_validator id (update_validator v s)
        ≡ (if bytes_equal v.id id then some v else get_validator id s)
  pub get_validator-update_account :
      (a : Account) (id : Bytes) (s : State)
      → get_validator id (update_account a s) ≡ get_validator id s
  pub get_account-update_validator :
      (v : ValidatorInfo) (address : Bytes) (s : State)
      → get_account address (update_validator v s) ≡ get_account address s
  pub account_named :
      (address : Bytes) (s : State) (a : Account)
      → get_account address s ≡ some a
      → a.address ≡ address
  pub get_account-update :
      (a : Account) (address : Bytes) (s : State)
      → get_account address (update_account a s)
        ≡ (if bytes_equal a.address address then some a else get_account address s)

-- `panicked` stands for the run-time panic of slicing an ID that is too short.
pub data RegistryError : Type 0 where
  already_registered insufficient_balance not_found not_active panicked : RegistryError

unfoldable pub is_pending : ValidatorStatus → Bool
is_pending pending = true
is_pending _ = false

unfoldable pub is_active_status : ValidatorStatus → Bool
is_active_status active = true
is_active_status _ = false

unfoldable pub is_exiting : ValidatorStatus → Bool
is_exiting exiting = true
is_exiting _ = false

unfoldable pub calculate_observer_duration : (active_validator_count : ℕ) → ℕ
calculate_observer_duration n =
    if ltb n 100
    then 6 * hour
    else if leb 1000 n
    then 24 * hour
    else 6 * hour + (n - 100) * (18 * hour) / 900

-- 7 MB/s for the observer's time, with eight decimals.
unfoldable pub calculate_dynamic_entry_fee : (observer_duration : ℕ) → ℤ
calculate_dynamic_entry_fee d = pos (7 * d * 100_000_000 / second)

-- core.MinPoBScore, 0.85. A float64 value is its bit pattern.
unfoldable pub min_pob_score : ℕ
min_pob_score = 0x3feb333333333333

-- `score >= core.MinPoBScore`. The bit patterns from 0.85 to +Inf are in the order of the values; the
-- larger patterns are those of the positive NaN and of the negative values, which are refused.
unfoldable pub meets_min_score : (score : ℕ) → Bool
unfolding min_pob_score
meets_min_score score = leb min_pob_score score && leb score 0x7ff0000000000000

unfoldable pub new_registration : (now : ℕ) → RegistrationTx → ValidatorRegistration
new_registration now tx = record {
  validator_id = tx.validator_id;
  public_key = tx.public_key;
  status = pending;
  registration_time = now;
  observer_start_time = now;
  activation_time = 0;
  exit_time = 0;
  reward_address = tx.reward_address;
}

unfoldable pub new_validator_info : (now duration : ℕ) → RegistrationTx → ValidatorInfo
new_validator_info now duration tx = record {
  id = tx.validator_id;
  public_key = tx.public_key;
  vrf_public_key = [];
  pob_score = 0;
  upload_bandwidth = 0;
  latency = 0;
  packet_loss = 0;
  reputation = pos 100;
  last_pob_test = 0;
  is_active = false;
  reward_address = tx.reward_address;
  network_asn = codes "unknown";
  ip_address = [];
  is_suspended = false;
  suspension_end_time = 0;
  suspension_reason = [];
  is_observer = true;
  observer_start_time = now;
  observer_duration = duration;
}

-- The observer's time is over and its score is high enough.
unfoldable pub is_ready : (now : ℕ) → ValidatorInfo → Bool
unfolding meets_min_score
is_ready now info =
    info.is_observer
    && leb (info.observer_start_time + info.observer_duration) now
    && meets_min_score info.pob_score

unfoldable pub promote : ValidatorInfo → ValidatorInfo
promote info = record info { is_active = true; is_observer = false }

module _ (V : ValidatorState) where
  pub record ValidatorRegistry : Type 0 where
    pub state : V.State
    pub validators : Map Bytes ValidatorRegistration
    pub activation_delay : ℕ
    pub exit_delay : ℕ

  unfoldable pub new_validator_registry : V.State → ValidatorRegistry
  new_validator_registry s = record {
    state = s;
    validators = [];
    activation_delay = 10 * second;
    exit_delay = 200 * second;
  }

  -- The second half of RegisterValidator, after the fee.
  unfoldable pub admit : (now duration : ℕ) → RegistrationTx → ValidatorRegistry → ValidatorRegistry
  unfolding new_registration new_validator_info
  admit now duration tx vr = record vr {
    validators = insert tx.validator_id (new_registration now tx) vr.validators;
    state = V.update_validator (new_validator_info now duration tx) vr.state;
  }

  -- The log line of the fee slices the ID, after the fee is deducted.
  unfoldable pub register_validator :
      ValidatorRegistry → (now : ℕ) → RegistrationTx → ValidatorRegistry × Option RegistryError
  unfolding admit calculate_observer_duration calculate_dynamic_entry_fee
  register_validator vr now tx = elim (lookup tx.validator_id vr.validators) [
    | some _ ↦ (vr, some already_registered)
    | none ↦
        let duration = calculate_observer_duration (length (V.get_active_validators vr.state)) in
        let fee = calculate_dynamic_entry_fee duration in
        elim (V.get_account tx.validator_id vr.state) [
          | none ↦ (admit now duration tx vr, none)
          | some account ↦
              let paid = record vr {
                state =
                    V.update_account (record account { balance = account.balance -ℤ fee }) vr.state;
              } in
              if ltb_ℤ account.balance fee
              then (vr, some insufficient_balance)
              else if ltb (length tx.validator_id) 12
              then (paid, some panicked)
              else (admit now duration tx paid, none)
        ]
  ]

  -- The loop of ActivatePendingValidators over the entries that are left.
  unfoldable pub activate_entries :
      (now : ℕ)
      → Map Bytes ValidatorRegistration
      → V.State
      → Map Bytes ValidatorRegistration × V.State
  unfolding is_pending is_ready promote
  activate_entries now [] s = ([], s)
  activate_entries now ((id, r) ∷ rest) s =
      let (kept, s_kept) = activate_entries now rest s in
      let stays : Map Bytes ValidatorRegistration × V.State = ((id, r) ∷ kept, s_kept) in
      let by_info : Map Bytes ValidatorRegistration × V.State = elim (V.get_validator id s) [
        | none ↦ stays
        | some info ↦
            let (done, s_done) = activate_entries now rest (V.update_validator (promote info) s) in
            if is_ready now info
            then ((id, record r { status = active; activation_time = now }) ∷ done, s_done)
            else stays
      ] in
      if is_pending r.status then by_info else stays

  unfoldable pub activate_pending_validators : ValidatorRegistry → (now : ℕ) → ValidatorRegistry
  unfolding activate_entries
  activate_pending_validators vr now =
      let (validators', s) = activate_entries now vr.validators vr.state in
      record vr { validators = validators'; state = s }
