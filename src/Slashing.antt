-- ===== src/Slashing.antt =====
-- rnr/pkg/consensus/slashing.go: violations of validators suspend them for a time.
-- The manager holds its registry, its database, the events and the votes seen at each height.
pub mod Tracker
pub mod DoubleVote
pub mod Expiry
pub mod Restart
use route_n_root.Prelude.{
  ℕ, ◌+◌, ◌-◌, ◌*◌, ◌≡◌, Bool, true, false, ◌&&◌, Option, none, some, List, [], ◌∷◌, ◌++◌, Bytes,
  bytes_equal, Map, lookup, insert, select, take, length, bytes_key, nat_key, if◌then◌else◌, ltb,
}
use route_n_root.Prelude.Text.{codes, decimal}
use route_n_root.Core.{ValidatorInfo, hour}
use route_n_root.Platform.{LevelDb}
use route_n_root.Registry.{ValidatorState, ValidatorRegistry, RegistryError}
use route_n_root.Registry.Exits.{suspend_validator, clear_suspension}
use route_n_root.Registry.Queries.{get_all_validators}

pub data SlashingReason : Type 0 where
  double_voting downtime invalid_block invalid_vote malicious_behavior : SlashingReason

-- The text of a reason.
unfoldable pub reason_text : SlashingReason → Bytes
reason_text double_voting = codes "double_voting"
reason_text downtime = codes "downtime"
reason_text invalid_block = codes "invalid_block"
reason_text invalid_vote = codes "invalid_vote"
reason_text malicious_behavior = codes "malicious_behavior"

-- The table of initializeSuspensionDurations, which has every reason.
unfoldable pub suspension_duration : SlashingReason → ℕ
suspension_duration double_voting = 24 * hour
suspension_duration downtime = 6 * hour
suspension_duration invalid_block = 24 * hour
suspension_duration invalid_vote = 1 * hour
suspension_duration malicious_behavior = 24 * hour

pub record SlashingEvent : Type 0 where
  pub validator_id : Bytes
  pub reason : SlashingReason
  pub suspension_duration : ℕ
  pub suspension_end_time : ℕ
  pub evidence : Bytes
  pub timestamp : ℕ
  pub block_height : ℕ

-- encoding/json on events, and the text of a time.
pub record EventJson : Type 0 where
  pub marshal_event : SlashingEvent → Option Bytes
  pub unmarshal_event : Bytes → Option SlashingEvent
  pub unmarshal-marshal :
      (e : SlashingEvent) (bytes : Bytes)
      → marshal_event e ≡ some bytes
      → unmarshal_event bytes ≡ some e
  pub time_text : ℕ → Bytes

pub data SlashError : Type 0 where
  suspend_failed : (reason : RegistryError) → SlashError
  marshal_failed put_failed : SlashError

-- fmt.Sprintf("slashing_%s_%d", validatorID, blockHeight)
unfoldable pub slashing_key : Bytes → ℕ → Bytes
slashing_key id height = codes "slashing_" ++ id ++ codes "_" ++ decimal height

-- The test of loadSlashingEvents: `len(key) > 8 && key[:8] == "slashing_"`.
unfoldable pub is_slashing_key : Bytes → Bool
is_slashing_key key = ltb 8 (length key) && bytes_equal (take 8 key) (codes "slashing_")

-- The votes of a validator by height; none if it has not voted yet.
unfoldable pub votes_of : Map Bytes (Map ℕ Bytes) → Bytes → Map ℕ Bytes
votes_of tracker id = elim (lookup id tracker) [ none ↦ [] | some votes ↦ votes ]

module _ (V : ValidatorState) where
  -- The loop of CheckAndClearExpiredSuspensions over the validators as they were read.
  unfoldable pub clear_expired :
      (now : ℕ) → List ValidatorInfo → ValidatorRegistry V → ℕ → ValidatorRegistry V × ℕ
  clear_expired now [] vr cleared = (vr, cleared)
  clear_expired now (v ∷ validators) vr cleared =
      let (vr', failure) = clear_suspension V vr v.id in
      let after : ValidatorRegistry V × ℕ = elim failure [
        | none ↦ clear_expired now validators vr' (cleared + 1)
        | some _ ↦ clear_expired now validators vr' cleared
      ] in
      let skipped = clear_expired now validators vr cleared in
      if v.is_suspended && ltb v.suspension_end_time now then after else skipped

module _ (V : ValidatorState) (L : LevelDb) (J : EventJson) where
  pub record SlashingManager : Type 0 where
    pub db : L.Db
    pub registry : ValidatorRegistry V
    pub events : List SlashingEvent
    pub double_vote_tracker : Map Bytes (Map ℕ Bytes)

  -- The loop of loadSlashingEvents over the entries of the database.
  unfoldable pub load_slashing_events : List (Bytes × Bytes) → SlashingManager → SlashingManager
  unfolding is_slashing_key
  load_slashing_events [] sm = sm
  load_slashing_events ((key, value) ∷ entries) sm =
      let skipped = load_slashing_events entries sm in
      let loaded : SlashingManager = elim (J.unmarshal_event value) [
        | none ↦ skipped
        | some event ↦ load_slashing_events entries (record sm { events = sm.events ++ event ∷ [] })
      ] in
      if is_slashing_key key then loaded else skipped

  -- NewSlashingManager, on a database with the given entries.
  unfoldable pub new_slashing_manager :
      L.Db → (entries : List (Bytes × Bytes)) → ValidatorRegistry V → SlashingManager
  unfolding load_slashing_events
  new_slashing_manager d entries registry =
      load_slashing_events entries
        (record { db = d; registry = registry; events = []; double_vote_tracker = [] })

  unfoldable pub slash_validator :
      SlashingManager
      → (now : ℕ) (id : Bytes) → SlashingReason
      → (evidence : Bytes) (height : ℕ) → SlashingManager × Option SlashError
  unfolding suspension_duration reason_text slashing_key
  slash_validator sm now id reason evidence height =
      let duration = suspension_duration reason in
      let (registry', failure) =
        suspend_validator V sm.registry id (now + duration) (reason_text reason) in
      let event : SlashingEvent = record {
        validator_id = id;
        reason = reason;
        suspension_duration = duration;
        suspension_end_time = now + duration;
        evidence = evidence;
        timestamp = now;
        block_height = height;
      } in
      let sm' = record sm { registry = registry'; events = sm.events ++ event ∷ [] } in
      elim failure [
        | some e ↦ (record sm { registry = registry' }, some (suspend_failed e))
        | none ↦ elim (J.marshal_event event) [
          | none ↦ (sm', some marshal_failed)
          | some bytes ↦
              let (d, stored) = L.put (slashing_key id height) bytes sm.db in
              (record sm' { db = d }, if stored then none else some put_failed)
        ]
      ]

  unfoldable pub detect_double_voting :
      SlashingManager
      → (now : ℕ) (id : Bytes) (height : ℕ) (block_hash : Bytes)
      → SlashingManager × Option SlashError
  unfolding votes_of slash_validator
  detect_double_voting sm now id height hash =
      let votes = votes_of sm.double_vote_tracker id in
      let known = record sm { double_vote_tracker = insert id votes sm.double_vote_tracker } in
      elim (lookup height votes) [
        | some previous ↦
            if bytes_equal previous hash
            then (known, none)
            else slash_validator known now id double_voting (previous ++ hash) height
        | none ↦ (
          record sm {
            double_vote_tracker = insert id (insert height hash votes) sm.double_vote_tracker;
          },
          none,
        )
      ]

  unfoldable pub check_downtime :
      SlashingManager
      → (now : ℕ) (id : Bytes) (last_seen height : ℕ) → SlashingManager × Option SlashError
  unfolding slash_validator
  check_downtime sm now id last_seen height =
      if ltb (1 * hour) (now - last_seen)
      then slash_validator sm now id downtime (codes "Last seen: " ++ J.time_text last_seen) height
      else (sm, none)

  unfoldable pub slash_for_invalid_block :
      SlashingManager
      → (now : ℕ) (id evidence : Bytes) (height : ℕ) → SlashingManager × Option SlashError
  unfolding slash_validator
  slash_for_invalid_block sm now id evidence height =
      slash_validator sm now id invalid_block evidence height

  unfoldable pub get_slashing_history : SlashingManager → Bytes → List SlashingEvent
  get_slashing_history sm id = select (λ event. bytes_equal event.validator_id id) sm.events

  unfoldable pub check_and_clear_expired_suspensions :
      SlashingManager → (now : ℕ) → SlashingManager × ℕ
  unfolding clear_expired
  check_and_clear_expired_suspensions sm now =
      let (registry', cleared) =
        clear_expired V now (get_all_validators V sm.registry) sm.registry 0 in
      (record sm { registry = registry' }, cleared)

  unfoldable pub cleanup_old_tracking : SlashingManager → (now max_age : ℕ) → SlashingManager
  cleanup_old_tracking sm now max_age = record sm {
    events = select (λ event. ltb now (event.timestamp + max_age)) sm.events;
  }
