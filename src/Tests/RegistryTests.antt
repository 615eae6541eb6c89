-- ===== src/Tests/RegistryTests.antt =====
-- Tests of the validator registry and of slashing.
use route_n_root.Prelude.{
  ℕ, ◌+◌, ◌*◌, ◌≡◌, ◌≢◌, ◌⊎◌, refl, true, none, some, List, [], ◌∷◌, ◌++◌, lookup, insert, is_some,
  if◌then◌else◌, bytes_key, nat_key,
}
use route_n_root.Core.{ValidatorInfo, hour}
use route_n_root.Registry.{
  ValidatorRegistry, RegistrationTx, RegistryError, panicked, new_validator_registry,
  new_registration, register_validator, calculate_observer_duration, admit,
  activate_pending_validators, activate_entries, is_pending, is_ready, min_pob_score,
  meets_min_score, promote, active, exiting, new_validator_info,
}
use route_n_root.Registry.Activation.{observed}
use route_n_root.Registry.Lifecycle
use route_n_root.Registry.Lifecycle.{apply-Moves}
use route_n_root.Registry.Steps.{Call, register, activate, process, measure}
use route_n_root.Registry.Moves.{Moves}
use route_n_root.Registry.Updates.{record_pob_score, update_known, with_score}
use route_n_root.Registry.Observation
use route_n_root.Registry.Observation.{Waited, run-Waited}
use route_n_root.Registry.Fees.{HasPaid, register_validator-outcome}
use route_n_root.Slashing.{
  EventJson, SlashingManager, double_voting, new_slashing_manager, detect_double_voting, votes_of,
  check_and_clear_expired_suspensions, check_downtime,
}
use route_n_root.Slashing.DoubleVote
use route_n_root.Slashing.DoubleVote.{silent, suspended, event_of, detect_double_voting-suspends}
use route_n_root.Slashing.Expiry.{freed?, check_and_clear_expired_suspensions_lem}
use route_n_root.Slashing.Restart.{new_slashing_manager-forgets}
use route_n_root.Tests.Fixtures.{memory_db, alice, bob}
use route_n_root.Tests.Instances.{MemoryState, memory_state, no_state}

abbrev join : RegistrationTx
join = record { validator_id = alice; public_key = []; reward_address = bob; signature = [] }

abbrev registry : ValidatorRegistry memory_state
registry = new_validator_registry memory_state no_state

abbrev joined : ValidatorRegistry memory_state
joined = (register_validator memory_state registry hour join).0

register_validator-outcome_example :
    let (vr', result) = register_validator memory_state registry hour join in
    ((e : RegistryError) × (result ≡ some e) × (e ≢ panicked) × (vr' ≡ registry))
    ⊎ ((result ≡ some panicked)
        × (lookup alice vr'.validators ≡ none)
        × HasPaid memory_state registry vr' alice)
    ⊎ ((result ≡ none)
        × (lookup alice registry.validators ≡ none)
        × (lookup alice vr'.validators ≡ some (new_registration hour join))
        × ((memory_state.get_account alice registry.state ≡ none)
            ⊎ HasPaid memory_state registry vr' alice))
register_validator-outcome_example = register_validator-outcome memory_state registry hour join

-- alice was active and asked to exit.
abbrev leaving : ValidatorRegistry memory_state
leaving = record registry {
  validators =
      (alice, record (new_registration hour join) { status = exiting; exit_time = 9 * hour }) ∷ [];
}

apply-Moves_example :
    Moves memory_state
      (10 * hour)
      process
      leaving
      (Lifecycle.apply memory_state leaving (10 * hour) process)
unfolding lookup
apply-Moves_example = apply-Moves memory_state (10 * hour) leaving process (refl, tt)

-- alice joins, passes a bandwidth test, and is activated.
abbrev calls : List (ℕ × Call)
calls =
    (hour, register join) ∷ (7 * hour, measure alice 0x3fef5c28f5c28f5c) ∷ (8 * hour, activate) ∷ []

abbrev after_calls : ValidatorRegistry memory_state
after_calls = Observation.run memory_state registry calls

alice-active :
    lookup alice after_calls.validators
    ≡ some (record (new_registration hour join) { status = active; activation_time = 8 * hour })
unfolding new_validator_registry Observation.run Lifecycle.apply register_validator admit lookup
    activate_pending_validators activate_entries is_pending is_ready promote meets_min_score
    new_registration new_validator_info calculate_observer_duration min_pob_score insert
    record_pob_score update_known with_score
alice-active = refl

run-Waited_example :
    Waited
      (observed memory_state after_calls.state alice)
      (record (new_registration hour join) { status = active; activation_time = 8 * hour })
run-Waited_example =
    run-Waited memory_state no_state calls alice
      (record (new_registration hour join) { status = active; activation_time = 8 * hour })
      alice-active

abbrev no_json : EventJson
no_json = record {
  marshal_event = λ e. none;
  unmarshal_event = λ b. none;
  unmarshal-marshal = λ e bytes h. cc;
  time_text = λ t. [];
}

new_slashing_manager-forgets_example :
    new_slashing_manager memory_state memory_db no_json [] ((1 ∷ [], 2 ∷ []) ∷ []) registry
    ≡ record { db = []; registry = registry; events = []; double_vote_tracker = [] }
new_slashing_manager-forgets_example =
    new_slashing_manager-forgets memory_state memory_db no_json [] ((1 ∷ [], 2 ∷ []) ∷ []) registry

abbrev manager : SlashingManager memory_state memory_db no_json
manager = record { db = []; registry = joined; events = []; double_vote_tracker = [] }

abbrev alice_info : ValidatorInfo
alice_info = new_validator_info hour (6 * hour) join

-- alice votes, is seen in time, and votes again at the same height.
abbrev voted : SlashingManager memory_state memory_db no_json
voted =
    DoubleVote.run memory_state memory_db no_json
      (detect_double_voting memory_state memory_db no_json manager hour alice 4 (1 ∷ [])).0
      (silent hour alice hour 4 ∷ [])

manager-unvoted : DoubleVote.recorded memory_state memory_db no_json manager alice 4 ≡ none
unfolding votes_of lookup
manager-unvoted = refl

alice-known : memory_state.get_validator alice voted.registry.state ≡ some alice_info
unfolding DoubleVote.run DoubleVote.apply detect_double_voting check_downtime votes_of lookup insert
    new_validator_registry register_validator admit new_validator_info calculate_observer_duration
alice-known = refl

detect_double_voting-suspends_example :
    let after =
      (detect_double_voting memory_state memory_db no_json voted (2 * hour) alice 4 (2 ∷ [])).0 in
    (memory_state.get_validator alice after.registry.state
      ≡ some (
          suspended memory_state memory_db no_json (2 * hour + 24 * hour) double_voting alice_info))
    × (after.events
        ≡ voted.events
          ++ event_of memory_state memory_db no_json
              (2 * hour)
              alice
              double_voting
              ((1 ∷ []) ++ 2 ∷ [])
              4
            ∷ [])
detect_double_voting-suspends_example =
    detect_double_voting-suspends memory_state memory_db no_json manager hour (2 * hour) alice 4
      (1 ∷ []) (2 ∷ []) (silent hour alice hour 4 ∷ []) alice_info manager-unvoted (λ h. cc)
      alice-known

-- alice, suspended.
abbrev suspended_alice : MemoryState
suspended_alice = (
  (alice, record alice_info { is_suspended = true; suspension_end_time = 26 * hour }) ∷ [],
  [],
  [],
)

abbrev suspended_manager : SlashingManager memory_state memory_db no_json
suspended_manager = record manager {
  registry = record registry {
    validators = (alice, new_registration hour join) ∷ [];
    state = suspended_alice;
  };
}

check_and_clear_expired_suspensions_lem_example :
    memory_state.get_validator alice
      (check_and_clear_expired_suspensions memory_state memory_db no_json suspended_manager
        (27 * hour)).0.registry.state
    ≡ (let before = memory_state.get_validator alice suspended_manager.registry.state in
        if is_some (lookup alice suspended_manager.registry.validators)
        then freed? (27 * hour) before
        else before)
unfolding lookup
check_and_clear_expired_suspensions_lem_example =
    check_and_clear_expired_suspensions_lem memory_state memory_db no_json suspended_manager
      (27 * hour) alice (refl, tt)
