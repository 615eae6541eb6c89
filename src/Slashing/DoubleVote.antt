-- ===== src/Slashing/DoubleVote.antt =====
-- rnr/pkg/consensus/slashing.go: a validator that votes for two blocks at one height is suspended.

use route_n_root.Prelude.{
  ℕ, ◌+◌, ◌-◌, ◌*◌, ◌≡◌, ◌≢◌, refl, ap, ◌∙◌, inl, inr, true, Option, none, some, List, [], ◌∷◌,
  ◌++◌, Bytes, bytes_equal, Bool-cases, Option-cases, lookup, bytes_key, nat_key, same_refl,
  same_ne, ltb, arith,
}
use route_n_root.Core.{ValidatorInfo, hour}
use route_n_root.Platform.{LevelDb}
use route_n_root.Registry.{ValidatorState, ValidatorRegistry}
use route_n_root.Registry.Exits.{suspend_validator}
use route_n_root.Slashing.Tracker.{record_vote, record_vote-first, record_vote-keeps}
use route_n_root.Slashing.{
  SlashingReason, double_voting, downtime, invalid_block, reason_text, EventJson, SlashingEvent,
  SlashingManager, suspension_duration, slash_validator, votes_of, detect_double_voting,
  check_downtime, slash_for_invalid_block, check_and_clear_expired_suspensions,
  cleanup_old_tracking,
}

-- A call of the manager, with its time.
pub data Call : Type 0 where
  votes : (now : ℕ) (id : Bytes) (height : ℕ) (hash : Bytes) → Call
  silent : (now : ℕ) (id : Bytes) (last_seen height : ℕ) → Call
  invalid : (now : ℕ) (id evidence : Bytes) (height : ℕ) → Call
  expire : (now : ℕ) → Call
  tidy : (now max_age : ℕ) → Call

module _ (V : ValidatorState) (L : LevelDb) (J : EventJson) where
  unfoldable pub apply : SlashingManager V L J → Call → SlashingManager V L J
  apply sm (votes now id height hash) = (detect_double_voting V L J sm now id height hash).0
  apply sm (silent now id last_seen height) = (check_downtime V L J sm now id last_seen height).0
  apply sm (invalid now id evidence height) =
      (slash_for_invalid_block V L J sm now id evidence height).0
  apply sm (expire now) = (check_and_clear_expired_suspensions V L J sm now).0
  apply sm (tidy now max_age) = cleanup_old_tracking V L J sm now max_age

  unfoldable pub run : SlashingManager V L J → List Call → SlashingManager V L J
  run sm [] = sm
  run sm (c ∷ calls) = run (apply sm c) calls

  -- The vote that is on record for a validator at a height.
  abbrev pub recorded : SlashingManager V L J → Bytes → ℕ → Option Bytes
  recorded sm id height = lookup height (votes_of sm.double_vote_tracker id)

  slash_validator-tracker :
      (sm : SlashingManager V L J) (now : ℕ) (id : Bytes) (reason : SlashingReason)
      (evidence : Bytes) (height : ℕ)
      → (slash_validator V L J sm now id reason evidence height).0.double_vote_tracker
        ≡ sm.double_vote_tracker
  unfolding slash_validator
  slash_validator-tracker sm now id reason evidence height = ground arith

  -- The event that a violation leaves.
  abbrev pub event_of :
      (now : ℕ) → Bytes → SlashingReason → (evidence : Bytes) (height : ℕ) → SlashingEvent
  event_of now id reason evidence height = record {
    validator_id = id;
    reason = reason;
    suspension_duration = suspension_duration reason;
    suspension_end_time = now + suspension_duration reason;
    evidence = evidence;
    timestamp = now;
    block_height = height;
  }

  -- The validator as it is suspended.
  abbrev pub suspended : (until : ℕ) → SlashingReason → ValidatorInfo → ValidatorInfo
  suspended until reason info = record info {
    is_suspended = true;
    suspension_end_time = until;
    suspension_reason = reason_text reason;
  }

  slash_validator-registry :
      (sm : SlashingManager V L J) (now : ℕ) (id : Bytes) (reason : SlashingReason)
      (evidence : Bytes) (height : ℕ)
      → (slash_validator V L J sm now id reason evidence height).0.registry
        ≡ (suspend_validator V sm.registry id
            (now + suspension_duration reason)
            (reason_text reason)).0
  unfolding slash_validator
  slash_validator-registry sm now id reason evidence height = ground arith

  slash_validator-events :
      (sm : SlashingManager V L J) (now : ℕ) (id : Bytes) (reason : SlashingReason)
      (evidence : Bytes) (height : ℕ)
      → (suspend_validator V sm.registry id
          (now + suspension_duration reason)
          (reason_text reason)).1
        ≡ none
      → (slash_validator V L J sm now id reason evidence height).0.events
        ≡ sm.events ++ event_of now id reason evidence height ∷ []
  unfolding slash_validator
  slash_validator-events sm now id reason evidence height h = ground arith

  -- A known validator is suspended and the event is kept, also if it cannot be stored.
  slash_validator_lem :
      (sm : SlashingManager V L J) (now : ℕ) (id : Bytes) (reason : SlashingReason)
      (evidence : Bytes) (height : ℕ) (info : ValidatorInfo)
      → V.get_validator id sm.registry.state ≡ some info
      → let sm' = (slash_validator V L J sm now id reason evidence height).0 in
        (V.get_validator id sm'.registry.state
          ≡ some (suspended (now + suspension_duration reason) reason info))
        × (sm'.events ≡ sm.events ++ event_of now id reason evidence height ∷ [])
  unfolding suspend_validator
  slash_validator_lem sm now id reason evidence height info found =
      let new = suspended (now + suspension_duration reason) reason info in
      let suspends : suspend_validator V sm.registry id (now + suspension_duration reason)
            (reason_text reason)
          ≡ (record sm.registry { state = V.update_validator new sm.registry.state }, none) =
        rw (found, suspend_validator) refl in
      let own : bytes_equal info.id id ≡ true =
        rw (V.validator_named id sm.registry.state info found) (same_refl id) in
      let after : V.get_validator id (V.update_validator new sm.registry.state) ≡ some new =
        V.get_validator-update new id sm.registry.state ∙ rw own refl in
      (
        ap (λ (vr : ValidatorRegistry V). V.get_validator id vr.state)
              (slash_validator-registry sm now id reason evidence height ∙ ap (λ r. r.0) suspends)
            ∙ after,
        slash_validator-events sm now id reason evidence height (ap (λ r. r.1) suspends),
      )

  detect-tracker :
      (sm : SlashingManager V L J) (now : ℕ) (id : Bytes) (height : ℕ) (hash : Bytes)
      → (detect_double_voting V L J sm now id height hash).0.double_vote_tracker
        ≡ record_vote id height hash sm.double_vote_tracker
  unfolding detect_double_voting
  detect-tracker sm now id height hash =
      let own = votes_of sm.double_vote_tracker id in
      elim (Option-cases (lookup height own)) [
        | inl first ↦ rw (first, detect_double_voting) refl
        | inr (previous, voted) ↦ elim (Bool-cases (bytes_equal previous hash)) [
          | inl equal ↦ rw (voted, equal, detect_double_voting) refl
          | inr twice ↦
              rw (voted, twice, detect_double_voting)
                (slash_validator-tracker _ now id double_voting _ height)
        ]
      ]

  apply-recorded :
      (sm : SlashingManager V L J) (c : Call) (j : Bytes) (h : ℕ) (x : Bytes)
      → recorded sm j h ≡ some x
      → recorded (apply sm c) j h ≡ some x
  unfolding apply check_downtime slash_for_invalid_block check_and_clear_expired_suspensions
      cleanup_old_tracking
  apply-recorded sm (votes now id height hash) j h x known =
      ap (λ t. lookup h (votes_of t j)) (detect-tracker sm now id height hash)
      ∙ record_vote-keeps id j height h hash x sm.double_vote_tracker known
  apply-recorded sm (silent now id last_seen height) j h x known =
      let kept = slash_validator-tracker sm now id downtime _ height in
      elim (Bool-cases (ltb (1 * hour) (now - last_seen))) [
        | inl late ↦ rw (late, apply) (ap (λ t. lookup h (votes_of t j)) kept ∙ known)
        | inr seen ↦ rw (seen, apply) known
      ]
  apply-recorded sm (invalid now id evidence height) j h x known =
      ap (λ t. lookup h (votes_of t j))
        (slash_validator-tracker sm now id invalid_block evidence height)
      ∙ known
  apply-recorded sm (expire now) j h x known = known
  apply-recorded sm (tidy now max_age) j h x known = known

  run-recorded :
      (sm : SlashingManager V L J) (calls : List Call) (j : Bytes) (h : ℕ) (x : Bytes)
      → recorded sm j h ≡ some x
      → recorded (run sm calls) j h ≡ some x
  unfolding run
  run-recorded sm [] j h x known = known
  run-recorded sm (c ∷ calls) j h x known =
      run-recorded (apply sm c) calls j h x (apply-recorded sm c j h x known)

  -- After the first vote of a validator at a height and any calls, a vote of it for another hash at
  -- that height suspends it for 24 hours, if the state knows it, and leaves an event with both
  -- hashes, whatever becomes of storing the event.
  pub detect_double_voting-suspends :
      (sm : SlashingManager V L J) (now now' : ℕ) (id : Bytes) (height : ℕ) (first second : Bytes)
      (calls : List Call) (info : ValidatorInfo)
      → recorded sm id height ≡ none
      → first ≢ second
      → let sm' = run (detect_double_voting V L J sm now id height first).0 calls in
        let after = (detect_double_voting V L J sm' now' id height second).0 in
        V.get_validator id sm'.registry.state ≡ some info
        → (V.get_validator id after.registry.state
            ≡ some (suspended (now' + 24 * hour) double_voting info))
          × (after.events
              ≡ sm'.events ++ event_of now' id double_voting (first ++ second) height ∷ [])
  unfolding detect_double_voting
  detect_double_voting-suspends sm now now' id height first second calls info fresh differ found =
      let sm1 = (detect_double_voting V L J sm now id height first).0 in
      let sm' = run sm1 calls in
      let noted : recorded sm1 id height ≡ some first =
        ap (λ t. lookup height (votes_of t id)) (detect-tracker sm now id height first)
        ∙ record_vote-first id height first sm.double_vote_tracker fresh in
      let known = run-recorded sm1 calls id height first noted in
      rw (known, same_ne first second differ, detect_double_voting)
        (slash_validator_lem _ now' id double_voting (first ++ second) height info found)
