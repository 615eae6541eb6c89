-- ===== src/Tests/VoteTests.antt =====
-- Tests of voting, checkpoints and governance.
use route_n_root.Prelude.{
  ℕ, ◌+◌, ◌*◌, ◌≤◌, ◌<◌, ◌≡◌, ◌≢◌, ◌↔◌, ◌⊎◌, refl, Bool, true, none, some, List, [], ◌∷◌, Bytes,
  Map, lookup, insert, length, bytes_key, nat_key,
}
use route_n_root.Prelude.Result.{ok}
use route_n_root.Prelude.Text.{encode_to_string}
use route_n_root.Voting.{
  VotingSession, VotingError, Ecdsa, VoteJson, VotingManager, start_voting_session, cast_vote,
  check_vote, check_state, new_vote, add_vote, persist_vote, is_processed, required_for,
  check_finality,
}
use route_n_root.Voting.Session.{IsValid, start, cast, cleanup_sessions, apply, run, run-IsValid}
use route_n_root.Voting.Quorum.{check_finality-quorum}
use route_n_root.Voting.Replay.{cast_vote_once}
use route_n_root.Checkpoint.{Checkpoint, CheckpointManager, finalize_checkpoint, can_reorg}
use route_n_root.Checkpoint.Finality.{finalize_checkpoint-can_reorg}
use route_n_root.Governance.{not_found, not_voting, new_governance, vote, tally_votes}
use route_n_root.Governance.Stuck
use route_n_root.Governance.Stuck.{submit, tally, governance_never_votes}
use route_n_root.Tests.Fixtures.{memory_db, byte_json, padded, alice, bob}

-- A curve on which every signature is accepted, and votes that are never marshalled.
abbrev any_curve : Ecdsa
any_curve = record {
  set_bytes = λ bytes. length bytes;
  modulus = 7;
  constant = 3;
  mod_sqrt = λ n. n;
  verify = λ x y hash r s. true;
}

abbrev no_json : VoteJson
no_json = record { marshal_vote = λ _. none; unmarshal_vote = λ _. none }

abbrev TestManager : Type 0
TestManager = VotingManager memory_db padded any_curve no_json

abbrev no_sessions : TestManager
no_sessions = record { sessions = []; state = none; db = some []; processed_votes = [] }

abbrev block_hash : Bytes
block_hash = 1 ∷ 2 ∷ 3 ∷ 4 ∷ []

-- One session with one validator.
abbrev one_session : TestManager
one_session = (start_voting_session memory_db padded any_curve no_json no_sessions 0 block_hash 1).0

one_session-accepts :
    (cast_vote memory_db padded any_curve no_json one_session 1 block_hash alice []).1 ≡ none
unfolding cast_vote start_voting_session check_vote check_state lookup insert encode_to_string
    is_processed
one_session-accepts = refl

run-IsValid_example : IsValid memory_db padded any_curve no_json (
    run memory_db padded any_curve no_json no_sessions
      (start 0 block_hash 1 ∷ cast 1 block_hash alice [] ∷ []))
run-IsValid_example =
    run-IsValid memory_db padded any_curve no_json no_sessions
      (start 0 block_hash 1 ∷ cast 1 block_hash alice [] ∷ []) tt

abbrev voted : TestManager
voted =
    run memory_db padded any_curve no_json no_sessions
      (start 0 block_hash 1 ∷ cast 1 block_hash alice [] ∷ [])

voted-IsValid : IsValid memory_db padded any_curve no_json voted
voted-IsValid =
    run-IsValid memory_db padded any_curve no_json no_sessions
      (start 0 block_hash 1 ∷ cast 1 block_hash alice [] ∷ []) tt

voted-final : check_finality memory_db padded any_curve no_json voted block_hash ≡ ok (true, 1)
unfolding check_finality run apply cast_vote start_voting_session check_vote check_state lookup
    insert encode_to_string is_processed add_vote required_for new_vote persist_vote
voted-final = refl

check_finality-quorum_example :
    (s : VotingSession) × (lookup (encode_to_string block_hash) voted.sessions ≡ some s)
    × (1 ≡ length s.votes)
    × (1 ≤ 1)
    × (s.total_validators * 85 < (1 + 1) * 100)
check_finality-quorum_example =
    check_finality-quorum memory_db padded any_curve no_json voted block_hash 1 voted-IsValid
      voted-final

cast_vote_once_example :
    let vm' =
      run memory_db padded any_curve no_json
        (cast_vote memory_db padded any_curve no_json one_session 1 block_hash alice []).0
        (cleanup_sessions 9 0 ∷ []) in
    (e : VotingError) × (cast_vote memory_db padded any_curve no_json vm' 2 block_hash alice
        (5 ∷ [])
      ≡ (vm', some e))
cast_vote_once_example =
    cast_vote_once memory_db padded any_curve no_json one_session 1 2 block_hash alice [] (5 ∷ [])
      (cleanup_sessions 9 0 ∷ []) one_session-accepts (tt, tt)

-- Checkpoints at heights 10 and 20, the first of them finalized.
abbrev checkpoint_at : ℕ → Checkpoint
checkpoint_at height = record {
  height = height;
  block_hash = block_hash;
  state_root = [];
  timestamp = 0;
  validator_votes = 3;
  total_validators = 4;
}

abbrev two_checkpoints : CheckpointManager memory_db byte_json padded (λ _. none)
two_checkpoints = record {
  db = [];
  checkpoints = (10, checkpoint_at 10) ∷ (20, checkpoint_at 20) ∷ [];
  finalized_height = 10;
  checkpoint_interval = 10;
}

finalize_checkpoint-can_reorg_example :
    ((cp : Checkpoint) × (lookup 20 two_checkpoints.checkpoints ≡ some cp)
      × (cp.total_validators * 67 < (cp.validator_votes + 1) * 100))
    × ((can_reorg memory_db byte_json padded
            (λ _. none)
            (finalize_checkpoint memory_db byte_json padded (λ _. none) two_checkpoints 20).0
            21
          ≡ true)
        ↔ (20 < 21))
unfolding finalize_checkpoint lookup
finalize_checkpoint-can_reorg_example =
    finalize_checkpoint-can_reorg memory_db byte_json padded (λ _. none) two_checkpoints 20 21 refl

abbrev heights : List ℕ
heights = 10 ∷ 30 ∷ 20 ∷ []

abbrev validators : Map Bytes Bool
validators = (alice, true) ∷ (bob, true) ∷ []

governance_never_votes_example :
    let g =
      Stuck.run
        (new_governance validators)
        (submit block_hash [] [] alice 0 ∷ tally block_hash ∷ []) in
    ((vote g block_hash alice true ≡ (g, some not_found))
      ⊎ (vote g block_hash alice true ≡ (g, some not_voting)))
    × ((tally_votes g block_hash).1 ≢ ok true)
governance_never_votes_example =
    governance_never_votes validators (submit block_hash [] [] alice 0 ∷ tally block_hash ∷ [])
      block_hash alice true
