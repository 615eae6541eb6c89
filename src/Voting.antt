-- ===== src/Voting.antt =====
-- rnr/pkg/consensus/voting.go and vote_replay_protection.go: voting sessions on blocks, and the
-- processed votes that guard against replays.
-- A session is looked up under the hex form of its block's hash. The threshold 0.85 is 85
-- hundredths, rounded down: Go's float64 conversion agrees with that up to two million validators.
-- The number of validators, the length of a list where the code starts a session, is not negative.
-- What the code takes from elsewhere is a parameter: blockchain.State (its source is not in the
-- repository), P-256 arithmetic and signatures, encoding/json on votes, and the database iterator.
pub mod Cleanup
pub mod Session
pub mod Quorum
pub mod Replay
pub mod Recovery
pub mod Restart
pub mod Tracker
use route_n_root.Prelude.{
  ℕ, ◌+◌, ◌-◌, ◌*◌, ◌/◌, ◌%◌, Bool, true, false, not, ◌&&◌, Option, none, some, List, [], ◌∷◌, ◌++◌,
  Bytes, Map, lookup, insert, erase, keep, is_some, length, take, drop, map, bytes_key, bytes_equal,
  if◌then◌else◌, ltb, leb, ◌==◌,
}
use route_n_root.Prelude.Result.{Result, ok, err, or_err}
use route_n_root.Prelude.Text.{codes, encode_to_string}
use route_n_root.Core.{ValidatorInfo, second}
use route_n_root.Platform.{LevelDb, Sha256}

pub record Vote : Type 0 where
  pub block_hash : Bytes
  pub validator_id : Bytes
  pub signature : Bytes
  pub timestamp : ℕ
  pub vote_id : Bytes

pub record VotingSession : Type 0 where
  pub block_hash : Bytes
  pub votes : Map Bytes Vote
  pub total_validators : ℕ
  pub required_votes : ℕ
  pub start_time : ℕ
  pub voting_deadline : ℕ
  pub is_finalized : Bool
  pub finality_achieved_at : ℕ

pub data VotingError : Type 0 where
  session_exists no_session slice_out_of_range already_finalized deadline_exceeded : VotingError
  already_voted replay_detected not_active no_validator_info validator_suspended : VotingError
  bad_public_key bad_signature : VotingError

-- The part of blockchain.State that CastVote asks.
pub record ValidatorSet : Type 0 where
  pub get_active_validators : List Bytes
  pub get_validator : Bytes → Option ValidatorInfo

-- math/big, crypto/elliptic and crypto/ecdsa, on P-256: the curve's modulus and constant, square
-- roots modulo the modulus (0 where there is none) and signature verification.
pub record Ecdsa : Type 0 where
  pub set_bytes : Bytes → ℕ
  pub modulus : ℕ
  pub constant : ℕ
  pub mod_sqrt : ℕ → ℕ
  pub verify : (x y : ℕ) → Bytes → (r s : ℕ) → Bool

-- encoding/json on votes.
pub record VoteJson : Type 0 where
  pub marshal_vote : Vote → Option Bytes
  pub unmarshal_vote : Bytes → Option Vote

-- int(float64(total) * 0.85), and at least one.
unfoldable pub required_for : ℕ → ℕ
required_for total = if total * 85 / 100 == 0 then 1 else total * 85 / 100

-- `for _, vid := range ids { if vid == id { ... } }`
unfoldable pub is_listed : Bytes → List Bytes → Bool
is_listed id [] = false
is_listed id (vid ∷ ids) = let rest = is_listed id ids in if bytes_equal vid id then true else rest

module _ (L : LevelDb) (S : Sha256) (E : Ecdsa) (J : VoteJson) where
  pub record VotingManager : Type 0 where
    pub sessions : Map Bytes VotingSession
    pub state : Option ValidatorSet
    pub db : Option L.Db
    pub processed_votes : Map Bytes Bool

  unfoldable pub generate_vote_id : Bytes → Bytes → Bytes
  generate_vote_id block_hash validator_id = encode_to_string (S.sum (block_hash ++ validator_id))

  -- `vm.processedVotes[voteID]`, false for an absent key.
  unfoldable pub is_processed : Map Bytes Bool → Bytes → Bool
  is_processed processed vote_id = elim (lookup vote_id processed) [ none ↦ false | some b ↦ b ]

  -- IsVoteProcessed
  unfoldable pub is_vote_processed : VotingManager → Bytes → Bytes → Bool
  is_vote_processed vm block_hash validator_id =
      is_processed vm.processed_votes (generate_vote_id block_hash validator_id)

  -- MarkVoteProcessed
  unfoldable pub mark_vote_processed : VotingManager → Bytes → VotingManager
  mark_vote_processed vm vote_id = record vm {
    processed_votes = insert vote_id true vm.processed_votes;
  }

  -- StartVotingSession
  unfoldable pub start_voting_session :
      VotingManager → (now : ℕ) → Bytes → ℕ → VotingManager × Result VotingError VotingSession
  start_voting_session vm now block_hash total =
      let hash_str = encode_to_string block_hash in
      let session : VotingSession = record {
        block_hash = block_hash;
        votes = [];
        total_validators = total;
        required_votes = required_for total;
        start_time = now;
        voting_deadline = now + 15 * second;
        is_finalized = false;
        finality_achieved_at = 0;
      } in
      if is_some (lookup hash_str vm.sessions)
      then (vm, err (if ltb (length hash_str) 8 then slice_out_of_range else session_exists))
      else (record vm { sessions = insert hash_str session vm.sessions }, ok session)

  -- DecodeECDSAPublicKey: 64 bytes are both coordinates, fewer are the legacy form. The curve's
  -- constant is added first, so that ℕ's subtraction is Go's on integers.
  unfoldable pub decode_public_key : Bytes → Option (ℕ × ℕ)
  decode_public_key bytes =
      let x = E.set_bytes bytes in
      if length bytes == 0
      then none
      else if length bytes == 64
      then some (E.set_bytes (take 32 bytes), E.set_bytes (drop 32 bytes))
      else some (x, E.mod_sqrt ((x * x * x + E.constant - x * 3) % E.modulus))

  -- VerifyVote
  unfoldable pub verify_vote : Vote → ℕ × ℕ → Bool
  verify_vote vote key =
      let half = length vote.signature / 2 in
      not (ltb (length vote.signature) 32)
      && E.verify (key.0) (key.1) vote.block_hash (E.set_bytes (take half vote.signature))
          (E.set_bytes (drop half vote.signature))

  -- The checks of CastVote on a manager that has a state.
  unfoldable pub check_validator : ValidatorSet → Vote → Option VotingError
  check_validator state vote =
      if is_listed vote.validator_id state.get_active_validators
      then (elim (state.get_validator vote.validator_id) [
        | none ↦ some no_validator_info
        | some info ↦
            if info.is_suspended
            then some validator_suspended
            else (elim (decode_public_key info.public_key) [
              | none ↦ some bad_public_key
              | some key ↦ if verify_vote vote key then none else some bad_signature
            ])
      ])
      else some not_active

  unfoldable pub check_state : Option ValidatorSet → Vote → Option VotingError
  check_state none vote = none
  check_state (some state) vote = check_validator state vote

  -- PersistVote; CastVote goes on when it fails.
  unfoldable pub persist_vote : VotingManager → Vote → VotingManager × Bool
  persist_vote vm vote = elim (vm.db) [
    | none ↦ (vm, false)
    | some d ↦ elim (J.marshal_vote vote) [
      | none ↦ (vm, false)
      | some bytes ↦
          let (d', saved) = L.put (codes "vote_" ++ vote.vote_id) bytes d in
          (record vm { db = some d' }, saved)
    ]
  ]

  -- DeleteVoteFromDB
  unfoldable pub delete_vote_from_db : VotingManager → Bytes → VotingManager × Bool
  delete_vote_from_db vm vote_id = elim (vm.db) [
    | none ↦ (vm, true)
    | some d ↦
        let (d', gone) = L.delete (codes "vote_" ++ vote_id) d in (record vm { db = some d' }, gone)
  ]

  -- The end of CastVote: the vote is stored in its session, which is finalized once it has enough.
  unfoldable pub add_vote : ℕ → Vote → VotingSession → VotingSession
  add_vote now vote session =
      let voted : VotingSession = record session {
        votes = insert vote.validator_id vote session.votes;
      } in
      if leb session.required_votes (length voted.votes) && not session.is_finalized
      then record voted { is_finalized = true; finality_achieved_at = now }
      else voted

  -- What CastVote refuses, in the order of its checks.
  unfoldable pub check_vote : VotingManager → ℕ → VotingSession → Vote → Option VotingError
  check_vote vm now session vote =
      if session.is_finalized
      then some already_finalized
      else if ltb session.voting_deadline now
      then some deadline_exceeded
      else if is_some (lookup vote.validator_id session.votes)
      then some already_voted
      else if is_processed vm.processed_votes vote.vote_id
      then some replay_detected
      else check_state vm.state vote

  unfoldable pub new_vote : ℕ → Bytes → Bytes → Bytes → Vote
  new_vote now block_hash validator_id signature = record {
    block_hash = block_hash;
    validator_id = validator_id;
    signature = signature;
    timestamp = now;
    vote_id = generate_vote_id block_hash validator_id;
  }

  -- CastVote
  unfoldable pub cast_vote :
      VotingManager → (now : ℕ) → Bytes → Bytes → Bytes → VotingManager × Option VotingError
  cast_vote vm now block_hash validator_id signature =
      let hash_str = encode_to_string block_hash in
      let vote = new_vote now block_hash validator_id signature in
      elim (lookup hash_str vm.sessions) [
        | none ↦ (vm, some (if ltb (length hash_str) 8 then slice_out_of_range else no_session))
        | some session ↦ elim (check_vote vm now session vote) [
          | some refusal ↦ (vm, some refusal)
          | none ↦ (
            record (persist_vote vm vote).0 {
              sessions = insert hash_str (add_vote now vote session) vm.sessions;
              processed_votes = insert vote.vote_id true vm.processed_votes;
            },
            none,
          )
        ]
      ]

  -- CheckFinality and GetVotes
  unfoldable pub check_finality : VotingManager → Bytes → Result VotingError (Bool × ℕ)
  check_finality vm block_hash = elim (lookup (encode_to_string block_hash) vm.sessions) [
    | none ↦ err no_session
    | some session ↦ ok (session.is_finalized, length session.votes)
  ]

  unfoldable pub get_votes : VotingManager → Bytes → Result VotingError (List Vote)
  get_votes vm block_hash = elim (lookup (encode_to_string block_hash) vm.sessions) [
    | none ↦ err no_session
    | some session ↦ ok (map (λ entry. entry.1) session.votes)
  ]
