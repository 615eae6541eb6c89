-- ===== src/Voting/Recovery.antt =====
-- rnr/pkg/consensus/vote_replay_protection.go and voting.go: a voting manager made from a database.
-- The iterator of goleveldb over the keys with a prefix is a parameter: the values that it gives, of
-- the database as it was when the iterator was made, and whether it ended without an error.
use route_n_root.Prelude.{
  Bool, true, false, Option, none, some, List, [], ◌∷◌, ◌++◌, Bytes, Map, insert, bytes_key,
  bytes_equal, if◌then◌else◌,
}
use route_n_root.Prelude.Text.{codes}
use route_n_root.Platform.{LevelDb, Sha256}
use route_n_root.Voting.{Vote, ValidatorSet, Ecdsa, VoteJson, VotingManager, generate_vote_id}

module _ (L : LevelDb) (S : Sha256) (E : Ecdsa) (J : VoteJson)
    (iterate : Bytes → L.Db → List Bytes × Bool) where
  -- A legacy vote is stored again under its deterministic ID; that a marshalling fails is ignored, and
  -- an empty value is stored then.
  unfoldable pub migrate_vote : L.Db → Vote → (correct_id : Bytes) → L.Db
  migrate_vote d vote correct_id =
      let bytes = elim (J.marshal_vote (record vote { vote_id = correct_id })) as (λ _. Bytes) [
        | none ↦ []
        | some bytes ↦ bytes
      ] in
      (L.put (codes "vote_" ++ correct_id) bytes (L.delete (codes "vote_" ++ vote.vote_id) d).0).0

  -- A value that can be read: both IDs are marked as processed.
  unfoldable pub load_vote : L.Db → Map Bytes Bool → Vote → L.Db × Map Bytes Bool
  load_vote d processed vote =
      let correct_id = generate_vote_id L S E J vote.block_hash vote.validator_id in
      (
        if bytes_equal vote.vote_id correct_id then d else migrate_vote d vote correct_id,
        insert correct_id true (insert vote.vote_id true processed),
      )

  -- The loop of LoadProcessedVotes.
  unfoldable pub load_votes : List Bytes → L.Db → Map Bytes Bool → L.Db × Map Bytes Bool
  load_votes [] d processed = (d, processed)
  load_votes (value ∷ values) d processed = elim (J.unmarshal_vote value) [
    | none ↦ load_votes values d processed
    | some vote ↦
        let (d', processed') = load_vote d processed vote in load_votes values d' processed'
  ]

  -- LoadProcessedVotes, with whether it returned without an error.
  unfoldable pub load_processed_votes : VotingManager L S E J → VotingManager L S E J × Bool
  load_processed_votes vm = elim (vm.db) [
    | none ↦ (vm, false)
    | some d ↦
        let (values, fine) = iterate (codes "vote_") d in
        let (d', processed) = load_votes values d vm.processed_votes in
        (record vm { db = some d'; processed_votes = processed }, fine)
  ]

  -- NewVotingManager; an error of the load is only logged.
  unfoldable pub new_voting_manager : Option L.Db → VotingManager L S E J
  new_voting_manager database =
      (load_processed_votes
        (record { sessions = []; state = none; db = database; processed_votes = [] })).0

-- SetState
unfoldable pub set_state :
    (L : LevelDb) (S : Sha256) (E : Ecdsa) (J : VoteJson)
    → VotingManager L S E J
    → Option ValidatorSet
    → VotingManager L S E J
set_state L S E J vm state = record vm { state = state }
