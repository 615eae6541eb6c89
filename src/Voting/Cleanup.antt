-- ===== src/Voting/Cleanup.antt =====
-- rnr/pkg/consensus/voting.go and vote_replay_protection.go: the two cleanups of voting sessions.
use route_n_root.Prelude.{
  ℕ, ◌+◌, ◌-◌, [], ◌∷◌, Bytes, Map, erase, keep, length, bytes_key, if◌then◌else◌, leb,
}
use route_n_root.Platform.{LevelDb, Sha256}
use route_n_root.Voting.{
  Vote, VotingSession, Ecdsa, VoteJson, VotingManager, generate_vote_id, delete_vote_from_db,
}

module _ (L : LevelDb) (S : Sha256) (E : Ecdsa) (J : VoteJson) where
  -- CleanupOldSessions
  unfoldable pub cleanup_old_sessions :
      VotingManager L S E J → (now max_age : ℕ) → VotingManager L S E J
  cleanup_old_sessions vm now max_age = record vm {
    sessions = keep (λ _ session. leb (now - session.start_time) max_age) vm.sessions;
  }

  -- The inner loop of CleanupOldVotes, over the votes of a finalized session.
  unfoldable pub forget_votes : VotingManager L S E J → Map Bytes Vote → VotingManager L S E J
  forget_votes vm [] = vm
  forget_votes vm ((_, vote) ∷ votes) =
      let vote_id = generate_vote_id L S E J vote.block_hash vote.validator_id in
      let forgotten : VotingManager L S E J = record vm {
        processed_votes = erase vote_id vm.processed_votes;
      } in
      forget_votes (delete_vote_from_db L S E J forgotten vote_id).0 votes

  -- Its outer loop, with the number of votes cleaned. Every finalized session counts as old: the
  -- two heights that the method takes are not used.
  unfoldable pub forget_sessions :
      VotingManager L S E J → ℕ → Map Bytes VotingSession → VotingManager L S E J × ℕ
  forget_sessions vm cleaned [] = (vm, cleaned)
  forget_sessions vm cleaned ((hash_str, session) ∷ rest) =
      let vm' = forget_votes vm session.votes in
      let dropped : VotingManager L S E J = record vm' { sessions = erase hash_str vm'.sessions } in
      forget_sessions (if session.is_finalized then dropped else vm)
        (if session.is_finalized then cleaned + length session.votes else cleaned) rest

  -- CleanupOldVotes
  unfoldable pub cleanup_old_votes :
      VotingManager L S E J → (height keep_recent : ℕ) → VotingManager L S E J × ℕ
  cleanup_old_votes vm height keep_recent = forget_sessions vm 0 vm.sessions
