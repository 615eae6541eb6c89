-- ===== src/Voting/Replay.antt =====
-- rnr/pkg/consensus/voting.go and vote_replay_protection.go: a vote is counted once.
use route_n_root.Prelude.{
  ℕ, ◌≡◌, refl, inl, inr, Bool, true, none, some, List, [], ◌∷◌, Bytes, Option-cases, Map, lookup,
  insert, lookup-insert, lookup-insert_self, bytes_key, All, arith,
}
use route_n_root.Prelude.Text.{encode_to_string}
use route_n_root.Platform.{LevelDb, Sha256}
use route_n_root.Voting.{
  generate_vote_id, Vote, VotingSession, VotingError, Ecdsa, VoteJson, VotingManager, is_processed,
  is_vote_processed, mark_vote_processed, start_voting_session, check_vote, new_vote, cast_vote,
}
use route_n_root.Voting.Cleanup.{cleanup_old_sessions}
use route_n_root.Voting.Session.{
  Call, start, cast, mark, cleanup_sessions, cleanup_votes, apply, run,
}

module _ (L : LevelDb) (S : Sha256) (E : Ecdsa) (J : VoteJson) where
  -- The calls that never forget a processed vote: all but CleanupOldVotes.
  abbrev pub Remembers : Call L S E J → Type 0
  Remembers (cleanup_votes _ _) = ⊥
  Remembers _ = Unit

  pub is_processed-insert :
      (m : Map Bytes Bool) (id vote_id : Bytes)
      → is_processed L S E J m vote_id ≡ true
      → is_processed L S E J (insert id true m) vote_id ≡ true
  unfolding is_processed
  is_processed-insert m id vote_id h = ground (arith, lookup-insert id vote_id true m)

  pub is_processed-insert_self :
      (m : Map Bytes Bool) (id : Bytes) → is_processed L S E J (insert id true m) id ≡ true
  unfolding is_processed
  is_processed-insert_self m id = ground (arith, lookup-insert_self id true m)

  cast_vote-processed :
      (vm : VotingManager L S E J) (now : ℕ) (block_hash validator_id signature vote_id : Bytes)
      → is_processed L S E J vm.processed_votes vote_id ≡ true
      → is_processed L S E J
          (cast_vote L S E J vm now block_hash validator_id signature).0.processed_votes
          vote_id
        ≡ true
  unfolding cast_vote
  cast_vote-processed vm now block_hash validator_id signature vote_id h =
      let vote = new_vote L S E J now block_hash validator_id signature in
      elim (Option-cases (lookup (encode_to_string block_hash) vm.sessions)) [
        | inl missing ↦ rw (missing, cast_vote) h
        | inr (s, found) ↦ elim (Option-cases (check_vote L S E J vm now s vote)) [
          | inl fine ↦
              rw (found, fine, cast_vote)
                (is_processed-insert vm.processed_votes vote.vote_id vote_id h)
          | inr (refusal, refused) ↦ rw (found, refused, cast_vote) h
        ]
      ]

  apply-processed :
      (vm : VotingManager L S E J) (c : Call L S E J) (vote_id : Bytes)
      → Remembers c
      → is_processed L S E J vm.processed_votes vote_id ≡ true
      → is_processed L S E J (apply L S E J vm c).processed_votes vote_id ≡ true
  unfolding apply start_voting_session mark_vote_processed cleanup_old_sessions
  apply-processed vm (start now block_hash total) vote_id r h = ground arith
  apply-processed vm (cast now block_hash validator_id signature) vote_id r h =
      cast_vote-processed vm now block_hash validator_id signature vote_id h
  apply-processed vm (mark id) vote_id r h = is_processed-insert vm.processed_votes id vote_id h
  apply-processed vm (cleanup_sessions now max_age) vote_id r h = h
  apply-processed vm (cleanup_votes height keep_recent) vote_id r h = elim r [ ]

  pub run-processed :
      (vm : VotingManager L S E J) (cs : List (Call L S E J)) (vote_id : Bytes)
      → All Remembers cs
      → is_processed L S E J vm.processed_votes vote_id ≡ true
      → is_processed L S E J (run L S E J vm cs).processed_votes vote_id ≡ true
  unfolding run
  run-processed vm [] vote_id r h = h
  run-processed vm (c ∷ cs) vote_id r h =
      run-processed (apply L S E J vm c) cs vote_id r.1 (apply-processed vm c vote_id r.0 h)

  check_vote-processed :
      (vm : VotingManager L S E J) (now : ℕ) (s : VotingSession) (vote : Vote)
      → is_processed L S E J vm.processed_votes vote.vote_id ≡ true
      → (e : VotingError) × (check_vote L S E J vm now s vote ≡ some e)
  unfolding check_vote
  check_vote-processed vm now s vote h = elim (Option-cases (check_vote L S E J vm now s vote)) [
    | inl fine ↦ ground arith
    | inr refused ↦ refused
  ]

  -- A processed vote is refused, and leaves the manager as it is.
  pub processed_is_refused :
      (vm : VotingManager L S E J) (now : ℕ) (block_hash validator_id signature : Bytes)
      → is_vote_processed L S E J vm block_hash validator_id ≡ true
      → (e : VotingError) × (cast_vote L S E J vm now block_hash validator_id signature
          ≡ (vm, some e))
  unfolding cast_vote is_vote_processed new_vote
  processed_is_refused vm now block_hash validator_id signature h =
      elim (Option-cases (lookup (encode_to_string block_hash) vm.sessions)) [
        | inl missing ↦ rw (missing, cast_vote) (_, refl)
        | inr (s, found) ↦
            let (e, refused) =
              check_vote-processed vm now s (new_vote L S E J now block_hash validator_id signature)
                h in
            (e, rw (found, refused, cast_vote) refl)
      ]

  accepted_is_processed :
      (vm : VotingManager L S E J) (now : ℕ) (block_hash validator_id signature : Bytes)
      → (cast_vote L S E J vm now block_hash validator_id signature).1 ≡ none
      → is_vote_processed L S E J
          (cast_vote L S E J vm now block_hash validator_id signature).0
          block_hash
          validator_id
        ≡ true
  unfolding cast_vote is_vote_processed new_vote
  accepted_is_processed vm now block_hash validator_id signature h =
      let vote = new_vote L S E J now block_hash validator_id signature in
      elim (Option-cases (lookup (encode_to_string block_hash) vm.sessions)) [
        | inl missing ↦ cc (rw (missing, cast_vote) at h)
        | inr (s, found) ↦ elim (Option-cases (check_vote L S E J vm now s vote)) [
          | inl fine ↦
              rw (found, fine, cast_vote)
                (is_processed-insert_self vm.processed_votes
                  (generate_vote_id L S E J block_hash validator_id))
          | inr (refusal, refused) ↦ cc (rw (found, refused, cast_vote) at h)
        ]
      ]

  -- After a vote is accepted, and any calls but CleanupOldVotes, a vote of the same validator on the same block is refused whatever
  -- its signature and time, and leaves the manager as it is.
  pub cast_vote_once :
      (vm : VotingManager L S E J) (now later : ℕ) (block_hash validator_id signature again : Bytes)
      (cs : List (Call L S E J))
      → (cast_vote L S E J vm now block_hash validator_id signature).1 ≡ none
      → All Remembers cs
      → let vm' = run L S E J (cast_vote L S E J vm now block_hash validator_id signature).0 cs in
        (e : VotingError) × (cast_vote L S E J vm' later block_hash validator_id again
          ≡ (vm', some e))
  unfolding is_vote_processed
  cast_vote_once vm now later block_hash validator_id signature again cs h r =
      let vm' = (cast_vote L S E J vm now block_hash validator_id signature).0 in
      processed_is_refused (run L S E J vm' cs) later block_hash validator_id again (
        run-processed vm' cs _ r (accepted_is_processed vm now block_hash validator_id signature h))
