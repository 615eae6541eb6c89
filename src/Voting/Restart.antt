-- ===== src/Voting/Restart.antt =====
-- rnr/pkg/consensus/vote_replay_protection.go: votes that were persisted stay processed after a restart.
use route_n_root.Prelude.{
  ℕ, ◌≡◌, refl, ap, ◌∙◌, ◌⊎◌, inl, inr, Bool, true, some, List, [], ◌∷◌, ◌++◌, Bytes, Option-cases,
  Map, bytes_key, bytes_equal_iff, All, arith,
}
use route_n_root.Prelude.Text.{codes}
use route_n_root.Platform.{LevelDb, Sha256}
use route_n_root.Voting.{
  Vote, VotingError, Ecdsa, VoteJson, VotingManager, generate_vote_id, is_processed,
  is_vote_processed, persist_vote, cast_vote,
}
use route_n_root.Voting.Replay.{
  is_processed-insert, is_processed-insert_self, processed_is_refused, run-processed, Remembers,
}
use route_n_root.Voting.Session.{Call, run}
use route_n_root.Voting.Recovery.{load_vote, load_votes, load_processed_votes, new_voting_manager}

-- A value is in a list.
abbrev pub Listed : Bytes → List Bytes → Type 0
Listed v [] = ⊥
Listed v (x ∷ xs) = (x ≡ v) ⊎ Listed v xs

module _ (L : LevelDb) (S : Sha256) (E : Ecdsa) (J : VoteJson)
    (iterate : Bytes → L.Db → List Bytes × Bool) where
  load_votes-keeps :
      (values : List Bytes) (d : L.Db) (processed : Map Bytes Bool) (vote_id : Bytes)
      → is_processed L S E J processed vote_id ≡ true
      → is_processed L S E J (load_votes L S E J iterate values d processed).1 vote_id ≡ true
  unfolding load_votes load_vote
  load_votes-keeps [] d processed vote_id h = h
  load_votes-keeps (value ∷ values) d processed vote_id h =
      elim (Option-cases (J.unmarshal_vote value)) [
        | inl bad ↦ rw (bad, load_votes) (load_votes-keeps values d processed vote_id h)
        | inr (vote, read) ↦
            rw (read, load_votes)
              (load_votes-keeps values _ _ vote_id (
                is_processed-insert L S E J _ _ vote_id
                  (is_processed-insert L S E J processed vote.vote_id vote_id h)))
      ]

  load_votes-marks :
      (values : List Bytes) (d : L.Db) (processed : Map Bytes Bool) (value : Bytes) (vote : Vote)
      → Listed value values
      → J.unmarshal_vote value ≡ some vote
      → is_processed L S E J
          (load_votes L S E J iterate values d processed).1
          (generate_vote_id L S E J vote.block_hash vote.validator_id)
        ≡ true
  unfolding load_votes load_vote
  load_votes-marks [] d processed value vote h read = elim h [ ]
  load_votes-marks (v ∷ values) d processed value vote (inl same) read =
      rw (ap J.unmarshal_vote same ∙ read, load_votes)
        (load_votes-keeps values _ _ _ (is_processed-insert_self L S E J _ _))
  load_votes-marks (v ∷ values) d processed value vote (inr later) read =
      elim (Option-cases (J.unmarshal_vote v)) [
        | inl bad ↦ rw (bad, load_votes) (load_votes-marks values d processed value vote later read)
        | inr (w, found) ↦
            rw (found, load_votes) (load_votes-marks values _ _ value vote later read)
      ]

  persist_vote-stores :
      (vm : VotingManager L S E J) (vote : Vote) (bytes : Bytes)
      → J.marshal_vote vote ≡ some bytes
      → (persist_vote L S E J vm vote).1 ≡ true
      → (d : L.Db) × ((persist_vote L S E J vm vote).0.db ≡ some d)
        × (L.get (codes "vote_" ++ vote.vote_id) d ≡ some bytes)
  unfolding persist_vote
  persist_vote-stores vm vote bytes marshalled saved = elim (Option-cases (vm.db)) [
    | inl closed ↦ cc (rw (closed, persist_vote) at saved)
    | inr (d, opened) ↦
        let key = codes "vote_" ++ vote.vote_id in
        let put_ok : (L.put key bytes d).1 ≡ true =
          rw (opened, marshalled, persist_vote) at saved in
        rw (opened, marshalled, persist_vote)
          (
            (L.put key bytes d).0,
            refl,
            ground (arith, L.get-put key bytes key d, put_ok, bytes_equal_iff key key),
          )
  ]

  loaded_is_processed :
      (d : L.Db) (vote : Vote) (value : Bytes)
      → Listed value (iterate (codes "vote_") d).0
      → J.unmarshal_vote value ≡ some vote
      → is_vote_processed L S E J
          (new_voting_manager L S E J iterate (some d))
          vote.block_hash
          vote.validator_id
        ≡ true
  unfolding new_voting_manager load_processed_votes is_vote_processed
  loaded_is_processed d vote value listed read =
      load_votes-marks (iterate (codes "vote_") d).0 d [] value vote listed read

  -- If the iterator gives every value stored under the prefix, and a vote's bytes read back as the vote, then once the vote was
  -- persisted, a manager made from the database alone, after any calls but CleanupOldVotes, refuses every vote of its validator on its block, and
  -- stays as it is.
  pub persist_vote-restart :
      (vm : VotingManager L S E J) (vote : Vote) (bytes : Bytes) (cs : List (Call L S E J))
      (later : ℕ) (signature : Bytes)
      → ((key value : Bytes) (d : L.Db)
          → L.get (codes "vote_" ++ key) d ≡ some value
          → Listed value (iterate (codes "vote_") d).0)
      → J.marshal_vote vote ≡ some bytes
      → J.unmarshal_vote bytes ≡ some vote
      → (persist_vote L S E J vm vote).1 ≡ true
      → All (Remembers L S E J) cs
      → let vm' =
          run L S E J (new_voting_manager L S E J iterate (persist_vote L S E J vm vote).0.db) cs in
        (e : VotingError) × (cast_vote L S E J vm' later vote.block_hash vote.validator_id signature
          ≡ (vm', some e))
  unfolding is_vote_processed
  persist_vote-restart vm vote bytes cs later signature lists marshalled read saved remembers =
      let (d, stored, found) = persist_vote-stores vm vote bytes marshalled saved in
      let restarted = new_voting_manager L S E J iterate (some d) in
      let processed = loaded_is_processed d vote bytes (lists vote.vote_id bytes d found) read in
      rw stored (
        processed_is_refused L S E J (run L S E J restarted cs) later vote.block_hash
          vote.validator_id signature (run-processed L S E J restarted cs _ remembers processed))
