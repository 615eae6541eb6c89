-- ===== src/Voting/Session.antt =====
-- rnr/pkg/consensus/voting.go: what holds of every session after any calls.
use route_n_root.Prelude.{
  ℕ, ◌+◌, ◌≤◌, ◌≡◌, refl, ◌∙◌, inl, inr, false, none, List, [], ◌∷◌, Bytes, Bool-cases,
  Option-cases, All, All-insert, All-keep, All-lookup, All-erase, IsDistinct, sym,
  insert-IsDistinct, length, length-insert, Map, lookup, insert, erase, is_some, bytes_key, leb,
  arith,
}
use route_n_root.Prelude.Text.{encode_to_string}
use route_n_root.Platform.{LevelDb, Sha256}
use route_n_root.Voting.{
  Vote, VotingSession, Ecdsa, VoteJson, required_for, VotingManager, start_voting_session, add_vote,
  check_vote, new_vote, persist_vote, cast_vote, delete_vote_from_db, mark_vote_processed,
}
use route_n_root.Voting.Cleanup.{
  cleanup_old_sessions, forget_votes, forget_sessions, cleanup_old_votes,
}

-- One vote for each validator; finalized exactly if there are as many votes as are required, and never more.
abbrev pub IsSound : VotingSession → Type 0
IsSound s =
    IsDistinct s.votes
    × (1 ≤ s.required_votes)
    × (s.required_votes ≡ required_for s.total_validators)
    × (length s.votes ≤ s.required_votes)
    × (s.is_finalized ≡ leb s.required_votes (length s.votes))

required_for-positive : (total : ℕ) → 1 ≤ required_for total
unfolding required_for
required_for-positive total = ground arith

module _ (L : LevelDb) (S : Sha256) (E : Ecdsa) (J : VoteJson) where
  add_vote-IsSound :
      (now : ℕ) (vote : Vote) (s : VotingSession)
      → s.is_finalized ≡ false
      → lookup vote.validator_id s.votes ≡ none
      → IsSound s
      → IsSound (add_vote L S E J now vote s)
  unfolding add_vote
  add_vote-IsSound now vote s going fresh i =
      let d = insert-IsDistinct vote.validator_id vote s.votes i.0 in
      let more = length-insert vote.validator_id vote s.votes in
      elim (Bool-cases (leb s.required_votes (length (insert vote.validator_id vote s.votes)))) [
        | inl enough ↦ rw (going, enough, add_vote) (d, i.1, i.2, ground arith, sym enough)
        | inr few ↦ rw (going, few, add_vote) (d, i.1, i.2, ground arith, sym few)
      ]

  abbrev pub IsValid : VotingManager L S E J → Type 0
  IsValid vm = All (λ entry. IsSound (entry.1)) vm.sessions

  pub persist_vote-sessions :
      (vm : VotingManager L S E J) (vote : Vote)
      → ((persist_vote L S E J vm vote).0.sessions ≡ vm.sessions)
        × ((persist_vote L S E J vm vote).0.processed_votes ≡ vm.processed_votes)
  unfolding persist_vote
  persist_vote-sessions vm vote = ground arith

  check_vote-open :
      (vm : VotingManager L S E J) (now : ℕ) (s : VotingSession) (vote : Vote)
      → check_vote L S E J vm now s vote ≡ none
      → (s.is_finalized ≡ false)
        × (now ≤ s.voting_deadline)
        × (lookup vote.validator_id s.votes ≡ none)
  unfolding check_vote
  check_vote-open vm now s vote h = ground arith

  cast_vote-IsValid :
      (vm : VotingManager L S E J) (now : ℕ) (block_hash validator_id signature : Bytes)
      → IsValid vm
      → IsValid (cast_vote L S E J vm now block_hash validator_id signature).0
  unfolding cast_vote
  cast_vote-IsValid vm now block_hash validator_id signature i =
      let hash_str = encode_to_string block_hash in
      let vote = new_vote L S E J now block_hash validator_id signature in
      elim (Option-cases (lookup hash_str vm.sessions)) [
        | inl missing ↦ rw (missing, cast_vote) i
        | inr (s, found) ↦ elim (Option-cases (check_vote L S E J vm now s vote)) [
          | inl fine ↦
              let (going, _, fresh) = check_vote-open vm now s vote fine in
              rw (found, fine, cast_vote)
                (All-insert (λ entry. IsSound (entry.1)) hash_str _ vm.sessions
                  (λ _.
                    add_vote-IsSound now vote s going fresh
                      (All-lookup IsSound hash_str s vm.sessions i found))
                  i)
          | inr (refusal, refused) ↦ rw (found, refused, cast_vote) i
        ]
      ]

  start_voting_session-IsValid :
      (vm : VotingManager L S E J) (now : ℕ) (block_hash : Bytes) (total : ℕ)
      → IsValid vm
      → IsValid (start_voting_session L S E J vm now block_hash total).0
  unfolding start_voting_session
  start_voting_session-IsValid vm now block_hash total i =
      let hash_str = encode_to_string block_hash in
      elim (Bool-cases (is_some (lookup hash_str vm.sessions))) [
        | inl known ↦ rw (known, start_voting_session) i
        | inr fresh ↦
            let positive = required_for-positive total in
            rw (fresh, start_voting_session)
              (All-insert (λ entry. IsSound (entry.1)) hash_str _ vm.sessions
                (λ _. (tt, positive, refl, omega arith, ground (arith, positive))) i)
      ]

  delete_vote_from_db-sessions :
      (vm : VotingManager L S E J) (vote_id : Bytes)
      → (delete_vote_from_db L S E J vm vote_id).0.sessions ≡ vm.sessions
  unfolding delete_vote_from_db
  delete_vote_from_db-sessions vm vote_id = ground arith

  forget_votes-sessions :
      (votes : Map Bytes Vote) (vm : VotingManager L S E J)
      → (forget_votes L S E J vm votes).sessions ≡ vm.sessions
  unfolding forget_votes
  forget_votes-sessions [] vm = refl
  forget_votes-sessions ((_, vote) ∷ votes) vm =
      forget_votes-sessions votes _ ∙ delete_vote_from_db-sessions _ _

  forget_sessions-IsValid :
      (vm : VotingManager L S E J) (cleaned : ℕ) (m : Map Bytes VotingSession)
      → IsValid vm
      → IsValid (forget_sessions L S E J vm cleaned m).0
  unfolding forget_sessions
  forget_sessions-IsValid vm cleaned [] i = i
  forget_sessions-IsValid vm cleaned ((hash_str, s) ∷ m) i = elim (Bool-cases (s.is_finalized)) [
    | inl done ↦
        let vm' = forget_votes L S E J vm s.votes in
        let dropped : VotingManager L S E J = record vm' {
          sessions = erase hash_str vm'.sessions;
        } in
        rw (done, forget_sessions)
          (forget_sessions-IsValid dropped (cleaned + length s.votes) m (
            rw (forget_votes-sessions s.votes vm)
              (All-erase (λ entry. IsSound (entry.1)) hash_str vm.sessions i)))
    | inr going ↦ rw (going, forget_sessions) (forget_sessions-IsValid vm cleaned m i)
  ]

  -- A call of the public interface, with its time.
  pub data Call : Type 0 where
    start : (now : ℕ) (block_hash : Bytes) (total : ℕ) → Call
    cast : (now : ℕ) (block_hash validator_id signature : Bytes) → Call
    mark : (vote_id : Bytes) → Call
    cleanup_sessions : (now max_age : ℕ) → Call
    cleanup_votes : (height keep_recent : ℕ) → Call

  unfoldable pub apply : VotingManager L S E J → Call → VotingManager L S E J
  apply vm (start now block_hash total) = (start_voting_session L S E J vm now block_hash total).0
  apply vm (cast now block_hash validator_id signature) =
      (cast_vote L S E J vm now block_hash validator_id signature).0
  apply vm (mark vote_id) = mark_vote_processed L S E J vm vote_id
  apply vm (cleanup_sessions now max_age) = cleanup_old_sessions L S E J vm now max_age
  apply vm (cleanup_votes height keep_recent) = (cleanup_old_votes L S E J vm height keep_recent).0

  unfoldable pub run : VotingManager L S E J → List Call → VotingManager L S E J
  run vm [] = vm
  run vm (c ∷ cs) = run (apply vm c) cs

  apply-IsValid : (vm : VotingManager L S E J) (c : Call) → IsValid vm → IsValid (apply vm c)
  unfolding apply cleanup_old_sessions cleanup_old_votes mark_vote_processed
  apply-IsValid vm (start now block_hash total) i =
      start_voting_session-IsValid vm now block_hash total i
  apply-IsValid vm (cast now block_hash validator_id signature) i =
      cast_vote-IsValid vm now block_hash validator_id signature i
  apply-IsValid vm (mark vote_id) i = i
  apply-IsValid vm (cleanup_sessions now max_age) i =
      All-keep (λ entry. IsSound (entry.1)) _ vm.sessions i
  apply-IsValid vm (cleanup_votes height keep_recent) i = forget_sessions-IsValid vm 0 vm.sessions i

  -- Any calls on a manager whose sessions are sound leave every session sound: each validator has one vote, and a session is
  -- finalized exactly if it has as many votes as its threshold, which it never exceeds.
  pub run-IsValid : (vm : VotingManager L S E J) (cs : List Call) → IsValid vm → IsValid (run vm cs)
  unfolding run
  run-IsValid vm [] i = i
  run-IsValid vm (c ∷ cs) i = run-IsValid (apply vm c) cs (apply-IsValid vm c i)
