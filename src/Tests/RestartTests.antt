-- ===== src/Tests/RestartTests.antt =====
-- Tests of the restart of a voting manager, with a database in memory, and of the finality tracker.
use route_n_root.Prelude.{
  ◌≡◌, refl, inl, inr, Bool, true, none, some, List, [], ◌∷◌, ◌++◌, Bytes, Map, Bool-cases, lookup,
  map, bytes_key, bytes_equal, length,
}
use route_n_root.Prelude.Text.{codes}
use route_n_root.Voting.{Vote, VotingError, Ecdsa, VoteJson, VotingManager, persist_vote, cast_vote}
use route_n_root.Voting.Session.{start, run}
use route_n_root.Voting.Recovery.{new_voting_manager}
use route_n_root.Voting.Restart.{Listed, persist_vote-restart}
use route_n_root.Tests.Fixtures.{memory_db, padded, alice}

abbrev curve : Ecdsa
curve = record {
  set_bytes = λ bytes. length bytes;
  modulus = 7;
  constant = 3;
  mod_sqrt = λ n. n;
  verify = λ x y hash r s. true;
}

abbrev hash : Bytes
hash = 1 ∷ 2 ∷ 3 ∷ 4 ∷ []

abbrev the_vote : Vote
the_vote = record {
  block_hash = hash;
  validator_id = alice;
  signature = [];
  timestamp = 1;
  vote_id = 9 ∷ [];
}

-- Only one vote is ever marshalled here.
abbrev one_vote_json : VoteJson
one_vote_json = record { marshal_vote = λ _. some (1 ∷ []); unmarshal_vote = λ _. some the_vote }

-- All values, of which the code keeps those that are votes.
abbrev all_values : Bytes → Map Bytes Bytes → List Bytes × Bool
all_values _ d = (map (λ entry. entry.1) d, true)

all_values-lists :
    (key value : Bytes) (d : Map Bytes Bytes)
    → lookup key d ≡ some value
    → Listed value (map (λ entry. entry.1) d)
unfolding lookup
all_values-lists key value [] h = cc
all_values-lists key value ((k, v) ∷ d) h = elim (Bool-cases (bytes_equal k key)) [
  | inl hit ↦ inl (let here = rw (hit, lookup) at h in cc)
  | inr miss ↦ inr (all_values-lists key value d (rw (miss, lookup) at h))
]

abbrev open_manager : VotingManager memory_db padded curve one_vote_json
open_manager = record { sessions = []; state = none; db = some []; processed_votes = [] }

persist_vote-restart_example :
    let vm' =
      run memory_db padded curve one_vote_json
        (new_voting_manager memory_db padded curve one_vote_json all_values
          (persist_vote memory_db padded curve one_vote_json open_manager the_vote).0.db)
        (start 2 hash 1 ∷ []) in
    (e : VotingError) × (cast_vote memory_db padded curve one_vote_json vm' 3 hash alice (5 ∷ [])
      ≡ (vm', some e))
unfolding persist_vote
persist_vote-restart_example =
    persist_vote-restart memory_db padded curve one_vote_json all_values open_manager the_vote
      (1 ∷ []) (start 2 hash 1 ∷ []) 3 (5 ∷ [])
      (λ key value d h. all_values-lists (codes "vote_" ++ key) value d h) refl refl refl (tt, tt)
