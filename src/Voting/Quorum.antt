-- ===== src/Voting/Quorum.antt =====
-- rnr/pkg/consensus/voting.go: what finality means.
use route_n_root.Prelude.{
  ℕ, ◌+◌, ◌*◌, ◌≤◌, ◌<◌, ◌≡◌, sym, inl, inr, true, some, Bytes, Option-cases, All-lookup, lookup,
  length, bytes_key, arith,
}
use route_n_root.Prelude.Result.{ok}
use route_n_root.Prelude.Text.{encode_to_string}
use route_n_root.Platform.{LevelDb, Sha256}
use route_n_root.Voting.{
  VotingSession, Ecdsa, VoteJson, required_for, VotingManager, check_finality,
}
use route_n_root.Voting.Session.{IsSound, IsValid}

module _ (L : LevelDb) (S : Sha256) (E : Ecdsa) (J : VoteJson) where
  sound_quorum :
      (s : VotingSession)
      → IsSound s
      → s.is_finalized ≡ true
      → (length s.votes ≡ required_for s.total_validators)
        × (1 ≤ length s.votes)
        × (s.total_validators * 85 < (length s.votes + 1) * 100)
  unfolding required_for
  sound_quorum s i done = ground (arith, i.1, i.2, i.3, i.4)

  -- On a manager whose sessions are sound, if CheckFinality reports a block final with n votes, then
  -- its session's validators have cast n votes, one at least and, up to the rounding of the
  -- threshold, 85 percent of their number.
  pub check_finality-quorum :
      (vm : VotingManager L S E J) (block_hash : Bytes) (n : ℕ)
      → IsValid L S E J vm
      → check_finality L S E J vm block_hash ≡ ok (true, n)
      → (s : VotingSession) × (lookup (encode_to_string block_hash) vm.sessions ≡ some s)
        × (n ≡ length s.votes)
        × (1 ≤ n)
        × (s.total_validators * 85 < (n + 1) * 100)
  unfolding check_finality
  check_finality-quorum vm block_hash n i h =
      elim (Option-cases (lookup (encode_to_string block_hash) vm.sessions)) [
        | inl missing ↦ cc (rw (missing, check_finality) at h)
        | inr (s, found) ↦
            let sound = All-lookup IsSound (encode_to_string block_hash) s vm.sessions i found in
            let reported = rw (found, check_finality) at h in
            let done : s.is_finalized ≡ true = cc in
            let counted : length s.votes ≡ n = cc in
            let (_, some_vote, quorum) = sound_quorum s sound done in
            (s, found, sym counted, omega arith, omega arith)
      ]
