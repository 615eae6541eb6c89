-- ===== src/Governance/Tally.antt =====
-- rnr/pkg/consensus/governance.go: what a vote changes, for a proposal in the voting phase.
use route_n_root.Prelude.{
  ◌+◌, ◌≡◌, ◌↔◌, inl, inr, Bool, Option-cases, true, none, some, Bytes, lookup, insert,
  lookup-insert_self, bytes_key, arith,
}
use route_n_root.Governance.{Governance, Proposal, voting, already_voted, is_active, vote}

-- A vote is accepted exactly for a known proposal in the voting phase, from an active validator
-- who has not voted on it.
vote-accepted_iff :
    (g : Governance) (proposal_id validator_id : Bytes) (ballot : Bool)
    → ((vote g proposal_id validator_id ballot).1 ≡ none) ↔ (
        (p : Proposal) × (lookup proposal_id g.proposals ≡ some p)
        × (p.status ≡ voting)
        × (is_active g validator_id ≡ true)
        × (lookup validator_id p.votes ≡ none))
unfolding vote
vote-accepted_iff g proposal_id validator_id ballot =
    elim (Option-cases (lookup proposal_id g.proposals)) [
      | inl missing ↦ ((λ h. cc (rw (missing, vote) at h)), λ h. let e = h.1 in ground arith)
      | inr (p, found) ↦
          ((λ h. (p, found, ground arith, ground arith, ground arith)), λ h. ground arith)
    ]

-- An accepted vote is the only one of its validator on the proposal: the next one is refused.
vote_twice :
    (g : Governance) (proposal_id validator_id : Bytes) (ballot again : Bool)
    → (vote g proposal_id validator_id ballot).1 ≡ none
    → let g' = (vote g proposal_id validator_id ballot).0 in
      vote g' proposal_id validator_id again ≡ (g', some already_voted)
unfolding vote is_active
vote_twice g proposal_id validator_id ballot again h =
    elim (Option-cases (lookup proposal_id g.proposals)) [
      | inl missing ↦ cc (rw (missing, vote) at h)
      | inr (p, found) ↦
          let p' : Proposal = record p {
            votes = insert validator_id ballot p.votes;
            vote_count = p.vote_count + 1;
          } in
          ground (
            arith,
            lookup-insert_self proposal_id p' g.proposals,
            lookup-insert_self validator_id ballot p.votes,
          )
    ]
