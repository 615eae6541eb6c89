-- ===== src/Governance/Stuck.antt =====
-- rnr/pkg/consensus/governance.go: no operation puts a proposal into the voting phase.
use route_n_root.Prelude.{
  ℕ, ◌≡◌, refl, ◌≢◌, ◌⊎◌, inl, inr, Bool-cases, Option-cases, Map, Bool, true, some, List, [], ◌∷◌,
  Bytes, lookup, insert, lookup-insert, bytes_key, arith,
}
use route_n_root.Prelude.Result.{ok}
use route_n_root.Governance.{
  Governance, Proposal, voting, passed, not_found, not_voting, new_governance, is_active,
  with_status, failed, submit_proposal, vote, tally_votes, revoke_validator_status,
}

-- A call of the public interface.
pub data Call : Type 0 where
  submit : (id title content author_id : Bytes) (now : ℕ) → Call
  cast : (proposal_id validator_id : Bytes) (ballot : Bool) → Call
  tally : (proposal_id : Bytes) → Call
  revoke : (validator_id : Bytes) → Call

pub apply : Governance → Call → Governance
apply g (submit id title content author_id now) =
    (submit_proposal g id title content author_id now).0
apply g (cast proposal_id validator_id ballot) = (vote g proposal_id validator_id ballot).0
apply g (tally proposal_id) = (tally_votes g proposal_id).0
apply g (revoke validator_id) = (revoke_validator_status g validator_id).0

pub run : Governance → List Call → Governance
run g [] = g
run g (c ∷ cs) = run (apply g c) cs

-- No proposal is in the voting phase, has a vote or was passed.
abbrev IsIdle : Governance → Type 0
IsIdle g =
    (id : Bytes) (p : Proposal)
    → lookup id g.proposals ≡ some p
    → (p.status ≢ voting) × (p.status ≢ passed) × (p.votes ≡ [])

insert-IsIdle :
    (g : Governance) (id : Bytes) (p : Proposal)
    → IsIdle g
    → p.status ≢ voting
    → p.status ≢ passed
    → p.votes ≡ []
    → IsIdle (record g { proposals = insert id p g.proposals })
insert-IsIdle g id p v s t e k q h = ground (arith, lookup-insert id k p g.proposals, v k q)

submit-IsIdle :
    (g : Governance) (id title content author_id : Bytes) (now : ℕ)
    → IsIdle g
    → IsIdle (submit_proposal g id title content author_id now).0
unfolding submit_proposal
submit-IsIdle g id title content author_id now v = elim (Bool-cases (is_active g author_id)) [
  | inl yes_active ↦ rw yes_active (insert-IsIdle g id _ v (λ h. cc) (λ h. cc) refl)
  | inr inactive ↦ rw inactive v
]

vote_idle :
    (g : Governance) (proposal_id validator_id : Bytes) (ballot : Bool)
    → IsIdle g
    → (vote g proposal_id validator_id ballot ≡ (g, some not_found))
      ⊎ (vote g proposal_id validator_id ballot ≡ (g, some not_voting))
unfolding vote
vote_idle g proposal_id validator_id ballot v =
    elim (Option-cases (lookup proposal_id g.proposals)) [
      | inl missing ↦ inl (rw (missing, vote))
      | inr (p, found) ↦ inr (rw (found, vote) (ground (arith, v proposal_id p found)))
    ]

tally_no_votes :
    (g : Governance) (proposal_id : Bytes) (p : Proposal)
    → lookup proposal_id g.proposals ≡ some p
    → p.votes ≡ []
    → ((tally_votes g proposal_id).0 ≡ with_status g proposal_id p failed)
      × ((tally_votes g proposal_id).1 ≢ ok true)
unfolding tally_votes
tally_no_votes g proposal_id p found no_votes = rw (found, tally_votes) (ground arith)

tally-IsIdle :
    (g : Governance) (proposal_id : Bytes)
    → IsIdle g
    → IsIdle (tally_votes g proposal_id).0 × ((tally_votes g proposal_id).1 ≢ ok true)
unfolding tally_votes
tally-IsIdle g proposal_id v = elim (Option-cases (lookup proposal_id g.proposals)) [
  | inl missing ↦ rw (missing, tally_votes) (v, λ h. cc)
  | inr (p, found) ↦
      let (_, _, no_votes) = v proposal_id p found in
      let (state, result) = tally_no_votes g proposal_id p found no_votes in
      (rw state (insert-IsIdle g proposal_id _ v (λ h. cc) (λ h. cc) no_votes), result)
]

apply-IsIdle : (g : Governance) (c : Call) → IsIdle g → IsIdle (apply g c)
unfolding apply revoke_validator_status
apply-IsIdle g (submit id title content author_id now) v =
    submit-IsIdle g id title content author_id now v
apply-IsIdle g (cast proposal_id validator_id ballot) v =
    elim (vote_idle g proposal_id validator_id ballot v) [
      | inl e ↦ rw (e, apply) v
      | inr e ↦ rw (e, apply) v
    ]
apply-IsIdle g (tally proposal_id) v = (tally-IsIdle g proposal_id v).0
apply-IsIdle g (revoke validator_id) v = elim (Bool-cases (is_active g validator_id)) [
  | inl h ↦ rw (h, apply, revoke_validator_status) v
  | inr h ↦ rw (h, apply, revoke_validator_status) v
]

run-IsIdle : (g : Governance) (cs : List Call) → IsIdle g → IsIdle (run g cs)
unfolding run
run-IsIdle g [] v = v
run-IsIdle g (c ∷ cs) v = run-IsIdle (apply g c) cs (apply-IsIdle g c v)

new_governance-IsIdle : (validators : Map Bytes Bool) → IsIdle (new_governance validators)
unfolding new_governance lookup
new_governance-IsIdle validators k p h = cc h

-- After any calls of the interface on a new governance object, every vote is refused and changes
-- nothing, and no tally passes a proposal: nothing ever opens the voting phase.
pub governance_never_votes :
    (validators : Map Bytes Bool) (cs : List Call) (proposal_id validator_id : Bytes)
    (ballot : Bool)
    → let g = run (new_governance validators) cs in
      ((vote g proposal_id validator_id ballot ≡ (g, some not_found))
        ⊎ (vote g proposal_id validator_id ballot ≡ (g, some not_voting)))
      × ((tally_votes g proposal_id).1 ≢ ok true)
governance_never_votes validators cs proposal_id validator_id ballot =
    let idle = run-IsIdle (new_governance validators) cs (new_governance-IsIdle validators) in
    (vote_idle _ proposal_id validator_id ballot idle, (tally-IsIdle _ proposal_id idle).1)
