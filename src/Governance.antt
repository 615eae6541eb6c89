-- ===== src/Governance.antt =====
-- rnr/pkg/consensus/governance.go: proposals and the votes of active validators.
-- The ID of a proposal is the hash of its title, author and time: an argument. The threshold
-- 0.85 is compared exactly, as 85 hundredths.
pub mod Stuck
pub mod Tally
use route_n_root.Prelude.{
  ℕ, suc, ◌+◌, ◌*◌, Bool, true, false, Option, none, some, List, [], ◌∷◌, Bytes, Map, lookup,
  insert, erase, is_some, length, count, map, bytes_key, if◌then◌else◌, leb, ◌==◌,
}
use route_n_root.Prelude.Result.{Result, ok, err}

pub data ProposalStatus : Type 0 where
  proposed voting passed failed : ProposalStatus

pub data GovernanceError : Type 0 where
  not_active not_found not_voting already_voted no_validators : GovernanceError

pub record Proposal : Type 0 where
  pub id : Bytes
  pub title : Bytes
  pub content : Bytes
  pub author_id : Bytes
  pub created_at : ℕ
  pub votes : Map Bytes Bool
  pub status : ProposalStatus
  pub vote_count : ℕ

pub record Governance : Type 0 where
  pub proposals : Map Bytes Proposal
  pub active_validators : Map Bytes Bool

-- The loop of NewGovernance: `validators` lists each ID with its flag IsActive.
unfoldable pub active_flags : Map Bytes Bool → Map Bytes Bool
active_flags [] = []
active_flags ((id, true) ∷ m) = insert id true (active_flags m)
active_flags ((id, false) ∷ m) = active_flags m

unfoldable pub new_governance : Map Bytes Bool → Governance
new_governance validators = record { proposals = []; active_validators = active_flags validators }

-- `g.activeValidators[id]`: a missing entry reads as false.
unfoldable pub is_active : Governance → Bytes → Bool
is_active g id = elim (lookup id g.active_validators) [ none ↦ false | some b ↦ b ]

unfoldable pub submit_proposal :
    Governance
    → (id title content author_id : Bytes) → (now : ℕ)
    → Governance × Result GovernanceError Proposal
submit_proposal g id title content author_id now =
    let proposal : Proposal = record {
      id = id;
      title = title;
      content = content;
      author_id = author_id;
      created_at = now;
      votes = [];
      status = proposed;
      vote_count = 0;
    } in
    if is_active g author_id
    then (record g { proposals = insert id proposal g.proposals }, ok proposal)
    else (g, err not_active)

abbrev pub is_voting : ProposalStatus → Bool
is_voting voting = true
is_voting _ = false

unfoldable pub vote : Governance → Bytes → Bytes → Bool → Governance × Option GovernanceError
vote g proposal_id validator_id ballot = elim (lookup proposal_id g.proposals) [
  | none ↦ (g, some not_found)
  | some p ↦
      if is_voting p.status
      then (if is_active g validator_id
          then (if is_some (lookup validator_id p.votes) then (g, some already_voted) else (
            record g {
              proposals =
                  insert proposal_id
                    (record p {
                      votes = insert validator_id ballot p.votes;
                      vote_count = p.vote_count + 1;
                    })
                    g.proposals;
            },
            none,
          ))
          else (g, some not_active))
      else (g, some not_voting)
]

-- The loop of TallyVotes over the votes.
abbrev pub yes_votes : Map Bytes Bool → ℕ
yes_votes = count (λ entry. entry.1)

abbrev pub with_status : Governance → Bytes → Proposal → ProposalStatus → Governance
with_status g proposal_id p s = record g {
  proposals = insert proposal_id (record p { status = s }) g.proposals;
}

unfoldable pub tally_votes : Governance → Bytes → Governance × Result GovernanceError Bool
tally_votes g proposal_id = elim (lookup proposal_id g.proposals) [
  | none ↦ (g, err not_found)
  | some p ↦
      if length g.active_validators == 0
      then (with_status g proposal_id p failed, err no_validators)
      else if leb (length g.active_validators * 85) (yes_votes p.votes * 100)
      then (with_status g proposal_id p passed, ok true)
      else (with_status g proposal_id p failed, ok false)
]

unfoldable pub revoke_validator_status : Governance → Bytes → Governance × Option GovernanceError
revoke_validator_status g validator_id =
    if is_active g validator_id
    then (record g { active_validators = erase validator_id g.active_validators }, none)
    else (g, some not_active)
