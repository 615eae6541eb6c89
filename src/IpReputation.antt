-- ===== src/IpReputation.antt =====
-- rnr/pkg/network/ip_reputation.go: scores and blacklists of IP addresses, and a count of the
-- addresses of each subnet.
-- An address is its byte slice; what package net makes of it is a parameter. A severity is a natural
-- number, as its documented range 1 to 10 is, so that a score that is cut off at 0 is ℕ's
-- subtraction.
pub mod Upkeep
pub mod Score
use route_n_root.Prelude.{
  ℕ, ◌+◌, ◌-◌, ◌*◌, ◌/◌, Bool, true, false, not, ◌&&◌, ◌||◌, Option, none, some, List, [], ◌∷◌,
  ◌++◌, Bytes, Map, lookup, insert, erase, is_some, map, bytes_key, if◌then◌else◌, ltb, leb,
}
use route_n_root.Prelude.Int.{ℤ, pos, ◌+ℤ◌, ◌-ℤ◌, ltb_ℤ}
use route_n_root.Prelude.Text.{codes}
use route_n_root.Core.{hour}

-- Package net: IP.String, IP.To4 != nil, and IP.Mask(CIDRMask(ones, bits)).String.
pub record Net : Type 0 where
  pub string : Bytes → Bytes
  pub is_ipv4 : Bytes → Bool
  pub masked : (ip : Bytes) (ones bits : ℕ) → Bytes

pub record IpMisbehavior : Type 0 where
  pub kind : Bytes
  pub severity : ℕ
  pub timestamp : ℕ
  pub description : Bytes

pub record Reputation : Type 0 where
  pub ip : Bytes
  pub score : ℕ
  pub misbehaviors : List IpMisbehavior
  pub first_seen : ℕ
  pub last_seen : ℕ
  pub successful_actions : ℕ
  pub failed_actions : ℕ
  pub is_blacklisted : Bool
  pub blacklist_reason : Bytes
  pub blacklist_until : ℕ

pub record ReputationSystem : Type 0 where
  pub reputations : Map Bytes Reputation
  pub initial_score : ℕ
  pub blacklist_threshold : ℕ
  pub blacklist_duration : ℕ
  pub max_nodes_per_subnet : ℤ
  pub subnet_mask : ℕ
  pub subnet_node_count : Map Bytes ℤ

pub data Verdict : Type 0 where
  allowed too_many_nodes reputation_too_low : Verdict
  blacklisted : (reason : Bytes) → Verdict

pub data Standing : Type 0 where
  good suspicious bad is_on_blacklist : Standing

unfoldable pub new_reputation_system : ReputationSystem
new_reputation_system = record {
  reputations = [];
  initial_score = 100;
  blacklist_threshold = 20;
  blacklist_duration = 24 * hour;
  max_nodes_per_subnet = pos 3;
  subnet_mask = 24;
  subnet_node_count = [];
}

-- `m[k]` of a map of integers.
unfoldable pub count_at : Map Bytes ℤ → Bytes → ℤ
count_at m k = elim (lookup k m) [ none ↦ pos 0 | some n ↦ n ]

module _ (N : Net) where
  -- getSubnet
  unfoldable pub get_subnet : ReputationSystem → Bytes → Bytes
  get_subnet irs ip = if N.is_ipv4 ip then N.masked ip irs.subnet_mask 32 else N.masked ip 64 128

  -- getOrCreateReputation
  unfoldable pub get_or_create_reputation :
      ReputationSystem → (now : ℕ) → Bytes → ReputationSystem × Reputation
  get_or_create_reputation irs now ip = elim (lookup (N.string ip) irs.reputations) [
    | some rep ↦ (irs, rep)
    | none ↦
        let rep : Reputation = record {
          ip = ip;
          score = irs.initial_score;
          misbehaviors = [];
          first_seen = now;
          last_seen = now;
          successful_actions = 0;
          failed_actions = 0;
          is_blacklisted = false;
          blacklist_reason = [];
          blacklist_until = 0;
        } in
        let subnet = get_subnet irs ip in
        (
          record irs {
            reputations = insert (N.string ip) rep irs.reputations;
            subnet_node_count =
                insert subnet (count_at irs.subnet_node_count subnet +ℤ pos 1)
                  irs.subnet_node_count;
          },
          rep,
        )
  ]

  -- CheckIPAllowed: an expired blacklisting is lifted.
  unfoldable pub check_ip_allowed :
      ReputationSystem → (now : ℕ) → Bytes → ReputationSystem × Verdict
  check_ip_allowed irs now ip = elim (lookup (N.string ip) irs.reputations) [
    | none ↦ (
      irs,
      if ltb_ℤ (count_at irs.subnet_node_count (get_subnet irs ip)) irs.max_nodes_per_subnet
          then allowed
          else too_many_nodes,
    )
    | some rep ↦
        let lifted : Reputation = record rep {
          is_blacklisted = false;
          score = irs.blacklist_threshold + 5;
        } in
        if rep.is_blacklisted
        then (if ltb now rep.blacklist_until then (irs, blacklisted (rep.blacklist_reason)) else (
          record irs { reputations = insert (N.string ip) lifted irs.reputations },
          if ltb lifted.score irs.blacklist_threshold then reputation_too_low else allowed,
        ))
        else (irs, if ltb rep.score irs.blacklist_threshold then reputation_too_low else allowed)
  ]

  -- The changes of RecordMisbehavior to the address's own record.
  unfoldable pub punish :
      ReputationSystem → (now : ℕ) → Bytes → (severity : ℕ) → Bytes → Reputation → Reputation
  punish irs now kind severity description rep =
      let misbehavior : IpMisbehavior = record {
        kind = kind;
        severity = severity;
        timestamp = now;
        description = description;
      } in
      let noted : Reputation = record rep {
        misbehaviors = rep.misbehaviors ++ (misbehavior ∷ []);
        failed_actions = rep.failed_actions + 1;
        last_seen = now;
        score = rep.score - severity * 5;
      } in
      let low : Reputation =
        if ltb noted.score irs.blacklist_threshold && not noted.is_blacklisted
        then record noted {
          is_blacklisted = true;
          blacklist_reason = codes "Accumulated misbehavior: " ++ kind;
          blacklist_until = now + irs.blacklist_duration;
        }
        else noted in
      if leb 8 severity
      then record low {
        is_blacklisted = true;
        blacklist_reason = codes "Critical attack: " ++ description;
        blacklist_until = now + 7 * 24 * hour;
      }
      else low

  -- RecordMisbehavior
  unfoldable pub record_misbehavior :
      ReputationSystem → (now : ℕ) → Bytes → Bytes → (severity : ℕ) → Bytes → ReputationSystem
  record_misbehavior irs now ip kind severity description =
      let (irs', rep) = get_or_create_reputation irs now ip in
      record irs' {
        reputations =
            insert (N.string ip) (punish irs now kind severity description rep) irs'.reputations;
      }

  unfoldable pub praise : ℕ → Reputation → Reputation
  praise now rep = record rep {
    successful_actions = rep.successful_actions + 1;
    last_seen = now;
    score = if ltb 100 (rep.score + 1) then 100 else rep.score + 1;
  }

  -- RecordSuccess
  unfoldable pub record_success : ReputationSystem → (now : ℕ) → Bytes → ReputationSystem
  record_success irs now ip =
      let (irs', rep) = get_or_create_reputation irs now ip in
      record irs' { reputations = insert (N.string ip) (praise now rep) irs'.reputations }

  unfoldable pub get_reputation : ReputationSystem → Bytes → Option Reputation
  get_reputation irs ip = lookup (N.string ip) irs.reputations

  -- GetReputationStatus
  unfoldable pub get_reputation_status : ReputationSystem → Bytes → Standing
  get_reputation_status irs ip = elim (lookup (N.string ip) irs.reputations) [
    | none ↦ good
    | some rep ↦
        if rep.is_blacklisted
        then is_on_blacklist
        else if leb 80 rep.score
        then good
        else if leb 50 rep.score
        then suspicious
        else bad
  ]
