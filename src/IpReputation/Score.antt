-- ===== src/IpReputation/Score.antt =====
-- rnr/pkg/network/ip_reputation.go: what misbehavior does to an address.
use route_n_root.Prelude.{
  ℕ, ◌+◌, ◌*◌, ◌≤◌, ◌<◌, ◌≡◌, refl, inl, inr, true, Bytes, Bool-cases, lookup-insert_self,
  bytes_key, leb, lt→ltb, ◌++◌, arith,
}
use route_n_root.Prelude.Text.{codes}
use route_n_root.Core.{hour}
use route_n_root.IpReputation.{
  Net, Reputation, ReputationSystem, blacklisted, get_or_create_reputation, check_ip_allowed,
  punish, record_misbehavior,
}

module _ (N : Net) where
  punish_blacklists :
      (irs : ReputationSystem) (now : ℕ) (kind : Bytes) (severity : ℕ) (description : Bytes)
      (rep : Reputation)
      → 8 ≤ severity
      → let rep' = punish N irs now kind severity description rep in
        (rep'.is_blacklisted ≡ true)
        × (rep'.blacklist_reason ≡ codes "Critical attack: " ++ description)
        × (rep'.blacklist_until ≡ now + 7 * 24 * hour)
  unfolding punish
  punish_blacklists irs now kind severity description rep h = elim (Bool-cases (leb 8 severity)) [
    | inl critical ↦ rw (critical, punish) (refl, refl, refl)
    | inr minor ↦ ground arith
  ]

  -- After misbehavior of severity 8 or more, the address is refused for seven days, whatever its score was, and the check leaves
  -- the system as it is.
  pub record_misbehavior-refuses :
      (irs : ReputationSystem) (now later : ℕ) (ip kind : Bytes) (severity : ℕ)
      (description : Bytes)
      → 8 ≤ severity
      → later < now + 7 * 24 * hour
      → let irs' = record_misbehavior N irs now ip kind severity description in
        check_ip_allowed N irs' later ip
        ≡ (irs', blacklisted (codes "Critical attack: " ++ description))
  unfolding record_misbehavior check_ip_allowed
  record_misbehavior-refuses irs now later ip kind severity description h early =
      let found = get_or_create_reputation N irs now ip in
      let (listed, reason, until) =
        punish_blacklists irs now kind severity description (found.1) h in
      let rep = punish N irs now kind severity description (found.1) in
      let stays = lt→ltb later rep.blacklist_until (omega arith) in
      rw
        (
          lookup-insert_self (N.string ip) rep found.0.reputations,
          check_ip_allowed,
          listed,
          stays,
          reason,
        )
        refl
