-- ===== src/IpReputation/Upkeep.antt =====
-- rnr/pkg/network/ip_reputation.go: the hourly recovery of scores and the removal of old records.
-- The 10 percent recovery of an hour is the tenth, rounded down, of the missing score: Go's float64
-- product agrees with it on scores.
use route_n_root.Prelude.{
  ℕ, ◌+◌, ◌-◌, ◌*◌, ◌/◌, Bool, true, false, not, ◌&&◌, ◌||◌, List, [], ◌∷◌, Bytes, Map, insert,
  erase, map, bytes_key, if◌then◌else◌, ltb, leb,
}
use route_n_root.Prelude.Int.{pos, ◌-ℤ◌, ltb_ℤ}
use route_n_root.Core.{hour}
use route_n_root.IpReputation.{
  Net, IpMisbehavior, Reputation, ReputationSystem, count_at, get_subnet,
}

module _ (N : Net) where
  -- Misbehavior later than a cutoff 24 hours ago.
  unfoldable pub has_recent : ℕ → List IpMisbehavior → Bool
  has_recent now [] = false
  has_recent now (mb ∷ mbs) =
      let rest = has_recent now mbs in if ltb now (mb.timestamp + 24 * hour) then true else rest

  unfoldable pub recover : ReputationSystem → ℕ → Reputation → Reputation
  recover irs now rep =
      let recovery =
        if ltb ((irs.initial_score - rep.score) / 10) 1
        then 1
        else (irs.initial_score - rep.score) / 10 in
      let score =
        if ltb irs.initial_score (rep.score + recovery)
        then irs.initial_score
        else rep.score + recovery in
      if rep.is_blacklisted && ltb now rep.blacklist_until
      then rep
      else if not (has_recent now rep.misbehaviors) && ltb rep.score irs.initial_score
      then record rep { score = score }
      else rep

  -- A tick of StartReputationDecay.
  unfoldable pub decay_tick : ReputationSystem → ℕ → ReputationSystem
  decay_tick irs now = record irs {
    reputations = map (λ entry. (entry.0, recover irs now (entry.1))) irs.reputations;
  }

  -- CleanupOldReputations: a step of its loop, and the loop.
  unfoldable pub forget_reputation : ReputationSystem → ℕ → Bytes → Reputation → ReputationSystem
  forget_reputation irs now ip_str rep =
      let subnet = get_subnet N irs rep.ip in
      let left = count_at irs.subnet_node_count subnet -ℤ pos 1 in
      let month = 30 * 24 * hour in
      if rep.is_blacklisted || ltb now (rep.last_seen + month)
      then irs
      else if leb 90 rep.score && ltb (rep.last_seen + month) now
      then record irs {
        reputations = erase ip_str irs.reputations;
        subnet_node_count =
            if ltb_ℤ (pos 0) left
            then insert subnet left irs.subnet_node_count
            else erase subnet irs.subnet_node_count;
      }
      else irs

  unfoldable pub forget_reputations : ReputationSystem → ℕ → Map Bytes Reputation → ReputationSystem
  forget_reputations irs now [] = irs
  forget_reputations irs now ((ip_str, rep) ∷ rest) =
      forget_reputations (forget_reputation irs now ip_str rep) now rest

  unfoldable pub cleanup_old_reputations : ReputationSystem → ℕ → ReputationSystem
  cleanup_old_reputations irs now = forget_reputations irs now irs.reputations
