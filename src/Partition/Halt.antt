-- ===== src/Partition/Halt.antt =====
-- rnr/pkg/consensus/partition_detector.go: when the consensus is halted.
use route_n_root.Prelude.{
  ℕ, ◌+◌, ◌*◌, ◌<◌, ◌≤◌, ◌≡◌, ◌↔◌, refl, Bool, true, [], ◌∷◌, Bytes, bytes_key, Map, keep, length,
  count, leb, arith,
}
use route_n_root.Partition.{
  PartitionDetector, healthy, classify, check_partition_status, should_halt_consensus,
}

length-keep :
    (p : Bytes → ℕ → Bool) (m : Map Bytes ℕ)
    → length (keep p m) ≡ count (λ entry. p (entry.0) (entry.1)) m
unfolding keep
length-keep p [] = refl
length-keep p ((k, v) ∷ m) = ground (arith, length-keep p m)

-- The heartbeats that are not older than the timeout.
abbrev pub active_count : PartitionDetector → ℕ → ℕ
active_count pd now = count (λ entry. leb now (entry.1 + pd.heartbeat_timeout)) pd.peer_heartbeats

-- After a check, consensus is halted exactly if fewer than 33 percent of the validators have a heartbeat that is not older than
-- the timeout, and the status is healthy exactly if at least 67 percent have one.
pub check_partition_status_lem :
    (pd : PartitionDetector) (now : ℕ)
    → let (pd', status) = check_partition_status pd now in
      ((should_halt_consensus pd' ≡ true) ↔ (active_count pd now * 100 < pd.total_validators * 33))
      × ((status ≡ healthy) ↔ (pd.total_validators * 67 ≤ active_count pd now * 100))
      × (pd'.connected_peers ≡ active_count pd now)
unfolding check_partition_status should_halt_consensus classify
check_partition_status_lem pd now =
    let counted =
      length-keep (λ _ last_seen. leb now (last_seen + pd.heartbeat_timeout)) pd.peer_heartbeats in
    ground (arith, counted)
