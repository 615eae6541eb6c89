-- ===== src/Partition.antt =====
-- rnr/pkg/consensus/partition_detector.go: how many validators are still heard from.
-- The ratio of connected validators is compared by cross products: the thresholds are 33 and 67
-- hundredths. For no validators at all Go divides by zero and both comparisons are false, as here.
pub mod Halt
use route_n_root.Prelude.{
  ℕ, ◌+◌, ◌*◌, Bool, true, false, not, List, [], ◌∷◌, Bytes, Map, insert, keep, length, bytes_key,
  if◌then◌else◌, ltb, leb,
}
use route_n_root.Core.{second}

pub data PartitionStatus : Type 0 where
  healthy suspected partitioned : PartitionStatus

pub record PartitionDetector : Type 0 where
  pub peer_heartbeats : Map Bytes ℕ
  pub total_validators : ℕ
  pub connected_peers : ℕ
  pub status : PartitionStatus
  pub heartbeat_timeout : ℕ

unfoldable pub new_partition_detector : ℕ → PartitionDetector
new_partition_detector total = record {
  peer_heartbeats = [];
  total_validators = total;
  connected_peers = 0;
  status = healthy;
  heartbeat_timeout = 30 * second;
}

unfoldable pub update_heartbeat : PartitionDetector → ℕ → Bytes → PartitionDetector
update_heartbeat pd now peer_id = record pd {
  peer_heartbeats = insert peer_id now pd.peer_heartbeats;
}

-- The three outcomes of CheckPartitionStatus.
unfoldable pub classify : ℕ → ℕ → PartitionStatus
classify active total =
    if ltb (active * 100) (total * 33)
    then partitioned
    else if ltb (active * 100) (total * 67)
    then suspected
    else healthy

-- CheckPartitionStatus: heartbeats older than the timeout go, the others are counted.
unfoldable pub check_partition_status : PartitionDetector → ℕ → PartitionDetector × PartitionStatus
check_partition_status pd now =
    let fresh =
      keep (λ _ last_seen. leb now (last_seen + pd.heartbeat_timeout)) pd.peer_heartbeats in
    let status = classify (length fresh) pd.total_validators in
    (record pd { peer_heartbeats = fresh; connected_peers = length fresh; status = status }, status)

unfoldable pub should_halt_consensus : PartitionDetector → Bool
should_halt_consensus pd = elim (pd.status) [ partitioned ↦ true | _ ↦ false ]
