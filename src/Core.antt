-- ===== src/Core.antt =====
-- rnr/pkg/core: the chain's data types and constants.
-- Strings and byte slices are byte lists, times are nanoseconds since the zero time, `*big.Int`
-- amounts are integers, and a float64 that is only carried along is its bit pattern.
use route_n_root.Prelude.{ℕ, ◌*◌, ◌^◌, ◌%◌, Bool, List, Bytes}
use route_n_root.Prelude.Int.{ℤ}

pub record Transaction : Type 0 where
  pub id : Bytes
  pub from : Bytes
  pub to : Bytes
  pub amount : ℤ
  pub timestamp : ℕ
  pub nonce : ℕ
  pub fee : ℤ
  pub signature : Bytes
  pub payload : Bytes  -- the field `Data`

pub record BlockHeader : Type 0 where
  pub version : ℕ
  pub prev_block_hash : Bytes
  pub merkle_root : Bytes
  pub timestamp : ℕ
  pub nonce : ℕ
  pub difficulty : ℤ
  pub height : ℕ
  pub pob_score : ℕ
  pub pob_weight : ℕ
  pub vrf_proof : Bytes
  pub vrf_output : Bytes

-- The code keeps the header and the transactions behind pointers, which are not nil here.
pub record Block : Type 0 where
  pub header : BlockHeader
  pub transactions : List Transaction
  pub proposer_id : Bytes
  pub poh_sequence : Bytes
  pub signature : Bytes
  pub vrf_proof : Bytes

pub record Account : Type 0 where
  pub address : Bytes
  pub balance : ℤ
  pub nonce : ℕ
  pub code_hash : Bytes

pub record ValidatorInfo : Type 0 where
  pub id : Bytes
  pub public_key : Bytes
  pub vrf_public_key : Bytes
  pub pob_score : ℕ
  pub upload_bandwidth : ℕ
  pub latency : ℕ
  pub packet_loss : ℕ
  pub reputation : ℤ
  pub last_pob_test : ℕ
  pub is_active : Bool
  pub reward_address : Bytes
  pub network_asn : Bytes
  pub ip_address : Bytes
  pub is_suspended : Bool
  pub suspension_end_time : ℕ
  pub suspension_reason : Bytes
  pub is_observer : Bool
  pub observer_start_time : ℕ
  pub observer_duration : ℕ

-- Wrapping to uint64.
abbrev pub u64 : ℕ → ℕ
u64 n = n % 2 ^ 64

-- Durations, in nanoseconds.
abbrev pub second : ℕ
second = 1_000_000_000

abbrev pub minute : ℕ
minute = 60 * second

abbrev pub hour : ℕ
hour = 60 * minute
