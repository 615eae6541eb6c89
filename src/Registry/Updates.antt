-- ===== src/Registry/Updates.antt =====
-- rnr/pkg/consensus/validator_service.go and pob_speedtest_integration.go: how the node writes what it
-- learned of a validator, next to the registry, to the state that they share. A score is the bit
-- pattern of the float64 value that a bandwidth test gave.
use route_n_root.Prelude.{ℕ, none, some, Bytes}
use route_n_root.Core.{ValidatorInfo}
use route_n_root.Registry.{ValidatorState, ValidatorRegistry}

-- The fields of a P2P test result that are kept.
pub record SpeedTest : Type 0 where
  pub score : ℕ
  pub upload_bandwidth : ℕ
  pub latency : ℕ
  pub packet_loss : ℕ

unfoldable pub with_score : (now score : ℕ) → ValidatorInfo → ValidatorInfo
with_score now score info = record info { pob_score = score; last_pob_test = now }

unfoldable pub with_speed_test : (now : ℕ) → SpeedTest → ValidatorInfo → ValidatorInfo
with_speed_test now test info = record info {
  pob_score = test.score;
  upload_bandwidth = test.upload_bandwidth;
  latency = test.latency;
  packet_loss = test.packet_loss;
  last_pob_test = now;
}

unfoldable pub with_vrf_key : Bytes → ValidatorInfo → ValidatorInfo
with_vrf_key key info = record info { vrf_public_key = key }

module _ (V : ValidatorState) where
  -- A validator that is known is read, changed and written back.
  unfoldable pub update_known :
      (ValidatorInfo → ValidatorInfo) → ValidatorRegistry V → Bytes → ValidatorRegistry V
  update_known change vr id = elim (V.get_validator id vr.state) [
    | none ↦ vr
    | some info ↦ record vr { state = V.update_validator (change info) vr.state }
  ]

  -- The end of the bandwidth test of validator_service.go.
  unfoldable pub record_pob_score :
      ValidatorRegistry V → (now : ℕ) (candidate : Bytes) (score : ℕ) → ValidatorRegistry V
  unfolding update_known with_score
  record_pob_score vr now candidate score = update_known (with_score now score) vr candidate

  -- The end of the P2P test of pob_speedtest_integration.go.
  unfoldable pub record_speed_test :
      ValidatorRegistry V → (now : ℕ) (candidate : Bytes) → SpeedTest → ValidatorRegistry V
  unfolding update_known with_speed_test
  record_speed_test vr now candidate test = update_known (with_speed_test now test) vr candidate

  -- The end of NewValidatorService.
  unfoldable pub store_vrf_key : ValidatorRegistry V → (id key : Bytes) → ValidatorRegistry V
  unfolding update_known with_vrf_key
  store_vrf_key vr id key = update_known (with_vrf_key key) vr id
