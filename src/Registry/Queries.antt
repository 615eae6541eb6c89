-- ===== src/Registry/Queries.antt =====
-- rnr/pkg/consensus/validator_registry.go: what the registry is asked.
use route_n_root.Prelude.{
  ℕ, ◌+◌, none, some, List, [], ◌∷◌, Bytes, Map, lookup, bytes_key, if◌then◌else◌,
}
use route_n_root.Prelude.Result.{Result, or_err}
use route_n_root.Core.{ValidatorInfo}
use route_n_root.Registry.{
  ValidatorState, ValidatorRegistration, RegistryError, not_found, ValidatorRegistry,
  is_active_status,
}

module _ (V : ValidatorState) where
  -- The loops of GetAllValidators, GetActiveValidators and GetActiveValidatorCount.
  unfoldable pub all_from : V.State → Map Bytes ValidatorRegistration → List ValidatorInfo
  all_from s [] = []
  all_from s ((id, _) ∷ rest) = elim (V.get_validator id s) [
    | none ↦ all_from s rest
    | some info ↦ info ∷ all_from s rest
  ]

  unfoldable pub get_all_validators : ValidatorRegistry V → List ValidatorInfo
  unfolding all_from
  get_all_validators vr = all_from vr.state vr.validators

  unfoldable pub active_from : Map Bytes ValidatorRegistration → List Bytes
  unfolding is_active_status
  active_from [] = []
  active_from ((id, r) ∷ rest) =
      let ids = active_from rest in if is_active_status r.status then id ∷ ids else ids

  unfoldable pub get_active_validators : ValidatorRegistry V → List Bytes
  unfolding active_from
  get_active_validators vr = active_from vr.validators

  unfoldable pub get_validator_info :
      ValidatorRegistry V → Bytes → Result RegistryError ValidatorRegistration
  get_validator_info vr id = or_err not_found (lookup id vr.validators)

  unfoldable pub count_active : Map Bytes ValidatorRegistration → ℕ
  unfolding is_active_status
  count_active [] = 0
  count_active ((_, r) ∷ rest) = count_active rest + (if is_active_status r.status then 1 else 0)

  unfoldable pub get_active_validator_count : ValidatorRegistry V → ℕ
  unfolding count_active
  get_active_validator_count vr = count_active vr.validators
