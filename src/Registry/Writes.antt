-- ===== src/Registry/Writes.antt =====
-- rnr/pkg/consensus: what suspensions, scores and keys change of the entries and the observers.

use route_n_root.Prelude.{ℕ, refl, inl, inr, Bytes, Option-cases, IsDistinct, bytes_key}
use route_n_root.Registry.{ValidatorState, ValidatorRegistry}
use route_n_root.Registry.Exits.{suspend_validator, clear_suspension}
use route_n_root.Registry.Updates.{
  SpeedTest, with_score, with_speed_test, with_vrf_key, update_known, record_pob_score,
  record_speed_test, store_vrf_key,
}
use route_n_root.Registry.Activation.{observed-update}
use route_n_root.Registry.Steps.{suspend, clear, measure, speed_test, store_key}
use route_n_root.Registry.Moves.{Moves, still, rescored}

module _ (V : ValidatorState) where
  pub suspend-Moves :
      (now : ℕ) (vr : ValidatorRegistry V) (id : Bytes) (until : ℕ) (reason : Bytes)
      → IsDistinct vr.validators
      → Moves V now (suspend id until reason) vr (suspend_validator V vr id until reason).0
  unfolding suspend_validator
  suspend-Moves now vr id until reason d = elim (Option-cases (V.get_validator id vr.state)) [
    | inl missing ↦
        rw (missing, suspend_validator)
          (still V now (suspend id until reason) vr vr.state d (λ j. tt) (λ j. refl))
    | inr (info, found) ↦
        rw (found, suspend_validator)
          (still V now (suspend id until reason) vr _ d (λ j. tt)
            (observed-update V vr.state id info _ found refl refl))
  ]

  pub clear-Moves :
      (now : ℕ) (vr : ValidatorRegistry V) (id : Bytes)
      → IsDistinct vr.validators
      → Moves V now (clear id) vr (clear_suspension V vr id).0
  unfolding clear_suspension
  clear-Moves now vr id d = elim (Option-cases (V.get_validator id vr.state)) [
    | inl missing ↦
        rw (missing, clear_suspension) (still V now (clear id) vr vr.state d (λ j. tt) (λ j. refl))
    | inr (info, found) ↦
        rw (found, clear_suspension)
          (still V now (clear id) vr _ d (λ j. tt)
            (observed-update V vr.state id info _ found refl refl))
  ]

  pub update-Moves :
      (now : ℕ) (vr : ValidatorRegistry V) (id : Bytes) (score : ℕ)
      → IsDistinct vr.validators
      → Moves V now (measure id score) vr (record_pob_score V vr now id score)
  unfolding record_pob_score update_known with_score
  update-Moves now vr id score d = elim (Option-cases (V.get_validator id vr.state)) [
    | inl missing ↦
        rw (missing, update_known)
          (still V now (measure id score) vr vr.state d (λ j. tt) (λ j. refl))
    | inr (info, found) ↦
        rw (found, update_known)
          (rescored V now (measure id score) vr id info _ score d (λ j. tt) found refl refl refl)
  ]

  pub speed_test-Moves :
      (now : ℕ) (vr : ValidatorRegistry V) (id : Bytes) (test : SpeedTest)
      → IsDistinct vr.validators
      → Moves V now (speed_test id test) vr (record_speed_test V vr now id test)
  unfolding record_speed_test update_known with_speed_test
  speed_test-Moves now vr id test d = elim (Option-cases (V.get_validator id vr.state)) [
    | inl missing ↦
        rw (missing, update_known)
          (still V now (speed_test id test) vr vr.state d (λ j. tt) (λ j. refl))
    | inr (info, found) ↦
        rw (found, update_known)
          (rescored V now (speed_test id test) vr id info _ test.score d (λ j. tt) found refl refl
            refl)
  ]

  pub store_key-Moves :
      (now : ℕ) (vr : ValidatorRegistry V) (id key : Bytes)
      → IsDistinct vr.validators
      → Moves V now (store_key id key) vr (store_vrf_key V vr id key)
  unfolding store_vrf_key update_known with_vrf_key
  store_key-Moves now vr id key d = elim (Option-cases (V.get_validator id vr.state)) [
    | inl missing ↦
        rw (missing, update_known)
          (still V now (store_key id key) vr vr.state d (λ j. tt) (λ j. refl))
    | inr (info, found) ↦
        rw (found, update_known)
          (still V now (store_key id key) vr _ d (λ j. tt)
            (observed-update V vr.state id info _ found refl refl))
  ]
