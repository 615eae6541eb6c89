-- ===== src/Registry/Exits.antt =====
-- rnr/pkg/consensus/validator_registry.go: exits and suspensions.
use route_n_root.Prelude.{
  ℕ, ◌+◌, true, false, ◌&&◌, not, Option, none, some, [], Bytes, lookup, insert, keep, bytes_key,
  if◌then◌else◌, leb,
}
use route_n_root.Registry.{
  ValidatorState, exiting, RegistryError, not_found, not_active, ValidatorRegistry,
  is_active_status, is_exiting,
}

module _ (V : ValidatorState) where
  unfoldable pub request_exit :
      ValidatorRegistry V → (now : ℕ) → Bytes → ValidatorRegistry V × Option RegistryError
  unfolding is_active_status
  request_exit vr now id = elim (lookup id vr.validators) [
    | none ↦ (vr, some not_found)
    | some r ↦
        let s : V.State = elim (V.get_validator id vr.state) [
          | none ↦ vr.state
          | some info ↦ V.update_validator (record info { is_active = false }) vr.state
        ] in
        if is_active_status r.status
        then (
          record vr {
            validators = insert id (record r { status = exiting; exit_time = now }) vr.validators;
            state = s;
          },
          none,
        )
        else (vr, some not_active)
  ]

  unfoldable pub process_exits : ValidatorRegistry V → (now : ℕ) → ValidatorRegistry V
  unfolding is_exiting
  process_exits vr now = record vr {
    validators =
        keep (λ _ r. not (is_exiting r.status && leb (r.exit_time + vr.exit_delay) now))
          vr.validators;
  }

  unfoldable pub suspend_validator :
      ValidatorRegistry V
      → Bytes
      → (suspension_end_time : ℕ) (reason : Bytes) → ValidatorRegistry V × Option RegistryError
  suspend_validator vr id until reason = elim (V.get_validator id vr.state) [
    | none ↦ (vr, some not_found)
    | some info ↦ (
      record vr {
        state =
            V.update_validator
              (record info {
                is_suspended = true;
                suspension_end_time = until;
                suspension_reason = reason;
              })
              vr.state;
      },
      none,
    )
  ]

  unfoldable pub clear_suspension :
      ValidatorRegistry V → Bytes → ValidatorRegistry V × Option RegistryError
  clear_suspension vr id = elim (V.get_validator id vr.state) [
    | none ↦ (vr, some not_found)
    | some info ↦ (
      record vr {
        state =
            V.update_validator
              (record info {
                is_suspended = false;
                suspension_end_time = 0;
                suspension_reason = [];
              })
              vr.state;
      },
      none,
    )
  ]
