-- ===== src/Registry/Lifecycle.antt =====
-- rnr/pkg/consensus/validator_registry.go: how an entry of the registry may change.
use mathlib.Core.Option
use mathlib.Core.Path.{subst}
use route_n_root.Prelude.{
  ℕ, ◌+◌, ◌≡◌, refl, sym, ap, ◌∙◌, inl, inr, ◌&&◌, not, none, some, Bytes, Bool-cases, Option-cases,
  IsDistinct, lookup, insert, lookup-keep, keep-IsDistinct, keep_entry, same_refl, length, ltb,
  bytes_key, leb, arith,
}
use route_n_root.Prelude.Int.{◌-ℤ◌, ltb_ℤ}
use route_n_root.Registry.{
  ValidatorState, exiting, ValidatorRegistration, RegistrationTx, ValidatorRegistry,
  calculate_observer_duration, calculate_dynamic_entry_fee, new_registration, new_validator_info,
  admit, register_validator, activate_pending_validators, is_active_status, is_exiting,
}
use route_n_root.Registry.Exits.{request_exit, process_exits, suspend_validator, clear_suspension}
use route_n_root.Registry.Updates.{record_pob_score, record_speed_test, store_vrf_key}
use route_n_root.Registry.Duration.{calculate_observer_duration_range}
use route_n_root.Registry.Activation.{
  observer_of, observed, observed-update, activate_entries-Round,
}
use route_n_root.Registry.Turning.{is_due, activate_entries-turns, activate_entries-rests}
use route_n_root.Registry.Steps.{
  Call, register, activate, request, process, suspend, clear, measure, speed_test, store_key, Move,
  same, registers, leaves, removed, is_active-active, is_exiting-exiting, exiting-is_exiting,
  Round-Move,
}
use route_n_root.Registry.Moves.{
  Moves, still, written, unnamed, observed-account, unfound, inactive, apart,
}
use route_n_root.Registry.Writes.{
  suspend-Moves, clear-Moves, update-Moves, speed_test-Moves, store_key-Moves,
}

module _ (V : ValidatorState) where
  unfoldable pub apply : ValidatorRegistry V → (now : ℕ) → Call → ValidatorRegistry V
  apply vr now (register tx) = (register_validator V vr now tx).0
  apply vr now activate = activate_pending_validators V vr now
  apply vr now (request id) = (request_exit V vr now id).0
  apply vr now process = process_exits V vr now
  apply vr now (suspend id until reason) = (suspend_validator V vr id until reason).0
  apply vr now (clear id) = (clear_suspension V vr id).0
  apply vr now (measure id score) = record_pob_score V vr now id score
  apply vr now (speed_test id test) = record_speed_test V vr now id test
  apply vr now (store_key id key) = store_vrf_key V vr id key

  process-Moves :
      (now : ℕ) (vr : ValidatorRegistry V)
      → IsDistinct vr.validators
      → Moves V now process vr (process_exits V vr now)
  unfolding process_exits keep_entry
  process-Moves now vr d = (
    λ id.
        let stays = λ (_ : Bytes) (r : ValidatorRegistration).
          not (is_exiting r.status && leb (r.exit_time + vr.exit_delay) now) in
        let due = is_due V vr.state now id in
        let o = observed V vr.state id in
        subst (Move vr.exit_delay now id due process o o (lookup id vr.validators))
          (sym (lookup-keep stays id vr.validators d))
          (elim (Option-cases (lookup id vr.validators)) [
            | inl missing ↦ rw missing (same tt)
            | inr (r, found) ↦ elim (Bool-cases (stays id r)) [
              | inl kept ↦
                  rw (found, kept)
                    (same (λ going. ground (arith, kept, exiting-is_exiting r.status going)))
              | inr gone ↦
                  rw (found, gone)
                    (removed r (is_exiting-exiting r.status (ground arith)) (ground arith))
            ]
          ]),
    keep-IsDistinct _ vr.validators d,
    refl,
  )

  activate-Moves :
      (now : ℕ) (vr : ValidatorRegistry V)
      → IsDistinct vr.validators
      → Moves V now activate vr (activate_pending_validators V vr now)
  unfolding activate_pending_validators
  activate-Moves now vr d =
      let (rounds, observers, distinct) = activate_entries-Round V now vr.validators vr.state in
      (
        λ id.
            Round-Move vr.exit_delay now id (is_due V vr.state now id) _ _ _ _
              (λ r. activate_entries-turns V now vr.validators vr.state id r)
              (activate_entries-rests V now vr.validators vr.state id) (rounds id) (observers id),
        distinct d,
        refl,
      )

  request-Moves :
      (now : ℕ) (vr : ValidatorRegistry V) (id : Bytes)
      → IsDistinct vr.validators
      → Moves V now (request id) vr (request_exit V vr now id).0
  unfolding request_exit
  request-Moves now vr id d = elim (Option-cases (lookup id vr.validators)) [
    | inl missing ↦
        rw (missing, request_exit)
          (still V now (request id) vr vr.state d
            (λ j.
              unnamed V now vr id j
                (λ r found at. absurd (unfound id j vr.validators missing at found)))
            (λ j. refl))
    | inr (r, found) ↦ elim (Bool-cases (is_active_status r.status)) [
      | inr other ↦
          rw (found, other, request_exit)
            (still V now (request id) vr vr.state d
              (λ j.
                unnamed V now vr id j
                  (λ q held at. inactive id j vr.validators r q found held at other))
              (λ j. refl))
      | inl acting ↦
          let leave : (s : V.State)
              → ((j : Bytes) → observed V s j ≡ observed V vr.state j)
              → Moves V now (request id) vr (record vr {
                state = s;
                validators =
                    insert id (record r { status = exiting; exit_time = now }) vr.validators;
              }) =
            λ s kept.
              written V now (request id) vr s id _ d
                (λ j other. unnamed V now vr id j (λ q held at. absurd (apart id j at other)))
                (λ j _. kept j)
                (rw (found, kept id) (leaves id r refl (is_active-active r.status acting))) in
          elim (Option-cases (V.get_validator id vr.state)) [
            | inl unknown ↦ rw (found, acting, unknown, request_exit) (leave vr.state (λ j. refl))
            | inr (info, known) ↦
                rw (found, acting, known, request_exit)
                  (leave _ (observed-update V vr.state id info _ known refl refl))
          ]
    ]
  ]

  admit-Moves :
      (now n : ℕ) (tx : RegistrationTx) (vr : ValidatorRegistry V) (s : V.State)
      → IsDistinct vr.validators
      → lookup tx.validator_id vr.validators ≡ none
      → ((j : Bytes) → observed V s j ≡ observed V vr.state j)
      → Moves V now
          (register tx)
          vr
          (admit V now (calculate_observer_duration n) tx (record vr { state = s }))
  unfolding admit new_registration new_validator_info
  admit-Moves now n tx vr s d fresh kept =
      let duration = calculate_observer_duration n in
      let info = new_validator_info now duration tx in
      let id = tx.validator_id in
      let (low, high, _, _, _, _) = calculate_observer_duration_range n n (omega arith) in
      let own : V.get_validator id (V.update_validator info s) ≡ some info =
        V.get_validator-update info id s ∙ rw (same_refl id) refl in
      written V now (register tx) vr (V.update_validator info s) id (new_registration now tx) d
        (λ j _. tt)
        (λ j elsewhere.
          let other : V.get_validator j (V.update_validator info s) ≡ V.get_validator j s =
            V.get_validator-update info j s ∙ rw elsewhere refl in
          ap (Option.map observer_of) other ∙ kept j)
        (rw (fresh, own) (registers tx _ refl refl refl low high))

  register-Moves :
      (now : ℕ) (vr : ValidatorRegistry V) (tx : RegistrationTx)
      → IsDistinct vr.validators
      → Moves V now (register tx) vr (register_validator V vr now tx).0
  unfolding register_validator
  register-Moves now vr tx d = elim (Option-cases (lookup tx.validator_id vr.validators)) [
    | inr (r, known) ↦
        rw (known, register_validator)
          (still V now (register tx) vr vr.state d (λ j. tt) (λ j. refl))
    | inl fresh ↦
        let n = length (V.get_active_validators vr.state) in
        let fee = calculate_dynamic_entry_fee (calculate_observer_duration n) in
        elim (Option-cases (V.get_account tx.validator_id vr.state)) [
          | inl poor ↦
              rw (fresh, poor, register_validator)
                (admit-Moves now n tx vr vr.state d fresh (λ j. refl))
          | inr (a, found) ↦
              let kept = observed-account V (record a { balance = a.balance -ℤ fee }) vr.state in
              elim (Bool-cases (ltb_ℤ a.balance fee)) [
                | inl short ↦
                    rw (fresh, found, short, register_validator)
                      (still V now (register tx) vr vr.state d (λ j. tt) (λ j. refl))
                | inr enough ↦ elim (Bool-cases (ltb (length tx.validator_id) 12)) [
                  | inl slices ↦
                      rw (fresh, found, enough, slices, register_validator)
                        (still V now (register tx) vr _ d (λ j. tt) kept)
                  | inr long ↦
                      rw (fresh, found, enough, long, register_validator)
                        (admit-Moves now n tx vr _ d fresh kept)
                ]
              ]
        ]
  ]

  -- A call of the registry, or a write of a score or of a key, moves every entry along the lifecycle:
  -- a registration enters an ID that was not there, as pending, with an observer that starts now for
  -- six to twenty-four hours and a score of 0; an activation round activates exactly the pending
  -- validators that are due, and their time as an observer is over and their score high enough; a
  -- request makes an active validator exit, and only the one that it names; exactly the exiting
  -- validators whose delay is over are removed, and by processing only; otherwise a score is changed by
  -- a measurement only. No ID stands twice afterwards, and the delay stays.
  pub apply-Moves :
      (now : ℕ) (vr : ValidatorRegistry V) (c : Call)
      → IsDistinct vr.validators
      → Moves V now c vr (apply vr now c)
  unfolding apply
  apply-Moves now vr (register tx) d = register-Moves now vr tx d
  apply-Moves now vr activate d = activate-Moves now vr d
  apply-Moves now vr (request id) d = request-Moves now vr id d
  apply-Moves now vr process d = process-Moves now vr d
  apply-Moves now vr (suspend id until reason) d = suspend-Moves V now vr id until reason d
  apply-Moves now vr (clear id) d = clear-Moves V now vr id d
  apply-Moves now vr (measure id score) d = update-Moves V now vr id score d
  apply-Moves now vr (speed_test id test) d = speed_test-Moves V now vr id test d
  apply-Moves now vr (store_key id key) d = store_key-Moves V now vr id key d
