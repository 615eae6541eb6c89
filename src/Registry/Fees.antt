-- ===== src/Registry/Fees.antt =====
-- rnr/pkg/consensus/validator_registry.go: what a registration costs, and what a refusal leaves.
use route_n_root.Prelude.{
  ℕ, ◌≡◌, ◌≢◌, refl, ◌∙◌, ◌⊎◌, inl, inr, true, none, some, Bytes, bytes_equal, Bool-cases,
  Option-cases, lookup, lookup-insert_self, bytes_key, same_refl, ltb, length, arith,
}
use route_n_root.Prelude.Int.{ℤ, ◌-ℤ◌, ◌≤ℤ◌, ltb_ℤ}
use route_n_root.Core.{Account}
use route_n_root.Registry.{
  ValidatorState, RegistrationTx, ValidatorRegistry, RegistryError, already_registered,
  insufficient_balance, panicked, calculate_observer_duration, calculate_dynamic_entry_fee,
  new_registration, new_validator_info, admit, register_validator,
}

module _ (V : ValidatorState) where
  abbrev pub entry_fee : ValidatorRegistry V → ℤ
  entry_fee vr =
      calculate_dynamic_entry_fee
        (calculate_observer_duration (length (V.get_active_validators vr.state)))

  -- The account of the new validator has paid the fee, which it could.
  abbrev pub HasPaid : ValidatorRegistry V → ValidatorRegistry V → Bytes → Type 0
  HasPaid vr vr' id =
      (a : Account) × (V.get_account id vr.state ≡ some a)
      × (entry_fee vr ≤ℤ a.balance)
      × (V.get_account id vr'.state ≡ some (record a { balance = a.balance -ℤ entry_fee vr }))

  paid_balance :
      (vr : ValidatorRegistry V) (id : Bytes) (a : Account)
      → V.get_account id vr.state ≡ some a
      → let paid = record a { balance = a.balance -ℤ entry_fee vr } in
        V.get_account id (V.update_account paid vr.state) ≡ some paid
  paid_balance vr id a found =
      let paid = record a { balance = a.balance -ℤ entry_fee vr } in
      let own : bytes_equal a.address id ≡ true =
        rw (V.account_named id vr.state a found) (same_refl id) in
      V.get_account-update paid id vr.state ∙ rw own refl

  -- A refusal leaves the registry and its state as they were. A panic comes after the fee was paid,
  -- and the ID is not registered. A registration adds the ID as pending, and its account, if it has
  -- one, has paid the fee.
  pub register_validator-outcome :
      (vr : ValidatorRegistry V) (now : ℕ) (tx : RegistrationTx)
      → let (vr', result) = register_validator V vr now tx in
        let id = tx.validator_id in
        ((e : RegistryError) × (result ≡ some e) × (e ≢ panicked) × (vr' ≡ vr))
        ⊎ ((result ≡ some panicked) × (lookup id vr'.validators ≡ none) × HasPaid vr vr' id)
        ⊎ ((result ≡ none)
            × (lookup id vr.validators ≡ none)
            × (lookup id vr'.validators ≡ some (new_registration now tx))
            × ((V.get_account id vr.state ≡ none) ⊎ HasPaid vr vr' id))
  unfolding register_validator admit
  register_validator-outcome vr now tx =
      let id = tx.validator_id in
      let d = calculate_observer_duration (length (V.get_active_validators vr.state)) in
      let added = lookup-insert_self id (new_registration now tx) vr.validators in
      elim (Option-cases (lookup id vr.validators)) [
        | inr (r, known) ↦
            rw (known, register_validator) (inl (already_registered, refl, (λ h. cc), refl))
        | inl fresh ↦ elim (Option-cases (V.get_account id vr.state)) [
          | inl no_account ↦
              rw (fresh, no_account, register_validator) (inr (inr (refl, refl, added, inl refl)))
          | inr (a, found) ↦
              let fee = entry_fee vr in
              let paid = paid_balance vr id a found in
              elim (Bool-cases (ltb_ℤ a.balance fee)) [
                | inl short ↦
                    rw (fresh, found, short, register_validator)
                      (inl (insufficient_balance, refl, (λ h. cc), refl))
                | inr enough ↦ elim (Bool-cases (ltb (length id) 12)) [
                  | inl slices ↦
                      rw (fresh, found, enough, slices, register_validator)
                        (inr (inl (refl, fresh, (a, refl, ground arith, paid))))
                  | inr long ↦
                      rw (fresh, found, enough, long, register_validator)
                        (inr (
                          inr (
                            refl,
                            refl,
                            added,
                            inr (
                              a,
                              refl,
                              ground arith,
                              V.get_account-update_validator (new_validator_info now d tx) id _
                                  ∙ paid,
                            ),
                          )))
                ]
              ]
        ]
      ]
