-- ===== src/Registry/Turning.antt =====
-- rnr/pkg/consensus/validator_registry.go: ActivatePendingValidators leaves out no validator.
use mathlib.Core.Path.{subst}
use route_n_root.Prelude.{
  ℕ, ◌≡◌, refl, sym, ap, ◌∙◌, inl, inr, true, false, false≢true, Bool, Option, none, some, [], ◌∷◌,
  Bytes, bytes_equal, bytes_equal_iff, Bool-cases, Option-cases, Map, lookup, bytes_key,
}
use route_n_root.Core.{ValidatorInfo}
use route_n_root.Registry.{
  ValidatorState, ValidatorStatus, pending, ValidatorRegistration, is_pending, is_ready, promote,
  activate_entries,
}
use route_n_root.Registry.Activation.{activated}

-- Whether a validator's time as an observer is over and its score high enough.
abbrev pub due_of : (now : ℕ) → Option ValidatorInfo → Bool
due_of now none = false
due_of now (some info) = is_ready now info

pub same_value {ℓ} : {A : Type ℓ} {x y : A} → some x ≡ some y → x ≡ y
same_value h = cc

pending-is_pending : (status : ValidatorStatus) → status ≡ pending → is_pending status ≡ true
unfolding is_pending
pending-is_pending status h = rw h refl

lookup_cons :
    (k id : Bytes) (q : ValidatorRegistration) (m m' : Map Bytes ValidatorRegistration)
    → lookup id m' ≡ lookup id m
    → lookup id ((k, q) ∷ m') ≡ lookup id ((k, q) ∷ m)
unfolding lookup
lookup_cons k id q m m' same = elim (Bool-cases (bytes_equal k id)) [
  | inl here ↦ rw here refl
  | inr elsewhere ↦ rw elsewhere same
]

module _ (V : ValidatorState) where
  abbrev pub is_due : V.State → (now : ℕ) → Bytes → Bool
  is_due s now id = due_of now (V.get_validator id s)

  -- Promoting another validator does not change whether one is due.
  is_due-promote :
      (s : V.State) (now : ℕ) (k id : Bytes) (info : ValidatorInfo)
      → V.get_validator k s ≡ some info
      → bytes_equal k id ≡ false
      → is_due (V.update_validator (promote info) s) now id ≡ is_due s now id
  unfolding promote
  is_due-promote s now k id info found other =
      let named : bytes_equal info.id id ≡ false =
        subst (λ x. bytes_equal x id ≡ false) (sym (V.validator_named k s info found)) other in
      let read : V.get_validator id (V.update_validator (promote info) s) ≡ V.get_validator id s =
        V.get_validator-update (promote info) id s ∙ rw named refl in
      ap (due_of now) read

  pub activate_entries-turns :
      (now : ℕ) (m : Map Bytes ValidatorRegistration) (s : V.State) (id : Bytes)
      (r : ValidatorRegistration)
      → lookup id m ≡ some r
      → r.status ≡ pending
      → is_due s now id ≡ true
      → lookup id (activate_entries V now m s).0 ≡ some (activated now r)
  unfolding activate_entries lookup
  activate_entries-turns now [] s id r found waiting due = cc
  activate_entries-turns now ((k, q) ∷ m) s id r found waiting due =
      elim (Bool-cases (bytes_equal k id)) [
        | inl here ↦
            let at : k ≡ id = (bytes_equal_iff k id).0 here in
            let is : q ≡ r = same_value (rw (here, lookup) at found) in
            let waits : is_pending q.status ≡ true =
              pending-is_pending q.status
                (ap (λ (x : ValidatorRegistration). x.status) is ∙ waiting) in
            let due' : is_due s now k ≡ true = subst (λ x. is_due s now x ≡ true) (sym at) due in
            elim (Option-cases (V.get_validator k s)) [
              | inl missing ↦ absurd (false≢true (sym (ap (due_of now) missing) ∙ due'))
              | inr (info, known) ↦
                  let ready : is_ready now info ≡ true = sym (ap (due_of now) known) ∙ due' in
                  rw (waits, known, ready, here, activate_entries, lookup)
                    (ap (λ x. some (activated now x)) is)
            ]
        | inr elsewhere ↦
            let rest : lookup id m ≡ some r = rw (elsewhere, lookup) at found in
            let stays = activate_entries-turns now m s id r rest waiting due in
            elim (Bool-cases (is_pending q.status)) [
              | inr other ↦ rw (other, elsewhere, activate_entries, lookup) stays
              | inl waits ↦ elim (Option-cases (V.get_validator k s)) [
                | inl missing ↦ rw (waits, missing, elsewhere, activate_entries, lookup) stays
                | inr (info, known) ↦ elim (Bool-cases (is_ready now info)) [
                  | inr early ↦ rw (waits, known, early, elsewhere, activate_entries, lookup) stays
                  | inl ready ↦
                      let due' = is_due-promote s now k id info known elsewhere ∙ due in
                      rw (waits, known, ready, elsewhere, activate_entries, lookup)
                        (activate_entries-turns now m (V.update_validator (promote info) s) id r
                          rest waiting due')
                ]
              ]
            ]
      ]

  pub activate_entries-rests :
      (now : ℕ) (m : Map Bytes ValidatorRegistration) (s : V.State) (id : Bytes)
      → is_due s now id ≡ false
      → lookup id (activate_entries V now m s).0 ≡ lookup id m
  unfolding activate_entries lookup
  activate_entries-rests now [] s id rests = refl
  activate_entries-rests now ((k, q) ∷ m) s id rests =
      let stays = activate_entries-rests now m s id rests in
      elim (Bool-cases (is_pending q.status)) [
        | inr other ↦ rw (other, activate_entries, lookup) (lookup_cons k id q m _ stays)
        | inl waits ↦ elim (Option-cases (V.get_validator k s)) [
          | inl missing ↦
              rw (waits, missing, activate_entries, lookup) (lookup_cons k id q m _ stays)
          | inr (info, known) ↦ elim (Bool-cases (is_ready now info)) [
            | inr early ↦
                rw (waits, known, early, activate_entries, lookup) (lookup_cons k id q m _ stays)
            | inl ready ↦
                let due : is_due s now k ≡ true = ap (due_of now) known ∙ ready in
                elim (Bool-cases (bytes_equal k id)) [
                  | inl here ↦
                      let same_due : is_due s now k ≡ is_due s now id =
                        ap (is_due s now) ((bytes_equal_iff k id).0 here) in
                      absurd (false≢true (sym rests ∙ sym same_due ∙ due))
                  | inr elsewhere ↦
                      rw (waits, known, ready, elsewhere, activate_entries, lookup)
                        (activate_entries-rests now m (V.update_validator (promote info) s) id
                          (is_due-promote s now k id info known elsewhere ∙ rests))
                ]
          ]
        ]
      ]
