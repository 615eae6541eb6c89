-- ===== src/Registry/Activation.antt =====
-- rnr/pkg/consensus/validator_registry.go: what ActivatePendingValidators does to an entry.
use mathlib.Core.Option
use mathlib.Core.Path.{subst}
use route_n_root.Prelude.{
  ℕ, ◌+◌, ◌≤◌, ◌≡◌, refl, sym, ap, ◌∙◌, inl, inr, true, Option, none, some, [], ◌∷◌, Bytes,
  bytes_equal, bytes_equal_iff, Bool-cases, Option-cases, Map, IsDistinct, lookup, bytes_key,
  if◌then◌else◌, arith,
}
use route_n_root.Core.{ValidatorInfo}
use route_n_root.Registry.{
  ValidatorState, ValidatorStatus, pending, active, ValidatorRegistration, is_pending, is_ready,
  meets_min_score, promote, activate_entries,
}

-- What decides an activation: the observer's start, its duration and the score.
pub record Observer : Type 0 where
  pub start_time : ℕ
  pub duration : ℕ
  pub score : ℕ

abbrev pub observer_of : ValidatorInfo → Observer
observer_of v = record {
  start_time = v.observer_start_time;
  duration = v.observer_duration;
  score = v.pob_score;
}

abbrev pub activated : (now : ℕ) → ValidatorRegistration → ValidatorRegistration
activated now r = record r { status = active; activation_time = now }

is_pending-pending : (status : ValidatorStatus) → is_pending status ≡ true → status ≡ pending
unfolding is_pending
is_pending-pending status h = ground arith

-- An entry before and after an activation round: as it was, or pending before and active after,
-- when its observer's time was over and its score high enough.
pub data Round (now : ℕ) (o : Option Observer)
    : Option ValidatorRegistration → Option ValidatorRegistration → Type 0 where
  unchanged : {e : Option ValidatorRegistration} → Round now o e e
  turned :
      (r : ValidatorRegistration) (v : Observer)
      → r.status ≡ pending
      → o ≡ some v
      → v.start_time + v.duration ≤ now
      → meets_min_score v.score ≡ true
      → Round now o (some r) (some (activated now r))

module _ (V : ValidatorState) where
  abbrev pub observed : V.State → Bytes → Option Observer
  observed s id = Option.map observer_of (V.get_validator id s)

  -- What the observers are after a validator was written.
  pub observed-written :
      (s : V.State) (new : ValidatorInfo) (j : Bytes)
      → observed (V.update_validator new s) j
        ≡ (if bytes_equal new.id j then some (observer_of new) else observed s j)
  observed-written s new j = elim (Bool-cases (bytes_equal new.id j)) [
    | inl here ↦
        let read : V.get_validator j (V.update_validator new s) ≡ some new =
          V.get_validator-update new j s ∙ rw here refl in
        rw (here, read) refl
    | inr elsewhere ↦
        let read : V.get_validator j (V.update_validator new s) ≡ V.get_validator j s =
          V.get_validator-update new j s ∙ rw elsewhere refl in
        rw (elsewhere, read) refl
  ]

  -- Writing back a validator whose observer fields are as they were read changes none of them.
  pub observed-update :
      (s : V.State) (id : Bytes) (old new : ValidatorInfo)
      → V.get_validator id s ≡ some old
      → new.id ≡ old.id
      → observer_of new ≡ observer_of old
      → (j : Bytes) → observed (V.update_validator new s) j ≡ observed s j
  observed-update s id old new found same kept j = elim (Bool-cases (bytes_equal new.id j)) [
    | inl here ↦
        let at : id ≡ j =
          sym (V.validator_named id s old found) ∙ sym same ∙ (bytes_equal_iff new.id j).0 here in
        let after : V.get_validator j (V.update_validator new s) ≡ some new =
          V.get_validator-update new j s ∙ rw here refl in
        let before : V.get_validator j s ≡ some old =
          subst (λ x. V.get_validator x s ≡ some old) at found in
        rw (after, before) (ap some kept)
    | inr elsewhere ↦
        let after : V.get_validator j (V.update_validator new s) ≡ V.get_validator j s =
          V.get_validator-update new j s ∙ rw elsewhere refl in
        rw after refl
  ]

  Round-cons :
      (now : ℕ) (o : Option Observer) (k id : Bytes) (r : ValidatorRegistration)
      (m m' : Map Bytes ValidatorRegistration)
      → Round now o (lookup id m) (lookup id m')
      → Round now o (lookup id ((k, r) ∷ m)) (lookup id ((k, r) ∷ m'))
  unfolding lookup
  Round-cons now o k id r m m' rest = elim (Bool-cases (bytes_equal k id)) [
    | inl here ↦ rw here unchanged
    | inr elsewhere ↦ rw elsewhere rest
  ]

  -- What an activation round does to the entries and to the observers.
  abbrev Kept :
      (now : ℕ)
      → Map Bytes ValidatorRegistration
      → V.State
      → Map Bytes ValidatorRegistration × V.State
      → Type 0
  Kept now m s after =
      ((id : Bytes) → Round now (observed s id) (lookup id m) (lookup id after.0))
      × ((id : Bytes) → observed after.1 id ≡ observed s id)
      × (IsDistinct m → IsDistinct after.0)

  Round-none :
      (now : ℕ) (o : Option Observer) (e e' : Option ValidatorRegistration)
      → Round now o e e'
      → e ≡ none
      → e' ≡ none
  Round-none now o e e' (unchanged) h = h
  Round-none now o e e' (turned r v _ _ _ _) h = cc

  entry_unchanged :
      (now : ℕ) (k : Bytes) (r : ValidatorRegistration) (m : Map Bytes ValidatorRegistration)
      (s : V.State) (after : Map Bytes ValidatorRegistration × V.State)
      → Kept now m s after
      → Kept now ((k, r) ∷ m) s ((k, r) ∷ after.0, after.1)
  entry_unchanged now k r m s after (rounds, observers, distinct) = (
    λ id. Round-cons now (observed s id) k id r m after.0 (rounds id),
    observers,
    λ d. (Round-none now _ _ _ (rounds k) d.0, distinct d.1),
  )

  entry_turned :
      (now : ℕ) (k : Bytes) (r : ValidatorRegistration) (info : ValidatorInfo)
      (m : Map Bytes ValidatorRegistration) (s : V.State)
      (after : Map Bytes ValidatorRegistration × V.State)
      → r.status ≡ pending
      → V.get_validator k s ≡ some info
      → is_ready now info ≡ true
      → Kept now m (V.update_validator (promote info) s) after
      → Kept now ((k, r) ∷ m) s ((k, activated now r) ∷ after.0, after.1)
  unfolding promote is_ready meets_min_score lookup
  entry_turned now k r info m s after waiting found ready (rounds, observers, distinct) =
      let kept = observed-update s k info (promote info) found refl refl in
      (
        λ id. elim (Bool-cases (bytes_equal k id)) [
          | inl here ↦ rw here (
              turned r (observer_of info) waiting
                (subst (λ x. observed s x ≡ some (observer_of info)) ((bytes_equal_iff k id).0 here)
                  (ap (Option.map observer_of) found))
                (ground arith) (ground arith))
          | inr elsewhere ↦
              rw elsewhere
                (subst (λ o. Round now o (lookup id m) (lookup id after.0)) (kept id) (rounds id))
        ],
        λ id. observers id ∙ kept id,
        λ d. (Round-none now _ _ _ (rounds k) d.0, distinct d.1),
      )

  pub activate_entries-Round :
      (now : ℕ) (m : Map Bytes ValidatorRegistration) (s : V.State)
      → Kept now m s (activate_entries V now m s)
  unfolding activate_entries
  activate_entries-Round now [] s = (λ id. unchanged, λ id. refl, λ d. d)
  activate_entries-Round now ((k, r) ∷ m) s =
      let stays =
        entry_unchanged now k r m s (activate_entries V now m s) (activate_entries-Round now m s) in
      elim (Bool-cases (is_pending r.status)) [
        | inr other ↦ rw (other, activate_entries) stays
        | inl waiting ↦ elim (Option-cases (V.get_validator k s)) [
          | inl missing ↦ rw (waiting, missing, activate_entries) stays
          | inr (info, found) ↦ elim (Bool-cases (is_ready now info)) [
            | inr early ↦ rw (waiting, found, early, activate_entries) stays
            | inl ready ↦
                let s' = V.update_validator (promote info) s in
                rw (waiting, found, ready, activate_entries)
                  (entry_turned now k r info m s (activate_entries V now m s')
                    (is_pending-pending r.status waiting) found ready
                    (activate_entries-Round now m s'))
          ]
        ]
      ]
