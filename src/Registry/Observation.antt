-- ===== src/Registry/Observation.antt =====
-- rnr/pkg/consensus/validator_registry.go: no validator is active before its time as an observer.
use mathlib.Core.Path.{subst}
use route_n_root.Prelude.{
  ℕ, ◌+◌, ◌*◌, ◌≤◌, ◌≡◌, refl, sym, ap, ◌∙◌, Bool, ◌⊎◌, inl, inr, Option, none, some, List, [], ◌∷◌,
  Bytes, IsDistinct, lookup, bytes_key, arith,
}
use route_n_root.Core.{hour}
use route_n_root.Registry.{
  ValidatorState, pending, active, exiting, ValidatorRegistration, ValidatorRegistry,
  RegistrationTx, new_registration, new_validator_registry,
}
use route_n_root.Registry.Activation.{Observer, observed}
use route_n_root.Registry.Steps.{Move, same, scored, registers, activates, leaves, removed, Call}
use route_n_root.Registry.Lifecycle.{apply, apply-Moves}

-- A pending validator is observed for at least six hours from its registration; one that is active
-- or exiting was.
pub data Waited (o : Option Observer) (r : ValidatorRegistration) : Type 0 where
  waits :
      (v : Observer)
      → r.status ≡ pending
      → o ≡ some v
      → v.start_time ≡ r.registration_time
      → 6 * hour ≤ v.duration
      → Waited o r
  waited :
      (r.status ≡ active) ⊎ (r.status ≡ exiting)
      → r.registration_time + 6 * hour ≤ r.activation_time
      → Waited o r

AllWaited : Option Observer → Option ValidatorRegistration → Type 0
AllWaited o none = Unit
AllWaited o (some r) = Waited o r

new_pending : (now : ℕ) (tx : RegistrationTx) → (new_registration now tx).status ≡ pending
unfolding new_registration
new_pending now tx = refl

new_time : (now : ℕ) (tx : RegistrationTx) → now ≡ (new_registration now tx).registration_time
unfolding new_registration
new_time now tx = refl

-- A new score changes nothing of the time waited.
rescored-AllWaited :
    (v : Observer) (n : ℕ) (e : Option ValidatorRegistration)
    → AllWaited (some v) e
    → AllWaited (some (record v { score = n })) e
unfolding AllWaited
rescored-AllWaited v n none w = tt
rescored-AllWaited v n (some r) (waits u is known start long) =
    let e : v ≡ u = cc in
    waits (record v { score = n }) is refl (ap (λ (x : Observer). x.start_time) e ∙ start)
      (subst (λ (x : Observer). 6 * hour ≤ x.duration) (sym e) long)
rescored-AllWaited v n (some r) (waited was long) = waited was long

Move-AllWaited :
    {delay now : ℕ} {id : Bytes} {due : Bool} {c : Call} {o o' : Option Observer}
    {e e' : Option ValidatorRegistration}
    → Move delay now id due c o o' e e'
    → AllWaited o e
    → AllWaited o' e'
unfolding AllWaited
Move-AllWaited (same idle) w = w
Move-AllWaited (scored {e} v n writes) w = rescored-AllWaited v n e w
Move-AllWaited (registers tx v at start zero long short) w =
    waits v (new_pending _ tx) refl (start ∙ new_time _ tx) long
Move-AllWaited (activates r v is due over good) (waits u _ known start long) =
    waited (inl refl) (let e : v ≡ u = cc in ground (arith, e))
Move-AllWaited (activates r v is due over good) (waited (inl acting) _) = cc
Move-AllWaited (activates r v is due over good) (waited (inr going) _) = cc
Move-AllWaited (leaves j r at is) (waits u other _ _ _) = cc
Move-AllWaited (leaves j r at is) (waited _ long) = waited (inr refl) long
Move-AllWaited (removed r is over) w = tt

module _ (V : ValidatorState) where
  -- Calls with their times, one after the other.
  unfoldable pub run : ValidatorRegistry V → List (ℕ × Call) → ValidatorRegistry V
  run vr [] = vr
  run vr ((now, c) ∷ calls) = run (apply V vr now c) calls

  abbrev IsValid : ValidatorRegistry V → Type 0
  IsValid vr =
      IsDistinct vr.validators
      × ((id : Bytes) → AllWaited (observed V vr.state id) (lookup id vr.validators))

  run-IsValid :
      (calls : List (ℕ × Call)) (vr : ValidatorRegistry V) → IsValid vr → IsValid (run vr calls)
  unfolding run
  run-IsValid [] vr i = i
  run-IsValid ((now, c) ∷ calls) vr (d, w) =
      let (moves, d', _) = apply-Moves V now vr c d in
      run-IsValid calls (apply V vr now c) (d', λ id. Move-AllWaited (moves id) (w id))

  -- After any calls to a new registry, and any writes of scores and keys between them, at any times, a
  -- validator that it holds waits as an observer
  -- for at least six hours from its registration, or was activated at least six hours after it and
  -- is active or exiting.
  pub run-Waited :
      (s : V.State) (calls : List (ℕ × Call)) (id : Bytes) (r : ValidatorRegistration)
      → let vr = run (new_validator_registry V s) calls in
        lookup id vr.validators ≡ some r → Waited (observed V vr.state id) r
  unfolding new_validator_registry AllWaited lookup
  run-Waited s calls id r found =
      let vr = run (new_validator_registry V s) calls in
      subst (AllWaited (observed V vr.state id)) found
        ((run-IsValid calls (new_validator_registry V s) (tt, λ j. tt)).1 id)
