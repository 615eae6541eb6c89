-- ===== src/Registry/Moves.antt =====
-- rnr/pkg/consensus/validator_registry.go: the ways in which a call leaves or writes the entries.
use mathlib.Core.Option
use mathlib.Core.Path.{subst}
use route_n_root.Prelude.{
  ℕ, ◌≡◌, ◌≢◌, refl, sym, ap, ◌∙◌, inl, inr, true, false, false≢true, none, some, Bytes,
  bytes_equal, bytes_equal_iff, Bool-cases, Map, IsDistinct, lookup, insert, lookup-insert,
  insert-IsDistinct, bytes_key,
}
use route_n_root.Core.{Account, ValidatorInfo}
use route_n_root.Registry.{
  ValidatorState, active, ValidatorRegistration, ValidatorRegistry, is_active_status,
}
use route_n_root.Registry.Activation.{observer_of, observed, observed-written}
use route_n_root.Registry.Turning.{is_due, same_value}
use route_n_root.Registry.Steps.{
  Call, request, measured, IsIdle, Move, same, scored, active-is_active, IsIdle-request,
}

pub unfound :
    (id j : Bytes) (m : Map Bytes ValidatorRegistration) {r : ValidatorRegistration}
    → lookup id m ≡ none
    → id ≡ j
    → lookup j m ≢ some r
unfound id j m missing at found =
    let same_read : lookup id m ≡ lookup j m = ap (λ x. lookup x m) at in cc

pub inactive :
    (id j : Bytes) (m : Map Bytes ValidatorRegistration) (r q : ValidatorRegistration)
    → lookup id m ≡ some r
    → lookup j m ≡ some q
    → id ≡ j
    → is_active_status r.status ≡ false
    → q.status ≢ active
inactive id j m r q found held at other acting =
    let is : r ≡ q = same_value (sym found ∙ ap (λ x. lookup x m) at ∙ held) in
    let acts : is_active_status r.status ≡ true =
      active-is_active r.status (ap (λ (x : ValidatorRegistration). x.status) is ∙ acting) in
    false≢true (sym other ∙ acts)

pub apart : (id j : Bytes) → id ≡ j → bytes_equal id j ≢ false
apart id j at other = false≢true (sym other ∙ (bytes_equal_iff id j).1 at)

module _ (V : ValidatorState) where
  -- Every entry moved, no ID stands twice afterwards, and the exit delay is as before.
  abbrev pub Moves : (now : ℕ) → Call → ValidatorRegistry V → ValidatorRegistry V → Type 0
  Moves now c vr vr' =
      ((id : Bytes)
        → Move vr.exit_delay now id (is_due V vr.state now id) c (observed V vr.state id)
            (observed V vr'.state id) (lookup id vr.validators) (lookup id vr'.validators))
      × IsDistinct vr'.validators
      × (vr'.exit_delay ≡ vr.exit_delay)

  abbrev pub Idle : (now : ℕ) → Call → ValidatorRegistry V → Bytes → Type 0
  Idle now c vr id =
      IsIdle vr.exit_delay now id (is_due V vr.state now id) c (lookup id vr.validators)

  -- A call that leaves the entries and the observers as they are.
  pub still :
      (now : ℕ) (c : Call) (vr : ValidatorRegistry V) (s : V.State)
      → IsDistinct vr.validators
      → ((id : Bytes) → Idle now c vr id)
      → ((id : Bytes) → observed V s id ≡ observed V vr.state id)
      → Moves now c vr (record vr { state = s })
  still now c vr s d idle kept = (
    λ id.
        subst
          (λ o.
            Move vr.exit_delay now id (is_due V vr.state now id) c (observed V vr.state id) o
              (lookup id vr.validators) (lookup id vr.validators))
          (sym (kept id)) (same (idle id)),
    d,
    refl,
  )

  -- A call that writes a score.
  pub rescored :
      (now : ℕ) (c : Call) (vr : ValidatorRegistry V) (id : Bytes) (info new : ValidatorInfo)
      (n : ℕ)
      → IsDistinct vr.validators
      → ((j : Bytes) → Idle now c vr j)
      → V.get_validator id vr.state ≡ some info
      → new.id ≡ info.id
      → observer_of new ≡ record (observer_of info) { score = n }
      → measured c ≡ some (id, n)
      → Moves now c vr (record vr { state = V.update_validator new vr.state })
  rescored now c vr id info new n d idle found named seen writes = (
    λ j.
        let at : new.id ≡ id = named ∙ V.validator_named id vr.state info found in
        let reads = observed-written V vr.state new j in
        elim (Bool-cases (bytes_equal new.id j)) [
          | inl here ↦
              let this : id ≡ j = sym at ∙ (bytes_equal_iff new.id j).0 here in
              let after : observed V (V.update_validator new vr.state) j
                  ≡ some (record (observer_of info) { score = n }) =
                reads ∙ rw here (ap some seen) in
              let before : V.get_validator j vr.state ≡ some info =
                subst (λ x. V.get_validator x vr.state ≡ some info) this found in
              rw (after, before) (scored (observer_of info) n (writes ∙ ap (λ x. some (x, n)) this))
          | inr elsewhere ↦
              let after : observed V (V.update_validator new vr.state) j ≡ observed V vr.state j =
                reads ∙ rw elsewhere refl in
              rw after (same (idle j))
        ],
    d,
    refl,
  )

  pub observed-account :
      (a : Account) (s : V.State) (id : Bytes)
      → observed V (V.update_account a s) id ≡ observed V s id
  observed-account a s id = ap (Option.map _) (V.get_validator-update_account a id s)

  -- An entry that is written under its own key, while the observers of other IDs stay.
  pub written :
      (now : ℕ) (c : Call) (vr : ValidatorRegistry V) (s : V.State) (id : Bytes)
      (r : ValidatorRegistration)
      → IsDistinct vr.validators
      → ((j : Bytes) → bytes_equal id j ≡ false → Idle now c vr j)
      → ((j : Bytes) → bytes_equal id j ≡ false → observed V s j ≡ observed V vr.state j)
      → Move vr.exit_delay now id
          (is_due V vr.state now id)
          c
          (observed V vr.state id)
          (observed V s id)
          (lookup id vr.validators)
          (some r)
      → Moves now c vr (record vr { state = s; validators = insert id r vr.validators })
  written now c vr s id r d idle kept move = (
    λ j.
        let reads = lookup-insert id j r vr.validators in
        elim (Bool-cases (bytes_equal id j)) [
          | inl here ↦
              let at : id ≡ j = (bytes_equal_iff id j).0 here in
              let found : lookup j (insert id r vr.validators) ≡ some r = reads ∙ rw here refl in
              rw found (
                subst
                  (λ x.
                    Move vr.exit_delay now x (is_due V vr.state now x) c (observed V vr.state x)
                      (observed V s x) (lookup x vr.validators) (some r))
                  at move)
          | inr elsewhere ↦
              let found : lookup j (insert id r vr.validators) ≡ lookup j vr.validators =
                reads ∙ rw elsewhere refl in
              rw (found, kept j elsewhere) (same (idle j elsewhere))
        ],
    insert-IsDistinct id r vr.validators d,
    refl,
  )

  -- A request leaves the entries as they are, but that of an active validator that it names.
  pub unnamed :
      (now : ℕ) (vr : ValidatorRegistry V) (id j : Bytes)
      → ((r : ValidatorRegistration) → lookup j vr.validators ≡ some r → id ≡ j → r.status ≢ active)
      → Idle now (request id) vr j
  unnamed now vr id j h =
      IsIdle-request vr.exit_delay now j (is_due V vr.state now j) id (lookup j vr.validators) h
