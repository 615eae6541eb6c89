-- ===== src/Slashing/Expiry.antt =====
-- rnr/pkg/consensus/slashing.go: suspensions end when their time is over, and no earlier.
use mathlib.Core.Path.{subst}
use route_n_root.Prelude.{
  ℕ, ◌+◌, ◌≡◌, refl, sym, ap, ◌∙◌, inl, inr, Bool, true, false, ◌&&◌, Option, none, some, List, [],
  ◌∷◌, Bytes, bytes_equal, bytes_equal_iff, Bool-cases, Option-cases, Map, IsDistinct, is_some,
  lookup, bytes_key, same_refl, if◌then◌else◌, ltb, arith,
}
use route_n_root.Core.{ValidatorInfo}
use route_n_root.Platform.{LevelDb}
use route_n_root.Registry.{ValidatorState, ValidatorRegistration, ValidatorRegistry}
use route_n_root.Registry.Exits.{clear_suspension}
use route_n_root.Registry.Queries.{all_from, get_all_validators}
use route_n_root.Slashing.{
  EventJson, SlashingManager, clear_expired, check_and_clear_expired_suspensions,
}

abbrev pub is_expired : (now : ℕ) → ValidatorInfo → Bool
is_expired now v = v.is_suspended && ltb v.suspension_end_time now

-- A validator after a suspension that is over was cleared.
abbrev pub freed : (now : ℕ) → ValidatorInfo → ValidatorInfo
freed now v =
    if is_expired now v
    then record v { is_suspended = false; suspension_end_time = 0; suspension_reason = [] }
    else v

abbrev pub freed? : (now : ℕ) → Option ValidatorInfo → Option ValidatorInfo
freed? now none = none
freed? now (some v) = some (freed now v)

module _ (V : ValidatorState) where
  abbrev get : ValidatorRegistry V → Bytes → Option ValidatorInfo
  get vr id = V.get_validator id vr.state

  -- One turn of the loop, for the validator that was read under `k`.
  clear_one : (now : ℕ) → ValidatorInfo → ValidatorRegistry V → ValidatorRegistry V
  clear_one now v vr = if is_expired now v then (clear_suspension V vr v.id).0 else vr

  get-clear_one :
      (now : ℕ) (k : Bytes) (v : ValidatorInfo) (vr : ValidatorRegistry V)
      → get vr k ≡ some v
      → (j : Bytes)
      → get (clear_one now v vr) j ≡ (if bytes_equal k j then some (freed now v) else get vr j)
  unfolding clear_one clear_suspension
  get-clear_one now k v vr found j =
      let named = V.validator_named k vr.state v found in
      let at : V.get_validator v.id vr.state ≡ some v =
        subst (λ x. V.get_validator x vr.state ≡ some v) (sym named) found in
      elim (Bool-cases (is_expired now v)) [
        | inl over ↦
            let gone = record v {
              is_suspended = false;
              suspension_end_time = 0;
              suspension_reason = [];
            } in
            rw (over, at, clear_one, clear_suspension)
              (V.get_validator-update gone j vr.state ∙ rw named refl)
        | inr not_over ↦
            rw (not_over, clear_one)
              (elim (Bool-cases (bytes_equal k j)) [
                | inl here ↦
                    rw here (subst (λ x. get vr x ≡ some v) ((bytes_equal_iff k j).0 here) found)
                | inr elsewhere ↦ rw elsewhere refl
              ])
      ]

  clear_all : (now : ℕ) → List ValidatorInfo → ValidatorRegistry V → ValidatorRegistry V
  clear_all now [] vr = vr
  clear_all now (v ∷ vs) vr = clear_all now vs (clear_one now v vr)

  clear_expired-registry :
      (now : ℕ) (vs : List ValidatorInfo) (vr : ValidatorRegistry V) (n : ℕ)
      → (clear_expired V now vs vr n).0 ≡ clear_all now vs vr
  unfolding clear_expired clear_all clear_one
  clear_expired-registry now [] vr n = refl
  clear_expired-registry now (v ∷ vs) vr n = elim (Bool-cases (is_expired now v)) [
    | inr stays ↦ rw (stays, clear_expired, clear_one) (clear_expired-registry now vs vr n)
    | inl over ↦
        let vr' = (clear_suspension V vr v.id).0 in
        elim (Option-cases (clear_suspension V vr v.id).1) [
          | inl fine ↦
              rw (over, fine, clear_expired, clear_one) (clear_expired-registry now vs vr' (n + 1))
          | inr (e, failed) ↦
              rw (over, failed, clear_expired, clear_one) (clear_expired-registry now vs vr' n)
        ]
  ]

  -- The entries of a map that are still to be read are as the state had them.
  abbrev Unread : Map Bytes ValidatorRegistration → V.State → ValidatorRegistry V → Type 0
  Unread m s vr = (id : Bytes) → is_some (lookup id m) ≡ true → get vr id ≡ V.get_validator id s

  get-clear_all :
      (now : ℕ) (m : Map Bytes ValidatorRegistration) (s : V.State) (vr : ValidatorRegistry V)
      → IsDistinct m
      → Unread m s vr
      → (j : Bytes)
      → get (clear_all now (all_from V s m) vr) j
        ≡ (if is_some (lookup j m) then freed? now (get vr j) else get vr j)
  unfolding all_from clear_all lookup
  get-clear_all now [] s vr d same j = refl
  get-clear_all now ((k, r) ∷ m) s vr d same j =
      let own : get vr k ≡ V.get_validator k s = same k (rw (same_refl k) refl) in
      elim (Option-cases (V.get_validator k s)) [
        | inl missing ↦
            let rest = get-clear_all now m s vr d.1 (λ id h. same id (ground (arith, h))) j in
            rw (missing, all_from)
              (rest ∙ elim (Bool-cases (bytes_equal k j)) [
                | inl here ↦
                    let at = (bytes_equal_iff k j).0 here in
                    let absent : lookup j m ≡ none = subst (λ x. lookup x m ≡ none) at d.0 in
                    let unknown : get vr j ≡ none =
                      subst (λ x. get vr x ≡ none) at (own ∙ missing) in
                    rw (here, absent, unknown) refl
                | inr elsewhere ↦ rw elsewhere refl
              ])
        | inr (v, found) ↦
            let vr' = clear_one now v vr in
            let one = get-clear_one now k v vr (own ∙ found) in
            let rest =
              get-clear_all now m s vr' d.1
                (λ id h. elim (Bool-cases (bytes_equal k id)) [
                  | inl here ↦
                      let absent : lookup id m ≡ none =
                        subst (λ x. lookup x m ≡ none) ((bytes_equal_iff k id).0 here) d.0 in
                      cc (rw absent at h)
                  | inr elsewhere ↦ one id ∙ rw elsewhere (same id (rw elsewhere h))
                ])
                j in
            rw (found, all_from)
              (rest ∙ elim (Bool-cases (bytes_equal k j)) [
                | inl here ↦
                    let at = (bytes_equal_iff k j).0 here in
                    let absent : lookup j m ≡ none = subst (λ x. lookup x m ≡ none) at d.0 in
                    let known : get vr j ≡ some v =
                      subst (λ x. get vr x ≡ some v) at (own ∙ found) in
                    rw (here, absent, known) (one j ∙ rw here refl)
                | inr elsewhere ↦
                    let kept : get vr' j ≡ get vr j = one j ∙ rw elsewhere refl in
                    rw (elsewhere, kept) refl
              ])
      ]

  -- A check at some time ends the suspension of the registered validators whose suspension ended
  -- before that time, and leaves all other validators as they are.
  pub check_and_clear_expired_suspensions_lem :
      (L : LevelDb) (J : EventJson) (sm : SlashingManager V L J) (now : ℕ) (id : Bytes)
      → IsDistinct sm.registry.validators
      → V.get_validator id (check_and_clear_expired_suspensions V L J sm now).0.registry.state ≡ (
          let before = V.get_validator id sm.registry.state in
          if is_some (lookup id sm.registry.validators) then freed? now before else before)
  unfolding check_and_clear_expired_suspensions get_all_validators
  check_and_clear_expired_suspensions_lem L J sm now id d =
      let vr = sm.registry in
      ap (λ (x : ValidatorRegistry V). get x id)
        (clear_expired-registry now (all_from V vr.state vr.validators) vr 0)
      ∙ get-clear_all now vr.validators vr.state vr d (λ j h. refl) id
