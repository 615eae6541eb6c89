-- ===== src/Registry/Steps.antt =====
-- rnr/pkg/consensus/validator_registry.go: the lifecycle of an entry of the registry, as a relation
-- between the entry and its observer before a call and after it.

use route_n_root.Prelude.{
  ℕ, ◌+◌, ◌*◌, ◌≤◌, ◌<◌, ◌≡◌, ◌≢◌, refl, true, false, Bool, Option, none, some, Bytes, arith,
}
use route_n_root.Core.{hour}
use route_n_root.Registry.{
  ValidatorStatus, pending, active, exiting, ValidatorRegistration, RegistrationTx, meets_min_score,
  new_registration, is_active_status, is_exiting,
}
use route_n_root.Registry.Updates.{SpeedTest}
use route_n_root.Registry.Activation.{Observer, activated, Round, unchanged, turned}

-- A call of the registry, or of the node's writes to the state that they share.
pub data Call : Type 0 where
  register : (tx : RegistrationTx) → Call
  activate : Call
  request : (id : Bytes) → Call
  process : Call
  suspend : (id : Bytes) (until : ℕ) (reason : Bytes) → Call
  clear : (id : Bytes) → Call
  measure : (id : Bytes) (score : ℕ) → Call
  speed_test : (id : Bytes) (test : SpeedTest) → Call
  store_key : (id key : Bytes) → Call

-- The score that a call writes, and whose.
abbrev pub measured : Call → Option (Bytes × ℕ)
measured (register tx) = none
measured activate = none
measured (request id) = none
measured process = none
measured (suspend id until reason) = none
measured (clear id) = none
measured (measure id score) = some (id, score)
measured (speed_test id test) = some (id, test.score)
measured (store_key id key) = none

-- When a call may leave an entry as it is: an exit is not processed before its delay is over, only
-- an active validator may exit, and no pending validator is activated that is not due.
abbrev pub IsIdle :
    (delay now : ℕ) (id : Bytes) (due : Bool) → Call → Option ValidatorRegistration → Type 0
IsIdle delay now id due (register tx) e = Unit
IsIdle delay now id due activate none = Unit
IsIdle delay now id due activate (some r) = r.status ≡ pending → due ≡ false
IsIdle delay now id due (request j) none = Unit
IsIdle delay now id due (request j) (some r) = j ≡ id → r.status ≢ active
IsIdle delay now id due process none = Unit
IsIdle delay now id due process (some r) = r.status ≡ exiting → now < r.exit_time + delay
IsIdle delay now id due (suspend j until reason) e = Unit
IsIdle delay now id due (clear j) e = Unit
IsIdle delay now id due (measure j score) e = Unit
IsIdle delay now id due (speed_test j test) e = Unit
IsIdle delay now id due (store_key j key) e = Unit

-- What a call may do to the entry of an ID, from the observer and the entry before it to those after
-- it. `due` says whether the observer's time is over and its score high enough.
pub data Move (delay now : ℕ) (id : Bytes) (due : Bool)
    : Call
      → Option Observer
      → Option Observer
      → Option ValidatorRegistration
      → Option ValidatorRegistration
      → Type 0 where
  same :
      {c : Call} {o : Option Observer} {e : Option ValidatorRegistration}
      → IsIdle delay now id due c e
      → Move delay now id due c o o e e
  scored :
      {c : Call} {e : Option ValidatorRegistration} (v : Observer) (n : ℕ)
      → measured c ≡ some (id, n)
      → Move delay now id due c (some v) (some (record v { score = n })) e e
  registers :
      {o : Option Observer} (tx : RegistrationTx) (v : Observer)
      → tx.validator_id ≡ id
      → v.start_time ≡ now
      → v.score ≡ 0
      → 6 * hour ≤ v.duration
      → v.duration ≤ 24 * hour
      → Move delay now id due (register tx) o (some v) none (some (new_registration now tx))
  activates :
      (r : ValidatorRegistration) (v : Observer)
      → r.status ≡ pending
      → due ≡ true
      → v.start_time + v.duration ≤ now
      → meets_min_score v.score ≡ true
      → Move delay now id due activate (some v) (some v) (some r) (some (activated now r))
  leaves :
      {o : Option Observer} (j : Bytes) (r : ValidatorRegistration)
      → j ≡ id
      → r.status ≡ active
      → Move delay now id due
          (request j)
          o
          o
          (some r)
          (some (record r { status = exiting; exit_time = now }))
  removed :
      {o : Option Observer} (r : ValidatorRegistration)
      → r.status ≡ exiting
      → r.exit_time + delay ≤ now
      → Move delay now id due process o o (some r) none

pub is_active-active : (status : ValidatorStatus) → is_active_status status ≡ true → status ≡ active
unfolding is_active_status
is_active-active status h = ground arith

pub active-is_active : (status : ValidatorStatus) → status ≡ active → is_active_status status ≡ true
unfolding is_active_status
active-is_active status h = rw h refl

pub is_exiting-exiting : (status : ValidatorStatus) → is_exiting status ≡ true → status ≡ exiting
unfolding is_exiting
is_exiting-exiting status h = ground arith

pub exiting-is_exiting : (status : ValidatorStatus) → status ≡ exiting → is_exiting status ≡ true
unfolding is_exiting
exiting-is_exiting status h = rw h refl

-- A request leaves every entry as it is, if the one that it names is not active.
pub IsIdle-request :
    (delay now : ℕ) (id : Bytes) (due : Bool) (j : Bytes) (e : Option ValidatorRegistration)
    → ((r : ValidatorRegistration) → e ≡ some r → j ≡ id → r.status ≢ active)
    → IsIdle delay now id due (request j) e
IsIdle-request delay now id due j none h = tt
IsIdle-request delay now id due j (some r) h = h r refl

-- An entry that an activation round leaves as it is was not due, if the round turns those that are.
IsIdle-activate :
    (delay now : ℕ) (id : Bytes) (due : Bool) (e : Option ValidatorRegistration)
    → ((r : ValidatorRegistration)
        → e ≡ some r
        → r.status ≡ pending
        → due ≡ true
        → e ≡ some (activated now r))
    → IsIdle delay now id due activate e
IsIdle-activate delay now id due none h = tt
IsIdle-activate delay now id false (some r) h = λ waiting. refl
IsIdle-activate delay now id true (some r) h =
    λ waiting. let turned_too = h r refl waiting refl in cc

turned_due :
    (now : ℕ) (r : ValidatorRegistration) (due : Bool)
    → r.status ≡ pending
    → (due ≡ false → some (activated now r) ≡ some r)
    → due ≡ true
turned_due now r true waiting rests = refl
turned_due now r false waiting rests = let stays = rests refl in cc

pub Round-Move :
    (delay now : ℕ) (id : Bytes) (due : Bool) (o o' : Option Observer)
    (e e' : Option ValidatorRegistration)
    → ((r : ValidatorRegistration)
        → e ≡ some r
        → r.status ≡ pending
        → due ≡ true
        → e' ≡ some (activated now r))
    → (due ≡ false → e' ≡ e)
    → Round now o e e'
    → o' ≡ o
    → Move delay now id due activate o o' e e'
Round-Move delay now id due o o' e e' turns rests (unchanged) h =
    rw h (same (IsIdle-activate delay now id due e turns))
Round-Move delay now id due o o' e e' turns rests (turned r v waiting known over good) h =
    rw (h, known) (activates r v waiting (turned_due now r due waiting rests) over good)
