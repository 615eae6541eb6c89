-- ===== src/Tests/Instances.antt =====
-- Instances of the interfaces to the state, to batches and to iterators.
use route_n_root.Prelude.{
  ◌≡◌, refl, sym, ap, ◌∙◌, inl, inr, true, false, Bool-cases, Option, none, some, List, [], ◌∷◌,
  Bytes, bytes_equal, bytes_equal_iff, All, Map, select, lookup, insert, erase, lookup-insert,
  lookup-erase, bytes_key, if◌then◌else◌, arith,
}
use route_n_root.Prelude.Text.{has_prefix}
use route_n_root.Core.{Account, ValidatorInfo}
use route_n_root.Platform.{BatchDb, ScanDb, StateJson, batch_value, listed}
use route_n_root.Registry.{ValidatorState}

abbrev pub write_batch : List (Bytes × Bytes) → Map Bytes Bytes → Map Bytes Bytes
write_batch [] d = d
write_batch ((k, v) ∷ batch) d = write_batch batch (insert k v d)

pub lookup-write_batch :
    (batch : List (Bytes × Bytes)) (d : Map Bytes Bytes) (j : Bytes)
    → lookup j (write_batch batch d) ≡ batch_value j batch (lookup j d)
lookup-write_batch [] d j = refl
lookup-write_batch ((k, v) ∷ batch) d j =
    lookup-write_batch batch (insert k v d) j ∙ ap (batch_value j batch) (lookup-insert k j v d)

abbrev pub memory_batches : BatchDb
memory_batches = record {
  Db = Map Bytes Bytes;
  get = lookup;
  write = λ batch d. (write_batch batch d, true);
  get-write = λ batch d _ j. lookup-write_batch batch d j;
  get-write_failed = λ batch d h. cc;
}

abbrev pub account_json : StateJson
account_json = record {
  marshal_account = λ a. some (a.nonce ∷ a.address);
  marshal_validator = λ v. some v.id;
}

abbrev pub keys_of : Map Bytes Bytes → List Bytes
keys_of [] = []
keys_of ((k, _) ∷ d) = k ∷ keys_of d

abbrev pub erase_all : List Bytes → Map Bytes Bytes → Map Bytes Bytes
erase_all [] d = d
erase_all (k ∷ ks) d = erase k (erase_all ks d)

pub lookup-erase_all :
    (ks : List Bytes) (d : Map Bytes Bytes) (j : Bytes)
    → lookup j (erase_all ks d) ≡ (if listed j ks then none else lookup j d)
lookup-erase_all [] d j = refl
lookup-erase_all (k ∷ ks) d j =
    ground (arith, lookup-erase k j (erase_all ks d), lookup-erase_all ks d j)

pub select-has_prefix :
    (p : Bytes) (ks : List Bytes)
    → All (λ k. has_prefix k p ≡ true) (select (λ k. has_prefix k p) ks)
select-has_prefix p [] = tt
select-has_prefix p (k ∷ ks) = elim (Bool-cases (has_prefix k p)) [
  | inl has ↦ rw has (has, select-has_prefix p ks)
  | inr lacks ↦ rw lacks (select-has_prefix p ks)
]

pub listed-keys_of :
    (p k v : Bytes) (d : Map Bytes Bytes)
    → lookup k d ≡ some v
    → has_prefix k p ≡ true
    → listed k (select (λ x. has_prefix x p) (keys_of d)) ≡ true
unfolding lookup
listed-keys_of p k v [] found has = cc
listed-keys_of p k v ((j, w) ∷ d) found has = elim (Bool-cases (bytes_equal j k)) [
  | inl same ↦
      let here = ap (λ x. has_prefix x p) ((bytes_equal_iff j k).0 same) ∙ has in
      rw here (rw same refl)
  | inr other ↦
      let rest = listed-keys_of p k v d (rw other at found) has in
      elim (Bool-cases (has_prefix j p)) [
        | inl prefixed ↦ rw prefixed (rw (other, rest) refl)
        | inr lacks ↦ rw lacks rest
      ]
]

abbrev pub memory_scan : ScanDb
memory_scan = record {
  Db = Map Bytes Bytes;
  get = lookup;
  keys = λ p d. select (λ k. has_prefix k p) (keys_of d);
  iterator_failed = λ p d. false;
  delete_all = λ ks d. (erase_all ks d, true);
  compact = λ d. (d, true);
  has_prefix-keys = λ p d. select-has_prefix p (keys_of d);
  keys-complete = λ p k v d _ found has. listed-keys_of p k v d found has;
  get-delete_all = λ ks d _ j. lookup-erase_all ks d j;
  get-delete_all_failed = λ ks d h. cc;
  get-compact = λ j d. refl;
}

-- The validators, the accounts and the active validators.
abbrev pub MemoryState : Type 0
MemoryState = Map Bytes ValidatorInfo × Map Bytes Account × List Bytes

abbrev pub named : Bytes → Option ValidatorInfo → Option ValidatorInfo
named id none = none
named id (some v) = some (record v { id = id })

abbrev pub addressed : Bytes → Option Account → Option Account
addressed address none = none
addressed address (some a) = some (record a { address = address })

pub named-id :
    (id : Bytes) (o : Option ValidatorInfo) (v : ValidatorInfo) → named id o ≡ some v → v.id ≡ id
named-id id none v h = cc
named-id id (some w) v h = cc

pub addressed-address :
    (address : Bytes) (o : Option Account) (a : Account)
    → addressed address o ≡ some a
    → a.address ≡ address
addressed-address address none a h = cc
addressed-address address (some b) a h = cc

pub named-insert :
    (v : ValidatorInfo) (id : Bytes) (m : Map Bytes ValidatorInfo)
    → named id (lookup id (insert v.id v m))
      ≡ (if bytes_equal v.id id then some v else named id (lookup id m))
named-insert v id m = elim (Bool-cases (bytes_equal v.id id)) [
  | inl same ↦
      ap (named id) (lookup-insert v.id id v m)
      ∙ rw same (ap (λ x. some (record v { id = x })) (sym ((bytes_equal_iff v.id id).0 same)))
  | inr other ↦ ap (named id) (lookup-insert v.id id v m) ∙ rw other refl
]

pub addressed-insert :
    (a : Account) (address : Bytes) (m : Map Bytes Account)
    → addressed address (lookup address (insert a.address a m))
      ≡ (if bytes_equal a.address address then some a else addressed address (lookup address m))
addressed-insert a address m = elim (Bool-cases (bytes_equal a.address address)) [
  | inl same ↦
      ap (addressed address) (lookup-insert a.address address a m)
      ∙ rw same (
          ap (λ x. some (record a { address = x }))
            (sym ((bytes_equal_iff a.address address).0 same)))
  | inr other ↦ ap (addressed address) (lookup-insert a.address address a m) ∙ rw other refl
]

abbrev pub memory_state : ValidatorState
memory_state = record {
  State = MemoryState;
  get_validator = λ id s. named id (lookup id s.0);
  update_validator = λ v s. (insert v.id v s.0, s.1, s.2);
  get_active_validators = λ s. s.2;
  get_account = λ address s. addressed address (lookup address s.1);
  update_account = λ a s. (s.0, insert a.address a s.1, s.2);
  validator_named = λ id s v h. named-id id (lookup id s.0) v h;
  get_validator-update = λ v id s. named-insert v id s.0;
  get_validator-update_account = λ a id s. refl;
  get_account-update_validator = λ v address s. refl;
  account_named = λ address s a h. addressed-address address (lookup address s.1) a h;
  get_account-update = λ a address s. addressed-insert a address s.1;
}

abbrev pub no_state : MemoryState
no_state = ([], [], [])
