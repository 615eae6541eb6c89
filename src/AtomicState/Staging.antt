-- ===== src/AtomicState/Staging.antt =====
-- rnr/pkg/blockchain/atomic_state.go: what the batch and the caches of a transaction hold.
use mathlib.Core.Path.{subst}
use route_n_root.Prelude.{
  ℕ, ◌≡◌, ◌≢◌, refl, sym, ap, ◌∙◌, inl, inr, false, Option, none, some, List, [], ◌∷◌, ◌++◌, Bytes,
  bytes_equal, bytes_equal_iff, Bool-cases, Option-cases, Map, All, lookup, insert, IsDistinct,
  lookup-insert, insert-IsDistinct, bytes_key, if◌then◌else◌, arith,
}
use route_n_root.Prelude.Text.{codes, append-injective}
use route_n_root.Platform.{BatchDb, StateJson, batch_value}
use route_n_root.AtomicState.{
  State, StateTransaction, account_key, validator_key, begin_transaction, insert_all,
  update_account_atomic, stage_accounts,
}

pub batch_value-append :
    (j k v : Bytes) (batch : List (Bytes × Bytes)) (old : Option Bytes)
    → batch_value j (batch ++ (k, v) ∷ []) old
      ≡ (if bytes_equal k j then some v else batch_value j batch old)
batch_value-append j k v [] old = refl
batch_value-append j k v ((i, w) ∷ batch) old = batch_value-append j k v batch _

account_key-injective : (a b : Bytes) → account_key a ≡ account_key b → a ≡ b
unfolding account_key
account_key-injective a b h = append-injective (codes "account_") a b h

account_key_equal : (a b : Bytes) → bytes_equal (account_key a) (account_key b) ≡ bytes_equal a b
account_key_equal a b = elim (Bool-cases (bytes_equal a b)) [
  | inl same ↦
      (bytes_equal_iff (account_key a) (account_key b)).1
        (ap account_key ((bytes_equal_iff a b).0 same))
      ∙ sym same
  | inr other ↦ elim (Bool-cases (bytes_equal (account_key a) (account_key b))) [
    | inl clash ↦
        clash
        ∙ sym (
            (bytes_equal_iff a b).1 (
              account_key-injective a b
                ((bytes_equal_iff (account_key a) (account_key b)).0 clash)))
    | inr apart ↦ apart ∙ sym other
  ]
]

validator_key_apart : (a b : Bytes) → bytes_equal (validator_key a) (account_key b) ≡ false
unfolding validator_key account_key
validator_key_apart a b = refl

-- What a map holds after all entries of a cache were written to it.
abbrev pub or_else : Option ℕ → Option ℕ → Option ℕ
or_else none old = old
or_else (some p) old = some p

pub lookup-insert_all :
    (k : Bytes) (cache m : Map Bytes ℕ)
    → IsDistinct cache
    → lookup k (insert_all cache m) ≡ or_else (lookup k cache) (lookup k m)
unfolding insert_all lookup
lookup-insert_all k [] m d = refl
lookup-insert_all k ((j, p) ∷ cache) m d = elim (Bool-cases (bytes_equal j k)) [
  | inl same ↦
      let absent : lookup k cache ≡ none =
        subst (λ x. lookup x cache ≡ none) ((bytes_equal_iff j k).0 same) d.0 in
      lookup-insert_all k cache (insert j p m) d.1
      ∙ rw (absent, same) (ground (arith, lookup-insert j k p m, same))
  | inr other ↦
      lookup-insert_all k cache (insert j p m) d.1 ∙ rw (lookup-insert j k p m, other) refl
]

module _ (L : BatchDb) (J : StateJson) where
  -- The batch and the cache of a transaction say the same.
  pub record IsStaged (s : State L J) (tx : StateTransaction) : Type 0 where
    pub distinct : IsDistinct tx.account_cache
    pub staged :
        (address : Bytes) (p : ℕ)
        → lookup address tx.account_cache ≡ some p
        → ((s.account_at p).address ≡ address)
          × ((old : Option Bytes)
              → J.marshal_account (s.account_at p) ≡ batch_value (account_key address) tx.batch old)
    pub unstaged :
        (address : Bytes) (old : Option Bytes)
        → lookup address tx.account_cache ≡ none
        → batch_value (account_key address) tx.batch old ≡ old

  pub begin_transaction-IsStaged : (s : State L J) → IsStaged s begin_transaction
  unfolding begin_transaction lookup
  begin_transaction-IsStaged s = record {
    distinct = tt;
    staged = λ address p h. cc;
    unstaged = λ address old h. refl;
  }

  update_account-IsStaged :
      (s : State L J) (tx : StateTransaction) (p : ℕ)
      → IsStaged s tx
      → (update_account_atomic L J s tx p).1 ≡ none
      → IsStaged s (update_account_atomic L J s tx p).0
  unfolding update_account_atomic
  update_account-IsStaged s tx p i h = elim (Option-cases (J.marshal_account (s.account_at p))) [
    | inl failed ↦ ground arith
    | inr (bytes, marshalled) ↦
        let own = (s.account_at p).address in
        rw (marshalled, update_account_atomic)
          (record {
            distinct = insert-IsDistinct own p tx.account_cache i.distinct;
            staged = λ address q found. elim (Bool-cases (bytes_equal own address)) [
              | inl same ↦
                  let new : q ≡ p = ground (arith, lookup-insert own address p tx.account_cache) in
                  rw new (
                    (bytes_equal_iff own address).0 same,
                    λ old.
                        marshalled
                        ∙ sym (
                            batch_value-append (account_key address) (account_key own) bytes
                              tx.batch old
                            ∙ rw (account_key_equal own address, same) refl),
                  )
              | inr other ↦
                  let (named, saved) =
                    i.staged address q
                      (ground (arith, lookup-insert own address p tx.account_cache)) in
                  (
                    named,
                    λ old.
                        saved old
                        ∙ sym (
                            batch_value-append (account_key address) (account_key own) bytes
                              tx.batch old
                            ∙ rw (account_key_equal own address, other) refl),
                  )
            ];
            unstaged = λ address old missing. elim (Bool-cases (bytes_equal own address)) [
              | inl same ↦ ground (arith, lookup-insert own address p tx.account_cache)
              | inr other ↦
                  batch_value-append (account_key address) (account_key own) bytes tx.batch old
                  ∙ rw (account_key_equal own address, other)
                      (i.unstaged address old
                        (ground (arith, lookup-insert own address p tx.account_cache)))
            ];
          })
  ]

  pub stage_accounts-IsStaged :
      (s : State L J) (ps : List ℕ) (tx : StateTransaction)
      → IsStaged s tx
      → (stage_accounts L J s ps tx).1 ≡ none
      → IsStaged s (stage_accounts L J s ps tx).0
  unfolding stage_accounts
  stage_accounts-IsStaged s [] tx i h = i
  stage_accounts-IsStaged s (p ∷ ps) tx i h =
      elim (Option-cases (update_account_atomic L J s tx p).1) [
        | inl fine ↦
            rw (fine, stage_accounts)
              (stage_accounts-IsStaged s ps _ (update_account-IsStaged s tx p i fine)
                (rw (fine, stage_accounts) at h))
        | inr (e, failed) ↦ cc (rw (failed, stage_accounts) at h)
      ]

  -- An address that no cache entry has is none of the staged ones.
  pub stage_accounts-unstaged :
      (s : State L J) (ps : List ℕ) (tx : StateTransaction) (address : Bytes)
      → (stage_accounts L J s ps tx).1 ≡ none
      → lookup address (stage_accounts L J s ps tx).0.account_cache ≡ none
      → All (λ p. (s.account_at p).address ≢ address) ps × (lookup address tx.account_cache ≡ none)
  unfolding stage_accounts update_account_atomic
  stage_accounts-unstaged s [] tx address h missing = (tt, missing)
  stage_accounts-unstaged s (p ∷ ps) tx address h missing =
      elim (Option-cases (J.marshal_account (s.account_at p))) [
        | inl failed ↦ cc (rw (failed, stage_accounts) at h)
        | inr (bytes, marshalled) ↦
            let own = (s.account_at p).address in
            let (rest, before) =
              stage_accounts-unstaged s ps _ address (rw (marshalled, stage_accounts) at h)
                (rw (marshalled, stage_accounts) at missing) in
            let kept = lookup-insert own address p tx.account_cache in
            (
              (λ same. ground (arith, kept, bytes_equal_iff own address), rest),
              ground (arith, kept),
            )
      ]
