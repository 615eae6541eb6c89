-- ===== src/AtomicState/Settle.antt =====
-- rnr/pkg/blockchain/atomic_state.go: the assignments and the end of ApplyTransactionAtomic.

use route_n_root.Prelude.{
  ℕ, ◌+◌, ◌≡◌, ◌≢◌, ◌==◌, refl, sym, ap, ◌∙◌, ◌⊎◌, inl, inr, some, List, [], ◌∷◌, Bytes, Bool-cases,
  Option-cases, All, lookup, bytes_key, ==_iff, arith,
}
use route_n_root.Prelude.Int.{ℤ, ◌+ℤ◌, ◌-ℤ◌, -ℤ_parts, +ℤ_parts, eq_of_parts}
use route_n_root.Core.{Account, Transaction, u64}
use route_n_root.Platform.{BatchDb, StateJson}
use route_n_root.AtomicState.{
  State, StateError, update_account_atomic, marshal_failed, write_failed, begin_transaction,
  stage_accounts, assign, commit, StateTransaction, debit, credit, settle,
}
use route_n_root.AtomicState.Commit.{IsSaved, IsPersisted, commit_failed}

assign_same {ℓ} : {A : Type ℓ} (p : ℕ) (x : A) (f : ℕ → A) → assign p x f p ≡ x
unfolding assign
assign_same p x f = ground arith

assign_other {ℓ} : {A : Type ℓ} (p q : ℕ) (x : A) (f : ℕ → A) → q ≢ p → assign p x f q ≡ f q
unfolding assign
assign_other p q x f h = ground arith

module _ (L : BatchDb) (J : StateJson) where
  -- The state after the two assignments, before anything is staged.
  abbrev pub moved : State L J → Transaction → ℕ → ℕ → State L J
  moved s tx p q = credit L J (debit L J s tx p) tx q

  moved_other :
      (s : State L J) (tx : Transaction) (p q r : ℕ)
      → r ≢ p
      → r ≢ q
      → (moved s tx p q).account_at r ≡ s.account_at r
  unfolding debit credit
  moved_other s tx p q r np nq = assign_other q r _ _ nq ∙ assign_other p r _ s.account_at np

  moved_address :
      (s : State L J) (tx : Transaction) (p q r : ℕ)
      → ((moved s tx p q).account_at r).address ≡ (s.account_at r).address
  unfolding debit credit assign
  moved_address s tx p q r = ground arith

  -- What a pointer to an account that did not move stands for is still what is on disk.
  pub moved-IsSaved :
      (s : State L J) (tx : Transaction) (p q : ℕ)
      → IsPersisted L J s
      → (address : Bytes) (r : ℕ)
      → All (λ x. ((moved s tx p q).account_at x).address ≢ address) (p ∷ q ∷ [])
      → lookup address s.accounts ≡ some r
      → IsSaved L J (moved s tx p q) address r
  unfolding debit credit
  moved-IsSaved s tx p q i address r apart found =
      let (named, saved) = i address r found in
      let elsewhere : (x : ℕ) → ((moved s tx p q).account_at x).address ≢ address → r ≢ x =
        λ x away e.
          away (moved_address s tx p q x ∙ ap (λ y. (s.account_at y).address) (sym e) ∙ named) in
      let same = moved_other s tx p q r (elsewhere p apart.0) (elsewhere q apart.1.0) in
      (ap (λ (a : Account). a.address) same ∙ named, ap J.marshal_account same ∙ saved)

  -- The accounts after a transfer from `p` to `q`.
  abbrev pub IsTransfer : State L J → Transaction → ℕ → ℕ → (ℕ → Account) → Type 0
  IsTransfer s tx p q after =
      ((after p).nonce ≡ u64 ((s.account_at p).nonce + 1))
      × (((p ≢ q)
            × ((after p).balance ≡ (s.account_at p).balance -ℤ tx.amount)
            × ((after p).balance +ℤ (after q).balance
                ≡ (s.account_at p).balance +ℤ (s.account_at q).balance))
          ⊎ ((p ≡ q) × ((after p).balance ≡ (s.account_at p).balance)))
      × ((r : ℕ) → (r ≡ p) ⊎ (r ≡ q) ⊎ (after r ≡ s.account_at r))

  sub_add : (a b : ℤ) → (a -ℤ b) +ℤ b ≡ a
  sub_add a b = eq_of_parts _ _ (omega (arith, -ℤ_parts a b, +ℤ_parts (a -ℤ b) b))

  sub_add_other : (a b c : ℤ) → (a -ℤ b) +ℤ (c +ℤ b) ≡ a +ℤ c
  sub_add_other a b c =
      eq_of_parts _ _
        (omega (arith, -ℤ_parts a b, +ℤ_parts c b, +ℤ_parts (a -ℤ b) (c +ℤ b), +ℤ_parts a c))

  pub moved-IsTransfer :
      (s : State L J) (tx : Transaction) (p q : ℕ) → IsTransfer s tx p q (moved s tx p q).account_at
  unfolding debit credit assign
  moved-IsTransfer s tx p q = (
    ground (arith, ==_iff p q),
    elim (Bool-cases (p == q)) [
      | inl same ↦ inr (
        (==_iff p q).0 same,
        ground (arith, ==_iff p q, sub_add (s.account_at p).balance tx.amount),
      )
      | inr apart ↦
          let no : p ≢ q = ground (arith, ==_iff p q) in
          inl (
            no,
            ground (arith, ==_iff p q),
            ground (
              arith,
              ==_iff p q,
              sub_add_other (s.account_at p).balance tx.amount (s.account_at q).balance,
            ),
          )
    ],
    λ r. elim (Bool-cases (r == p)) [
      | inl here ↦ inl ((==_iff r p).0 here)
      | inr np ↦ elim (Bool-cases (r == q)) [
        | inl there ↦ inr (inl ((==_iff r q).0 there))
        | inr nq ↦
            inr (
              inr
                (moved_other s tx p q r (ground (arith, ==_iff r p)) (ground (arith, ==_iff r q))))
      ]
    ],
  )

  commit-account_at :
      (s : State L J) (t : StateTransaction) → (commit L J s t).0.account_at ≡ s.account_at
  unfolding commit
  commit-account_at s t = elim (Bool-cases (L.write t.batch s.db).1) [
    | inl written ↦ rw (written, commit) refl
    | inr failed ↦ rw (failed, commit) refl
  ]

  pub settle-account_at : (s : State L J) (p q : ℕ) → (settle L J s p q).0.account_at ≡ s.account_at
  unfolding settle
  settle-account_at s p q =
      elim (Option-cases (stage_accounts L J s (p ∷ q ∷ []) begin_transaction).1) [
        | inl fine ↦ rw (fine, settle) (commit-account_at s _)
        | inr (e, failed) ↦ rw (failed, settle) refl
      ]

  stage_accounts_failed :
      (s : State L J) (ps : List ℕ) (t : StateTransaction) (e : StateError)
      → (stage_accounts L J s ps t).1 ≡ some e
      → e ≡ marshal_failed
  unfolding stage_accounts update_account_atomic
  stage_accounts_failed s [] t e h = cc
  stage_accounts_failed s (p ∷ ps) t e h =
      elim (Option-cases (J.marshal_account (s.account_at p))) [
        | inl failed ↦ cc (rw (failed, stage_accounts) at h)
        | inr (bytes, marshalled) ↦
            stage_accounts_failed s ps _ e (rw (marshalled, stage_accounts) at h)
      ]

  commit_error :
      (s : State L J) (t : StateTransaction) (e : StateError)
      → (commit L J s t).1 ≡ some e
      → e ≡ write_failed
  unfolding commit
  commit_error s t e h = elim (Bool-cases (L.write t.batch s.db).1) [
    | inl written ↦ cc (rw (written, commit) at h)
    | inr failed ↦ cc (rw (failed, commit) at h)
  ]

  -- The maps of the state, which stay when nothing was written.
  abbrev pub SameMaps : State L J → State L J → Type 0
  SameMaps s s' = (s'.accounts ≡ s.accounts) × (s'.validators ≡ s.validators)

  pub settle_failed :
      (s : State L J) (p q : ℕ) (e : StateError)
      → (settle L J s p q).1 ≡ some e
      → ((e ≡ marshal_failed) ⊎ (e ≡ write_failed)) × SameMaps s (settle L J s p q).0
  unfolding settle
  settle_failed s p q e h =
      elim (Option-cases (stage_accounts L J s (p ∷ q ∷ []) begin_transaction).1) [
        | inl fine ↦
            let t = (stage_accounts L J s (p ∷ q ∷ []) begin_transaction).0 in
            let h' : (commit L J s t).1 ≡ some e = rw (fine, settle) at h in
            let (memory, _) = commit_failed L J s t e h' in
            (
              inr (commit_error s t e h'),
              rw (fine, settle)
                  (
                    ap (λ (x : State L J). x.accounts) memory,
                    ap (λ (x : State L J). x.validators) memory,
                  ),
            )
        | inr (e', failed) ↦
            let same : e' ≡ e = cc (rw (failed, settle) at h) in
            (
              inl (sym same ∙ stage_accounts_failed s (p ∷ q ∷ []) begin_transaction e' failed),
              rw (failed, settle) (refl, refl),
            )
      ]
