-- ===== src/Concurrent/Order.antt =====
-- rnr/pkg/consensus/concurrent_validation.go: the outcome does not depend on the order in which the
-- goroutines finish.
use route_n_root.Prelude.{
  ℕ, zero, suc, ◌<◌, ◌≡◌, refl, ap, sym, ◌∙◌, inl, inr, Bool, true, false, Option, some, List, [],
  ◌∷◌, Bytes, Bool-cases, Option-cases, length, map, if◌then◌else◌, ◌==◌, arith,
}
use route_n_root.Core.{Account, Transaction}
use route_n_root.Concurrent.{
  blank_result, get_elem?, set_elem, replicate, finish_in, validate_transaction,
  validate_transactions_concurrently,
}

abbrev pub occurs : ℕ → List ℕ → Bool
occurs i [] = false
occurs i (j ∷ js) = let rest = occurs i js in if j == i then true else rest

some_same {ℓ} : {A : Type ℓ} {x y : A} → some x ≡ some y → x ≡ y
some_same h = cc

module _ {ℓ κ} {A : Type ℓ} {B : Type κ} (f : A → B) where
  get_elem-set_elem :
      (i j : ℕ) (v : B) (xs : List B)
      → j < length xs
      → get_elem? (set_elem i v xs) j ≡ (if i == j then some v else get_elem? xs j)
  unfolding get_elem? set_elem
  get_elem-set_elem i j v [] h = ground arith
  get_elem-set_elem zero zero v (x ∷ xs) h = refl
  get_elem-set_elem zero (suc j) v (x ∷ xs) h = ground arith
  get_elem-set_elem (suc i) zero v (x ∷ xs) h = ground arith
  get_elem-set_elem (suc i) (suc j) v (x ∷ xs) h = ground (arith, get_elem-set_elem i j v xs)

  length-set_elem : (i : ℕ) (v : B) (xs : List B) → length (set_elem i v xs) ≡ length xs
  unfolding set_elem
  length-set_elem i v [] = refl
  length-set_elem zero v (x ∷ xs) = refl
  length-set_elem (suc i) v (x ∷ xs) = ap suc (length-set_elem i v xs)

  length-finish_in :
      (xs : List A) (order : List ℕ) (results : List B)
      → length (finish_in f xs order results) ≡ length results
  unfolding finish_in
  length-finish_in xs [] results = refl
  length-finish_in xs (i ∷ order) results = elim (Option-cases (get_elem? xs i)) [
    | inl out ↦ rw (out, finish_in) (length-finish_in xs order results)
    | inr (x, found) ↦
        rw (found, finish_in)
          (length-finish_in xs order (set_elem i (f x) results) ∙ length-set_elem i (f x) results)
  ]

  -- An entry that has its value keeps it.
  finish_in-keeps :
      (xs : List A) (order : List ℕ) (results : List B) (j : ℕ) (x : A)
      → j < length results
      → get_elem? xs j ≡ some x
      → get_elem? results j ≡ some (f x)
      → get_elem? (finish_in f xs order results) j ≡ some (f x)
  unfolding finish_in
  finish_in-keeps xs [] results j x h at has = has
  finish_in-keeps xs (i ∷ order) results j x h at has = elim (Option-cases (get_elem? xs i)) [
    | inl out ↦ rw (out, finish_in) (finish_in-keeps xs order results j x h at has)
    | inr (y, found) ↦
        let results' = set_elem i (f y) results in
        let same : (i ≡ j) → (y ≡ x) = λ e. some_same (sym found ∙ ap (get_elem? xs) e ∙ at) in
        let read = get_elem-set_elem i j (f y) results h in
        let kept : get_elem? results' j ≡ some (f x) = elim (Bool-cases (i == j)) [
          | inl hit ↦ read ∙ rw hit (ap (λ z. some (f z)) (same (ground arith)))
          | inr miss ↦ read ∙ rw miss has
        ] in
        rw (found, finish_in)
          (finish_in-keeps xs order results' j x (omega (arith, length-set_elem i (f y) results, h))
            at kept)
  ]

  -- An entry whose goroutine is among those that finish gets its value.
  finish_in-writes :
      (xs : List A) (order : List ℕ) (results : List B) (j : ℕ) (x : A)
      → j < length results
      → get_elem? xs j ≡ some x
      → occurs j order ≡ true
      → get_elem? (finish_in f xs order results) j ≡ some (f x)
  unfolding finish_in
  finish_in-writes xs [] results j x h at among = cc
  finish_in-writes xs (i ∷ order) results j x h at among = elim (Bool-cases (i == j)) [
    | inl here ↦
        let same : i ≡ j = ground arith in
        let found : get_elem? xs i ≡ some x = ap (get_elem? xs) same ∙ at in
        let read = get_elem-set_elem i j (f x) results h in
        rw (found, finish_in)
          (finish_in-keeps xs order (set_elem i (f x) results) j x
            (omega (arith, length-set_elem i (f x) results, h)) at (read ∙ rw here refl))
    | inr later ↦
        let rest : occurs j order ≡ true = rw later at among in
        elim (Option-cases (get_elem? xs i)) [
          | inl out ↦ rw (out, finish_in) (finish_in-writes xs order results j x h at rest)
          | inr (y, found) ↦
              rw (found, finish_in)
                (finish_in-writes xs order (set_elem i (f y) results) j x
                  (omega (arith, length-set_elem i (f y) results, h)) at rest)
        ]
  ]

  get_elem-map :
      (xs : List A) (j : ℕ) (x : A) → get_elem? xs j ≡ some x → get_elem? (map f xs) j ≡ some (f x)
  unfolding get_elem?
  get_elem-map [] j x h = cc
  get_elem-map (y ∷ xs) zero x h = ap (λ z. some (f z)) (some_same h)
  get_elem-map (y ∷ xs) (suc j) x h = get_elem-map xs j x h

  get_elem-within : (xs : List A) (j : ℕ) → j < length xs → (x : A) × (get_elem? xs j ≡ some x)
  unfolding get_elem?
  get_elem-within [] j h = absurd (omega arith)
  get_elem-within (x ∷ xs) zero h = (x, refl)
  get_elem-within (x ∷ xs) (suc j) h = get_elem-within xs j (omega arith)

  -- Lists of one length with the same entries are equal.
  same_entries :
      (xs ys : List B)
      → length xs ≡ length ys
      → ((j : ℕ) → j < length ys → get_elem? xs j ≡ get_elem? ys j)
      → xs ≡ ys
  unfolding get_elem?
  same_entries [] [] l h = refl
  same_entries [] (y ∷ ys) l h = absurd (omega arith)
  same_entries (x ∷ xs) [] l h = absurd (omega arith)
  same_entries (x ∷ xs) (y ∷ ys) l h =
      let head : x ≡ y = some_same (h 0 (omega arith)) in
      let tail = same_entries xs ys (omega arith) (λ j within. h (suc j) (omega arith)) in
      ap (λ z. z ∷ xs) head ∙ ap (λ zs. y ∷ zs) tail

  length-replicate : (n : ℕ) (x : B) → length (replicate n x) ≡ n
  unfolding replicate
  length-replicate zero x = refl
  length-replicate (suc n) x = ap suc (length-replicate n x)

  length-map : (xs : List A) → length (map f xs) ≡ length xs
  length-map [] = refl
  length-map (x ∷ xs) = ap suc (length-map xs)

  -- Whatever was in the entries, and in whatever order the goroutines finish, the entries are those of the
  -- sequential map, if every goroutine finishes.
  pub finish_in-map :
      (xs : List A) (order : List ℕ) (blank : B)
      → ((j : ℕ) → j < length xs → occurs j order ≡ true)
      → finish_in f xs order (replicate (length xs) blank) ≡ map f xs
  finish_in-map xs order blank all =
      let start = replicate (length xs) blank in
      let size = length-replicate (length xs) blank in
      same_entries (finish_in f xs order start) (map f xs)
        (length-finish_in xs order start ∙ size ∙ sym (length-map xs))
        (λ j within.
          let inside : j < length xs = omega (arith, length-map xs) in
          let (x, at) = get_elem-within xs j inside in
          finish_in-writes xs order start j x (omega (arith, size)) at (all j inside)
          ∙ sym (get_elem-map xs j x at))

-- If every goroutine finishes, in whatever order and however often it is scheduled, ValidateTransactionsConcurrently returns the
-- results of checking the transactions one after the other, in their order.
pub validate_transactions_concurrently_any_order :
    (get_account : Bytes → Option Account) (order : List ℕ) (txs : List Transaction)
    → ((j : ℕ) → j < length txs → occurs j order ≡ true)
    → validate_transactions_concurrently get_account order txs
      ≡ map (validate_transaction get_account) txs
unfolding validate_transactions_concurrently
validate_transactions_concurrently_any_order get_account order txs all =
    finish_in-map (validate_transaction get_account) txs order blank_result all
