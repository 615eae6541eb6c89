-- ===== src/Merkle/Builders.antt =====
-- rnr/pkg/consensus: the sequential and the concurrent builder of Merkle roots.
use mathlib.Core.Path.{subst}
use route_n_root.Prelude.{
  ℕ, zero, suc, ◌<◌, ◌≡◌, ◌⊎◌, refl, ap, ◌∙◌, inl, inr, Option, some, Option-cases, Bool-cases,
  List, [], ◌∷◌, ◌++◌, Bytes, true, ◌==◌, length, map, arith,
}
use route_n_root.Prelude.Result.{Result, ok, err, or_err, Result-cases}
use route_n_root.Core.{Transaction}
use route_n_root.Platform.{Json, Sha256}
use route_n_root.Concurrent.{get_elem?, set_elem, finish_in, replicate}
use route_n_root.Concurrent.Order.{occurs, finish_in-map}
use route_n_root.Merkle.{
  MerkleError, marshal_failed, no_fuel, hash_transaction, hash_all, cons_hash, hash_in, gather,
  root_result, pair_hashes, combine_hashes, root_from, tree_from, compute_merkle_root,
  compute_merkle_tree, calculate_merkle_root, compute_merkle_root_concurrent,
}
use route_n_root.Merkle.Binding.{root_from-ends}

some_tx : {x y : Transaction} → some x ≡ some y → x ≡ y
some_tx h = cc

get_elem-inside :
    (txs : List Transaction) (j : ℕ) (tx : Transaction) → get_elem? txs j ≡ some tx → j < length txs
unfolding get_elem?
get_elem-inside [] j tx h = cc
get_elem-inside (x ∷ txs) zero tx h = omega arith
get_elem-inside (x ∷ txs) (suc j) tx h = omega (arith, get_elem-inside txs j tx h)

gather_ok : (hashes : List Bytes) → gather (hashes, []) ≡ ok hashes
unfolding gather
gather_ok hashes = refl

ended :
    (build : List Bytes → Option Bytes) (e : Bytes)
    → root_result build (err e) ≡ err (marshal_failed e)
unfolding root_result
ended build e = refl

module _ (S : Sha256) where
  combine_hashes-pair_hashes : (xs : List Bytes) → combine_hashes S xs ≡ pair_hashes S xs
  unfolding combine_hashes pair_hashes
  combine_hashes-pair_hashes [] = refl
  combine_hashes-pair_hashes (x ∷ []) = refl
  combine_hashes-pair_hashes (x ∷ y ∷ xs) =
      ap (λ zs. S.sum (x ++ y) ∷ zs) (combine_hashes-pair_hashes xs)

  tree_from-root_from : (fuel : ℕ) (xs : List Bytes) → tree_from S fuel xs ≡ root_from S fuel xs
  unfolding tree_from root_from
  tree_from-root_from zero xs = refl
  tree_from-root_from (suc fuel) [] = refl
  tree_from-root_from (suc fuel) (x ∷ []) = refl
  tree_from-root_from (suc fuel) (x ∷ y ∷ xs) =
      ap (tree_from S fuel) (combine_hashes-pair_hashes (x ∷ y ∷ xs))
      ∙ tree_from-root_from fuel (pair_hashes S (x ∷ y ∷ xs))

  -- The end of both builders on the same hashes.
  both_end :
      (hashes : List Bytes)
      → (root : Bytes) × (root_result (compute_merkle_tree S) (ok hashes) ≡ ok root)
        × (root_result (compute_merkle_root S) (ok hashes) ≡ ok root)
  unfolding root_result compute_merkle_tree compute_merkle_root
  both_end hashes =
      let (root, ends) = root_from-ends S (suc (length hashes)) hashes (omega arith) in
      let tree = tree_from-root_from (suc (length hashes)) hashes in
      (root, ap (or_err no_fuel) (tree ∙ ends), ap (or_err no_fuel) ends)

  module _ (J : Json) where
    -- A transaction of the list that cannot be hashed, with its error.
    abbrev pub Fails : List Transaction → Bytes → Type 0
    Fails txs e =
        (j : ℕ) × (tx : Transaction) × (get_elem? txs j ≡ some tx)
        × (hash_transaction J S tx ≡ err e)

    abbrev AllHash : List Transaction → Type 0
    AllHash txs =
        (j : ℕ) (tx : Transaction)
        → get_elem? txs j ≡ some tx
        → (hash : Bytes) × (hash_transaction J S tx ≡ ok hash)

    abbrev or_nil : Result Bytes Bytes → Bytes
    or_nil (err e) = []
    or_nil (ok hash) = hash

    abbrev hash_or_nil : Transaction → Bytes
    hash_or_nil tx = or_nil (hash_transaction J S tx)

    AllHash-cons :
        (tx : Transaction) (txs : List Transaction) (hash : Bytes)
        → hash_transaction J S tx ≡ ok hash
        → AllHash txs
        → AllHash (tx ∷ txs)
    unfolding get_elem?
    AllHash-cons tx txs hash made all zero x at =
        (hash, subst (λ y. hash_transaction J S y ≡ ok hash) (some_tx at) made)
    AllHash-cons tx txs hash made all (suc j) x at = all j x at

    -- The sequential loop fails with the error of a transaction, or hashes all of them.
    hash_all-outcome :
        (txs : List Transaction)
        → ((e : Bytes) × (hash_all J S txs ≡ err e) × Fails txs e)
          ⊎ (AllHash txs × (hash_all J S txs ≡ ok (map hash_or_nil txs)))
    unfolding hash_all cons_hash get_elem?
    hash_all-outcome [] = inr (λ j tx h. cc, refl)
    hash_all-outcome (tx ∷ txs) = elim (Result-cases (hash_transaction J S tx)) [
      | inl (e, failed) ↦ inl (e, rw (failed, hash_all) refl, (0, tx, refl, failed))
      | inr (hash, made) ↦ elim (hash_all-outcome txs) [
        | inl (e, stopped, (j, bad, at, failed)) ↦
            inl (e, rw (made, stopped, hash_all) refl, (suc j, bad, at, failed))
        | inr (all, hashed) ↦
            inr (AllHash-cons tx txs hash made all, rw (made, hashed, hash_all) refl)
      ]
    ]

    -- Where every transaction can be hashed, no goroutine sends an error.
    hash_in-hashes :
        (txs : List Transaction) (order : List ℕ) (hashes : List Bytes)
        → AllHash txs
        → hash_in J S txs order hashes ≡ (finish_in hash_or_nil txs order hashes, [])
    unfolding hash_in finish_in
    hash_in-hashes txs [] hashes all = refl
    hash_in-hashes txs (i ∷ order) hashes all = elim (Option-cases (get_elem? txs i)) [
      | inl out ↦ rw (out, hash_in, finish_in) (hash_in-hashes txs order hashes all)
      | inr (tx, at) ↦
          let (hash, made) = all i tx at in
          rw (at, made, hash_in, finish_in) (hash_in-hashes txs order (set_elem i hash hashes) all)
    ]

    -- Where a goroutine among those that finish cannot hash its transaction, the first error in the
    -- channel is that of a transaction.
    hash_in-Fails :
        (txs : List Transaction) (order : List ℕ) (hashes : List Bytes) (j : ℕ) (tx : Transaction)
        (e : Bytes)
        → occurs j order ≡ true
        → get_elem? txs j ≡ some tx
        → hash_transaction J S tx ≡ err e
        → (first : Bytes) × (gather (hash_in J S txs order hashes) ≡ err first) × Fails txs first
    unfolding hash_in gather
    hash_in-Fails txs [] hashes j tx e among at failed = cc
    hash_in-Fails txs (i ∷ order) hashes j tx e among at failed = elim (Bool-cases (i == j)) [
      | inl here ↦
          let same : i ≡ j = ground arith in
          let found : get_elem? txs i ≡ some tx = ap (get_elem? txs) same ∙ at in
          (e, rw (found, failed, hash_in, gather) refl, (j, tx, at, failed))
      | inr later ↦
          let rest : occurs j order ≡ true = rw later at among in
          elim (Option-cases (get_elem? txs i)) [
            | inl out ↦ rw (out, hash_in) (hash_in-Fails txs order hashes j tx e rest at failed)
            | inr (other, found) ↦ elim (Result-cases (hash_transaction J S other)) [
              | inl (first, bad) ↦
                  (first, rw (found, bad, hash_in, gather) refl, (i, other, found, bad))
              | inr (hash, made) ↦
                  rw (found, made, hash_in)
                    (hash_in-Fails txs order (set_elem i hash hashes) j tx e rest at failed)
            ]
          ]
    ]

    nothing_hashed : calculate_merkle_root S J [] ≡ ok []
    unfolding calculate_merkle_root compute_merkle_root root_from hash_all root_result
    nothing_hashed = refl

    -- What the two builders may return: one root, or each the error of a transaction that cannot be
    -- marshalled.
    abbrev pub Agree :
        List Transaction → Result MerkleError Bytes → Result MerkleError Bytes → Type 0
    Agree txs concurrent sequential =
        ((root : Bytes) × (concurrent ≡ ok root) × (sequential ≡ ok root))
        ⊎ ((e : Bytes) × (e' : Bytes) × Fails txs e
            × Fails txs e'
            × (concurrent ≡ err (marshal_failed e))
            × (sequential ≡ err (marshal_failed e')))

    -- If every goroutine finishes, in whatever order, ComputeMerkleRootConcurrent and
    -- calculateMerkleRoot return one root, or both fail, each with the error of a transaction of the
    -- list that cannot be marshalled; the two errors may differ.
    pub compute_merkle_root_concurrent_any_order :
        (order : List ℕ) (txs : List Transaction)
        → ((j : ℕ) → j < length txs → occurs j order ≡ true)
        → Agree txs (compute_merkle_root_concurrent S J order txs) (calculate_merkle_root S J txs)
    unfolding compute_merkle_root_concurrent calculate_merkle_root
    compute_merkle_root_concurrent_any_order order [] all = inl ([], refl, nothing_hashed)
    compute_merkle_root_concurrent_any_order order (tx ∷ txs) all =
        let us = tx ∷ txs in
        let blank = replicate (suc (length txs)) [] in
        elim (hash_all-outcome us) [
          | inr (hash, hashed) ↦
              let (root, tree, seq) = both_end (map hash_or_nil us) in
              let done =
                ap gather (hash_in-hashes us order blank hash)
                ∙ gather_ok (finish_in hash_or_nil us order blank)
                ∙ ap ok (finish_in-map hash_or_nil us order [] all) in
              inl (
                root,
                ap (root_result (compute_merkle_tree S)) done ∙ tree,
                ap (root_result (compute_merkle_root S)) hashed ∙ seq,
              )
          | inl (e', stopped, (j, bad, at, failed)) ↦
              let (e, sent, fails) =
                hash_in-Fails us order blank j bad e' (all j (get_elem-inside us j bad at)) at
                  failed in
              inr (
                e,
                e',
                fails,
                (j, bad, at, failed),
                ap (root_result (compute_merkle_tree S)) sent ∙ ended (compute_merkle_tree S) e,
                ap (root_result (compute_merkle_root S)) stopped ∙ ended (compute_merkle_root S) e',
              )
        ]
