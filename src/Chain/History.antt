-- ===== src/Chain/History.antt =====
-- rnr/pkg/blockchain/blockchain.go: the queries over the whole chain against the list of the
-- transactions that can be read, from the tip downwards.
use mathlib.Core.List.{append_assoc, append-nil}
use route_n_root.Prelude.{
  ℕ, zero, suc, ◌+◌, ◌-◌, ◌≤◌, ◌<◌, ◌≡◌, refl, ap, sym, ◌∙◌, inl, inr, none, some, List, [], ◌∷◌,
  ◌++◌, Bytes, arith, ltb, leb, length, take, select, Bool-cases, select-append, length-append,
  length-take-le, fill_twice, ltb→lt, take-nil,
}
use route_n_root.Prelude.Result.{ok, err, Result-cases}
use route_n_root.Core.{Transaction}
use route_n_root.Platform.{LevelDb, Json, Sha256}
use route_n_root.Chain.{
  Blockchain, involves, collect, find_tx, get_block_by_height, history_from,
  get_transaction_history, find_from, get_transaction_by_id,
}

-- The inner loop appends the matching transactions until the limit is reached.
collect_lem :
    (address : Bytes) (limit : ℕ) (found txs : List Transaction)
    → length found < limit
    → collect address limit found txs
      ≡ found ++ take (limit - length found) (select (involves address) txs)
unfolding collect
collect_lem address limit found [] h = rw (take-nil {A = Transaction}, append-nil)
collect_lem address limit found (tx ∷ txs) h =
    let grown = found ++ tx ∷ [] in
    let longer : length grown ≡ length found + 1 = length-append found (tx ∷ []) in
    elim (Bool-cases (involves address tx)) [
      | inr skip ↦ rw (skip, collect_lem address limit found txs h)
      | inl hit ↦ elim (Bool-cases (leb limit (length grown))) [
        | inl full ↦ let e : limit - length found ≡ 1 = ground arith in rw (hit, full, e)
        | inr room ↦
            let e : limit - length found ≡ suc (limit - length grown) = ground arith in
            rw (hit, room, e, collect_lem address limit grown txs (ground arith))
              (append_assoc found (tx ∷ []) _)
      ]
    ]

find_tx-append :
    (id : Bytes) (xs ys : List Transaction)
    → find_tx id (xs ++ ys) ≡ (elim (find_tx id xs) [ some tx ↦ some tx | none ↦ find_tx id ys ])
unfolding find_tx
find_tx-append id [] ys = refl
find_tx-append id (x ∷ xs) ys = ground (arith, find_tx-append id xs ys)

module _ (L : LevelDb) (J : Json) (S : Sha256) (bc : Blockchain L J S) where
  -- The transactions that can be read, the newest block first, down to the first missing block.
  pub readable : ℕ → List Transaction
  readable zero = elim (get_block_by_height L J S bc zero) [ err _ ↦ [] | ok b ↦ b.transactions ]
  readable (suc h) = elim (get_block_by_height L J S bc (suc h)) [
    | err _ ↦ []
    | ok b ↦ b.transactions ++ readable h
  ]

  history_lem :
      (address : Bytes) (limit h : ℕ) (found : List Transaction)
      → length found ≤ limit
      → history_from L J S bc address limit h found
        ≡ found ++ take (limit - length found) (select (involves address) (readable h))
  unfolding history_from readable
  history_lem address limit zero found le = elim (Bool-cases (ltb (length found) limit)) [
    | inr full ↦ let e : limit - length found ≡ 0 = ground arith in rw (full, e, append-nil)
    | inl room ↦ elim (Result-cases (get_block_by_height L J S bc zero)) [
      | inl (x, missing) ↦
          rw (room, missing, readable) (rw (take-nil {A = Transaction}, append-nil))
      | inr (b, got) ↦
          rw (room, got, readable)
            (collect_lem address limit found b.transactions (ltb→lt _ _ room))
    ]
  ]
  history_lem address limit (suc h) found le = elim (Bool-cases (ltb (length found) limit)) [
    | inr full ↦ let e : limit - length found ≡ 0 = ground arith in rw (full, e, append-nil)
    | inl room ↦ elim (Result-cases (get_block_by_height L J S bc (suc h))) [
      | inl (x, missing) ↦
          rw (room, missing, readable) (rw (take-nil {A = Transaction}, append-nil))
      | inr (b, got) ↦
          rw (room, got, readable, collect_lem address limit found b.transactions (ltb→lt _ _ room))
            (history_lem address limit h _ (grown b.transactions)
              ∙ fill_twice limit found (select (involves address) b.transactions) _
              ∙ ap (λ l. found ++ take (limit - length found) l)
                  (sym (select-append (involves address) b.transactions (readable h))))
    ]
  ]
    where
      grown :
          (txs : List Transaction)
          → length (found ++ take (limit - length found) (select (involves address) txs)) ≤ limit
      grown txs =
          let xs = select (involves address) txs in
          let n = limit - length found in
          omega (arith, length-append {0} found (take n xs), length-take-le {0} n xs)

  -- GetTransactionHistory returns the newest `limit` readable transactions that involve the
  -- address, the newest block first.
  pub get_transaction_history_lem :
      (address : Bytes) (limit : ℕ)
      → get_transaction_history L J S bc address limit
        ≡ take limit (select (involves address) (readable bc.current_block.header.height))
  unfolding get_transaction_history
  get_transaction_history_lem address limit =
      let e : limit - 0 ≡ limit = omega arith in
      history_lem address limit _ [] (omega arith)
      ∙ ap (λ n. take n (select (involves address) (readable bc.current_block.header.height))) e

  find_from_lem : (id : Bytes) (h : ℕ) → find_from L J S bc id h ≡ find_tx id (readable h)
  unfolding find_from readable find_tx
  find_from_lem id zero = elim (Result-cases (get_block_by_height L J S bc zero)) [
    | inl (x, missing) ↦ rw (missing, readable, find_from)
    | inr (b, got) ↦ rw (got, readable, find_from)
  ]
  find_from_lem id (suc h) = elim (Result-cases (get_block_by_height L J S bc (suc h))) [
    | inl (x, missing) ↦ rw (missing, readable, find_from)
    | inr (b, got) ↦
        rw (got, readable, find_from)
          (ground (arith, find_tx-append id b.transactions (readable h), find_from_lem id h))
  ]

  -- GetTransactionByID returns the first readable transaction with the ID, the newest block first.
  get_transaction_by_id_lem :
      (id : Bytes)
      → get_transaction_by_id L J S bc id ≡ find_tx id (readable bc.current_block.header.height)
  unfolding get_transaction_by_id
  get_transaction_by_id_lem id = find_from_lem id _
