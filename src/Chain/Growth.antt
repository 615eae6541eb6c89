-- ===== src/Chain/Growth.antt =====
-- rnr/pkg/blockchain/blockchain.go: the chains that grow from an empty database.
use route_n_root.Prelude.{
  ℕ, zero, suc, ◌+◌, ◌^◌, ◌<◌, ◌≡◌, refl, inl, inr, none, sym, Bytes, bytes_equal, false,
  Option-cases, bytes_equal_iff, arith, ap, ◌∙◌, Bool-cases,
}
use route_n_root.Prelude.Result.{Result, ok, err}
use route_n_root.Core.{Block}
use route_n_root.Platform.{LevelDb, Json, Sha256}
use route_n_root.Chain.{
  Blockchain, ChainError, add_block, get_block_by_height, verify_block, new_blockchain, open_with,
  genesis_block, block_key, current_key, count_from, get_total_transaction_count,
}
use route_n_root.Chain.Store.{current_key-ne}
use route_n_root.Prelude.Int.{pos}
use route_n_root.Chain.Links.{get_at, tip_height, IsChain, add_block-IsChain}

genesis_height : genesis_block.header.height ≡ 0
unfolding genesis_block
genesis_height = refl

ok_same {ℓ κ} : {E : Type ℓ} {A : Type κ} {x y : A} → ◌≡◌ {A = Result E A} (ok x) (ok y) → x ≡ y
ok_same h = cc

module _ (L : LevelDb) (J : Json) (S : Sha256) where
  count_missing :
      (bc : Blockchain L J S) (rounds height total : ℕ) {e : ChainError}
      → get_at L J S bc height ≡ err e
      → count_from L J S bc rounds height total ≡ total
  unfolding count_from
  count_missing bc zero height total m = refl
  count_missing bc (suc rounds) height total m = rw (m, count_from)

  -- What NewBlockchain opens on an empty database: the genesis block, stored under current_block only.
  fresh_chain :
      (d : L.Db) (bc : Blockchain L J S)
      → ((key : Bytes) → L.get key d ≡ none)
      → (new_blockchain L J S d).1 ≡ ok bc
      → (bc.current_block ≡ genesis_block) × ((h : ℕ) → L.get (block_key h) bc.db ≡ none)
  unfolding new_blockchain open_with
  fresh_chain d bc fresh opened = elim (Option-cases (J.marshal_block genesis_block)) [
    | inl failed ↦ absurd (ground (arith, failed, opened))
    | inr (bytes, marshalled) ↦ elim (Bool-cases (L.put current_key bytes d).1) [
      | inr lost ↦ absurd (ground (arith, marshalled, lost, fresh current_key, opened))
      | inl stored ↦
          let read = J.unmarshal-marshal genesis_block bytes marshalled in
          let other : (h : ℕ) → bytes_equal current_key (block_key h) ≡ false =
            λ h. ground (arith, bytes_equal_iff current_key (block_key h), current_key-ne h) in
          let is : bc ≡ record {
            db = (L.put current_key bytes d).0;
            current_block = genesis_block;
            difficulty = pos 1;
          } =
            ok_same (
              sym (
                rw (marshalled, fresh current_key, stored, read, new_blockchain, open_with) at
                  opened)) in
          rw is (
            refl,
            λ h.
                L.get-put current_key bytes (block_key h) d stored
                ∙ rw (other h) (fresh (block_key h)),
          )
    ]
  ]

  -- What NewBlockchain opens on an empty database is a chain.
  new_blockchain-IsChain :
      (d : L.Db) (bc : Blockchain L J S)
      → ((key : Bytes) → L.get key d ≡ none)
      → (new_blockchain L J S d).1 ≡ ok bc
      → IsChain L J S bc
  unfolding get_block_by_height
  new_blockchain-IsChain d bc fresh opened =
      let (genesis, unstored) = fresh_chain d bc fresh opened in
      let low : tip_height L J S bc ≡ 0 =
        ap (λ (b : Block). b.header.height) genesis ∙ genesis_height in
      record {
        stored = λ h above below. absurd (omega (arith, low));
        linked = λ h a b ga gb above below. absurd (omega (arith, low));
        tip = λ above. absurd (omega (arith, low));
        no_genesis = rw (unstored 0, get_block_by_height) refl;
      }

  -- The chains that AddBlock makes from one, with blocks that VerifyBlock accepts, while no write
  -- fails and no height overflows.
  pub data Grows (bc : Blockchain L J S) : Blockchain L J S → Type 0 where
    here : Grows bc bc
    added :
        {bc' : Blockchain L J S} (b : Block)
        → Grows bc bc'
        → tip_height L J S bc' + 1 < 2 ^ 64
        → verify_block L J S bc' b ≡ none
        → (add_block L J S bc' b).1 ≡ none
        → Grows bc (add_block L J S bc' b).0

  Grows-IsChain : {bc bc' : Blockchain L J S} → IsChain L J S bc → Grows bc bc' → IsChain L J S bc'
  Grows-IsChain c here = c
  Grows-IsChain c (added {bc' = mid} b g fits v e) =
      add_block-IsChain L J S mid b (Grows-IsChain c g) fits v e

  -- However a chain grew from an empty database, every height from 1 to its tip holds its block, and
  -- GetTotalTransactionCount returns 0, whatever transactions the blocks hold. Growing is adding
  -- blocks that VerifyBlock accepts, while no write fails and no height overflows.
  pub get_total_transaction_count_zero :
      (d : L.Db) (bc bc' : Blockchain L J S)
      → ((key : Bytes) → L.get key d ≡ none)
      → (new_blockchain L J S d).1 ≡ ok bc
      → Grows bc bc'
      → IsChain L J S bc' × (get_total_transaction_count L J S bc' ≡ 0)
  unfolding get_total_transaction_count
  get_total_transaction_count_zero d bc bc' fresh opened grown =
      let c = Grows-IsChain (new_blockchain-IsChain d bc fresh opened) grown in
      (c, count_missing bc' _ 0 0 c.no_genesis)
