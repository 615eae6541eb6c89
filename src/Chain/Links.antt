-- ===== src/Chain/Links.antt =====
-- rnr/pkg/blockchain/blockchain.go: blocks that are verified and then added form one chain.
use route_n_root.Prelude.{
  ℕ, suc, ◌+◌, ◌^◌, ◌≤◌, ◌<◌, ◌≡◌, ◌↔◌, inl, inr, none, some, Option-cases, bytes_equal_iff, arith,
  ◌==◌, if◌then◌else◌, ap, ◌∙◌, Bool-cases,
}
use route_n_root.Prelude.Result.{Result, ok, err}
use route_n_root.Core.{Block, u64}
use route_n_root.Platform.{LevelDb, Json, Sha256}
use route_n_root.Chain.{
  Blockchain, ChainError, not_found, hash_block, add_block, get_block_by_height, verify_block,
}
use route_n_root.Chain.Store.{get_block_by_height-add_block}

module _ (L : LevelDb) (J : Json) (S : Sha256) where
  abbrev pub get_at : Blockchain L J S → ℕ → Result ChainError Block
  get_at = get_block_by_height L J S

  abbrev pub tip_height : Blockchain L J S → ℕ
  tip_height bc = bc.current_block.header.height

  -- VerifyBlock accepts a block exactly when its height follows the tip's and it names the tip's
  -- hash.
  pub verify_block_iff :
      (bc : Blockchain L J S) (b : Block)
      → (verify_block L J S bc b ≡ none) ↔ (
          (b.header.height ≡ u64 (tip_height bc + 1))
          × (hash_block J S bc.current_block ≡ some b.header.prev_block_hash))
  unfolding verify_block
  verify_block_iff bc b = elim (Option-cases (hash_block J S bc.current_block)) [
    | inl failed ↦ ground arith
    | inr (prev, hashed) ↦ ground (arith, bytes_equal_iff b.header.prev_block_hash prev)
  ]

  -- Every height from 1 to the tip holds a block of that height, whose hash the next block names;
  -- the tip is the block at its height. The genesis block is not stored by height.
  pub record IsChain (bc : Blockchain L J S) : Type 0 where
    pub stored :
        (h : ℕ)
        → 1 ≤ h
        → h ≤ tip_height bc
        → (b : Block) × (get_at bc h ≡ ok b) × (b.header.height ≡ h)
    pub linked :
        (h : ℕ) (a b : Block)
        → get_at bc h ≡ ok a
        → get_at bc (suc h) ≡ ok b
        → 1 ≤ h
        → h < tip_height bc
        → hash_block J S a ≡ some b.header.prev_block_hash
    pub tip : 1 ≤ tip_height bc → get_at bc (tip_height bc) ≡ ok bc.current_block
    pub no_genesis : get_at bc 0 ≡ err not_found

  pub current-add_block :
      (bc : Blockchain L J S) (b : Block)
      → (add_block L J S bc b).1 ≡ none
      → (add_block L J S bc b).0.current_block ≡ b
  unfolding add_block
  current-add_block bc b e = elim (Option-cases (J.marshal_block b)) [
    | inl failed ↦ ground arith
    | inr (bytes, marshalled) ↦ ground arith
  ]

  module _ (bc bc' : Blockchain L J S) (b : Block) (c : IsChain bc) (moved : bc'.current_block ≡ b)
      (next : b.header.height ≡ tip_height bc + 1)
      (names : hash_block J S bc.current_block ≡ some b.header.prev_block_hash)
      (reads : (h : ℕ) → get_at bc' h ≡ (if b.header.height == h then ok b else get_at bc h)) where
    tip_moved : tip_height bc' ≡ tip_height bc + 1
    tip_moved = ap (λ (x : Block). x.header.height) moved ∙ next

    extend_stored :
        (h : ℕ)
        → 1 ≤ h
        → h ≤ tip_height bc'
        → (x : Block) × (get_at bc' h ≡ ok x) × (x.header.height ≡ h)
    extend_stored h low high = elim (Bool-cases (b.header.height == h)) [
      | inl new ↦ (b, ground (arith, reads h), ground arith)
      | inr old ↦
          let (x, got, at) = c.stored h low (ground (arith, tip_moved)) in
          (x, ground (arith, reads h), at)
    ]

    extend_linked :
        (h : ℕ) (x y : Block)
        → get_at bc' h ≡ ok x
        → get_at bc' (suc h) ≡ ok y
        → 1 ≤ h
        → h < tip_height bc'
        → hash_block J S x ≡ some y.header.prev_block_hash
    extend_linked h x y gx gy low high = elim (Bool-cases (h == tip_height bc)) [
      | inl last ↦
          let was_tip : x ≡ bc.current_block = ground (arith, reads h, c.tip (ground arith)) in
          let is_new : y ≡ b = ground (arith, reads (suc h)) in rw (was_tip, is_new) names
      | inr below ↦
          c.linked h x y (ground (arith, reads h)) (ground (arith, reads (suc h), tip_moved)) low
            (ground (arith, tip_moved))
    ]

    extend-IsChain : IsChain bc'
    extend-IsChain = record {
      stored = extend_stored;
      linked = extend_linked;
      tip = λ _. ground (arith, reads (tip_height bc'), tip_moved, moved);
      no_genesis = ground (arith, reads 0, c.no_genesis);
    }

  -- A chain stays a chain when a block that VerifyBlock accepts is added without an error, unless
  -- the height overflows.
  pub add_block-IsChain :
      (bc : Blockchain L J S) (b : Block)
      → IsChain bc
      → tip_height bc + 1 < 2 ^ 64
      → verify_block L J S bc b ≡ none
      → (add_block L J S bc b).1 ≡ none
      → IsChain (add_block L J S bc b).0
  add_block-IsChain bc b c fits v e =
      let (follows, names) = (verify_block_iff bc b).0 v in
      extend-IsChain bc (add_block L J S bc b).0 b c (current-add_block bc b e) (omega arith) names
        (λ h. get_block_by_height-add_block L J S bc b h e)
