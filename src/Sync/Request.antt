-- ===== src/Sync/Request.antt =====
-- rnr/pkg/sync/sync_manager.go: which blocks are asked for, and which are served.
use route_n_root.Prelude.{
  ℕ, zero, suc, ◌+◌, ◌-◌, ◌^◌, ◌≤◌, ◌<◌, ◌≡◌, refl, ◌⊎◌, arith, List, [], ◌∷◌, length,
}
use route_n_root.Prelude.Result.{ok}
use route_n_root.Core.{Block}
use route_n_root.Platform.{LevelDb, Json, Sha256}
use route_n_root.Chain.{Blockchain}
use route_n_root.Chain.Links.{get_at, tip_height, IsChain}
use route_n_root.Sync.{
  SyncManager, BlockRequest, create_block_request, blocks_from, handle_block_request,
}

module _ (L : LevelDb) (J : Json) (S : Sha256) where
  -- While the target lies ahead and the heights do not overflow, a request for a positive batch
  -- starts right after the own height, ends at the target or after exactly one batch, whichever is
  -- lower, and is never empty.
  create_block_request_range :
      (sm : SyncManager L J S) (batch : ℕ)
      → 0 < batch
      → sm.current_height < sm.target_height
      → sm.current_height + batch < 2 ^ 64
      → let req = create_block_request L J S sm batch in
        (req.start_height ≡ sm.current_height + 1)
        × (req.start_height ≤ req.end_height)
        × (req.end_height ≤ sm.target_height)
        × (req.end_height ≤ sm.current_height + batch)
        × ((req.end_height ≡ sm.target_height) ⊎ (req.end_height ≡ sm.current_height + batch))
  unfolding create_block_request
  create_block_request_range sm batch p q r = ground arith

  -- The blocks of a list are those at consecutive heights of a chain.
  abbrev pub Covers : Blockchain L J S → ℕ → List Block → Type 0
  Covers bc h [] = Unit
  Covers bc h (b ∷ bs) = (get_at L J S bc h ≡ ok b) × (b.header.height ≡ h) × Covers bc (suc h) bs

  blocks_from_lem :
      (bc : Blockchain L J S) (rounds h : ℕ)
      → IsChain L J S bc
      → 1 ≤ h
      → h + rounds ≤ suc (tip_height L J S bc)
      → Covers bc h (blocks_from L J S bc rounds h)
        × (length (blocks_from L J S bc rounds h) ≡ rounds)
  unfolding blocks_from
  blocks_from_lem bc zero h c low high = (tt, refl)
  blocks_from_lem bc (suc rounds) h c low high =
      let (b, got, at) = c.stored h low (omega arith) in
      let (covers, len) = blocks_from_lem bc rounds (suc h) c (omega arith) (omega arith) in
      rw (got, blocks_from) ((got, at, covers), omega (arith, len))

  -- On a chain, a request for a range of heights from 1 to the tip at most is answered by exactly
  -- the blocks of the range, in order.
  pub handle_block_request_lem :
      (sm : SyncManager L J S) (req : BlockRequest)
      → IsChain L J S sm.blockchain
      → 1 ≤ req.start_height
      → req.start_height ≤ req.end_height
      → req.end_height ≤ tip_height L J S sm.blockchain
      → (bs : List Block) × (handle_block_request L J S sm req ≡ ok bs)
        × Covers sm.blockchain req.start_height bs
        × (length bs ≡ suc req.end_height - req.start_height)
  unfolding handle_block_request
  handle_block_request_lem sm req c low le high =
      let (covers, len) =
        blocks_from_lem sm.blockchain (suc req.end_height - req.start_height) req.start_height c low
          (omega arith) in
      (
        blocks_from L J S sm.blockchain (suc req.end_height - req.start_height) req.start_height,
        ground arith,
        covers,
        len,
      )
