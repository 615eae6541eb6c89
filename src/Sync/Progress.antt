-- ===== src/Sync/Progress.antt =====
-- rnr/pkg/sync/sync_manager.go: what a batch of blocks from a peer does to the chain.
use route_n_root.Prelude.{
  ◌+◌, ◌^◌, ◌≤◌, ◌<◌, ◌≡◌, ◌≢◌, ◌↔◌, refl, inl, inr, Bool, true, false, Option, none, some,
  Option-cases, arith, List, [], ◌∷◌, length, ap, sym, ◌∙◌,
}
use route_n_root.Core.{Block}
use route_n_root.Platform.{LevelDb, Json, Sha256}
use route_n_root.Chain.{add_block, verify_block}
use route_n_root.Chain.Links.{
  tip_height, IsChain, add_block-IsChain, verify_block_iff, current-add_block,
}
use route_n_root.Sync.{
  SyncManager, SyncError, synced, add_failed, process_blocks, finish_sync, process_block_response,
}

abbrev pub write_failed : Option SyncError → Bool
write_failed (some (add_failed _)) = true
write_failed _ = false

module _ (L : LevelDb) (J : Json) (S : Sha256) where
  -- The manager after a block was verified and added.
  abbrev after_block : SyncManager L J S → Block → SyncManager L J S
  after_block sm b = record sm {
    blockchain = (add_block L J S sm.blockchain b).0;
    current_height = b.header.height;
  }

  next_tip :
      (sm : SyncManager L J S) (b : Block)
      → tip_height L J S sm.blockchain + 1 < 2 ^ 64
      → verify_block L J S sm.blockchain b ≡ none
      → (add_block L J S sm.blockchain b).1 ≡ none
      → (b.header.height ≡ tip_height L J S sm.blockchain + 1)
        × (tip_height L J S (after_block sm b).blockchain ≡ tip_height L J S sm.blockchain + 1)
  next_tip sm b fits good added =
      let (follows, _) = (verify_block_iff L J S sm.blockchain b).0 good in
      let moved =
        ap (λ (x : Block). x.header.height) (current-add_block L J S sm.blockchain b added) in
      (omega arith, omega arith)

  process_blocks-IsChain :
      (sm : SyncManager L J S) (bs : List Block)
      → IsChain L J S sm.blockchain
      → tip_height L J S sm.blockchain + length bs < 2 ^ 64
      → write_failed (process_blocks L J S sm bs).1 ≡ false
      → IsChain L J S (process_blocks L J S sm bs).0.blockchain
  unfolding process_blocks
  process_blocks-IsChain sm [] c fits w = c
  process_blocks-IsChain sm (b ∷ bs) c fits w =
      elim (Option-cases (verify_block L J S sm.blockchain b)) [
        | inr (e, bad) ↦ rw (bad, process_blocks) c
        | inl good ↦ elim (Option-cases ((add_block L J S sm.blockchain b).1)) [
          | inr (e, lost) ↦ cc (rw (good, lost, process_blocks) at w)
          | inl added ↦
              rw (good, added, process_blocks)
                (process_blocks-IsChain (after_block sm b) bs
                  (add_block-IsChain L J S sm.blockchain b c (omega arith) good added)
                  (omega (arith, (next_tip sm b (omega arith) good added).1))
                  (rw (good, added, process_blocks) at w))
        ]
      ]

  process_blocks_all :
      (sm : SyncManager L J S) (bs : List Block)
      → tip_height L J S sm.blockchain + length bs < 2 ^ 64
      → sm.current_height ≡ tip_height L J S sm.blockchain
      → (process_blocks L J S sm bs).1 ≡ none
      → let sm' = (process_blocks L J S sm bs).0 in
        (tip_height L J S sm'.blockchain ≡ tip_height L J S sm.blockchain + length bs)
        × (sm'.current_height ≡ tip_height L J S sm'.blockchain)
        × (sm'.target_height ≡ sm.target_height)
        × (sm'.status ≡ sm.status)
  unfolding process_blocks
  process_blocks_all sm [] fits at e = (omega arith, at, refl, refl)
  process_blocks_all sm (b ∷ bs) fits at e =
      elim (Option-cases (verify_block L J S sm.blockchain b)) [
        | inr (x, bad) ↦ cc (rw (bad, process_blocks) at e)
        | inl good ↦ elim (Option-cases ((add_block L J S sm.blockchain b).1)) [
          | inr (x, lost) ↦ cc (rw (good, lost, process_blocks) at e)
          | inl added ↦
              let (high, moved) = next_tip sm b (omega arith) good added in
              let (tip, at', target, status) =
                process_blocks_all (after_block sm b) bs (omega arith) (omega arith)
                  (rw (good, added, process_blocks) at e) in
              rw (good, added, process_blocks) (omega arith, at', target, status)
        ]
      ]

  finish_sync_keeps :
      (sm : SyncManager L J S)
      → ((finish_sync L J S sm).blockchain ≡ sm.blockchain)
        × ((finish_sync L J S sm).current_height ≡ sm.current_height)
  unfolding finish_sync
  finish_sync_keeps sm = ground arith

  finish_sync-status :
      (sm : SyncManager L J S)
      → sm.status ≢ synced
      → ((finish_sync L J S sm).status ≡ synced) ↔ (sm.target_height ≤ sm.current_height)
  unfolding finish_sync
  finish_sync-status sm s = ground arith

  response_accepted :
      (sm : SyncManager L J S) (bs : List Block)
      → (process_block_response L J S sm bs).1 ≡ none
      → ((process_blocks L J S sm bs).1 ≡ none)
        × ((process_block_response L J S sm bs).0
            ≡ finish_sync L J S (process_blocks L J S sm bs).0)
  unfolding process_block_response
  response_accepted sm [] e = cc
  response_accepted sm (b ∷ bs) e = ground arith

  -- Whatever blocks a peer sends, a chain stays a chain, unless a write to the database failed or
  -- the heights overflow.
  pub process_block_response-IsChain :
      (sm : SyncManager L J S) (bs : List Block)
      → IsChain L J S sm.blockchain
      → tip_height L J S sm.blockchain + length bs < 2 ^ 64
      → write_failed (process_block_response L J S sm bs).1 ≡ false
      → IsChain L J S (process_block_response L J S sm bs).0.blockchain
  unfolding process_block_response
  process_block_response-IsChain sm [] c fits w = c
  process_block_response-IsChain sm (b ∷ bs) c fits w =
      elim (Option-cases ((process_blocks L J S sm (b ∷ bs)).1)) [
        | inl fine ↦
            rw
              (
                fine,
                process_block_response,
                (finish_sync_keeps (process_blocks L J S sm (b ∷ bs)).0).0,
              )
              (process_blocks-IsChain sm (b ∷ bs) c fits (rw fine))
        | inr (e, stopped) ↦
            rw (stopped, process_block_response)
              (process_blocks-IsChain sm (b ∷ bs) c fits
                (rw stopped (rw (stopped, process_block_response) at w)))
      ]

  -- A response that is accepted by a manager that knows its tip and is not synced, where the heights
  -- do not overflow, moves the tip up by its length; the manager knows the new tip, and counts as
  -- synced exactly when the target is reached.
  process_block_response_tip :
      (sm : SyncManager L J S) (bs : List Block)
      → tip_height L J S sm.blockchain + length bs < 2 ^ 64
      → sm.current_height ≡ tip_height L J S sm.blockchain
      → sm.status ≢ synced
      → (process_block_response L J S sm bs).1 ≡ none
      → let sm' = (process_block_response L J S sm bs).0 in
        (tip_height L J S sm'.blockchain ≡ tip_height L J S sm.blockchain + length bs)
        × (sm'.current_height ≡ tip_height L J S sm'.blockchain)
        × ((sm'.status ≡ synced) ↔ (sm.target_height ≤ sm'.current_height))
  process_block_response_tip sm bs fits at s e =
      let (fine, finished) = response_accepted sm bs e in
      let (tip, at', target, kept) = process_blocks_all sm bs fits at fine in
      let looped = (process_blocks L J S sm bs).0 in
      let (same_chain, same_height) = finish_sync_keeps looped in
      let status = finish_sync-status looped (λ h. s (sym kept ∙ h)) in
      rw (finished, same_chain, same_height) (tip, at', rw target at status)
