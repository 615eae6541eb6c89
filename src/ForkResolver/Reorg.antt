-- ===== src/ForkResolver/Reorg.antt =====
-- rnr/pkg/blockchain/fork_resolver.go: what a reorganisation leaves of the chain.
use mathlib.Core.Path.{subst}
use route_n_root.Prelude.{
  ℕ, zero, suc, ◌+◌, ◌-◌, ◌≤◌, ◌<◌, ◌≡◌, refl, ap, ◌∙◌, inl, inr, Bool, true, false, ◌||◌, none,
  List, [], ◌∷◌, bytes_equal, bytes_equal_iff, Bool-cases, Option-cases, All, bytes_key, ltb, ◌==◌,
  ==_iff, arith,
}
use route_n_root.Prelude.Result.{ok, err, Result-cases}
use route_n_root.Core.{Block}
use route_n_root.Platform.{LevelDb, Json, Sha256}
use route_n_root.Chain.{Blockchain, not_found, block_key, add_block, get_block_by_height}
use route_n_root.Chain.Store.{get_block_by_height-add_block}
use route_n_root.Chain.Links.{IsChain, get_at, tip_height}
use route_n_root.ForkResolver.{ChainInfo, ForkResolver, find_block}
use route_n_root.ForkResolver.Reorganize.{
  find_common_ancestor, collect_above, get_chain_blocks, blocks_up, get_blocks_from, rollback_block,
  rollback_blocks, add_blocks, switch_to, reorganize,
}

-- A block of the list has the height.
abbrev pub has_height : ℕ → List Block → Bool
has_height h [] = false
has_height h (b ∷ blocks) = b.header.height == h || has_height h blocks

module _ (L : LevelDb) (J : Json) (S : Sha256) where
  -- The blocks that a reorganisation adds lie above the tip of the main chain.
  abbrev pub AllAbove : ForkResolver L J S → List Block → Type 0
  AllAbove fr = All (λ b. tip_height L J S fr.main_chain < b.header.height)

  collect_above-AllAbove :
      (steps fuel : ℕ) (fr : ForkResolver L J S) (b : Block) (blocks result : List Block)
      → AllAbove fr blocks
      → collect_above L J S steps fuel fr b blocks ≡ ok result
      → AllAbove fr result
  unfolding collect_above
  collect_above-AllAbove zero fuel fr b blocks result a h = cc
  collect_above-AllAbove (suc steps) fuel fr b blocks result a h =
      elim (Bool-cases (ltb (tip_height L J S fr.main_chain) b.header.height)) [
        | inr low ↦
            let same : blocks ≡ result = cc (rw (low, collect_above) at h) in
            subst (AllAbove fr) same a
        | inl high ↦ elim (Result-cases (find_block L J S fuel fr b.header.prev_block_hash)) [
          | inl (e, missing) ↦ cc (rw (high, missing, collect_above) at h)
          | inr (parent, found) ↦
              collect_above-AllAbove steps fuel fr parent (b ∷ blocks) result (ground arith, a)
                (rw (high, found, collect_above) at h)
        ]
      ]

  blocks_up-has_height :
      (bc : Blockchain L J S)
      → IsChain L J S bc
      → (rounds start : ℕ) (blocks : List Block) → 1 ≤ start
      → start + rounds ≤ tip_height L J S bc + 1
      → blocks_up L J S rounds bc start ≡ ok blocks
      → (h : ℕ) → start ≤ h
      → h < start + rounds
      → has_height h blocks ≡ true
  unfolding blocks_up
  blocks_up-has_height bc c zero start blocks one fits ran h low high = absurd (omega arith)
  blocks_up-has_height bc c (suc rounds) start blocks one fits ran h low high =
      let (b, got, at) = c.stored start one (omega arith) in
      elim (Result-cases (blocks_up L J S rounds bc (start + 1))) [
        | inl (e, failed) ↦ cc (rw (got, failed, blocks_up) at ran)
        | inr (rest, more) ↦
            let same : b ∷ rest ≡ blocks = cc (rw (got, more, blocks_up) at ran) in
            subst (λ bs. has_height h bs ≡ true) same
              (elim (Bool-cases (start == h)) [
                | inl here ↦ ground (arith, at, here)
                | inr later ↦ ground (
                  arith,
                  blocks_up-has_height bc c rounds (start + 1) rest (omega arith) (omega arith) more
                      h (ground arith) (omega arith),
                )
              ])
      ]

  missing_at :
      (bc : Blockchain L J S) (d : L.Db) (h : ℕ)
      → L.get (block_key h) d ≡ none
      → get_at L J S (record bc { db = d }) h ≡ err not_found
  unfolding get_block_by_height
  missing_at bc d h e = rw (e, get_block_by_height) refl

  get_at-same :
      (bc : Blockchain L J S) (d : L.Db) (h : ℕ)
      → L.get (block_key h) d ≡ L.get (block_key h) bc.db
      → get_at L J S (record bc { db = d }) h ≡ get_at L J S bc h
  unfolding get_block_by_height
  get_at-same bc d h e = rw (e, get_block_by_height) refl

  rollback_block-get :
      (bc : Blockchain L J S) (b : Block) (h : ℕ)
      → (rollback_block L J S bc b).1 ≡ none
      → (get_at L J S bc h ≡ err not_found
          → get_at L J S (rollback_block L J S bc b).0 h ≡ err not_found)
        × (b.header.height ≡ h → get_at L J S (rollback_block L J S bc b).0 h ≡ err not_found)
  unfolding rollback_block
  rollback_block-get bc b h fine =
      let deleted : (L.delete (block_key b.header.height) bc.db).1 ≡ true = ground arith in
      let read = L.get-delete (block_key b.header.height) (block_key h) bc.db deleted in
      let equal = bytes_equal_iff (block_key b.header.height) (block_key h) in
      (
        λ missing. elim (Bool-cases (bytes_equal (block_key b.header.height) (block_key h))) [
          | inl same ↦ missing_at bc _ h (read ∙ rw same refl)
          | inr other ↦ get_at-same bc _ h (read ∙ rw other refl) ∙ missing
        ],
        λ at. missing_at bc _ h (read ∙ rw (equal.1 (ap block_key at)) refl),
      )

  rollback_blocks-gone :
      (bc : Blockchain L J S) (blocks : List Block) (h : ℕ)
      → (rollback_blocks L J S bc blocks).1 ≡ none
      → has_height h blocks ≡ true
      → get_at L J S (rollback_blocks L J S bc blocks).0 h ≡ err not_found
  unfolding rollback_blocks
  rollback_blocks-gone bc [] h fine has = cc
  rollback_blocks-gone bc (b ∷ blocks) h fine has =
      elim (Option-cases (rollback_blocks L J S bc blocks).1) [
        | inr (e, failed) ↦ cc (rw (failed, rollback_blocks) at fine)
        | inl rest ↦
            let bc' = (rollback_blocks L J S bc blocks).0 in
            let (stays, goes) = rollback_block-get bc' b h (rw (rest, rollback_blocks) at fine) in
            rw (rest, rollback_blocks)
              (elim (Bool-cases (b.header.height == h)) [
                | inl here ↦ goes ((==_iff b.header.height h).0 here)
                | inr other ↦
                    stays (rollback_blocks-gone bc blocks h rest (ground (arith, has, other)))
              ])
      ]

  add_blocks-keeps :
      (bc : Blockchain L J S) (blocks : List Block) (top h : ℕ)
      → (add_blocks L J S bc blocks).1 ≡ none
      → All (λ b. top < b.header.height) blocks
      → h ≤ top
      → get_at L J S (add_blocks L J S bc blocks).0 h ≡ get_at L J S bc h
  unfolding add_blocks
  add_blocks-keeps bc [] top h fine above low = refl
  add_blocks-keeps bc (b ∷ blocks) top h fine above low =
      elim (Option-cases (add_block L J S bc b).1) [
        | inr (e, failed) ↦ cc (rw (failed, add_blocks) at fine)
        | inl added ↦
            let bc' = (add_block L J S bc b).0 in
            rw (added, add_blocks)
              (add_blocks-keeps bc' blocks top h (rw (added, add_blocks) at fine) above.1 low
                ∙ get_block_by_height-add_block L J S bc b h added
                ∙ ground (arith, above.0))
      ]

  -- What a reorganisation without an error did: it removed the blocks from above the common ancestor
  -- to the tip, and added blocks that lie above the tip.
  switch_to-get :
      (fr : ForkResolver L J S) (chain : ChainInfo) (remove add : List Block) (h : ℕ)
      → (switch_to L J S fr chain remove add).1 ≡ none
      → has_height h remove ≡ true
      → AllAbove fr add
      → h ≤ tip_height L J S fr.main_chain
      → get_at L J S (switch_to L J S fr chain remove add).0.main_chain h ≡ err not_found
  unfolding switch_to
  switch_to-get fr chain remove add h fine has above low =
      let (bc, failure) = rollback_blocks L J S fr.main_chain remove in
      elim (Option-cases failure) [
        | inr (e, failed) ↦ cc (rw (failed, switch_to) at fine)
        | inl rolled ↦ elim (Option-cases (add_blocks L J S bc add).1) [
          | inr (e, failed) ↦ cc (rw (rolled, failed, switch_to) at fine)
          | inl added ↦
              rw (rolled, added, switch_to)
                (add_blocks-keeps bc add (tip_height L J S fr.main_chain) h added above low
                  ∙ rollback_blocks-gone fr.main_chain remove h rolled has)
        ]
      ]

  -- A reorganisation of a chain that returns no error leaves no block at any height above the common
  -- ancestor up to the old tip: the blocks of the fork at these heights are not added.
  pub reorganize-gap :
      (fuel : ℕ) (fr : ForkResolver L J S) (chain : ChainInfo) (ancestor : Block) (h : ℕ)
      → IsChain L J S fr.main_chain
      → find_common_ancestor L J S fuel fr chain.tip_block ≡ ok ancestor
      → (reorganize L J S fuel fr chain).1 ≡ none
      → ancestor.header.height < h
      → h ≤ tip_height L J S fr.main_chain
      → get_at L J S (reorganize L J S fuel fr chain).0.main_chain h ≡ err not_found
  unfolding reorganize get_blocks_from get_chain_blocks
  reorganize-gap fuel fr chain ancestor h c met fine above low =
      let start = ancestor.header.height + 1 in
      let tip = tip_height L J S fr.main_chain in
      elim (Result-cases (get_blocks_from L J S fr start tip)) [
        | inl (e, failed) ↦ cc (rw (met, failed, reorganize) at fine)
        | inr (remove, removes) ↦ elim (Result-cases (get_chain_blocks L J S fuel fr chain)) [
          | inl (e, failed) ↦ cc (rw (met, removes, failed, reorganize) at fine)
          | inr (add, adds) ↦
              rw (met, removes, adds, reorganize)
                (switch_to-get fr chain remove add h (rw (met, removes, adds, reorganize) at fine)
                  (blocks_up-has_height fr.main_chain c (tip + 1 - start) start remove (omega arith)
                    (omega arith) removes h (omega arith) (omega arith))
                  (collect_above-AllAbove fuel fuel fr chain.tip_block [] add tt adds) low)
        ]
      ]
