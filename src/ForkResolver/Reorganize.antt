-- ===== src/ForkResolver/Reorganize.antt =====
-- rnr/pkg/blockchain/fork_resolver.go: a reorganisation, from the common ancestor to the new tip.
use route_n_root.Prelude.{
  ℕ, zero, suc, ◌+◌, ◌-◌, Option, none, some, List, [], ◌∷◌, bytes_equal, erase, bytes_key,
  if◌then◌else◌, ltb,
}
use route_n_root.Prelude.Result.{Result, ok, err}
use route_n_root.Core.{Block}
use route_n_root.Platform.{LevelDb, Json, Sha256}
use route_n_root.Chain.{Blockchain, block_key, add_block, get_block_by_height}
use route_n_root.ForkResolver.{
  ChainInfo, ForkError, chain_error, delete_failed, out_of_fuel, ForkResolver, hash_of, find_block,
}

module _ (L : LevelDb) (J : Json) (S : Sha256) where
  -- `for b.Header.Height > limit { b = findBlock(b.Header.PrevBlockHash) }`
  unfoldable pub descend :
      (steps fuel : ℕ) → ForkResolver L J S → (limit : ℕ) → Block → Result ForkError Block
  descend zero fuel fr limit b = err out_of_fuel
  descend (suc steps) fuel fr limit b =
      let parents : Result ForkError Block =
        elim (find_block L J S fuel fr b.header.prev_block_hash) [
          | err e ↦ err e
          | ok parent ↦ descend steps fuel fr limit parent
        ] in
      if ltb limit b.header.height then parents else ok b

  -- The third loop of findCommonAncestor: both chains go down together.
  unfoldable pub meet :
      (steps fuel : ℕ) → ForkResolver L J S → (main fork : Block) → Result ForkError Block
  meet zero fuel fr main fork = err out_of_fuel
  meet (suc steps) fuel fr main fork =
      let parents : Result ForkError Block =
        elim (find_block L J S fuel fr main.header.prev_block_hash) [
          | err e ↦ err e
          | ok main_parent ↦ elim (find_block L J S fuel fr fork.header.prev_block_hash) [
            | err e ↦ err e
            | ok fork_parent ↦ meet steps fuel fr main_parent fork_parent
          ]
        ] in
      if bytes_equal (hash_of L J S main) (hash_of L J S fork) then ok main else parents

  unfoldable pub find_common_ancestor :
      (fuel : ℕ) → ForkResolver L J S → (fork_tip : Block) → Result ForkError Block
  unfolding descend meet
  find_common_ancestor fuel fr fork_tip =
      let main_tip = fr.main_chain.current_block in
      elim (descend fuel fuel fr main_tip.header.height fork_tip) [
        | err e ↦ err e
        | ok fork ↦ elim (descend fuel fuel fr fork.header.height main_tip) [
          | err e ↦ err e
          | ok main ↦ meet fuel fuel fr main fork
        ]
      ]

  -- The loop of getChainBlocks: the blocks above the main chain's tip, the lowest first.
  unfoldable pub collect_above :
      (steps fuel : ℕ)
      → ForkResolver L J S
      → (current : Block) → List Block
      → Result ForkError (List Block)
  collect_above zero fuel fr current blocks = err out_of_fuel
  collect_above (suc steps) fuel fr current blocks =
      let more : Result ForkError (List Block) =
        elim (find_block L J S fuel fr current.header.prev_block_hash) [
          | err e ↦ err e
          | ok parent ↦ collect_above steps fuel fr parent (current ∷ blocks)
        ] in
      if ltb fr.main_chain.current_block.header.height current.header.height
      then more
      else ok blocks

  unfoldable pub get_chain_blocks :
      (fuel : ℕ) → ForkResolver L J S → ChainInfo → Result ForkError (List Block)
  unfolding collect_above
  get_chain_blocks fuel fr chain = collect_above fuel fuel fr chain.tip_block []

  -- The loop of getBlocksFrom, upwards: so many heights are left.
  unfoldable pub blocks_up :
      (rounds : ℕ) → Blockchain L J S → (height : ℕ) → Result ForkError (List Block)
  blocks_up zero bc height = ok []
  blocks_up (suc rounds) bc height = elim (get_block_by_height L J S bc height) [
    | err e ↦ err (chain_error e)
    | ok b ↦ elim (blocks_up rounds bc (height + 1)) [ err e ↦ err e | ok blocks ↦ ok (b ∷ blocks) ]
  ]

  unfoldable pub get_blocks_from :
      ForkResolver L J S → (start_height end_height : ℕ) → Result ForkError (List Block)
  unfolding blocks_up
  get_blocks_from fr start end = blocks_up (end + 1 - start) fr.main_chain start

  unfoldable pub rollback_block : Blockchain L J S → Block → Blockchain L J S × Option ForkError
  rollback_block bc b =
      let (d, fine) = L.delete (block_key b.header.height) bc.db in
      (record bc { db = d }, if fine then none else some delete_failed)

  -- `for i := len(blocks) - 1; i >= 0; i-- { rollbackBlock(blocks[i]) }`
  unfoldable pub rollback_blocks :
      Blockchain L J S → List Block → Blockchain L J S × Option ForkError
  unfolding rollback_block
  rollback_blocks bc [] = (bc, none)
  rollback_blocks bc (b ∷ blocks) =
      let (bc', failure) = rollback_blocks bc blocks in
      elim failure [ some e ↦ (bc', some e) | none ↦ rollback_block bc' b ]

  unfoldable pub add_blocks : Blockchain L J S → List Block → Blockchain L J S × Option ForkError
  add_blocks bc [] = (bc, none)
  add_blocks bc (b ∷ blocks) =
      let (bc', failure) = add_block L J S bc b in
      elim failure [ some e ↦ (bc', some (chain_error e)) | none ↦ add_blocks bc' blocks ]

  -- The end of reorganize, with the blocks to remove and to add.
  unfoldable pub switch_to :
      ForkResolver L J S
      → ChainInfo
      → (remove add : List Block) → ForkResolver L J S × Option ForkError
  unfolding rollback_blocks add_blocks
  switch_to fr chain remove add =
      let (bc, failure) = rollback_blocks fr.main_chain remove in
      let (bc', failure') = add_blocks bc add in
      elim failure [
        | some e ↦ (record fr { main_chain = bc }, some e)
        | none ↦ elim failure' [
          | some e ↦ (record fr { main_chain = bc' }, some e)
          | none ↦ (
            record fr {
              main_chain = bc';
              candidate_chains = erase chain.chain_id fr.candidate_chains;
            },
            none,
          )
        ]
      ]

  unfoldable pub reorganize :
      (fuel : ℕ)
      → ForkResolver L J S
      → (new_chain : ChainInfo) → ForkResolver L J S × Option ForkError
  unfolding find_common_ancestor get_chain_blocks get_blocks_from switch_to
  reorganize fuel fr chain = elim (find_common_ancestor fuel fr chain.tip_block) [
    | err e ↦ (fr, some e)
    | ok ancestor ↦
        elim (get_blocks_from fr (ancestor.header.height + 1)
          fr.main_chain.current_block.header.height) [
            | err e ↦ (fr, some e)
            | ok remove ↦ elim (get_chain_blocks fuel fr chain) [
              | err e ↦ (fr, some e)
              | ok add ↦ switch_to fr chain remove add
            ]
          ]
  ]
