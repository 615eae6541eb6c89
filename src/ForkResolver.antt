-- ===== src/ForkResolver.antt =====
-- rnr/pkg/blockchain/fork_resolver.go: competing blocks, forks and the choice between chains.
-- The resolver's database is the chain's. Loops that follow blocks by their hashes take fuel, and
-- `out_of_fuel` says that it was not enough; `panicked` stands for the run-time panics of reading a
-- nil block and of slicing a hash that is too short.
pub mod Reorganize
pub mod Handle
pub mod Search
pub mod Choice
pub mod Reorg
pub mod Outcome
pub mod Cleanup
use route_n_root.Prelude.{
  ℕ, zero, suc, ◌+◌, ◌-◌, ◌^◌, ◌≡◌, Bool, true, false, ◌||◌, ◌&&◌, not, Option, none, some, List,
  [], ◌∷◌, ◌++◌, Bytes, bytes_equal, Map, lookup, insert, erase, keep, bytes_key, if◌then◌else◌,
  ltb, leb, ◌==◌, length, take,
}
use route_n_root.Prelude.Text.{codes, encode_to_string}
use route_n_root.Prelude.Result.{Result, ok, err}
use route_n_root.Core.{Block, u64}
use route_n_root.Platform.{LevelDb, Json, Sha256}
use route_n_root.Chain.{
  Blockchain, ChainError, block_key, hash_block, add_block, get_block_by_height,
}

pub record ChainInfo : Type 0 where
  pub tip_block : Block
  pub total_work : ℕ
  pub height : ℕ
  pub chain_id : Bytes

pub data ForkError : Type 0 where
  chain_error : (e : ChainError) → ForkError
  block_not_found marshal_failed put_failed delete_failed panicked out_of_fuel : ForkError

-- bytes.Compare(a, b) < 0
unfoldable pub bytes_less : Bytes → Bytes → Bool
bytes_less [] [] = false
bytes_less [] (y ∷ ys) = true
bytes_less (x ∷ xs) [] = false
bytes_less (x ∷ xs) (y ∷ ys) = ltb x y || (x == y && bytes_less xs ys)

-- a - b on uint64
abbrev pub sub_u64 : ℕ → ℕ → ℕ
sub_u64 a b = u64 (a + 2 ^ 64 - b)

unfoldable pub calculate_block_work : Block → ℕ
calculate_block_work b = if ltb 0 b.header.pob_weight then b.header.pob_weight else 1

module _ (L : LevelDb) (J : Json) (S : Sha256) where
  pub record ForkResolver : Type 0 where
    pub main_chain : Blockchain L J S
    pub candidate_chains : Map Bytes ChainInfo

  unfoldable pub new_fork_resolver : Blockchain L J S → ForkResolver
  new_fork_resolver bc = record { main_chain = bc; candidate_chains = [] }

  -- hashBlock: the error of Hash is dropped, and the hash is nil.
  unfoldable pub hash_of : Block → Bytes
  hash_of b = elim (hash_block J S b) [ none ↦ [] | some hash ↦ hash ]

  unfoldable pub should_reorg : (candidate main : ChainInfo) → Bool
  unfolding bytes_less hash_of
  should_reorg candidate main =
      let own = candidate.tip_block.poh_sequence in
      let other = main.tip_block.poh_sequence in
      ltb (u64 (main.height + 6)) candidate.height
      || ltb main.total_work candidate.total_work
      || (candidate.total_work == main.total_work
          && (bytes_less own other
              || (bytes_equal own other
                  && bytes_less (hash_of candidate.tip_block) (hash_of main.tip_block))))

  -- The first loop of findBlock, downwards from a block of the main chain: the block with the hash,
  -- `some none` if there is none, and `none` if the fuel was not enough.
  unfoldable pub search_main : (fuel : ℕ) → Blockchain L J S → Bytes → Block → Option (Option Block)
  unfolding hash_of
  search_main zero bc hash b = none
  search_main (suc fuel) bc hash b =
      let below : Option (Option Block) =
        elim (get_block_by_height L J S bc (b.header.height - 1)) [
          | err _ ↦ some none
          | ok parent ↦ search_main fuel bc hash parent
        ] in
      if bytes_equal (hash_of b) hash
      then some (some b)
      else if b.header.height == 0
      then some none
      else below

  -- The second loop of findBlock, over the tips of the forks.
  unfoldable pub search_candidates : Map Bytes ChainInfo → Bytes → Option Block
  unfolding hash_of
  search_candidates [] hash = none
  search_candidates ((_, chain) ∷ rest) hash =
      if bytes_equal (hash_of chain.tip_block) hash
      then some chain.tip_block
      else search_candidates rest hash

  unfoldable pub find_block : (fuel : ℕ) → ForkResolver → Bytes → Result ForkError Block
  unfolding search_main search_candidates
  find_block fuel fr hash = elim (search_main fuel fr.main_chain hash fr.main_chain.current_block) [
    | none ↦ err out_of_fuel
    | some (some b) ↦ ok b
    | some none ↦ elim (search_candidates fr.candidate_chains hash) [
      | none ↦ err block_not_found
      | some b ↦ ok b
    ]
  ]

  -- saveOrphanBlock
  unfoldable pub save_orphan_block : ForkResolver → Block → ForkResolver × Option ForkError
  unfolding hash_of
  save_orphan_block fr b =
      let hash = hash_of b in
      let stored : ForkResolver × Option ForkError = elim (J.marshal_block b) [
        | none ↦ (fr, some marshal_failed)
        | some bytes ↦
            let (d, fine) =
              L.put (codes "orphan_" ++ encode_to_string (take 8 hash)) bytes fr.main_chain.db in
            (
              record fr { main_chain = record fr.main_chain { db = d } },
              if fine then none else some put_failed,
            )
      ] in
      if ltb (length hash) 8 then (fr, some panicked) else stored

  -- The loop of calculateChainWork; it ends where a parent is not found.
  unfoldable pub work_from :
      (steps fuel : ℕ)
      → ForkResolver
      → (from current : Block) → (total_work : ℕ) → Result ForkError ℕ
  unfolding find_block calculate_block_work
  work_from zero fuel fr from current total = err out_of_fuel
  work_from (suc steps) fuel fr from current total =
      let total' = u64 (total + calculate_block_work current) in
      let next : Result ForkError ℕ = elim (find_block fuel fr current.header.prev_block_hash) [
        | err out_of_fuel ↦ err out_of_fuel
        | err _ ↦ ok total'
        | ok parent ↦ work_from steps fuel fr from parent total'
      ] in
      if ltb current.header.height from.header.height
      then ok total
      else if current.header.height == from.header.height
      then ok total'
      else next

  -- A nil first block panics in the condition of the loop.
  unfoldable pub calculate_chain_work :
      (fuel : ℕ) → ForkResolver → (from : Option Block) (to : Block) → Result ForkError ℕ
  unfolding work_from
  calculate_chain_work fuel fr none to = err panicked
  calculate_chain_work fuel fr (some from) to = work_from fuel fuel fr from to 0

  unfoldable pub get_main_chain_info : (fuel : ℕ) → ForkResolver → Result ForkError ChainInfo
  unfolding calculate_chain_work
  get_main_chain_info fuel fr =
      let tip = fr.main_chain.current_block in
      elim (calculate_chain_work fuel fr none tip) [
        | err e ↦ err e
        | ok work ↦ ok (record {
          tip_block = tip;
          total_work = work;
          height = tip.header.height;
          chain_id = codes "main";
        })
      ]

  -- mainHeight-chain.Height wraps at 2 ^ 64.
  unfoldable pub cleanup_old_forks : ForkResolver → (max_age : ℕ) → ForkResolver
  cleanup_old_forks fr max_age =
      let main_height = fr.main_chain.current_block.header.height in
      record fr {
        candidate_chains =
            keep (λ _ chain. leb (sub_u64 main_height chain.height) max_age) fr.candidate_chains;
      }
