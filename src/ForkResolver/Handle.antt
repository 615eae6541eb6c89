-- ===== src/ForkResolver/Handle.antt =====
-- rnr/pkg/blockchain/fork_resolver.go: HandleCompetingBlock.
use mathlib.Core.Option
use route_n_root.Prelude.{
  ℕ, ◌+◌, Option, none, some, ◌++◌, Bytes, bytes_equal, lookup, insert, bytes_key, if◌then◌else◌,
  ltb, length, take,
}
use route_n_root.Prelude.Text.{codes, encode_to_string}
use route_n_root.Prelude.Result.{ok, err}
use route_n_root.Core.{Block, u64}
use route_n_root.Platform.{LevelDb, Json, Sha256}
use route_n_root.Chain.{add_block}
use route_n_root.ForkResolver.{
  ChainInfo, ForkError, chain_error, out_of_fuel, panicked, ForkResolver, hash_of,
  calculate_block_work, calculate_chain_work, get_main_chain_info, should_reorg, find_block,
  save_orphan_block,
}
use route_n_root.ForkResolver.Reorganize.{reorganize}

module _ (L : LevelDb) (J : Json) (S : Sha256) where
  -- The comparison that ends both branches: the main chain is measured, and the fork may replace it.
  unfoldable pub compare_chains :
      (fuel : ℕ) → ForkResolver L J S → ChainInfo → ForkResolver L J S × Option ForkError
  unfolding get_main_chain_info
  compare_chains fuel fr chain = elim (get_main_chain_info L J S fuel fr) [
    | err e ↦ (fr, some e)
    | ok main ↦ if should_reorg L J S chain main then reorganize L J S fuel fr chain else (fr, none)
  ]

  -- A block of a fork that is known: its tip moves and its work grows.
  unfoldable pub extend_fork :
      (fuel : ℕ)
      → ForkResolver L J S
      → ChainInfo
      → (chain_id : Bytes) → Block
      → ForkResolver L J S × Option ForkError
  unfolding compare_chains
  extend_fork fuel fr chain chain_id b =
      let chain' = record chain {
        tip_block = b;
        height = b.header.height;
        total_work = u64 (chain.total_work + calculate_block_work b);
      } in
      compare_chains fuel
        (record fr { candidate_chains = insert chain_id chain' fr.candidate_chains }) chain'

  -- A block that starts a fork, or an orphan when its parent is not found.
  unfoldable pub start_fork :
      (fuel : ℕ)
      → ForkResolver L J S
      → (chain_id : Bytes) → Block
      → ForkResolver L J S × Option ForkError
  unfolding compare_chains
  start_fork fuel fr chain_id b = elim (find_block L J S fuel fr b.header.prev_block_hash) [
    | err out_of_fuel ↦ (fr, some out_of_fuel)
    | err _ ↦ save_orphan_block L J S fr b
    | ok parent ↦ elim (calculate_chain_work L J S fuel fr (some parent) b) [
      | err e ↦ (fr, some e)
      | ok work ↦
          let chain : ChainInfo = record {
            tip_block = b;
            height = b.header.height;
            total_work = work;
            chain_id = chain_id;
          } in
          compare_chains fuel
            (record fr { candidate_chains = insert chain_id chain fr.candidate_chains }) chain
    ]
  ]

  -- fmt.Sprintf("fork_%x", block.Header.PrevBlockHash[:8])
  unfoldable pub fork_id : Block → Bytes
  fork_id b = codes "fork_" ++ encode_to_string (take 8 b.header.prev_block_hash)

  unfoldable pub handle_competing_block :
      (fuel : ℕ) → ForkResolver L J S → Block → ForkResolver L J S × Option ForkError
  unfolding fork_id extend_fork start_fork
  handle_competing_block fuel fr b =
      let prev = b.header.prev_block_hash in
      let (bc, failure) = add_block L J S fr.main_chain b in
      let extended : ForkResolver L J S × Option ForkError =
        (record fr { main_chain = bc }, Option.map chain_error failure) in
      let forked : ForkResolver L J S × Option ForkError =
        elim (lookup (fork_id b) fr.candidate_chains) [
          | some chain ↦ extend_fork fuel fr chain (fork_id b) b
          | none ↦ start_fork fuel fr (fork_id b) b
        ] in
      if bytes_equal prev (hash_of L J S fr.main_chain.current_block)
      then extended
      else if ltb (length prev) 8
      then (fr, some panicked)
      else forked
