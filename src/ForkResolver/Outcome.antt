-- ===== src/ForkResolver/Outcome.antt =====
-- rnr/pkg/blockchain/fork_resolver.go: what HandleCompetingBlock does to blocks of forks.
use route_n_root.Prelude.{
  ℕ, ◌≤◌, ◌≡◌, ◌≢◌, refl, inl, inr, false, none, some, ◌⊎◌, bytes_equal, lookup, bytes_key, same_ne,
  ltb, length, arith,
}
use route_n_root.Prelude.Result.{ok}
use route_n_root.Core.{Block}
use route_n_root.Platform.{LevelDb, Json, Sha256}
use route_n_root.ForkResolver.{
  ChainInfo, panicked, ForkResolver, hash_of, find_block, calculate_chain_work, get_main_chain_info,
}
use route_n_root.ForkResolver.Handle.{
  compare_chains, extend_fork, start_fork, fork_id, handle_competing_block,
}

module _ (L : LevelDb) (J : Json) (S : Sha256) where
  -- The block is one of a fork: its fork is on record, or its parent is found and measured.
  abbrev pub IsForked : (fuel : ℕ) → ForkResolver L J S → Block → Type 0
  IsForked fuel fr b =
      ((chain : ChainInfo) × (lookup (fork_id L J S b) fr.candidate_chains ≡ some chain))
      ⊎ ((parent : Block) × (work : ℕ) × (lookup (fork_id L J S b) fr.candidate_chains ≡ none)
          × (find_block L J S fuel fr b.header.prev_block_hash ≡ ok parent)
          × (calculate_chain_work L J S fuel fr (some parent) b ≡ ok work))

  -- A block of a fork, whose parent's hash has 8 bytes and is not that of the tip, makes
  -- HandleCompetingBlock panic, whatever the fork's work, and the main chain stays as it is: no fork
  -- ever replaces it.
  pub handle_competing_block-panics :
      (fuel : ℕ) (fr : ForkResolver L J S) (b : Block)
      → b.header.prev_block_hash ≢ hash_of L J S fr.main_chain.current_block
      → 8 ≤ length b.header.prev_block_hash
      → IsForked fuel fr b
      → let (fr', result) = handle_competing_block L J S fuel fr b in
        (result ≡ some panicked) × (fr'.main_chain ≡ fr.main_chain)
  unfolding handle_competing_block extend_fork start_fork compare_chains get_main_chain_info
      calculate_chain_work
  handle_competing_block-panics fuel fr b away long forked =
      let prev = b.header.prev_block_hash in
      let apart : bytes_equal prev (hash_of L J S fr.main_chain.current_block) ≡ false =
        same_ne prev _ away in
      let enough : ltb (length prev) 8 ≡ false = ground arith in
      elim forked [
        | inl (chain, known) ↦
            rw (apart, enough, known, handle_competing_block, extend_fork) (refl, refl)
        | inr (parent, work, fresh, found, measured) ↦
            rw (apart, enough, fresh, found, measured, handle_competing_block, start_fork)
              (refl, refl)
      ]
