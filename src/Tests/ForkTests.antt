-- ===== src/Tests/ForkTests.antt =====
-- Tests of the fork resolver, on a chain of two blocks and a fork from its first block.
use route_n_root.Prelude.{
  ℕ, ◌+◌, ◌≡◌, ◌⊎◌, inl, refl, true, false, ◌&&◌, Option, none, some, [], ◌∷◌, lookup, insert,
  if◌then◌else◌, leb, bytes_key, arith,
}
use route_n_root.Prelude.Text.{encode_to_string, decimal}
use route_n_root.Prelude.Result.{ok, err}
use route_n_root.Core.{Block}
use route_n_root.Chain.{
  genesis_block, not_found, block_key, current_key, hash_block, add_block, get_block_by_height,
  verify_block,
}
use route_n_root.Chain.Links.{IsChain, get_at, tip_height, add_block-IsChain}
use route_n_root.ForkResolver.{
  ChainInfo, ForkResolver, panicked, hash_of, should_reorg, search_main, search_candidates,
  find_block, cleanup_old_forks,
}
use route_n_root.ForkResolver.Reorganize.{
  descend, meet, find_common_ancestor, collect_above, get_chain_blocks, blocks_up, get_blocks_from,
  rollback_block, rollback_blocks, add_blocks, switch_to, reorganize,
}
use route_n_root.ForkResolver.Handle.{fork_id, handle_competing_block}
use route_n_root.ForkResolver.Search.{IsFound, search_main-ends}
use route_n_root.ForkResolver.Choice.{should_reorg-decides}
use route_n_root.ForkResolver.Reorg.{reorganize-gap}
use route_n_root.ForkResolver.Outcome.{handle_competing_block-panics}
use route_n_root.ForkResolver.Cleanup.{cleanup_old_forks_lem}
use route_n_root.Tests.Fixtures.{
  memory_db, byte_json, padded, TestChain, alice, block_one, chain_one, chain_one-IsChain, pad_hash,
}
use route_n_root.Tests.Codec.{enc_block}

abbrev Resolver : Type 0
Resolver = ForkResolver memory_db byte_json padded

-- A block on top of another, told apart by its version.
abbrev on_top : (version : ℕ) → Block → Block
on_top version b = record genesis_block {
  header = record genesis_block.header {
    version = version;
    height = b.header.height + 1;
    prev_block_hash = pad_hash (enc_block b);
  };
}

abbrev block_two : Block
block_two = on_top 2 block_one

abbrev fork_two : Block
fork_two = on_top 3 block_one

abbrev fork_three : Block
fork_three = on_top 4 fork_two

abbrev chain_two : TestChain
chain_two = (add_block memory_db byte_json padded chain_one block_two).0

chain_two-IsChain : IsChain memory_db byte_json padded chain_two
unfolding genesis_block verify_block hash_block add_block
chain_two-IsChain =
    add_block-IsChain memory_db byte_json padded chain_one block_two chain_one-IsChain (omega arith)
      refl refl

search_main-ends_example :
    (r : Option Block) × (search_main memory_db byte_json padded 3 chain_two
        (pad_hash (enc_block block_one))
        chain_two.current_block
      ≡ some r)
    × IsFound memory_db byte_json padded chain_two
        (pad_hash (enc_block block_one))
        (tip_height memory_db byte_json padded chain_two)
        r
unfolding genesis_block add_block
search_main-ends_example =
    search_main-ends memory_db byte_json padded chain_two (pad_hash (enc_block block_one)) 3
      chain_two-IsChain (omega arith)

abbrev info_of : (work : ℕ) → Block → ChainInfo
info_of work b = record {
  tip_block = b;
  total_work = work;
  height = b.header.height;
  chain_id = alice;
}

should_reorg-decides_example :
    let a = info_of 2 fork_two in
    let b = info_of 2 block_two in
    let better = should_reorg memory_db byte_json padded in
    ((better a b ≡ true) × (better b a ≡ false))
    ⊎ ((better a b ≡ false) × (better b a ≡ true))
    ⊎ ((better a b ≡ false)
        × (better b a ≡ false)
        × (a.total_work ≡ b.total_work)
        × (a.tip_block.poh_sequence ≡ b.tip_block.poh_sequence)
        × (hash_of memory_db byte_json padded a.tip_block
            ≡ hash_of memory_db byte_json padded b.tip_block))
unfolding genesis_block
should_reorg-decides_example =
    should_reorg-decides memory_db byte_json padded (info_of 2 fork_two) (info_of 2 block_two)
      (omega arith) (omega arith) (omega arith) (omega arith)

-- The forks' blocks are the tips of two candidates.
abbrev forked : Resolver
forked = record {
  main_chain = chain_two;
  candidate_chains = (1 ∷ [], info_of 1 fork_two) ∷ (2 ∷ [], info_of 2 fork_three) ∷ [];
}

ancestor-found : find_common_ancestor memory_db byte_json padded 4 forked fork_three ≡ ok block_one
unfolding find_common_ancestor descend meet find_block search_main search_candidates hash_of
    hash_block genesis_block get_block_by_height add_block lookup insert block_key current_key
    decimal
ancestor-found = refl

forked-reorganizes :
    (reorganize memory_db byte_json padded 4 forked (info_of 2 fork_three)).1 ≡ none
unfolding reorganize get_blocks_from blocks_up get_chain_blocks collect_above switch_to
    rollback_blocks rollback_block add_blocks find_common_ancestor descend meet find_block
    search_main search_candidates hash_of hash_block genesis_block get_block_by_height add_block
    lookup insert block_key current_key decimal
forked-reorganizes = refl

reorganize-gap_example :
    get_at memory_db byte_json padded
      (reorganize memory_db byte_json padded 4 forked (info_of 2 fork_three)).0.main_chain
      2
    ≡ err not_found
unfolding genesis_block add_block
reorganize-gap_example =
    reorganize-gap memory_db byte_json padded 4 forked (info_of 2 fork_three) block_one 2
      chain_two-IsChain ancestor-found forked-reorganizes (omega arith) (omega arith)

-- A fork that is on record under its own name.
abbrev known_fork : Resolver
known_fork = record forked {
  candidate_chains = (fork_id memory_db byte_json padded fork_three, info_of 1 fork_two) ∷ [];
}

fork-known :
    lookup (fork_id memory_db byte_json padded fork_three) known_fork.candidate_chains
    ≡ some (info_of 1 fork_two)
unfolding lookup fork_id genesis_block encode_to_string
fork-known = refl

fork-away : (fork_three.header.prev_block_hash ≡ hash_of memory_db byte_json padded block_two) → ⊥
unfolding hash_of hash_block genesis_block
fork-away h = cc

handle_competing_block-panics_example :
    let (fr', result) = handle_competing_block memory_db byte_json padded 4 known_fork fork_three in
    (result ≡ some panicked) × (fr'.main_chain ≡ known_fork.main_chain)
unfolding genesis_block add_block
handle_competing_block-panics_example =
    handle_competing_block-panics memory_db byte_json padded 4 known_fork fork_three fork-away
      (omega arith) (inl (info_of 1 fork_two, fork-known))

cleanup_old_forks_lem_example :
    lookup (2 ∷ []) (cleanup_old_forks memory_db byte_json padded forked 10).candidate_chains ≡ (
      if leb fork_three.header.height (tip_height memory_db byte_json padded chain_two)
        && leb (tip_height memory_db byte_json padded chain_two) (fork_three.header.height + 10)
      then some (info_of 2 fork_three)
      else none)
unfolding genesis_block add_block lookup
cleanup_old_forks_lem_example =
    cleanup_old_forks_lem memory_db byte_json padded forked 10 (2 ∷ []) (info_of 2 fork_three)
      (refl, (refl, tt)) refl (omega arith) (omega arith)
