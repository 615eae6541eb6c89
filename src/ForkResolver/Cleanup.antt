-- ===== src/ForkResolver/Cleanup.antt =====
-- rnr/pkg/blockchain/fork_resolver.go: which forks CleanupOldForks forgets.
use route_n_root.Prelude.{
  ℕ, ◌+◌, ◌^◌, ◌<◌, ◌≡◌, refl, ◌∙◌, none, some, Bytes, IsDistinct, lookup, keep, lookup-keep,
  keep_entry, bytes_key, if◌then◌else◌, leb, ◌&&◌, arith,
}
use route_n_root.Platform.{LevelDb, Json, Sha256}
use route_n_root.ForkResolver.{ChainInfo, ForkResolver, sub_u64, cleanup_old_forks}

module _ (L : LevelDb) (J : Json) (S : Sha256) where
  abbrev pub main_height : ForkResolver L J S → ℕ
  main_height fr = fr.main_chain.current_block.header.height

  -- A fork that is not above the main chain's tip is kept exactly when it is at most `max_age` blocks
  -- below it; a fork above the tip is forgotten. Heights and age are far from 2 ^ 64.
  pub cleanup_old_forks_lem :
      (fr : ForkResolver L J S) (max_age : ℕ) (id : Bytes) (chain : ChainInfo)
      → IsDistinct fr.candidate_chains
      → lookup id fr.candidate_chains ≡ some chain
      → main_height fr < 2 ^ 64
      → max_age + chain.height < 2 ^ 64
      → lookup id (cleanup_old_forks L J S fr max_age).candidate_chains ≡ (
          if leb chain.height (main_height fr) && leb (main_height fr) (chain.height + max_age)
          then some chain
          else none)
  unfolding cleanup_old_forks keep_entry
  cleanup_old_forks_lem fr max_age id chain d found fits fits' =
      let stays = λ (_ : Bytes) (c : ChainInfo). leb (sub_u64 (main_height fr) c.height) max_age in
      let read : lookup id (keep stays fr.candidate_chains) ≡ keep_entry stays id (some chain) =
        lookup-keep stays id fr.candidate_chains d ∙ rw found refl in
      read ∙ ground arith
