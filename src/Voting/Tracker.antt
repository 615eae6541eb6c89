-- ===== src/Voting/Tracker.antt =====
-- rnr/pkg/consensus/voting.go: the FinalityTracker, which keeps the time at which a block became final.
use route_n_root.Prelude.{
  ℕ, ◌≡◌, ◌↔◌, ◌⊎◌, ap, Bool, true, Option, some, Bytes, Map, [], lookup, insert, lookup-insert,
  is_some, bytes_key, bytes_equal, bytes_equal_iff, if◌then◌else◌, arith,
}
use route_n_root.Prelude.Text.{encode_to_string, encode_to_string-injective}

pub record FinalityTracker : Type 0 where
  pub finalized_blocks : Map Bytes ℕ

unfoldable pub new_finality_tracker : FinalityTracker
new_finality_tracker = record { finalized_blocks = [] }

unfoldable pub mark_finalized : FinalityTracker → (now : ℕ) → Bytes → FinalityTracker
mark_finalized ft now block_hash = record {
  finalized_blocks = insert (encode_to_string block_hash) now ft.finalized_blocks;
}

unfoldable pub is_finalized : FinalityTracker → Bytes → Bool
is_finalized ft block_hash = is_some (lookup (encode_to_string block_hash) ft.finalized_blocks)

unfoldable pub get_finality_time : FinalityTracker → Bytes → Option ℕ
get_finality_time ft block_hash = lookup (encode_to_string block_hash) ft.finalized_blocks

same_hex : (a b : Bytes) → bytes_equal (encode_to_string a) (encode_to_string b) ≡ bytes_equal a b
same_hex a b = ground (
  arith,
  bytes_equal_iff (encode_to_string a) (encode_to_string b),
  bytes_equal_iff a b,
  encode_to_string-injective a b,
  (λ (e : a ≡ b). ap encode_to_string e),
)

-- After a block is marked, its finality time is the time of the mark and every other block's is as before; a block is final
-- exactly if it is that block or was final before.
mark_finalized_lem :
    (ft : FinalityTracker) (now : ℕ) (block_hash other : Bytes)
    → let ft' = mark_finalized ft now block_hash in
      (get_finality_time ft' other
        ≡ (if bytes_equal block_hash other then some now else get_finality_time ft other))
      × ((is_finalized ft' other ≡ true) ↔ ((block_hash ≡ other) ⊎ (is_finalized ft other ≡ true)))
unfolding mark_finalized is_finalized get_finality_time
mark_finalized_lem ft now block_hash other =
    let hex = same_hex block_hash other in
    let read =
      lookup-insert (encode_to_string block_hash) (encode_to_string other) now
        ft.finalized_blocks in
    ground (arith, hex, read, bytes_equal_iff block_hash other)
