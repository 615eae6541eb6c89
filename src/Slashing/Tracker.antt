-- ===== src/Slashing/Tracker.antt =====
-- rnr/pkg/consensus/slashing.go: the votes on record, by validator and height.
use mathlib.Core.Path.{subst}
use route_n_root.Prelude.{
  ℕ, ==_iff, is_some, ◌≡◌, sym, ap, ◌∙◌, inl, inr, none, some, Bytes, bytes_equal, bytes_equal_iff,
  Bool-cases, Option-cases, Map, lookup, insert, lookup-insert, lookup-insert_self, bytes_key,
  nat_key, same_refl, if◌then◌else◌, arith,
}
use route_n_root.Slashing.{votes_of}

-- The votes of a validator, and the tracker, after a vote: the first hash at a height stays.
abbrev pub with_vote : ℕ → Bytes → Map ℕ Bytes → Map ℕ Bytes
with_vote height hash own = if is_some (lookup height own) then own else insert height hash own

abbrev pub record_vote : Bytes → ℕ → Bytes → Map Bytes (Map ℕ Bytes) → Map Bytes (Map ℕ Bytes)
record_vote id height hash t = insert id (with_vote height hash (votes_of t id)) t

votes_of-insert :
    (id j : Bytes) (w : Map ℕ Bytes) (t : Map Bytes (Map ℕ Bytes))
    → votes_of (insert id w t) j ≡ (if bytes_equal id j then w else votes_of t j)
unfolding votes_of
votes_of-insert id j w t = ground (arith, lookup-insert id j w t)

with_vote-keeps :
    (height h : ℕ) (hash x : Bytes) (own : Map ℕ Bytes)
    → lookup h own ≡ some x
    → lookup h (with_vote height hash own) ≡ some x
with_vote-keeps height h hash x own known = elim (Option-cases (lookup height own)) [
  | inr (y, voted) ↦ rw voted known
  | inl fresh ↦ rw fresh (ground (arith, lookup-insert height h hash own, ==_iff height h))
]

pub record_vote-first :
    (id : Bytes) (height : ℕ) (hash : Bytes) (t : Map Bytes (Map ℕ Bytes))
    → lookup height (votes_of t id) ≡ none
    → lookup height (votes_of (record_vote id height hash t) id) ≡ some hash
record_vote-first id height hash t fresh =
    ap (lookup height) (votes_of-insert id id (with_vote height hash (votes_of t id)) t)
    ∙ rw (same_refl id, fresh) (lookup-insert_self height hash (votes_of t id))

pub record_vote-keeps :
    (id j : Bytes) (height h : ℕ) (hash x : Bytes) (t : Map Bytes (Map ℕ Bytes))
    → lookup h (votes_of t j) ≡ some x
    → lookup h (votes_of (record_vote id height hash t) j) ≡ some x
record_vote-keeps id j height h hash x t known =
    let own = with_vote height hash (votes_of t id) in
    ap (lookup h) (votes_of-insert id j own t) ∙ elim (Bool-cases (bytes_equal id j)) [
      | inr other ↦ rw other known
      | inl same ↦
          let at = (bytes_equal_iff id j).0 same in
          rw same (
            with_vote-keeps height h hash x (votes_of t id)
              (subst (λ k. lookup h (votes_of t k) ≡ some x) (sym at) known))
    ]
