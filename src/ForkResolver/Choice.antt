-- ===== src/ForkResolver/Choice.antt =====
-- rnr/pkg/blockchain/fork_resolver.go: the choice between two chains.
use mathlib.Core.Path.{subst}
use route_n_root.Prelude.{
  sym, ℕ, ◌+◌, ◌^◌, ◌≤◌, ◌<◌, ◌≡◌, refl, inl, inr, Bool, true, false, ◌||◌, ◌&&◌, ◌⊎◌, [], ◌∷◌,
  Bytes, bytes_equal, bytes_equal_iff, Bool-cases, ltb, ◌==◌, arith,
}
use route_n_root.Platform.{LevelDb, Json, Sha256}
use route_n_root.ForkResolver.{ChainInfo, bytes_less, hash_of, should_reorg}

bytes_less_irrefl : (a : Bytes) → bytes_less a a ≡ false
unfolding bytes_less
bytes_less_irrefl [] = refl
bytes_less_irrefl (x ∷ a) = ground (arith, bytes_less_irrefl a)

bytes_less-asym : (a b : Bytes) → bytes_less a b ≡ true → bytes_less b a ≡ false
unfolding bytes_less
bytes_less-asym [] [] h = refl
bytes_less-asym [] (y ∷ b) h = refl
bytes_less-asym (x ∷ a) [] h = cc
bytes_less-asym (x ∷ a) (y ∷ b) h = ground (arith, bytes_less-asym a b)

equal_sym : (p q : Bytes) → bytes_equal p q ≡ false → bytes_equal q p ≡ false
equal_sym p q h = ground (arith, bytes_equal_iff p q, bytes_equal_iff q p)

bytes_less-total :
    (a b : Bytes) → (bytes_less a b ≡ true) ⊎ (bytes_less b a ≡ true) ⊎ (bytes_equal a b ≡ true)
unfolding bytes_less
bytes_less-total [] [] = inr (inr refl)
bytes_less-total [] (y ∷ b) = inl refl
bytes_less-total (x ∷ a) [] = inr (inl refl)
bytes_less-total (x ∷ a) (y ∷ b) = ground (arith, bytes_less-total a b)

-- The choice by work, then proof of history, then hash.
better : (w : ℕ) (p h : Bytes) (w' : ℕ) (p' h' : Bytes) → Bool
better w p h w' p' h' =
    ltb w' w || (w == w' && (bytes_less p p' || (bytes_equal p p' && bytes_less h h')))

by_bytes : (p h p' h' : Bytes) → Bool
by_bytes p h p' h' = bytes_less p p' || (bytes_equal p p' && bytes_less h h')

by_bytes-asym : (p h p' h' : Bytes) → by_bytes p h p' h' ≡ true → by_bytes p' h' p h ≡ false
unfolding by_bytes
by_bytes-asym p h p' h' e = elim (Bool-cases (bytes_equal p p')) [
  | inl same ↦
      let at = (bytes_equal_iff p p').0 same in
      let back = (bytes_equal_iff p' p).1 (sym at) in
      let still : bytes_less p p' ≡ false =
        subst (λ x. bytes_less p x ≡ false) at (bytes_less_irrefl p) in
      let still' : bytes_less p' p ≡ false =
        subst (λ x. bytes_less x p ≡ false) at (bytes_less_irrefl p) in
      ground (arith, still, still', same, back, bytes_less-asym h h')
  | inr other ↦ let back = equal_sym p p' other in ground (arith, other, back, bytes_less-asym p p')
]

by_bytes-total :
    (p h p' h' : Bytes)
    → (by_bytes p h p' h' ≡ true) ⊎ (by_bytes p' h' p h ≡ true) ⊎ ((p ≡ p') × (h ≡ h'))
unfolding by_bytes
by_bytes-total p h p' h' = elim (bytes_less-total p p') [
  | inl less ↦ inl (rw less refl)
  | inr (inl more) ↦ inr (inl (rw more refl))
  | inr (inr same) ↦ elim (bytes_less-total h h') [
    | inl less ↦ inl (ground (arith, same, less))
    | inr (inl more) ↦
        let back = (bytes_equal_iff p' p).1 (sym ((bytes_equal_iff p p').0 same)) in
        inr (inl (ground (arith, back, more)))
    | inr (inr equal) ↦ inr (inr ((bytes_equal_iff p p').0 same, (bytes_equal_iff h h').0 equal))
  ]
]

better-asym :
    (w w' : ℕ) (p h p' h' : Bytes) → better w p h w' p' h' ≡ true → better w' p' h' w p h ≡ false
unfolding better by_bytes
better-asym w w' p h p' h' e = ground (arith, by_bytes-asym p h p' h')

better-total :
    (w w' : ℕ) (p h p' h' : Bytes)
    → (better w p h w' p' h' ≡ true)
      ⊎ (better w' p' h' w p h ≡ true)
      ⊎ ((w ≡ w') × (p ≡ p') × (h ≡ h'))
unfolding better by_bytes
better-total w w' p h p' h' = ground (arith, by_bytes-total p h p' h')

better_irrefl : (w : ℕ) (p h : Bytes) → better w p h w p h ≡ false
unfolding better
better_irrefl w p h = ground (arith, bytes_less_irrefl p, bytes_less_irrefl h)

better-same :
    (w w' : ℕ) (p h p' h' : Bytes) → w ≡ w' → p ≡ p' → h ≡ h' → better w p h w' p' h' ≡ false
better-same w w' p h p' h' ew ep eh = rw (ew, ep, eh) (better_irrefl w' p' h')

module _ (L : LevelDb) (J : Json) (S : Sha256) where
  near-better :
      (a b : ChainInfo)
      → a.height ≤ b.height + 6
      → b.height + 6 < 2 ^ 64
      → should_reorg L J S a b
        ≡ better a.total_work a.tip_block.poh_sequence
            (hash_of L J S a.tip_block)
            b.total_work
            b.tip_block.poh_sequence
            (hash_of L J S b.tip_block)
  unfolding should_reorg better
  near-better a b near fits = ground arith

  -- Of two chains whose heights differ by at most 6, exactly one may replace the other, unless they
  -- have the same work and tips of the same proof of history and the same hash; then neither may.
  pub should_reorg-decides :
      (a b : ChainInfo)
      → a.height ≤ b.height + 6
      → b.height ≤ a.height + 6
      → a.height + 6 < 2 ^ 64
      → b.height + 6 < 2 ^ 64
      → ((should_reorg L J S a b ≡ true) × (should_reorg L J S b a ≡ false))
        ⊎ ((should_reorg L J S a b ≡ false) × (should_reorg L J S b a ≡ true))
        ⊎ ((should_reorg L J S a b ≡ false)
            × (should_reorg L J S b a ≡ false)
            × (a.total_work ≡ b.total_work)
            × (a.tip_block.poh_sequence ≡ b.tip_block.poh_sequence)
            × (hash_of L J S a.tip_block ≡ hash_of L J S b.tip_block))
  should_reorg-decides a b near near' fits fits' =
      let pa = a.tip_block.poh_sequence in
      let pb = b.tip_block.poh_sequence in
      let ha = hash_of L J S a.tip_block in
      let hb = hash_of L J S b.tip_block in
      rw (near-better a b near fits', near-better b a near' fits)
        (elim (better-total a.total_work b.total_work pa ha pb hb) [
          | inl wins ↦ inl (wins, better-asym a.total_work b.total_work pa ha pb hb wins)
          | inr (inl loses) ↦
              inr (inl (better-asym b.total_work a.total_work pb hb pa ha loses, loses))
          | inr (inr (w, p, h)) ↦ inr (
              inr (
                better-same a.total_work b.total_work pa ha pb hb w p h,
                better-same b.total_work a.total_work pb hb pa ha (sym w) (sym p) (sym h),
                w,
                p,
                h,
              ))
        ])

  -- A chain that is more than 6 blocks longer but has less work, and the other one, may each replace
  -- the other.
  should_reorg-both :
      (a b : ChainInfo)
      → b.height + 6 < a.height
      → b.height + 6 < 2 ^ 64
      → a.total_work < b.total_work
      → (should_reorg L J S a b ≡ true) × (should_reorg L J S b a ≡ true)
  unfolding should_reorg
  should_reorg-both a b long fits less = (ground arith, ground arith)
