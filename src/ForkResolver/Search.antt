-- ===== src/ForkResolver/Search.antt =====
-- rnr/pkg/blockchain/fork_resolver.go: the search of findBlock on the main chain ends.
use mathlib.Core.Path.{subst}
use route_n_root.Prelude.{
  sym, ap, ◌∙◌, ℕ, zero, suc, ◌-◌, ◌≤◌, ◌<◌, ◌≡◌, ◌≢◌, refl, inl, inr, false, Option, none, some,
  Bytes, bytes_equal, bytes_equal_iff, Bool-cases, ◌==◌, ==_iff, arith,
}
use route_n_root.Prelude.Result.{ok, Result-cases}
use route_n_root.Core.{Block}
use route_n_root.Platform.{LevelDb, Json, Sha256}
use route_n_root.Chain.{Blockchain}
use route_n_root.Chain.Links.{IsChain, get_at, tip_height}
use route_n_root.ForkResolver.{hash_of, search_main}

module _ (L : LevelDb) (J : Json) (S : Sha256) where
  -- What a search down from some height may return: a block with the hash, or nothing, when no
  -- stored block up to that height has it.
  abbrev pub IsFound : Blockchain L J S → (hash : Bytes) (height : ℕ) → Option Block → Type 0
  IsFound bc hash height (some b) = hash_of L J S b ≡ hash
  IsFound bc hash height none =
      (h : ℕ) (x : Block) → 1 ≤ h → h ≤ height → get_at L J S bc h ≡ ok x → hash_of L J S x ≢ hash

  -- The block stored at a height misses the hash.
  abbrev MissesAt : Blockchain L J S → Bytes → ℕ → Type 0
  MissesAt bc hash k = (x : Block) → get_at L J S bc k ≡ ok x → hash_of L J S x ≢ hash

  misses_at :
      (bc : Blockchain L J S) (hash : Bytes) (b : Block)
      → get_at L J S bc b.header.height ≡ ok b
      → bytes_equal (hash_of L J S b) hash ≡ false
      → MissesAt bc hash b.header.height
  misses_at bc hash b stored miss x got same =
      let it : x ≡ b = cc in
      let hit = (bytes_equal_iff (hash_of L J S b) hash).1 (ap (hash_of L J S) (sym it) ∙ same) in
      cc

  IsFound-suc :
      (bc : Blockchain L J S) (hash : Bytes) (below : ℕ) (r : Option Block) (k : ℕ)
      → k ≡ suc below
      → MissesAt bc hash k
      → IsFound bc hash below r
      → IsFound bc hash k r
  IsFound-suc bc hash below (some b) k next misses found = found
  IsFound-suc bc hash below none k next misses found = λ h x one up got.
      elim (Bool-cases (h == k)) [
        | inl top ↦ misses x (subst (λ n. get_at L J S bc n ≡ ok x) ((==_iff h k).0 top) got)
        | inr lower ↦ found h x one (ground arith) got
      ]

  below_height :
      (bc : Blockchain L J S)
      → IsChain L J S bc
      → (k : ℕ) (p : Block) → k ≤ tip_height L J S bc
      → get_at L J S bc k ≡ ok p
      → p.header.height ≡ k
  below_height bc c zero p low got = let none_there = c.no_genesis in cc
  below_height bc c (suc k) p low got =
      let (y, there, at) = c.stored (suc k) (omega arith) low in
      let it : y ≡ p = cc in subst (λ z. z.header.height ≡ suc k) it at

  search_from :
      (bc : Blockchain L J S) (hash : Bytes)
      → IsChain L J S bc
      → (fuel : ℕ) (b : Block) → b.header.height < fuel
      → b.header.height ≤ tip_height L J S bc
      → (1 ≤ b.header.height → get_at L J S bc b.header.height ≡ ok b)
      → (r : Option Block) × (search_main L J S fuel bc hash b ≡ some r)
        × IsFound bc hash b.header.height r
  unfolding search_main
  search_from bc hash c zero b fits low stored = absurd (omega arith)
  search_from bc hash c (suc fuel) b fits low stored =
      elim (Bool-cases (bytes_equal (hash_of L J S b) hash)) [
        | inl hit ↦
            (some b, rw (hit, search_main) refl, (bytes_equal_iff (hash_of L J S b) hash).0 hit)
        | inr miss ↦ elim (Bool-cases (b.header.height == 0)) [
          | inl bottom ↦
              (none, rw (miss, bottom, search_main) refl, λ h x one up got. absurd (ground arith))
          | inr above ↦
              let here : 1 ≤ b.header.height = ground arith in
              let below = b.header.height - 1 in
              let misses = misses_at bc hash b (stored here) miss in
              elim (Result-cases (get_at L J S bc below)) [
                | inl (e, missing) ↦ (
                  none,
                  rw (miss, above, missing, search_main) refl,
                  IsFound-suc bc hash below none b.header.height (omega arith) misses
                      (λ h x one up got.
                        let (y, there, _) = c.stored below (omega arith) (omega arith) in cc),
                )
                | inr (p, got) ↦
                    let at = below_height bc c below p (omega arith) got in
                    let (r, runs, found) =
                      search_from bc hash c fuel p (omega (arith, at)) (omega (arith, at))
                        (λ one. subst (λ k. get_at L J S bc k ≡ ok p) (sym at) got) in
                    (
                      r,
                      rw (miss, above, got, search_main) runs,
                      IsFound-suc bc hash below r b.header.height (omega arith) misses
                          (subst (λ k. IsFound bc hash k r) at found),
                    )
              ]
        ]
      ]

  -- On a chain, with more fuel than the tip's height, the search of findBlock ends. It returns a block
  -- with the hash; where it returns nothing, no block of the chain above the genesis has the hash.
  pub search_main-ends :
      (bc : Blockchain L J S) (hash : Bytes) (fuel : ℕ)
      → IsChain L J S bc
      → tip_height L J S bc < fuel
      → (r : Option Block) × (search_main L J S fuel bc hash bc.current_block ≡ some r)
        × IsFound bc hash (tip_height L J S bc) r
  search_main-ends bc hash fuel c fits =
      search_from bc hash c fuel bc.current_block fits (omega arith) c.tip
