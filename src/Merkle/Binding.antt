-- ===== src/Merkle/Binding.antt =====
-- rnr/pkg/blockchain/blockchain.go: what a Merkle root determines.
use route_n_root.Prelude.{
  ℕ, zero, suc, ◌≤◌, ◌<◌, ◌≡◌, ◌≢◌, ◌⊎◌, refl, sym, ap, ◌∙◌, inl, inr, true, Bool-cases, some, List,
  [], ◌∷◌, ◌++◌, Bytes, bytes_equal, bytes_equal_iff, All, length, arith,
}
use route_n_root.Platform.{Sha256, listed}
use route_n_root.Merkle.{pair_hashes, root_from, compute_merkle_root}

-- A value of Sum256, or as long as one.
abbrev pub IsHash : Bytes → Type 0
IsHash x = length x ≡ 32

-- The texts that are hashed for the next level.
pub texts : List Bytes → List Bytes
texts [] = []
texts (x ∷ []) = []
texts (x ∷ y ∷ hashes) = (x ++ y) ∷ texts hashes

-- The texts that are hashed for the tree of a list.
pub tree_texts : Sha256 → ℕ → List Bytes → List Bytes
tree_texts S zero hashes = []
tree_texts S (suc fuel) hashes = texts hashes ++ tree_texts S fuel (pair_hashes S hashes)

-- Two different texts with one hash, one from each list.
abbrev pub Collision : Sha256 → List Bytes → List Bytes → Type 0
Collision S us vs =
    (x : Bytes) × (y : Bytes) × (listed x us ≡ true)
    × (listed y vs ≡ true)
    × (x ≢ y)
    × (S.sum x ≡ S.sum y)

listed_self : (x : Bytes) (us : List Bytes) → listed x (x ∷ us) ≡ true
listed_self x us = ground (arith, (bytes_equal_iff x x).1 refl)

listed_front : (x : Bytes) (us vs : List Bytes) → listed x us ≡ true → listed x (us ++ vs) ≡ true
listed_front x [] vs h = cc
listed_front x (u ∷ us) vs h = ground (arith, listed_front x us vs)

listed_back : (x : Bytes) (us vs : List Bytes) → listed x vs ≡ true → listed x (us ++ vs) ≡ true
listed_back x [] vs h = h
listed_back x (u ∷ us) vs h = ground (arith, listed_back x us vs h)

append_splits : (a b c d : Bytes) → length a ≡ length c → a ++ b ≡ c ++ d → (a ≡ c) × (b ≡ d)
append_splits [] b [] d l h = (refl, h)
append_splits [] b (y ∷ c) d l h = absurd (omega arith)
append_splits (x ∷ a) b [] d l h = absurd (omega arith)
append_splits (x ∷ a) b (y ∷ c) d l h =
    let tail : a ++ b ≡ c ++ d = cc in
    let rest = append_splits a b c d (omega arith) tail in (cc, rest.1)

some_hash : {x y : Bytes} → some x ≡ some y → x ≡ y
some_hash h = cc

module _ (S : Sha256) where
  length-pair_hashes : (xs : List Bytes) → length (pair_hashes S xs) ≤ length xs
  unfolding pair_hashes
  length-pair_hashes [] = omega arith
  length-pair_hashes (x ∷ []) = omega arith
  length-pair_hashes (x ∷ y ∷ xs) = omega (arith, length-pair_hashes xs)

  same-pair_hashes :
      (xs ys : List Bytes)
      → length xs ≡ length ys
      → length (pair_hashes S xs) ≡ length (pair_hashes S ys)
  unfolding pair_hashes
  same-pair_hashes [] [] l = refl
  same-pair_hashes [] (y ∷ ys) l = absurd (omega arith)
  same-pair_hashes (x ∷ xs) [] l = absurd (omega arith)
  same-pair_hashes (x ∷ []) (y ∷ []) l = refl
  same-pair_hashes (x ∷ []) (y ∷ z ∷ ys) l = absurd (omega arith)
  same-pair_hashes (x ∷ w ∷ xs) (y ∷ []) l = absurd (omega arith)
  same-pair_hashes (x ∷ w ∷ xs) (y ∷ z ∷ ys) l = ap suc (same-pair_hashes xs ys (omega arith))

  pair_hashes-IsHash : (xs : List Bytes) → All IsHash xs → All IsHash (pair_hashes S xs)
  unfolding pair_hashes
  pair_hashes-IsHash [] a = tt
  pair_hashes-IsHash (x ∷ []) a = a
  pair_hashes-IsHash (x ∷ y ∷ xs) a = (S.length-sum (x ++ y), pair_hashes-IsHash xs a.1.1)

  pair_hashes-binds :
      (xs ys : List Bytes)
      → length xs ≡ length ys
      → All IsHash xs
      → All IsHash ys
      → pair_hashes S xs ≡ pair_hashes S ys
      → (xs ≡ ys) ⊎ Collision S (texts xs) (texts ys)
  unfolding pair_hashes texts
  pair_hashes-binds [] [] l a b h = inl refl
  pair_hashes-binds [] (y ∷ ys) l a b h = absurd (omega arith)
  pair_hashes-binds (x ∷ xs) [] l a b h = absurd (omega arith)
  pair_hashes-binds (x ∷ []) (y ∷ []) l a b h = inl h
  pair_hashes-binds (x ∷ []) (y ∷ z ∷ ys) l a b h = absurd (omega arith)
  pair_hashes-binds (x ∷ w ∷ xs) (y ∷ []) l a b h = absurd (omega arith)
  pair_hashes-binds (x ∷ w ∷ xs) (y ∷ z ∷ ys) l a b h =
      let head : S.sum (x ++ w) ≡ S.sum (y ++ z) = cc in
      let tail : pair_hashes S xs ≡ pair_hashes S ys = cc in
      elim (Bool-cases (bytes_equal (x ++ w) (y ++ z))) [
        | inl same ↦
            let (front, back) =
              append_splits x w y z (a.0 ∙ sym b.0) ((bytes_equal_iff (x ++ w) (y ++ z)).0 same) in
            elim (pair_hashes-binds xs ys (omega arith) a.1.1 b.1.1 tail) [
              | inl equal ↦ inl cc
              | inr (u, v, in_x, in_y, differ, collide) ↦ inr (
                u,
                v,
                listed_back u ((x ++ w) ∷ []) (texts xs) in_x,
                listed_back v ((y ++ z) ∷ []) (texts ys) in_y,
                differ,
                collide,
              )
            ]
        | inr differ ↦ inr (
          x ++ w,
          y ++ z,
          listed_self (x ++ w) (texts xs),
          listed_self (y ++ z) (texts ys),
          λ e. ground (arith, differ, (bytes_equal_iff (x ++ w) (y ++ z)).1 e),
          head,
        )
      ]

  root_from-binds :
      (fuel : ℕ) (xs ys : List Bytes)
      → length xs < fuel
      → length xs ≡ length ys
      → All IsHash xs
      → All IsHash ys
      → root_from S fuel xs ≡ root_from S fuel ys
      → (xs ≡ ys) ⊎ Collision S (tree_texts S fuel xs) (tree_texts S fuel ys)
  unfolding root_from pair_hashes tree_texts
  root_from-binds zero xs ys f l a b h = absurd (omega arith)
  root_from-binds (suc fuel) [] [] f l a b h = inl refl
  root_from-binds (suc fuel) [] (y ∷ ys) f l a b h = absurd (omega arith)
  root_from-binds (suc fuel) (x ∷ xs) [] f l a b h = absurd (omega arith)
  root_from-binds (suc fuel) (x ∷ []) (y ∷ []) f l a b h = inl (ap (λ z. z ∷ []) (some_hash h))
  root_from-binds (suc fuel) (x ∷ []) (y ∷ z ∷ ys) f l a b h = absurd (omega arith)
  root_from-binds (suc fuel) (x ∷ w ∷ xs) (y ∷ []) f l a b h = absurd (omega arith)
  root_from-binds (suc fuel) (x ∷ w ∷ xs) (y ∷ z ∷ ys) f l a b h =
      let us = x ∷ w ∷ xs in
      let vs = y ∷ z ∷ ys in
      elim (root_from-binds fuel (pair_hashes S us) (pair_hashes S vs)
        (omega (arith, length-pair_hashes xs)) (same-pair_hashes us vs l) (pair_hashes-IsHash us a)
        (pair_hashes-IsHash vs b) h) [
          | inl level ↦ elim (pair_hashes-binds us vs l a b level) [
            | inl equal ↦ inl equal
            | inr (u, v, in_x, in_y, differ, collide) ↦ inr (
              u,
              v,
              listed_front u (texts us) (tree_texts S fuel (pair_hashes S us)) in_x,
              listed_front v (texts vs) (tree_texts S fuel (pair_hashes S vs)) in_y,
              differ,
              collide,
            )
          ]
          | inr (u, v, in_x, in_y, differ, collide) ↦ inr (
            u,
            v,
            listed_back u (texts us) (tree_texts S fuel (pair_hashes S us)) in_x,
            listed_back v (texts vs) (tree_texts S fuel (pair_hashes S vs)) in_y,
            differ,
            collide,
          )
        ]

  -- Two lists of as many 32-byte hashes that have one Merkle root are equal, unless two different
  -- texts with one SHA-256 hash are found, the one among those hashed for the first tree, the other
  -- among those hashed for the second.
  pub compute_merkle_root-binds :
      (xs ys : List Bytes)
      → length xs ≡ length ys
      → All IsHash xs
      → All IsHash ys
      → compute_merkle_root S xs ≡ compute_merkle_root S ys
      → (xs ≡ ys)
        ⊎ Collision S (tree_texts S (suc (length xs)) xs) (tree_texts S (suc (length ys)) ys)
  unfolding compute_merkle_root
  compute_merkle_root-binds xs ys l a b h =
      let same = h ∙ ap (λ n. root_from S (suc n) ys) (sym l) in
      rw (sym l) (root_from-binds (suc (length xs)) xs ys (omega arith) l a b same)

  pub root_from-ends :
      (fuel : ℕ) (xs : List Bytes)
      → length xs < fuel
      → (root : Bytes) × (root_from S fuel xs ≡ some root)
  unfolding root_from pair_hashes
  root_from-ends zero xs f = absurd (omega arith)
  root_from-ends (suc fuel) [] f = ([], refl)
  root_from-ends (suc fuel) (x ∷ []) f = (x, refl)
  root_from-ends (suc fuel) (x ∷ y ∷ xs) f =
      root_from-ends fuel (pair_hashes S (x ∷ y ∷ xs)) (omega (arith, length-pair_hashes xs))
