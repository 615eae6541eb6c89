-- ===== src/Checkpoint/Sort.antt =====
-- rnr/pkg/consensus/checkpoint.go: the exchange sort in CleanupOldCheckpoints sorts.
use route_n_root.Prelude.{
  ℕ, zero, suc, ◌≤◌, ◌≡◌, refl, inl, inr, List, [], ◌∷◌, Bool-cases, All, length, count,
  if◌then◌else◌, ltb, ◌==◌, arith,
}
use route_n_root.Checkpoint.{exchange_pass, exchange_sort}

-- Every height is at most the one before it.
abbrev pub IsDescending : List ℕ → Type 0
IsDescending [] = Unit
IsDescending (x ∷ xs) = All (λ y. y ≤ x) xs × IsDescending xs

abbrev pub occurrences : ℕ → List ℕ → ℕ
occurrences v xs = count (λ x. x == v) xs

exchange_pass-occurrences :
    (v x : ℕ) (ys : List ℕ)
    → occurrences v ((exchange_pass x ys).0 ∷ (exchange_pass x ys).1) ≡ occurrences v (x ∷ ys)
unfolding exchange_pass
exchange_pass-occurrences v x [] = refl
exchange_pass-occurrences v x (y ∷ ys) =
    ground (arith, exchange_pass-occurrences v x ys, exchange_pass-occurrences v y ys)

exchange_pass-length : (x : ℕ) (ys : List ℕ) → length (exchange_pass x ys).1 ≡ length ys
unfolding exchange_pass
exchange_pass-length x [] = refl
exchange_pass-length x (y ∷ ys) = omega (arith, exchange_pass-length (if ltb x y then y else x) ys)

exchange_pass-le : (x : ℕ) (ys : List ℕ) → x ≤ (exchange_pass x ys).0
unfolding exchange_pass
exchange_pass-le x [] = omega arith
exchange_pass-le x (y ∷ ys) = ground (arith, exchange_pass-le x ys, exchange_pass-le y ys)

exchange_pass-top :
    (x : ℕ) (ys : List ℕ) → All (λ y. y ≤ (exchange_pass x ys).0) (exchange_pass x ys).1
unfolding exchange_pass
exchange_pass-top x [] = tt
exchange_pass-top x (y ∷ ys) =
    let next = if ltb x y then y else x in
    (ground (arith, exchange_pass-le next ys), exchange_pass-top next ys)

-- An upper bound of the entries, by their occurrences.
All-occurrences :
    (bound : ℕ) (xs : List ℕ)
    → ((v : ℕ) → 1 ≤ occurrences v xs → v ≤ bound)
    → All (λ y. y ≤ bound) xs
All-occurrences bound [] h = tt
All-occurrences bound (x ∷ xs) h =
    (h x (ground arith), All-occurrences bound xs (λ v a. h v (ground arith)))

occurrences-All :
    (bound v : ℕ) (xs : List ℕ) → All (λ y. y ≤ bound) xs → 1 ≤ occurrences v xs → v ≤ bound
occurrences-All bound v [] a h = ground arith
occurrences-All bound v (x ∷ xs) a h = elim (Bool-cases (x == v)) [
  | inl same ↦ ground arith
  | inr other ↦ occurrences-All bound v xs a.1 (ground arith)
]

pub exchange_sort-occurrences :
    (v rounds : ℕ) (xs : List ℕ) → occurrences v (exchange_sort rounds xs) ≡ occurrences v xs
unfolding exchange_sort
exchange_sort-occurrences v zero xs = refl
exchange_sort-occurrences v (suc rounds) [] = refl
exchange_sort-occurrences v (suc rounds) (x ∷ xs) = ground (
  arith,
  exchange_pass-occurrences v x xs,
  exchange_sort-occurrences v rounds (exchange_pass x xs).1,
)

exchange_sort-IsDescending :
    (rounds : ℕ) (xs : List ℕ) → length xs ≤ rounds → IsDescending (exchange_sort rounds xs)
unfolding exchange_sort
exchange_sort-IsDescending zero [] h = tt
exchange_sort-IsDescending zero (x ∷ xs) h = let none_left : ⊥ = omega arith in elim none_left [ ]
exchange_sort-IsDescending (suc rounds) [] h = tt
exchange_sort-IsDescending (suc rounds) (x ∷ xs) h =
    let (top, rest) = exchange_pass x xs in
    (
      All-occurrences top (exchange_sort rounds rest) (λ v a.
          occurrences-All top v rest (exchange_pass-top x xs)
            (omega (arith, exchange_sort-occurrences v rounds rest))),
      exchange_sort-IsDescending rounds rest (omega (arith, exchange_pass-length x xs)),
    )

-- With as many rounds as there are heights, the sort returns the same heights, each as often as before, in descending
-- order.
exchange_sort-sorts :
    (heights : List ℕ)
    → IsDescending (exchange_sort (length heights) heights)
      × ((v : ℕ) → occurrences v (exchange_sort (length heights) heights) ≡ occurrences v heights)
exchange_sort-sorts heights = (
  exchange_sort-IsDescending (length heights) heights (omega arith),
  λ v. exchange_sort-occurrences v (length heights) heights,
)
