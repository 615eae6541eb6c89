-- ===== src/Prelude/Maps.antt =====
-- Go maps as association lists. The order of the list stands for the order, which Go leaves
-- open, in which `range` visits the entries.
use Prim.Native.Nat.{suc, ◌+◌, ◌≤◌}
use mathlib.Core.Path.{◌≡◌, refl, subst}
use mathlib.Core.Logic.{◌≢◌, inl, inr}
use mathlib.Core.List.{List, [], ◌∷◌}
use mathlib.Core.Bool.{Bool, true, false}
use mathlib.Core.Option.{Option, none, some}
use native.Mathlib.Omega.{arith}
use route_n_root.Prelude.Tests.{if◌then◌else◌, Bool-cases}
use route_n_root.Prelude.Lists.{length, All}
use route_n_root.Prelude.Keys.{Key, same_refl, same_ne}

abbrev pub Map {ℓ κ} : Type ℓ → Type κ → Type (ℓ ⊔ κ)
Map K V = List (K × V)

some_value {ℓ} : {A : Type ℓ} {x y : A} → some x ≡ some y → x ≡ y
some_value h = cc

abbrev pub is_some {ℓ} : {A : Type ℓ} → Option A → Bool
is_some none = false
is_some (some _) = true

module _ {ℓ κ} {K : Type ℓ} {V : Type κ} ⦃e : Key K⦄ where
  -- `v, ok := m[k]`
  unfoldable pub lookup : K → Map K V → Option V
  lookup k [] = none
  lookup k ((j, v) ∷ m) = if e.same j k then some v else lookup k m

  -- `m[k] = v`
  unfoldable pub insert : K → V → Map K V → Map K V
  insert k v [] = (k, v) ∷ []
  insert k v ((j, w) ∷ m) = if e.same j k then (k, v) ∷ m else (j, w) ∷ insert k v m

  -- `delete(m, k)`
  unfoldable pub erase : K → Map K V → Map K V
  erase k [] = []
  erase k ((j, w) ∷ m) = let rest = erase k m in if e.same j k then rest else (j, w) ∷ rest

  -- `for k, v := range m { if !p(k, v) { delete(m, k) } }`
  unfoldable pub keep : (K → V → Bool) → Map K V → Map K V
  keep p [] = []
  keep p ((j, w) ∷ m) = let rest = keep p m in if p j w then (j, w) ∷ rest else rest

  -- No key stands twice, as in every Go map.
  abbrev pub IsDistinct : Map K V → Type κ
  IsDistinct [] = Unit
  IsDistinct ((k, _) ∷ m) = (lookup k m ≡ none) × IsDistinct m

  pub lookup-insert :
      (k j : K) (v : V) (m : Map K V)
      → lookup j (insert k v m) ≡ (if e.same k j then some v else lookup j m)
  unfolding lookup insert
  lookup-insert k j v [] = refl
  lookup-insert k j v ((i, w) ∷ m) =
      ground (arith, e.same_iff k j, e.same_iff i k, e.same_iff i j, lookup-insert k j v m)

  pub lookup-erase :
      (k j : K) (m : Map K V) → lookup j (erase k m) ≡ (if e.same k j then none else lookup j m)
  unfolding lookup erase
  lookup-erase k j [] = ground arith
  lookup-erase k j ((i, w) ∷ m) =
      ground (arith, e.same_iff k j, e.same_iff i k, e.same_iff i j, lookup-erase k j m)

  pub lookup-insert_self : (k : K) (v : V) (m : Map K V) → lookup k (insert k v m) ≡ some v
  lookup-insert_self k v m = ground (arith, lookup-insert k k v m, same_refl k)

  pub lookup-insert_ne :
      (k j : K) (v : V) (m : Map K V) → k ≢ j → lookup j (insert k v m) ≡ lookup j m
  lookup-insert_ne k j v m h = ground (arith, lookup-insert k j v m, same_ne k j h)

  pub lookup-erase_self : (k : K) (m : Map K V) → lookup k (erase k m) ≡ none
  lookup-erase_self k m = ground (arith, lookup-erase k k m, same_refl k)

  pub lookup-erase_ne : (k j : K) (m : Map K V) → k ≢ j → lookup j (erase k m) ≡ lookup j m
  lookup-erase_ne k j m h = ground (arith, lookup-erase k j m, same_ne k j h)

  -- What `keep` leaves is what the test keeps, where no key stands twice.
  unfoldable pub keep_entry : (K → V → Bool) → K → Option V → Option V
  keep_entry p k none = none
  keep_entry p k (some v) = if p k v then some v else none

  lookup-keep-none :
      (p : K → V → Bool) (k : K) (m : Map K V) → lookup k m ≡ none → lookup k (keep p m) ≡ none
  unfolding lookup keep
  lookup-keep-none p k [] h = refl
  lookup-keep-none p k ((i, w) ∷ m) h = ground (arith, lookup-keep-none p k m)

  pub lookup-keep :
      (p : K → V → Bool) (k : K) (m : Map K V)
      → IsDistinct m
      → lookup k (keep p m) ≡ keep_entry p k (lookup k m)
  unfolding lookup keep keep_entry
  lookup-keep p k [] d = refl
  lookup-keep p k ((i, w) ∷ m) d =
      ground (arith, e.same_iff i k, lookup-keep p k m d.1, lookup-keep-none p k m)

  pub insert-IsDistinct : (k : K) (v : V) (m : Map K V) → IsDistinct m → IsDistinct (insert k v m)
  unfolding lookup insert
  insert-IsDistinct k v [] d = (refl, tt)
  insert-IsDistinct k v ((i, w) ∷ m) d = elim (Bool-cases (e.same i k)) [
    | inl h ↦ rw h (subst (λ x. lookup x m ≡ none) ((e.same_iff i k).0 h) d.0, d.1)
    | inr h ↦ rw h (
      ground (arith, lookup-insert k i v m, e.same_iff i k, e.same_iff k i),
      insert-IsDistinct k v m d.1,
    )
  ]

  pub erase-IsDistinct : (k : K) (m : Map K V) → IsDistinct m → IsDistinct (erase k m)
  unfolding lookup erase
  erase-IsDistinct k [] d = tt
  erase-IsDistinct k ((i, w) ∷ m) d = elim (Bool-cases (e.same i k)) [
    | inl h ↦ rw h (erase-IsDistinct k m d.1)
    | inr h ↦ rw h (ground (arith, lookup-erase k i m), erase-IsDistinct k m d.1)
  ]

  pub keep-IsDistinct : (p : K → V → Bool) (m : Map K V) → IsDistinct m → IsDistinct (keep p m)
  unfolding lookup keep
  keep-IsDistinct p [] d = tt
  keep-IsDistinct p ((i, w) ∷ m) d = elim (Bool-cases (p i w)) [
    | inl h ↦ rw h (lookup-keep-none p i m d.0, keep-IsDistinct p m d.1)
    | inr h ↦ rw h (keep-IsDistinct p m d.1)
  ]

  -- `len(m)` after a write.
  pub length-insert :
      (k : K) (v : V) (m : Map K V)
      → length (insert k v m) ≡ (if is_some (lookup k m) then length m else suc (length m))
  unfolding lookup insert
  length-insert k v [] = refl
  length-insert k v ((i, w) ∷ m) = ground (arith, length-insert k v m)

  pub length-erase-le : (k : K) (m : Map K V) → length (erase k m) ≤ length m
  unfolding erase
  length-erase-le k [] = omega arith
  length-erase-le k ((i, w) ∷ m) = ground (arith, length-erase-le k m)

  pub length-erase :
      (k : K) (m : Map K V)
      → IsDistinct m
      → length m ≡ length (erase k m) + (if is_some (lookup k m) then 1 else 0)
  unfolding lookup erase
  length-erase k [] d = omega arith
  length-erase k ((i, w) ∷ m) d = ground (arith, e.same_iff i k, length-erase k m d.1)

  -- A property of every entry survives a write that has it, a removal and a filter, and holds of
  -- what a lookup finds.
  pub All-insert {μ} :
      (P : K × V → Type μ) (k : K) (v : V) (m : Map K V)
      → ((j : K) → P (j, v))
      → All P m
      → All P (insert k v m)
  unfolding insert
  All-insert P k v [] h a = (h k, tt)
  All-insert P k v ((i, w) ∷ m) h a = elim (Bool-cases (e.same i k)) [
    | inl hit ↦ rw hit (h k, a.1)
    | inr miss ↦ rw miss (a.0, All-insert P k v m h a.1)
  ]

  pub All-keep {μ} :
      (P : K × V → Type μ) (p : K → V → Bool) (m : Map K V) → All P m → All P (keep p m)
  unfolding keep
  All-keep P p [] a = tt
  All-keep P p ((i, w) ∷ m) a = elim (Bool-cases (p i w)) [
    | inl stays ↦ rw stays (a.0, All-keep P p m a.1)
    | inr goes ↦ rw goes (All-keep P p m a.1)
  ]

  pub All-erase {μ} : (P : K × V → Type μ) (k : K) (m : Map K V) → All P m → All P (erase k m)
  unfolding erase
  All-erase P k [] a = tt
  All-erase P k ((i, w) ∷ m) a = elim (Bool-cases (e.same i k)) [
    | inl hit ↦ rw hit (All-erase P k m a.1)
    | inr miss ↦ rw miss (a.0, All-erase P k m a.1)
  ]

  pub All-lookup {μ} :
      (P : V → Type μ) (k : K) (v : V) (m : Map K V)
      → All (λ entry. P (entry.1)) m
      → lookup k m ≡ some v
      → P v
  unfolding lookup
  All-lookup P k v [] a h = cc
  All-lookup P k v ((i, w) ∷ m) a h = elim (Bool-cases (e.same i k)) [
    | inl hit ↦ let p : w ≡ v = some_value (rw (hit, lookup) at h) in subst P p a.0
    | inr miss ↦ All-lookup P k v m a.1 (rw (miss, lookup) at h)
  ]
