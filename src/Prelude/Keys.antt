-- ===== src/Prelude/Keys.antt =====
-- Equality of map keys: Go's `==` on strings, byte sequences and heights.
use Prim.Native.Nat.{ℕ}
use mathlib.Core.Path.{◌≡◌, refl}
use mathlib.Core.Logic.{◌↔◌, ◌≢◌}
use mathlib.Core.Bool.{Bool, true, false, ◌&&◌}
use mathlib.Core.List.{List, [], ◌∷◌}
use native.Mathlib.Omega.{arith}
use route_n_root.Prelude.Tests.{◌==◌, ==_iff}

pub record Key {ℓ} (K : Type ℓ) : Type ℓ where
  pub same : K → K → Bool
  pub same_iff : (a b : K) → (same a b ≡ true) ↔ (a ≡ b)

-- A Go string or byte slice is its sequence of bytes.
abbrev pub Bytes : Type 0
Bytes = List ℕ

abbrev pub bytes_equal : Bytes → Bytes → Bool
bytes_equal [] [] = true
bytes_equal [] (y ∷ ys) = false
bytes_equal (x ∷ xs) [] = false
bytes_equal (x ∷ xs) (y ∷ ys) = x == y && bytes_equal xs ys

pub bytes_equal_iff : (xs ys : Bytes) → (bytes_equal xs ys ≡ true) ↔ (xs ≡ ys)
bytes_equal_iff [] [] = ((λ _. refl), λ _. refl)
bytes_equal_iff [] (y ∷ ys) = ((λ h. cc), λ h. cc)
bytes_equal_iff (x ∷ xs) [] = ((λ h. cc), λ h. cc)
bytes_equal_iff (x ∷ xs) (y ∷ ys) = ground (arith, bytes_equal_iff xs ys)

instance abbrev pub nat_key : Key ℕ
nat_key = record { same = λ a b. a == b; same_iff = ==_iff }

instance abbrev pub bytes_key : Key Bytes
bytes_key = record { same = bytes_equal; same_iff = bytes_equal_iff }

module _ {ℓ} {K : Type ℓ} ⦃e : Key K⦄ where
  pub same_refl : (a : K) → e.same a a ≡ true
  same_refl a = (e.same_iff a a).1 refl

  pub same_ne : (a b : K) → a ≢ b → e.same a b ≡ false
  same_ne a b h = ground (arith, e.same_iff a b)
