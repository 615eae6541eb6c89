-- ===== src/Prelude/Text.antt =====
-- The formatters of Go's standard library that build keys, `%d` and hex.EncodeToString, and the
-- functions that read keys, strings.HasPrefix, strings.TrimPrefix and strconv.ParseUint, as
-- functions on bytes. The formatters are injective, so keys built from different values differ, and
-- ParseUint reads what `%d` wrote.
use Prim.Native.Nat.{ℕ, zero, suc, ◌+◌, ◌*◌, ◌/◌, ◌%◌, ◌-◌, ◌^◌, ◌<◌}
use Prim.Native.Char.{code}
use Prim.Native.String.{String}
use mathlib.Core.Path.{◌≡◌, refl, sym, ap, ◌∙◌}
use mathlib.Core.Logic.{◌≢◌}
use mathlib.Core.Bool.{Bool, true, false, ◌&&◌}
use mathlib.Core.Option.{Option, none, some}
use mathlib.Core.List.{[], ◌∷◌, ◌++◌, reverse, reverse_aux, reverse-reverse}
use native.Mathlib.Omega.{arith}
use route_n_root.Prelude.Tests.{ltb, leb, ◌==◌, ==_iff, if◌then◌else◌}
use route_n_root.Prelude.Lists.{length, drop}
use route_n_root.Prelude.Keys.{Bytes}

-- The decimal digits of `n`, the last first. A round more than `n` is enough fuel.
digits : ℕ → ℕ → Bytes
digits zero n = []
digits (suc f) n =
    let more = (48 + n % 10) ∷ digits f (n / 10) in if ltb n 10 then (48 + n) ∷ [] else more

-- The number that such digits spell.
value : Bytes → ℕ
value [] = 0
value (d ∷ ds) = (d - 48) + 10 * value ds

value-digits : (f n : ℕ) → n < f → value (digits f n) ≡ n
unfolding value digits
value-digits zero n h = elim h [ ]
value-digits (suc f) n h = ground (arith, value-digits f (n / 10))

-- fmt.Sprintf("%d", n)
unfoldable pub decimal : ℕ → Bytes
unfolding digits
decimal n = reverse (digits (suc n) n)

pub decimal-injective : (m n : ℕ) → decimal m ≡ decimal n → m ≡ n
unfolding decimal
decimal-injective m n h =
    sym (value-digits (suc m) m (omega arith))
    ∙ ap value (sym (reverse-reverse _) ∙ ap reverse h ∙ reverse-reverse _)
    ∙ value-digits (suc n) n (omega arith)

hex_digit : ℕ → ℕ
hex_digit d = if ltb d 10 then 48 + d else 87 + d

-- hex.EncodeToString
unfoldable pub encode_to_string : Bytes → Bytes
unfolding hex_digit
encode_to_string [] = []
encode_to_string (x ∷ xs) = hex_digit (x / 16) ∷ hex_digit (x % 16) ∷ encode_to_string xs

pub encode_to_string-injective :
    (xs ys : Bytes) → encode_to_string xs ≡ encode_to_string ys → xs ≡ ys
unfolding encode_to_string
encode_to_string-injective [] [] h = refl
encode_to_string-injective [] (y ∷ ys) h = cc
encode_to_string-injective (x ∷ xs) [] h = cc
encode_to_string-injective (x ∷ xs) (y ∷ ys) h = ground (arith, encode_to_string-injective xs ys)

-- A key made of a fixed prefix and a part that varies.
pub append-injective : (p xs ys : Bytes) → (p ++ xs) ≡ (p ++ ys) → xs ≡ ys
append-injective [] xs ys h = h
append-injective (x ∷ p) xs ys h = append-injective p xs ys (cc)

-- The bytes of an ASCII text.
abbrev pub codes : String → Bytes
codes String.[] = []
codes (String.◌∷◌ c s) = code c ∷ codes s

-- strings.HasPrefix
unfoldable pub has_prefix : Bytes → Bytes → Bool
has_prefix s [] = true
has_prefix [] (p ∷ ps) = false
has_prefix (x ∷ s) (p ∷ ps) = (p == x) && has_prefix s ps

-- strings.TrimPrefix
unfoldable pub trim_prefix : Bytes → Bytes → Bytes
unfolding has_prefix
trim_prefix s p = if has_prefix s p then drop (length p) s else s

-- The digits read one after the other, from the number read so far.
parse_from : ℕ → Bytes → Option ℕ
parse_from n [] = some n
parse_from n (c ∷ cs) =
    let rest = parse_from (n * 10 + (c - 48)) cs in if leb 48 c && leb c 57 then rest else none

-- strconv.ParseUint(s, 10, 64), an error being `none`.
unfoldable pub parse_uint : Bytes → Option ℕ
unfolding parse_from
parse_uint [] = none
parse_uint (c ∷ cs) = elim (parse_from 0 (c ∷ cs)) [
  | none ↦ none
  | some n ↦ if ltb n (2 ^ 64) then some n else none
]

parse_from-digits :
    (f n : ℕ) (r : Bytes) → n < f → parse_from 0 (reverse_aux (digits f n) r) ≡ parse_from n r
unfolding parse_from digits
parse_from-digits zero n r h = elim h [ ]
parse_from-digits (suc f) n r h = ground (arith, parse_from-digits f (n / 10) ((48 + n % 10) ∷ r))

parse_from-decimal : (n : ℕ) → parse_from 0 (decimal n) ≡ some n
unfolding parse_from decimal
parse_from-decimal n = parse_from-digits (suc n) n [] (omega arith)

parse_cons :
    (s : Bytes) (n : ℕ) → parse_from 0 s ≡ some n → s ≢ [] → n < 2 ^ 64 → parse_uint s ≡ some n
unfolding parse_uint
parse_cons [] n h full fits = elim (full refl) [ ]
parse_cons (c ∷ cs) n h full fits = rw (h, parse_uint) (ground arith)

decimal-full : (n : ℕ) → decimal n ≢ []
unfolding decimal digits
decimal-full n h =
    let none_left : digits (suc n) n ≡ [] = sym (reverse-reverse _) ∙ ap reverse h in ground arith

-- ParseUint reads the decimal digits of a uint64.
pub parse_uint-decimal : (n : ℕ) → n < 2 ^ 64 → parse_uint (decimal n) ≡ some n
parse_uint-decimal n fits = parse_cons (decimal n) n (parse_from-decimal n) (decimal-full n) fits

pub has_prefix-append : (p s : Bytes) → has_prefix (p ++ s) p ≡ true
unfolding has_prefix
has_prefix-append [] s = refl
has_prefix-append (x ∷ p) s = ground (arith, has_prefix-append p s, (==_iff x x).1 refl)

drop-append : (p s : Bytes) → drop (length p) (p ++ s) ≡ s
drop-append [] s = refl
drop-append (x ∷ p) s = drop-append p s

pub trim_prefix-append : (p s : Bytes) → trim_prefix (p ++ s) p ≡ s
unfolding trim_prefix
trim_prefix-append p s = rw (has_prefix-append p s, drop-append p s) refl
