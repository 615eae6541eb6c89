-- ===== src/Byzantine/Trust.antt =====
-- rnr/pkg/consensus/byzantine_detection.go: bounds of the trust score, and what a low score means.
use route_n_root.Prelude.{
  ℕ, ◌+◌, ◌≡◌, refl, inl, inr, Bool, true, false, ◌||◌, List, [], ◌∷◌, Bytes, Bool-cases,
  Option-cases, All, All-insert, All-lookup, lookup, insert, bytes_key, if◌then◌else◌, ltb, arith,
}
use route_n_root.Prelude.Int.{pos, ◌+ℤ◌, ◌-ℤ◌, ◌≤ℤ◌, ltb_ℤ, -ℤ_parts, +ℤ_parts}
use route_n_root.Platform.{Sha256}
use route_n_root.Byzantine.{
  ValidatorBehavior, ByzantineDetector, new_byzantine_detector, new_behavior, find_validator,
  penalize, ban_if, store, is_validator_trusted, record_good_behavior,
}
use route_n_root.Byzantine.Detectors.{
  detect_double_vote, detect_invalid_vrf, detect_conflicting_blocks, detect_speed_test_cheat,
}

-- The score is at most 100, and below 30 the validator is banned.
abbrev pub IsJudged : ValidatorBehavior → Type 0
IsJudged v = (v.trust_score ≤ℤ pos 100) × (ltb_ℤ v.trust_score (pos 30) ≡ true → v.is_banned ≡ true)

-- The detector keeps the limits it was made with, and has judged every validator.
abbrev pub IsValid : ByzantineDetector → Type 0
IsValid bd =
    (bd.initial_trust_score ≡ pos 100)
    × (bd.minimum_trust_score ≡ pos 30)
    × All (λ entry. IsJudged (entry.1)) bd.validators

find_validator-IsJudged :
    (bd : ByzantineDetector) (id : Bytes) → IsValid bd → IsJudged (find_validator bd id)
unfolding find_validator new_behavior
find_validator-IsJudged bd id i = elim (Option-cases (lookup id bd.validators)) [
  | inl fresh ↦ rw (fresh, i.0, find_validator) (omega arith, λ h. ground (arith, h))
  | inr (v, found) ↦ rw (found, find_validator) (All-lookup IsJudged id v bd.validators i.2 found)
]

-- A penalty and a ban on a low score leave a validator judged.
ban_if-IsJudged :
    (bd : ByzantineDetector) (now penalty : ℕ) (over : Bool) (v : ValidatorBehavior)
    → IsValid bd
    → v.trust_score ≤ℤ pos 100
    → IsJudged (ban_if bd now over (penalize now penalty v)).0
unfolding ban_if penalize
ban_if-IsJudged bd now penalty over v i h =
    let score = v.trust_score -ℤ pos penalty in
    elim (Bool-cases (over || ltb_ℤ score bd.minimum_trust_score)) [
      | inl banned ↦
          rw (banned, ban_if) (omega (arith, -ℤ_parts v.trust_score (pos penalty)), λ low. refl)
      | inr spared ↦
          rw (spared, ban_if)
            (
              omega (arith, -ℤ_parts v.trust_score (pos penalty)),
              λ low. ground (arith, spared, low, i.1),
            )
    ]

restored-IsJudged :
    (bd : ByzantineDetector) (v : ValidatorBehavior)
    → IsValid bd
    → IsJudged (record v { is_banned = false; trust_score = bd.minimum_trust_score +ℤ pos 10 })
restored-IsJudged bd v i =
    let m = bd.minimum_trust_score in
    let sum = +ℤ_parts m (pos 10) in
    rw (i.1) (
      omega (arith, +ℤ_parts (pos 30) (pos 10)),
      λ low. ground (arith, low, +ℤ_parts (pos 30) (pos 10)),
    )

improved-IsJudged :
    (bd : ByzantineDetector) (v : ValidatorBehavior)
    → IsValid bd
    → IsJudged v
    → IsJudged (record v {
      total_blocks = v.total_blocks + 1;
      trust_score =
          if ltb_ℤ v.trust_score bd.initial_trust_score
          then v.trust_score +ℤ pos 1
          else v.trust_score;
    })
improved-IsJudged bd v i j = elim (Bool-cases (ltb_ℤ v.trust_score bd.initial_trust_score)) [
  | inl below ↦ rw below (
    ground (arith, below, i.0, j.0, +ℤ_parts v.trust_score (pos 1)),
    λ low. j.1 (ground (arith, low, +ℤ_parts v.trust_score (pos 1))),
  )
  | inr full ↦ rw full j
]

store-IsValid :
    (bd : ByzantineDetector) (id : Bytes) (v : ValidatorBehavior)
    → IsValid bd
    → IsJudged v
    → All (λ entry. IsJudged (entry.1)) (insert id v bd.validators)
store-IsValid bd id v i j = All-insert (λ entry. IsJudged (entry.1)) id v bd.validators (λ _. j) i.2

-- A call of the public interface, with its time.
pub data Call : Type 0 where
  double : (now : ℕ) (id : Bytes) (height : ℕ) (vote1 vote2 : Bytes) → Call
  vrf : (now : ℕ) (id proof : Bytes) → Call
  conflict : (now : ℕ) (id : Bytes) (height : ℕ) (block1 block2 : Bytes) → Call
  cheat : (now : ℕ) (id cheat_type proof : Bytes) → Call
  ask : (now : ℕ) (id : Bytes) → Call
  good : (id : Bytes) → Call

pub apply : Sha256 → ByzantineDetector → Call → ByzantineDetector
apply S bd (double now id height vote1 vote2) =
    (detect_double_vote S bd now id height vote1 vote2).0
apply S bd (vrf now id proof) = (detect_invalid_vrf bd now id proof).0
apply S bd (conflict now id height block1 block2) =
    (detect_conflicting_blocks S bd now id height block1 block2).0
apply S bd (cheat now id cheat_type proof) = (detect_speed_test_cheat bd now id cheat_type proof).0
apply S bd (ask now id) = (is_validator_trusted bd now id).0
apply S bd (good id) = record_good_behavior bd id

pub run : Sha256 → ByzantineDetector → List Call → ByzantineDetector
run S bd [] = bd
run S bd (c ∷ cs) = run S (apply S bd c) cs

is_validator_trusted-IsValid :
    (bd : ByzantineDetector) (now : ℕ) (id : Bytes)
    → IsValid bd
    → IsValid (is_validator_trusted bd now id).0
unfolding is_validator_trusted
is_validator_trusted-IsValid bd now id i = elim (Option-cases (lookup id bd.validators)) [
  | inl unknown ↦ rw (unknown, is_validator_trusted) i
  | inr (v, found) ↦ elim (Bool-cases (v.is_banned)) [
    | inl banned ↦ elim (Bool-cases (ltb now v.ban_until)) [
      | inl stays ↦ rw (found, banned, stays, is_validator_trusted) i
      | inr over ↦
          rw (found, banned, over, is_validator_trusted)
            (i.0, i.1, store-IsValid bd id _ i (restored-IsJudged bd v i))
    ]
    | inr free ↦ rw (found, free, is_validator_trusted) i
  ]
]

apply-IsValid :
    (S : Sha256) (bd : ByzantineDetector) (c : Call) → IsValid bd → IsValid (apply S bd c)
unfolding apply detect_double_vote detect_invalid_vrf detect_conflicting_blocks
    detect_speed_test_cheat record_good_behavior store penalize
apply-IsValid S bd (double now id height vote1 vote2) i =
    let v = find_validator bd id in
    let j = find_validator-IsJudged bd id i in
    (
      i.0,
      i.1,
      store-IsValid bd id _ i
          (ban_if-IsJudged bd now 30 _ (record v { double_votes = v.double_votes + 1 }) i j.0),
    )
apply-IsValid S bd (vrf now id proof) i =
    let v = find_validator bd id in
    let j = find_validator-IsJudged bd id i in
    (
      i.0,
      i.1,
      store-IsValid bd id _ i
          (ban_if-IsJudged bd now 20 _ (record v { vrf_failures = v.vrf_failures + 1 }) i j.0),
    )
apply-IsValid S bd (conflict now id height block1 block2) i =
    let j = find_validator-IsJudged bd id i in
    (
      i.0,
      i.1,
      store-IsValid bd id _ i
          (omega (arith, j.0, -ℤ_parts (find_validator bd id).trust_score (pos 35)), λ low. refl),
    )
apply-IsValid S bd (cheat now id cheat_type proof) i =
    let v = find_validator bd id in
    let j = find_validator-IsJudged bd id i in
    (
      i.0,
      i.1,
      store-IsValid bd id _ i (
          ban_if-IsJudged bd now 25 _ (record v { speed_test_cheats = v.speed_test_cheats + 1 }) i
            j.0),
    )
apply-IsValid S bd (ask now id) i = is_validator_trusted-IsValid bd now id i
apply-IsValid S bd (good id) i =
    let v = find_validator bd id in
    let j = find_validator-IsJudged bd id i in
    (i.0, i.1, store-IsValid bd id _ i (improved-IsJudged bd v i j))

run-IsValid :
    (S : Sha256) (bd : ByzantineDetector) (cs : List Call) → IsValid bd → IsValid (run S bd cs)
unfolding run
run-IsValid S bd [] i = i
run-IsValid S bd (c ∷ cs) i = run-IsValid S (apply S bd c) cs (apply-IsValid S bd c i)

-- After any calls on a new detector, every validator's trust score is at most 100, and a validator with a score below 30 is banned.
pub byzantine_detector_judges :
    (S : Sha256) (cs : List Call)
    → All (λ entry. IsJudged (entry.1)) (run S new_byzantine_detector cs).validators
unfolding new_byzantine_detector
byzantine_detector_judges S cs = (run-IsValid S new_byzantine_detector cs (refl, refl, tt)).2
