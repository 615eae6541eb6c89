-- ===== src/Byzantine.antt =====
-- rnr/pkg/consensus/byzantine_detection.go: evidence against validators, trust scores and bans.
-- Each method reads the clock once, as `now`. Fields that no code writes are left out. A trust
-- score, a Go int, is an integer without bounds.
pub mod Detectors
pub mod Trust
use route_n_root.Prelude.{
  ℕ, ◌+◌, ◌*◌, Bool, true, false, not, ◌&&◌, ◌||◌, Option, none, some, List, [], ◌∷◌, ◌++◌, Bytes,
  Map, lookup, insert, select, bytes_key, bytes_equal, if◌then◌else◌, ltb, leb,
}
use route_n_root.Prelude.Int.{ℤ, pos, ◌+ℤ◌, ◌-ℤ◌, ltb_ℤ}
use route_n_root.Prelude.Text.{codes, decimal, encode_to_string}
use route_n_root.Core.{hour}
use route_n_root.Platform.{Sha256}

pub data EvidenceType : Type 0 where
  double_vote invalid_vrf conflicting_block speedtest_cheat : EvidenceType

pub record ByzantineEvidence : Type 0 where
  pub validator_id : Bytes
  pub evidence_type : EvidenceType
  pub timestamp : ℕ
  pub proof : Bytes
  pub severity : ℕ
  pub description : Bytes
  pub verified : Bool

pub record ValidatorBehavior : Type 0 where
  pub total_blocks : ℕ
  pub invalid_blocks : ℕ
  pub double_votes : ℕ
  pub vrf_failures : ℕ
  pub speed_test_cheats : ℕ
  pub last_misbehavior : ℕ
  pub misbehavior_count : ℕ
  pub trust_score : ℤ
  pub is_banned : Bool
  pub ban_until : ℕ

pub record ByzantineDetector : Type 0 where
  pub validators : Map Bytes ValidatorBehavior
  pub evidence_log : List ByzantineEvidence
  pub double_vote_threshold : ℕ
  pub vrf_failure_threshold : ℕ
  pub speed_test_cheat_threshold : ℕ
  pub initial_trust_score : ℤ
  pub minimum_trust_score : ℤ
  pub ban_duration : ℕ

unfoldable pub new_byzantine_detector : ByzantineDetector
new_byzantine_detector = record {
  validators = [];
  evidence_log = [];
  double_vote_threshold = 3;
  vrf_failure_threshold = 5;
  speed_test_cheat_threshold = 2;
  initial_trust_score = pos 100;
  minimum_trust_score = pos 30;
  ban_duration = 7 * 24 * hour;
}

unfoldable pub new_behavior : ByzantineDetector → ValidatorBehavior
new_behavior bd = record {
  total_blocks = 0;
  invalid_blocks = 0;
  double_votes = 0;
  vrf_failures = 0;
  speed_test_cheats = 0;
  last_misbehavior = 0;
  misbehavior_count = 0;
  trust_score = bd.initial_trust_score;
  is_banned = false;
  ban_until = 0;
}

-- getOrCreateValidator; a new record is stored by the write that ends each caller.
unfoldable pub find_validator : ByzantineDetector → Bytes → ValidatorBehavior
find_validator bd id = elim (lookup id bd.validators) [ none ↦ new_behavior bd | some v ↦ v ]

-- What the detectors share: the count of misbehaviors, its time and the penalty.
unfoldable pub penalize : ℕ → ℕ → ValidatorBehavior → ValidatorBehavior
penalize now penalty v = record v {
  misbehavior_count = v.misbehavior_count + 1;
  last_misbehavior = now;
  trust_score = v.trust_score -ℤ pos penalty;
}

-- The ban that ends the detectors, if the test says so; with it the Boolean of the error returned.
unfoldable pub ban_if : ByzantineDetector → ℕ → Bool → ValidatorBehavior → ValidatorBehavior × Bool
ban_if bd now over v =
    if over || ltb_ℤ v.trust_score bd.minimum_trust_score
    then (record v { is_banned = true; ban_until = now + bd.ban_duration }, true)
    else (v, false)

unfoldable pub store :
    ByzantineDetector → Bytes → ByzantineEvidence → ValidatorBehavior → ByzantineDetector
store bd id evidence v = record bd {
  validators = insert id v bd.validators;
  evidence_log = bd.evidence_log ++ (evidence ∷ []);
}

-- IsValidatorTrusted: an expired ban is lifted and the score reset.
unfoldable pub is_validator_trusted :
    ByzantineDetector → (now : ℕ) → Bytes → ByzantineDetector × Bool
is_validator_trusted bd now id = elim (lookup id bd.validators) [
  | none ↦ (bd, true)
  | some v ↦
      let restored : ValidatorBehavior = record v {
        is_banned = false;
        trust_score = bd.minimum_trust_score +ℤ pos 10;
      } in
      if v.is_banned
      then (if ltb now v.ban_until then (bd, false) else (
        record bd { validators = insert id restored bd.validators },
        not (ltb_ℤ restored.trust_score bd.minimum_trust_score),
      ))
      else (bd, not (ltb_ℤ v.trust_score bd.minimum_trust_score))
]

unfoldable pub get_validator_trust_score : ByzantineDetector → Bytes → ℤ
get_validator_trust_score bd id = elim (lookup id bd.validators) [
  | none ↦ bd.initial_trust_score
  | some v ↦ v.trust_score
]

-- RecordGoodBehavior
unfoldable pub record_good_behavior : ByzantineDetector → Bytes → ByzantineDetector
record_good_behavior bd id =
    let v = find_validator bd id in
    let score =
      if ltb_ℤ v.trust_score bd.initial_trust_score
      then v.trust_score +ℤ pos 1
      else v.trust_score in
    record bd {
      validators =
          insert id (record v { total_blocks = v.total_blocks + 1; trust_score = score })
            bd.validators;
    }

-- GetByzantineEvidence
unfoldable pub get_byzantine_evidence : ByzantineDetector → Bytes → List ByzantineEvidence
get_byzantine_evidence bd id = select (λ ev. bytes_equal ev.validator_id id) bd.evidence_log
