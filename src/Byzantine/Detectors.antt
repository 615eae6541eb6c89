-- ===== src/Byzantine/Detectors.antt =====
-- rnr/pkg/consensus/byzantine_detection.go: the four detectors of misbehavior.
-- A detector returns an error always; its Boolean says whether the validator was banned.
use route_n_root.Prelude.{ℕ, ◌+◌, ◌*◌, Bool, true, ◌++◌, Bytes, leb}
use route_n_root.Prelude.Text.{codes, decimal, encode_to_string}
use route_n_root.Platform.{Sha256}
use route_n_root.Byzantine.{
  ByzantineEvidence, ValidatorBehavior, ByzantineDetector, double_vote, invalid_vrf,
  conflicting_block, speedtest_cheat, find_validator, penalize, ban_if, store,
}

-- createDoubleVoteProof and createConflictingBlockProof.
unfoldable pub create_double_vote_proof : Sha256 → ℕ → Bytes → Bytes → Bytes
create_double_vote_proof S height vote1 vote2 = S.sum (
    codes "double_vote_"
    ++ decimal height
    ++ codes "_"
    ++ encode_to_string vote1
    ++ codes "_"
    ++ encode_to_string vote2)

unfoldable pub create_conflicting_block_proof : Sha256 → ℕ → Bytes → Bytes → Bytes
create_conflicting_block_proof S height block1 block2 = S.sum (
    codes "conflicting_"
    ++ decimal height
    ++ codes "_"
    ++ encode_to_string block1
    ++ codes "_"
    ++ encode_to_string block2)

-- DetectDoubleVote
unfoldable pub detect_double_vote :
    Sha256
    → ByzantineDetector
    → (now : ℕ) → Bytes
    → (height : ℕ) → Bytes
    → Bytes
    → ByzantineDetector × Bool
detect_double_vote S bd now id height vote1 vote2 =
    let evidence : ByzantineEvidence = record {
      validator_id = id;
      evidence_type = double_vote;
      timestamp = now;
      proof = create_double_vote_proof S height vote1 vote2;
      severity = 10;
      description = codes "Double vote at height " ++ decimal height;
      verified = true;
    } in
    let v = find_validator bd id in
    let counted : ValidatorBehavior = record v { double_votes = v.double_votes + 1 } in
    let (v', banned) =
      ban_if bd now (leb bd.double_vote_threshold counted.double_votes) (penalize now 30 counted) in
    (store bd id evidence v', banned)

-- DetectInvalidVRF
unfoldable pub detect_invalid_vrf :
    ByzantineDetector → (now : ℕ) → Bytes → (proof : Bytes) → ByzantineDetector × Bool
detect_invalid_vrf bd now id proof =
    let evidence : ByzantineEvidence = record {
      validator_id = id;
      evidence_type = invalid_vrf;
      timestamp = now;
      proof = proof;
      severity = 9;
      description = codes "VRF verification failed - possible manipulation";
      verified = true;
    } in
    let v = find_validator bd id in
    let counted : ValidatorBehavior = record v { vrf_failures = v.vrf_failures + 1 } in
    let (v', banned) =
      ban_if bd now (leb bd.vrf_failure_threshold counted.vrf_failures) (penalize now 20 counted) in
    (store bd id evidence v', banned)

-- DetectConflictingBlocks: the ban is immediate and twice as long.
unfoldable pub detect_conflicting_blocks :
    Sha256
    → ByzantineDetector
    → (now : ℕ) → Bytes
    → (height : ℕ) → Bytes
    → Bytes
    → ByzantineDetector × Bool
detect_conflicting_blocks S bd now id height block1 block2 =
    let evidence : ByzantineEvidence = record {
      validator_id = id;
      evidence_type = conflicting_block;
      timestamp = now;
      proof = create_conflicting_block_proof S height block1 block2;
      severity = 10;
      description = codes "Conflicting blocks at height " ++ decimal height;
      verified = true;
    } in
    let v = find_validator bd id in
    let counted : ValidatorBehavior = record v { invalid_blocks = v.invalid_blocks + 1 } in
    (
      store bd id evidence (record (penalize now 35 counted) {
        is_banned = true;
        ban_until = now + bd.ban_duration * 2;
      }),
      true,
    )

-- DetectSpeedTestCheat
unfoldable pub detect_speed_test_cheat :
    ByzantineDetector → (now : ℕ) → Bytes → (cheat_type proof : Bytes) → ByzantineDetector × Bool
detect_speed_test_cheat bd now id cheat_type proof =
    let evidence : ByzantineEvidence = record {
      validator_id = id;
      evidence_type = speedtest_cheat;
      timestamp = now;
      proof = proof;
      severity = 8;
      description = codes "Speed test cheat: " ++ cheat_type;
      verified = true;
    } in
    let v = find_validator bd id in
    let counted : ValidatorBehavior = record v { speed_test_cheats = v.speed_test_cheats + 1 } in
    let (v', banned) =
      ban_if bd now (leb bd.speed_test_cheat_threshold counted.speed_test_cheats)
        (penalize now 25 counted) in
    (store bd id evidence v', banned)
