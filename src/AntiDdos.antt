-- ===== src/AntiDdos.antt =====
-- rnr/pkg/consensus/anti_ddos.go: challenges to testers and their hourly limits.
-- The 32 random bytes of a nonce are an argument, `none` where rand.Read fails. Each method reads
-- the clock once, as `now`. Limits are taken as not negative; the reputation threshold, a float64,
-- is a comparison the caller passes.
pub mod Challenges
use route_n_root.Prelude.{
  ℕ, ◌+◌, ◌-◌, Bool, true, false, not, ◌&&◌, ◌||◌, Option, none, some, List, [], ◌∷◌, ◌++◌, Bytes,
  Map, lookup, insert, erase, keep, length, bytes_key, bytes_equal, if◌then◌else◌, ltb, leb, ◌*◌,
}
use route_n_root.Prelude.Result.{Result, ok, err}
use route_n_root.Prelude.Text.{codes, decimal, encode_to_string}
use route_n_root.Core.{second, minute, hour}
use route_n_root.Platform.{Sha256}

pub data ChallengeError : Type 0 where
  rate_limited no_nonce not_found already_completed expired invalid_response : ChallengeError

pub record Challenge : Type 0 where
  pub challenge_id : Bytes
  pub candidate_id : Bytes
  pub tester_id : Bytes
  pub nonce : Bytes
  pub expected_hash : Bytes
  pub created_at : ℕ
  pub expires_at : ℕ
  pub completed : Bool

pub record RateLimit : Type 0 where
  pub request_count : ℕ
  pub window_start : ℕ
  pub last_request_at : ℕ

pub record AntiDdosManager : Type 0 where
  pub active_challenges : Map Bytes Challenge
  pub test_request_limits : Map Bytes RateLimit
  pub max_requests_per_hour : ℕ
  pub challenge_ttl : ℕ

unfoldable pub new_anti_ddos_manager : AntiDdosManager
new_anti_ddos_manager = record {
  active_challenges = [];
  test_request_limits = [];
  max_requests_per_hour = 10;
  challenge_ttl = 5 * minute;
}

-- `now.Sub(limit.WindowStart) > time.Hour`
unfoldable pub is_over : ℕ → RateLimit → Bool
is_over now limit = ltb (limit.window_start + hour) now

-- checkRateLimit, which resets a window that is over.
unfoldable pub check_rate_limit : AntiDdosManager → (now : ℕ) → Bytes → AntiDdosManager × Bool
check_rate_limit ad now tester = elim (lookup tester ad.test_request_limits) [
  | none ↦ (ad, true)
  | some limit ↦
      if is_over now limit
      then (
        record ad {
          test_request_limits =
              insert tester (record limit { request_count = 0; window_start = now })
                ad.test_request_limits;
        },
        true,
      )
      else (ad, ltb limit.request_count ad.max_requests_per_hour)
]

-- The change of updateRateLimit to a limit that exists.
unfoldable pub count_request : ℕ → RateLimit → RateLimit
count_request now limit =
    if is_over now limit
    then record limit { request_count = 1; window_start = now; last_request_at = now }
    else record limit { request_count = limit.request_count + 1; last_request_at = now }

-- updateRateLimit
unfoldable pub update_rate_limit : AntiDdosManager → (now : ℕ) → Bytes → AntiDdosManager
update_rate_limit ad now tester =
    let first : RateLimit = record {
      request_count = 1;
      window_start = now;
      last_request_at = now;
    } in
    record ad {
      test_request_limits =
          insert tester
            (elim (lookup tester ad.test_request_limits) as (λ _. RateLimit) [
              | none ↦ first
              | some limit ↦ count_request now limit
            ])
            ad.test_request_limits;
    }

-- ComputeChallengeResponse
unfoldable pub compute_challenge_response : Sha256 → (candidate tester nonce : Bytes) → Bytes
compute_challenge_response S candidate tester nonce =
    encode_to_string (S.sum ((candidate ++ nonce) ++ tester))

-- time.Time.UnixNano, of a time given in nanoseconds since the year 1, from 1970 to 2262.
abbrev pub unix_nano : ℕ → ℕ
unix_nano now = now - 62_135_596_800 * second

unfoldable pub new_challenge :
    Sha256 → AntiDdosManager → (now : ℕ) → (candidate tester nonce : Bytes) → Challenge
new_challenge S ad now candidate tester nonce = record {
  challenge_id = candidate ++ codes "-" ++ tester ++ codes "-" ++ decimal (unix_nano now);
  candidate_id = candidate;
  tester_id = tester;
  nonce = nonce;
  expected_hash = encode_to_string (S.sum ((candidate ++ nonce) ++ tester));
  created_at = now;
  expires_at = now + ad.challenge_ttl;
  completed = false;
}

-- GenerateChallenge
unfoldable pub generate_challenge :
    Sha256
    → AntiDdosManager
    → (now : ℕ) → (candidate tester : Bytes) → Option Bytes
    → AntiDdosManager × Result ChallengeError Challenge
generate_challenge S ad now candidate tester random =
    let (ad', free) = check_rate_limit ad now tester in
    if free
    then (elim random [
      | none ↦ (ad', err no_nonce)
      | some nonce ↦
          let challenge = new_challenge S ad' now candidate tester nonce in
          (
            update_rate_limit
                (record ad' {
                  active_challenges = insert challenge.challenge_id challenge ad'.active_challenges;
                })
                now tester,
            ok challenge,
          )
    ])
    else (ad', err rate_limited)

-- VerifyChallenge
unfoldable pub verify_challenge :
    AntiDdosManager
    → (now : ℕ) → (challenge_id response : Bytes) → AntiDdosManager × Result ChallengeError Bool
verify_challenge ad now challenge_id response = elim (lookup challenge_id ad.active_challenges) [
  | none ↦ (ad, err not_found)
  | some challenge ↦
      if challenge.completed
      then (ad, err already_completed)
      else if ltb challenge.expires_at now
      then (record ad { active_challenges = erase challenge_id ad.active_challenges }, err expired)
      else if bytes_equal challenge.expected_hash response
      then (
        record ad {
          active_challenges =
              insert challenge_id (record challenge { completed = true }) ad.active_challenges;
        },
        ok true,
      )
      else (ad, err invalid_response)
]

-- GetRemainingTests
unfoldable pub get_remaining_tests : AntiDdosManager → (now : ℕ) → Bytes → ℕ
get_remaining_tests ad now tester = elim (lookup tester ad.test_request_limits) [
  | none ↦ ad.max_requests_per_hour
  | some limit ↦
      if is_over now limit
      then ad.max_requests_per_hour
      else ad.max_requests_per_hour - limit.request_count
]

-- CleanupExpiredChallenges, with the number of challenges removed.
unfoldable pub cleanup_expired_challenges : AntiDdosManager → (now : ℕ) → AntiDdosManager × ℕ
cleanup_expired_challenges ad now =
    let left = keep (λ _ c. not (ltb c.expires_at now || c.completed)) ad.active_challenges in
    (record ad { active_challenges = left }, length ad.active_challenges - length left)

unfoldable pub set_rate_limit : AntiDdosManager → ℕ → AntiDdosManager
set_rate_limit ad max_requests = record ad { max_requests_per_hour = max_requests }

unfoldable pub set_challenge_ttl : AntiDdosManager → ℕ → AntiDdosManager
set_challenge_ttl ad ttl = record ad { challenge_ttl = ttl }
