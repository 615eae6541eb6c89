-- ===== src/AntiDdos/Challenges.antt =====
-- rnr/pkg/consensus/anti_ddos.go: a challenge is answered once, and requests are limited.
use mathlib.Core.Path.{subst}
use route_n_root.Prelude.{
  ℕ, ◌+◌, ◌≤◌, ◌≡◌, refl, sym, ◌⊎◌, inl, inr, true, false, Option, none, some, Bytes, Bool-cases,
  Option-cases, bytes_equal, lookup, insert, lookup-insert_self, bytes_key, ltb, arith, same_refl,
  suc,
}
use route_n_root.Prelude.Result.{ok, err}
use route_n_root.Platform.{Sha256}
use route_n_root.AntiDdos.{
  Challenge, RateLimit, AntiDdosManager, already_completed, rate_limited, is_over, check_rate_limit,
  count_request, update_rate_limit, compute_challenge_response, new_challenge, generate_challenge,
  verify_challenge, get_remaining_tests,
}

bytes_equal_refl : (x : Bytes) → bytes_equal x x ≡ true
bytes_equal_refl x = same_refl x

-- What GenerateChallenge stores.
generate_challenge-stores :
    (S : Sha256) (ad : AntiDdosManager) (now : ℕ) (candidate tester : Bytes) (random : Option Bytes)
    (c : Challenge)
    → (generate_challenge S ad now candidate tester random).1 ≡ ok c
    → (lookup c.challenge_id
          (generate_challenge S ad now candidate tester random).0.active_challenges
        ≡ some c)
      × (c.completed ≡ false)
      × (c.expected_hash ≡ compute_challenge_response S candidate tester c.nonce)
unfolding generate_challenge update_rate_limit new_challenge compute_challenge_response
generate_challenge-stores S ad now candidate tester none c h = ground arith
generate_challenge-stores S ad now candidate tester (some nonce) c h =
    let ad' = (check_rate_limit ad now tester).0 in
    let new = new_challenge S ad' now candidate tester nonce in
    elim (Bool-cases (check_rate_limit ad now tester).1) [
      | inl free ↦
          let made : new ≡ c = cc in
          subst
            (λ c.
              (lookup c.challenge_id
                  (generate_challenge S ad now candidate tester (some nonce)).0.active_challenges
                ≡ some c)
              × (c.completed ≡ false)
              × (c.expected_hash ≡ compute_challenge_response S candidate tester c.nonce))
            made
            (rw (free, generate_challenge)
              (lookup-insert_self new.challenge_id new ad'.active_challenges, refl, refl))
      | inr limited ↦ cc (rw (limited, generate_challenge) at h)
    ]

verify_challenge_once :
    (ad : AntiDdosManager) (later again : ℕ) (c : Challenge)
    → lookup c.challenge_id ad.active_challenges ≡ some c
    → c.completed ≡ false
    → later ≤ c.expires_at
    → let (verified, answer) = verify_challenge ad later c.challenge_id c.expected_hash in
      (answer ≡ ok true)
      × (verify_challenge verified again c.challenge_id c.expected_hash
          ≡ (verified, err already_completed))
unfolding verify_challenge
verify_challenge_once ad later again c found fresh early =
    let still : ltb c.expires_at later ≡ false = ground arith in
    let c' : Challenge = record c { completed = true } in
    let done : AntiDdosManager = record ad {
      active_challenges = insert c.challenge_id c' ad.active_challenges;
    } in
    let first : verify_challenge ad later c.challenge_id c.expected_hash ≡ (done, ok true) =
      rw (found, fresh, still, bytes_equal_refl c.expected_hash, verify_challenge) refl in
    let second : verify_challenge done again c.challenge_id c.expected_hash
        ≡ (done, err already_completed) =
      rw (lookup-insert_self c.challenge_id c' ad.active_challenges, verify_challenge) refl in
    subst
      (λ r.
        (r.1 ≡ ok true)
        × (verify_challenge r.0 again c.challenge_id c.expected_hash
            ≡ (r.0, err already_completed)))
      (sym first) (refl, second)

-- A new challenge is stored, and the response that ComputeChallengeResponse gives is accepted until it expires; the same response is then refused
-- as already completed.
pub generate_challenge-verify :
    (S : Sha256) (ad : AntiDdosManager) (now later again : ℕ) (candidate tester : Bytes)
    (random : Option Bytes) (c : Challenge)
    → (generate_challenge S ad now candidate tester random).1 ≡ ok c
    → later ≤ c.expires_at
    → let ad' = (generate_challenge S ad now candidate tester random).0 in
      let response = compute_challenge_response S candidate tester c.nonce in
      let (verified, answer) = verify_challenge ad' later c.challenge_id response in
      (answer ≡ ok true)
      × (verify_challenge verified again c.challenge_id response
          ≡ (verified, err already_completed))
generate_challenge-verify S ad now later again candidate tester random c h early =
    let (found, fresh, expected) = generate_challenge-stores S ad now candidate tester random c h in
    let ad' = (generate_challenge S ad now candidate tester random).0 in
    subst
      (λ response.
        let (verified, answer) = verify_challenge ad' later c.challenge_id response in
        (answer ≡ ok true)
        × (verify_challenge verified again c.challenge_id response
            ≡ (verified, err already_completed)))
      expected (verify_challenge_once ad' later again c found fresh early)

-- Where the hourly limit is at least one, each challenge uses up one of the tester's tests, and is refused only if none is left.
generate_challenge-remaining :
    (S : Sha256) (ad : AntiDdosManager) (now : ℕ) (candidate tester nonce : Bytes)
    → 1 ≤ ad.max_requests_per_hour
    → let (ad', answer) = generate_challenge S ad now candidate tester (some nonce) in
      ((get_remaining_tests ad now tester ≡ 0)
        × (answer ≡ err rate_limited)
        × (get_remaining_tests ad' now tester ≡ 0))
      ⊎ ((answer ≡ ok (new_challenge S ad now candidate tester nonce))
          × (get_remaining_tests ad now tester ≡ suc (get_remaining_tests ad' now tester)))
unfolding generate_challenge check_rate_limit get_remaining_tests is_over update_rate_limit
    count_request new_challenge
generate_challenge-remaining S ad now candidate tester nonce h =
    let limits = ad.test_request_limits in
    elim (Option-cases (lookup tester limits)) [
      | inl fresh ↦
          let first : RateLimit = record {
            request_count = 1;
            window_start = now;
            last_request_at = now;
          } in
          ground (arith, h, fresh, lookup-insert_self tester first limits)
      | inr (limit, found) ↦ elim (Bool-cases (is_over now limit)) [
        | inl over ↦
            let reset : RateLimit = record limit { request_count = 0; window_start = now } in
            let once : RateLimit = record reset { request_count = 1; last_request_at = now } in
            ground (
              arith,
              h,
              found,
              over,
              lookup-insert_self tester reset limits,
              lookup-insert_self tester once (insert tester reset limits),
            )
        | inr running ↦
            let more : RateLimit = record limit {
              request_count = limit.request_count + 1;
              last_request_at = now;
            } in
            ground (arith, h, found, running, lookup-insert_self tester more limits)
      ]
    ]
