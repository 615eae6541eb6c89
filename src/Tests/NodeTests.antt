-- ===== src/Tests/NodeTests.antt =====
-- Tests of the parts that judge peers and validators.
use route_n_root.Prelude.{
  ℕ, ◌*◌, ◌≤◌, ◌<◌, ◌≡◌, ◌↔◌, refl, true, false, some, List, [], ◌∷◌, ◌++◌, Bytes, All, lookup,
  is_some, bytes_key, arith,
}
use route_n_root.Prelude.Result.{ok, err}
use route_n_root.Prelude.Text.{codes}
use route_n_root.RateLimiter.{new_rate_limiter}
use route_n_root.RateLimiter.Bounds
use route_n_root.RateLimiter.Bounds.{IsBounded, request, send, ban, rate_limiter-IsBounded}
use route_n_root.Byzantine.{new_byzantine_detector}
use route_n_root.Byzantine.Trust
use route_n_root.Byzantine.Trust.{IsJudged, double, conflict, good, byzantine_detector_judges}
use route_n_root.IpReputation.{
  Net, new_reputation_system, record_misbehavior, check_ip_allowed, blacklisted,
}
use route_n_root.IpReputation.Score.{record_misbehavior-refuses}
use route_n_root.AntiDdos.{
  new_anti_ddos_manager, new_challenge, generate_challenge, check_rate_limit, verify_challenge,
  compute_challenge_response, already_completed,
}
use route_n_root.AntiDdos.Challenges.{generate_challenge-verify}
use route_n_root.Partition.{
  PartitionDetector, healthy, check_partition_status, should_halt_consensus,
}
use route_n_root.Partition.Halt.{active_count, check_partition_status_lem}
use route_n_root.Gossip.{GossipMessage, new_gossip_protocol, create_message, should_process}
use route_n_root.Prelude.Int.{pos}
use route_n_root.Core.{minute}
use route_n_root.Gossip.Once.{IsOrdered, Call, receive, clean, run, should_process_once}
use route_n_root.Tests.Fixtures.{padded, alice, bob}

-- One token for each minute and request that a peer may make in it.
abbrev whole_minutes : ℕ → ℕ → ℕ
whole_minutes elapsed rate = elapsed * rate

rate_limiter-IsBounded_example : IsBounded (
    Bounds.run whole_minutes (new_rate_limiter 60 2 100) (
      request 1 alice
      ∷ request 2 alice
      ∷ request 3 alice
      ∷ send 4 alice 90
      ∷ send 5 alice 90
      ∷ ban 6 bob 9
      ∷ []))
rate_limiter-IsBounded_example = rate_limiter-IsBounded whole_minutes 60 2 100 (
    request 1 alice
    ∷ request 2 alice
    ∷ request 3 alice
    ∷ send 4 alice 90
    ∷ send 5 alice 90
    ∷ ban 6 bob 9
    ∷ [])

byzantine_detector_judges_example :
    All
      (λ entry. IsJudged (entry.1))
      (Trust.run padded new_byzantine_detector (
        double 1 alice 7 [] (1 ∷ [])
        ∷ double 2 alice 8 [] (1 ∷ [])
        ∷ double 3 alice 9 [] (1 ∷ [])
        ∷ good bob
        ∷ [])).validators
byzantine_detector_judges_example = byzantine_detector_judges padded (
    double 1 alice 7 [] (1 ∷ [])
    ∷ double 2 alice 8 [] (1 ∷ [])
    ∷ double 3 alice 9 [] (1 ∷ [])
    ∷ good bob
    ∷ [])

-- Addresses of four bytes, whose subnet is their first three.
abbrev small_net : Net
small_net = record { string = λ ip. ip; is_ipv4 = λ _. true; masked = λ ip _ _. ip }

record_misbehavior-refuses_example :
    let irs' =
      record_misbehavior small_net new_reputation_system 1 alice bob 9 (codes "forged vote") in
    check_ip_allowed small_net irs' 1_000 alice
    ≡ (irs', blacklisted (codes "Critical attack: " ++ codes "forged vote"))
record_misbehavior-refuses_example =
    record_misbehavior-refuses small_net new_reputation_system 1 1_000 alice bob 9
      (codes "forged vote") (omega arith) (omega arith)

abbrev nonce : Bytes
nonce = 3 ∷ 1 ∷ []

generate_challenge-verify_example :
    let c = new_challenge padded new_anti_ddos_manager 5 alice bob nonce in
    let ad' = (generate_challenge padded new_anti_ddos_manager 5 alice bob (some nonce)).0 in
    let response = compute_challenge_response padded alice bob c.nonce in
    let (verified, answer) = verify_challenge ad' 6 c.challenge_id response in
    (answer ≡ ok true)
    × (verify_challenge verified 7 c.challenge_id response ≡ (verified, err already_completed))
unfolding new_anti_ddos_manager new_challenge generate_challenge check_rate_limit lookup
generate_challenge-verify_example =
    generate_challenge-verify padded new_anti_ddos_manager 5 6 7 alice bob (some nonce)
      (new_challenge padded new_anti_ddos_manager 5 alice bob nonce) refl (omega arith)

abbrev three_validators : PartitionDetector
three_validators = record {
  peer_heartbeats = (alice, 50) ∷ (bob, 5) ∷ [];
  total_validators = 4;
  connected_peers = 2;
  status = healthy;
  heartbeat_timeout = 30;
}

check_partition_status_lem_example :
    let (pd', status) = check_partition_status three_validators 60 in
    ((should_halt_consensus pd' ≡ true)
      ↔ (active_count three_validators 60 * 100 < three_validators.total_validators * 33))
    × ((status ≡ healthy)
        ↔ (three_validators.total_validators * 67 ≤ active_count three_validators 60 * 100))
    × (pd'.connected_peers ≡ active_count three_validators 60)
check_partition_status_lem_example = check_partition_status_lem three_validators 60

abbrev hello : GossipMessage ℕ
hello = create_message (new_gossip_protocol 3 (pos 5)) alice (2 * minute) bob bob bob

abbrev greeting : GossipMessage ℕ
greeting = create_message (new_gossip_protocol 3 (pos 5)) bob (2 * minute) bob bob bob

abbrev gossip_calls : List (ℕ × Call ℕ)
gossip_calls = (2 * minute, receive greeting) ∷ (5 * minute, clean) ∷ (13 * minute, clean) ∷ []

should_process_once_example :
    (should_process
      (run (should_process (new_gossip_protocol 3 (pos 5)) (2 * minute) hello).0 gossip_calls)
      (14 * minute)
      hello).1
    ≡ false
unfolding new_gossip_protocol create_message should_process run IsOrdered lookup is_some
should_process_once_example =
    should_process_once (new_gossip_protocol 3 (pos 5)) (2 * minute) (14 * minute) gossip_calls
      hello tt (omega arith) refl (omega arith, (omega arith, (omega arith, omega arith)))
