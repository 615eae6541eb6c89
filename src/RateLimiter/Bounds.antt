-- ===== src/RateLimiter/Bounds.antt =====
-- rnr/pkg/network/p2p_ratelimit.go: buckets never overflow, and bound what is accepted.
use route_n_root.Prelude.{
  ℕ, ◌≤◌, inl, inr, Option-cases, List, [], ◌∷◌, Bytes, lookup, All, All-insert, All-keep,
  All-lookup, bytes_key, arith,
}
use route_n_root.RateLimiter.{
  RateLimiter, PeerLimit, new_rate_limiter, new_peer_limit, refill, spend, step_request, find_limit,
  allow_request, step_bytes, allow_bytes, reset_peer, blank_limit, ban_peer, cleanup_old_limits,
}

-- A peer's bucket holds at most a burst, and its byte counter at most a second's allowance.
abbrev pub Fits : RateLimiter → PeerLimit → Type 0
Fits rl p = (p.tokens ≤ rl.burst_size) × (p.bytes_this_second ≤ rl.max_bytes_per_second)

abbrev pub IsBounded : RateLimiter → Type 0
IsBounded rl = All (λ entry. Fits rl (entry.1)) rl.limits

-- A call of the public interface, with its time.
pub data Call : Type 0 where
  request : (now : ℕ) (peer : Bytes) → Call
  send : (now : ℕ) (peer : Bytes) (bytes : ℕ) → Call
  reset : (peer : Bytes) → Call
  ban : (now : ℕ) (peer : Bytes) (duration : ℕ) → Call
  cleanup : (now : ℕ) → Call

module _ (tokens_for : ℕ → ℕ → ℕ) where
  pub apply : RateLimiter → Call → RateLimiter
  apply rl (request now peer) = (allow_request tokens_for rl now peer).0
  apply rl (send now peer bytes) = (allow_bytes rl now peer bytes).0
  apply rl (reset peer) = reset_peer rl peer
  apply rl (ban now peer duration) = ban_peer rl now peer duration
  apply rl (cleanup now) = cleanup_old_limits rl now

  pub run : RateLimiter → List Call → RateLimiter
  run rl [] = rl
  run rl (c ∷ cs) = run (apply rl c) cs

  step_request-Fits :
      (rl : RateLimiter) (now : ℕ) (p : PeerLimit)
      → Fits rl p
      → Fits rl (step_request tokens_for rl now p).0
  unfolding step_request refill spend
  step_request-Fits rl now p f = ground arith

  find_limit-Fits :
      (rl : RateLimiter) (now : ℕ) (peer : Bytes) → IsBounded rl → Fits rl (find_limit rl now peer)
  unfolding find_limit new_peer_limit
  find_limit-Fits rl now peer b = elim (Option-cases (lookup peer rl.limits)) [
    | inl fresh ↦ rw (fresh, find_limit) (omega arith)
    | inr (p, found) ↦ rw (found, find_limit) (All-lookup (Fits rl) peer p rl.limits b found)
  ]

  step_bytes-Fits :
      (rl : RateLimiter) (now bytes : ℕ) (p : PeerLimit)
      → Fits rl p
      → Fits rl (step_bytes rl now bytes p).0
  unfolding step_bytes
  step_bytes-Fits rl now bytes p f = ground arith

  apply-IsBounded : (rl : RateLimiter) (c : Call) → IsBounded rl → IsBounded (apply rl c)
  unfolding apply allow_request allow_bytes reset_peer ban_peer blank_limit cleanup_old_limits
  apply-IsBounded rl (request now peer) b =
      All-insert (λ entry. Fits rl (entry.1)) peer _ rl.limits
        (λ _. step_request-Fits rl now (find_limit rl now peer) (find_limit-Fits rl now peer b)) b
  apply-IsBounded rl (send now peer bytes) b = elim (Option-cases (lookup peer rl.limits)) [
    | inl missing ↦ rw (missing, apply, allow_bytes) b
    | inr (p, found) ↦
        rw (found, apply, allow_bytes)
          (All-insert (λ entry. Fits rl (entry.1)) peer _ rl.limits
            (λ _. step_bytes-Fits rl now bytes p (All-lookup (Fits rl) peer p rl.limits b found)) b)
  ]
  apply-IsBounded rl (reset peer) b = elim (Option-cases (lookup peer rl.limits)) [
    | inl missing ↦ rw (missing, apply, reset_peer) b
    | inr (p, found) ↦
        let f = All-lookup (Fits rl) peer p rl.limits b found in
        rw (found, apply, reset_peer)
          (All-insert (λ entry. Fits rl (entry.1)) peer _ rl.limits (λ _. omega arith) b)
  ]
  apply-IsBounded rl (ban now peer duration) b = elim (Option-cases (lookup peer rl.limits)) [
    | inl missing ↦
        rw (missing, apply, ban_peer)
          (All-insert (λ entry. Fits rl (entry.1)) peer _ rl.limits (λ _. omega arith) b)
    | inr (p, found) ↦
        let f = All-lookup (Fits rl) peer p rl.limits b found in
        rw (found, apply, ban_peer)
          (All-insert (λ entry. Fits rl (entry.1)) peer _ rl.limits (λ _. f) b)
  ]
  apply-IsBounded rl (cleanup now) b = All-keep (λ entry. Fits rl (entry.1)) _ rl.limits b

  run-IsBounded : (rl : RateLimiter) (cs : List Call) → IsBounded rl → IsBounded (run rl cs)
  unfolding run
  run-IsBounded rl [] b = b
  run-IsBounded rl (c ∷ cs) b = run-IsBounded (apply rl c) cs (apply-IsBounded rl c b)

  -- After any calls, no bucket of a new limiter holds more than a burst of tokens and no byte
  -- counter exceeds the allowance.
  pub rate_limiter-IsBounded :
      (max_requests burst max_bytes : ℕ) (cs : List Call)
      → IsBounded (run (new_rate_limiter max_requests burst max_bytes) cs)
  unfolding new_rate_limiter
  rate_limiter-IsBounded max_requests burst max_bytes cs =
      run-IsBounded (new_rate_limiter max_requests burst max_bytes) cs tt
