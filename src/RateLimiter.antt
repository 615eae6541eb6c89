-- ===== src/RateLimiter.antt =====
-- rnr/pkg/network/p2p_ratelimit.go: a token bucket and a byte counter for each peer.
-- `tokens_for elapsed rate` stands for Go's int(elapsed.Minutes() * float64(rate)), whose rounding
-- no property here depends on. Burst size and byte counts are taken as not negative, and the bytes
-- of a second as fewer than 2 ^ 63, where the code's int64 would wrap.
pub mod Bounds
pub mod Bans
use route_n_root.Prelude.{
  ℕ, suc, ◌+◌, ◌-◌, ◌*◌, Bool, true, false, not, ◌&&◌, ◌||◌, Option, none, some, List, [], ◌∷◌,
  Bytes, Map, lookup, insert, keep, bytes_key, if◌then◌else◌, ltb, leb, ◌==◌,
}
use route_n_root.Core.{second, minute}

pub data Refusal : Type 0 where
  is_banned_now rate_exceeded banned_for_rate : Refusal
  not_initialized bandwidth_exceeded banned_for_bandwidth : Refusal

pub record PeerLimit : Type 0 where
  pub tokens : ℕ
  pub last_refill : ℕ
  pub bytes_this_second : ℕ
  pub last_byte_reset : ℕ
  pub violation_count : ℕ
  pub last_violation : ℕ
  pub is_banned : Bool
  pub ban_expiry : ℕ

pub record RateLimiter : Type 0 where
  pub limits : Map Bytes PeerLimit
  pub max_requests_per_minute : ℕ
  pub max_bytes_per_second : ℕ
  pub burst_size : ℕ

unfoldable pub new_rate_limiter : ℕ → ℕ → ℕ → RateLimiter
new_rate_limiter max_requests burst max_bytes = record {
  limits = [];
  max_requests_per_minute = max_requests;
  max_bytes_per_second = max_bytes;
  burst_size = burst;
}

unfoldable pub new_peer_limit : ℕ → ℕ → PeerLimit
new_peer_limit burst now = record {
  tokens = burst;
  last_refill = now;
  bytes_this_second = 0;
  last_byte_reset = now;
  violation_count = 0;
  last_violation = 0;
  is_banned = false;
  ban_expiry = 0;
}

-- The refill of AllowRequest: `added` tokens, capped at the burst size.
unfoldable pub refill : ℕ → ℕ → ℕ → PeerLimit → PeerLimit
refill burst added now p =
    if ltb 0 added
    then record p {
      tokens = if ltb burst (p.tokens + added) then burst else p.tokens + added;
      last_refill = now;
    }
    else p

-- The end of AllowRequest: a token is spent, or the violation is counted.
unfoldable pub spend : ℕ → PeerLimit → PeerLimit × Option Refusal
spend now p =
    let violated : PeerLimit = record p {
      violation_count = p.violation_count + 1;
      last_violation = now;
    } in
    if p.tokens == 0
    then (if leb 5 (p.violation_count + 1)
        then (
          record violated { is_banned = true; ban_expiry = now + 10 * minute },
          some banned_for_rate,
        )
        else (violated, some rate_exceeded))
    else (record p { tokens = p.tokens - 1 }, none)

-- AllowRequest on a peer's own record.
unfoldable pub step_request : (ℕ → ℕ → ℕ) → RateLimiter → ℕ → PeerLimit → PeerLimit × Option Refusal
step_request tokens_for rl now p =
    let unbanned : PeerLimit = record p { is_banned = false; violation_count = 0 } in
    let go = λ (q : PeerLimit).
      spend now (
        refill rl.burst_size (tokens_for (now - q.last_refill) rl.max_requests_per_minute) now q) in
    if p.is_banned
    then (if ltb now p.ban_expiry then (p, some is_banned_now) else go unbanned)
    else go p

unfoldable pub find_limit : RateLimiter → ℕ → Bytes → PeerLimit
find_limit rl now peer = elim (lookup peer rl.limits) [
  | none ↦ new_peer_limit rl.burst_size now
  | some p ↦ p
]

unfoldable pub allow_request : (ℕ → ℕ → ℕ) → RateLimiter → ℕ → Bytes → RateLimiter × Option Refusal
allow_request tokens_for rl now peer =
    let (p, refusal) = step_request tokens_for rl now (find_limit rl now peer) in
    (record rl { limits = insert peer p rl.limits }, refusal)

-- AllowBytes on a peer's own record.
unfoldable pub step_bytes : RateLimiter → ℕ → ℕ → PeerLimit → PeerLimit × Option Refusal
step_bytes rl now bytes p =
    let q : PeerLimit =
      if ltb (p.last_byte_reset + second) now
      then record p { bytes_this_second = 0; last_byte_reset = now }
      else p in
    let violated : PeerLimit = record q {
      violation_count = q.violation_count + 1;
      last_violation = now;
    } in
    if ltb rl.max_bytes_per_second (q.bytes_this_second + bytes)
    then (if leb 3 (q.violation_count + 1)
        then (
          record violated { is_banned = true; ban_expiry = now + 5 * minute },
          some banned_for_bandwidth,
        )
        else (violated, some bandwidth_exceeded))
    else (record q { bytes_this_second = q.bytes_this_second + bytes }, none)

unfoldable pub allow_bytes : RateLimiter → ℕ → Bytes → ℕ → RateLimiter × Option Refusal
allow_bytes rl now peer bytes = elim (lookup peer rl.limits) [
  | none ↦ (rl, some not_initialized)
  | some p ↦
      let (q, refusal) = step_bytes rl now bytes p in
      (record rl { limits = insert peer q rl.limits }, refusal)
]

unfoldable pub get_peer_limit : RateLimiter → Bytes → Option PeerLimit
get_peer_limit rl peer = lookup peer rl.limits

unfoldable pub reset_peer : RateLimiter → Bytes → RateLimiter
reset_peer rl peer = elim (lookup peer rl.limits) [
  | none ↦ rl
  | some p ↦ record rl {
    limits =
        insert peer (record p { tokens = rl.burst_size; violation_count = 0; is_banned = false })
          rl.limits;
  }
]

-- A peer record that BanPeer creates has only its name set.
unfoldable pub blank_limit : PeerLimit
blank_limit = record {
  tokens = 0;
  last_refill = 0;
  bytes_this_second = 0;
  last_byte_reset = 0;
  violation_count = 0;
  last_violation = 0;
  is_banned = false;
  ban_expiry = 0;
}

unfoldable pub ban_peer : RateLimiter → ℕ → Bytes → ℕ → RateLimiter
ban_peer rl now peer duration =
    let p = elim (lookup peer rl.limits) as (λ _. PeerLimit) [ none ↦ blank_limit | some q ↦ q ] in
    record rl {
      limits = insert peer (record p { is_banned = true; ban_expiry = now + duration }) rl.limits;
    }

unfoldable pub cleanup_old_limits : RateLimiter → ℕ → RateLimiter
cleanup_old_limits rl now = record rl {
  limits = keep (λ _ p. p.is_banned || leb now (p.last_refill + 10 * minute)) rl.limits;
}

unfoldable pub get_banned_peers : RateLimiter → ℕ → Map Bytes PeerLimit
get_banned_peers rl now = keep (λ _ p. p.is_banned && ltb now p.ban_expiry) rl.limits
