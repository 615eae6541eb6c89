-- ===== src/RateLimiter/Bans.antt =====
-- rnr/pkg/network/p2p_ratelimit.go: when a peer is banned and what a ban does.
use route_n_root.Prelude.{
  ℕ, ◌+◌, ◌≤◌, ◌<◌, ◌≡◌, refl, inl, inr, Option-cases, true, none, some, Bytes, lookup,
  lookup-insert, lookup-insert_self, ◌↔◌, bytes_key, bytes_equal_iff, if◌then◌else◌, ltb, lt→ltb,
  arith,
}
use mathlib.Core.Path.{subst}
use route_n_root.Core.{second}
use route_n_root.RateLimiter.{
  RateLimiter, PeerLimit, is_banned_now, step_request, find_limit, allow_request, step_bytes,
  allow_bytes, ban_peer, get_peer_limit,
}

-- The record that a ban leaves.
ban_peer-lookup :
    (rl : RateLimiter) (now duration : ℕ) (peer : Bytes)
    → (p : PeerLimit) × (lookup peer (ban_peer rl now peer duration).limits ≡ some p)
      × (p.is_banned ≡ true)
      × (p.ban_expiry ≡ now + duration)
unfolding ban_peer
ban_peer-lookup rl now duration peer = (_, lookup-insert_self peer _ rl.limits, refl, refl)

module _ (tokens_for : ℕ → ℕ → ℕ) where
  banned_is_refused :
      (rl : RateLimiter) (now : ℕ) (peer other : Bytes) (p : PeerLimit)
      → lookup peer rl.limits ≡ some p
      → p.is_banned ≡ true
      → now < p.ban_expiry
      → ((allow_request tokens_for rl now peer).1 ≡ some is_banned_now)
        × (get_peer_limit (allow_request tokens_for rl now peer).0 other ≡ get_peer_limit rl other)
  unfolding allow_request step_request find_limit get_peer_limit
  banned_is_refused rl now peer other p found banned early =
      let stays = lt→ltb now p.ban_expiry early in
      (
        rw (found, banned, stays, allow_request, find_limit, step_request) refl,
        ground (
          arith,
          found,
          banned,
          stays,
          bytes_equal_iff peer other,
          lookup-insert peer other p rl.limits,
        ),
      )

  -- A request of a banned peer, before the ban ends, is refused as banned and changes no peer's record.
  ban_peer-refuses :
      (rl : RateLimiter) (banned_at now duration : ℕ) (peer other : Bytes)
      → now < banned_at + duration
      → ((allow_request tokens_for (ban_peer rl banned_at peer duration) now peer).1
          ≡ some is_banned_now)
        × (get_peer_limit
              (allow_request tokens_for (ban_peer rl banned_at peer duration) now peer).0
              other
            ≡ get_peer_limit (ban_peer rl banned_at peer duration) other)
  ban_peer-refuses rl banned_at now duration peer other early =
      let (p, found, banned, until) = ban_peer-lookup rl banned_at duration peer in
      banned_is_refused (ban_peer rl banned_at peer duration) now peer other p found banned
        (omega arith)

abbrev pub bytes_so_far : PeerLimit → ℕ → ℕ
bytes_so_far p now = if ltb (p.last_byte_reset + second) now then 0 else p.bytes_this_second

step_bytes-accepts_iff :
    (rl : RateLimiter) (now bytes : ℕ) (p : PeerLimit)
    → ((step_bytes rl now bytes p).1 ≡ none)
      ↔ (bytes_so_far p now + bytes ≤ rl.max_bytes_per_second)
unfolding step_bytes
step_bytes-accepts_iff rl now bytes p = ((λ h. ground (arith, h)), λ h. ground (arith, h))

-- A transfer is accepted exactly when the peer has a record and the bytes that count in the current second, together
-- with these, are within the allowance.
allow_bytes-accepts_iff :
    (rl : RateLimiter) (now bytes : ℕ) (peer : Bytes)
    → ((allow_bytes rl now peer bytes).1 ≡ none) ↔ (
        (p : PeerLimit) × (get_peer_limit rl peer ≡ some p)
        × (bytes_so_far p now + bytes ≤ rl.max_bytes_per_second))
unfolding allow_bytes get_peer_limit
allow_bytes-accepts_iff rl now bytes peer = elim (Option-cases (lookup peer rl.limits)) [
  | inl missing ↦ ((λ h. cc (rw (missing, allow_bytes) at h)), λ h. let e = h.1 in cc)
  | inr (p, found) ↦ (
    (λ h. (p, found, (step_bytes-accepts_iff rl now bytes p).0 (rw (found, allow_bytes) at h))),
    λ h.
        let q : PeerLimit = h.0 in
        let same : q ≡ p = cc in
        rw (found, allow_bytes)
          ((step_bytes-accepts_iff rl now bytes p).1
            (subst (λ r. bytes_so_far r now + bytes ≤ rl.max_bytes_per_second) same h.2)),
  )
]
