-- ===== src/Gossip.antt =====
-- rnr/pkg/network/gossip.go: the cache of seen messages and the choice of peers to pass one on to.
-- `V` is the type of a message's metadata values. The numbers that randomInt draws from
-- crypto/rand are a list, read in order. The fanout is taken as not negative.
pub mod Once
use route_n_root.Prelude.{
  ℕ, zero, suc, ◌+◌, ◌*◌, Bool, true, false, not, ◌&&◌, Option, none, some, List, [], ◌∷◌, Bytes,
  Map, lookup, insert, keep, is_some, bytes_key, bytes_equal, if◌then◌else◌, ltb, leb, ◌==◌, length,
  select,
}
use mathlib.Core.Option
use route_n_root.Prelude.Int.{ℤ, pos, ◌-ℤ◌, ltb_ℤ}
use route_n_root.Core.{minute}

pub record GossipMessage (V : Type 0) : Type 0 where
  pub message_id : Bytes
  pub message_type : Bytes
  pub payload : Bytes
  pub ttl : ℤ
  pub timestamp : ℕ
  pub sender_id : Bytes
  pub metadata : Map Bytes V

pub record GossipProtocol : Type 0 where
  pub seen_messages : Map Bytes ℕ
  pub fanout : ℕ
  pub max_ttl : ℤ
  pub cleanup_period : ℕ

pub record GossipStats : Type 0 where
  pub seen_count : ℕ
  pub stats_fanout : ℕ
  pub stats_max_ttl : ℤ

unfoldable pub new_gossip_protocol : ℕ → ℤ → GossipProtocol
new_gossip_protocol fanout max_ttl = record {
  seen_messages = [];
  fanout = fanout;
  max_ttl = max_ttl;
  cleanup_period = 5 * minute;
}

-- `used[i]`
unfoldable pub is_used : ℕ → List ℕ → Bool
is_used i [] = false
is_used i (j ∷ used) = if j == i then true else is_used i used

-- The loop of SelectPeersForGossip: `n` indices not used before, in the order of the draws, unless
-- the draws end first.
unfoldable pub sample : ℕ → List ℕ → List ℕ → Option (List ℕ)
sample zero used draws = some []
sample (suc n) used [] = none
sample (suc n) used (i ∷ draws) =
    let again = sample (suc n) used draws in
    let next = sample n (i ∷ used) draws in
    if is_used i used then again else Option.map (λ indices. i ∷ indices) next

-- `available[idx]`
unfoldable pub pick : List Bytes → ℕ → Bytes
pick [] i = []
pick (p ∷ peers) zero = p
pick (p ∷ peers) (suc i) = pick peers i

unfoldable pub picks : List Bytes → List ℕ → List Bytes
picks peers [] = []
picks peers (i ∷ indices) = pick peers i ∷ picks peers indices

-- The peers but the one excluded.
unfoldable pub available : List Bytes → Bytes → List Bytes
available all_peers exclude = select (λ p. not (bytes_equal p exclude)) all_peers

unfoldable pub select_peers_for_gossip :
    GossipProtocol → List Bytes → Bytes → List ℕ → Option (List Bytes)
select_peers_for_gossip gp all_peers exclude draws =
    let peers = available all_peers exclude in
    if leb (length peers) gp.fanout
    then some peers
    else Option.map (picks peers) (sample gp.fanout [] draws)

unfoldable pub get_stats : GossipProtocol → GossipStats
get_stats gp = record {
  seen_count = length gp.seen_messages;
  stats_fanout = gp.fanout;
  stats_max_ttl = gp.max_ttl;
}

-- A message is forgotten when it was processed more than ten minutes before.
unfoldable pub cleanup_old_messages : GossipProtocol → ℕ → GossipProtocol
cleanup_old_messages gp now = record gp {
  seen_messages = keep (λ _ at. leb now (at + 10 * minute)) gp.seen_messages;
}

module _ {V : Type 0} where
  unfoldable pub create_message :
      GossipProtocol → Bytes → ℕ → Bytes → Bytes → Bytes → GossipMessage V
  create_message gp fresh_id now kind payload sender_id = record {
    message_id = fresh_id;
    message_type = kind;
    payload = payload;
    ttl = gp.max_ttl;
    timestamp = now;
    sender_id = sender_id;
    metadata = [];
  }

  unfoldable pub should_process : GossipProtocol → ℕ → GossipMessage V → GossipProtocol × Bool
  should_process gp now msg =
      if is_some (lookup msg.message_id gp.seen_messages)
      then (gp, false)
      else if not (ltb_ℤ (pos 0) msg.ttl)
      then (gp, false)
      else if ltb (msg.timestamp + minute) now
      then (gp, false)
      else (record gp { seen_messages = insert msg.message_id now gp.seen_messages }, true)

  unfoldable pub decrement_ttl : GossipMessage V → GossipMessage V
  decrement_ttl msg = record msg { ttl = msg.ttl -ℤ pos 1 }
