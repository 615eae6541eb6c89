-- ===== src/Gossip/Once.antt =====
-- rnr/pkg/network/gossip.go: how often a message is processed.
use route_n_root.Prelude.{
  ℕ, ◌+◌, ◌*◌, ◌≤◌, ◌<◌, ◌≡◌, ◌∙◌, ◌⊎◌, inl, inr, true, false, Option, some, List, [], ◌∷◌, Bytes,
  lookup, keep_entry, lookup-keep, keep-IsDistinct, insert-IsDistinct, lookup-insert,
  lookup-insert_self, IsDistinct, bytes_key, leb, arith,
}
use route_n_root.Core.{minute}
use route_n_root.Gossip.{GossipMessage, GossipProtocol, should_process, cleanup_old_messages}

pub data Call (V : Type 0) : Type 0 where
  receive : GossipMessage V → Call V
  clean : Call V

kept_entry :
    (now at ts : ℕ) (id : Bytes) (o : Option ℕ)
    → ts ≤ at
    → o ≡ some at
    → (keep_entry (λ _ t. leb now (t + 10 * minute)) id o ≡ some at) ⊎ (ts + minute < now)
unfolding keep_entry
kept_entry now at ts id o old found = ground arith

module _ {V : Type 0} where
  unfoldable pub step : GossipProtocol → ℕ → Call V → GossipProtocol
  step gp now (receive msg) = (should_process gp now msg).0
  step gp now clean = cleanup_old_messages gp now

  -- Calls with the times of them, in order.
  unfoldable pub run : GossipProtocol → List (ℕ × Call V) → GossipProtocol
  run gp [] = gp
  run gp ((now, call) ∷ calls) = run (step gp now call) calls

  -- The clock does not go back from `start` over the calls to `end`.
  unfoldable pub IsOrdered : ℕ → List (ℕ × Call V) → ℕ → Type 0
  IsOrdered start [] end = start ≤ end
  IsOrdered start ((now, _) ∷ calls) end = (start ≤ now) × IsOrdered now calls end

  -- The message is remembered from a time after it was made, or too old by now.
  abbrev IsDone : GossipProtocol → ℕ → GossipMessage V → Type 0
  IsDone gp now msg =
      ((at : ℕ) × (lookup msg.message_id gp.seen_messages ≡ some at) × (msg.timestamp ≤ at))
      ⊎ (msg.timestamp + minute < now)

  should_process-lookup :
      (gp : GossipProtocol) (now : ℕ) (msg : GossipMessage V) (id : Bytes)
      → (lookup id (should_process gp now msg).0.seen_messages ≡ lookup id gp.seen_messages)
        ⊎ (lookup id (should_process gp now msg).0.seen_messages ≡ some now)
  unfolding should_process
  should_process-lookup gp now msg id =
      ground (arith, lookup-insert msg.message_id id now gp.seen_messages)

  should_process-IsDistinct :
      (gp : GossipProtocol) (now : ℕ) (msg : GossipMessage V)
      → IsDistinct gp.seen_messages
      → IsDistinct (should_process gp now msg).0.seen_messages
  unfolding should_process
  should_process-IsDistinct gp now msg d =
      ground (arith, insert-IsDistinct msg.message_id now gp.seen_messages d)

  step-IsDistinct :
      (gp : GossipProtocol) (now : ℕ) (call : Call V)
      → IsDistinct gp.seen_messages
      → IsDistinct (step gp now call).seen_messages
  unfolding step cleanup_old_messages
  step-IsDistinct gp now (receive msg) d = should_process-IsDistinct gp now msg d
  step-IsDistinct gp now clean d =
      keep-IsDistinct (λ _ t. leb now (t + 10 * minute)) gp.seen_messages d

  step-IsDone :
      (gp : GossipProtocol) (now later : ℕ) (call : Call V) (msg : GossipMessage V)
      → IsDistinct gp.seen_messages
      → now ≤ later
      → msg.timestamp ≤ now
      → IsDone gp now msg
      → IsDone (step gp later call) later msg
  unfolding step cleanup_old_messages
  step-IsDone gp now later call msg d on made (inr stale) = inr (omega arith)
  step-IsDone gp now later (receive other) msg d on made (inl (at, found, old)) =
      elim (should_process-lookup gp later other msg.message_id) [
        | inl same ↦ inl (at, same ∙ found, old)
        | inr fresh ↦ inl (later, fresh, omega arith)
      ]
  step-IsDone gp now later clean msg d on made (inl (at, found, old)) =
      let cut = λ (_ : Bytes) (t : ℕ). leb later (t + 10 * minute) in
      elim (kept_entry later at msg.timestamp msg.message_id
        (lookup msg.message_id gp.seen_messages) old found) [
          | inl stays ↦ inl (at, lookup-keep cut msg.message_id gp.seen_messages d ∙ stays, old)
          | inr stale ↦ inr stale
        ]

  should_process-IsDone :
      (gp : GossipProtocol) (now : ℕ) (msg : GossipMessage V)
      → IsDone gp now msg
      → (should_process gp now msg).1 ≡ false
  unfolding should_process
  should_process-IsDone gp now msg (inl (at, found, old)) = ground (arith, found)
  should_process-IsDone gp now msg (inr stale) = ground arith

  run-refuses :
      (gp : GossipProtocol) (now end : ℕ) (calls : List (ℕ × Call V)) (msg : GossipMessage V)
      → IsDistinct gp.seen_messages
      → msg.timestamp ≤ now
      → IsOrdered now calls end
      → IsDone gp now msg
      → (should_process (run gp calls) end msg).1 ≡ false
  unfolding run IsOrdered
  run-refuses gp now end [] msg d made on done =
      should_process-IsDone gp end msg
        (elim done [ inl kept ↦ inl kept | inr stale ↦ inr (omega arith) ])
  run-refuses gp now end ((later, call) ∷ calls) msg d made on done =
      run-refuses (step gp later call) later end calls msg (step-IsDistinct gp later call d)
        (omega (arith, on.0)) on.1 (step-IsDone gp now later call msg d on.0 made done)

  take-lookup :
      (gp : GossipProtocol) (now : ℕ) (msg : GossipMessage V)
      → (should_process gp now msg).1 ≡ true
      → lookup msg.message_id (should_process gp now msg).0.seen_messages ≡ some now
  unfolding should_process
  take-lookup gp now msg taken =
      ground (arith, taken, lookup-insert_self msg.message_id now gp.seen_messages)

  -- A message whose timestamp is not ahead of the clock is processed at most once: after it was
  -- processed, it is refused after any received messages and cleanups, in any order, while the clock
  -- does not go back.
  pub should_process_once :
      (gp : GossipProtocol) (now end : ℕ) (calls : List (ℕ × Call V)) (msg : GossipMessage V)
      → IsDistinct gp.seen_messages
      → msg.timestamp ≤ now
      → (should_process gp now msg).1 ≡ true
      → IsOrdered now calls end
      → (should_process (run (should_process gp now msg).0 calls) end msg).1 ≡ false
  should_process_once gp now end calls msg d made taken on =
      run-refuses (should_process gp now msg).0 now end calls msg
        (should_process-IsDistinct gp now msg d) made on
        (inl (now, take-lookup gp now msg taken, made))
