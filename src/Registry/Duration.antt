-- ===== src/Registry/Duration.antt =====
-- rnr/pkg/consensus/validator_registry.go: the observer's time and the entry fee.
use route_n_root.Prelude.{ℕ, ◌*◌, ◌≤◌, arith}
use route_n_root.Prelude.Int.{pos, ◌≤ℤ◌}
use route_n_root.Core.{hour}
use route_n_root.Registry.{calculate_observer_duration, calculate_dynamic_entry_fee}

-- An observer waits between 6 and 24 hours, and no less when more validators are active; so the
-- entry fee lies between 15120000000000 and 60480000000000, and is no less either.
pub calculate_observer_duration_range :
    (m n : ℕ)
    → m ≤ n
    → let d = calculate_observer_duration in
      (6 * hour ≤ d n)
      × (d n ≤ 24 * hour)
      × (d m ≤ d n)
      × (pos 15_120_000_000_000 ≤ℤ calculate_dynamic_entry_fee (d n))
      × (calculate_dynamic_entry_fee (d n) ≤ℤ pos 60_480_000_000_000)
      × (calculate_dynamic_entry_fee (d m) ≤ℤ calculate_dynamic_entry_fee (d n))
unfolding calculate_observer_duration calculate_dynamic_entry_fee
calculate_observer_duration_range m n h =
    (ground arith, ground arith, ground arith, ground arith, ground arith, ground arith)
