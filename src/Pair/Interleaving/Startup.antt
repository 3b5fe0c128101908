-- ===== src/Pair/Interleaving/Startup.antt =====
-- Two nodes that start in different milliseconds (Sinboha/SinbohaImp.cpp, SinbohaSync.cpp), under any
-- interleaving of their heartbeats.
use sinboha.Prelude.{ℕ, ◌≡◌, ◌⊎◌, arith}
use sinboha.Prelude.Int.{◌<ℤ◌}
use sinboha.Types.{pending, active, standby}
use sinboha.Chrono.{TimePoint, IsClock, over_wire}
use sinboha.Pair.Interleaving.{Side, first, second, Channel, idle, System, Beats}
use sinboha.Pair.Interleaving.Leader.{quiet-IsLed, Beats-IsLed}

module _ (ticks : ℕ) {start_a start_b : TimePoint} (clock_a : IsClock start_a)
    (clock_b : IsClock start_b) (earlier : start_a <ℤ over_wire ticks start_b) where
  -- Two nodes are pending, the first since an earlier millisecond than the second, and no heartbeat
  -- is under way. Then after any number of steps of their four heartbeats, in any order, with any
  -- of them failing at any time, the first node is pending or active, and the second is pending or
  -- standby; so they are never both active.
  pub Beats-first_leads :
      {s u : System}
      → (s.node first).status ≡ pending
      → (s.node first).change_time ≡ start_a
      → (s.node second).status ≡ pending
      → (s.node second).change_time ≡ start_b
      → ((p : Side) (c : Channel) → s.call p c ≡ idle)
      → Beats ticks s u
      → (((u.node first).status ≡ pending) ⊎ ((u.node first).status ≡ active))
        × (((u.node second).status ≡ pending) ⊎ ((u.node second).status ≡ standby))
  Beats-first_leads {s} pa ta pb tb quiet r =
      let begin = quiet-IsLed ticks pending start_a pending start_b s pa ta pb tb quiet in
      let end = Beats-IsLed ticks pending start_a pending start_b clock_a clock_b earlier begin r in
      ground (arith, end.leads, end.follows)
