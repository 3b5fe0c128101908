-- ===== src/Pair/Threads/Startup.antt =====
-- Two nodes whose heartbeat threads have just been started (Sinboha/SinbohaSync.cpp,
-- SinbohaImp.cpp), on a network that may lose requests and answers.
use sinboha.Prelude.{ℕ, ◌≡◌, ◌⊎◌, refl, List}
use sinboha.Prelude.Int.{◌<ℤ◌}
use sinboha.Types.{pending, active, standby}
use sinboha.Chrono.{TimePoint, IsClock, over_wire}
use sinboha.StatusRep.{new_status_rep}
use sinboha.Pair.Interleaving.{Side, first, second, Channel, idle}
use sinboha.Pair.Interleaving.Startup.{Beats-first_leads}
use sinboha.Pair.Threads.{call_of}
use sinboha.Pair.Threads.Steps.{Duo, view, ThreadTurn, take_turns, take_turns-Beats}

module _ (ticks : ℕ) (start_a start_b : TimePoint) where
  -- Two new nodes, the first made in an earlier millisecond than the second, none of whose heartbeats
  -- has a call under way. Then after any steps of their four heartbeat threads, in any order, with
  -- any requests and answers lost, the first node is pending or active, and the second is pending or
  -- standby; so they are never both active.
  pub take_turns-first_leads :
      (d : Duo) (ts : List ThreadTurn) (live_a live_b : TimePoint)
      → IsClock start_a
      → IsClock start_b
      → start_a <ℤ over_wire ticks start_b
      → d.node first ≡ new_status_rep start_a live_a
      → d.node second ≡ new_status_rep start_b live_b
      → ((p : Side) (c : Channel) → call_of (d.sync p c).thread ≡ idle)
      → let d' = take_turns ticks ts d in
        (((d'.node first).status ≡ pending) ⊎ ((d'.node first).status ≡ active))
        × (((d'.node second).status ≡ pending) ⊎ ((d'.node second).status ≡ standby))
  unfolding new_status_rep
  take_turns-first_leads d ts live_a live_b ca cb earlier na nb quiet =
      Beats-first_leads ticks ca cb earlier {s = view d} (rw na refl) (rw na refl) (rw nb refl)
        (rw nb refl) quiet (take_turns-Beats ticks ts d)
