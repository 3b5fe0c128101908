-- ===== src/Pair/Processes/StartUp.antt =====
-- Two processes from their constructors and `Initialize` on (Sinboha/SinbohaImp.cpp).
use sinboha.Prelude.{ℕ, ◌≤◌, ◌≡◌, List, arith}
use sinboha.Prelude.Int.{◌<ℤ◌}
use sinboha.Types.{pending, active, standby, error_ok}
use sinboha.Chrono.{TimePoint, IsClock, over_wire}
use sinboha.StatusRep.{new_status_rep}
use sinboha.NetService
use sinboha.NetService.{new_net_service}
use sinboha.Sync
use sinboha.Sync.{new_sync}
use sinboha.BrainSplit
use sinboha.BrainSplit.{new_brain_split}
use sinboha.Imp.{Imp, Settings, Starts, initialize}
use sinboha.Imp.Interface.{Memory, new_imp}
use sinboha.Process.{outside}
use sinboha.Process.Changes.{HasSilence}
use sinboha.Pair.Interleaving.{Side, first, second, Channel, idle}
use sinboha.Pair.Interleaving.Leader.{Outranks}
use sinboha.Pair.Processes.{Nodes, Moment, take_moments, call_at}
use sinboha.Pair.Processes.Timely.{AllInTime}
use sinboha.Pair.Processes.Settle.{IsBeating}
use sinboha.Pair.Processes.Agreement.{NoRelease}
use sinboha.Pair.Processes.Arrival.{AllArrive, own_steps}
use sinboha.Pair.Processes.Convergence.{take_moments-converge}

-- How a process came about: the readings of the clock and the memory in its constructor, and its
-- `Initialize`.
pub record Launching : Type 0 where
  pub change : TimePoint
  pub live : TimePoint
  pub memory : Memory
  pub settings : Settings
  pub starts : Starts

abbrev pub constructed : Launching → Imp
constructed l = new_imp l.change l.live l.memory

abbrev pub launched : (Side → Launching) → Nodes
launched f = record {
  imp = λ p. (initialize (f p).settings (f p).starts (constructed (f p))).0;
  release_pc = λ p. outside;
}

-- Its heartbeats and its check stand at the beginning of their threads.
record IsFresh (change : TimePoint) (m : Imp) : Type 0 where
  beats : IsBeating m.primary
  quiet : (c : Channel) → call_at m c ≡ idle
  watches : ¬ HasSilence m.checker.thread
  changed : m.status.change_time ≡ change
  waits : m.status.status ≡ pending

initialize-IsFresh :
    (l : Launching)
    → (initialize l.settings l.starts (constructed l)).1 ≡ error_ok
    → IsFresh l.change (initialize l.settings l.starts (constructed l)).0
unfolding new_imp new_status_rep new_net_service new_sync new_brain_split initialize
    NetService.start Sync.start BrainSplit.start
initialize-IsFresh l e = record {
  beats = ground arith;
  quiet = λ c. ground arith;
  watches = ground arith;
  changed = ground arith;
  waits = ground arith;
}

module _ (ticks : ℕ) where
  leads_start :
      (f : Side → Launching)
      → (f first).change <ℤ over_wire ticks (f second).change
      → ((p : Side) → IsFresh (f p).change ((launched f).imp p))
      → let a = ((launched f).imp first).status in
        let b = ((launched f).imp second).status in
        Outranks ticks a.status a.change_time b.status b.change_time
  leads_start f earlier fresh =
      rw ((fresh first).changed, (fresh first).waits, (fresh second).changed, (fresh second).waits)
        earlier

  -- Let two processes be constructed after 1970, the first in an earlier millisecond than the second,
  -- and let the `Initialize` of both succeed. Let anything happen to them, in any order, but no manual
  -- switch and no `Release`; let the calls of the primary heartbeats arrive, whatever a check compares
  -- be within its limit, and what reaches a process be what the other one sends. Once each of the
  -- two primary heartbeat threads has made ten steps, the first node is active and the second is
  -- standby.
  pub launched-converge :
      (f : Side → Launching) (ms : List (Moment ticks))
      → ((p : Side) → IsClock (f p).change)
      → (f first).change <ℤ over_wire ticks (f second).change
      → ((p : Side) → (initialize (f p).settings (f p).starts (constructed (f p))).1 ≡ error_ok)
      → AllInTime ticks ms (launched f)
      → NoRelease ticks ms
      → AllArrive ticks ms
      → ((p : Side) → 10 ≤ own_steps ticks p ms)
      → let e = take_moments ticks ms (launched f) in
        ((e.imp first).status.status ≡ active) × ((e.imp second).status.status ≡ standby)
  launched-converge f ms clocks earlier started in_time quiet arrive enough =
      let fresh : ((p : Side) → IsFresh (f p).change ((launched f).imp p)) =
        λ p. initialize-IsFresh (f p) (started p) in
      take_moments-converge ticks (launched f) ms (rw (fresh first).changed (clocks first))
        (rw (fresh second).changed (clocks second)) (leads_start f earlier fresh)
        (λ p. (fresh p).beats) (λ p c. (fresh p).quiet c) (λ p. (fresh p).watches) in_time quiet
        arrive (enough first) (enough second)
