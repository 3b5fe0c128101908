-- ===== src/Pair/Processes/Timely.antt =====
-- The roles of two nodes that hear of each other in time (Sinboha/SinbohaImp.cpp, SinbohaSync.cpp,
-- SinbohaBrainSplit.cpp).
use sinboha.Prelude.{ℕ, ◌≡◌, ◌⊎◌, List, [], ◌∷◌, arith, choice}
use sinboha.Types.{active, standby}
use sinboha.Chrono.{TimePoint, IsClock}
use sinboha.BrainSplit
use sinboha.BrainSplit.{CheckPc}
use sinboha.Imp.{Imp}
use sinboha.Process.{
  Event, heartbeat_runs, check_runs, service_runs, peer_asks, peer_sends, initializes, releases,
  switches, registers, unregisters, sends_data, net_changes,
}
use sinboha.Process.Changes.{HasSilence}
use sinboha.Process.Timely.{IsTimely, happen-HasSilence}
use sinboha.Pair.Interleaving.{same_side, Side, first, second, Channel, idle}
use sinboha.Pair.Interleaving.Leader.{Outranks}
use sinboha.Pair.Threads.{Fate, network}
use sinboha.Pair.Processes.{Nodes, Moment, moment, process_of, take_moment, take_moments, view}
use sinboha.Pair.Processes.Steps.{SplitIsAllowed, IsAllowed, AllAllowed}
use sinboha.Pair.Processes.Roles.{IsCalm, take_moments-roles}

module _ (ticks : ℕ) where
  -- No manual switch, nothing from outside but what the other process sends, and a check that
  -- compares finds the sign of life within the limit.
  abbrev pub IsInTime : Moment ticks → Nodes → Type 0
  IsInTime (moment p heard fate (switches now)) d = ⊥
  IsInTime (moment p heard fate (peer_asks t z s)) d = ⊥
  IsInTime (moment p heard fate (peer_sends b)) d = ⊥
  IsInTime (moment p heard fate (net_changes net)) d = ⊥
  IsInTime (moment p heard fate e) d =
      IsTimely (network ticks heard fate) ticks e (process_of ticks heard fate p d)

  abbrev pub AllInTime : List (Moment ticks) → Nodes → Type 0
  AllInTime [] d = Unit
  AllInTime (m ∷ ms) d = IsInTime m d × AllInTime ms (take_moment ticks m d)

  -- No check has found its peer silent.
  abbrev pub NoneSilent : Nodes → Type 0
  NoneSilent d = (p : Side) → ¬ HasSilence (d.imp p).checker.thread

  SplitIsAllowed-IsCalm :
      (now : TimePoint) (pc : CheckPc) → ¬ HasSilence pc → SplitIsAllowed ticks IsCalm now pc
  SplitIsAllowed-IsCalm now BrainSplit.no_thread h = tt
  SplitIsAllowed-IsCalm now BrainSplit.at_test h = tt
  SplitIsAllowed-IsCalm now BrainSplit.at_wait h = tt
  SplitIsAllowed-IsCalm now BrainSplit.at_check h = tt
  SplitIsAllowed-IsCalm now (BrainSplit.at_compare l) h = tt
  SplitIsAllowed-IsCalm now BrainSplit.at_split h = h tt
  SplitIsAllowed-IsCalm now BrainSplit.finished h = tt

  IsInTime-IsAllowed :
      (m : Moment ticks) (d : Nodes) → IsInTime m d → NoneSilent d → IsAllowed ticks IsCalm m d
  IsInTime-IsAllowed (moment p heard fate (heartbeat_runs b live now)) d t h = tt
  IsInTime-IsAllowed (moment p heard fate (check_runs now)) d t h =
      SplitIsAllowed-IsCalm now (d.imp p).checker.thread (h p)
  IsInTime-IsAllowed (moment p heard fate (service_runs o)) d t h = tt
  IsInTime-IsAllowed (moment p heard fate (initializes a k)) d t h = tt
  IsInTime-IsAllowed (moment p heard fate (releases o)) d t h = tt
  IsInTime-IsAllowed (moment p heard fate (switches now)) d t h = t
  IsInTime-IsAllowed (moment p heard fate (registers c)) d t h = tt
  IsInTime-IsAllowed (moment p heard fate unregisters) d t h = tt
  IsInTime-IsAllowed (moment p heard fate (sends_data b)) d t h = tt
  IsInTime-IsAllowed (moment p heard fate (peer_asks z y s)) d t h = t
  IsInTime-IsAllowed (moment p heard fate (peer_sends b)) d t h = t
  IsInTime-IsAllowed (moment p heard fate (net_changes net)) d t h = t

  IsInTime-IsTimely :
      (p : Side) (heard : TimePoint) (fate : Fate) (e : Event (network ticks heard fate))
      (d : Nodes)
      → IsInTime (moment p heard fate e) d
      → IsTimely (network ticks heard fate) ticks e (process_of ticks heard fate p d)
  IsInTime-IsTimely p heard fate e d t = ground arith

  take_moment-NoneSilent :
      (m : Moment ticks) (d : Nodes)
      → IsInTime m d
      → NoneSilent d
      → NoneSilent (take_moment ticks m d)
  unfolding take_moment
  take_moment-NoneSilent (moment p heard fate e) d t h q =
      choice (λ (m : Imp). ¬ HasSilence m.checker.thread) (same_side p q)
        (happen-HasSilence (network ticks heard fate) ticks e (process_of ticks heard fate p d)
          (IsInTime-IsTimely p heard fate e d t) (h p))
        (h q)

  take_moments-NoneSilent :
      (ms : List (Moment ticks)) (d : Nodes)
      → AllInTime ms d
      → NoneSilent d
      → NoneSilent (take_moments ticks ms d)
  unfolding take_moments
  take_moments-NoneSilent [] d t h = h
  take_moments-NoneSilent (m ∷ ms) d t h =
      take_moments-NoneSilent ms (take_moment ticks m d) t.1 (take_moment-NoneSilent m d t.0 h)

  pub AllInTime-AllAllowed :
      (ms : List (Moment ticks)) (d : Nodes)
      → AllInTime ms d
      → NoneSilent d
      → AllAllowed ticks IsCalm ms d
  AllInTime-AllAllowed [] d t h = tt
  AllInTime-AllAllowed (m ∷ ms) d t h = (
    IsInTime-IsAllowed m d t.0 h,
    AllInTime-AllAllowed ms (take_moment ticks m d) t.1 (take_moment-NoneSilent m d t.0 h),
  )

  -- Let the first of two nodes outrank the second, both with times of change after 1970; let no
  -- heartbeat have a call under way, and no check have found its peer silent. Let anything happen to
  -- their two whole processes, in any order and with any messages lost, but no manual switch; let
  -- whatever a check compares be within its limit, and let what reaches a process be what the other
  -- one sends. Then at every moment the first has its old status or is active, and the second has
  -- its old status or is standby; and from a moment at which the first is active it stays so, and
  -- from one at which the second is standby it stays so.
  pub take_moments-timely_roles :
      (d : Nodes) (ms ns : List (Moment ticks))
      → IsClock (d.imp first).status.change_time
      → IsClock (d.imp second).status.change_time
      → Outranks ticks
          (d.imp first).status.status
          (d.imp first).status.change_time
          (d.imp second).status.status
          (d.imp second).status.change_time
      → ((p : Side) (c : Channel) → (view d).call p c ≡ idle)
      → NoneSilent d
      → AllInTime ms d
      → AllInTime ns (take_moments ticks ms d)
      → let s = view d in
        let t = view (take_moments ticks ms d) in
        let u = view (take_moments ticks ns (take_moments ticks ms d)) in
        (((t.node first).status ≡ (s.node first).status) ⊎ ((t.node first).status ≡ active))
        × (((t.node second).status ≡ (s.node second).status) ⊎ ((t.node second).status ≡ standby))
        × ((t.node first).status ≡ active → (u.node first).status ≡ active)
        × ((t.node second).status ≡ standby → (u.node second).status ≡ standby)
  take_moments-timely_roles d ms ns ca cb o quiet none before later =
      take_moments-roles ticks d ms ns ca cb o quiet (AllInTime-AllAllowed ms d before none) (
        AllInTime-AllAllowed ns (take_moments ticks ms d) later
          (take_moments-NoneSilent ms d before none))
