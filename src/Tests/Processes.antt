-- ===== src/Tests/Processes.antt =====
-- The whole process: what its threads, its peer and its callers do, in order.
use sinboha.Prelude.{◌≡◌, ◌≢◌, refl, ◌⊎◌, true, false, none, some, List, [], ◌∷◌, arith}
use sinboha.Prelude.Int.{pos}
use sinboha.Types.{active, standby, error_ok}
use sinboha.NetClient.{Remote, returned, threw, transport_exception}
use sinboha.NetService.{new_net_service}
use sinboha.Sync.Start as SyncStart
use sinboha.BrainSplit.Thread as CheckThread
use sinboha.BrainSplit.Thread.{running}
use sinboha.Imp.{Imp, initialize}
use sinboha.Imp.Interface.{new_imp}
use sinboha.Imp.Release.{Meanwhile, release}
use sinboha.StatusRep.Changes.{perform_all, last_reported}
use sinboha.Process.{
  Process, Event, outside, heartbeat_runs, check_runs, peer_asks, peer_sends, initializes, releases,
  switches, registers, unregisters, happen_all,
}
use sinboha.Process.Methods.{all_methods, happen_all-perform_all}
use sinboha.Process.Changes.{SomeEvent, happen_all-last_reported}
use sinboha.Process.Soundness.{Beats, Checks, Serves, new_process}
use sinboha.Process.Lifetime.{happen_all-release_stops, initialize-keeps_running}
use sinboha.Process.Failover.{happen_all-active}
use sinboha.Process.Startup.{initialize-activates}
use sinboha.Process.Timely.{Permits, happen_all-permitted}
use sinboha.StatusRep.{get_peer_live_time}
use sinboha.Pair.Link.{link}
use sinboha.Tests.Data.{memory, ticks, node, late, settings, starts, stopped, working}

abbrev wire : Remote
wire = link ticks (pos 200000)

abbrev process : Process wire
process = record { imp = working; release_pc = outside; net = (late, []) }

-- A round of the primary heartbeat, with a manual switch, data and a question in between.
abbrev busy : List (Event wire)
busy =
    heartbeat_runs true (pos 200000) (pos 200000)
    ∷ switches (pos 210000)
    ∷ peer_sends (65 ∷ [])
    ∷ heartbeat_runs true (pos 220000) (pos 220000)
    ∷ peer_asks (pos 225000) (pos 15) (pos 1)
    ∷ heartbeat_runs true (pos 230000) (pos 230000)
    ∷ []

happen_all-perform_all_example :
    let (p', calls) = happen_all wire ticks busy process in
    (p'.imp.status, calls) ≡ perform_all (all_methods wire ticks busy process) working.status
happen_all-perform_all_example = happen_all-perform_all wire ticks busy process

happen_all-last_reported_example :
    let (p', calls) = happen_all wire ticks busy process in
    last_reported active calls ≡ p'.imp.status.status
happen_all-last_reported_example =
    happen_all-last_reported wire ticks busy process refl (tt, (tt, (tt, (tt, (tt, (tt, tt))))))

abbrev new : Process wire
new = new_process wire (pos 100000) (pos 100000) memory (late, [])

abbrev working_day : List (Event wire)
working_day =
    registers (some 7)
    ∷ initializes settings starts
    ∷ heartbeat_runs true (pos 200000) (pos 200000)
    ∷ check_runs (pos 200000)
    ∷ releases (returned tt)
    ∷ []

abbrev checks : List CheckThread.Turn
checks =
    CheckThread.by_thread (pos 1)
    ∷ CheckThread.by_thread (pos 2)
    ∷ CheckThread.by_thread (pos 3)
    ∷ CheckThread.by_thread (pos 4)
    ∷ []

abbrev beats : List (SyncStart.Turn wire)
beats =
    SyncStart.by_thread (pos 5) (pos 5)
    ∷ SyncStart.by_thread (pos 6) (pos 6)
    ∷ SyncStart.by_thread (pos 7) (pos 7)
    ∷ SyncStart.by_thread (pos 8) (pos 8)
    ∷ []

abbrev meanwhile : Meanwhile wire ticks
meanwhile = record {
  checker_turns = checks;
  secondary_turns = beats;
  primary_turns = beats;
  server_stop = returned tt;
  served = threw transport_exception ∷ returned tt ∷ returned tt ∷ [];
}

happen_all-release_stops_example :
    let p = (happen_all wire ticks working_day new).0 in
    (m' : Imp) × (net' : Remote.Net wire) × (release wire ticks meanwhile p.imp p.net
      ≡ some (m', net', error_ok))
    × (m'.checker.quit ≡ true)
    × (m'.secondary.quit ≡ true)
    × (m'.primary.quit ≡ true)
    × (m'.service.quit ≡ true)
unfolding sinboha.Process.happen new_imp new_net_service sinboha.Imp.Interface.register_callback
happen_all-release_stops_example =
    happen_all-release_stops wire ticks working_day (pos 100000) (pos 100000) memory (late, [])
      meanwhile (tt, ((refl, tt), (tt, (tt, (tt, tt))))) (omega arith) (omega arith) (omega arith)
      (omega arith)

-- Data and callbacks before `Initialize`, heartbeats and checks after it.
abbrev morning : List (Event wire)
morning = registers (some 7) ∷ peer_sends (65 ∷ []) ∷ []

abbrev afternoon : List (Event wire)
afternoon =
    heartbeat_runs true (pos 200000) (pos 200000)
    ∷ heartbeat_runs false (pos 200001) (pos 200002)
    ∷ check_runs (pos 200003)
    ∷ switches (pos 200004)
    ∷ []

initialize-keeps_running_example :
    let p = (happen_all wire ticks morning new).0 in
    let q = (happen_all wire ticks (initializes settings starts ∷ afternoon) p).0 in
    Beats q.imp.primary.thread
    × (q.imp.primary.network ≢ none)
    × Checks q.imp.checker.thread
    × Serves q.imp.service.thread
unfolding happen_all sinboha.Process.happen new_imp new_net_service sinboha.Sync.new_sync
    sinboha.BrainSplit.new_brain_split sinboha.Imp.Interface.register_callback initialize
    sinboha.NetService.start sinboha.Sync.start sinboha.BrainSplit.start
initialize-keeps_running_example =
    initialize-keeps_running wire ticks morning afternoon settings starts (pos 100000) (pos 100000)
      memory (late, []) (tt, (tt, tt)) ((refl, tt), (tt, (tt, (tt, (tt, tt))))) refl
      (λ e. e, (λ e. e, (λ e. e, (λ e. e, tt))))

-- A standby that heard of its peer last at 20 ms, with a limit of one second.
abbrev abandoned : Process wire
abandoned = record {
  imp = record working { status = record (node 150007 standby) { peer_live_time = pos 200000 } };
  release_pc = outside;
  net = (late, []);
}

abbrev night : List (Event wire)
night =
    check_runs (pos 15000000)
    ∷ check_runs (pos 15000001)
    ∷ unregisters
    ∷ check_runs (pos 15000002)
    ∷ heartbeat_runs true (pos 15000003) (pos 15000003)
    ∷ check_runs (pos 15000004)
    ∷ check_runs (pos 15000005)
    ∷ []

happen_all-active_example : (happen_all wire ticks night abandoned).0.imp.status.status ≡ active
unfolding sinboha.Process.happen sinboha.Imp.Interface.un_register_callback
happen_all-active_example =
    happen_all-active wire ticks 1000 200000 night abandoned (omega arith)
      (
        (omega arith, omega arith),
        (
          (omega arith, omega arith),
          (
            tt,
            (
              (omega arith, omega arith),
              (tt, ((omega arith, omega arith), ((omega arith, omega arith), tt))),
            ),
          ),
        ),
      )
      (record { wanted = refl; limit = refl; silent_since = refl; has_read = tt }) (omega arith)

-- The object before `Initialize`, on a standby that was released.
abbrev released : Process wire
released = record {
  imp = record stopped { status = record (node 150007 standby) { peer_live_time = pos 200000 } };
  release_pc = outside;
  net = (late, []);
}

abbrev first_round : List (Event wire)
first_round =
    check_runs (pos 15000000)
    ∷ check_runs (pos 15000000)
    ∷ check_runs (pos 15000000)
    ∷ check_runs (pos 15000000)
    ∷ check_runs (pos 15000000)
    ∷ []

initialize-activates_example :
    (happen_all wire ticks (initializes settings starts ∷ first_round) released).0.imp.status.status
    ≡ active
unfolding initialize sinboha.NetService.start sinboha.Sync.start sinboha.BrainSplit.start
initialize-activates_example =
    initialize-activates wire ticks 1000 200000 settings starts first_round released refl refl refl
      (omega arith)
      (
        (omega arith, omega arith),
        (
          (omega arith, omega arith),
          (
            (omega arith, omega arith),
            ((omega arith, omega arith), ((omega arith, omega arith), tt)),
          ),
        ),
      )
      (omega arith)

-- The same standby, half a second after its last sign of life.
abbrev attended : List (Event wire)
attended =
    check_runs (pos 5000000)
    ∷ check_runs (pos 5000001)
    ∷ check_runs (pos 5000002)
    ∷ heartbeat_runs true (pos 5000003) (pos 5000003)
    ∷ check_runs (pos 5000004)
    ∷ []

happen_all-permitted_example :
    let s' = (happen_all wire ticks attended abandoned).0.imp.status.status in
    (s' ≡ standby)
    ⊎ ((s' ≡ active) × SomeEvent wire ticks (Permits wire ticks) attended abandoned)
    ⊎ (s' ≡ standby)
unfolding sinboha.Process.happen sinboha.BrainSplit.thread_step get_peer_live_time
happen_all-permitted_example =
    happen_all-permitted wire ticks attended abandoned
      (tt, (tt, (tt, (tt, ((omega arith, omega arith, omega arith, omega arith), tt))))) (λ e. e)
