-- ===== src/Process.antt =====
-- The whole process of a node: the object of Sinboha/SinbohaImp.cpp with its threads
-- (Sinboha/SinbohaSync.cpp, SinbohaBrainSplit.cpp, SinbohaNetService.cpp), the requests of the peer
-- (Sinboha/SinbohaRPCHandler.h) and the callers of the interface SinbohaIf (Sinboha/SinboHA.h), as
-- events in the order in which they happen. `Release` is a caller that moves from one `Stop` to the
-- next and waits; `Initialize` is one event.
pub mod Methods
pub mod Changes
pub mod Names
pub mod Soundness
pub mod Lifetime
pub mod Failover
pub mod Startup
pub mod Timely
pub mod Crossing
pub mod SecondRelease
use sinboha.Prelude.{ℕ, ◌≡◌, Bool, true, false, Option, none, some, List, [], ◌++◌, ◌∷◌}
use sinboha.Prelude.Int.{ℤ}
use sinboha.Types.{SinbohaError}
use sinboha.Chrono.{TimePoint}
use sinboha.StatusRep.{Bytes, CallbackId, CallbackCall}
use sinboha.RpcHandler.{handle_can_you_activate_me, handle_sync_data}
use sinboha.NetClient.{Remote, Outcome}
use sinboha.NetService
use sinboha.NetService.{ServicePc}
use sinboha.Sync
use sinboha.BrainSplit
use sinboha.Imp.Interface
use sinboha.Imp.{Imp, Settings, Starts, initialize, sync_data}

-- Where the caller of `Release` stands: outside, or in one of the four `Stop` methods, before its
-- first block or in its wait. The first block of the first one is the first step from outside.
pub data ReleasePc : Type 0 where
  outside : ReleasePc
  checker_waits : ReleasePc
  secondary_stops secondary_waits : ReleasePc
  primary_stops primary_waits : ReleasePc
  service_stops service_waits : ReleasePc

-- A thread object that does not run: it was not started, or has returned.
abbrev pub HasReturned : ServicePc → Type 0
HasReturned NetService.no_thread = Unit
HasReturned NetService.finished = Unit
HasReturned _ = ⊥

module _ (R : Remote) where
  open R use {Net}

  pub record Process : Type 0 where
    pub imp : Imp
    pub release_pc : ReleasePc
    pub net : Net

  -- What happens, with the readings of the clock. `heartbeat_runs true` is a step of the primary
  -- heartbeat, `heartbeat_runs false` one of the secondary.
  pub data Event : Type 0 where
    heartbeat_runs : Bool → TimePoint → TimePoint → Event
    check_runs : TimePoint → Event
    service_runs : Outcome (Unit {0}) → Event
    peer_asks : TimePoint → ℤ → ℤ → Event
    peer_sends : Bytes → Event
    initializes : Settings → Starts → Event
    releases : Outcome (Unit {0}) → Event
    switches : TimePoint → Event
    registers : Option CallbackId → Event
    unregisters : Event
    sends_data : Bytes → Event
    net_changes : Net → Event

  -- `early` is the result of a first block: with it the `Stop` returns, without it waits.
  abbrev after_request : Option SinbohaError → ReleasePc → ReleasePc → ReleasePc
  after_request none waits goes_on = waits
  after_request (some e) waits goes_on = goes_on

  abbrev network_closed : Option (Sync.Sync × Net × SinbohaError) → Process → Process
  network_closed none p = p
  network_closed (some (s, net', e)) p = record {
    imp = record p.imp { secondary = s };
    release_pc = primary_stops;
    net = net';
  }

  abbrev primary_closed : Option (Sync.Sync × Net × SinbohaError) → Process → Process
  primary_closed none p = p
  primary_closed (some (s, net', e)) p = record {
    imp = record p.imp { primary = s };
    release_pc = service_stops;
    net = net';
  }

  -- One step of `Release`: a first block, or a look whether the thread has returned.
  unfoldable pub release_step : Outcome (Unit {0}) → ReleasePc → Process → Process
  release_step outcome outside p =
      let (checker', early) = BrainSplit.stop_request p.imp.checker in
      record p {
        imp = record p.imp { checker = checker' };
        release_pc = after_request early checker_waits secondary_stops;
      }
  release_step outcome checker_waits p = record p {
    release_pc = after_request (BrainSplit.stop_finish p.imp.checker) checker_waits secondary_stops;
  }
  release_step outcome secondary_stops p =
      let (secondary', early) = Sync.stop_request p.imp.secondary in
      record p {
        imp = record p.imp { secondary = secondary' };
        release_pc = after_request early secondary_waits primary_stops;
      }
  release_step outcome secondary_waits p =
      network_closed (Sync.stop_finish R p.imp.secondary p.net) p
  release_step outcome primary_stops p =
      let (primary', early) = Sync.stop_request p.imp.primary in
      record p {
        imp = record p.imp { primary = primary' };
        release_pc = after_request early primary_waits service_stops;
      }
  release_step outcome primary_waits p = primary_closed (Sync.stop_finish R p.imp.primary p.net) p
  release_step outcome service_stops p =
      let (service', early) = NetService.stop_request outcome p.imp.service in
      record p {
        imp = record p.imp { service = service' };
        release_pc = after_request early service_waits outside;
      }
  release_step outcome service_waits p = record p {
    release_pc = after_request (NetService.stop_finish p.imp.service) service_waits outside;
  }

  module _ (ticks : ℕ) where
    unfoldable pub heartbeat_step :
        Bool → TimePoint → TimePoint → Process → Process × List CallbackCall
    heartbeat_step true live now p =
        let (w, calls) =
          Sync.thread_step R ticks live now
            (record { sync = p.imp.primary; node = p.imp.status; net = p.net }) in
        (record p { imp = record p.imp { primary = w.sync; status = w.node }; net = w.net }, calls)
    heartbeat_step false live now p =
        let (w, calls) =
          Sync.thread_step R ticks live now
            (record { sync = p.imp.secondary; node = p.imp.status; net = p.net }) in
        (
          record p { imp = record p.imp { secondary = w.sync; status = w.node }; net = w.net },
          calls,
        )

    unfoldable pub happen : Event → Process → Process × List CallbackCall
    unfolding heartbeat_step release_step
    happen (heartbeat_runs is_primary live now) p = heartbeat_step is_primary live now p
    happen (check_runs now) p =
        let (checker', status', calls) =
          BrainSplit.thread_step ticks now p.imp.checker p.imp.status in
        (record p { imp = record p.imp { checker = checker'; status = status' } }, calls)
    happen (service_runs outcome) p = (
      record p { imp = record p.imp { service = NetService.thread_step outcome p.imp.service } },
      [],
    )
    happen (peer_asks heard t s) p =
        let (status', allowed) = handle_can_you_activate_me ticks heard t s p.imp.status in
        (record p { imp = record p.imp { status = status' } }, [])
    happen (peer_sends b) p =
        let (status', code, calls) = handle_sync_data b p.imp.status in
        (record p { imp = record p.imp { status = status' } }, calls)
    happen (initializes a k) p = (record p { imp = (initialize a k p.imp).0 }, [])
    happen (releases outcome) p = (release_step outcome p.release_pc p, [])
    happen (switches now) p =
        let (imp', e, calls) = Interface.switch now p.imp in (record p { imp = imp' }, calls)
    happen (registers c) p = (record p { imp = Interface.register_callback c p.imp }, [])
    happen unregisters p = (record p { imp = Interface.un_register_callback p.imp }, [])
    happen (sends_data b) p = (record p { net = (sync_data R b p.imp p.net).0 }, [])
    happen (net_changes net') p = (record p { net = net' }, [])

    unfoldable pub happen_all : List Event → Process → Process × List CallbackCall
    happen_all [] p = (p, [])
    happen_all (e ∷ es) p =
        let (p', calls) = happen e p in let (p'', rest) = happen_all es p' in (p'', calls ++ rest)

    -- `Initialize` is not called inside `Release`, nor while the thread of the service still runs
    -- because its server would not stop: then the library would wait for that thread.
    abbrev pub IsAllowed : Event → Process → Type 0
    IsAllowed (initializes a k) p = (p.release_pc ≡ outside) × HasReturned p.imp.service.thread
    IsAllowed _ p = Unit

    abbrev pub AllAllowed : List Event → Process → Type 0
    AllAllowed [] p = Unit
    AllAllowed (e ∷ es) p = IsAllowed e p × AllAllowed es (happen e p).0
