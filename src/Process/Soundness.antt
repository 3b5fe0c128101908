-- ===== src/Process/Soundness.antt =====
-- The flags and the threads of a process (Sinboha/SinbohaImp.cpp, SinbohaSync.cpp,
-- SinbohaBrainSplit.cpp, SinbohaNetService.cpp), and how they belong together.
use sinboha.Prelude.{ℕ, ◌≡◌, ◌≢◌, refl, true, false, none, List, [], ◌∷◌, arith}
use sinboha.Chrono.{TimePoint}
use sinboha.StatusRep.{StatusRep}
use sinboha.NetClient.{Remote, Outcome}
use sinboha.NetService
use sinboha.NetService.{ServicePc, NetService, new_net_service}
use sinboha.Sync
use sinboha.Sync.{BeatPc, Sync, new_sync}
use sinboha.BrainSplit
use sinboha.BrainSplit.{CheckPc, BrainSplit, new_brain_split}
use sinboha.Imp.Interface
use sinboha.Imp.Interface.{Memory}
use sinboha.Imp.{Settings, Starts, initialize}
use sinboha.Process.{
  ReleasePc, outside, checker_waits, secondary_stops, secondary_waits, primary_stops, primary_waits,
  service_stops, service_waits, HasReturned, Process, Event, heartbeat_runs, check_runs,
  service_runs, peer_asks, peer_sends, initializes, releases, switches, registers, unregisters,
  sends_data, net_changes, happen, happen_all, IsAllowed, AllAllowed,
}

-- A thread that was started and has not returned, and one that was not started or has returned.
abbrev pub Beats : BeatPc → Type 0
Beats Sync.no_thread = ⊥
Beats Sync.finished = ⊥
Beats _ = Unit

abbrev pub HasEnded : BeatPc → Type 0
HasEnded Sync.no_thread = Unit
HasEnded Sync.finished = Unit
HasEnded _ = ⊥

abbrev pub Checks : CheckPc → Type 0
Checks BrainSplit.no_thread = ⊥
Checks BrainSplit.finished = ⊥
Checks _ = Unit

abbrev pub HasChecked : CheckPc → Type 0
HasChecked BrainSplit.no_thread = Unit
HasChecked BrainSplit.finished = Unit
HasChecked _ = ⊥

abbrev pub Serves : ServicePc → Type 0
Serves NetService.no_thread = ⊥
Serves NetService.finished = ⊥
Serves _ = Unit

-- A heartbeat, where `waits` is the point at which `Release` waits for it.
pub record IsSoundSync (waits pc : ReleasePc) (s : Sync) : Type 0 where
  pub runs : s.quit ≡ false → Beats s.thread × (s.network ≢ none)
  pub ended : s.quit ≡ true → pc ≢ waits → HasEnded s.thread
  pub awaited : pc ≡ waits → (s.quit ≡ true) × (s.thread ≢ Sync.no_thread) × (s.network ≢ none)

pub record IsSoundCheck (pc : ReleasePc) (b : BrainSplit) : Type 0 where
  pub runs : b.quit ≡ false → Checks b.thread
  pub ended : b.quit ≡ true → pc ≢ checker_waits → HasChecked b.thread
  pub awaited : pc ≡ checker_waits → (b.quit ≡ true) × (b.thread ≢ BrainSplit.no_thread)

-- If the server does not take the call of its `stop()`, the thread of a stopped service can go on.
pub record IsSoundService (pc : ReleasePc) (s : NetService) : Type 0 where
  pub runs : s.quit ≡ false → Serves s.thread
  pub awaited : pc ≡ service_waits → (s.quit ≡ true) × (s.thread ≢ NetService.no_thread)

module _ (R : Remote) where
  open R use {Net}

  pub record IsSound (p : Process R) : Type 0 where
    pub primary_sound : IsSoundSync primary_waits p.release_pc p.imp.primary
    pub secondary_sound : IsSoundSync secondary_waits p.release_pc p.imp.secondary
    pub checker_sound : IsSoundCheck p.release_pc p.imp.checker
    pub service_sound : IsSoundService p.release_pc p.imp.service

  module _ (ticks : ℕ) where
    beat-IsSoundSync :
        (waits pc : ReleasePc) (live now : TimePoint) (w : Sync.World R)
        → IsSoundSync waits pc w.sync
        → IsSoundSync waits pc (Sync.thread_step R ticks live now w).0.sync
    unfolding Sync.thread_step
    beat-IsSoundSync waits pc live now w h = ground arith

    check-IsSoundCheck :
        (pc : ReleasePc) (now : TimePoint) (b : BrainSplit) (r : StatusRep)
        → IsSoundCheck pc b
        → IsSoundCheck pc (BrainSplit.thread_step ticks now b r).0
    unfolding BrainSplit.thread_step
    check-IsSoundCheck pc now b r h = ground arith

    serve-IsSoundService :
        (pc : ReleasePc) (o : Outcome (Unit {0})) (s : NetService)
        → IsSoundService pc s
        → IsSoundService pc (NetService.thread_step o s)
    unfolding NetService.thread_step
    serve-IsSoundService pc o s h = ground arith

    release-IsSound :
        (o : Outcome (Unit {0})) (pc : ReleasePc) (p : Process R)
        → p.release_pc ≡ pc
        → IsSound p
        → IsSound (happen R ticks (releases o) p).0
    unfolding happen BrainSplit.stop_request BrainSplit.stop_finish Sync.stop_request
        Sync.stop_finish NetService.stop_request NetService.stop_finish
    release-IsSound o outside p e h = ground arith
    release-IsSound o checker_waits p e h = ground arith
    release-IsSound o secondary_stops p e h = ground arith
    release-IsSound o secondary_waits p e h = ground arith
    release-IsSound o primary_stops p e h = ground arith
    release-IsSound o primary_waits p e h = ground arith
    release-IsSound o service_stops p e h = ground arith
    release-IsSound o service_waits p e h = ground arith

  -- The status of the node and the world are not part of it.
  IsSound-status :
      (p : Process R) (r : StatusRep) (net' : Net)
      → IsSound p
      → IsSound (record p { imp = record p.imp { status = r }; net = net' })
  IsSound-status p r net' h = record {
    primary_sound = h.primary_sound;
    secondary_sound = h.secondary_sound;
    checker_sound = h.checker_sound;
    service_sound = h.service_sound;
  }

  initialize-IsSound :
      (a : Settings) (k : Starts) (p : Process R)
      → p.release_pc ≡ outside
      → HasReturned p.imp.service.thread
      → IsSound p
      → IsSound (record p { imp = (initialize a k p.imp).0 })
  unfolding initialize NetService.start Sync.start BrainSplit.start
  initialize-IsSound a k p e r h = ground arith

  module _ (ticks : ℕ) where
    -- Flags and threads stay together, whatever happens in the process.
    happen-IsSound :
        (e : Event R) (p : Process R)
        → IsAllowed R ticks e p
        → IsSound p
        → IsSound (happen R ticks e p).0
    unfolding happen Interface.switch Interface.register_callback Interface.un_register_callback
    happen-IsSound (heartbeat_runs true live now) p l h =
        let w : Sync.World R = record { sync = p.imp.primary; node = p.imp.status; net = p.net } in
        record {
          primary_sound =
              beat-IsSoundSync ticks primary_waits p.release_pc live now w h.primary_sound;
          secondary_sound = h.secondary_sound;
          checker_sound = h.checker_sound;
          service_sound = h.service_sound;
        }
    happen-IsSound (heartbeat_runs false live now) p l h =
        let w : Sync.World R = record {
          sync = p.imp.secondary;
          node = p.imp.status;
          net = p.net;
        } in
        record {
          primary_sound = h.primary_sound;
          secondary_sound =
              beat-IsSoundSync ticks secondary_waits p.release_pc live now w h.secondary_sound;
          checker_sound = h.checker_sound;
          service_sound = h.service_sound;
        }
    happen-IsSound (check_runs now) p l h = record {
      primary_sound = h.primary_sound;
      secondary_sound = h.secondary_sound;
      checker_sound =
          check-IsSoundCheck ticks p.release_pc now p.imp.checker p.imp.status h.checker_sound;
      service_sound = h.service_sound;
    }
    happen-IsSound (service_runs o) p l h = record {
      primary_sound = h.primary_sound;
      secondary_sound = h.secondary_sound;
      checker_sound = h.checker_sound;
      service_sound = serve-IsSoundService ticks p.release_pc o p.imp.service h.service_sound;
    }
    happen-IsSound (initializes a k) p l h = initialize-IsSound a k p l.0 l.1 h
    happen-IsSound (releases o) p l h = release-IsSound ticks o p.release_pc p refl h
    happen-IsSound (peer_asks heard t s) p l h = IsSound-status p _ _ h
    happen-IsSound (peer_sends b) p l h = IsSound-status p _ _ h
    happen-IsSound (switches now) p l h = IsSound-status p _ _ h
    happen-IsSound (registers c) p l h = IsSound-status p _ _ h
    happen-IsSound unregisters p l h = IsSound-status p _ _ h
    happen-IsSound (sends_data b) p l h = IsSound-status p _ _ h
    happen-IsSound (net_changes net') p l h = IsSound-status p _ _ h

    pub happen_all-IsSound :
        (es : List (Event R)) (p : Process R)
        → AllAllowed R ticks es p
        → IsSound p
        → IsSound (happen_all R ticks es p).0
    unfolding happen_all
    happen_all-IsSound [] p l h = h
    happen_all-IsSound (e ∷ es) p l h =
        happen_all-IsSound es (happen R ticks e p).0 l.1 (happen-IsSound e p l.0 h)

  -- The process before any call.
  abbrev pub new_process : TimePoint → TimePoint → Memory → Net → Process R
  new_process change live w net = record {
    imp = Interface.new_imp change live w;
    release_pc = outside;
    net = net;
  }

  pub new_process-IsSound :
      (change live : TimePoint) (w : Memory) (net : Net) → IsSound (new_process change live w net)
  unfolding Interface.new_imp new_sync new_brain_split new_net_service
  new_process-IsSound change live w net = ground arith
