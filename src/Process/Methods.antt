-- ===== src/Process/Methods.antt =====
-- The process as the status of its node sees it: the calls of the methods of SinbohaStatusRep
-- (Sinboha/SinbohaImp.cpp) that an event makes.
use sinboha.Prelude.{ℕ, ◌≡◌, refl, true, false, List, [], ◌∷◌, ◌++◌, arith, ap}
use mathlib.Core.List.{append_assoc, append-nil}
use sinboha.Types.{status_of_i16}
use sinboha.Chrono.{TimePoint, of_milliseconds}
use sinboha.StatusRep.{StatusRep}
use sinboha.StatusRep.Changes.{
  Method, ask, answered, switched, registered, unregistered, received, split_found, perform,
  perform_all,
}
use sinboha.RpcHandler.{handle_can_you_activate_me, handle_sync_data}
use sinboha.NetClient.{Remote, Outcome}
use sinboha.Sync
use sinboha.Sync.{BeatPc}
use sinboha.BrainSplit
use sinboha.BrainSplit.{CheckPc}
use sinboha.Imp.Interface
use sinboha.Imp.{Imp, Settings, Starts, initialize}
use sinboha.Process.{
  Process, Event, heartbeat_runs, check_runs, service_runs, peer_asks, peer_sends, initializes,
  releases, switches, registers, unregisters, sends_data, net_changes, happen, happen_all,
}

-- What a heartbeat does to the status where it stands.
abbrev pub beat_methods : TimePoint → TimePoint → BeatPc → List Method
beat_methods live now (Sync.at_apply i activate) = answered live now activate ∷ []
beat_methods live now _ = []

abbrev pub check_methods : TimePoint → CheckPc → List Method
check_methods now BrainSplit.at_split = split_found now ∷ []
check_methods now _ = []

module _ (R : Remote) (ticks : ℕ) where
  abbrev pub methods : Event R → Process R → List Method
  methods (heartbeat_runs true live now) p = beat_methods live now p.imp.primary.thread
  methods (heartbeat_runs false live now) p = beat_methods live now p.imp.secondary.thread
  methods (check_runs now) p = check_methods now p.imp.checker.thread
  methods (peer_asks heard t s) p = ask heard (of_milliseconds ticks t) (status_of_i16 s) ∷ []
  methods (peer_sends b) p = received b ∷ []
  methods (switches now) p = switched now ∷ []
  methods (registers c) p = registered c ∷ []
  methods unregisters p = unregistered ∷ []
  methods _ p = []

  beat-perform :
      (live now : TimePoint) (w : Sync.World R)
      → let (w', calls) = Sync.thread_step R ticks live now w in
        (w'.node, calls) ≡ perform_all (beat_methods live now w.sync.thread) w.node
  unfolding Sync.thread_step perform_all perform
  beat-perform live now w = ground arith

  check-perform :
      (now : TimePoint) (b : BrainSplit.BrainSplit) (r : StatusRep)
      → let (b', r', calls) = BrainSplit.thread_step ticks now b r in
        (r', calls) ≡ perform_all (check_methods now b.thread) r
  unfolding BrainSplit.thread_step perform_all perform
  check-perform now b r = ground arith

  initialize-status : (a : Settings) (k : Starts) (m : Imp) → (initialize a k m).0.status ≡ m.status
  unfolding initialize
  initialize-status a k m = ground arith

  release-status :
      (o : Outcome (Unit {0})) (p : Process R)
      → (happen R ticks (releases o) p).0.imp.status ≡ p.imp.status
  unfolding happen
  release-status o p = ground arith

  pub happen-perform :
      (e : Event R) (p : Process R)
      → let (p', calls) = happen R ticks e p in
        (p'.imp.status, calls) ≡ perform_all (methods e p) p.imp.status
  unfolding happen perform_all perform handle_can_you_activate_me handle_sync_data Interface.switch
      Interface.register_callback Interface.un_register_callback
  happen-perform (heartbeat_runs true live now) p =
      beat-perform live now (record { sync = p.imp.primary; node = p.imp.status; net = p.net })
  happen-perform (heartbeat_runs false live now) p =
      beat-perform live now (record { sync = p.imp.secondary; node = p.imp.status; net = p.net })
  happen-perform (check_runs now) p = check-perform now p.imp.checker p.imp.status
  happen-perform (service_runs o) p = refl
  happen-perform (peer_asks heard t s) p = refl
  happen-perform (peer_sends b) p = rw append-nil
  happen-perform (initializes a k) p = rw (initialize-status a k p.imp)
  happen-perform (releases o) p = ap (λ r. (r, [])) (release-status o p)
  happen-perform (switches now) p = rw append-nil
  happen-perform (registers c) p = refl
  happen-perform unregisters p = refl
  happen-perform (sends_data b) p = refl
  happen-perform (net_changes net') p = refl

  -- All the method calls that a sequence of events makes.
  unfoldable pub all_methods : List (Event R) → Process R → List Method
  all_methods [] p = []
  all_methods (e ∷ es) p = methods e p ++ all_methods es (happen R ticks e p).0

  perform_all-append :
      (ms ns : List Method) (r : StatusRep)
      → perform_all (ms ++ ns) r ≡ (
          let (r', calls) = perform_all ms r in
          let (r'', rest) = perform_all ns r' in (r'', calls ++ rest))
  unfolding perform_all
  perform_all-append [] ns r = refl
  perform_all-append (m ∷ ms) ns r = simp (perform_all-append ms ns, append_assoc)

  -- Whatever the threads of the process, its peer and the callers of its interface do, in whatever
  -- order, the status of the node and the calls of its callback are those of a sequence of method
  -- calls, which `all_methods` reads off.
  pub happen_all-perform_all :
      (es : List (Event R)) (p : Process R)
      → let (p', calls) = happen_all R ticks es p in
        (p'.imp.status, calls) ≡ perform_all (all_methods es p) p.imp.status
  unfolding happen_all all_methods perform_all
  happen_all-perform_all [] p = refl
  happen_all-perform_all (e ∷ es) p =
      let p' = (happen R ticks e p).0 in
      rw (
        perform_all-append (methods e p) (all_methods es p') p.imp.status,
        ← happen-perform e p,
        ← happen_all-perform_all es p',
      )
