-- ===== src/Sync/Start.antt =====
-- `Start`, `Stop` and `SyncData` of SinbohaSync (Sinboha/SinbohaSync.cpp), and that its thread always
-- finds a connection object and ends after `Stop`.
use sinboha.Prelude.{
  ℕ, suc, ◌-◌, ◌≤◌, ◌≡◌, ◌≢◌, refl, ◌↔◌, ◌⊎◌, true, false, String, Option, none, some, List, [],
  ◌∷◌, ◌∙◌, arith,
}
use sinboha.Prelude.Int.{ℤ}
use sinboha.Types.{SinbohaError, error_ok, error_fail}
use sinboha.Chrono.{TimePoint}
use sinboha.Launch.{Launch, launched}
use sinboha.StatusRep.{StatusRep}
use sinboha.NetClient.{Remote, NetClient}
use sinboha.Sync.{
  BeatPc, no_thread, at_initialize, at_test, at_wait, at_query, at_call, at_apply, at_reset,
  finished, Sync, World, is_empty, start, stop_request, stop_finish, thread_step, release_network,
}

-- What `Start` has done when it succeeds, and when it fails.
pub record IsStart (address : String) (port timeout heartbeat : ℤ) (client : NetClient)
    (how : Launch) (s s' : Sync) (e : SinbohaError) : Type 0 where
  pub succeeds : (e ≡ error_ok) ↔ ((is_empty address ≡ false) × (s.quit ≡ true) × (how ≡ launched))
  pub two_valued : (e ≡ error_ok) ⊎ (e ≡ error_fail)
  pub runs :
      e ≡ error_ok → (s'.thread ≡ at_initialize) × (s'.quit ≡ false) × (s'.network ≡ some client)
  pub untouched : e ≢ error_ok → (s'.thread ≡ s.thread) × (s'.quit ≡ s.quit)
  pub stored :
      (s'.peer_address ≡ address)
      × (s'.peer_port ≡ port)
      × (s'.network_timeout ≡ timeout)
      × (s'.heartbeat ≡ heartbeat)

-- `Start` succeeds exactly if the address is not empty, no thread is wanted yet and the library
-- starts one, which then stands at its first statement with the new connection object. A `Start`
-- that fails leaves thread and flag alone, but every `Start` takes over its parameters, also under a
-- thread that runs.
pub start-IsStart :
    (address : String) (port timeout heartbeat : ℤ) (client : NetClient) (how : Launch) (s : Sync)
    → let (s', e) = start address port timeout heartbeat client how s in
      IsStart address port timeout heartbeat client how s s' e
unfolding start
start-IsStart address port timeout heartbeat client how s = ground arith

-- The steps that are left at most before the thread looks at the flag and returns.
abbrev pub steps_left : BeatPc → ℕ
steps_left no_thread = 0
steps_left finished = 0
steps_left (at_test i) = 1
steps_left (at_wait i) = 1
steps_left at_initialize = 2
steps_left (at_apply i b) = 2
steps_left (at_reset i) = 2
steps_left (at_call i t s) = 3
steps_left (at_query i) = 4

-- The thread has been started, and has a connection object.
pub record IsRunning (s : Sync) : Type 0 where
  pub started : s.thread ≢ no_thread
  pub connected : s.network ≢ none

module _ (R : Remote) where
  open R use {Net}

  thread_step-IsRunning :
      (ticks : ℕ) (live now : TimePoint) (w : World R)
      → IsRunning w.sync
      → let w' = (thread_step R ticks live now w).0 in
        IsRunning w'.sync
        × (w'.sync.quit ≡ w.sync.quit)
        × (w.sync.quit ≡ true → steps_left w'.sync.thread ≤ steps_left w.sync.thread - 1)
  unfolding thread_step
  thread_step-IsRunning ticks live now w h = ground arith

  -- What happens in the process, in its order: a step of the thread, or a change of the node or of
  -- the world by somebody else.
  pub data Turn : Type 0 where
    by_thread : TimePoint → TimePoint → Turn
    node_changes : StatusRep → Turn
    net_changes : Net → Turn

  unfoldable pub take_turns : ℕ → List Turn → World R → World R
  take_turns ticks [] w = w
  take_turns ticks (by_thread live now ∷ ts) w =
      take_turns ticks ts (thread_step R ticks live now w).0
  take_turns ticks (node_changes r ∷ ts) w = take_turns ticks ts (record w { node = r })
  take_turns ticks (net_changes net ∷ ts) w = take_turns ticks ts (record w { net = net })

  abbrev pub thread_turns : List Turn → ℕ
  thread_turns [] = 0
  thread_turns (by_thread live now ∷ ts) = suc (thread_turns ts)
  thread_turns (node_changes r ∷ ts) = thread_turns ts
  thread_turns (net_changes net ∷ ts) = thread_turns ts

  -- From a `Start` that succeeded on, the thread has a connection object at every moment: the tests
  -- `if (m_Network)` of its loop pass, and its first statement does not follow a null pointer.
  pub take_turns-IsRunning :
      (ticks : ℕ) (ts : List Turn) (w : World R)
      → IsRunning w.sync
      → IsRunning (take_turns ticks ts w).sync
  unfolding take_turns
  take_turns-IsRunning ticks [] w h = h
  take_turns-IsRunning ticks (by_thread live now ∷ ts) w h =
      let w' = (thread_step R ticks live now w).0 in
      take_turns-IsRunning ticks ts w' (thread_step-IsRunning ticks live now w h).0
  take_turns-IsRunning ticks (node_changes r ∷ ts) w h =
      take_turns-IsRunning ticks ts (record w { node = r }) h
  take_turns-IsRunning ticks (net_changes net ∷ ts) w h =
      take_turns-IsRunning ticks ts (record w { net = net }) h

  -- The thread leaves the flag alone.
  take_turns-quit :
      (ticks : ℕ) (ts : List Turn) (w : World R)
      → IsRunning w.sync
      → (take_turns ticks ts w).sync.quit ≡ w.sync.quit
  unfolding take_turns
  take_turns-quit ticks [] w h = refl
  take_turns-quit ticks (by_thread live now ∷ ts) w h =
      let w' = (thread_step R ticks live now w).0 in
      let (runs, same, fewer) = thread_step-IsRunning ticks live now w h in
      take_turns-quit ticks ts w' runs ∙ same
  take_turns-quit ticks (node_changes r ∷ ts) w h =
      take_turns-quit ticks ts (record w { node = r }) h
  take_turns-quit ticks (net_changes net ∷ ts) w h =
      take_turns-quit ticks ts (record w { net = net }) h

  take_turns-finished :
      (ticks : ℕ) (ts : List Turn) (w : World R)
      → IsRunning w.sync
      → w.sync.quit ≡ true
      → steps_left w.sync.thread ≤ thread_turns ts
      → (take_turns ticks ts w).sync.thread ≡ finished
  unfolding take_turns
  take_turns-finished ticks [] w h q l = ground (arith, h.started)
  take_turns-finished ticks (by_thread live now ∷ ts) w h q l =
      let w' = (thread_step R ticks live now w).0 in
      let (runs, same, fewer) = thread_step-IsRunning ticks live now w h in
      take_turns-finished ticks ts w' runs (same ∙ q) (omega (arith, fewer q))
  take_turns-finished ticks (node_changes r ∷ ts) w h q l =
      take_turns-finished ticks ts (record w { node = r }) h q l
  take_turns-finished ticks (net_changes net ∷ ts) w h q l =
      take_turns-finished ticks ts (record w { net = net }) h q l

  steps_left-le : (p : BeatPc) → steps_left p ≤ 4
  steps_left-le p = ground arith

  release_network-quit :
      (c : Option NetClient) (s : Sync) (net : Net) → (release_network R c s net).0.quit ≡ s.quit
  release_network-quit none s net = refl
  release_network-quit (some c) s net = refl

  stop_finish-finished :
      (s : Sync) (net : Net)
      → s.thread ≡ finished
      → (s' : Sync) × (net' : Net) × (stop_finish R s net ≡ some (s', net', error_ok))
        × (s'.quit ≡ s.quit)
  unfolding stop_finish
  stop_finish-finished s net h =
      let r = release_network R s.network s net in
      (r.0, r.1, rw h, release_network-quit s.network s net)

  -- Once `Stop` has set the flag, four more steps of the thread end it, at the latest, whatever the
  -- network answers and the other threads do to the node in between; then `Stop` returns success,
  -- with the flag set.
  pub stop-beat_finished :
      (ticks : ℕ) (ts : List Turn) (w : World R)
      → IsRunning w.sync
      → w.sync.quit ≡ false
      → 4 ≤ thread_turns ts
      → let (s', e) = stop_request w.sync in
        let w' = take_turns ticks ts (record w { sync = s' }) in
        (e ≡ none)
        × ((s'' : Sync) × (net' : Net) × (stop_finish R w'.sync w'.net ≡ some (s'', net', error_ok))
            × (s''.quit ≡ true))
  unfolding stop_request
  stop-beat_finished ticks ts w h q l =
      let s' = record w.sync { quit = true } in
      let short = steps_left-le s'.thread in
      let w' = record w { sync = s' } in
      let runs : IsRunning s' = record { started = h.started; connected = h.connected } in
      let done = take_turns-finished ticks ts w' runs refl (omega arith) in
      let w'' = take_turns ticks ts w' in
      let (s'', net', result, same) = stop_finish-finished w''.sync w''.net done in
      rw q (refl, (s'', net', result, same ∙ take_turns-quit ticks ts w' runs))
