-- ===== src/Pair/Processes/Agreement.antt =====
-- Two whole processes that have come any way, with their primary heartbeats (Sinboha/SinbohaSync.cpp)
-- not released, and the steps of their threads that settle the roles.
use sinboha.Prelude.{ℕ, ◌≢◌, choice, List, [], ◌∷◌, arith}
use sinboha.Types.{IsNamed}
use sinboha.Chrono.{IsClock}
use sinboha.NetClient.{Remote}
use sinboha.Sync
use sinboha.Imp.{Imp, initialize}
use sinboha.Imp.Interface
use sinboha.Process.{Process, Event, happen, heartbeat_step}
use sinboha.Process.Lifetime.{IsRelease}
use sinboha.Pair.{Readings, IsResolved}
use sinboha.Pair.Interleaving.{Side, same_side, first, second}
use sinboha.Pair.Interleaving.Recovery.{IsOwn, both_named, Acts-BothNamed}
use sinboha.Pair.Threads.{network}
use sinboha.Pair.Processes.{Nodes, Moment, moment, process_of, take_moment, take_moments, view}
use sinboha.Pair.Processes.Steps.{AllAllowed}
use sinboha.Pair.Processes.Recovery.{take_moments-Acts}
use sinboha.Pair.Processes.Settle.{IsBeating}
use sinboha.Pair.Processes.Resolve.{resolving, resolving-IsResolved}

-- What is beating is not stopped by anything but a `Release`.
happen-IsBeating :
    (R : Remote) (ticks : ℕ) (e : Event R) (p : Process R)
    → ¬ IsRelease R ticks e
    → IsBeating p.imp.primary
    → IsBeating (happen R ticks e p).0.imp.primary
unfolding happen heartbeat_step initialize Sync.start Sync.thread_step Interface.switch
    Interface.register_callback Interface.un_register_callback
happen-IsBeating R ticks e p n h = ground arith

module _ (ticks : ℕ) where
  -- Nobody calls `Release`.
  abbrev pub NoRelease : List (Moment ticks) → Type 0
  NoRelease [] = Unit
  NoRelease (moment p heard fate e ∷ ms) =
      (¬ IsRelease (network ticks heard fate) ticks e) × NoRelease ms

  pub take_moment-IsBeating :
      (m : Moment ticks) (d : Nodes)
      → NoRelease (m ∷ [])
      → ((p : Side) → IsBeating (d.imp p).primary)
      → (p : Side) → IsBeating ((take_moment ticks m d).imp p).primary
  unfolding take_moment
  take_moment-IsBeating (moment p heard fate e) d n h q =
      choice (λ (m : Imp). IsBeating m.primary) (same_side p q)
        (happen-IsBeating (network ticks heard fate) ticks e (process_of ticks heard fate p d) n.0
          (h p))
        (h q)

  pub NoRelease-parts :
      (m : Moment ticks) (ms : List (Moment ticks))
      → NoRelease (m ∷ ms)
      → NoRelease (m ∷ []) × NoRelease ms
  NoRelease-parts (moment p heard fate e) ms n = ((n.0, tt), n.1)

  take_moments-IsBeating :
      (ms : List (Moment ticks)) (d : Nodes)
      → NoRelease ms
      → ((p : Side) → IsBeating (d.imp p).primary)
      → (p : Side) → IsBeating ((take_moments ticks ms d).imp p).primary
  unfolding take_moments
  take_moments-IsBeating [] d n h = h
  take_moments-IsBeating (m ∷ ms) d n h =
      let (now, later) = NoRelease-parts m ms n in
      take_moments-IsBeating ms (take_moment ticks m d) later (take_moment-IsBeating m d now h)

  -- From wherever the processes have come to without a `Release`, the steps of `resolving`, in which
  -- the connections are made anew, make one node active and the other its standby.
  pub take_moments-resolving :
      (ms : List (Moment ticks)) (d : Nodes) (t u : Readings)
      → ((p : Side) → IsBeating (d.imp p).primary)
      → ((p : Side) → IsNamed (d.imp p).status.status)
      → NoRelease ms
      → AllAllowed ticks IsOwn ms d
      → let e = take_moments ticks ms d in
        ((p : Side) → IsClock (e.imp p).status.change_time)
        → IsClock t.now
        → IsClock u.now
        → (e.imp first).status.change_time ≢ (e.imp second).status.change_time
        → (e.imp first).status.change_time ≢ u.now
        → t.now ≢ (e.imp second).status.change_time
        → t.now ≢ u.now
        → let d' = take_moments ticks (resolving ticks t u e) e in
          IsResolved (d'.imp first).status (d'.imp second).status
  take_moments-resolving ms d t u beating named quiet own clocks =
      let e = take_moments ticks ms d in
      let still = take_moments-IsBeating ms d quiet beating in
      let names =
        Acts-BothNamed ticks (take_moments-Acts ticks ms d own)
          (both_named ticks (view d) (named first) (named second)) in
      resolving-IsResolved ticks t u e (still first) (still second) (names first) (names second)
        (clocks first) (clocks second)
