-- ===== src/Pair/Processes/Recoverable.antt =====
-- Two whole processes with their primary heartbeats (Sinboha/SinbohaSync.cpp) not released: the roles
-- can be settled from wherever the processes have come to, by few steps of the two threads.
use sinboha.Prelude.{ℕ, ◌+◌, ◌≤◌, ◌≡◌, ◌≢◌, refl, true, List, [], ◌∷◌, ◌++◌, length, arith}
use sinboha.Types.{IsNamed}
use sinboha.Chrono.{IsClock}
use sinboha.Sync
use sinboha.Sync.{BeatPc, Sync}
use sinboha.Process.{heartbeat_runs}
use sinboha.Pair.{Readings, IsResolved}
use sinboha.Pair.Interleaving.{Side, first, second}
use sinboha.Pair.Interleaving.Recovery.{IsOwn}
use sinboha.Pair.Threads.{Fate}
use sinboha.Pair.Processes.{Nodes, Moment, moment, take_moments}
use sinboha.Pair.Processes.Steps.{AllAllowed}
use sinboha.Pair.Processes.Turns.{turns}
use sinboha.Pair.Processes.Settle.{IsBeating, settling}
use sinboha.Pair.Processes.Resolve.{settle, beat, whole_beat, resolving}
use sinboha.Pair.Processes.Agreement.{NoRelease, take_moments-resolving}
use sinboha.Pair.Processes.Arrival.{own_steps}

settling-length : (pc : BeatPc) → length (settling pc) ≤ 9
settling-length Sync.no_thread = omega arith
settling-length Sync.at_initialize = omega arith
settling-length (Sync.at_test i) = omega arith
settling-length (Sync.at_wait i) = omega arith
settling-length (Sync.at_query i) = omega arith
settling-length (Sync.at_call i t s) = omega arith
settling-length (Sync.at_apply i b) = omega arith
settling-length (Sync.at_reset i) = omega arith
settling-length Sync.finished = omega arith

module _ (ticks : ℕ) where
  -- A step of a primary heartbeat thread with these readings of the clocks, whatever becomes of the
  -- call that it may make.
  abbrev pub IsBeat : Readings → Readings → Moment ticks → Type 0
  IsBeat t u (moment first heard fate (heartbeat_runs true live now)) =
      (heard ≡ t.heard) × (live ≡ t.live) × (now ≡ t.now)
  IsBeat t u (moment second heard fate (heartbeat_runs true live now)) =
      (heard ≡ u.heard) × (live ≡ u.live) × (now ≡ u.now)
  IsBeat t u _ = ⊥

  abbrev pub AllBeat : Readings → Readings → List (Moment ticks) → Type 0
  AllBeat t u [] = Unit
  AllBeat t u (m ∷ ms) = IsBeat t u m × AllBeat t u ms

  module _ (t u : Readings) where
    -- Steps of the two primary heartbeats alone, at most so many of each.
    abbrev pub IsWithin : ℕ → ℕ → List (Moment ticks) → Type 0
    IsWithin n k ms =
        AllBeat t u ms × (own_steps ticks first ms ≤ n) × (own_steps ticks second ms ≤ k)

    AllBeat-append :
        (ms ns : List (Moment ticks)) → AllBeat t u ms → AllBeat t u ns → AllBeat t u (ms ++ ns)
    AllBeat-append [] ns h h' = h'
    AllBeat-append (m ∷ ms) ns h h' = (h.0, AllBeat-append ms ns h.1 h')

    own_steps_append :
        (p : Side) (ms ns : List (Moment ticks))
        → own_steps ticks p (ms ++ ns) ≤ own_steps ticks p ms + own_steps ticks p ns
    own_steps_append p [] ns = omega arith
    own_steps_append p (m ∷ ms) ns = let rest = own_steps_append p ms ns in omega arith

    IsWithin-append :
        (n k n' k' : ℕ) (ms ns : List (Moment ticks))
        → IsWithin n k ms
        → IsWithin n' k' ns
        → IsWithin (n + n') (k + k') (ms ++ ns)
    IsWithin-append n k n' k' ms ns (beats, few, few') (beats', some, some') =
        let one = own_steps_append first ms ns in
        let two = own_steps_append second ms ns in
        (AllBeat-append ms ns beats beats', omega arith, omega arith)

    turns-first : (fs : List Fate) → IsWithin (length fs) 0 (turns ticks first t fs)
    turns-first [] = (tt, omega arith, omega arith)
    turns-first (f ∷ fs) =
        let (beats, few, other) = turns-first fs in
        (((refl, refl, refl), beats), omega arith, omega arith)

    turns-second : (fs : List Fate) → IsWithin 0 (length fs) (turns ticks second u fs)
    turns-second [] = (tt, omega arith, omega arith)
    turns-second (f ∷ fs) =
        let (beats, other, few) = turns-second fs in
        (((refl, refl, refl), beats), omega arith, omega arith)

    settle-IsWithin :
        (a b : Sync) → IsWithin 9 9 (settle ticks first t a ++ settle ticks second u b)
    settle-IsWithin a b =
        let (beats, few, few') =
          IsWithin-append (length (settling a.thread)) 0 0 (length (settling b.thread))
            (settle ticks first t a) (settle ticks second u b) (turns-first (settling a.thread))
            (turns-second (settling b.thread)) in
        let short = settling-length a.thread in
        let short' = settling-length b.thread in (beats, omega arith, omega arith)

    beat-IsWithin : IsWithin 3 3 (beat ticks first t ++ beat ticks second u)
    beat-IsWithin =
        IsWithin-append 3 0 0 3 (beat ticks first t) (beat ticks second u) (turns-first whole_beat)
          (turns-second whole_beat)

    resolving-IsWithin : (d : Nodes) → IsWithin 12 12 (resolving ticks t u d)
    resolving-IsWithin d =
        let a = (d.imp first).primary in
        let b = (d.imp second).primary in
        IsWithin-append 9 9 3 3 (settle ticks first t a ++ settle ticks second u b)
          (beat ticks first t ++ beat ticks second u) (settle-IsWithin a b) beat-IsWithin

  -- Let the primary heartbeats of two whole processes run, and let their nodes have statuses with
  -- names. Let anything happen to them, in any order and with any messages lost, so that both may be
  -- active or neither, but let nobody call `Release`, and let what reaches a process be what the
  -- other one sends. From there the roles can be settled: there are steps of the two primary
  -- heartbeats alone, at most twelve of each, some of whose requests may be lost, after which one
  -- node is active and the other its standby. The times of change that are there, and the two
  -- readings of the clocks with which these steps are made, lie after 1970, and those of one node
  -- differ from those of the other.
  pub take_moments-recoverable :
      (ms : List (Moment ticks)) (d : Nodes) (t u : Readings)
      → ((p : Side) → IsBeating (d.imp p).primary)
      → ((p : Side) → IsNamed (d.imp p).status.status)
      → NoRelease ticks ms
      → AllAllowed ticks IsOwn ms d
      → let e = take_moments ticks ms d in
        ((p : Side) → IsClock (e.imp p).status.change_time)
        → IsClock t.now
        → IsClock u.now
        → (e.imp first).status.change_time ≢ (e.imp second).status.change_time
        → (e.imp first).status.change_time ≢ u.now
        → t.now ≢ (e.imp second).status.change_time
        → t.now ≢ u.now
        → (ns : List (Moment ticks)) × IsWithin t u 12 12 ns
          × (let d' = take_moments ticks ns e in
              IsResolved (d'.imp first).status (d'.imp second).status)
  take_moments-recoverable ms d t u beating named quiet own clocks ct cu d1 d2 d3 d4 =
      let e = take_moments ticks ms d in
      (
        resolving ticks t u e,
        resolving-IsWithin t u e,
        take_moments-resolving ticks ms d t u beating named quiet own clocks ct cu d1 d2 d3 d4,
      )
