-- ===== src/Pair/Processes/Convergence.antt =====
-- Two whole processes that reach and hear each other (Sinboha/SinbohaImp.cpp, SinbohaSync.cpp,
-- SinbohaBrainSplit.cpp) come to the roles that their statuses and times of change give them.
use sinboha.Prelude.{ℕ, ◌≤◌, ◌≡◌, inl, inr, refl, true, List, [], ◌∷◌, arith}
use sinboha.Types.{SinbohaStatus, active, standby}
use sinboha.Chrono.{TimePoint, IsClock}
use sinboha.Process.{heartbeat_runs, happen, heartbeat_step}
use sinboha.Pair.Interleaving.{Side, first, second, Channel, primary, idle}
use sinboha.Pair.Interleaving.Leader.{Outranks, IsLed, quiet-IsLed}
use sinboha.Pair.Threads.{network}
use sinboha.Pair.Threads.Roles.{IsFollowing, leader_step, follower_step}
use sinboha.Pair.Processes.{Nodes, Moment, moment, take_moment, take_moments, view}
use sinboha.Pair.Processes.Steps.{AllAllowed, IsAllowed, take_moments-Rel}
use sinboha.Pair.Processes.Roles.{IsCalm, Keeps-IsClosed}
use sinboha.Pair.Processes.Timely.{AllInTime, NoneSilent, AllInTime-AllAllowed}
use sinboha.Pair.Processes.Settle.{IsBeating}
use sinboha.Pair.Processes.Agreement.{NoRelease, NoRelease-parts, take_moment-IsBeating}
use sinboha.Pair.Processes.Progress.{steps_left, steps_left-bounds}
use sinboha.Pair.Processes.Arrival.{own_step, own_steps, AllArrive, take_moment-Nearer}

-- The status that is meant for a side.
abbrev goal : Side → SinbohaStatus
goal first = active
goal second = standby

module _ (ticks : ℕ) (sa : SinbohaStatus) (ta : TimePoint) (sb : SinbohaStatus)
    (tb : TimePoint) where
  follows_now :
      (p : Side) (m : Moment ticks) (d : Nodes)
      → own_step ticks p m ≡ 1
      → IsFollowing (d.imp p).primary.thread
      → IsLed ticks sa ta sb tb (view d)
      → ((take_moment ticks m d).imp p).status.status ≡ goal p
  unfolding take_moment happen heartbeat_step
  follows_now first (moment first heard fate (heartbeat_runs true live now)) d own f led =
      leader_step (network ticks heard fate) ticks sa ta live now
        (record {
          sync = (d.imp first).primary;
          node = (d.imp first).status;
          net = ((d.imp second).status, []);
        })
        f (led.calls_lead primary)
  follows_now second (moment second heard fate (heartbeat_runs true live now)) d own f led =
      follower_step (network ticks heard fate) ticks sb tb live now
        (record {
          sync = (d.imp second).primary;
          node = (d.imp second).status;
          net = ((d.imp first).status, []);
        })
        f (led.calls_follow primary)
  follows_now p (moment q heard fate e) d own f led = ground arith

  module _ (ca : IsClock ta) (cb : IsClock tb) (o : Outranks ticks sa ta sb tb) where
    take_moment-IsLed :
        (m : Moment ticks) (d : Nodes)
        → IsAllowed ticks IsCalm m d
        → IsLed ticks sa ta sb tb (view d)
        → IsLed ticks sa ta sb tb (view (take_moment ticks m d))
    unfolding take_moments
    take_moment-IsLed m d own led =
        (take_moments-Rel ticks (Keeps-IsClosed ticks sa ta sb tb ca cb o) (m ∷ []) d (own, tt)
          led).0

    keeps_goal :
        (p : Side) (ms : List (Moment ticks)) (d : Nodes)
        → AllAllowed ticks IsCalm ms d
        → IsLed ticks sa ta sb tb (view d)
        → (d.imp p).status.status ≡ goal p
        → ((take_moments ticks ms d).imp p).status.status ≡ goal p
    keeps_goal first ms d own led g =
        (take_moments-Rel ticks (Keeps-IsClosed ticks sa ta sb tb ca cb o) ms d own led).1 g
    keeps_goal second ms d own led g =
        (take_moments-Rel ticks (Keeps-IsClosed ticks sa ta sb tb ca cb o) ms d own led).2 g

    -- A thread that makes as many steps as it is away from an answer follows one.
    steps_enough :
        (p : Side) (ms : List (Moment ticks)) (d : Nodes)
        → AllAllowed ticks IsCalm ms d
        → NoRelease ticks ms
        → AllArrive ticks ms
        → ((q : Side) → IsBeating (d.imp q).primary)
        → IsLed ticks sa ta sb tb (view d)
        → steps_left (d.imp p).primary ≤ own_steps ticks p ms
        → ((take_moments ticks ms d).imp p).status.status ≡ goal p
    unfolding take_moments
    steps_enough p [] d own quiet arrive beating led enough =
        let b = steps_left-bounds (d.imp p).primary (beating p) in ground arith
    steps_enough p (m ∷ ms) d own quiet arrive beating led enough =
        let (now, later) = NoRelease-parts ticks m ms quiet in
        let d' = take_moment ticks m d in
        let led' = take_moment-IsLed m d own.0 led in
        elim (take_moment-Nearer ticks p m d now arrive.0 beating) [
          | inl x ↦ keeps_goal p ms d' own.1 led' (follows_now p m d x.0 x.1 led)
          | inr l ↦
              steps_enough p ms d' own.1 later arrive.1
                (take_moment-IsBeating ticks m d now beating) led' (omega arith)
        ]

module _ (ticks : ℕ) where
  -- Let the first of two nodes outrank the second, both with times of change after 1970; let their
  -- primary heartbeats run, no heartbeat have a call under way, and no check have found its peer
  -- silent. Let anything happen to the two whole processes, in any order, but no manual switch and no
  -- `Release`; let the calls of the primary heartbeats arrive, whatever a check compares be within
  -- its limit, and what reaches a process be what the other one sends. Once each of the two threads
  -- has made ten steps, the first node is active and the second is standby.
  pub take_moments-converge :
      (d : Nodes) (ms : List (Moment ticks))
      → IsClock (d.imp first).status.change_time
      → IsClock (d.imp second).status.change_time
      → Outranks ticks
          (d.imp first).status.status
          (d.imp first).status.change_time
          (d.imp second).status.status
          (d.imp second).status.change_time
      → ((p : Side) → IsBeating (d.imp p).primary)
      → ((p : Side) (c : Channel) → (view d).call p c ≡ idle)
      → NoneSilent ticks d
      → AllInTime ticks ms d
      → NoRelease ticks ms
      → AllArrive ticks ms
      → 10 ≤ own_steps ticks first ms
      → 10 ≤ own_steps ticks second ms
      → let e = take_moments ticks ms d in
        ((e.imp first).status.status ≡ active) × ((e.imp second).status.status ≡ standby)
  take_moments-converge d ms ca cb o beating quiet none in_time no_release arrive many many' =
      let a = (d.imp first).status in
      let b = (d.imp second).status in
      let led =
        quiet-IsLed ticks a.status a.change_time b.status b.change_time (view d) refl refl refl refl
          quiet in
      let own = AllInTime-AllAllowed ticks ms d in_time none in
      let bound = steps_left-bounds (d.imp first).primary (beating first) in
      let bound' = steps_left-bounds (d.imp second).primary (beating second) in
      let reach = λ (p : Side).
        steps_enough ticks a.status a.change_time b.status b.change_time ca cb o p ms d own
          no_release arrive beating led in
      (reach first (omega arith), reach second (omega arith))
