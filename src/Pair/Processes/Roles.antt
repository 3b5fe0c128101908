-- ===== src/Pair/Processes/Roles.antt =====
-- The roles of two nodes with their whole processes (Sinboha/SinbohaImp.cpp, SinbohaSync.cpp).
use sinboha.Prelude.{ℕ, ◌≡◌, ◌⊎◌, refl, List, arith}
use sinboha.Types.{active, standby}
use sinboha.Chrono.{TimePoint, IsClock}
use sinboha.Types.{SinbohaStatus}
use sinboha.StatusRep.{StatusRep}
use sinboha.StatusRep.Changes.{Method, registered, unregistered, received, perform}
use sinboha.Pair.Interleaving.{Side, first, second, Channel, idle, System, set_node}
use sinboha.Pair.Interleaving.Leader.{Outranks, IsLed, quiet-IsLed, Beats-IsLed}
use sinboha.Pair.Interleaving.Leader.Follow.{Beats-stays_active, Beats-stays_standby}
use sinboha.Pair.Processes.{Nodes, Moment, take_moments, view}
use sinboha.Pair.Processes.Steps.{IsClosed, AllAllowed, take_moments-Rel}

-- A method that neither a manual switch nor a check that found the peer silent calls.
abbrev pub IsCalm : Method → Type 0
IsCalm (registered c) = Unit
IsCalm unregistered = Unit
IsCalm (received b) = Unit
IsCalm _ = ⊥

calm-kept :
    (m : Method) (r : StatusRep)
    → IsCalm m
    → let r' = (perform m r).0 in (r'.status ≡ r.status) × (r'.change_time ≡ r.change_time)
unfolding perform
calm-kept m r h = ground arith

module _ (ticks : ℕ) (sa : SinbohaStatus) (ta : TimePoint) (sb : SinbohaStatus)
    (tb : TimePoint) where
  -- The picture stays, and so does what is active or standby.
  abbrev pub Keeps : System → System → Type 0
  Keeps s u =
      IsLed ticks sa ta sb tb s
      → IsLed ticks sa ta sb tb u
        × ((s.node first).status ≡ active → (u.node first).status ≡ active)
        × ((s.node second).status ≡ standby → (u.node second).status ≡ standby)

  Keeps-method :
      (s : System) (p : Side) (m : Method)
      → IsCalm m
      → Keeps s (set_node s p (perform m (s.node p)).0)
  Keeps-method s first m calm h =
      let (es, et) = calm-kept m (s.node first) calm in
      (
        record {
          leads = rw (es, et) h.leads;
          follows = h.follows;
          calls_lead = h.calls_lead;
          calls_follow = h.calls_follow;
        },
        λ a. rw es a,
        λ b. b,
      )
  Keeps-method s second m calm h =
      let (es, et) = calm-kept m (s.node second) calm in
      (
        record {
          leads = h.leads;
          follows = rw (es, et) h.follows;
          calls_lead = h.calls_lead;
          calls_follow = h.calls_follow;
        },
        λ a. a,
        λ b. rw es b,
      )

  module _ (ca : IsClock ta) (cb : IsClock tb) (o : Outranks ticks sa ta sb tb) where
    pub Keeps-IsClosed : IsClosed ticks Keeps IsCalm
    Keeps-IsClosed = record {
      stays = λ s h. (h, λ a. a, λ b. b);
      follows = λ k l h.
          let (h', a, b) = k h in let (h'', a', b') = l h' in (h'', λ x. a' (a x), λ x. b' (b x));
      by_beats = λ r h. (
        Beats-IsLed ticks sa ta sb tb ca cb o h r,
        Beats-stays_active ticks sa ta sb tb ca cb o r h,
        Beats-stays_standby ticks sa ta sb tb ca cb o r h,
      );
      by_method = Keeps-method;
    }

module _ (ticks : ℕ) where
  -- Let the first of two nodes outrank the second, both with times of change after 1970, and let no
  -- heartbeat have a call under way. Let anything happen to their two whole processes, in any order
  -- and with any messages lost, but no manual switch and no check that acts on a silent peer, and let
  -- what reaches a process be what the other one sends. Then at every moment the first has its old
  -- status or is active, and the second has its old status or is standby; and from a moment at which
  -- the first is active it stays so, and from one at which the second is standby it stays so.
  pub take_moments-roles :
      (d : Nodes) (ms ns : List (Moment ticks))
      → IsClock (d.imp first).status.change_time
      → IsClock (d.imp second).status.change_time
      → Outranks ticks
          (d.imp first).status.status
          (d.imp first).status.change_time
          (d.imp second).status.status
          (d.imp second).status.change_time
      → ((p : Side) (c : Channel) → (view d).call p c ≡ idle)
      → AllAllowed ticks IsCalm ms d
      → AllAllowed ticks IsCalm ns (take_moments ticks ms d)
      → let s = view d in
        let t = view (take_moments ticks ms d) in
        let u = view (take_moments ticks ns (take_moments ticks ms d)) in
        (((t.node first).status ≡ (s.node first).status) ⊎ ((t.node first).status ≡ active))
        × (((t.node second).status ≡ (s.node second).status) ⊎ ((t.node second).status ≡ standby))
        × ((t.node first).status ≡ active → (u.node first).status ≡ active)
        × ((t.node second).status ≡ standby → (u.node second).status ≡ standby)
  take_moments-roles d ms ns ca cb o quiet before later =
      let a = (d.imp first).status in
      let b = (d.imp second).status in
      let closed = Keeps-IsClosed ticks a.status a.change_time b.status b.change_time ca cb o in
      let begin =
        quiet-IsLed ticks a.status a.change_time b.status b.change_time (view d) refl refl refl refl
          quiet in
      let led = (take_moments-Rel ticks closed ms d before begin).0 in
      let (end, leads, follows) =
        take_moments-Rel ticks closed ns (take_moments ticks ms d) later led in
      (ground (arith, led.leads), ground (arith, led.follows), leads, follows)
