-- ===== src/Pair/Interleaving/Leader.antt =====
-- Two nodes, of which the first outranks the second by status and time of change (Sinboha/SinbohaImp.cpp,
-- SinbohaSync.cpp), under any interleaving of their heartbeats.
pub mod Follow
use sinboha.Prelude.{choice, ℕ, ◌≡◌, ◌≢◌, ◌⊎◌, Bool, true, false, arith, inl}
use sinboha.Prelude.Int.{◌<ℤ◌}
use sinboha.Types.{SinbohaStatus, pending, active, standby, i16_of_status}
use sinboha.Chrono.{TimePoint, IsClock, over_wire, over_wire-le, to_milliseconds}
use sinboha.StatusRep.{StatusRep, query_change, try_activate}
use sinboha.RpcHandler.{handle_can_you_activate_me, handle_can_you_activate_me-verdict}
use sinboha.Pair.Interleaving.{
  Side, first, second, Channel, Call, idle, sent, answered, System, Beat, sends, is_heard, applies,
  fails, Beats, here, next, same_channel,
}

-- The first status and time are those of the node that is going to be active: the only active one, a
-- pending one beside a standby, the earlier of two that are both pending or both standby, or the
-- later of two that are both active; times are compared as they arrive at the peer.
abbrev pub Outranks : ℕ → SinbohaStatus → TimePoint → SinbohaStatus → TimePoint → Type 0
Outranks ticks active t active u = u <ℤ over_wire ticks t
Outranks ticks active t pending u = Unit
Outranks ticks active t standby u = Unit
Outranks ticks pending t standby u = Unit
Outranks ticks pending t pending u = t <ℤ over_wire ticks u
Outranks ticks standby t standby u = t <ℤ over_wire ticks u
Outranks ticks _ t _ u = ⊥

-- The node is as it was in the beginning, or has changed to the status that is meant for it.
abbrev pub IsOrBecomes :
    SinbohaStatus → SinbohaStatus → TimePoint → TimePoint → SinbohaStatus → Type 0
IsOrBecomes goal s t t' s' = ((s' ≡ s) × (t' ≡ t)) ⊎ ((s' ≡ goal) × (s ≢ goal))

-- The requests under way carry such a status, and the answers in hand are the right ones.
abbrev pub CallIs : SinbohaStatus → Bool → SinbohaStatus → TimePoint → Call → Type 0
CallIs goal yes_no s t idle = Unit
CallIs goal yes_no s t (sent t' s') = IsOrBecomes goal s t t' s'
CallIs goal yes_no s t (answered b) = b ≡ yes_no

-- One of the steps follows an answer that this side has got.
abbrev pub Follows : {ticks : ℕ} {s u : System} → Side → Beat ticks s u → Type 0
Follows p (sends q c e) = ⊥
Follows p (is_heard q c now t st e) = ⊥
Follows p (applies q c live now b e) = p ≡ q
Follows p (fails q c) = ⊥

abbrev pub HasFollowed : {ticks : ℕ} {s u : System} → Side → Beats ticks s u → Type 0
HasFollowed p here = ⊥
HasFollowed p (next r b) = HasFollowed p r ⊎ Follows p b

module _ (ticks : ℕ) (sa : SinbohaStatus) (ta : TimePoint) (sb : SinbohaStatus)
    (tb : TimePoint) where
  pub record IsLed (s : System) : Type 0 where
    pub leads : IsOrBecomes active sa ta (s.node first).change_time (s.node first).status
    pub follows : IsOrBecomes standby sb tb (s.node second).change_time (s.node second).status
    pub calls_lead : (c : Channel) → CallIs active true sa ta (s.call first c)
    pub calls_follow : (c : Channel) → CallIs standby false sb tb (s.call second c)

  pub leader_applies :
      (live now : TimePoint) (n : StatusRep)
      → IsOrBecomes active sa ta n.change_time n.status
      → let r = (try_activate live now true n).0 in
        IsOrBecomes active sa ta r.change_time r.status × (r.status ≡ active)
  unfolding try_activate
  leader_applies live now n h = ground arith

  pub follower_applies :
      (live now : TimePoint) (n : StatusRep)
      → IsOrBecomes standby sb tb n.change_time n.status
      → let r = (try_activate live now false n).0 in
        IsOrBecomes standby sb tb r.change_time r.status × (r.status ≡ standby)
  unfolding try_activate
  follower_applies live now n h = ground arith

  module _ (clock_a : IsClock ta) (clock_b : IsClock tb)
      (outranks : Outranks ticks sa ta sb tb) where
    follower_answers :
        (now t : TimePoint) (st : SinbohaStatus) (n : StatusRep)
        → IsOrBecomes active sa ta t st
        → IsOrBecomes standby sb tb n.change_time n.status
        → let (r, b) =
            handle_can_you_activate_me ticks now (to_milliseconds ticks t) (i16_of_status st) n in
          (b ≡ true) × IsOrBecomes standby sb tb r.change_time r.status
    follower_answers now t st n h k =
        let ra = over_wire-le ticks ta clock_a in
        let rb = over_wire-le ticks tb clock_b in
        rw (handle_can_you_activate_me-verdict ticks now t st n (ground arith)) (ground arith)

    leader_answers :
        (now t : TimePoint) (st : SinbohaStatus) (n : StatusRep)
        → IsOrBecomes standby sb tb t st
        → IsOrBecomes active sa ta n.change_time n.status
        → let (r, b) =
            handle_can_you_activate_me ticks now (to_milliseconds ticks t) (i16_of_status st) n in
          (b ≡ false) × IsOrBecomes active sa ta r.change_time r.status
    leader_answers now t st n h k =
        let ra = over_wire-le ticks ta clock_a in
        let rb = over_wire-le ticks tb clock_b in
        rw (handle_can_you_activate_me-verdict ticks now t st n (ground arith)) (ground arith)

    -- Every step of every heartbeat keeps the picture.
    pub Beat-IsLed : {s u : System} → Beat ticks s u → IsLed s → IsLed u
    unfolding query_change
    Beat-IsLed (sends first c e) h = record {
      leads = h.leads;
      follows = h.follows;
      calls_lead =
          λ d. choice (CallIs active true sa ta) (same_channel c d) h.leads (h.calls_lead d);
      calls_follow = h.calls_follow;
    }
    Beat-IsLed (sends second c e) h = record {
      leads = h.leads;
      follows = h.follows;
      calls_lead = h.calls_lead;
      calls_follow =
          λ d. choice (CallIs standby false sb tb) (same_channel c d) h.follows (h.calls_follow d);
    }
    Beat-IsLed {s} (is_heard first c now t st e) h =
        let r = follower_answers now t st (s.node second) (rw e at (h.calls_lead c)) h.follows in
        record {
          leads = h.leads;
          follows = r.1;
          calls_lead =
              λ d. choice (CallIs active true sa ta) (same_channel c d) r.0 (h.calls_lead d);
          calls_follow = h.calls_follow;
        }
    Beat-IsLed {s} (is_heard second c now t st e) h =
        let r = leader_answers now t st (s.node first) (rw e at (h.calls_follow c)) h.leads in
        record {
          leads = r.1;
          follows = h.follows;
          calls_lead = h.calls_lead;
          calls_follow =
              λ d. choice (CallIs standby false sb tb) (same_channel c d) r.0 (h.calls_follow d);
        }
    Beat-IsLed {s} (applies first c live now b e) h = record {
      leads = rw (rw e at (h.calls_lead c)) (leader_applies live now (s.node first) h.leads).0;
      follows = h.follows;
      calls_lead = λ d. choice (CallIs active true sa ta) (same_channel c d) tt (h.calls_lead d);
      calls_follow = h.calls_follow;
    }
    Beat-IsLed {s} (applies second c live now b e) h = record {
      leads = h.leads;
      follows =
          rw (rw e at (h.calls_follow c)) (follower_applies live now (s.node second) h.follows).0;
      calls_lead = h.calls_lead;
      calls_follow =
          λ d. choice (CallIs standby false sb tb) (same_channel c d) tt (h.calls_follow d);
    }
    Beat-IsLed (fails first c) h = record {
      leads = h.leads;
      follows = h.follows;
      calls_lead = λ d. choice (CallIs active true sa ta) (same_channel c d) tt (h.calls_lead d);
      calls_follow = h.calls_follow;
    }
    Beat-IsLed (fails second c) h = record {
      leads = h.leads;
      follows = h.follows;
      calls_lead = h.calls_lead;
      calls_follow =
          λ d. choice (CallIs standby false sb tb) (same_channel c d) tt (h.calls_follow d);
    }

    pub Beats-IsLed : {s u : System} → IsLed s → Beats ticks s u → IsLed u
    Beats-IsLed h here = h
    Beats-IsLed h (next r b) = Beat-IsLed b (Beats-IsLed h r)

  pub quiet-IsLed :
      (s : System)
      → (s.node first).status ≡ sa
      → (s.node first).change_time ≡ ta
      → (s.node second).status ≡ sb
      → (s.node second).change_time ≡ tb
      → ((p : Side) (c : Channel) → s.call p c ≡ idle)
      → IsLed s
  quiet-IsLed s ea eta eb etb quiet = record {
    leads = inl (ea, eta);
    follows = inl (eb, etb);
    calls_lead = λ c. rw (quiet first c) tt;
    calls_follow = λ c. rw (quiet second c) tt;
  }
