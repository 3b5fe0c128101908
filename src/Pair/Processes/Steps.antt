-- ===== src/Pair/Processes/Steps.antt =====
-- What happens to two whole processes (Sinboha/SinbohaImp.cpp, SinbohaSync.cpp, SinbohaBrainSplit.cpp,
-- SinbohaNetService.cpp), for any relation of the two nodes before and after.
use sinboha.Prelude.{
  ℕ, ◌≡◌, ◌⊎◌, inl, inr, refl, ap, sym, subst, ◌∙◌, true, false, List, [], ◌∷◌, arith,
}
use sinboha.Chrono.{TimePoint}
use sinboha.StatusRep.Changes.{
  Method, switched, registered, unregistered, received, split_found, perform,
}
use sinboha.BrainSplit
use sinboha.BrainSplit.{BrainSplit, CheckPc}
use sinboha.Imp.Interface
use sinboha.Process.{
  Event, heartbeat_runs, check_runs, service_runs, peer_asks, peer_sends, initializes, releases,
  switches, registers, unregisters, sends_data, net_changes, happen, heartbeat_step,
}
use sinboha.Pair.Interleaving.{
  Side, other, Channel, primary, secondary, Call, idle, System, set_node, set_call, fails, Beats,
  here, next,
}
use sinboha.Pair.Threads.{Fate, network, call_of, thread_step-Move}
use sinboha.Pair.Threads.Steps.{Move-Beats, set_call_same}
use sinboha.Pair.Processes.{Nodes, Moment, moment, process_of, take_moment, take_moments, view}
use sinboha.Pair.Processes.Places.{
  after, after-same, after-primary, after-secondary, after-own, after-other, after-calls,
  after-equal,
}
use sinboha.Pair.Processes.Effects.{
  after-view, check-status, initialize-calls, sync_data-net, release-kept,
}

-- What is kept of two nodes when one follows from the other: a relation that holds of steps of
-- heartbeats, and of the methods that are allowed besides.
pub record IsClosed (ticks : ℕ) (Rel : System → System → Type 0) (Allowed : Method → Type 0)
    : Type 0 where
  pub stays : (s : System) → Rel s s
  pub follows : {s t u : System} → Rel s t → Rel t u → Rel s u
  pub by_beats : {s u : System} → Beats ticks s u → Rel s u
  pub by_method :
      (s : System) (p : Side) (m : Method)
      → Allowed m
      → Rel s (set_node s p (perform m (s.node p)).0)

module _ (ticks : ℕ) (Allowed : Method → Type 0) where
  abbrev pub SplitIsAllowed : TimePoint → CheckPc → Type 0
  SplitIsAllowed now BrainSplit.at_split = Allowed (split_found now)
  SplitIsAllowed now _ = Unit

  -- What happens calls no method but these, apart from the heartbeats, and is not what the peer does
  -- to a process: that is an event of the peer.
  abbrev pub IsAllowed : Moment ticks → Nodes → Type 0
  IsAllowed (moment p heard fate (check_runs now)) d = SplitIsAllowed now (d.imp p).checker.thread
  IsAllowed (moment p heard fate (switches now)) d = Allowed (switched now)
  IsAllowed (moment p heard fate (registers c)) d = Allowed (registered c)
  IsAllowed (moment p heard fate unregisters) d = Allowed unregistered
  IsAllowed (moment p heard fate (sends_data b)) d = Allowed (received b)
  IsAllowed (moment p heard fate (peer_asks t z s)) d = ⊥
  IsAllowed (moment p heard fate (peer_sends b)) d = ⊥
  IsAllowed (moment p heard fate (net_changes net)) d = ⊥
  IsAllowed _ d = Unit

  abbrev pub AllAllowed : List (Moment ticks) → Nodes → Type 0
  AllAllowed [] d = Unit
  AllAllowed (m ∷ ms) d = IsAllowed m d × AllAllowed ms (take_moment ticks m d)

module _ (ticks : ℕ) {Rel : System → System → Type 0} {Allowed : Method → Type 0}
    (C : IsClosed ticks Rel Allowed) where
  open C use {stays, follows, by_beats, by_method}

  Rel-at : {s u v : System} → v ≡ u → Rel s u → Rel s v
  Rel-at {s} e a = subst (Rel s) (sym e) a

  one_call :
      (s : System) (p : Side) (c : Channel) (k : Call)
      → (k ≡ s.call p c) ⊎ (k ≡ idle)
      → Rel s (set_call s p c k)
  one_call s p c k (inl e) = Rel-at (ap (set_call s p c) e ∙ set_call_same s p c) (stays s)
  one_call s p c k (inr e) = Rel-at (ap (set_call s p c) e) (by_beats (next here (fails p c)))

  two_calls :
      (s : System) (p : Side) (k l : Call)
      → (k ≡ s.call p primary) ⊎ (k ≡ idle)
      → (l ≡ s.call p secondary) ⊎ (l ≡ idle)
      → Rel s (after s p (s.node p) (s.node (other p)) k l)
  two_calls s p k l hk hl =
      let beside : ((set_call s p primary k).call p secondary ≡ s.call p secondary) =
        ground arith in
      Rel-at (after-calls s p k l) (
        follows (one_call s p primary k hk)
          (one_call (set_call s p primary k) p secondary l (rw beside hl)))

  -- An event of one side, with what it leaves of both nodes and of the calls of this side.
  event-Rel :
      (p : Side) (heard : TimePoint) (fate : Fate) (e : Event (network ticks heard fate))
      (d : Nodes)
      → IsAllowed ticks Allowed (moment p heard fate e) d
      → let x = (happen (network ticks heard fate) ticks e (process_of ticks heard fate p d)).0 in
        Rel (view d) (
          after
            (view d)
            p
            x.imp.status
            x.net.0
            (call_of x.imp.primary.thread)
            (call_of x.imp.secondary.thread))
  unfolding happen heartbeat_step perform Interface.switch Interface.register_callback
      Interface.un_register_callback
  event-Rel p heard fate (heartbeat_runs true live now) d own =
      Rel-at (after-primary (view d) p _ _ _) (
        by_beats (
          Move-Beats ticks (view d) p primary
            (thread_step-Move ticks live now heard fate (d.imp p).primary (d.imp p).status
              (d.imp (other p)).status [])
            refl))
  event-Rel p heard fate (heartbeat_runs false live now) d own =
      Rel-at (after-secondary (view d) p _ _ _) (
        by_beats (
          Move-Beats ticks (view d) p secondary
            (thread_step-Move ticks live now heard fate (d.imp p).secondary (d.imp p).status
              (d.imp (other p)).status [])
            refl))
  event-Rel p heard fate (check_runs now) d own =
      elim (check-status ticks now (d.imp p).checker (d.imp p).status) [
        | inl e ↦
            Rel-at (after-equal (view d) p e refl refl refl ∙ after-same (view d) p)
              (stays (view d))
        | inr (at, e) ↦ Rel-at (after-equal (view d) p e refl refl refl ∙ after-own (view d) p _) (
            by_method (view d) p (split_found now)
              (subst (SplitIsAllowed ticks Allowed now) at own))
      ]
  event-Rel p heard fate (service_runs o) d own = Rel-at (after-same (view d) p) (stays (view d))
  event-Rel p heard fate (initializes a k) d own =
      let (kp, ks, same) = initialize-calls ticks a k (d.imp p) in
      Rel-at (after-equal (view d) p same refl refl refl) (two_calls (view d) p _ _ kp ks)
  event-Rel p heard fate (releases o) d own =
      let (ea, eb, ek, el) = release-kept ticks heard fate o (process_of ticks heard fate p d) in
      Rel-at (after-equal (view d) p ea eb ek el ∙ after-same (view d) p) (stays (view d))
  event-Rel p heard fate (switches now) d own =
      Rel-at (after-own (view d) p _) (by_method (view d) p (switched now) own)
  event-Rel p heard fate (registers c) d own =
      Rel-at (after-own (view d) p _) (by_method (view d) p (registered c) own)
  event-Rel p heard fate unregisters d own =
      Rel-at (after-own (view d) p _) (by_method (view d) p unregistered own)
  event-Rel p heard fate (sends_data b) d own =
      elim (sync_data-net ticks heard fate b (d.imp p) (d.imp (other p)).status) [
        | inl e ↦
            Rel-at (after-equal (view d) p refl e refl refl ∙ after-same (view d) p)
              (stays (view d))
        | inr e ↦
            Rel-at (after-equal (view d) p refl e refl refl ∙ after-other (view d) p _)
              (by_method (view d) (other p) (received b) own)
      ]
  event-Rel p heard fate (peer_asks t z s) d own = elim own [ ]
  event-Rel p heard fate (peer_sends b) d own = elim own [ ]
  event-Rel p heard fate (net_changes net) d own = elim own [ ]

  take_moment-Rel :
      (m : Moment ticks) (d : Nodes)
      → IsAllowed ticks Allowed m d
      → Rel (view d) (view (take_moment ticks m d))
  take_moment-Rel (moment p heard fate e) d own =
      Rel-at (after-view ticks p heard fate e d) (event-Rel p heard fate e d own)

  -- Whatever happens to two whole processes, in any order and with any requests and answers lost.
  pub take_moments-Rel :
      (ms : List (Moment ticks)) (d : Nodes)
      → AllAllowed ticks Allowed ms d
      → Rel (view d) (view (take_moments ticks ms d))
  unfolding take_moments
  take_moments-Rel [] d own = stays (view d)
  take_moments-Rel (m ∷ ms) d own =
      follows (take_moment-Rel m d own.0) (take_moments-Rel ms (take_moment ticks m d) own.1)
