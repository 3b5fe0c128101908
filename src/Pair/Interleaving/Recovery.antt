-- ===== src/Pair/Interleaving/Recovery.antt =====
-- Everything that happens to two nodes, in any interleaving: the steps of their heartbeats, failures
-- of the network, manual switches, checks that take the peer for dead, data and callbacks
-- (Sinboha/SinbohaImp.cpp, SinbohaSync.cpp, SinbohaBrainSplit.cpp); and a heartbeat of each after it.
use sinboha.Prelude.{ℕ, ◌≡◌, ◌≢◌, refl, Bool, arith}
use sinboha.Types.{SinbohaStatus, i16_of_status, IsNamed}
use sinboha.Chrono.{TimePoint, IsClock, to_milliseconds}
use sinboha.StatusRep.{StatusRep, query_change, try_activate}
use sinboha.StatusRep.Changes.{Method, ask, answered, perform}
use sinboha.StatusRep.Names.{perform-IsNamed}
use sinboha.RpcHandler.{handle_can_you_activate_me}
use sinboha.Pair.{Readings, exchange, asks, IsResolved}
use sinboha.Pair.Convergence.{round, round-IsResolved}
use sinboha.Pair.Interleaving
use sinboha.Pair.Interleaving.{
  Side, first, second, other, primary, idle, sent, System, set_node, set_call, sends, is_heard,
  applies, fails, Beat, Beats, here, next,
}

-- A method that a node performs outside its heartbeats and the requests of its peer.
abbrev pub IsOwn : Method → Type 0
IsOwn (ask now t s) = ⊥
IsOwn (answered live now b) = ⊥
IsOwn _ = Unit

module _ (ticks : ℕ) where
  pub data Act (s : System) : System → Type 0 where
    beats : {t : System} → Beat ticks s t → Act s t
    performs : (p : Side) (m : Method) → IsOwn m → Act s (set_node s p (perform m (s.node p)).0)

  -- Any number of them.
  pub data Acts (s : System) : System → Type 0 where
    stop : Acts s s
    go_on : {t u : System} → Acts s t → Act t u → Acts s u

  abbrev pub BothNamed : System → Type 0
  BothNamed s = (p : Side) → IsNamed (s.node p).status

  Named_set :
      (s : System) (p : Side) (r : StatusRep)
      → BothNamed s
      → IsNamed r.status
      → BothNamed (set_node s p r)
  Named_set s first r h n first = n
  Named_set s first r h n second = h second
  Named_set s second r h n first = h first
  Named_set s second r h n second = n

  heard-IsNamed :
      (now : TimePoint) (t : TimePoint) (st : SinbohaStatus) (r : StatusRep)
      → IsNamed r.status
      → IsNamed
          (handle_can_you_activate_me ticks now
            (to_milliseconds ticks t)
            (i16_of_status st)
            r).0.status
  unfolding handle_can_you_activate_me sinboha.StatusRep.if_allow_peer_activate
  heard-IsNamed now t st r h = h

  applied-IsNamed :
      (live now : TimePoint) (b : Bool) (r : StatusRep)
      → IsNamed r.status
      → IsNamed (try_activate live now b r).0.status
  unfolding try_activate
  applied-IsNamed live now b r h = ground arith

  pub both_named :
      (s : System) → IsNamed (s.node first).status → IsNamed (s.node second).status → BothNamed s
  both_named s a b first = a
  both_named s a b second = b

  Act-BothNamed : {s t : System} → Act s t → BothNamed s → BothNamed t
  Act-BothNamed (beats (sends p c e)) h = h
  Act-BothNamed {s} (beats (is_heard p c now t st e)) h =
      Named_set s (other p) _ h (heard-IsNamed now t st (s.node (other p)) (h (other p)))
  Act-BothNamed {s} (beats (applies p c live now b e)) h =
      Named_set s p _ h (applied-IsNamed live now b (s.node p) (h p))
  Act-BothNamed (beats (fails p c)) h = h
  Act-BothNamed {s} (performs p m o) h = Named_set s p _ h (perform-IsNamed m (s.node p) (h p))

  pub Acts-BothNamed : {s t : System} → Acts s t → BothNamed s → BothNamed t
  Acts-BothNamed stop h = h
  Acts-BothNamed (go_on before a) h = Act-BothNamed a (Acts-BothNamed before h)

  -- A whole primary heartbeat of one side, at three readings of the clocks.
  whole : Readings → Side → System → System
  whole t p s =
      let a = s.node p in
      let (r, allowed) =
        handle_can_you_activate_me ticks t.heard (to_milliseconds ticks a.change_time)
          (i16_of_status a.status) (s.node (other p)) in
      let s₁ = set_call s p primary (sent a.change_time a.status) in
      let s₂ = set_call (set_node s₁ (other p) r) p primary (Interleaving.answered allowed) in
      set_call (set_node s₂ p (try_activate t.live t.now allowed a).0) p primary idle

  whole-Beats :
      (t : Readings) (p : Side) (s : System) → s.call p primary ≡ idle → Beats ticks s (whole t p s)
  unfolding whole query_change
  whole-Beats t first s e =
      next (next (next here (sends first primary e)) (is_heard first primary t.heard _ _ refl))
        (applies first primary t.live t.now _ refl)
  whole-Beats t second s e =
      next (next (next here (sends second primary e)) (is_heard second primary t.heard _ _ refl))
        (applies second primary t.live t.now _ refl)

  Beats-append : {s t u : System} → Beats ticks s t → Beats ticks t u → Beats ticks s u
  Beats-append before here = before
  Beats-append before (next first_part step) = next (Beats-append before first_part) step

  -- Both calls under way are given up, and each node completes a heartbeat.
  recover : Readings → Readings → System → System
  recover t u s =
      whole u second (whole t first (set_call (set_call s first primary idle) second primary idle))

  recover-Beats : (t u : Readings) (s : System) → Beats ticks s (recover t u s)
  unfolding recover whole
  recover-Beats t u s =
      let s' = set_call (set_call s first primary idle) second primary idle in
      let dropped = next (next here (fails first primary)) (fails second primary) in
      Beats-append dropped
        (Beats-append (whole-Beats t first s' refl) (whole-Beats u second (whole t first s') refl))

  recover-idle : (t u : Readings) (s : System) (p : Side) → (recover t u s).call p primary ≡ idle
  unfolding recover whole
  recover-idle t u s first = refl
  recover-idle t u s second = refl

  recover-round :
      (t u : Readings) (s : System)
      → let v = recover t u s in
        (v.node first, v.node second) ≡ round ticks t u (s.node first) (s.node second)
  unfolding recover whole round exchange asks
  recover-round t u s = refl

  -- Whatever has happened to two nodes whose statuses have names, in any interleaving of heartbeats,
  -- failures, manual switches, checks, data and callbacks, so that both may be active or neither:
  -- from there a heartbeat of each can make one of them active and the other its standby, at any
  -- readings of the clocks, if the times of their last changes differ and are readings of a clock
  -- that is set after 1970.
  pub Acts-can_resolve :
      {s u : System} (t t' : Readings)
      → IsNamed (s.node first).status
      → IsNamed (s.node second).status
      → Acts s u
      → IsClock (u.node first).change_time
      → IsClock (u.node second).change_time
      → (u.node first).change_time ≢ (u.node second).change_time
      → (v : System) × Beats ticks u v
        × IsResolved (v.node first) (v.node second)
        × ((p : Side) → v.call p primary ≡ idle)
  unfolding recover whole round exchange asks
  Acts-can_resolve {s} {u} t t' na nb before ca cb differ =
      let named = Acts-BothNamed before (both_named s na nb) in
      (
        recover t t' u,
        recover-Beats t t' u,
        round-IsResolved ticks t t' (u.node first) (u.node second) (named first) (named second) ca
            cb differ,
        recover-idle t t' u,
      )
