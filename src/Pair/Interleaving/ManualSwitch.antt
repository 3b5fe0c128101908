-- ===== src/Pair/Interleaving/ManualSwitch.antt =====
-- A manual switch while a heartbeat is under way (`Switch` of Sinboha/SinbohaImp.cpp, `SyncHeartbeat`
-- of Sinboha/SinbohaSync.cpp): an answer that was given before the switch is applied after it.
use sinboha.Prelude.{ℕ, ◌≡◌, refl, ap, true, arith}
use sinboha.Prelude.Int.{◌<ℤ◌}
use sinboha.Types.{active, standby, i16_of_status, error_ok}
use sinboha.Chrono.{TimePoint, over_wire, to_milliseconds}
use sinboha.StatusRep.{StatusRep, query_change, try_activate, switch}
use sinboha.RpcHandler.{handle_can_you_activate_me, handle_can_you_activate_me-verdict}
use sinboha.Pair.{Readings}
use sinboha.Pair.Interleaving.{
  first, second, primary, idle, sent, answered, System, set_node, set_call, sends, is_heard,
  applies, Beats, here, next,
}

module _ (ticks : ℕ) where
  -- A heartbeat of the first node up to the answer.
  asked : TimePoint → System → System
  asked heard s =
      let a = s.node first in
      let s₁ = set_call s first primary (sent a.change_time a.status) in
      let (r, b) =
        handle_can_you_activate_me ticks heard (to_milliseconds ticks a.change_time)
          (i16_of_status a.status) (s.node second) in
      set_call (set_node s₁ second r) first primary (answered b)

  asked-Beats :
      (heard : TimePoint) (s : System) → s.call first primary ≡ idle → Beats ticks s (asked heard s)
  unfolding asked query_change
  asked-Beats heard s e =
      next (next here (sends first primary e)) (is_heard first primary heard _ _ refl)

  standby_answers :
      (heard : TimePoint) (a b : StatusRep)
      → a.status ≡ active
      → b.status ≡ standby
      → let (r, allowed) =
          handle_can_you_activate_me ticks heard
            (to_milliseconds ticks a.change_time)
            (i16_of_status a.status)
            b in
        (allowed ≡ true) × (r.status ≡ standby) × (r.change_time ≡ b.change_time)
  standby_answers heard a b ha hb =
      rw
        (handle_can_you_activate_me-verdict ticks heard a.change_time a.status b (rw ha tt), ha, hb)
        (refl, refl, refl)

  allowed-active :
      (live now : TimePoint) (r : StatusRep) → (try_activate live now true r).0.status ≡ active
  unfolding try_activate
  allowed-active live now r = ground arith

  -- If the first node is active, the second is its standby, and the primary heartbeat of the first
  -- is between two rounds, there is a sequence of steps in which that heartbeat asks, a manual
  -- switch succeeds and makes the first node standby, and a step that follows makes it active
  -- again.
  pub stale_answer-undoes_switch :
      (heard switched live now : TimePoint) (s : System)
      → (s.node first).status ≡ active
      → (s.node second).status ≡ standby
      → s.call first primary ≡ idle
      → (s' u : System) × Beats ticks s s'
        × ((switch switched (s'.node first)).1 ≡ error_ok)
        × ((switch switched (s'.node first)).0.status ≡ standby)
        × Beats ticks (set_node s' first (switch switched (s'.node first)).0) u
        × ((u.node first).status ≡ active)
        × ((u.node first).change_time ≡ now)
  unfolding asked switch try_activate
  stale_answer-undoes_switch heard switched live now s ha hb e =
      let s' = asked heard s in
      let a = s.node first in
      let allowed = standby_answers heard a (s.node second) ha hb in
      (
        s',
        _,
        asked-Beats heard s e,
        rw ha,
        rw ha,
        next here (applies first primary live now true (ap answered allowed.0)),
        ground (arith, ha),
        ground (arith, ha),
      )

  -- A whole heartbeat of the second node, at three readings of the clocks.
  asked_back : Readings → System → System
  asked_back t s =
      let b = s.node second in
      let (r, allowed) =
        handle_can_you_activate_me ticks t.heard (to_milliseconds ticks b.change_time)
          (i16_of_status b.status) (s.node first) in
      let s₁ = set_call s second primary (sent b.change_time b.status) in
      let s₂ = set_call (set_node s₁ first r) second primary (answered allowed) in
      set_call (set_node s₂ second (try_activate t.live t.now allowed b).0) second primary idle

  asked_back-Beats :
      (t : Readings) (s : System) → s.call second primary ≡ idle → Beats ticks s (asked_back t s)
  unfolding asked_back query_change
  asked_back-Beats t s e =
      next (next (next here (sends second primary e)) (is_heard second primary t.heard _ _ refl))
        (applies second primary t.live t.now _ refl)

  asked_back-active :
      (t : Readings) (s : System)
      → (s.node first).status ≡ standby
      → (s.node second).status ≡ standby
      → over_wire ticks (s.node second).change_time <ℤ (s.node first).change_time
      → ((asked_back t s).node second).status ≡ active
  unfolding asked_back try_activate
  asked_back-active t s ha hb lt =
      rw
        (handle_can_you_activate_me-verdict ticks t.heard (s.node second).change_time
          (s.node second).status (s.node first) (rw hb tt))
        (ground arith)

  -- The first node is active and the second is its standby, no primary heartbeat is under way, and
  -- the time of the last change of the second, cut to milliseconds, lies before that of a manual
  -- switch of the first. Then there is a sequence of steps in which the first node asks, the switch
  -- succeeds, and steps of heartbeats that follow make both nodes active.
  pub stale_answer-both_active :
      (heard switched live now : TimePoint) (t : Readings) (s : System)
      → (s.node first).status ≡ active
      → (s.node second).status ≡ standby
      → s.call first primary ≡ idle
      → s.call second primary ≡ idle
      → over_wire ticks (s.node second).change_time <ℤ switched
      → (s' u : System) × Beats ticks s s'
        × ((switch switched (s'.node first)).1 ≡ error_ok)
        × Beats ticks (set_node s' first (switch switched (s'.node first)).0) u
        × ((u.node first).status ≡ active)
        × ((u.node second).status ≡ active)
  unfolding asked switch
  stale_answer-both_active heard switched live now t s ha hb e f lt =
      let s' = asked heard s in
      let a = s.node first in
      let s₁ = set_node s' first (switch switched (s'.node first)).0 in
      let s₂ = asked_back t s₁ in
      let allowed = standby_answers heard a (s.node second) ha hb in
      let still : s₂.call first primary ≡ answered true =
        unfold asked_back in ap answered allowed.0 in
      (
        s',
        _,
        asked-Beats heard s e,
        rw ha,
        next (asked_back-Beats t s₁ f) (applies first primary live now true still),
        allowed-active live now (s₂.node first),
        asked_back-active t s₁ (rw ha) allowed.1 (rw (allowed.2, ha) lt),
      )
