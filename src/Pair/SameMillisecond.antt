-- ===== src/Pair/SameMillisecond.antt =====
-- Two heartbeats that cross, and what it means that a time loses its part below the millisecond on
-- the wire (Sinboha/SinbohaNetClient.cpp, SinbohaRPCHandler.h, SinbohaImp.cpp).
use sinboha.Prelude.{ℕ, ◌≡◌, ◌≢◌, ◌↔◌, arith, ap}
use sinboha.Prelude.Int.{◌<ℤ◌, ◌≤ℤ◌}
use sinboha.Types.{active, standby, IsNamed}
use sinboha.Chrono.{TimePoint, IsClock, over_wire, over_wire-le, to_milliseconds, of_milliseconds}
use sinboha.StatusRep.{StatusRep, try_activate}
use sinboha.StatusRep.Arbitration.{AreTied, if_allow_peer_activate-verdict}
use sinboha.Pair.{Readings, exchange, asks, asks-if_allow_peer_activate}
use sinboha.Pair.Convergence.{exchange_lem}

below : (s t : TimePoint) → s ≤ℤ t → s ≢ t → s <ℤ t
below s t h k = ground arith

module _ (ticks : ℕ) where
  -- Each node answers the other before either follows the answer it got.
  pub crossed : Readings → Readings → StatusRep → StatusRep → StatusRep × StatusRep
  crossed t u a b =
      let (b₁, allowed_a) = asks ticks t.heard a b in
      let (a₁, allowed_b) = asks ticks u.heard b a in
      ((try_activate t.live t.now allowed_a a₁).0, (try_activate u.live u.now allowed_b b₁).0)

  -- If two nodes, whose statuses have names, each answer the other before either follows the answer
  -- it got, both are active afterwards exactly if both were pending or both were standby, and the
  -- time of each, cut to milliseconds, lies before the full time of the other. The times are
  -- readings of a clock that is set after 1970.
  pub crossed-both_active_iff :
      (t u : Readings) (a b : StatusRep)
      → IsNamed a.status
      → IsNamed b.status
      → IsClock a.change_time
      → IsClock b.change_time
      → (((crossed t u a b).0.status ≡ active) × ((crossed t u a b).1.status ≡ active)) ↔ (
          AreTied a.status b.status
          × (over_wire ticks a.change_time <ℤ b.change_time)
          × (over_wire ticks b.change_time <ℤ a.change_time))
  unfolding crossed try_activate
  crossed-both_active_iff t u a b na nb ca cb =
      rw
        (
          asks-if_allow_peer_activate ticks t.heard a b na,
          asks-if_allow_peer_activate ticks u.heard b a nb,
          if_allow_peer_activate-verdict t.heard (over_wire ticks a.change_time) a.status b,
          if_allow_peer_activate-verdict u.heard (over_wire ticks b.change_time) b.status a,
        )
        (let la = over_wire-le ticks a.change_time ca in
          let lb = over_wire-le ticks b.change_time cb in (λ h. ground arith, λ h. ground arith))

  -- Two nodes that are both pending, or both standby, since times within one millisecond, neither
  -- at its very start, are both active after heartbeats that cross: each answers the other before
  -- either follows the answer it got.
  pub same_millisecond-both_active :
      (t u : Readings) (a b : StatusRep)
      → AreTied a.status b.status
      → IsClock a.change_time
      → IsClock b.change_time
      → to_milliseconds ticks a.change_time ≡ to_milliseconds ticks b.change_time
      → over_wire ticks a.change_time ≢ a.change_time
      → over_wire ticks b.change_time ≢ b.change_time
      → ((crossed t u a b).0.status ≡ active) × ((crossed t u a b).1.status ≡ active)
  same_millisecond-both_active t u a b tied ca cb same part_a part_b =
      let wire = ap (of_milliseconds ticks) same in
      let le_a = over_wire-le ticks a.change_time ca in
      let le_b = over_wire-le ticks b.change_time cb in
      let lt_a = below (over_wire ticks a.change_time) a.change_time le_a part_a in
      let lt_b = below (over_wire ticks b.change_time) b.change_time le_b part_b in
      (crossed-both_active_iff t u a b (ground arith) (ground arith) ca cb).1
        (tied, rw wire lt_b, rw (← wire) lt_a)

  -- If two nodes are standby since one and the same time, at the start of a millisecond, a
  -- heartbeat of either changes no status and no time of change: the pair stays as it is.
  pub exchange-of_standby_tie :
      (t : Readings) (a b : StatusRep)
      → a.status ≡ standby
      → b.status ≡ standby
      → a.change_time ≡ b.change_time
      → over_wire ticks a.change_time ≡ a.change_time
      → exchange ticks t a b
        ≡ (record a { peer_live_time = t.live }, record b { peer_live_time = t.heard })
  unfolding try_activate
  exchange-of_standby_tie t a b sa sb same whole =
      rw (exchange_lem ticks t a b (rw sa tt), if_allow_peer_activate-verdict) (ground arith)
