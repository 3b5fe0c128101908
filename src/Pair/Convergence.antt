-- ===== src/Pair/Convergence.antt =====
-- Two nodes that reach each other agree on one active node (Sinboha/SinbohaImp.cpp, SinbohaSync.cpp).
use sinboha.Prelude.{ℕ, ◌≡◌, ◌≢◌, arith, inl, inr, true, false}
use sinboha.Prelude.Int.{◌<ℤ◌}
use sinboha.Types.{active, standby, IsNamed}
use sinboha.Chrono.{IsClock, over_wire, over_wire-le}
use sinboha.StatusRep.{StatusRep, if_allow_peer_activate, try_activate}
use sinboha.StatusRep.Arbitration.{verdict, judge, if_allow_peer_activate-verdict}
use sinboha.Pair.{Readings, exchange, asks-if_allow_peer_activate, IsResolved}

module _ (ticks : ℕ) where
  -- First `a` asks `b`, then `b` asks `a`.
  unfoldable pub round : Readings → Readings → StatusRep → StatusRep → StatusRep × StatusRep
  round t u a b =
      let (a₁, b₁) = exchange ticks t a b in let (b₂, a₂) = exchange ticks u b₁ a₁ in (a₂, b₂)

  pub exchange_lem :
      (t : Readings) (a b : StatusRep)
      → IsNamed a.status
      → exchange ticks t a b ≡ (
          let (b', allowed) =
            if_allow_peer_activate t.heard (over_wire ticks a.change_time) a.status b in
          ((try_activate t.live t.now allowed a).0, b'))
  unfolding exchange
  exchange_lem t a b h = rw (asks-if_allow_peer_activate ticks t.heard a b h)

  -- What an exchange does to the node that asks, by the table, and to the node that answers.
  pub record IsExchange (t : Readings) (a b a' b' : StatusRep) : Type 0 where
    pub allowed :
        judge (verdict a.status b.status) (over_wire ticks a.change_time) b.change_time ≡ true
        → a'.status ≡ active
    pub refused :
        judge (verdict a.status b.status) (over_wire ticks a.change_time) b.change_time ≡ false
        → a'.status ≡ standby
    pub kept : a'.status ≡ a.status → a'.change_time ≡ a.change_time
    pub changed : a'.status ≢ a.status → a'.change_time ≡ t.now
    pub peer_status : b'.status ≡ b.status
    pub peer_time : b'.change_time ≡ b.change_time

  pub exchange-IsExchange :
      (t : Readings) (a b : StatusRep)
      → IsNamed a.status
      → IsExchange t a b (exchange ticks t a b).0 (exchange ticks t a b).1
  unfolding try_activate
  exchange-IsExchange t a b h =
      rw (exchange_lem t a b h, if_allow_peer_activate-verdict) (ground arith)

  -- Whatever two nodes are, pending, active or standby in any combination, one heartbeat of each
  -- that reaches the other makes one of them active and the other its standby, if the times of
  -- their last changes differ and are readings of a clock that is set after 1970.
  pub round-IsResolved :
      (t u : Readings) (a b : StatusRep)
      → IsNamed a.status
      → IsNamed b.status
      → IsClock a.change_time
      → IsClock b.change_time
      → a.change_time ≢ b.change_time
      → IsResolved (round t u a b).0 (round t u a b).1
  unfolding round
  round-IsResolved t u a b na nb ca cb differ =
      let (a₁, b₁) = exchange ticks t a b in
      let first = exchange-IsExchange t a b na in
      let second = exchange-IsExchange u b₁ a₁ (rw first.peer_status nb) in
      ground (
        arith,
        first,
        second,
        over_wire-le ticks a.change_time ca,
        over_wire-le ticks b.change_time cb,
      )

  -- If one node is active and the other is its standby, a heartbeat of either leaves statuses,
  -- times of change and callbacks as they are, and only notes at both that the peer lives.
  pub exchange-of_IsResolved :
      (t : Readings) (a b : StatusRep)
      → IsResolved a b
      → exchange ticks t a b
        ≡ (record a { peer_live_time = t.live }, record b { peer_live_time = t.heard })
  unfolding try_activate
  exchange-of_IsResolved t a b (inl h) =
      rw (exchange_lem t a b (rw h.0 tt), if_allow_peer_activate-verdict) (ground arith)
  exchange-of_IsResolved t a b (inr h) =
      rw (exchange_lem t a b (rw h.0 tt), if_allow_peer_activate-verdict) (ground arith)

  -- If one of two nodes is active and the other is pending or standby, then after one heartbeat of
  -- each it is active, since the same time, and the other is standby, whichever of the two asks
  -- first.
  pub round-keeps_active :
      (t u : Readings) (a b : StatusRep)
      → IsNamed a.status
      → IsNamed b.status
      → (a.status ≡ active
          → b.status ≢ active
          → ((round t u a b).0.status ≡ active)
            × ((round t u a b).0.change_time ≡ a.change_time)
            × ((round t u a b).1.status ≡ standby))
        × (b.status ≡ active
            → a.status ≢ active
            → ((round t u a b).1.status ≡ active)
              × ((round t u a b).1.change_time ≡ b.change_time)
              × ((round t u a b).0.status ≡ standby))
  unfolding round
  round-keeps_active t u a b na nb =
      let (a₁, b₁) = exchange ticks t a b in
      let first = exchange-IsExchange t a b na in
      let second = exchange-IsExchange u b₁ a₁ (rw first.peer_status nb) in
      (λ h k. ground (arith, first, second), λ h k. ground (arith, first, second))

  -- If two nodes are active, and one was activated later than the other even after its time is cut
  -- to whole milliseconds, then after one heartbeat of each the later one is active and the other
  -- is standby, whichever of the two asks first.
  pub round-both_active :
      (t u : Readings) (a b : StatusRep)
      → a.status ≡ active
      → b.status ≡ active
      → IsClock a.change_time
      → IsClock b.change_time
      → (a.change_time <ℤ over_wire ticks b.change_time
          → ((round t u a b).0.status ≡ standby) × ((round t u a b).1.status ≡ active))
        × (b.change_time <ℤ over_wire ticks a.change_time
            → ((round t u a b).0.status ≡ active) × ((round t u a b).1.status ≡ standby))
  unfolding round
  round-both_active t u a b ha hb ca cb =
      let (a₁, b₁) = exchange ticks t a b in
      let first = exchange-IsExchange t a b (rw ha tt) in
      let second = exchange-IsExchange u b₁ a₁ (rw (first.peer_status, hb) tt) in
      let la = over_wire-le ticks a.change_time ca in
      let lb = over_wire-le ticks b.change_time cb in
      (λ h. ground (arith, first, second), λ h. ground (arith, first, second))
