-- ===== src/Pair/Interleaving/Roles.antt =====
-- The roles of two nodes under any interleaving of their heartbeats (Sinboha/SinbohaImp.cpp,
-- SinbohaSync.cpp), from any statuses. Which node is called the first is free.
use sinboha.Prelude.{ℕ, ◌≡◌, refl, ◌⊎◌, arith}
use sinboha.Prelude.Int.{◌<ℤ◌}
use sinboha.Types.{SinbohaStatus, active, standby, IsNamed}
use sinboha.Chrono.{TimePoint, IsClock, over_wire}
use sinboha.Pair.Interleaving.{Side, first, second, Channel, idle, System, Beats}
use sinboha.Pair.Interleaving.Leader.{Outranks, HasFollowed, quiet-IsLed, Beats-IsLed}
use sinboha.Pair.Interleaving.Leader.Follow.{Beats-leader, Beats-follower}

module _ (ticks : ℕ) where
  -- Of any two nodes whose statuses have names, one outranks the other, if the time of one arrives
  -- as a later one than that of the other is.
  Outranks-total :
      (s : SinbohaStatus) (t : TimePoint) (s' : SinbohaStatus) (t' : TimePoint)
      → IsNamed s
      → IsNamed s'
      → (t <ℤ over_wire ticks t') ⊎ (t' <ℤ over_wire ticks t)
      → Outranks ticks s t s' t' ⊎ Outranks ticks s' t' s t
  Outranks-total s t s' t' h h' d = ground arith

  -- Let the first of two nodes outrank the second, and let no heartbeat be under way. Then after any
  -- steps of their four heartbeats, in any order, with any of them failing at any time, the first
  -- has its old status or is active, and the second has its old status or is standby; and once the
  -- first has followed an answer, it is active, and once the second has, it is standby.
  pub Beats-roles :
      {s u : System}
      → IsClock (s.node first).change_time
      → IsClock (s.node second).change_time
      → Outranks ticks
          (s.node first).status
          (s.node first).change_time
          (s.node second).status
          (s.node second).change_time
      → ((p : Side) (c : Channel) → s.call p c ≡ idle)
      → (r : Beats ticks s u)
      → (((u.node first).status ≡ (s.node first).status) ⊎ ((u.node first).status ≡ active))
        × (((u.node second).status ≡ (s.node second).status) ⊎ ((u.node second).status ≡ standby))
        × (HasFollowed first r → (u.node first).status ≡ active)
        × (HasFollowed second r → (u.node second).status ≡ standby)
  Beats-roles {s} ca cb o quiet r =
      let sa = (s.node first).status in
      let ta = (s.node first).change_time in
      let sb = (s.node second).status in
      let tb = (s.node second).change_time in
      let begin = quiet-IsLed ticks sa ta sb tb s refl refl refl refl quiet in
      let end = Beats-IsLed ticks sa ta sb tb ca cb o begin r in
      (
        ground (arith, end.leads),
        ground (arith, end.follows),
        Beats-leader ticks sa ta sb tb ca cb o r begin,
        Beats-follower ticks sa ta sb tb ca cb o r begin,
      )
