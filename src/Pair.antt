-- ===== src/Pair.antt =====
-- Two nodes, each the peer of the other: a heartbeat of SinbohaSync that reaches the peer
-- (Sinboha/SinbohaSync.cpp, SinbohaNetClient.cpp), the answer of the peer's SinbohaRPCHandler
-- (Sinboha/SinbohaRPCHandler.h) and what the asking node makes of it (Sinboha/SinbohaImp.cpp).
pub mod Link
pub mod Convergence
pub mod Safety
pub mod SameMillisecond
pub mod Interleaving
pub mod Threads
pub mod Processes
use sinboha.Prelude.{ℕ, ◌≡◌, ◌⊎◌, Bool}
use sinboha.Types.{active, standby, i16_of_status, IsNamed, status_of_i16-i16_of_status}
use sinboha.Chrono.{TimePoint, to_milliseconds, over_wire}
use sinboha.StatusRep.{StatusRep, if_allow_peer_activate, try_activate}
use sinboha.RpcHandler.{handle_can_you_activate_me}

-- The clock readings of an exchange: in the handler of the peer, and the two of `TryActivate`.
pub record Readings : Type 0 where
  pub heard : TimePoint
  pub live : TimePoint
  pub now : TimePoint

module _ (ticks : ℕ) where
  -- The peer's part: the request with the time in milliseconds and the number of the status.
  unfoldable pub asks : TimePoint → StatusRep → StatusRep → StatusRep × Bool
  asks heard a b =
      handle_can_you_activate_me ticks heard (to_milliseconds ticks a.change_time)
        (i16_of_status a.status) b

  -- `a` asks `b`, and follows the answer; the new states of `a` and of `b`.
  unfoldable pub exchange : Readings → StatusRep → StatusRep → StatusRep × StatusRep
  unfolding asks
  exchange t a b =
      let (b', allowed) = asks t.heard a b in
      let (a', calls) = try_activate t.live t.now allowed a in (a', b')

  -- A status with a name arrives, and the time arrives cut to milliseconds.
  pub asks-if_allow_peer_activate :
      (heard : TimePoint) (a b : StatusRep)
      → IsNamed a.status
      → asks heard a b ≡ if_allow_peer_activate heard (over_wire ticks a.change_time) a.status b
  unfolding asks handle_can_you_activate_me
  asks-if_allow_peer_activate heard a b h = rw (status_of_i16-i16_of_status a.status h)

-- One node is active, and the other is its standby.
abbrev pub IsResolved : StatusRep → StatusRep → Type 0
IsResolved a b =
    ((a.status ≡ active) × (b.status ≡ standby)) ⊎ ((a.status ≡ standby) × (b.status ≡ active))
