-- ===== src/RpcHandler.antt =====
-- The server's side of the calls, `SinbohaRPCHandler` of Sinboha/SinbohaRPCHandler.h: it turns the
-- numbers of the wire into a time and a status, and asks the one instance of `SinbohaImp`, whose
-- methods of the same names pass the call on to its `SinbohaStatusRep`.
pub mod Factory
use sinboha.Prelude.{ℕ, ◌≡◌, Bool, List}
use sinboha.Prelude.Int.{ℤ}
use sinboha.Types.{
  SinbohaStatus, IsNamed, i16_of_status, status_of_i16-i16_of_status, status_of_i16, i16_of_error,
}
use sinboha.Chrono.{TimePoint, to_milliseconds, of_milliseconds, over_wire}
use sinboha.StatusRep.{StatusRep, Bytes, CallbackCall, if_allow_peer_activate, recv_data}
use sinboha.StatusRep.Arbitration.{verdict, judge, if_allow_peer_activate-verdict}

-- `CanYouActivateMe(ChangeTime, Status)`, at the reading `now` of the clock.
unfoldable pub handle_can_you_activate_me : ℕ → TimePoint → ℤ → ℤ → StatusRep → StatusRep × Bool
handle_can_you_activate_me ticks now change_time status r =
    if_allow_peer_activate now (of_milliseconds ticks change_time) (status_of_i16 status) r

-- `SyncData(Data)`.
unfoldable pub handle_sync_data : Bytes → StatusRep → StatusRep × ℤ × List CallbackCall
handle_sync_data b r = let (r', e, calls) = recv_data b r in (r', i16_of_error e, calls)

-- A request that carries a status with a name is answered by the table, with the time of the peer
-- cut to milliseconds.
pub handle_can_you_activate_me-verdict :
    (ticks : ℕ) (now t : TimePoint) (s : SinbohaStatus) (r : StatusRep)
    → IsNamed s
    → handle_can_you_activate_me ticks now (to_milliseconds ticks t) (i16_of_status s) r ≡ (
      record r { peer_live_time = now },
      judge (verdict s r.status) (over_wire ticks t) r.change_time,
    )
unfolding handle_can_you_activate_me
handle_can_you_activate_me-verdict ticks now t s r h =
    rw (status_of_i16-i16_of_status s h)
      (if_allow_peer_activate-verdict now (over_wire ticks t) s r)
