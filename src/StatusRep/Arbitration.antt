-- ===== src/StatusRep/Arbitration.antt =====
-- The answers of `IfAllowPeerActivate` (Sinboha/SinbohaImp.cpp): the table in the comment of the
-- method, and what it means that two nodes ask each other.
use sinboha.Prelude.{◌≡◌, ◌⊎◌, Bool, true, false, arith}
use sinboha.Prelude.Int.{ltb_ℤ}
use sinboha.Types.{SinbohaStatus, pending, active, standby}
use sinboha.Chrono.{TimePoint}
use sinboha.StatusRep.{StatusRep, allows, if_allow_peer_activate}

-- What a line of the table says: always, never, or by comparing the times of the last change.
pub data Verdict : Type 0 where
  grant refuse grant_earlier grant_later : Verdict

-- The table: the status of the peer that asks, then the status of the node that answers. A number
-- that names no status is refused.
abbrev pub verdict : SinbohaStatus → SinbohaStatus → Verdict
verdict pending active = refuse
verdict pending standby = grant
verdict pending pending = grant_earlier
verdict active active = grant_later
verdict active standby = grant
verdict active pending = grant
verdict standby active = refuse
verdict standby standby = grant_earlier
verdict standby pending = refuse
verdict _ _ = refuse

abbrev pub judge : Verdict → TimePoint → TimePoint → Bool
judge grant peer mine = true
judge refuse peer mine = false
judge grant_earlier peer mine = ltb_ℤ peer mine
judge grant_later peer mine = ltb_ℤ mine peer

-- On every pair of statuses, numbers without a name included, `IfAllowPeerActivate` answers by the
-- table, and of its state it changes the time of the peer's last sign of life alone.
pub if_allow_peer_activate-verdict :
    (now peer_time : TimePoint) (peer_status : SinbohaStatus) (r : StatusRep)
    → if_allow_peer_activate now peer_time peer_status r ≡ (
      record r { peer_live_time = now },
      judge (verdict peer_status r.status) peer_time r.change_time,
    )
unfolding if_allow_peer_activate
if_allow_peer_activate-verdict now t s r = ground arith

-- The two nodes hold the same status, and it is one that the earlier node leaves for `active`.
abbrev pub AreTied : SinbohaStatus → SinbohaStatus → Type 0
AreTied s t = ((s ≡ pending) × (t ≡ pending)) ⊎ ((s ≡ standby) × (t ≡ standby))

-- If the time of the last change of each node reaches the other exact, two nodes do not both allow
-- each other to be active: if one allows, the other does not.
pub allows-not_both :
    (a b : StatusRep)
    → allows a.change_time a.status b ≡ true
    → allows b.change_time b.status a ≡ false
unfolding allows
allows-not_both a b h = ground arith
