-- ===== src/StatusRep.antt =====
-- The class SinbohaStatusRep of Sinboha/SinbohaImp.h and SinbohaImp.cpp: the status of one node, with
-- the time of its last change, the registered callback and the time of the last sign of life of the
-- peer. Every method holds the lock of the object from its first statement to its last, so that each
-- is one function on the state. A reading of the system clock is an argument; a call of the
-- callback object is an entry of the list that a method returns. Log lines are left out.
pub mod Arbitration
pub mod Changes
pub mod Names
use sinboha.Prelude.{
  ℕ, Bool, true, false, not, ◌&&◌, Option, none, some, List, [], ◌∷◌, if◌then◌else◌,
}
use sinboha.Prelude.Int.{ltb_ℤ}
use sinboha.Types.{
  SinbohaStatus, pending, active, standby, SinbohaError, error_ok, error_fail, is_status,
}
use sinboha.Chrono.{TimePoint}

-- The object behind a `shared_ptr<SinbohaCallbackIf>`, by its identity.
abbrev pub CallbackId : Type 0
CallbackId = ℕ

-- The bytes of a std::string.
abbrev pub Bytes : Type 0
Bytes = List ℕ

-- A call of a method of `SinbohaCallbackIf`.
pub data CallbackCall : Type 0 where
  on_status_change : CallbackId → SinbohaStatus → CallbackCall
  on_receive_data : CallbackId → Bytes → CallbackCall

pub record StatusRep : Type 0 where
  pub change_time : TimePoint
  pub status : SinbohaStatus
  pub callback : Option CallbackId
  pub peer_live_time : TimePoint

-- The constructor reads the clock twice.
unfoldable pub new_status_rep : TimePoint → TimePoint → StatusRep
new_status_rep change live = record {
  change_time = change;
  status = pending;
  callback = none;
  peer_live_time = live;
}

unfoldable pub query : StatusRep → SinbohaStatus
query r = r.status

-- The overload with two results by reference.
unfoldable pub query_change : StatusRep → TimePoint × SinbohaStatus
query_change r = (r.change_time, r.status)

-- The tests of `IfAllowPeerActivate`, in their order.
unfoldable pub allows : TimePoint → SinbohaStatus → StatusRep → Bool
allows peer_time peer_status r =
    if is_status peer_status pending && is_status status active
    then false
    else if is_status peer_status pending && is_status status standby
    then true
    else if is_status peer_status pending && is_status status pending
    then ltb_ℤ peer_time change_time
    else if is_status peer_status active && is_status status active
    then ltb_ℤ change_time peer_time
    else if is_status peer_status active && is_status status standby
    then true
    else if is_status peer_status active && is_status status pending
    then true
    else if is_status peer_status standby && is_status status active
    then false
    else if is_status peer_status standby && is_status status standby
    then ltb_ℤ peer_time change_time
    else if is_status peer_status standby && is_status status pending
    then false
    else false
  where
    open r use {status, change_time}

-- The whole method: it first notes that the peer is alive.
unfoldable pub if_allow_peer_activate :
    TimePoint → TimePoint → SinbohaStatus → StatusRep → StatusRep × Bool
unfolding allows
if_allow_peer_activate now peer_time peer_status r =
    let r' = record r { peer_live_time = now } in (r', allows peer_time peer_status r')

abbrev notify : Option CallbackId → SinbohaStatus → List CallbackCall
notify none s = []
notify (some c) s = on_status_change c s ∷ []

-- The block that `TryActivate`, `Switch` and `BrainSplit` share: store the status and the time, and
-- call the callback, if there is one.
unfoldable pub change_status : SinbohaStatus → TimePoint → StatusRep → StatusRep × List CallbackCall
change_status s now r = (record r { status = s; change_time = now }, notify r.callback s)

-- `live` and `now` are the two readings of the clock.
unfoldable pub try_activate :
    TimePoint → TimePoint → Bool → StatusRep → StatusRep × List CallbackCall
unfolding change_status
try_activate live now peer_allow_activate r =
    let r' = record r { peer_live_time = live } in
    if peer_allow_activate
    then (if not (is_status active r'.status) then change_status active now r' else (r', []))
    else (if not (is_status standby r'.status) then change_status standby now r' else (r', []))

unfoldable pub switch : TimePoint → StatusRep → StatusRep × SinbohaError × List CallbackCall
unfolding change_status
switch now r =
    if is_status active r.status
    then (let (r', calls) = change_status standby now r in (r', error_ok, calls))
    else (r, error_fail, [])

unfoldable pub register_callback : Option CallbackId → StatusRep → StatusRep
register_callback c r = record r { callback = c }

unfoldable pub un_register_callback : StatusRep → StatusRep
un_register_callback r = record r { callback = none }

abbrev deliver : Option CallbackId → Bytes → List CallbackCall
deliver none b = []
deliver (some c) b = on_receive_data c b ∷ []

unfoldable pub recv_data : Bytes → StatusRep → StatusRep × SinbohaError × List CallbackCall
recv_data b r =
    if not (is_status standby r.status)
    then (r, error_fail, [])
    else (r, error_ok, deliver r.callback b)

unfoldable pub get_peer_live_time : StatusRep → TimePoint
get_peer_live_time r = r.peer_live_time

unfoldable pub brain_split : TimePoint → StatusRep → StatusRep × List CallbackCall
unfolding change_status
brain_split now r = if is_status active r.status then (r, []) else change_status active now r
