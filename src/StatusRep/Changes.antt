-- ===== src/StatusRep/Changes.antt =====
-- Any sequence of method calls on the status of a node (Sinboha/SinbohaImp.cpp): how the status, the
-- time of its change and the callback stay together.
use sinboha.Prelude.{◌≡◌, ◌≢◌, refl, ◌⊎◌, Bool, Option, none, some, List, [], ◌∷◌, ◌++◌, arith}
use sinboha.Types.{SinbohaStatus, active, standby, SinbohaStatus-discrete}
use sinboha.Chrono.{TimePoint}
use sinboha.StatusRep.{
  CallbackId, Bytes, CallbackCall, on_status_change, on_receive_data, StatusRep,
  if_allow_peer_activate, try_activate, switch, register_callback, un_register_callback, recv_data,
  brain_split,
}

-- A call of a method that changes the object or calls back, with its arguments and its readings of
-- the clock.
pub data Method : Type 0 where
  ask : TimePoint → TimePoint → SinbohaStatus → Method
  answered : TimePoint → TimePoint → Bool → Method
  switched : TimePoint → Method
  registered : Option CallbackId → Method
  unregistered : Method
  received : Bytes → Method
  split_found : TimePoint → Method

unfoldable pub perform : Method → StatusRep → StatusRep × List CallbackCall
unfolding if_allow_peer_activate try_activate switch register_callback un_register_callback
    recv_data brain_split
perform (ask now t s) r = ((if_allow_peer_activate now t s r).0, [])
perform (answered live now b) r = try_activate live now b r
perform (switched now) r = let (r', e, calls) = switch now r in (r', calls)
perform (registered c) r = (register_callback c r, [])
perform unregistered r = (un_register_callback r, [])
perform (received b) r = let (r', e, calls) = recv_data b r in (r', calls)
perform (split_found now) r = brain_split now r

unfoldable pub perform_all : List Method → StatusRep → StatusRep × List CallbackCall
perform_all [] r = (r, [])
perform_all (m ∷ ms) r =
    let (r', calls) = perform m r in let (r'', rest) = perform_all ms r' in (r'', calls ++ rest)

-- The clock reading at which a method would change the status.
abbrev moment : Method → TimePoint → TimePoint
moment (answered live now b) t = now
moment (switched now) t = now
moment (split_found now) t = now
moment _ t = t

abbrev status_calls : Option CallbackId → SinbohaStatus → List CallbackCall
status_calls none s = []
status_calls (some c) s = on_status_change c s ∷ []

-- Data of the peer reaches the callback in the status `standby` alone.
abbrev delivery : Method → SinbohaStatus → Option CallbackId → List CallbackCall
delivery (received b) standby (some c) = on_receive_data c b ∷ []
delivery _ _ _ = []

-- A method that changes the status stores the reading of the clock, makes the node active or standby,
-- and reports the new status to the callback and nothing else; one that does not keeps the time, and
-- calls back only to deliver data.
pub record Consistent (m : Method) (r : StatusRep) (r' : StatusRep) (calls : List CallbackCall)
    : Type 0 where
  pub timed : r'.status ≢ r.status → r'.change_time ≡ moment m r.change_time
  pub kept : r'.status ≡ r.status → r'.change_time ≡ r.change_time
  pub told : r'.status ≢ r.status → calls ≡ status_calls r.callback r'.status
  pub silent : r'.status ≡ r.status → calls ≡ delivery m r.status r.callback
  pub resolved : r'.status ≢ r.status → (r'.status ≡ active) ⊎ (r'.status ≡ standby)

-- Every method call, in every state, is consistent: the time of change moves with the status alone,
-- and the callback hears of each change once, of nothing else but data received as standby.
pub perform-Consistent :
    (m : Method) (r : StatusRep) → Consistent m r (perform m r).0 (perform m r).1
unfolding perform
perform-Consistent (ask now t s) r = ground arith
perform-Consistent (answered live now b) r = ground arith
perform-Consistent (switched now) r = ground arith
perform-Consistent (registered c) r = ground arith
perform-Consistent unregistered r = ground arith
perform-Consistent (received b) r = ground arith
perform-Consistent (split_found now) r = ground arith

-- A node that has a status never gets one without a name, nor goes back to pending.
abbrev pub IsSettled : SinbohaStatus → Type 0
IsSettled s = (s ≡ active) ⊎ (s ≡ standby)

perform-IsSettled :
    (m : Method) (r : StatusRep) → IsSettled r.status → IsSettled (perform m r).0.status
perform-IsSettled m r h = elim (SinbohaStatus-discrete (perform m r).0.status r.status) [
  | yes same ↦ rw same h
  | no other ↦ (perform-Consistent m r).resolved other
]

-- After any method calls a settled node is settled.
pub perform_all-IsSettled :
    (ms : List Method) (r : StatusRep) → IsSettled r.status → IsSettled (perform_all ms r).0.status
unfolding perform_all
perform_all-IsSettled [] r h = h
perform_all-IsSettled (m ∷ ms) r h =
    perform_all-IsSettled ms (perform m r).0 (perform-IsSettled m r h)

-- The status that a listener believes in: the last one that was reported to it.
unfoldable pub last_reported : SinbohaStatus → List CallbackCall → SinbohaStatus
last_reported s [] = s
last_reported s (on_status_change c t ∷ calls) = last_reported t calls
last_reported s (on_receive_data c b ∷ calls) = last_reported s calls

-- The callback is not exchanged or removed.
abbrev pub KeepsCallback : Method → Type 0
KeepsCallback (registered c) = ⊥
KeepsCallback unregistered = ⊥
KeepsCallback _ = Unit

abbrev pub AllKeepCallback : List Method → Type 0
AllKeepCallback [] = Unit
AllKeepCallback (m ∷ ms) = KeepsCallback m × AllKeepCallback ms

pub last_reported-append :
    (s : SinbohaStatus) (xs ys : List CallbackCall)
    → last_reported s (xs ++ ys) ≡ last_reported (last_reported s xs) ys
unfolding last_reported
last_reported-append s [] ys = refl
last_reported-append s (on_status_change c t ∷ xs) ys = last_reported-append t xs ys
last_reported-append s (on_receive_data c b ∷ xs) ys = last_reported-append s xs ys

perform-last_reported :
    (m : Method) (r : StatusRep) {c : CallbackId}
    → r.callback ≡ some c
    → KeepsCallback m
    → (last_reported r.status (perform m r).1 ≡ (perform m r).0.status)
      × ((perform m r).0.callback ≡ some c)
unfolding perform last_reported
perform-last_reported (ask now t s) r h k = ground arith
perform-last_reported (answered live now b) r h k = ground arith
perform-last_reported (switched now) r h k = ground arith
perform-last_reported (registered c) r h k = absurd k
perform-last_reported unregistered r h k = absurd k
perform-last_reported (received b) r h k = ground arith
perform-last_reported (split_found now) r h k = ground arith

-- After any method calls that neither register nor remove a callback, on a node that has one, the
-- last status reported to the callback is the status of the node; if none was reported, the node
-- has the status it began with.
pub perform_all-last_reported :
    (ms : List Method) (r : StatusRep) {c : CallbackId}
    → r.callback ≡ some c
    → AllKeepCallback ms
    → last_reported r.status (perform_all ms r).1 ≡ (perform_all ms r).0.status
unfolding perform_all last_reported
perform_all-last_reported [] r h k = refl
perform_all-last_reported (m ∷ ms) r h k =
    let step = perform-last_reported m r h k.0 in
    rw last_reported-append (rw step.0 (perform_all-last_reported ms (perform m r).0 step.1 k.1))

pub perform_all-keeps :
    (ms : List Method) (r : StatusRep) {c : CallbackId}
    → r.callback ≡ some c
    → AllKeepCallback ms
    → (perform_all ms r).0.callback ≡ some c
unfolding perform_all
perform_all-keeps [] r h k = h
perform_all-keeps (m ∷ ms) r h k =
    perform_all-keeps ms (perform m r).0 (perform-last_reported m r h k.0).1 k.1
