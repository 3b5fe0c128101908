-- ===== src/Pair/Interleaving.antt =====
-- Heartbeats of two nodes in any interleaving: each node has a primary and a secondary heartbeat
-- (Sinboha/SinbohaImp.h), a heartbeat reads the status, is answered and is applied at three different
-- moments (Sinboha/SinbohaSync.cpp), and may fail. At each of these moments one lock is held.
use sinboha.Prelude.{ℕ, ◌≡◌, Bool, true, false, if◌then◌else◌}
use sinboha.Types.{SinbohaStatus, i16_of_status}
use sinboha.Chrono.{TimePoint, to_milliseconds}
use sinboha.StatusRep.{StatusRep, query_change, try_activate}
use sinboha.RpcHandler.{handle_can_you_activate_me}
pub mod Leader
pub mod Roles
pub mod Startup
pub mod ManualSwitch
pub mod Recovery

pub data Side : Type 0 where
  first second : Side

abbrev pub other : Side → Side
other first = second
other second = first

pub data Channel : Type 0 where
  primary secondary : Channel

-- Where a heartbeat stands: between two rounds, with the status that it read under way, or with the
-- answer of the peer in hand.
pub data Call : Type 0 where
  idle : Call
  sent : TimePoint → SinbohaStatus → Call
  answered : Bool → Call

pub record System : Type 0 where
  pub node : Side → StatusRep
  pub call : Side → Channel → Call

abbrev pub same_side : Side → Side → Bool
same_side first first = true
same_side second second = true
same_side _ _ = false

abbrev pub same_channel : Channel → Channel → Bool
same_channel primary primary = true
same_channel secondary secondary = true
same_channel _ _ = false

abbrev pub set_node : System → Side → StatusRep → System
set_node s p r = record s { node = λ q. if same_side p q then r else s.node q }

abbrev pub set_call : System → Side → Channel → Call → System
set_call s p c k = record s {
  call = λ q d. if same_side p q then (if same_channel c d then k else s.call q d) else s.call q d;
}

module _ (ticks : ℕ) where
  -- One step of one heartbeat.
  pub data Beat (s : System) : System → Type 0 where
    sends :
        (p : Side) (c : Channel)
        → s.call p c ≡ idle
        → Beat s (let (t, st) = query_change (s.node p) in set_call s p c (sent t st))
    is_heard :
        (p : Side) (c : Channel) (now t : TimePoint) (st : SinbohaStatus)
        → s.call p c ≡ sent t st
        → Beat s (
            let (r, b) =
              handle_can_you_activate_me ticks now
                (to_milliseconds ticks t)
                (i16_of_status st)
                (s.node (other p)) in
            set_call (set_node s (other p) r) p c (answered b))
    applies :
        (p : Side) (c : Channel) (live now : TimePoint) (b : Bool)
        → s.call p c ≡ answered b
        → Beat s (set_call (set_node s p (try_activate live now b (s.node p)).0) p c idle)
    fails : (p : Side) (c : Channel) → Beat s (set_call s p c idle)

  -- Any number of steps.
  pub data Beats (s : System) : System → Type 0 where
    here : Beats s s
    next : {t u : System} → Beats s t → Beat t u → Beats s u
