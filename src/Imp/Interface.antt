-- ===== src/Imp/Interface.antt =====
-- The methods of SinbohaImp (Sinboha/SinbohaImp.cpp) that pass a call on to the status of the node, and
-- its constructor. Five of them belong to the interface SinbohaIf (Sinboha/SinboHA.h); the others are
-- called by the threads and by SinbohaRPCHandler.
use sinboha.Prelude.{◌≡◌, refl, Bool, Option, none, some, List}
use sinboha.Prelude.Int.{ℤ}
use sinboha.Types.{SinbohaStatus, SinbohaError}
use sinboha.Chrono.{TimePoint}
use sinboha.StatusRep
use sinboha.StatusRep.{StatusRep, new_status_rep, Bytes, CallbackId, CallbackCall}
use sinboha.Sync.{new_sync}
use sinboha.BrainSplit.{new_brain_split}
use sinboha.NetService.{new_net_service}
use sinboha.Imp.{Imp}

-- What the constructors leave as it is in memory: the port and the time limit of each heartbeat, and
-- the time limit of the check.
pub record Memory : Type 0 where
  pub primary_port : ℤ
  pub primary_timeout : ℤ
  pub secondary_port : ℤ
  pub secondary_timeout : ℤ
  pub switch_timeout : ℤ

-- The object, with the two readings of the clock in the constructor of its status. The rest of the
-- constructor sets up the log.
unfoldable pub new_imp : TimePoint → TimePoint → Memory → Imp
new_imp change live w = record {
  status = new_status_rep change live;
  service = new_net_service;
  primary = new_sync w.primary_port w.primary_timeout;
  secondary = new_sync w.secondary_port w.secondary_timeout;
  checker = new_brain_split w.switch_timeout;
}

-- `Instance`, whose static object the first call makes.
unfoldable pub get_instance : TimePoint → TimePoint → Memory → Option Imp → Imp
get_instance change live w none = new_imp change live w
get_instance change live w (some m) = m

-- `GetSinbohaIf`.
unfoldable pub get_sinboha_if : TimePoint → TimePoint → Memory → Option Imp → Imp
get_sinboha_if change live w m = get_instance change live w m

-- Every call gives the object of the first one.
get_sinboha_if-same :
    (change live change' live' : TimePoint) (w w' : Memory) (m : Option Imp)
    → let first = get_sinboha_if change live w m in
      get_sinboha_if change' live' w' (some first) ≡ first
unfolding get_sinboha_if get_instance
get_sinboha_if-same change live change' live' w w' m = refl

abbrev with_status : StatusRep → Imp → Imp
with_status r m = record m { status = r }

unfoldable pub switch : TimePoint → Imp → Imp × SinbohaError × List CallbackCall
switch now m = let (r, e, calls) = StatusRep.switch now m.status in (with_status r m, e, calls)

unfoldable pub register_callback : Option CallbackId → Imp → Imp
register_callback c m = with_status (StatusRep.register_callback c m.status) m

unfoldable pub un_register_callback : Imp → Imp
un_register_callback m = with_status (StatusRep.un_register_callback m.status) m

unfoldable pub get_ha_status : Imp → SinbohaStatus
get_ha_status m = StatusRep.query m.status

unfoldable pub query : Imp → TimePoint × SinbohaStatus
query m = StatusRep.query_change m.status

unfoldable pub if_allow_peer_activate : TimePoint → TimePoint → SinbohaStatus → Imp → Imp × Bool
if_allow_peer_activate now peer_time peer_status m =
    let (r, allowed) = StatusRep.if_allow_peer_activate now peer_time peer_status m.status in
    (with_status r m, allowed)

unfoldable pub recv_data : Bytes → Imp → Imp × SinbohaError × List CallbackCall
recv_data b m = let (r, e, calls) = StatusRep.recv_data b m.status in (with_status r m, e, calls)

unfoldable pub try_activate : TimePoint → TimePoint → Bool → Imp → Imp × List CallbackCall
try_activate live now allowed m =
    let (r, calls) = StatusRep.try_activate live now allowed m.status in (with_status r m, calls)

unfoldable pub peer_live_time : Imp → TimePoint
peer_live_time m = StatusRep.get_peer_live_time m.status

unfoldable pub brain_split : TimePoint → Imp → Imp × List CallbackCall
brain_split now m = let (r, calls) = StatusRep.brain_split now m.status in (with_status r m, calls)
