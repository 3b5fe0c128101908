-- ===== src/Imp.antt =====
-- The class SinbohaImp of Sinboha/SinbohaImp.h and SinbohaImp.cpp: the one object behind
-- `GetSinbohaIf()` (Sinboha/SinboHA.cpp), which implements the interface SinbohaIf of
-- Sinboha/SinboHA.h with the status of the node, the service, two heartbeats and the check for a
-- silent peer. The methods that pass a call on to the status are in Imp/Interface.
pub mod Interface
pub mod Lifecycle
pub mod Stops
pub mod Release
pub mod Data
pub mod Callers
use sinboha.Prelude.{String, not, if◌then◌else◌}
use sinboha.Prelude.Int.{ℤ, i32}
use sinboha.Types.{SinbohaError, error_ok, error_fail, active, is_error, is_status}
use sinboha.Launch.{Launch}
use sinboha.StatusRep.{StatusRep, Bytes, query, switch}
use sinboha.NetClient.{Remote, NetClient}
use sinboha.NetService
use sinboha.NetService.{NetService}
use sinboha.Sync
use sinboha.Sync.{Sync}
use sinboha.Sync.Start as SyncStart
use sinboha.BrainSplit
use sinboha.BrainSplit.{BrainSplit}
use sinboha.BrainSplit.Thread as CheckThread

pub record Imp : Type 0 where
  pub status : StatusRep
  pub service : NetService
  pub primary : Sync
  pub secondary : Sync
  pub checker : BrainSplit

-- The arguments of `Initialize`. `Debug` sets the level of the log and nothing else.
pub record Settings : Type 0 where
  pub peer_primary_address : String
  pub peer_secondary_address : String
  pub peer_port : ℤ
  pub port : ℤ
  pub network_timeout : ℤ
  pub heartbeat : ℤ
  pub switch_timeout : ℤ

-- What the library gives to the four `Start` methods: the new connection objects, and whether it
-- starts their threads.
pub record Starts : Type 0 where
  pub primary_client : NetClient
  pub secondary_client : NetClient
  pub service_launch : Launch
  pub primary_launch : Launch
  pub secondary_launch : Launch
  pub checker_launch : Launch

unfoldable pub start_service : Settings → Starts → Imp → Imp × SinbohaError
start_service a k m =
    let (service', e) =
      NetService.start a.port (i32 a.network_timeout) k.service_launch m.service in
    (record m { service = service' }, e)

unfoldable pub start_primary : Settings → Starts → Imp → Imp × SinbohaError
start_primary a k m =
    let (primary', e) =
      Sync.start a.peer_primary_address a.peer_port a.network_timeout a.heartbeat k.primary_client
        k.primary_launch m.primary in
    (record m { primary = primary' }, e)

unfoldable pub start_secondary : Settings → Starts → Imp → Imp × SinbohaError
start_secondary a k m =
    let (secondary', e) =
      Sync.start a.peer_secondary_address a.peer_port a.network_timeout a.heartbeat
        k.secondary_client k.secondary_launch m.secondary in
    (record m { secondary = secondary' }, e)

unfoldable pub start_checker : Settings → Starts → Imp → Imp × SinbohaError
start_checker a k m =
    let (checker', e) = BrainSplit.start a.switch_timeout k.checker_launch m.checker in
    (record m { checker = checker' }, e)

-- `Initialize`. What has been started before a step fails keeps running; the secondary heartbeat
-- may fail.
unfoldable pub initialize : Settings → Starts → Imp → Imp × SinbohaError
unfolding start_service start_primary start_secondary start_checker
initialize a k m =
    let (m₁, e₁) = start_service a k m in
    if not (is_error error_ok e₁)
    then (m₁, error_fail)
    else (let (m₂, e₂) = start_primary a k m₁ in
        if not (is_error error_ok e₂)
        then (m₂, error_fail)
        else (let (m₃, ignored) = start_secondary a k m₂ in
            let (m₄, e₄) = start_checker a k m₃ in
            if not (is_error error_ok e₄) then (m₄, error_fail) else (m₄, error_ok)))

-- `SyncData`: the test of the status and the call of the primary heartbeat's connection.
unfoldable pub sync_data : (R : Remote) → Bytes → Imp → R.Net → R.Net × SinbohaError
sync_data R b m net =
    if not (is_status active (query m.status))
    then (net, error_fail)
    else Sync.sync_data R b m.primary net
