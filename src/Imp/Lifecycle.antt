-- ===== src/Imp/Lifecycle.antt =====
-- `Initialize` of SinbohaImp (Sinboha/SinbohaImp.cpp): when it succeeds, what runs then, and what a
-- failed `Initialize` leaves behind.
use sinboha.Prelude.{◌≡◌, ◌≢◌, ◌↔◌, true, false, arith}
use sinboha.Types.{error_ok, error_fail}
use sinboha.Launch.{launched}
use sinboha.NetService
use sinboha.Sync
use sinboha.Sync.{is_empty}
use sinboha.BrainSplit
use sinboha.Imp.{Imp, Settings, Starts, initialize}

-- When `Initialize` succeeds.
pub record CanInitialize (a : Settings) (k : Starts) (m : Imp) : Type 0 where
  pub service_free : m.service.quit ≡ true
  pub service_starts : k.service_launch ≡ launched
  pub address : is_empty a.peer_primary_address ≡ false
  pub primary_free : m.primary.quit ≡ true
  pub primary_starts : k.primary_launch ≡ launched
  pub checker_free : m.checker.quit ≡ true
  pub checker_starts : k.checker_launch ≡ launched

-- What runs after `Initialize`.
pub record IsInitialized (a : Settings) (k : Starts) (m m' : Imp) : Type 0 where
  pub service_runs : m'.service.quit ≡ false
  pub primary_runs : m'.primary.quit ≡ false
  pub checker_runs : m'.checker.quit ≡ false
  pub secondary_runs :
      is_empty a.peer_secondary_address ≡ false
      → k.secondary_launch ≡ launched
      → m'.secondary.quit ≡ false
  pub status_kept : m'.status ≡ m.status

-- `Initialize` succeeds exactly if service, primary heartbeat and check are all stopped, the library
-- starts their threads and the primary address is not empty; the secondary heartbeat may fail. Then
-- those three run, the secondary too if it has an address and its thread starts, and the status of
-- the node is the one from before. Otherwise the result is the code of failure.
pub initialize-IsInitialized :
    (a : Settings) (k : Starts) (m : Imp)
    → let (m', e) = initialize a k m in
      ((e ≡ error_ok) ↔ CanInitialize a k m)
      × (e ≡ error_ok → IsInitialized a k m m')
      × (e ≢ error_ok → e ≡ error_fail)
unfolding initialize NetService.start Sync.start BrainSplit.start
initialize-IsInitialized a k m =
    ((λ h. ground arith, λ h. ground arith), λ h. ground arith, λ h. ground arith)

-- If the service was stopped and its thread could be started, then after `Initialize`, whatever it
-- returned, any other `Initialize` fails and changes nothing.
pub initialize-again :
    (a a' : Settings) (k k' : Starts) (m : Imp)
    → m.service.quit ≡ true
    → k.service_launch ≡ launched
    → let m' = (initialize a k m).0 in initialize a' k' m' ≡ (m', error_fail)
unfolding initialize NetService.start
initialize-again a a' k k' m q l = ground arith
