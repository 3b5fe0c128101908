-- ===== src/Tests/Objects.antt =====
-- The object behind the interface.
use sinboha.Prelude.{◌≡◌, ◌≢◌, refl, ◌↔◌, none, some, List, [], ◌∷◌}
use sinboha.Prelude.Int.{pos}
use sinboha.Types.{active, standby, error_ok, error_fail}
use sinboha.StatusRep.{on_receive_data}
use sinboha.NetClient.{Remote, returned, threw, transport_exception}
use sinboha.Sync.Start as SyncStart
use sinboha.BrainSplit.Thread as CheckThread
use sinboha.Imp.{initialize, sync_data}
use sinboha.Imp.Lifecycle.{CanInitialize, IsInitialized, initialize-IsInitialized, initialize-again}
use sinboha.Imp.Release.{Meanwhile}
use sinboha.Imp.Data.{sync_data-delivers}
use sinboha.Launch.{bad_alloc}
use sinboha.Pair.Link.{link}
use sinboha.Tests.Data.{ticks, node, line, settings, starts, stopped, working}

initialize-IsInitialized_example :
    let (m', e) = initialize settings starts stopped in
    ((e ≡ error_ok) ↔ CanInitialize settings starts stopped)
    × (e ≡ error_ok → IsInitialized settings starts stopped m')
    × (e ≢ error_ok → e ≡ error_fail)
initialize-IsInitialized_example = initialize-IsInitialized settings starts stopped

-- The check's thread is not started the first time.
initialize-again_example :
    let m' = (initialize settings (record starts { checker_launch = bad_alloc }) stopped).0 in
    initialize settings starts m' ≡ (m', error_fail)
initialize-again_example =
    initialize-again settings settings (record starts { checker_launch = bad_alloc }) starts stopped
      refl refl

abbrev wire : Remote
wire = link ticks (pos 200000)

abbrev checks : List CheckThread.Turn
checks =
    CheckThread.by_thread (pos 1)
    ∷ CheckThread.by_thread (pos 2)
    ∷ CheckThread.by_thread (pos 3)
    ∷ CheckThread.by_thread (pos 4)
    ∷ []

abbrev beats : List (SyncStart.Turn wire)
beats =
    SyncStart.by_thread (pos 5) (pos 5)
    ∷ SyncStart.by_thread (pos 6) (pos 6)
    ∷ SyncStart.by_thread (pos 7) (pos 7)
    ∷ SyncStart.by_thread (pos 8) (pos 8)
    ∷ []

abbrev meanwhile : Meanwhile wire ticks
meanwhile = record {
  checker_turns = checks;
  secondary_turns = beats;
  primary_turns = beats;
  server_stop = returned tt;
  served = threw transport_exception ∷ returned tt ∷ returned tt ∷ [];
}

sync_data-delivers_example :
    let (net', e) = sync_data wire (65 ∷ 66 ∷ []) working (node 150007 standby, []) in
    ((e ≡ error_ok) ↔ ((working.status.status ≡ active) × (some line ≢ none) × (standby ≡ standby)))
    × (net'.0 ≡ node 150007 standby)
    × (net'.1 ≡ on_receive_data 7 (65 ∷ 66 ∷ []) ∷ [])
sync_data-delivers_example =
    sync_data-delivers ticks (pos 200000) (65 ∷ 66 ∷ []) working (node 150007 standby)
