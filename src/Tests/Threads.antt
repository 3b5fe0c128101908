-- ===== src/Tests/Threads.antt =====
-- The three threads.
use sinboha.Prelude.{List, [], ◌∷◌}
use sinboha.Prelude.Int.{pos}
use sinboha.Types.{standby}
use sinboha.Launch.{launched}
use sinboha.StatusRep.{StatusRep}
use sinboha.NetClient.{Remote, Outcome, returned, threw, transport_exception}
use sinboha.Sync
use sinboha.Sync.Start as SyncStart
use sinboha.Sync.Start.{IsStart, start-IsStart}
use sinboha.BrainSplit.Thread as CheckThread
use sinboha.Pair.Link.{link}
use sinboha.Tests.Data.{ticks, early, late, beating, idle_sync, fresh}

abbrev wire : Remote
wire = link ticks (pos 200000)

abbrev started : Sync.World wire
started = record { sync = beating; node = early; net = (late, []) }

abbrev beats : List (SyncStart.Turn wire)
beats =
    SyncStart.by_thread (pos 200000) (pos 200000)
    ∷ SyncStart.node_changes late
    ∷ SyncStart.by_thread (pos 200000) (pos 200000)
    ∷ SyncStart.by_thread (pos 200000) (pos 200000)
    ∷ SyncStart.net_changes (early, [])
    ∷ SyncStart.by_thread (pos 200000) (pos 200000)
    ∷ []

start-IsStart_example :
    let (s', e) = Sync.start "c" (pos 7) (pos 100) (pos 400) fresh launched idle_sync in
    IsStart "c" (pos 7) (pos 100) (pos 400) fresh launched idle_sync s' e
start-IsStart_example = start-IsStart "c" (pos 7) (pos 100) (pos 400) fresh launched idle_sync

-- A peer that was heard of 1.5 seconds ago, with a limit of one second.
abbrev silent : StatusRep
silent = record late { status = standby; peer_live_time = pos 200000 }

abbrev checks : List CheckThread.Turn
checks =
    CheckThread.by_thread (pos 1)
    ∷ CheckThread.by_other late
    ∷ CheckThread.by_thread (pos 2)
    ∷ CheckThread.by_thread (pos 3)
    ∷ CheckThread.by_thread (pos 4)
    ∷ []

abbrev ends : List (Outcome (Unit {0}))
ends = threw transport_exception ∷ returned tt ∷ returned tt ∷ []

abbrev orderly : Outcome (Unit {0})
orderly = returned tt
