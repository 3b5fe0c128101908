-- ===== src/Tests/PairThreads.antt =====
-- A heartbeat that is started again, and the texts and times that a node writes and sends.
use sinboha.Prelude.{◌≤◌, ◌<◌, ◌≡◌, refl, true, List, [], ◌∷◌, ◌++◌}
use sinboha.Prelude.Int.{pos}
use sinboha.Chrono.{TimePoint}
use sinboha.Helper.{to_string, IsFraction, to_string-IsFraction}
use sinboha.NetClient.{Remote}
use sinboha.StatusRep.{Bytes}
use sinboha.Sync.{Sync, start}
use sinboha.Sync.Restart.{
  IsAlive, IsWaiting, Turn, new_goes, old_goes, take_turns, restart, restart-hangs,
}
use sinboha.Pair.Link.{link}
use sinboha.Tests.Data.{ticks, early, late, beating, fresh}

abbrev wire : Remote
wire = link ticks (pos 200000)

-- A heartbeat that was told to stop, while its thread is in the middle of a round.
abbrev stopping : Sync
stopping = record beating { quit = true }

abbrev steps : List (Turn wire)
steps =
    old_goes (pos 1) (pos 1)
    ∷ new_goes (pos 2) (pos 2)
    ∷ old_goes (pos 3) (pos 3)
    ∷ old_goes (pos 4) (pos 4)
    ∷ new_goes (pos 5) (pos 5)
    ∷ old_goes (pos 6) (pos 6)
    ∷ new_goes (pos 7) (pos 7)
    ∷ new_goes (pos 8) (pos 8)
    ∷ []

restart-hangs_example :
    let x =
      take_turns wire ticks steps
        (restart wire "b" (pos 9) (pos 200) (pos 500) fresh stopping early (late, [])) in
    IsAlive x.old × (4 ≤ 4 → 4 ≤ 4 → IsWaiting x.old × IsWaiting x.world.sync.thread)
unfolding start
restart-hangs_example =
    restart-hangs wire ticks steps "b" (pos 9) (pos 200) (pos 500) fresh stopping early (late, [])
      refl tt refl

-- The date and time of day in the first second of 1970.
abbrev midnight : TimePoint → Bytes
midnight t = 48 ∷ 58 ∷ 48 ∷ []

-- 1042 milliseconds.
to_string-IsFraction_example :
    (42 < 1000)
    × ((ds : Bytes) × (to_string midnight ticks (pos 10421234) ≡ midnight (pos 10421234) ++ 46 ∷ ds)
        × IsFraction 42 ds)
to_string-IsFraction_example = to_string-IsFraction midnight ticks 10421234
