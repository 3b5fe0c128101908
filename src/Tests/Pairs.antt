-- ===== src/Tests/Pairs.antt =====
-- Two nodes.
use sinboha.Prelude.{◌≡◌, refl, inl, List, [], ◌∷◌, arith}
use sinboha.Prelude.Int.{pos}
use sinboha.Types.{pending, active, standby, error_ok}
use sinboha.StatusRep.{switch}
use sinboha.StatusRep.Changes.{switched}
use sinboha.Pair.{exchange, IsResolved}
use sinboha.Pair.Convergence.{round, round-IsResolved}
use sinboha.Pair.Safety.{
  PairEvent, first_asks, second_asks, first_performs, IsSafe, happen_all, happen_all-IsSafe,
}
use sinboha.Pair.SameMillisecond.{crossed, crossed-both_active_iff, exchange-of_standby_tie}
use sinboha.Pair.Interleaving.{
  first, second, primary, System, idle, set_node, Beats, here, next, sends, sent, set_call,
}
use sinboha.Pair.Interleaving.ManualSwitch.{stale_answer-both_active}
use sinboha.Chrono.{to_milliseconds, of_milliseconds}
use sinboha.StatusRep.{query_change}
use sinboha.Tests.Data.{ticks, node, early, late, at}

-- Both ask, the active one is switched by hand, and both ask again.
abbrev evening : List PairEvent
evening =
    second_asks (at 200000)
    ∷ first_asks (at 210000)
    ∷ first_performs (switched (pos 300000)) tt
    ∷ second_asks (at 310000)
    ∷ first_asks (at 320000)
    ∷ []

happen_all-IsSafe_example :
    IsSafe (happen_all ticks evening early late).0 (happen_all ticks evening early late).1
happen_all-IsSafe_example =
    happen_all-IsSafe ticks evening early late
      (record { first_named = tt; second_named = tt; one_active = inl (λ e. cc) })

round-IsResolved_example :
    IsResolved
      (round ticks (at 200000) (at 210000) early late).0
      (round ticks (at 200000) (at 210000) early late).1
round-IsResolved_example =
    round-IsResolved ticks (at 200000) (at 210000) early late tt tt (omega arith) (omega arith)
      (λ e. ground arith)

crossed-both_active_iff_example :
    ((crossed ticks (at 200000) (at 200000) early (node 120007 pending)).0.status ≡ active)
    × ((crossed ticks (at 200000) (at 200000) early (node 120007 pending)).1.status ≡ active)
unfolding to_milliseconds of_milliseconds
crossed-both_active_iff_example =
    (crossed-both_active_iff ticks (at 200000) (at 200000) early (node 120007 pending) tt tt
        (omega arith) (omega arith)).1
      (inl (refl, refl), omega arith, omega arith)

exchange-of_standby_tie_example :
    exchange ticks (at 200000) (node 120000 standby) (node 120000 standby) ≡ (
      record (node 120000 standby) { peer_live_time = pos 200000 },
      record (node 120000 standby) { peer_live_time = pos 200000 },
    )
unfolding to_milliseconds of_milliseconds
exchange-of_standby_tie_example =
    exchange-of_standby_tie ticks (at 200000) (node 120000 standby) (node 120000 standby) refl refl
      refl refl

-- Two nodes at their start, and the first step of a heartbeat.
abbrev quiet : System
quiet = record { node = elim [ first ↦ early | second ↦ late ]; call = λ p c. idle }

abbrev asking : System
asking = set_call quiet second primary (sent (pos 150007) pending)

asking-reached : Beats ticks quiet asking
unfolding query_change
asking-reached = next here (sends second primary refl)

-- The first node is active, and the second is its standby.
abbrev settled : System
settled = record {
  node = elim [ first ↦ node 120005 active | second ↦ node 150007 standby ];
  call = λ p c. idle;
}

stale_answer-both_active_example :
    (s' u : System) × Beats ticks settled s'
    × ((switch (pos 300000) (s'.node first)).1 ≡ error_ok)
    × Beats ticks (set_node s' first (switch (pos 300000) (s'.node first)).0) u
    × ((u.node first).status ≡ active)
    × ((u.node second).status ≡ active)
unfolding to_milliseconds of_milliseconds
stale_answer-both_active_example =
    stale_answer-both_active ticks (pos 290000) (pos 300000) (pos 310000) (pos 310000) (at 305000)
      settled refl refl refl refl (omega arith)
