-- ===== src/Process/Crossing.antt =====
-- An `Initialize` and a `Release` by two callers at once (Sinboha/SinbohaImp.cpp): each moves from one
-- part to the next, and no lock keeps them apart.
use sinboha.Prelude.{ℕ, List, [], ◌∷◌}
use sinboha.NetClient.{Remote, Outcome, returned}
use sinboha.NetService
use sinboha.Sync
use sinboha.BrainSplit
use sinboha.Imp.{Settings, Starts}
use sinboha.Imp.Callers as Callers
use sinboha.Imp.Callers.{InitializePc, initialize_step}
use sinboha.Process.{Process, Event, releases, service_runs, happen}

module _ (R : Remote) where
  -- A step of the caller of `Initialize`, or anything else that happens.
  pub data Turn : Type 0 where
    initialize_goes : Turn
    goes : Event R → Turn

  module _ (ticks : ℕ) (a : Settings) (k : Starts) where
    unfoldable pub take_turn : Turn → Process R × InitializePc → Process R × InitializePc
    take_turn initialize_goes (p, pc) =
        let (m', pc') = initialize_step a k pc p.imp in (record p { imp = m' }, pc')
    take_turn (goes e) (p, pc) = ((happen R ticks e p).0, pc)

    unfoldable pub take_turns : List Turn → Process R × InitializePc → Process R × InitializePc
    take_turns [] x = x
    take_turns (t ∷ ts) x = take_turns ts (take_turn t x)

    -- A whole `Release` after the first step of `Initialize`, and then the rest of it. The `stop` of the
    -- server returns, and `serve` comes back in any way before the `Release` ends its last wait.
    abbrev pub crossing : Outcome (Unit {0}) → List Turn
    crossing o =
        let release = goes (releases (returned tt)) in
        initialize_goes
        ∷ release
        ∷ release
        ∷ release
        ∷ release
        ∷ goes (service_runs o)
        ∷ release
        ∷ initialize_goes
        ∷ initialize_goes
        ∷ initialize_goes
        ∷ []
