-- ===== src/Tests/Initializes.antt =====
-- Callers of `Initialize` and `Release` at the same time.
use sinboha.Prelude.{ℕ, ◌≡◌, refl, true, List, [], ◌∷◌, arith}
use sinboha.Prelude.Int.{pos}
use sinboha.Types.{active, standby, error_ok}
use sinboha.NetService
use sinboha.Sync
use sinboha.BrainSplit
use sinboha.Imp.{start_service, start_primary, start_secondary, start_checker}
use sinboha.Imp.Callers as Callers
use sinboha.Imp.Callers.{
  Callers, at_service, initialize_step, call_step, call_steps, call_wholes, begun,
}
use sinboha.Imp.Callers.Rest.{IsInside}
use sinboha.Imp.Callers.Order.{call_steps-wholes}
use sinboha.NetClient.{Remote}
use sinboha.Process.{Process, outside, checker_waits, check_runs, happen}
use sinboha.Process.Crossing.{take_turns}
use sinboha.Pair.Link.{link}
use sinboha.Process.SecondRelease as Second
use sinboha.Process.SecondRelease.{overtaking, second-returns}
use sinboha.BrainSplit.Thread.{running}
use sinboha.StatusRep.{StatusRep}
use sinboha.Tests.Data.{settings, starts, stopped, working, beating, connected, node, ticks, late}

-- Nobody has begun.
abbrev all_new : Callers
all_new = record { imp = stopped; pc = λ i. at_service }

-- The second caller comes in between.
abbrev steps : List ℕ
steps = 4 ∷ 7 ∷ 4 ∷ 4 ∷ 7 ∷ 4 ∷ []

all_back : (j : ℕ) → ¬ IsInside ((call_steps (λ i. settings) (λ i. starts) steps all_new).pc j)
unfolding call_steps call_step initialize_step start_service start_primary start_secondary
    start_checker NetService.start Sync.start BrainSplit.start
all_back j h = ground arith

in_order_begun : begun (λ i. settings) (λ i. starts) steps all_new ≡ 4 ∷ 7 ∷ []
unfolding begun call_step initialize_step start_service start_primary start_secondary start_checker
    NetService.start Sync.start BrainSplit.start
in_order_begun = refl

call_steps-wholes_example :
    call_steps (λ i. settings) (λ i. starts) steps all_new
    ≡ call_wholes
        (λ i. settings)
        (λ i. starts)
        (begun (λ i. settings) (λ i. starts) steps all_new)
        all_new
call_steps-wholes_example =
    call_steps-wholes (λ i. settings) (λ i. starts) steps all_new (λ j h. h) all_back

first_ok : (call_steps (λ i. settings) (λ i. starts) steps all_new).pc 4 ≡ Callers.returned error_ok
unfolding call_steps call_step initialize_step start_service start_primary start_secondary
    start_checker NetService.start Sync.start BrainSplit.start
first_ok = refl

abbrev wire : Remote
wire = link ticks (pos 200000)

abbrev quiet : Process wire
quiet = record { imp = stopped; release_pc = outside; net = (late, []) }

abbrev late_standby : StatusRep
late_standby = node 150007 standby

-- A standby whose check has just found the peer silent.
abbrev alone : Process wire
alone = record {
  imp = record working {
    status = late_standby;
    primary = record beating { thread = Sync.at_wait (pos 500) };
    checker = record (running (pos 1000)) { thread = BrainSplit.at_split };
  };
  release_pc = outside;
  net = (late, []);
}

second-returns_example :
    let (p', pc) =
      Second.take_turns wire ticks (overtaking wire ticks (pos 300000)) (alone, outside) in
    (pc ≡ outside)
    × (p'.release_pc ≡ checker_waits)
    × (p'.imp.primary.quit ≡ true)
    × (p'.imp.service.quit ≡ true)
    × (p'.imp.status ≡ late_standby)
    × ((happen wire ticks (check_runs (pos 300000)) p').0.imp.status.status ≡ active)
second-returns_example =
    second-returns wire ticks (pos 300000) (pos 300000) (pos 500) connected alone refl refl refl
      refl refl refl refl refl refl (λ e. cc)
