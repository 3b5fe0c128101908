-- ===== src/Tests/Rounds.antt =====
-- Two nodes whose heartbeats take turns, and a node that is cut off from its peer.
use sinboha.Prelude.{ℕ, zero, suc, true, ◌≡◌, refl, List, [], ◌∷◌, arith}
use sinboha.Prelude.Int.{pos}
use sinboha.Types.{active, standby, error_ok}
use sinboha.Imp.{initialize}
use sinboha.Process.{outside, heartbeat_runs, check_runs}
use sinboha.Pair.Interleaving.{Side, first, second}
use sinboha.Pair.Threads.{delivered, request_lost, answer_lost}
use sinboha.Pair.Processes.{Nodes, Moment, moment, take_moment, take_moments}
use sinboha.Pair.Processes.Timely.{AllInTime}
use sinboha.Pair.Processes.Agreement.{NoRelease}
use sinboha.Pair.Processes.Arrival.{AllArrive}
use sinboha.Pair.Processes.Convergence.{take_moments-converge}
use sinboha.Pair.Processes.CutOff.Takeover.{take_moments-active}
use sinboha.Pair.Processes.StartUp.{Launching, constructed, launched, launched-converge}
use sinboha.Tests.Data.{ticks, late, working, memory, settings, starts}

-- An active node and one that is not.
abbrev couple : Nodes
couple = record {
  imp = elim [ first ↦ working | second ↦ record working { status = late } ];
  release_pc = λ p. outside;
}

abbrev step : Side → Moment ticks
step p = moment p (pos 200000) delivered (heartbeat_runs true (pos 200000) (pos 200000))

abbrev rounds : ℕ → List (Moment ticks)
rounds zero = []
rounds (suc n) = step first ∷ step second ∷ rounds n

rounds-AllInTime : (n : ℕ) (d : Nodes) → AllInTime ticks (rounds n) d
rounds-AllInTime zero d = tt
rounds-AllInTime (suc n) d = (
  tt,
  (tt, rounds-AllInTime n (take_moment ticks (step second) (take_moment ticks (step first) d))),
)

rounds-NoRelease : (n : ℕ) → NoRelease ticks (rounds n) × AllArrive ticks (rounds n)
rounds-NoRelease zero = (tt, tt)
rounds-NoRelease (suc n) =
    let (quiet, arrive) = rounds-NoRelease n in ((λ e. e, (λ e. e, quiet)), (refl, (refl, arrive)))

take_moments-converge_example :
    let e = take_moments ticks (rounds 10) couple in
    ((e.imp first).status.status ≡ active) × ((e.imp second).status.status ≡ standby)
take_moments-converge_example =
    take_moments-converge ticks couple (rounds 10) (omega arith) (omega arith) tt
      (λ p. ground arith) (λ p c. ground arith) (λ p. ground arith) (rounds-AllInTime 10 couple)
      (rounds-NoRelease 10).0 (rounds-NoRelease 10).1 (omega arith) (omega arith)

abbrev launching : ℕ → Launching
launching n = record {
  change = pos n;
  live = pos n;
  memory = memory;
  settings = settings;
  starts = starts;
}

abbrev launchings : Side → Launching
launchings = elim [ first ↦ launching 120005 | second ↦ launching 150007 ]

both_succeed :
    (p : Side)
    → (initialize (launchings p).settings (launchings p).starts (constructed (launchings p))).1
      ≡ error_ok
unfolding sinboha.Imp.Interface.new_imp sinboha.NetService.new_net_service sinboha.Sync.new_sync
    sinboha.BrainSplit.new_brain_split initialize sinboha.NetService.start sinboha.Sync.start
    sinboha.BrainSplit.start
both_succeed first = refl
both_succeed second = refl

launched-converge_example :
    let e = take_moments ticks (rounds 10) (launched launchings) in
    ((e.imp first).status.status ≡ active) × ((e.imp second).status.status ≡ standby)
unfolding sinboha.Chrono.of_milliseconds sinboha.Chrono.to_milliseconds
launched-converge_example =
    launched-converge ticks launchings (rounds 10) (λ p. ground arith) (omega arith) both_succeed
      (rounds-AllInTime 10 (launched launchings)) (rounds-NoRelease 10).0 (rounds-NoRelease 10).1
      (λ p. ground arith)

-- A step of the check of the second node, eleven seconds after the last sign of life.
abbrev check : Moment ticks
check = moment second (pos 1) answer_lost (check_runs (pos 110000000))

abbrev cut : List (Moment ticks)
cut =
    moment second (pos 1) answer_lost (heartbeat_runs true (pos 200000) (pos 200000))
    ∷ moment first (pos 1) request_lost (heartbeat_runs true (pos 200000) (pos 200000))
    ∷ check
    ∷ check
    ∷ check
    ∷ check
    ∷ check
    ∷ []

take_moments-active_example : ((take_moments ticks cut couple).imp second).status.status ≡ active
take_moments-active_example =
    take_moments-active ticks 1000 0 second cut couple (omega arith)
      (record {
        watches = record { wanted = refl; limit = refl; silent_since = refl; has_read = tt };
        no_answer = tt;
        no_other_answer = tt;
      })
      (ground arith) (omega arith)
