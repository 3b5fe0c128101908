-- ===== src/Process/SecondRelease.antt =====
-- A second caller of `Release` while a first one waits (Sinboha/SinbohaImp.cpp, SinbohaBrainSplit.cpp).
use sinboha.Prelude.{ℕ, ◌≡◌, ◌≢◌, true, false, some, List, [], ◌∷◌, arith}
use sinboha.Prelude.Int.{ℤ}
use sinboha.Types.{active}
use sinboha.Chrono.{TimePoint}
use sinboha.StatusRep.{brain_split}
use sinboha.NetClient.{NetClient, Remote, Outcome, returned}
use sinboha.NetService
use sinboha.Sync
use sinboha.BrainSplit
use sinboha.Process.{
  Process, Event, ReleasePc, outside, checker_waits, releases, heartbeat_runs, check_runs,
  service_runs, happen, heartbeat_step, release_step,
}

module _ (R : Remote) where
  -- A step of the second caller, or anything else that happens.
  pub data Turn : Type 0 where
    second_goes : Outcome (Unit {0}) → Turn
    goes : Event R → Turn

  module _ (ticks : ℕ) where
    -- The process, and where the second caller stands.
    unfoldable pub take_turn : Turn → Process R × ReleasePc → Process R × ReleasePc
    take_turn (second_goes outcome) (p, pc) =
        let p' = release_step R outcome pc p in
        (record p' { release_pc = p.release_pc }, p'.release_pc)
    take_turn (goes e) (p, pc) = ((happen R ticks e p).0, pc)

    unfoldable pub take_turns : List Turn → Process R × ReleasePc → Process R × ReleasePc
    take_turns [] x = x
    take_turns (t ∷ ts) x = take_turns ts (take_turn t x)

    -- The first caller sets the flag of the check and waits; the second one finds it set, and stops
    -- the heartbeat and the service, whose threads return.
    abbrev pub overtaking : TimePoint → List Turn
    overtaking now =
        let second = second_goes (returned tt) in
        goes (releases (returned tt))
        ∷ second
        ∷ second
        ∷ second
        ∷ goes (heartbeat_runs true now now)
        ∷ second
        ∷ second
        ∷ goes (service_runs (returned tt))
        ∷ goes (service_runs (returned tt))
        ∷ second
        ∷ []

    -- Let a node that is not active have a check that has just found the peer silent, no secondary
    -- heartbeat, a primary one that waits for its next round, and a service in its server; and let
    -- no `Release` be under way. Then a second `Release` can overtake a first one and return while
    -- the first still waits for the thread of the check, with everything else stopped; and the next
    -- step of that thread makes the node active.
    pub second-returns :
        (now later : TimePoint) (i : ℤ) (c : NetClient) (p : Process R)
        → p.release_pc ≡ outside
        → p.imp.checker.quit ≡ false
        → p.imp.checker.thread ≡ BrainSplit.at_split
        → p.imp.secondary.quit ≡ true
        → p.imp.primary.quit ≡ false
        → p.imp.primary.thread ≡ Sync.at_wait i
        → p.imp.primary.network ≡ some c
        → p.imp.service.quit ≡ false
        → p.imp.service.thread ≡ NetService.at_serve
        → p.imp.status.status ≢ active
        → let (p', pc) = take_turns (overtaking now) (p, outside) in
          (pc ≡ outside)
          × (p'.release_pc ≡ checker_waits)
          × (p'.imp.primary.quit ≡ true)
          × (p'.imp.service.quit ≡ true)
          × (p'.imp.status ≡ p.imp.status)
          × ((happen R ticks (check_runs later) p').0.imp.status.status ≡ active)
    unfolding take_turns take_turn happen heartbeat_step release_step Sync.thread_step
        BrainSplit.thread_step brain_split NetService.stop_request NetService.stop_finish
        NetService.thread_step Sync.stop_request Sync.stop_finish BrainSplit.stop_request
        BrainSplit.stop_finish
    second-returns now later i c p e1 e2 e3 e4 e5 e6 e7 e8 e9 e10 = ground arith
