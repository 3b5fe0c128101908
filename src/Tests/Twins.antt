-- ===== src/Tests/Twins.antt =====
-- Two nodes with their whole processes.
use sinboha.Prelude.{◌≡◌, ◌⊎◌, true, some, List, [], ◌∷◌, arith}
use sinboha.Prelude.Int.{pos}
use sinboha.Types.{pending, active, standby}
use sinboha.NetClient.{returned}
use sinboha.Process.{
  outside, heartbeat_runs, check_runs, service_runs, initializes, registers, sends_data, releases,
  switches, happen, heartbeat_step,
}
use sinboha.Pair.Interleaving.{first, second}
use sinboha.Pair.Interleaving.Recovery.{Acts}
use sinboha.Pair.{IsResolved}
use sinboha.Sync
use sinboha.BrainSplit
use sinboha.Pair.Threads.{delivered, request_lost, answer_lost}
use sinboha.Pair.Processes.{Nodes, Moment, moment, take_moment, take_moments, view}
use sinboha.Pair.Processes.Recovery.{take_moments-Acts}
use sinboha.Pair.Processes.Recoverable.{IsWithin, take_moments-recoverable}
use sinboha.Pair.Processes.Timely.{take_moments-timely_roles}
use sinboha.BrainSplit.{at_compare}
use sinboha.BrainSplit.Thread.{running}
use sinboha.Tests.Data.{ticks, at, node, late, settings, starts, stopped, working}

-- An active node that works, and one that has not been initialized.
abbrev both : Nodes
both = record {
  imp = elim [ first ↦ working | second ↦ record stopped { status = late } ];
  release_pc = λ p. outside;
}

-- The second node starts and asks the first, which sends data.
abbrev morning : List (Moment ticks)
morning =
    moment first (pos 1) delivered (check_runs (pos 200000))
    ∷ moment second (pos 1) delivered (initializes settings starts)
    ∷ moment second (pos 1) delivered (heartbeat_runs true (pos 210000) (pos 210000))
    ∷ moment first (pos 1) delivered (heartbeat_runs true (pos 215000) (pos 215000))
    ∷ moment first (pos 1) answer_lost (sends_data (65 ∷ []))
    ∷ moment second (pos 1) delivered (service_runs (returned tt))
    ∷ []

abbrev evening : List (Moment ticks)
evening =
    moment first (pos 1) request_lost (heartbeat_runs true (pos 220000) (pos 220000))
    ∷ moment second (pos 1) delivered (registers (some 9))
    ∷ moment second (pos 1) delivered (releases (returned tt))
    ∷ []

-- The check of the first node has read a sign of life, and is about to compare.
abbrev comparing : Nodes
comparing = record both {
  imp = elim [
    | first ↦ record working {
      checker = record (running (pos 1000)) { thread = at_compare (pos 190000) };
    }
    | second ↦ record stopped { status = late }
  ];
}

take_moments-timely_roles_example :
    let t = view (take_moments ticks morning comparing) in
    let u = view (take_moments ticks evening (take_moments ticks morning comparing)) in
    (((t.node first).status ≡ active) ⊎ ((t.node first).status ≡ active))
    × (((t.node second).status ≡ pending) ⊎ ((t.node second).status ≡ standby))
    × ((t.node first).status ≡ active → (u.node first).status ≡ active)
    × ((t.node second).status ≡ standby → (u.node second).status ≡ standby)
take_moments-timely_roles_example =
    take_moments-timely_roles ticks comparing morning evening (omega arith) (omega arith) tt
      (λ p c. ground arith) (λ p. ground arith)
      ((omega arith, omega arith, omega arith, omega arith), (tt, (tt, (tt, (tt, (tt, tt))))))
      (tt, (tt, (tt, tt)))

-- With a manual switch after it.
abbrev day : List (Moment ticks)
day =
    moment first (pos 1) delivered (check_runs (pos 200000))
    ∷ moment first (pos 1) delivered (heartbeat_runs true (pos 215000) (pos 215000))
    ∷ moment first (pos 1) delivered (switches (pos 220000))
    ∷ []

take_moments-Acts_example : Acts ticks (view both) (view (take_moments ticks day both))
take_moments-Acts_example = take_moments-Acts ticks day both (tt, (tt, (tt, tt)))

-- Two nodes that are both active.
abbrev rivals : Nodes
rivals = record {
  imp = elim [ first ↦ working | second ↦ record working { status = node 150007 active } ];
  release_pc = λ p. outside;
}

-- The second one starts a heartbeat, and the first one has begun one too.
abbrev clash : List (Moment ticks)
clash =
    moment second (pos 1) delivered (heartbeat_runs true (pos 200000) (pos 200000))
    ∷ moment first (pos 1) request_lost (heartbeat_runs true (pos 200000) (pos 200000))
    ∷ moment first (pos 1) delivered (check_runs (pos 200000))
    ∷ []

take_moments-recoverable_example :
    let e = take_moments ticks clash rivals in
    (ns : List (Moment ticks)) × IsWithin ticks (at 400000) (at 410000) 12 12 ns
    × (let d' = take_moments ticks ns e in IsResolved (d'.imp first).status (d'.imp second).status)
unfolding take_moments take_moment happen heartbeat_step Sync.thread_step BrainSplit.thread_step
take_moments-recoverable_example =
    take_moments-recoverable ticks clash rivals (at 400000) (at 410000) (λ p. ground arith)
      (λ p. ground arith) ((λ e. e), ((λ e. e), ((λ e. e), tt))) (tt, (tt, (tt, tt)))
      (λ p. ground arith) (omega arith) (omega arith) (λ e. ground arith) (λ e. ground arith)
      (λ e. ground arith) (λ e. ground arith)
