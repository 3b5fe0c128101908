-- ===== src/Pair/Processes/Recovery.antt =====
-- Two whole processes (Sinboha/SinbohaImp.cpp, SinbohaSync.cpp, SinbohaBrainSplit.cpp), as steps of the
-- relation of `Pair.Interleaving.Recovery`.
use sinboha.Prelude.{ℕ, ◌≡◌, ◌≢◌, List}
use sinboha.Types.{IsNamed}
use sinboha.Chrono.{IsClock}
use sinboha.Pair.{Readings, IsResolved}
use sinboha.Pair.Interleaving.{Side, first, second, primary, idle, System, Beats, here, next}
use sinboha.Pair.Interleaving.Recovery.{Acts, stop, go_on, beats, performs, IsOwn, Acts-can_resolve}
use sinboha.Pair.Processes.{Nodes, Moment, take_moments, view}
use sinboha.Pair.Processes.Steps.{IsClosed, AllAllowed, take_moments-Rel}

module _ (ticks : ℕ) where
  Acts-append : {s t u : System} → Acts ticks s t → Acts ticks t u → Acts ticks s u
  Acts-append before stop = before
  Acts-append before (go_on r a) = go_on (Acts-append before r) a

  Beats-Acts : {s u : System} → Beats ticks s u → Acts ticks s u
  Beats-Acts here = stop
  Beats-Acts (next r b) = go_on (Beats-Acts r) (beats b)

  Acts-IsClosed : IsClosed ticks (Acts ticks) IsOwn
  Acts-IsClosed = record {
    stays = λ s. stop;
    follows = Acts-append;
    by_beats = Beats-Acts;
    by_method = λ s p m own. go_on stop (performs p m own);
  }

  -- Whatever happens to two whole processes, in any order and with any requests and answers lost, if
  -- what reaches a process from outside is what the threads and callers of the other one send, then
  -- the statuses and the calls under way go through steps of the relation `Act`.
  pub take_moments-Acts :
      (ms : List (Moment ticks)) (d : Nodes)
      → AllAllowed ticks IsOwn ms d
      → Acts ticks (view d) (view (take_moments ticks ms d))
  take_moments-Acts ms d own = take_moments-Rel ticks Acts-IsClosed ms d own

  -- Whatever has happened to two whole processes whose nodes had statuses with names, as above, so
  -- that both may be active or neither: from there a heartbeat of each can make one of them active
  -- and the other its standby, at any readings of the clocks, if the times of their last changes
  -- differ and are readings of a clock that is set after 1970.
  pub take_moments-can_resolve :
      (ms : List (Moment ticks)) (d : Nodes) (t t' : Readings)
      → IsNamed (d.imp first).status.status
      → IsNamed (d.imp second).status.status
      → AllAllowed ticks IsOwn ms d
      → let u = view (take_moments ticks ms d) in
        IsClock (u.node first).change_time
        → IsClock (u.node second).change_time
        → (u.node first).change_time ≢ (u.node second).change_time
        → (v : System) × Beats ticks u v
          × IsResolved (v.node first) (v.node second)
          × ((p : Side) → v.call p primary ≡ idle)
  take_moments-can_resolve ms d t t' na nb own ca cb differ =
      Acts-can_resolve ticks t t' na nb (take_moments-Acts ms d own) ca cb differ
