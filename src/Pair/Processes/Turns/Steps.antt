-- ===== src/Pair/Processes/Turns/Steps.antt =====
-- Single steps of a primary heartbeat thread (Sinboha/SinbohaSync.cpp), by what it acts on.
use sinboha.Prelude.{ℕ, ◌≡◌, refl, false, Option, none, some, List, [], ◌∷◌, ◌++◌, arith}
use sinboha.Prelude.Int.{ℤ, pos}
use sinboha.Types.{SinbohaStatus}
use sinboha.Chrono.{TimePoint}
use sinboha.StatusRep.{StatusRep, query_change}
use sinboha.NetClient
use sinboha.NetClient.{NetClient, Transport}
use sinboha.Sync
use sinboha.Sync.{BeatPc, Sync}
use sinboha.Pair.{Readings, exchange}
use sinboha.Pair.Threads.{Fate, delivered, request_lost, network, initialize-net, re_initialize-net}
use sinboha.Pair.Processes.Turns.{Local, local_step, local_run}

abbrev pub started : BeatPc → NetClient → Sync → StatusRep → StatusRep → Local
started pc c s a b = record {
  sync = record s { quit = false; network = some c; thread = pc };
  node = a;
  peer = b;
}

module _ (ticks : ℕ) (t : Readings) where
  -- A call that fails, with or without a client, and the new connection.
  pub lost_lem :
      (i : ℤ) (u : TimePoint) (st : SinbohaStatus) (client : Option Transport) (c : NetClient)
      (s : Sync) (a b : StatusRep)
      → local_step ticks t request_lost
          (started (Sync.at_call i u st) (record c { client = client }) s a b)
        ≡ started (Sync.at_reset i) (record c { client = client }) s a b
  unfolding local_step Sync.thread_step NetClient.can_you_activate_me
  lost_lem i u st none c s a b = refl
  lost_lem i u st (some x) c s a b = refl

  pub reset_lem :
      (i : ℤ) (c : NetClient) (s : Sync) (a b : StatusRep)
      → let c' = (NetClient.re_initialize (network ticks t.heard delivered) c (b, [])).0 in
        local_step ticks t delivered (started (Sync.at_reset i) c s a b)
        ≡ started (Sync.at_test i) c' s a b
  unfolding local_step Sync.thread_step
  reset_lem i c s a b = rw (re_initialize-net ticks t.heard delivered c (b, []))

  pub initialize_lem :
      (c : NetClient) (s : Sync) (a b : StatusRep)
      → let c' =
          (NetClient.initialize
            (network ticks t.heard delivered)
            s.peer_address
            s.peer_port
            s.network_timeout
            c
            (b, [])).0 in
        local_step ticks t delivered (started Sync.at_initialize c s a b)
        ≡ started (Sync.at_test (pos 0)) c' s a b
  unfolding local_step Sync.thread_step
  initialize_lem c s a b = rw (
      initialize-net ticks t.heard delivered c s.peer_address s.peer_port s.network_timeout (b, []))

  pub query_lem :
      (i : ℤ) (c : NetClient) (s : Sync) (a b : StatusRep)
      → local_step ticks t delivered (started (Sync.at_query i) c s a b)
        ≡ started (Sync.at_call i a.change_time a.status) c s a b
  unfolding local_step Sync.thread_step query_change
  query_lem i c s a b = refl

  pub local_run_append :
      (fs gs : List Fate) (l : Local)
      → local_run ticks t (fs ++ gs) l ≡ local_run ticks t gs (local_run ticks t fs l)
  unfolding local_run
  local_run_append [] gs l = refl
  local_run_append (f ∷ fs) gs l = local_run_append fs gs (local_step ticks t f l)

  pub started_lem :
      (pc : BeatPc) (c : NetClient) (l : Local)
      → l.sync.quit ≡ false
      → l.sync.thread ≡ pc
      → l.sync.network ≡ some c
      → l ≡ started pc c l.sync l.node l.peer
  started_lem pc c l q p n = ground arith

  -- A heartbeat with an open connection to the peer's handler is an exchange.
  pub connected_beat :
      (i : ℤ) (x : Transport) (c : NetClient) (s : Sync) (a b : StatusRep)
      → c.client ≡ some x
      → let l =
          local_run ticks t
            (delivered ∷ delivered ∷ delivered ∷ [])
            (started (Sync.at_query i) c s a b) in
        (l.node, l.peer) ≡ exchange ticks t a b
  unfolding local_run local_step Sync.thread_step query_change NetClient.can_you_activate_me
      exchange
  connected_beat i x c s a b connected = rw connected
