-- ===== src/Pair/Threads.antt =====
-- Two nodes with their heartbeat threads (Sinboha/SinbohaSync.cpp) on a network that may lose requests
-- and answers, and what a step of a thread can do to them.
pub mod Steps
pub mod Startup
pub mod Roles
use sinboha.Prelude.{ℕ, ◌≡◌, Bool, true, false, String, Option, none, some, List, ◌++◌, arith}
use sinboha.Prelude.Int.{ℤ}
use sinboha.Types.{SinbohaStatus, i16_of_status}
use sinboha.Chrono.{TimePoint, to_milliseconds}
use sinboha.StatusRep.{StatusRep, CallbackCall, query_change, try_activate}
use sinboha.RpcHandler.{handle_can_you_activate_me, handle_sync_data}
use sinboha.NetClient
use sinboha.NetClient.{Remote, Transport, Outcome, returned, threw, transport_exception}
use sinboha.Sync
use sinboha.Sync.{BeatPc, Sync}
use sinboha.Pair.Interleaving.{Call, idle, sent, answered}

-- What becomes of a call: it works, its request is lost, or its answer is.
pub data Fate : Type 0 where
  delivered request_lost answer_lost : Fate

abbrev with_fate {ℓ κ} : {N : Type ℓ} {A : Type κ} → Fate → N → N × A → N × Outcome A
with_fate delivered net (net', a) = (net', returned a)
with_fate request_lost net (net', a) = (net, threw transport_exception)
with_fate answer_lost net (net', a) = (net', threw transport_exception)

-- The world of a thread is the peer's node, with the calls of its callback so far.
abbrev pub network : ℕ → TimePoint → Fate → Remote
network ticks heard fate = record {
  Net = StatusRep × List CallbackCall;
  open_transport = λ t net. with_fate fate net (net, tt);
  close_transport = λ t net. with_fate fate net (net, tt);
  call_can_you_activate_me = λ t change_time status net. with_fate fate net (
      let (peer', b) = handle_can_you_activate_me ticks heard change_time status net.0 in
      ((peer', net.1), b));
  call_sync_data = λ t b net.
      with_fate fate net
        (let (peer', n, calls) = handle_sync_data b net.0 in ((peer', net.1 ++ calls), n));
}

-- How far a heartbeat has got.
abbrev pub call_of : BeatPc → Call
call_of (Sync.at_call i t s) = sent t s
call_of (Sync.at_apply i b) = answered b
call_of _ = idle

module _ (ticks : ℕ) where
  -- What a step can do to the node, to its peer and to the heartbeat.
  pub data Move (live now heard : TimePoint) (a b : StatusRep)
      : Call → StatusRep → StatusRep → Call → Type 0 where
    stays : {k : Call} → Move live now heard a b k a b k
    asks : Move live now heard a b idle a b (sent (query_change a).0 (query_change a).1)
    is_answered :
        (t : TimePoint) (s : SinbohaStatus)
        → Move live now heard a b
            (sent t s)
            a
            (handle_can_you_activate_me ticks heard (to_milliseconds ticks t) (i16_of_status s) b).0
            (answered
              (handle_can_you_activate_me ticks heard
                (to_milliseconds ticks t)
                (i16_of_status s)
                b).1)
    loses_answer :
        (t : TimePoint) (s : SinbohaStatus)
        → Move live now heard a b
            (sent t s)
            a
            (handle_can_you_activate_me ticks heard (to_milliseconds ticks t) (i16_of_status s) b).0
            idle
    follows :
        (allowed : Bool)
        → Move live now heard a b (answered allowed) (try_activate live now allowed a).0 b idle
    gives_up : {k : Call} → Move live now heard a b k a b idle

  pub initialize-net :
      (heard : TimePoint) (fate : Fate) (c : NetClient.NetClient) (address : String)
      (port timeout : ℤ) (net : StatusRep × List CallbackCall)
      → (NetClient.initialize (network ticks heard fate) address port timeout c net).1 ≡ net
  unfolding NetClient.initialize NetClient.release_client
  initialize-net heard fate c address port timeout net = ground arith

  pub re_initialize-net :
      (heard : TimePoint) (fate : Fate) (c : NetClient.NetClient)
      (net : StatusRep × List CallbackCall)
      → (NetClient.re_initialize (network ticks heard fate) c net).1 ≡ net
  unfolding NetClient.re_initialize NetClient.release_client
  re_initialize-net heard fate c net = ground arith

  -- The call of the peer, over a connection with or without a client.
  call-Move :
      (live now heard : TimePoint) (fate : Fate) (i : ℤ) (q : Bool) (t : TimePoint)
      (st : SinbohaStatus) (client : Option Transport) (c : NetClient.NetClient) (s : Sync)
      (a b : StatusRep) (calls : List CallbackCall)
      → let s' = record s {
        quit = q;
        network = some (record c { client = client });
        thread = Sync.at_call i t st;
      } in
        let w =
          (Sync.thread_step
            (network ticks heard fate)
            ticks
            live
            now
            (record { sync = s'; node = a; net = (b, calls) })).0 in
        Move live now heard a b (sent t st) w.node w.net.0 (call_of w.sync.thread)
  unfolding Sync.thread_step NetClient.can_you_activate_me
  call-Move live now heard fate i q t st none c s a b calls = gives_up
  call-Move live now heard delivered i q t st (some x) c s a b calls = is_answered t st
  call-Move live now heard request_lost i q t st (some x) c s a b calls = gives_up
  call-Move live now heard answer_lost i q t st (some x) c s a b calls = loses_answer t st

  step-Move :
      (live now heard : TimePoint) (fate : Fate) (pc : BeatPc) (q : Bool)
      (n : Option NetClient.NetClient) (s : Sync) (a b : StatusRep) (calls : List CallbackCall)
      → let s' = record s { quit = q; network = n; thread = pc } in
        let w =
          (Sync.thread_step
            (network ticks heard fate)
            ticks
            live
            now
            (record { sync = s'; node = a; net = (b, calls) })).0 in
        Move live now heard a b (call_of pc) w.node w.net.0 (call_of w.sync.thread)
  unfolding Sync.thread_step
  step-Move live now heard fate Sync.no_thread q n s a b calls = stays
  step-Move live now heard fate Sync.finished q n s a b calls = stays
  step-Move live now heard fate Sync.at_initialize q none s a b calls = stays
  step-Move live now heard fate Sync.at_initialize q (some c) s a b calls =
      rw (initialize-net heard fate c s.peer_address s.peer_port s.network_timeout (b, calls)) stays
  step-Move live now heard fate (Sync.at_test i) true n s a b calls = stays
  step-Move live now heard fate (Sync.at_test i) false n s a b calls = stays
  step-Move live now heard fate (Sync.at_wait i) true n s a b calls = stays
  step-Move live now heard fate (Sync.at_wait i) false n s a b calls = stays
  step-Move live now heard fate (Sync.at_query i) q n s a b calls = asks
  step-Move live now heard fate (Sync.at_call i t st) q none s a b calls = gives_up
  step-Move live now heard fate (Sync.at_call i t st) q (some c) s a b calls =
      call-Move live now heard fate i q t st c.client c s a b calls
  step-Move live now heard fate (Sync.at_apply i allowed) q n s a b calls = follows allowed
  step-Move live now heard fate (Sync.at_reset i) q none s a b calls = stays
  step-Move live now heard fate (Sync.at_reset i) q (some c) s a b calls =
      rw (re_initialize-net heard fate c (b, calls)) stays

  -- The step, from any point of the loop.
  pub thread_step-Move :
      (live now heard : TimePoint) (fate : Fate) (s : Sync) (a b : StatusRep)
      (calls : List CallbackCall)
      → let w =
          (Sync.thread_step
            (network ticks heard fate)
            ticks
            live
            now
            (record { sync = s; node = a; net = (b, calls) })).0 in
        Move live now heard a b (call_of s.thread) w.node w.net.0 (call_of w.sync.thread)
  thread_step-Move live now heard fate s a b calls =
      step-Move live now heard fate s.thread s.quit s.network s a b calls
