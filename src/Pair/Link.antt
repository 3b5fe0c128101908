-- ===== src/Pair/Link.antt =====
-- A round of `SyncHeartbeat` (Sinboha/SinbohaSync.cpp) over a network that delivers the call to the
-- handler of the peer and the answer back.
use sinboha.Prelude.{ℕ, ◌≡◌, some, ap, ◌∙◌, List, [], ◌++◌}
use sinboha.Prelude.Int.{ℤ}
use sinboha.Types.{SinbohaStatus, i16_of_status, error_ok}
use sinboha.Chrono.{TimePoint, to_milliseconds}
use sinboha.StatusRep.{StatusRep, CallbackCall}
use sinboha.RpcHandler.{handle_can_you_activate_me, handle_sync_data}
use sinboha.NetClient.{Transport, Remote, NetClient, returned, can_you_activate_me}
use sinboha.Sync.{Sync, World, at_query}
use sinboha.Sync.Start.{take_turns}
use sinboha.Sync.Beat.{beat, beat_lem}
use sinboha.Pair.{Readings, exchange}

-- The world is the peer's node, with the calls of its callback so far. Opening and closing a
-- transport works, and a call is what the peer's handler makes of it at the reading `heard` of its
-- clock.
abbrev pub link : ℕ → TimePoint → Remote
link ticks heard = record {
  Net = StatusRep × List CallbackCall;
  open_transport = λ t net. (net, returned tt);
  close_transport = λ t net. (net, returned tt);
  call_can_you_activate_me = λ t change_time status net.
      let (peer', b) = handle_can_you_activate_me ticks heard change_time status net.0 in
      ((peer', net.1), returned b);
  call_sync_data = λ t b net.
      let (peer', n, calls) = handle_sync_data b net.0 in ((peer', net.1 ++ calls), returned n);
}

link_call :
    (ticks : ℕ) (heard t : TimePoint) (s : SinbohaStatus) (c : NetClient) {x : Transport}
    (peer : StatusRep) (calls : List CallbackCall)
    → c.client ≡ some x
    → let (peer', b) =
        handle_can_you_activate_me ticks heard (to_milliseconds ticks t) (i16_of_status s) peer in
      can_you_activate_me (link ticks heard) ticks t s c (peer, calls)
      ≡ ((peer', calls), error_ok, b)
unfolding can_you_activate_me
link_call ticks heard t s c peer calls connected = rw connected

-- Over a network that delivers the call to the handler of the peer and the answer back, a round of
-- the heartbeat thread, from the reading of the status on, with a connected client and nothing in
-- between, is an exchange with the peer: both nodes end up as `exchange` says.
pub beat-exchange :
    (ticks : ℕ) (t : Readings) (i : ℤ) (s : Sync) (c : NetClient) {x : Transport} (a b : StatusRep)
    → c.client ≡ some x
    → let w =
        take_turns (link ticks t.heard) ticks (beat (link ticks t.heard) t.live t.now a) (record {
          sync = record s { network = some c; thread = at_query i };
          node = a;
          net = (b, []);
        }) in
      (w.node, w.net.0) ≡ exchange ticks t a b
unfolding exchange
beat-exchange ticks t i s c {x} a b connected =
    ap (λ (w : World (link ticks t.heard)). (w.node, w.net.0))
      (beat_lem (link ticks t.heard) ticks t.live t.now i s c a a (b, []))
    ∙ rw (link_call ticks t.heard a.change_time a.status c b [] connected)
