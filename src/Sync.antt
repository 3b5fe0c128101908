-- ===== src/Sync.antt =====
-- The class SinbohaSync of Sinboha/SinbohaSync.h and SinbohaSync.cpp: one heartbeat to the peer, with a
-- thread that asks the peer again and again whether this node may be active. `Start` (behind its
-- test of the address), `SyncData` and the first block of `Stop` hold the lock of the object. The
-- thread moves from one access to shared state to the next, so that what other threads do can come
-- between; `BeatPc` says where it stands, with the local variables that are live there.
pub mod Start
pub mod Beat
pub mod Restart
use Prim.Native.String.{String}
use sinboha.Prelude.{ℕ, Bool, true, false, Option, none, some, List, [], not, if◌then◌else◌}
use sinboha.Prelude.Int.{ℤ, pos}
use sinboha.Types.{SinbohaStatus, SinbohaError, error_ok, error_fail, is_error}
use sinboha.Chrono.{TimePoint}
use sinboha.Launch.{Launch, launched, has_launched}
use sinboha.StatusRep.{StatusRep, Bytes, CallbackCall, query_change, try_activate}
use sinboha.NetClient
use sinboha.NetClient.{Remote, NetClient}

pub data BeatPc : Type 0 where
  no_thread : BeatPc  -- no thread was started
  at_initialize : BeatPc  -- the first statement, which makes the connection
  at_test : ℤ → BeatPc  -- the condition of the `while`, with `Interval`
  at_wait : ℤ → BeatPc  -- in `wait_for`
  at_query : ℤ → BeatPc  -- before `Query`
  at_call : ℤ → TimePoint → SinbohaStatus → BeatPc  -- before `CanYouActivateMe`
  at_apply : ℤ → Bool → BeatPc  -- before `TryActivate`
  at_reset : ℤ → BeatPc  -- before `ReInitialize`
  finished : BeatPc  -- the thread has returned

pub record Sync : Type 0 where
  pub quit : Bool
  pub network : Option NetClient
  pub peer_address : String
  pub peer_port : ℤ
  pub network_timeout : ℤ
  pub heartbeat : ℤ
  pub switch_timeout : ℤ
  pub thread : BeatPc

-- The constructor leaves the port and the time limit of the network as they are in memory.
unfoldable pub new_sync : ℤ → ℤ → Sync
new_sync port timeout = record {
  quit = true;
  network = none;
  peer_address = "";
  peer_port = port;
  network_timeout = timeout;
  heartbeat = pos 500;
  switch_timeout = pos 3000;
  thread = no_thread;
}

-- `PeerAddress.empty()`.
abbrev pub is_empty : String → Bool
is_empty String.[] = true
is_empty (String.◌∷◌ c s) = false

-- The parameters are stored before any test. `client` is the object of `make_shared`. This is the whole
-- method where no old thread runs when the flag is set, as between calls of `Initialize` and `Release`
-- that do not overlap; otherwise its assignment to `m_Future` waits, with the lock held, which is in
-- Sync/Restart. The destructor of the old connection, which closes a transport that is still open, is
-- left out.
unfoldable pub start : String → ℤ → ℤ → ℤ → NetClient → Launch → Sync → Sync × SinbohaError
start address port timeout heartbeat client how s =
    let s₁ = record s {
      heartbeat = heartbeat;
      peer_address = address;
      peer_port = port;
      network_timeout = timeout;
    } in
    if is_empty address
    then (s₁, error_fail)
    else if not s₁.quit
    then (s₁, error_fail)
    else if has_launched how
    then (record s₁ { quit = false; network = some client; thread = at_initialize }, error_ok)
    else (record s₁ { quit = true; network = some client }, error_fail)

-- The first block of `Stop`: `none` when it goes on to wait for the thread.
unfoldable pub stop_request : Sync → Sync × Option SinbohaError
stop_request s = if s.quit then (s, some error_fail) else (record s { quit = true }, none)

module _ (R : Remote) where
  open R use {Net}

  abbrev release_network : Option NetClient → Sync → Net → Sync × Net
  release_network none s net = (s, net)
  release_network (some c) s net =
      let (c', net', ignored) = NetClient.release R c net in (record s { network = some c' }, net')

  abbrev when_finished : BeatPc → Sync → Net → Option (Sync × Net × SinbohaError)
  when_finished finished s net =
      let (s', net') = release_network s.network s net in some (s', net', error_ok)
  when_finished _ s net = none

  -- The rest of `Stop`, which waits for the thread and closes the connection: `none` as long as the
  -- thread has not returned.
  unfoldable pub stop_finish : Sync → Net → Option (Sync × Net × SinbohaError)
  stop_finish s net = when_finished s.thread s net

  unfoldable pub sync_data : Bytes → Sync → Net → Net × SinbohaError
  sync_data b s net = elim s.network [
    | some c ↦ NetClient.sync_data R b c net
    | none ↦ (net, error_fail)
  ]

  -- What the steps of the thread act on: its object, the status of the node, and the world.
  pub record World : Type 0 where
    pub sync : Sync
    pub node : StatusRep
    pub net : Net

  abbrev at : BeatPc → World → World
  at p w = record w { sync = record w.sync { thread = p } }

  -- A store through `m_Network`, which is not null.
  abbrev with_client : NetClient × Net × SinbohaError → World → World
  with_client (c, net, ignored) w = record w {
    sync = record w.sync { network = some c };
    net = net;
  }

  abbrev answer_step : ℤ → Net × SinbohaError × Bool → World → World
  answer_step i (net, e, activate) w =
      at (if is_error error_ok e then at_apply i activate else at_reset i) (record w { net = net })

  -- One step of `SyncHeartbeat`, at two readings of the clock. `wait_for` comes back when its time is
  -- over or it is notified, with the value of its predicate. The first statement would follow a null
  -- pointer if there were no connection object: there the thread makes no step.
  beat_step : ℕ → TimePoint → TimePoint → BeatPc → World → World × List CallbackCall
  beat_step ticks live now no_thread w = (w, [])
  beat_step ticks live now at_initialize w = elim w.sync.network [
    | none ↦ (w, [])
    | some c ↦ (
      at (at_test (pos 0)) (
          with_client
            (NetClient.initialize R w.sync.peer_address w.sync.peer_port w.sync.network_timeout c
              w.net)
            w),
      [],
    )
  ]
  beat_step ticks live now (at_test i) w =
      (at (if not w.sync.quit then at_wait i else finished) w, [])
  beat_step ticks live now (at_wait i) w =
      (at (if w.sync.quit then finished else at_query w.sync.heartbeat) w, [])
  beat_step ticks live now (at_query i) w =
      let (change_time, status) = query_change w.node in (at (at_call i change_time status) w, [])
  beat_step ticks live now (at_call i t s) w = elim w.sync.network [
    | none ↦ (at (at_test i) w, [])
    | some c ↦ (answer_step i (NetClient.can_you_activate_me R ticks t s c w.net) w, [])
  ]
  beat_step ticks live now (at_apply i activate) w =
      let (node', calls) = try_activate live now activate w.node in
      (at (at_test i) (record w { node = node' }), calls)
  beat_step ticks live now (at_reset i) w = elim w.sync.network [
    | none ↦ (at (at_test i) w, [])
    | some c ↦ (at (at_test i) (with_client (NetClient.re_initialize R c w.net) w), [])
  ]
  beat_step ticks live now finished w = (w, [])

  unfoldable pub thread_step : ℕ → TimePoint → TimePoint → World → World × List CallbackCall
  unfolding beat_step
  thread_step ticks live now w = beat_step ticks live now w.sync.thread w
