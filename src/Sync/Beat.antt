-- ===== src/Sync/Beat.antt =====
-- One round of the heartbeat (`SyncHeartbeat` of Sinboha/SinbohaSync.cpp): what the node and the
-- connection are after it, whatever the network does and other threads do to the node.
use sinboha.Prelude.{ℕ, ◌≡◌, refl, Bool, true, false, some, List, [], ◌∷◌, if◌then◌else◌}
use sinboha.Prelude.Int.{ℤ}
use sinboha.Types.{error_ok, is_error}
use sinboha.Chrono.{TimePoint}
use sinboha.StatusRep.{StatusRep, query_change, try_activate}
use sinboha.NetClient
use sinboha.NetClient.{Remote, NetClient}
use sinboha.Sync.{Sync, at_query, at_test, at_apply, at_reset, thread_step}
use sinboha.Sync.Start.{Turn, by_thread, node_changes, take_turns}

module _ (R : Remote) where
  open R use {Net}

  -- The steps of a round behind its wait; other threads put the node into the state `met` while the
  -- call is under way.
  abbrev pub beat : TimePoint → TimePoint → StatusRep → List (Turn R)
  beat live now met =
      by_thread live now ∷ by_thread live now ∷ node_changes met ∷ by_thread live now ∷ []

  last_step :
      (ticks : ℕ) (live now : TimePoint) (i : ℤ) (s : Sync) (c : NetClient) (met : StatusRep)
      (net : Net) (activate answered : Bool)
      → let (c', net', ignored) = NetClient.re_initialize R c net in
        (thread_step R ticks live now (record {
          sync = record s {
            network = some c;
            thread = if answered then at_apply i activate else at_reset i;
          };
          node = met;
          net = net;
        })).0
        ≡ (if answered
            then (record {
              sync = record s { network = some c; thread = at_test i };
              node = (try_activate live now activate met).0;
              net = net;
            })
            else (record {
              sync = record s { network = some c'; thread = at_test i };
              node = met;
              net = net';
            }))
  unfolding thread_step
  last_step ticks live now i s c met net activate true = refl
  last_step ticks live now i s c met net activate false = refl

  -- A round asks with the time and the status that the node had when it began. If the call succeeds,
  -- the node, as it is by then, follows the answer. If it fails, the node keeps its status, and the
  -- connection is made anew.
  pub beat_lem :
      (ticks : ℕ) (live now : TimePoint) (i : ℤ) (s : Sync) (c : NetClient) (asked met : StatusRep)
      (net : Net)
      → let (net', e, activate) =
          NetClient.can_you_activate_me R ticks asked.change_time asked.status c net in
        let (c', net'', ignored) = NetClient.re_initialize R c net' in
        take_turns R ticks (beat live now met) (record {
          sync = record s { network = some c; thread = at_query i };
          node = asked;
          net = net;
        })
        ≡ (if is_error error_ok e
            then (record {
              sync = record s { network = some c; thread = at_test i };
              node = (try_activate live now activate met).0;
              net = net';
            })
            else (record {
              sync = record s { network = some c'; thread = at_test i };
              node = met;
              net = net'';
            }))
  unfolding take_turns thread_step query_change
  beat_lem ticks live now i s c asked met net =
      let (net', e, activate) =
        NetClient.can_you_activate_me R ticks asked.change_time asked.status c net in
      last_step ticks live now i s c met net' activate (is_error error_ok e)
