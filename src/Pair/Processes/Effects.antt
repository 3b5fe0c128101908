-- ===== src/Pair/Processes/Effects.antt =====
-- What single events leave of two whole processes (Sinboha/SinbohaImp.cpp, SinbohaBrainSplit.cpp,
-- SinbohaNetService.cpp, SinbohaNetClient.cpp).
use sinboha.Prelude.{ℕ, ◌≡◌, ◌⊎◌, [], arith}
use sinboha.Chrono.{TimePoint}
use sinboha.StatusRep.{StatusRep, Bytes}
use sinboha.StatusRep.Changes.{received, split_found, perform}
use sinboha.RpcHandler.{handle_sync_data}
use sinboha.NetClient
use sinboha.NetService
use sinboha.Sync
use sinboha.BrainSplit
use sinboha.BrainSplit.{BrainSplit}
use sinboha.Imp.{Imp, Settings, Starts, initialize, sync_data}
use sinboha.Process.{Process, Event, happen, release_step}
use sinboha.Pair.Interleaving.{Side, idle}
use sinboha.Pair.Threads.{Fate, network, call_of}
use sinboha.Pair.Processes.{Nodes, moment, process_of, take_moment, view}
use sinboha.Pair.Processes.Places.{after, same_system}

module _ (ticks : ℕ) where
  -- The check, whatever it comes to.
  pub check-status :
      (now : TimePoint) (b : BrainSplit) (r : StatusRep)
      → let (b', r', calls) = BrainSplit.thread_step ticks now b r in
        (r' ≡ r) ⊎ ((b.thread ≡ BrainSplit.at_split) × (r' ≡ (perform (split_found now) r).0))
  unfolding BrainSplit.thread_step perform
  check-status now b r = ground arith

  pub initialize-calls :
      (a : Settings) (k : Starts) (m : Imp)
      → let m' = (initialize a k m).0 in
        ((call_of m'.primary.thread ≡ call_of m.primary.thread)
          ⊎ (call_of m'.primary.thread ≡ idle))
        × ((call_of m'.secondary.thread ≡ call_of m.secondary.thread)
            ⊎ (call_of m'.secondary.thread ≡ idle))
        × (m'.status ≡ m.status)
  unfolding initialize Sync.start
  initialize-calls a k m = ground arith

  pub sync_data-net :
      (heard : TimePoint) (fate : Fate) (b : Bytes) (m : Imp) (peer : StatusRep)
      → let net' = (sync_data (network ticks heard fate) b m (peer, [])).0 in
        (net'.0 ≡ peer) ⊎ (net'.0 ≡ (perform (received b) peer).0)
  unfolding sync_data Sync.sync_data NetClient.sync_data handle_sync_data perform
  sync_data-net heard fate b m peer = ground arith

  pub release-kept :
      (heard : TimePoint) (fate : Fate) (o : NetClient.Outcome (Unit {0}))
      (p : Process (network ticks heard fate))
      → let p' = release_step (network ticks heard fate) o p.release_pc p in
        (p'.imp.status ≡ p.imp.status)
        × (p'.net.0 ≡ p.net.0)
        × (call_of p'.imp.primary.thread ≡ call_of p.imp.primary.thread)
        × (call_of p'.imp.secondary.thread ≡ call_of p.imp.secondary.thread)
  unfolding release_step Sync.stop_request Sync.stop_finish NetClient.release
      NetClient.release_client NetService.stop_request NetService.stop_finish
      BrainSplit.stop_request BrainSplit.stop_finish
  release-kept heard fate o p = ground arith

  pub after-view :
      (p : Side) (heard : TimePoint) (fate : Fate) (e : Event (network ticks heard fate))
      (d : Nodes)
      → let x = (happen (network ticks heard fate) ticks e (process_of ticks heard fate p d)).0 in
        view (take_moment ticks (moment p heard fate e) d)
        ≡ after
            (view d)
            p
            x.imp.status
            x.net.0
            (call_of x.imp.primary.thread)
            (call_of x.imp.secondary.thread)
  unfolding take_moment
  after-view p heard fate e d =
      let x = (happen (network ticks heard fate) ticks e (process_of ticks heard fate p d)).0 in
      same_system (view (take_moment ticks (moment p heard fate e) d))
        (after (view d) p x.imp.status x.net.0 (call_of x.imp.primary.thread)
          (call_of x.imp.secondary.thread))
        (λ q. ground arith) (λ q c. ground arith)
