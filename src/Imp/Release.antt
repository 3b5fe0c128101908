-- ===== src/Imp/Release.antt =====
-- `Release` of SinbohaImp (Sinboha/SinbohaImp.cpp): the four `Stop` methods one after the other. What
-- happens while they wait for their threads is an argument, and there is no result as long as a thread
-- has not returned. While one part is awaited, the node and the network change as the argument says, and
-- the threads of the other parts make no step: all interleavings are those of `release_step` of Process.
use sinboha.Prelude.{
  ℕ, ◌≤◌, ◌≡◌, ◌≢◌, ◌⊎◌, true, Option, some, List, ◌>>=◌, >>=-of_some, length, ◌∙◌,
}
use sinboha.Types.{SinbohaError, error_ok}
use sinboha.NetClient.{Remote, Outcome}
use sinboha.NetService
use sinboha.NetService.{NetService}
use sinboha.Sync.Start as SyncStart
use sinboha.BrainSplit
use sinboha.BrainSplit.{BrainSplit}
use sinboha.BrainSplit.Thread as CheckThread
use sinboha.Imp.{Imp}
use sinboha.Imp.Stops.{
  stop_checker, stop_service, stop_sync, stop_checker-stops, stop_service-stops, stop_sync-stops,
}

-- Each part is either stopped or has a thread, as after `Initialize`.
pub record IsWhole (m : Imp) : Type 0 where
  pub checker_whole : (m.checker.quit ≡ true) ⊎ (m.checker.thread ≢ BrainSplit.no_thread)
  pub secondary_whole : (m.secondary.quit ≡ true) ⊎ SyncStart.IsRunning m.secondary
  pub primary_whole : (m.primary.quit ≡ true) ⊎ SyncStart.IsRunning m.primary
  pub service_whole : (m.service.quit ≡ true) ⊎ (m.service.thread ≢ NetService.no_thread)

module _ (R : Remote) (ticks : ℕ) where
  open R use {Net}

  -- What the awaited thread and its surroundings do while `Release` waits for each of the four.
  pub record Meanwhile : Type 0 where
    pub checker_turns : List CheckThread.Turn
    pub secondary_turns : List (SyncStart.Turn R)
    pub primary_turns : List (SyncStart.Turn R)
    pub server_stop : Outcome (Unit {0})
    pub served : List (Outcome (Unit {0}))

  -- The results of the four methods are ignored.
  pub release : Meanwhile → Imp → Net → Option (Imp × Net × SinbohaError)
  release w m net = do
    (checker', node₁, e₁) ← stop_checker ticks w.checker_turns m.checker m.status
    (secondary', node₂, net₂, e₂) ← stop_sync R ticks w.secondary_turns m.secondary node₁ net
    (primary', node₃, net₃, e₃) ← stop_sync R ticks w.primary_turns m.primary node₂ net₂
    (service', e₄) ← stop_service w.server_stop w.served m.service
    some (
      record {
        status = node₃;
        service = service';
        primary = primary';
        secondary = secondary';
        checker = checker';
      },
      net₃,
      error_ok,
    )

  -- If each thread makes the few steps that it needs to see its flag, and the server comes back,
  -- `Release` returns success, whatever else `w` lets happen to the awaited part, the node and the
  -- network, and all four parts are marked as stopped.
  pub release-stops :
      (w : Meanwhile) (m : Imp) (net : Net)
      → IsWhole m
      → 4 ≤ CheckThread.thread_turns w.checker_turns
      → 4 ≤ SyncStart.thread_turns R w.secondary_turns
      → 4 ≤ SyncStart.thread_turns R w.primary_turns
      → 3 ≤ length w.served
      → (m' : Imp) × (net' : Net) × (release w m net ≡ some (m', net', error_ok))
        × (m'.checker.quit ≡ true)
        × (m'.secondary.quit ≡ true)
        × (m'.primary.quit ≡ true)
        × (m'.service.quit ≡ true)
  unfolding release
  release-stops w m net h c s p v =
      let (checker', node₁, e₁, eq₁, q₁) =
        stop_checker-stops ticks w.checker_turns m.checker m.status h.checker_whole c in
      let (secondary', node₂, net₂, e₂, eq₂, q₂) =
        stop_sync-stops R ticks w.secondary_turns m.secondary node₁ net h.secondary_whole s in
      let (primary', node₃, net₃, e₃, eq₃, q₃) =
        stop_sync-stops R ticks w.primary_turns m.primary node₂ net₂ h.primary_whole p in
      let (service', e₄, eq₄, q₄) =
        stop_service-stops w.server_stop w.served m.service h.service_whole v in
      let m' : Imp = record {
        status = node₃;
        service = service';
        primary = primary';
        secondary = secondary';
        checker = checker';
      } in
      let runs = >>=-of_some _ eq₁ ∙ >>=-of_some _ eq₂ ∙ >>=-of_some _ eq₃ ∙ >>=-of_some _ eq₄ in
      (m', net₃, runs, q₁, q₂, q₃, q₄)
