-- ===== src/Imp/Stops.antt =====
-- The `Stop` methods of the three parts (Sinboha/SinbohaBrainSplit.cpp, SinbohaSync.cpp and
-- SinbohaNetService.cpp), each up to its return. What its thread and the rest of the process do while
-- it waits is an argument.
use sinboha.Prelude.{
  ℕ, ◌≤◌, ◌≡◌, ◌≢◌, ◌⊎◌, inl, inr, true, Option, none, some, List, arith, ◌>>=◌, length, Bool-cases,
  ◌∙◌,
}
use sinboha.Types.{SinbohaError, error_ok, error_fail}
use sinboha.StatusRep.{StatusRep}
use sinboha.NetClient.{Remote, Outcome, Outcome-cases}
use sinboha.NetService
use sinboha.NetService.{NetService}
use sinboha.NetService.Thread as ServiceThread
use sinboha.Sync
use sinboha.Sync.{Sync, World}
use sinboha.Sync.Start as SyncStart
use sinboha.BrainSplit
use sinboha.BrainSplit.{BrainSplit}
use sinboha.BrainSplit.Thread as CheckThread

-- `SinbohaBrainSplit::Stop`.
unfoldable pub stop_checker :
    ℕ
    → List CheckThread.Turn
    → BrainSplit
    → StatusRep
    → Option (BrainSplit × StatusRep × SinbohaError)
stop_checker ticks turns b node =
    let (b₁, early) = BrainSplit.stop_request b in
    let (b₂, node') = CheckThread.take_turns ticks turns b₁ node in
    elim early [
      | some e ↦ some (b₁, node, e)
      | none ↦ BrainSplit.stop_finish b₂ >>= λ e. some (b₂, node', e)
    ]

-- `SinbohaNetService::Stop`, with the outcome of the server's `stop()` and those of its `serve()`.
unfoldable pub stop_service :
    Outcome (Unit {0}) → List (Outcome (Unit {0})) → NetService → Option (NetService × SinbohaError)
stop_service outcome served s =
    let (s₁, early) = NetService.stop_request outcome s in
    let s₂ = NetService.thread_steps served s₁ in
    elim early [ some e ↦ some (s₁, e) | none ↦ NetService.stop_finish s₂ >>= λ e. some (s₂, e) ]

-- A part that is not stopped has the other property of the two.
started {ℓ} : {P Q : Type ℓ} → P ⊎ Q → ¬ P → Q
started (inl p) h = absurd (h p)
started (inr q) h = q

-- A part that is stopped already: its `Stop` fails and changes nothing.
stop_checker-stopped :
    (ticks : ℕ) (turns : List CheckThread.Turn) (b : BrainSplit) (node : StatusRep)
    → b.quit ≡ true
    → stop_checker ticks turns b node ≡ some (b, node, error_fail)
unfolding stop_checker BrainSplit.stop_request
stop_checker-stopped ticks turns b node h = ground arith

stop_service-stopped :
    (outcome : Outcome (Unit {0})) (served : List (Outcome (Unit {0}))) (s : NetService)
    → s.quit ≡ true
    → stop_service outcome served s ≡ some (s, error_fail)
unfolding stop_service NetService.stop_request
stop_service-stopped outcome served s h = ground arith

pub stop_checker-stops :
    (ticks : ℕ) (turns : List CheckThread.Turn) (b : BrainSplit) (node : StatusRep)
    → (b.quit ≡ true) ⊎ (b.thread ≢ BrainSplit.no_thread)
    → 4 ≤ CheckThread.thread_turns turns
    → (b' : BrainSplit) × (node' : StatusRep) × (e : SinbohaError) × (stop_checker ticks turns b
          node
        ≡ some (b', node', e))
      × (b'.quit ≡ true)
unfolding stop_checker
stop_checker-stops ticks turns b node h long = elim (Bool-cases b.quit) [
  | inl stopped ↦ (b, node, error_fail, stop_checker-stopped ticks turns b node stopped, stopped)
  | inr runs ↦
      let b₁ = (BrainSplit.stop_request b).0 in
      let (b₂, node') = CheckThread.take_turns ticks turns b₁ node in
      let thread = started h (λ q. cc) in
      let (waits, returns, quits) =
        CheckThread.stop-check_finished ticks turns b node thread runs long in
      (b₂, node', error_ok, rw (waits, stop_checker, returns), quits)
]

pub stop_service-stops :
    (outcome : Outcome (Unit {0})) (served : List (Outcome (Unit {0}))) (s : NetService)
    → (s.quit ≡ true) ⊎ (s.thread ≢ NetService.no_thread)
    → 3 ≤ length served
    → (s' : NetService) × (e : SinbohaError) × (stop_service outcome served s ≡ some (s', e))
      × (s'.quit ≡ true)
unfolding stop_service
stop_service-stops outcome served s h long = elim (Bool-cases s.quit) [
  | inl stopped ↦ (s, error_fail, stop_service-stopped outcome served s stopped, stopped)
  | inr runs ↦
      let s₁ = (NetService.stop_request outcome s).0 in
      let thread = started h (λ q. cc) in
      let (quits, taken, refused) =
        ServiceThread.stop-service_finished outcome served s runs thread long in
      elim (Outcome-cases outcome) [
        | inl (u, e) ↦
            let (waits, returns) = taken e in
            (
              NetService.thread_steps served s₁,
              error_ok,
              rw (waits, stop_service, returns),
              ServiceThread.thread_steps-quit served s₁ ∙ quits,
            )
        | inr (x, e) ↦ (s₁, error_fail, rw (refused (λ t. cc), stop_service), quits)
      ]
]

module _ (R : Remote) (ticks : ℕ) where
  open R use {Net}

  -- `SinbohaSync::Stop`.
  unfoldable pub stop_sync :
      List (SyncStart.Turn R)
      → Sync
      → StatusRep
      → Net
      → Option (Sync × StatusRep × Net × SinbohaError)
  stop_sync turns s node net =
      let (s₁, early) = Sync.stop_request s in
      let w = SyncStart.take_turns R ticks turns (record { sync = s₁; node = node; net = net }) in
      elim early [
        | some e ↦ some (s₁, node, net, e)
        | none ↦ Sync.stop_finish R w.sync w.net >>= λ (s₂, net', e). some (s₂, w.node, net', e)
      ]

  stop_sync-stopped :
      (turns : List (SyncStart.Turn R)) (s : Sync) (node : StatusRep) (net : Net)
      → s.quit ≡ true
      → stop_sync turns s node net ≡ some (s, node, net, error_fail)
  unfolding stop_sync Sync.stop_request
  stop_sync-stopped turns s node net h = ground arith

  pub stop_sync-stops :
      (turns : List (SyncStart.Turn R)) (s : Sync) (node : StatusRep) (net : Net)
      → (s.quit ≡ true) ⊎ SyncStart.IsRunning s
      → 4 ≤ SyncStart.thread_turns R turns
      → (s' : Sync) × (node' : StatusRep) × (net' : Net) × (e : SinbohaError) × (stop_sync turns s
            node net
          ≡ some (s', node', net', e))
        × (s'.quit ≡ true)
  unfolding stop_sync
  stop_sync-stops turns s node net h long = elim (Bool-cases s.quit) [
    | inl stopped ↦ (s, node, net, error_fail, stop_sync-stopped turns s node net stopped, stopped)
    | inr runs ↦
        let w : World R = record { sync = s; node = node; net = net } in
        let s₁ = (Sync.stop_request s).0 in
        let w' =
          SyncStart.take_turns R ticks turns (record { sync = s₁; node = node; net = net }) in
        let (waits, (s₂, net', returns, quits)) =
          SyncStart.stop-beat_finished R ticks turns w (started h (λ q. cc)) runs long in
        (s₂, w'.node, net', error_ok, rw (waits, stop_sync, returns), quits)
  ]
