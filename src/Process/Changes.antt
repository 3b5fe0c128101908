-- ===== src/Process/Changes.antt =====
-- What can change the status of a node in the whole process (Sinboha/SinbohaImp.cpp, SinbohaSync.cpp,
-- SinbohaBrainSplit.cpp), and what its callback hears of it.
use sinboha.Prelude.{ℕ, ◌≡◌, ◌⊎◌, inl, true, false, some, List, [], ◌∷◌, ◌++◌, arith, ap, ◌∙◌, sym}
use sinboha.Types.{active, standby}
use sinboha.Chrono.{TimePoint}
use sinboha.StatusRep.{CallbackCall, CallbackId, StatusRep}
use sinboha.StatusRep.Changes.{
  Method, perform, perform_all, last_reported, AllKeepCallback, perform_all-last_reported,
}
use sinboha.NetClient.{Remote}
use sinboha.Sync
use sinboha.Sync.{BeatPc}
use sinboha.BrainSplit
use sinboha.BrainSplit.{CheckPc}
use sinboha.Process.{
  Process, Event, heartbeat_runs, check_runs, service_runs, peer_asks, peer_sends, initializes,
  releases, switches, registers, unregisters, sends_data, net_changes, happen, happen_all,
}
use sinboha.Process.Methods.{
  beat_methods, check_methods, methods, all_methods, happen_all-perform_all, happen-perform,
}

-- A heartbeat has the answer "yes" of the peer, or "no", and is about to apply it.
abbrev pub HasYes : BeatPc → Type 0
HasYes (Sync.at_apply i true) = Unit
HasYes _ = ⊥

abbrev pub HasNo : BeatPc → Type 0
HasNo (Sync.at_apply i false) = Unit
HasNo _ = ⊥

-- The check found the peer silent.
abbrev pub HasSilence : CheckPc → Type 0
HasSilence BrainSplit.at_split = Unit
HasSilence _ = ⊥

module _ (R : Remote) (ticks : ℕ) where
  -- What may make the node active: the peer's permission, or its silence.
  abbrev pub Activates : Event R → Process R → Type 0
  Activates (heartbeat_runs true live now) p = HasYes p.imp.primary.thread
  Activates (heartbeat_runs false live now) p = HasYes p.imp.secondary.thread
  Activates (check_runs now) p = HasSilence p.imp.checker.thread
  Activates _ p = ⊥

  -- What may make it standby: the peer's refusal, or a manual switch.
  abbrev pub Deactivates : Event R → Process R → Type 0
  Deactivates (heartbeat_runs true live now) p = HasNo p.imp.primary.thread
  Deactivates (heartbeat_runs false live now) p = HasNo p.imp.secondary.thread
  Deactivates (switches now) p = Unit
  Deactivates _ p = ⊥

  -- The status, where one of the events changed it last.
  abbrev pub SomeEvent : (Event R → Process R → Type 0) → List (Event R) → Process R → Type 0
  SomeEvent Q [] p = ⊥
  SomeEvent Q (e ∷ es) p = Q e p ⊎ SomeEvent Q es (happen R ticks e p).0

  beat_cause :
      (live now : TimePoint) (pc : BeatPc) (r : StatusRep)
      → let s' = (perform_all (beat_methods live now pc) r).0.status in
        (s' ≡ r.status) ⊎ ((s' ≡ active) × HasYes pc) ⊎ ((s' ≡ standby) × HasNo pc)
  unfolding perform_all perform
  beat_cause live now pc r = ground arith

  check_cause :
      (now : TimePoint) (pc : CheckPc) (r : StatusRep)
      → let s' = (perform_all (check_methods now pc) r).0.status in
        (s' ≡ r.status) ⊎ ((s' ≡ active) × HasSilence pc) ⊎ ((s' ≡ standby) × ⊥)
  unfolding perform_all perform
  check_cause now pc r = ground arith

  happen_status :
      (e : Event R) (p : Process R)
      → (happen R ticks e p).0.imp.status.status
        ≡ (perform_all (methods R ticks e p) p.imp.status).0.status
  happen_status e p =
      ap (λ (x : StatusRep × List CallbackCall). x.0.status) (happen-perform R ticks e p)

  pub happen_cause :
      (e : Event R) (p : Process R)
      → let s' = (happen R ticks e p).0.imp.status.status in
        (s' ≡ p.imp.status.status)
        ⊎ ((s' ≡ active) × Activates e p)
        ⊎ ((s' ≡ standby) × Deactivates e p)
  unfolding perform_all perform
  happen_cause (heartbeat_runs true live now) p =
      rw (happen_status (heartbeat_runs true live now) p)
        (beat_cause live now p.imp.primary.thread p.imp.status)
  happen_cause (heartbeat_runs false live now) p =
      rw (happen_status (heartbeat_runs false live now) p)
        (beat_cause live now p.imp.secondary.thread p.imp.status)
  happen_cause (check_runs now) p =
      rw (happen_status (check_runs now) p) (check_cause now p.imp.checker.thread p.imp.status)
  happen_cause (service_runs o) p = inl (happen_status (service_runs o) p)
  happen_cause (peer_asks heard t s) p = rw (happen_status (peer_asks heard t s) p) (ground arith)
  happen_cause (peer_sends b) p = rw (happen_status (peer_sends b) p) (ground arith)
  happen_cause (initializes a k) p = inl (happen_status (initializes a k) p)
  happen_cause (releases o) p = inl (happen_status (releases o) p)
  happen_cause (switches now) p = rw (happen_status (switches now) p) (ground arith)
  happen_cause (registers c) p = rw (happen_status (registers c) p) (ground arith)
  happen_cause unregisters p = rw (happen_status unregisters p) (ground arith)
  happen_cause (sends_data b) p = inl (happen_status (sends_data b) p)
  happen_cause (net_changes net') p = inl (happen_status (net_changes net') p)

  -- The callback is not exchanged or removed.
  abbrev pub KeepsListener : Event R → Type 0
  KeepsListener (registers c) = ⊥
  KeepsListener unregisters = ⊥
  KeepsListener _ = Unit

  abbrev pub AllKeepListener : List (Event R) → Type 0
  AllKeepListener [] = Unit
  AllKeepListener (e ∷ es) = KeepsListener e × AllKeepListener es

  AllKeepCallback-append :
      (ms ns : List Method) → AllKeepCallback ms → AllKeepCallback ns → AllKeepCallback (ms ++ ns)
  AllKeepCallback-append [] ns h k = k
  AllKeepCallback-append (m ∷ ms) ns h k = (h.0, AllKeepCallback-append ms ns h.1 k)

  pub methods-AllKeepCallback :
      (e : Event R) (p : Process R) → KeepsListener e → AllKeepCallback (methods R ticks e p)
  methods-AllKeepCallback e p h = ground arith

  all_methods-AllKeepCallback :
      (es : List (Event R)) (p : Process R)
      → AllKeepListener es
      → AllKeepCallback (all_methods R ticks es p)
  unfolding all_methods
  all_methods-AllKeepCallback [] p h = tt
  all_methods-AllKeepCallback (e ∷ es) p h =
      AllKeepCallback-append (methods R ticks e p) (all_methods R ticks es (happen R ticks e p).0)
        (methods-AllKeepCallback e p h.0)
        (all_methods-AllKeepCallback es (happen R ticks e p).0 h.1)

  -- After any events that neither register nor remove a callback, in a process that has one, the
  -- last status reported to the callback is the status of the node; if none was reported, the node
  -- has the status it began with.
  pub happen_all-last_reported :
      (es : List (Event R)) (p : Process R) {c : CallbackId}
      → p.imp.status.callback ≡ some c
      → AllKeepListener es
      → let (p', calls) = happen_all R ticks es p in
        last_reported p.imp.status.status calls ≡ p'.imp.status.status
  happen_all-last_reported es p h k =
      let same = happen_all-perform_all R ticks es p in
      let ms = all_methods R ticks es p in
      ap (λ (x : StatusRep × List CallbackCall). last_reported p.imp.status.status x.1) same
      ∙ perform_all-last_reported ms p.imp.status h (all_methods-AllKeepCallback es p k)
      ∙ sym (ap (λ (x : StatusRep × List CallbackCall). x.0.status) same)
