-- ===== src/Process/Timely.antt =====
-- The check of a node that hears of its peer in time (Sinboha/SinbohaBrainSplit.cpp, SinbohaSync.cpp,
-- SinbohaImp.cpp).
use sinboha.Prelude.{
  ℕ, ◌+◌, ◌*◌, ◌^◌, ◌≤◌, ◌<◌, ◌≡◌, refl, ◌⊎◌, inl, inr, Bool, true, false, List, [], ◌∷◌, arith,
  ◌∙◌,
}
use sinboha.Prelude.Int.{ℤ, pos, negsuc, i64, ltb_ℤ, ◌-ℤ◌}
use sinboha.Types.{active, standby}
use sinboha.Chrono.{TimePoint, of_milliseconds}
use sinboha.StatusRep.{StatusRep}
use sinboha.NetClient.{Remote, Outcome}
use sinboha.BrainSplit
use sinboha.BrainSplit.{CheckPc, BrainSplit}
use sinboha.BrainSplit.Thread.{silent_lem}
use sinboha.Imp.Interface
use sinboha.Imp.{Imp, Settings, Starts, initialize}
use sinboha.Process.{
  Process, Event, heartbeat_runs, check_runs, service_runs, peer_asks, peer_sends, initializes,
  releases, switches, registers, unregisters, sends_data, net_changes, happen, happen_all,
}
use sinboha.Process.Changes.{HasYes, HasSilence, SomeEvent, happen_cause}

-- The sign of life that the check has read is not older than the limit at its reading of the clock;
-- times and limit are not negative and fit their types.
abbrev pub IsRecent : ℕ → TimePoint → CheckPc → ℤ → Type 0
IsRecent ticks (pos n) (BrainSplit.at_compare (pos l)) (pos t) =
    (n ≤ l + t * ticks) × (n < 2 ^ 63) × (l < 2 ^ 63) × (t * ticks < 2 ^ 63)
IsRecent ticks now (BrainSplit.at_compare live) limit = ⊥
IsRecent ticks now pc limit = Unit

recent-test :
    (ticks n l t : ℕ)
    → n ≤ l + t * ticks
    → n < 2 ^ 63
    → l < 2 ^ 63
    → t * ticks < 2 ^ 63
    → ltb_ℤ (of_milliseconds ticks (pos t)) (i64 (pos n -ℤ pos l)) ≡ false
recent-test ticks n l t h hn hl ht = silent_lem ticks n l t hn hl ht ∙ ground arith

-- A step of the check that is in time does not find the peer silent.
step-HasSilence :
    (ticks : ℕ) (now : TimePoint) (pc : CheckPc) (q : Bool) (limit : ℤ) (r : StatusRep)
    → IsRecent ticks now pc limit
    → ¬ HasSilence pc
    → ¬ HasSilence
        (BrainSplit.thread_step ticks now
          (record { quit = q; switch_timeout = limit; thread = pc })
          r).0.thread
unfolding BrainSplit.thread_step
step-HasSilence ticks (pos n) (BrainSplit.at_compare (pos l)) q (pos t) r h k =
    let test = recent-test ticks n l t h.0 h.1 h.2 h.3 in ground arith
step-HasSilence ticks (negsuc n) (BrainSplit.at_compare x) q limit r h k = elim h [ ]
step-HasSilence ticks (pos n) (BrainSplit.at_compare (negsuc l)) q limit r h k = elim h [ ]
step-HasSilence ticks (pos n) (BrainSplit.at_compare (pos l)) q (negsuc t) r h k = elim h [ ]
step-HasSilence ticks now BrainSplit.no_thread q limit r h k = k
step-HasSilence ticks now BrainSplit.at_test true limit r h k = λ e. e
step-HasSilence ticks now BrainSplit.at_test false limit r h k = λ e. e
step-HasSilence ticks now BrainSplit.at_wait true limit r h k = λ e. e
step-HasSilence ticks now BrainSplit.at_wait false limit r h k = λ e. e
step-HasSilence ticks now BrainSplit.at_check q limit r h k = λ e. e
step-HasSilence ticks now BrainSplit.at_split q limit r h k = λ e. e
step-HasSilence ticks now BrainSplit.finished q limit r h k = k

module _ (R : Remote) (ticks : ℕ) where
  -- Every comparison of the check is in time.
  abbrev pub IsTimely : Event R → Process R → Type 0
  IsTimely (check_runs now) p = IsRecent ticks now p.imp.checker.thread p.imp.checker.switch_timeout
  IsTimely _ p = Unit

  abbrev pub AllTimely : List (Event R) → Process R → Type 0
  AllTimely [] p = Unit
  AllTimely (e ∷ es) p = IsTimely e p × AllTimely es (happen R ticks e p).0

  -- A heartbeat applies a permission of the peer.
  abbrev pub Permits : Event R → Process R → Type 0
  Permits (heartbeat_runs true live now) p = HasYes p.imp.primary.thread
  Permits (heartbeat_runs false live now) p = HasYes p.imp.secondary.thread
  Permits _ p = ⊥

  abbrev Finds : Process R → Type 0
  Finds p = HasSilence p.imp.checker.thread

  initialize-HasSilence :
      (a : Settings) (k : Starts) (m : Imp)
      → ¬ HasSilence m.checker.thread
      → ¬ HasSilence (initialize a k m).0.checker.thread
  unfolding initialize BrainSplit.start
  initialize-HasSilence a k m h = ground arith

  release-HasSilence :
      (o : Outcome (Unit {0})) (p : Process R)
      → ¬ Finds p
      → ¬ Finds (happen R ticks (releases o) p).0
  unfolding happen BrainSplit.stop_request
  release-HasSilence o p h = ground arith

  pub happen-HasSilence :
      (e : Event R) (p : Process R) → IsTimely e p → ¬ Finds p → ¬ Finds (happen R ticks e p).0
  unfolding happen Interface.switch Interface.register_callback Interface.un_register_callback
  happen-HasSilence (heartbeat_runs true live now) p t h = h
  happen-HasSilence (heartbeat_runs false live now) p t h = h
  happen-HasSilence (check_runs now) p t h =
      step-HasSilence ticks now p.imp.checker.thread p.imp.checker.quit p.imp.checker.switch_timeout
        p.imp.status t h
  happen-HasSilence (service_runs o) p t h = h
  happen-HasSilence (peer_asks heard time s) p t h = h
  happen-HasSilence (peer_sends b) p t h = h
  happen-HasSilence (initializes a k) p t h = initialize-HasSilence a k p.imp h
  happen-HasSilence (releases o) p t h = release-HasSilence o p h
  happen-HasSilence (switches now) p t h = h
  happen-HasSilence (registers c) p t h = h
  happen-HasSilence unregisters p t h = h
  happen-HasSilence (sends_data b) p t h = h
  happen-HasSilence (net_changes net') p t h = h

  happen_permitted :
      (e : Event R) (p : Process R)
      → ¬ Finds p
      → let s' = (happen R ticks e p).0.imp.status.status in
        (s' ≡ p.imp.status.status) ⊎ ((s' ≡ active) × Permits e p) ⊎ (s' ≡ standby)
  happen_permitted e p h = elim (happen_cause R ticks e p) [
    | inl same ↦ inl same
    | inr (inl (a, c)) ↦ inr (inl (a, ground arith))
    | inr (inr (a, c)) ↦ inr (inr a)
  ]

  -- While the peer is heard of in time, that is, whenever the check compares, the sign of life that it
  -- has read is not older than the limit, the check does not make the node active: after any events
  -- the node has the status from before, or is standby, or is active and a heartbeat has applied a
  -- permission of the peer.
  pub happen_all-permitted :
      (es : List (Event R)) (p : Process R)
      → AllTimely es p
      → ¬ HasSilence p.imp.checker.thread
      → let s' = (happen_all R ticks es p).0.imp.status.status in
        (s' ≡ p.imp.status.status)
        ⊎ ((s' ≡ active) × SomeEvent R ticks Permits es p)
        ⊎ (s' ≡ standby)
  unfolding happen_all
  happen_all-permitted [] p t h = inl refl
  happen_all-permitted (e ∷ es) p t h =
      let p' = (happen R ticks e p).0 in
      elim (happen_all-permitted es p' t.1 (happen-HasSilence e p t.0 h)) [
        | inl same ↦ elim (happen_permitted e p h) [
          | inl same' ↦ inl (same ∙ same')
          | inr (inl (a, c)) ↦ inr (inl (same ∙ a, inl c))
          | inr (inr s) ↦ inr (inr (same ∙ s))
        ]
        | inr (inl (a, c)) ↦ inr (inl (a, inr c))
        | inr (inr s) ↦ inr (inr s)
      ]
