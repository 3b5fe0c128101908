-- ===== src/Process/Lifetime.antt =====
-- The life of a process from the constructor on (Sinboha/SinbohaImp.cpp): `Initialize`, what happens
-- after it, and `Release`.
use sinboha.Prelude.{
  ℕ, ◌≤◌, ◌≡◌, ◌≢◌, ◌⊎◌, inl, inr, true, false, none, some, List, [], ◌∷◌, arith, length,
  Bool-cases,
}
use sinboha.Types.{error_ok}
use sinboha.Chrono.{TimePoint}
use sinboha.NetClient.{Remote}
use sinboha.NetService
use sinboha.Sync
use sinboha.Sync.{Sync}
use sinboha.Sync.Start as SyncStart
use sinboha.BrainSplit
use sinboha.BrainSplit.{BrainSplit}
use sinboha.BrainSplit.Thread as CheckThread
use sinboha.Imp.{Imp, Settings, Starts, initialize}
use sinboha.Imp.Lifecycle.{initialize-IsInitialized}
use sinboha.Imp.Interface
use sinboha.Imp.Interface.{Memory}
use sinboha.Imp.Release.{Meanwhile, IsWhole, release, release-stops}
use sinboha.Process.{
  ReleasePc, outside, secondary_waits, primary_waits, Process, Event, initializes, releases, happen,
  happen_all, AllAllowed,
}
use sinboha.Process.Soundness.{
  IsSoundSync, IsSound, Beats, Checks, Serves, happen_all-IsSound, new_process, new_process-IsSound,
}

sync_whole :
    (waits pc : ReleasePc) (s : Sync)
    → IsSoundSync waits pc s
    → (s.quit ≡ true) ⊎ SyncStart.IsRunning s
sync_whole waits pc s h = elim (Bool-cases s.quit) [
  | inl q ↦ inl q
  | inr q ↦ inr (record { started = λ e. ground (arith, h.runs q, e); connected = (h.runs q).1 })
]

module _ (R : Remote) (ticks : ℕ) where
  open R use {Net}

  sound-IsWhole : (p : Process R) → IsSound R p → IsWhole p.imp
  sound-IsWhole p h = record {
    checker_whole = ground (arith, h.checker_sound);
    secondary_whole = sync_whole secondary_waits p.release_pc p.imp.secondary h.secondary_sound;
    primary_whole = sync_whole primary_waits p.release_pc p.imp.primary h.primary_sound;
    service_whole = ground (arith, h.service_sound);
  }

  -- After any events that are allowed, from the constructor on, a `Release` stops the process: if
  -- each thread, while it is awaited, makes the few steps that it needs to see its flag, and the
  -- server comes back, then `Release` returns success, whatever else `w` lets happen meanwhile to the
  -- awaited part, the node and the network, and all four parts are marked as stopped.
  pub happen_all-release_stops :
      (es : List (Event R)) (change live : TimePoint) (memory : Memory) (net : Net)
      (w : Meanwhile R ticks)
      → AllAllowed R ticks es (new_process R change live memory net)
      → 4 ≤ CheckThread.thread_turns w.checker_turns
      → 4 ≤ SyncStart.thread_turns R w.secondary_turns
      → 4 ≤ SyncStart.thread_turns R w.primary_turns
      → 3 ≤ length w.served
      → let p = (happen_all R ticks es (new_process R change live memory net)).0 in
        (m' : Imp) × (net' : Net) × (release R ticks w p.imp p.net ≡ some (m', net', error_ok))
        × (m'.checker.quit ≡ true)
        × (m'.secondary.quit ≡ true)
        × (m'.primary.quit ≡ true)
        × (m'.service.quit ≡ true)
  happen_all-release_stops es change live memory net w l c s p v =
      let start = new_process R change live memory net in
      let q = (happen_all R ticks es start).0 in
      let sound =
        happen_all-IsSound R ticks es start l (new_process-IsSound R change live memory net) in
      release-stops R ticks w q.imp q.net (sound-IsWhole q sound) c s p v

  -- What runs: a flag that is not set, and the thread in its loop.
  pub record IsRunning (p : Process R) : Type 0 where
    pub outside_release : p.release_pc ≡ outside
    pub primary_wanted : p.imp.primary.quit ≡ false
    pub checker_wanted : p.imp.checker.quit ≡ false
    pub service_wanted : p.imp.service.quit ≡ false

  abbrev pub IsRelease : Event R → Type 0
  IsRelease (releases o) = Unit
  IsRelease _ = ⊥

  happen-IsRunning :
      (e : Event R) (p : Process R) → ¬ IsRelease e → IsRunning p → IsRunning (happen R ticks e p).0
  unfolding happen initialize NetService.start Sync.thread_step BrainSplit.thread_step
      NetService.thread_step Interface.switch Interface.register_callback
      Interface.un_register_callback
  happen-IsRunning e p n h = ground arith

  abbrev pub NoRelease : List (Event R) → Type 0
  NoRelease [] = Unit
  NoRelease (e ∷ es) = (¬ IsRelease e) × NoRelease es

  happen_all-IsRunning :
      (es : List (Event R)) (p : Process R)
      → NoRelease es
      → IsRunning p
      → IsRunning (happen_all R ticks es p).0
  unfolding happen_all
  happen_all-IsRunning [] p n h = h
  happen_all-IsRunning (e ∷ es) p n h =
      happen_all-IsRunning es (happen R ticks e p).0 n.1 (happen-IsRunning e p n.0 h)

  initialize-IsRunning :
      (a : Settings) (k : Starts) (p : Process R)
      → p.release_pc ≡ outside
      → (initialize a k p.imp).1 ≡ error_ok
      → IsRunning (happen R ticks (initializes a k) p).0
  unfolding happen
  initialize-IsRunning a k p o e =
      let runs = (initialize-IsInitialized a k p.imp).1 e in
      record {
        outside_release = o;
        primary_wanted = runs.primary_runs;
        checker_wanted = runs.checker_runs;
        service_wanted = runs.service_runs;
      }

  -- If `Initialize` succeeds in a process that came about by any allowed events, then until a
  -- `Release` is called, whatever else happens, the threads of the primary heartbeat, of the check and
  -- of the service are all in their loops, and the primary heartbeat has a connection object.
  pub initialize-keeps_running :
      (es fs : List (Event R)) (a : Settings) (k : Starts) (change live : TimePoint)
      (memory : Memory) (net : Net)
      → let p = (happen_all R ticks es (new_process R change live memory net)).0 in
        AllAllowed R ticks es (new_process R change live memory net)
        → AllAllowed R ticks (initializes a k ∷ fs) p
        → (initialize a k p.imp).1 ≡ error_ok
        → NoRelease fs
        → let q = (happen_all R ticks (initializes a k ∷ fs) p).0 in
          Beats q.imp.primary.thread
          × (q.imp.primary.network ≢ none)
          × Checks q.imp.checker.thread
          × Serves q.imp.service.thread
  unfolding happen_all
  initialize-keeps_running es fs a k change live memory net l m e n =
      let start = new_process R change live memory net in
      let p = (happen_all R ticks es start).0 in
      let q = (happen_all R ticks (initializes a k ∷ fs) p).0 in
      let sound_p =
        happen_all-IsSound R ticks es start l (new_process-IsSound R change live memory net) in
      let sound = happen_all-IsSound R ticks (initializes a k ∷ fs) p m sound_p in
      let p' = (happen R ticks (initializes a k) p).0 in
      let runs = happen_all-IsRunning fs p' n (initialize-IsRunning a k p m.0.0 e) in
      let primary = sound.primary_sound.runs runs.primary_wanted in
      (
        primary.0,
        primary.1,
        sound.checker_sound.runs runs.checker_wanted,
        sound.service_sound.runs runs.service_wanted,
      )
