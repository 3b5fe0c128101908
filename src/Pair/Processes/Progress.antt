-- ===== src/Pair/Processes/Progress.antt =====
-- How far a primary heartbeat thread (Sinboha/SinbohaSync.cpp) is from following an answer, when its
-- calls arrive.
use sinboha.Prelude.{
  ℕ, ◌<◌, ◌≤◌, ◌≡◌, ◌⊎◌, inl, inr, refl, Bool, true, false, Option, none, some, if◌then◌else◌,
  arith, sym, subst,
}
use sinboha.Prelude.Int.{ℤ}
use sinboha.Chrono.{TimePoint}
use sinboha.Types.{SinbohaStatus}
use sinboha.StatusRep.{StatusRep}
use sinboha.NetClient
use sinboha.NetClient.{Remote, NetClient, Transport}
use sinboha.Sync
use sinboha.Sync.{BeatPc, Sync}
use sinboha.Imp.{initialize}
use sinboha.Imp.Interface
use sinboha.Process.{Process, Event, heartbeat_runs, happen, heartbeat_step}
use sinboha.Process.Lifetime.{IsRelease}
use sinboha.Process.Soundness.{Beats}
use sinboha.Pair.{Readings}
use sinboha.Pair.Threads.{delivered}
use sinboha.Pair.Threads.Roles.{IsFollowing}
use sinboha.Pair.Processes.Turns.{Local, local_step}
use sinboha.Pair.Processes.Turns.Steps.{started, started_lem}
use sinboha.Pair.Processes.Settle.{IsBeating}

abbrev is_there : Option Transport → Bool
is_there none = false
is_there (some x) = true

-- There is a client to call with.
abbrev has_client : Option NetClient → Bool
has_client none = false
has_client (some c) = is_there c.client

-- The steps up to and with the one that follows an answer.
abbrev steps_to_answer : Bool → BeatPc → ℕ
steps_to_answer can_call Sync.at_initialize = 6
steps_to_answer can_call (Sync.at_test i) = if can_call then 5 else 10
steps_to_answer can_call (Sync.at_wait i) = if can_call then 4 else 9
steps_to_answer can_call (Sync.at_query i) = if can_call then 3 else 8
steps_to_answer can_call (Sync.at_call i u st) = if can_call then 2 else 7
steps_to_answer can_call (Sync.at_apply i y) = 1
steps_to_answer can_call (Sync.at_reset i) = 6
steps_to_answer can_call _ = 0

unfoldable pub steps_left : Sync → ℕ
steps_left s = steps_to_answer (has_client s.network) s.thread

module _ (ticks : ℕ) (t : Readings) where
  called_lem :
      (i : ℤ) (u : TimePoint) (st : SinbohaStatus) (client : Option Transport) (c : NetClient)
      (s : Sync) (a b : StatusRep)
      → let l = started (Sync.at_call i u st) (record c { client = client }) s a b in
        steps_left (local_step ticks t delivered l).sync < steps_left l.sync
  unfolding steps_left local_step Sync.thread_step NetClient.can_you_activate_me
  called_lem i u st none c s a b = omega arith
  called_lem i u st (some x) c s a b = omega arith

  started_step :
      (pc : BeatPc) (c : NetClient) (s : Sync) (a b : StatusRep)
      → Beats pc
      → let l = started pc c s a b in
        IsFollowing pc ⊎ (steps_left (local_step ticks t delivered l).sync < steps_left l.sync)
  unfolding steps_left local_step Sync.thread_step NetClient.initialize NetClient.re_initialize
  started_step Sync.at_initialize c s a b h = inr (omega arith)
  started_step (Sync.at_test i) c s a b h = inr (ground arith)
  started_step (Sync.at_wait i) c s a b h = inr (ground arith)
  started_step (Sync.at_query i) c s a b h = inr (ground arith)
  started_step (Sync.at_call i u st) c s a b h = inr (called_lem i u st c.client c s a b)
  started_step (Sync.at_apply i y) c s a b h = inl tt
  started_step (Sync.at_reset i) c s a b h = inr (omega arith)
  started_step Sync.no_thread c s a b h = elim h [ ]
  started_step Sync.finished c s a b h = elim h [ ]

  step_of_network :
      (l : Local) (n : Option NetClient)
      → l.sync.network ≡ n
      → IsBeating l.sync
      → IsFollowing l.sync.thread
        ⊎ (steps_left (local_step ticks t delivered l).sync < steps_left l.sync)
  step_of_network l none e (q, h, connected) = elim (connected e) [ ]
  step_of_network l (some c) e (q, h, connected) =
      subst
        (λ k.
          IsFollowing k.sync.thread
          ⊎ (steps_left (local_step ticks t delivered k).sync < steps_left k.sync))
        (sym (started_lem ticks t l.sync.thread c l q refl e))
        (started_step l.sync.thread c l.sync l.node l.peer h)

  -- A thread that has no answer in hand comes nearer to one.
  pub local_step-nearer :
      (l : Local)
      → IsBeating l.sync
      → IsFollowing l.sync.thread
        ⊎ (steps_left (local_step ticks t delivered l).sync < steps_left l.sync)
  local_step-nearer l h = step_of_network l l.sync.network refl h

-- Before an answer there is a step to make, and at most ten.
pub steps_left-bounds : (s : Sync) → IsBeating s → (1 ≤ steps_left s) × (steps_left s ≤ 10)
unfolding steps_left
steps_left-bounds s h = ground arith

-- What is not a step of the thread, nor a `Release`, leaves it where it is.
abbrev pub is_primary : {R : Remote} → Event R → Bool
is_primary (heartbeat_runs true live now) = true
is_primary _ = false

pub happen-steps_left :
    (R : Remote) (ticks : ℕ) (e : Event R) (p : Process R)
    → ¬ IsRelease R ticks e
    → IsBeating p.imp.primary
    → is_primary e ≡ false
    → steps_left (happen R ticks e p).0.imp.primary ≡ steps_left p.imp.primary
unfolding steps_left happen heartbeat_step initialize Sync.start Interface.switch
    Interface.register_callback Interface.un_register_callback
happen-steps_left R ticks e p n h f = ground arith
