-- ===== src/Sync/Restart.antt =====
-- A `Start` between the first block of a `Stop` and the end of the old thread (Sinboha/SinbohaSync.cpp).
-- The library gives `m_Future` its new value only after the thread of the old one has returned, and
-- until then `Start` holds the lock, which `wait_for` needs to come back. So both threads, the old and
-- the new one, make their steps on the one object, except that out of `wait_for`.
use sinboha.Prelude.{ℕ, suc, ◌-◌, ◌≤◌, ◌≡◌, ◌≢◌, true, false, String, none, List, [], ◌∷◌, arith}
use sinboha.Prelude.Int.{ℤ}
use sinboha.Types.{error_ok}
use sinboha.Chrono.{TimePoint}
use sinboha.Launch.{launched}
use sinboha.StatusRep.{StatusRep}
use sinboha.NetClient.{Remote, NetClient}
use sinboha.Sync.{
  BeatPc, no_thread, at_initialize, at_test, at_wait, at_query, at_call, at_apply, at_reset,
  finished, Sync, World, start, thread_step,
}

abbrev pub IsWaiting : BeatPc → Type 0
IsWaiting (at_wait i) = Unit
IsWaiting _ = ⊥

-- A thread that was started and has not returned.
abbrev pub IsAlive : BeatPc → Type 0
IsAlive no_thread = ⊥
IsAlive finished = ⊥
IsAlive _ = Unit

-- The steps that are left at most before the thread is in `wait_for`.
abbrev steps_to_wait : BeatPc → ℕ
steps_to_wait (at_test i) = 1
steps_to_wait at_initialize = 2
steps_to_wait (at_apply i b) = 2
steps_to_wait (at_reset i) = 2
steps_to_wait (at_call i t s) = 3
steps_to_wait (at_query i) = 4
steps_to_wait _ = 0

steps_to_wait-le : (pc : BeatPc) → steps_to_wait pc ≤ 4
steps_to_wait-le pc = ground arith

waits : (pc : BeatPc) → IsAlive pc → steps_to_wait pc ≤ 0 → IsWaiting pc
waits pc a h = ground arith

module _ (R : Remote) where
  open R use {Net}

  -- The object with the thread that `Start` made, and where the old thread stands.
  pub record Restart : Type 0 where
    pub world : World R
    pub old : BeatPc

  pub data Turn : Type 0 where
    new_goes old_goes : TimePoint → TimePoint → Turn
    node_changes : StatusRep → Turn
    net_changes : Net → Turn

  -- The step of a thread while the lock is held.
  locked_step : ℕ → TimePoint → TimePoint → BeatPc → World R → World R
  locked_step ticks live now (at_wait i) w = w
  locked_step ticks live now pc w = (thread_step R ticks live now w).0

  with_thread : BeatPc → World R → World R
  with_thread pc w = record w { sync = record w.sync { thread = pc } }

  unfoldable pub take_turn : ℕ → Turn → Restart → Restart
  unfolding locked_step with_thread
  take_turn ticks (new_goes live now) x = record x {
    world = locked_step ticks live now x.world.sync.thread x.world;
  }
  take_turn ticks (old_goes live now) x =
      let w = locked_step ticks live now x.old (with_thread x.old x.world) in
      record { world = with_thread x.world.sync.thread w; old = w.sync.thread }
  take_turn ticks (node_changes r) x = record x { world = record x.world { node = r } }
  take_turn ticks (net_changes net') x = record x { world = record x.world { net = net' } }

  unfoldable pub take_turns : ℕ → List Turn → Restart → Restart
  take_turns ticks [] x = x
  take_turns ticks (t ∷ ts) x = take_turns ticks ts (take_turn ticks t x)

  abbrev pub old_turns : List Turn → ℕ
  old_turns [] = 0
  old_turns (old_goes live now ∷ ts) = suc (old_turns ts)
  old_turns (t ∷ ts) = old_turns ts

  abbrev pub new_turns : List Turn → ℕ
  new_turns [] = 0
  new_turns (new_goes live now ∷ ts) = suc (new_turns ts)
  new_turns (t ∷ ts) = new_turns ts

  record IsStuck (x : Restart) : Type 0 where
    wanted : x.world.sync.quit ≡ false
    connected : x.world.sync.network ≢ none
    old_alive : IsAlive x.old
    new_alive : IsAlive x.world.sync.thread

  take_turn-IsStuck :
      (ticks : ℕ) (t : Turn) (x : Restart) → IsStuck x → IsStuck (take_turn ticks t x)
  unfolding take_turn thread_step
  take_turn-IsStuck ticks t x h = ground arith

  new_left : Turn → ℕ → ℕ
  new_left (new_goes live now) n = n - 1
  new_left _ n = n

  old_left : Turn → ℕ → ℕ
  old_left (old_goes live now) n = n - 1
  old_left _ n = n

  take_turn-steps_to_wait :
      (ticks : ℕ) (t : Turn) (x : Restart)
      → IsStuck x
      → let y = take_turn ticks t x in
        (steps_to_wait y.old ≤ old_left t (steps_to_wait x.old))
        × (steps_to_wait y.world.sync.thread ≤ new_left t (steps_to_wait x.world.sync.thread))
  unfolding take_turn thread_step new_left old_left
  take_turn-steps_to_wait ticks t x h = ground arith

  take_turns-IsStuck :
      (ticks : ℕ) (ts : List Turn) (x : Restart)
      → IsStuck x
      → IsStuck (take_turns ticks ts x)
        × (steps_to_wait (take_turns ticks ts x).old ≤ steps_to_wait x.old - old_turns ts)
        × (steps_to_wait (take_turns ticks ts x).world.sync.thread
            ≤ steps_to_wait x.world.sync.thread - new_turns ts)
  unfolding take_turns new_left old_left
  take_turns-IsStuck ticks [] x h = (h, omega arith, omega arith)
  take_turns-IsStuck ticks (t ∷ ts) x h =
      let y = take_turn ticks t x in
      let (stuck, old, new) = take_turns-IsStuck ticks ts y (take_turn-IsStuck ticks t x h) in
      let step = take_turn-steps_to_wait ticks t x h in (stuck, ground arith, ground arith)

  -- The moment at which a `Start` that goes through waits for the old thread.
  abbrev pub restart : String → ℤ → ℤ → ℤ → NetClient → Sync → StatusRep → Net → Restart
  restart address port timeout heartbeat client s node net = record {
    world = record {
      sync = (start address port timeout heartbeat client launched s).0;
      node = node;
      net = net;
    };
    old = s.thread;
  }

  -- If `Stop` has set the flag, and another caller's `Start`, whose thread the library starts, goes
  -- through before the old thread has returned, then whatever the threads do and whatever the network
  -- answers, the old thread never returns, so that neither `Start` nor `Stop` does; and after four
  -- steps of each thread both are in `wait_for`, whose lock `Start` holds.
  pub restart-hangs :
      (ticks : ℕ) (ts : List Turn) (address : String) (port timeout heartbeat : ℤ)
      (client : NetClient) (s : Sync) (node : StatusRep) (net : Net)
      → s.quit ≡ true
      → IsAlive s.thread
      → (start address port timeout heartbeat client launched s).1 ≡ error_ok
      → let x = take_turns ticks ts (restart address port timeout heartbeat client s node net) in
        IsAlive x.old
        × (4 ≤ old_turns ts → 4 ≤ new_turns ts → IsWaiting x.old × IsWaiting x.world.sync.thread)
  unfolding start
  restart-hangs ticks ts address port timeout heartbeat client s node net q a e =
      let x = restart address port timeout heartbeat client s node net in
      let stuck : IsStuck x = record {
        wanted = ground arith;
        connected = ground arith;
        old_alive = a;
        new_alive = ground arith;
      } in
      let (still, old, new) = take_turns-IsStuck ticks ts x stuck in
      let y = take_turns ticks ts x in
      let old_le = steps_to_wait-le x.old in
      let new_le = steps_to_wait-le x.world.sync.thread in
      (
        still.old_alive,
        λ o n. (
          waits y.old still.old_alive (omega arith),
          waits y.world.sync.thread still.new_alive (omega arith),
        ),
      )
