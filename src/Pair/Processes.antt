-- ===== src/Pair/Processes.antt =====
-- Two nodes, each with its whole process (Sinboha/SinbohaImp.cpp): heartbeat threads, check, service
-- and the callers of its interface, on a network that may lose requests and answers.
pub mod Places
pub mod Effects
pub mod Steps
pub mod Recovery
pub mod Roles
pub mod Timely
pub mod Turns
pub mod Settle
pub mod Resolve
pub mod Agreement
pub mod Progress
pub mod Arrival
pub mod Convergence
pub mod StartUp
pub mod Recoverable
pub mod CutOff
use sinboha.Prelude.{ℕ, if◌then◌else◌, List, [], ◌∷◌}
use sinboha.Chrono.{TimePoint}
use sinboha.Imp.{Imp}
use sinboha.Process.{Process, Event, ReleasePc, happen}
use sinboha.Pair.Interleaving.{Side, other, Channel, primary, secondary, same_side, Call, System}
use sinboha.Pair.Threads.{Fate, network, call_of}

-- Both objects, and where the callers of `Release` stand.
pub record Nodes : Type 0 where
  pub imp : Side → Imp
  pub release_pc : Side → ReleasePc

module _ (ticks : ℕ) where
  -- An event of one side, with the reading of the peer's clock and the fate of the call that it may
  -- make.
  pub data Moment : Type 0 where
    moment : Side → (heard : TimePoint) (fate : Fate) → Event (network ticks heard fate) → Moment

  -- The process of one side, with the peer's node as its world.
  abbrev pub process_of :
      (heard : TimePoint) (fate : Fate) → Side → Nodes → Process (network ticks heard fate)
  process_of heard fate p d = record {
    imp = d.imp p;
    release_pc = d.release_pc p;
    net = ((d.imp (other p)).status, []);
  }

  unfoldable pub take_moment : Moment → Nodes → Nodes
  take_moment (moment p heard fate e) d =
      let x = (happen (network ticks heard fate) ticks e (process_of heard fate p d)).0 in
      record {
        imp = λ q. if same_side p q then x.imp else record (d.imp q) { status = x.net.0 };
        release_pc = λ q. if same_side p q then x.release_pc else d.release_pc q;
      }

  unfoldable pub take_moments : List Moment → Nodes → Nodes
  take_moments [] d = d
  take_moments (m ∷ ms) d = take_moments ms (take_moment m d)

abbrev pub call_at : Imp → Channel → Call
call_at m primary = call_of m.primary.thread
call_at m secondary = call_of m.secondary.thread

-- The statuses, and how far the four heartbeats have got.
abbrev pub view : Nodes → System
view d = record { node = λ p. (d.imp p).status; call = λ p c. call_at (d.imp p) c }
