-- ===== src/Pair/Processes/Turns.antt =====
-- The primary heartbeat threads (Sinboha/SinbohaSync.cpp) of two whole processes, and what the steps of
-- one of them do to both.
pub mod Steps
use sinboha.Prelude.{ℕ, ◌≡◌, refl, true, List, [], ◌∷◌, ◌∙◌}
use sinboha.StatusRep.{StatusRep}
use sinboha.Sync
use sinboha.Sync.{Sync}
use sinboha.Process.{heartbeat_runs, happen, heartbeat_step}
use sinboha.Pair.{Readings}
use sinboha.Pair.Interleaving.{Side, first, second, other}
use sinboha.Pair.Threads.{Fate, network}
use sinboha.Pair.Processes.{Nodes, Moment, moment, take_moment, take_moments}

-- What a heartbeat thread acts on.
pub record Local : Type 0 where
  pub sync : Sync
  pub node : StatusRep
  pub peer : StatusRep

abbrev pub local_of : Side → Nodes → Local
local_of p d = record {
  sync = (d.imp p).primary;
  node = (d.imp p).status;
  peer = (d.imp (other p)).status;
}

module _ (ticks : ℕ) where
  unfoldable pub local_step : Readings → Fate → Local → Local
  local_step t fate l =
      let (w, calls) =
        Sync.thread_step (network ticks t.heard fate) ticks t.live t.now
          (record { sync = l.sync; node = l.node; net = (l.peer, []) }) in
      record { sync = w.sync; node = w.node; peer = w.net.0 }

  unfoldable pub local_run : Readings → List Fate → Local → Local
  local_run t [] l = l
  local_run t (f ∷ fs) l = local_run t fs (local_step t f l)

  -- Steps of the primary heartbeat of one side, each with the fate of the call that it may make.
  abbrev pub turns : Side → Readings → List Fate → List (Moment ticks)
  turns p t [] = []
  turns p t (f ∷ fs) = moment p t.heard f (heartbeat_runs true t.live t.now) ∷ turns p t fs

  pub turn_lem :
      (p : Side) (t : Readings) (f : Fate) (d : Nodes)
      → let d' = take_moment ticks (moment p t.heard f (heartbeat_runs true t.live t.now)) d in
        (local_of p d' ≡ local_step t f (local_of p d))
        × ((d'.imp (other p)).primary ≡ (d.imp (other p)).primary)
  unfolding take_moment happen heartbeat_step local_step
  turn_lem first t f d = (refl, refl)
  turn_lem second t f d = (refl, refl)

  -- They do what the thread alone does, and leave the heartbeat of the other side as it is.
  pub turns_lem :
      (p : Side) (t : Readings) (fs : List Fate) (d : Nodes)
      → let d' = take_moments ticks (turns p t fs) d in
        (local_of p d' ≡ local_run t fs (local_of p d))
        × ((d'.imp (other p)).primary ≡ (d.imp (other p)).primary)
  unfolding take_moments local_run
  turns_lem p t [] d = (refl, refl)
  turns_lem p t (f ∷ fs) d =
      let d' = take_moment ticks (moment p t.heard f (heartbeat_runs true t.live t.now)) d in
      let one = turn_lem p t f d in
      let rest = turns_lem p t fs d' in (rest.0 ∙ rw one.0, rest.1 ∙ one.1)
