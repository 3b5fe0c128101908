-- ===== src/Pair/Threads/Roles.antt =====
-- The roles of two nodes with their heartbeat threads (Sinboha/SinbohaSync.cpp, SinbohaImp.cpp), on a
-- network that may lose requests and answers, from any statuses.
use sinboha.Prelude.{ℕ, ◌≡◌, ◌⊎◌, refl, inl, inr, true, false, List, [], ◌∷◌, arith}
use sinboha.Types.{SinbohaStatus, active, standby}
use sinboha.Chrono.{TimePoint, IsClock}
use sinboha.StatusRep.{try_activate}
use sinboha.NetClient.{Remote}
use sinboha.Sync
use sinboha.Sync.{BeatPc, World}
use sinboha.Pair.Interleaving.{Side, first, second, Channel, idle}
use sinboha.Pair.Interleaving.Leader.{Outranks, IsLed, quiet-IsLed, Beats-IsLed, CallIs}
use sinboha.Pair.Interleaving.Leader.Follow.{Beats-stays_active, Beats-stays_standby}
use sinboha.Pair.Threads.{call_of, network}
use sinboha.Pair.Threads.Steps.{
  Duo, view, ThreadTurn, turn, take_turn, take_turns, take_turn-Beats, take_turns-Beats,
}

-- The thread has an answer and is about to follow it.
abbrev pub IsFollowing : BeatPc → Type 0
IsFollowing (Sync.at_apply i b) = Unit
IsFollowing _ = ⊥

abbrev pub FollowsNow : Side → ThreadTurn → Duo → Type 0
FollowsNow p (turn q c live now heard fate) d = (p ≡ q) × IsFollowing (d.sync q c).thread

module _ (R : Remote) (ticks : ℕ) (s : SinbohaStatus) (t : TimePoint) where
  pub leader_step :
      (live now : TimePoint) (w : World R)
      → IsFollowing w.sync.thread
      → CallIs active true s t (call_of w.sync.thread)
      → (Sync.thread_step R ticks live now w).0.node.status ≡ active
  unfolding Sync.thread_step try_activate
  leader_step live now w f h = ground arith

  pub follower_step :
      (live now : TimePoint) (w : World R)
      → IsFollowing w.sync.thread
      → CallIs standby false s t (call_of w.sync.thread)
      → (Sync.thread_step R ticks live now w).0.node.status ≡ standby
  unfolding Sync.thread_step try_activate
  follower_step live now w f h = ground arith

module _ (ticks : ℕ) where
  -- At one of the turns, a thread of this side follows an answer.
  abbrev pub HasFollowed : Side → List ThreadTurn → Duo → Type 0
  HasFollowed p [] d = ⊥
  HasFollowed p (t ∷ ts) d = FollowsNow p t d ⊎ HasFollowed p ts (take_turn ticks t d)

  module _ (sa : SinbohaStatus) (ta : TimePoint) (sb : SinbohaStatus) (tb : TimePoint) where
    leader_turn :
        (t : ThreadTurn) (d : Duo)
        → IsLed ticks sa ta sb tb (view d)
        → FollowsNow first t d
        → ((take_turn ticks t d).node first).status ≡ active
    unfolding take_turn
    leader_turn (turn first c live now heard fate) d h f =
        leader_step (network ticks heard fate) ticks sa ta live now
          (record { sync = d.sync first c; node = d.node first; net = (d.node second, []) }) f.1
          (h.calls_lead c)
    leader_turn (turn second c live now heard fate) d h f = cc

    follower_turn :
        (t : ThreadTurn) (d : Duo)
        → IsLed ticks sa ta sb tb (view d)
        → FollowsNow second t d
        → ((take_turn ticks t d).node second).status ≡ standby
    unfolding take_turn
    follower_turn (turn second c live now heard fate) d h f =
        follower_step (network ticks heard fate) ticks sb tb live now
          (record { sync = d.sync second c; node = d.node second; net = (d.node first, []) }) f.1
          (h.calls_follow c)
    follower_turn (turn first c live now heard fate) d h f = cc

    module _ (clock_a : IsClock ta) (clock_b : IsClock tb)
        (outranks : Outranks ticks sa ta sb tb) where
      turns_leader :
          (ts : List ThreadTurn) (d : Duo)
          → IsLed ticks sa ta sb tb (view d)
          → HasFollowed first ts d
          → ((take_turns ticks ts d).node first).status ≡ active
      unfolding take_turns
      turns_leader [] d h k = elim k [ ]
      turns_leader (t ∷ ts) d h (inl now) =
          let d' = take_turn ticks t d in
          let h' =
            Beats-IsLed ticks sa ta sb tb clock_a clock_b outranks h (take_turn-Beats ticks t d) in
          Beats-stays_active ticks sa ta sb tb clock_a clock_b outranks
            (take_turns-Beats ticks ts d') h' (leader_turn t d h now)
      turns_leader (t ∷ ts) d h (inr later) =
          turns_leader ts (take_turn ticks t d)
            (Beats-IsLed ticks sa ta sb tb clock_a clock_b outranks h (take_turn-Beats ticks t d))
            later

      turns_follower :
          (ts : List ThreadTurn) (d : Duo)
          → IsLed ticks sa ta sb tb (view d)
          → HasFollowed second ts d
          → ((take_turns ticks ts d).node second).status ≡ standby
      unfolding take_turns
      turns_follower [] d h k = elim k [ ]
      turns_follower (t ∷ ts) d h (inl now) =
          let d' = take_turn ticks t d in
          let h' =
            Beats-IsLed ticks sa ta sb tb clock_a clock_b outranks h (take_turn-Beats ticks t d) in
          Beats-stays_standby ticks sa ta sb tb clock_a clock_b outranks
            (take_turns-Beats ticks ts d') h' (follower_turn t d h now)
      turns_follower (t ∷ ts) d h (inr later) =
          turns_follower ts (take_turn ticks t d)
            (Beats-IsLed ticks sa ta sb tb clock_a clock_b outranks h (take_turn-Beats ticks t d))
            later

  -- Let the first of two nodes outrank the second by status and time of change, and let none of their
  -- heartbeat threads have a call under way. Then after any steps of the four threads, in any order,
  -- with any requests and answers lost, the first has its old status or is active, and the second has
  -- its old status or is standby; once a thread of the first has followed an answer the first is
  -- active, and once one of the second has, the second is standby.
  pub take_turns-roles :
      (d : Duo) (ts : List ThreadTurn)
      → IsClock (d.node first).change_time
      → IsClock (d.node second).change_time
      → Outranks ticks
          (d.node first).status
          (d.node first).change_time
          (d.node second).status
          (d.node second).change_time
      → ((p : Side) (c : Channel) → call_of (d.sync p c).thread ≡ idle)
      → let d' = take_turns ticks ts d in
        (((d'.node first).status ≡ (d.node first).status) ⊎ ((d'.node first).status ≡ active))
        × (((d'.node second).status ≡ (d.node second).status) ⊎ ((d'.node second).status ≡ standby))
        × (HasFollowed first ts d → (d'.node first).status ≡ active)
        × (HasFollowed second ts d → (d'.node second).status ≡ standby)
  take_turns-roles d ts ca cb o quiet =
      let sa = (d.node first).status in
      let ta = (d.node first).change_time in
      let sb = (d.node second).status in
      let tb = (d.node second).change_time in
      let begin = quiet-IsLed ticks sa ta sb tb (view d) refl refl refl refl quiet in
      let end = Beats-IsLed ticks sa ta sb tb ca cb o begin (take_turns-Beats ticks ts d) in
      (
        ground (arith, end.leads),
        ground (arith, end.follows),
        turns_leader sa ta sb tb ca cb o ts d begin,
        turns_follower sa ta sb tb ca cb o ts d begin,
      )
