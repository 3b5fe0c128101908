-- ===== src/Pair/Interleaving/Leader/Follow.antt =====
-- Two nodes that follow the answers of each other (Sinboha/SinbohaImp.cpp, SinbohaSync.cpp).
use sinboha.Prelude.{ℕ, ◌≡◌, ◌⊎◌, arith, inl, inr}
use sinboha.Types.{SinbohaStatus, active, standby}
use sinboha.Chrono.{TimePoint, IsClock}
use sinboha.StatusRep.{if_allow_peer_activate}
use sinboha.RpcHandler.{handle_can_you_activate_me}
use sinboha.Pair.Interleaving.{
  first, second, System, Beat, sends, is_heard, applies, fails, Beats, here, next,
}
use sinboha.Pair.Interleaving.Leader.{
  Outranks, IsLed, Follows, HasFollowed, leader_applies, follower_applies, Beats-IsLed,
}

module _ (ticks : ℕ) (sa : SinbohaStatus) (ta : TimePoint) (sb : SinbohaStatus)
    (tb : TimePoint) where
  module _ (clock_a : IsClock ta) (clock_b : IsClock tb)
      (outranks : Outranks ticks sa ta sb tb) where
    led : {s u : System} → IsLed ticks sa ta sb tb s → Beats ticks s u → IsLed ticks sa ta sb tb u
    led = Beats-IsLed ticks sa ta sb tb clock_a clock_b outranks

    -- What is active stays so, and what is standby; who follows an answer gets there.
    Beat-leader :
        {s u : System} (b : Beat ticks s u)
        → IsLed ticks sa ta sb tb s
        → ((s.node first).status ≡ active) ⊎ Follows first b
        → (u.node first).status ≡ active
    unfolding handle_can_you_activate_me if_allow_peer_activate
    Beat-leader (sends p c e) h k = ground arith
    Beat-leader (fails p c) h k = ground arith
    Beat-leader (is_heard first c now t st e) h k = ground arith
    Beat-leader (is_heard second c now t st e) h (inl a) = a
    Beat-leader (is_heard second c now t st e) h (inr f) = elim f [ ]
    Beat-leader {s} (applies first c live now b e) h k =
        rw (rw e at (h.calls_lead c))
          (leader_applies ticks sa ta sb tb live now (s.node first) h.leads).1
    Beat-leader (applies second c live now b e) h (inl a) = a
    Beat-leader (applies second c live now b e) h (inr f) = cc

    Beat-follower :
        {s u : System} (b : Beat ticks s u)
        → IsLed ticks sa ta sb tb s
        → ((s.node second).status ≡ standby) ⊎ Follows second b
        → (u.node second).status ≡ standby
    unfolding handle_can_you_activate_me if_allow_peer_activate
    Beat-follower (sends p c e) h k = ground arith
    Beat-follower (fails p c) h k = ground arith
    Beat-follower (is_heard first c now t st e) h (inl a) = a
    Beat-follower (is_heard first c now t st e) h (inr f) = elim f [ ]
    Beat-follower (is_heard second c now t st e) h k = ground arith
    Beat-follower {s} (applies second c live now b e) h k =
        rw (rw e at (h.calls_follow c))
          (follower_applies ticks sa ta sb tb live now (s.node second) h.follows).1
    Beat-follower (applies first c live now b e) h (inl a) = a
    Beat-follower (applies first c live now b e) h (inr f) = cc

    pub Beats-stays_active :
        {s u : System}
        → Beats ticks s u
        → IsLed ticks sa ta sb tb s
        → (s.node first).status ≡ active
        → (u.node first).status ≡ active
    Beats-stays_active here h a = a
    Beats-stays_active (next r b) h a = Beat-leader b (led h r) (inl (Beats-stays_active r h a))

    pub Beats-stays_standby :
        {s u : System}
        → Beats ticks s u
        → IsLed ticks sa ta sb tb s
        → (s.node second).status ≡ standby
        → (u.node second).status ≡ standby
    Beats-stays_standby here h a = a
    Beats-stays_standby (next r b) h a = Beat-follower b (led h r) (inl (Beats-stays_standby r h a))

    pub Beats-leader :
        {s u : System} (r : Beats ticks s u)
        → IsLed ticks sa ta sb tb s
        → HasFollowed first r
        → (u.node first).status ≡ active
    Beats-leader here h k = elim k [ ]
    Beats-leader (next r b) h (inl before) = Beat-leader b (led h r) (inl (Beats-leader r h before))
    Beats-leader (next r b) h (inr now) = Beat-leader b (led h r) (inr now)

    pub Beats-follower :
        {s u : System} (r : Beats ticks s u)
        → IsLed ticks sa ta sb tb s
        → HasFollowed second r
        → (u.node second).status ≡ standby
    Beats-follower here h k = elim k [ ]
    Beats-follower (next r b) h (inl before) =
        Beat-follower b (led h r) (inl (Beats-follower r h before))
    Beats-follower (next r b) h (inr now) = Beat-follower b (led h r) (inr now)
