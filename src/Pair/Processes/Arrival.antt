-- ===== src/Pair/Processes/Arrival.antt =====
-- Two whole processes whose calls arrive (Sinboha/SinbohaImp.cpp, SinbohaSync.cpp): how many steps of a
-- primary heartbeat thread settle the role of its node.
use sinboha.Prelude.{
  ℕ, ◌+◌, ◌<◌, ◌≤◌, ◌≡◌, ◌⊎◌, inl, inr, refl, true, false, List, [], ◌∷◌, arith, ap, if◌then◌else◌,
}
use sinboha.Chrono.{TimePoint}
use sinboha.Process.{
  Event, heartbeat_runs, check_runs, service_runs, peer_asks, peer_sends, initializes, releases,
  switches, registers, unregisters, sends_data, net_changes,
}
use sinboha.Process.Lifetime.{IsRelease}
use sinboha.Pair.{Readings}
use sinboha.Pair.Interleaving.{Side, same_side, first, second}
use sinboha.Pair.Threads.{Fate, delivered, request_lost, answer_lost, network}
use sinboha.Pair.Threads.Roles.{IsFollowing}
use sinboha.Pair.Processes.{Nodes, Moment, moment, process_of, take_moment}
use sinboha.Pair.Processes.Turns.{Local, local_of, turn_lem}
use sinboha.Pair.Processes.Settle.{IsBeating}
use sinboha.Pair.Processes.Agreement.{NoRelease}
use sinboha.Pair.Processes.Progress.{steps_left, local_step-nearer, is_primary, happen-steps_left}

module _ (ticks : ℕ) where
  -- The steps of the primary heartbeat thread of one side.
  abbrev pub own_step : Side → Moment ticks → ℕ
  own_step p (moment q heard fate e) = if same_side q p then (if is_primary e then 1 else 0) else 0

  abbrev pub own_steps : Side → List (Moment ticks) → ℕ
  own_steps p [] = 0
  own_steps p (m ∷ ms) = own_step p m + own_steps p ms

  -- Where one of these threads makes a call, the call and its answer arrive.
  abbrev pub Arrives : Moment ticks → Type 0
  Arrives (moment p heard fate (heartbeat_runs true live now)) = fate ≡ delivered
  Arrives _ = Unit

  abbrev pub AllArrive : List (Moment ticks) → Type 0
  AllArrive [] = Unit
  AllArrive (m ∷ ms) = Arrives m × AllArrive ms

  -- The thread follows an answer now, or is nearer to it after its own step, and as near as before
  -- after anything else.
  abbrev Nearer : Side → Moment ticks → Nodes → Type 0
  Nearer p m d =
      ((own_step p m ≡ 1) × IsFollowing (d.imp p).primary.thread)
      ⊎ (steps_left ((take_moment ticks m d).imp p).primary + own_step p m
          ≤ steps_left (d.imp p).primary)

  other_step :
      (p q : Side) (heard : TimePoint) (fate : Fate) (e : Event (network ticks heard fate))
      (d : Nodes)
      → ¬ IsRelease (network ticks heard fate) ticks e
      → IsBeating (d.imp q).primary
      → is_primary e ≡ false
      → Nearer p (moment q heard fate e) d
  unfolding take_moment
  other_step first first heard fate e d n h f =
      let same =
        happen-steps_left (network ticks heard fate) ticks e (process_of ticks heard fate first d) n
          h f in
      inr (rw f (rw same (omega arith)))
  other_step second second heard fate e d n h f =
      let same =
        happen-steps_left (network ticks heard fate) ticks e (process_of ticks heard fate second d)
          n h f in
      inr (rw f (rw same (omega arith)))
  other_step first second heard fate e d n h f = inr (omega arith)
  other_step second first heard fate e d n h f = inr (omega arith)

  turned :
      (p : Side) (t : Readings) (d : Nodes)
      → IsBeating (d.imp p).primary
      → let m = moment p t.heard delivered (heartbeat_runs true t.live t.now) in
        IsFollowing (d.imp p).primary.thread
        ⊎ (steps_left ((take_moment ticks m d).imp p).primary < steps_left (d.imp p).primary)
  turned p t d h =
      let one = ap (λ (l : Local). steps_left l.sync) (turn_lem ticks p t delivered d).0 in
      elim (local_step-nearer ticks t (local_of p d) h) [ inl f ↦ inl f | inr l ↦ inr (rw one l) ]

  own_turn :
      (p q : Side) (t : Readings) (d : Nodes)
      → IsBeating (d.imp q).primary
      → Nearer p (moment q t.heard delivered (heartbeat_runs true t.live t.now)) d
  unfolding take_moment
  own_turn first first t d h = elim (turned first t d h) [
    | inl f ↦ inl (refl, f)
    | inr l ↦ inr (omega arith)
  ]
  own_turn second second t d h = elim (turned second t d h) [
    | inl f ↦ inl (refl, f)
    | inr l ↦ inr (omega arith)
  ]
  own_turn first second t d h = inr (omega arith)
  own_turn second first t d h = inr (omega arith)

  pub take_moment-Nearer :
      (p : Side) (m : Moment ticks) (d : Nodes)
      → NoRelease ticks (m ∷ [])
      → Arrives m
      → ((q : Side) → IsBeating (d.imp q).primary)
      → Nearer p m d
  take_moment-Nearer p (moment q heard delivered (heartbeat_runs true live now)) d n a h =
      own_turn p q (record { heard = heard; live = live; now = now }) d (h q)
  take_moment-Nearer p (moment q heard request_lost (heartbeat_runs true live now)) d n a h =
      ground arith
  take_moment-Nearer p (moment q heard answer_lost (heartbeat_runs true live now)) d n a h =
      ground arith
  take_moment-Nearer p (moment q heard fate (heartbeat_runs false live now)) d n a h =
      other_step p q heard fate (heartbeat_runs false live now) d n.0 (h q) refl
  take_moment-Nearer p (moment q heard fate (check_runs now)) d n a h =
      other_step p q heard fate (check_runs now) d n.0 (h q) refl
  take_moment-Nearer p (moment q heard fate (service_runs o)) d n a h =
      other_step p q heard fate (service_runs o) d n.0 (h q) refl
  take_moment-Nearer p (moment q heard fate (initializes b k)) d n a h =
      other_step p q heard fate (initializes b k) d n.0 (h q) refl
  take_moment-Nearer p (moment q heard fate (releases o)) d n a h =
      other_step p q heard fate (releases o) d n.0 (h q) refl
  take_moment-Nearer p (moment q heard fate (switches now)) d n a h =
      other_step p q heard fate (switches now) d n.0 (h q) refl
  take_moment-Nearer p (moment q heard fate (registers c)) d n a h =
      other_step p q heard fate (registers c) d n.0 (h q) refl
  take_moment-Nearer p (moment q heard fate unregisters) d n a h =
      other_step p q heard fate unregisters d n.0 (h q) refl
  take_moment-Nearer p (moment q heard fate (sends_data b)) d n a h =
      other_step p q heard fate (sends_data b) d n.0 (h q) refl
  take_moment-Nearer p (moment q heard fate (peer_asks z y s)) d n a h =
      other_step p q heard fate (peer_asks z y s) d n.0 (h q) refl
  take_moment-Nearer p (moment q heard fate (peer_sends b)) d n a h =
      other_step p q heard fate (peer_sends b) d n.0 (h q) refl
  take_moment-Nearer p (moment q heard fate (net_changes net)) d n a h =
      other_step p q heard fate (net_changes net) d n.0 (h q) refl
