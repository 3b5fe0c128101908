-- ===== src/Pair/Processes/Resolve.antt =====
-- Two whole processes whose primary heartbeat threads run (Sinboha/SinbohaSync.cpp), from any moment on:
-- steps of these threads that settle the roles of their nodes.
use sinboha.Prelude.{ℕ, ◌≡◌, ◌≢◌, refl, ◌∙◌, sym, ap, subst, List, [], ◌∷◌, ◌++◌, arith}
use sinboha.Types.{IsNamed}
use sinboha.Chrono.{IsClock}
use sinboha.StatusRep.{StatusRep}
use sinboha.Sync
use sinboha.Sync.{Sync}
use sinboha.Pair.{Readings, exchange, IsResolved}
use sinboha.Pair.Convergence.{round, round-IsResolved}
use sinboha.Pair.Interleaving.{Side, first, second, other}
use sinboha.Pair.Threads.{Fate, delivered}
use sinboha.Pair.Processes.{Nodes, Moment, take_moment, take_moments}
use sinboha.Pair.Processes.Turns.{Local, local_of, local_run, turns, turns_lem}
use sinboha.Pair.Processes.Turns.Steps.{started_lem, connected_beat}
use sinboha.Pair.Processes.Settle.{IsBeating, IsReady, HasFollowed, settling, settling-IsReady}

-- A heartbeat that reaches the peer: `Query`, the call, and `TryActivate`.
abbrev pub whole_beat : List Fate
whole_beat = delivered ∷ delivered ∷ delivered ∷ []

module _ (ticks : ℕ) where
  -- The steps of one side to the beginning of a heartbeat with an open connection.
  abbrev pub settle : Side → Readings → Sync → List (Moment ticks)
  settle p t s = turns ticks p t (settling s.thread)

  abbrev pub beat : Side → Readings → List (Moment ticks)
  beat p t = turns ticks p t whole_beat

  take_moments_append :
      (ms ns : List (Moment ticks)) (d : Nodes)
      → take_moments ticks (ms ++ ns) d ≡ take_moments ticks ns (take_moments ticks ms d)
  unfolding take_moments
  take_moments_append [] ns d = refl
  take_moments_append (m ∷ ms) ns d = take_moments_append ms ns (take_moment ticks m d)

  settle-IsReady :
      (p : Side) (t : Readings) (s : Sync) (d : Nodes)
      → (d.imp p).primary ≡ s
      → IsBeating s
      → let d' = take_moments ticks (settle p t s) d in
        IsReady (d'.imp p).primary
        × ((d'.imp (other p)).primary ≡ (d.imp (other p)).primary)
        × ((d'.imp (other p)).status ≡ (d.imp (other p)).status)
        × HasFollowed t.now (d.imp p).status (d'.imp p).status
  settle-IsReady p t s d its beating =
      let l = local_of p d in
      let l' = local_run ticks t (settling s.thread) l in
      let (same, kept) = turns_lem ticks p t (settling s.thread) d in
      let (ready, peer, followed) =
        subst
          (λ k.
            let m = local_run ticks t (settling k.thread) l in
            IsReady m.sync × (m.peer ≡ l.peer) × HasFollowed t.now l.node m.node)
          its (settling-IsReady ticks t l (subst IsBeating (sym its) beating)) in
      (
        subst (λ (m : Local). IsReady m.sync) (sym same) ready,
        kept,
        ap (λ (m : Local). m.peer) same ∙ peer,
        subst (λ (m : Local). HasFollowed t.now l.node m.node) (sym same) followed,
      )

  ready_beat :
      (t : Readings) (l : Local)
      → IsReady l.sync
      → let l' = local_run ticks t whole_beat l in
        (l'.node, l'.peer) ≡ exchange ticks t l.node l.peer
  ready_beat t l (q, (i, at), (c, x, n, connected)) =
      subst
        (λ k.
          let l' = local_run ticks t whole_beat k in
          (l'.node, l'.peer) ≡ exchange ticks t l.node l.peer)
        (sym (started_lem ticks t (Sync.at_query i) c l q at n))
        (connected_beat ticks t i x c l.sync l.node l.peer connected)

  take_moments-exchange :
      (p : Side) (t : Readings) (d : Nodes)
      → IsReady (d.imp p).primary
      → let d' = take_moments ticks (beat p t) d in
        (((d'.imp p).status, (d'.imp (other p)).status)
          ≡ exchange ticks t (d.imp p).status (d.imp (other p)).status)
        × ((d'.imp (other p)).primary ≡ (d.imp (other p)).primary)
  take_moments-exchange p t d ready =
      let (same, kept) = turns_lem ticks p t whole_beat d in
      (ap (λ (l : Local). (l.node, l.peer)) same ∙ ready_beat t (local_of p d) ready, kept)

  -- First each side settles, then each has a heartbeat that reaches the other.
  abbrev pub resolving : Readings → Readings → Nodes → List (Moment ticks)
  resolving t u d =
      (settle first t (d.imp first).primary ++ settle second u (d.imp second).primary)
      ++ (beat first t ++ beat second u)

  both_settle :
      (t u : Readings) (d : Nodes)
      → IsBeating (d.imp first).primary
      → IsBeating (d.imp second).primary
      → let before =
          settle first t (d.imp first).primary ++ settle second u (d.imp second).primary in
        let d' = take_moments ticks before d in
        IsReady (d'.imp first).primary
        × IsReady (d'.imp second).primary
        × HasFollowed t.now (d.imp first).status (d'.imp first).status
        × HasFollowed u.now (d.imp second).status (d'.imp second).status
  both_settle t u d ba bb =
      let ms = settle first t (d.imp first).primary in
      let ns = settle second u (d.imp second).primary in
      let d₁ = take_moments ticks ms d in
      let (ready, kept, peer, followed) = settle-IsReady first t (d.imp first).primary d refl ba in
      let (ready', kept', peer', followed') =
        settle-IsReady second u (d.imp second).primary d₁ kept bb in
      rw (take_moments_append ms ns d) (
        subst IsReady (sym kept') ready,
        ready',
        subst (HasFollowed t.now (d.imp first).status) (sym peer') followed,
        subst (λ r. HasFollowed u.now r ((take_moments ticks ns d₁).imp second).status) peer
            followed',
      )

  both_beat :
      (t u : Readings) (d : Nodes)
      → IsReady (d.imp first).primary
      → IsReady (d.imp second).primary
      → let d' = take_moments ticks (beat first t ++ beat second u) d in
        ((d'.imp first).status, (d'.imp second).status)
        ≡ round ticks t u (d.imp first).status (d.imp second).status
  unfolding round
  both_beat t u d ra rb =
      let d₁ = take_moments ticks (beat first t) d in
      let (one, kept) = take_moments-exchange first t d ra in
      let (two, kept') = take_moments-exchange second u d₁ (subst IsReady (sym kept) rb) in
      let swap : StatusRep × StatusRep → StatusRep × StatusRep = λ (x, y). (y, x) in
      rw (take_moments_append (beat first t) (beat second u) d)
        (ap swap two ∙ ap (λ (a, b). swap (exchange ticks u b a)) one)

  pub resolving-IsResolved :
      (t u : Readings) (d : Nodes)
      → IsBeating (d.imp first).primary
      → IsBeating (d.imp second).primary
      → IsNamed (d.imp first).status.status
      → IsNamed (d.imp second).status.status
      → IsClock (d.imp first).status.change_time
      → IsClock (d.imp second).status.change_time
      → IsClock t.now
      → IsClock u.now
      → (d.imp first).status.change_time ≢ (d.imp second).status.change_time
      → (d.imp first).status.change_time ≢ u.now
      → t.now ≢ (d.imp second).status.change_time
      → t.now ≢ u.now
      → let d' = take_moments ticks (resolving t u d) d in
        IsResolved (d'.imp first).status (d'.imp second).status
  resolving-IsResolved t u d ba bb na nb ca cb ct cu d1 d2 d3 d4 =
      let before = settle first t (d.imp first).primary ++ settle second u (d.imp second).primary in
      let e = take_moments ticks before d in
      let (ra, rb, fa, fb) = both_settle t u d ba bb in
      let resolved =
        round-IsResolved ticks t u (e.imp first).status (e.imp second).status (fa.0 na) (fb.0 nb)
          (ground arith) (ground arith) (ground arith) in
      rw (take_moments_append before (beat first t ++ beat second u) d)
        (subst (λ (a, b). IsResolved a b) (sym (both_beat t u e ra rb)) resolved)
