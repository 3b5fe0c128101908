-- ===== src/Pair/Threads/Steps.antt =====
-- The four heartbeat threads of two nodes (Sinboha/SinbohaSync.cpp), one step of one thread at a time,
-- beside the relation of `Pair.Interleaving`.
use mathlib.Core.Path.{fun_ext, subst}
use sinboha.Prelude.{ℕ, ◌≡◌, refl, ap, sym, ◌∙◌, List, [], ◌∷◌, arith, if◌then◌else◌}
use sinboha.Chrono.{TimePoint}
use sinboha.StatusRep.{StatusRep}
use sinboha.Sync
use sinboha.Sync.{Sync}
use sinboha.Pair.Interleaving.{
  Side, first, second, other, Channel, same_side, same_channel, Call, idle, System, set_node,
  set_call, sends, is_heard, applies, fails, Beats, here, next,
}
use sinboha.Pair.Threads.{
  Fate, network, call_of, Move, stays, asks, is_answered, loses_answer, follows, gives_up,
  thread_step-Move,
}

node_same : (s : System) (p q : Side) → (if same_side p q then s.node p else s.node q) ≡ s.node q
node_same s p q = ground arith

call_same :
    (s : System) (p : Side) (c : Channel) (q : Side) (d : Channel)
    → (set_call s p c (s.call p c)).call q d ≡ s.call q d
call_same s p c q d = ground arith

call_twice :
    (s : System) (p : Side) (c : Channel) (k l : Call) (q : Side) (d : Channel)
    → (set_call (set_call s p c k) p c l).call q d ≡ (set_call s p c l).call q d
call_twice s p c k l q d = ground arith

-- Writing back what is there changes nothing.
set_node_same : (s : System) (p : Side) → set_node s p (s.node p) ≡ s
set_node_same s p = ap (λ f. record s { node = f }) (fun_ext λ q. node_same s p q)

pub set_call_same : (s : System) (p : Side) (c : Channel) → set_call s p c (s.call p c) ≡ s
set_call_same s p c =
    ap (λ f. record s { call = f }) (fun_ext λ q. fun_ext λ d. call_same s p c q d)

-- The node that a call does not reach is as it was.
set_other :
    (s : System) (p : Side) (r : StatusRep)
    → set_node (set_node s (other p) r) p (s.node p) ≡ set_node s (other p) r
set_other s first r = set_node_same (set_node s second r) first
set_other s second r = set_node_same (set_node s first r) second

set_call_twice :
    (s : System) (p : Side) (c : Channel) (k l : Call)
    → set_call (set_call s p c k) p c l ≡ set_call s p c l
set_call_twice s p c k l =
    ap (λ f. record s { call = f }) (fun_ext λ q. fun_ext λ d. call_twice s p c k l q d)

-- Both nodes and one call.
abbrev pub set_all : System → Side → Channel → StatusRep → StatusRep → Call → System
set_all s p c a b k = set_call (set_node (set_node s (other p) b) p a) p c k

set_none :
    (s : System) (p : Side) → set_node (set_node s (other p) (s.node (other p))) p (s.node p) ≡ s
set_none s p = set_other s p (s.node (other p)) ∙ set_node_same s (other p)

-- Two nodes with their heartbeats.
pub record Duo : Type 0 where
  pub node : Side → StatusRep
  pub sync : Side → Channel → Sync

-- As `Pair.Interleaving` sees them.
abbrev pub view : Duo → System
view d = record { node = d.node; call = λ p c. call_of (d.sync p c).thread }

-- One step of one thread, with the fate of a call that it may make.
pub data ThreadTurn : Type 0 where
  turn : Side → Channel → TimePoint → TimePoint → TimePoint → Fate → ThreadTurn

module _ (ticks : ℕ) where
  -- Steps that lead to a system lead to one that is equal to it.
  pub arrive : {s u v : System} → v ≡ u → Beats ticks s u → Beats ticks s v
  arrive {s} e b = subst (Beats ticks s) (sym e) b

  -- A move of one heartbeat is at most two steps.
  pub Move-Beats :
      (s : System) (p : Side) (c : Channel) {live now heard : TimePoint} {k : Call}
      {a' b' : StatusRep} {k' : Call}
      → Move ticks live now heard (s.node p) (s.node (other p)) k a' b' k'
      → s.call p c ≡ k
      → Beats ticks s (set_all s p c a' b' k')
  Move-Beats s p c {k} stays e =
      arrive
        (ap (λ x. set_call x p c k) (set_none s p)
          ∙ ap (set_call s p c) (sym e)
          ∙ set_call_same s p c)
        here
  Move-Beats s p c {k' = k'} asks e =
      arrive (ap (λ x. set_call x p c k') (set_none s p)) (next here (sends p c e))
  Move-Beats s p c {heard} {b' = b'} {k' = k'} (is_answered t st) e =
      arrive (ap (λ x. set_call x p c k') (set_other s p b'))
        (next here (is_heard p c heard t st e))
  Move-Beats s p c {heard} {b' = b'} (loses_answer t st) e =
      arrive
        (ap (λ x. set_call x p c idle) (set_other s p b')
          ∙ sym (set_call_twice (set_node s (other p) b') p c _ idle))
        (next (next here (is_heard p c heard t st e)) (fails p c))
  Move-Beats s p c {live} {now} {a' = a'} (follows allowed) e =
      arrive (ap (λ x. set_call (set_node x p a') p c idle) (set_node_same s (other p)))
        (next here (applies p c live now allowed e))
  Move-Beats s p c gives_up e =
      arrive (ap (λ x. set_call x p c idle) (set_none s p)) (next here (fails p c))

  unfoldable pub take_turn : ThreadTurn → Duo → Duo
  take_turn (turn p c live now heard fate) d =
      let (w, calls) =
        Sync.thread_step (network ticks heard fate) ticks live now
          (record { sync = d.sync p c; node = d.node p; net = (d.node (other p), []) }) in
      record {
        node = λ q.
            if same_side p q then w.node else if same_side (other p) q then w.net.0 else d.node q;
        sync = λ q e.
            if same_side p q then (if same_channel c e then w.sync else d.sync q e) else d.sync q e;
      }

  call_of_if :
      (d : Duo) (s : Sync) (p : Side) (c : Channel) (q : Side) (e : Channel)
      → call_of
          (if same_side p q
            then (if same_channel c e then s else d.sync q e)
            else d.sync q e).thread
        ≡ (set_call (view d) p c (call_of s.thread)).call q e
  call_of_if d s p c q e = ground arith

  pub take_turn-Beats : (t : ThreadTurn) (d : Duo) → Beats ticks (view d) (view (take_turn t d))
  unfolding take_turn
  take_turn-Beats (turn p c live now heard fate) d =
      let w =
        (Sync.thread_step (network ticks heard fate) ticks live now
          (record { sync = d.sync p c; node = d.node p; net = (d.node (other p), []) })).0 in
      arrive
        (ap (λ f. record (set_all (view d) p c w.node w.net.0 idle) { call = f })
          (fun_ext λ q. fun_ext λ e. call_of_if d w.sync p c q e))
        (Move-Beats (view d) p c
          (thread_step-Move ticks live now heard fate (d.sync p c) (d.node p) (d.node (other p)) [])
          refl)

  unfoldable pub take_turns : List ThreadTurn → Duo → Duo
  take_turns [] d = d
  take_turns (t ∷ ts) d = take_turns ts (take_turn t d)

  Beats-append : {s t u : System} → Beats ticks s t → Beats ticks t u → Beats ticks s u
  Beats-append before here = before
  Beats-append before (next first_part step) = next (Beats-append before first_part) step

  -- Whatever steps the four heartbeat threads of two nodes make, in any order, with any requests and
  -- answers lost, the nodes and their calls go through steps of the relation `Beat`.
  pub take_turns-Beats :
      (ts : List ThreadTurn) (d : Duo) → Beats ticks (view d) (view (take_turns ts d))
  unfolding take_turns
  take_turns-Beats [] d = here
  take_turns-Beats (t ∷ ts) d =
      Beats-append (take_turn-Beats t d) (take_turns-Beats ts (take_turn t d))
