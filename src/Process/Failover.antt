-- ===== src/Process/Failover.antt =====
-- The check of a node whose peer has fallen silent (Sinboha/SinbohaBrainSplit.cpp, SinbohaSync.cpp,
-- SinbohaImp.cpp), among everything else that happens in the process.
use sinboha.Prelude.{
  ℕ, ◌+◌, ◌-◌, ◌*◌, ◌^◌, ◌≤◌, ◌<◌, ◌≡◌, ◌⊎◌, inl, inr, true, false, List, [], ◌∷◌, arith, lt→ltb,
}
use sinboha.Prelude.Int.{pos, negsuc}
use sinboha.Types.{active}
use sinboha.Chrono.{TimePoint}
use sinboha.StatusRep
use sinboha.StatusRep.{StatusRep, Bytes, recv_data, get_peer_live_time, brain_split}
use sinboha.RpcHandler.{handle_sync_data}
use sinboha.NetClient.{Remote}
use sinboha.Sync
use sinboha.Sync.{BeatPc}
use sinboha.BrainSplit
use sinboha.BrainSplit.{CheckPc, BrainSplit}
use sinboha.BrainSplit.Thread.{silent_lem}
use sinboha.Imp.Interface
use sinboha.Process.{
  Process, Event, heartbeat_runs, check_runs, service_runs, peer_asks, peer_sends, initializes,
  releases, switches, registers, unregisters, sends_data, net_changes, happen, happen_all,
}

-- The steps that are left at most before the check activates the node, if what it has read is `live`.
abbrev pub steps_left : CheckPc → ℕ
steps_left BrainSplit.at_test = 5
steps_left BrainSplit.at_wait = 4
steps_left BrainSplit.at_check = 3
steps_left (BrainSplit.at_compare x) = 2
steps_left BrainSplit.at_split = 1
steps_left _ = 0

-- The thread is in its loop, and has not read another time than `live`.
abbrev pub HasRead : TimePoint → CheckPc → Type 0
HasRead live BrainSplit.no_thread = ⊥
HasRead live BrainSplit.finished = ⊥
HasRead live (BrainSplit.at_compare x) = x ≡ live
HasRead live _ = Unit

-- The check, while the peer is silent since `live`.
pub record IsWatching (t : ℕ) (live : TimePoint) (b : BrainSplit) (r : StatusRep) : Type 0 where
  pub wanted : b.quit ≡ false
  pub limit : b.switch_timeout ≡ pos t
  pub silent_since : r.peer_live_time ≡ live
  pub has_read : HasRead live b.thread

check-IsWatching :
    (ticks t l n : ℕ) (b : BrainSplit) (r : StatusRep)
    → IsWatching t (pos l) b r
    → l + t * ticks < n
    → n < 2 ^ 63
    → t * ticks < 2 ^ 63
    → let (b', r', calls) = BrainSplit.thread_step ticks (pos n) b r in
      IsWatching t (pos l) b' r'
      × ((r'.status ≡ active) ⊎ (steps_left b'.thread ≤ steps_left b.thread - 1))
      × (r.status ≡ active → r'.status ≡ active)
unfolding BrainSplit.thread_step get_peer_live_time brain_split
check-IsWatching ticks t l n b r h late hn ht =
    let test = silent_lem ticks n l t hn (omega arith) ht in
    let yes_late = lt→ltb (l + t * ticks) n late in ground arith

pub steps_left-watched :
    (t l : ℕ) (b : BrainSplit) (r : StatusRep) → IsWatching t (pos l) b r → 0 < steps_left b.thread
steps_left-watched t l b r h = ground arith

pub steps_left-at_most : (pc : CheckPc) → steps_left pc ≤ 5
steps_left-at_most pc = ground arith

-- The heartbeat does not apply an answer of the peer.
abbrev pub NoAnswer : BeatPc → Type 0
NoAnswer (Sync.at_apply i activate) = ⊥
NoAnswer _ = Unit

module _ (R : Remote) (ticks t l : ℕ) where
  -- Nothing comes from the peer, nobody switches, stops or starts, and the check reads times more
  -- than the limit of `t` milliseconds after the last sign of life at `l`.
  abbrev pub IsSilent : Event R → Process R → Type 0
  IsSilent (heartbeat_runs true live now) p = NoAnswer p.imp.primary.thread
  IsSilent (heartbeat_runs false live now) p = NoAnswer p.imp.secondary.thread
  IsSilent (check_runs (pos n)) p = (l + t * ticks < n) × (n < 2 ^ 63)
  IsSilent (check_runs now) p = ⊥
  IsSilent (peer_asks heard time s) p = ⊥
  IsSilent (initializes a k) p = ⊥
  IsSilent (releases o) p = ⊥
  IsSilent (switches now) p = ⊥
  IsSilent _ p = Unit

  abbrev pub AllSilent : List (Event R) → Process R → Type 0
  AllSilent [] p = Unit
  AllSilent (e ∷ es) p = IsSilent e p × AllSilent es (happen R ticks e p).0

  abbrev pub is_check : Event R → ℕ
  is_check (check_runs now) = 1
  is_check _ = 0

  abbrev pub checks : List (Event R) → ℕ
  checks [] = 0
  checks (e ∷ es) = is_check e + checks es

  abbrev pub Watches : Process R → Type 0
  Watches p = IsWatching t (pos l) p.imp.checker p.imp.status

  abbrev pub check_left : Process R → ℕ
  check_left p = steps_left p.imp.checker.thread

  -- What an event brings, of the activation that is to come.
  abbrev pub Brings : ℕ → Process R → Process R → Type 0
  Brings n p p' =
      Watches p'
      × ((p'.imp.status.status ≡ active) ⊎ (check_left p' ≤ check_left p - n))
      × (p.imp.status.status ≡ active → p'.imp.status.status ≡ active)

  beat-node :
      (live now : TimePoint) (w : Sync.World R)
      → NoAnswer w.sync.thread
      → (Sync.thread_step R ticks live now w).0.node ≡ w.node
  unfolding Sync.thread_step
  beat-node live now w h = ground arith

  data-node : (b : Bytes) (r : StatusRep) → (handle_sync_data b r).0 ≡ r
  unfolding handle_sync_data recv_data
  data-node b r = ground arith

  pub keeps : (p : Process R) → Watches p → Brings 0 p p
  keeps p h = (h, inr (omega arith), λ a. a)

  pub happen-Brings :
      (e : Event R) (p : Process R)
      → t * ticks < 2 ^ 63
      → IsSilent e p
      → Watches p
      → Brings (is_check e) p (happen R ticks e p).0
  unfolding happen Interface.register_callback Interface.un_register_callback
      StatusRep.register_callback StatusRep.un_register_callback
  happen-Brings (heartbeat_runs true live now) p ht s h =
      let same =
        beat-node live now (record { sync = p.imp.primary; node = p.imp.status; net = p.net }) s in
      rw same (keeps p h)
  happen-Brings (heartbeat_runs false live now) p ht s h =
      let same =
        beat-node live now (record { sync = p.imp.secondary; node = p.imp.status; net = p.net })
          s in
      rw same (keeps p h)
  happen-Brings (check_runs (pos n)) p ht s h =
      check-IsWatching ticks t l n p.imp.checker p.imp.status h s.0 s.1 ht
  happen-Brings (check_runs (negsuc n)) p ht s h = elim s [ ]
  happen-Brings (peer_asks heard time a) p ht s h = elim s [ ]
  happen-Brings (initializes a k) p ht s h = elim s [ ]
  happen-Brings (releases o) p ht s h = elim s [ ]
  happen-Brings (switches now) p ht s h = elim s [ ]
  happen-Brings (service_runs o) p ht s h = keeps p h
  happen-Brings (peer_sends b) p ht s h = rw (data-node b p.imp.status) (keeps p h)
  happen-Brings (registers c) p ht s h = ground arith
  happen-Brings unregisters p ht s h = ground arith
  happen-Brings (sends_data b) p ht s h = keeps p h
  happen-Brings (net_changes net') p ht s h = keeps p h

  fails_over :
      (es : List (Event R)) (p : Process R)
      → t * ticks < 2 ^ 63
      → AllSilent es p
      → Watches p
      → (p.imp.status.status ≡ active) ⊎ (check_left p ≤ checks es)
      → (happen_all R ticks es p).0.imp.status.status ≡ active
  unfolding happen_all
  fails_over [] p ht s h (inl a) = a
  fails_over [] p ht s h (inr few) =
      let more = steps_left-watched t l p.imp.checker p.imp.status h in
      let never : ⊥ = omega (arith, more, few) in elim never [ ]
  fails_over (e ∷ es) p ht s h (inl a) =
      let step = happen-Brings e p ht s.0 h in
      fails_over es (happen R ticks e p).0 ht s.1 step.0 (inl (step.2 a))
  fails_over (e ∷ es) p ht s h (inr few) =
      let p' = (happen R ticks e p).0 in
      let step = happen-Brings e p ht s.0 h in
      elim step.1 [
        | inl a ↦ fails_over es p' ht s.1 step.0 (inl a)
        | inr fewer ↦ fails_over es p' ht s.1 step.0 (inr (omega (arith, fewer, few)))
      ]

  -- Let the check of a process be in its loop, with a limit of `t` milliseconds, and let the last
  -- sign of life of the peer be at `l`. Then in any events that contain five steps of the check, in
  -- which it reads times more than the limit after `l`, the node becomes active, or stays it, and is
  -- active after them; provided no answer or question of the peer arrives and nobody starts, releases
  -- or switches the node.
  pub happen_all-active :
      (es : List (Event R)) (p : Process R)
      → t * ticks < 2 ^ 63
      → AllSilent es p
      → IsWatching t (pos l) p.imp.checker p.imp.status
      → 5 ≤ checks es
      → (happen_all R ticks es p).0.imp.status.status ≡ active
  happen_all-active es p ht s h enough =
      let few = steps_left-at_most p.imp.checker.thread in
      fails_over es p ht s h (inr (omega (arith, few, enough)))
