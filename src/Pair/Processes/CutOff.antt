-- ===== src/Pair/Processes/CutOff.antt =====
-- Two whole processes on a network that is cut (Sinboha/SinbohaImp.cpp, SinbohaBrainSplit.cpp,
-- SinbohaSync.cpp): no answer reaches one of them, and no question of the other one.
pub mod Takeover
use sinboha.Prelude.{ℕ, ◌+◌, ◌-◌, ◌*◌, ◌^◌, ◌<◌, ◌≡◌, ◌≢◌, refl, true, false, arith}
use sinboha.Prelude.Int.{pos, negsuc}
use sinboha.Chrono.{TimePoint}
use sinboha.NetClient
use sinboha.Sync
use sinboha.NetClient.{Remote}
use sinboha.Imp.{Imp, sync_data}
use sinboha.Imp.Interface
use sinboha.Process.{
  Process, Event, heartbeat_runs, check_runs, service_runs, peer_asks, peer_sends, initializes,
  releases, switches, registers, unregisters, sends_data, net_changes, happen, heartbeat_step,
}
use sinboha.Process.Failover.{NoAnswer, IsSilent}
use sinboha.Pair.Processes.Effects.{release-kept}
use sinboha.Pair.Interleaving.{second}
use sinboha.Pair.Threads.{Fate, delivered, request_lost, network}

-- An event of a process, not of what surrounds it.
abbrev pub IsOfProcess : {R : Remote} → Event R → Type 0
IsOfProcess (net_changes net) = ⊥
IsOfProcess _ = Unit

module _ (ticks : ℕ) where
  -- Nobody starts, stops or switches this node, nothing from outside reaches it, and its check reads
  -- times more than the limit of `t` milliseconds after the last sign of life at `l`.
  abbrev pub Alone : ℕ → ℕ → {R : Remote} → Event R → Type 0
  Alone t l (check_runs (pos n)) = (l + t * ticks < n) × (n < 2 ^ 63)
  Alone t l (check_runs (negsuc n)) = ⊥
  Alone t l (initializes a k) = ⊥
  Alone t l (releases o) = ⊥
  Alone t l (switches now) = ⊥
  Alone t l (peer_asks heard time s) = ⊥
  Alone t l (peer_sends b) = ⊥
  Alone t l (net_changes net) = ⊥
  Alone t l _ = Unit

  cut_step :
      (live now heard : TimePoint) (fate : Fate) (w : Sync.World (network ticks heard fate))
      → fate ≢ delivered
      → NoAnswer w.sync.thread
      → NoAnswer (Sync.thread_step (network ticks heard fate) ticks live now w).0.sync.thread
  unfolding Sync.thread_step NetClient.can_you_activate_me
  cut_step live now heard fate w cut h = ground arith

  lost_step :
      (live now heard : TimePoint) (w : Sync.World (network ticks heard request_lost))
      → (Sync.thread_step (network ticks heard request_lost) ticks live now w).0.net.0 ≡ w.net.0
  unfolding Sync.thread_step NetClient.can_you_activate_me NetClient.initialize
      NetClient.re_initialize NetClient.release_client
  lost_step live now heard w = ground arith

  cut_event :
      (heard : TimePoint) (fate : Fate) (t l : ℕ) (e : Event (network ticks heard fate))
      (x : Process (network ticks heard fate))
      → fate ≢ delivered
      → Alone t l e
      → NoAnswer x.imp.primary.thread
      → NoAnswer x.imp.secondary.thread
      → let m = (happen (network ticks heard fate) ticks e x).0.imp in
        NoAnswer m.primary.thread × NoAnswer m.secondary.thread
  unfolding happen heartbeat_step Interface.register_callback Interface.un_register_callback
  cut_event heard fate t l (heartbeat_runs true live now) x cut a h k = (
    cut_step live now heard fate (record { sync = x.imp.primary; node = x.imp.status; net = x.net })
        cut h,
    k,
  )
  cut_event heard fate t l (heartbeat_runs false live now) x cut a h k = (
    h,
    cut_step live now heard fate
        (record { sync = x.imp.secondary; node = x.imp.status; net = x.net }) cut k,
  )
  cut_event heard fate t l (check_runs now) x cut a h k = (h, k)
  cut_event heard fate t l (service_runs o) x cut a h k = (h, k)
  cut_event heard fate t l (registers c) x cut a h k = (h, k)
  cut_event heard fate t l unregisters x cut a h k = (h, k)
  cut_event heard fate t l (sends_data b) x cut a h k = (h, k)
  cut_event heard fate t l (initializes b c) x cut a h k = elim a [ ]
  cut_event heard fate t l (releases o) x cut a h k = elim a [ ]
  cut_event heard fate t l (switches now) x cut a h k = elim a [ ]
  cut_event heard fate t l (peer_asks z y s) x cut a h k = elim a [ ]
  cut_event heard fate t l (peer_sends b) x cut a h k = elim a [ ]
  cut_event heard fate t l (net_changes net) x cut a h k = elim a [ ]

  Alone-IsSilent :
      (heard : TimePoint) (fate : Fate) (t l : ℕ) (e : Event (network ticks heard fate))
      (x : Process (network ticks heard fate))
      → Alone t l e
      → NoAnswer x.imp.primary.thread
      → NoAnswer x.imp.secondary.thread
      → IsSilent (network ticks heard fate) ticks t l e x
  Alone-IsSilent heard fate t l e x a h k = ground arith

  -- What the other side does reaches nobody.
  lost_event :
      (heard : TimePoint) (e : Event (network ticks heard request_lost))
      (x : Process (network ticks heard request_lost))
      → IsOfProcess e
      → (happen (network ticks heard request_lost) ticks e x).0.net.0 ≡ x.net.0
  unfolding happen heartbeat_step sync_data Sync.sync_data NetClient.sync_data
  lost_event heard (heartbeat_runs true live now) x a =
      lost_step live now heard (record { sync = x.imp.primary; node = x.imp.status; net = x.net })
  lost_event heard (heartbeat_runs false live now) x a =
      lost_step live now heard (record { sync = x.imp.secondary; node = x.imp.status; net = x.net })
  lost_event heard (check_runs now) x a = refl
  lost_event heard (service_runs o) x a = refl
  lost_event heard (registers c) x a = refl
  lost_event heard unregisters x a = refl
  lost_event heard (sends_data b) x a = ground arith
  lost_event heard (initializes b c) x a = refl
  lost_event heard (releases o) x a = (release-kept ticks heard request_lost o x).1
  lost_event heard (switches now) x a = refl
  lost_event heard (peer_asks z y s) x a = refl
  lost_event heard (peer_sends b) x a = refl
  lost_event heard (net_changes net) x a = elim a [ ]
