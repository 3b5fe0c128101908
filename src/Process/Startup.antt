-- ===== src/Process/Startup.antt =====
-- A process that starts its threads when its peer has not been heard of for long, as after a `Release`
-- or a late `Initialize` (Sinboha/SinbohaImp.cpp, SinbohaBrainSplit.cpp).
use sinboha.Prelude.{ℕ, ◌*◌, ◌^◌, ◌≤◌, ◌<◌, ◌≡◌, List, ◌∷◌, arith}
use sinboha.Prelude.Int.{pos}
use sinboha.Types.{active, error_ok}
use sinboha.NetClient.{Remote}
use sinboha.NetService
use sinboha.Sync
use sinboha.BrainSplit
use sinboha.Imp.{Imp, Settings, Starts, initialize}
use sinboha.Process.{Process, Event, initializes, happen, happen_all}
use sinboha.Process.Failover.{IsWatching, AllSilent, checks, happen_all-active}

initialize-IsWatching :
    (a : Settings) (k : Starts) (m : Imp) (t l : ℕ)
    → (initialize a k m).1 ≡ error_ok
    → a.switch_timeout ≡ pos t
    → m.status.peer_live_time ≡ pos l
    → let m' = (initialize a k m).0 in IsWatching t (pos l) m'.checker m'.status
unfolding initialize NetService.start Sync.start BrainSplit.start
initialize-IsWatching a k m t l e h s = ground arith

module _ (R : Remote) (ticks : ℕ) where
  -- Let `Initialize` succeed, with a limit of `t` milliseconds, and let the node have heard of its
  -- peer last at `l`, before that. After it let any threads run, callers send data, register and
  -- unregister callbacks, and the network change, but let no answer or question of the peer arrive,
  -- and let nobody call `Initialize`, `Release` or `Switch`. If the check makes five steps, in which
  -- it reads times more than the limit after `l`, then the node is active after them, however little
  -- time has passed since the `Initialize`.
  pub initialize-activates :
      (t l : ℕ) (a : Settings) (k : Starts) (es : List (Event R)) (p : Process R)
      → (initialize a k p.imp).1 ≡ error_ok
      → a.switch_timeout ≡ pos t
      → p.imp.status.peer_live_time ≡ pos l
      → t * ticks < 2 ^ 63
      → AllSilent R ticks t l es (happen R ticks (initializes a k) p).0
      → 5 ≤ checks R ticks t l es
      → (happen_all R ticks (initializes a k ∷ es) p).0.imp.status.status ≡ active
  unfolding happen_all happen
  initialize-activates t l a k es p e h s ht silent enough =
      happen_all-active R ticks t l es (happen R ticks (initializes a k) p).0 ht silent
        (initialize-IsWatching a k p.imp t l e h s) enough
