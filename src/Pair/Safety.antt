-- ===== src/Pair/Safety.antt =====
-- As long as heartbeats do not overlap and no node takes its peer for dead, at most one of the two
-- nodes is active (Sinboha/SinbohaImp.cpp, SinbohaSync.cpp).
use sinboha.Prelude.{ℕ, ◌≢◌, ◌⊎◌, arith, List, [], ◌∷◌}
use sinboha.Types.{active, IsNamed}
use sinboha.StatusRep.{StatusRep}
use sinboha.StatusRep.Changes.{
  Method, ask, answered, switched, registered, unregistered, received, split_found, perform,
}
use sinboha.Pair.{Readings, exchange}
use sinboha.Pair.Convergence.{exchange-IsExchange}

abbrev pub NotBothActive : StatusRep → StatusRep → Type 0
NotBothActive a b = (a.status ≢ active) ⊎ (b.status ≢ active)

-- A method that a node performs by itself: not as a part of a heartbeat, and not because it takes
-- its peer for dead.
abbrev pub IsLocal : Method → Type 0
IsLocal (switched now) = Unit
IsLocal (registered c) = Unit
IsLocal unregistered = Unit
IsLocal (received b) = Unit
IsLocal _ = ⊥

-- What happens to the two nodes. A heartbeat is one event: it is over before the next event.
pub data PairEvent : Type 0 where
  first_asks second_asks : Readings → PairEvent
  first_performs second_performs : (m : Method) → IsLocal m → PairEvent

-- What every event keeps.
pub record IsSafe (a b : StatusRep) : Type 0 where
  pub first_named : IsNamed a.status
  pub second_named : IsNamed b.status
  pub one_active : NotBothActive a b

IsSafe-swap : (a b : StatusRep) → IsSafe a b → IsSafe b a
IsSafe-swap a b h = record {
  first_named = h.second_named;
  second_named = h.first_named;
  one_active = ground arith;
}

module _ (ticks : ℕ) where
  pub happen : PairEvent → StatusRep → StatusRep → StatusRep × StatusRep
  happen (first_asks t) a b = exchange ticks t a b
  happen (second_asks t) a b = let (b', a') = exchange ticks t b a in (a', b')
  happen (first_performs m l) a b = ((perform m a).0, b)
  happen (second_performs m l) a b = (a, (perform m b).0)

  pub happen_all : List PairEvent → StatusRep → StatusRep → StatusRep × StatusRep
  happen_all [] a b = (a, b)
  happen_all (e ∷ es) a b = let (a', b') = happen e a b in happen_all es a' b'

  exchange-IsSafe :
      (t : Readings) (a b : StatusRep)
      → IsSafe a b
      → IsSafe (exchange ticks t a b).0 (exchange ticks t a b).1
  exchange-IsSafe t a b h =
      let e = exchange-IsExchange ticks t a b h.first_named in
      record {
        first_named = ground arith;
        second_named = rw e.peer_status h.second_named;
        one_active = ground arith;
      }

  perform-IsSafe :
      (m : Method) (a b : StatusRep) → IsLocal m → IsSafe a b → IsSafe (perform m a).0 b
  unfolding perform
  perform-IsSafe (switched now) a b l h = ground arith
  perform-IsSafe (registered c) a b l h = ground arith
  perform-IsSafe unregistered a b l h = ground arith
  perform-IsSafe (received d) a b l h = ground arith
  perform-IsSafe (ask now t s) a b l h = absurd l
  perform-IsSafe (answered live now g) a b l h = absurd l
  perform-IsSafe (split_found now) a b l h = absurd l

  happen-IsSafe :
      (e : PairEvent) (a b : StatusRep) → IsSafe a b → IsSafe (happen e a b).0 (happen e a b).1
  unfolding happen
  happen-IsSafe (first_asks t) a b h = exchange-IsSafe t a b h
  happen-IsSafe (second_asks t) a b h =
      let (b', a') = exchange ticks t b a in
      IsSafe-swap b' a' (exchange-IsSafe t b a (IsSafe-swap a b h))
  happen-IsSafe (first_performs m l) a b h = perform-IsSafe m a b l h
  happen-IsSafe (second_performs m l) a b h =
      let b' = (perform m b).0 in IsSafe-swap b' a (perform-IsSafe m b a l (IsSafe-swap a b h))

  -- From a pair of nodes whose statuses have names and of which at most one is active, any sequence
  -- of heartbeats that do not overlap, manual switches, data received, and callbacks registered and
  -- removed leads to such a pair again: at most one node is active. The check for a silent peer is
  -- not among the events.
  pub happen_all-IsSafe :
      (es : List PairEvent) (a b : StatusRep)
      → IsSafe a b
      → IsSafe (happen_all es a b).0 (happen_all es a b).1
  unfolding happen_all
  happen_all-IsSafe [] a b h = h
  happen_all-IsSafe (e ∷ es) a b h =
      let (a', b') = happen e a b in happen_all-IsSafe es a' b' (happen-IsSafe e a b h)
