-- ===== src/Pair/Processes/CutOff/Takeover.antt =====
-- A node that its network cuts off from the other one becomes active (Sinboha/SinbohaImp.cpp,
-- SinbohaBrainSplit.cpp, SinbohaSync.cpp).
use sinboha.Prelude.{ℕ, ◌+◌, ◌-◌, ◌*◌, ◌^◌, ◌≤◌, ◌<◌, ◌≡◌, ◌≢◌, ◌⊎◌, inl, inr, List, [], ◌∷◌, arith}
use sinboha.Prelude.Int.{pos}
use sinboha.Types.{active}
use sinboha.Chrono.{TimePoint}
use sinboha.Process.{Event, happen}
use sinboha.Process.Failover.{
  NoAnswer, IsWatching, steps_left, is_check, happen-Brings, steps_left-watched, steps_left-at_most,
}
use sinboha.Pair.Interleaving.{Side, first, second}
use sinboha.Pair.Threads.{Fate, delivered, request_lost, answer_lost, network}
use sinboha.Pair.Processes.{Nodes, Moment, moment, process_of, take_moment, take_moments}
use sinboha.Pair.Processes.CutOff.{Alone, IsOfProcess, cut_event, Alone-IsSilent, lost_event}

module _ (ticks t l : ℕ) where
  -- This side gets no answer to its calls and is left alone; no call of the other side arrives.
  abbrev pub IsCut : Side → Moment ticks → Type 0
  IsCut first (moment first heard fate e) = (fate ≢ delivered) × Alone ticks t l e
  IsCut second (moment second heard fate e) = (fate ≢ delivered) × Alone ticks t l e
  IsCut first (moment second heard fate e) = (fate ≡ request_lost) × IsOfProcess e
  IsCut second (moment first heard fate e) = (fate ≡ request_lost) × IsOfProcess e

  abbrev pub AllCut : Side → List (Moment ticks) → Type 0
  AllCut p [] = Unit
  AllCut p (m ∷ ms) = IsCut p m × AllCut p ms

  -- The steps of the check of one side.
  abbrev own_check : Side → Moment ticks → ℕ
  own_check first (moment first heard fate e) = is_check (network ticks heard fate) ticks t l e
  own_check second (moment second heard fate e) = is_check (network ticks heard fate) ticks t l e
  own_check _ _ = 0

  abbrev pub own_checks : Side → List (Moment ticks) → ℕ
  own_checks p [] = 0
  own_checks p (m ∷ ms) = own_check p m + own_checks p ms

  -- The check of this side watches, and its heartbeats have no answer in hand.
  pub record IsAlone (p : Side) (d : Nodes) : Type 0 where
    pub watches : IsWatching t (pos l) (d.imp p).checker (d.imp p).status
    pub no_answer : NoAnswer (d.imp p).primary.thread
    pub no_other_answer : NoAnswer (d.imp p).secondary.thread

  abbrev Brings : Side → ℕ → Nodes → Nodes → Type 0
  Brings p n d d' =
      IsAlone p d'
      × (((d'.imp p).status.status ≡ active)
          ⊎ (steps_left (d'.imp p).checker.thread ≤ steps_left (d.imp p).checker.thread - n))
      × ((d.imp p).status.status ≡ active → (d'.imp p).status.status ≡ active)

  own_moment :
      (p : Side) (heard : TimePoint) (fate : Fate) (e : Event (network ticks heard fate))
      (d : Nodes)
      → t * ticks < 2 ^ 63
      → fate ≢ delivered
      → Alone ticks t l e
      → IsAlone p d
      → let m' =
          (happen (network ticks heard fate) ticks e (process_of ticks heard fate p d)).0.imp in
        (IsWatching t (pos l) m'.checker m'.status
          × NoAnswer m'.primary.thread
          × NoAnswer m'.secondary.thread)
        × ((m'.status.status ≡ active)
            ⊎ (steps_left m'.checker.thread
                ≤ steps_left (d.imp p).checker.thread
                  - is_check (network ticks heard fate) ticks t l e))
        × ((d.imp p).status.status ≡ active → m'.status.status ≡ active)
  own_moment p heard fate e d ht cut alone h =
      let R = network ticks heard fate in
      let x = process_of ticks heard fate p d in
      let silent = Alone-IsSilent ticks heard fate t l e x alone h.no_answer h.no_other_answer in
      let (watches, nearer, stays) = happen-Brings R ticks t l e x ht silent h.watches in
      let (quiet, quiet') =
        cut_event ticks heard fate t l e x cut alone h.no_answer h.no_other_answer in
      ((watches, quiet, quiet'), nearer, stays)

  moment-Brings :
      (p : Side) (m : Moment ticks) (d : Nodes)
      → t * ticks < 2 ^ 63
      → IsCut p m
      → IsAlone p d
      → Brings p (own_check p m) d (take_moment ticks m d)
  unfolding take_moment
  moment-Brings first (moment first heard fate e) d ht c h =
      let ((w, n, o), nearer, stays) = own_moment first heard fate e d ht c.0 c.1 h in
      (record { watches = w; no_answer = n; no_other_answer = o }, nearer, stays)
  moment-Brings second (moment second heard fate e) d ht c h =
      let ((w, n, o), nearer, stays) = own_moment second heard fate e d ht c.0 c.1 h in
      (record { watches = w; no_answer = n; no_other_answer = o }, nearer, stays)
  moment-Brings first (moment second heard request_lost e) d ht c h =
      let same = lost_event ticks heard e (process_of ticks heard request_lost second d) c.1 in
      (
        record {
          watches = rw same h.watches;
          no_answer = h.no_answer;
          no_other_answer = h.no_other_answer;
        },
        inr (omega arith),
        λ a. rw same a,
      )
  moment-Brings second (moment first heard request_lost e) d ht c h =
      let same = lost_event ticks heard e (process_of ticks heard request_lost first d) c.1 in
      (
        record {
          watches = rw same h.watches;
          no_answer = h.no_answer;
          no_other_answer = h.no_other_answer;
        },
        inr (omega arith),
        λ a. rw same a,
      )
  moment-Brings first (moment second heard delivered e) d ht c h = ground arith
  moment-Brings first (moment second heard answer_lost e) d ht c h = ground arith
  moment-Brings second (moment first heard delivered e) d ht c h = ground arith
  moment-Brings second (moment first heard answer_lost e) d ht c h = ground arith

  takes_over :
      (p : Side) (ms : List (Moment ticks)) (d : Nodes)
      → t * ticks < 2 ^ 63
      → AllCut p ms
      → IsAlone p d
      → ((d.imp p).status.status ≡ active) ⊎ (steps_left (d.imp p).checker.thread ≤ own_checks p ms)
      → ((take_moments ticks ms d).imp p).status.status ≡ active
  unfolding take_moments
  takes_over p [] d ht c h (inl a) = a
  takes_over p [] d ht c h (inr few) =
      let more = steps_left-watched t l (d.imp p).checker (d.imp p).status h.watches in ground arith
  takes_over p (m ∷ ms) d ht c h (inl a) =
      let (h', nearer, stays) = moment-Brings p m d ht c.0 h in
      takes_over p ms (take_moment ticks m d) ht c.1 h' (inl (stays a))
  takes_over p (m ∷ ms) d ht c h (inr few) =
      let (h', nearer, stays) = moment-Brings p m d ht c.0 h in
      elim nearer [
        | inl a ↦ takes_over p ms (take_moment ticks m d) ht c.1 h' (inl a)
        | inr fewer ↦
            takes_over p ms (take_moment ticks m d) ht c.1 h' (inr (omega (arith, fewer, few)))
      ]

  -- Let the check of one side be in its loop, with a limit of `t` milliseconds, the last sign of life
  -- of the peer be at `l`, and no answer of the peer be in hand. Then let anything happen to both
  -- whole processes on a network that is cut, so that no answer reaches this side and no call of the
  -- other one, but nobody start, release or switch this node. Once its check has made five steps,
  -- which read times more than the limit after `l`, this node is active.
  pub take_moments-active :
      (p : Side) (ms : List (Moment ticks)) (d : Nodes)
      → t * ticks < 2 ^ 63
      → IsAlone p d
      → AllCut p ms
      → 5 ≤ own_checks p ms
      → ((take_moments ticks ms d).imp p).status.status ≡ active
  take_moments-active p ms d ht h c enough =
      let few = steps_left-at_most (d.imp p).checker.thread in
      takes_over p ms d ht c h (inr (omega (arith, few, enough)))
