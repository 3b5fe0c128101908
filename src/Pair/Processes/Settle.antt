-- ===== src/Pair/Processes/Settle.antt =====
-- A primary heartbeat thread (Sinboha/SinbohaSync.cpp) on its way to the beginning of a heartbeat with
-- an open connection, from wherever it stands in its loop.
use sinboha.Prelude.{
  ℕ, ◌≡◌, ◌≢◌, ◌⊎◌, inl, refl, ◌∙◌, sym, subst, Bool, false, Option, none, some, List, [], ◌∷◌,
  ◌++◌, arith,
}
use sinboha.Prelude.Int.{ℤ, pos}
use sinboha.Types.{IsNamed}
use sinboha.Chrono.{TimePoint}
use sinboha.StatusRep.{StatusRep, try_activate}
use sinboha.NetClient
use sinboha.NetClient.{NetClient, Transport}
use sinboha.Sync
use sinboha.Sync.{BeatPc, Sync}
use sinboha.Process.Soundness.{Beats}
use sinboha.Pair.{Readings}
use sinboha.Pair.Threads.{Fate, delivered, request_lost, network}
use sinboha.Pair.Processes.Turns.{Local, local_step, local_run}
use sinboha.Pair.Processes.Turns.Steps.{
  started, started_lem, lost_lem, reset_lem, initialize_lem, query_lem, local_run_append,
}

-- The thread is in its loop or before it, nobody has stopped it, and there is an object for the
-- connection, connected or not.
abbrev pub IsBeating : Sync → Type 0
IsBeating s = (s.quit ≡ false) × Beats s.thread × (s.network ≢ none)

-- The thread begins a heartbeat over an open connection.
abbrev pub IsReady : Sync → Type 0
IsReady s =
    (s.quit ≡ false)
    × ((i : ℤ) × (s.thread ≡ Sync.at_query i))
    × ((c : NetClient) × (x : Transport) × (s.network ≡ some c) × (c.client ≡ some x))

IsAtQuery : Sync → Type 0
IsAtQuery s =
    (s.quit ≡ false)
    × ((i : ℤ) × (s.thread ≡ Sync.at_query i))
    × ((c : NetClient) × (s.network ≡ some c))

-- The node has followed at most an answer that was under way, at the reading `now`.
abbrev pub HasFollowed : TimePoint → StatusRep → StatusRep → Type 0
HasFollowed now a a' =
    (IsNamed a.status → IsNamed a'.status)
    × ((a'.change_time ≡ a.change_time) ⊎ (a'.change_time ≡ now))

-- The steps to the next `Query`; a call that is about to be made fails.
abbrev to_query : BeatPc → List Fate
to_query Sync.at_initialize = delivered ∷ delivered ∷ delivered ∷ []
to_query (Sync.at_test i) = delivered ∷ delivered ∷ []
to_query (Sync.at_wait i) = delivered ∷ []
to_query (Sync.at_query i) = []
to_query (Sync.at_call i t s) = request_lost ∷ delivered ∷ delivered ∷ delivered ∷ []
to_query (Sync.at_apply i b) = delivered ∷ delivered ∷ delivered ∷ []
to_query (Sync.at_reset i) = delivered ∷ delivered ∷ delivered ∷ []
to_query _ = []

-- Then one call fails, so that the connection is made anew.
abbrev pub settling : BeatPc → List Fate
settling pc = to_query pc ++ (delivered ∷ request_lost ∷ delivered ∷ delivered ∷ delivered ∷ [])

module _ (ticks : ℕ) (t : Readings) where
  abbrev Reached : StatusRep → StatusRep → Local → Type 0
  Reached a b l = IsAtQuery l.sync × (l.peer ≡ b) × HasFollowed t.now a l.node

  apply-HasFollowed :
      (y : Bool) (a : StatusRep) → HasFollowed t.now a (try_activate t.live t.now y a).0
  unfolding try_activate
  apply-HasFollowed y a = ground arith

  test_lem :
      (i : ℤ) (c : NetClient) (s : Sync) (a b : StatusRep)
      → Reached a b
          (local_run ticks t (delivered ∷ delivered ∷ []) (started (Sync.at_test i) c s a b))
  unfolding local_run local_step Sync.thread_step IsAtQuery
  test_lem i c s a b = ((refl, (s.heartbeat, refl), (c, refl)), refl, (λ n. n, inl refl))

  to_query_lem :
      (pc : BeatPc) (c : NetClient) (s : Sync) (a b : StatusRep)
      → Beats pc
      → Reached a b (local_run ticks t (to_query pc) (started pc c s a b))
  unfolding local_run local_step Sync.thread_step IsAtQuery
  to_query_lem Sync.at_initialize c s a b h =
      rw (initialize_lem ticks t c s a b) (test_lem (pos 0) _ s a b)
  to_query_lem (Sync.at_test i) c s a b h = test_lem i c s a b
  to_query_lem (Sync.at_wait i) c s a b h =
      ((refl, (s.heartbeat, refl), (c, refl)), refl, (λ n. n, inl refl))
  to_query_lem (Sync.at_query i) c s a b h =
      ((refl, (i, refl), (c, refl)), refl, (λ n. n, inl refl))
  to_query_lem (Sync.at_call i u st) c s a b h =
      rw (lost_lem ticks t i u st c.client c s a b, reset_lem ticks t i c s a b)
        (test_lem i _ s a b)
  to_query_lem (Sync.at_apply i y) c s a b h =
      ((refl, (s.heartbeat, refl), (c, refl)), refl, apply-HasFollowed y a)
  to_query_lem (Sync.at_reset i) c s a b h = rw (reset_lem ticks t i c s a b) (test_lem i _ s a b)
  to_query_lem Sync.no_thread c s a b h = elim h [ ]
  to_query_lem Sync.finished c s a b h = elim h [ ]

  -- The new connection has a client, and is there at the next `Query`.
  ready_lem :
      (i : ℤ) (c : NetClient) (s : Sync) (a b : StatusRep)
      → let c' = (NetClient.re_initialize (network ticks t.heard delivered) c (b, [])).0 in
        let l =
          local_run ticks t (delivered ∷ delivered ∷ []) (started (Sync.at_test i) c' s a b) in
        IsReady l.sync × (l.peer ≡ b) × (l.node ≡ a)
  unfolding local_run local_step Sync.thread_step NetClient.re_initialize
  ready_lem i c s a b = ((refl, (s.heartbeat, refl), (_, _, refl, refl)), refl, refl)

  reconnect_lem :
      (i : ℤ) (c : NetClient) (s : Sync) (a b : StatusRep)
      → let l =
          local_run ticks t
            (delivered ∷ request_lost ∷ delivered ∷ delivered ∷ delivered ∷ [])
            (started (Sync.at_query i) c s a b) in
        IsReady l.sync × (l.peer ≡ b) × (l.node ≡ a)
  unfolding local_run
  reconnect_lem i c s a b =
      rw
        (
          query_lem ticks t i c s a b,
          lost_lem ticks t i a.change_time a.status c.client c s a b,
          reset_lem ticks t i c s a b,
        )
        (ready_lem i c s a b)

  reach_lem :
      (l : Local) (n : Option NetClient)
      → l.sync.network ≡ n
      → IsBeating l.sync
      → Reached l.node l.peer (local_run ticks t (to_query l.sync.thread) l)
  reach_lem l none e (q, h, connected) = elim (connected e) [ ]
  reach_lem l (some c) e (q, h, connected) =
      subst (λ k. Reached l.node l.peer (local_run ticks t (to_query l.sync.thread) k))
        (sym (started_lem ticks t l.sync.thread c l q refl e))
        (to_query_lem l.sync.thread c l.sync l.node l.peer h)

  abbrev reconnect : List Fate
  reconnect = delivered ∷ request_lost ∷ delivered ∷ delivered ∷ delivered ∷ []

  abbrev Renewed : StatusRep → StatusRep → Local → Type 0
  Renewed a b l = IsReady l.sync × (l.peer ≡ b) × (l.node ≡ a)

  renew_lem : (l : Local) → IsAtQuery l.sync → Renewed l.node l.peer (local_run ticks t reconnect l)
  unfolding IsAtQuery
  renew_lem l (q, (i, at), (c, n)) =
      subst (λ k. Renewed l.node l.peer (local_run ticks t reconnect k))
        (sym (started_lem ticks t (Sync.at_query i) c l q at n))
        (reconnect_lem i c l.sync l.node l.peer)

  -- From wherever the thread stands, and whatever becomes of its answer under way, these steps bring
  -- it to the beginning of a heartbeat with an open connection, and leave the peer as it is.
  pub settling-IsReady :
      (l : Local)
      → IsBeating l.sync
      → let l' = local_run ticks t (settling l.sync.thread) l in
        IsReady l'.sync × (l'.peer ≡ l.peer) × HasFollowed t.now l.node l'.node
  settling-IsReady l beating =
      let (at_query, same, followed) = reach_lem l l.sync.network refl beating in
      let (ready, kept, node) = renew_lem (local_run ticks t (to_query l.sync.thread) l) at_query in
      rw (local_run_append ticks t (to_query l.sync.thread) reconnect l)
        (ready, kept ∙ same, rw node followed)
