-- ===== src/BrainSplit/Thread.antt =====
-- The thread of SinbohaBrainSplit (Sinboha/SinbohaBrainSplit.cpp): when it starts, what one round of
-- its loop does to the node, and that it ends after `Stop`.

use sinboha.Prelude.{
  ℕ, suc, ◌+◌, ◌-◌, ◌*◌, ◌^◌, ◌≤◌, ◌<◌, ◌≡◌, ◌≢◌, refl, ◌↔◌, inl, inr, true, false, none, some, ◌∙◌,
  List, [], ◌∷◌, arith, if◌then◌else◌, Bool-cases, ltb,
}
use sinboha.Prelude.Int.{ℤ, pos, i64, ◌-ℤ◌, ltb_ℤ, i64-ℤ, i64-of_range}
use sinboha.Types.{error_ok}
use sinboha.Chrono.{TimePoint, of_milliseconds}
use sinboha.Launch.{Launch, launched}
use sinboha.StatusRep.{StatusRep, get_peer_live_time, brain_split}
use sinboha.BrainSplit.{
  CheckPc, no_thread, at_test, at_wait, at_check, at_compare, at_split, finished, BrainSplit, start,
  stop_request, stop_finish, thread_step,
}

-- `Start` succeeds exactly if no thread is wanted yet and the library starts one; otherwise the
-- object keeps its thread and its flag, but takes over the new time limit.
pub start-check_iff :
    (timeout : ℤ) (launch : Launch) (b : BrainSplit)
    → let (b', e) = start timeout launch b in
      ((e ≡ error_ok) ↔ ((b.quit ≡ true) × (launch ≡ launched)))
      × (e ≡ error_ok → b' ≡ record { quit = false; switch_timeout = timeout; thread = at_test })
      × (e ≢ error_ok → b' ≡ record b { switch_timeout = timeout })
unfolding start
start-check_iff timeout how b =
    ((λ h. ground arith, λ h. ground arith), λ h. ground arith, λ h. ground arith)

-- The steps that are left at most before the thread looks at the flag.
abbrev steps_left : CheckPc → ℕ
steps_left no_thread = 0
steps_left finished = 0
steps_left at_test = 1
steps_left at_wait = 1
steps_left at_check = 4
steps_left (at_compare live) = 3
steps_left at_split = 2

thread_step-steps_left :
    (ticks : ℕ) (now : TimePoint) (b : BrainSplit) (r : StatusRep)
    → b.quit ≡ true
    → ((thread_step ticks now b r).0.quit ≡ true)
      × ((b.thread ≢ no_thread) → (thread_step ticks now b r).0.thread ≢ no_thread)
      × (steps_left (thread_step ticks now b r).0.thread ≤ steps_left b.thread - 1)
unfolding thread_step
thread_step-steps_left ticks now b r h = ground arith

-- What the thread and the other threads of the process do, in the order in which it happens: a step
-- of the thread, or a change of the node by somebody else.
pub data Turn : Type 0 where
  by_thread : TimePoint → Turn
  by_other : StatusRep → Turn

unfoldable pub take_turns : ℕ → List Turn → BrainSplit → StatusRep → BrainSplit × StatusRep
take_turns ticks [] b r = (b, r)
take_turns ticks (by_thread now ∷ ts) b r =
    let (b', r', calls) = thread_step ticks now b r in take_turns ticks ts b' r'
take_turns ticks (by_other r' ∷ ts) b r = take_turns ticks ts b r'

abbrev pub thread_turns : List Turn → ℕ
thread_turns [] = 0
thread_turns (by_thread now ∷ ts) = suc (thread_turns ts)
thread_turns (by_other r ∷ ts) = thread_turns ts

take_turns-finished :
    (ticks : ℕ) (ts : List Turn) (b : BrainSplit) (r : StatusRep)
    → b.quit ≡ true
    → b.thread ≢ no_thread
    → steps_left b.thread ≤ thread_turns ts
    → (take_turns ticks ts b r).0.thread ≡ finished
unfolding take_turns
take_turns-finished ticks [] b r q t h = ground arith
take_turns-finished ticks (by_other r' ∷ ts) b r q t h = take_turns-finished ticks ts b r' q t h
take_turns-finished ticks (by_thread now ∷ ts) b r q t h =
    let (b', r', calls) = thread_step ticks now b r in
    let step = thread_step-steps_left ticks now b r q in
    take_turns-finished ticks ts b' r' step.0 (step.1 t) (omega (arith, step.2))

thread_step-quit :
    (ticks : ℕ) (now : TimePoint) (b : BrainSplit) (r : StatusRep)
    → (thread_step ticks now b r).0.quit ≡ b.quit
unfolding thread_step
thread_step-quit ticks now b r = ground arith

-- The thread leaves the flag alone.
pub take_turns-quit :
    (ticks : ℕ) (ts : List Turn) (b : BrainSplit) (r : StatusRep)
    → (take_turns ticks ts b r).0.quit ≡ b.quit
unfolding take_turns
take_turns-quit ticks [] b r = refl
take_turns-quit ticks (by_other r' ∷ ts) b r = take_turns-quit ticks ts b r'
take_turns-quit ticks (by_thread now ∷ ts) b r =
    let (b', r', calls) = thread_step ticks now b r in
    take_turns-quit ticks ts b' r' ∙ thread_step-quit ticks now b r

steps_left-le : (p : CheckPc) → steps_left p ≤ 4
steps_left-le p = ground arith

-- Once `Stop` has set the flag, four more steps of the thread end it, at the latest, whatever the
-- other threads do to the node in between; then `Stop` returns success, with the flag set.
pub stop-check_finished :
    (ticks : ℕ) (ts : List Turn) (b : BrainSplit) (r : StatusRep)
    → b.thread ≢ no_thread
    → b.quit ≡ false
    → 4 ≤ thread_turns ts
    → let (b', e) = stop_request b in
      (e ≡ none)
      × (stop_finish (take_turns ticks ts b' r).0 ≡ some error_ok)
      × ((take_turns ticks ts b' r).0.quit ≡ true)
unfolding stop_request stop_finish
stop-check_finished ticks ts b r t q h =
    let b' = record b { quit = true } in
    let short = steps_left-le b.thread in
    let done = take_turns-finished ticks ts b' r refl t (omega arith) in
    rw q (refl, rw done, take_turns-quit ticks ts b' r)

-- One round of the loop: its steps, between which other threads put the node into the state `seen`
-- before its sign of life is read, and into the state `met` before the thread acts on it.
abbrev pub round : TimePoint → TimePoint → StatusRep → StatusRep → List Turn
round compared split seen met =
    by_thread compared
    ∷ by_thread compared
    ∷ by_other seen
    ∷ by_thread compared
    ∷ by_thread compared
    ∷ by_other met
    ∷ by_thread split
    ∷ []

-- The test of the loop, between times and a limit that are not negative and fit their types, is the
-- comparison that is meant.
pub silent_lem :
    (ticks n l t : ℕ)
    → n < 2 ^ 63
    → l < 2 ^ 63
    → t * ticks < 2 ^ 63
    → ltb_ℤ (of_milliseconds ticks (pos t)) (i64 (pos n -ℤ pos l)) ≡ ltb (l + t * ticks) n
unfolding of_milliseconds
silent_lem ticks n l t hn hl ht =
    rw (i64-ℤ n l hn hl, i64-of_range (pos (t * ticks)) ht (omega arith))
      (unfold ◌-ℤ◌ in ground arith)

-- The object while its thread is at the test of its loop and is not told to quit.
abbrev pub running : ℤ → BrainSplit
running timeout = record { quit = false; switch_timeout = timeout; thread = at_test }

round-test :
    (ticks : ℕ) (timeout : ℤ) (compared split : TimePoint) (r seen met : StatusRep)
    → (take_turns ticks (round compared split seen met) (running timeout) r).1 ≡ (
        if ltb_ℤ (of_milliseconds ticks timeout) (i64 (compared -ℤ seen.peer_live_time))
        then (brain_split split met).0
        else met)
unfolding take_turns thread_step get_peer_live_time
round-test ticks timeout compared split r seen met =
    elim (Bool-cases
      (ltb_ℤ (of_milliseconds ticks timeout) (i64 (compared -ℤ seen.peer_live_time)))) [
        | inl yes_silent ↦ rw yes_silent
        | inr not_silent ↦ rw not_silent
      ]

-- A round that is not told to quit makes the node active exactly if, at its reading of the clock,
-- the sign of life that it read was older than the time limit; otherwise it leaves the node alone.
-- What the other threads did to the node in between is kept, or overruled, accordingly.
pub round_lem :
    (ticks n l t : ℕ) (split : TimePoint) (r seen met : StatusRep)
    → seen.peer_live_time ≡ pos l
    → n < 2 ^ 63
    → l < 2 ^ 63
    → t * ticks < 2 ^ 63
    → (take_turns ticks (round (pos n) split seen met) (running (pos t)) r).1
      ≡ (if ltb (l + t * ticks) n then (brain_split split met).0 else met)
round_lem ticks n l t split r seen met live hn hl ht =
    round-test ticks (pos t) (pos n) split r seen met ∙ rw (live, silent_lem ticks n l t hn hl ht)
