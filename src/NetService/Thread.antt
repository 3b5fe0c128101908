-- ===== src/NetService/Thread.antt =====
-- The thread of SinbohaNetService (Sinboha/SinbohaNetService.cpp): when it starts, that no exception
-- of the server ends it, and that it ends after `Stop`.
use sinboha.Prelude.{
  ℕ, ◌-◌, ◌≤◌, ◌≡◌, ◌≢◌, refl, ◌↔◌, ◌⊎◌, true, false, none, some, List, [], ◌∷◌, arith, length, ◌∙◌,
}
use sinboha.Prelude.Int.{ℤ}
use sinboha.Types.{error_ok, error_fail}
use sinboha.Launch.{Launch, launched}
use sinboha.NetClient.{Outcome, returned}
use sinboha.NetService.{
  ServicePc, no_thread, at_test, at_serve, at_sleep, finished, NetService, start, stop_request,
  stop_finish, thread_step, thread_steps,
}

-- `Start` succeeds exactly if the service is not wanted yet and the library starts the thread; if it
-- fails, thread and flag are as they were.
pub start-service_iff :
    (port timeout : ℤ) (how : Launch) (s : NetService)
    → let (s', e) = start port timeout how s in
      ((e ≡ error_ok) ↔ ((s.quit ≡ true) × (how ≡ launched)))
      × (e ≡ error_ok → (s'.quit ≡ false) × (s'.thread ≡ at_test))
      × (e ≢ error_ok → (e ≡ error_fail) × (s'.quit ≡ s.quit) × (s'.thread ≡ s.thread))
unfolding start
start-service_iff port timeout how s =
    ((λ h. ground arith, λ h. ground arith), λ h. ground arith, λ h. ground arith)

-- The thread is in its loop.
abbrev IsLooping : ServicePc → Type 0
IsLooping at_test = Unit
IsLooping at_serve = Unit
IsLooping at_sleep = Unit
IsLooping _ = ⊥

thread_step-IsLooping :
    (o : Outcome (Unit {0})) (s : NetService)
    → s.quit ≡ false
    → IsLooping s.thread
    → ((thread_step o s).quit ≡ false) × IsLooping (thread_step o s).thread
unfolding thread_step
thread_step-IsLooping o s q h = ground arith

steps-IsLooping :
    (os : List (Outcome (Unit {0}))) (s : NetService)
    → s.quit ≡ false
    → IsLooping s.thread
    → ((thread_steps os s).quit ≡ false) × IsLooping (thread_steps os s).thread
unfolding thread_steps
steps-IsLooping [] s q h = (q, h)
steps-IsLooping (o ∷ os) s q h =
    let next = thread_step-IsLooping o s q h in steps-IsLooping os (thread_step o s) next.0 next.1

-- As long as `Stop` is not called, the service goes on whatever `serve()` does: after any number of
-- returns and exceptions, at most two steps of the thread lead back into `serve()`.
pub thread_steps-at_serve :
    (os : List (Outcome (Unit {0}))) (o p : Outcome (Unit {0})) (s : NetService)
    → s.quit ≡ false
    → IsLooping s.thread
    → let s' = thread_steps os s in
      (s'.thread ≡ at_serve)
      ⊎ ((thread_step o s').thread ≡ at_serve)
      ⊎ ((thread_step p (thread_step o s')).thread ≡ at_serve)
unfolding thread_step
thread_steps-at_serve os o p s q h = ground (arith, steps-IsLooping os s q h)

abbrev steps_left : ServicePc → ℕ
steps_left no_thread = 0
steps_left finished = 0
steps_left at_test = 1
steps_left at_sleep = 2
steps_left at_serve = 3

thread_step-steps_left :
    (o : Outcome (Unit {0})) (s : NetService)
    → s.quit ≡ true
    → s.thread ≢ no_thread
    → ((thread_step o s).quit ≡ true)
      × ((thread_step o s).thread ≢ no_thread)
      × (steps_left (thread_step o s).thread ≤ steps_left s.thread - 1)
unfolding thread_step
thread_step-steps_left o s q h = ground arith

thread_steps-finished :
    (os : List (Outcome (Unit {0}))) (s : NetService)
    → s.quit ≡ true
    → s.thread ≢ no_thread
    → steps_left s.thread ≤ length os
    → (thread_steps os s).thread ≡ finished
unfolding thread_steps
thread_steps-finished [] s q h l = ground arith
thread_steps-finished (o ∷ os) s q h l =
    let (quits, runs, fewer) = thread_step-steps_left o s q h in
    thread_steps-finished os (thread_step o s) quits runs (omega (arith, fewer))

thread_step-quit : (o : Outcome (Unit {0})) (s : NetService) → (thread_step o s).quit ≡ s.quit
unfolding thread_step
thread_step-quit o s = ground arith

pub thread_steps-quit :
    (os : List (Outcome (Unit {0}))) (s : NetService) → (thread_steps os s).quit ≡ s.quit
unfolding thread_steps
thread_steps-quit [] s = refl
thread_steps-quit (o ∷ os) s = thread_steps-quit os (thread_step o s) ∙ thread_step-quit o s

steps_left-le : (p : ServicePc) → steps_left p ≤ 3
steps_left-le p = ground arith

-- If the server takes the call of its `stop()`, then after `Stop` has set the flag and `serve()` has
-- come back, by return or by exception, the thread ends, after three steps at most; then `Stop`
-- returns success. If `stop()` throws, `Stop` fails at once, with the flag set.
pub stop-service_finished :
    (outcome : Outcome (Unit {0})) (os : List (Outcome (Unit {0}))) (s : NetService)
    → s.quit ≡ false
    → s.thread ≢ no_thread
    → 3 ≤ length os
    → let (s', e) = stop_request outcome s in
      (s'.quit ≡ true)
      × (outcome ≡ returned tt → (e ≡ none) × (stop_finish (thread_steps os s') ≡ some error_ok))
      × (outcome ≢ returned tt → e ≡ some error_fail)
unfolding stop_request stop_finish
stop-service_finished outcome os s q h l =
    let short = steps_left-le s.thread in
    let done = thread_steps-finished os (record s { quit = true }) refl h (omega arith) in
    rw q (refl, λ o. (ground arith, rw done), λ o. ground arith)
