-- ===== src/NetService.antt =====
-- The class SinbohaNetService of Sinboha/SinbohaNetService.h and SinbohaNetService.cpp: the thread that
-- runs the Thrift server. `Start` holds the lock of the object, and `Stop` holds it to its end. What
-- the library's server does, when it is told to stop and when it serves, is an argument.
pub mod Thread
use sinboha.Prelude.{Bool, true, false, Option, none, some, not, if◌then◌else◌, List, [], ◌∷◌}
use sinboha.Prelude.Int.{ℤ}
use sinboha.Types.{SinbohaError, error_ok, error_fail}
use sinboha.Launch.{Launch, launched, has_launched}
use sinboha.NetClient.{Outcome, returned, threw}

pub data ServicePc : Type 0 where
  no_thread : ServicePc  -- no thread was started
  at_test : ServicePc  -- the condition of the `while`
  at_serve : ServicePc  -- in `serve()`
  at_sleep : ServicePc  -- in a handler, which sleeps for a second
  finished : ServicePc  -- the thread has returned

-- The `TThreadedServer` over a `TServerSocket`: its port and its time limits.
pub record Server : Type 0 where
  pub port : ℤ
  pub timeout : ℤ

pub record NetService : Type 0 where
  pub quit : Bool
  pub server : Option Server
  pub thread : ServicePc

unfoldable pub new_net_service : NetService
new_net_service = record { quit = true; server = none; thread = no_thread }

unfoldable pub start : ℤ → ℤ → Launch → NetService → NetService × SinbohaError
start port timeout how s =
    let server : Option Server = some (record { port = port; timeout = timeout }) in
    if not s.quit
    then (s, error_fail)
    else if has_launched how
    then (record { quit = false; server = server; thread = at_test }, error_ok)
    else (record s { quit = true; server = server }, error_fail)

abbrev stopped : Outcome (Unit {0}) → Option SinbohaError
stopped (returned u) = none
stopped (threw e) = some error_fail

-- `Stop` up to its wait, where the server's `stop()` has the given outcome: `none` when it goes on to
-- wait for the thread.
unfoldable pub stop_request : Outcome (Unit {0}) → NetService → NetService × Option SinbohaError
stop_request outcome s =
    if s.quit then (s, some error_fail) else (record s { quit = true }, stopped outcome)

abbrev wait_thread : ServicePc → Option SinbohaError
wait_thread finished = some error_ok
wait_thread _ = none

-- The rest of `Stop`: `none` as long as the thread has not returned.
unfoldable pub stop_finish : NetService → Option SinbohaError
stop_finish s = wait_thread s.thread

abbrev served : Outcome (Unit {0}) → ServicePc
served (returned u) = at_test
served (threw e) = at_sleep

-- One step of `RPCService`, where `serve()`, if it comes back in this step, has the given outcome.
service_step : Outcome (Unit {0}) → ServicePc → NetService → NetService
service_step outcome no_thread s = s
service_step outcome at_test s = record s { thread = if not s.quit then at_serve else finished }
service_step outcome at_serve s = record s { thread = served outcome }
service_step outcome at_sleep s = record s { thread = at_test }
service_step outcome finished s = s

unfoldable pub thread_step : Outcome (Unit {0}) → NetService → NetService
unfolding service_step
thread_step outcome s = service_step outcome s.thread s

unfoldable pub thread_steps : List (Outcome (Unit {0})) → NetService → NetService
thread_steps [] s = s
thread_steps (o ∷ os) s = thread_steps os (thread_step o s)
