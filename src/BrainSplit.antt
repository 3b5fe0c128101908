-- ===== src/BrainSplit.antt =====
-- The class SinbohaBrainSplit of Sinboha/SinbohaBrainSplit.h and SinbohaBrainSplit.cpp: a thread that
-- activates the node when the peer has given no sign of life for too long. `Start` and the first
-- block of `Stop` hold the lock of the object. The thread moves from one access to shared state to
-- the next, so that what other threads do can come between; `CheckPc` says where it stands.
pub mod Thread
use sinboha.Prelude.{ℕ, Bool, true, false, Option, none, some, List, [], not, if◌then◌else◌}
use sinboha.Prelude.Int.{ℤ, i64, ◌-ℤ◌, ltb_ℤ}
use sinboha.Types.{SinbohaError, error_ok, error_fail}
use sinboha.Chrono.{TimePoint, of_milliseconds}
use sinboha.Launch.{Launch, launched, has_launched}
use sinboha.StatusRep.{StatusRep, CallbackCall, get_peer_live_time, brain_split}

pub data CheckPc : Type 0 where
  no_thread : CheckPc  -- no thread was started
  at_test : CheckPc  -- the condition of the `while`
  at_wait : CheckPc  -- in `wait_for`
  at_check : CheckPc  -- before `PeerLiveTime()`
  at_compare : TimePoint → CheckPc  -- with the time read, before the second reading of the clock
  at_split : CheckPc  -- before the call of `BrainSplit()`
  finished : CheckPc  -- the thread has returned

pub record BrainSplit : Type 0 where
  pub quit : Bool
  pub switch_timeout : ℤ
  pub thread : CheckPc

-- The constructor leaves the time limit as it is in memory.
unfoldable pub new_brain_split : ℤ → BrainSplit
new_brain_split timeout = record { quit = true; switch_timeout = timeout; thread = no_thread }

-- The time limit is stored before the test whether the thread runs.
unfoldable pub start : ℤ → Launch → BrainSplit → BrainSplit × SinbohaError
start timeout launch b =
    let b₁ = record b { switch_timeout = timeout } in
    if not b₁.quit
    then (b₁, error_fail)
    else if has_launched launch
    then (record b₁ { quit = false; thread = at_test }, error_ok)
    else (record b₁ { quit = true }, error_fail)

-- The first block of `Stop`: `none` when it goes on to wait for the thread.
unfoldable pub stop_request : BrainSplit → BrainSplit × Option SinbohaError
stop_request b = if b.quit then (b, some error_fail) else (record b { quit = true }, none)

-- The rest of `Stop`, which waits for the thread: `none` as long as it has not returned.
abbrev wait_thread : CheckPc → Option SinbohaError
wait_thread finished = some error_ok
wait_thread _ = none

unfoldable pub stop_finish : BrainSplit → Option SinbohaError
stop_finish b = wait_thread b.thread

-- One step of `BrainSplitCheck`, at the reading `now` of the clock. `wait_for` comes back when its
-- time is over or it is notified, with the value of its predicate.
check_step :
    ℕ → TimePoint → CheckPc → BrainSplit → StatusRep → BrainSplit × StatusRep × List CallbackCall
check_step ticks now no_thread b r = (b, r, [])
check_step ticks now at_test b r =
    (record b { thread = if not b.quit then at_wait else finished }, r, [])
check_step ticks now at_wait b r =
    (record b { thread = if b.quit then finished else at_check }, r, [])
check_step ticks now at_check b r = (record b { thread = at_compare (get_peer_live_time r) }, r, [])
check_step ticks now (at_compare live) b r = (
  record b {
    thread =
        if ltb_ℤ (of_milliseconds ticks b.switch_timeout) (i64 (now -ℤ live))
        then at_split
        else at_test;
  },
  r,
  [],
)
check_step ticks now at_split b r =
    let (r', calls) = brain_split now r in (record b { thread = at_test }, r', calls)
check_step ticks now finished b r = (b, r, [])

unfoldable pub thread_step :
    ℕ → TimePoint → BrainSplit → StatusRep → BrainSplit × StatusRep × List CallbackCall
unfolding check_step
thread_step ticks now b r = check_step ticks now b.thread b r
