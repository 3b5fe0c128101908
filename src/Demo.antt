-- ===== src/Demo.antt =====
-- The demonstration program (TestSinboha/Source.cpp): its callback, which prints, and `main`, which
-- polls the keyboard. The values of the command line, with what `atoi` makes of them, are arguments.
pub mod Screen
use sinboha.Prelude.{ℕ, ◌==◌, String, some, List, [], ◌∷◌, ◌++◌, not, if◌then◌else◌}
use sinboha.Types.{SinbohaStatus, pending, active, standby, is_status, error_ok, is_error}
use sinboha.Chrono.{TimePoint}
use sinboha.StatusRep.{Bytes, CallbackId, CallbackCall, on_status_change, on_receive_data}
use sinboha.NetClient.{Remote, Outcome}
use sinboha.Imp.{Settings, Starts}
use sinboha.Imp.Interface
use sinboha.Process.{Process, Event, ReleasePc, outside, initializes, releases, registers, happen}

-- A line on the screen: words of the program, or data of the peer.
pub data Line : Type 0 where
  words : String → Line
  received : Bytes → Line

abbrev pub print_status : SinbohaStatus → List Line
print_status s =
    if is_status pending s
    then words "PENDING" ∷ []
    else if is_status active s
    then words "ACTIVE" ∷ []
    else if is_status standby s
    then words "STANDBY" ∷ []
    else []

-- The methods of `CallBack`.
abbrev pub print_call : CallbackCall → List Line
print_call (on_status_change c s) = print_status s
print_call (on_receive_data c b) = received b ∷ []

unfoldable pub print_calls : List CallbackCall → List Line
print_calls [] = []
print_calls (call ∷ calls) = print_call call ++ print_calls calls

-- Where `main` stands: in its loop, in `Release`, or behind the loop.
pub data MainPc : Type 0 where
  polling releasing ended : MainPc

module _ (R : Remote) where
  pub record Demo : Type 0 where
    pub process : Process R
    pub pc : MainPc

  -- A key that `_getch` gives, a step of `main` in `Release`, and what the threads, the peer and the
  -- network do.
  pub data Moment : Type 0 where
    pressed : ℕ → TimePoint → Moment
    waits : Outcome (Unit {0}) → Moment
    beside : Event R → Moment

  module _ (ticks : ℕ) where
    -- `main` up to its loop. It does not look at the result of `Initialize`.
    unfoldable pub begin : Settings → Starts → CallbackId → Process R → Demo × List Line
    begin a k c p =
        let (p₁, calls) = happen R ticks (initializes a k) p in
        let (p₂, calls') = happen R ticks (registers (some c)) p₁ in
        (record { process = p₂; pc = polling }, print_calls (calls ++ calls'))

    -- The key s.
    unfoldable pub press_switch : TimePoint → Demo → Demo × List Line
    press_switch now d =
        let (imp', rc, calls) = Interface.switch now d.process.imp in
        (
          record d { process = record d.process { imp = imp' } },
          words "Switching to Standby"
              ∷ (print_calls calls
                  ++ (if not (is_error rc error_ok)
                      then words "Need to switch on Active node" ∷ []
                      else [])),
        )

    -- The body of the loop, for a key.
    unfoldable pub press : ℕ → TimePoint → Demo → Demo × List Line
    unfolding press_switch
    press key now d =
        let (d', lines) = if key == 115 then press_switch now d else (d, []) in
        if key == 27
        then (record d' { pc = releasing }, lines ++ words "Exiting" ∷ [])
        else (d', lines)

    abbrev after_release : ReleasePc → MainPc
    after_release outside = ended
    after_release _ = releasing

    unfoldable pub demo_step : Moment → MainPc → Demo → Demo × List Line
    unfolding press
    demo_step (pressed key now) polling d = press key now d
    demo_step (waits outcome) releasing d =
        let (p', calls) = happen R ticks (releases outcome) d.process in
        (record { process = p'; pc = after_release p'.release_pc }, print_calls calls)
    demo_step (beside e) pc d =
        let (p', calls) = happen R ticks e d.process in
        (record d { process = p' }, print_calls calls)
    demo_step _ _ d = (d, [])

    unfoldable pub take_step : Moment → Demo → Demo × List Line
    unfolding demo_step
    take_step m d = demo_step m d.pc d

    unfoldable pub take_steps : List Moment → Demo → Demo × List Line
    take_steps [] d = (d, [])
    take_steps (m ∷ ms) d =
        let (d', lines) = take_step m d in
        let (d'', rest) = take_steps ms d' in (d'', lines ++ rest)
