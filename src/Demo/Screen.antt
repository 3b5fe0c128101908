-- ===== src/Demo/Screen.antt =====
-- What the screen of the demonstration program (TestSinboha/Source.cpp) says of the status of the node.
use text.Mathlib.Text.{◌==◌}
use sinboha.Prelude.{
  ℕ, ◌≡◌, refl, ap, sym, ◌∙◌, subst, String, some, List, [], ◌∷◌, ◌++◌, arith, if◌then◌else◌,
}
use sinboha.Types.{SinbohaStatus, pending, active, standby}
use sinboha.Chrono.{TimePoint}
use sinboha.StatusRep
use sinboha.StatusRep.{CallbackId, CallbackCall, StatusRep, on_status_change, on_receive_data}
use sinboha.StatusRep.Changes.{last_reported, perform_all-last_reported, perform_all-keeps}
use sinboha.StatusRep.Names.{AllSettled, perform_all-AllSettled}
use sinboha.NetClient.{Remote}
use sinboha.Imp.Interface
use sinboha.Process.{Process, Event, releases, happen}
use sinboha.Process.Methods.{methods, happen-perform}
use sinboha.Process.Changes.{KeepsListener, methods-AllKeepCallback}
use sinboha.Demo.{
  Line, words, received, print_calls, MainPc, polling, releasing, ended, Demo, Moment, pressed,
  waits, beside, take_step, take_steps, press, press_switch, demo_step,
}

-- The status that somebody who reads the screen believes in: the last one that it shows.
abbrev pub read_words : SinbohaStatus → String → SinbohaStatus
read_words s t =
    if t == "PENDING"
    then pending
    else if t == "ACTIVE"
    then active
    else if t == "STANDBY"
    then standby
    else s

unfoldable pub last_shown : SinbohaStatus → List Line → SinbohaStatus
last_shown s [] = s
last_shown s (words t ∷ lines) = last_shown (read_words s t) lines
last_shown s (received b ∷ lines) = last_shown s lines

last_shown-append :
    (s : SinbohaStatus) (xs ys : List Line)
    → last_shown s (xs ++ ys) ≡ last_shown (last_shown s xs) ys
unfolding last_shown
last_shown-append s [] ys = refl
last_shown-append s (words t ∷ xs) ys = last_shown-append (read_words s t) xs ys
last_shown-append s (received b ∷ xs) ys = last_shown-append s xs ys

-- The callback prints the statuses with names as they are.
last_shown-print_calls :
    (s : SinbohaStatus) (calls : List CallbackCall)
    → AllSettled calls
    → last_shown s (print_calls calls) ≡ last_reported s calls
unfolding last_shown print_calls last_reported
last_shown-print_calls s [] h = refl
last_shown-print_calls s (on_status_change c pending ∷ calls) h =
    last_shown-print_calls pending calls h.1
last_shown-print_calls s (on_status_change c active ∷ calls) h =
    last_shown-print_calls active calls h.1
last_shown-print_calls s (on_status_change c standby ∷ calls) h =
    last_shown-print_calls standby calls h.1
last_shown-print_calls s (on_status_change c (SinbohaStatus.other_status n) ∷ calls) h =
    ground arith
last_shown-print_calls s (on_receive_data c b ∷ calls) h = last_shown-print_calls s calls h

module _ (R : Remote) (ticks : ℕ) where
  happen-last_shown :
      (e : Event R) (p : Process R) {c : CallbackId}
      → p.imp.status.callback ≡ some c
      → KeepsListener R ticks e
      → let (p', calls) = happen R ticks e p in
        (last_shown p.imp.status.status (print_calls calls) ≡ p'.imp.status.status)
        × (p'.imp.status.callback ≡ some c)
  happen-last_shown e p h k =
      let ms = methods R ticks e p in
      let r = p.imp.status in
      let kept = methods-AllKeepCallback R ticks e p k in
      let same = happen-perform R ticks e p in
      let named =
        subst AllSettled (sym (ap (λ (x : StatusRep × List CallbackCall). x.1) same))
          (perform_all-AllSettled ms r) in
      let status : (StatusRep × List CallbackCall → SinbohaStatus) = λ x. x.0.status in
      (
        last_shown-print_calls r.status (happen R ticks e p).1 named
            ∙ ap (λ (x : StatusRep × List CallbackCall). last_reported r.status x.1) same
            ∙ perform_all-last_reported ms r h kept
            ∙ sym (ap status same),
        ap (λ (x : StatusRep × List CallbackCall). x.0.callback) same
            ∙ perform_all-keeps ms r h kept,
      )

  -- Nobody but `main` registers a callback.
  abbrev pub KeepsScreen : Moment R → Type 0
  KeepsScreen (pressed key now) = Unit
  KeepsScreen (waits outcome) = Unit
  KeepsScreen (beside e) = KeepsListener R ticks e

  abbrev pub AllKeepScreen : List (Moment R) → Type 0
  AllKeepScreen [] = Unit
  AllKeepScreen (m ∷ ms) = KeepsScreen m × AllKeepScreen ms

  -- The screen and the callback after a step.
  abbrev IsShown : CallbackId → SinbohaStatus → Demo R × List Line → Type 0
  IsShown c s (d, lines) =
      (last_shown s lines ≡ d.process.imp.status.status) × (d.process.imp.status.callback ≡ some c)

  press-IsShown :
      (key : ℕ) (now : TimePoint) (d : Demo R) {c : CallbackId}
      → d.process.imp.status.callback ≡ some c
      → IsShown c d.process.imp.status.status (press R ticks key now d)
  unfolding press press_switch Interface.switch StatusRep.switch print_calls last_shown
  press-IsShown key now d h = ground arith

  step-IsShown :
      (m : Moment R) (pc : MainPc) (d : Demo R) {c : CallbackId}
      → d.process.imp.status.callback ≡ some c
      → KeepsScreen m
      → IsShown c d.process.imp.status.status (demo_step R ticks m pc d)
  unfolding demo_step last_shown
  step-IsShown (pressed key now) polling d h k = press-IsShown key now d h
  step-IsShown (pressed key now) releasing d h k = (refl, h)
  step-IsShown (pressed key now) ended d h k = (refl, h)
  step-IsShown (waits outcome) polling d h k = (refl, h)
  step-IsShown (waits outcome) releasing d h k = happen-last_shown (releases outcome) d.process h tt
  step-IsShown (waits outcome) ended d h k = (refl, h)
  step-IsShown (beside e) pc d h k = happen-last_shown e d.process h k

  -- After any keys, steps of `Release` and anything else that happens, with the callback of `main`
  -- registered and no other caller that exchanges or removes it, the last status on the screen is the
  -- status of the node; if none was shown, the node has the status it began with.
  pub take_steps-last_shown :
      (ms : List (Moment R)) (d : Demo R) {c : CallbackId}
      → d.process.imp.status.callback ≡ some c
      → AllKeepScreen ms
      → let (d', lines) = take_steps R ticks ms d in
        last_shown d.process.imp.status.status lines ≡ d'.process.imp.status.status
  unfolding take_steps take_step last_shown
  take_steps-last_shown [] d h k = refl
  take_steps-last_shown (m ∷ ms) d h k =
      let step = step-IsShown m d.pc d h k.0 in
      let rest = take_steps-last_shown ms (take_step R ticks m d).0 step.1 k.1 in
      rw last_shown-append (rw step.0 rest)
