-- ===== src/Imp/Callers.antt =====
-- Several callers of `Initialize` at once (Sinboha/SinbohaImp.cpp): SinbohaImp has no lock of its own,
-- and a caller moves from one `Start` to the next, each of which holds the lock of its part.
pub mod Rest
pub mod Finished
pub mod Order
pub mod Single
use sinboha.Prelude.{ℕ, ◌==◌, Bool, true, false, not, if◌then◌else◌, List, [], ◌∷◌}
use sinboha.Types.{SinbohaError, error_ok, error_fail, is_error}
use sinboha.Imp.{
  Imp, Settings, Starts, start_service, start_primary, start_secondary, start_checker, initialize,
}

-- Where a caller of `Initialize` stands: before one of the four `Start`, or back with a result.
pub data InitializePc : Type 0 where
  at_service at_primary at_secondary at_checker : InitializePc
  returned : SinbohaError → InitializePc

-- One `Start`, with the test of its result.
unfoldable pub initialize_step : Settings → Starts → InitializePc → Imp → Imp × InitializePc
initialize_step a k at_service m =
    let (m', e) = start_service a k m in
    (m', if not (is_error error_ok e) then returned error_fail else at_primary)
initialize_step a k at_primary m =
    let (m', e) = start_primary a k m in
    (m', if not (is_error error_ok e) then returned error_fail else at_secondary)
initialize_step a k at_secondary m = let (m', ignored) = start_secondary a k m in (m', at_checker)
initialize_step a k at_checker m =
    let (m', e) = start_checker a k m in
    (m', returned (if not (is_error error_ok e) then error_fail else error_ok))
initialize_step a k (returned e) m = (m, returned e)

-- The object, and the callers by number.
pub record Callers : Type 0 where
  pub imp : Imp
  pub pc : ℕ → InitializePc

abbrev pub set_pc : ℕ → InitializePc → (ℕ → InitializePc) → ℕ → InitializePc
set_pc i p pc j = if j == i then p else pc j

-- The object and the place of this caller after a step of it.
abbrev pub put : ℕ → Imp × InitializePc → Callers → Callers
put i (m, p) c = record { imp = m; pc = set_pc i p c.pc }

abbrev pub is_new : InitializePc → Bool
is_new at_service = true
is_new _ = false

module _ (settings : ℕ → Settings) (starts : ℕ → Starts) where
  -- A step of this caller.
  unfoldable pub call_step : ℕ → Callers → Callers
  call_step i c = put i (initialize_step (settings i) (starts i) (c.pc i) c.imp) c

  unfoldable pub call_steps : List ℕ → Callers → Callers
  call_steps [] c = c
  call_steps (i ∷ is) c = call_steps is (call_step i c)

  -- The whole call of this caller at once.
  unfoldable pub call_whole : ℕ → Callers → Callers
  call_whole i c =
      let (m', e) = initialize (settings i) (starts i) c.imp in put i (m', returned e) c

  unfoldable pub call_wholes : List ℕ → Callers → Callers
  call_wholes [] c = c
  call_wholes (i ∷ is) c = call_wholes is (call_whole i c)

  -- The callers whose first step is among these, in the order of their first steps.
  unfoldable pub begun : List ℕ → Callers → List ℕ
  begun [] c = []
  begun (i ∷ is) c =
      let rest = begun is (call_step i c) in if is_new (c.pc i) then i ∷ rest else rest
