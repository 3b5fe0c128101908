-- ===== src/Imp/Callers/Rest.antt =====
-- One caller of `Initialize` (Sinboha/SinbohaImp.cpp) step by step, and the rest of its call.
use sinboha.Prelude.{◌≡◌, ◌⊎◌, inl, inr, refl, false, arith}
use sinboha.Types.{SinbohaError, error_fail}
use sinboha.NetService
use sinboha.Imp.{
  Imp, Settings, Starts, start_service, start_primary, start_secondary, start_checker, initialize,
}
use sinboha.Imp.Callers.{
  InitializePc, at_service, at_primary, at_secondary, at_checker, returned, initialize_step,
}

-- A caller inside `Initialize`, with the service started.
abbrev pub IsInside : InitializePc → Type 0
IsInside at_service = ⊥
IsInside (returned e) = ⊥
IsInside _ = Unit

module _ (a : Settings) (k : Starts) where
  -- The rest of the call.
  finish_checker : Imp → Imp × InitializePc
  finish_checker m = initialize_step a k at_checker m

  finish_secondary : Imp → Imp × InitializePc
  finish_secondary m = finish_checker (initialize_step a k at_secondary m).0

  after_primary : InitializePc → Imp → Imp × InitializePc
  after_primary at_secondary m = finish_secondary m
  after_primary p m = (m, p)

  unfoldable pub finish : InitializePc → Imp → Imp × InitializePc
  unfolding finish_checker finish_secondary after_primary
  finish at_service m = (m, at_service)
  finish at_primary m = let (m', p) = initialize_step a k at_primary m in after_primary p m'
  finish at_secondary m = finish_secondary m
  finish at_checker m = finish_checker m
  finish (returned e) m = (m, returned e)

  pub finish-outside : (p : InitializePc) (m : Imp) → ¬ IsInside p → finish p m ≡ (m, p)
  unfolding finish
  finish-outside at_service m h = refl
  finish-outside at_primary m h = absurd (h tt)
  finish-outside at_secondary m h = absurd (h tt)
  finish-outside at_checker m h = absurd (h tt)
  finish-outside (returned e) m h = refl

  pub finish-step :
      (p : InitializePc) (m : Imp)
      → IsInside p
      → let (m', p') = initialize_step a k p m in finish p' m' ≡ finish p m
  unfolding finish initialize_step start_primary start_secondary start_checker
  finish-step at_service m h = elim h [ ]
  finish-step (returned e) m h = elim h [ ]
  finish-step at_primary m h = ground arith
  finish-step at_secondary m h = refl
  finish-step at_checker m h = refl

  -- Only the first step touches the service.
  pub step-service :
      (p : InitializePc) (m : Imp) → IsInside p → (initialize_step a k p m).0.service ≡ m.service
  unfolding initialize_step start_primary start_secondary start_checker
  step-service at_service m h = elim h [ ]
  step-service (returned e) m h = elim h [ ]
  step-service at_primary m h = refl
  step-service at_secondary m h = refl
  step-service at_checker m h = refl

  pub finish-service : (p : InitializePc) (m : Imp) → (finish p m).0.service ≡ m.service
  unfolding finish initialize_step start_primary start_secondary start_checker
  finish-service at_service m = refl
  finish-service at_primary m = ground arith
  finish-service at_secondary m = refl
  finish-service at_checker m = refl
  finish-service (returned e) m = refl

  -- The whole call is its first step and the rest.
  pub initialize-finish :
      (m : Imp)
      → let (m', p) = initialize_step a k at_service m in
        finish p m' ≡ ((initialize a k m).0, returned (initialize a k m).1)
  unfolding finish initialize initialize_step start_service start_primary start_secondary
      start_checker NetService.start
  initialize-finish m = ground arith

  -- While the service runs, a call fails and changes nothing.
  pub step-refused :
      (m : Imp)
      → m.service.quit ≡ false
      → initialize_step a k at_service m ≡ (m, returned error_fail)
  unfolding initialize_step start_service NetService.start
  step-refused m h = ground arith

  pub initialize-refused : (m : Imp) → m.service.quit ≡ false → initialize a k m ≡ (m, error_fail)
  unfolding initialize NetService.start
  initialize-refused m h = ground arith

  -- A caller is inside only while the service runs.
  pub step-starts :
      (m : Imp)
      → let (m', p) = initialize_step a k at_service m in IsInside p → m'.service.quit ≡ false
  unfolding initialize_step start_service NetService.start
  step-starts m h = ground arith

-- Where a caller stands.
pub InitializePc-cases :
    (p : InitializePc) → IsInside p ⊎ ((p ≡ at_service) ⊎ ((e : SinbohaError) × (p ≡ returned e)))
InitializePc-cases at_service = inr (inl refl)
InitializePc-cases at_primary = inl tt
InitializePc-cases at_secondary = inl tt
InitializePc-cases at_checker = inl tt
InitializePc-cases (returned e) = inr (inr (e, refl))

pub IsInside-cases : (p : InitializePc) → IsInside p ⊎ (¬ IsInside p)
IsInside-cases at_service = inr (λ h. h)
IsInside-cases at_primary = inl tt
IsInside-cases at_secondary = inl tt
IsInside-cases at_checker = inl tt
IsInside-cases (returned e) = inr (λ h. h)
