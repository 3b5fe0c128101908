-- ===== src/Imp/Callers/Finished.antt =====
-- The callers of `Initialize` (Sinboha/SinbohaImp.cpp) once one of them has done the rest of its call.
use sinboha.Prelude.{ℕ, ◌≡◌, ◌≢◌, ap, sym, ◌∙◌, fun_ext, false, arith}
use sinboha.Types.{SinbohaError, error_fail}
use sinboha.Imp.{Imp, Settings, Starts}
use sinboha.Imp.Callers.{
  InitializePc, put, at_service, returned, initialize_step, Callers, set_pc, call_step, call_whole,
}
use sinboha.Imp.Callers.Rest.{
  IsInside, finish, finish-outside, finish-step, finish-service, initialize-finish, step-refused,
  initialize-refused,
}

set_pc-same : (i : ℕ) (pc : ℕ → InitializePc) → set_pc i (pc i) pc ≡ pc
set_pc-same i pc = fun_ext λ j. ground arith

set_pc-twice :
    (i : ℕ) (p q : InitializePc) (pc : ℕ → InitializePc)
    → set_pc i p (set_pc i q pc) ≡ set_pc i p pc
set_pc-twice i p q pc = fun_ext λ j. ground arith

set_pc-swap :
    (i j : ℕ) (p q : InitializePc) (pc : ℕ → InitializePc)
    → i ≢ j
    → set_pc i p (set_pc j q pc) ≡ set_pc j q (set_pc i p pc)
set_pc-swap i j p q pc h = fun_ext λ x. ground arith

pub set_pc-here : (i : ℕ) (p : InitializePc) (pc : ℕ → InitializePc) → set_pc i p pc i ≡ p
set_pc-here i p pc = ground arith

pub set_pc-there :
    (i j : ℕ) (p : InitializePc) (pc : ℕ → InitializePc) → j ≢ i → set_pc i p pc j ≡ pc j
set_pc-there i j p pc h = ground arith

put-same : (i : ℕ) (c : Callers) → put i (c.imp, c.pc i) c ≡ c
put-same i c = ap (λ f. record c { pc = f }) (set_pc-same i c.pc)

put-twice : (i : ℕ) (x y : Imp × InitializePc) (c : Callers) → put i x (put i y c) ≡ put i x c
put-twice i x y c = ap (λ f. record { imp = x.0; pc = f }) (set_pc-twice i x.1 y.1 c.pc)

module _ (settings : ℕ → Settings) (starts : ℕ → Starts) where
  -- The state once this caller has done the rest of its call.
  unfoldable pub finished : ℕ → Callers → Callers
  finished w c = put w (finish (settings w) (starts w) (c.pc w) c.imp) c

  pub finished-outside : (w : ℕ) (c : Callers) → ¬ IsInside (c.pc w) → finished w c ≡ c
  unfolding finished
  finished-outside w c h =
      ap (λ x. put w x c) (finish-outside (settings w) (starts w) (c.pc w) c.imp h) ∙ put-same w c

  finished-put :
      (w : ℕ) (x : Imp × InitializePc) (c : Callers)
      → finished w (put w x c) ≡ put w (finish (settings w) (starts w) x.1 x.0) c
  unfolding finished
  finished-put w x c =
      ap (λ p. put w (finish (settings w) (starts w) p x.0) (put w x c)) (set_pc-here w x.1 c.pc)
      ∙ put-twice w (finish (settings w) (starts w) x.1 x.0) x c

  -- A step of a caller that is inside.
  pub finished-step :
      (w : ℕ) (c : Callers)
      → IsInside (c.pc w)
      → finished w (call_step settings starts w c) ≡ finished w c
  unfolding finished call_step
  finished-step w c h =
      finished-put w (initialize_step (settings w) (starts w) (c.pc w) c.imp) c
      ∙ ap (λ x. put w x c) (finish-step (settings w) (starts w) (c.pc w) c.imp h)

  -- The first step of a caller.
  pub finished-first :
      (w : ℕ) (c : Callers)
      → c.pc w ≡ at_service
      → finished w (call_step settings starts w c) ≡ call_whole settings starts w c
  unfolding call_step call_whole
  finished-first w c e =
      finished-put w (initialize_step (settings w) (starts w) (c.pc w) c.imp) c
      ∙ ap (λ x. put w x c) (rw e (initialize-finish (settings w) (starts w) c.imp))

  -- A step of a caller that has returned.
  pub step-returned :
      (i : ℕ) (c : Callers) (r : SinbohaError)
      → c.pc i ≡ returned r
      → call_step settings starts i c ≡ c
  unfolding call_step initialize_step
  step-returned i c r e =
      ap (λ p. put i (initialize_step (settings i) (starts i) p c.imp) c) e
      ∙ ap (λ p. put i (c.imp, p) c) (sym e)
      ∙ put-same i c

  -- The place of another caller does not matter.
  finished-beside :
      (w i : ℕ) (p : InitializePc) (c : Callers)
      → w ≢ i
      → finished w (put i (c.imp, p) c) ≡ put i ((finished w c).imp, p) (finished w c)
  unfolding finished
  finished-beside w i p c h =
      let rest = finish (settings w) (starts w) (c.pc w) c.imp in
      ap (λ q. put w (finish (settings w) (starts w) q c.imp) (put i (c.imp, p) c))
        (set_pc-there i w p c.pc h)
      ∙ ap (λ f. record { imp = rest.0; pc = f }) (set_pc-swap w i rest.1 p c.pc h)

  -- A caller that begins while another is inside.
  pub finished-refused :
      (w i : ℕ) (c : Callers)
      → w ≢ i
      → c.imp.service.quit ≡ false
      → c.pc i ≡ at_service
      → finished w (call_step settings starts i c) ≡ call_whole settings starts i (finished w c)
  unfolding finished call_step call_whole
  finished-refused w i c ne q e =
      let rest = finish (settings w) (starts w) (c.pc w) c.imp in
      let runs : (rest.0.service.quit ≡ false) =
        ap (λ s. s.quit) (finish-service (settings w) (starts w) (c.pc w) c.imp) ∙ q in
      ap (λ x. finished w (put i x c)) (rw e (step-refused (settings i) (starts i) c.imp q))
      ∙ finished-beside w i (returned error_fail) c ne
      ∙ ap (λ x. put i (x.0, returned x.1) (finished w c))
          (sym (initialize-refused (settings i) (starts i) rest.0 runs))
