-- ===== src/Imp/Callers/Order.antt =====
-- Callers of `Initialize` (Sinboha/SinbohaImp.cpp) that do not wait for each other, against callers one
-- after the other.
use sinboha.Prelude.{
  ℕ, ◌≡◌, ◌≢◌, inl, inr, ap, sym, subst, ◌∙◌, ◌==◌, ==_iff, Bool-cases, false, List, [], ◌∷◌, arith,
}
use sinboha.Types.{error_fail}
use sinboha.Imp.{Imp, Settings, Starts}
use sinboha.Imp.Callers.{
  InitializePc, at_service, returned, initialize_step, Callers, set_pc, call_step, call_steps,
  call_whole, call_wholes, begun, is_new,
}
use sinboha.Imp.Callers.Rest.{
  IsInside, step-service, step-refused, step-starts, IsInside-cases, InitializePc-cases,
}
use sinboha.Imp.Callers.Finished.{
  set_pc-here, set_pc-there, finished, finished-outside, finished-step, finished-first,
  step-returned, finished-refused,
}

is_new-inside : (p : InitializePc) → IsInside p → is_new p ≡ false
is_new-inside p h = ground arith

module _ (settings : ℕ → Settings) (starts : ℕ → Starts) where
  -- No other caller is inside, and this one only while the service runs.
  abbrev IsReady : ℕ → Callers → Type 0
  IsReady w c =
      ((j : ℕ) → j ≢ w → ¬ IsInside (c.pc j)) × (IsInside (c.pc w) → c.imp.service.quit ≡ false)

  -- A step of the caller that is inside, or of any if none is.
  IsReady-own :
      (i : ℕ) (c : Callers)
      → ((j : ℕ) → j ≢ i → ¬ IsInside (c.pc j))
      → (let (m', p) = initialize_step (settings i) (starts i) (c.pc i) c.imp in
          IsInside p → m'.service.quit ≡ false)
      → IsReady i (call_step settings starts i c)
  unfolding call_step
  IsReady-own i c only runs =
      let (m', p) = initialize_step (settings i) (starts i) (c.pc i) c.imp in
      (
        λ j ne h. only j ne (subst IsInside (set_pc-there i j p c.pc ne) h),
        λ h. runs (subst IsInside (set_pc-here i p c.pc) h),
      )

  IsReady-inside :
      (i w : ℕ) (c : Callers)
      → IsReady w c
      → IsInside (c.pc i)
      → (i ≡ w) × IsReady i (call_step settings starts i c)
  IsReady-inside i w c (only, runs) h = elim (Bool-cases (i == w)) [
    | inl e ↦
        let same = (==_iff i w).0 e in
        let quits = runs (subst (λ x. IsInside (c.pc x)) same h) in
        (
          same,
          IsReady-own i c (λ j ne. only j (λ e'. ne (e' ∙ sym same)))
              (λ p.
                ap (λ s. s.quit) (step-service (settings i) (starts i) (c.pc i) c.imp h) ∙ quits),
        )
    | inr e ↦ absurd (only i (λ same. ground arith) h)
  ]

  IsReady-first :
      (i w : ℕ) (c : Callers)
      → IsReady w c
      → ¬ IsInside (c.pc w)
      → c.pc i ≡ at_service
      → IsReady i (call_step settings starts i c)
  IsReady-first i w c (only, runs) free new =
      IsReady-own i c
        (λ j ne h. elim (Bool-cases (j == w)) [
          | inl e ↦ free (subst (λ x. IsInside (c.pc x)) ((==_iff j w).0 e) h)
          | inr e ↦ only j (λ same. ground arith) h
        ])
        (rw new (step-starts (settings i) (starts i) c.imp))

  IsReady-beside :
      (i w : ℕ) (c : Callers)
      → IsReady w c
      → IsInside (c.pc w)
      → c.pc i ≡ at_service
      → (w ≢ i) × IsReady w (call_step settings starts i c)
  unfolding call_step
  IsReady-beside i w c (only, runs) h new =
      let other : (w ≢ i) = λ e. subst IsInside (ap c.pc e ∙ new) h in
      let x : Imp × InitializePc = initialize_step (settings i) (starts i) (c.pc i) c.imp in
      let refused : (x ≡ (c.imp, returned error_fail)) =
        rw new (step-refused (settings i) (starts i) c.imp (runs h)) in
      (
        other,
        (
          λ j ne h'. elim (Bool-cases (j == i)) [
            | inl e ↦
                subst IsInside
                  (ap (set_pc i x.1 c.pc) ((==_iff j i).0 e)
                    ∙ set_pc-here i x.1 c.pc
                    ∙ ap (λ y. y.1) refused)
                  h'
            | inr e ↦ only j ne (subst IsInside (set_pc-there i j x.1 c.pc (λ e'. ground arith)) h')
          ],
          λ h'. ap (λ y. y.0.service.quit) refused ∙ runs h,
        ),
      )

  -- The steps do what the rest of the call that is under way does, and then the new calls.
  steps-wholes :
      (is : List ℕ) (w : ℕ) (c : Callers)
      → IsReady w c
      → ((j : ℕ) → ¬ IsInside ((call_steps settings starts is c).pc j))
      → call_steps settings starts is c
        ≡ call_wholes settings starts (begun settings starts is c) (finished settings starts w c)
  unfolding call_steps call_wholes begun
  steps-wholes [] w c ready outside = sym (finished-outside settings starts w c (outside w))
  steps-wholes (i ∷ is) w c ready outside =
      let c' = call_step settings starts i c in
      let wholes = call_wholes settings starts (begun settings starts is c') in
      elim (InitializePc-cases (c.pc i)) [
        | inl inside ↦
            let (same, next) = IsReady-inside i w c ready inside in
            rw (is_new-inside (c.pc i) inside) (
              steps-wholes is i c' next outside
              ∙ ap wholes (
                  finished-step settings starts i c inside
                  ∙ ap (λ x. finished settings starts x c) same))
        | inr (inl new) ↦ elim (IsInside-cases (c.pc w)) [
          | inl inside ↦
              let (other, next) = IsReady-beside i w c ready inside new in
              rw new (
                steps-wholes is w c' next outside
                ∙ ap wholes (finished-refused settings starts w i c other (ready.1 inside) new))
          | inr none_inside ↦ rw new (
              steps-wholes is i c' (IsReady-first i w c ready none_inside new) outside
              ∙ ap wholes (
                  finished-first settings starts i c new
                  ∙ ap (call_whole settings starts i)
                      (sym (finished-outside settings starts w c none_inside))))
        ]
        | inr (inr (r, back)) ↦
            let same = step-returned settings starts i c r back in
            rw back (
              steps-wholes is w c' (subst (IsReady w) (sym same) ready) outside
              ∙ ap (λ x. wholes (finished settings starts w x)) same)
      ]

  -- Let any callers of `Initialize` take their steps in any order, from a moment at which none of them
  -- is inside to one at which none is. Then the object, and where each caller stands with its result,
  -- are as if the callers that began had made their calls one after the other, each at once, in the
  -- order of their first steps.
  pub call_steps-wholes :
      (is : List ℕ) (c : Callers)
      → ((j : ℕ) → ¬ IsInside (c.pc j))
      → ((j : ℕ) → ¬ IsInside ((call_steps settings starts is c).pc j))
      → call_steps settings starts is c ≡ call_wholes settings starts (begun settings starts is c) c
  call_steps-wholes is c before after =
      steps-wholes is 0 c (λ j ne. before j, λ h. absurd (before 0 h)) after
      ∙ ap (call_wholes settings starts (begun settings starts is c))
          (finished-outside settings starts 0 c (before 0))
