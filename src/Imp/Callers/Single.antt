-- ===== src/Imp/Callers/Single.antt =====
-- How many of the callers of `Initialize` (Sinboha/SinbohaImp.cpp) succeed.
use sinboha.Prelude.{
  ℕ, ◌≡◌, ◌≢◌, ◌⊎◌, inl, inr, Bool, ap, subst, sym, ◌∙◌, true, false, List, [], ◌∷◌, arith,
}
use sinboha.Types.{SinbohaError, error_ok, error_fail}
use sinboha.NetService
use sinboha.Sync
use sinboha.BrainSplit
use sinboha.Imp.{Imp, Settings, Starts, initialize}
use sinboha.Imp.Callers.{
  InitializePc, at_service, returned, Callers, set_pc, call_steps, call_whole, call_wholes, begun,
}
use sinboha.Imp.Callers.Rest.{IsInside, initialize-refused}
use sinboha.Imp.Callers.Order.{call_steps-wholes}

-- The service runs once a caller has succeeded, and no other caller has.
abbrev IsSingle : Callers → Type 0
IsSingle c =
    (j : ℕ)
    → c.pc j ≡ returned error_ok
    → (c.imp.service.quit ≡ false) × ((i : ℕ) → c.pc i ≡ returned error_ok → i ≡ j)

initialize-runs :
    (a : Settings) (k : Starts) (m : Imp)
    → (initialize a k m).1 ≡ error_ok
    → ((initialize a k m).0.service.quit ≡ false) × (m.service.quit ≡ true)
unfolding initialize NetService.start Sync.start BrainSplit.start
initialize-runs a k m h = ground arith

runs_before : {b : Bool} → b ≡ true → ¬ (b ≡ false)
runs_before h k = cc

fails : {z : SinbohaError} → z ≡ error_ok → ¬ (z ≡ error_fail)
fails h k = cc

unlike : ¬ (at_service ≡ returned error_ok)
unlike h = cc

-- A caller that has succeeded is the one that has just come back, or had before.
set_pc-ok :
    (i x : ℕ) (z : SinbohaError) (pc : ℕ → InitializePc)
    → set_pc i (returned z) pc x ≡ returned error_ok
    → ((x ≡ i) × (z ≡ error_ok)) ⊎ ((x ≢ i) × (pc x ≡ returned error_ok))
set_pc-ok i x z pc h = ground arith

module _ (settings : ℕ → Settings) (starts : ℕ → Starts) where
  call_whole-IsSingle :
      (i : ℕ) (c : Callers) → IsSingle c → IsSingle (call_whole settings starts i c)
  unfolding call_whole
  call_whole-IsSingle i c h j e =
      let r = initialize (settings i) (starts i) c.imp in
      let runs = initialize-runs (settings i) (starts i) c.imp in
      elim (set_pc-ok i j r.1 c.pc e) [
        | inl (same, ok) ↦ (
          (runs ok).0,
          λ x e'. elim (set_pc-ok i x r.1 c.pc e') [
            | inl (same', ok') ↦ same' ∙ sym same
            | inr (other, old) ↦ absurd (runs_before (runs ok).1 (h x old).0)
          ],
        )
        | inr (other, old) ↦
            let q = (h j old).0 in
            let refused = initialize-refused (settings i) (starts i) c.imp q in
            (
              ap (λ y. y.0.service.quit) refused ∙ q,
              λ x e'. elim (set_pc-ok i x r.1 c.pc e') [
                | inl (same', ok') ↦ absurd (fails ok' (ap (λ y. y.1) refused))
                | inr (other', old') ↦ (h j old).1 x old'
              ],
            )
      ]

  call_wholes-IsSingle :
      (is : List ℕ) (c : Callers) → IsSingle c → IsSingle (call_wholes settings starts is c)
  unfolding call_wholes
  call_wholes-IsSingle [] c h = h
  call_wholes-IsSingle (i ∷ is) c h =
      call_wholes-IsSingle is (call_whole settings starts i c) (call_whole-IsSingle i c h)

  -- Let any callers of `Initialize`, of which none has begun, take their steps in any order, up to a
  -- moment at which none is inside. If one has succeeded, then no other has, and the service runs.
  pub call_steps-one :
      (is : List ℕ) (c : Callers)
      → ((j : ℕ) → c.pc j ≡ at_service)
      → ((j : ℕ) → ¬ IsInside ((call_steps settings starts is c).pc j))
      → (i j : ℕ)
      → let c' = call_steps settings starts is c in
        i ≢ j
        → c'.pc i ≡ returned error_ok
        → (c'.pc j ≢ returned error_ok) × (c'.imp.service.quit ≡ false)
  call_steps-one is c new after i j ne ei =
      let begin : IsSingle c = λ x e. absurd (unlike (sym (new x) ∙ e)) in
      let whole = call_steps-wholes settings starts is c (λ x h. subst IsInside (new x) h) after in
      let single : IsSingle (call_steps settings starts is c) =
        subst IsSingle (sym whole) (call_wholes-IsSingle (begun settings starts is c) c begin) in
      (λ ej. ne ((single j ej).1 i ei), (single i ei).0)
