-- ===== src/Rpc/Many.antt =====
-- SinbohaRPCMultiface, which hands a call to several handlers, and SinbohaRPCNull, a handler that does
-- nothing (Sinboha/gen-cpp/SinbohaRPC.h). The program makes no object of these classes.
use sinboha.Prelude.{
  ℕ, zero, suc, ◌+◌, ◌-◌, ◌%◌, ◌^◌, ◌<◌, ◌≡◌, refl, ◌∙◌, ap, inl, inr, Bool, false, String, List,
  [], ◌∷◌, ◌++◌, Option, none, some, arith, ◌>>=◌, length,
}
use sinboha.Prelude.Int.{ℤ, pos}
use sinboha.StatusRep.{Bytes}
use sinboha.NetClient.{Exception, Outcome, Outcome-cases, returned, threw}
use sinboha.Rpc.Processor.{Handler}

-- `SinbohaRPCNull`. It throws nothing; `what` is the text of an exception of the library.
abbrev pub null_handler : {S : Type 0} → (Exception → String) → Handler S
null_handler what = record {
  can_you_activate_me = λ t st s. (s, returned false);
  sync_data = λ b s. (s, returned (pos 0));
  what = what;
}

-- The element of a vector; past its end, where the access is undefined, `none`.
get_elem? : {A : Type 0} → List A → ℕ → Option A
get_elem? [] i = none
get_elem? (x ∷ xs) zero = some x
get_elem? (x ∷ xs) (suc i) = get_elem? xs i

module _ {S A : Type 0} (call : Handler S → S → S × Outcome A) where
  -- The loop with so many rounds left, from the index `i`, and the call after it.
  for_each : ℕ → ℕ → List (Handler S) → S → Option (S × Outcome A)
  unfolding get_elem?
  for_each zero i ifaces s = get_elem? ifaces i >>= λ h. some (call h s)
  for_each (suc rounds) i ifaces s = get_elem? ifaces i >>= λ h. elim ((call h s).1) [
    | returned a ↦ for_each rounds (suc i) ifaces (call h s).0
    | threw x ↦ some ((call h s).0, threw x)
  ]

  -- `sz - 1` is a `size_t`, of 64 bits.
  unfoldable pub call_all : List (Handler S) → S → Option (S × Outcome A)
  unfolding for_each
  call_all ifaces s = for_each ((length ifaces + (2 ^ 64 - 1)) % 2 ^ 64) 0 ifaces s

  -- The handlers one after the other, up to the first that throws; the last one answers.
  unfoldable pub in_order : Handler S → List (Handler S) → S → S × Outcome A
  in_order h [] s = call h s
  in_order h (h' ∷ hs) s = elim ((call h s).1) [
    | returned a ↦ in_order h' hs (call h s).0
    | threw x ↦ ((call h s).0, threw x)
  ]

unfoldable pub can_you_activate_me :
    {S : Type 0} → ℤ → ℤ → List (Handler S) → S → Option (S × Outcome Bool)
can_you_activate_me t st = call_all (λ h. h.can_you_activate_me t st)

unfoldable pub sync_data : {S : Type 0} → Bytes → List (Handler S) → S → Option (S × Outcome ℤ)
sync_data b = call_all (λ h. h.sync_data b)

get_elem?-++ :
    {A : Type 0} (xs : List A) (y : A) (ys : List A) → get_elem? (xs ++ y ∷ ys) (length xs) ≡ some y
unfolding get_elem?
get_elem?-++ [] y ys = refl
get_elem?-++ (x ∷ xs) y ys = get_elem?-++ xs y ys

snoc-++ : {A : Type 0} (xs : List A) (y : A) (ys : List A) → (xs ++ y ∷ []) ++ ys ≡ xs ++ y ∷ ys
snoc-++ [] y ys = refl
snoc-++ (x ∷ xs) y ys = ap (◌∷◌ x) (snoc-++ xs y ys)

length-snoc : {A : Type 0} (xs : List A) (y : A) → length (xs ++ y ∷ []) ≡ suc (length xs)
length-snoc [] y = refl
length-snoc (x ∷ xs) y = ap suc (length-snoc xs y)

module _ {S A : Type 0} (call : Handler S → S → S × Outcome A) where
  for_each-in_order :
      (before : List (Handler S)) (h : Handler S) (hs : List (Handler S)) (s : S)
      → for_each call (length hs) (length before) (before ++ h ∷ hs) s ≡ some (in_order call h hs s)
  unfolding for_each in_order
  for_each-in_order before h [] s = rw (get_elem?-++ before h []) refl
  for_each-in_order before h (h' ∷ hs) s = elim (Outcome-cases (call h s).1) [
    | inl (a, e) ↦
        let rest = for_each-in_order (before ++ h ∷ []) h' hs (call h s).0 in
        rw (get_elem?-++ before h (h' ∷ hs), ◌>>=◌, in_order, e)
          (rw (snoc-++ before h (h' ∷ hs), length-snoc before h) at rest)
    | inr (x, e) ↦ rw (get_elem?-++ before h (h' ∷ hs), ◌>>=◌, in_order, e) refl
  ]

  call_all-in_order :
      (h : Handler S) (hs : List (Handler S)) (s : S)
      → length hs < 2 ^ 64 - 1
      → call_all call (h ∷ hs) s ≡ some (in_order call h hs s)
  unfolding call_all
  call_all-in_order h hs s l =
      let rounds : ((suc (length hs) + (2 ^ 64 - 1)) % 2 ^ 64 ≡ length hs) = omega arith in
      ap (λ r. for_each call r 0 (h ∷ hs) s) rounds ∙ for_each-in_order [] h hs s

  call_all-of_none : (s : S) → call_all call [] s ≡ none
  unfolding call_all for_each get_elem?
  call_all-of_none s = refl

-- Both calls of a list of handlers that is not empty, and that a `size_t` can count, go to the
-- handlers in order, each on the state that the one before it left, up to the first that throws; the
-- last one answers. Without handlers, the access to the last one is past the end.
pub calls-in_order :
    {S : Type 0} (t st : ℤ) (b : Bytes) (h : Handler S) (hs : List (Handler S)) (s : S)
    → length hs < 2 ^ 64 - 1
    → (can_you_activate_me t st (h ∷ hs) s
        ≡ some (in_order (λ g. g.can_you_activate_me t st) h hs s))
      × (sync_data b (h ∷ hs) s ≡ some (in_order (λ g. g.sync_data b) h hs s))
      × (can_you_activate_me t st [] s ≡ none)
      × (sync_data b [] s ≡ none)
unfolding can_you_activate_me sync_data
calls-in_order t st b h hs s l = (
  call_all-in_order (λ g. g.can_you_activate_me t st) h hs s l,
  call_all-in_order (λ g. g.sync_data b) h hs s l,
  call_all-of_none (λ g. g.can_you_activate_me t st) s,
  call_all-of_none (λ g. g.sync_data b) s,
)
