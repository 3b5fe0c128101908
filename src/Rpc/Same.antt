-- ===== src/Rpc/Same.antt =====
-- The comparisons `==` of arguments and results (Sinboha/gen-cpp/SinbohaRPC.h).
use sinboha.Prelude.{
  ◌==◌, ==_iff, Bool-cases, inl, inr, ◌≡◌, refl, ◌↔◌, Bool, true, false, not, [], ◌∷◌, arith,
  if◌then◌else◌,
}
use sinboha.Prelude.Int.{ℤ, ◌==ℤ◌, ==ℤ_refl, ==ℤ→≡}
use sinboha.StatusRep.{Bytes}
use sinboha.Rpc.Structs.{CanYouActivateMeArgs, SyncDataArgs, CallResult}

-- The comparisons `==`, on the values alone: what is set is not compared.
unfoldable pub same_can_you_activate_me_args : CanYouActivateMeArgs → CanYouActivateMeArgs → Bool
same_can_you_activate_me_args a rhs =
    if not (a.change_time ==ℤ rhs.change_time)
    then false
    else if not (a.status ==ℤ rhs.status)
    then false
    else true

-- The comparison of two strings.
abbrev pub same_bytes : Bytes → Bytes → Bool
same_bytes [] [] = true
same_bytes [] (y ∷ ys) = false
same_bytes (x ∷ xs) [] = false
same_bytes (x ∷ xs) (y ∷ ys) = if x == y then same_bytes xs ys else false

unfoldable pub same_sync_data_args : SyncDataArgs → SyncDataArgs → Bool
same_sync_data_args a rhs = if not (same_bytes a.data_bytes rhs.data_bytes) then false else true

abbrev pub same_bool : Bool → Bool → Bool
same_bool true b = b
same_bool false b = not b

unfoldable pub same_can_you_activate_me_result : CallResult Bool → CallResult Bool → Bool
same_can_you_activate_me_result r rhs =
    if not (same_bool r.success rhs.success) then false else true

unfoldable pub same_sync_data_result : CallResult ℤ → CallResult ℤ → Bool
same_sync_data_result r rhs = if not (r.success ==ℤ rhs.success) then false else true

same_bytes_refl : (b : Bytes) → same_bytes b b ≡ true
same_bytes_refl [] = refl
same_bytes_refl (x ∷ xs) = let rest = same_bytes_refl xs in ground arith

same_bytes→≡ : (b c : Bytes) → same_bytes b c ≡ true → b ≡ c
same_bytes→≡ [] [] h = refl
same_bytes→≡ [] (y ∷ ys) h = ground arith
same_bytes→≡ (x ∷ xs) [] h = ground arith
same_bytes→≡ (x ∷ xs) (y ∷ ys) h = elim (Bool-cases (x == y)) [
  | inl e ↦ rw ((==_iff x y).0 e, same_bytes→≡ xs ys (rw e at h)) refl
  | inr e ↦ ground arith
]

-- The comparisons are the equality of the values.
pub same_can_you_activate_me_args_iff :
    (a b : CanYouActivateMeArgs)
    → (same_can_you_activate_me_args a b ≡ true)
      ↔ ((a.change_time ≡ b.change_time) × (a.status ≡ b.status))
unfolding same_can_you_activate_me_args
same_can_you_activate_me_args_iff a b =
    let r1 = ==ℤ→≡ a.change_time b.change_time in
    let r2 = ==ℤ→≡ a.status b.status in
    (λ h. ground arith, λ (e, e'). rw (e, e', ==ℤ_refl b.change_time, ==ℤ_refl b.status) refl)

pub same_sync_data_args_iff :
    (a b : SyncDataArgs) → (same_sync_data_args a b ≡ true) ↔ (a.data_bytes ≡ b.data_bytes)
unfolding same_sync_data_args
same_sync_data_args_iff a b =
    let r = same_bytes→≡ a.data_bytes b.data_bytes in
    (λ h. ground arith, λ e. rw (e, same_bytes_refl b.data_bytes) refl)

-- A result that is not set compares as one that is.
pub same_can_you_activate_me_result_iff :
    (r r' : CallResult Bool)
    → (same_can_you_activate_me_result r r' ≡ true) ↔ (r.success ≡ r'.success)
unfolding same_can_you_activate_me_result
same_can_you_activate_me_result_iff r r' = (λ h. ground arith, λ e. ground arith)

pub same_sync_data_result_iff :
    (r r' : CallResult ℤ) → (same_sync_data_result r r' ≡ true) ↔ (r.success ≡ r'.success)
unfolding same_sync_data_result
same_sync_data_result_iff r r' =
    let q = ==ℤ→≡ r.success r'.success in (λ h. ground arith, λ e. rw (e, ==ℤ_refl r'.success) refl)
