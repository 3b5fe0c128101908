-- ===== src/NetClient/Calls.antt =====
-- The two calls that SinbohaNetClient makes (Sinboha/SinbohaNetClient.cpp): what the caller may
-- conclude from their results.
use sinboha.Prelude.{ℕ, ◌≡◌, ◌≢◌, ◌⊎◌, ◌↔◌, Bool, false, none, some, arith, Option-cases, inl, inr}
use sinboha.Prelude.Int.{ℤ}
use sinboha.Types.{SinbohaStatus, SinbohaError, error_ok, error_fail, i16_of_status, error_of_i16}
use sinboha.Chrono.{TimePoint, to_milliseconds}
use sinboha.StatusRep.{Bytes}
use sinboha.NetClient.{
  returned, Outcome-cases, Transport, Remote, NetClient, can_you_activate_me, sync_data,
}

module _ (R : Remote) where
  open R use {Net, call_can_you_activate_me, call_sync_data}

  -- What `CanYouActivateMe` may report.
  pub record IsAnswer (ticks : ℕ) (t : TimePoint) (s : SinbohaStatus) (c : NetClient)
      (net net' : Net) (e : SinbohaError) (activate : Bool) : Type 0 where
    pub two_valued : (e ≡ error_ok) ⊎ (e ≡ error_fail)
    pub from_peer :
        (x : Transport)
        → c.client ≡ some x
        → e ≡ error_ok
        → call_can_you_activate_me x (to_milliseconds ticks t) (i16_of_status s) net
          ≡ (net', returned activate)
    pub needs_client : e ≡ error_ok → c.client ≢ none
    pub else_refused : e ≢ error_ok → activate ≡ false

  -- Success means that there is a client and that its call, with the time in milliseconds, returned
  -- the answer given; every failure, a missing client or any exception, reports `false`.
  pub can_you_activate_me-IsAnswer :
      (ticks : ℕ) (t : TimePoint) (s : SinbohaStatus) (c : NetClient) (net : Net)
      → let (net', e, activate) = can_you_activate_me R ticks t s c net in
        IsAnswer ticks t s c net net' e activate
  unfolding can_you_activate_me
  can_you_activate_me-IsAnswer ticks t s c net = ground arith

  -- `SyncData` succeeds exactly if there is a client and the call over it returned 0, the code of
  -- success.
  pub sync_data_iff :
      (b : Bytes) (c : NetClient) (net : Net)
      → ((sync_data R b c net).1 ≡ error_ok) ↔ (
          (x : Transport) × (n : ℤ) × (c.client ≡ some x)
          × ((call_sync_data x b net).1 ≡ returned n)
          × (error_of_i16 n ≡ error_ok))
  unfolding sync_data
  sync_data_iff b c net = (
    λ done. elim (Option-cases c.client) [
      | inl e ↦ ground arith
      | inr (x, e) ↦ elim (Outcome-cases (call_sync_data x b net).1) [
        | inl (n, back) ↦ (x, n, e, back, ground arith)
        | inr (ex, thrown) ↦ ground arith
      ]
    ],
    λ (x, n, e, back, zero_code). ground arith,
  )
