-- ===== src/NetClient.antt =====
-- The class SinbohaNetClient of Sinboha/SinbohaNetClient.h and SinbohaNetClient.cpp: a connection to
-- the peer, and the two calls made over it. Every public method holds the lock of the object, so that
-- each is one function on its state and on the state of the world, `Net`. The Thrift library and the
-- network are the parameter `Remote`.
pub mod Connection
pub mod Calls
use sinboha.Prelude.{
  ◌≡◌, refl, ◌⊎◌, inl, inr, ℕ, Bool, false, String, Option, none, some, not, if◌then◌else◌,
}
use sinboha.Prelude.Int.{ℤ, i32}
use sinboha.Types.{
  SinbohaStatus, SinbohaError, error_ok, error_fail, is_error, i16_of_status, error_of_i16,
}
use sinboha.Chrono.{TimePoint, to_milliseconds}
use sinboha.StatusRep.{Bytes}

-- What the three `catch` blocks tell apart.
pub data Exception : Type 0 where
  transport_exception thrift_exception other_exception : Exception

pub data Outcome {ℓ} (A : Type ℓ) : Type ℓ where
  returned : A → Outcome A
  threw : Exception → Outcome A

pub Outcome-cases {ℓ} :
    {A : Type ℓ} (o : Outcome A) → ((a : A) × (o ≡ returned a)) ⊎ ((x : Exception) × (o ≡ threw x))
Outcome-cases (returned a) = inl (a, refl)
Outcome-cases (threw x) = inr (x, refl)

-- `TSocket` with its `TBufferedTransport`: where it leads, and its time limits in milliseconds.
pub record Transport : Type 0 where
  pub host : String
  pub port : ℤ
  pub timeout : ℤ

-- The library and the network: to open and to close a transport, and the two calls of
-- `SinbohaRPCClient` over it. Any of them may change the world and may throw.
pub record Remote : Type 1 where
  pub Net : Type 0
  pub open_transport : Transport → Net → Net × Outcome (Unit {0})
  pub close_transport : Transport → Net → Net × Outcome (Unit {0})
  pub call_can_you_activate_me : Transport → ℤ → ℤ → Net → Net × Outcome Bool
  pub call_sync_data : Transport → Bytes → Net → Net × Outcome ℤ

-- `client` is the transport that the `SinbohaRPCClient` was made with.
pub record NetClient : Type 0 where
  pub transport : Option Transport
  pub client : Option Transport
  pub peer_address : String
  pub port : ℤ
  pub network_timeout : ℤ

-- The constructor leaves the port and the time limit as they are in memory.
unfoldable pub new_net_client : ℤ → ℤ → NetClient
new_net_client port timeout = record {
  transport = none;
  client = none;
  peer_address = "";
  port = port;
  network_timeout = timeout;
}

-- The `catch` blocks, all alike but for their log lines.
abbrev caught : Exception → SinbohaError
caught transport_exception = error_fail
caught thrift_exception = error_fail
caught other_exception = error_fail

abbrev opened : Outcome (Unit {0}) → SinbohaError
opened (returned u) = error_ok
opened (threw e) = caught e

module _ (R : Remote) where
  open R use {Net, open_transport, close_transport, call_can_you_activate_me, call_sync_data}

  abbrev after_close : NetClient → Net × Outcome (Unit {0}) → NetClient × Net × SinbohaError
  after_close c (net, returned u) = (record c { transport = none; client = none }, net, error_ok)
  after_close c (net, threw e) = (c, net, caught e)

  -- The pointers are reset only if `close` does not throw.
  unfoldable pub release_client : NetClient → Net → NetClient × Net × SinbohaError
  release_client c net = elim c.transport [
    | none ↦ (c, net, error_ok)
    | some t ↦ after_close c (close_transport t net)
  ]

  -- The socket takes its time limits as `int`. The new transport and client stay, also if `open`
  -- throws.
  unfoldable pub initialize_client :
      String → ℤ → ℤ → NetClient → Net → NetClient × Net × SinbohaError
  initialize_client address port timeout c net =
      let t : Transport = record { host = address; port = port; timeout = i32 timeout } in
      let (net', outcome) = open_transport t net in
      (record c { transport = some t; client = some t }, net', opened outcome)

  unfoldable pub initialize : String → ℤ → ℤ → NetClient → Net → NetClient × Net × SinbohaError
  unfolding initialize_client
  initialize address port timeout c net =
      let c₁ = record c { peer_address = address; port = port; network_timeout = timeout } in
      let (c₂, net₁, ignored) = release_client c₁ net in
      initialize_client address port timeout c₂ net₁

  unfoldable pub release : NetClient → Net → NetClient × Net × SinbohaError
  release c net = release_client c net

  unfoldable pub re_initialize : NetClient → Net → NetClient × Net × SinbohaError
  unfolding initialize_client
  re_initialize c net =
      let (c₁, net₁, ignored) = release_client c net in
      initialize_client c₁.peer_address c₁.port c₁.network_timeout c₁ net₁

  -- `Activate` is set to false first, and by a call that returns.
  abbrev activated : Net × Outcome Bool → Net × SinbohaError × Bool
  activated (net, returned b) = (net, error_ok, b)
  activated (net, threw e) = (net, caught e, false)

  unfoldable pub can_you_activate_me :
      ℕ → TimePoint → SinbohaStatus → NetClient → Net → Net × SinbohaError × Bool
  can_you_activate_me ticks peer_change_time peer_status c net = elim c.client [
    | none ↦ (net, error_fail, false)
    | some t ↦ activated (
        call_can_you_activate_me t (to_milliseconds ticks peer_change_time)
          (i16_of_status peer_status) net)
  ]

  abbrev synced : Net × Outcome ℤ → Net × SinbohaError
  synced (net, returned n) =
      (net, if not (is_error error_ok (error_of_i16 n)) then error_fail else error_ok)
  synced (net, threw e) = (net, caught e)

  unfoldable pub sync_data : Bytes → NetClient → Net → Net × SinbohaError
  sync_data b c net = elim c.client [
    | none ↦ (net, error_fail)
    | some t ↦ synced (call_sync_data t b net)
  ]
