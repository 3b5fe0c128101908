-- ===== src/NetClient/Connection.antt =====
-- The life of the connection of SinbohaNetClient (Sinboha/SinbohaNetClient.cpp): what holds of its
-- transport and client after `Initialize`, `ReInitialize` and `Release`, whatever the network does.
use sinboha.Prelude.{
  ◌≡◌, refl, ◌⊎◌, inl, inr, String, none, some, List, [], ◌∷◌, arith, Option-cases,
}
use sinboha.Prelude.Int.{ℤ, i32}
use sinboha.Types.{SinbohaError, error_ok, error_fail}
use sinboha.NetClient.{
  Outcome-cases, Remote, NetClient, new_net_client, release_client, initialize, release,
  re_initialize,
}

-- The client talks over the transport that `Release` closes, and there is one if there is the other.
abbrev pub IsPaired : NetClient → Type 0
IsPaired c = c.transport ≡ c.client

module _ (R : Remote) where
  open R use {Net, close_transport, open_transport}

  -- A public method of the connection, with its arguments.
  pub data ConnectionCall : Type 0 where
    initialized : String → ℤ → ℤ → ConnectionCall
    re_initialized : ConnectionCall
    released : ConnectionCall

  pub connection_call : ConnectionCall → NetClient → Net → NetClient × Net × SinbohaError
  connection_call (initialized a p t) c net = initialize R a p t c net
  connection_call re_initialized c net = re_initialize R c net
  connection_call released c net = release R c net

  pub connection_calls : List ConnectionCall → NetClient → Net → NetClient × Net
  connection_calls [] c net = (c, net)
  connection_calls (k ∷ ks) c net =
      let (c', net', e) = connection_call k c net in connection_calls ks c' net'

  release_client-IsPaired :
      (c : NetClient) (net : Net) → IsPaired c → IsPaired (release_client R c net).0
  unfolding release_client
  release_client-IsPaired c net h = ground arith

  connection_call-IsPaired :
      (k : ConnectionCall) (c : NetClient) (net : Net)
      → IsPaired c
      → IsPaired (connection_call k c net).0
  unfolding connection_call initialize re_initialize release
  connection_call-IsPaired (initialized a p t) c net h = refl
  connection_call-IsPaired re_initialized c net h = refl
  connection_call-IsPaired released c net h = release_client-IsPaired c net h

  from-IsPaired :
      (ks : List ConnectionCall) (c : NetClient) (net : Net)
      → IsPaired c
      → IsPaired (connection_calls ks c net).0
  unfolding connection_calls
  from-IsPaired [] c net h = h
  from-IsPaired (k ∷ ks) c net h =
      let (c', net', e) = connection_call k c net in
      from-IsPaired ks c' net' (connection_call-IsPaired k c net h)

  -- From a new object, after any calls and whatever `open` and `close` did, transport and client
  -- are both there or both not, and the client talks over the transport that `Release` closes.
  pub connection_calls-IsPaired :
      (ks : List ConnectionCall) (port timeout : ℤ) (net : Net)
      → IsPaired (connection_calls ks (new_net_client port timeout) net).0
  connection_calls-IsPaired ks port timeout net =
      from-IsPaired ks (new_net_client port timeout) net (unfold new_net_client in refl)

  release_client-keeps :
      (c : NetClient) (net : Net)
      → let c' = (release_client R c net).0 in
        (c'.peer_address ≡ c.peer_address)
        × (c'.port ≡ c.port)
        × (c'.network_timeout ≡ c.network_timeout)
  unfolding release_client
  release_client-keeps c net = ground arith

  -- `Initialize` leaves a client that leads to the given address, whether or not the network let it
  -- connect or disconnect, and the parameters for the next attempt.
  pub initialize-client :
      (address : String) (port timeout : ℤ) (c : NetClient) (net : Net)
      → let r = initialize R address port timeout c net in
        (r.0.client ≡ some (record { host = address; port = port; timeout = i32 timeout }))
        × (r.0.peer_address ≡ address)
        × (r.0.port ≡ port)
        × (r.0.network_timeout ≡ timeout)
  unfolding initialize
  initialize-client address port timeout c net =
      let c₁ = record c { peer_address = address; port = port; network_timeout = timeout } in
      let (kept_address, kept_port, kept_timeout) = release_client-keeps c₁ net in
      (refl, kept_address, kept_port, kept_timeout)

  -- `ReInitialize` does what `Initialize` would do with the stored parameters.
  pub re_initialize-initialize :
      (c : NetClient) (net : Net)
      → re_initialize R c net ≡ initialize R c.peer_address c.port c.network_timeout c net
  unfolding re_initialize initialize
  re_initialize-initialize c net =
      let (kept_address, kept_port, kept_timeout) = release_client-keeps c net in
      rw (kept_address, kept_port, kept_timeout)

  -- After a `Release` that succeeds there is neither transport nor client; one that fails leaves the
  -- object as it was. No other result is possible.
  pub release_lem :
      (c : NetClient) (net : Net)
      → IsPaired c
      → let (c', net', e) = release R c net in
        ((e ≡ error_ok) × (c'.transport ≡ none) × (c'.client ≡ none))
        ⊎ ((e ≡ error_fail) × (c' ≡ c))
  unfolding release release_client
  release_lem c net h = elim (Option-cases c.transport) [
    | inl e ↦ inl (ground arith)
    | inr (t, e) ↦ elim (Outcome-cases (close_transport t net).1) [
      | inl (u, done) ↦ inl (ground arith)
      | inr (x, failed) ↦ inr (ground arith)
    ]
  ]
