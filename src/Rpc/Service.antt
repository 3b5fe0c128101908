-- ===== src/Rpc/Service.antt =====
-- The generated processor (Sinboha/gen-cpp/SinbohaRPC.cpp) in front of SinbohaRPCHandler
-- (Sinboha/SinbohaRPCHandler.h): two calls over it are the two calls of the network that `Pair.Link`
-- describes.
use sinboha.Prelude.{ℕ, ◌<◌, ◌≡◌, Bool, String, List, ◌++◌}
use sinboha.Prelude.Int.{ℤ}
use sinboha.Chrono.{TimePoint}
use sinboha.StatusRep.{StatusRep, Bytes, CallbackCall}
use sinboha.RpcHandler.{handle_can_you_activate_me, handle_sync_data}
use sinboha.NetClient.{Transport, Exception, returned}
use sinboha.Rpc.{Protocol, done}
use sinboha.Rpc.Delivery.{Delivers}
use sinboha.Rpc.Processor.{Handler}
use sinboha.Rpc.Call.{
  answer, call_can_you_activate_me, call_sync_data, call_can_you_activate_me-answer,
  call_sync_data-answer,
}
use sinboha.Pair.Link.{link}

-- The handler of a peer, at the reading `heard` of its clock. It throws nothing itself; `what` is
-- the text of an exception of the library.
unfoldable pub rpc_handler :
    (Exception → String) → ℕ → TimePoint → Handler (StatusRep × List CallbackCall)
rpc_handler what ticks heard = record {
  can_you_activate_me = λ t st net.
      let (peer', b) = handle_can_you_activate_me ticks heard t st net.0 in
      ((peer', net.1), returned b);
  sync_data = λ b net.
      let (peer', n, calls) = handle_sync_data b net.0 in ((peer', net.1 ++ calls), returned n);
  what = what;
}

module _ (P : Protocol) (D : Delivers P) where
  -- Over connections that deliver what is written, the two calls of the generated client reach the
  -- peer's handler and come back exactly as over the network of `Pair.Link`, on every transport.
  pub calls-link :
      (what : Exception → String) (ticks : ℕ) (heard : TimePoint) (x : Transport) (n : ℕ)
      (allowed : Bool) (code t st : ℤ) (b : Bytes) (net : StatusRep × List CallbackCall)
      → 2 < n
      → let R = link ticks heard in
        let h = rpc_handler what ticks heard in
        (call_can_you_activate_me P D h n allowed t st net
          ≡ (let (net', o) = R.call_can_you_activate_me x t st net in done (net', answer P D h o)))
        × (call_sync_data P D h n code b net
            ≡ (let (net', o) = R.call_sync_data x b net in done (net', answer P D h o)))
  unfolding rpc_handler
  calls-link what ticks heard x n allowed code t st b net l =
      let h = rpc_handler what ticks heard in
      (
        call_can_you_activate_me-answer P D h n allowed t st net l,
        call_sync_data-answer P D h n code b net l,
      )
