-- ===== src/Imp/Data.antt =====
-- `SyncData` from one node to the other: `SinbohaImp::SyncData` (Sinboha/SinbohaImp.cpp), the primary
-- heartbeat's connection (Sinboha/SinbohaSync.cpp, SinbohaNetClient.cpp), the peer's handler
-- (Sinboha/SinbohaRPCHandler.h) and its `RecvData` (Sinboha/SinbohaImp.cpp).
use sinboha.Prelude.{ℕ, ◌≡◌, ◌≢◌, ◌↔◌, Option, none, some, List, [], ◌∷◌, arith}
use sinboha.Types.{SinbohaStatus, error_ok, active, standby}
use sinboha.Chrono.{TimePoint}
use sinboha.Pair.Link.{link}
use sinboha.StatusRep.{
  CallbackId, on_receive_data, StatusRep, Bytes, CallbackCall, recv_data, query,
}
use sinboha.RpcHandler.{handle_sync_data}
use sinboha.NetClient
use sinboha.NetClient.{NetClient, Transport}
use sinboha.Sync
use sinboha.Imp.{Imp, sync_data}

-- The client of the connection, if there is one.
abbrev pub client_of : Option NetClient → Option Transport
client_of none = none
client_of (some c) = c.client

-- What the peer's callback gets.
abbrev arrivals :
    Option Transport → SinbohaStatus → SinbohaStatus → Option CallbackId → Bytes → List CallbackCall
arrivals (some x) active standby (some c) b = on_receive_data c b ∷ []
arrivals _ _ _ _ b = []

-- Over a network that delivers calls and answers, whatever connection this node has, `SyncData` returns
-- success exactly if this node is active, its primary heartbeat has a connection with a client, and
-- the peer is standby. Then the peer's callback, if there is one, gets exactly these data, once;
-- otherwise the peer's callback is not called. The peer's state is unchanged in every case.
pub sync_data-delivers :
    (ticks : ℕ) (heard : TimePoint) (b : Bytes) (m : Imp) (peer : StatusRep)
    → let (net', e) = sync_data (link ticks heard) b m (peer, []) in
      let client = client_of m.primary.network in
      ((e ≡ error_ok) ↔ ((m.status.status ≡ active) × (client ≢ none) × (peer.status ≡ standby)))
      × (net'.0 ≡ peer)
      × (net'.1 ≡ arrivals client m.status.status peer.status peer.callback b)
unfolding sync_data Sync.sync_data NetClient.sync_data handle_sync_data recv_data query
sync_data-delivers ticks heard b m peer =
    ((λ h. ground arith, λ h. ground arith), ground arith, ground arith)
