-- ===== src/Tests/Connections.antt =====
-- The connection over a network that delivers.
use sinboha.Prelude.{[], ◌∷◌}
use sinboha.Prelude.Int.{pos}
use sinboha.NetClient.{Remote, new_net_client}
use sinboha.NetClient.Connection.{
  IsPaired, initialized, re_initialized, released, connection_calls, connection_calls-IsPaired,
}
use sinboha.Pair.Link.{link}
use sinboha.Tests.Data.{ticks, late}

abbrev wire : Remote
wire = link ticks (pos 200000)

connection_calls-IsPaired_example :
    IsPaired
      (connection_calls wire
        (initialized "b" (pos 9) (pos 200) ∷ re_initialized ∷ released ∷ [])
        (new_net_client (pos 0) (pos 0))
        (late, [])).0
connection_calls-IsPaired_example =
    connection_calls-IsPaired wire
      (initialized "b" (pos 9) (pos 200) ∷ re_initialized ∷ released ∷ []) (pos 0) (pos 0)
      (late, [])
