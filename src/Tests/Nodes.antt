-- ===== src/Tests/Nodes.antt =====
-- One node.
use sinboha.Prelude.{◌≡◌, refl, true, false, List, [], ◌∷◌}
use sinboha.Prelude.Int.{pos}
use sinboha.Types.{pending, active, standby, other_status}
use sinboha.StatusRep.{on_status_change, on_receive_data, if_allow_peer_activate}
use sinboha.StatusRep.Arbitration.{if_allow_peer_activate-verdict}
use sinboha.StatusRep.Changes.{
  Method, answered, switched, received, Consistent, perform, perform-Consistent, perform_all,
}
use sinboha.Tests.Data.{early, late}

if_allow_peer_activate-verdict_example :
    if_allow_peer_activate (pos 3) (pos 120000) pending late
    ≡ (record late { peer_live_time = pos 3 }, true)
if_allow_peer_activate-verdict_example =
    if_allow_peer_activate-verdict (pos 3) (pos 120000) pending late

unnamed_refused : (if_allow_peer_activate (pos 3) (pos 1) (other_status 4) late).1 ≡ false
unfolding if_allow_peer_activate
unnamed_refused = refl

perform-Consistent_example :
    Consistent
      (answered (pos 1) (pos 2) true)
      early
      (perform (answered (pos 1) (pos 2) true) early).0
      (perform (answered (pos 1) (pos 2) true) early).1
perform-Consistent_example = perform-Consistent (answered (pos 1) (pos 2) true) early

abbrev life : List Method
life =
    answered (pos 1) (pos 2) false
    ∷ received (65 ∷ [])
    ∷ answered (pos 3) (pos 4) true
    ∷ switched (pos 5)
    ∷ []

life_calls :
    (perform_all life early).1
    ≡ on_status_change 7 standby
      ∷ on_receive_data 7 (65 ∷ [])
      ∷ on_status_change 7 active
      ∷ on_status_change 7 standby
      ∷ []
unfolding perform_all perform
life_calls = refl
