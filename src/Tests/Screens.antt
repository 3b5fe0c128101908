-- ===== src/Tests/Screens.antt =====
-- The demonstration program at its keyboard.
use sinboha.Prelude.{◌≡◌, refl, List, [], ◌∷◌}
use sinboha.Prelude.Int.{pos, negsuc}
use sinboha.Types.{active, IsNamed}
use sinboha.StatusRep
use sinboha.NetClient.{Remote, returned}
use sinboha.BrainSplit
use sinboha.Imp.Interface
use sinboha.Process.{Event, outside, peer_asks, peer_sends, switches, happen, happen_all}
use sinboha.Process.Names.{happen_all-IsNamed}
use sinboha.StatusRep.Names.{AllSettled}
use sinboha.RpcHandler.{handle_sync_data}
use sinboha.Demo.{
  words, received, print_calls, polling, Demo, Moment, pressed, waits, beside, press, press_switch,
  demo_step, take_step, take_steps,
}
use sinboha.Demo.Screen.{last_shown, take_steps-last_shown}
use sinboha.Pair.Link.{link}
use sinboha.Tests.Data.{ticks, late, working}

abbrev wire : Remote
wire = link ticks (pos 200000)

abbrev watching : Demo wire
watching = record {
  process = record { imp = working; release_pc = outside; net = (late, []) };
  pc = polling;
}

-- The key s, data of the peer, a key of no meaning, s again and escape.
abbrev keys : List (Moment wire)
keys =
    pressed 115 (pos 210000)
    ∷ beside (peer_sends (65 ∷ []))
    ∷ pressed 120 (pos 220000)
    ∷ pressed 115 (pos 230000)
    ∷ pressed 27 (pos 240000)
    ∷ waits (returned tt)
    ∷ []

take_steps-last_shown_example :
    let (d', lines) = take_steps wire ticks keys watching in
    last_shown active lines ≡ d'.process.imp.status.status
take_steps-last_shown_example =
    take_steps-last_shown wire ticks keys watching refl (tt, (tt, (tt, (tt, (tt, (tt, tt))))))

screen :
    (take_steps wire ticks keys watching).1
    ≡ words "Switching to Standby"
      ∷ words "STANDBY"
      ∷ received (65 ∷ [])
      ∷ words "Switching to Standby"
      ∷ words "Need to switch on Active node"
      ∷ words "Exiting"
      ∷ []
unfolding take_steps take_step demo_step press press_switch print_calls happen handle_sync_data
    Interface.switch StatusRep.switch StatusRep.recv_data BrainSplit.stop_request
screen = refl

-- A peer that sends statuses without a name.
abbrev nonsense : List (Event wire)
nonsense =
    peer_asks (pos 200000) (pos 15) (pos 17)
    ∷ switches (pos 210000)
    ∷ peer_asks (pos 220000) (pos 15) (negsuc 4)
    ∷ []

happen_all-IsNamed_example :
    let (p', calls) = happen_all wire ticks nonsense watching.process in
    IsNamed p'.imp.status.status × AllSettled calls
happen_all-IsNamed_example = happen_all-IsNamed wire ticks nonsense watching.process tt
