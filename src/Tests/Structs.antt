-- ===== src/Tests/Structs.antt =====
-- The structs of the calls as values, and calls that go to several handlers.
use sinboha.Prelude.{ℕ, ◌≡◌, refl, true, false, List, [], ◌∷◌, ◌++◌, arith}
use sinboha.Prelude.Int.{pos}
use sinboha.NetClient.{returned, threw, transport_exception}
use sinboha.Rpc.{done, flush}
use sinboha.Rpc.Structs.{
  CanYouActivateMeArgs, SyncDataArgs, CallResult, write_can_you_activate_me_result,
  write_sync_data_result, read_can_you_activate_me_args, read_sync_data_args,
}
use sinboha.Rpc.Values
use sinboha.Rpc.Values.{write_can_you_activate_me_args, write_sync_data_args, structs_arrive}
use sinboha.Rpc.Same.{same_can_you_activate_me_result}
use sinboha.Rpc.Processor.{Handler}
use sinboha.Rpc.Many.{in_order, null_handler}
use sinboha.Tests.Wire.{calls, calls_deliver, counter}

-- Arguments and results that are not marked as set.
abbrev asked : CanYouActivateMeArgs
asked = record {
  change_time = pos 12;
  status = pos 1;
  isset_change_time = false;
  isset_status = false;
}

abbrev sent : SyncDataArgs
sent = record { data_bytes = 65 ∷ 66 ∷ []; isset_data = false }

abbrev empty : {A : Type 0} → A → CallResult A
empty a = record { success = a; isset = false }

abbrev full : {A : Type 0} → A → CallResult A
full a = record { success = a; isset = true }

structs_arrive_example :
    (read_can_you_activate_me_args calls 3 (write_can_you_activate_me_args asked ++ flush ∷ [])
      ≡ done (record asked { isset_change_time = true; isset_status = true }, flush ∷ []))
    × (read_sync_data_args calls 3 (write_sync_data_args sent ++ flush ∷ [])
        ≡ done (record sent { isset_data = true }, flush ∷ []))
    × (Values.read_can_you_activate_me_result calls 3
          (empty false)
          (write_can_you_activate_me_result (full true) ++ flush ∷ [])
        ≡ done (full true, flush ∷ []))
    × (Values.read_sync_data_result calls 3
          (full (pos 7))
          (write_sync_data_result (empty (pos 9)) ++ flush ∷ [])
        ≡ done (full (pos 7), flush ∷ []))
structs_arrive_example =
    structs_arrive calls calls_deliver 3 asked sent (empty false) (full true) (full (pos 7))
      (empty (pos 9)) (flush ∷ []) (omega arith)

-- Two results of one value, of which one is not set.
same_unset : same_can_you_activate_me_result (full true) (empty true) ≡ true
unfolding same_can_you_activate_me_result
same_unset = refl

-- A handler that counts, and one that does nothing.
abbrev others : List (Handler ℕ)
others = counter ∷ null_handler (counter.what) ∷ []

-- Both counters are called; the last one, which does nothing, answers; one that throws ends the calls.
three_called :
    (in_order (λ g. g.can_you_activate_me (pos 12) (pos 0)) counter others 4 ≡ (6, returned false))
    × (in_order (λ g. g.sync_data []) counter others 4 ≡ (5, threw transport_exception))
unfolding in_order
three_called = (refl, refl)
