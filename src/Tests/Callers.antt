-- ===== src/Tests/Callers.antt =====
-- Three callers that share a connection.
use sinboha.Prelude.{ℕ, suc, ◌≡◌, refl, true, false, Option, none, some, List, [], ◌∷◌, arith}
use sinboha.Prelude.Int.{pos}
use sinboha.NetClient.{returned, threw, thrift_exception, transport_exception}
use sinboha.Rpc.{done}
use sinboha.Rpc.Concurrent.{
  SyncInfo, Begun, answers, throws, waits, recv_can_you_activate_me_round, recv_sync_data_round,
  send_can_you_activate_me, send_sync_data,
}
use sinboha.Rpc.Concurrent.Rounds.{KeepsBegun, Reply, messages}
use sinboha.Rpc.Concurrent.Demux.{IsGiven, nobody, own, other, rounds, rounds-IsGiven}
use sinboha.Rpc.Concurrent.Requests.{process, read_by, calls-own_number}
use sinboha.Tests.Wire.{calls, calls_deliver, counter}

-- The next number, and the message begun.
abbrev one_place : SyncInfo
one_place = record {
  State = ℕ × Option Begun;
  generate_seq_id = λ s. (pos s.0, (suc s.0, s.1));
  get_pending = λ s. (s.1, (s.0, none));
  update_pending = λ m s. (s.0, some m);
}

abbrev one_place_kept : KeepsBegun one_place
one_place_kept = record { idle = (4, none); nothing_begun = refl; one_begun = λ m. refl }

-- The answers come in another order than the calls.
abbrev replies : List Reply
replies = (pos 3, returned true) ∷ (pos 1, threw transport_exception) ∷ (pos 2, returned false) ∷ []

-- The first two callers, and then the second one, come before their answers.
taken :
    IsGiven
      (pos 1 ∷ pos 2 ∷ pos 3 ∷ pos 2 ∷ pos 1 ∷ pos 2 ∷ [])
      replies
      ((pos 3, answers true) ∷ (pos 1, throws thrift_exception) ∷ (pos 2, answers false) ∷ [])
taken =
    other (pos 1) (pos 3) (returned true) (λ e. ground arith)
      (other (pos 2) (pos 3) (returned true) (λ e. ground arith)
        (own (pos 3) (returned true) (
          other (pos 2) (pos 1) (threw transport_exception) (λ e. ground arith)
            (own (pos 1) (threw transport_exception) (own (pos 2) (returned false) nobody)))))

rounds-IsGiven_example :
    rounds calls one_place 2 false
      (pos 1 ∷ pos 2 ∷ pos 3 ∷ pos 2 ∷ pos 1 ∷ pos 2 ∷ [])
      (messages counter replies)
      (4, none)
    ≡ done ((pos 3, answers true) ∷ (pos 1, throws thrift_exception) ∷ (pos 2, answers false) ∷ [])
rounds-IsGiven_example =
    rounds-IsGiven counter calls calls_deliver one_place one_place_kept 2 false (omega arith) taken

calls-own_number_example :
    let allowed =
      process calls calls_deliver counter 3 (send_can_you_activate_me (pos 6) (pos 12) (pos 0)) 4 in
    let coded = process calls calls_deliver counter 3 (send_sync_data (pos 6) []) 4 in
    (read_by calls calls_deliver one_place one_place_kept counter
        (recv_can_you_activate_me_round calls one_place 3 false (pos 6))
        allowed
      ≡ done (5, answers true))
    × (read_by calls calls_deliver one_place one_place_kept counter
          (recv_can_you_activate_me_round calls one_place 3 false (pos 7))
          allowed
        ≡ done (5, waits))
    × (read_by calls calls_deliver one_place one_place_kept counter
          (recv_sync_data_round calls one_place 3 (pos 9) (pos 6))
          coded
        ≡ done (5, throws thrift_exception))
    × (read_by calls calls_deliver one_place one_place_kept counter
          (recv_sync_data_round calls one_place 3 (pos 9) (pos 7))
          coded
        ≡ done (5, waits))
calls-own_number_example =
    calls-own_number calls calls_deliver one_place one_place_kept counter 3 false (pos 9) (pos 6)
      (pos 7) (pos 12) (pos 0) [] 4 (omega arith) (λ e. ground arith)
