-- ===== src/Tests/Events.antt =====
-- An event handler at a processor that gets a request without data.
use sinboha.Prelude.{ℕ, ◌≡◌, some, List, [], ◌∷◌, arith}
use sinboha.Prelude.Int.{pos}
use sinboha.Rpc.{done, Write}
use sinboha.Rpc.Delivery.{write_struct, latest, present}
use sinboha.Rpc.Readers.{read_sync_data_args-latest}
use sinboha.Rpc.Processor.{write_closing, exception_message}
use sinboha.Rpc.Events.{
  EventHandler, hook, handle, write, get_context, pre_read, post_read, handler_error, free_context,
  sync_data_name, notified_sync_data, request_sync_data,
}
use sinboha.Tests.Wire.{calls, calls_deliver, counter}

abbrev numbered : EventHandler ℕ
numbered = some (λ name. 7)

abbrev request : List Write
request = write_struct "args" [] write_closing

notified_sync_data_run : notified_sync_data calls counter numbered 3 (pos 5) request 0 ≡ (
  done ([], 1),
  hook sync_data_name get_context
      ∷ hook sync_data_name (pre_read 7)
      ∷ hook sync_data_name (post_read 7)
      ∷ handle
      ∷ hook sync_data_name (handler_error 7)
      ∷ write (exception_message "SyncData" (pos 5) "")
      ∷ hook sync_data_name (free_context 7)
      ∷ [],
)
unfolding notified_sync_data request_sync_data latest present
notified_sync_data_run =
    rw (read_sync_data_args-latest calls calls_deliver 3 "args" [] write_closing (omega arith))
