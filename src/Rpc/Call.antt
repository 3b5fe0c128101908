-- ===== src/Rpc/Call.antt =====
-- A call from the client to the handler of the peer and back (Sinboha/gen-cpp/SinbohaRPC.cpp), over two
-- connections that deliver what is written. The library's `TDispatchProcessor::process` reads the
-- beginning of the message and hands it to `dispatchCall`.
use sinboha.Prelude.{ℕ, ◌<◌, ◌≡◌, Bool, String, List, [], ◌∷◌, arith}
use sinboha.Prelude.Int.{ℤ, pos}
use sinboha.StatusRep.{Bytes}
use sinboha.NetClient.{Outcome, returned, threw, thrift_exception}
use sinboha.Rpc.{
  Protocol, Run, done, failed, ◌>>=◌, t_call, write_end, flush, t_reply, t_exception,
  write_exception,
}
use sinboha.Rpc.Structs.{
  write_can_you_activate_me_args, write_sync_data_args, write_can_you_activate_me_result,
  write_sync_data_result,
}
use sinboha.Rpc.Delivery.{
  Delivers, Field, Value, of_i64, of_i16, of_bool, of_string, latest, present, write_struct,
}
use sinboha.Rpc.Readers.{
  read_can_you_activate_me_args-latest, read_sync_data_args-latest,
  read_can_you_activate_me_result-latest, read_sync_data_result-latest,
}
use sinboha.Rpc.Client.{
  send_can_you_activate_me, send_sync_data, recv_can_you_activate_me, recv_sync_data,
}
use sinboha.Rpc.Processor.{
  Handler, write_closing, allowed_message, code_message, process_can_you_activate_me,
  process_sync_data, dispatch_call,
}

module _ (P : Protocol) (D : Delivers P) {S : Type 0} (h : Handler S) where
  open P use {In, read_message_begin}
  open D use {deliver}

  -- What the client throws when the handler threw.
  abbrev pub answer {ℓ} : {A : Type ℓ} → Outcome A → Run (A × In)
  answer (returned a) = done (a, deliver [])
  answer (threw x) = failed thrift_exception

  unfoldable pub call_can_you_activate_me : ℕ → Bool → ℤ → ℤ → S → Run (S × Run (Bool × In))
  call_can_you_activate_me n memory change_time status s = do
    (fname, kind, seqid, i) ←
        read_message_begin (deliver (send_can_you_activate_me change_time status))
    (i', s', reply) ← dispatch_call P h n fname seqid i s
    done (s', recv_can_you_activate_me P n memory (deliver reply))

  unfoldable pub call_sync_data : ℕ → ℤ → Bytes → S → Run (S × Run (ℤ × In))
  call_sync_data n memory b s = do
    (fname, kind, seqid, i) ← read_message_begin (deliver (send_sync_data b))
    (i', s', reply) ← dispatch_call P h n fname seqid i s
    done (s', recv_sync_data P n memory (deliver reply))

  abbrev args_fields : ℤ → ℤ → List Field
  args_fields t st = ("ChangeTime", pos 1, of_i64 t) ∷ ("Status", pos 2, of_i16 st) ∷ []

  abbrev data_fields : Bytes → List Field
  data_fields b = ("Data", pos 1, of_string b) ∷ []

  abbrev success_field : Value → List Field
  success_field v = ("success", pos 0, v) ∷ []

  recv-allowed :
      (n : ℕ) (memory : Bool) (seqid : ℤ) (o : Outcome Bool)
      → 2 < n
      → recv_can_you_activate_me P n memory (deliver (allowed_message h seqid o)) ≡ answer o
  unfolding recv_can_you_activate_me write_can_you_activate_me_result latest present
  recv-allowed n memory seqid (returned b) l =
      let struct : String = "SinbohaRPC_CanYouActivateMe_result" in
      let result = write_struct struct (success_field (of_bool b)) write_closing in
      rw (
        D.message_begins "CanYouActivateMe" t_reply seqid result,
        ◌>>=◌,
        read_can_you_activate_me_result-latest P D n memory struct (success_field (of_bool b))
            write_closing (omega arith),
        D.message_ends (write_end ∷ flush ∷ []),
        D.ends [],
      )
  recv-allowed n memory seqid (threw x) l =
      let failure = write_exception (h.what x) ∷ write_closing in
      rw (
        D.message_begins "CanYouActivateMe" t_exception seqid failure,
        ◌>>=◌,
        D.exception_arrives (h.what x) write_closing,
        D.message_ends (write_end ∷ flush ∷ []),
        D.ends [],
      )

  recv-code :
      (n : ℕ) (memory seqid : ℤ) (o : Outcome ℤ)
      → 2 < n
      → recv_sync_data P n memory (deliver (code_message h seqid o)) ≡ answer o
  unfolding recv_sync_data write_sync_data_result latest present
  recv-code n memory seqid (returned z) l =
      let struct : String = "SinbohaRPC_SyncData_result" in
      let result = write_struct struct (success_field (of_i16 z)) write_closing in
      rw (
        D.message_begins "SyncData" t_reply seqid result,
        ◌>>=◌,
        read_sync_data_result-latest P D n memory struct (success_field (of_i16 z)) write_closing
            (omega arith),
        D.message_ends (write_end ∷ flush ∷ []),
        D.ends [],
      )
  recv-code n memory seqid (threw x) l =
      let failure = write_exception (h.what x) ∷ write_closing in
      rw (
        D.message_begins "SyncData" t_exception seqid failure,
        ◌>>=◌,
        D.exception_arrives (h.what x) write_closing,
        D.message_ends (write_end ∷ flush ∷ []),
        D.ends [],
      )

  pub process-allowed :
      (n : ℕ) (seqid t st : ℤ) (s : S)
      → 2 < n
      → process_can_you_activate_me P h n seqid
          (deliver
            (write_struct "SinbohaRPC_CanYouActivateMe_pargs" (args_fields t st) write_closing))
          s
        ≡ (let (s', o) = h.can_you_activate_me t st s in
            done (deliver [], s', allowed_message h seqid o))
  unfolding process_can_you_activate_me latest present
  process-allowed n seqid t st s l = rw (
    read_can_you_activate_me_args-latest P D n "SinbohaRPC_CanYouActivateMe_pargs"
        (args_fields t st) write_closing l,
    ◌>>=◌,
    D.message_ends (write_end ∷ flush ∷ []),
    D.ends [],
  )

  pub process-code :
      (n : ℕ) (seqid : ℤ) (b : Bytes) (s : S)
      → 2 < n
      → process_sync_data P h n seqid
          (deliver (write_struct "SinbohaRPC_SyncData_pargs" (data_fields b) write_closing))
          s
        ≡ (let (s', o) = h.sync_data b s in done (deliver [], s', code_message h seqid o))
  unfolding process_sync_data latest present
  process-code n seqid b s l = rw (
    read_sync_data_args-latest P D n "SinbohaRPC_SyncData_pargs" (data_fields b) write_closing
        (omega arith),
    ◌>>=◌,
    D.message_ends (write_end ∷ flush ∷ []),
    D.ends [],
  )

  -- Over connections that deliver what is written, and with three rounds of each loop, a call of
  -- `CanYouActivateMe` at the client calls the handler of the peer once, with the same time and
  -- status, and returns what the handler returned; if the handler threw, the client throws.
  pub call_can_you_activate_me-answer :
      (n : ℕ) (memory : Bool) (t st : ℤ) (s : S)
      → 2 < n
      → call_can_you_activate_me n memory t st s
        ≡ (let (s', o) = h.can_you_activate_me t st s in done (s', answer o))
  unfolding call_can_you_activate_me send_can_you_activate_me dispatch_call
      write_can_you_activate_me_args
  call_can_you_activate_me-answer n memory t st s l =
      let request =
        write_struct "SinbohaRPC_CanYouActivateMe_pargs" (args_fields t st) write_closing in
      rw (
        D.message_begins "CanYouActivateMe" t_call (pos 0) request,
        ◌>>=◌,
        process-allowed n (pos 0) t st s l,
        recv-allowed n memory (pos 0) (h.can_you_activate_me t st s).1 l,
      )

  -- Over connections that deliver what is written, and with three rounds of each loop, a call of
  -- `SyncData` at the client calls the handler of the peer once, with the same data, and returns
  -- the code that the handler returned; if the handler threw, the client throws.
  pub call_sync_data-answer :
      (n : ℕ) (memory : ℤ) (b : Bytes) (s : S)
      → 2 < n
      → call_sync_data n memory b s ≡ (let (s', o) = h.sync_data b s in done (s', answer o))
  unfolding call_sync_data send_sync_data dispatch_call write_sync_data_args
  call_sync_data-answer n memory b s l =
      let request = write_struct "SinbohaRPC_SyncData_pargs" (data_fields b) write_closing in
      rw (
        D.message_begins "SyncData" t_call (pos 0) request,
        ◌>>=◌,
        process-code n (pos 0) b s l,
        recv-code n memory (pos 0) (h.sync_data b s).1 l,
      )
