-- ===== src/Rpc/Processor.antt =====
-- SinbohaRPCProcessor of Sinboha/gen-cpp/SinbohaRPC.h and SinbohaRPC.cpp: a request, after its name and
-- number have been read, to a call of the handler and an answer. The program sets no event handler.
use Prim.Native.String as Text
use Prim.Native.String.{String}
use text.Mathlib.Text.{◌==◌}
use sinboha.Prelude.{ℕ, Bool, true, List, [], ◌∷◌, ◌++◌, if◌then◌else◌}
use sinboha.Prelude.Int.{ℤ}
use sinboha.StatusRep.{Bytes}
use sinboha.NetClient.{Exception, Outcome, returned, threw}
use sinboha.Rpc.{
  Protocol, Run, done, ◌>>=◌, t_struct, t_reply, t_exception, Write, write_message_begin,
  write_message_end, write_exception, write_end, flush,
}
use sinboha.Rpc.Structs.{
  write_can_you_activate_me_result, write_sync_data_result, read_can_you_activate_me_args,
  read_sync_data_args,
}

-- The handler behind `iface_`, on a state `S`. Its exceptions are of the class std::exception, the
-- only one that the processor catches, and `what` gives their texts.
pub record Handler (S : Type 0) : Type 0 where
  pub can_you_activate_me : ℤ → ℤ → S → S × Outcome Bool
  pub sync_data : Bytes → S → S × Outcome ℤ
  pub what : Exception → String

abbrev pub write_closing : List Write
write_closing = write_message_end ∷ write_end ∷ flush ∷ []

-- A `TApplicationException` in the place of a reply.
abbrev pub exception_message : String → ℤ → String → List Write
exception_message name seqid what =
    write_message_begin name t_exception seqid ∷ write_exception what ∷ write_closing

abbrev pub refusal_message : String → ℤ → List Write
refusal_message fname seqid =
    exception_message fname seqid (Text.◌++◌ (Text.◌++◌ "Invalid method name: '" fname) "'")

abbrev pub allowed_message : {S : Type 0} → Handler S → ℤ → Outcome Bool → List Write
allowed_message h seqid (returned b) =
    write_message_begin "CanYouActivateMe" t_reply seqid
    ∷ (write_can_you_activate_me_result (record { success = b; isset = true }) ++ write_closing)
allowed_message h seqid (threw x) = exception_message "CanYouActivateMe" seqid (h.what x)

abbrev pub code_message : {S : Type 0} → Handler S → ℤ → Outcome ℤ → List Write
code_message h seqid (returned z) =
    write_message_begin "SyncData" t_reply seqid
    ∷ (write_sync_data_result (record { success = z; isset = true }) ++ write_closing)
code_message h seqid (threw x) = exception_message "SyncData" seqid (h.what x)

module _ (P : Protocol) {S : Type 0} (h : Handler S) where
  open P use {In, read_message_end, skip, read_end}

  unfoldable pub process_can_you_activate_me : ℕ → ℤ → In → S → Run (In × S × List Write)
  process_can_you_activate_me n seqid i s = do
    (args, i₁) ← read_can_you_activate_me_args P n i
    i₂ ← read_message_end i₁
    i₃ ← read_end i₂
    let (s', outcome) = h.can_you_activate_me args.change_time args.status s
    done (i₃, s', allowed_message h seqid outcome)

  unfoldable pub process_sync_data : ℕ → ℤ → In → S → Run (In × S × List Write)
  process_sync_data n seqid i s = do
    (args, i₁) ← read_sync_data_args P n i
    i₂ ← read_message_end i₁
    i₃ ← read_end i₂
    let (s', outcome) = h.sync_data args.data_bytes s
    done (i₃, s', code_message h seqid outcome)

  -- A request with any other name.
  refuse_call : String → ℤ → In → S → Run (In × S × List Write)
  refuse_call fname seqid i s = do
    i₁ ← skip t_struct i
    i₂ ← read_message_end i₁
    i₃ ← read_end i₂
    done (i₃, s, refusal_message fname seqid)

  unfoldable pub dispatch_call : ℕ → String → ℤ → In → S → Run (In × S × List Write)
  unfolding process_can_you_activate_me process_sync_data refuse_call
  dispatch_call n fname seqid i s =
      if fname == "CanYouActivateMe"
      then process_can_you_activate_me n seqid i s
      else if fname == "SyncData"
      then process_sync_data n seqid i s
      else refuse_call fname seqid i s
