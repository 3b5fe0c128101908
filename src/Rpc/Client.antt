-- ===== src/Rpc/Client.antt =====
-- SinbohaRPCClient of Sinboha/gen-cpp/SinbohaRPC.cpp: what it sends, and what it makes of the answer.
-- After an exception the state of the input protocol is left out: SinbohaNetClient makes a new
-- connection then.
use text.Mathlib.Text.{◌==◌}
use sinboha.Prelude.{ℕ, Bool, true, false, not, List, [], ◌∷◌, ◌++◌, if◌then◌else◌}
use sinboha.Prelude.Int.{ℤ, pos}
use sinboha.StatusRep.{Bytes}
use sinboha.NetClient.{thrift_exception}
use sinboha.Rpc.{
  Protocol, Run, done, failed, ◌>>=◌, t_struct, TMessageType, t_call, t_reply, t_exception, Write,
  write_message_begin, write_message_end, write_end, flush,
}
use sinboha.Rpc.Structs.{
  write_can_you_activate_me_args, write_sync_data_args, read_can_you_activate_me_result,
  read_sync_data_result,
}

unfoldable pub send_can_you_activate_me : ℤ → ℤ → List Write
send_can_you_activate_me change_time status =
    write_message_begin "CanYouActivateMe" t_call (pos 0)
    ∷ (write_can_you_activate_me_args change_time status
        ++ (write_message_end ∷ write_end ∷ flush ∷ []))

unfoldable pub send_sync_data : Bytes → List Write
send_sync_data b =
    write_message_begin "SyncData" t_call (pos 0)
    ∷ (write_sync_data_args b ++ (write_message_end ∷ write_end ∷ flush ∷ []))

abbrev pub is_exception : TMessageType → Bool
is_exception t_exception = true
is_exception _ = false

abbrev pub is_reply : TMessageType → Bool
is_reply t_reply = true
is_reply _ = false

module _ (P : Protocol) where
  open P use {In, read_message_begin, read_message_end, skip, read_exception, read_end}

  -- The block of a message of another kind or name: it is passed over, and reading goes on.
  pass_message : Bool → In → Run In
  pass_message other i =
      if other
      then (skip t_struct i >>= λ i₁. read_message_end i₁ >>= λ i₂. read_end i₂)
      else done i

  -- The block of an exception, which is read and thrown.
  throw_exception {ℓ} : {A : Type ℓ} → In → Run A
  throw_exception i = read_exception i >>= λ i₁.
      read_message_end i₁ >>= λ i₂. read_end i₂ >>= λ i₃. failed thrift_exception

  -- `_return`, which is not initialised, has the value `memory`.
  unfoldable pub recv_can_you_activate_me : ℕ → Bool → In → Run (Bool × In)
  unfolding pass_message throw_exception
  recv_can_you_activate_me n memory i = do
    (fname, mtype, rseqid, i₁) ← read_message_begin i
    if is_exception mtype then throw_exception i₁ else (do
      i₂ ← pass_message (not (is_reply mtype)) i₁
      i₃ ← pass_message (not (fname == "CanYouActivateMe")) i₂
      (r, i₄) ← read_can_you_activate_me_result P n memory i₃
      i₅ ← read_message_end i₄
      i₆ ← read_end i₅
      if r.isset then done (r.success, i₆) else failed thrift_exception)

  unfoldable pub recv_sync_data : ℕ → ℤ → In → Run (ℤ × In)
  unfolding pass_message throw_exception
  recv_sync_data n memory i = do
    (fname, mtype, rseqid, i₁) ← read_message_begin i
    if is_exception mtype then throw_exception i₁ else (do
      i₂ ← pass_message (not (is_reply mtype)) i₁
      i₃ ← pass_message (not (fname == "SyncData")) i₂
      (r, i₄) ← read_sync_data_result P n memory i₃
      i₅ ← read_message_end i₄
      i₆ ← read_end i₅
      if r.isset then done (r.success, i₆) else failed thrift_exception)
