-- ===== src/Rpc/Concurrent.antt =====
-- SinbohaRPCConcurrentClient of Sinboha/gen-cpp/SinbohaRPC.cpp: callers that share a connection, where
-- each call has a number, and a caller that reads the answer of another call leaves it for that one.
-- The library's object `sync_`, which holds a message begun and not claimed and gives out the
-- numbers, is a parameter. A caller has the library's lock on reading through one round of its loop;
-- a round that fails leaves the connection in a bad state, in which nobody reads on.
pub mod Rounds
pub mod Demux
pub mod Requests
use text.Mathlib.Text.{◌==◌}
use sinboha.Prelude.{
  ℕ, suc, Bool, false, not, String, Option, none, some, List, [], ◌∷◌, ◌++◌, if◌then◌else◌,
}
use sinboha.Prelude.Int.{ℤ, pos, negsuc}
use sinboha.StatusRep.{Bytes}
use sinboha.NetClient.{Exception, thrift_exception}
use sinboha.Rpc.{
  Protocol, Run, done, failed, ◌>>=◌, t_struct, TMessageType, t_call, t_exception, Write,
  write_message_begin, write_message_end, write_end, flush,
}
use sinboha.Rpc.Structs.{
  CallResult, write_can_you_activate_me_args, write_sync_data_args, read_can_you_activate_me_result,
  read_sync_data_result,
}
use sinboha.Rpc.Client.{is_exception, is_reply}

-- The beginning of a message.
abbrev pub Begun : Type 0
Begun = String × TMessageType × ℤ

pub record SyncInfo : Type 1 where
  pub State : Type 0
  pub generate_seq_id : State → ℤ × State
  pub get_pending : State → Option Begun × State
  pub update_pending : Begun → State → State

-- `seqid == rseqid`.
unfoldable pub same_id : ℤ → ℤ → Bool
same_id (pos m) (pos n) = sinboha.Prelude.◌==◌ m n
same_id (negsuc m) (negsuc n) = sinboha.Prelude.◌==◌ m n
same_id _ _ = false

-- What a send does with the number that the library gives out.
pub send_can_you_activate_me : ℤ → ℤ → ℤ → List Write
send_can_you_activate_me cseqid change_time status =
    write_message_begin "CanYouActivateMe" t_call cseqid
    ∷ (write_can_you_activate_me_args change_time status
        ++ (write_message_end ∷ write_end ∷ flush ∷ []))

pub send_sync_data : ℤ → Bytes → List Write
send_sync_data cseqid b =
    write_message_begin "SyncData" t_call cseqid
    ∷ (write_sync_data_args b ++ (write_message_end ∷ write_end ∷ flush ∷ []))

-- How a round ends that leaves the connection in a good state: with the answer, with the exception in
-- its place, or before `waitForWork`.
pub data Round (A : Type 0) : Type 0 where
  answers : A → Round A
  throws : Exception → Round A
  waits : Round A

module _ (P : Protocol) (S : SyncInfo) where
  open P use {In, read_message_begin, read_message_end, skip, read_exception, read_end}
  open S use {State, get_pending, update_pending}

  -- The message that another caller has begun, or the next one.
  begin : Option Begun → In → Run (Begun × In)
  begin none i =
      read_message_begin i >>= λ (fname, mtype, rseqid, i₁). done ((fname, mtype, rseqid), i₁)
  begin (some m) i = done (m, i)

  -- `skip`, `readMessageEnd` and `readEnd`.
  pass : In → Run In
  pass i = skip t_struct i >>= λ i₁. read_message_end i₁ >>= λ i₂. read_end i₂

  module _ {A : Type 0} (name : String) (read_result : In → Run (CallResult A × In)) where
    -- The message has the number of the call.
    claim : String → TMessageType → In → Run (Round A × In)
    claim fname mtype i =
        if is_exception mtype
        then (do
          i₁ ← read_exception i
          i₂ ← read_message_end i₁
          i₃ ← read_end i₂
          done (throws thrift_exception, i₃))
        else (do
          i₁ ← if not (is_reply mtype) then pass i else done i
          if not (fname == name) then (pass i₁ >>= λ i₂. failed thrift_exception) else (do
            (r, i₂) ← read_result i₁
            i₃ ← read_message_end i₂
            i₄ ← read_end i₃
            if r.isset then done (answers r.success, i₄) else failed thrift_exception))

    -- One round of the loop of the call with this number.
    pub recv_round : ℤ → In → State → Run (Round A × In × State)
    unfolding claim begin pass
    recv_round seqid i s = do
      let (begun, s₁) = get_pending s
      ((fname, mtype, rseqid), i₁) ← begin begun i
      if same_id seqid rseqid
          then (do (round, i₂) ← claim fname mtype i₁; done (round, i₂, s₁))
          else done (waits, i₁, update_pending (fname, mtype, rseqid) s₁)

  pub recv_can_you_activate_me_round : ℕ → Bool → ℤ → In → State → Run (Round Bool × In × State)
  unfolding recv_round
  recv_can_you_activate_me_round n memory seqid i s =
      recv_round "CanYouActivateMe" (read_can_you_activate_me_result P n memory) seqid i s

  pub recv_sync_data_round : ℕ → ℤ → ℤ → In → State → Run (Round ℤ × In × State)
  unfolding recv_round
  recv_sync_data_round n memory seqid i s =
      recv_round "SyncData" (read_sync_data_result P n memory) seqid i s
