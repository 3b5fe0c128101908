-- ===== src/Rpc/Refusal.antt =====
-- A request with a name that the service does not have: `dispatchCall` of SinbohaRPCProcessor
-- (Sinboha/gen-cpp/SinbohaRPC.cpp).
use text.Mathlib.Text.{◌==◌}
use sinboha.Prelude.{ℕ, ◌≡◌, Bool, false, String, List, [], ◌∷◌}
use sinboha.Prelude.Int.{ℤ}
use sinboha.NetClient.{thrift_exception}
use sinboha.Rpc.{Protocol, done, failed, ◌>>=◌, t_exception, write_end, flush}
use sinboha.Rpc.Delivery.{Delivers, Field, write_struct}
use sinboha.Rpc.Client.{recv_can_you_activate_me}
use sinboha.Rpc.Processor.{Handler, write_closing, refusal_message, dispatch_call}

module _ (P : Protocol) (D : Delivers P) {S : Type 0} (h : Handler S) where
  open P use {In}
  open D use {deliver}

  -- A request with another name than the two of the service, whatever its arguments, is read to its
  -- end and answered by an exception under its name, and the handler is not called; a client that
  -- waits for the answer of `CanYouActivateMe` throws when it gets that one.
  pub dispatch_call-refused :
      (n : ℕ) (memory : Bool) (fname : String) (seqid : ℤ) (struct : String) (fs : List Field)
      (s : S)
      → (fname == "CanYouActivateMe") ≡ false
      → (fname == "SyncData") ≡ false
      → (dispatch_call P h n fname seqid (deliver (write_struct struct fs write_closing)) s
          ≡ done (deliver [], s, refusal_message fname seqid))
        × (recv_can_you_activate_me P n memory (deliver (refusal_message fname seqid))
            ≡ failed thrift_exception)
  unfolding dispatch_call recv_can_you_activate_me
  dispatch_call-refused n memory fname seqid struct fs s other_than_first other_than_second = (
    rw (
      other_than_first,
      other_than_second,
      D.struct_skipped struct fs write_closing,
      ◌>>=◌,
      D.message_ends (write_end ∷ flush ∷ []),
      D.ends [],
    ),
    rw (
      D.message_begins fname t_exception seqid _,
      ◌>>=◌,
      D.exception_arrives _ write_closing,
      D.message_ends (write_end ∷ flush ∷ []),
      D.ends [],
    ),
  )
