-- ===== src/Rpc/Concurrent/Requests.antt =====
-- The requests of callers that share a connection (SinbohaRPCConcurrentClient of
-- Sinboha/gen-cpp/SinbohaRPC.cpp) at the processor of the peer.
use sinboha.Prelude.{arith, ℕ, ◌<◌, ◌≡◌, ◌≢◌, Bool, String, List, [], ◌∷◌}
use sinboha.Prelude.Int.{ℤ, pos}
use sinboha.StatusRep.{Bytes}
use sinboha.Rpc.{
  Protocol, Run, done, ◌>>=◌, t_call, t_reply, t_exception, Write, write_exception, write_end,
  flush,
}
use sinboha.Rpc.Structs.{
  write_can_you_activate_me_args, write_sync_data_args, write_can_you_activate_me_result,
  write_sync_data_result,
}
use sinboha.Rpc.Delivery.{Delivers, of_i64, of_i16, of_string, write_struct, Field, latest, present}
use sinboha.Rpc.Processor.{Handler, write_closing, allowed_message, code_message, dispatch_call}
use sinboha.Rpc.Call.{process-allowed, process-code}
use sinboha.Rpc.Concurrent.Rounds.{
  KeepsBegun, before, own_round, other_round, result_of, kind, same_id-same, same_id-false,
}
use sinboha.NetClient.{Outcome, returned, threw}
use sinboha.Rpc.Readers.{read_sync_data_result-latest}
use sinboha.Rpc.Concurrent.{
  SyncInfo, Round, waits, recv_can_you_activate_me_round, recv_sync_data_round, recv_round,
  send_can_you_activate_me, send_sync_data,
}

module _ (P : Protocol) (D : Delivers P) {S : Type 0} (h : Handler S) where
  open P use {In, read_message_begin}
  open D use {deliver}

  -- A message that comes in at the processor.
  abbrev pub process : ℕ → List Write → S → Run (In × S × List Write)
  process n ws s = read_message_begin (deliver ws) >>= λ (fname, kind, seqid, i).
      dispatch_call P h n fname seqid i s

  pub process_lem :
      (n : ℕ) (k t st : ℤ) (b : Bytes) (s : S)
      → 2 < n
      → (process n (send_can_you_activate_me k t st) s ≡ (
          let (s', o) = h.can_you_activate_me t st s in
          done (deliver [], s', allowed_message h k o)))
        × (process n (send_sync_data k b) s
            ≡ (let (s', o) = h.sync_data b s in done (deliver [], s', code_message h k o)))
  unfolding send_can_you_activate_me send_sync_data dispatch_call write_can_you_activate_me_args
      write_sync_data_args
  process_lem n k t st b s l =
      let asked =
        write_struct "SinbohaRPC_CanYouActivateMe_pargs"
          (("ChangeTime", pos 1, of_i64 t) ∷ ("Status", pos 2, of_i16 st) ∷ []) write_closing in
      let given =
        write_struct "SinbohaRPC_SyncData_pargs" (("Data", pos 1, of_string b) ∷ [])
          write_closing in
      (
        rw (
          D.message_begins "CanYouActivateMe" t_call k asked,
          ◌>>=◌,
          process-allowed P D h n k t st s l,
        ),
        rw (D.message_begins "SyncData" t_call k given, ◌>>=◌, process-code P D h n k b s l),
      )

module _ (P : Protocol) (D : Delivers P) (Y : SyncInfo) (K : KeepsBegun Y) {S : Type 0}
    (h : Handler S) where
  open P use {In}
  open D use {deliver}
  open Y use {State, update_pending}

  allowed_own :
      (n : ℕ) (memory : Bool) (k : ℤ) (o : Outcome Bool)
      → 1 < n
      → recv_can_you_activate_me_round P Y n memory k (deliver (allowed_message h k o)) K.idle
        ≡ done (result_of o, deliver [], K.idle)
  unfolding write_can_you_activate_me_result
  allowed_own n memory k (returned b) l =
      own_round h P D Y K n memory k k (returned b) [] _ _ l (same_id-same k) (before _)
  allowed_own n memory k (threw x) l =
      own_round h P D Y K n memory k k (threw x) [] _ _ l (same_id-same k) (before _)

  code_own :
      (n : ℕ) (memory k : ℤ) (o : Outcome ℤ)
      → 1 < n
      → recv_sync_data_round P Y n memory k (deliver (code_message h k o)) K.idle
        ≡ done (result_of o, deliver [], K.idle)
  unfolding recv_sync_data_round recv_round latest present write_sync_data_result
  code_own n memory k (returned z) l =
      let struct : String = "SinbohaRPC_SyncData_result" in
      let fs : List Field = ("success", pos 0, of_i16 z) ∷ [] in
      rw (
        K.nothing_begun,
        D.message_begins "SyncData" t_reply k (write_struct struct fs write_closing),
        ◌>>=◌,
        same_id-same k,
        read_sync_data_result-latest P D n memory struct fs write_closing l,
        D.message_ends (write_end ∷ flush ∷ []),
        D.ends [],
      )
  code_own n memory k (threw x) l = rw (
    K.nothing_begun,
    D.message_begins "SyncData" t_exception k (write_exception (h.what x) ∷ write_closing),
    ◌>>=◌,
    same_id-same k,
    D.exception_arrives (h.what x) write_closing,
    D.message_ends (write_end ∷ flush ∷ []),
    D.ends [],
  )

  -- Another caller leaves the message where it is, after its beginning.
  allowed_other :
      (n : ℕ) (memory : Bool) (k j : ℤ) (o : Outcome Bool)
      → j ≢ k
      → (i : In) × (q : State) × (recv_can_you_activate_me_round P Y n memory j
            (deliver (allowed_message h k o))
            K.idle
          ≡ done (waits, i, q))
  unfolding write_can_you_activate_me_result
  allowed_other n memory k j (returned b) differ = (
    _,
    _,
    other_round h P D Y K n memory j k (returned b) [] _ _ (same_id-false j k differ) (before _),
  )
  allowed_other n memory k j (threw x) differ = (
    _,
    _,
    other_round h P D Y K n memory j k (threw x) [] _ _ (same_id-false j k differ) (before _),
  )

  code_other :
      (n : ℕ) (memory k j : ℤ) (o : Outcome ℤ)
      → j ≢ k
      → (i : In) × (q : State) × (recv_sync_data_round P Y n memory j
            (deliver (code_message h k o))
            K.idle
          ≡ done (waits, i, q))
  unfolding recv_sync_data_round recv_round write_sync_data_result
  code_other n memory k j (returned z) differ =
      let rest =
        write_struct "SinbohaRPC_SyncData_result" (("success", pos 0, of_i16 z) ∷ [])
          write_closing in
      (
        deliver rest,
        update_pending ("SyncData", t_reply, k) K.idle,
        rw (
          K.nothing_begun,
          D.message_begins "SyncData" t_reply k rest,
          ◌>>=◌,
          same_id-false j k differ,
        ),
      )
  code_other n memory k j (threw x) differ =
      let rest = write_exception (h.what x) ∷ write_closing in
      (
        deliver rest,
        update_pending ("SyncData", t_exception, k) K.idle,
        rw (
          K.nothing_begun,
          D.message_begins "SyncData" t_exception k rest,
          ◌>>=◌,
          same_id-false j k differ,
        ),
      )

  -- What a caller makes of the answer that the processor writes, when nobody has begun to read.
  abbrev pub read_by :
      {A : Type 0}
      → (In → State → Run (Round A × In × State))
      → Run (In × S × List Write)
      → Run (S × Round A)
  read_by read answered =
      answered >>= λ (i, s', reply). read (deliver reply) K.idle >>= λ (x, i', q). done (s', x)

  -- Let a caller with any number send either call over a connection that delivers what is written, to
  -- a processor that has three rounds for each loop of its readers. The handler is called once, with
  -- what was sent; when the answer is read by the caller, that gets what the handler returned, or an
  -- exception if it threw; when it is read by a caller with another number, that one goes on waiting.
  pub calls-own_number :
      (n : ℕ) (memory : Bool) (code k j t st : ℤ) (b : Bytes) (s : S)
      → 2 < n
      → j ≢ k
      → let allowed = process P D h n (send_can_you_activate_me k t st) s in
        let coded = process P D h n (send_sync_data k b) s in
        let (s₁, o₁) = h.can_you_activate_me t st s in
        let (s₂, o₂) = h.sync_data b s in
        (read_by (recv_can_you_activate_me_round P Y n memory k) allowed ≡ done (s₁, result_of o₁))
        × (read_by (recv_can_you_activate_me_round P Y n memory j) allowed ≡ done (s₁, waits))
        × (read_by (recv_sync_data_round P Y n code k) coded ≡ done (s₂, result_of o₂))
        × (read_by (recv_sync_data_round P Y n code j) coded ≡ done (s₂, waits))
  calls-own_number n memory code k j t st b s l differ =
      let (allowed, coded) = process_lem P D h n k t st b s l in
      let (s₁, o₁) = h.can_you_activate_me t st s in
      let (s₂, o₂) = h.sync_data b s in
      let (i, q, e) = allowed_other n memory k j o₁ differ in
      let (i', q', e') = code_other n code k j o₂ differ in
      (
        rw (allowed, ◌>>=◌, allowed_own n memory k o₁ (omega arith)),
        rw (allowed, ◌>>=◌, e),
        rw (coded, ◌>>=◌, code_own n code k o₂ (omega arith)),
        rw (coded, ◌>>=◌, e'),
      )
