-- ===== src/Rpc/Events.antt =====
-- The two methods of SinbohaRPCProcessor (Sinboha/gen-cpp/SinbohaRPC.cpp) with the calls of an event
-- handler that they make where `eventHandler_` is set. The number of bytes that `postRead` and
-- `postWrite` are told is left out.
pub mod Around
use sinboha.Prelude.{ℕ, String, if◌then◌else◌, Option, none, some, List, [], ◌∷◌, ◌++◌}
use sinboha.Prelude.Int.{ℤ}
use sinboha.NetClient.{Outcome, returned, threw}
use sinboha.Rpc.{Protocol, Run, done, failed, unfinished, ◌>>=◌, Write}
use sinboha.Rpc.Structs.{
  CanYouActivateMeArgs, SyncDataArgs, read_can_you_activate_me_args, read_sync_data_args,
}
use sinboha.Rpc.Processor.{Handler, allowed_message, code_message}

-- A call of the event handler, with the context that `getContext` gave, of a type of its own. The
-- destructor of the library's TProcessorContextFreer makes the last one.
pub data Hook (C : Type 0) : Type 0 where
  get_context : Hook C
  pre_read post_read handler_error pre_write post_write free_context : C → Hook C

-- What a method does, in order: calls of the event handler, which get the method's name, a call of
-- the handler, and what is written.
pub data Act (C : Type 0) : Type 0 where
  hook : String → Hook C → Act C
  handle : Act C
  write : List Write → Act C

-- The event handler, if any, by what its `getContext` gives for a method's name and the context of
-- the connection.
abbrev pub EventHandler : Type 0 → Type 0
EventHandler C = Option (String → C)

abbrev pub notify : {C : Type 0} → EventHandler C → String → (C → Hook C) → List (Act C)
notify none name call = []
notify (some context) name call = hook name (call (context name)) ∷ []

-- The block after the request has been read; an exception of the reader leaves it out.
abbrev pub with_request :
    {C A X : Type 0} → Run A → (A → Run X × List (Act C)) → Run X × List (Act C)
with_request (done a) f = f a
with_request (failed x) f = (failed x, [])
with_request unfinished f = (unfinished, [])

-- The block of the call: an exception is answered and the method returns.
abbrev pub answer_acts :
    {C A : Type 0} → EventHandler C → String → Outcome A → List Write → List (Act C)
answer_acts e name (returned a) ws =
    handle ∷ (notify e name pre_write ++ (write ws ∷ notify e name post_write))
answer_acts e name (threw x) ws = handle ∷ (notify e name handler_error ++ (write ws ∷ []))

-- Around everything else: the context is made, and freed on every way out.
abbrev pub with_context :
    {C X : Type 0} → EventHandler C → String → Run X × List (Act C) → Run X × List (Act C)
with_context e name (r, acts) = (
  r,
  notify e name (λ c. get_context)
      ++ (notify e name pre_read ++ (acts ++ notify e name free_context)),
)

abbrev pub can_you_activate_me_name : String
can_you_activate_me_name = "SinbohaRPC.CanYouActivateMe"

abbrev pub sync_data_name : String
sync_data_name = "SinbohaRPC.SyncData"

module _ (P : Protocol) where
  open P use {In, read_message_end, read_end}

  unfoldable pub request_can_you_activate_me : ℕ → In → Run (CanYouActivateMeArgs × In)
  request_can_you_activate_me n i = do
    (args, i₁) ← read_can_you_activate_me_args P n i
    i₂ ← read_message_end i₁
    i₃ ← read_end i₂
    done (args, i₃)

  unfoldable pub request_sync_data : ℕ → In → Run (SyncDataArgs × In)
  request_sync_data n i = do
    (args, i₁) ← read_sync_data_args P n i
    i₂ ← read_message_end i₁
    i₃ ← read_end i₂
    done (args, i₃)

module _ (P : Protocol) {S : Type 0} (h : Handler S) {C : Type 0} (e : EventHandler C) where
  open P use {In, read_message_end, read_end}

  unfoldable pub notified_can_you_activate_me : ℕ → ℤ → In → S → Run (In × S) × List (Act C)
  unfolding request_can_you_activate_me
  notified_can_you_activate_me n seqid i s =
      let name = can_you_activate_me_name in
      with_context e name (
        with_request (request_can_you_activate_me P n i) (λ (args, i').
          let (s', outcome) = h.can_you_activate_me args.change_time args.status s in
          (
            done (i', s'),
            notify e name post_read ++ answer_acts e name outcome (allowed_message h seqid outcome),
          )))

  unfoldable pub notified_sync_data : ℕ → ℤ → In → S → Run (In × S) × List (Act C)
  unfolding request_sync_data
  notified_sync_data n seqid i s =
      let name = sync_data_name in
      with_context e name (
        with_request (request_sync_data P n i) (λ (args, i').
          let (s', outcome) = h.sync_data args.data_bytes s in
          (
            done (i', s'),
            notify e name post_read ++ answer_acts e name outcome (code_message h seqid outcome),
          )))
