-- ===== src/Rpc/Events/Around.antt =====
-- What an event handler is told of the two methods of SinbohaRPCProcessor
-- (Sinboha/gen-cpp/SinbohaRPC.cpp).
use sinboha.Prelude.{◌≡◌, Bool, true, false, String, if◌then◌else◌, none, some, List, [], ◌∷◌, ◌++◌}
use sinboha.NetClient.{Exception, Outcome, returned, threw}
use sinboha.Rpc.{Protocol, Run, done, failed, unfinished, Write, write_message_begin, t_reply}
use sinboha.Rpc.Processor.{Handler}
use sinboha.Rpc.Events.{
  EventHandler, Act, notify, hook, handle, write, get_context, pre_read, post_read, pre_write,
  post_write, handler_error, free_context, answer_acts,
}

-- What is written is a reply, not an exception.
abbrev is_reply_message : List Write → Bool
is_reply_message (write_message_begin name t_reply seqid ∷ ws) = true
is_reply_message _ = false

-- What a method does with an event handler whose `getContext` gives `c`, by what comes of the request
-- without one: everything in order, each call of the event handler written out.
abbrev told : {C I S : Type 0} → String → C → Run (I × S × List Write) → List (Act C)
told name c (done (i, s, ws)) =
    hook name get_context
    ∷ hook name (pre_read c)
    ∷ hook name (post_read c)
    ∷ handle
    ∷ (if is_reply_message ws
        then hook name (pre_write c)
          ∷ write ws
          ∷ hook name (post_write c)
          ∷ hook name (free_context c)
          ∷ []
        else hook name (handler_error c) ∷ write ws ∷ hook name (free_context c) ∷ [])
told name c _ = hook name get_context ∷ hook name (pre_read c) ∷ hook name (free_context c) ∷ []

-- What it does without one.
abbrev untold : {C I S : Type 0} → Run (I × S × List Write) → List (Act C)
untold (done (i, s, ws)) = handle ∷ write ws ∷ []
untold _ = []

-- What is left to read and the state of the handler.
abbrev left_over : {I S : Type 0} → Run (I × S × List Write) → Run (I × S)
left_over (done (i, s, ws)) = done (i, s)
left_over (failed x) = failed x
left_over unfinished = unfinished

abbrev pub with_hooks :
    {C I S : Type 0}
    → EventHandler C
    → String
    → Run (I × S × List Write)
    → Run (I × S) × List (Act C)
with_hooks none name r = (left_over r, untold r)
with_hooks (some context) name r = (left_over r, told name (context name) r)

module _ (P : Protocol) {S : Type 0} (h : Handler S) {C : Type 0} (e : EventHandler C) where
  open P use {In, read_message_end, read_end}

  module _ {A B : Type 0} (name : String) (call : A → S × Outcome B)
      (message : Outcome B → List Write)
      (reply : (b : B) → is_reply_message (message (returned b)) ≡ true)
      (other : (x : Exception) → is_reply_message (message (threw x)) ≡ false) where
    abbrev called : A × In → Run (In × S) × List (Act C)
    called (a, i) =
        let (s', outcome) = call a in
        (done (i, s'), notify e name post_read ++ answer_acts e name outcome (message outcome))

    abbrev plain : A × In → Run (In × S × List Write)
    plain (a, i) = let (s', outcome) = call a in done (i, s', message outcome)
