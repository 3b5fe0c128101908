-- ===== src/Rpc/Concurrent/Rounds.antt =====
-- One round of a caller of `CanYouActivateMe` on a shared connection (SinbohaRPCConcurrentClient of
-- Sinboha/gen-cpp/SinbohaRPC.cpp), before an answer or after its beginning.

use sinboha.Prelude.{
  ℕ, ◌<◌, ◌≡◌, ◌≢◌, refl, arith, Bool, true, false, String, none, some, List, [], ◌∷◌, ◌++◌,
}
use sinboha.Prelude.Int.{ℤ, pos}
use sinboha.NetClient.{Outcome, returned, threw, thrift_exception}
use sinboha.Rpc.{
  Protocol, done, ◌>>=◌, TMessageType, t_reply, t_exception, Write, write_message_begin,
  write_message_end, write_exception, write_end, flush,
}
use sinboha.Rpc.Structs.{write_can_you_activate_me_result}
use sinboha.Rpc.Delivery.{Delivers, Field, of_bool, write_struct, latest, present}
use sinboha.Rpc.Readers.{read_can_you_activate_me_result-latest}
use sinboha.Rpc.Processor.{Handler, allowed_message}
use sinboha.Rpc.Concurrent.{
  SyncInfo, Begun, same_id, Round, answers, throws, waits, recv_round,
  recv_can_you_activate_me_round,
}

-- The test of the numbers says what they are.
pub same_id-true : (m n : ℤ) → same_id m n ≡ true → m ≡ n
unfolding same_id
same_id-true m n e = ground arith

pub same_id-false : (m n : ℤ) → m ≢ n → same_id m n ≡ false
unfolding same_id
same_id-false m n e = ground arith

pub same_id-same : (m : ℤ) → same_id m m ≡ true
unfolding same_id
same_id-same m = ground arith

-- The library keeps one message begun: it is handed out once, to the next that asks.
pub record KeepsBegun (S : SyncInfo) : Type 0 where
  pub idle : S.State
  pub nothing_begun : S.get_pending idle ≡ (none, idle)
  pub one_begun : (m : Begun) → S.get_pending (S.update_pending m idle) ≡ (some m, idle)

-- The answer to the call with this number.
abbrev pub Reply : Type 0
Reply = ℤ × Outcome Bool

abbrev pub kind : {A : Type 0} → Outcome A → TMessageType
kind (returned b) = t_reply
kind (threw x) = t_exception

abbrev pub result_of : {A : Type 0} → Outcome A → Round A
result_of (returned b) = answers b
result_of (threw x) = throws thrift_exception

abbrev pub closing : List Write → List Write
closing ws = write_message_end ∷ write_end ∷ flush ∷ ws

module _ {T : Type 0} (h : Handler T) where
  -- The answers, one after the other, as the processor writes them.
  abbrev pub messages : List Reply → List Write
  messages [] = []
  messages ((s, o) ∷ rs) = allowed_message h s o ++ messages rs

  -- A message after its beginning.
  abbrev pub body : Outcome Bool → List Write → List Write
  body (returned b) ws =
      write_struct "SinbohaRPC_CanYouActivateMe_result" (("success", pos 0, of_bool b) ∷ [])
        (closing ws)
  body (threw x) ws = write_exception (h.what x) ∷ closing ws

  abbrev pub begun_of : Reply → Begun
  begun_of (s, o) = ("CanYouActivateMe", kind o, s)

  pub message_lem :
      (s : ℤ) (o : Outcome Bool) (ws : List Write)
      → allowed_message h s o ++ ws ≡ write_message_begin "CanYouActivateMe" (kind o) s ∷ body o ws
  unfolding write_can_you_activate_me_result
  message_lem s (returned b) ws = refl
  message_lem s (threw x) ws = refl

  module _ (P : Protocol) (D : Delivers P) (S : SyncInfo) (K : KeepsBegun S) where
    open P use {In}
    open D use {deliver}
    open S use {State, update_pending}

    -- Where reading stands before the answers `rs`: before the first, or after its beginning, which
    -- the library keeps.
    pub data At : List Reply → In → State → Type 0 where
      before : (rs : List Reply) → At rs (deliver (messages rs)) K.idle
      inside :
          (s : ℤ) (o : Outcome Bool) (rs : List Reply)
          → At
              ((s, o) ∷ rs)
              (deliver (body o (messages rs)))
              (update_pending (begun_of (s, o)) K.idle)

    pub own_round :
        (n : ℕ) (memory : Bool) (k s : ℤ) (o : Outcome Bool) (rs : List Reply) (i : In) (q : State)
        → 1 < n
        → same_id k s ≡ true
        → At ((s, o) ∷ rs) i q
        → recv_can_you_activate_me_round P S n memory k i q
          ≡ done (result_of o, deliver (messages rs), K.idle)
    unfolding recv_can_you_activate_me_round recv_round latest present
    own_round n memory k s (returned b) rs i q l e (before r) =
        let struct : String = "SinbohaRPC_CanYouActivateMe_result" in
        let fs : List Field = ("success", pos 0, of_bool b) ∷ [] in
        let rest = messages rs in
        rw (
          K.nothing_begun,
          message_lem s (returned b) rest,
          D.message_begins "CanYouActivateMe" t_reply s (body (returned b) rest),
          ◌>>=◌,
          e,
          read_can_you_activate_me_result-latest P D n memory struct fs (closing rest) l,
          D.message_ends (write_end ∷ flush ∷ rest),
          D.ends rest,
        )
    own_round n memory k s (threw x) rs i q l e (before r) =
        let rest = messages rs in
        rw (
          K.nothing_begun,
          message_lem s (threw x) rest,
          D.message_begins "CanYouActivateMe" t_exception s (body (threw x) rest),
          ◌>>=◌,
          e,
          D.exception_arrives (h.what x) (closing rest),
          D.message_ends (write_end ∷ flush ∷ rest),
          D.ends rest,
        )
    own_round n memory k s (returned b) rs i q l e (inside s' o' r) =
        let struct : String = "SinbohaRPC_CanYouActivateMe_result" in
        let fs : List Field = ("success", pos 0, of_bool b) ∷ [] in
        let rest = messages rs in
        rw (
          K.one_begun (begun_of (s, returned b)),
          ◌>>=◌,
          e,
          read_can_you_activate_me_result-latest P D n memory struct fs (closing rest) l,
          D.message_ends (write_end ∷ flush ∷ rest),
          D.ends rest,
        )
    own_round n memory k s (threw x) rs i q l e (inside s' o' r) =
        let rest = messages rs in
        rw (
          K.one_begun (begun_of (s, threw x)),
          ◌>>=◌,
          e,
          D.exception_arrives (h.what x) (closing rest),
          D.message_ends (write_end ∷ flush ∷ rest),
          D.ends rest,
        )

    pub other_round :
        (n : ℕ) (memory : Bool) (k s : ℤ) (o : Outcome Bool) (rs : List Reply) (i : In) (q : State)
        → same_id k s ≡ false
        → At ((s, o) ∷ rs) i q
        → recv_can_you_activate_me_round P S n memory k i q
          ≡ done (waits, deliver (body o (messages rs)), update_pending (begun_of (s, o)) K.idle)
    unfolding recv_can_you_activate_me_round recv_round
    other_round n memory k s o rs i q e (before r) =
        let rest = messages rs in
        rw (
          K.nothing_begun,
          message_lem s o rest,
          D.message_begins "CanYouActivateMe" (kind o) s (body o rest),
          ◌>>=◌,
          e,
        )
    other_round n memory k s o rs i q e (inside s' o' r) =
        rw (K.one_begun (begun_of (s, o)), ◌>>=◌, e)
