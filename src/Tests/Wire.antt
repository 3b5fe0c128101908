-- ===== src/Tests/Wire.antt =====
-- A protocol object that keeps the calls themselves, and the generated code over it.
use sinboha.RpcHandler.Factory.{
  ConnectionEvent, opens, closes, Server, serve_all, new_server, handlers_of,
}
use sinboha.RpcHandler.Factory.Kept.{serve_all-live}
use sinboha.Prelude.{ℕ, suc, ◌≡◌, refl, Bool, true, false, some, String, List, [], ◌∷◌, arith}
use sinboha.Prelude.Int.{ℤ, pos}
use sinboha.StatusRep.{Bytes}
use sinboha.NetClient.{Exception, returned, threw, transport_exception}
use sinboha.Rpc.{
  Protocol, Run, done, failed, TType, t_stop, t_struct, TMessageType, Write, write_message_begin,
  write_message_end, write_struct_begin, write_struct_end, write_field_begin, write_field_end,
  write_field_stop, write_bool, write_i16, write_i64, write_string, write_exception, write_end,
  flush,
}
use sinboha.Rpc.Structs.{CanYouActivateMeArgs, read_can_you_activate_me_args}
use sinboha.Rpc.Delivery.{
  Delivers, Field, Value, type_of, write_value, write_fields, of_bool, of_i16, of_i64, of_string,
  write_struct, as_i16, as_i64,
}
use sinboha.Rpc.Last.{IsLast, read_can_you_activate_me_args-IsLast}
use sinboha.Rpc.Processor.{Handler}
use sinboha.Rpc.Call.{answer, call_can_you_activate_me, call_sync_data}
use sinboha.Rpc.Service.{rpc_handler, calls-link}
use sinboha.Pair.Link.{link}
use sinboha.Tests.Data.{ticks, late, line}

abbrev wrong {ℓ} : {A : Type ℓ} → Run A
wrong = failed transport_exception

abbrev message_begin : List Write → Run (String × TMessageType × ℤ × List Write)
message_begin (write_message_begin name kind seqid ∷ ws) = done (name, kind, seqid, ws)
message_begin _ = wrong

abbrev message_end : List Write → Run (List Write)
message_end (write_message_end ∷ ws) = done ws
message_end _ = wrong

abbrev struct_begin : List Write → Run (List Write)
struct_begin (write_struct_begin name ∷ ws) = done ws
struct_begin _ = wrong

abbrev struct_end : List Write → Run (List Write)
struct_end (write_struct_end ∷ ws) = done ws
struct_end _ = wrong

abbrev field_begin : List Write → Run (TType × ℤ × List Write)
field_begin (write_field_begin name t fid ∷ ws) = done (t, fid, ws)
field_begin (write_field_stop ∷ ws) = done (t_stop, pos 0, ws)
field_begin _ = wrong

abbrev field_end : List Write → Run (List Write)
field_end (write_field_end ∷ ws) = done ws
field_end _ = wrong

abbrev a_bool : List Write → Run (Bool × List Write)
a_bool (write_bool b ∷ ws) = done (b, ws)
a_bool _ = wrong

abbrev an_i16 : List Write → Run (ℤ × List Write)
an_i16 (write_i16 z ∷ ws) = done (z, ws)
an_i16 _ = wrong

abbrev an_i64 : List Write → Run (ℤ × List Write)
an_i64 (write_i64 z ∷ ws) = done (z, ws)
an_i64 _ = wrong

abbrev a_string : List Write → Run (Bytes × List Write)
a_string (write_string b ∷ ws) = done (b, ws)
a_string _ = wrong

-- A value is one call; a struct ends with its end.
abbrev after_struct : List Write → Run (List Write)
after_struct [] = wrong
after_struct (write_struct_end ∷ ws) = done ws
after_struct (w ∷ ws) = after_struct ws

abbrev after_value : TType → List Write → Run (List Write)
after_value t_struct ws = after_struct ws
after_value t [] = wrong
after_value t (w ∷ ws) = done ws

abbrev an_exception : List Write → Run (List Write)
an_exception (write_exception what ∷ ws) = done ws
an_exception _ = wrong

abbrev transport_end : List Write → Run (List Write)
transport_end (write_end ∷ flush ∷ ws) = done ws
transport_end _ = wrong

abbrev pub calls : Protocol
calls = record {
  In = List Write;
  read_message_begin = message_begin;
  read_message_end = message_end;
  read_struct_begin = struct_begin;
  read_struct_end = struct_end;
  read_field_begin = field_begin;
  read_field_end = field_end;
  read_bool = a_bool;
  read_i16 = an_i16;
  read_i64 = an_i64;
  read_string = a_string;
  skip = after_value;
  read_exception = an_exception;
  read_end = transport_end;
}

pub value_passed :
    (v : Value) (ws : List Write) → after_value (type_of v) (write_value v ∷ ws) ≡ done ws
value_passed (of_bool b) ws = refl
value_passed (of_i16 z) ws = refl
value_passed (of_i64 z) ws = refl
value_passed (of_string b) ws = refl

pub struct_passed :
    (fs : List Field) (ws : List Write)
    → after_struct (write_fields fs (write_struct_end ∷ ws)) ≡ done ws
struct_passed [] ws = refl
struct_passed ((name, fid, of_bool b) ∷ fs) ws = struct_passed fs ws
struct_passed ((name, fid, of_i16 z) ∷ fs) ws = struct_passed fs ws
struct_passed ((name, fid, of_i64 z) ∷ fs) ws = struct_passed fs ws
struct_passed ((name, fid, of_string b) ∷ fs) ws = struct_passed fs ws

abbrev pub calls_deliver : Delivers calls
calls_deliver = record {
  deliver = λ ws. ws;
  message_begins = λ name kind seqid ws. refl;
  message_ends = λ ws. refl;
  struct_begins = λ name ws. refl;
  struct_ends = λ ws. refl;
  field_begins = λ name t fid ws. refl;
  field_ends = λ ws. refl;
  fields_stop = λ ws. refl;
  bool_arrives = λ b ws. refl;
  i16_arrives = λ z ws. refl;
  i64_arrives = λ z ws. refl;
  string_arrives = λ b ws. refl;
  value_skipped = value_passed;
  struct_skipped = λ name fs ws. struct_passed fs ws;
  exception_arrives = λ what ws. refl;
  ends = λ ws. refl;
}

abbrev nameless : Exception → String
nameless x = ""

-- A handler that counts its calls, and throws if it gets no data.
abbrev pub counter : Handler ℕ
counter = record {
  can_you_activate_me = λ t st k. (suc k, returned true);
  sync_data =
      λ b k. (suc k, elim b [ [] ↦ threw transport_exception | ◌∷◌ c b' ↦ returned (pos 0) ]);
  what = nameless;
}

-- The fields the other way round, one twice, and one that is not known.
abbrev odd_fields : List Field
odd_fields =
    ("Status", pos 2, of_i16 (pos 1))
    ∷ ("Later", pos 7, of_string (65 ∷ []))
    ∷ ("ChangeTime", pos 1, of_i64 (pos 5))
    ∷ ("ChangeTime", pos 1, of_i64 (pos 6))
    ∷ []

read_can_you_activate_me_args-IsLast_example :
    (a : CanYouActivateMeArgs) × (read_can_you_activate_me_args calls 5
        (write_struct "args" odd_fields [])
      ≡ done (a, []))
    × IsLast as_i64 1 (pos 0) a.change_time a.isset_change_time odd_fields
    × IsLast as_i16 2 (pos 0) a.status a.isset_status odd_fields
read_can_you_activate_me_args-IsLast_example =
    read_can_you_activate_me_args-IsLast calls calls_deliver 5 "args" odd_fields [] (omega arith)

calls-link_example :
    let R = link ticks (pos 200000) in
    let h = rpc_handler nameless ticks (pos 200000) in
    (call_can_you_activate_me calls calls_deliver h 3 false (pos 12) (pos 0) (late, []) ≡ (
      let (net', o) = R.call_can_you_activate_me line (pos 12) (pos 0) (late, []) in
      done (net', answer calls calls_deliver h o)))
    × (call_sync_data calls calls_deliver h 3 (pos 9) (65 ∷ []) (late, []) ≡ (
        let (net', o) = R.call_sync_data line (65 ∷ []) (late, []) in
        done (net', answer calls calls_deliver h o)))
calls-link_example =
    calls-link calls calls_deliver nameless ticks (pos 200000) line 3 false (pos 9) (pos 12) (pos 0)
      (65 ∷ []) (late, []) (omega arith)

-- Three connections, of which the second to come ends first.
abbrev visits : List ConnectionEvent
visits = opens true ∷ opens true ∷ opens false ∷ closes 1 ∷ opens true ∷ closes 7 ∷ closes 2 ∷ []

serve_all-live_example :
    (s : Server) × (serve_all visits (new_server 0) ≡ some s)
    × (s.handlers.live ≡ handlers_of s.processors)
serve_all-live_example = serve_all-live visits 0
