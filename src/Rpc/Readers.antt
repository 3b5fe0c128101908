-- ===== src/Rpc/Readers.antt =====
-- What the readers of Sinboha/gen-cpp/SinbohaRPC.cpp make of a struct with fields of the types bool, i16,
-- i64 and string, in any order, as a peer with another version of Sinboha/sinboha.idl could send it.
use sinboha.Prelude.{
  Option, ℕ, ◌<◌, ◌≡◌, refl, ◌∙◌, Bool, false, String, List, [], ◌∷◌, arith, length,
}
use sinboha.Prelude.Int.{ℤ, pos}
use sinboha.Rpc.{Protocol, done, Write, is_field}
use sinboha.Rpc.Structs.{
  CanYouActivateMeArgs, SyncDataArgs, CallResult, new_can_you_activate_me_args, new_sync_data_args,
  can_you_activate_me_args_field, sync_data_args_field, can_you_activate_me_result_field,
  sync_data_result_field, read_can_you_activate_me_args, read_sync_data_args,
  read_can_you_activate_me_result, read_sync_data_result,
}
use sinboha.Rpc.Delivery.{
  Value, type_of, write_value, Field, write_struct, Delivers, choose, has_some, latest, present,
  number, text, truth, as_bool, as_i16, as_i64, as_string, all_fields, read_struct-all,
}

abbrev args_step : Field → CanYouActivateMeArgs → CanYouActivateMeArgs
args_step (name, fid, v) a = record {
  change_time = choose (is_field fid 1) (as_i64 v) a.change_time;
  status = choose (is_field fid 2) (as_i16 v) a.status;
  isset_change_time = has_some (is_field fid 1) (as_i64 v) a.isset_change_time;
  isset_status = has_some (is_field fid 2) (as_i16 v) a.isset_status;
}

all_args_steps :
    (fs : List Field) (a : CanYouActivateMeArgs)
    → all_fields args_step fs a ≡ record {
      change_time = latest as_i64 1 a.change_time fs;
      status = latest as_i16 2 a.status fs;
      isset_change_time = present as_i64 1 a.isset_change_time fs;
      isset_status = present as_i16 2 a.isset_status fs;
    }
unfolding latest present
all_args_steps [] a = refl
all_args_steps (f ∷ fs) a = all_args_steps fs (args_step f a)

abbrev data_step : Field → SyncDataArgs → SyncDataArgs
data_step (name, fid, v) a = record {
  data_bytes = choose (is_field fid 1) (as_string v) a.data_bytes;
  isset_data = has_some (is_field fid 1) (as_string v) a.isset_data;
}

all_data_steps :
    (fs : List Field) (a : SyncDataArgs)
    → all_fields data_step fs a ≡ record {
      data_bytes = latest as_string 1 a.data_bytes fs;
      isset_data = present as_string 1 a.isset_data fs;
    }
unfolding latest present
all_data_steps [] a = refl
all_data_steps (f ∷ fs) a = all_data_steps fs (data_step f a)

abbrev pub result_step : {A : Type 0} → (Value → Option A) → Field → CallResult A → CallResult A
result_step pick (name, fid, v) a = record {
  success = choose (is_field fid 0) (pick v) a.success;
  isset = has_some (is_field fid 0) (pick v) a.isset;
}

pub all_result_steps :
    {A : Type 0} (pick : Value → Option A) (fs : List Field) (a : CallResult A)
    → all_fields (result_step pick) fs a
      ≡ record { success = latest pick 0 a.success fs; isset = present pick 0 a.isset fs }
unfolding latest present
all_result_steps pick [] a = refl
all_result_steps pick (f ∷ fs) a = all_result_steps pick fs (result_step pick f a)

module _ (P : Protocol) (D : Delivers P) where
  open P use {In}
  open D use {deliver}

  args_field_lem :
      (name : String) (fid : ℤ) (v : Value) (a : CanYouActivateMeArgs) (ws : List Write)
      → can_you_activate_me_args_field P (type_of v) fid a (deliver (write_value v ∷ ws))
        ≡ done (args_step (name, fid, v) a, deliver ws)
  unfolding can_you_activate_me_args_field
  args_field_lem name fid v a ws =
      ground (arith, D.i64_arrives (number v) ws, D.i16_arrives (number v) ws, D.value_skipped v ws)

  -- The reader of the arguments takes fields of the four types of `Value` in any order, without an
  -- error and in as many rounds as there are fields and one more.
  pub read_can_you_activate_me_args-latest :
      (n : ℕ) (struct : String) (fs : List Field) (ws : List Write)
      → length fs < n
      → read_can_you_activate_me_args P n (deliver (write_struct struct fs ws))
        ≡ done (
          record {
            change_time = latest as_i64 1 (pos 0) fs;
            status = latest as_i16 2 (pos 0) fs;
            isset_change_time = present as_i64 1 false fs;
            isset_status = present as_i16 2 false fs;
          },
          deliver ws,
        )
  unfolding read_can_you_activate_me_args
  read_can_you_activate_me_args-latest n struct fs ws l =
      read_struct-all P D (can_you_activate_me_args_field P) args_step args_field_lem n struct fs
        new_can_you_activate_me_args ws l
      ∙ rw (all_args_steps fs new_can_you_activate_me_args)

  data_field_lem :
      (name : String) (fid : ℤ) (v : Value) (a : SyncDataArgs) (ws : List Write)
      → sync_data_args_field P (type_of v) fid a (deliver (write_value v ∷ ws))
        ≡ done (data_step (name, fid, v) a, deliver ws)
  unfolding sync_data_args_field
  data_field_lem name fid v a ws =
      ground (arith, D.string_arrives (text v) ws, D.value_skipped v ws)

  -- The same of the other arguments: the last string with number 1 counts.
  pub read_sync_data_args-latest :
      (n : ℕ) (struct : String) (fs : List Field) (ws : List Write)
      → length fs < n
      → read_sync_data_args P n (deliver (write_struct struct fs ws))
        ≡ done (
          record {
            data_bytes = latest as_string 1 [] fs;
            isset_data = present as_string 1 false fs;
          },
          deliver ws,
        )
  unfolding read_sync_data_args
  read_sync_data_args-latest n struct fs ws l =
      read_struct-all P D (sync_data_args_field P) data_step data_field_lem n struct fs
        new_sync_data_args ws l
      ∙ rw (all_data_steps fs new_sync_data_args)

  pub allowed_field_lem :
      (name : String) (fid : ℤ) (v : Value) (a : CallResult Bool) (ws : List Write)
      → can_you_activate_me_result_field P (type_of v) fid a (deliver (write_value v ∷ ws))
        ≡ done (result_step as_bool (name, fid, v) a, deliver ws)
  unfolding can_you_activate_me_result_field
  allowed_field_lem name fid v a ws =
      ground (arith, D.bool_arrives (truth v) ws, D.value_skipped v ws)

  -- The same of the results: the last value of the right type with number 0 counts, and without one
  -- the result says that it is not set.
  pub read_can_you_activate_me_result-latest :
      (n : ℕ) (memory : Bool) (struct : String) (fs : List Field) (ws : List Write)
      → length fs < n
      → read_can_you_activate_me_result P n memory (deliver (write_struct struct fs ws))
        ≡ done (
          record { success = latest as_bool 0 memory fs; isset = present as_bool 0 false fs },
          deliver ws,
        )
  unfolding read_can_you_activate_me_result
  read_can_you_activate_me_result-latest n memory struct fs ws l =
      let a : CallResult Bool = record { success = memory; isset = false } in
      read_struct-all P D (can_you_activate_me_result_field P) (result_step as_bool)
        allowed_field_lem n struct fs a ws l
      ∙ rw (all_result_steps as_bool fs a)

  pub code_field_lem :
      (name : String) (fid : ℤ) (v : Value) (a : CallResult ℤ) (ws : List Write)
      → sync_data_result_field P (type_of v) fid a (deliver (write_value v ∷ ws))
        ≡ done (result_step as_i16 (name, fid, v) a, deliver ws)
  unfolding sync_data_result_field
  code_field_lem name fid v a ws = ground (arith, D.i16_arrives (number v) ws, D.value_skipped v ws)

  pub read_sync_data_result-latest :
      (n : ℕ) (memory : ℤ) (struct : String) (fs : List Field) (ws : List Write)
      → length fs < n
      → read_sync_data_result P n memory (deliver (write_struct struct fs ws))
        ≡ done (
          record { success = latest as_i16 0 memory fs; isset = present as_i16 0 false fs },
          deliver ws,
        )
  unfolding read_sync_data_result
  read_sync_data_result-latest n memory struct fs ws l =
      let a : CallResult ℤ = record { success = memory; isset = false } in
      read_struct-all P D (sync_data_result_field P) (result_step as_i16) code_field_lem n struct fs
        a ws l
      ∙ rw (all_result_steps as_i16 fs a)
