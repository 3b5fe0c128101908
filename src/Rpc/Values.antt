-- ===== src/Rpc/Values.antt =====
-- The structs of the two calls as values (Sinboha/gen-cpp/SinbohaRPC.h and SinbohaRPC.cpp): the writers of
-- `args`, the readers of `result` and the comparisons, which the program leaves to other programs over
-- the same code.
use sinboha.Prelude.{
  ℕ, Bool-cases, inl, inr, ◌<◌, ◌≡◌, Bool, true, String, List, [], ◌∷◌, ◌++◌, arith, if◌then◌else◌,
}
use sinboha.Prelude.Int.{ℤ, pos}
use sinboha.Rpc.{
  Protocol, Run, done, t_i16, t_i64, t_string, Write, write_struct_begin, write_struct_end,
  write_field_begin, write_field_end, write_field_stop, write_i16, write_i64, write_string,
  read_struct,
}
use sinboha.Rpc.Structs.{
  CanYouActivateMeArgs, SyncDataArgs, CallResult, can_you_activate_me_result_field,
  sync_data_result_field, write_can_you_activate_me_result, write_sync_data_result,
  read_can_you_activate_me_args, read_sync_data_args,
}
use sinboha.Rpc.Delivery.{
  of_bool, of_i16, of_i64, of_string, Delivers, as_bool, as_i16, latest, present, read_struct-all,
}
use sinboha.Rpc.Readers.{
  result_step, allowed_field_lem, code_field_lem, read_can_you_activate_me_args-latest,
  read_sync_data_args-latest,
}

-- The writers of the two `args`.
unfoldable pub write_can_you_activate_me_args : CanYouActivateMeArgs → List Write
write_can_you_activate_me_args a =
    write_struct_begin "SinbohaRPC_CanYouActivateMe_args"
    ∷ write_field_begin "ChangeTime" t_i64 (pos 1)
    ∷ write_i64 a.change_time
    ∷ write_field_end
    ∷ write_field_begin "Status" t_i16 (pos 2)
    ∷ write_i16 a.status
    ∷ write_field_end
    ∷ write_field_stop
    ∷ write_struct_end
    ∷ []

unfoldable pub write_sync_data_args : SyncDataArgs → List Write
write_sync_data_args a =
    write_struct_begin "SinbohaRPC_SyncData_args"
    ∷ write_field_begin "Data" t_string (pos 1)
    ∷ write_string a.data_bytes
    ∷ write_field_end
    ∷ write_field_stop
    ∷ write_struct_end
    ∷ []

module _ (P : Protocol) where
  open P use {In}

  -- The readers of the two `result`, into a result that is there already.
  unfoldable pub read_can_you_activate_me_result :
      ℕ → CallResult Bool → In → Run (CallResult Bool × In)
  read_can_you_activate_me_result n r i = read_struct P (can_you_activate_me_result_field P) n r i

  unfoldable pub read_sync_data_result : ℕ → CallResult ℤ → In → Run (CallResult ℤ × In)
  read_sync_data_result n r i = read_struct P (sync_data_result_field P) n r i

module _ (P : Protocol) (D : Delivers P) where
  open P use {In}
  open D use {deliver}

  pub read_can_you_activate_me_result-write :
      (n : ℕ) (old r : CallResult Bool) (ws : List Write)
      → 1 < n
      → read_can_you_activate_me_result P n old (deliver (write_can_you_activate_me_result r ++ ws))
        ≡ done (if r.isset then r else old, deliver ws)
  unfolding read_can_you_activate_me_result write_can_you_activate_me_result
  read_can_you_activate_me_result-write n old r ws l =
      let struct : String = "SinbohaRPC_CanYouActivateMe_result" in
      let read =
        read_struct-all P D (can_you_activate_me_result_field P) (result_step as_bool)
          (allowed_field_lem P D) n struct in
      elim (Bool-cases r.isset) [
        | inl e ↦ rw e (read (("success", pos 0, of_bool r.success) ∷ []) old ws l)
        | inr e ↦ rw e (read [] old ws (omega arith))
      ]

  pub read_sync_data_result-write :
      (n : ℕ) (old r : CallResult ℤ) (ws : List Write)
      → 1 < n
      → read_sync_data_result P n old (deliver (write_sync_data_result r ++ ws))
        ≡ done (if r.isset then r else old, deliver ws)
  unfolding read_sync_data_result write_sync_data_result
  read_sync_data_result-write n old r ws l =
      let struct : String = "SinbohaRPC_SyncData_result" in
      let read =
        read_struct-all P D (sync_data_result_field P) (result_step as_i16) (code_field_lem P D) n
          struct in
      elim (Bool-cases r.isset) [
        | inl e ↦ rw e (read (("success", pos 0, of_i16 r.success) ∷ []) old ws l)
        | inr e ↦ rw e (read [] old ws (omega arith))
      ]

  pub read_can_you_activate_me_args-write :
      (n : ℕ) (a : CanYouActivateMeArgs) (ws : List Write)
      → 2 < n
      → read_can_you_activate_me_args P n (deliver (write_can_you_activate_me_args a ++ ws))
        ≡ done (record a { isset_change_time = true; isset_status = true }, deliver ws)
  unfolding write_can_you_activate_me_args latest present
  read_can_you_activate_me_args-write n a ws l =
      read_can_you_activate_me_args-latest P D n "SinbohaRPC_CanYouActivateMe_args"
        (("ChangeTime", pos 1, of_i64 a.change_time) ∷ ("Status", pos 2, of_i16 a.status) ∷ []) ws l

  pub read_sync_data_args-write :
      (n : ℕ) (a : SyncDataArgs) (ws : List Write)
      → 1 < n
      → read_sync_data_args P n (deliver (write_sync_data_args a ++ ws))
        ≡ done (record a { isset_data = true }, deliver ws)
  unfolding write_sync_data_args latest present
  read_sync_data_args-write n a ws l =
      read_sync_data_args-latest P D n "SinbohaRPC_SyncData_args"
        (("Data", pos 1, of_string a.data_bytes) ∷ []) ws l

  -- Over a protocol object that delivers what is written, in three rounds of the loop or more, the
  -- arguments of both calls are read as the values that were written, marked as set; a result that
  -- is set is read as it was written, whatever was there before, and one that is not set leaves what
  -- was there.
  pub structs_arrive :
      (n : ℕ) (a : CanYouActivateMeArgs) (d : SyncDataArgs) (r₀ r : CallResult Bool)
      (c₀ c : CallResult ℤ) (ws : List Write)
      → 2 < n
      → (read_can_you_activate_me_args P n (deliver (write_can_you_activate_me_args a ++ ws))
          ≡ done (record a { isset_change_time = true; isset_status = true }, deliver ws))
        × (read_sync_data_args P n (deliver (write_sync_data_args d ++ ws))
            ≡ done (record d { isset_data = true }, deliver ws))
        × (read_can_you_activate_me_result P n r₀
              (deliver (write_can_you_activate_me_result r ++ ws))
            ≡ done (if r.isset then r else r₀, deliver ws))
        × (read_sync_data_result P n c₀ (deliver (write_sync_data_result c ++ ws))
            ≡ done (if c.isset then c else c₀, deliver ws))
  structs_arrive n a d r₀ r c₀ c ws l = (
    read_can_you_activate_me_args-write n a ws l,
    read_sync_data_args-write n d ws (omega arith),
    read_can_you_activate_me_result-write n r₀ r ws (omega arith),
    read_sync_data_result-write n c₀ c ws (omega arith),
  )
