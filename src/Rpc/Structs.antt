-- ===== src/Rpc/Structs.antt =====
-- The arguments and results of the two calls (Sinboha/gen-cpp/SinbohaRPC.cpp): how each is read and
-- written. A reader takes the values that the fields have before: 0 and empty from the constructor of
-- arguments and results, and what is in memory behind the pointer of a `presult`.
use sinboha.Prelude.{ℕ, Bool, true, false, List, [], ◌∷◌, ◌++◌, if◌then◌else◌}
use sinboha.Prelude.Int.{ℤ, pos}
use sinboha.StatusRep.{Bytes}
use sinboha.Rpc.{
  Protocol, Run, done, ◌>>=◌, TType, t_bool, t_i16, t_i64, t_string, Write, write_struct_begin,
  write_struct_end, write_field_begin, write_field_end, write_field_stop, write_bool, write_i16,
  write_i64, write_string, is_field, read_struct,
}

pub record CanYouActivateMeArgs : Type 0 where
  pub change_time : ℤ
  pub status : ℤ
  pub isset_change_time : Bool
  pub isset_status : Bool

pub record SyncDataArgs : Type 0 where
  pub data_bytes : Bytes
  pub isset_data : Bool

-- A result, and a `presult` with the value behind its pointer.
pub record CallResult (A : Type 0) : Type 0 where
  pub success : A
  pub isset : Bool

abbrev pub new_can_you_activate_me_args : CanYouActivateMeArgs
new_can_you_activate_me_args = record {
  change_time = pos 0;
  status = pos 0;
  isset_change_time = false;
  isset_status = false;
}

abbrev pub new_sync_data_args : SyncDataArgs
new_sync_data_args = record { data_bytes = []; isset_data = false }

-- The writers of the two `pargs`, which the client uses; those of `args` differ in the name of the
-- struct alone.
unfoldable pub write_can_you_activate_me_args : ℤ → ℤ → List Write
write_can_you_activate_me_args change_time status =
    write_struct_begin "SinbohaRPC_CanYouActivateMe_pargs"
    ∷ write_field_begin "ChangeTime" t_i64 (pos 1)
    ∷ write_i64 change_time
    ∷ write_field_end
    ∷ write_field_begin "Status" t_i16 (pos 2)
    ∷ write_i16 status
    ∷ write_field_end
    ∷ write_field_stop
    ∷ write_struct_end
    ∷ []

unfoldable pub write_sync_data_args : Bytes → List Write
write_sync_data_args b =
    write_struct_begin "SinbohaRPC_SyncData_pargs"
    ∷ write_field_begin "Data" t_string (pos 1)
    ∷ write_string b
    ∷ write_field_end
    ∷ write_field_stop
    ∷ write_struct_end
    ∷ []

unfoldable pub write_can_you_activate_me_result : CallResult Bool → List Write
write_can_you_activate_me_result r =
    write_struct_begin "SinbohaRPC_CanYouActivateMe_result"
    ∷ ((if r.isset
          then write_field_begin "success" t_bool (pos 0)
            ∷ write_bool r.success
            ∷ write_field_end
            ∷ []
          else [])
        ++ (write_field_stop ∷ write_struct_end ∷ []))

unfoldable pub write_sync_data_result : CallResult ℤ → List Write
write_sync_data_result r =
    write_struct_begin "SinbohaRPC_SyncData_result"
    ∷ ((if r.isset
          then write_field_begin "success" t_i16 (pos 0)
            ∷ write_i16 r.success
            ∷ write_field_end
            ∷ []
          else [])
        ++ (write_field_stop ∷ write_struct_end ∷ []))

abbrev pub is_bool : TType → Bool
is_bool t_bool = true
is_bool _ = false

abbrev pub is_i16 : TType → Bool
is_i16 t_i16 = true
is_i16 _ = false

abbrev pub is_i64 : TType → Bool
is_i64 t_i64 = true
is_i64 _ = false

abbrev pub is_string : TType → Bool
is_string t_string = true
is_string _ = false

module _ (P : Protocol) where
  open P use {In, read_bool, read_i16, read_i64, read_string, skip}

  -- `skip`, which leaves the value as it is.
  abbrev pub pass {ℓ} : {A : Type ℓ} → TType → A → In → Run (A × In)
  pass t a i = skip t i >>= λ i'. done (a, i')

  -- The `switch` of each reader.
  unfoldable pub can_you_activate_me_args_field :
      TType → ℤ → CanYouActivateMeArgs → In → Run (CanYouActivateMeArgs × In)
  can_you_activate_me_args_field t fid a i =
      if is_field fid 1
      then (if is_i64 t
          then (read_i64 i >>= λ (z, i').
              done (record a { change_time = z; isset_change_time = true }, i'))
          else pass t a i)
      else if is_field fid 2
      then (if is_i16 t
          then (read_i16 i >>= λ (z, i'). done (record a { status = z; isset_status = true }, i'))
          else pass t a i)
      else pass t a i

  unfoldable pub sync_data_args_field : TType → ℤ → SyncDataArgs → In → Run (SyncDataArgs × In)
  sync_data_args_field t fid a i =
      if is_field fid 1
      then (if is_string t
          then (read_string i >>= λ (b, i').
              done (record { data_bytes = b; isset_data = true }, i'))
          else pass t a i)
      else pass t a i

  unfoldable pub can_you_activate_me_result_field :
      TType → ℤ → CallResult Bool → In → Run (CallResult Bool × In)
  can_you_activate_me_result_field t fid a i =
      if is_field fid 0
      then (if is_bool t
          then (read_bool i >>= λ (b, i'). done (record { success = b; isset = true }, i'))
          else pass t a i)
      else pass t a i

  unfoldable pub sync_data_result_field : TType → ℤ → CallResult ℤ → In → Run (CallResult ℤ × In)
  sync_data_result_field t fid a i =
      if is_field fid 0
      then (if is_i16 t
          then (read_i16 i >>= λ (z, i'). done (record { success = z; isset = true }, i'))
          else pass t a i)
      else pass t a i

  -- The readers, with at most so many rounds of the loop.
  unfoldable pub read_can_you_activate_me_args : ℕ → In → Run (CanYouActivateMeArgs × In)
  read_can_you_activate_me_args n i =
      read_struct P can_you_activate_me_args_field n new_can_you_activate_me_args i

  unfoldable pub read_sync_data_args : ℕ → In → Run (SyncDataArgs × In)
  read_sync_data_args n i = read_struct P sync_data_args_field n new_sync_data_args i

  unfoldable pub read_can_you_activate_me_result : ℕ → Bool → In → Run (CallResult Bool × In)
  read_can_you_activate_me_result n memory i =
      read_struct P can_you_activate_me_result_field n (record { success = memory; isset = false })
        i

  unfoldable pub read_sync_data_result : ℕ → ℤ → In → Run (CallResult ℤ × In)
  read_sync_data_result n memory i =
      read_struct P sync_data_result_field n (record { success = memory; isset = false }) i
