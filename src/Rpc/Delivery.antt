-- ===== src/Rpc/Delivery.antt =====
-- A protocol object that hands on what the other side's protocol object was given, as every protocol
-- of the Thrift library does over a connection that works; and what the readers of
-- Sinboha/gen-cpp/SinbohaRPC.cpp make of a struct with fields of the types that the service uses.
use sinboha.Prelude.{
  ℕ, zero, suc, ◌<◌, ◌≡◌, refl, Bool, true, false, String, List, [], ◌∷◌, Option, none, some, arith,
  length,
}
use sinboha.Prelude.Int.{ℤ, pos}
use sinboha.StatusRep.{Bytes}
use sinboha.Rpc.{
  Protocol, Run, done, ◌>>=◌, TType, t_stop, t_bool, t_i16, t_i64, t_string, t_struct, TMessageType,
  Write, write_message_begin, write_message_end, write_struct_begin, write_struct_end,
  write_field_begin, write_field_end, write_field_stop, write_bool, write_i16, write_i64,
  write_string, write_exception, write_end, flush, is_field, is_stop, read_fields, read_struct,
}

-- A value of a field.
pub data Value : Type 0 where
  of_bool : Bool → Value
  of_i16 : ℤ → Value
  of_i64 : ℤ → Value
  of_string : Bytes → Value

abbrev pub type_of : Value → TType
type_of (of_bool b) = t_bool
type_of (of_i16 z) = t_i16
type_of (of_i64 z) = t_i64
type_of (of_string b) = t_string

abbrev pub write_value : Value → Write
write_value (of_bool b) = write_bool b
write_value (of_i16 z) = write_i16 z
write_value (of_i64 z) = write_i64 z
write_value (of_string b) = write_string b

-- A field: its name, its number and its value.
abbrev pub Field : Type 0
Field = String × ℤ × Value

abbrev pub write_fields : List Field → List Write → List Write
write_fields [] ws = write_field_stop ∷ ws
write_fields ((name, fid, v) ∷ fs) ws =
    write_field_begin name (type_of v) fid ∷ write_value v ∷ write_field_end ∷ write_fields fs ws

-- A struct with these fields.
abbrev pub write_struct : String → List Field → List Write → List Write
write_struct struct fs ws = write_struct_begin struct ∷ write_fields fs (write_struct_end ∷ ws)

-- What has been written is read back call by call.
pub record Delivers (P : Protocol) : Type 0 where
  pub deliver : List Write → P.In
  pub message_begins :
      (name : String) (kind : TMessageType) (seqid : ℤ) (ws : List Write)
      → P.read_message_begin (deliver (write_message_begin name kind seqid ∷ ws))
        ≡ done (name, kind, seqid, deliver ws)
  pub message_ends :
      (ws : List Write) → P.read_message_end (deliver (write_message_end ∷ ws)) ≡ done (deliver ws)
  pub struct_begins :
      (name : String) (ws : List Write)
      → P.read_struct_begin (deliver (write_struct_begin name ∷ ws)) ≡ done (deliver ws)
  pub struct_ends :
      (ws : List Write) → P.read_struct_end (deliver (write_struct_end ∷ ws)) ≡ done (deliver ws)
  pub field_begins :
      (name : String) (t : TType) (fid : ℤ) (ws : List Write)
      → P.read_field_begin (deliver (write_field_begin name t fid ∷ ws)) ≡ done (t, fid, deliver ws)
  pub field_ends :
      (ws : List Write) → P.read_field_end (deliver (write_field_end ∷ ws)) ≡ done (deliver ws)
  pub fields_stop :
      (ws : List Write)
      → P.read_field_begin (deliver (write_field_stop ∷ ws)) ≡ done (t_stop, pos 0, deliver ws)
  pub bool_arrives :
      (b : Bool) (ws : List Write)
      → P.read_bool (deliver (write_bool b ∷ ws)) ≡ done (b, deliver ws)
  pub i16_arrives :
      (z : ℤ) (ws : List Write) → P.read_i16 (deliver (write_i16 z ∷ ws)) ≡ done (z, deliver ws)
  pub i64_arrives :
      (z : ℤ) (ws : List Write) → P.read_i64 (deliver (write_i64 z ∷ ws)) ≡ done (z, deliver ws)
  pub string_arrives :
      (b : Bytes) (ws : List Write)
      → P.read_string (deliver (write_string b ∷ ws)) ≡ done (b, deliver ws)
  pub value_skipped :
      (v : Value) (ws : List Write)
      → P.skip (type_of v) (deliver (write_value v ∷ ws)) ≡ done (deliver ws)
  pub struct_skipped :
      (name : String) (fs : List Field) (ws : List Write)
      → P.skip t_struct (deliver (write_struct name fs ws)) ≡ done (deliver ws)
  pub exception_arrives :
      (what : String) (ws : List Write)
      → P.read_exception (deliver (write_exception what ∷ ws)) ≡ done (deliver ws)
  pub ends : (ws : List Write) → P.read_end (deliver (write_end ∷ flush ∷ ws)) ≡ done (deliver ws)

-- The value of the last field with this number and of the type that `pick` takes.
abbrev pub choose {ℓ} : {A : Type ℓ} → Bool → Option A → A → A
choose true (some a) d = a
choose _ _ d = d

abbrev pub has_some {ℓ} : {A : Type ℓ} → Bool → Option A → Bool → Bool
has_some true (some a) b = true
has_some _ _ b = b

unfoldable pub latest {ℓ} : {A : Type ℓ} → (Value → Option A) → ℕ → A → List Field → A
latest pick k d [] = d
latest pick k d ((name, fid, v) ∷ fs) = latest pick k (choose (is_field fid k) (pick v) d) fs

-- Whether there is such a field, or `b`.
unfoldable pub present {ℓ} : {A : Type ℓ} → (Value → Option A) → ℕ → Bool → List Field → Bool
present pick k b [] = b
present pick k b ((name, fid, v) ∷ fs) = present pick k (has_some (is_field fid k) (pick v) b) fs

-- What is in a value of one type, for the laws on the types.
abbrev pub truth : Value → Bool
truth (of_bool b) = b
truth _ = false

abbrev pub text : Value → Bytes
text (of_string b) = b
text _ = []

abbrev pub number : Value → ℤ
number (of_i16 z) = z
number (of_i64 z) = z
number _ = pos 0

abbrev pub as_i16 : Value → Option ℤ
as_i16 (of_i16 z) = some z
as_i16 _ = none

abbrev pub as_i64 : Value → Option ℤ
as_i64 (of_i64 z) = some z
as_i64 _ = none

abbrev pub as_bool : Value → Option Bool
as_bool (of_bool b) = some b
as_bool _ = none

abbrev pub as_string : Value → Option Bytes
as_string (of_string b) = some b
as_string _ = none

abbrev pub all_fields {ℓ} : {A : Type ℓ} → (Field → A → A) → List Field → A → A
all_fields step [] a = a
all_fields step (f ∷ fs) a = all_fields step fs (step f a)

-- No value has the type of the mark after the last field.
is_stop-type_of : (v : Value) → is_stop (type_of v) ≡ false
unfolding is_stop
is_stop-type_of (of_bool b) = refl
is_stop-type_of (of_i16 z) = refl
is_stop-type_of (of_i64 z) = refl
is_stop-type_of (of_string b) = refl

is_stop-t_stop : is_stop t_stop ≡ true
unfolding is_stop
is_stop-t_stop = refl

module _ (P : Protocol) (D : Delivers P) where
  open P use {In}
  open D use {deliver}

  -- The loop takes the fields one after the other, in as many rounds as there are fields and one more.
  pub read_fields-all {ℓ} :
      {A : Type ℓ} (field : TType → ℤ → A → In → Run (A × In)) (step : Field → A → A)
      → ((name : String) (fid : ℤ) (v : Value) (a : A) (ws : List Write)
          → field (type_of v) fid a (deliver (write_value v ∷ ws))
            ≡ done (step (name, fid, v) a, deliver ws))
      → (n : ℕ) (fs : List Field) (a : A) (ws : List Write) → length fs < n
      → read_fields P field n a (deliver (write_fields fs ws))
        ≡ done (all_fields step fs a, deliver ws)
  unfolding read_fields
  read_fields-all field step h zero fs a ws l = ground arith
  read_fields-all field step h (suc n) [] a ws l = rw (D.fields_stop ws, ◌>>=◌, is_stop-t_stop)
  read_fields-all field step h (suc n) ((name, fid, v) ∷ fs) a ws l =
      let rest = write_fields fs ws in
      let own = write_value v ∷ write_field_end ∷ rest in
      rw
        (
          D.field_begins name (type_of v) fid own,
          ◌>>=◌,
          is_stop-type_of v,
          h name fid v a (write_field_end ∷ rest),
          D.field_ends rest,
        )
        (read_fields-all field step h n fs (step (name, fid, v) a) ws (omega arith))

  pub read_struct-all {ℓ} :
      {A : Type ℓ} (field : TType → ℤ → A → In → Run (A × In)) (step : Field → A → A)
      → ((name : String) (fid : ℤ) (v : Value) (a : A) (ws : List Write)
          → field (type_of v) fid a (deliver (write_value v ∷ ws))
            ≡ done (step (name, fid, v) a, deliver ws))
      → (n : ℕ) (struct : String) (fs : List Field) (a : A) (ws : List Write) → length fs < n
      → read_struct P field n a (deliver (write_struct struct fs ws))
        ≡ done (all_fields step fs a, deliver ws)
  unfolding read_struct
  read_struct-all field step h n struct fs a ws l = rw (
    D.struct_begins struct (write_fields fs (write_struct_end ∷ ws)),
    ◌>>=◌,
    read_fields-all field step h n fs a (write_struct_end ∷ ws) l,
    D.struct_ends ws,
  )
