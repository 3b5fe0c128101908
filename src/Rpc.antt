-- ===== src/Rpc.antt =====
-- The code that Thrift generated for the service of Sinboha/sinboha.idl, Sinboha/gen-cpp/SinbohaRPC.h
-- and SinbohaRPC.cpp: the readers and writers of arguments and results, the client and the
-- processor. The protocol object of the Thrift library, from which they read, is a parameter; what
-- they write is the list of their calls on the protocol and its transport. The number of bytes that
-- readers and writers add up is left out: nothing reads it.
pub mod Structs
pub mod Delivery
pub mod Readers
pub mod Last
pub mod Client
pub mod Processor
pub mod Call
pub mod Refusal
pub mod Concurrent
pub mod Service
pub mod Values
pub mod Same
pub mod Events
pub mod Protocols
pub mod Many
use sinboha.Prelude.{ℕ, zero, suc, ◌==◌, Bool, true, false, String}
use sinboha.Prelude.Int.{ℤ, pos, negsuc}
use sinboha.StatusRep.{Bytes}
use sinboha.NetClient.{Exception}

-- The types that the generated code names, with the mark after the last field, and every other type.
pub data TType : Type 0 where
  t_stop t_bool t_i16 t_i64 t_string t_struct : TType
  t_other : ℕ → TType

-- The kinds of a message: a call, its reply, an exception in its place, and any other.
pub data TMessageType : Type 0 where
  t_call t_reply t_exception : TMessageType
  t_other_message : ℕ → TMessageType

-- A call on the output protocol, or on its transport.
pub data Write : Type 0 where
  write_message_begin : String → TMessageType → ℤ → Write
  write_message_end : Write
  write_struct_begin : String → Write
  write_struct_end : Write
  write_field_begin : String → TType → ℤ → Write
  write_field_end : Write
  write_field_stop : Write
  write_bool : Bool → Write
  write_i16 : ℤ → Write
  write_i64 : ℤ → Write
  write_string : Bytes → Write
  write_exception : String → Write  -- `TApplicationException(what).write`
  write_end : Write
  flush : Write

-- What code that reads comes to: a value, an exception, or no end within the rounds of its loop
-- that are allowed for.
pub data Run {ℓ} (A : Type ℓ) : Type ℓ where
  done : A → Run A
  failed : Exception → Run A
  unfinished : Run A

infixl 5 ◌>>=◌
abbrev pub ◌>>=◌ {ℓ κ} : {A : Type ℓ} {B : Type κ} → Run A → (A → Run B) → Run B
done a >>= f = f a
failed x >>= f = failed x
unfinished >>= f = unfinished

-- The input protocol with its transport: `In` is what is left to read. Any call may throw.
pub record Protocol : Type 1 where
  pub In : Type 0
  pub read_message_begin : In → Run (String × TMessageType × ℤ × In)
  pub read_message_end : In → Run In
  pub read_struct_begin : In → Run In
  pub read_struct_end : In → Run In
  pub read_field_begin : In → Run (TType × ℤ × In)
  pub read_field_end : In → Run In
  pub read_bool : In → Run (Bool × In)
  pub read_i16 : In → Run (ℤ × In)
  pub read_i64 : In → Run (ℤ × In)
  pub read_string : In → Run (Bytes × In)
  pub skip : TType → In → Run In
  pub read_exception : In → Run In
  pub read_end : In → Run In

-- A test of the number of a field.
abbrev pub is_field : ℤ → ℕ → Bool
is_field (pos n) k = n == k
is_field (negsuc n) k = false

unfoldable pub is_stop : TType → Bool
is_stop t_stop = true
is_stop _ = false

module _ (P : Protocol) where
  open P use {In, read_struct_begin, read_struct_end, read_field_begin, read_field_end}

  -- The loop that all the readers share, `while (true)`, with at most so many rounds. `field` is the
  -- body of the `switch`, on the value under construction.
  pub read_fields {ℓ} :
      {A : Type ℓ} → (TType → ℤ → A → In → Run (A × In)) → ℕ → A → In → Run (A × In)
  read_fields field zero a i = unfinished
  read_fields field (suc n) a i = read_field_begin i >>= λ (ftype, fid, i₁). elim (is_stop ftype) [
    | true ↦ done (a, i₁)
    | false ↦
        field ftype fid a i₁ >>= λ (a', i₂). read_field_end i₂ >>= λ i₃. read_fields field n a' i₃
  ]

  -- A whole reader.
  pub read_struct {ℓ} :
      {A : Type ℓ} → (TType → ℤ → A → In → Run (A × In)) → ℕ → A → In → Run (A × In)
  read_struct field n a i = do
    i₁ ← read_struct_begin i
    (a', i₂) ← read_fields field n a i₁
    i₃ ← read_struct_end i₂
    done (a', i₃)
