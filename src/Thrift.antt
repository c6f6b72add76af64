-- ===== src/Thrift.antt =====
-- internal/transport/thriftapi/processor.go. This file has what the Thrift library hands the
-- processor: the types of fields, and a protocol that is read call by call, as an argument.
pub mod Readers
pub mod Termination
pub mod Writers
pub mod Nesting
pub mod Handlers
pub mod Processor
pub mod Agreement
pub mod Safety
pub mod Progress
pub mod Replies
use drone_management_system.Float64.{Float64}
use drone_management_system.Integer.{pos, negsuc, ℤ}
use drone_management_system.Exec.{⊤}
use drone_management_system.Base.{eqb, ℕ, Bool, true, false, String}

pub data TType : Type 0 where
  stop_type bool_type byte_type double_type i16_type i32_type i64_type string_type struct_type
        map_type set_type list_type :
      TType

abbrev pub is_stop : TType → Bool
is_stop stop_type = true
is_stop _ = false

abbrev pub is_struct : TType → Bool
is_struct struct_type = true
is_struct _ = false

pub data MessageType : Type 0 where
  call_message reply_message exception_message oneway_message : MessageType

pub record MessageHead : Type 0 where
  pub name : String
  pub message_type : MessageType
  pub seq_id : ℤ

pub record Field : Type 0 where
  pub field_type : TType
  pub id : ℤ

-- A comparison of a field's number with one of the program's.
abbrev pub is_id : ℕ → ℤ → Bool
is_id n (pos id) = eqb id n
is_id n (negsuc _) = false

-- What a call of the library returns, with what is left to read.
pub data Got (I A : Type 0) : Type 0 where
  value : (a : A) (rest : I) → Got I A
  failure : (message : String) (rest : I) → Got I A

-- The reading methods of `thrift.TProtocol` that the processor calls.
pub record Protocol (I : Type 0) : Type 0 where
  pub read_message_begin : I → Got I MessageHead
  pub read_message_end : I → Got I ⊤
  pub read_struct_begin : I → Got I String
  pub read_struct_end : I → Got I ⊤
  pub read_field_begin : I → Got I Field
  pub read_field_end : I → Got I ⊤
  pub read_string : I → Got I String
  pub read_i32 : I → Got I ℤ
  pub read_double : I → Got I Float64
  pub skip : TType → I → Got I ⊤

-- What reading comes to. A loop runs on fuel; out of fuel is no result.
pub data Outcome (I A : Type 0) : Type 0 where
  got : (a : A) (rest : I) → Outcome I A
  broke : (message : String) (rest : I) → Outcome I A
  out_of_fuel : Outcome I A

abbrev pub Read : Type 0 → Type 0 → Type 0
Read I A = I → Outcome I A

abbrev pub reads : {I A : Type 0} → (I → Got I A) → Read I A
reads op i = elim (op i) [ value a rest ↦ got a rest | failure message rest ↦ broke message rest ]

abbrev pub done : {I A : Type 0} → A → Read I A
done a i = got a i

abbrev pub after : {I A B : Type 0} → Outcome I A → (A → Read I B) → Outcome I B
after (got a rest) f = f a rest
after (broke message rest) f = broke message rest
after out_of_fuel f = out_of_fuel

-- `if err != nil { return …, err }` after a reading.
infixl 5 ◌>>=◌ ◌>>◌
abbrev pub ◌>>=◌ : {I A B : Type 0} → Read I A → (A → Read I B) → Read I B
m >>= f = λ i. after (m i) f

abbrev pub ◌>>◌ : {I A B : Type 0} → Read I A → Read I B → Read I B
m >> k = m >>= λ _. k
