-- ===== src/Engine/Outcome.antt =====
-- The outcome of a C function that can fail, and the exceptions that the extension throws.
use bee_php.Prelude.{ℤ, ℕ, Option, none, some, Bytes}

-- One constructor for each message, with what is printed into it.
pub data Exception : Type 0 where
  bad_key_type : Exception
  bad_iterator_name : Bytes → Exception
  op_must_be_map : ℕ → Exception
  op_field_missing : ℕ → Exception
  position_field_missing : ℕ → Exception
  five_fields_needed : ℕ → Exception
  offset_missing : ℕ → Exception
  length_missing : ℕ → Exception
  list_missing : ℕ → Exception
  three_fields_needed : Bytes → ℕ → Exception
  arg_must_be_long : Bytes → ℕ → Exception
  arg_must_be_serializable : Bytes → ℕ → Exception
  unknown_operation : Bytes → ℕ → Exception
  ops_must_be_array : Exception
  internal_array_error : Exception
  length_unread : Exception
  message_unread : ℕ → Exception
  bad_msgpack : Exception
  bad_header : Exception
  bad_body : Exception
  sync_not_equal : Exception
  no_answer_code : Exception
  query_error : (code : ℕ) → Bytes → Exception
  no_data_field : Exception
  wrong_limit_type : Exception
  bad_space_id : Exception
  bad_index_id : Exception
  query_unparsed : Exception
  space_schema_unparsed : Exception
  index_schema_unparsed : Exception
  no_space : Bytes → Exception
  no_index : Bytes → Exception
  connect_failed : (code : ℕ) → Exception
  setsockopt_failed : Exception
  query_unread : Exception
  -- What "%s" makes of a null pointer.
  null_message : Exception
  bad_port : ℤ → Exception

-- `failure` is a return of FAILURE, -1 or NULL with the exception that was thrown, if any.
-- `fault` is undefined behaviour: a read past the end, a failed assertion, a null pointer.
-- `out_of_fuel` has no counterpart in the program.
pub data Outcome {ℓ} (A : Type ℓ) : Type ℓ where
  ok : A → Outcome A
  failure : Option Exception → Outcome A
  fault out_of_fuel : Outcome A

infixl 5 ◌>>=◌ ◌>>◌
abbrev pub ◌>>=◌ {ℓ κ} : {A : Type ℓ} {B : Type κ} → Outcome A → (A → Outcome B) → Outcome B
ok a >>= f = f a
failure e >>= f = failure e
fault >>= f = fault
out_of_fuel >>= f = out_of_fuel

abbrev pub ◌>>◌ {ℓ} : {B : Type ℓ} → Outcome (Unit {0}) → Outcome B → Outcome B
m >> k = m >>= λ _. k

abbrev pub throw {ℓ} : {A : Type ℓ} → Exception → Outcome A
throw e = failure (some e)

abbrev pub lift {ℓ} : {A : Type ℓ} → Option A → Outcome A
lift none = fault
lift (some a) = ok a
