-- ===== src/Client/Update.antt =====
-- bee_update_verify_op and bee_update_verify_args of src/bee.c: the operations of an update.
pub mod Accepts
pub mod Rejects
use bee_php.Prelude.{
  ℕ, zero, suc, ◌+◌, Bool, true, false, not, ◌||◌, Option, none, some, List, [], ◌∷◌, ◌==◌,
  if◌then◌else◌, ℤ, length, Bytes, codes,
}
use bee_php.Engine.Zval.{
  Key, Zval, null, long, double, bool, array, string, object, resource, Buckets, slots,
}
use bee_php.Engine.HashTable.{index_find, name_find, num_elements, empty_array, add_next_index_zval}
use bee_php.Engine.Outcome.{
  Exception, Outcome, ok, throw, ◌>>=◌, ◌>>◌, op_must_be_map, op_field_missing,
  position_field_missing, five_fields_needed, offset_missing, length_missing, list_missing,
  three_fields_needed, arg_must_be_long, arg_must_be_serializable, unknown_operation,
  ops_must_be_array, internal_array_error,
}
use bee_php.Msgpack.Pack.{php_mp_is_hash}

abbrev pub Table : Type 0
Table = List (Key × Zval)

-- Z_TYPE_PP(opstr) == IS_STRING && Z_STRLEN_PP(opstr) == 1
unfoldable pub as_char : Option Zval → Option ℕ
as_char (some (string (c ∷ []))) = some c
as_char other = none

unfoldable pub as_long : Option Zval → Option ℤ
as_long (some (long n)) = some n
as_long other = none

unfoldable pub as_string : Option Zval → Option Bytes
as_string (some (string s)) = some s
as_string other = none

-- PHP_MP_SERIALIZABLE_PP
unfoldable pub as_serializable : Option Zval → Option Zval
as_serializable (some object) = none
as_serializable (some resource) = none
as_serializable other = other

abbrev pub require {ℓ} : {A : Type ℓ} → Exception → Option A → Outcome A
require e none = throw e
require e (some a) = ok a

abbrev pub guard : Bool → Exception → Outcome (Unit {0})
guard true e = ok tt
guard false e = throw e

abbrev pub push : Zval → Zval → Zval
push arr v = add_next_index_zval v arr

-- The three kinds of operation, behind the tests of `op` and `field`.
unfoldable pub verify_splice : ℕ → ℤ → Table → ℕ → Outcome Zval
verify_splice op field ht position = do
  guard (length ht == 5) (five_fields_needed position)
  offset ← require (offset_missing position) (as_long (name_find (codes "offset") ht))
  len ← require (length_missing position) (as_long (name_find (codes "length") ht))
  list ← require (list_missing position) (as_string (name_find (codes "list") ht))
  ok (
      push
        (push (push (push (push empty_array (string (op ∷ []))) (long field)) (long offset))
          (long len))
        (string list))

unfoldable pub verify_arithmetic : ℕ → ℤ → Table → ℕ → Outcome Zval
verify_arithmetic op field ht position = do
  guard (length ht == 3) (three_fields_needed (op ∷ []) position)
  arg ← require (arg_must_be_long (op ∷ []) position) (as_long (name_find (codes "arg") ht))
  ok (push (push (push empty_array (string (op ∷ []))) (long field)) (long arg))

unfoldable pub verify_assignment : ℕ → ℤ → Table → ℕ → Outcome Zval
verify_assignment op field ht position = do
  guard (length ht == 3) (three_fields_needed (op ∷ []) position)
  arg ←
      require (arg_must_be_serializable (op ∷ []) position)
        (as_serializable (name_find (codes "arg") ht))
  ok (push (push (push empty_array (string (op ∷ []))) (long field)) arg)

abbrev pub is_arithmetic : ℕ → Bool
is_arithmetic op =
    (op == b'+')
    || ((op == b'-') || ((op == b'&') || ((op == b'|') || ((op == b'^') || (op == b'#')))))

abbrev pub is_assignment : ℕ → Bool
is_assignment op = (op == b'=') || (op == b'!')

unfoldable pub verify_kind : ℕ → ℤ → Table → ℕ → Outcome Zval
verify_kind op field ht position =
    if op == b':'
    then verify_splice op field ht position
    else if is_arithmetic op
    then verify_arithmetic op field ht position
    else if is_assignment op
    then verify_assignment op field ht position
    else throw (unknown_operation (op ∷ []) position)

unfoldable pub verify_fields : Table → ℕ → Outcome Zval
verify_fields ht position = do
  op ← require (op_field_missing position) (as_char (name_find (codes "op") ht))
  field ← require (position_field_missing position) (as_long (name_find (codes "field") ht))
  verify_kind op field ht position

unfoldable pub bee_update_verify_op : Zval → ℕ → Outcome Zval
bee_update_verify_op (array c n bs) position =
    if php_mp_is_hash n bs
    then verify_fields (slots bs) position
    else throw (op_must_be_map position)
bee_update_verify_op other position = throw (op_must_be_map position)

-- The loop has `n` rounds left and is at `key_index`.
unfoldable pub verify_ops : ℕ → ℕ → Table → Zval → Outcome Zval
verify_ops zero key_index ht arr = ok arr
verify_ops (suc n) key_index ht arr = do
  op ← require internal_array_error (index_find key_index ht)
  op_arr ← bee_update_verify_op op key_index
  verify_ops n (suc key_index) ht (push arr op_arr)

unfoldable pub bee_update_verify_args : Zval → Outcome Zval
bee_update_verify_args (array c n bs) =
    if php_mp_is_hash n bs
    then throw ops_must_be_array
    else verify_ops (num_elements bs) 0 (slots bs) empty_array
bee_update_verify_args other = throw ops_must_be_array
