-- ===== src/Msgpack/Names.antt =====
-- op_to_string of src/bee_msgpack.c: the name of a value's type, for the texts of exceptions.
use bee_php.Prelude.{Bytes, codes}
use bee_php.Engine.Zval.{
  ZvalType, is_null, is_long, is_double, is_bool, is_array, is_object, is_string, is_resource,
  is_constant, is_constant_array, is_callable, unknown,
}

abbrev pub op_to_string : ZvalType → Bytes
op_to_string is_null = codes "NULL"
op_to_string is_long = codes "LONG"
op_to_string is_double = codes "DOUBLE"
op_to_string is_bool = codes "BOOL"
op_to_string is_array = codes "ARRAY"
op_to_string is_object = codes "OBJECT"
op_to_string is_string = codes "STRING"
op_to_string is_resource = codes "RESOURCE"
op_to_string is_constant = codes "CONSTANT"
op_to_string is_constant_array = codes "CONSTANT_ARRAY"
op_to_string is_callable = codes "CALLABLE"
op_to_string unknown = codes "UNKNOWN"
