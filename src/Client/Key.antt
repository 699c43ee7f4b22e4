-- ===== src/Client/Key.antt =====
-- pack_key of src/bee.c.
use bee_php.Prelude.{Bool, true, false, ◌&&◌, Option, none, some, if◌then◌else◌}
use bee_php.Engine.Zval.{Zval, null, array}
use bee_php.Engine.HashTable.{empty_array, add_next_index_zval}
use bee_php.Engine.Outcome.{Outcome, ok, fault}

-- No argument, a null pointer, is `none`.
abbrev pub is_null_arg : Option Zval → Bool
is_null_arg none = true
is_null_arg (some null) = true
is_null_arg (some other) = false

-- add_next_index_zval of a null pointer is undefined.
wrap_key : Option Zval → Outcome Zval
wrap_key none = fault
wrap_key (some args) = ok (add_next_index_zval args empty_array)

unfoldable pub pack_key : Option Zval → Bool → Outcome Zval
unfolding wrap_key
pack_key (some (array c n bs)) select = ok (array c n bs)
pack_key args select = if select && is_null_arg args then ok empty_array else wrap_key args
