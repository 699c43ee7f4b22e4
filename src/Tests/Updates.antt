-- ===== src/Tests/Updates.antt =====
-- An operation that adds to a field, verified, and an iterator's name.
use bee_php.Prelude.{
  ◌≡◌, refl, inr, some, at_first, at_later, [], ◌∷◌, pos, codes, Bytes, bytes_eq, map,
}
use bee_php.Engine.Zval.{name, Zval, long, string, array, end, bucket}
use bee_php.Engine.Outcome.{ok}
use bee_php.Client.Iterator.{toupper, iterator_of_name}
use bee_php.Client.Iterator.Constants.{constants-iterator_of_name}
use bee_php.Client.Iterator.Table.{iterator_named, iterator_of_name-named}
use bee_php.Engine.HashTable.{add_next_index_zval}
use bee_php.Msgpack.Pack.{php_mp_is_hash}
use bee_php.Msgpack.Pack.Forms.{sent_as_map, has_name}
use bee_php.Client.Update.{
  as_char, as_long, verify_arithmetic, verify_kind, verify_fields, bee_update_verify_op,
}
use bee_php.Client.Update.Accepts.{
  plus, IsUpdate, is_update, arithmetic, php_list, bee_update_verify_op_lem,
}
use bee_php.Client.Update.Rejects.{bee_update_verify_op-IsUpdate}

-- ["field" => 2, "op" => "+", "arg" => 10]
abbrev addition : Zval
addition = array 0 0 (
    bucket (name (codes "field")) (long (pos 2)) (
      bucket (name (codes "op")) (string (b'+' ∷ []))
        (bucket (name (codes "arg")) (long (pos 10)) end)))

abbrev tuple : Zval
tuple = php_list (string (b'+' ∷ []) ∷ long (pos 2) ∷ long (pos 10) ∷ [])

addition-IsUpdate : IsUpdate addition tuple
unfolding sent_as_map has_name bytes_eq
addition-IsUpdate = is_update refl refl refl (arithmetic plus refl refl refl)

addition_accepted : bee_update_verify_op addition 3 ≡ ok tuple
unfolding bee_update_verify_op php_mp_is_hash verify_fields as_char bytes_eq as_long verify_kind
    verify_arithmetic php_list add_next_index_zval
addition_accepted = refl

bee_update_verify_op_lem_example : bee_update_verify_op addition 3 ≡ ok tuple
bee_update_verify_op_lem_example = bee_update_verify_op_lem addition tuple 3 addition-IsUpdate

bee_update_verify_op-IsUpdate_example : IsUpdate addition tuple
bee_update_verify_op-IsUpdate_example =
    bee_update_verify_op-IsUpdate addition tuple 3 addition_accepted

abbrev spelling : Bytes
spelling = codes "bits_Any_set"

iterator_of_name-named_example : iterator_of_name spelling ≡ iterator_named (map toupper spelling)
iterator_of_name-named_example = iterator_of_name-named spelling

-- Bee::ITERATOR_BITS_ANY_SET and the name in small letters.
constants-iterator_of_name_example : iterator_of_name (codes "bits_any_set") ≡ some 8
unfolding toupper
constants-iterator_of_name_example = constants-iterator_of_name (codes "bits_any_set") 8 (
    inr (
      at_later (
        at_later (
          at_later
            (at_later (at_later (at_later (at_later (at_later (at_later (at_first refl)))))))))))
