-- ===== src/Proto/Encode/Bodies.antt =====
-- The body of each request: its keys, and the bytes of their values, in the order of the encoder.
use bee_php.Prelude.{ℕ, List, [], ◌∷◌, Bytes}
use bee_php.Engine.Zval.{Zval}
use bee_php.Engine.MsgPuck.{MsgPuck}
use bee_php.Msgpack.Pack.Wire.{wire}
use bee_php.Proto.Keys.{
  beex_space, beex_index, beex_limit, beex_offset, beex_iterator, beex_key, beex_tuple,
  beex_function, beex_expression, beex_ops,
}
use bee_php.Proto.Encode.Packet.{Field}

module _ ⦃mp : MsgPuck⦄ where
  abbrev pub select_fields : (space_no index_no limit offset iterator : ℕ) → Zval → List Field
  select_fields space_no index_no limit offset iterator key =
      (beex_space, mp.encode_uint space_no)
      ∷ (beex_index, mp.encode_uint index_no)
      ∷ (beex_offset, mp.encode_uint offset)
      ∷ (beex_limit, mp.encode_uint limit)
      ∷ (beex_iterator, mp.encode_uint iterator)
      ∷ (beex_key, wire key)
      ∷ []

  abbrev pub delete_fields : (space_no index_no : ℕ) → Zval → List Field
  delete_fields space_no index_no tuple =
      (beex_space, mp.encode_uint space_no)
      ∷ (beex_index, mp.encode_uint index_no)
      ∷ (beex_key, wire tuple)
      ∷ []

  abbrev pub call_fields : Bytes → Zval → List Field
  call_fields proc tuple = (beex_function, mp.encode_str proc) ∷ (beex_tuple, wire tuple) ∷ []

  abbrev pub eval_fields : Bytes → Zval → List Field
  eval_fields proc tuple = (beex_expression, mp.encode_str proc) ∷ (beex_tuple, wire tuple) ∷ []

  abbrev pub update_fields : (space_no index_no : ℕ) → Zval → Zval → List Field
  update_fields space_no index_no key args =
      (beex_space, mp.encode_uint space_no)
      ∷ (beex_index, mp.encode_uint index_no)
      ∷ (beex_key, wire key)
      ∷ (beex_tuple, wire args)
      ∷ []

  abbrev pub upsert_fields : (space_no : ℕ) → Zval → Zval → List Field
  upsert_fields space_no tuple args =
      (beex_space, mp.encode_uint space_no) ∷ (beex_tuple, wire tuple) ∷ (beex_ops, wire args) ∷ []

  abbrev pub insert_or_replace_fields : (space_no : ℕ) → Zval → List Field
  insert_or_replace_fields space_no tuple =
      (beex_space, mp.encode_uint space_no) ∷ (beex_tuple, wire tuple) ∷ []
