-- ===== src/Proto/Encode/Changes.antt =====
-- The requests that change a space: each encoder appends its packet.
use bee_php.Prelude.{ℕ, ◌<◌, ◌≡◌, ◌^◌, inl, inr, ◌⊎◌, arith, true, ◌==◌, ◌||◌}
use bee_php.Engine.Zval.{Zval, IsZval}
use bee_php.Engine.SmartString.{SmartString, IsBuffer, Allocator, IsAllocator}
use bee_php.Engine.MsgPuck.{MsgPuck, EncodesBySize}
use bee_php.Msgpack.Buffer.Writes.{Appends}
use bee_php.Proto.Keys.{
  beex_space, beex_index, beex_key, beex_tuple, beex_ops, beex_insert, beex_replace, beex_update,
  beex_delete, beex_upsert,
}
use bee_php.Proto.Encode.Fields.{field, last_field, fields-Writes, u32-Value, zval-Value}
use bee_php.Proto.Sizes.{
  php_tp_sizeof_insert_or_replace, php_tp_sizeof_delete, php_tp_sizeof_update, php_tp_sizeof_upsert,
}
use bee_php.Proto.Encode.{
  php_tp_encode_insert_or_replace, php_tp_encode_delete, php_tp_encode_update, php_tp_encode_upsert,
}
use bee_php.Proto.Encode.Packet.{packet, body_bytes, request_bytes}
use bee_php.Proto.Encode.Bodies.{
  delete_fields, update_fields, upsert_fields, insert_or_replace_fields,
}

module _ ⦃mp : MsgPuck⦄ ⦃al : Allocator⦄ (laws : IsAllocator al) (sizes : EncodesBySize mp) where
  -- php_tp_encode_delete, given numbers that fit a uint32_t, a value that PHP can hold
  -- and any buffer, ends without a fault and appends a DELETE request in the form of the protocol,
  -- behind the number of its bytes modulo 2 ^ 32.
  -- The allocator is one of IsAllocator and the encoders are EncodesBySize.
  pub encode_delete-packet :
      (sync space_no index_no : ℕ) (tuple : Zval) (s : SmartString)
      → sync < 2 ^ 32
      → space_no < 2 ^ 32
      → index_no < 2 ^ 32
      → IsZval tuple
      → IsBuffer s
      → Appends s
          (packet
            (request_bytes beex_delete sync (body_bytes (delete_fields space_no index_no tuple))))
          (php_tp_encode_delete sync space_no index_no tuple s)
  unfolding php_tp_encode_delete php_tp_sizeof_delete
  encode_delete-packet sync space_no index_no tuple s h_sync h_space_no h_index_no h_tuple b =
      fields-Writes sizes laws beex_delete sync _ _ _ (omega arith) h_sync (omega arith)
        (omega arith)
        (field sizes laws beex_space (omega arith) (u32-Value sizes laws space_no h_space_no) (
          field sizes laws beex_index (omega arith) (u32-Value sizes laws index_no h_index_no)
            (last_field sizes laws beex_key (omega arith) (zval-Value sizes laws tuple h_tuple))))
        s b

  -- php_tp_encode_update, given numbers that fit a uint32_t, values that PHP can hold
  -- and any buffer, ends without a fault and appends an UPDATE request in the form of the protocol,
  -- behind the number of its bytes modulo 2 ^ 32.
  -- The allocator is one of IsAllocator and the encoders are EncodesBySize.
  pub encode_update-packet :
      (sync space_no index_no : ℕ) (key args : Zval) (s : SmartString)
      → sync < 2 ^ 32
      → space_no < 2 ^ 32
      → index_no < 2 ^ 32
      → IsZval key
      → IsZval args
      → IsBuffer s
      → Appends s
          (packet (
            request_bytes beex_update sync (body_bytes (update_fields space_no index_no key args))))
          (php_tp_encode_update sync space_no index_no key args s)
  unfolding php_tp_encode_update php_tp_sizeof_update
  encode_update-packet sync space_no index_no key args s h_sync h_space_no h_index_no h_key h_args
        b =
      fields-Writes sizes laws beex_update sync _ _ _ (omega arith) h_sync (omega arith)
        (omega arith)
        (field sizes laws beex_space (omega arith) (u32-Value sizes laws space_no h_space_no) (
          field sizes laws beex_index (omega arith) (u32-Value sizes laws index_no h_index_no) (
            field sizes laws beex_key (omega arith) (zval-Value sizes laws key h_key) (
              last_field sizes laws beex_tuple (omega arith) (zval-Value sizes laws args h_args)))))
        s b

  -- php_tp_encode_upsert, given numbers that fit a uint32_t, values that PHP can hold
  -- and any buffer, ends without a fault and appends an UPSERT request in the form of the protocol,
  -- behind the number of its bytes modulo 2 ^ 32.
  -- The allocator is one of IsAllocator and the encoders are EncodesBySize.
  pub encode_upsert-packet :
      (sync space_no : ℕ) (tuple args : Zval) (s : SmartString)
      → sync < 2 ^ 32
      → space_no < 2 ^ 32
      → IsZval tuple
      → IsZval args
      → IsBuffer s
      → Appends s
          (packet (request_bytes beex_upsert sync (body_bytes (upsert_fields space_no tuple args))))
          (php_tp_encode_upsert sync space_no tuple args s)
  unfolding php_tp_encode_upsert php_tp_sizeof_upsert
  encode_upsert-packet sync space_no tuple args s h_sync h_space_no h_tuple h_args b =
      fields-Writes sizes laws beex_upsert sync _ _ _ (omega arith) h_sync (omega arith)
        (omega arith)
        (field sizes laws beex_space (omega arith) (u32-Value sizes laws space_no h_space_no) (
          field sizes laws beex_tuple (omega arith) (zval-Value sizes laws tuple h_tuple)
            (last_field sizes laws beex_ops (omega arith) (zval-Value sizes laws args h_args))))
        s b

  accepted :
      (type : ℕ)
      → (type ≡ beex_insert) ⊎ (type ≡ beex_replace)
      → ((type == beex_insert) || (type == beex_replace)) ≡ true
  accepted type (inl e) = ground arith
  accepted type (inr e) = ground arith

  -- php_tp_encode_insert_or_replace, given numbers that fit a uint32_t, a value that PHP can hold, and the
  -- type INSERT or REPLACE
  -- and any buffer, ends without a fault and appends a request of that type in the form of the protocol,
  -- behind the number of its bytes modulo 2 ^ 32.
  -- The allocator is one of IsAllocator and the encoders are EncodesBySize.
  pub encode_insert_or_replace-packet :
      (sync space_no type : ℕ) (tuple : Zval) (s : SmartString)
      → (type ≡ beex_insert) ⊎ (type ≡ beex_replace)
      → sync < 2 ^ 32
      → space_no < 2 ^ 32
      → IsZval tuple
      → IsBuffer s
      → Appends s
          (packet (request_bytes type sync (body_bytes (insert_or_replace_fields space_no tuple))))
          (php_tp_encode_insert_or_replace sync space_no tuple type s)
  unfolding php_tp_encode_insert_or_replace php_tp_sizeof_insert_or_replace
  encode_insert_or_replace-packet sync space_no type tuple s known h_sync h_space_no h_tuple b =
      let small : type < 2 ^ 32 = elim known [ inl e ↦ omega arith | inr e ↦ omega arith ] in
      rw (accepted type known) (
        fields-Writes sizes laws type sync _ _ _ small h_sync (omega arith) (omega arith)
          (field sizes laws beex_space (omega arith) (u32-Value sizes laws space_no h_space_no)
            (last_field sizes laws beex_tuple (omega arith) (zval-Value sizes laws tuple h_tuple)))
          s b)
