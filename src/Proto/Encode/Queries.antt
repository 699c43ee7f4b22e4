-- ===== src/Proto/Encode/Queries.antt =====
-- The requests that read or run: each encoder appends its packet.
use bee_php.Prelude.{ℕ, ◌<◌, ◌^◌, [], arith, length, length-append, Bytes}
use bee_php.Engine.Zval.{Zval, IsZval}
use bee_php.Engine.SmartString.{SmartString, IsBuffer, Allocator, IsAllocator}
use bee_php.Engine.MsgPuck.{MsgPuck, EncodesBySize}
use bee_php.Msgpack.Buffer.Writes.{Appends}
use bee_php.Proto.Keys.{
  beex_space, beex_index, beex_limit, beex_offset, beex_iterator, beex_key, beex_tuple,
  beex_function, beex_expression, beex_select, beex_call, beex_eval, beex_ping,
}
use bee_php.Proto.Encode.Fields.{
  field, last_field, fields-Writes, u32-Value, zval-Value, string-Value,
}
use bee_php.Proto.Sizes.{
  php_tp_sizeof_ping, php_tp_sizeof_select, php_tp_sizeof_call, php_tp_sizeof_eval,
}
use bee_php.Proto.Encode.{
  php_tp_encode_ping, php_tp_encode_select, php_tp_encode_call, php_tp_encode_eval,
}
use bee_php.Proto.Encode.Packet.{
  packet, header_bytes, body_bytes, request_bytes, length-header_bytes, request_empty-Writes,
}
use bee_php.Proto.Encode.Bodies.{select_fields, call_fields, eval_fields}

module _ ⦃mp : MsgPuck⦄ ⦃al : Allocator⦄ (laws : IsAllocator al) (sizes : EncodesBySize mp) where
  -- php_tp_encode_select, given numbers that fit a uint32_t, a value that PHP can hold
  -- and any buffer, ends without a fault and appends a SELECT request in the form of the protocol,
  -- behind the number of its bytes modulo 2 ^ 32.
  -- The allocator is one of IsAllocator and the encoders are EncodesBySize.
  pub encode_select-packet :
      (sync space_no index_no limit offset iterator : ℕ) (key : Zval) (s : SmartString)
      → sync < 2 ^ 32
      → space_no < 2 ^ 32
      → index_no < 2 ^ 32
      → limit < 2 ^ 32
      → offset < 2 ^ 32
      → iterator < 2 ^ 32
      → IsZval key
      → IsBuffer s
      → Appends s
          (packet (
            request_bytes beex_select sync
              (body_bytes (select_fields space_no index_no limit offset iterator key))))
          (php_tp_encode_select sync space_no index_no limit offset iterator key s)
  unfolding php_tp_encode_select php_tp_sizeof_select
  encode_select-packet sync space_no index_no limit offset iterator key s h_sync h_space_no
        h_index_no h_limit h_offset h_iterator h_key b =
      fields-Writes sizes laws beex_select sync _ _ _ (omega arith) h_sync (omega arith)
        (omega arith)
        (field sizes laws beex_space (omega arith) (u32-Value sizes laws space_no h_space_no) (
          field sizes laws beex_index (omega arith) (u32-Value sizes laws index_no h_index_no) (
            field sizes laws beex_offset (omega arith) (u32-Value sizes laws offset h_offset) (
              field sizes laws beex_limit (omega arith) (u32-Value sizes laws limit h_limit) (
                field sizes laws beex_iterator (omega arith)
                  (u32-Value sizes laws iterator h_iterator)
                  (last_field sizes laws beex_key (omega arith)
                    (zval-Value sizes laws key h_key)))))))
        s b

  -- php_tp_encode_call, given a sync number that fits a uint32_t, a string and a value that PHP can hold
  -- and any buffer, ends without a fault and appends a CALL request in the form of the protocol,
  -- behind the number of its bytes modulo 2 ^ 32.
  -- The allocator is one of IsAllocator and the encoders are EncodesBySize.
  pub encode_call-packet :
      (sync : ℕ) (proc : Bytes) (tuple : Zval) (s : SmartString)
      → sync < 2 ^ 32
      → length proc < 2 ^ 31
      → IsZval tuple
      → IsBuffer s
      → Appends s
          (packet (request_bytes beex_call sync (body_bytes (call_fields proc tuple))))
          (php_tp_encode_call sync proc (length proc) tuple s)
  unfolding php_tp_encode_call php_tp_sizeof_call
  encode_call-packet sync proc tuple s h_sync h_proc h_tuple b =
      fields-Writes sizes laws beex_call sync _ _ _ (omega arith) h_sync (omega arith) (omega arith)
        (field sizes laws beex_function (omega arith) (string-Value sizes laws proc h_proc)
          (last_field sizes laws beex_tuple (omega arith) (zval-Value sizes laws tuple h_tuple)))
        s b

  -- php_tp_encode_eval, given a sync number that fits a uint32_t, a string and a value that PHP can hold
  -- and any buffer, ends without a fault and appends an EVAL request in the form of the protocol,
  -- behind the number of its bytes modulo 2 ^ 32.
  -- The allocator is one of IsAllocator and the encoders are EncodesBySize.
  pub encode_eval-packet :
      (sync : ℕ) (proc : Bytes) (tuple : Zval) (s : SmartString)
      → sync < 2 ^ 32
      → length proc < 2 ^ 31
      → IsZval tuple
      → IsBuffer s
      → Appends s
          (packet (request_bytes beex_eval sync (body_bytes (eval_fields proc tuple))))
          (php_tp_encode_eval sync proc (length proc) tuple s)
  unfolding php_tp_encode_eval php_tp_sizeof_eval
  encode_eval-packet sync proc tuple s h_sync h_proc h_tuple b =
      fields-Writes sizes laws beex_eval sync _ _ _ (omega arith) h_sync (omega arith) (omega arith)
        (field sizes laws beex_expression (omega arith) (string-Value sizes laws proc h_proc)
          (last_field sizes laws beex_tuple (omega arith) (zval-Value sizes laws tuple h_tuple)))
        s b

  -- php_tp_encode_ping, given a sync number that fits a uint32_t and any buffer, ends without a
  -- fault and appends a PING request, a header without a body, behind the number of its bytes.
  -- The allocator is one of IsAllocator and the encoders are EncodesBySize.
  pub encode_ping-packet :
      (sync : ℕ) (s : SmartString)
      → sync < 2 ^ 32
      → IsBuffer s
      → Appends s (packet (request_bytes beex_ping sync [])) (php_tp_encode_ping sync s)
  unfolding php_tp_encode_ping php_tp_sizeof_ping request_bytes
  encode_ping-packet sync s h b =
      request_empty-Writes sizes laws _ beex_ping sync (omega arith) h
        (omega (
          arith,
          length-append (header_bytes beex_ping sync) [],
          length-header_bytes sizes beex_ping sync (omega arith) h,
        ))
        s b
