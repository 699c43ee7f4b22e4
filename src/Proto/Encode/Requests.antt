-- ===== src/Proto/Encode/Requests.antt =====
-- The requests of src/bee_proto.c other than AUTH and SELECT, as one type: what the methods ask
-- for, the encoder that is called for it, and the packet of the protocol.
use bee_php.Prelude.{ℕ, ◌<◌, ◌≡◌, ◌^◌, ◌⊎◌, [], length, Bytes}
use bee_php.Engine.Zval.{Zval, IsZval}
use bee_php.Engine.SmartString.{SmartString, IsBuffer, Allocator, IsAllocator}
use bee_php.Engine.MsgPuck.{MsgPuck, EncodesBySize}
use bee_php.Msgpack.Buffer.{Action}
use bee_php.Msgpack.Buffer.Writes.{Appends}
use bee_php.Proto.Keys.{
  beex_insert, beex_replace, beex_update, beex_delete, beex_call, beex_eval, beex_upsert, beex_ping,
}
use bee_php.Proto.Encode.{
  php_tp_encode_ping, php_tp_encode_insert_or_replace, php_tp_encode_delete, php_tp_encode_call,
  php_tp_encode_eval, php_tp_encode_update, php_tp_encode_upsert,
}
use bee_php.Proto.Encode.Packet.{packet, body_bytes, request_bytes}
use bee_php.Proto.Encode.Bodies.{
  delete_fields, call_fields, eval_fields, update_fields, upsert_fields, insert_or_replace_fields,
}
use bee_php.Proto.Encode.Queries.{encode_call-packet, encode_eval-packet, encode_ping-packet}
use bee_php.Proto.Encode.Changes.{
  encode_delete-packet, encode_update-packet, encode_upsert-packet, encode_insert_or_replace-packet,
}

pub data Request : Type 0 where
  ping : Request
  insert_or_replace : (type space_no : ℕ) (tuple : Zval) → Request
  delete : (space_no index_no : ℕ) (tuple : Zval) → Request
  call eval : (proc : Bytes) (tuple : Zval) → Request
  update : (space_no index_no : ℕ) (key args : Zval) → Request
  upsert : (space_no : ℕ) (tuple args : Zval) → Request

-- Numbers that fit a uint32_t and values that PHP can hold.
abbrev pub IsRequest : Request → Type 0
IsRequest ping = Unit {0}
IsRequest (insert_or_replace type space_no tuple) =
    ((type ≡ beex_insert) ⊎ (type ≡ beex_replace)) × (space_no < 2 ^ 32) × IsZval tuple
IsRequest (delete space_no index_no tuple) =
    (space_no < 2 ^ 32) × (index_no < 2 ^ 32) × IsZval tuple
IsRequest (call proc tuple) = (length proc < 2 ^ 31) × IsZval tuple
IsRequest (eval proc tuple) = (length proc < 2 ^ 31) × IsZval tuple
IsRequest (update space_no index_no key args) =
    (space_no < 2 ^ 32) × (index_no < 2 ^ 32) × IsZval key × IsZval args
IsRequest (upsert space_no tuple args) = (space_no < 2 ^ 32) × IsZval tuple × IsZval args

abbrev pub code_of : Request → ℕ
code_of ping = beex_ping
code_of (insert_or_replace type space_no tuple) = type
code_of (delete space_no index_no tuple) = beex_delete
code_of (call proc tuple) = beex_call
code_of (eval proc tuple) = beex_eval
code_of (update space_no index_no key args) = beex_update
code_of (upsert space_no tuple args) = beex_upsert

module _ ⦃mp : MsgPuck⦄ where
  abbrev pub body_of : Request → Bytes
  body_of ping = []
  body_of (insert_or_replace type space_no tuple) =
      body_bytes (insert_or_replace_fields space_no tuple)
  body_of (delete space_no index_no tuple) = body_bytes (delete_fields space_no index_no tuple)
  body_of (call proc tuple) = body_bytes (call_fields proc tuple)
  body_of (eval proc tuple) = body_bytes (eval_fields proc tuple)
  body_of (update space_no index_no key args) =
      body_bytes (update_fields space_no index_no key args)
  body_of (upsert space_no tuple args) = body_bytes (upsert_fields space_no tuple args)

  -- The packet that the protocol has for a request.
  abbrev pub packet_of : (sync : ℕ) → Request → Bytes
  packet_of sync r = packet (request_bytes (code_of r) sync (body_of r))

  module _ ⦃al : Allocator⦄ where
    -- The encoder that is called for a request.
    abbrev pub encoder_of : (sync : ℕ) → Request → Action
    encoder_of sync ping = php_tp_encode_ping sync
    encoder_of sync (insert_or_replace type space_no tuple) =
        php_tp_encode_insert_or_replace sync space_no tuple type
    encoder_of sync (delete space_no index_no tuple) =
        php_tp_encode_delete sync space_no index_no tuple
    encoder_of sync (call proc tuple) = php_tp_encode_call sync proc (length proc) tuple
    encoder_of sync (eval proc tuple) = php_tp_encode_eval sync proc (length proc) tuple
    encoder_of sync (update space_no index_no key args) =
        php_tp_encode_update sync space_no index_no key args
    encoder_of sync (upsert space_no tuple args) = php_tp_encode_upsert sync space_no tuple args

    -- Each encoder other than those of AUTH and SELECT, given a sync number and numbers that fit a
    -- uint32_t, a string of less than 2 ^ 31 bytes, values that PHP can hold, for insert_or_replace
    -- one of the types INSERT and REPLACE, and any buffer, ends without a fault and appends the
    -- packet that the protocol has for the request, behind the number of its bytes modulo 2 ^ 32.
    -- The allocator is one of IsAllocator and the encoders are EncodesBySize.
    pub encode-packet_of :
        (laws : IsAllocator al) (sizes : EncodesBySize mp) (r : Request) (sync : ℕ)
        (s : SmartString)
        → IsRequest r
        → sync < 2 ^ 32
        → IsBuffer s
        → Appends s (packet_of sync r) (encoder_of sync r s)
    encode-packet_of laws sizes ping sync s w h b = encode_ping-packet laws sizes sync s h b
    encode-packet_of laws sizes (insert_or_replace type space_no tuple) sync s (known, fits, w) h
          b =
        encode_insert_or_replace-packet laws sizes sync space_no type tuple s known h fits w b
    encode-packet_of laws sizes (delete space_no index_no tuple) sync s (fits, fits', w) h b =
        encode_delete-packet laws sizes sync space_no index_no tuple s h fits fits' w b
    encode-packet_of laws sizes (call proc tuple) sync s (short, w) h b =
        encode_call-packet laws sizes sync proc tuple s h short w b
    encode-packet_of laws sizes (eval proc tuple) sync s (short, w) h b =
        encode_eval-packet laws sizes sync proc tuple s h short w b
    encode-packet_of laws sizes (update space_no index_no key args) sync s (fits, fits', w, w') h
          b =
        encode_update-packet laws sizes sync space_no index_no key args s h fits fits' w w' b
    encode-packet_of laws sizes (upsert space_no tuple args) sync s (fits, w, w') h b =
        encode_upsert-packet laws sizes sync space_no tuple args s h fits w w' b
