-- ===== src/Tests/Requests.antt =====
-- The requests of a session, packed into a fresh buffer.
use bee_php.Prelude.{◌≡◌, none, some, [], ◌∷◌, arith, codes}
use bee_php.Msgpack.Buffer.Writes.{Appends}
use bee_php.Proto.Keys.{beex_select, beex_auth}
use bee_php.Proto.Encode.{php_tp_encode_auth, php_tp_encode_select}
use bee_php.Proto.Encode.Packet.{packet, body_bytes, request_bytes}
use bee_php.Proto.Encode.Bodies.{select_fields}
use bee_php.Proto.Encode.Queries.{encode_select-packet}
use bee_php.Proto.Encode.Requests.{Request, update, packet_of, encoder_of, encode-packet_of}
use bee_php.Proto.Encode.Auth.{auth_fields, encode_auth_inverted}
use bee_php.Tests.Codec.{codec}
use bee_php.Tests.Codec.Decodes.{codec-EncodesBySize}
use bee_php.Tests.Memory.{allocator, allocator-IsAllocator, fresh, fresh-IsBuffer}
use bee_php.Tests.Values.{table, table-IsZval}

encode_select-packet_example :
    Appends fresh
      (packet (
        request_bytes ⦃mp = codec⦄ beex_select 7
          (body_bytes ⦃mp = codec⦄ (select_fields ⦃mp = codec⦄ 512 0 10 20 2 table))))
      (php_tp_encode_select ⦃mp = codec⦄ ⦃al = allocator⦄ 7 512 0 10 20 2 table fresh)
encode_select-packet_example =
    encode_select-packet ⦃mp = codec⦄ ⦃al = allocator⦄ allocator-IsAllocator codec-EncodesBySize 7
      512 0 10 20 2 table fresh (omega arith) (omega arith) (omega arith) (omega arith)
      (omega arith) (omega arith) table-IsZval fresh-IsBuffer

-- An update of the tuple under a key.
abbrev changing : Request
changing = update 512 1 table table

encode-packet_of_example :
    Appends fresh
      (packet_of ⦃mp = codec⦄ 7 changing)
      (encoder_of ⦃mp = codec⦄ ⦃al = allocator⦄ 7 changing fresh)
encode-packet_of_example =
    encode-packet_of ⦃mp = codec⦄ ⦃al = allocator⦄ allocator-IsAllocator codec-EncodesBySize
      changing 7 fresh (omega arith, omega arith, table-IsZval, table-IsZval) (omega arith)
      fresh-IsBuffer

encode_auth_inverted_example :
    Appends fresh
      (packet (
        request_bytes ⦃mp = codec⦄ beex_auth 7
          (body_bytes ⦃mp = codec⦄ (auth_fields ⦃mp = codec⦄ (codes "guest")))))
      (php_tp_encode_auth ⦃mp = codec⦄ ⦃al = allocator⦄ 7
        (codes "guest")
        5
        (some (1 ∷ 2 ∷ []))
        fresh)
    × (php_tp_encode_auth ⦃mp = codec⦄ ⦃al = allocator⦄ 7 (codes "guest") 5 none fresh ≡ none)
encode_auth_inverted_example =
    encode_auth_inverted ⦃mp = codec⦄ ⦃al = allocator⦄ allocator-IsAllocator codec-EncodesBySize 7
      (codes "guest") (1 ∷ 2 ∷ []) fresh (omega arith) (omega arith) fresh-IsBuffer
