-- ===== src/Tests/Exchanges.antt =====
-- A ping and a call, each with its answer.
use bee_php.Prelude.{◌+◌, ◌≡◌, refl, some, [], ◌∷◌, arith, pos, Bytes, codes, u64}
use bee_php.Engine.Zval.{index, long, array, end, bucket}
use bee_php.Engine.SmartString.{SmartString}
use bee_php.Engine.Streams.{Streams}
use bee_php.Msgpack.Unpack.Image.{image}
use bee_php.Proto.Keys.{beex_call, beex_ping}
use bee_php.Proto.Encode.Packet.{packet, body_bytes, request_bytes}
use bee_php.Proto.Encode.Bodies.{call_fields}
use bee_php.Connection.State.{done}
use bee_php.Connection.Stream.Keeps.{IsEmpty}
use bee_php.Proto.Encode.{php_tp_encode_ping}
use bee_php.Proto.Encode.Queries.{encode_ping-packet}
use bee_php.Connection.Methods.{exchange, ping, call}
use bee_php.Connection.Exchange.{Takes, exchange-answer, ping-answer, call-answer}
use bee_php.Tests.Codec.{codec}
use bee_php.Tests.Codec.Decodes.{codec-EncodesBySize, codec-DecodesBack}
use bee_php.Tests.Memory.{allocator, allocator-IsAllocator, fresh, fresh-IsBuffer}
use bee_php.Tests.Values.{php}
use bee_php.Tests.Streams.{pairwise-IsPhpStream}
use bee_php.Tests.Hashes.{spaces, indexes}
use bee_php.Tests.Connections.{
  types, server, session, no_builder, header_slots, header_of, data_body, answer_bytes,
  fresh-IsEmpty, header_image, data_image, data-IsReply,
}

-- The server's answer to whatever is written to a fresh stream.
abbrev answering : Streams (Unit {0}) Bytes
answering = server (answer_bytes (header_of 0 7) data_body)

packet_taken : (p : Bytes) → Takes answering p [] (answer_bytes (header_of 0 7) data_body)
packet_taken p = record { all_written = refl; flushed = refl }

abbrev ping_packet : Bytes
ping_packet = packet (request_bytes ⦃mp = codec⦄ beex_ping 7 [])

exchange-answer_example :
    (stream'' : Bytes) × (v : SmartString) × (exchange {T = types} ⦃net = answering⦄ ⦃mp = codec⦄
        ⦃php = php⦄ ⦃al = allocator⦄
        (php_tp_encode_ping ⦃mp = codec⦄ ⦃al = allocator⦄)
        (session [])
      ≡ done
          (image ⦃php = php⦄ (header_of 0 7), image ⦃php = php⦄ data_body)
          (record (session []) { stream = some stream''; value = v; sync_counter = u64 (7 + 1) }))
    × (stream'' ≡ 9 ∷ [])
    × IsEmpty v
exchange-answer_example =
    exchange-answer {T = types} ⦃net = answering⦄ ⦃mp = codec⦄ ⦃php = php⦄ ⦃al = allocator⦄ (λ s. s)
      pairwise-IsPhpStream codec-DecodesBack allocator-IsAllocator
      (php_tp_encode_ping ⦃mp = codec⦄ ⦃al = allocator⦄) ping_packet (session []) []
      (answer_bytes (header_of 0 7) data_body) (header_of 0 7) data_body (9 ∷ []) 0 6
      (header_slots 0 7) (pos 7) refl fresh-IsEmpty
      (encode_ping-packet ⦃mp = codec⦄ ⦃al = allocator⦄ allocator-IsAllocator codec-EncodesBySize 7
        fresh (omega arith) fresh-IsBuffer)
      (packet_taken ping_packet) data-IsReply (header_image 0 7) refl refl refl

ping-answer_example :
    (stream'' : Bytes) × (v : SmartString) × (ping {T = types} ⦃net = answering⦄ ⦃mp = codec⦄
        ⦃php = php⦄ ⦃al = allocator⦄ ⦃tp = no_builder⦄ ⦃space_hash = spaces⦄ ⦃index_hash = indexes⦄
        (session [])
      ≡ done tt
          (record (session []) { stream = some stream''; value = v; sync_counter = u64 (7 + 1) }))
    × (stream'' ≡ 9 ∷ [])
    × IsEmpty v
ping-answer_example =
    ping-answer {T = types} ⦃net = answering⦄ ⦃mp = codec⦄ ⦃php = php⦄ ⦃al = allocator⦄
      ⦃tp = no_builder⦄ ⦃space_hash = spaces⦄ ⦃index_hash = indexes⦄ (λ s. s) pairwise-IsPhpStream
      codec-DecodesBack codec-EncodesBySize allocator-IsAllocator (session []) []
      (answer_bytes (header_of 0 7) data_body) (header_of 0 7) data_body (9 ∷ []) 0 6
      (header_slots 0 7) (pos 7) refl refl fresh-IsEmpty (omega arith) (packet_taken ping_packet)
      data-IsReply (header_image 0 7) refl refl refl

abbrev call_packet : Bytes
call_packet = packet (
    request_bytes ⦃mp = codec⦄ beex_call 7
      (body_bytes ⦃mp = codec⦄ (call_fields ⦃mp = codec⦄ (codes "now") (array 0 0 end))))

call-answer_example :
    (stream'' : Bytes) × (v : SmartString) × (call {T = types} ⦃net = answering⦄ ⦃mp = codec⦄
        ⦃php = php⦄ ⦃al = allocator⦄ ⦃tp = no_builder⦄ ⦃space_hash = spaces⦄ ⦃index_hash = indexes⦄
        (codes "now")
        (some (array 0 0 end))
        (session [])
      ≡ done
          (array 0 1 (bucket (index (pos 0)) (long (pos 5)) end))
          (record (session []) { stream = some stream''; value = v; sync_counter = u64 (7 + 1) }))
    × (stream'' ≡ 9 ∷ [])
    × IsEmpty v
call-answer_example =
    call-answer {T = types} ⦃net = answering⦄ ⦃mp = codec⦄ ⦃php = php⦄ ⦃al = allocator⦄
      ⦃tp = no_builder⦄ ⦃space_hash = spaces⦄ ⦃index_hash = indexes⦄ (λ s. s) pairwise-IsPhpStream
      codec-DecodesBack codec-EncodesBySize allocator-IsAllocator (codes "now") 0 0 end (session [])
      [] (answer_bytes (header_of 0 7) data_body) (header_of 0 7) data_body
      (array 0 1 (bucket (index (pos 0)) (long (pos 5)) end)) (9 ∷ []) 0 6 0 0x31 (header_slots 0 7)
      (bucket (index (pos 0x30)) (array 0 1 (bucket (index (pos 0)) (long (pos 5)) end)) end)
      (pos 7) (omega arith) (omega arith, tt) refl refl fresh-IsEmpty (omega arith)
      (packet_taken call_packet) data-IsReply (header_image 0 7) refl refl refl data_image refl
