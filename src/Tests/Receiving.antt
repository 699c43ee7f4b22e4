-- ===== src/Tests/Receiving.antt =====
-- Answers that are received well, with another number, with an error, and cut short.
use bee_php.Prelude.{◌%◌, ◌^◌, to_u64, ◌≡◌, ◌≢◌, refl, some, [], ◌∷◌, arith, pos, Bytes, codes}
use bee_php.Engine.Zval.{index, string, end, bucket}
use bee_php.Engine.SmartString.{SmartString}
use bee_php.Engine.Outcome.{query_error}
use bee_php.Msgpack.Unpack.Image.{image}
use bee_php.Connection.State.{Session, done, failed}
use bee_php.Connection.Stream.Keeps.{IsEmpty}
use bee_php.Connection.Runs.{Ends}
use bee_php.Connection.Receive.{bee_step_recv}
use bee_php.Connection.Receive.Empties.{bee_step_recv-Clears}
use bee_php.Connection.Receive.Answers.{bee_step_recv-answer, bee_step_recv-query_error}
use bee_php.Tests.Codec.{codec}
use bee_php.Tests.Codec.Decodes.{codec-DecodesBack}
use bee_php.Tests.Codec.Moves.{codec-Advances}
use bee_php.Tests.Memory.{allocator, allocator-IsAllocator, fresh-IsBuffer}
use bee_php.Tests.Values.{php}
use bee_php.Tests.Streams.{pairwise-IsPhpStream}
use bee_php.Tests.Connections.{
  types, server, session, header_slots, header_of, data_body, error_body, answer_bytes,
  fresh-IsEmpty, header_image, error_image, data-IsReply, error-IsReply,
}

coded : to_u64 (pos 0x8003) ≢ 0
coded e = ground arith

bee_step_recv-Clears_example :
    Ends
      (λ _ s'. IsEmpty s'.value)
      (λ s'. IsEmpty s'.value)
      (bee_step_recv {T = types} ⦃net = server []⦄ ⦃mp = codec⦄ ⦃php = php⦄ ⦃al = allocator⦄ 7
        (session (1 ∷ 2 ∷ [])))
bee_step_recv-Clears_example =
    bee_step_recv-Clears {T = types} ⦃net = server []⦄ (λ s. s) pairwise-IsPhpStream ⦃mp = codec⦄
      ⦃php = php⦄ codec-Advances ⦃al = allocator⦄ allocator-IsAllocator 7 (session (1 ∷ 2 ∷ []))
      fresh-IsBuffer

bee_step_recv-answer_example :
    let s : Session types = session (answer_bytes (header_of 0 7) data_body) in
    (stream' : Bytes) × (v : SmartString) × (bee_step_recv {T = types} ⦃net = server []⦄
        ⦃mp = codec⦄ ⦃php = php⦄ ⦃al = allocator⦄ 7 s
      ≡ done
          (image ⦃php = php⦄ (header_of 0 7), image ⦃php = php⦄ data_body)
          (record s { stream = some stream'; value = v }))
    × (stream' ≡ 9 ∷ [])
    × IsEmpty v
bee_step_recv-answer_example =
    bee_step_recv-answer {T = types} ⦃net = server []⦄ ⦃mp = codec⦄ ⦃php = php⦄ ⦃al = allocator⦄
      (λ s. s) pairwise-IsPhpStream codec-DecodesBack allocator-IsAllocator 7
      (session (answer_bytes (header_of 0 7) data_body)) (answer_bytes (header_of 0 7) data_body)
      (header_of 0 7) data_body (9 ∷ []) 0 6 (header_slots 0 7) (pos 7) refl fresh-IsEmpty
      data-IsReply (header_image 0 7) refl refl refl

bee_step_recv-query_error_example :
    let s : Session types = session (answer_bytes (header_of 0x8003 7) error_body) in
    (stream' : Bytes) × (v : SmartString) × (bee_step_recv {T = types} ⦃net = server []⦄
        ⦃mp = codec⦄ ⦃php = php⦄ ⦃al = allocator⦄ 7 s
      ≡ failed (record s {
        stream = some stream';
        value = v;
        thrown = query_error (to_u64 (pos 0x8003) % 2 ^ 15) (codes "no") ∷ [];
      }))
    × (stream' ≡ 9 ∷ [])
    × IsEmpty v
bee_step_recv-query_error_example =
    bee_step_recv-query_error {T = types} ⦃net = server []⦄ ⦃mp = codec⦄ ⦃php = php⦄
      ⦃al = allocator⦄ (λ s. s) pairwise-IsPhpStream codec-DecodesBack allocator-IsAllocator 7
      (session (answer_bytes (header_of 0x8003 7) error_body))
      (answer_bytes (header_of 0x8003 7) error_body) (header_of 0x8003 7) error_body (9 ∷ []) 0 6
      (header_slots 0x8003 7) (pos 7) (pos 0x8003) 0 0x32
      (bucket (index (pos 0x31)) (string (codes "no")) end) (codes "no") refl fresh-IsEmpty
      error-IsReply (header_image 0x8003 7) error_image refl refl refl coded refl
