-- ===== src/Connection/Names/Blocks.antt =====
-- A message that is read to the start of the block, and the response in it.
use Prim.Native.Nat.{bit_or}
use bee_php.Prelude.{
  ℕ, ◌+◌, ◌<◌, ◌^◌, ◌≡◌, refl, ap, ◌∙◌, some, [], ◌∷◌, ◌++◌, append_assoc, arith, ==_refl, length,
  take, drop, take-append_exact, drop-append_exact, length-append, length-drop, Bytes, be32, u32,
}
use bee_php.Engine.SmartString.{SmartString, Allocator, IsAllocator}
use bee_php.Engine.MsgPuck.{MsgPuck, mp_array, typeof, DecodesBack}
use bee_php.Engine.PhpStream.{IsPhpStream}
use bee_php.Engine.Streams.{Streams}
use bee_php.Engine.Outcome.{Exception, length_unread, message_unread}
use bee_php.Msgpack.Buffer.{smart_string_ensure}
use bee_php.Msgpack.Buffer.Writes.{smart_string_ensure-Ensured}
use bee_php.Msgpack.Unpack.{php_mp_unpack_package_size}
use bee_php.Proto.Keys.{beex_data}
use bee_php.Proto.Encode.Packet.{packet}
use bee_php.Proto.Response.{BeexResponse, blank}
use bee_php.Proto.Response.Parse.{Header, IsHeader, set_entry, apply_header, message}
use bee_php.Proto.Response.Replies.{php_tp_response-data}
use bee_php.Schema.Rows.{IsSkipped}
use bee_php.Connection.State.{Types, Session, done, ◌>>=◌}
use bee_php.Connection.Stream.Keeps.{
  IsEmpty, read_count_small, reads_front, bee_stream_read-ReadsFront, read_into-written,
}
use bee_php.Connection.Names.{read_block, read_response}

-- The response to a message with `d` under DATA.
abbrev pub data_response : Header → Bytes → BeexResponse
data_response header d =
    let r = apply_header header blank in
    record r { bitmap = bit_or r.bitmap (2 ^ beex_data); response_data = some d }

apply_header-error : (header : Header) (r : BeexResponse) → (apply_header header r).error ≡ r.error
unfolding apply_header set_entry
apply_header-error [] r = refl
apply_header-error ((k, v) ∷ header) r = apply_header-error header (set_entry k v r)

module _ {T : Types} ⦃net : Streams T.World T.Stream⦄ ⦃mp : MsgPuck⦄ ⦃al : Allocator⦄
    (content : T.Stream → Bytes) (stream_laws : IsPhpStream net.reads content)
    (decodes : DecodesBack mp) (laws : IsAllocator al) where
  read_block-packet :
      (unread : Exception) (short : ℕ → Exception) (s : Session T) (stream : T.Stream)
      (p later : Bytes)
      → s.stream ≡ some stream
      → content stream ≡ packet p ++ later
      → length p < 2 ^ 31
      → IsEmpty s.value
      → (stream' : T.Stream) × (v : SmartString) × (stale : Bytes) × (read_block unread short s
          ≡ done tt (record s { stream = some stream'; value = record v { c = p ++ stale } }))
        × (content stream' ≡ later)
        × IsEmpty (record v { c = p ++ stale })
  unfolding read_block php_mp_unpack_package_size
  read_block-packet unread short s stream p later there incoming fits empty =
      let n = length p in
      let plain : 0 + n ≡ n = omega arith in
      let wrapped : u32 n ≡ n = omega (arith, fits) in
      let split : content stream ≡ (0xce ∷ be32 n) ++ (p ++ later) =
        incoming ∙ rw (wrapped, append_assoc (0xce ∷ be32 n) p later) in
      let v = smart_string_ensure n s.value in
      let e = smart_string_ensure-Ensured laws n s.value empty.is_buffer in
      elim (bee_stream_read-ReadsFront content stream_laws 5 s stream there) [
        | reads_front stream₁ got left ↦
            let size : take 5 (content stream) ≡ 0xce ∷ be32 n = ap (take 5) split in
            let (stream₂, got₂, left₂) =
              read_into-written content stream_laws (λ w. 0) n
                (record s { stream = some stream₁; value = v }) stream₁ refl e.is_buffer
                (omega (arith, e.room)) in
            let after : content stream₁ ≡ p ++ later = left ∙ ap (drop 5) split in
            let front : take n (content stream₁) ≡ p =
              ap (take n) after ∙ take-append_exact p later n refl in
            (
              stream₂,
              v,
              drop n v.c,
              rw (
                got,
                ◌>>=◌,
                size,
                ◌>>=◌,
                size,
                decodes.decode-uint32 n [] (omega (arith, fits)),
                ◌>>=◌,
                got₂,
                ◌>>=◌,
                front,
                read_count_small n fits,
                ==_refl n,
                plain,
              ),
              left₂ ∙ ap (drop n) after ∙ drop-append_exact p later,
              record {
                is_buffer = record {
                  block = omega (
                    arith,
                    length-append p (drop n v.c),
                    length-drop n v.c,
                    e.is_buffer.block,
                    e.room,
                  );
                  within = e.is_buffer.within;
                };
                no_len = e.same_len ∙ empty.no_len;
              },
            )
      ]

  pub read_response-data :
      (s : Session T) (stream : T.Stream) (header : Header) (d later : Bytes)
      → s.stream ≡ some stream
      → content stream ≡ packet (message header beex_data d) ++ later
      → length (message header beex_data d) < 2 ^ 31
      → IsEmpty s.value
      → IsHeader header
      → length header < 2 ^ 32
      → ((rest : Bytes) → typeof mp (d ++ rest) ≡ some mp_array)
      → IsSkipped d
      → (stream' : T.Stream) × (v : SmartString) × (read_response s
          ≡ done (data_response header d) (record s { stream = some stream'; value = v }))
        × (content stream' ≡ later)
        × IsEmpty v
  unfolding read_response
  read_response-data s stream header d later there incoming fits empty h few is_array skipped =
      let p = message header beex_data d in
      let (stream', v, stale, got, left, emptied) =
        read_block-packet length_unread message_unread s stream p later there incoming fits empty in
      (
        stream',
        record v { c = p ++ stale },
        rw (
          got,
          ◌>>=◌,
          php_tp_response-data decodes header d stale h few (is_array stale)
              (skipped.next-skipped stale),
          ◌>>=◌,
          apply_header-error header blank,
        ),
        left,
        emptied,
      )
