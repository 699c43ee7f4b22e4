-- ===== src/Connection/Exchange.antt =====
-- A request and its answer, from the encoder to the values that a method gets.
pub mod Short
use bee_php.Prelude.{
  ℕ, ◌+◌, ◌^◌, ◌<◌, ◌≡◌, ◌≢◌, refl, sym, ap, ◌∙◌, false, Option, none, some, [], ◌++◌, arith,
  ==_refl, ==_differs, ℤ, pos, to_u64, length, Bytes, u32, u64,
}
use bee_php.Engine.Zval.{Zval, long, array, Buckets, slots, IsZval}
use bee_php.Engine.HashTable.{index_find}
use bee_php.Engine.SmartString.{SmartString, Allocator, IsAllocator, contents}
use bee_php.Engine.MHash.{MHash}
use bee_php.Engine.MsgPuck.{MsgPuck, DecodesBack, EncodesBySize}
use bee_php.Engine.Php.{Php}
use bee_php.Engine.PhpStream.{IsPhpStream}
use bee_php.Engine.Streams.{Streams}
use bee_php.Engine.Tp.{Tp}
use bee_php.Msgpack.Buffer.{Action}
use bee_php.Msgpack.Buffer.Writes.{Appends, appended}
use bee_php.Msgpack.Unpack.Image.{image}
use bee_php.Proto.Keys.{beex_code, beex_sync, beex_data, beex_call, beex_ping}
use bee_php.Proto.Encode.{php_tp_encode_ping, php_tp_encode_call}
use bee_php.Proto.Encode.Packet.{packet, body_bytes, request_bytes}
use bee_php.Proto.Encode.Bodies.{call_fields}
use bee_php.Proto.Encode.Queries.{encode_call-packet, encode_ping-packet}
use bee_php.Schema.{SchemaSpaceValue, SchemaIndexValue}
use bee_php.Connection.State.{Types, Session, done, failed, ◌>>=◌, next_sync}
use bee_php.Connection.Stream.{reset_value, beexll_stream_send, bee_stream_send}
use bee_php.Connection.Stream.Keeps.{IsEmpty, reset_value-IsEmpty}
use bee_php.Connection.Receive.Replies.{IsReply}
use bee_php.Connection.Receive.Answers.{bee_step_recv-answer}
use bee_php.Connection.Methods.{exchange, exchange_data, return_data, connect_on_demand, call, ping}
use bee_php.Client.Key.{pack_key}

module _ {World Stream : Type 0} (net : Streams World Stream) where
  -- A stream that takes all the bytes of `p`, and what it is then.
  pub record Takes (p : Bytes) (stream stream' : Stream) : Type 0 where
    pub all_written : (net.write p stream).0 ≡ length p
    pub flushed : net.flush (net.write p stream).1 ≡ (0, stream')

pub contents_empty : (v : SmartString) → IsEmpty v → contents v ≡ []
contents_empty v e = rw (e.no_len) refl

module _ {T : Types} ⦃net : Streams T.World T.Stream⦄ where
  pub send-Takes :
      (s : Session T) (stream stream' : T.Stream) (p : Bytes)
      → s.stream ≡ some stream
      → contents s.value ≡ p
      → Takes net p stream stream'
      → bee_stream_send s
        ≡ done tt (record s { stream = some stream'; value = reset_value s.value })
  unfolding bee_stream_send beexll_stream_send
  send-Takes s stream stream' p there holds t =
      rw (there, holds, t.all_written, ==_refl (length p), t.flushed)

module _ {T : Types} ⦃net : Streams T.World T.Stream⦄ ⦃mp : MsgPuck⦄ ⦃php : Php⦄ ⦃al : Allocator⦄
    (content : T.Stream → Bytes) (stream_laws : IsPhpStream net.reads content)
    (decodes : DecodesBack mp) (laws : IsAllocator al) where
  -- A request of the bytes `p` on an empty buffer, for a stream that takes it whole and has the
  -- answer to its number then, of less than 2 ^ 31 bytes: the call returns the images of the two values of the answer, with
  -- the number used up, the buffer empty and the stream behind the answer.
  pub exchange-answer :
      (encode : ℕ → Action) (p : Bytes) (s : Session T) (stream stream' : T.Stream)
      (header body : Zval) (later : Bytes) (c m : ℕ) (bs : Buckets) (i : ℤ)
      → s.stream ≡ some stream
      → IsEmpty s.value
      → Appends s.value p (encode (u32 s.sync_counter) s.value)
      → Takes net p stream stream'
      → IsReply content stream' header body later
      → image header ≡ array c m bs
      → index_find beex_sync (slots bs) ≡ some (long i)
      → to_u64 i ≡ s.sync_counter
      → index_find beex_code (slots bs) ≡ some (long (pos 0))
      → (stream'' : T.Stream) × (v : SmartString) × (exchange encode s
          ≡ done
              (image header, image body)
              (record s {
                stream = some stream'';
                value = v;
                sync_counter = u64 (s.sync_counter + 1);
              }))
        × (content stream'' ≡ later)
        × IsEmpty v
  unfolding exchange next_sync
  exchange-answer encode p s stream stream' header body later c m bs i there empty encoded takes
        reply table found same code =
      go (encode (u32 s.sync_counter) s.value) encoded refl
    where
      go :
          (o : Option SmartString)
          → Appends s.value p o
          → o ≡ encode (u32 s.sync_counter) s.value
          → (stream'' : T.Stream) × (v : SmartString) × (exchange encode s
              ≡ done
                  (image header, image body)
                  (record s {
                    stream = some stream'';
                    value = v;
                    sync_counter = u64 (s.sync_counter + 1);
                  }))
            × (content stream'' ≡ later)
            × IsEmpty v
      go none h e = elim h [ ]
      go (some v) (appended h) e =
          let s₁ : Session T = record s { sync_counter = u64 (s.sync_counter + 1); value = v } in
          let holds : contents v ≡ p =
            h.grown ∙ ap (λ bs. bs ++ p) (contents_empty s.value empty) in
          let sent = send-Takes s₁ stream stream' p there holds takes in
          let (stream'', w, got, left, emptied) =
            bee_step_recv-answer content stream_laws decodes laws s.sync_counter
              (record s₁ { stream = some stream'; value = reset_value v }) stream' header body later
              c m bs i refl (reset_value-IsEmpty v h.is_buffer) reply table found same code in
          (stream'', w, rw (sym e, sent, ◌>>=◌, got), left, emptied)

module _ {T : Types} ⦃net : Streams T.World T.Stream⦄ ⦃mp : MsgPuck⦄ ⦃php : Php⦄ ⦃al : Allocator⦄
    ⦃tp : Tp⦄ ⦃space_hash : MHash T.Spaces SchemaSpaceValue⦄
    ⦃index_hash : MHash T.Indexes SchemaIndexValue⦄ where
  -- A connected stream that has not ended is used as it is.
  connect_on_demand_connected :
      (s : Session T) (stream : T.Stream)
      → s.stream ≡ some stream
      → net.eof stream ≡ false
      → connect_on_demand s ≡ done tt s
  unfolding connect_on_demand
  connect_on_demand_connected s stream there open_still = rw (there, ◌>>=◌, open_still)

  -- ping, with a connected stream, an empty buffer and a number below 2 ^ 32, sends the packet of
  -- the request with that number. If the stream takes it and has the answer to that number then,
  -- of less than 2 ^ 31 bytes, ping returns true, with the number used up, the buffer empty and the stream behind the answer.
  pub ping-answer :
      (content : T.Stream → Bytes)
      → IsPhpStream net.reads content
      → DecodesBack mp
      → EncodesBySize mp
      → IsAllocator al
      → (s : Session T) (stream stream' : T.Stream) (header body : Zval) (later : Bytes) (c m : ℕ)
        (bs : Buckets) (i : ℤ)
      → s.stream ≡ some stream
      → net.eof stream ≡ false
      → IsEmpty s.value
      → s.sync_counter < 2 ^ 32
      → Takes net (packet (request_bytes beex_ping s.sync_counter [])) stream stream'
      → IsReply content stream' header body later
      → image header ≡ array c m bs
      → index_find beex_sync (slots bs) ≡ some (long i)
      → to_u64 i ≡ s.sync_counter
      → index_find beex_code (slots bs) ≡ some (long (pos 0))
      → (stream'' : T.Stream) × (v : SmartString) × (ping s
          ≡ done tt (record s {
            stream = some stream'';
            value = v;
            sync_counter = u64 (s.sync_counter + 1);
          }))
        × (content stream'' ≡ later)
        × IsEmpty v
  unfolding ping
  ping-answer content stream_laws decodes sizes laws s stream stream' header body later c m bs i
        there open_still empty fits takes reply table found same code =
      let n = s.sync_counter in
      let wrapped : u32 n ≡ n = omega (arith, fits) in
      let encoded : Appends s.value (packet (request_bytes beex_ping n []))
          (php_tp_encode_ping (u32 n) s.value) =
        rw wrapped (encode_ping-packet laws sizes n s.value fits empty.is_buffer) in
      let (stream'', v, got, left, emptied) =
        exchange-answer content stream_laws decodes laws php_tp_encode_ping
          (packet (request_bytes beex_ping n [])) s stream stream' header body later c m bs i there
          empty encoded takes reply table found same code in
      (
        stream'',
        v,
        rw (connect_on_demand_connected s stream there open_still, ◌>>=◌, got),
        left,
        emptied,
      )

  -- call, with an array of arguments, a connected stream, an empty buffer and a number below
  -- 2 ^ 32, sends the packet of the request. If the stream takes it and has the answer to that
  -- number then, of less than 2 ^ 31 bytes and with a value under DATA in its body, call returns that value.
  pub call-answer :
      (content : T.Stream → Bytes)
      → IsPhpStream net.reads content
      → DecodesBack mp
      → EncodesBySize mp
      → IsAllocator al
      → (proc : Bytes) (n o : ℕ) (tuple : Buckets) (s : Session T) (stream stream' : T.Stream)
        (header body answer : Zval) (later : Bytes) (c m d e : ℕ) (bs fields : Buckets) (i : ℤ)
      → length proc < 2 ^ 31
      → IsZval (array n o tuple)
      → s.stream ≡ some stream
      → net.eof stream ≡ false
      → IsEmpty s.value
      → s.sync_counter < 2 ^ 32
      → Takes net
          (packet (
            request_bytes beex_call s.sync_counter
              (body_bytes (call_fields proc (array n o tuple)))))
          stream
          stream'
      → IsReply content stream' header body later
      → image header ≡ array c m bs
      → index_find beex_sync (slots bs) ≡ some (long i)
      → to_u64 i ≡ s.sync_counter
      → index_find beex_code (slots bs) ≡ some (long (pos 0))
      → image body ≡ array d e fields
      → index_find beex_data (slots fields) ≡ some answer
      → (stream'' : T.Stream) × (v : SmartString) × (call proc (some (array n o tuple)) s
          ≡ done answer (record s {
            stream = some stream'';
            value = v;
            sync_counter = u64 (s.sync_counter + 1);
          }))
        × (content stream'' ≡ later)
        × IsEmpty v
  unfolding call exchange_data return_data pack_key
  call-answer content stream_laws decodes sizes laws proc n o tuple s stream stream' header body
        answer later c m d e bs fields i proc_fits tuple-IsZval there open_still empty fits takes
        reply table found same code answered has_data =
      let k = s.sync_counter in
      let p =
        packet (request_bytes beex_call k (body_bytes (call_fields proc (array n o tuple)))) in
      let wrapped : u32 k ≡ k = omega (arith, fits) in
      let short : u32 (length proc) ≡ length proc = omega (arith, proc_fits) in
      let encode : ℕ → Action =
        λ sync. php_tp_encode_call sync proc (u32 (length proc)) (array n o tuple) in
      let encoded : Appends s.value p (encode (u32 k) s.value) =
        rw (wrapped, short)
          (encode_call-packet laws sizes k proc (array n o tuple) s.value fits proc_fits
            tuple-IsZval empty.is_buffer) in
      let (stream'', v, got, left, emptied) =
        exchange-answer content stream_laws decodes laws encode p s stream stream' header body later
          c m bs i there empty encoded takes reply table found same code in
      (
        stream'',
        v,
        rw (connect_on_demand_connected s stream there open_still, ◌>>=◌, got, answered, has_data),
        left,
        emptied,
      )
