-- ===== src/Connection/Exchange/Short.antt =====
-- A request of which the stream takes a part only, and the request after it.
use bee_php.Prelude.{
  ◌+◌, ◌≡◌, ◌≢◌, refl, ap, ◌∙◌, ℕ, Option, none, some, ◌++◌, ==_differs, length, Bytes, u32, u64,
}
use bee_php.Engine.SmartString.{SmartString, IsBuffer, contents, Allocator}
use bee_php.Engine.MsgPuck.{MsgPuck}
use bee_php.Engine.Php.{Php}
use bee_php.Engine.Streams.{Streams}
use bee_php.Msgpack.Buffer.{Action}
use bee_php.Msgpack.Buffer.Writes.{Appends, appended, Writes}
use bee_php.Connection.State.{Types, Session, failed, ◌>>=◌, next_sync}
use bee_php.Connection.Stream.{reset_value, beexll_stream_send, bee_stream_send}
use bee_php.Connection.Stream.Keeps.{IsEmpty, reset_value-IsEmpty}
use bee_php.Connection.Receive.{bee_step_recv}
use bee_php.Connection.Methods.{exchange}
use bee_php.Connection.Exchange.{Takes, send-Takes, contents_empty}

Appends-some :
    {s : SmartString} {p : Bytes} (o : Option SmartString)
    → Appends s p o
    → (v : SmartString) × (o ≡ some v) × (contents v ≡ contents s ++ p) × IsBuffer v
Appends-some none h = elim h [ ]
Appends-some (some v) (appended h) = (v, refl, h.grown, h.is_buffer)

module _ {T : Types} ⦃net : Streams T.World T.Stream⦄ where
  send_short :
      (s : Session T) (stream : T.Stream) (p : Bytes)
      → s.stream ≡ some stream
      → contents s.value ≡ p
      → (net.write p stream).0 ≢ length p
      → bee_stream_send s ≡ failed (record s { stream = some (net.write p stream).1 })
  unfolding bee_stream_send beexll_stream_send
  send_short s stream p there holds short =
      rw (there, holds, ==_differs (net.write p stream).0 (length p) short)

  module _ ⦃mp : MsgPuck⦄ ⦃php : Php⦄ ⦃al : Allocator⦄ where
    -- A request of the bytes `p`, on an empty buffer, of which the stream takes a part only, fails.
    -- The next request, of the bytes `q`, then sends `p` and `q` together, so that all of `p` goes
    -- out once more behind the part that was taken: a stream that takes `p` and `q` is left as after
    -- both, and the reply that is waited for is that to the number of `q`.
    pub exchange_short :
        (encode encode' : ℕ → Action) (p q : Bytes) (s : Session T) (stream stream' : T.Stream)
        → s.stream ≡ some stream
        → IsEmpty s.value
        → Writes (encode (u32 s.sync_counter)) p
        → Writes (encode' (u32 (u64 (s.sync_counter + 1)))) q
        → (net.write p stream).0 ≢ length p
        → Takes net (p ++ q) (net.write p stream).1 stream'
        → (s' : Session T) × (v : SmartString) × (exchange encode s ≡ failed s')
          × (exchange encode' s'
              ≡ bee_step_recv (u64 (s.sync_counter + 1)) (record s {
                stream = some stream';
                value = v;
                sync_counter = u64 (u64 (s.sync_counter + 1) + 1);
              }))
          × IsEmpty v
    unfolding exchange next_sync
    exchange_short encode encode' p q s stream stream' there empty writes writes' short takes =
        let n = u64 (s.sync_counter + 1) in
        let (v, packed₁, grown, b) = Appends-some _ (writes s.value empty.is_buffer) in
        let (w, packed₂, grown', b') = Appends-some _ (writes' v b) in
        let holds : contents v ≡ p = grown ∙ ap (λ bs. bs ++ p) (contents_empty s.value empty) in
        let both : contents w ≡ p ++ q = grown' ∙ ap (λ bs. bs ++ q) holds in
        let s₁ : Session T = record s { sync_counter = n; value = v } in
        let s₂ : Session T = record s {
          sync_counter = u64 (n + 1);
          value = w;
          stream = some (net.write p stream).1;
        } in
        (
          record s₁ { stream = some (net.write p stream).1 },
          reset_value w,
          rw (packed₁, send_short s₁ stream p there holds short, ◌>>=◌),
          rw (
            packed₂,
            send-Takes s₂ (net.write p stream).1 stream' (p ++ q) refl both takes,
            ◌>>=◌,
          ),
          reset_value-IsEmpty w b',
        )
