-- ===== src/Connection/Receive/Answers.antt =====
-- The verdicts of bee_step_recv on a reply that arrives whole.
use bee_php.Prelude.{
  ℕ, ◌%◌, ◌^◌, ◌≡◌, ◌≢◌, ap, ◌∙◌, some, ◌∷◌, ==_refl, ==_differs, ℤ, pos, to_u64, Bytes,
}
use bee_php.Engine.Zval.{Zval, long, array, string, Buckets, slots}
use bee_php.Engine.HashTable.{index_find}
use bee_php.Engine.SmartString.{SmartString, Allocator, IsAllocator}
use bee_php.Engine.MsgPuck.{MsgPuck, DecodesBack}
use bee_php.Engine.Php.{Php}
use bee_php.Engine.PhpStream.{IsPhpStream}
use bee_php.Engine.Streams.{Streams}
use bee_php.Engine.Outcome.{query_error}
use bee_php.Msgpack.Unpack.Image.{image}
use bee_php.Proto.Keys.{beex_code, beex_sync, beex_error}
use bee_php.Connection.State.{Types, Session, done, failed, ◌>>=◌}
use bee_php.Connection.Stream.{reset_value}
use bee_php.Connection.Stream.Keeps.{IsEmpty, reset_value-IsEmpty}
use bee_php.Connection.Receive.{check_sync, query_fails, answer, check_code, judge, bee_step_recv}
use bee_php.Connection.Receive.Replies.{IsReply, bee_step_recv-IsRead}

module _ {T : Types} ⦃net : Streams T.World T.Stream⦄ where
  judge-ok :
      (sync : ℕ) (header body : Zval) (s : Session T) (c m : ℕ) (bs : Buckets) (i : ℤ)
      → header ≡ array c m bs
      → index_find beex_sync (slots bs) ≡ some (long i)
      → to_u64 i ≡ sync
      → index_find beex_code (slots bs) ≡ some (long (pos 0))
      → judge sync (header, body) s ≡ done (header, body) (record s { value = reset_value s.value })
  unfolding judge check_sync check_code answer
  judge-ok sync header body s c m bs i table found same code =
      rw (table, found, ◌>>=◌, same, ==_refl sync, code, ◌>>=◌, table)

  judge-query_error :
      (sync : ℕ) (header : Zval) (s : Session T) (c m : ℕ) (bs : Buckets) (i j : ℤ) (d o : ℕ)
      (errors : Buckets) (message : Bytes)
      → header ≡ array c m bs
      → index_find beex_sync (slots bs) ≡ some (long i)
      → to_u64 i ≡ sync
      → index_find beex_code (slots bs) ≡ some (long j)
      → to_u64 j ≢ 0
      → index_find beex_error (slots errors) ≡ some (string message)
      → judge sync (header, array d o errors) s
        ≡ failed (record s {
          value = reset_value s.value;
          thrown = query_error (to_u64 j % 2 ^ 15) message ∷ s.thrown;
        })
  unfolding judge check_sync check_code answer query_fails
  judge-query_error sync header s c m bs i j d o errors message table found same code bad error =
      rw (
        table,
        found,
        ◌>>=◌,
        same,
        ==_refl sync,
        code,
        ◌>>=◌,
        ==_differs (to_u64 j) 0 bad,
        error,
        ◌>>=◌,
      )

module _ {T : Types} ⦃net : Streams T.World T.Stream⦄ ⦃mp : MsgPuck⦄ ⦃php : Php⦄ ⦃al : Allocator⦄
    (content : T.Stream → Bytes) (stream_laws : IsPhpStream net.reads content)
    (decodes : DecodesBack mp) (laws : IsAllocator al) where
  -- bee_step_recv, with a connected stream on which a reply of two values and of less than 2 ^ 31
  -- bytes lies, an empty buffer and a header whose sync is the one asked for and whose code is 0, returns the images of the
  -- two values, leaves the buffer empty and takes the reply, and no more, off the stream.
  pub bee_step_recv-answer :
      (sync : ℕ) (s : Session T) (stream : T.Stream) (header body : Zval) (later : Bytes) (c m : ℕ)
      (bs : Buckets) (i : ℤ)
      → s.stream ≡ some stream
      → IsEmpty s.value
      → IsReply content stream header body later
      → image header ≡ array c m bs
      → index_find beex_sync (slots bs) ≡ some (long i)
      → to_u64 i ≡ sync
      → index_find beex_code (slots bs) ≡ some (long (pos 0))
      → (stream' : T.Stream) × (v : SmartString) × (bee_step_recv sync s
          ≡ done (image header, image body) (record s { stream = some stream'; value = v }))
        × (content stream' ≡ later)
        × IsEmpty v
  bee_step_recv-answer sync s stream header body later c m bs i there empty r table found same
        code =
      let (stream', v, got, left, b) =
        bee_step_recv-IsRead content stream_laws decodes laws sync s stream header body later c m bs
          there empty r table in
      (
        stream',
        reset_value v,
        got
            ∙ judge-ok sync (image header) (image body)
                (record s { stream = some stream'; value = v }) c m bs i table found same code,
        left,
        reset_value-IsEmpty v b,
      )

  -- bee_step_recv, on the same reply but with a code other than 0 and a body that has a message,
  -- throws the message with the low 15 bits of the code and fails, with the buffer empty, and the
  -- stream still connected and behind the reply.
  pub bee_step_recv-query_error :
      (sync : ℕ) (s : Session T) (stream : T.Stream) (header body : Zval) (later : Bytes) (c m : ℕ)
      (bs : Buckets) (i j : ℤ) (d o : ℕ) (errors : Buckets) (message : Bytes)
      → s.stream ≡ some stream
      → IsEmpty s.value
      → IsReply content stream header body later
      → image header ≡ array c m bs
      → image body ≡ array d o errors
      → index_find beex_sync (slots bs) ≡ some (long i)
      → to_u64 i ≡ sync
      → index_find beex_code (slots bs) ≡ some (long j)
      → to_u64 j ≢ 0
      → index_find beex_error (slots errors) ≡ some (string message)
      → (stream' : T.Stream) × (v : SmartString) × (bee_step_recv sync s
          ≡ failed (record s {
            stream = some stream';
            value = v;
            thrown = query_error (to_u64 j % 2 ^ 15) message ∷ s.thrown;
          }))
        × (content stream' ≡ later)
        × IsEmpty v
  bee_step_recv-query_error sync s stream header body later c m bs i j d o errors message there
        empty r table answered found same code bad error =
      let (stream', v, got, left, b) =
        bee_step_recv-IsRead content stream_laws decodes laws sync s stream header body later c m bs
          there empty r table in
      let s' : Session T = record s { stream = some stream'; value = v } in
      (
        stream',
        reset_value v,
        got
            ∙ ap (λ w. judge sync (image header, w) s') answered
            ∙ judge-query_error sync (image header) s' c m bs i j d o errors message table found
                same code bad error,
        left,
        reset_value-IsEmpty v b,
      )
