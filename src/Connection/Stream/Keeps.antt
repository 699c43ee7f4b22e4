-- ===== src/Connection/Stream/Keeps.antt =====
-- What reading from the stream does to the buffer.
use bee_php.Prelude.{
  pos, to_int, to_u64, ◌<◌, ◌^◌, ℕ, ◌+◌, ◌≤◌, ◌≡◌, refl, ◌∙◌, Option, none, some, ◌++◌, arith,
  length, take, drop, length-take, length-replicate, le→ltb_false, Bytes,
}
use bee_php.Engine.SmartString.{SmartString, IsBuffer, write_at}
use bee_php.Engine.PhpStream.{IsPhpStream}
use bee_php.Engine.Streams.{Streams}
use bee_php.Engine.Outcome.{lift}
use bee_php.Msgpack.Buffer.{smart_string_nullify}
use bee_php.Network.Whole.{counts, read2-Counts}
use bee_php.Connection.State.{Types, Session, Run, done, crash, ◌>>=◌}
use bee_php.Connection.Runs.{IsPlain}
use bee_php.Connection.Stream.{reset_value, bee_stream_read, read_into}

-- A number of bytes that went through an int.
abbrev pub read_count : ℕ → ℕ
read_count n = to_u64 (to_int (pos n))

pub read_count_small : (n : ℕ) → n < 2 ^ 31 → read_count n ≡ n
read_count_small n h = ground arith

-- The buffer holds nothing.
pub record IsEmpty (v : SmartString) : Type 0 where
  pub is_buffer : IsBuffer v
  pub no_len : v.len ≡ 0

pub reset_value-IsEmpty : (v : SmartString) → IsBuffer v → IsEmpty (reset_value v)
unfolding smart_string_nullify
reset_value-IsEmpty v b = record {
  is_buffer = record { block = length-replicate (length v.c) 0 ∙ b.block; within = omega arith };
  no_len = refl;
}

pub lift-IsPlain : {A : Type 0} (o : Option A) → IsPlain {A = A} (lift o)
lift-IsPlain none = tt
lift-IsPlain (some a) = tt

module _ {T : Types} ⦃net : Streams T.World T.Stream⦄ (content : T.Stream → Bytes)
    (laws : IsPhpStream net.reads content) where
  -- A read takes the front of what is to come.
  pub data ReadsFront (size : ℕ) (s : Session T) (stream : T.Stream) (r : Run T (ℕ × Bytes))
      : Type 0 where
    reads_front :
        (stream' : T.Stream)
        → r
          ≡ done
              (read_count (length (take size (content stream))), take size (content stream))
              (record s { stream = some stream' })
        → content stream' ≡ drop size (content stream)
        → ReadsFront size s stream r

  pub bee_stream_read_null :
      (size : ℕ) (s : Session T) → s.stream ≡ none → bee_stream_read size s ≡ crash
  unfolding bee_stream_read
  bee_stream_read_null size s e = rw e

  pub bee_stream_read-ReadsFront :
      (size : ℕ) (s : Session T) (stream : T.Stream)
      → s.stream ≡ some stream
      → ReadsFront size s stream (bee_stream_read size s)
  unfolding bee_stream_read
  bee_stream_read-ReadsFront size s stream e =
      elim (read2-Counts net.reads content laws stream size) [
        | counts stream' got left small ↦ reads_front stream' (rw (e, got)) left
      ]

  pub read_into_null :
      (offset : SmartString → ℕ) (size : ℕ) (s : Session T)
      → s.stream ≡ none
      → read_into offset size s ≡ crash
  unfolding read_into
  read_into_null offset size s e = rw (bee_stream_read_null size s e, ◌>>=◌)

  -- What a read into the block leaves, on a buffer with room.
  pub read_into-written :
      (offset : SmartString → ℕ) (size : ℕ) (s : Session T) (stream : T.Stream)
      → s.stream ≡ some stream
      → IsBuffer s.value
      → offset s.value + size ≤ s.value.a
      → let front = take size (content stream) in
        (stream' : T.Stream) × (read_into offset size s
          ≡ done (read_count (length front)) (record s {
            stream = some stream';
            value = record s.value {
              c =
                  take (offset s.value) s.value.c
                  ++ (front ++ drop (offset s.value + length front) s.value.c);
            };
          }))
        × (content stream' ≡ drop size (content stream))
  unfolding read_into write_at
  read_into-written offset size s stream e b room =
      elim (bee_stream_read-ReadsFront size s stream e) [
        | reads_front stream' got left ↦ (
          stream',
          rw (
            got,
            ◌>>=◌,
            le→ltb_false (length s.value.c) (offset s.value + length (take size (content stream)))
                (omega (arith, b.block, length-take size (content stream))),
          ),
          left,
        )
      ]
