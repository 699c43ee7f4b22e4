-- ===== src/Connection/Stream.antt =====
-- bee_stream_send, bee_stream_read and bee_stream_close of src/bee.c, and what they call in
-- src/bee_network.c. A null stream that is used is a crash.
pub mod Keeps
use bee_php.Prelude.{
  to_u64, ℕ, ◌+◌, ◌≡◌, Bool, true, false, not, ◌||◌, ◌⊎◌, inl, inr, Option, none, some, List, [],
  ◌∷◌, ◌==◌, if◌then◌else◌, length, take, Bytes,
}
use bee_php.Engine.SmartString.{SmartString, Allocator, write_at, contents}
use bee_php.Engine.Outcome.{Exception, connect_failed, setsockopt_failed, lift}
use bee_php.Engine.Streams.{Streams, PersistentStatus, success, failure, not_exist}
use bee_php.Msgpack.Buffer.{smart_string_nullify}
use bee_php.Network.{beexll_stream_read2}
use bee_php.Connection.State.{
  Types, Session, Call, ◌>>=◌, ◌>>◌, return, fail, crashes, gets, modify, run,
}

abbrev pub is_set {ℓ} : {A : Type ℓ} → Option A → Bool
is_set none = false
is_set (some a) = true

module _ {World Stream : Type 0} (net : Streams World Stream) where
  -- 0 or -1, and the stream. The flush is not reached after a short write.
  unfoldable pub beexll_stream_send : Stream → Bytes → Bool × Stream
  beexll_stream_send stream buf =
      let (written, stream') = net.write buf stream in
      if not (written == length buf)
      then (false, stream')
      else (let (rv, stream'') = net.flush stream' in (rv == 0, stream''))

  abbrev pub find_stream : Option Stream → Option Bytes → World → Option Stream
  find_stream (some stream) pid w = some stream
  find_stream none pid w =
      let (status, stream) = net.from_persistent_id pid w in
      elim status [ success ↦ stream | failure ↦ none | not_exist ↦ none ]

  abbrev pub free_stream : (persistent : Bool) → Option Stream → World → World
  free_stream persistent none w = w
  free_stream persistent (some stream) w = net.free persistent stream w

  unfoldable pub beexll_stream_close : Option Stream → Option Bytes → World → World
  beexll_stream_close stream pid w = free_stream (is_set pid) (find_stream stream pid w) w

  -- The stream, or the message in `err`. Timeouts are not described.
  unfoldable pub beexll_stream_open :
      (host : Bytes) (port : ℕ) (pid : Option Bytes) → World → (Exception ⊎ Stream) × World
  beexll_stream_open host port pid w =
      let (errcode, found, w') = net.xport_create host port pid w in
      elim found [
        | none ↦ (inl (connect_failed errcode), w')
        | some stream ↦
            if not (errcode == 0)
            then (inl (connect_failed errcode), beexll_stream_close (some stream) pid w')
            else if not (net.setsockopt stream == 0)
            then (inl setsockopt_failed, beexll_stream_close (some stream) pid w')
            else (inr stream, w')
      ]

-- SSTR_LEN(obj->value) = 0; smart_string_nullify(obj->value);
abbrev pub reset_value : SmartString → SmartString
reset_value v = smart_string_nullify (record v { len = 0 })

module _ {T : Types} ⦃net : Streams T.World T.Stream⦄ where
  abbrev pub with_stream : Call T T.Stream
  with_stream s = run (lift s.stream) s

  unfoldable pub bee_stream_send : Call T (Unit {0})
  bee_stream_send = do
    stream ← with_stream
    buf ← gets (λ s. contents s.value)
    let (sent, stream') = beexll_stream_send net stream buf
    modify (λ s. record s { stream = some stream' })
    if not sent then fail else modify (λ s. record s { value = reset_value s.value })

  -- The number of bytes, an int that is returned as a size_t, and the bytes that are written to the
  -- buffer.
  unfoldable pub bee_stream_read : ℕ → Call T (ℕ × Bytes)
  bee_stream_read size = do
    stream ← with_stream
    (count, buf, stream') ← run (beexll_stream_read2 net.reads stream size)
    modify (λ s. record s { stream = some stream' })
    return (to_u64 count, buf)

  unfoldable pub bee_stream_close : Call T (Unit {0})
  bee_stream_close = modify λ s. record s {
    world =
        if is_set s.stream || is_set s.persistent_id
        then beexll_stream_close net s.stream s.persistent_id s.world
        else s.world;
    stream = none;
    persistent_id = none;
  }

  abbrev pub write_back : SmartString → ℕ → Option Bytes → Call T ℕ
  write_back v n none = crashes
  write_back v n (some c') = do modify (λ s. record s { value = record v { c = c' } }); return n

  -- A read that goes into the block of obj->value at an offset.
  unfoldable pub read_into : (offset : SmartString → ℕ) → ℕ → Call T ℕ
  read_into offset size = do
    (count, buf) ← bee_stream_read size
    v ← gets (λ s. s.value)
    write_back v count (write_at (offset v) buf v.c)
