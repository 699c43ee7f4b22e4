-- ===== src/Connection/Receive/Huge.antt =====
-- Replies of 2 ^ 31 bytes or more, whose length does not fit the int that beexll_stream_read2
-- returns.
use bee_php.Prelude.{
  ℕ, ◌+◌, ◌^◌, ◌≤◌, ◌<◌, ◌≡◌, ◌≢◌, refl, ◌∙◌, ap, true, some, ◌∷◌, ◌++◌, arith, ==_differs, length,
  take, drop, length-take, Bytes, be32,
}
use bee_php.Engine.SmartString.{IsBuffer, SmartString, Allocator, IsAllocator}
use bee_php.Engine.MsgPuck.{MsgPuck, DecodesBack}
use bee_php.Engine.Php.{Php}
use bee_php.Engine.PhpStream.{IsPhpStream}
use bee_php.Engine.Streams.{Streams}
use bee_php.Engine.Outcome.{message_unread}
use bee_php.Msgpack.Buffer.{smart_string_ensure}
use bee_php.Msgpack.Buffer.Writes.{smart_string_ensure-Ensured}
use bee_php.Connection.State.{Types, Session, failed, ◌>>=◌}
use bee_php.Connection.Stream.{reset_value}
use bee_php.Connection.Stream.Keeps.{IsEmpty, read_count, reset_value-IsEmpty, read_into-written}
use bee_php.Connection.Receive.{recv_message, bee_step_recv}
use bee_php.Connection.Receive.Clears.{written-IsBuffer}
use bee_php.Connection.Receive.Replies.{recv_size-reply}

-- Such a number is changed by the int.
read_count_huge : (n : ℕ) → 2 ^ 31 ≤ n → n < 2 ^ 32 → read_count n ≢ n
read_count_huge n low high e = ground arith

module _ {T : Types} ⦃net : Streams T.World T.Stream⦄ ⦃mp : MsgPuck⦄ ⦃php : Php⦄ ⦃al : Allocator⦄
    (content : T.Stream → Bytes) (stream_laws : IsPhpStream net.reads content)
    (decodes : DecodesBack mp) (laws : IsAllocator al) where
  -- A reply that announces 2 ^ 31 bytes or more, below 2 ^ 32, all of which come: bee_step_recv
  -- takes them off the stream, throws that they could not be read, and fails. The stream stays
  -- open behind the reply, and the buffer is empty.
  pub bee_step_recv_huge :
      (sync n : ℕ) (s : Session T) (stream : T.Stream) (rest : Bytes)
      → s.stream ≡ some stream
      → content stream ≡ (0xce ∷ be32 n) ++ rest
      → 2 ^ 31 ≤ n
      → n < 2 ^ 32
      → n ≤ length rest
      → mp.check (0xce ∷ be32 n) ≡ true
      → IsBuffer s.value
      → (stream' : T.Stream) × (v : SmartString) × (bee_step_recv sync s
          ≡ failed
              (record s { stream = some stream'; value = v; thrown = message_unread n ∷ s.thrown }))
        × (content stream' ≡ drop n rest)
        × IsEmpty v
  unfolding bee_step_recv recv_message
  bee_step_recv_huge sync n s stream rest there incoming low high come checked b =
      let (stream₁, sized, left₁) =
        recv_size-reply content stream_laws decodes s stream n rest there incoming high checked in
      let v = smart_string_ensure n s.value in
      let e = smart_string_ensure-Ensured laws n s.value b in
      let (stream₂, got, left₂) =
        read_into-written content stream_laws (λ w. w.len) n
          (record s { stream = some stream₁; value = v }) stream₁ refl e.is_buffer
          (omega (arith, e.room, e.same_len)) in
      let front = take n (content stream₁) in
      let all : length front ≡ n =
        omega (arith, length-take n (content stream₁), ap length left₁, come) in
      let whole = written-IsBuffer v front e.is_buffer (omega (arith, all, e.room, e.same_len)) in
      (
        stream₂,
        reset_value (record v { c = take v.len v.c ++ (front ++ drop (v.len + length front) v.c) }),
        rw (
          sized,
          ◌>>=◌,
          got,
          ◌>>=◌,
          all,
          ==_differs (read_count n) n (read_count_huge n low high),
        ),
        left₂ ∙ ap (drop n) left₁,
        reset_value-IsEmpty _ whole,
      )
