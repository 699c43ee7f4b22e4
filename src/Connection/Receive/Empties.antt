-- ===== src/Connection/Receive/Empties.antt =====
-- However bee_step_recv returns, the buffer is empty again.
use bee_php.Prelude.{
  ℕ, not, arith, Bool-cases, Option-cases, inl, inr, ◌==◌, length, take, length-take, Bytes,
}
use bee_php.Engine.SmartString.{IsBuffer, Allocator, IsAllocator}
use bee_php.Engine.MsgPuck.{MsgPuck, Advances}
use bee_php.Engine.Php.{Php}
use bee_php.Engine.PhpStream.{IsPhpStream}
use bee_php.Engine.Streams.{Streams}
use bee_php.Engine.Outcome.{length_unread, bad_msgpack, bad_header, bad_body}
use bee_php.Msgpack.Buffer.{smart_string_ensure}
use bee_php.Msgpack.Buffer.Writes.{smart_string_ensure-Ensured}
use bee_php.Msgpack.Unpack.{php_mp_check, php_mp_unpack, php_mp_unpack_package_size}
use bee_php.Msgpack.Unpack.Total.{php_mp_unpack-Ends}
use bee_php.Connection.State.{Types, Session, ◌>>=◌, attempt}
use bee_php.Connection.Runs.{Ends}
use bee_php.Connection.Stream.{bee_stream_read}
use bee_php.Connection.Stream.Keeps.{
  IsEmpty, reset_value-IsEmpty, read_count, reads_front, bee_stream_read_null,
  bee_stream_read-ReadsFront, read_into_null, read_into-written,
}
use bee_php.Connection.Receive.{
  or_error, or_error_con, unpacked, if_array, package_size, recv_size, recv_values, recv_message,
  bee_step_recv,
}
use bee_php.Connection.Receive.Clears.{
  Keeps, >>=-Keeps, run-Keeps, attempt-Keeps, unpacked-Keeps, or_error-Keeps, or_error_con-Keeps,
  if_array-Keeps, then-Clears, judge-Clears, has_fuel, unpack_size-IsPlain, written-IsBuffer,
}

module _ {T : Types} where
  module _ ⦃net : Streams T.World T.Stream⦄ where
    module _ (content : T.Stream → Bytes) (stream_laws : IsPhpStream net.reads content) where
      bee_stream_read-Keeps : (size : ℕ) → Keeps {T = T} (bee_stream_read size)
      bee_stream_read-Keeps size = record {
        ends = λ s b. elim (Option-cases s.stream) [
          | inl e ↦ rw (bee_stream_read_null content stream_laws size s e, Ends) tt
          | inr (stream, e) ↦
              elim (bee_stream_read-ReadsFront content stream_laws size s stream e) [
                | reads_front stream' got left ↦ rw (got, Ends) b
              ]
        ];
      }

      module _ ⦃mp : MsgPuck⦄ where
        package_size-Keeps : (got : ℕ × Bytes) → Keeps {T = T} (package_size got)
        unfolding package_size
        package_size-Keeps (count, pack_len) =
            >>=-Keeps (or_error_con (count == 5) length_unread) _
              (or_error_con-Keeps (count == 5) length_unread)
              λ _.
                >>=-Keeps (or_error_con (not (php_mp_check pack_len)) bad_msgpack) _
                  (or_error_con-Keeps (not (php_mp_check pack_len)) bad_msgpack)
                  λ _.
                    run-Keeps (php_mp_unpack_package_size pack_len) (unpack_size-IsPlain pack_len)

        recv_size-Keeps : Keeps {T = T} recv_size
        unfolding recv_size
        recv_size-Keeps =
            >>=-Keeps (bee_stream_read 5) _ (bee_stream_read-Keeps 5) package_size-Keeps

        module _ ⦃php : Php⦄ (adv : Advances mp) where
          recv_values-Keeps : (body_size : ℕ) (p : Bytes) → Keeps {T = T} (recv_values body_size p)
          unfolding recv_values
          recv_values-Keeps body_size p =
              >>=-Keeps (or_error (not (php_mp_check (take body_size p))) bad_header) _
                (or_error-Keeps (not (php_mp_check (take body_size p))) bad_header)
                λ _.
                  >>=-Keeps (attempt (php_mp_unpack p)) _
                    (attempt-Keeps (php_mp_unpack p)
                      (has_fuel (length p) (php_mp_unpack p) (php_mp_unpack-Ends adv p)))
                    λ o. >>=-Keeps (unpacked o) _ (unpacked-Keeps o) λ (n, header, p').
                      >>=-Keeps (if_array header) _ (if_array-Keeps header) λ _.
                        >>=-Keeps (or_error_con (not (php_mp_check (take body_size p'))) bad_body) _
                          (or_error_con-Keeps (not (php_mp_check (take body_size p'))) bad_body)
                          λ _.
                            >>=-Keeps (attempt (php_mp_unpack p')) _
                              (attempt-Keeps (php_mp_unpack p') (
                                has_fuel (length p') (php_mp_unpack p')
                                  (php_mp_unpack-Ends adv p')))
                              λ o'.
                                >>=-Keeps (unpacked o') _ (unpacked-Keeps o')
                                  λ r. record { ends = λ s b. b }

          module _ ⦃al : Allocator⦄ (laws : IsAllocator al) where
            recv_message-Keeps : (body_size : ℕ) → Keeps {T = T} (recv_message body_size)
            unfolding recv_message
            recv_message-Keeps body_size = record {
              ends = λ s b.
                  let v = smart_string_ensure body_size s.value in
                  let e = smart_string_ensure-Ensured laws body_size s.value b in
                  let s' : Session T = record s { value = v } in
                  elim (Option-cases s.stream) [
                    | inl no_stream ↦
                        rw
                          (
                            read_into_null content stream_laws (λ w. w.len) body_size s' no_stream,
                            ◌>>=◌,
                            Ends,
                          )
                          tt
                    | inr (stream, there) ↦
                        let front = take body_size (content stream) in
                        let (stream', got, left) =
                          read_into-written content stream_laws (λ w. w.len) body_size s' stream
                            there e.is_buffer (omega (arith, e.room, e.same_len)) in
                        let whole = written-IsBuffer v front e.is_buffer (
                          omega
                            (arith, e.room, e.same_len, length-take body_size (content stream))) in
                        rw (got, ◌>>=◌, Ends)
                          (elim (Bool-cases (read_count (length front) == body_size)) [
                            | inl all ↦
                                rw (all, Ends)
                                  (record {
                                    block = whole.block;
                                    within = omega (arith, e.room, e.same_len);
                                  })
                            | inr short ↦ rw (short, Ends) (reset_value-IsEmpty _ whole)
                          ])
                  ];
            }

            -- bee_step_recv, on any buffer, stream and sync number, is not cut short, and whether
            -- it returns the answer or fails, the buffer that it leaves holds nothing.
            pub bee_step_recv-Clears :
                (sync : ℕ) (s : Session T)
                → IsBuffer s.value
                → Ends (λ _ s'. IsEmpty s'.value) (λ s'. IsEmpty s'.value) (bee_step_recv sync s)
            unfolding bee_step_recv
            bee_step_recv-Clears sync s b =
                then-Clears recv_size _ s recv_size-Keeps b λ body_size s₁ b₁.
                  then-Clears (recv_message body_size) _ s₁ (recv_message-Keeps body_size) b₁
                    λ _ s₂ b₂.
                      then-Clears (recv_values body_size s₂.value.c) _ s₂
                        (recv_values-Keeps body_size s₂.value.c) b₂
                        λ values s₃ b₃. judge-Clears sync values s₃ b₃
