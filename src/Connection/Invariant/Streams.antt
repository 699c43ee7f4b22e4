-- ===== src/Connection/Invariant/Streams.antt =====
-- The calls on the stream and bee_step_recv keep the connection well.
use bee_php.Prelude.{ℕ, Bool, true, false, Option, none, some, ℤ, Bytes}
use bee_php.Engine.Zval.{Zval, array}
use bee_php.Engine.SmartString.{SmartString, Allocator}
use bee_php.Engine.MHash.{MHash}
use bee_php.Engine.MsgPuck.{MsgPuck}
use bee_php.Engine.Php.{Php}
use bee_php.Engine.Streams.{Streams}
use bee_php.Engine.Outcome.{Exception, lift}
use bee_php.Schema.{SchemaSpaceValue}
use bee_php.Connection.State.{Types}
use bee_php.Connection.Stream.{
  with_stream, bee_stream_send, bee_stream_read, bee_stream_close, write_back, read_into,
}
use bee_php.Connection.Receive.{
  recv_error, or_error, or_error_con, unpacked, if_array, check_sync, query_fails, answer,
  check_code, judge, package_size, recv_size, recv_values, recv_message, bee_step_recv,
}
use bee_php.Connection.Invariant.{Preserves, run-Preserves, preserving}

module _ {T : Types} ⦃net : Streams T.World T.Stream⦄
    ⦃space_hash : MHash T.Spaces SchemaSpaceValue⦄ where
  with_stream-Preserves : Preserves (with_stream {T = T})
  with_stream-Preserves = record { after = λ s w. (run-Preserves (lift s.stream)).after s w }

  pub bee_stream_send-Preserves : Preserves (bee_stream_send {T = T})
  unfolding bee_stream_send
  bee_stream_send-Preserves = search (preserving, with_stream-Preserves)

  pub bee_stream_read-Preserves : (size : ℕ) → Preserves (bee_stream_read {T = T} size)
  unfolding bee_stream_read
  bee_stream_read-Preserves size = search (preserving, with_stream-Preserves)

  pub bee_stream_close-Preserves : Preserves (bee_stream_close {T = T})
  unfolding bee_stream_close
  bee_stream_close-Preserves = search preserving

  write_back-Preserves :
      (v : SmartString) (n : ℕ) (o : Option Bytes) → Preserves (write_back {T = T} v n o)
  write_back-Preserves v n none = record { after = λ s w. tt }
  write_back-Preserves v n (some c') = search preserving

  pub read_into-Preserves :
      (offset : SmartString → ℕ) (size : ℕ) → Preserves (read_into {T = T} offset size)
  unfolding read_into
  read_into-Preserves offset size =
      search (preserving, bee_stream_read-Preserves, write_back-Preserves)

  recv_error-Preserves : {A : Type 0} → Preserves (recv_error {T = T} {A = A})
  recv_error-Preserves = record { after = λ s w. w }

  ruleset receiving = (
    preserving, bee_stream_read-Preserves, bee_stream_close-Preserves, read_into-Preserves,
    recv_error-Preserves,
  )

  or_error-Preserves : (b : Bool) (e : Exception) → Preserves (or_error {T = T} b e)
  or_error-Preserves true e = search receiving
  or_error-Preserves false e = search receiving

  or_error_con-Preserves : (b : Bool) (e : Exception) → Preserves (or_error_con {T = T} b e)
  or_error_con-Preserves true e = search receiving
  or_error_con-Preserves false e = search receiving

  unpacked-Preserves : {A : Type 0} (o : Option A) → Preserves (unpacked {T = T} o)
  unpacked-Preserves none = search receiving
  unpacked-Preserves (some a) = search receiving

  if_array-Preserves : (v : Zval) → Preserves (if_array {T = T} v)
  if_array-Preserves (array c n bs) = search receiving
  if_array-Preserves other = search receiving

  check_sync-Preserves : (sync : ℕ) (v : Option Zval) → Preserves (check_sync {T = T} sync v)
  unfolding check_sync
  check_sync-Preserves sync none = search receiving
  check_sync-Preserves sync (some val) = search (receiving, or_error_con-Preserves)

  query_fails-Preserves : (n : ℤ) (body : Zval) → Preserves (query_fails {T = T} n body)
  unfolding query_fails
  query_fails-Preserves n body = search receiving

  answer-Preserves : (b : Bool) (n : ℤ) (body : Zval) → Preserves (answer {T = T} b n body)
  unfolding answer
  answer-Preserves true n body = search receiving
  answer-Preserves false n body = query_fails-Preserves n body

  check_code-Preserves :
      (code : Option Zval) (body : Zval) → Preserves (check_code {T = T} code body)
  unfolding check_code
  check_code-Preserves none body = search receiving
  check_code-Preserves (some val) body = search (receiving, answer-Preserves)

  judge-Preserves : (sync : ℕ) (values : Zval × Zval) → Preserves (judge {T = T} sync values)
  unfolding judge
  judge-Preserves sync (header, body) =
      search (receiving, check_sync-Preserves, check_code-Preserves)

  module _ ⦃mp : MsgPuck⦄ where
    package_size-Preserves : (got : ℕ × Bytes) → Preserves (package_size {T = T} got)
    unfolding package_size
    package_size-Preserves (count, pack_len) = search (receiving, or_error_con-Preserves)

    recv_size-Preserves : Preserves (recv_size {T = T})
    unfolding recv_size
    recv_size-Preserves = search (receiving, package_size-Preserves)

    module _ ⦃php : Php⦄ where
      recv_values-Preserves :
          (body_size : ℕ) (p : Bytes) → Preserves (recv_values {T = T} body_size p)
      unfolding recv_values
      recv_values-Preserves body_size p =
          search
            (
              receiving, or_error-Preserves, or_error_con-Preserves, unpacked-Preserves,
              if_array-Preserves,
            )
            depth 12

      module _ ⦃al : Allocator⦄ where
        recv_message-Preserves : (body_size : ℕ) → Preserves (recv_message {T = T} body_size)
        unfolding recv_message
        recv_message-Preserves body_size = search (receiving, or_error-Preserves)

        pub bee_step_recv-Preserves : (sync : ℕ) → Preserves (bee_step_recv {T = T} sync)
        unfolding bee_step_recv
        bee_step_recv-Preserves sync =
            search
              (
                receiving, recv_size-Preserves, recv_message-Preserves, recv_values-Preserves,
                judge-Preserves,
              )
              depth 12
