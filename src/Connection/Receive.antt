-- ===== src/Connection/Receive.antt =====
-- bee_step_recv of src/bee.c: a reply is read into the buffer, unpacked and judged.
pub mod Clears
pub mod Empties
pub mod Replies
pub mod Answers
pub mod Huge
use bee_php.Prelude.{
  ℕ, ◌+◌, ◌%◌, ◌^◌, Bool, true, false, not, Option, none, some, List, [], ◌∷◌, ◌==◌, if◌then◌else◌,
  ℤ, pos, negsuc, to_u64, length, take, drop, Bytes,
}
use bee_php.Engine.Zval.{
  Key, Zval, null, long, double, bool, array, string, object, resource, slots,
}
use bee_php.Engine.HashTable.{index_find}
use bee_php.Engine.SmartString.{SmartString, Allocator}
use bee_php.Engine.MsgPuck.{MsgPuck}
use bee_php.Engine.Php.{Php}
use bee_php.Engine.Streams.{Streams}
use bee_php.Engine.Outcome.{
  Exception, Outcome, ok, fault, length_unread, message_unread, bad_msgpack, bad_header, bad_body,
  sync_not_equal, no_answer_code, query_error,
}
use bee_php.Msgpack.Buffer.{smart_string_ensure}
use bee_php.Msgpack.Unpack.{php_mp_check, php_mp_unpack, php_mp_unpack_package_size}
use bee_php.Proto.Keys.{beex_code, beex_sync, beex_error, beex_ok}
use bee_php.Connection.State.{
  Types, Session, Call, ◌>>=◌, ◌>>◌, return, gets, modify, run, failed, attempt, throw_exc,
}
use bee_php.Connection.Stream.{reset_value, bee_stream_read, bee_stream_close, read_into}

-- HASH_OF, which is null for a value without a table; a look into it is a fault.
abbrev pub hash_of : Zval → Outcome (List (Key × Zval))
hash_of (array c n bs) = ok (slots bs)
hash_of other = fault

-- Z_LVAL_PP: a long, or what a bool has in its place. Other payloads are no numbers.
abbrev pub lval : Zval → Outcome ℤ
lval (long n) = ok n
lval (bool true) = ok (pos 1)
lval (bool false) = ok (pos 0)
lval other = fault

-- Z_STRVAL_PP, where the pointer was found.
abbrev pub strval : Option Zval → Outcome Bytes
strval (some (string s)) = ok s
strval other = fault

module _ {T : Types} where
  -- The label error, and the label error_con before it.
  abbrev pub recv_error : {A : Type 0} → Call T A
  recv_error s = failed (record s { value = reset_value s.value })

  module _ ⦃net : Streams T.World T.Stream⦄ where
    abbrev pub recv_error_con : {A : Type 0} → Call T A
    recv_error_con = do bee_stream_close; recv_error

    -- if (…) { THROW_EXC(…); goto error; }, and the same with error_con, for the opposite test.
    abbrev pub or_error : Bool → Exception → Call T (Unit {0})
    or_error true e = return tt
    or_error false e = do throw_exc e; recv_error

    abbrev pub or_error_con : Bool → Exception → Call T (Unit {0})
    or_error_con true e = return tt
    or_error_con false e = do throw_exc e; recv_error_con

    -- A call of php_mp_unpack, and goto error where it fails.
    abbrev pub unpacked : {A : Type 0} → Option A → Call T A
    unpacked none = recv_error
    unpacked (some a) = return a

    -- A header that is no table ends in error without an exception.
    abbrev pub if_array : Zval → Call T (Unit {0})
    if_array (array c n bs) = return tt
    if_array other = recv_error

    unfoldable pub check_sync : (sync : ℕ) → Option Zval → Call T (Unit {0})
    check_sync sync none = return tt
    check_sync sync (some val) = do
      n ← run (lval val)
      or_error_con (to_u64 n == sync) sync_not_equal

    -- The exception that an error of the server becomes.
    unfoldable pub query_fails : ℤ → Zval → Call T (Unit {0})
    query_fails n body = do
      hash ← run (hash_of body)
      errstr ← run (strval (index_find beex_error hash))
      throw_exc (query_error (to_u64 n % 2 ^ 15) errstr)
      recv_error

    unfoldable pub answer : (is_ok : Bool) → ℤ → Zval → Call T (Unit {0})
    answer true n body = modify (λ s. record s { value = reset_value s.value })
    answer false n body = query_fails n body

    unfoldable pub check_code : Option Zval → Zval → Call T (Unit {0})
    check_code none body = do throw_exc no_answer_code; recv_error_con
    check_code (some val) body = do n ← run (lval val); answer (to_u64 n == beex_ok) n body

    -- What is done with the two values.
    unfoldable pub judge : (sync : ℕ) → Zval × Zval → Call T (Zval × Zval)
    judge sync (header, body) = do
      hash ← run (hash_of header)
      check_sync sync (index_find beex_sync hash)
      check_code (index_find beex_code hash) body
      return (header, body)

    module _ ⦃mp : MsgPuck⦄ where
      unfoldable pub package_size : ℕ × Bytes → Call T ℕ
      package_size (count, pack_len) = do
        or_error_con (count == 5) length_unread
        or_error_con (not (php_mp_check pack_len)) bad_msgpack
        run (php_mp_unpack_package_size pack_len)

      -- The five bytes of the size.
      unfoldable pub recv_size : Call T ℕ
      recv_size = do pack_len ← bee_stream_read 5; package_size pack_len

      module _ ⦃php : Php⦄ where
        -- The header and the body from the start of the block. The end that php_mp_check is given
        -- for the body is `body_size` behind the body's start.
        unfoldable pub recv_values : ℕ → Bytes → Call T (Zval × Zval)
        recv_values body_size p = do
          or_error (not (php_mp_check (take body_size p))) bad_header
          unpacked_header ← attempt (php_mp_unpack p)
          (n, header, p') ← unpacked unpacked_header
          if_array header
          or_error_con (not (php_mp_check (take body_size p'))) bad_body
          unpacked_body ← attempt (php_mp_unpack p')
          (m, body, p'') ← unpacked unpacked_body
          return (header, body)

        module _ ⦃al : Allocator⦄ where
          unfoldable pub recv_message : ℕ → Call T (Unit {0})
          recv_message body_size = do
            modify (λ s. record s { value = smart_string_ensure body_size s.value })
            got ← read_into (λ v. v.len) body_size
            or_error (got == body_size) (message_unread body_size)
            modify (λ s. record s { value = record s.value { len = s.value.len + body_size } })

          unfoldable pub bee_step_recv : (sync : ℕ) → Call T (Zval × Zval)
          bee_step_recv sync = do
            body_size ← recv_size
            recv_message body_size
            p ← gets (λ s. s.value.c)
            values ← recv_values body_size p
            judge sync values
