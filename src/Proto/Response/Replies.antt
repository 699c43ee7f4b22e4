-- ===== src/Proto/Response/Replies.antt =====
-- The two kinds of response of the server: the data of a query, and an error.
use Prim.Native.Nat.{bit_or}
use bee_php.Prelude.{◌<◌, ◌≡◌, ◌%◌, ◌^◌, some, ◌++◌, arith, length, Bytes}
use bee_php.Engine.MsgPuck.{mp_array, MsgPuck, typeof, DecodesBack}
use bee_php.Engine.Outcome.{ok}
use bee_php.Proto.Keys.{beex_data, beex_error}
use bee_php.Proto.Response.{blank, php_tp_response}
use bee_php.Proto.Response.Parse.{
  Header, IsHeader, apply_header, message, response_one, body_value-data, body_value-error,
}

module _ ⦃mp : MsgPuck⦄ (laws : DecodesBack mp) where
  -- A header of numbers under keys below 64, and a body that holds one array under DATA: the
  -- response has the last code and sync of the header and exactly the bytes of the array, no
  -- error, and the number of the bytes read is the message's length, whatever follows.
  -- The decoders are DecodesBack, and the array's bytes are of that type and what mp_next steps over.
  pub php_tp_response-data :
      (header : Header) (d rest : Bytes)
      → IsHeader header
      → length header < 2 ^ 32
      → typeof mp (d ++ rest) ≡ some mp_array
      → mp.next (d ++ rest) ≡ some rest
      → let r = apply_header header blank in
        php_tp_response (message header beex_data d ++ rest)
        ≡ ok (
          record r { bitmap = bit_or r.bitmap (2 ^ beex_data); response_data = some d },
          some (length (message header beex_data d)),
        )
  php_tp_response-data header d rest h few is_array skips =
      let r = apply_header header blank in
      response_one laws header beex_data (record r { response_data = some d }) d rest h few
        (omega arith) (body_value-data laws r d rest is_array skips)

  -- A header of numbers under keys below 64, and a body that holds one string under ERROR: the
  -- response has the string as its error and the low 15 bits of the header's last code.
  -- The decoders are DecodesBack.
  pub php_tp_response-error :
      (header : Header) (error rest : Bytes)
      → IsHeader header
      → length header < 2 ^ 32
      → length error < 2 ^ 32
      → let r = apply_header header blank in
        let value = mp.encode_str error in
        php_tp_response (message header beex_error value ++ rest)
        ≡ ok (
          record r {
            bitmap = bit_or r.bitmap (2 ^ beex_error);
            error = some error;
            code = r.code % 2 ^ 15;
          },
          some (length (message header beex_error value)),
        )
  php_tp_response-error header error rest h few he =
      let r = apply_header header blank in
      response_one laws header beex_error (record r { error = some error; code = r.code % 2 ^ 15 })
        (mp.encode_str error) rest h few (omega arith) (body_value-error laws r error rest he)
