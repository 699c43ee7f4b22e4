-- ===== src/Tests/Replies.antt =====
-- A row of two numbers, and an error, as the server sends them.
use Prim.Native.Nat.{bit_or}
use bee_php.Prelude.{◌≡◌, ◌%◌, ◌^◌, refl, some, [], ◌∷◌, ◌++◌, arith, length, Bytes, codes}
use bee_php.Engine.Outcome.{ok}
use bee_php.Proto.Keys.{beex_data, beex_error, beex_code, beex_sync}
use bee_php.Proto.Response.{blank, php_tp_response}
use bee_php.Proto.Response.Parse.{Header, IsHeader, apply_header, message}
use bee_php.Proto.Response.Replies.{php_tp_response-data, php_tp_response-error}
use bee_php.Tests.Codec.{codec}
use bee_php.Tests.Codec.Decodes.{codec-DecodesBack}

-- The code 0x8014 and the sync number 7.
abbrev answer : Header
answer = (beex_code, 0x8014) ∷ (beex_sync, 7) ∷ []

answer-IsHeader : IsHeader answer
answer-IsHeader = (omega arith, omega arith, (omega arith, omega arith, tt))

abbrev row : Bytes
row = 0xdd ∷ 0 ∷ 0 ∷ 0 ∷ 2 ∷ 1 ∷ 2 ∷ []

php_tp_response-data_example :
    let r = apply_header answer blank in
    php_tp_response ⦃mp = codec⦄ (message ⦃mp = codec⦄ answer beex_data row ++ (9 ∷ []))
    ≡ ok (
      record r { bitmap = bit_or r.bitmap (2 ^ beex_data); response_data = some row },
      some (length (message ⦃mp = codec⦄ answer beex_data row)),
    )
php_tp_response-data_example =
    php_tp_response-data ⦃mp = codec⦄ codec-DecodesBack answer row (9 ∷ []) answer-IsHeader
      (omega arith) refl refl

php_tp_response-error_example :
    let r = apply_header answer blank in
    let value = codec.encode_str (codes "no") in
    php_tp_response ⦃mp = codec⦄ (message ⦃mp = codec⦄ answer beex_error value ++ (9 ∷ []))
    ≡ ok (
      record r {
        bitmap = bit_or r.bitmap (2 ^ beex_error);
        error = some (codes "no");
        code = r.code % 2 ^ 15;
      },
      some (length (message ⦃mp = codec⦄ answer beex_error value)),
    )
php_tp_response-error_example =
    php_tp_response-error ⦃mp = codec⦄ codec-DecodesBack answer (codes "no") (9 ∷ [])
      answer-IsHeader (omega arith) (omega arith)
