-- ===== src/Proto/Encode/Auth.antt =====
-- php_tp_encode_auth of src/bee_proto.c, which bee.c does not call: it authenticates through tp.h.
use bee_php.Prelude.{
  ℕ, ◌<◌, ◌≡◌, ◌^◌, sym, ap, none, some, List, [], ◌∷◌, append-nil, arith, length, Bytes, u64,
}
use bee_php.Engine.SmartString.{SmartString, IsBuffer, Allocator, IsAllocator}
use bee_php.Engine.MsgPuck.{MsgPuck, EncodesBySize}
use bee_php.Msgpack.Buffer.{◌>>◌, skip}
use bee_php.Msgpack.Buffer.Writes.{Appends, >>-Writes, skip-Writes}
use bee_php.Msgpack.Pack.{php_mp_pack_array}
use bee_php.Msgpack.Pack.Wire.{pack_array-Writes}
use bee_php.Msgpack.Sizeof.{php_mp_sizeof_array}
use bee_php.Msgpack.Sizeof.Exact.{sizeof_array-length}
use bee_php.Proto.Keys.{beex_username, beex_tuple, beex_auth}
use bee_php.Proto.Sizes.{php_tp_sizeof_auth}
use bee_php.Proto.Encode.{php_tp_encode_auth}
use bee_php.Proto.Encode.Fields.{Value, field, last_field, fields-Writes, string-Value}
use bee_php.Proto.Encode.Packet.{packet, Field, body_bytes, request_bytes}

module _ ⦃mp : MsgPuck⦄ where
  -- The body of an AUTH request whose tuple is empty.
  abbrev pub auth_fields : Bytes → List Field
  auth_fields username =
      (beex_username, mp.encode_str username) ∷ (beex_tuple, mp.encode_array 0) ∷ []

  module _ ⦃al : Allocator⦄ where
    auth-none :
        (sync : ℕ) (username : Bytes) (s : SmartString)
        → php_tp_encode_auth sync username (length username) none s ≡ none
    unfolding php_tp_encode_auth
    auth-none sync username s = ground arith

    module _ (laws : IsAllocator al) (sizes : EncodesBySize mp) where
      empty_tuple : Value (php_mp_pack_array 0 >> skip) (mp.encode_array 0) (php_mp_sizeof_array 0)
      empty_tuple = record {
        writes =
            let w = >>-Writes (pack_array-Writes laws sizes 0 (omega arith)) skip-Writes in
            rw (append-nil (mp.encode_array 0)) at w;
        size = ap u64 (sym (sizeof_array-length sizes 0 (omega arith)));
      }

      -- php_tp_encode_auth takes the presence of a scramble for its absence. Given a sync number
      -- that fits a uint32_t, a user name and any buffer: with any scramble the tuple of the
      -- appended request is empty, and without one the function copies from a null pointer.
      -- The allocator is one of IsAllocator and the encoders are EncodesBySize.
      pub encode_auth_inverted :
          (sync : ℕ) (username scramble : Bytes) (s : SmartString)
          → sync < 2 ^ 32
          → length username < 2 ^ 31
          → IsBuffer s
          → Appends s
              (packet (request_bytes beex_auth sync (body_bytes (auth_fields username))))
              (php_tp_encode_auth sync username (length username) (some scramble) s)
            × (php_tp_encode_auth sync username (length username) none s ≡ none)
      unfolding php_tp_encode_auth php_tp_sizeof_auth
      encode_auth_inverted sync username scramble s hs hu b = (
        fields-Writes sizes laws beex_auth sync _ _ _ (omega arith) hs (omega arith) (omega arith)
            (field sizes laws beex_username (omega arith) (string-Value sizes laws username hu)
              (last_field sizes laws beex_tuple (omega arith) empty_tuple))
            s b,
        auth-none sync username s,
      )
