-- ===== src/Proto/Encode.antt =====
-- The php_tp_encode functions of src/bee_proto.c. The buffer comes last, `none` is a fault.
pub mod Packet
mod Fields
pub mod Bodies
pub mod Queries
pub mod Changes
pub mod Requests
pub mod Auth
use bee_php.Prelude.{
  ℕ, ◌+◌, Bool, true, false, ◌||◌, Option, none, some, List, [], ◌∷◌, ◌==◌, if◌then◌else◌, ℤ, pos,
  Bytes, length,
}
use bee_php.Engine.Zval.{Zval}
use bee_php.Engine.SmartString.{Allocator}
use bee_php.Engine.MsgPuck.{MsgPuck}
use bee_php.Msgpack.Buffer.{Action, ◌>>◌, skip, ensure}
use bee_php.Msgpack.Pack.{
  php_mp_pack_hash, php_mp_pack_long, php_mp_pack_string, php_mp_pack_array, php_mp_pack,
  php_mp_pack_package_size,
}
use bee_php.Proto.Sizes.{
  php_tp_sizeof_auth, php_tp_sizeof_ping, php_tp_sizeof_select, php_tp_sizeof_insert_or_replace,
  php_tp_sizeof_delete, php_tp_sizeof_call, php_tp_sizeof_eval, php_tp_sizeof_update,
  php_tp_sizeof_upsert,
}
use bee_php.Proto.Keys.{
  php_scramble_size, beex_code, beex_sync, beex_space, beex_index, beex_limit, beex_offset,
  beex_iterator, beex_key, beex_tuple, beex_function, beex_username, beex_expression, beex_ops,
  beex_select, beex_insert, beex_replace, beex_update, beex_delete, beex_call, beex_auth, beex_eval,
  beex_upsert, beex_ping,
}

-- A failed assertion, a copy from a null pointer.
abbrev pub fault : Action
fault s = none

-- "chap-sha1"
abbrev pub chap_sha1 : Bytes
chap_sha1 = b'c' ∷ b'h' ∷ b'a' ∷ b'p' ∷ b'-' ∷ b's' ∷ b'h' ∷ b'a' ∷ b'1' ∷ []

abbrev pub is_some {ℓ} : {A : Type ℓ} → Option A → Bool
is_some none = false
is_some (some _) = true

module _ ⦃mp : MsgPuck⦄ ⦃al : Allocator⦄ where
  -- A uint32_t handed to php_mp_pack_long is a long that is not negative.
  abbrev pub pack_u32 : ℕ → Action
  pack_u32 n = php_mp_pack_long (pos n)

  unfoldable pub php_tp_pack_header : (size request sync : ℕ) → Action
  php_tp_pack_header size request sync = do
    php_mp_pack_package_size size
    php_mp_pack_hash 2
    pack_u32 beex_code
    pack_u32 request
    pack_u32 beex_sync
    pack_u32 sync

  -- A null `scramble` is `none`.
  pack_scramble : Option Bytes → Action
  pack_scramble none = fault
  pack_scramble (some scramble) = php_mp_pack_string scramble php_scramble_size

  unfoldable pub php_tp_encode_auth : (sync : ℕ) → Bytes → ℕ → Option Bytes → Action
  unfolding pack_scramble
  php_tp_encode_auth sync username username_len scramble =
      let nopass : Bool = is_some scramble in
      let packet_size = php_tp_sizeof_auth sync username_len nopass in
      do
        ensure (packet_size + 5)
        php_tp_pack_header packet_size beex_auth sync
        php_mp_pack_hash 2
        pack_u32 beex_username
        php_mp_pack_string username username_len
        pack_u32 beex_tuple
        php_mp_pack_array (if nopass then 0 else 2)
        if nopass then skip else (do php_mp_pack_string chap_sha1 9; pack_scramble scramble)

  unfoldable pub php_tp_encode_ping : (sync : ℕ) → Action
  php_tp_encode_ping sync =
      let packet_size = php_tp_sizeof_ping sync in
      do ensure (packet_size + 5); php_tp_pack_header packet_size beex_ping sync

  -- php_tp_sizeof_select takes the limit before the offset, and is given them in this order.
  unfoldable pub php_tp_encode_select :
      (sync space_no index_no limit offset iterator : ℕ) → Zval → Action
  php_tp_encode_select sync space_no index_no limit offset iterator key =
      let packet_size = php_tp_sizeof_select sync space_no index_no offset limit iterator key in
      do
        ensure (packet_size + 5)
        php_tp_pack_header packet_size beex_select sync
        php_mp_pack_hash 6
        pack_u32 beex_space
        pack_u32 space_no
        pack_u32 beex_index
        pack_u32 index_no
        pack_u32 beex_offset
        pack_u32 offset
        pack_u32 beex_limit
        pack_u32 limit
        pack_u32 beex_iterator
        pack_u32 iterator
        pack_u32 beex_key
        php_mp_pack key

  unfoldable pub php_tp_encode_insert_or_replace : (sync space_no : ℕ) → Zval → (type : ℕ) → Action
  php_tp_encode_insert_or_replace sync space_no tuple type =
      let packet_size = php_tp_sizeof_insert_or_replace sync space_no tuple type in
      if (type == beex_insert) || (type == beex_replace)
      then (do
        ensure (packet_size + 5)
        php_tp_pack_header packet_size type sync
        php_mp_pack_hash 2
        pack_u32 beex_space
        pack_u32 space_no
        pack_u32 beex_tuple
        php_mp_pack tuple)
      else fault

  unfoldable pub php_tp_encode_delete : (sync space_no index_no : ℕ) → Zval → Action
  php_tp_encode_delete sync space_no index_no tuple =
      let packet_size = php_tp_sizeof_delete sync space_no index_no tuple in
      do
        ensure (packet_size + 5)
        php_tp_pack_header packet_size beex_delete sync
        php_mp_pack_hash 3
        pack_u32 beex_space
        pack_u32 space_no
        pack_u32 beex_index
        pack_u32 index_no
        pack_u32 beex_key
        php_mp_pack tuple

  unfoldable pub php_tp_encode_call : (sync : ℕ) → Bytes → ℕ → Zval → Action
  php_tp_encode_call sync proc proc_len tuple =
      let packet_size = php_tp_sizeof_call sync proc_len tuple in
      do
        ensure (packet_size + 5)
        php_tp_pack_header packet_size beex_call sync
        php_mp_pack_hash 2
        pack_u32 beex_function
        php_mp_pack_string proc proc_len
        pack_u32 beex_tuple
        php_mp_pack tuple

  unfoldable pub php_tp_encode_eval : (sync : ℕ) → Bytes → ℕ → Zval → Action
  php_tp_encode_eval sync proc proc_len tuple =
      let packet_size = php_tp_sizeof_eval sync proc_len tuple in
      do
        ensure (packet_size + 5)
        php_tp_pack_header packet_size beex_eval sync
        php_mp_pack_hash 2
        pack_u32 beex_expression
        php_mp_pack_string proc proc_len
        pack_u32 beex_tuple
        php_mp_pack tuple

  unfoldable pub php_tp_encode_update : (sync space_no index_no : ℕ) → (key args : Zval) → Action
  php_tp_encode_update sync space_no index_no key args =
      let packet_size = php_tp_sizeof_update sync space_no index_no key args in
      do
        ensure (packet_size + 5)
        php_tp_pack_header packet_size beex_update sync
        php_mp_pack_hash 4
        pack_u32 beex_space
        pack_u32 space_no
        pack_u32 beex_index
        pack_u32 index_no
        pack_u32 beex_key
        php_mp_pack key
        pack_u32 beex_tuple
        php_mp_pack args

  unfoldable pub php_tp_encode_upsert : (sync space_no : ℕ) → (tuple args : Zval) → Action
  php_tp_encode_upsert sync space_no tuple args =
      let packet_size = php_tp_sizeof_upsert sync space_no tuple args in
      do
        ensure (packet_size + 5)
        php_tp_pack_header packet_size beex_upsert sync
        php_mp_pack_hash 3
        pack_u32 beex_space
        pack_u32 space_no
        pack_u32 beex_tuple
        php_mp_pack tuple
        pack_u32 beex_ops
        php_mp_pack args
