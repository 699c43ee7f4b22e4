-- ===== src/Proto/Sizes.antt =====
-- The php_tp_sizeof functions of src/bee_proto.c: the size of a request without its size prefix.
use bee_php.Prelude.{ℕ, ◌+◌, Bool, if◌then◌else◌, pos, u64}
use bee_php.Engine.Zval.{Zval}
use bee_php.Engine.MsgPuck.{MsgPuck}
use bee_php.Msgpack.Sizeof.{
  php_mp_sizeof_hash, php_mp_sizeof_long, php_mp_sizeof_string, php_mp_sizeof_array, php_mp_sizeof,
}
use bee_php.Proto.Keys.{
  php_scramble_size, beex_code, beex_sync, beex_space, beex_index, beex_limit, beex_offset,
  beex_iterator, beex_key, beex_tuple, beex_function, beex_username, beex_expression, beex_ops,
  beex_select, beex_update, beex_delete, beex_call, beex_auth, beex_eval, beex_upsert, beex_ping,
}

module _ ⦃mp : MsgPuck⦄ where
  -- A uint32_t handed to php_mp_sizeof_long is a long that is not negative.
  abbrev pub sizeof_u32 : ℕ → ℕ
  sizeof_u32 n = php_mp_sizeof_long (pos n)

  unfoldable pub php_tp_sizeof_header : (request sync : ℕ) → ℕ
  php_tp_sizeof_header request sync = u64 (
      php_mp_sizeof_hash 2
      + sizeof_u32 beex_code
      + sizeof_u32 request
      + sizeof_u32 beex_sync
      + sizeof_u32 sync)

  unfoldable pub php_tp_sizeof_auth : (sync ulen : ℕ) → (nopass : Bool) → ℕ
  php_tp_sizeof_auth sync ulen nopass =
      let val = u64 (
        php_tp_sizeof_header beex_auth sync
        + php_mp_sizeof_hash 2
        + sizeof_u32 beex_username
        + php_mp_sizeof_string ulen
        + sizeof_u32 beex_tuple
        + php_mp_sizeof_array (if nopass then 0 else 2)) in
      if nopass
      then val
      else u64 (val + (php_mp_sizeof_string 9 + php_mp_sizeof_string php_scramble_size))

  unfoldable pub php_tp_sizeof_ping : (sync : ℕ) → ℕ
  php_tp_sizeof_ping sync = php_tp_sizeof_header beex_ping sync

  unfoldable pub php_tp_sizeof_select :
      (sync space_no index_no limit offset iterator : ℕ) → Zval → ℕ
  php_tp_sizeof_select sync space_no index_no limit offset iterator key = u64 (
      php_tp_sizeof_header beex_select sync
      + php_mp_sizeof_hash 6
      + sizeof_u32 beex_space
      + sizeof_u32 space_no
      + sizeof_u32 beex_index
      + sizeof_u32 index_no
      + sizeof_u32 beex_offset
      + sizeof_u32 offset
      + sizeof_u32 beex_limit
      + sizeof_u32 limit
      + sizeof_u32 beex_iterator
      + sizeof_u32 iterator
      + sizeof_u32 beex_key
      + php_mp_sizeof key)

  unfoldable pub php_tp_sizeof_insert_or_replace : (sync space_no : ℕ) → Zval → (type : ℕ) → ℕ
  php_tp_sizeof_insert_or_replace sync space_no tuple type = u64 (
      php_tp_sizeof_header type sync
      + php_mp_sizeof_hash 2
      + sizeof_u32 beex_space
      + sizeof_u32 space_no
      + sizeof_u32 beex_tuple
      + php_mp_sizeof tuple)

  unfoldable pub php_tp_sizeof_delete : (sync space_no index_no : ℕ) → Zval → ℕ
  php_tp_sizeof_delete sync space_no index_no tuple = u64 (
      php_tp_sizeof_header beex_delete sync
      + php_mp_sizeof_hash 3
      + sizeof_u32 beex_space
      + sizeof_u32 space_no
      + sizeof_u32 beex_index
      + sizeof_u32 index_no
      + sizeof_u32 beex_key
      + php_mp_sizeof tuple)

  unfoldable pub php_tp_sizeof_call : (sync proc_len : ℕ) → Zval → ℕ
  php_tp_sizeof_call sync proc_len tuple = u64 (
      php_tp_sizeof_header beex_call sync
      + php_mp_sizeof_hash 2
      + sizeof_u32 beex_function
      + php_mp_sizeof_string proc_len
      + sizeof_u32 beex_tuple
      + php_mp_sizeof tuple)

  unfoldable pub php_tp_sizeof_eval : (sync proc_len : ℕ) → Zval → ℕ
  php_tp_sizeof_eval sync proc_len tuple = u64 (
      php_tp_sizeof_header beex_eval sync
      + php_mp_sizeof_hash 2
      + sizeof_u32 beex_expression
      + php_mp_sizeof_string proc_len
      + sizeof_u32 beex_tuple
      + php_mp_sizeof tuple)

  unfoldable pub php_tp_sizeof_update : (sync space_no index_no : ℕ) → (key args : Zval) → ℕ
  php_tp_sizeof_update sync space_no index_no key args = u64 (
      php_tp_sizeof_header beex_update sync
      + php_mp_sizeof_hash 4
      + sizeof_u32 beex_space
      + sizeof_u32 space_no
      + sizeof_u32 beex_index
      + sizeof_u32 index_no
      + sizeof_u32 beex_key
      + php_mp_sizeof key
      + sizeof_u32 beex_tuple
      + php_mp_sizeof args)

  unfoldable pub php_tp_sizeof_upsert : (sync space_no : ℕ) → (tuple args : Zval) → ℕ
  php_tp_sizeof_upsert sync space_no tuple args = u64 (
      php_tp_sizeof_header beex_upsert sync
      + php_mp_sizeof_hash 3
      + sizeof_u32 beex_space
      + sizeof_u32 space_no
      + sizeof_u32 beex_tuple
      + php_mp_sizeof tuple
      + sizeof_u32 beex_ops
      + php_mp_sizeof args)
