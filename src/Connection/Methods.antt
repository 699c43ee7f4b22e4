-- ===== src/Connection/Methods.antt =====
-- The methods of the class Bee in src/bee.c, behind the parsing of their arguments: an optional
-- argument that is not given is `none`. RETURN_FALSE is `failed`.
use bee_php.Prelude.{
  ℕ, zero, ◌-◌, ◌^◌, Bool, true, false, Option, none, some, ◌==◌, if◌then◌else◌, ℤ, pos, negsuc,
  to_u32, length, Bytes, u32,
}
use bee_php.Engine.Zval.{Zval, null, long, array}
use bee_php.Engine.HashTable.{index_find, num_elements}
use bee_php.Engine.SmartString.{SmartString, Allocator}
use bee_php.Engine.MHash.{MHash}
use bee_php.Engine.MsgPuck.{MsgPuck}
use bee_php.Engine.Php.{Php}
use bee_php.Engine.Streams.{Streams}
use bee_php.Engine.Tp.{Tp}
use bee_php.Engine.Outcome.{no_data_field, wrong_limit_type}
use bee_php.Msgpack.Buffer.{Action}
use bee_php.Proto.Keys.{beex_data, beex_insert, beex_replace}
use bee_php.Proto.Encode.{
  php_tp_encode_ping, php_tp_encode_select, php_tp_encode_insert_or_replace, php_tp_encode_delete,
  php_tp_encode_call, php_tp_encode_eval, php_tp_encode_update, php_tp_encode_upsert,
}
use bee_php.Schema.{SchemaSpaceValue, SchemaIndexValue, bee_schema_flush}
use bee_php.Client.Key.{pack_key, is_null_arg}
use bee_php.Client.Iterator.{convert_iterator}
use bee_php.Client.Update.{bee_update_verify_args}
use bee_php.Connection.State.{
  Types, Run, done, Call, ◌>>=◌, ◌>>◌, return, fail, modify, throw_exc, run, regardless, next_sync,
}
use bee_php.Connection.Stream.{is_set, bee_stream_send}
use bee_php.Connection.Receive.{hash_of, bee_step_recv}
use bee_php.Connection.Names.{c_string, get_spaceno_by_name, get_indexno_by_name}
use bee_php.Connection.Connect.{bee_connect, bee_reconnect, bee_authenticate}

-- !key || Z_TYPE_P(key) == IS_NULL || an array without elements
abbrev pub is_iterator_all : Option Zval → Bool
is_iterator_all (some (array c n bs)) = num_elements bs == 0
is_iterator_all key = is_null_arg key

abbrev pub holds {ℓ} : {A : Type ℓ} → (A → Bool) → Option A → Bool
holds test none = false
holds test (some a) = test a

-- LONG_MAX - 1
abbrev pub no_limit : ℤ
no_limit = pos (2 ^ 63 - 2)

module _ {T : Types} where
  abbrev pub packed : Option SmartString → Call T (Unit {0})
  packed none s = Run.crash
  packed (some v) s = done tt (record s { value = v })

  abbrev pub pack : Action → Call T (Unit {0})
  pack encode s = packed (encode s.value) s

  -- if (number == FAILURE) RETURN_FALSE;
  abbrev pub proper : ℤ → Call T ℤ
  proper (negsuc zero) = fail
  proper number = return number

  abbrev pub data_of : Option Zval → Call T Zval
  data_of none = do throw_exc no_data_field; fail
  data_of (some answer) = return answer

  -- BEE_RETURN_DATA
  unfoldable pub return_data : Zval × Zval → Call T Zval
  return_data (header, body) = do hash ← run (hash_of body); data_of (index_find beex_data hash)

  unfoldable pub check_limit : Option Zval → Call T ℤ
  check_limit none = return no_limit
  check_limit (some null) = return no_limit
  check_limit (some (long n)) = return n
  check_limit (some other) = do throw_exc wrong_limit_type; fail

  -- The second half of a request: it is sent, and its answer is read.
  module _ ⦃net : Streams T.World T.Stream⦄ ⦃mp : MsgPuck⦄ ⦃php : Php⦄ ⦃al : Allocator⦄ where
    unfoldable pub exchange : (encode : ℕ → Action) → Call T (Zval × Zval)
    exchange encode = do
      sync ← next_sync
      pack (encode (u32 sync))
      bee_stream_send
      bee_step_recv sync

    unfoldable pub exchange_data : (encode : ℕ → Action) → Call T Zval
    exchange_data encode = do values ← exchange encode; return_data values

  abbrev pub is_connected : Call T Bool
  is_connected s = done (is_set s.stream) s

  module _ ⦃net : Streams T.World T.Stream⦄ where
    abbrev pub has_ended : Call T Bool
    has_ended s = done (holds net.eof s.stream) s

    abbrev pub has_mode : Call T Bool
    has_mode s = done (holds net.has_mode s.stream) s

  module _ ⦃net : Streams T.World T.Stream⦄ ⦃mp : MsgPuck⦄ ⦃php : Php⦄ ⦃al : Allocator⦄ ⦃tp : Tp⦄
      ⦃space_hash : MHash T.Spaces SchemaSpaceValue⦄
      ⦃index_hash : MHash T.Indexes SchemaIndexValue⦄ where
    -- BEE_CONNECT_ON_DEMAND
    unfoldable pub connect_on_demand : Call T (Unit {0})
    connect_on_demand = do
      connected ← is_connected
      if connected then return tt else bee_connect
      ended ← has_ended
      if ended then bee_reconnect else return tt

    unfoldable pub connect : Call T (Unit {0})
    connect = do there ← has_mode; if there then return tt else bee_connect

    unfoldable pub reconnect : Call T (Unit {0})
    reconnect = bee_reconnect

    -- pestrdup stops at a NUL. The result is null however __bee_authenticate ends.
    unfoldable pub authenticate : (login : Bytes) (passwd : Option Bytes) → Call T (Unit {0})
    authenticate login passwd = do
      modify λ s. record s {
        login = some (c_string login);
        passwd = elim passwd [ none ↦ none | some p ↦ some (c_string p) ];
      }
      connect_on_demand
      regardless bee_authenticate

    unfoldable pub flush_schema : Call T (Unit {0})
    flush_schema = modify (λ s. record s { schema = bee_schema_flush s.schema })

    unfoldable pub close : Call T (Unit {0})
    close = return tt

    unfoldable pub ping : Call T (Unit {0})
    ping = do connect_on_demand; values ← exchange php_tp_encode_ping; return tt

    unfoldable pub space_of : Zval → Call T ℤ
    space_of space = do found ← get_spaceno_by_name space; proper found

    unfoldable pub index_of : (space_no : ℤ) → Option Zval → Call T ℤ
    index_of space_no none = return (pos 0)
    index_of space_no (some index) = do found ← get_indexno_by_name space_no index; proper found

    unfoldable pub select :
        (space : Zval) (key index zlimit : Option Zval) (offset : ℤ) (iterator : Option Zval)
        → Call T Zval
    select space key index zlimit offset iterator = do
      connect_on_demand
      limit ← check_limit zlimit
      space_no ← space_of space
      index_no ← index_of space_no index
      chosen ← run (convert_iterator iterator (is_iterator_all key))
      iterator_id ← proper chosen
      key_new ← run (pack_key key true)
      exchange_data λ sync.
          php_tp_encode_select sync (to_u32 space_no) (to_u32 index_no) (to_u32 limit)
            (to_u32 offset) (to_u32 iterator_id) key_new

    unfoldable pub insert_or_replace : (type : ℕ) (space tuple : Zval) → Call T Zval
    insert_or_replace type space tuple = do
      connect_on_demand
      space_no ← space_of space
      exchange_data λ sync. php_tp_encode_insert_or_replace sync (to_u32 space_no) tuple type

    unfoldable pub insert : (space tuple : Zval) → Call T Zval
    insert = insert_or_replace beex_insert

    unfoldable pub replace : (space tuple : Zval) → Call T Zval
    replace = insert_or_replace beex_replace

    unfoldable pub delete : (space key : Zval) (index : Option Zval) → Call T Zval
    delete space key index = do
      connect_on_demand
      space_no ← space_of space
      index_no ← index_of space_no index
      key_new ← run (pack_key (some key) false)
      exchange_data λ sync. php_tp_encode_delete sync (to_u32 space_no) (to_u32 index_no) key_new

    unfoldable pub call : (proc : Bytes) (tuple : Option Zval) → Call T Zval
    call proc tuple = do
      connect_on_demand
      tuple_new ← run (pack_key tuple true)
      exchange_data λ sync. php_tp_encode_call sync proc (u32 (length proc)) tuple_new

    unfoldable pub eval : (proc : Bytes) (tuple : Option Zval) → Call T Zval
    eval proc tuple = do
      connect_on_demand
      tuple_new ← run (pack_key tuple true)
      exchange_data λ sync. php_tp_encode_eval sync proc (u32 (length proc)) tuple_new

    unfoldable pub update : (space key args : Zval) (index : Option Zval) → Call T Zval
    update space key args index = do
      connect_on_demand
      space_no ← space_of space
      index_no ← index_of space_no index
      ops ← run (bee_update_verify_args args)
      key_new ← run (pack_key (some key) false)
      exchange_data
          λ sync. php_tp_encode_update sync (to_u32 space_no) (to_u32 index_no) key_new ops

    unfoldable pub upsert : (space tuple args : Zval) → Call T Zval
    upsert space tuple args = do
      connect_on_demand
      space_no ← space_of space
      ops ← run (bee_update_verify_args args)
      exchange_data λ sync. php_tp_encode_upsert sync (to_u32 space_no) tuple ops
