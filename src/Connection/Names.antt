-- ===== src/Connection/Names.antt =====
-- get_spaceno_by_name and get_indexno_by_name of src/bee.c: the numbers that names stand for, from
-- the cache or else from the server. A number that is returned may be -1, which callers take for
-- FAILURE.
pub mod Again
pub mod Blocks
pub mod Discovery
use bee_php.Prelude.{
  ℕ, zero, Bool, Option, none, some, List, [], ◌∷◌, ◌==◌, if◌then◌else◌, ℤ, pos, negsuc, to_int,
  to_u64, length, Bytes, u32,
}
use bee_php.Engine.Zval.{Zval, null, long, string}
use bee_php.Engine.SmartString.{Allocator}
use bee_php.Engine.MHash.{MHash}
use bee_php.Engine.MsgPuck.{MsgPuck}
use bee_php.Engine.Streams.{Streams}
use bee_php.Engine.Tp.{Tp, TpCall, tp_select, tp_key, tp_encode_str, tp_encode_uint, tp_reqid}
use bee_php.Engine.Outcome.{
  Exception, Outcome, length_unread, message_unread, query_unparsed, query_error, bad_space_id,
  bad_index_id, space_schema_unparsed, index_schema_unparsed, no_space, no_index,
}
use bee_php.Msgpack.Buffer.{smart_string_ensure}
use bee_php.Msgpack.Unpack.{php_mp_unpack_package_size}
use bee_php.Proto.Keys.{space_space, space_index, index_space_name, index_index_name}
use bee_php.Proto.Response.{BeexResponse, php_tp_response}
use bee_php.Schema.{
  BeeSchema, SchemaSpaceValue, SchemaIndexValue, bee_schema_add_spaces, bee_schema_add_indexes,
  bee_schema_get_sid_by_string, bee_schema_get_iid_by_string,
}
use bee_php.Connection.State.{
  Types, Call, ◌>>=◌, ◌>>◌, return, fail, gets, modify, throw_exc, run, or_fail, next_sync,
}
use bee_php.Connection.Stream.{is_set, bee_stream_send, bee_stream_read, read_into}

-- What "%s" prints of a string: up to a NUL.
abbrev pub c_string : Bytes → Bytes
c_string [] = []
c_string (b ∷ bs) = if b == 0 then [] else b ∷ c_string bs

-- resp.data and resp.data_len: a null pointer has the length 0.
abbrev pub data_bytes : Option Bytes → Bytes
data_bytes none = []
data_bytes (some bs) = bs

module _ {T : Types} where
  abbrev pub unless_error : BeexResponse → Call T BeexResponse
  unless_error resp = elim resp.error [
    | none ↦ return resp
    | some error ↦ do throw_exc (query_error resp.code error); fail
  ]

  -- `reqid` follows the calls.
  module _ ⦃net : Streams T.World T.Stream⦄ ⦃tp : Tp⦄ where
    -- bee_tp_update, the calls, obj->value->len = tp_used(obj->tps), bee_tp_flush, bee_stream_send
    unfoldable pub send_tp : List TpCall → Call T (Unit {0})
    send_tp calls = do
      modify λ s.
          let (v, used) = tp.build calls s.value in record s { value = record v { len = used } }
      bee_stream_send

  module _ ⦃net : Streams T.World T.Stream⦄ ⦃mp : MsgPuck⦄ ⦃al : Allocator⦄ where
    -- A message that is read to the start of the block. Its size is not checked.
    unfoldable pub read_block : (unread : Exception) (short : ℕ → Exception) → Call T (Unit {0})
    read_block unread short = do
      (count, pack_len) ← bee_stream_read 5
      or_fail (count == 5) unread
      body_size ← run (php_mp_unpack_package_size pack_len)
      modify (λ s. record s { value = smart_string_ensure body_size s.value })
      got ← read_into (λ v. 0) body_size
      or_fail (got == body_size) (short body_size)

    unfoldable pub read_response : Call T BeexResponse
    read_response = do
      read_block length_unread message_unread
      c ← gets (λ s. s.value.c)
      (resp, parsed) ← run (php_tp_response c)
      or_fail (is_set parsed) query_unparsed
      unless_error resp

    module _ ⦃tp : Tp⦄ ⦃space_hash : MHash T.Spaces SchemaSpaceValue⦄
        ⦃index_hash : MHash T.Indexes SchemaIndexValue⦄ where
      abbrev pub cache_rows :
          (add : BeeSchema T.Spaces T.Indexes
            → Bytes
            → Outcome (BeeSchema T.Spaces T.Indexes × Bool))
          → BeexResponse
          → Call T Bool
      cache_rows add resp = do
        schema ← gets (λ s. s.schema)
        (schema', added) ← run (add schema (data_bytes resp.response_data))
        modify (λ s. record s { schema = schema' })
        return added

      -- The select on the table of the spaces, or of the indexes, and its answer.
      unfoldable pub fetch_rows :
          (calls : List TpCall)
          (add : BeeSchema T.Spaces T.Indexes
            → Bytes
            → Outcome (BeeSchema T.Spaces T.Indexes × Bool))
          → Exception
          → Call T (Unit {0})
      fetch_rows calls add unparsed = do
        send_tp calls
        resp ← read_response
        added ← cache_rows add resp
        or_fail added unparsed

      abbrev pub known_or : (number : ℤ) → Call T ℤ → Call T ℤ
      known_or (negsuc zero) k = k
      known_or number k = return number

      abbrev pub or_undefined : Exception → Call T ℤ
      or_undefined e = do throw_exc e; fail

      unfoldable pub get_spaceno_by_name : (name : Zval) → Call T ℤ
      get_spaceno_by_name (long n) = return (to_int n)
      get_spaceno_by_name (string name) = do
        space_no ← gets (λ s. bee_schema_get_sid_by_string s.schema name)
        known_or space_no do
          sync ← next_sync
          fetch_rows
              (tp_select space_space index_space_name 0 4096
                ∷ tp_key 1
                ∷ tp_encode_str name
                ∷ tp_reqid (u32 sync)
                ∷ [])
              bee_schema_add_spaces space_schema_unparsed
          found ← gets (λ s. bee_schema_get_sid_by_string s.schema name)
          known_or found (or_undefined (no_space (c_string name)))
      get_spaceno_by_name other = do throw_exc bad_space_id; fail

      unfoldable pub get_indexno_by_name : (space_no : ℤ) (name : Zval) → Call T ℤ
      get_indexno_by_name space_no null = return (pos 0)
      get_indexno_by_name space_no (long n) = return (to_int n)
      get_indexno_by_name space_no (string name) = do
        schema ← gets (λ s. s.schema)
        index_no ← run (bee_schema_get_iid_by_string schema (u32 (to_u64 space_no)) name)
        known_or index_no do
          sync ← next_sync
          fetch_rows
              (tp_select space_index index_index_name 0 4096
                ∷ tp_key 2
                ∷ tp_encode_uint (to_u64 space_no)
                ∷ tp_encode_str name
                ∷ tp_reqid (u32 sync)
                ∷ [])
              bee_schema_add_indexes index_schema_unparsed
          schema' ← gets (λ s. s.schema)
          found ← run (bee_schema_get_iid_by_string schema' (u32 (to_u64 space_no)) name)
          known_or found (or_undefined (no_index (c_string name)))
      get_indexno_by_name space_no other = do throw_exc bad_index_id; fail
