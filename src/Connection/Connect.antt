-- ===== src/Connection/Connect.antt =====
-- __bee_connect, __bee_reconnect, __bee_authenticate and persistent_id of src/bee.c. The pause
-- between two attempts is not described.
use bee_php.Prelude.{
  ℕ, zero, suc, ◌+◌, ◌/◌, ◌%◌, Bool, true, false, not, ◌&&◌, ◌⊎◌, inl, inr, Option, none, some, [],
  ◌∷◌, ◌++◌, ltb, ◌==◌, if◌then◌else◌, ℤ, pos, negsuc, length, drop, Bytes, u32, codes,
}
use bee_php.Engine.SmartString.{Allocator}
use bee_php.Engine.MHash.{MHash}
use bee_php.Engine.MsgPuck.{MsgPuck}
use bee_php.Engine.Streams.{Streams, PersistentStatus, success}
use bee_php.Engine.Tp.{Tp, tp_auth, tp_select, tp_key, tp_reqid}
use bee_php.Engine.Outcome.{
  Exception, lift, query_unread, query_unparsed, query_error, space_schema_unparsed,
  index_schema_unparsed, null_message,
}
use bee_php.Proto.Keys.{space_space, space_index, greeting_size, salt_prefix_size}
use bee_php.Proto.Response.{BeexResponse, php_tp_response}
use bee_php.Schema.{
  SchemaSpaceValue, SchemaIndexValue, bee_schema_add_spaces, bee_schema_add_indexes,
  bee_schema_flush,
}
use bee_php.Connection.State.{
  Types, Session, done, Call, ◌>>=◌, ◌>>◌, return, fail, gets, modify, throw_exc, run, next_sync,
}
use bee_php.Connection.Stream.{is_set, beexll_stream_open, bee_stream_close, bee_stream_read}
use bee_php.Connection.Names.{cache_rows, send_tp, read_block}

-- "%d" of a number below 10 ^ fuel.
unfoldable pub decimal : (fuel : ℕ) → ℕ → Bytes
decimal zero n = []
decimal (suc fuel) n =
    let front = decimal fuel (n / 10) in (if ltb n 10 then [] else front) ++ ((b'0' + n % 10) ∷ [])

abbrev pub or_guest : Option Bytes → Bytes
or_guest none = codes "guest"
or_guest (some login) = login

-- The id and `*olen`, which counts the NUL only where there is no suffix.
unfoldable pub persistent_id : Bytes → ℕ → Option Bytes → Bytes → Option Bytes → Bytes × ℕ
persistent_id host port login prefix suffix =
    let plist_id =
      codes "bee-"
      ++ (prefix
          ++ (codes ":id="
              ++ (host ++ (codes ":" ++ (decimal 5 port ++ (codes "-" ++ or_guest login)))))) in
    elim suffix [
      | none ↦ (plist_id, length plist_id + 1)
      | some s ↦
          let suffixed = plist_id ++ (codes "[" ++ (s ++ codes "]")) in (suffixed, length suffixed)
    ]

abbrev pub thrown_err : Option Exception → Exception
thrown_err none = null_message
thrown_err (some e) = e

module _ {T : Types} where
  -- persistent_id of the object's own fields, as the id of a stream.
  abbrev pub stream_id : Session T → Bytes
  stream_id s = (persistent_id s.host s.port s.orig_login (codes "stream") s.suffix).0

  -- if (bad) { THROW_EXC(…); status = FAILURE; }
  abbrev pub noted : (bad : Bool) → Exception → (status : Bool) → Call T Bool
  noted true e status = do throw_exc e; return false
  noted false e status = return status

  abbrev pub noted_error : BeexResponse → (status : Bool) → Call T Bool
  noted_error resp status = elim resp.error [
    | none ↦ return status
    | some error ↦ noted true (query_error resp.code error) status
  ]

  module _ ⦃net : Streams T.World T.Stream⦄ ⦃mp : MsgPuck⦄ ⦃al : Allocator⦄ ⦃tp : Tp⦄
      ⦃space_hash : MHash T.Spaces SchemaSpaceValue⦄
      ⦃index_hash : MHash T.Indexes SchemaIndexValue⦄ where
    -- A reply of the batch that was parsed, and the numbers of the three requests.
    unfoldable pub take_reply :
        (auth_sync space_sync index_sync : ℕ) → BeexResponse → (status : Bool) → Call T Bool
    take_reply auth_sync space_sync index_sync resp status =
        if resp.sync == space_sync
        then (do
          added ← cache_rows bee_schema_add_spaces resp
          noted (not added && status) space_schema_unparsed status)
        else if resp.sync == index_sync
        then (do
          added ← cache_rows bee_schema_add_indexes resp
          noted (not added && status) index_schema_unparsed status)
        else if resp.sync == auth_sync
        then noted_error resp status
        else return status

    unfoldable pub judge_reply : (auth_sync space_sync index_sync : ℕ) → Call T Bool
    judge_reply auth_sync space_sync index_sync = do
      c ← gets (λ s. s.value.c)
      (resp, parsed) ← run (php_tp_response c)
      status ← noted (not (is_set parsed)) query_unparsed true
      status' ← noted_error resp status
      take_reply auth_sync space_sync index_sync resp status'

    -- while (batch_count-- > 0): after a failure the replies are only read.
    unfoldable pub take_replies :
        (auth_sync space_sync index_sync batch_count : ℕ) → (status : Bool) → Call T Bool
    take_replies auth_sync space_sync index_sync zero status = return status
    take_replies auth_sync space_sync index_sync (suc n) status = do
      read_block query_unread (λ body_size. query_unread)
      status' ← if status then judge_reply auth_sync space_sync index_sync else return false
      take_replies auth_sync space_sync index_sync n status'

    unfoldable pub bee_authenticate : Call T (Unit {0})
    bee_authenticate = do
      modify (λ s. record s { schema = bee_schema_flush s.schema })
      salt ← gets (λ s. drop salt_prefix_size s.greeting)
      name ← gets (λ s. s.login)
      login ← run (lift name)
      passwd ← gets (λ s. s.passwd)
      auth_sync ← next_sync
      space_sync ← next_sync
      index_sync ← next_sync
      send_tp (
          tp_auth salt login passwd
          ∷ tp_reqid (u32 auth_sync)
          ∷ tp_select space_space 0 0 4096
          ∷ tp_key 0
          ∷ tp_reqid (u32 space_sync)
          ∷ tp_select space_index 0 0 4096
          ∷ tp_key 0
          ∷ tp_reqid (u32 index_sync)
          ∷ [])
      status ← take_replies (u32 auth_sync) (u32 space_sync) (u32 index_sync) 3 true
      if status then return tt else fail

    abbrev pub name_stream : Call T (Unit {0})
    name_stream =
        modify λ s. if s.is_persistent then record s { persistent_id = some (stream_id s) } else s

    abbrev pub opened : (Exception ⊎ T.Stream) × T.World → Call T (Option Exception)
    opened (inl e, w) s = done (some e) (record s { world = w })
    opened (inr stream, w) s = done none (record s { world = w; stream = some stream })

    -- beexll_stream_open for the object: a stream is stored, a message is returned.
    unfoldable pub open_stream : Call T (Option Exception)
    open_stream s = opened (beexll_stream_open net s.host s.port s.persistent_id s.world) s

    -- A greeting that is too short is taken: the test against -1 never holds.
    unfoldable pub read_greeting : Call T (Unit {0})
    read_greeting = do
      (count, front) ← bee_stream_read greeting_size
      modify (λ s. record s { greeting = front ++ drop (length front) s.greeting })

    abbrev pub after_attempt :
        (count : ℕ) (again : Option Exception → Call T (ℕ × Option Exception))
        → Option Exception
        → Call T (ℕ × Option Exception)
    after_attempt count again none = do read_greeting; return (suc count, none)
    after_attempt count again (some e) = again (some e)

    -- while (count > 0): what `count` and `err` are afterwards.
    unfoldable pub attempts : (count : ℕ) (err : Option Exception) → Call T (ℕ × Option Exception)
    attempts zero err = return (zero, err)
    attempts (suc count) err = do
      name_stream
      err' ← open_stream
      after_attempt count (attempts count) err'

    abbrev pub log_in : Call T (Unit {0})
    log_in = do
      login ← gets (λ s. s.login)
      passwd ← gets (λ s. s.passwd)
      if is_set login && is_set passwd then bee_authenticate else return tt

    abbrev pub if_connected : ℕ × Option Exception → Call T (Unit {0})
    if_connected (zero, err) = do throw_exc (thrown_err err); fail
    if_connected (suc count, err) = log_in

    -- From the label retry on. With a negative count there is no attempt and no exception.
    unfoldable pub open_new : (count : ℤ) → Call T (Unit {0})
    open_new (negsuc n) = log_in
    open_new (pos n) = do ended ← attempts n none; if_connected ended

    -- What php_stream_from_persistent_id stores: a stream only where it is found.
    abbrev pub take_found : PersistentStatus × Option T.Stream → Call T Bool
    take_found (success, found) s = done (is_set found) (record s { stream = found })
    take_found (status, found) s = done false s

    abbrev pub named : Option Bytes → Session T → Bytes
    named none s = stream_id s
    named (some pid) s = pid

    unfoldable pub find_persistent : Call T Bool
    find_persistent = do
      pid ← gets (λ s. named s.persistent_id s)
      modify (λ s. record s { persistent_id = some pid })
      w ← gets (λ s. s.world)
      take_found (net.from_persistent_id (some pid) w)

    unfoldable pub bee_connect : Call T (Unit {0})
    bee_connect = do
      is_persistent ← gets (λ s. s.is_persistent)
      found ← if is_persistent then find_persistent else return false
      count ← gets (λ s. s.retry_count)
      if found then return tt else open_new count

    unfoldable pub bee_reconnect : Call T (Unit {0})
    bee_reconnect = do bee_stream_close; bee_connect
