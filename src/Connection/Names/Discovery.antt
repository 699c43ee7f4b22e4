-- ===== src/Connection/Names/Discovery.antt =====
-- A name of a space that the cache does not hold, and the server's answer to the select.
use bee_php.Prelude.{
  ℕ, ◌+◌, ◌<◌, ◌≤◌, ◌^◌, ◌≡◌, refl, ap, ◌∙◌, true, some, List, [], ◌∷◌, ◌++◌, append_assoc, arith,
  pos, negsuc, to_int, length, Bytes, u32, u64,
}
use bee_php.Engine.Zval.{string}
use bee_php.Engine.SmartString.{SmartString, IsBuffer, Allocator, IsAllocator}
use bee_php.Engine.MHash.{MHash, IsMHash}
use bee_php.Engine.MsgPuck.{MsgPuck, mp_array, typeof, DecodesBack}
use bee_php.Engine.PhpStream.{IsPhpStream}
use bee_php.Engine.Streams.{Streams}
use bee_php.Engine.Tp.{Tp, IsTp, TpCall, tp_select, tp_key, tp_encode_str, tp_reqid}
use bee_php.Engine.Outcome.{Exception, space_schema_unparsed}
use bee_php.Proto.Keys.{space_space, index_space_name, beex_data}
use bee_php.Proto.Encode.Packet.{packet}
use bee_php.Proto.Response.Parse.{Header, IsHeader, message}
use bee_php.Schema.{
  SchemaSpaceValue, SchemaIndexValue, bee_schema_add_spaces, bee_schema_get_sid_by_string,
}
use bee_php.Schema.Rows.{SpaceRow, IsSkipped, AreSpaceRows, space_rows}
use bee_php.Schema.Spaces.{put_rows, bee_schema_add_spaces-rows}
use bee_php.Schema.Lookup.{AllApart, Among, get_sid-put_rows}
use bee_php.Connection.State.{Types, Session, done, ◌>>=◌, next_sync}
use bee_php.Connection.Stream.{reset_value}
use bee_php.Connection.Stream.Keeps.{IsEmpty, reset_value-IsEmpty}
use bee_php.Connection.Exchange.{Takes, send-Takes}
use bee_php.Connection.Names.{send_tp, fetch_rows, get_spaceno_by_name}
use bee_php.Connection.Names.Blocks.{read_response-data}

-- The select on the spaces by a name, with the request's number.
abbrev pub space_select : Bytes → ℕ → List TpCall
space_select name sync =
    tp_select space_space index_space_name 0 4096
    ∷ tp_key 1
    ∷ tp_encode_str name
    ∷ tp_reqid (u32 sync)
    ∷ []

-- The rows as the value of DATA.
abbrev pub rows_data : ⦃mp : MsgPuck⦄ → List SpaceRow → Bytes
rows_data ⦃mp = mp⦄ rows = mp.encode_array (length rows) ++ space_rows rows []

to_int_small : (n : ℕ) → n < 2 ^ 31 → to_int (pos n) ≡ pos n
to_int_small n h = ground arith

module _ {T : Types} ⦃net : Streams T.World T.Stream⦄ ⦃mp : MsgPuck⦄ ⦃al : Allocator⦄
    (content : T.Stream → Bytes) (stream_laws : IsPhpStream net.reads content)
    (decodes : DecodesBack mp) (laws : IsAllocator al) where
  module _ ⦃space_hash : MHash T.Spaces SchemaSpaceValue⦄
      ⦃index_hash : MHash T.Indexes SchemaIndexValue⦄ ⦃tp : Tp⦄ where
    send_tp-Takes :
        (builds : IsTp tp) (calls : List TpCall) (s : Session T) (stream stream' : T.Stream)
        → s.stream ≡ some stream
        → IsBuffer s.value
        → tp.room calls ≤ s.value.a
        → Takes net (tp.requests calls) stream stream'
        → (v : SmartString) × (send_tp calls s
            ≡ done tt (record s { stream = some stream'; value = v }))
          × IsEmpty v
    unfolding send_tp
    send_tp-Takes builds calls s stream stream' there b room t =
        let v = (tp.build calls s.value).0 in
        let used = (tp.build calls s.value).1 in
        (
          reset_value (record v { len = used }),
          send-Takes (record s { value = record v { len = used } }) stream stream'
              (tp.requests calls) there (builds.build-requests calls s.value b room) t,
          reset_value-IsEmpty (record v { len = used })
              (record {
                block = (builds.build-IsBuffer calls s.value b room).block;
                within = builds.used_within calls s.value b room;
              }),
        )

    -- The select on the spaces and its answer with rows.
    fetch_rows-spaces :
        (builds : IsTp tp) (calls : List TpCall) (unparsed : Exception) (s : Session T)
        (stream stream' : T.Stream) (header : Header) (rows : List SpaceRow) (later : Bytes)
        → s.stream ≡ some stream
        → IsBuffer s.value
        → tp.room calls ≤ s.value.a
        → Takes net (tp.requests calls) stream stream'
        → content stream' ≡ packet (message header beex_data (rows_data rows)) ++ later
        → length (message header beex_data (rows_data rows)) < 2 ^ 31
        → IsHeader header
        → length header < 2 ^ 32
        → AreSpaceRows rows
        → length rows < 2 ^ 32
        → IsSkipped (rows_data rows)
        → mp.check (rows_data rows) ≡ true
        → (stream'' : T.Stream) × (v : SmartString) × (fetch_rows calls bee_schema_add_spaces
              unparsed s
            ≡ done tt
                (record s { stream = some stream''; value = v; schema = put_rows rows s.schema }))
          × (content stream'' ≡ later)
          × IsEmpty v
    unfolding fetch_rows
    fetch_rows-spaces builds calls unparsed s stream stream' header rows later there b room takes
          incoming fits h few whole many skipped checked =
        let (v, sent, empty) = send_tp-Takes builds calls s stream stream' there b room takes in
        let more = space_rows rows [] in
        let is_array : (rest : Bytes) → typeof mp (rows_data rows ++ rest) ≡ some mp_array = λ rest.
          ap (typeof mp) (append_assoc (mp.encode_array (length rows)) more rest)
          ∙ decodes.typeof-array (length rows) (more ++ rest) many in
        let (stream'', v', got, left, emptied) =
          read_response-data content stream_laws decodes laws
            (record s { stream = some stream'; value = v }) stream' header (rows_data rows) later
            refl incoming fits empty h few is_array skipped in
        (
          stream'',
          v',
          rw (
            sent,
            ◌>>=◌,
            got,
            ◌>>=◌,
            bee_schema_add_spaces-rows decodes rows s.schema whole many checked,
          ),
          left,
          emptied,
        )

    -- get_spaceno_by_name, on a connected stream and a buffer with room for the request, of a name that the cache does not hold,
    -- sends the select on the spaces. If the stream takes it and has then a response of less than 2 ^ 31 bytes with rows of the
    -- spaces under DATA, one of which has the name and a number below 2 ^ 31, and every row of another
    -- number has other keys, the function returns that number. The cache has the rows, the buffer is
    -- empty, a request number is used up, and the stream is behind the response.
    pub get_spaceno_by_name-unknown :
        (tables : IsMHash space_hash) (builds : IsTp tp) (s : Session T) (stream stream' : T.Stream)
        (header : Header) (row : SpaceRow) (rows : List SpaceRow) (later : Bytes)
        → s.stream ≡ some stream
        → IsBuffer s.value
        → tp.room (space_select row.name s.sync_counter) ≤ s.value.a
        → bee_schema_get_sid_by_string s.schema row.name ≡ negsuc 0
        → Takes net (tp.requests (space_select row.name s.sync_counter)) stream stream'
        → content stream' ≡ packet (message header beex_data (rows_data rows)) ++ later
        → length (message header beex_data (rows_data rows)) < 2 ^ 31
        → IsHeader header
        → length header < 2 ^ 32
        → AreSpaceRows rows
        → length rows < 2 ^ 32
        → IsSkipped (rows_data rows)
        → mp.check (rows_data rows) ≡ true
        → AllApart row.name row.number rows
        → Among row rows
        → row.number < 2 ^ 31
        → (stream'' : T.Stream) × (v : SmartString) × (get_spaceno_by_name (string row.name) s
            ≡ done (pos row.number) (record s {
              stream = some stream'';
              value = v;
              schema = put_rows rows s.schema;
              sync_counter = u64 (s.sync_counter + 1);
            }))
          × (content stream'' ≡ later)
          × IsEmpty v
    unfolding get_spaceno_by_name next_sync
    get_spaceno_by_name-unknown tables builds s stream stream' header row rows later there b room
          unknown takes incoming fits h few whole many skipped checked apart among small =
        let (stream'', v, got, left, emptied) =
          fetch_rows-spaces builds (space_select row.name s.sync_counter) space_schema_unparsed
            (record s { sync_counter = u64 (s.sync_counter + 1) }) stream stream' header rows later
            there b room takes incoming fits h few whole many skipped checked in
        let found : bee_schema_get_sid_by_string (put_rows rows s.schema) row.name
            ≡ pos row.number =
          get_sid-put_rows tables row rows s.schema apart among ∙ to_int_small row.number small in
        (stream'', v, rw (unknown, got, ◌>>=◌, found), left, emptied)
