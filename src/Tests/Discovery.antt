-- ===== src/Tests/Discovery.antt =====
-- A session that learns the number of a space from the server's answer.
use bee_php.Prelude.{
  ℕ, zero, suc, ◌+◌, ◌≡◌, refl, ap, Option, none, some, List, [], ◌∷◌, ◌++◌, arith, pos, negsuc,
  length, drop, replicate, length-drop, take-append_exact, length-append, Bytes, be32, codes, u64,
}
use bee_php.Engine.Zval.{string}
use bee_php.Engine.SmartString.{SmartString}
use bee_php.Engine.MsgPuck.{MsgPuck, DecodesBack}
use bee_php.Engine.Streams.{Streams}
use bee_php.Engine.Tp.{
  Tp, IsTp, TpCall, tp_select, tp_key, tp_encode_str, tp_encode_uint, tp_reqid, tp_auth,
}
use bee_php.Proto.Keys.{beex_data}
use bee_php.Proto.Encode.Packet.{packet}
use bee_php.Proto.Response.Parse.{Header, message}
use bee_php.Schema.{bee_schema_get_sid_by_string}
use bee_php.Schema.Rows.{SpaceRow, IsSkipped, IsSpaceRow, AreSpaceRows, space_row}
use bee_php.Schema.Spaces.{put_rows}
use bee_php.Schema.Lookup.{here}
use bee_php.Connection.State.{Session, done}
use bee_php.Connection.Stream.Keeps.{IsEmpty}
use bee_php.Connection.Exchange.{Takes}
use bee_php.Connection.Names.{get_spaceno_by_name}
use bee_php.Connection.Names.Discovery.{space_select, rows_data, get_spaceno_by_name-unknown}
use bee_php.Tests.Codec.{read32, tagged, and_then, codec}
use bee_php.Tests.Codec.Decodes.{codec-DecodesBack, next-encode_str}
use bee_php.Tests.Memory.{allocator, allocator-IsAllocator}
use bee_php.Tests.Streams.{pairwise-IsPhpStream}
use bee_php.Tests.Hashes.{spaces, indexes, spaces-IsMHash}
use bee_php.Tests.Tables.{people, pets, two_rows, two_rows-whole, people_apart}
use bee_php.Tests.Connections.{types, server, session}

-- A codec whose mp_next steps over the rows of a table too.
abbrev skip_each : (Bytes → Option Bytes) → ℕ → Bytes → Option Bytes
skip_each next zero b = some b
skip_each next (suc n) b = and_then (next b) (skip_each next n)

abbrev skip_array : (Bytes → Option Bytes) → Bytes → Option Bytes
skip_array next b = elim (tagged 0xdd read32 b) [ none ↦ none | some (n, r) ↦ skip_each next n r ]

abbrev or_rows : Option Bytes → Bytes → Option Bytes
or_rows (some r) b = some r
or_rows none b = skip_array (skip_array codec.next) b

abbrev deep : MsgPuck
deep = record codec { next = λ b. or_rows (codec.next b) b }

deep_next : (b r : Bytes) → codec.next b ≡ some r → deep.next b ≡ some r
deep_next b r h = ap (λ o. or_rows o b) h

deep-DecodesBack : DecodesBack deep
deep-DecodesBack =
    let laws = codec-DecodesBack in
    record {
      typeof-nil = laws.typeof-nil;
      typeof-uint = laws.typeof-uint;
      typeof-int = laws.typeof-int;
      typeof-double = laws.typeof-double;
      typeof-bool = laws.typeof-bool;
      typeof-str = laws.typeof-str;
      typeof-array = laws.typeof-array;
      typeof-map = laws.typeof-map;
      decode-nil = laws.decode-nil;
      decode-uint = laws.decode-uint;
      decode-int = laws.decode-int;
      decode-double = laws.decode-double;
      decode-bool = laws.decode-bool;
      decode-str = laws.decode-str;
      decode-array = laws.decode-array;
      decode-map = laws.decode-map;
      decode-uint32 = laws.decode-uint32;
      next-uint = λ n r h. deep_next (codec.encode_uint n ++ r) r (laws.next-uint n r h);
    }

deep-IsSkipped : (bs : Bytes) → IsSkipped ⦃mp = codec⦄ bs → IsSkipped ⦃mp = deep⦄ bs
deep-IsSkipped bs h = record { next-skipped = λ r. deep_next (bs ++ r) r (h.next-skipped r) }

deep-IsSpaceRow : (row : SpaceRow) → IsSpaceRow ⦃mp = codec⦄ row → IsSpaceRow ⦃mp = deep⦄ row
deep-IsSpaceRow row h = record {
  number_fits = h.number_fits;
  name_fits = h.name_fits;
  owner-IsSkipped = deep-IsSkipped row.owner h.owner-IsSkipped;
  engine-IsSkipped = deep-IsSkipped row.engine h.engine-IsSkipped;
  field_count-IsSkipped = deep-IsSkipped row.field_count h.field_count-IsSkipped;
  flags-IsSkipped = deep-IsSkipped row.flags h.flags-IsSkipped;
  format-IsSkipped = deep-IsSkipped row.format h.format-IsSkipped;
}

deep-AreSpaceRows :
    (rows : List SpaceRow) → AreSpaceRows ⦃mp = codec⦄ rows → AreSpaceRows ⦃mp = deep⦄ rows
deep-AreSpaceRows [] h = tt
deep-AreSpaceRows (row ∷ rows) (h, hs) = (deep-IsSpaceRow row h, deep-AreSpaceRows rows hs)

skip_array-row :
    (row : SpaceRow) (rest : Bytes)
    → IsSpaceRow ⦃mp = codec⦄ row
    → skip_array codec.next (space_row ⦃mp = codec⦄ row rest) ≡ some rest
skip_array-row row rest h =
    let r7 = row.format ++ rest in
    let r6 = row.flags ++ r7 in
    let r5 = row.field_count ++ r6 in
    let r4 = row.engine ++ r5 in
    let r3 = codec.encode_str row.name ++ r4 in
    let r2 = row.owner ++ r3 in
    rw (
      codec-DecodesBack.next-uint row.number r2 (omega (arith, h.number_fits)),
      h.owner-IsSkipped.next-skipped r3,
      next-encode_str row.name r4 h.name_fits,
      h.engine-IsSkipped.next-skipped r5,
      h.field_count-IsSkipped.next-skipped r6,
      h.flags-IsSkipped.next-skipped r7,
      h.format-IsSkipped.next-skipped rest,
    )

rows-IsSkipped : IsSkipped ⦃mp = deep⦄ (rows_data ⦃mp = deep⦄ two_rows)
rows-IsSkipped = record {
  next-skipped = λ rest.
      let (one, (two, _)) = two_rows-whole in
      rw
        (skip_array-row people (space_row ⦃mp = codec⦄ pets rest) one, skip_array-row pets rest two)
        refl;
}

-- A builder that puts the numbers and strings of the calls at the start of the block.
abbrev call_bytes : TpCall → Bytes
call_bytes (tp_select space index offset limit) =
    be32 space ++ (be32 index ++ (be32 offset ++ be32 limit))
call_bytes (tp_key n) = be32 n
call_bytes (tp_encode_str s) = s
call_bytes (tp_encode_uint n) = be32 n
call_bytes (tp_reqid n) = be32 n
call_bytes (tp_auth salt user pass) = salt ++ user

abbrev calls_bytes : List TpCall → Bytes
calls_bytes [] = []
calls_bytes (call ∷ calls) = call_bytes call ++ calls_bytes calls

abbrev builder : Tp
builder = record {
  build =
      λ calls s. let p = calls_bytes calls in (record s { c = p ++ drop (length p) s.c }, length p);
  requests = calls_bytes;
  room = λ calls. length (calls_bytes calls);
}

builder-IsTp : IsTp builder
builder-IsTp = record {
  build-IsBuffer = λ calls s b room. record {
    block = omega (
      arith,
      length-append (calls_bytes calls) (drop (length (calls_bytes calls)) s.c),
      length-drop (length (calls_bytes calls)) s.c,
      b.block,
    );
    within = b.within;
  };
  used_within = λ calls s b room. room;
  build-requests = λ calls s b room.
      let p = calls_bytes calls in take-append_exact p (drop (length p) s.c) (length p) refl;
}

-- A session with a buffer of 256 bytes.
abbrev roomy : Session types
roomy = record (session []) { value = record { c = replicate 256 0; len = 0; a = 256 } }

-- [0 => 0, 1 => 7, 5 => 80]
abbrev ok_header : Header
ok_header = (0, 0) ∷ (1, 7) ∷ (5, 80) ∷ []

abbrev spaces_answer : Bytes
spaces_answer =
    packet (message ⦃mp = deep⦄ ok_header beex_data (rows_data ⦃mp = deep⦄ two_rows)) ++ (9 ∷ [])

abbrev telling : Streams (Unit {0}) Bytes
telling = server spaces_answer

select_taken : (p : Bytes) → Takes telling p [] spaces_answer
select_taken p = record { all_written = refl; flushed = refl }

people_unknown :
    bee_schema_get_sid_by_string ⦃space_hash = spaces⦄ ⦃index_hash = indexes⦄ roomy.schema
      (codes "people")
    ≡ negsuc 0
unfolding bee_schema_get_sid_by_string
people_unknown = refl

get_spaceno_by_name-unknown_example :
    (stream'' : Bytes) × (v : SmartString) × (get_spaceno_by_name {T = types} ⦃net = telling⦄
        ⦃mp = deep⦄ ⦃al = allocator⦄ ⦃tp = builder⦄ ⦃space_hash = spaces⦄ ⦃index_hash = indexes⦄
        (string (codes "people"))
        roomy
      ≡ done (pos 512) (record roomy {
        stream = some stream'';
        value = v;
        schema = put_rows ⦃space_hash = spaces⦄ ⦃index_hash = indexes⦄ two_rows roomy.schema;
        sync_counter = u64 (7 + 1);
      }))
    × (stream'' ≡ 9 ∷ [])
    × IsEmpty v
get_spaceno_by_name-unknown_example =
    get_spaceno_by_name-unknown {T = types} ⦃net = telling⦄ ⦃mp = deep⦄ ⦃al = allocator⦄ (λ s. s)
      pairwise-IsPhpStream deep-DecodesBack allocator-IsAllocator ⦃space_hash = spaces⦄
      ⦃index_hash = indexes⦄ ⦃tp = builder⦄ spaces-IsMHash builder-IsTp roomy [] spaces_answer
      ok_header people two_rows (9 ∷ []) refl (record { block = refl; within = omega arith })
      (omega arith) people_unknown (select_taken (calls_bytes (space_select (codes "people") 7)))
      refl (omega arith)
      (omega arith, omega arith, (omega arith, omega arith, (omega arith, omega arith, tt)))
      (omega arith) (deep-AreSpaceRows two_rows two_rows-whole) (omega arith) rows-IsSkipped refl
      people_apart here (omega arith)
