-- ===== src/Tests/Lookups.antt =====
-- Names that were looked up in the cache of a session.
use bee_php.Prelude.{
  ℕ, List, Bytes, ◌≡◌, ◌≢◌, true, arith, length, refl, some, ◌++◌, [], ◌∷◌, pos, codes, bytes_eq,
}
use bee_php.Engine.Zval.{string}
use bee_php.Schema.{
  SchemaIndexValue, SchemaSpaceValue, BeeSchema, bee_schema_flush, flush_releases,
  bee_schema_delete, bee_schema_get_sid_by_string, bee_schema_get_iid_by_string,
}
use bee_php.Connection.State.{Session, done}
use bee_php.Connection.Names.{get_spaceno_by_name, get_indexno_by_name}
use bee_php.Connection.Names.Again.{get_spaceno_by_name_again, get_indexno_by_name_again}
use bee_php.Tests.Codec.{codec}
use bee_php.Tests.Memory.{allocator}
use bee_php.Schema.Spaces.{put_rows, bee_schema_add_spaces-rows}
use bee_php.Schema.Rows.{space_rows}
use bee_php.Schema.Releases.{AreDistinct}
use bee_php.Schema.Owned.{Fills, spaces_read, emptied, bee_schema_delete-AreDistinct}
use bee_php.Schema.Refines.{
  Follows, at_new, spaces_added, learned, forgotten, number_of, Follows-get_sid,
}
use bee_php.Tests.Codec.Decodes.{codec-DecodesBack}
use bee_php.Tests.Hashes.{spaces, indexes, spaces-IsMHash}
use bee_php.Tests.Tables.{one_space, two_rows, empty_schema, two_rows-whole, two_rows-added}
use bee_php.Tests.Connections.{types, server, session, no_builder}

-- A cache with a space and its index 3.
abbrev age_node : SchemaIndexValue
age_node = record { index_name = codes "age"; index_number = 3 }

abbrev caching : Session types
caching = record (session []) {
  schema = record one_space { index_hashes = ((codes "age", age_node) ∷ []) ∷ [] };
}

people_known :
    get_spaceno_by_name {T = types} ⦃net = server []⦄ ⦃mp = codec⦄ ⦃al = allocator⦄
      ⦃tp = no_builder⦄ ⦃space_hash = spaces⦄ ⦃index_hash = indexes⦄
      (string (codes "people"))
      caching
    ≡ done (pos 512) caching
unfolding get_spaceno_by_name bytes_eq bee_schema_get_sid_by_string
people_known = refl

age_known :
    get_indexno_by_name {T = types} ⦃net = server []⦄ ⦃mp = codec⦄ ⦃al = allocator⦄
      ⦃tp = no_builder⦄ ⦃space_hash = spaces⦄ ⦃index_hash = indexes⦄
      (pos 512)
      (string (codes "age"))
      caching
    ≡ done (pos 3) caching
unfolding get_indexno_by_name bytes_eq bee_schema_get_iid_by_string
age_known = refl

get_spaceno_by_name_again_example :
    get_spaceno_by_name {T = types} ⦃net = server []⦄ ⦃mp = codec⦄ ⦃al = allocator⦄
      ⦃tp = no_builder⦄ ⦃space_hash = spaces⦄ ⦃index_hash = indexes⦄
      (string (codes "people"))
      caching
    ≡ done (pos 512) caching
get_spaceno_by_name_again_example =
    get_spaceno_by_name_again {T = types} ⦃net = server []⦄ ⦃mp = codec⦄ ⦃al = allocator⦄
      ⦃tp = no_builder⦄ ⦃space_hash = spaces⦄ ⦃index_hash = indexes⦄ (codes "people") (pos 512)
      caching caching people_known

get_indexno_by_name_again_example :
    get_indexno_by_name {T = types} ⦃net = server []⦄ ⦃mp = codec⦄ ⦃al = allocator⦄
      ⦃tp = no_builder⦄ ⦃space_hash = spaces⦄ ⦃index_hash = indexes⦄
      (pos 512)
      (string (codes "age"))
      caching
    ≡ done (pos 3) caching
get_indexno_by_name_again_example =
    get_indexno_by_name_again {T = types} ⦃net = server []⦄ ⦃mp = codec⦄ ⦃al = allocator⦄
      ⦃tp = no_builder⦄ ⦃space_hash = spaces⦄ ⦃index_hash = indexes⦄ (pos 512) (codes "age") (pos 3)
      caching caching age_known

six_bytes : length (codes "people") ≢ 4
six_bytes e = ground arith

-- The cache after two rows of spaces.
learned_cache :
    Follows ⦃space_hash = spaces⦄ ⦃index_hash = indexes⦄ ⦃mp = codec⦄
      (put_rows ⦃space_hash = spaces⦄ ⦃index_hash = indexes⦄ two_rows empty_schema)
      (learned two_rows forgotten)
learned_cache =
    spaces_added {more = true} two_rows at_new two_rows-whole (omega arith) refl two_rows-added

Follows-get_sid_example :
    bee_schema_get_sid_by_string ⦃space_hash = spaces⦄ ⦃index_hash = indexes⦄
      (put_rows ⦃space_hash = spaces⦄ ⦃index_hash = indexes⦄ two_rows empty_schema)
      (codes "people")
    ≡ number_of (learned two_rows forgotten (codes "people"))
Follows-get_sid_example =
    Follows-get_sid ⦃space_hash = spaces⦄ ⦃index_hash = indexes⦄ spaces-IsMHash ⦃mp = codec⦄
      codec-DecodesBack (codes "people") learned_cache six_bytes

-- The two spaces are read, flushed and read again.
abbrev read_once : BeeSchema (List (Bytes × SchemaSpaceValue)) (List (Bytes × SchemaIndexValue))
read_once = put_rows ⦃space_hash = spaces⦄ ⦃index_hash = indexes⦄ two_rows empty_schema

abbrev flushed : BeeSchema (List (Bytes × SchemaSpaceValue)) (List (Bytes × SchemaIndexValue))
flushed = bee_schema_flush ⦃space_hash = spaces⦄ ⦃index_hash = indexes⦄ read_once

abbrev read_twice : BeeSchema (List (Bytes × SchemaSpaceValue)) (List (Bytes × SchemaIndexValue))
read_twice = put_rows ⦃space_hash = spaces⦄ ⦃index_hash = indexes⦄ two_rows flushed

abbrev rows_message : Bytes
rows_message = codec.encode_array 2 ++ space_rows ⦃mp = codec⦄ two_rows []

abbrev first_releases : List ℕ
first_releases = flush_releases ⦃space_hash = spaces⦄ ⦃index_hash = indexes⦄ read_once ++ []

read_twice-Fills :
    Fills ⦃space_hash = spaces⦄ ⦃index_hash = indexes⦄ ⦃mp = codec⦄ first_releases read_twice
read_twice-Fills =
    spaces_read {more = true} rows_message
      (emptied (spaces_read {more = true} rows_message Fills.at_new two_rows-added))
      (bee_schema_add_spaces-rows ⦃space_hash = spaces⦄ ⦃index_hash = indexes⦄ ⦃mp = codec⦄
        codec-DecodesBack two_rows flushed two_rows-whole (omega arith) refl)

bee_schema_delete-AreDistinct_example : AreDistinct (
    bee_schema_delete ⦃space_hash = spaces⦄ ⦃index_hash = indexes⦄ (some read_twice)
    ++ first_releases)
bee_schema_delete-AreDistinct_example =
    bee_schema_delete-AreDistinct ⦃space_hash = spaces⦄ ⦃index_hash = indexes⦄ spaces-IsMHash
      ⦃mp = codec⦄ first_releases read_twice read_twice-Fills
