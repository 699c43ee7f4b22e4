-- ===== src/Tests/Connections.antt =====
-- A connected session with number 7, a server that answers each request at once, and the answers.
use bee_php.Prelude.{
  ℕ, ◌^◌, ◌<◌, ◌≡◌, refl, true, false, none, some, List, [], ◌∷◌, ◌++◌, replicate, arith, pos,
  length, Bytes, codes,
}
use bee_php.Engine.Zval.{index, Zval, long, array, string, end, bucket, Buckets, IsZval}
use bee_php.Engine.HashTable.{add_index_zval, add_next_index_zval}
use bee_php.Engine.Streams.{Streams, not_exist}
use bee_php.Engine.Tp.{Tp}
use bee_php.Msgpack.Pack.Forms.{sent_as_map, has_name}
use bee_php.Msgpack.Pack.Wire.{wire, long_wire, elements_wire, pairs_wire}
use bee_php.Msgpack.Unpack.Image.{image, insert_pairs, insert_elements}
use bee_php.Proto.Encode.Packet.{packet}
use bee_php.Schema.{SchemaSpaceValue, SchemaIndexValue}
use bee_php.Connection.State.{Types, Session}
use bee_php.Connection.Stream.Keeps.{IsEmpty}
use bee_php.Connection.Receive.Replies.{payload, IsReply}
use bee_php.Tests.Codec.{codec}
use bee_php.Tests.Codec.Decodes.{are_whole-encode_str}
use bee_php.Tests.Memory.{fresh, fresh-IsBuffer}
use bee_php.Tests.Values.{php}
use bee_php.Tests.Streams.{pairwise}

abbrev pub types : Types
types = record {
  Spaces = List (Bytes × SchemaSpaceValue);
  Indexes = List (Bytes × SchemaIndexValue);
  Stream = Bytes;
  World = Unit {0};
}

-- What the server sends when something is written. It refuses new connections.
abbrev pub server : Bytes → Streams (Unit {0}) Bytes
server reply = record {
  reads = pairwise;
  write = λ p stream. (length p, stream ++ reply);
  flush = λ stream. (0, stream);
  eof = λ stream. false;
  has_mode = λ stream. true;
  xport_create = λ host port pid w. (111, none, w);
  setsockopt = λ stream. 0;
  from_persistent_id = λ pid w. (not_exist, none);
  free = λ persistent stream w. w;
}

-- [0 => code, 1 => sync, 5 => 80]
abbrev pub header_slots : ℕ → ℕ → Buckets
header_slots code sync =
    bucket (index (pos 0)) (long (pos code))
      (bucket (index (pos 1)) (long (pos sync)) (bucket (index (pos 5)) (long (pos 80)) end))

abbrev pub header_of : ℕ → ℕ → Zval
header_of code sync = array 0 6 (header_slots code sync)

-- [0x30 => [5]] and [0x31 => "no"]
abbrev pub data_body : Zval
data_body =
    array 0 0x31
      (bucket (index (pos 0x30)) (array 0 1 (bucket (index (pos 0)) (long (pos 5)) end)) end)

abbrev pub error_body : Zval
error_body = array 0 0x32 (bucket (index (pos 0x31)) (string (codes "no")) end)

abbrev pub answer_bytes : Zval → Zval → Bytes
answer_bytes header body = packet (payload ⦃mp = codec⦄ header body) ++ (9 ∷ [])

-- A request builder that builds nothing.
abbrev pub no_builder : Tp
no_builder = record { build = λ calls s. (s, 0); requests = λ calls. []; room = λ calls. 0 }

abbrev pub session : Bytes → Session types
session stream = record {
  host = codes "localhost";
  port = 3301;
  login = none;
  passwd = none;
  stream = some stream;
  schema = record { space_hash = []; index_hashes = [] };
  value = fresh;
  greeting = [];
  orig_login = none;
  suffix = none;
  persistent_id = none;
  is_persistent = false;
  sync_counter = 7;
  retry_count = pos 1;
  thrown = [];
  world = tt;
}

pub fresh-IsEmpty : IsEmpty fresh
fresh-IsEmpty = record { is_buffer = fresh-IsBuffer; no_len = refl }

pub header_image : (code sync : ℕ) → image ⦃php = php⦄ (header_of code sync) ≡ header_of code sync
unfolding image sent_as_map has_name insert_pairs add_index_zval
header_image code sync = refl

pub data_image : image ⦃php = php⦄ data_body ≡ data_body
unfolding image sent_as_map has_name insert_pairs insert_elements add_index_zval add_next_index_zval
data_image = refl

pub error_image : image ⦃php = php⦄ error_body ≡ error_body
unfolding image sent_as_map has_name insert_pairs add_index_zval
error_image = refl

header-IsZval : (code sync : ℕ) → code < 2 ^ 63 → sync < 2 ^ 63 → IsZval (header_of code sync)
header-IsZval code sync small fits =
    (omega arith, (omega arith, small, (omega arith, fits, (omega arith, omega arith, tt))))

pub data-IsReply :
    IsReply ⦃mp = codec⦄
      (λ s. s)
      (answer_bytes (header_of 0 7) data_body)
      (header_of 0 7)
      data_body
      (9 ∷ [])
unfolding wire sent_as_map has_name long_wire elements_wire pairs_wire
data-IsReply = record {
  incoming = refl;
  size_fits = omega arith;
  header-IsZval = header-IsZval 0 7 (omega arith) (omega arith);
  body-IsZval = (omega arith, (omega arith, (omega arith, (omega arith, omega arith, tt)), tt));
  size_checked = refl;
  header_checked = λ rest. refl;
  body_checked = λ rest. refl;
}

pub error-IsReply :
    IsReply ⦃mp = codec⦄
      (λ s. s)
      (answer_bytes (header_of 0x8003 7) error_body)
      (header_of 0x8003 7)
      error_body
      (9 ∷ [])
unfolding wire sent_as_map has_name long_wire elements_wire pairs_wire
error-IsReply = record {
  incoming = refl;
  size_fits = omega arith;
  header-IsZval = header-IsZval 0x8003 7 (omega arith) (omega arith);
  body-IsZval = (omega arith, (omega arith, omega arith, tt));
  size_checked = refl;
  header_checked = λ rest. refl;
  body_checked = λ rest.
      are_whole-encode_str (length (replicate 11 0 ++ rest)) (codes "no") rest (omega arith);
}
