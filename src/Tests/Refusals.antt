-- ===== src/Tests/Refusals.antt =====
-- Connections that fail, room for requests, and a session after some calls.
use bee_php.Prelude.{
  ℕ, suc, ◌+◌, ◌<◌, ◌^◌, true, false, length, ◌≤◌, ◌≡◌, ◌≢◌, refl, none, some, [], ◌∷◌, arith, pos,
  replicate, codes, Bytes,
}
use bee_php.Engine.SmartString.{SmartString}
use bee_php.Engine.Streams.{Streams, not_exist}
use bee_php.Engine.Outcome.{connect_failed}
use bee_php.Msgpack.Buffer.Writes.{Writes, Ensured}
use bee_php.Connection.State.{Types, Session, failed, crash}
use bee_php.Connection.Connect.{bee_connect}
use bee_php.Connection.Methods
use bee_php.Connection.Methods.{ping, exchange}
use bee_php.Connection.Exchange.Short.{exchange_short}
use bee_php.Connection.Stream.Keeps.{IsEmpty}
use bee_php.Connection.Receive.{bee_step_recv}
use bee_php.Proto.Keys.{beex_ping}
use bee_php.Proto.Encode.{php_tp_encode_ping}
use bee_php.Proto.Encode.Packet.{packet, request_bytes}
use bee_php.Proto.Encode.Queries.{encode_ping-packet}
use bee_php.Tests.Codec.Decodes.{codec-EncodesBySize}
use bee_php.Connection.Reserve.{bee_tp_reserve, bee_tp_reserve-Ensured}
use bee_php.Connection.Refusals.{
  Refuses, repeated, tries, never_tried, bee_connect-Refuses, ping_negative,
}
use bee_php.Tests.Codec.{codec}
use bee_php.Tests.Memory.{allocator, allocator-IsAllocator, fresh, fresh-IsBuffer}
use bee_php.Tests.Values.{php}
use bee_php.Tests.Streams.{pairwise}
use bee_php.Tests.Hashes.{spaces, indexes}
use bee_php.Tests.Connections.{types, server, session, no_builder, fresh-IsEmpty}

-- A stream that takes one byte the first time, and all bytes then.
abbrev narrow : Streams (Unit {0}) Bytes
narrow = record (server []) {
  write = λ p stream. elim stream [ [] ↦ (1, 1 ∷ []) | b ∷ bs ↦ (length p, b ∷ bs) ];
}

abbrev ping_bytes : ℕ → Bytes
ping_bytes sync = packet (request_bytes ⦃mp = codec⦄ beex_ping sync [])

ping_bytes-Writes :
    (sync : ℕ)
    → sync < 2 ^ 32
    → Writes (php_tp_encode_ping ⦃mp = codec⦄ ⦃al = allocator⦄ sync) (ping_bytes sync)
ping_bytes-Writes sync fits v b =
    encode_ping-packet ⦃mp = codec⦄ ⦃al = allocator⦄ allocator-IsAllocator codec-EncodesBySize sync
      v fits b

not_all : ◌≢◌ {A = ℕ} 1 (length (ping_bytes 7))
not_all e = ground arith

exchange_short_example :
    (s' : Session types) × (v : SmartString) × (exchange {T = types} ⦃net = narrow⦄ ⦃mp = codec⦄
        ⦃php = php⦄ ⦃al = allocator⦄
        (php_tp_encode_ping ⦃mp = codec⦄ ⦃al = allocator⦄)
        (session [])
      ≡ failed s')
    × (exchange {T = types} ⦃net = narrow⦄ ⦃mp = codec⦄ ⦃php = php⦄ ⦃al = allocator⦄
          (php_tp_encode_ping ⦃mp = codec⦄ ⦃al = allocator⦄)
          s'
        ≡ bee_step_recv {T = types} ⦃net = narrow⦄ ⦃mp = codec⦄ ⦃php = php⦄ ⦃al = allocator⦄ 8
            (record (session []) { stream = some (1 ∷ []); value = v; sync_counter = 9 }))
    × IsEmpty v
exchange_short_example =
    exchange_short {T = types} ⦃net = narrow⦄ ⦃mp = codec⦄ ⦃php = php⦄ ⦃al = allocator⦄
      (php_tp_encode_ping ⦃mp = codec⦄ ⦃al = allocator⦄)
      (php_tp_encode_ping ⦃mp = codec⦄ ⦃al = allocator⦄) (ping_bytes 7) (ping_bytes 8) (session [])
      [] (1 ∷ []) refl fresh-IsEmpty (ping_bytes-Writes 7 (omega arith))
      (ping_bytes-Writes 8 (omega arith)) not_all (record { all_written = refl; flushed = refl })

-- A world that counts the attempts, and a server that refuses each with its number.
abbrev counting : Types
counting = record types { World = ℕ }

abbrev refusing : Streams ℕ Bytes
refusing = record {
  reads = pairwise;
  write = λ p stream. (length p, stream);
  flush = λ stream. (0, stream);
  eof = λ stream. false;
  has_mode = λ stream. true;
  xport_create = λ host port pid w. (100 + w, none, suc w);
  setsockopt = λ stream. 0;
  from_persistent_id = λ pid w. (not_exist, none);
  free = λ persistent stream w. w;
}

abbrev waiting : Session counting
waiting = record {
  host = codes "localhost";
  port = 3301;
  login = none;
  passwd = none;
  stream = none;
  schema = record { space_hash = []; index_hashes = [] };
  value = fresh;
  greeting = [];
  orig_login = none;
  suffix = none;
  persistent_id = none;
  is_persistent = false;
  sync_counter = 7;
  retry_count = pos 3;
  thrown = [];
  world = 0;
}

refuses : Refuses refusing (codes "localhost") 3301 (λ w. 100 + w) suc
refuses = record { refused = λ pid w. refl }

-- Three attempts, and the code of the third.
bee_connect-Refuses_example :
    bee_connect {T = counting} ⦃net = refusing⦄ ⦃mp = codec⦄ ⦃al = allocator⦄ ⦃tp = no_builder⦄
      ⦃space_hash = spaces⦄ ⦃index_hash = indexes⦄
      (tries (pos 3) waiting)
    ≡ failed (record (tries (pos 3) waiting) { world = 3; thrown = connect_failed 102 ∷ [] })
unfolding repeated
bee_connect-Refuses_example =
    bee_connect-Refuses {T = counting} ⦃net = refusing⦄ ⦃mp = codec⦄ ⦃al = allocator⦄
      ⦃tp = no_builder⦄ ⦃space_hash = spaces⦄ ⦃index_hash = indexes⦄ (λ w. 100 + w) suc 2 waiting
      refuses

ping_negative_example :
    ping {T = types} ⦃net = server []⦄ ⦃mp = codec⦄ ⦃php = php⦄ ⦃al = allocator⦄ ⦃tp = no_builder⦄
      ⦃space_hash = spaces⦄ ⦃index_hash = indexes⦄
      (never_tried 0 (session []))
    ≡ crash
ping_negative_example =
    ping_negative {T = types} ⦃net = server []⦄ ⦃mp = codec⦄ ⦃al = allocator⦄ ⦃tp = no_builder⦄
      ⦃space_hash = spaces⦄ ⦃index_hash = indexes⦄ ⦃php = php⦄ 0 (session [])

bee_tp_reserve-Ensured_example :
    Ensured ⦃al = allocator⦄ allocator-IsAllocator fresh 10
      (bee_tp_reserve ⦃al = allocator⦄ 10 fresh)
    × (0 ≤ (bee_tp_reserve ⦃al = allocator⦄ 10 fresh).a)
bee_tp_reserve-Ensured_example =
    bee_tp_reserve-Ensured ⦃al = allocator⦄ allocator-IsAllocator 10 fresh fresh-IsBuffer

-- A session whose greeting was read.
abbrev greeted : Session types
greeted = record (session []) { greeting = replicate 128 0 }
