-- ===== src/Proto/Encode/Packet.antt =====
-- The form of a request on the wire: a size, a header map and a body map.
use bee_php.Prelude.{
  ℕ, ◌+◌, ◌<◌, ◌≡◌, ◌^◌, List, [], ◌∷◌, ◌++◌, append_assoc, append-nil, arith, pos, length,
  length-append, Bytes, u32, u64, be32,
}
use bee_php.Engine.Zval.{Zval, IsZval}
use bee_php.Engine.SmartString.{Allocator, IsAllocator}
use bee_php.Engine.MsgPuck.{MsgPuck, EncodesBySize}
use bee_php.Msgpack.Buffer.{Action, ◌>>◌, ensure}
use bee_php.Msgpack.Buffer.Writes.{Writes, >>-Writes, ensure-Writes}
use bee_php.Msgpack.Pack.{php_mp_pack}
use bee_php.Msgpack.Pack.Wire.{
  long_wire, wire, pack_long-Writes, pack_hash-Writes, pack_package_size-Writes, php_mp_pack-wire,
}
use bee_php.Msgpack.Sizeof.Exact.{sizeof_long-length, sizeof_hash-length}
use bee_php.Proto.Keys.{beex_code, beex_sync}
use bee_php.Proto.Sizes.{sizeof_u32, php_tp_sizeof_header}
use bee_php.Proto.Encode.{pack_u32, php_tp_pack_header}

-- A payload behind its length, which the packet gives modulo 2 ^ 32.
abbrev pub packet : Bytes → Bytes
packet payload = (0xce ∷ be32 (u32 (length payload))) ++ payload

-- A key of the body's map and the bytes of its value.
abbrev pub Field : Type 0
Field = ℕ × Bytes

module _ ⦃mp : MsgPuck⦄ where
  unfoldable pub header_bytes : (request sync : ℕ) → Bytes
  header_bytes request sync =
      mp.encode_map 2
      ++ (mp.encode_uint beex_code
          ++ (mp.encode_uint request ++ (mp.encode_uint beex_sync ++ mp.encode_uint sync)))

  unfoldable pub fields_bytes : List Field → Bytes
  fields_bytes [] = []
  fields_bytes ((k, value) ∷ rest) = mp.encode_uint k ++ (value ++ fields_bytes rest)

  unfoldable pub body_bytes : List Field → Bytes
  unfolding fields_bytes
  body_bytes fields = mp.encode_map (length fields) ++ fields_bytes fields

  -- The payload of a request: the request type and the sync number, then the body.
  unfoldable pub request_bytes : (request sync : ℕ) → Bytes → Bytes
  unfolding header_bytes
  request_bytes request sync body = header_bytes request sync ++ body

  module _ (sizes : EncodesBySize mp) where
    pub length-u32 : (n : ℕ) → n < 2 ^ 32 → length (mp.encode_uint n) ≡ sizeof_u32 n
    unfolding long_wire
    length-u32 n h = sizeof_long-length sizes (pos n) (omega arith)

    pub length-fields_bytes :
        (k : ℕ) (value : Bytes) (rest : List Field)
        → k < 2 ^ 32
        → length (fields_bytes ((k, value) ∷ rest))
          ≡ sizeof_u32 k + length value + length (fields_bytes rest)
    unfolding fields_bytes
    length-fields_bytes k value rest h = omega (
      arith,
      length-append (mp.encode_uint k) (value ++ fields_bytes rest),
      length-append value (fields_bytes rest),
      length-u32 k h,
    )

    pub length-header_bytes :
        (request sync : ℕ)
        → request < 2 ^ 32
        → sync < 2 ^ 32
        → u64 (length (header_bytes request sync)) ≡ php_tp_sizeof_header request sync
    unfolding header_bytes php_tp_sizeof_header
    length-header_bytes request sync hr hs =
        let last = mp.encode_uint beex_sync ++ mp.encode_uint sync in
        let mid = mp.encode_uint request ++ last in
        omega (
          arith,
          length-append (mp.encode_map 2) (mp.encode_uint beex_code ++ mid),
          length-append (mp.encode_uint beex_code) mid,
          length-append (mp.encode_uint request) last,
          length-append (mp.encode_uint beex_sync) (mp.encode_uint sync),
          sizeof_hash-length sizes 2 (omega arith),
          length-u32 beex_code (omega arith),
          length-u32 request hr,
          length-u32 beex_sync (omega arith),
          length-u32 sync hs,
        )

    module _ ⦃al : Allocator⦄ (laws : IsAllocator al) where
      pub pack_u32-Writes : (n : ℕ) → n < 2 ^ 32 → Writes (pack_u32 n) (mp.encode_uint n)
      pack_u32-Writes n h = unfold long_wire in pack_long-Writes laws sizes (pos n) (omega arith)

      pub pack-Writes : (v : Zval) → IsZval v → Writes (php_mp_pack v) (wire v)
      pack-Writes v h s b = php_mp_pack-wire laws sizes v s h b

      header-Writes :
          (size request sync : ℕ)
          → request < 2 ^ 32
          → sync < 2 ^ 32
          → Writes
              (php_tp_pack_header size request sync)
              ((0xce ∷ be32 (u32 size)) ++ header_bytes request sync)
      unfolding php_tp_pack_header header_bytes
      header-Writes size request sync hr hs = >>-Writes (pack_package_size-Writes laws sizes size) (
          >>-Writes (pack_hash-Writes laws sizes 2 (omega arith)) (
            >>-Writes (pack_u32-Writes beex_code (omega arith)) (
              >>-Writes (pack_u32-Writes request hr)
                (>>-Writes (pack_u32-Writes beex_sync (omega arith)) (pack_u32-Writes sync hs)))))

      -- A request whose announced size is its length is a packet.
      pub request-Writes :
          (size request sync : ℕ) {rest : Action} {body : Bytes}
          → request < 2 ^ 32
          → sync < 2 ^ 32
          → u64 size ≡ u64 (length (request_bytes request sync body))
          → Writes rest body
          → Writes
              (ensure (size + 5) >> php_tp_pack_header size request sync >> rest)
              (packet (request_bytes request sync body))
      unfolding request_bytes
      request-Writes size request sync {body} hr hs e w =
          let same : u32 (length (request_bytes request sync body)) ≡ u32 size = omega (arith, e) in
          rw (same, ← append_assoc (0xce ∷ be32 (u32 size)) (header_bytes request sync) body)
            (ensure-Writes laws (size + 5) (>>-Writes (header-Writes size request sync hr hs) w))

      -- A request without a body.
      pub request_empty-Writes :
          (size request sync : ℕ)
          → request < 2 ^ 32
          → sync < 2 ^ 32
          → u64 size ≡ u64 (length (request_bytes request sync []))
          → Writes
              (ensure (size + 5) >> php_tp_pack_header size request sync)
              (packet (request_bytes request sync []))
      unfolding request_bytes
      request_empty-Writes size request sync hr hs e =
          let same : u32 (length (header_bytes request sync ++ [])) ≡ u32 size = omega (arith, e) in
          rw (same, append-nil (header_bytes request sync))
            (ensure-Writes laws (size + 5) (header-Writes size request sync hr hs))

      pub last-Writes : {a : Action} {bs : Bytes} → Writes a bs → Writes a (bs ++ [])
      last-Writes {bs} w = rw (append-nil bs) w
