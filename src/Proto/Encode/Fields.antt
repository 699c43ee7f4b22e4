-- ===== src/Proto/Encode/Fields.antt =====
-- The body of a request, field by field.
use bee_php.Prelude.{
  ℕ, ◌+◌, ◌<◌, ◌≡◌, ◌^◌, sym, ap, List, [], ◌∷◌, ◌++◌, append-nil, arith, length, length-append,
  Bytes, u64,
}
use bee_php.Engine.SmartString.{Allocator, IsAllocator}
use bee_php.Engine.MsgPuck.{MsgPuck, EncodesBySize}
use bee_php.Msgpack.Buffer.{Action, ◌>>◌, ensure}
use bee_php.Msgpack.Buffer.Writes.{Writes, >>-Writes}
use bee_php.Engine.Zval.{Zval, IsZval}
use bee_php.Msgpack.Pack.{php_mp_pack_hash, php_mp_pack, php_mp_pack_string}
use bee_php.Msgpack.Pack.Wire.{wire, pack_hash-Writes, pack_string-Writes}
use bee_php.Msgpack.Sizeof.{php_mp_sizeof_hash, php_mp_sizeof, php_mp_sizeof_string}
use bee_php.Msgpack.Sizeof.Exact.{sizeof_hash-length, sizeof_string-length, php_mp_sizeof-length}
use bee_php.Proto.Sizes.{sizeof_u32, php_tp_sizeof_header}
use bee_php.Proto.Encode.{pack_u32, php_tp_pack_header}
use bee_php.Proto.Encode.Packet.{
  packet, Field, header_bytes, fields_bytes, body_bytes, request_bytes, length-u32,
  length-header_bytes, pack_u32-Writes, pack-Writes, request-Writes,
}

module _ ⦃mp : MsgPuck⦄ where
  -- The sizes of a body's values, and the sum that the sizeof functions of src/bee_proto.c form.
  abbrev FieldSizes : List Field → List ℕ → Type 0
  FieldSizes [] [] = Unit {0}
  FieldSizes ((k, value) ∷ fields) (n ∷ ns) =
      (u64 n ≡ u64 (length value)) × (k < 2 ^ 32) × FieldSizes fields ns
  FieldSizes _ _ = ⊥

  abbrev pub total : List Field → List ℕ → ℕ → ℕ
  total ((k, value) ∷ fields) (n ∷ ns) acc = total fields ns (acc + sizeof_u32 k + n)
  total _ _ acc = acc

  -- The action appends a value of the announced size, and the values of a body.
  pub record Value (a : Action) (value : Bytes) (n : ℕ) : Type 0 where
    pub writes : Writes a value
    pub size : u64 n ≡ u64 (length value)

  pub record Body (a : Action) (fields : List Field) (ns : List ℕ) : Type 0 where
    pub writes : Writes a (fields_bytes fields)
    pub size : FieldSizes fields ns

module _ ⦃mp : MsgPuck⦄ (sizes : EncodesBySize mp) where
  total-length :
      (fields : List Field) (ns : List ℕ) (acc : ℕ)
      → FieldSizes fields ns
      → u64 (total fields ns acc) ≡ u64 (acc + length (fields_bytes fields))
  unfolding fields_bytes
  total-length [] [] acc h = omega arith
  total-length [] (n ∷ ns) acc h = elim h [ ]
  total-length (f ∷ fields) [] acc h = elim h [ ]
  total-length ((k, value) ∷ fields) (n ∷ ns) acc (e, hk, h) = omega (
    arith,
    total-length fields ns (acc + sizeof_u32 k + n) h,
    length-append (mp.encode_uint k) (value ++ fields_bytes fields),
    length-append value (fields_bytes fields),
    length-u32 sizes k hk,
  )

  module _ ⦃al : Allocator⦄ (laws : IsAllocator al) where
    pub u32-Value : (n : ℕ) → n < 2 ^ 32 → Value (pack_u32 n) (mp.encode_uint n) (sizeof_u32 n)
    u32-Value n h = record {
      writes = pack_u32-Writes sizes laws n h;
      size = ap u64 (sym (length-u32 sizes n h));
    }

    pub zval-Value : (v : Zval) → IsZval v → Value (php_mp_pack v) (wire v) (php_mp_sizeof v)
    zval-Value v h = record {
      writes = pack-Writes sizes laws v h;
      size = php_mp_sizeof-length sizes v h;
    }

    pub string-Value :
        (s : Bytes)
        → length s < 2 ^ 31
        → Value
            (php_mp_pack_string s (length s))
            (mp.encode_str s)
            (php_mp_sizeof_string (length s))
    string-Value s h = record {
      writes = pack_string-Writes laws sizes s h;
      size = ap u64 (sym (sizeof_string-length sizes s h));
    }

    pub field :
        (k : ℕ) {a rest : Action} {value : Bytes} {n : ℕ} {fields : List Field} {ns : List ℕ}
        → k < 2 ^ 32
        → Value a value n
        → Body rest fields ns
        → Body (pack_u32 k >> a >> rest) ((k, value) ∷ fields) (n ∷ ns)
    unfolding fields_bytes
    field k hk v w = record {
      writes = >>-Writes (pack_u32-Writes sizes laws k hk) (>>-Writes v.writes w.writes);
      size = (v.size, hk, w.size);
    }

    pub last_field :
        (k : ℕ) {a : Action} {value : Bytes} {n : ℕ}
        → k < 2 ^ 32
        → Value a value n
        → Body (pack_u32 k >> a) ((k, value) ∷ []) (n ∷ [])
    unfolding fields_bytes
    last_field k {value} hk v = record {
      writes = >>-Writes (pack_u32-Writes sizes laws k hk) (rw (append-nil value) v.writes);
      size = (v.size, hk, tt);
    }

    -- A request whose announced size adds up its header and its fields is a packet.
    pub fields-Writes :
        (request sync size : ℕ) (fields : List Field) (ns : List ℕ) {a : Action}
        → request < 2 ^ 32
        → sync < 2 ^ 32
        → length fields < 2 ^ 31
        → size
          ≡ u64 (
              total fields ns
                (php_tp_sizeof_header request sync + php_mp_sizeof_hash (length fields)))
        → Body a fields ns
        → Writes
            (ensure (size + 5)
              >> php_tp_pack_header size request sync
              >> php_mp_pack_hash (length fields)
              >> a)
            (packet (request_bytes request sync (body_bytes fields)))
    unfolding request_bytes body_bytes
    fields-Writes request sync size fields ns hr hs few e body =
        let header = php_tp_sizeof_header request sync + php_mp_sizeof_hash (length fields) in
        let rest = mp.encode_map (length fields) ++ fields_bytes fields in
        request-Writes sizes laws size request sync hr hs
          (omega (
            arith,
            total-length fields ns header body.size,
            length-append (header_bytes request sync) rest,
            length-append (mp.encode_map (length fields)) (fields_bytes fields),
            length-header_bytes sizes request sync hr hs,
            sizeof_hash-length sizes (length fields) few,
          ))
          (>>-Writes (pack_hash-Writes laws sizes (length fields) few) body.writes)
