-- ===== src/Msgpack/Pack/Wire.antt =====
-- What the packing routines append, as a function of the value alone.
use bee_php.Prelude.{
  ℕ, zero, suc, ◌<◌, ◌≡◌, ◌^◌, refl, Bool, true, false, Bool-cases, inl, inr, none, some, List, [],
  ◌∷◌, ◌++◌, arith, if◌then◌else◌, ℤ, pos, negsuc, IsLong, length, take-length, Bytes, u32, be32,
}
use bee_php.Engine.Zval.{
  Key, index, name, Zval, null, long, double, bool, array, string, object, resource, Buckets, end,
  bucket, IsKey, IsZval, AreSlots,
}
use bee_php.Engine.HashTable.{index_find, key_eq, num_elements}
use bee_php.Engine.SmartString.{SmartString, IsBuffer, Allocator, IsAllocator}
use bee_php.Engine.MsgPuck.{MsgPuck, EncodesBySize}
use bee_php.Msgpack.Buffer.{Action}
use bee_php.Msgpack.Buffer.Writes.{Appends, Writes, put-Writes, skip-Writes, >>-Writes}
use bee_php.Msgpack.Pack.Forms.{
  sent_as_map, php_mp_is_hash-sent_as_map, sent_as_nil, is_busy-sent_as_nil,
}
use bee_php.Msgpack.Pack.{
  php_mp_pack_nil, php_mp_pack_long, php_mp_pack_double, php_mp_pack_bool, php_mp_pack_string,
  php_mp_pack_hash, php_mp_pack_array, pack_element, pack_elements, php_mp_pack_array_recursively,
  pack_key, pack_pairs, php_mp_pack_hash_recursively, php_mp_pack, bucket_actions,
  php_mp_pack_package_size,
}

module _ ⦃mp : MsgPuck⦄ where
  unfoldable pub long_wire : ℤ → Bytes
  long_wire (pos n) = mp.encode_uint n
  long_wire (negsuc n) = mp.encode_int (negsuc n)

  abbrev pub key_wire : Key → Bytes
  key_wire (index h) = long_wire h
  key_wire (name s) = mp.encode_str s

  -- The data under the keys i, i + 1, …, with nil for an index that the table lacks.
  unfoldable pub elements_wire : ℕ → ℕ → List (Key × Bytes) → Bytes
  elements_wire zero i table = []
  elements_wire (suc n) i table =
      (elim (index_find i table) [ none ↦ mp.encode_nil | some bs ↦ bs ])
      ++ elements_wire n (suc i) table

  unfoldable pub pairs_wire : List (Key × Bytes) → Bytes
  pairs_wire [] = []
  pairs_wire ((k, bs) ∷ rest) = key_wire k ++ (bs ++ pairs_wire rest)

  unfoldable mutual
    pub wire : Zval → Bytes
    wire null = mp.encode_nil
    wire (long n) = long_wire n
    wire (double d) = mp.encode_double d
    wire (bool b) = mp.encode_bool b
    wire (array c n bs) =
        if sent_as_map n bs
        then mp.encode_map (num_elements bs) ++ pairs_wire (bucket_wires bs)
        else mp.encode_array (num_elements bs)
          ++ elements_wire (num_elements bs) 0 (bucket_wires bs)
    wire (string s) = mp.encode_str s
    wire object = mp.encode_nil
    wire resource = mp.encode_nil

    pub bucket_wires : Buckets → List (Key × Bytes)
    bucket_wires end = []
    bucket_wires (bucket k v bs) =
        (k, if sent_as_nil v then mp.encode_nil else wire v) ∷ bucket_wires bs

  module _ ⦃al : Allocator⦄ (laws : IsAllocator al) (sizes : EncodesBySize mp) where
    pub pack_nil-Writes : Writes php_mp_pack_nil mp.encode_nil
    unfolding php_mp_pack_nil
    pack_nil-Writes = put-Writes laws _ _ sizes.length-nil

    pub pack_long-Writes : (n : ℤ) → IsLong n → Writes (php_mp_pack_long n) (long_wire n)
    unfolding php_mp_pack_long long_wire
    pack_long-Writes (pos n) h = put-Writes laws _ _ (sizes.length-uint n (omega arith))
    pack_long-Writes (negsuc n) h = put-Writes laws _ _ (sizes.length-int n h)

    pub pack_string-Writes :
        (s : Bytes) → length s < 2 ^ 31 → Writes (php_mp_pack_string s (length s)) (mp.encode_str s)
    unfolding php_mp_pack_string
    pack_string-Writes s h =
        let e : u32 (length s) ≡ length s = omega arith in
        rw (e, take-length s (length s) (omega arith))
          (put-Writes laws _ _ (sizes.length-str s (omega arith)))

    pub pack_hash-Writes : (n : ℕ) → n < 2 ^ 31 → Writes (php_mp_pack_hash n) (mp.encode_map n)
    unfolding php_mp_pack_hash
    pack_hash-Writes n h =
        let e : u32 n ≡ n = omega arith in
        rw e (put-Writes laws _ _ (sizes.length-map n (omega arith)))

    pub pack_array-Writes : (n : ℕ) → n < 2 ^ 31 → Writes (php_mp_pack_array n) (mp.encode_array n)
    unfolding php_mp_pack_array
    pack_array-Writes n h =
        let e : u32 n ≡ n = omega arith in
        rw e (put-Writes laws _ _ (sizes.length-array n (omega arith)))

    -- A table of actions and the table of what they append.
    abbrev Tables : List (Key × Action) → List (Key × Bytes) → Type 0
    Tables [] [] = Unit {0}
    Tables ((k, a) ∷ acts) ((j, b) ∷ bs) = (k ≡ j) × IsKey k × Writes a b × Tables acts bs
    Tables _ _ = ⊥

    pack_key-Writes : (k : Key) → IsKey k → Writes (pack_key k) (key_wire k)
    unfolding pack_key
    pack_key-Writes (index n) h = pack_long-Writes n h
    pack_key-Writes (name s) h = pack_string-Writes s h

    pack_pairs-Writes :
        (acts : List (Key × Action)) (bs : List (Key × Bytes))
        → Tables acts bs
        → Writes (pack_pairs acts) (pairs_wire bs)
    unfolding pack_pairs pairs_wire
    pack_pairs-Writes [] [] h = skip-Writes
    pack_pairs-Writes [] (b ∷ bs) h = elim h [ ]
    pack_pairs-Writes (a ∷ acts) [] h = elim h [ ]
    pack_pairs-Writes ((k, a) ∷ acts) ((j, b) ∷ bs) (e, hk, ha, h) =
        rw (← e) (>>-Writes (pack_key-Writes k hk) (>>-Writes ha (pack_pairs-Writes acts bs h)))

    pack_element-Writes :
        (i : ℕ) (acts : List (Key × Action)) (bs : List (Key × Bytes))
        → Tables acts bs
        → Writes
            (pack_element i acts)
            (elim (index_find i bs) [ none ↦ mp.encode_nil | some b ↦ b ])
    unfolding pack_element
    pack_element-Writes i [] [] h = pack_nil-Writes
    pack_element-Writes i [] (b ∷ bs) h = elim h [ ]
    pack_element-Writes i (a ∷ acts) [] h = elim h [ ]
    pack_element-Writes i ((k, a) ∷ acts) ((j, b) ∷ bs) (e, hk, ha, h) =
        rw (← e) (elim (Bool-cases (key_eq k (index (pos i)))) [
          | inl same ↦ rw (same, pack_element) ha
          | inr other ↦ rw (other, pack_element) (pack_element-Writes i acts bs h)
        ])

    pack_elements-Writes :
        (n i : ℕ) (acts : List (Key × Action)) (bs : List (Key × Bytes))
        → Tables acts bs
        → Writes (pack_elements n i acts) (elements_wire n i bs)
    unfolding pack_elements elements_wire
    pack_elements-Writes zero i acts bs h = skip-Writes
    pack_elements-Writes (suc n) i acts bs h =
        >>-Writes (pack_element-Writes i acts bs h) (pack_elements-Writes n (suc i) acts bs h)

    guarded :
        (busy : Bool) {a : Action} {b : Bytes}
        → Writes a b
        → Writes (if busy then php_mp_pack_nil else a) (if busy then mp.encode_nil else b)
    guarded true w = pack_nil-Writes
    guarded false w = w

    mutual
      unfolding php_mp_pack wire php_mp_pack_double php_mp_pack_bool php_mp_pack_array_recursively
          php_mp_pack_hash_recursively

      pack-Writes_lem : (v : Zval) → IsZval v → Writes (php_mp_pack v) (wire v)
      pack-Writes_lem null h = pack_nil-Writes
      pack-Writes_lem (long n) h = pack_long-Writes n h
      pack-Writes_lem (double d) h = put-Writes laws _ _ (sizes.length-double d)
      pack-Writes_lem (bool b) h = put-Writes laws _ _ (sizes.length-bool b)
      pack-Writes_lem (array c n bs) (few, h) = elim (Bool-cases (sent_as_map n bs)) [
        | inl hash ↦
            rw (php_mp_is_hash-sent_as_map n bs, hash)
              (>>-Writes (pack_hash-Writes (num_elements bs) few)
                (pack_pairs-Writes _ _ (Tables-bucket bs h)))
        | inr list ↦
            rw (php_mp_is_hash-sent_as_map n bs, list)
              (>>-Writes (pack_array-Writes (num_elements bs) few)
                (pack_elements-Writes (num_elements bs) 0 _ _ (Tables-bucket bs h)))
      ]
      pack-Writes_lem (string s) h = pack_string-Writes s h
      pack-Writes_lem object h = pack_nil-Writes
      pack-Writes_lem resource h = pack_nil-Writes

      Tables-bucket : (bs : Buckets) → AreSlots bs → Tables (bucket_actions bs) (bucket_wires bs)
      Tables-bucket end h = tt
      Tables-bucket (bucket k v bs) (hk, hv, h) = (
        refl,
        hk,
        rw (is_busy-sent_as_nil v) (guarded (sent_as_nil v) (pack-Writes_lem v hv)),
        Tables-bucket bs h,
      )

    -- On every value that PHP can hold and every buffer, php_mp_pack ends without a write outside
    -- the block, and leaves a buffer that holds the old contents and behind them the wire form.
    -- The allocator is one of IsAllocator and the encoders are EncodesBySize.
    pub php_mp_pack-wire :
        (v : Zval) (s : SmartString) → IsZval v → IsBuffer s → Appends s (wire v) (php_mp_pack v s)
    php_mp_pack-wire v s h = pack-Writes_lem v h s

    pub pack_package_size-Writes :
        (n : ℕ) → Writes (php_mp_pack_package_size n) (0xce ∷ be32 (u32 n))
    unfolding php_mp_pack_package_size
    pack_package_size-Writes n = put-Writes laws _ _ refl
