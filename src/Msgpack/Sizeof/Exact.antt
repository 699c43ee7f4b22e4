-- ===== src/Msgpack/Sizeof/Exact.antt =====
-- The sizeof routines announce what the packing routines append.
use bee_php.Prelude.{
  ℕ, zero, suc, ◌+◌, ◌<◌, ◌≡◌, ◌^◌, refl, sym, ap, Bool, true, false, Bool-cases, inl, inr, none,
  some, List, [], ◌∷◌, ◌++◌, arith, if◌then◌else◌, ℤ, pos, negsuc, IsLong, length, length-append,
  Bytes, u32, u64,
}
use bee_php.Engine.Zval.{
  Key, index, name, Zval, null, long, double, bool, array, string, object, resource, Buckets, end,
  bucket, IsKey, IsZval, AreSlots,
}
use bee_php.Engine.HashTable.{index_find, key_eq, num_elements}
use bee_php.Engine.MsgPuck.{MsgPuck, EncodesBySize}
use bee_php.Msgpack.Pack.Forms.{
  sent_as_map, php_mp_is_hash-sent_as_map, sent_as_nil, is_busy-sent_as_nil,
}
use bee_php.Msgpack.Pack.Wire.{long_wire, key_wire, elements_wire, pairs_wire, wire, bucket_wires}
use bee_php.Msgpack.Sizeof.{
  php_mp_sizeof_nil, php_mp_sizeof_long, php_mp_sizeof_string, php_mp_sizeof_hash,
  php_mp_sizeof_array, sizeof_element, sizeof_elements, php_mp_sizeof_array_recursively, sizeof_key,
  sizeof_pairs, php_mp_sizeof_hash_recursively, php_mp_sizeof, bucket_sizes,
}

module _ ⦃mp : MsgPuck⦄ (sizes : EncodesBySize mp) where
  pub sizeof_long-length : (n : ℤ) → IsLong n → length (long_wire n) ≡ php_mp_sizeof_long n
  unfolding php_mp_sizeof_long long_wire
  sizeof_long-length (pos n) h = sizes.length-uint n (omega arith)
  sizeof_long-length (negsuc n) h = sizes.length-int n h

  pub sizeof_string-length :
      (s : Bytes) → length s < 2 ^ 31 → length (mp.encode_str s) ≡ php_mp_sizeof_string (length s)
  unfolding php_mp_sizeof_string
  sizeof_string-length s h =
      let e : u32 (length s) ≡ length s = omega arith in
      rw (e, php_mp_sizeof_string) (sizes.length-str s (omega arith))

  pub sizeof_hash-length : (n : ℕ) → n < 2 ^ 31 → length (mp.encode_map n) ≡ php_mp_sizeof_hash n
  unfolding php_mp_sizeof_hash
  sizeof_hash-length n h =
      let e : u32 n ≡ n = omega arith in
      rw (e, php_mp_sizeof_hash) (sizes.length-map n (omega arith))

  pub sizeof_array-length :
      (n : ℕ) → n < 2 ^ 31 → length (mp.encode_array n) ≡ php_mp_sizeof_array n
  unfolding php_mp_sizeof_array
  sizeof_array-length n h =
      let e : u32 n ≡ n = omega arith in
      rw (e, php_mp_sizeof_array) (sizes.length-array n (omega arith))

  -- A table of sizes, modulo 2 ^ 64, and the table of what is measured.
  abbrev Measured : List (Key × ℕ) → List (Key × Bytes) → Type 0
  Measured [] [] = Unit {0}
  Measured ((k, n) ∷ ns) ((j, b) ∷ bs) =
      (k ≡ j) × IsKey k × (u64 n ≡ u64 (length b)) × Measured ns bs
  Measured _ _ = ⊥

  sizeof_key-length : (k : Key) → IsKey k → length (key_wire k) ≡ sizeof_key k
  unfolding sizeof_key
  sizeof_key-length (index n) h = sizeof_long-length n h
  sizeof_key-length (name s) h = sizeof_string-length s h

  sizeof_pairs-length :
      (ns : List (Key × ℕ)) (bs : List (Key × Bytes)) (needed : ℕ)
      → Measured ns bs
      → u64 (sizeof_pairs ns needed) ≡ u64 (needed + length (pairs_wire bs))
  unfolding sizeof_pairs pairs_wire
  sizeof_pairs-length [] [] needed h = omega arith
  sizeof_pairs-length [] (b ∷ bs) needed h = elim h [ ]
  sizeof_pairs-length (n ∷ ns) [] needed h = elim h [ ]
  sizeof_pairs-length ((k, n) ∷ ns) ((j, b) ∷ bs) needed (e, hk, hn, h) = rw (← e) (
      omega (
        arith,
        hn,
        sizeof_key-length k hk,
        length-append (key_wire k) (b ++ pairs_wire bs),
        length-append b (pairs_wire bs),
        sizeof_pairs-length ns bs (u64 (u64 (needed + sizeof_key k) + n)) h,
      ))

  sizeof_element-length :
      (i : ℕ) (ns : List (Key × ℕ)) (bs : List (Key × Bytes))
      → Measured ns bs
      → u64 (sizeof_element i ns)
        ≡ u64 (length (elim (index_find i bs) [ none ↦ mp.encode_nil | some b ↦ b ]))
  unfolding sizeof_element
  sizeof_element-length i [] [] h = ap u64 (sym sizes.length-nil)
  sizeof_element-length i [] (b ∷ bs) h = elim h [ ]
  sizeof_element-length i (n ∷ ns) [] h = elim h [ ]
  sizeof_element-length i ((k, n) ∷ ns) ((j, b) ∷ bs) (e, hk, hn, h) =
      rw (← e) (elim (Bool-cases (key_eq k (index (pos i)))) [
        | inl same ↦ rw (same, sizeof_element) hn
        | inr other ↦ rw (other, sizeof_element) (sizeof_element-length i ns bs h)
      ])

  sizeof_elements-length :
      (n i : ℕ) (ns : List (Key × ℕ)) (bs : List (Key × Bytes)) (needed : ℕ)
      → Measured ns bs
      → u64 (sizeof_elements n i ns needed) ≡ u64 (needed + length (elements_wire n i bs))
  unfolding sizeof_elements elements_wire
  sizeof_elements-length zero i ns bs needed h = omega arith
  sizeof_elements-length (suc n) i ns bs needed h = omega (
    arith,
    sizeof_element-length i ns bs h,
    length-append (elim (index_find i bs) [ none ↦ mp.encode_nil | some b ↦ b ])
        (elements_wire n (suc i) bs),
    sizeof_elements-length n (suc i) ns bs (u64 (needed + sizeof_element i ns)) h,
  )

  guarded :
      (busy : Bool) (n : ℕ) (b : Bytes)
      → u64 n ≡ u64 (length b)
      → u64 (if busy then php_mp_sizeof_nil else n)
        ≡ u64 (length (if busy then mp.encode_nil else b))
  guarded true n b e = ap u64 (sym sizes.length-nil)
  guarded false n b e = e

  mutual
    unfolding php_mp_sizeof wire php_mp_sizeof_array_recursively php_mp_sizeof_hash_recursively

    sizeof-length : (v : Zval) → IsZval v → u64 (php_mp_sizeof v) ≡ u64 (length (wire v))
    sizeof-length null h = ap u64 (sym sizes.length-nil)
    sizeof-length (long n) h = ap u64 (sym (sizeof_long-length n h))
    sizeof-length (double d) h = ap u64 (sym (sizes.length-double d))
    sizeof-length (bool b) h = ap u64 (sym (sizes.length-bool b))
    sizeof-length (array c n bs) (few, h) = elim (Bool-cases (sent_as_map n bs)) [
      | inl hash ↦
          rw (php_mp_is_hash-sent_as_map n bs, hash)
            (omega (
              arith,
              length-append (mp.encode_map (num_elements bs)) (pairs_wire (bucket_wires bs)),
              sizeof_hash-length (num_elements bs) few,
              sizeof_pairs-length _ _ (php_mp_sizeof_hash (num_elements bs)) (bucket-Measured bs h),
            ))
      | inr list ↦
          rw (php_mp_is_hash-sent_as_map n bs, list)
            (omega (
              arith,
              length-append (mp.encode_array (num_elements bs))
                  (elements_wire (num_elements bs) 0 (bucket_wires bs)),
              sizeof_array-length (num_elements bs) few,
              sizeof_elements-length (num_elements bs) 0 _ _ (php_mp_sizeof_array (num_elements bs))
                  (bucket-Measured bs h),
            ))
    ]
    sizeof-length (string s) h = ap u64 (sym (sizeof_string-length s h))
    sizeof-length object h = ap u64 (sym sizes.length-nil)
    sizeof-length resource h = ap u64 (sym sizes.length-nil)

    bucket-Measured : (bs : Buckets) → AreSlots bs → Measured (bucket_sizes bs) (bucket_wires bs)
    bucket-Measured end h = tt
    bucket-Measured (bucket k v bs) (hk, hv, h) = (
      refl,
      hk,
      rw (is_busy-sent_as_nil v) (guarded (sent_as_nil v) _ _ (sizeof-length v hv)),
      bucket-Measured bs h,
    )

  -- On every value that PHP can hold, php_mp_sizeof is the number of bytes that php_mp_pack
  -- appends, as far as a size_t can say.
  -- The encoders are EncodesBySize.
  pub php_mp_sizeof-length : (v : Zval) → IsZval v → u64 (php_mp_sizeof v) ≡ u64 (length (wire v))
  php_mp_sizeof-length v h = sizeof-length v h
