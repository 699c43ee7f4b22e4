-- ===== src/Msgpack/Unpack/RoundTrip.antt =====
-- What was packed is unpacked: php_mp_unpack on the wire form of a value.
use bee_php.Prelude.{
  ℕ, zero, suc, ◌<◌, ◌≡◌, ◌^◌, refl, ◌∙◌, ap, Bool, true, false, Bool-cases, inl, inr, none, some,
  List, [], ◌∷◌, ◌++◌, append_assoc, arith, if◌then◌else◌, pos, length, length-append, Bytes,
}
use bee_php.Engine.Zval.{
  Key, index, name, Zval, null, long, double, bool, array, string, object, resource, Buckets, end,
  bucket, IsKey, IsZval, AreSlots,
}
use bee_php.Engine.HashTable.{index_find, key_eq, num_elements, empty_array, add_next_index_zval}
use bee_php.Engine.Php.{Php}
use bee_php.Engine.Outcome.{ok}
use bee_php.Engine.MsgPuck.{MsgPuck, DecodesBack}
use bee_php.Msgpack.Pack.Forms.{sent_as_map, sent_as_nil}
use bee_php.Msgpack.Pack.Wire.{key_wire, elements_wire, pairs_wire, wire, bucket_wires}
use bee_php.Msgpack.Unpack.{
  unpack_elements, php_mp_unpack_array, add_pair, unpack_pairs, php_mp_unpack_map, unpack_as,
  unpack_on, php_mp_unpack,
}
use bee_php.Msgpack.Unpack.Image.{
  insert_key, insert_pairs, element, insert_elements, image, bucket_images,
}
use bee_php.Msgpack.Unpack.Scalars.{
  Reads, step, typeof_pos, Reads-nil, Reads-long, Reads-string, Reads-double, Reads-bool,
}

module _ ⦃mp : MsgPuck⦄ ⦃php : Php⦄ (laws : DecodesBack mp) where
  key_value : Key → Zval
  key_value (index h) = long h
  key_value (name s) = string s

  Reads-key : (f : ℕ) (k : Key) → IsKey k → Reads f (key_wire k) (key_value k)
  unfolding key_value
  Reads-key f (index n) h = Reads-long laws f n h
  Reads-key f (name s) h = Reads-string laws f s h

  add_pair-key : (k : Key) (v t : Zval) → add_pair (key_value k) v t ≡ ok (insert_key k v t)
  unfolding add_pair key_value
  add_pair-key (index h) v t = refl
  add_pair-key (name s) v t = refl

  -- The wire forms of a table's data, and what is read off them.
  abbrev Images : List (Key × Bytes) → List (Key × Zval) → Type 0
  Images [] [] = Unit {0}
  Images ((k, w) ∷ ws) ((j, v) ∷ vs) = (k ≡ j) × IsKey k × ((f : ℕ) → Reads f w v) × Images ws vs
  Images _ _ = ⊥

  Reads-element :
      (f i : ℕ) (ws : List (Key × Bytes)) (vs : List (Key × Zval))
      → Images ws vs
      → Reads f (elim (index_find i ws) [ none ↦ mp.encode_nil | some w ↦ w ]) (element i vs)
  Reads-element f i [] [] h = Reads-nil laws f
  Reads-element f i [] (v ∷ vs) h = elim h [ ]
  Reads-element f i (w ∷ ws) [] h = elim h [ ]
  Reads-element f i ((k, w) ∷ ws) ((j, v) ∷ vs) (e, hk, hw, h) =
      rw (← e) (elim (Bool-cases (key_eq k (index (pos i)))) [
        | inl same ↦ rw (same, element) (hw f)
        | inr other ↦ rw (other, element) (Reads-element f i ws vs h)
      ])

  unpack_elements-wire :
      (f n i : ℕ) (t : Zval) (ws : List (Key × Bytes)) (vs : List (Key × Zval)) (rest : Bytes)
      → Images ws vs
      → length (elements_wire n i ws ++ rest) < f
      → unpack_elements (unpack_on f) n t (elements_wire n i ws ++ rest)
        ≡ ok (0, insert_elements n i vs t, rest)
  unfolding unpack_elements elements_wire insert_elements
  unpack_elements-wire f zero i t ws vs rest h fuel = refl
  unpack_elements-wire f (suc n) i t ws vs rest h fuel =
      let w : Bytes = elim (index_find i ws) [ none ↦ mp.encode_nil | some w ↦ w ] in
      let e : (w ++ elements_wire n (suc i) ws) ++ rest
          ≡ w ++ (elements_wire n (suc i) ws ++ rest) =
        append_assoc w (elements_wire n (suc i) ws) rest in
      let fuel' : length (w ++ (elements_wire n (suc i) ws ++ rest)) < f = rw e at fuel in
      let (m, r) = Reads-element f i ws vs h (elements_wire n (suc i) ws ++ rest) fuel' in
      rw (e, r)
        (unpack_elements-wire f n (suc i) (add_next_index_zval (element i vs) t) ws vs rest h
          (omega (arith, fuel', length-append w (elements_wire n (suc i) ws ++ rest))))

  unpack_pairs-wire :
      (f : ℕ) (t : Zval) (ws : List (Key × Bytes)) (vs : List (Key × Zval)) (rest : Bytes)
      → Images ws vs
      → length (pairs_wire ws ++ rest) < f
      → unpack_pairs (unpack_on f) (length ws) t (pairs_wire ws ++ rest)
        ≡ ok (0, insert_pairs vs t, rest)
  unfolding unpack_pairs pairs_wire insert_pairs
  unpack_pairs-wire f t [] [] rest h fuel = refl
  unpack_pairs-wire f t [] (v ∷ vs) rest h fuel = elim h [ ]
  unpack_pairs-wire f t (w ∷ ws) [] rest h fuel = elim h [ ]
  unpack_pairs-wire f t ((k, w) ∷ ws) ((j, v) ∷ vs) rest (e, hk, hw, h) fuel =
      let tail : Bytes = pairs_wire ws in
      let split : (key_wire k ++ (w ++ tail)) ++ rest ≡ key_wire k ++ (w ++ (tail ++ rest)) =
        append_assoc (key_wire k) (w ++ tail) rest
        ∙ ap (λ b. key_wire k ++ b) (append_assoc w tail rest) in
      let fuel₁ : length (key_wire k ++ (w ++ (tail ++ rest))) < f = rw split at fuel in
      let fuel₂ : length (w ++ (tail ++ rest)) < f =
        omega (arith, fuel₁, length-append (key_wire k) (w ++ (tail ++ rest))) in
      let (m, r) = Reads-key f k hk (w ++ (tail ++ rest)) fuel₁ in
      let (m', r') = hw f (tail ++ rest) fuel₂ in
      rw (split, r, r', add_pair-key k v t)
        (rw (← e) (
          unpack_pairs-wire f (insert_key k v t) ws vs rest h
            (omega (arith, fuel₂, length-append w (tail ++ rest)))))

  guarded :
      (busy : Bool) (w : Bytes) (v : Zval)
      → ((f : ℕ) → Reads f w v)
      → (f : ℕ) → Reads f (if busy then mp.encode_nil else w) (if busy then null else v)
  guarded true w v r f = Reads-nil laws f
  guarded false w v r f = r f

  length-bucket_wires : (bs : Buckets) → length (bucket_wires bs) ≡ num_elements bs
  unfolding wire
  length-bucket_wires end = refl
  length-bucket_wires (bucket k v bs) = ap suc (length-bucket_wires bs)

  -- An array's header and the elements behind it.
  Reads-array :
      (f n : ℕ) (ws : List (Key × Bytes)) (vs : List (Key × Zval))
      → n < 2 ^ 31
      → Images ws vs
      → Reads f (mp.encode_array n ++ elements_wire n 0 ws) (insert_elements n 0 vs empty_array)
  unfolding unpack_as php_mp_unpack_array
  Reads-array zero n ws vs few h rest fuel = elim fuel [ ]
  Reads-array (suc f) n ws vs few h rest fuel =
      let small : n < 2 ^ 32 = omega arith in
      let split = append_assoc (mp.encode_array n) (elements_wire n 0 ws) rest in
      let behind : Bytes = elements_wire n 0 ws ++ rest in
      let fuel' : length (mp.encode_array n ++ behind) < suc f = rw split at fuel in
      let head : 0 < length (mp.encode_array n ++ []) =
        typeof_pos _ (laws.typeof-array n [] small) in
      let fuel₂ : length behind < f = omega (
        arith,
        fuel',
        head,
        length-append (mp.encode_array n) behind,
        length-append (mp.encode_array n) [],
      ) in
      (
        0,
        ap (unpack_on (suc f)) split
            ∙ step f _ (laws.typeof-array n behind small)
            ∙ rw (laws.decode-array n behind small)
                (unpack_elements-wire f n 0 empty_array ws vs rest h fuel₂),
      )

  Reads-map :
      (f n : ℕ) (ws : List (Key × Bytes)) (vs : List (Key × Zval))
      → length ws ≡ n
      → n < 2 ^ 31
      → Images ws vs
      → Reads f (mp.encode_map n ++ pairs_wire ws) (insert_pairs vs empty_array)
  unfolding unpack_as php_mp_unpack_map
  Reads-map zero n ws vs e few h rest fuel = elim fuel [ ]
  Reads-map (suc f) n ws vs e few h rest fuel =
      let small : n < 2 ^ 32 = omega arith in
      let split = append_assoc (mp.encode_map n) (pairs_wire ws) rest in
      let behind : Bytes = pairs_wire ws ++ rest in
      let fuel' : length (mp.encode_map n ++ behind) < suc f = rw split at fuel in
      let head : 0 < length (mp.encode_map n ++ []) = typeof_pos _ (laws.typeof-map n [] small) in
      let fuel₂ : length behind < f = omega (
        arith,
        fuel',
        head,
        length-append (mp.encode_map n) behind,
        length-append (mp.encode_map n) [],
      ) in
      (
        0,
        ap (unpack_on (suc f)) split
            ∙ step f _ (laws.typeof-map n behind small)
            ∙ rw (laws.decode-map n behind small)
                (rw (← e) (unpack_pairs-wire f empty_array ws vs rest h fuel₂)),
      )

  mutual
    unfolding wire image

    Reads-wire : (v : Zval) → IsZval v → (f : ℕ) → Reads f (wire v) (image v)
    Reads-wire null h f = Reads-nil laws f
    Reads-wire (long n) h f = Reads-long laws f n h
    Reads-wire (double d) h f = Reads-double laws f d h
    Reads-wire (bool b) h f = Reads-bool laws f b
    Reads-wire (array c n bs) (few, h) f = elim (Bool-cases (sent_as_map n bs)) [
      | inl hash ↦ rw hash (
          Reads-map f (num_elements bs) (bucket_wires bs) (bucket_images bs)
            (length-bucket_wires bs) few (bucket-Images bs h))
      | inr list ↦ rw list (
          Reads-array f (num_elements bs) (bucket_wires bs) (bucket_images bs) few
            (bucket-Images bs h))
    ]
    Reads-wire (string s) h f = Reads-string laws f s h
    Reads-wire object h f = Reads-nil laws f
    Reads-wire resource h f = Reads-nil laws f

    bucket-Images : (bs : Buckets) → AreSlots bs → Images (bucket_wires bs) (bucket_images bs)
    bucket-Images end h = tt
    bucket-Images (bucket k v bs) (hk, hv, h) =
        (refl, hk, guarded (sent_as_nil v) (wire v) (image v) (Reads-wire v hv), bucket-Images bs h)

  -- php_mp_unpack on the wire form of a value that PHP can hold, whatever follows, succeeds with
  -- the value's image, and leaves what follows.
  -- The decoders are DecodesBack.
  pub php_mp_unpack-wire :
      (v : Zval) (rest : Bytes)
      → IsZval v
      → (n : ℕ) × (php_mp_unpack (wire v ++ rest) ≡ ok (n, image v, rest))
  unfolding php_mp_unpack
  php_mp_unpack-wire v rest h = Reads-wire v h (suc (length (wire v ++ rest))) rest (omega arith)
