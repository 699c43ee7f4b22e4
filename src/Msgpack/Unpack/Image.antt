-- ===== src/Msgpack/Unpack/Image.antt =====
-- What a packed value is unpacked to, as a function of the value alone.
use bee_php.Prelude.{ℕ, zero, suc, none, some, List, [], ◌∷◌, if◌then◌else◌}
use bee_php.Engine.Zval.{
  Key, index, name, Zval, null, long, double, bool, array, string, object, resource, Buckets, end,
  bucket,
}
use bee_php.Engine.HashTable.{
  index_find, num_elements, empty_array, add_index_zval, add_next_index_zval, add_assoc_zval,
}
use bee_php.Engine.Php.{Php}
use bee_php.Msgpack.Pack.Forms.{sent_as_map, sent_as_nil}

abbrev pub element : ℕ → List (Key × Zval) → Zval
element i table = elim (index_find i table) [ none ↦ null | some v ↦ v ]

module _ ⦃php : Php⦄ where
  abbrev pub insert_key : Key → Zval → Zval → Zval
  insert_key (index h) v t = add_index_zval h v t
  insert_key (name s) v t = add_assoc_zval php.numeric_key s v t

  unfoldable pub insert_pairs : List (Key × Zval) → Zval → Zval
  insert_pairs [] t = t
  insert_pairs ((k, v) ∷ rest) t = insert_pairs rest (insert_key k v t)

  unfoldable pub insert_elements : ℕ → ℕ → List (Key × Zval) → Zval → Zval
  insert_elements zero i table t = t
  insert_elements (suc n) i table t =
      insert_elements n (suc i) table (add_next_index_zval (element i table) t)

  -- The value that a packed value comes back as: objects and resources are null, a table that
  -- sent as a map is built up pair by pair, any other is a list of its first elements.
  unfoldable mutual
    pub image : Zval → Zval
    image (array c n bs) =
        if sent_as_map n bs
        then insert_pairs (bucket_images bs) empty_array
        else insert_elements (num_elements bs) 0 (bucket_images bs) empty_array
    image object = null
    image resource = null
    image null = null
    image (long n) = long n
    image (double d) = double d
    image (bool b) = bool b
    image (string s) = string s

    pub bucket_images : Buckets → List (Key × Zval)
    bucket_images end = []
    bucket_images (bucket k v bs) = (k, if sent_as_nil v then null else image v) ∷ bucket_images bs
