-- ===== src/Msgpack/Pack.antt =====
-- The packing routines of src/bee_msgpack.c.
pub mod Forms
pub mod Wire
use bee_php.Prelude.{
  ℕ, zero, suc, ◌^◌, ◌%◌, Bool, true, false, not, ◌&&◌, ◌||◌, none, some, List, [], ◌∷◌, ltb, ◌==◌,
  if◌then◌else◌, ℤ, pos, negsuc, length, take, Bytes, u32, be32,
}
use bee_php.Engine.Zval.{
  Key, index, name, Zval, null, long, double, bool, array, string, object, resource, Buckets, end,
  bucket, slots,
}
use bee_php.Engine.HashTable.{index_find, num_elements}
use bee_php.Engine.SmartString.{Allocator}
use bee_php.Engine.MsgPuck.{MsgPuck}
use bee_php.Msgpack.Buffer.{Action, ◌>>◌, skip, put}

-- Is the table no list? The walk goes over all `count` buckets.
all_index {ℓ} : {A : Type ℓ} → List (Key × A) → Bool
all_index [] = true
all_index ((index h, a) ∷ rest) = all_index rest
all_index ((name s, a) ∷ rest) = false

unfoldable pub php_mp_is_hash : ℕ → Buckets → Bool
unfolding all_index
php_mp_is_hash n_next_free_element bs =
    if not (num_elements bs == n_next_free_element) then true else not (all_index (slots bs))

-- Z_TYPE_PP(data) == IS_ARRAY && Z_ARRVAL_PP(data)->nApplyCount > 1
abbrev pub is_busy : Zval → Bool
is_busy (array n_apply_count n bs) = ltb 1 n_apply_count
is_busy other = false

module _ ⦃mp : MsgPuck⦄ ⦃al : Allocator⦄ where
  unfoldable pub php_mp_pack_nil : Action
  php_mp_pack_nil = put mp.sizeof_nil mp.encode_nil

  unfoldable pub php_mp_pack_long_pos : ℕ → Action
  php_mp_pack_long_pos val = put (mp.sizeof_uint val) (mp.encode_uint val)

  unfoldable pub php_mp_pack_long_neg : ℤ → Action
  php_mp_pack_long_neg val = put (mp.sizeof_int val) (mp.encode_int val)

  unfoldable pub php_mp_pack_long : ℤ → Action
  unfolding php_mp_pack_long_pos php_mp_pack_long_neg
  php_mp_pack_long (pos n) = php_mp_pack_long_pos n
  php_mp_pack_long (negsuc n) = php_mp_pack_long_neg (negsuc n)

  unfoldable pub php_mp_pack_double : ℕ → Action
  php_mp_pack_double val = put mp.sizeof_double (mp.encode_double val)

  unfoldable pub php_mp_pack_bool : Bool → Action
  php_mp_pack_bool val = put mp.sizeof_bool (mp.encode_bool val)

  -- msgpuck takes the length as a uint32_t.
  unfoldable pub php_mp_pack_string : Bytes → ℕ → Action
  php_mp_pack_string c len = put (mp.sizeof_str (u32 len)) (mp.encode_str (take (u32 len) c))

  unfoldable pub php_mp_pack_hash : ℕ → Action
  php_mp_pack_hash len = put (mp.sizeof_map (u32 len)) (mp.encode_map (u32 len))

  unfoldable pub php_mp_pack_array : ℕ → Action
  php_mp_pack_array len = put (mp.sizeof_array (u32 len)) (mp.encode_array (u32 len))

  -- A table of actions holds beside each key the packing of its data. The loop of
  -- php_mp_pack_array_recursively has `n` rounds left and is at `key_index`.
  pack_element : ℕ → List (Key × Action) → Action
  pack_element key_index table = elim (index_find key_index table) [
    | none ↦ php_mp_pack_nil
    | some pack_data ↦ pack_data
  ]

  pack_elements : ℕ → ℕ → List (Key × Action) → Action
  pack_elements zero key_index table = skip
  pack_elements (suc n) key_index table =
      pack_element key_index table >> pack_elements n (suc key_index) table

  unfoldable pub php_mp_pack_array_recursively : ℕ → List (Key × Action) → Action
  unfolding pack_element pack_elements
  php_mp_pack_array_recursively n table = php_mp_pack_array n >> pack_elements n 0 table

  pack_key : Key → Action
  pack_key (index h) = php_mp_pack_long h
  pack_key (name s) = php_mp_pack_string s (length s)

  pack_pairs : List (Key × Action) → Action
  pack_pairs [] = skip
  pack_pairs ((k, pack_data) ∷ rest) = pack_key k >> pack_data >> pack_pairs rest

  unfoldable pub php_mp_pack_hash_recursively : ℕ → List (Key × Action) → Action
  unfolding pack_key pack_pairs
  php_mp_pack_hash_recursively n table = php_mp_pack_hash n >> pack_pairs table

  -- nApplyCount is raised only around the call, which does not look at it: a value is a tree.
  unfoldable mutual
    pub php_mp_pack : Zval → Action
    php_mp_pack null = php_mp_pack_nil
    php_mp_pack (long n) = php_mp_pack_long n
    php_mp_pack (double d) = php_mp_pack_double d
    php_mp_pack (bool b) = php_mp_pack_bool b
    php_mp_pack (array c n bs) =
        if php_mp_is_hash n bs
        then php_mp_pack_hash_recursively (num_elements bs) (bucket_actions bs)
        else php_mp_pack_array_recursively (num_elements bs) (bucket_actions bs)
    php_mp_pack (string s) = php_mp_pack_string s (length s)
    php_mp_pack object = php_mp_pack_nil
    php_mp_pack resource = php_mp_pack_nil

    pub bucket_actions : Buckets → List (Key × Action)
    bucket_actions end = []
    bucket_actions (bucket k v bs) =
        (k, if is_busy v then php_mp_pack_nil else php_mp_pack v) ∷ bucket_actions bs

  -- The five bytes of a packet's size: 0xce, then mp_bswap_u32 on a little-endian machine.
  unfoldable pub php_mp_pack_package_size : ℕ → Action
  php_mp_pack_package_size val = put 5 (0xce ∷ be32 (u32 val))
