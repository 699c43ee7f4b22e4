-- ===== src/Msgpack/Sizeof.antt =====
-- The sizeof routines of src/bee_msgpack.c. Sums are of type size_t.
pub mod Exact
use bee_php.Prelude.{
  ℕ, zero, suc, ◌+◌, Bool, none, some, List, [], ◌∷◌, if◌then◌else◌, ℤ, pos, negsuc, length, u32,
  u64,
}
use bee_php.Engine.Zval.{
  Key, index, name, Zval, null, long, double, bool, array, string, object, resource, Buckets, end,
  bucket,
}
use bee_php.Engine.HashTable.{index_find, num_elements}
use bee_php.Engine.MsgPuck.{MsgPuck}
use bee_php.Msgpack.Pack.{php_mp_is_hash, is_busy}

module _ ⦃mp : MsgPuck⦄ where
  abbrev pub php_mp_sizeof_nil : ℕ
  php_mp_sizeof_nil = mp.sizeof_nil

  abbrev pub php_mp_sizeof_long_pos : ℕ → ℕ
  php_mp_sizeof_long_pos val = mp.sizeof_uint val

  abbrev pub php_mp_sizeof_long_neg : ℤ → ℕ
  php_mp_sizeof_long_neg val = mp.sizeof_int val

  unfoldable pub php_mp_sizeof_long : ℤ → ℕ
  php_mp_sizeof_long (pos n) = php_mp_sizeof_long_pos n
  php_mp_sizeof_long (negsuc n) = php_mp_sizeof_long_neg (negsuc n)

  abbrev pub php_mp_sizeof_double : ℕ
  php_mp_sizeof_double = mp.sizeof_double

  abbrev pub php_mp_sizeof_bool : ℕ
  php_mp_sizeof_bool = mp.sizeof_bool

  unfoldable pub php_mp_sizeof_string : ℕ → ℕ
  php_mp_sizeof_string len = mp.sizeof_str (u32 len)

  unfoldable pub php_mp_sizeof_hash : ℕ → ℕ
  php_mp_sizeof_hash len = mp.sizeof_map (u32 len)

  unfoldable pub php_mp_sizeof_array : ℕ → ℕ
  php_mp_sizeof_array len = mp.sizeof_array (u32 len)

  -- The table holds beside each key the size of its data; `needed` is the sum so far.
  sizeof_element : ℕ → List (Key × ℕ) → ℕ
  sizeof_element key_index table = elim (index_find key_index table) [
    | none ↦ php_mp_sizeof_nil
    | some size ↦ size
  ]

  sizeof_elements : ℕ → ℕ → List (Key × ℕ) → ℕ → ℕ
  sizeof_elements zero key_index table needed = needed
  sizeof_elements (suc n) key_index table needed =
      sizeof_elements n (suc key_index) table (u64 (needed + sizeof_element key_index table))

  unfoldable pub php_mp_sizeof_array_recursively : ℕ → List (Key × ℕ) → ℕ
  unfolding sizeof_element sizeof_elements
  php_mp_sizeof_array_recursively n table = sizeof_elements n 0 table (php_mp_sizeof_array n)

  sizeof_key : Key → ℕ
  sizeof_key (index h) = php_mp_sizeof_long h
  sizeof_key (name s) = php_mp_sizeof_string (length s)

  sizeof_pairs : List (Key × ℕ) → ℕ → ℕ
  sizeof_pairs [] needed = needed
  sizeof_pairs ((k, size) ∷ rest) needed =
      sizeof_pairs rest (u64 (u64 (needed + sizeof_key k) + size))

  unfoldable pub php_mp_sizeof_hash_recursively : ℕ → List (Key × ℕ) → ℕ
  unfolding sizeof_key sizeof_pairs
  php_mp_sizeof_hash_recursively n table = sizeof_pairs table (php_mp_sizeof_hash n)

  unfoldable mutual
    pub php_mp_sizeof : Zval → ℕ
    php_mp_sizeof null = php_mp_sizeof_nil
    php_mp_sizeof (long n) = php_mp_sizeof_long n
    php_mp_sizeof (double d) = php_mp_sizeof_double
    php_mp_sizeof (bool b) = php_mp_sizeof_bool
    php_mp_sizeof (array c n bs) =
        if php_mp_is_hash n bs
        then php_mp_sizeof_hash_recursively (num_elements bs) (bucket_sizes bs)
        else php_mp_sizeof_array_recursively (num_elements bs) (bucket_sizes bs)
    php_mp_sizeof (string s) = php_mp_sizeof_string (length s)
    php_mp_sizeof object = php_mp_sizeof_nil
    php_mp_sizeof resource = php_mp_sizeof_nil

    pub bucket_sizes : Buckets → List (Key × ℕ)
    bucket_sizes end = []
    bucket_sizes (bucket k v bs) =
        (k, if is_busy v then php_mp_sizeof_nil else php_mp_sizeof v) ∷ bucket_sizes bs
