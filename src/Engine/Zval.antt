-- ===== src/Engine/Zval.antt =====
-- PHP values (zval): a tag with its payload. A double is its 64-bit pattern, a string its bytes.
-- An array is the fields nApplyCount and nNextFreeElement of its HashTable, and the buckets in
-- insertion order. Values are trees: an array that holds itself by reference is not described.
use bee_php.Prelude.{ℕ, ℤ, ◌<◌, ◌^◌, Bool, List, [], ◌∷◌, Bytes, IsLong, length}

-- A key of a bucket: a long, or the bytes of a string without the closing NUL.
pub data Key : Type 0 where
  index : ℤ → Key
  name : Bytes → Key

mutual
  pub data Zval : Type 0 where
    null : Zval
    long : ℤ → Zval
    double : ℕ → Zval
    bool : Bool → Zval
    array : (n_apply_count n_next_free_element : ℕ) → Buckets → Zval
    string : Bytes → Zval
    object : Zval
    resource : Zval

  pub data Buckets : Type 0 where
    end : Buckets
    bucket : Key → Zval → Buckets → Buckets

-- The tags of Z_TYPE.
pub data ZvalType : Type 0 where
  is_null is_long is_double is_bool is_array is_object is_string is_resource : ZvalType
  is_constant is_constant_array is_callable unknown : ZvalType

unfoldable pub z_type : Zval → ZvalType
z_type null = is_null
z_type (long n) = is_long
z_type (double d) = is_double
z_type (bool b) = is_bool
z_type (array c n bs) = is_array
z_type (string s) = is_string
z_type object = is_object
z_type resource = is_resource

-- The table as a list of key and data.
abbrev pub slots : Buckets → List (Key × Zval)
slots end = []
slots (bucket k v bs) = (k, v) ∷ slots bs

-- The values that PHP can hold: 64-bit longs and doubles, strings and tables sized by an int.
abbrev pub IsKey : Key → Type 0
IsKey (index h) = IsLong h
IsKey (name s) = length s < 2 ^ 31

abbrev mutual
  pub IsZval : Zval → Type 0
  IsZval (long n) = IsLong n
  IsZval (double d) = d < 2 ^ 64
  IsZval (array c n bs) = (length (slots bs) < 2 ^ 31) × AreSlots bs
  IsZval (string s) = length s < 2 ^ 31
  IsZval other = Unit {0}

  pub AreSlots : Buckets → Type 0
  AreSlots end = Unit {0}
  AreSlots (bucket k v bs) = IsKey k × IsZval v × AreSlots bs
