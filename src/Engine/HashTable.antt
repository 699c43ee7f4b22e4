-- ===== src/Engine/HashTable.antt =====
-- The calls of the Zend hash API that the extension makes, on the buckets of a table. A slot holds
-- a value of any type, so that a traversal may store a result beside each key.
use bee_php.Prelude.{
  ℕ, suc, Bool, false, Option, none, some, List, [], ◌∷◌, ltb, if◌then◌else◌, ℤ, pos, int_eq,
  length, Bytes, bytes_eq,
}
use bee_php.Engine.Zval.{Key, index, name, Zval, array, Buckets, end, bucket, slots}

abbrev pub key_eq : Key → Key → Bool
key_eq (index a) (index b) = int_eq a b
key_eq (name s) (name t) = bytes_eq s t
key_eq _ _ = false

module _ {ℓ} {A : Type ℓ} where
  abbrev pub find : Key → List (Key × A) → Option A
  find k [] = none
  find k ((j, a) ∷ rest) = if key_eq j k then some a else find k rest

-- zend_hash_index_find with an unsigned index, and zend_hash_find with a string's bytes.
abbrev pub index_find {ℓ} : {A : Type ℓ} → ℕ → List (Key × A) → Option A
index_find h = find (index (pos h))

abbrev pub name_find {ℓ} : {A : Type ℓ} → Bytes → List (Key × A) → Option A
name_find s = find (name s)

abbrev pub num_elements : Buckets → ℕ
num_elements bs = length (slots bs)

-- An insertion replaces the data under a present key, and else adds a bucket at the end.
unfoldable pub update : Key → Zval → Buckets → Buckets
update k v end = bucket k v end
update k v (bucket j w bs) = if key_eq j k then bucket j v bs else bucket j w (update k v bs)

-- nNextFreeElement goes past an index that is inserted.
abbrev pub next_free_after : Key → ℕ → ℕ
next_free_after (index (pos h)) n = if ltb h n then n else suc h
next_free_after _ n = n

unfoldable pub insert : Key → Zval → Zval → Zval
unfolding update
insert k v (array c n bs) = array c (next_free_after k n) (update k v bs)
insert k v other = other

abbrev pub empty_array : Zval
empty_array = array 0 0 end

-- array_init_size: the size is a hint. add_index_zval, add_next_index_zval, and add_assoc_zval_ex,
-- which takes a name that spells a long for that long: `numeric` is that reading of a name.
unfoldable pub add_index_zval : ℤ → Zval → Zval → Zval
unfolding insert
add_index_zval h v t = insert (index h) v t

unfoldable pub add_next_index_zval : Zval → Zval → Zval
unfolding insert
add_next_index_zval v (array c n bs) = insert (index (pos n)) v (array c n bs)
add_next_index_zval v other = other

unfoldable pub add_assoc_zval : (numeric : Bytes → Option ℤ) → Bytes → Zval → Zval → Zval
unfolding insert
add_assoc_zval numeric s v t = elim (numeric s) [
  | none ↦ insert (name s) v t
  | some h ↦ insert (index h) v t
]
