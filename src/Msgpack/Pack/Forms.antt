-- ===== src/Msgpack/Pack/Forms.antt =====
-- The two forms of a table on the wire.
use bee_php.Prelude.{zero, suc, ℕ, ◌≡◌, refl, Bool, true, false, not, ◌||◌, ◌==◌, arith}
use bee_php.Engine.Zval.{
  index, name, Zval, null, long, double, bool, array, string, object, resource, Buckets, end,
  bucket, slots,
}
use bee_php.Engine.HashTable.{num_elements}
use bee_php.Msgpack.Pack.{all_index, php_mp_is_hash, is_busy}

-- Is a name among the keys?
unfoldable pub has_name : Buckets → Bool
has_name end = false
has_name (bucket (index h) v bs) = has_name bs
has_name (bucket (name s) v bs) = true

-- A table is sent as a map if it has a name among its keys, or if the next free index is not the
-- number of its elements, and as a list of its first elements if not.
unfoldable pub sent_as_map : (next : ℕ) → Buckets → Bool
unfolding has_name
sent_as_map next bs = has_name bs || not (num_elements bs == next)

all_index-slots : (bs : Buckets) → all_index (slots bs) ≡ not (has_name bs)
unfolding all_index has_name
all_index-slots end = refl
all_index-slots (bucket (index h) v bs) = all_index-slots bs
all_index-slots (bucket (name s) v bs) = refl

pub php_mp_is_hash-sent_as_map :
    (next : ℕ) (bs : Buckets) → php_mp_is_hash next bs ≡ sent_as_map next bs
unfolding php_mp_is_hash sent_as_map
php_mp_is_hash-sent_as_map next bs = rw (all_index-slots bs) (ground arith)

-- A table that is visited twice already is sent as nil inside another.
abbrev pub sent_as_nil : Zval → Bool
sent_as_nil (array zero n bs) = false
sent_as_nil (array (suc zero) n bs) = false
sent_as_nil (array (suc (suc visits)) n bs) = true
sent_as_nil other = false

pub is_busy-sent_as_nil : (v : Zval) → is_busy v ≡ sent_as_nil v
is_busy-sent_as_nil (array zero n bs) = refl
is_busy-sent_as_nil (array (suc zero) n bs) = refl
is_busy-sent_as_nil (array (suc (suc visits)) n bs) = ground arith
is_busy-sent_as_nil null = refl
is_busy-sent_as_nil (long n) = refl
is_busy-sent_as_nil (double d) = refl
is_busy-sent_as_nil (bool b) = refl
is_busy-sent_as_nil (string s) = refl
is_busy-sent_as_nil object = refl
is_busy-sent_as_nil resource = refl
