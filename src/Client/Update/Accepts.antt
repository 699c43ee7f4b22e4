-- ===== src/Client/Update/Accepts.antt =====
-- Which operations bee_update_verify_op accepts, and what it makes of them.
use bee_php.Prelude.{
  ℕ, suc, ◌≡◌, refl, true, false, some, List, [], ◌∷◌, arith, ◌==◌, ℤ, pos, length, Bytes, codes,
}
use bee_php.Engine.Zval.{
  index, Zval, null, long, double, bool, array, string, object, resource, Buckets, end, bucket,
  slots,
}
use bee_php.Engine.HashTable.{name_find, update, insert, add_next_index_zval, empty_array}
use bee_php.Engine.Outcome.{ok}
use bee_php.Msgpack.Pack.Forms.{sent_as_map, php_mp_is_hash-sent_as_map}
use bee_php.Client.Update.{
  Table, as_char, as_long, as_string, as_serializable, push, verify_splice, verify_arithmetic,
  is_arithmetic, verify_assignment, is_assignment, verify_kind, verify_fields, bee_update_verify_op,
}

-- A PHP list: the keys count up from 0.
unfoldable pub list_from : ℕ → List Zval → Buckets
list_from i [] = end
list_from i (v ∷ vs) = bucket (index (pos i)) v (list_from (suc i) vs)

unfoldable pub php_list : List Zval → Zval
unfolding list_from
php_list vs = array 0 (length vs) (list_from 0 vs)

abbrev pub Has : Table → Bytes → Zval → Type 0
Has ht key v = name_find key ht ≡ some v

-- The signs of the operations with a number.
pub data IsSign : ℕ → Type 0 where
  plus : IsSign b'+'
  minus : IsSign b'-'
  bit_and : IsSign b'&'
  bit_or : IsSign b'|'
  bit_xor : IsSign b'^'
  delete : IsSign b'#'

-- The signs of the operations with a value.
pub data IsSetter : ℕ → Type 0 where
  assign : IsSetter b'='
  insert_field : IsSetter b'!'

-- What has a form on the wire of its own.
abbrev pub IsData : Zval → Type 0
IsData object = ⊥
IsData resource = ⊥
IsData other = Unit {0}

-- The fields of an operation, and the tuple that the server is sent for it.
pub data IsKind (op : ℕ) (field : ℤ) (ht : Table) : Zval → Type 0 where
  splice :
      {offset len : ℤ} {list : Bytes} {arr : Zval}
      → op ≡ b':'
      → length ht ≡ 5
      → Has ht (codes "offset") (long offset)
      → Has ht (codes "length") (long len)
      → Has ht (codes "list") (string list)
      → arr ≡ php_list (string (op ∷ []) ∷ long field ∷ long offset ∷ long len ∷ string list ∷ [])
      → IsKind op field ht arr
  arithmetic :
      {arg : ℤ} {arr : Zval}
      → IsSign op
      → length ht ≡ 3
      → Has ht (codes "arg") (long arg)
      → arr ≡ php_list (string (op ∷ []) ∷ long field ∷ long arg ∷ [])
      → IsKind op field ht arr
  assignment :
      {arg arr : Zval}
      → IsSetter op
      → length ht ≡ 3
      → Has ht (codes "arg") arg
      → IsData arg
      → arr ≡ php_list (string (op ∷ []) ∷ long field ∷ arg ∷ [])
      → IsKind op field ht arr

pub data IsUpdate : Zval → Zval → Type 0 where
  is_update :
      {c n op : ℕ} {bs : Buckets} {field : ℤ} {arr : Zval}
      → sent_as_map n bs ≡ true
      → Has (slots bs) (codes "op") (string (op ∷ []))
      → Has (slots bs) (codes "field") (long field)
      → IsKind op field (slots bs) arr
      → IsUpdate (array c n bs) arr

-- Values pushed one after another.
pub push_three : (x y z : Zval) → push (push (push empty_array x) y) z ≡ php_list (x ∷ y ∷ z ∷ [])
unfolding php_list list_from add_next_index_zval insert update
push_three x y z = refl

pub push_five :
    (x y z u v : Zval)
    → push (push (push (push (push empty_array x) y) z) u) v ≡ php_list (x ∷ y ∷ z ∷ u ∷ v ∷ [])
unfolding php_list list_from add_next_index_zval insert update
push_five x y z u v = refl

verify_splice_lem :
    (op : ℕ) (field : ℤ) (ht : Table) (position : ℕ) (offset len : ℤ) (list : Bytes)
    → length ht ≡ 5
    → Has ht (codes "offset") (long offset)
    → Has ht (codes "length") (long len)
    → Has ht (codes "list") (string list)
    → verify_splice op field ht position
      ≡ ok (php_list (string (op ∷ []) ∷ long field ∷ long offset ∷ long len ∷ string list ∷ []))
unfolding verify_splice as_long as_string
verify_splice_lem op field ht position offset len list count o l li =
    rw (count, o, l, li, push_five)

verify_arithmetic_lem :
    (op : ℕ) (field : ℤ) (ht : Table) (position : ℕ) (arg : ℤ)
    → length ht ≡ 3
    → Has ht (codes "arg") (long arg)
    → verify_arithmetic op field ht position
      ≡ ok (php_list (string (op ∷ []) ∷ long field ∷ long arg ∷ []))
unfolding verify_arithmetic as_long
verify_arithmetic_lem op field ht position arg count a = rw (count, a, push_three)

verify_assignment_lem :
    (op : ℕ) (field : ℤ) (ht : Table) (position : ℕ) (arg : Zval)
    → length ht ≡ 3
    → Has ht (codes "arg") arg
    → as_serializable (some arg) ≡ some arg
    → verify_assignment op field ht position
      ≡ ok (php_list (string (op ∷ []) ∷ long field ∷ arg ∷ []))
unfolding verify_assignment
verify_assignment_lem op field ht position arg count a ser = rw (count, a, ser, push_three)

assignment_apart : (op : ℕ) → is_assignment op ≡ true → is_arithmetic op ≡ false
assignment_apart op h = ground arith

arithmetic_apart : (op : ℕ) → is_arithmetic op ≡ true → (op == b':') ≡ false
arithmetic_apart op h = ground arith

assignment_apart_splice : (op : ℕ) → is_assignment op ≡ true → (op == b':') ≡ false
assignment_apart_splice op h = ground arith

IsSign-is_arithmetic : (op : ℕ) → IsSign op → is_arithmetic op ≡ true
IsSign-is_arithmetic op plus = refl
IsSign-is_arithmetic op minus = refl
IsSign-is_arithmetic op bit_and = refl
IsSign-is_arithmetic op bit_or = refl
IsSign-is_arithmetic op bit_xor = refl
IsSign-is_arithmetic op delete = refl

IsSetter-is_assignment : (op : ℕ) → IsSetter op → is_assignment op ≡ true
IsSetter-is_assignment op assign = refl
IsSetter-is_assignment op insert_field = refl

IsData-as_serializable : (v : Zval) → IsData v → as_serializable (some v) ≡ some v
unfolding as_serializable
IsData-as_serializable object h = elim h [ ]
IsData-as_serializable resource h = elim h [ ]
IsData-as_serializable null h = refl
IsData-as_serializable (long n) h = refl
IsData-as_serializable (double d) h = refl
IsData-as_serializable (bool b) h = refl
IsData-as_serializable (array c n bs) h = refl
IsData-as_serializable (string s) h = refl

verify_kind_lem :
    (op : ℕ) (field : ℤ) (ht : Table) (position : ℕ) (arr : Zval)
    → IsKind op field ht arr
    → verify_kind op field ht position ≡ ok arr
unfolding verify_kind
verify_kind_lem op field ht position arr
      (splice {offset = o} {len = l} {list = s} is_op count ho hl hs shape) =
    rw (shape, is_op, verify_splice_lem b':' field ht position o l s count ho hl hs)
verify_kind_lem op field ht position arr (arithmetic {arg = a} sign count ha shape) =
    let is_op = IsSign-is_arithmetic op sign in
    rw (
      arithmetic_apart op is_op,
      is_op,
      shape,
      verify_arithmetic_lem op field ht position a count ha,
    )
verify_kind_lem op field ht position arr (assignment {arg = a} setter count ha packable shape) =
    let is_op = IsSetter-is_assignment op setter in
    let ser = IsData-as_serializable a packable in
    rw (
      assignment_apart_splice op is_op,
      assignment_apart op is_op,
      is_op,
      shape,
      verify_assignment_lem op field ht position a count ha ser,
    )

-- bee_update_verify_op turns an operation of a known kind, whose fields are all there and of their
-- types, into the tuple that the server is sent, whatever its position.
pub bee_update_verify_op_lem :
    (op arr : Zval) (position : ℕ) → IsUpdate op arr → bee_update_verify_op op position ≡ ok arr
unfolding bee_update_verify_op verify_fields as_char as_long
bee_update_verify_op_lem op arr position
      (is_update {n = n} {op = o} {bs = bs} {field = f} hash ho hf kind) =
    rw (
      php_mp_is_hash-sent_as_map n bs,
      hash,
      ho,
      hf,
      verify_kind_lem o f (slots bs) position arr kind,
    )
