-- ===== src/Client/Update/Rejects.antt =====
-- bee_update_verify_op accepts nothing but the operations of IsUpdate.
use bee_php.Prelude.{
  ℕ, ◌≡◌, refl, sym, ◌∙◌, Bool, inl, inr, true, false, Option, none, some, [], ◌∷◌, arith, ◌==◌,
  ◌||◌, if◌then◌else◌, ◌⊎◌, ==_iff, ℤ, length, Bytes, codes,
}
use bee_php.Engine.Zval.{Zval, null, long, double, bool, array, string, object, resource, slots}
use bee_php.Engine.HashTable.{name_find}
use bee_php.Engine.Outcome.{
  Exception, Outcome, ok, ◌>>=◌, throw, five_fields_needed, offset_missing, length_missing,
  list_missing, three_fields_needed, arg_must_be_long, arg_must_be_serializable, op_field_missing,
  position_field_missing, unknown_operation, op_must_be_map,
}
use bee_php.Msgpack.Pack.{php_mp_is_hash}
use bee_php.Msgpack.Pack.Forms.{php_mp_is_hash-sent_as_map}
use mathlib.Core.Path.{subst}
use bee_php.Client.Update.{
  Table, as_char, as_long, as_string, as_serializable, require, guard, verify_splice,
  verify_arithmetic, is_arithmetic, verify_assignment, is_assignment, verify_kind, verify_fields,
  bee_update_verify_op,
}
use bee_php.Client.Update.Accepts.{
  IsSign, plus, minus, bit_and, bit_or, bit_xor, delete, IsSetter, assign, insert_field, IsData,
  IsKind, splice, arithmetic, assignment, IsUpdate, is_update, push_three, push_five,
}

one_field {ℓ} :
    {A : Type ℓ} (e e1 : Exception) (b : Bool) (o : Option A) (k : A → Zval) (r : Zval)
    → (guard b e >>= λ _. require e1 o >>= λ x. ok (k x)) ≡ ok r
    → (x : A) × (b ≡ true) × (o ≡ some x) × (k x ≡ r)
one_field e e1 false o k r h = cc
one_field e e1 true none k r h = cc
one_field e e1 true (some x) k r h = (x, refl, refl, cc)

three_fields :
    (e e1 e2 e3 : Exception) (b : Bool) (o l : Option ℤ) (s : Option Bytes)
    (k : ℤ → ℤ → Bytes → Zval) (r : Zval)
    → (guard b e >>= λ _.
        require e1 o >>= λ x. require e2 l >>= λ y. require e3 s >>= λ z. ok (k x y z))
      ≡ ok r
    → (x : ℤ) × (y : ℤ) × (z : Bytes) × (b ≡ true)
      × (o ≡ some x)
      × (l ≡ some y)
      × (s ≡ some z)
      × (k x y z ≡ r)
three_fields e e1 e2 e3 false o l s k r h = cc
three_fields e e1 e2 e3 true none l s k r h = cc
three_fields e e1 e2 e3 true (some x) none s k r h = cc
three_fields e e1 e2 e3 true (some x) (some y) none k r h = cc
three_fields e e1 e2 e3 true (some x) (some y) (some z) k r h =
    (x, y, z, refl, refl, refl, refl, cc)

two_fields :
    (e1 e2 : Exception) (o : Option ℕ) (l : Option ℤ) (k : ℕ → ℤ → Outcome Zval) (r : Zval)
    → (require e1 o >>= λ x. require e2 l >>= λ y. k x y) ≡ ok r
    → (x : ℕ) × (y : ℤ) × (o ≡ some x) × (l ≡ some y) × (k x y ≡ ok r)
two_fields e1 e2 none l k r h = cc
two_fields e1 e2 (some x) none k r h = cc
two_fields e1 e2 (some x) (some y) k r h = (x, y, refl, refl, h)

from_some {ℓ} : {A : Type ℓ} {a b : A} → some a ≡ some b → a ≡ b
from_some h = cc

as_char-eq_some : (o : Option Zval) (c : ℕ) → as_char o ≡ some c → o ≡ some (string (c ∷ []))
unfolding as_char
as_char-eq_some o c h = ground arith

as_long-eq_some : (o : Option Zval) (n : ℤ) → as_long o ≡ some n → o ≡ some (long n)
unfolding as_long
as_long-eq_some o n h = ground arith

as_string-eq_some : (o : Option Zval) (s : Bytes) → as_string o ≡ some s → o ≡ some (string s)
unfolding as_string
as_string-eq_some o s h = ground arith

as_serializable-eq_some :
    (o : Option Zval) (v : Zval) → as_serializable o ≡ some v → (o ≡ some v) × IsData v
unfolding as_serializable
as_serializable-eq_some none v h = cc
as_serializable-eq_some (some object) v h = cc
as_serializable-eq_some (some resource) v h = cc
as_serializable-eq_some (some null) v h = (h, subst IsData (from_some h) tt)
as_serializable-eq_some (some (long n)) v h = (h, subst IsData (from_some h) tt)
as_serializable-eq_some (some (double d)) v h = (h, subst IsData (from_some h) tt)
as_serializable-eq_some (some (bool b)) v h = (h, subst IsData (from_some h) tt)
as_serializable-eq_some (some (array c n bs)) v h = (h, subst IsData (from_some h) tt)
as_serializable-eq_some (some (string s)) v h = (h, subst IsData (from_some h) tt)

or_cases : (a b : Bool) → (a || b) ≡ true → (a ≡ true) ⊎ (b ≡ true)
or_cases true b h = inl refl
or_cases false b h = inr h

sign_of : (op c : ℕ) → IsSign c → (op == c) ≡ true → IsSign op
sign_of op c sign e = subst IsSign (sym ((==_iff op c).0 e)) sign

is_arithmetic-IsSign : (op : ℕ) → is_arithmetic op ≡ true → IsSign op
is_arithmetic-IsSign op h = elim (or_cases _ _ h) [
  | inl e ↦ sign_of op b'+' plus e
  | inr h₁ ↦ elim (or_cases _ _ h₁) [
    | inl e ↦ sign_of op b'-' minus e
    | inr h₂ ↦ elim (or_cases _ _ h₂) [
      | inl e ↦ sign_of op b'&' bit_and e
      | inr h₃ ↦ elim (or_cases _ _ h₃) [
        | inl e ↦ sign_of op b'|' bit_or e
        | inr h₄ ↦ elim (or_cases _ _ h₄) [
          | inl e ↦ sign_of op b'^' bit_xor e
          | inr e ↦ sign_of op b'#' delete e
        ]
      ]
    ]
  ]
]

is_assignment-IsSetter : (op : ℕ) → is_assignment op ≡ true → IsSetter op
is_assignment-IsSetter op h = elim (or_cases _ _ h) [
  | inl e ↦ subst IsSetter (sym ((==_iff op b'=').0 e)) assign
  | inr e ↦ subst IsSetter (sym ((==_iff op b'!').0 e)) insert_field
]

verify_splice-IsKind :
    (op : ℕ) (field : ℤ) (ht : Table) (position : ℕ) (arr : Zval)
    → op ≡ b':'
    → verify_splice op field ht position ≡ ok arr
    → IsKind op field ht arr
unfolding verify_splice
verify_splice-IsKind op field ht position arr is_op h =
    let (offset, len, list, counted, eo, el, es, shape) =
      three_fields (five_fields_needed position) (offset_missing position) (length_missing position)
        (list_missing position) (length ht == 5) (as_long (name_find (codes "offset") ht))
        (as_long (name_find (codes "length") ht)) (as_string (name_find (codes "list") ht))
        (λ x y z. _) arr h in
    splice is_op ((==_iff (length ht) 5).0 counted) (as_long-eq_some _ offset eo)
      (as_long-eq_some _ len el) (as_string-eq_some _ list es)
      (sym shape ∙ push_five (string (op ∷ [])) (long field) (long offset) (long len) (string list))

verify_arithmetic-IsKind :
    (op : ℕ) (field : ℤ) (ht : Table) (position : ℕ) (arr : Zval)
    → is_arithmetic op ≡ true
    → verify_arithmetic op field ht position ≡ ok arr
    → IsKind op field ht arr
unfolding verify_arithmetic
verify_arithmetic-IsKind op field ht position arr is_op h =
    let (arg, counted, ea, shape) =
      one_field (three_fields_needed (op ∷ []) position) (arg_must_be_long (op ∷ []) position)
        (length ht == 3) (as_long (name_find (codes "arg") ht)) (λ x. _) arr h in
    arithmetic (is_arithmetic-IsSign op is_op) ((==_iff (length ht) 3).0 counted)
      (as_long-eq_some _ arg ea) (sym shape ∙ push_three (string (op ∷ [])) (long field) (long arg))

verify_assignment-IsKind :
    (op : ℕ) (field : ℤ) (ht : Table) (position : ℕ) (arr : Zval)
    → is_assignment op ≡ true
    → verify_assignment op field ht position ≡ ok arr
    → IsKind op field ht arr
unfolding verify_assignment
verify_assignment-IsKind op field ht position arr is_op h =
    let (arg, counted, ea, shape) =
      one_field (three_fields_needed (op ∷ []) position)
        (arg_must_be_serializable (op ∷ []) position) (length ht == 3)
        (as_serializable (name_find (codes "arg") ht)) (λ x. _) arr h in
    let (has, serializable) = as_serializable-eq_some _ arg ea in
    assignment (is_assignment-IsSetter op is_op) ((==_iff (length ht) 3).0 counted) has serializable
      (sym shape ∙ push_three (string (op ∷ [])) (long field) arg)

kind_cases :
    (b a s : Bool) (p q r : Outcome Zval) (e : Exception) (arr : Zval)
    → (if b then p else if a then q else if s then r else throw e) ≡ ok arr
    → ((b ≡ true) × (p ≡ ok arr)) ⊎ (((a ≡ true) × (q ≡ ok arr)) ⊎ ((s ≡ true) × (r ≡ ok arr)))
kind_cases true a s p q r e arr h = inl (refl, h)
kind_cases false true s p q r e arr h = inr (inl (refl, h))
kind_cases false false true p q r e arr h = inr (inr (refl, h))
kind_cases false false false p q r e arr h = cc

verify_kind-IsKind :
    (op : ℕ) (field : ℤ) (ht : Table) (position : ℕ) (arr : Zval)
    → verify_kind op field ht position ≡ ok arr
    → IsKind op field ht arr
unfolding verify_kind
verify_kind-IsKind op field ht position arr h =
    elim (kind_cases (op == b':') (is_arithmetic op) (is_assignment op)
      (verify_splice op field ht position) (verify_arithmetic op field ht position)
      (verify_assignment op field ht position) (unknown_operation (op ∷ []) position) arr h) [
        | inl (e, k) ↦ verify_splice-IsKind op field ht position arr ((==_iff op b':').0 e) k
        | inr (inl (e, k)) ↦ verify_arithmetic-IsKind op field ht position arr e k
        | inr (inr (e, k)) ↦ verify_assignment-IsKind op field ht position arr e k
      ]

map_only :
    (b : Bool) (o : Outcome Zval) (e : Exception) (arr : Zval)
    → (if b then o else throw e) ≡ ok arr
    → (b ≡ true) × (o ≡ ok arr)
map_only true o e arr h = (refl, h)
map_only false o e arr h = cc

-- Whatever bee_update_verify_op accepts is an operation of a known kind with all its fields and
-- no more fields than they are, and what it returns is the tuple of that kind.
pub bee_update_verify_op-IsUpdate :
    (op arr : Zval) (position : ℕ) → bee_update_verify_op op position ≡ ok arr → IsUpdate op arr
unfolding bee_update_verify_op verify_fields
bee_update_verify_op-IsUpdate (array c n bs) arr position h =
    let (hash, h1) =
      map_only (php_mp_is_hash n bs) (verify_fields (slots bs) position) (op_must_be_map position)
        arr h in
    let (op, field, eo, ef, kind) =
      two_fields (op_field_missing position) (position_field_missing position)
        (as_char (name_find (codes "op") (slots bs)))
        (as_long (name_find (codes "field") (slots bs)))
        (λ x y. verify_kind x y (slots bs) position) arr h1 in
    is_update (sym (php_mp_is_hash-sent_as_map n bs) ∙ hash) (as_char-eq_some _ op eo)
      (as_long-eq_some _ field ef) (verify_kind-IsKind op field (slots bs) position arr kind)
bee_update_verify_op-IsUpdate null arr position h = cc
bee_update_verify_op-IsUpdate (long m) arr position h = cc
bee_update_verify_op-IsUpdate (double d) arr position h = cc
bee_update_verify_op-IsUpdate (bool b) arr position h = cc
bee_update_verify_op-IsUpdate (string s) arr position h = cc
bee_update_verify_op-IsUpdate object arr position h = cc
bee_update_verify_op-IsUpdate resource arr position h = cc
