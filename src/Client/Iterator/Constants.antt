-- ===== src/Client/Iterator/Constants.antt =====
-- The constants that PHP_MINIT_FUNCTION(bee) of src/bee.c registers, by name and value.
use bee_php.Prelude.{
  ℕ, ◌≡◌, ◌⊎◌, ◌∙◌, refl, ap, sym, inl, inr, some, List, [], ◌∷◌, ◌++◌, Occurs, at_first, at_later,
  map, drop, Bytes, bytes_eq, codes,
}
use bee_php.Proto.Keys.{
  iterator_eq, iterator_req, iterator_all, iterator_lt, iterator_le, iterator_ge, iterator_gt,
  iterator_bitset_all_set, iterator_bitset_any_set, iterator_bitset_all_not_set, iterator_overlaps,
  iterator_neighbor,
}
use bee_php.Client.Iterator.{toupper, iterator_of_name}
use bee_php.Client.Iterator.Table.{iterator_named, iterator_of_name-named}

abbrev pub Constants : Type 0
Constants = List (Bytes × ℕ)

-- RLCI(NAME)
abbrev rlci : Bytes → ℕ → Bytes × ℕ
rlci name iterator = (codes "BEE_ITER_" ++ name, iterator)

-- The global constants.
abbrev pub long_constants : Constants
long_constants =
    rlci (codes "EQ") iterator_eq
    ∷ rlci (codes "REQ") iterator_req
    ∷ rlci (codes "ALL") iterator_all
    ∷ rlci (codes "LT") iterator_lt
    ∷ rlci (codes "LE") iterator_le
    ∷ rlci (codes "GE") iterator_ge
    ∷ rlci (codes "GT") iterator_gt
    ∷ rlci (codes "BITSET_ALL_SET") iterator_bitset_all_set
    ∷ rlci (codes "BITSET_ANY_SET") iterator_bitset_any_set
    ∷ rlci (codes "BITSET_ALL_NOT_SET") iterator_bitset_all_not_set
    ∷ rlci (codes "OVERLAPS") iterator_overlaps
    ∷ rlci (codes "NEIGHBOR") iterator_neighbor
    ∷ []

-- The constants of the class. The enumeration has each BITS_ name for the value of a BITSET_ name.
abbrev pub class_constants : Constants
class_constants =
    (codes "ITERATOR_EQ", iterator_eq)
    ∷ (codes "ITERATOR_REQ", iterator_req)
    ∷ (codes "ITERATOR_ALL", iterator_all)
    ∷ (codes "ITERATOR_LT", iterator_lt)
    ∷ (codes "ITERATOR_LE", iterator_le)
    ∷ (codes "ITERATOR_GE", iterator_ge)
    ∷ (codes "ITERATOR_GT", iterator_gt)
    ∷ (codes "ITERATOR_BITS_ALL_SET", iterator_bitset_all_set)
    ∷ (codes "ITERATOR_BITSET_ALL_SET", iterator_bitset_all_set)
    ∷ (codes "ITERATOR_BITS_ANY_SET", iterator_bitset_any_set)
    ∷ (codes "ITERATOR_BITSET_ANY_SET", iterator_bitset_any_set)
    ∷ (codes "ITERATOR_BITS_ALL_NOT_SET", iterator_bitset_all_not_set)
    ∷ (codes "ITERATOR_BITSET_ALL_NOT_SET", iterator_bitset_all_not_set)
    ∷ (codes "ITERATOR_OVERLAPS", iterator_overlaps)
    ∷ (codes "ITERATOR_NEIGHBOR", iterator_neighbor)
    ∷ []

-- Behind nine bytes each name is one of the table's, with its value.
abbrev AreNamed : Constants → Type 0
AreNamed [] = Unit {0}
AreNamed ((name, n) ∷ rest) = (iterator_named (drop 9 name) ≡ some n) × AreNamed rest

long_constants-AreNamed : AreNamed long_constants
unfolding iterator_named bytes_eq
long_constants-AreNamed = (
  refl,
  (refl, (refl, (refl, (refl, (refl, (refl, (refl, (refl, (refl, (refl, (refl, tt))))))))))),
)

class_constants-AreNamed : AreNamed class_constants
unfolding iterator_named bytes_eq
class_constants-AreNamed = (
  refl,
  (
    refl,
    (
      refl,
      (
        refl,
        (refl, (refl, (refl, (refl, (refl, (refl, (refl, (refl, (refl, (refl, (refl, tt))))))))))),
      ),
    ),
  ),
)

Occurs-named :
    (name : Bytes) (n : ℕ) (constants : Constants)
    → AreNamed constants
    → Occurs (name, n) constants
    → iterator_named (drop 9 name) ≡ some n
Occurs-named name n [] h o = elim o [ ]
Occurs-named name n ((other, k) ∷ rest) (h, hs) (at_first e) =
    ap (λ c. iterator_named (drop 9 c.0)) e ∙ h ∙ ap (λ c. some c.1) (sym e)
Occurs-named name n ((other, k) ∷ rest) (h, hs) (at_later o) = Occurs-named name n rest hs o

-- A constant of either list, and the rest of its name in any case, stand for the same iterator: the
-- name's switch in convert_iterator gives the constant's value.
pub constants-iterator_of_name :
    (i : Bytes) (n : ℕ)
    → Occurs (codes "BEE_ITER_" ++ map toupper i, n) long_constants
      ⊎ Occurs (codes "ITERATOR_" ++ map toupper i, n) class_constants
    → iterator_of_name i ≡ some n
constants-iterator_of_name i n (inl o) =
    iterator_of_name-named i ∙ Occurs-named _ n long_constants long_constants-AreNamed o
constants-iterator_of_name i n (inr o) =
    iterator_of_name-named i ∙ Occurs-named _ n class_constants class_constants-AreNamed o
