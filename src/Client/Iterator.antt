-- ===== src/Client/Iterator.antt =====
-- convert_iterator of src/bee.c. Past its end a name reads as the closing NUL.
pub mod Table
pub mod Constants
use bee_php.Prelude.{
  ℕ, suc, ◌+◌, ◌-◌, ◌%◌, ◌^◌, Bool, true, false, ◌&&◌, ◌||◌, Option, none, some, List, [], ◌∷◌, ltb,
  leb, ◌==◌, if◌then◌else◌, ℤ, pos, negsuc, length, get_or, Bytes, to_int, codes,
}
use bee_php.Engine.Zval.{Zval, null, long, string}
use bee_php.Engine.Outcome.{Outcome, ok, fault, throw, bad_iterator_name}
use bee_php.Proto.Keys.{
  iterator_eq, iterator_req, iterator_all, iterator_lt, iterator_le, iterator_ge, iterator_gt,
  iterator_bitset_all_set, iterator_bitset_any_set, iterator_bitset_all_not_set, iterator_overlaps,
  iterator_neighbor,
}

-- In the C locale.
unfoldable pub toupper : ℕ → ℕ
toupper c = if leb b'a' c && leb c b'z' then c - 32 else c

-- toupper(i[k]) == word[0] && toupper(i[k + 1]) == word[1] && …
unfoldable pub spells : Bytes → ℕ → Bytes → Bool
unfolding toupper
spells i k [] = true
spells i k (c ∷ word) = (toupper (get_or i k 0) == c) && spells i (suc k) word

abbrev pub or_else {ℓ} : {A : Type ℓ} → Option A → Option A → Option A
or_else none b = b
or_else (some a) b = some a

-- The cases of the switch. A `none` is a break or an if without an else.
bits_after : Bytes → ℕ → ℕ → Option ℕ
bits_after i i_len k =
    if (i_len == k + 11) && spells i k (codes "ALL_NOT_SET")
    then some iterator_bitset_all_not_set
    else if (i_len == k + 7) && spells i k (codes "ALL_SET")
    then some iterator_bitset_all_set
    else if (i_len == k + 7) && spells i k (codes "ANY_SET")
    then some iterator_bitset_any_set
    else none

case_b : Bytes → ℕ → Option ℕ
unfolding bits_after
case_b i i_len =
    or_else (if ltb 7 i_len && spells i 1 (codes "ITSET_") then bits_after i i_len 7 else none)
      (if ltb 4 i_len && spells i 1 (codes "ITS_") then bits_after i i_len 5 else none)

case_g : Bytes → ℕ → Option ℕ
case_g i i_len =
    if i_len == 2
    then (let second = toupper (get_or i 1 0) in
        if second == b'E'
        then some iterator_ge
        else if second == b'T'
        then some iterator_gt
        else none)
    else none

case_l : Bytes → ℕ → Option ℕ
case_l i i_len =
    if i_len == 2
    then (let second = toupper (get_or i 1 0) in
        if second == b'T'
        then some iterator_lt
        else if second == b'E'
        then some iterator_le
        else none)
    else none

-- A case of one word: its length, and what follows its first letter.
case_word : Bytes → ℕ → ℕ → Bytes → ℕ → Option ℕ
case_word i i_len n word iterator = if (i_len == n) && spells i 1 word then some iterator else none

unfoldable pub iterator_of_name : Bytes → Option ℕ
unfolding case_b case_g case_l case_word
iterator_of_name i =
    let i_len = length i in
    let first = toupper (get_or i 0 0) in
    if first == b'A'
    then case_word i i_len 3 (codes "LL") iterator_all
    else if first == b'B'
    then case_b i i_len
    else if first == b'E'
    then case_word i i_len 2 (codes "Q") iterator_eq
    else if first == b'G'
    then case_g i i_len
    else if first == b'L'
    then case_l i i_len
    else if first == b'N'
    then case_word i i_len 8 (codes "EIGHBOR") iterator_neighbor
    else if first == b'O'
    then case_word i i_len 8 (codes "VERLAPS") iterator_overlaps
    else if first == b'R'
    then case_word i i_len 3 (codes "EQ") iterator_req
    else none

iterator_or_throw : Bytes → Option ℕ → Outcome ℤ
iterator_or_throw i none = throw (bad_iterator_name i)
iterator_or_throw i (some n) = ok (pos n)

-- A value that is neither null, a long nor a string is read as a string after the exception.
unfoldable pub convert_iterator : Option Zval → (all : Bool) → Outcome ℤ
unfolding iterator_of_name iterator_or_throw
convert_iterator none all = ok (if all then pos iterator_all else pos iterator_eq)
convert_iterator (some null) all = ok (if all then pos iterator_all else pos iterator_eq)
convert_iterator (some (long n)) all = ok (to_int n)
convert_iterator (some (string i)) all = iterator_or_throw i (iterator_of_name i)
convert_iterator (some other) all = fault
