-- ===== src/Client/Iterator/Table.antt =====
-- The switch of convert_iterator is a table of names, whatever their case.
use bee_php.Prelude.{
  ℕ, suc, ◌+◌, ◌≡◌, ◌≢◌, refl, ◌&&◌, Bool-cases, inl, inr, Option, none, some, [], ◌∷◌, ◌++◌, arith,
  ◌==◌, if◌then◌else◌, map, length, get_or, Bytes, bytes_eq, codes,
}
use bee_php.Client.Iterator.{toupper, spells, iterator_of_name}
use bee_php.Proto.Keys.{
  iterator_eq, iterator_req, iterator_all, iterator_lt, iterator_le, iterator_ge, iterator_gt,
  iterator_bitset_all_set, iterator_bitset_any_set, iterator_bitset_all_not_set, iterator_overlaps,
  iterator_neighbor,
}

-- The iterator under a name in capitals.
unfoldable pub iterator_named : Bytes → Option ℕ
iterator_named u =
    if bytes_eq u (codes "EQ")
    then some iterator_eq
    else if bytes_eq u (codes "REQ")
    then some iterator_req
    else if bytes_eq u (codes "ALL")
    then some iterator_all
    else if bytes_eq u (codes "LT")
    then some iterator_lt
    else if bytes_eq u (codes "LE")
    then some iterator_le
    else if bytes_eq u (codes "GE")
    then some iterator_ge
    else if bytes_eq u (codes "GT")
    then some iterator_gt
    else if bytes_eq u (codes "BITS_ALL_SET")
    then some iterator_bitset_all_set
    else if bytes_eq u (codes "BITSET_ALL_SET")
    then some iterator_bitset_all_set
    else if bytes_eq u (codes "BITS_ANY_SET")
    then some iterator_bitset_any_set
    else if bytes_eq u (codes "BITSET_ANY_SET")
    then some iterator_bitset_any_set
    else if bytes_eq u (codes "BITS_ALL_NOT_SET")
    then some iterator_bitset_all_not_set
    else if bytes_eq u (codes "BITSET_ALL_NOT_SET")
    then some iterator_bitset_all_not_set
    else if bytes_eq u (codes "OVERLAPS")
    then some iterator_overlaps
    else if bytes_eq u (codes "NEIGHBOR")
    then some iterator_neighbor
    else none

spells-suc :
    (x : ℕ) (i : Bytes) (k : ℕ) (word : Bytes) → spells (x ∷ i) (suc k) word ≡ spells i k word
unfolding spells
spells-suc x i k [] = refl
spells-suc x i k (c ∷ word) = rw (spells-suc x i (suc k) word)

spells-append :
    (i : Bytes) (k : ℕ) (word more : Bytes)
    → spells i k (word ++ more) ≡ spells i k word && spells i (k + length word) more
unfolding spells
spells-append i k [] more = let e : k + 0 ≡ k = omega arith in rw e
spells-append i k (c ∷ word) more = ground (arith, spells-append i (suc k) word more)

-- A name in capitals is a word if it is as long and spells it.
word-row :
    (i word : Bytes) → bytes_eq (map toupper i) word ≡ (length i == length word) && spells i 0 word
unfolding bytes_eq spells
word-row [] [] = refl
word-row [] (c ∷ word) = ground arith
word-row (x ∷ i) [] = ground arith
word-row (x ∷ i) (c ∷ word) = ground (arith, word-row i word, spells-suc x i 0 word)

row :
    (i : Bytes) (c : ℕ) (word : Bytes)
    → bytes_eq (map toupper i) (c ∷ word)
      ≡ (length i == suc (length word)) && ((toupper (get_or i 0 0) == c) && spells i 1 word)
unfolding spells
row i c word = word-row i (c ∷ word)

letter : (i : Bytes) (k c : ℕ) → spells i k (c ∷ []) ≡ (toupper (get_or i k 0) == c)
unfolding spells
letter i k c = ground arith

module _ (i : Bytes) where
  abbrev Agrees : ℕ → Type 0
  Agrees first =
      toupper (get_or i 0 0) ≡ first → iterator_of_name i ≡ iterator_named (map toupper i)

  Agrees-a : Agrees b'A'
  unfolding iterator_of_name iterator_named
  Agrees-a e = simp (row i) (rw e (ground arith))

  Agrees-e : Agrees b'E'
  unfolding iterator_of_name iterator_named
  Agrees-e e = simp (row i) (rw e (ground arith))

  Agrees-g : Agrees b'G'
  unfolding iterator_of_name iterator_named
  Agrees-g e = simp (row i) (rw e (ground (arith, letter i 1 b'E', letter i 1 b'T')))

  Agrees-l : Agrees b'L'
  unfolding iterator_of_name iterator_named
  Agrees-l e = simp (row i) (rw e (ground (arith, letter i 1 b'E', letter i 1 b'T')))

  Agrees-n : Agrees b'N'
  unfolding iterator_of_name iterator_named
  Agrees-n e = simp (row i) (rw e (ground arith))

  Agrees-o : Agrees b'O'
  unfolding iterator_of_name iterator_named
  Agrees-o e = simp (row i) (rw e (ground arith))

  Agrees-r : Agrees b'R'
  unfolding iterator_of_name iterator_named
  Agrees-r e = simp (row i) (rw e (ground arith))

  Agrees-b : Agrees b'B'
  unfolding iterator_of_name iterator_named
  Agrees-b e = simp (row i) (
      rw e (
        ground (
          arith,
          spells-append i 1 (codes "ITSET_") (codes "ALL_NOT_SET"),
          spells-append i 1 (codes "ITSET_") (codes "ALL_SET"),
          spells-append i 1 (codes "ITSET_") (codes "ANY_SET"),
          spells-append i 1 (codes "ITS_") (codes "ALL_NOT_SET"),
          spells-append i 1 (codes "ITS_") (codes "ALL_SET"),
          spells-append i 1 (codes "ITS_") (codes "ANY_SET"),
        )))

  Agrees-other :
      (first : ℕ)
      → first ≢ b'A'
      → first ≢ b'B'
      → first ≢ b'E'
      → first ≢ b'G'
      → first ≢ b'L'
      → first ≢ b'N'
      → first ≢ b'O'
      → first ≢ b'R'
      → Agrees first
  unfolding iterator_of_name iterator_named
  Agrees-other first a b e' g l n o r e = simp (row i) (rw e (ground arith))

  -- A case of the first letter.
  on :
      (c : ℕ)
      → Agrees c
      → (toupper (get_or i 0 0) ≢ c → iterator_of_name i ≡ iterator_named (map toupper i))
      → iterator_of_name i ≡ iterator_named (map toupper i)
  on c same other = elim (Bool-cases (toupper (get_or i 0 0) == c)) [
    | inl e ↦ same (ground arith)
    | inr e ↦ other (ground arith)
  ]

-- convert_iterator reads every name as the table of names in capitals does: it is the iterator of
-- the name's capitals if the table has them, and none otherwise.
pub iterator_of_name-named : (i : Bytes) → iterator_of_name i ≡ iterator_named (map toupper i)
iterator_of_name-named i = on i b'A' (Agrees-a i) λ a. on i b'B' (Agrees-b i) λ b.
    on i b'E' (Agrees-e i) λ e. on i b'G' (Agrees-g i) λ g. on i b'L' (Agrees-l i) λ l.
      on i b'N' (Agrees-n i) λ n.
        on i b'O' (Agrees-o i)
          λ o. on i b'R' (Agrees-r i) λ r. Agrees-other i _ a b e g l n o r refl
