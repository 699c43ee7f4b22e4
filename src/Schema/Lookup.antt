-- ===== src/Schema/Lookup.antt =====
-- What is found by name in a schema into which spaces were put.
use bee_php.Prelude.{
  ℕ, ◌≡◌, refl, ap, ◌∙◌, ◌⊎◌, inl, inr, false, Bool-cases, some, List, [], ◌∷◌, if◌then◌else◌, pos,
  to_int, length, Bytes, bytes_eq, bytes_eq_refl,
}
use bee_php.Engine.MHash.{MHash, IsMHash}
use bee_php.Schema.{
  SchemaIndexValue, SchemaSpaceValue, BeeSchema, le32, put_space, sid_of,
  bee_schema_get_sid_by_string,
}
use bee_php.Schema.Rows.{SpaceRow}
use bee_php.Schema.Spaces.{put_rows}

-- A space does not stand in the way of a name: none of its two keys is the name, or its number is
-- the right one.
abbrev pub IsApart : Bytes → ℕ → SpaceRow → Type 0
IsApart name number row =
    ((bytes_eq row.name name ≡ false) × (bytes_eq (le32 row.number) name ≡ false))
    ⊎ (row.number ≡ number)

abbrev pub AllApart : Bytes → ℕ → List SpaceRow → Type 0
AllApart name number [] = Unit {0}
AllApart name number (row ∷ rows) = IsApart name number row × AllApart name number rows

pub data Among (row : SpaceRow) : List SpaceRow → Type 0 where
  here : {rows : List SpaceRow} → Among row (row ∷ rows)
  there : {other : SpaceRow} {rows : List SpaceRow} → Among row rows → Among row (other ∷ rows)

module _ {Spaces Indexes : Type 0} ⦃space_hash : MHash Spaces SchemaSpaceValue⦄
    ⦃index_hash : MHash Indexes SchemaIndexValue⦄ where
  -- The name leads to the number.
  data Knows (name : Bytes) (number : ℕ) (s : BeeSchema Spaces Indexes) : Type 0 where
    knows :
        (v : SchemaSpaceValue)
        → space_hash.find name s.space_hash ≡ some v
        → v.space_number ≡ number
        → Knows name number s

  abbrev pub node_of : Bytes → ℕ → BeeSchema Spaces Indexes → SchemaSpaceValue
  node_of name number s = record {
    space_name = name;
    space_number = number;
    index_hash = length s.index_hashes;
  }

  Knows-sid :
      (name : Bytes) (number : ℕ) (s : BeeSchema Spaces Indexes)
      → Knows name number s
      → bee_schema_get_sid_by_string s name ≡ to_int (pos number)
  unfolding bee_schema_get_sid_by_string
  Knows-sid name number s (knows v found same) = ap sid_of found ∙ ap (λ n. to_int (pos n)) same

  module _ (tables : IsMHash space_hash) where
    pub find-put_space :
        (key name : Bytes) (number : ℕ) (s : BeeSchema Spaces Indexes)
        → space_hash.find key (put_space name number s).space_hash ≡ (
            if bytes_eq (le32 number) key
            then some (node_of name number s)
            else if bytes_eq name key
            then some (node_of name number s)
            else space_hash.find key s.space_hash)
    unfolding put_space
    find-put_space key name number s =
        rw
          (
            tables.find-put key (le32 number) (node_of name number s)
                (space_hash.put name (node_of name number s) s.space_hash),
            tables.find-put key name (node_of name number s) s.space_hash,
          )
          refl

    put_space-own :
        (name : Bytes) (number : ℕ) (s : BeeSchema Spaces Indexes)
        → Knows name number (put_space name number s)
    put_space-own name number s =
        let found = find-put_space name name number s in
        elim (Bool-cases (bytes_eq (le32 number) name)) [
          | inl e ↦ knows (node_of name number s) (rw e at found) refl
          | inr e ↦ knows (node_of name number s) (rw (e, bytes_eq_refl name) at found) refl
        ]

    put_space-kept :
        (name : Bytes) (number : ℕ) (row : SpaceRow) (s : BeeSchema Spaces Indexes)
        → IsApart name number row
        → Knows name number s
        → Knows name number (put_space row.name row.number s)
    put_space-kept name number row s (inl (e, f)) (knows v found same) =
        knows v (rw (find-put_space name row.name row.number s, f, e) found) same
    put_space-kept name number row s (inr same) (knows v found same') =
        let found' = find-put_space name row.name row.number s in
        elim (Bool-cases (bytes_eq (le32 row.number) name)) [
          | inl e ↦ knows (node_of row.name row.number s) (rw e at found') same
          | inr e ↦ elim (Bool-cases (bytes_eq row.name name)) [
            | inl f ↦ knows (node_of row.name row.number s) (rw (e, f) at found') same
            | inr f ↦ knows v ((rw (e, f) at found') ∙ found) same'
          ]
        ]

    put_rows-kept :
        (name : Bytes) (number : ℕ) (rows : List SpaceRow) (s : BeeSchema Spaces Indexes)
        → AllApart name number rows
        → Knows name number s
        → Knows name number (put_rows rows s)
    unfolding put_rows
    put_rows-kept name number [] s h k = k
    put_rows-kept name number (row ∷ rows) s (h, hs) k =
        put_rows-kept name number rows (put_space row.name row.number s) hs
          (put_space-kept name number row s h k)

    put_rows-own :
        (row : SpaceRow) (rows : List SpaceRow) (s : BeeSchema Spaces Indexes)
        → AllApart row.name row.number rows
        → Among row rows
        → Knows row.name row.number (put_rows rows s)
    unfolding put_rows
    put_rows-own row [] s h m = elim m [ ]
    put_rows-own row (row' ∷ rows) s (h, hs) here =
        put_rows-kept row.name row.number rows (put_space row.name row.number s) hs
          (put_space-own row.name row.number s)
    put_rows-own row (other ∷ rows) s (h, hs) (there m) =
        put_rows-own row rows (put_space other.name other.number s) hs m

    -- After rows were put into a schema, bee_schema_get_sid_by_string finds the number of each of
    -- them by its name, as an int32_t, if every row of another number has other keys: neither its
    -- name nor the four bytes of its number are the name that is looked up.
    -- The table of spaces is one of IsMHash.
    pub get_sid-put_rows :
        (row : SpaceRow) (rows : List SpaceRow) (s : BeeSchema Spaces Indexes)
        → AllApart row.name row.number rows
        → Among row rows
        → bee_schema_get_sid_by_string (put_rows rows s) row.name ≡ to_int (pos row.number)
    unfolding bee_schema_get_sid_by_string
    get_sid-put_rows row rows s h m =
        Knows-sid row.name row.number (put_rows rows s) (put_rows-own row rows s h m)
