-- ===== src/Schema/Indexes.antt =====
-- What schema_add_index makes of a row of the indexes, and what is found afterwards.
use bee_php.Prelude.{
  ℕ, zero, suc, ◌≡◌, refl, ap, ◌∙◌, inl, inr, Bool-cases, none, some, List, [], ◌∷◌, ◌++◌, arith,
  pos, to_int, Bytes, bytes_eq, bytes_eq_refl, u32,
}
use bee_php.Engine.MHash.{MHash, IsMHash}
use bee_php.Engine.MsgPuck.{mp_uint, mp_str, mp_array, MsgPuck, DecodesBack}
use bee_php.Engine.Outcome.{ok}
use bee_php.Schema.{
  SchemaIndexValue, SchemaSpaceValue, BeeSchema, le32, nth, set_nth, put_index, iid_of, iid_under,
  add_to, schema_add_index, bee_schema_get_iid_by_string,
}
use bee_php.Schema.Rows.{IndexRow, IsIndexRow, index_row}
use bee_php.Schema.Spaces.{is_type-same}

nth-set_nth {ℓ} :
    {A : Type ℓ} (i : ℕ) (a b : A) (xs : List A)
    → nth i xs ≡ some a
    → nth i (set_nth i b xs) ≡ some b
nth-set_nth i a b [] h = cc
nth-set_nth zero a b (x ∷ xs) h = refl
nth-set_nth (suc i) a b (x ∷ xs) h = nth-set_nth i a b xs h

module _ {Indexes : Type 0} ⦃index_hash : MHash Indexes SchemaIndexValue⦄
    (tables : IsMHash index_hash) where
  put_index-own :
      (name : Bytes) (number : ℕ) (t : Indexes)
      → iid_of (index_hash.find name (put_index name number t)) ≡ to_int (pos number)
  unfolding put_index
  put_index-own name number t =
      let node : SchemaIndexValue = record { index_name = name; index_number = number } in
      elim (Bool-cases (bytes_eq (le32 number) name)) [
        | inl e ↦ rw (tables.find-put name (le32 number) node (index_hash.put name node t), e) refl
        | inr e ↦
            rw
              (
                tables.find-put name (le32 number) node (index_hash.put name node t),
                e,
                tables.find-put name name node t,
                bytes_eq_refl name,
              )
              refl
      ]

module _ {Spaces Indexes : Type 0} ⦃space_hash : MHash Spaces SchemaSpaceValue⦄
    ⦃index_hash : MHash Indexes SchemaIndexValue⦄ ⦃mp : MsgPuck⦄ (laws : DecodesBack mp) where
  -- The schema with an index put into the table at a place.
  abbrev pub with_index :
      (place : ℕ) → Bytes → ℕ → Indexes → BeeSchema Spaces Indexes → BeeSchema Spaces Indexes
  with_index place name number t s = record s {
    index_hashes = set_nth place (put_index name number t) s.index_hashes;
  }

  -- schema_add_index refuses a row of an index whose space the schema does not have, and leaves
  -- the schema as it was.
  -- The decoders are DecodesBack.
  schema_add_index_unknown :
      (row : IndexRow) (s : BeeSchema Spaces Indexes) (rest : Bytes)
      → IsIndexRow row
      → space_hash.find (le32 row.space) s.space_hash ≡ none
      → schema_add_index s (index_row row rest) ≡ ok (s, none)
  unfolding schema_add_index
  schema_add_index_unknown row s rest h missing =
      let r3 = mp.encode_str row.name ++ (row.type ++ (row.options ++ (row.parts ++ rest))) in
      let r2 = mp.encode_uint row.number ++ r3 in
      let r1 = mp.encode_uint row.space ++ r2 in
      let fits : u32 row.space ≡ row.space = omega (arith, h.space_fits) in
      rw (
        is_type-same mp_array (mp.encode_array 6 ++ r1) (laws.typeof-array 6 r1 (omega arith)),
        laws.decode-array 6 r1 (omega arith),
        laws.decode-uint row.space r2 (omega (arith, h.space_fits)),
        is_type-same mp_uint r2 (laws.typeof-uint row.number r3 (omega (arith, h.number_fits))),
        fits,
        missing,
      )

  add_index-row :
      (row : IndexRow) (s : BeeSchema Spaces Indexes) (rest : Bytes) (space : SchemaSpaceValue)
      (t : Indexes)
      → IsIndexRow row
      → space_hash.find (le32 row.space) s.space_hash ≡ some space
      → nth space.index_hash s.index_hashes ≡ some t
      → schema_add_index s (index_row row rest)
        ≡ ok (with_index space.index_hash row.name row.number t s, some rest)
  unfolding schema_add_index add_to
  add_index-row row s rest space t h found place =
      let r6 = row.parts ++ rest in
      let r5 = row.options ++ r6 in
      let r4 = row.type ++ r5 in
      let r3 = mp.encode_str row.name ++ r4 in
      let r2 = mp.encode_uint row.number ++ r3 in
      let r1 = mp.encode_uint row.space ++ r2 in
      let fits : u32 row.space ≡ row.space = omega (arith, h.space_fits) in
      let fits' : u32 row.number ≡ row.number = omega (arith, h.number_fits) in
      rw (
        is_type-same mp_array (mp.encode_array 6 ++ r1) (laws.typeof-array 6 r1 (omega arith)),
        laws.decode-array 6 r1 (omega arith),
        laws.decode-uint row.space r2 (omega (arith, h.space_fits)),
        is_type-same mp_uint r2 (laws.typeof-uint row.number r3 (omega (arith, h.number_fits))),
        fits,
        found,
        laws.decode-uint row.number r3 (omega (arith, h.number_fits)),
        is_type-same mp_str r3 (laws.typeof-str row.name r4 h.name_fits),
        laws.decode-str row.name r4 h.name_fits,
        h.type-IsSkipped.next-skipped r5,
        h.options-IsSkipped.next-skipped r6,
        h.parts-IsSkipped.next-skipped rest,
        fits',
        place,
      )

  get_iid-with_index :
      (tables : IsMHash index_hash) (row : IndexRow) (s : BeeSchema Spaces Indexes)
      (space : SchemaSpaceValue) (t : Indexes)
      → space_hash.find (le32 row.space) s.space_hash ≡ some space
      → nth space.index_hash s.index_hashes ≡ some t
      → bee_schema_get_iid_by_string
          (with_index space.index_hash row.name row.number t s)
          row.space
          row.name
        ≡ ok (to_int (pos row.number))
  unfolding bee_schema_get_iid_by_string
  get_iid-with_index tables row s space t found place =
      let after = set_nth space.index_hash (put_index row.name row.number t) s.index_hashes in
      ap (iid_under after row.name) found
      ∙ rw (nth-set_nth space.index_hash t (put_index row.name row.number t) s.index_hashes place)
          (ap ok (put_index-own tables row.name row.number t))

  -- schema_add_index on a row of an index whose space the schema has, with the space's table of
  -- indexes in its place, reads exactly the row, and leaves a schema in which
  -- bee_schema_get_iid_by_string finds the index's number, as an int32_t, by the space's number
  -- and the index's name.
  -- The decoders are DecodesBack and the tables of indexes of IsMHash.
  pub schema_add_index_known :
      (tables : IsMHash index_hash) (row : IndexRow) (s : BeeSchema Spaces Indexes) (rest : Bytes)
      (space : SchemaSpaceValue) (t : Indexes)
      → IsIndexRow row
      → space_hash.find (le32 row.space) s.space_hash ≡ some space
      → nth space.index_hash s.index_hashes ≡ some t
      → (s' : BeeSchema Spaces Indexes) × (schema_add_index s (index_row row rest)
          ≡ ok (s', some rest))
        × (bee_schema_get_iid_by_string s' row.space row.name ≡ ok (to_int (pos row.number)))
  schema_add_index_known tables row s rest space t h found place = (
    with_index space.index_hash row.name row.number t s,
    add_index-row row s rest space t h found place,
    get_iid-with_index tables row s space t found place,
  )
