-- ===== src/Schema/Spaces.antt =====
-- What bee_schema_add_spaces makes of the rows of the server, and what is found afterwards.
use bee_php.Prelude.{
  ◌<◌, ◌^◌, ◌≡◌, refl, ap, true, some, List, [], ◌∷◌, ◌++◌, arith, ==_refl, length, Bytes, u32,
}
use bee_php.Engine.MHash.{MHash}
use bee_php.Engine.MsgPuck.{
  MpType, mp_uint, mp_str, mp_array, mp_code, MsgPuck, typeof, DecodesBack,
}
use bee_php.Engine.Outcome.{ok}
use bee_php.Proto.Response.{is_type}
use bee_php.Schema.{
  SchemaIndexValue, SchemaSpaceValue, BeeSchema, put_space, schema_add_space, add_each, add_all,
  bee_schema_add_spaces,
}
use bee_php.Schema.Rows.{SpaceRow, IsSpaceRow, space_row, space_rows, AreSpaceRows}

pub is_type-same :
    ⦃mp : MsgPuck⦄ (type : MpType) (p : Bytes) → typeof mp p ≡ some type → is_type type p ≡ ok true
unfolding is_type
is_type-same type p e = rw e (ap ok (==_refl (mp_code type)))

module _ {Spaces Indexes : Type 0} ⦃space_hash : MHash Spaces SchemaSpaceValue⦄
    ⦃index_hash : MHash Indexes SchemaIndexValue⦄ where
  -- The rows put one after another.
  unfoldable pub put_rows : List SpaceRow → BeeSchema Spaces Indexes → BeeSchema Spaces Indexes
  put_rows [] s = s
  put_rows (row ∷ rows) s = put_rows rows (put_space row.name row.number s)

  module _ ⦃mp : MsgPuck⦄ (laws : DecodesBack mp) where
    add_space-row :
        (row : SpaceRow) (s : BeeSchema Spaces Indexes) (rest : Bytes)
        → IsSpaceRow row
        → schema_add_space s (space_row row rest) ≡ ok (put_space row.name row.number s, some rest)
    unfolding schema_add_space
    add_space-row row s rest h =
        let r7 = row.format ++ rest in
        let r6 = row.flags ++ r7 in
        let r5 = row.field_count ++ r6 in
        let r4 = row.engine ++ r5 in
        let r3 = mp.encode_str row.name ++ r4 in
        let r2 = row.owner ++ r3 in
        let r1 = mp.encode_uint row.number ++ r2 in
        let fits : u32 row.number ≡ row.number = omega (arith, h.number_fits) in
        rw (
          is_type-same mp_array (mp.encode_array 7 ++ r1) (laws.typeof-array 7 r1 (omega arith)),
          laws.decode-array 7 r1 (omega arith),
          is_type-same mp_uint r1 (laws.typeof-uint row.number r2 (omega (arith, h.number_fits))),
          laws.decode-uint row.number r2 (omega (arith, h.number_fits)),
          h.owner-IsSkipped.next-skipped r3,
          is_type-same mp_str r3 (laws.typeof-str row.name r4 h.name_fits),
          laws.decode-str row.name r4 h.name_fits,
          h.engine-IsSkipped.next-skipped r5,
          h.field_count-IsSkipped.next-skipped r6,
          h.flags-IsSkipped.next-skipped r7,
          h.format-IsSkipped.next-skipped rest,
          fits,
        )

    add_each-rows :
        (rows : List SpaceRow) (s : BeeSchema Spaces Indexes) (rest : Bytes)
        → AreSpaceRows rows
        → add_each schema_add_space (length rows) s (space_rows rows rest)
          ≡ ok (put_rows rows s, true)
    unfolding add_each put_rows
    add_each-rows [] s rest h = refl
    add_each-rows (row ∷ rows) s rest (h, hs) =
        rw (add_space-row row s (space_rows rows rest) h)
          (add_each-rows rows (put_space row.name row.number s) rest hs)

    -- bee_schema_add_spaces on a message that mp_check accepts and that holds an array of rows of
    -- the seven fields of a space succeeds, and puts every row into the schema, in order.
    -- The decoders are DecodesBack.
    pub bee_schema_add_spaces-rows :
        (rows : List SpaceRow) (s : BeeSchema Spaces Indexes)
        → AreSpaceRows rows
        → length rows < 2 ^ 32
        → mp.check (mp.encode_array (length rows) ++ space_rows rows []) ≡ true
        → bee_schema_add_spaces s (mp.encode_array (length rows) ++ space_rows rows [])
          ≡ ok (put_rows rows s, true)
    unfolding bee_schema_add_spaces add_all
    bee_schema_add_spaces-rows rows s h few checked =
        let more = space_rows rows [] in
        let fits : u32 (length rows) ≡ length rows = omega arith in
        rw
          (
            checked,
            is_type-same mp_array (mp.encode_array (length rows) ++ more)
                (laws.typeof-array (length rows) more few),
            laws.decode-array (length rows) more few,
            fits,
          )
          (add_each-rows rows s [] h)
