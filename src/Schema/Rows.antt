-- ===== src/Schema/Rows.antt =====
-- The rows of the system spaces as the server sends them.
use bee_php.Prelude.{ℕ, ◌<◌, ◌^◌, ◌≡◌, some, List, [], ◌∷◌, ◌++◌, length, Bytes}
use bee_php.Engine.MsgPuck.{MsgPuck}

-- A row of the spaces: number, owner, name, then engine, field count, flags and format. The
-- fields that the cache steps over are given by their bytes.
pub record SpaceRow : Type 0 where
  pub number : ℕ
  pub owner : Bytes
  pub name : Bytes
  pub engine : Bytes
  pub field_count : Bytes
  pub flags : Bytes
  pub format : Bytes

-- A row of the indexes: the number of the space, the number, the name, then three fields.
pub record IndexRow : Type 0 where
  pub space : ℕ
  pub number : ℕ
  pub name : Bytes
  pub type : Bytes
  pub options : Bytes
  pub parts : Bytes

module _ ⦃mp : MsgPuck⦄ where
  -- mp_next steps over exactly these bytes.
  pub record IsSkipped (bs : Bytes) : Type 0 where
    pub next-skipped : (rest : Bytes) → mp.next (bs ++ rest) ≡ some rest

  pub record IsSpaceRow (row : SpaceRow) : Type 0 where
    pub number_fits : row.number < 2 ^ 32
    pub name_fits : length row.name < 2 ^ 32
    pub owner-IsSkipped : IsSkipped row.owner
    pub engine-IsSkipped : IsSkipped row.engine
    pub field_count-IsSkipped : IsSkipped row.field_count
    pub flags-IsSkipped : IsSkipped row.flags
    pub format-IsSkipped : IsSkipped row.format

  -- A row in front of what follows it.
  abbrev pub space_row : SpaceRow → Bytes → Bytes
  space_row row rest =
      mp.encode_array 7
      ++ (mp.encode_uint row.number
          ++ (row.owner
              ++ (mp.encode_str row.name
                  ++ (row.engine ++ (row.field_count ++ (row.flags ++ (row.format ++ rest)))))))

  abbrev pub space_rows : List SpaceRow → Bytes → Bytes
  space_rows [] rest = rest
  space_rows (row ∷ rows) rest = space_row row (space_rows rows rest)

  abbrev pub AreSpaceRows : List SpaceRow → Type 0
  AreSpaceRows [] = Unit {0}
  AreSpaceRows (row ∷ rows) = IsSpaceRow row × AreSpaceRows rows

  pub record IsIndexRow (row : IndexRow) : Type 0 where
    pub space_fits : row.space < 2 ^ 32
    pub number_fits : row.number < 2 ^ 32
    pub name_fits : length row.name < 2 ^ 32
    pub type-IsSkipped : IsSkipped row.type
    pub options-IsSkipped : IsSkipped row.options
    pub parts-IsSkipped : IsSkipped row.parts

  abbrev pub index_row : IndexRow → Bytes → Bytes
  index_row row rest =
      mp.encode_array 6
      ++ (mp.encode_uint row.space
          ++ (mp.encode_uint row.number
              ++ (mp.encode_str row.name ++ (row.type ++ (row.options ++ (row.parts ++ rest))))))
