-- ===== src/Tests/Tables.antt =====
-- Schemas of two spaces and an index.
use bee_php.Prelude.{
  ℕ, ◌≡◌, ap, sym, ◌∙◌, at_first, at_later, refl, inl, inr, true, some, List, [], ◌∷◌, ◌++◌, arith,
  pos, negsuc, to_int, Bytes, bytes_eq, codes,
}
use bee_php.Engine.Outcome.{ok}
use bee_php.Schema.{
  SchemaIndexValue, SchemaSpaceValue, BeeSchema, le32, bee_schema_new, schema_add_index,
  bee_schema_add_spaces, bee_schema_flush, bee_schema_get_sid_by_string,
  bee_schema_get_iid_by_string,
}
use bee_php.Schema.Rows.{
  SpaceRow, IndexRow, IsSkipped, IsSpaceRow, IsIndexRow, AreSpaceRows, space_rows, index_row,
}
use bee_php.Schema.Spaces.{put_rows, bee_schema_add_spaces-rows}
use bee_php.Schema.Lookup.{AllApart, here, get_sid-put_rows}
use bee_php.Schema.Indexes.{schema_add_index_known}
use bee_php.Schema.Free.{IsKeyed, flush-get_sid}
use bee_php.Tests.Hashes.{find_node-Occurs, spaces, indexes, spaces-IsMHash, indexes-IsMHash}
use bee_php.Tests.Codec.{codec}
use bee_php.Tests.Codec.Decodes.{codec-DecodesBack, next-encode_str}

text-IsSkipped : IsSkipped ⦃mp = codec⦄ (codec.encode_str (codes "memtx"))
text-IsSkipped = record { next-skipped = λ r. next-encode_str (codes "memtx") r (omega arith) }

number-IsSkipped : IsSkipped ⦃mp = codec⦄ (1 ∷ [])
number-IsSkipped = record { next-skipped = λ r. refl }

list-IsSkipped : IsSkipped ⦃mp = codec⦄ (0xdd ∷ 0 ∷ 0 ∷ 0 ∷ 0 ∷ [])
list-IsSkipped = record { next-skipped = λ r. refl }

abbrev space_named : ℕ → Bytes → SpaceRow
space_named n s = record {
  number = n;
  owner = 1 ∷ [];
  name = s;
  engine = codec.encode_str (codes "memtx");
  field_count = 1 ∷ [];
  flags = 1 ∷ [];
  format = 0xdd ∷ 0 ∷ 0 ∷ 0 ∷ 0 ∷ [];
}

abbrev pub people : SpaceRow
people = space_named 512 (codes "people")

abbrev pub pets : SpaceRow
pets = space_named 513 (codes "pets")

people-IsSpaceRow : IsSpaceRow ⦃mp = codec⦄ people
people-IsSpaceRow = record {
  number_fits = omega arith;
  name_fits = omega arith;
  owner-IsSkipped = number-IsSkipped;
  engine-IsSkipped = text-IsSkipped;
  field_count-IsSkipped = number-IsSkipped;
  flags-IsSkipped = number-IsSkipped;
  format-IsSkipped = list-IsSkipped;
}

pets-IsSpaceRow : IsSpaceRow ⦃mp = codec⦄ pets
pets-IsSpaceRow = record {
  number_fits = omega arith;
  name_fits = omega arith;
  owner-IsSkipped = number-IsSkipped;
  engine-IsSkipped = text-IsSkipped;
  field_count-IsSkipped = number-IsSkipped;
  flags-IsSkipped = number-IsSkipped;
  format-IsSkipped = list-IsSkipped;
}

abbrev pub two_rows : List SpaceRow
two_rows = people ∷ pets ∷ []

abbrev pub empty_schema :
    BeeSchema (List (Bytes × SchemaSpaceValue)) (List (Bytes × SchemaIndexValue))
empty_schema = bee_schema_new ⦃space_hash = spaces⦄ ⦃index_hash = indexes⦄

pub two_rows-whole : AreSpaceRows ⦃mp = codec⦄ two_rows
two_rows-whole = (people-IsSpaceRow, (pets-IsSpaceRow, tt))

pub two_rows-added :
    bee_schema_add_spaces ⦃space_hash = spaces⦄ ⦃index_hash = indexes⦄ ⦃mp = codec⦄ empty_schema
      (codec.encode_array 2 ++ space_rows ⦃mp = codec⦄ two_rows [])
    ≡ ok (put_rows ⦃space_hash = spaces⦄ ⦃index_hash = indexes⦄ two_rows empty_schema, true)
two_rows-added =
    bee_schema_add_spaces-rows ⦃space_hash = spaces⦄ ⦃index_hash = indexes⦄ ⦃mp = codec⦄
      codec-DecodesBack two_rows empty_schema two_rows-whole (omega arith) refl

bee_schema_add_spaces-rows_example :
    bee_schema_add_spaces ⦃space_hash = spaces⦄ ⦃index_hash = indexes⦄ ⦃mp = codec⦄ empty_schema
      (codec.encode_array 2 ++ space_rows ⦃mp = codec⦄ two_rows [])
    ≡ ok (put_rows ⦃space_hash = spaces⦄ ⦃index_hash = indexes⦄ two_rows empty_schema, true)
bee_schema_add_spaces-rows_example =
    bee_schema_add_spaces-rows ⦃space_hash = spaces⦄ ⦃index_hash = indexes⦄ ⦃mp = codec⦄
      codec-DecodesBack two_rows empty_schema (people-IsSpaceRow, (pets-IsSpaceRow, tt))
      (omega arith) refl

pub people_apart : AllApart (codes "people") 512 two_rows
unfolding bytes_eq
people_apart = (inr refl, (inl (refl, refl), tt))

get_sid-put_rows_example :
    bee_schema_get_sid_by_string ⦃space_hash = spaces⦄ ⦃index_hash = indexes⦄
      (put_rows ⦃space_hash = spaces⦄ ⦃index_hash = indexes⦄ two_rows empty_schema)
      (codes "people")
    ≡ to_int (pos 512)
get_sid-put_rows_example =
    get_sid-put_rows ⦃space_hash = spaces⦄ ⦃index_hash = indexes⦄ spaces-IsMHash people two_rows
      empty_schema people_apart here

abbrev primary : IndexRow
primary = record {
  space = 512;
  number = 0;
  name = codes "primary";
  type = codec.encode_str (codes "memtx");
  options = 1 ∷ [];
  parts = 0xdd ∷ 0 ∷ 0 ∷ 0 ∷ 0 ∷ [];
}

primary-IsIndexRow : IsIndexRow ⦃mp = codec⦄ primary
primary-IsIndexRow = record {
  space_fits = omega arith;
  number_fits = omega arith;
  name_fits = omega arith;
  type-IsSkipped = text-IsSkipped;
  options-IsSkipped = number-IsSkipped;
  parts-IsSkipped = list-IsSkipped;
}

abbrev people_node : SchemaSpaceValue
people_node = record { space_name = codes "people"; space_number = 512; index_hash = 0 }

abbrev pub one_space : BeeSchema (List (Bytes × SchemaSpaceValue)) (List (Bytes × SchemaIndexValue))
one_space = record {
  space_hash = (le32 512, people_node) ∷ (codes "people", people_node) ∷ [];
  index_hashes = [] ∷ [];
}

people_found : spaces.find (le32 512) one_space.space_hash ≡ some people_node
unfolding bytes_eq
people_found = refl

schema_add_index_known_example :
    (s' : BeeSchema (List (Bytes × SchemaSpaceValue)) (List (Bytes × SchemaIndexValue)))
    × (schema_add_index ⦃space_hash = spaces⦄ ⦃index_hash = indexes⦄ ⦃mp = codec⦄ one_space
          (index_row ⦃mp = codec⦄ primary [])
        ≡ ok (s', some []))
    × (bee_schema_get_iid_by_string ⦃space_hash = spaces⦄ ⦃index_hash = indexes⦄ s' 512
          (codes "primary")
        ≡ ok (to_int (pos 0)))
schema_add_index_known_example =
    schema_add_index_known ⦃space_hash = spaces⦄ ⦃index_hash = indexes⦄ ⦃mp = codec⦄
      codec-DecodesBack indexes-IsMHash primary one_space [] people_node [] primary-IsIndexRow
      people_found refl

one_space-IsKeyed : IsKeyed ⦃space_hash = spaces⦄ one_space.space_hash
one_space-IsKeyed k v found = elim (find_node-Occurs k v one_space.space_hash found) [
  | at_first e ↦ inr (ap (λ p. p.0) e ∙ ap (λ p. le32 p.1.space_number) (sym e))
  | at_later (at_first e) ↦ inl (ap (λ p. p.0) e ∙ ap (λ p. p.1.space_name) (sym e))
  | at_later (at_later m) ↦ elim m [ ]
]

flush-get_sid_example :
    bee_schema_get_sid_by_string ⦃space_hash = spaces⦄ ⦃index_hash = indexes⦄
      (bee_schema_flush ⦃space_hash = spaces⦄ ⦃index_hash = indexes⦄ one_space)
      (codes "people")
    ≡ negsuc 0
flush-get_sid_example =
    flush-get_sid ⦃space_hash = spaces⦄ spaces-IsMHash ⦃index_hash = indexes⦄ one_space
      (codes "people") one_space-IsKeyed
