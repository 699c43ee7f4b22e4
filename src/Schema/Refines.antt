-- ===== src/Schema/Refines.antt =====
-- What the cache of spaces is from outside: a map from names to numbers. It is one for the names
-- of other than four bytes, which no space's number can be mistaken for.
use bee_php.Prelude.{
  ℕ, ◌<◌, ◌^◌, ◌≡◌, ◌≢◌, refl, sym, ap, ◌∙◌, inl, inr, true, false, Bool, Bool-cases, none, some,
  Option, List, [], ◌∷◌, ◌++◌, if◌then◌else◌, ℤ, pos, negsuc, to_int, length, Bytes, bytes_eq,
  bytes_eq→eq,
}
use mathlib.Core.Path.{subst}
use bee_php.Engine.MHash.{MHash, IsMHash}
use bee_php.Engine.MsgPuck.{MsgPuck, DecodesBack}
use bee_php.Engine.Outcome.{Outcome, ok}
use bee_php.Schema.{
  SchemaIndexValue, SchemaSpaceValue, BeeSchema, le32, sid_of, put_space, bee_schema_new,
  bee_schema_add_spaces, bee_schema_add_indexes, bee_schema_flush, bee_schema_get_sid_by_string,
}
use bee_php.Schema.Rows.{SpaceRow, AreSpaceRows, space_rows}
use bee_php.Schema.Spaces.{put_rows, bee_schema_add_spaces-rows}
use bee_php.Schema.Lookup.{find-put_space}
use bee_php.Schema.Holds.{Returns, schema_add_index-Holds, add_all-Holds}
use bee_php.Schema.Free.{IsKeyed, flush-get_sid, bee_schema_flush-IsKeyed}
use bee_php.Schema.Keyed.{put_space-IsKeyed}

-- The map, and what the operations of the cache do to it.
abbrev pub Names : Type 0
Names = Bytes → Option ℕ

abbrev pub forgotten : Names
forgotten name = none

abbrev pub named : Bytes → ℕ → Names → Names
named name number a other = if bytes_eq name other then some number else a other

abbrev pub learned : List SpaceRow → Names → Names
learned [] a = a
learned (row ∷ rows) a = learned rows (named row.name row.number a)

abbrev pub number_of : Option ℕ → ℤ
number_of none = negsuc 0
number_of (some n) = to_int (pos n)

no_number : (n : ℕ) (name : Bytes) → length name ≢ 4 → bytes_eq (le32 n) name ≡ false
no_number n name other = elim (Bool-cases (bytes_eq (le32 n) name)) [
  | inl same ↦ elim (other (ap length (sym (bytes_eq→eq (le32 n) name same)))) [ ]
  | inr e ↦ e
]

module _ {Spaces Indexes : Type 0} ⦃space_hash : MHash Spaces SchemaSpaceValue⦄
    ⦃index_hash : MHash Indexes SchemaIndexValue⦄ where
  -- The operations on a cache, one after another, each with what it does to the map.
  pub data Follows ⦃mp : MsgPuck⦄ : BeeSchema Spaces Indexes → Names → Type 0 where
    at_new : Follows bee_schema_new forgotten
    spaces_added :
        {s s' : BeeSchema Spaces Indexes} {a : Names} {more : Bool} (rows : List SpaceRow)
        → Follows s a
        → AreSpaceRows rows
        → length rows < 2 ^ 32
        → mp.check (mp.encode_array (length rows) ++ space_rows rows []) ≡ true
        → bee_schema_add_spaces s (mp.encode_array (length rows) ++ space_rows rows [])
          ≡ ok (s', more)
        → Follows s' (learned rows a)
    indexes_added :
        {s s' : BeeSchema Spaces Indexes} {a : Names} {more : Bool} (buf : Bytes)
        → Follows s a
        → bee_schema_add_indexes s buf ≡ ok (s', more)
        → Follows s' a
    flushed :
        {s : BeeSchema Spaces Indexes} {a : Names}
        → Follows s a
        → Follows (bee_schema_flush s) forgotten

  -- A lookup in the cache is one in the map.
  abbrev Agrees : BeeSchema Spaces Indexes → Names → Type 0
  Agrees s a =
      (name : Bytes) → length name ≢ 4 → bee_schema_get_sid_by_string s name ≡ number_of (a name)

  module _ (tables : IsMHash space_hash) where
    put_space-Agrees :
        (name : Bytes) (number : ℕ) (s : BeeSchema Spaces Indexes) (a : Names)
        → Agrees s a
        → Agrees (put_space name number s) (named name number a)
    unfolding bee_schema_get_sid_by_string
    put_space-Agrees name number s a h other four = elim (Bool-cases (bytes_eq name other)) [
      | inl same ↦
          rw (find-put_space tables other name number s, no_number number other four, same) refl
      | inr differs ↦
          rw (find-put_space tables other name number s, no_number number other four, differs)
            (h other four)
    ]

    put_rows-Agrees :
        (rows : List SpaceRow) (s : BeeSchema Spaces Indexes) (a : Names)
        → Agrees s a
        → Agrees (put_rows rows s) (learned rows a)
    unfolding put_rows
    put_rows-Agrees [] s a h = h
    put_rows-Agrees (row ∷ rows) s a h =
        put_rows-Agrees rows _ _ (put_space-Agrees row.name row.number s a h)

    put_rows-IsKeyed :
        (rows : List SpaceRow) (s : BeeSchema Spaces Indexes)
        → IsKeyed s.space_hash
        → IsKeyed (put_rows rows s).space_hash
    unfolding put_rows
    put_rows-IsKeyed [] s h = h
    put_rows-IsKeyed (row ∷ rows) s h =
        put_rows-IsKeyed rows _ (put_space-IsKeyed tables row.name row.number s h)

    module _ ⦃mp : MsgPuck⦄ where
      same_spaces :
          (s : BeeSchema Spaces Indexes) (buf : Bytes)
          → Returns (λ (s', more). s.space_hash ≡ s'.space_hash) (bee_schema_add_indexes s buf)
      unfolding bee_schema_add_indexes
      same_spaces s buf =
          add_all-Holds (λ x. s.space_hash ≡ x.space_hash) _
            (schema_add_index-Holds (λ x. s.space_hash ≡ x.space_hash) (λ x i t k. k)) s buf refl

      module _ (laws : DecodesBack mp) where
        abbrev Both : BeeSchema Spaces Indexes → Names → Type 0
        Both s a = Agrees s a × IsKeyed s.space_hash

        added-Both :
            (s s' : BeeSchema Spaces Indexes) (a : Names) (more : Bool) (rows : List SpaceRow)
            → AreSpaceRows rows
            → length rows < 2 ^ 32
            → mp.check (mp.encode_array (length rows) ++ space_rows rows []) ≡ true
            → bee_schema_add_spaces s (mp.encode_array (length rows) ++ space_rows rows [])
              ≡ ok (s', more)
            → Both s a
            → Both s' (learned rows a)
        added-Both s s' a more rows whole few checked e (agrees, keyed) =
            let put : ◌≡◌ {A = Outcome (BeeSchema Spaces Indexes × Bool)} (ok (s', more))
                (ok (put_rows rows s, true)) =
              sym e ∙ bee_schema_add_spaces-rows laws rows s whole few checked in
            let same : put_rows rows s ≡ s' = cc in
            subst (λ x. Both x (learned rows a)) same
              (put_rows-Agrees rows s a agrees, put_rows-IsKeyed rows s keyed)

        indexed-Both :
            (s s' : BeeSchema Spaces Indexes) (a : Names) (more : Bool) (buf : Bytes)
            → bee_schema_add_indexes s buf ≡ ok (s', more)
            → Both s a
            → Both s' a
        unfolding bee_schema_get_sid_by_string
        indexed-Both s s' a more buf e (agrees, keyed) =
            let same : s.space_hash ≡ s'.space_hash =
              subst (Returns (λ (x, m). s.space_hash ≡ x.space_hash)) e (same_spaces s buf) in
            (
              (λ name four.
                  ap (λ t. sid_of (space_hash.find name t)) (sym same) ∙ agrees name four),
              subst IsKeyed same keyed,
            )

        Follows-Both : {s : BeeSchema Spaces Indexes} {a : Names} → Follows s a → Both s a
        unfolding bee_schema_get_sid_by_string
        Follows-Both at_new = (
          (λ name four. ap sid_of (tables.find-new name)),
          λ k v found. (let e : none ≡ some v = sym (tables.find-new k) ∙ found in cc),
        )
        Follows-Both (spaces_added rows r whole few checked e) =
            added-Both _ _ _ _ rows whole few checked e (Follows-Both r)
        Follows-Both (indexes_added {a = a} buf r e) = indexed-Both _ _ a _ buf e (Follows-Both r)
        Follows-Both (flushed {s = s} r) =
            let keyed = (Follows-Both r).1 in
            (
              (λ name four. flush-get_sid tables s name keyed),
              bee_schema_flush-IsKeyed tables s keyed,
            )

        -- After any operations on a new cache, where each message of spaces held rows of seven
        -- fields, and with hash tables and decoders that keep to their laws: a name of other than
        -- four bytes leads to the number that the last row of that name since the last flush had,
        -- as an int32_t, or to -1 if there was none.
        pub Follows-get_sid :
            {s : BeeSchema Spaces Indexes} {a : Names} (name : Bytes)
            → Follows s a
            → length name ≢ 4
            → bee_schema_get_sid_by_string s name ≡ number_of (a name)
        Follows-get_sid name r four = (Follows-Both r).0 name four
