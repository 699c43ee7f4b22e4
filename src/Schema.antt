-- ===== src/Schema.antt =====
-- The schema cache of src/bee_schema.c: spaces and their indexes, each under its name and under
-- the four bytes of its number. The two nodes of a space share one table of indexes: it is kept in
-- `index_hashes`, and a node has its place. Allocation does not fail. Where memory is given back,
-- what is described is the nodes that are deleted and the tables that are released.
pub mod Rows
pub mod Spaces
pub mod Lookup
pub mod Indexes
pub mod Free
pub mod Holds
pub mod Keyed
pub mod Refines
pub mod Releases
pub mod Placed
pub mod Owned
use bee_php.Prelude.{
  ℕ, zero, suc, ◌+◌, ◌/◌, ◌%◌, ◌^◌, Bool, true, false, not, Option, none, some, List, [], ◌∷◌, ◌++◌,
  ltb, if◌then◌else◌, ℤ, pos, negsuc, to_int, length, Bytes, u32,
}
use bee_php.Engine.MHash.{MHash}
use bee_php.Engine.MsgPuck.{mp_uint, mp_str, mp_array, MsgPuck}
use bee_php.Engine.Outcome.{Outcome, ok, fault, lift, ◌>>=◌}
use bee_php.Proto.Response.{is_type}

pub record SchemaIndexValue : Type 0 where
  pub index_name : Bytes
  pub index_number : ℕ

pub record SchemaSpaceValue : Type 0 where
  pub space_name : Bytes
  pub space_number : ℕ
  pub index_hash : ℕ

pub record BeeSchema (Spaces Indexes : Type 0) : Type 0 where
  pub space_hash : Spaces
  pub index_hashes : List Indexes

-- The bytes of a uint32_t in the memory of a little-endian machine.
abbrev pub le32 : ℕ → Bytes
le32 n = (n % 256) ∷ (n / 2 ^ 8 % 256) ∷ (n / 2 ^ 16 % 256) ∷ (n / 2 ^ 24 % 256) ∷ []

abbrev pub nth {ℓ} : {A : Type ℓ} → ℕ → List A → Option A
nth i [] = none
nth zero (a ∷ xs) = some a
nth (suc i) (a ∷ xs) = nth i xs

abbrev pub set_nth {ℓ} : {A : Type ℓ} → ℕ → A → List A → List A
set_nth i b [] = []
set_nth zero b (a ∷ xs) = b ∷ xs
set_nth (suc i) b (a ∷ xs) = a ∷ set_nth i b xs

-- The number of a node that was found as an int32_t, or -1.
abbrev pub sid_of : Option SchemaSpaceValue → ℤ
sid_of none = negsuc 0
sid_of (some space) = to_int (pos space.space_number)

abbrev pub iid_of : Option SchemaIndexValue → ℤ
iid_of none = negsuc 0
iid_of (some index) = to_int (pos index.index_number)

-- The two nodes of an index.
module _ {Indexes : Type 0} ⦃index_hash : MHash Indexes SchemaIndexValue⦄ where
  unfoldable pub put_index : Bytes → ℕ → Indexes → Indexes
  put_index name number t =
      let node : SchemaIndexValue = record { index_name = name; index_number = number } in
      index_hash.put (le32 number) node (index_hash.put name node t)

  -- A name is looked up among the indexes of a space that was found.
  abbrev pub iid_under : List Indexes → Bytes → Option SchemaSpaceValue → Outcome ℤ
  iid_under tables name none = ok (negsuc 0)
  iid_under tables name (some space) = do
    t ← lift (nth space.index_hash tables)
    ok (iid_of (index_hash.find name t))

-- The rounds of mh_foreach over the nodes of a table: a slot that was emptied meanwhile is passed
-- over.
module _ {Indexes : Type 0} ⦃index_hash : MHash Indexes SchemaIndexValue⦄ where
  -- Those nodes that are there, under the number and under the name.
  abbrev pub del_found_index : Bytes → Indexes → Indexes
  del_found_index k t = elim (index_hash.find k t) [ none ↦ t | some v ↦ index_hash.del k t ]

  unfoldable pub free_index_nodes : SchemaIndexValue → Indexes → Indexes
  free_index_nodes ivalue t =
      del_found_index ivalue.index_name (del_found_index (le32 ivalue.index_number) t)

  unfoldable pub free_each_index : List (Bytes × SchemaIndexValue) → Indexes → Indexes
  free_each_index [] t = t
  free_each_index ((k, ivalue) ∷ nodes) t =
      free_each_index nodes
        (elim (index_hash.find k t) [ none ↦ t | some v ↦ free_index_nodes ivalue t ])

  unfoldable pub schema_index_free : Indexes → Indexes
  schema_index_free t = free_each_index (index_hash.nodes t) t

  -- The tables of the indexes of spaces that are released, at their places.
  unfoldable pub free_indexes : List ℕ → List Indexes → List Indexes
  free_indexes [] tables = tables
  free_indexes (place ∷ places) tables = free_indexes places (elim (nth place tables) [
    | none ↦ tables
    | some t ↦ set_nth place (schema_index_free t) tables
  ])

module _ {Spaces : Type 0} ⦃space_hash : MHash Spaces SchemaSpaceValue⦄ where
  abbrev pub del_found : Bytes → Spaces → Spaces
  del_found k t = elim (space_hash.find k t) [ none ↦ t | some v ↦ space_hash.del k t ]

  unfoldable pub free_nodes : SchemaSpaceValue → Spaces → Spaces
  free_nodes svalue t = del_found svalue.space_name (del_found (le32 svalue.space_number) t)

  -- schema_space_value_free: the table of indexes goes with the value.
  abbrev pub with_released : SchemaSpaceValue → Spaces × List ℕ → Spaces × List ℕ
  with_released svalue (t, places) = (t, svalue.index_hash ∷ places)

  -- The table of the spaces, and the tables of indexes that were released, in order.
  unfoldable pub free_each : List (Bytes × SchemaSpaceValue) → Spaces → Spaces × List ℕ
  free_each [] t = (t, [])
  free_each ((k, svalue) ∷ nodes) t = elim (space_hash.find k t) [
    | none ↦ free_each nodes t
    | some v ↦ with_released svalue (free_each nodes (free_nodes svalue t))
  ]

  unfoldable pub schema_space_free : Spaces → Spaces × List ℕ
  schema_space_free t = free_each (space_hash.nodes t) t

module _ {Spaces Indexes : Type 0} ⦃space_hash : MHash Spaces SchemaSpaceValue⦄
    ⦃index_hash : MHash Indexes SchemaIndexValue⦄ where
  abbrev pub bee_schema_new : BeeSchema Spaces Indexes
  bee_schema_new = record { space_hash = space_hash.new; index_hashes = [] }

  -- The two nodes of a space, with a new table of indexes.
  unfoldable pub put_space : Bytes → ℕ → BeeSchema Spaces Indexes → BeeSchema Spaces Indexes
  put_space name number s =
      let node : SchemaSpaceValue = record {
        space_name = name;
        space_number = number;
        index_hash = length s.index_hashes;
      } in
      record {
        space_hash = space_hash.put (le32 number) node (space_hash.put name node s.space_hash);
        index_hashes = s.index_hashes ++ (index_hash.new ∷ []);
      }

  module _ ⦃mp : MsgPuck⦄ where
    -- The schema, and the pointer behind the tuple or `none` for -1. The first errors free a
    -- pointer that was not set.
    unfoldable pub schema_add_space :
        BeeSchema Spaces Indexes → Bytes → Outcome (BeeSchema Spaces Indexes × Option Bytes)
    schema_add_space s buf = do
      is_array ← is_type mp_array buf
      if not is_array then fault else do
        (tuple_len, p) ← lift (mp.decode_array buf)
        if ltb (u32 tuple_len) 6 then fault else do
          is_uint ← is_type mp_uint p
          if not is_uint then ok (s, none) else do
            (number, p₁) ← lift (mp.decode_uint p)
            p₂ ← lift (mp.next p₁)
            is_str ← is_type mp_str p₂
            if not is_str then ok (s, none) else do
              (name, p₃) ← lift (mp.decode_str p₂)
              p₄ ← lift (mp.next p₃)
              p₅ ← lift (mp.next p₄)
              p₆ ← lift (mp.next p₅)
              p₇ ← lift (mp.next p₆)
              ok (put_space name (u32 number) s, some p₇)

    -- The tables of indexes after a put into the one at `place`.
    unfoldable pub add_to :
        ℕ → Bytes → ℕ → BeeSchema Spaces Indexes → Outcome (BeeSchema Spaces Indexes)
    add_to place name number s = do
      t ← lift (nth place s.index_hashes)
      ok (record s { index_hashes = set_nth place (put_index name number t) s.index_hashes })

    unfoldable pub schema_add_index :
        BeeSchema Spaces Indexes → Bytes → Outcome (BeeSchema Spaces Indexes × Option Bytes)
    schema_add_index s buf = do
      is_array ← is_type mp_array buf
      if not is_array then fault else do
        (tuple_len, p) ← lift (mp.decode_array buf)
        if ltb (u32 tuple_len) 6 then fault else do
          (space_number, p₁) ← lift (mp.decode_uint p)
          is_uint ← is_type mp_uint p₁
          if not is_uint
              then fault
              else elim (space_hash.find (le32 (u32 space_number)) s.space_hash) [
                | none ↦ ok (s, none)
                | some space ↦ do
                  (number, p₂) ← lift (mp.decode_uint p₁)
                  is_str ← is_type mp_str p₂
                  if not is_str then ok (s, none) else do
                    (name, p₃) ← lift (mp.decode_str p₂)
                    p₄ ← lift (mp.next p₃)
                    p₅ ← lift (mp.next p₄)
                    p₆ ← lift (mp.next p₅)
                    s' ← add_to space.index_hash name (u32 number) s
                    ok (s', some p₆)
              ]

    -- while (space_count-- > 0)
    unfoldable pub add_each :
        (add : BeeSchema Spaces Indexes → Bytes → Outcome (BeeSchema Spaces Indexes × Option Bytes))
        → ℕ
        → BeeSchema Spaces Indexes
        → Bytes
        → Outcome (BeeSchema Spaces Indexes × Bool)
    add_each add zero s p = ok (s, true)
    add_each add (suc n) s p = do
      (s', next) ← add s p
      elim next [ none ↦ ok (s', false) | some p' ↦ add_each add n s' p' ]

    -- The message is the `size` bytes at `buf`; `false` is a return of -1.
    unfoldable pub add_all :
        (add : BeeSchema Spaces Indexes → Bytes → Outcome (BeeSchema Spaces Indexes × Option Bytes))
        → BeeSchema Spaces Indexes
        → Bytes
        → Outcome (BeeSchema Spaces Indexes × Bool)
    add_all add s buf = if not (mp.check buf) then ok (s, false) else do
      is_array ← is_type mp_array buf
      if not is_array
          then ok (s, false)
          else do (count, p) ← lift (mp.decode_array buf); add_each add (u32 count) s p

    unfoldable pub bee_schema_add_spaces :
        BeeSchema Spaces Indexes → Bytes → Outcome (BeeSchema Spaces Indexes × Bool)
    bee_schema_add_spaces = add_all schema_add_space

    unfoldable pub bee_schema_add_indexes :
        BeeSchema Spaces Indexes → Bytes → Outcome (BeeSchema Spaces Indexes × Bool)
    bee_schema_add_indexes = add_all schema_add_index

  unfoldable pub bee_schema_get_sid_by_string : BeeSchema Spaces Indexes → Bytes → ℤ
  bee_schema_get_sid_by_string s name = sid_of (space_hash.find name s.space_hash)

  unfoldable pub bee_schema_get_iid_by_string : BeeSchema Spaces Indexes → ℕ → Bytes → Outcome ℤ
  bee_schema_get_iid_by_string s sid name =
      iid_under s.index_hashes name (space_hash.find (le32 sid) s.space_hash)

  -- No node leads to a table of indexes any more.
  -- The tables of indexes that a flush releases.
  abbrev pub flush_releases : BeeSchema Spaces Indexes → List ℕ
  flush_releases s = (schema_space_free s.space_hash).1

  unfoldable pub bee_schema_flush : BeeSchema Spaces Indexes → BeeSchema Spaces Indexes
  bee_schema_flush s = record s {
    space_hash = (schema_space_free s.space_hash).0;
    index_hashes = free_indexes (flush_releases s) s.index_hashes;
  }

  -- The tables of indexes that are released before the cache itself is.
  unfoldable pub bee_schema_delete : Option (BeeSchema Spaces Indexes) → List ℕ
  bee_schema_delete none = []
  bee_schema_delete (some s) = (schema_space_free s.space_hash).1
