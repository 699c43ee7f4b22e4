-- ===== src/Schema/Keyed.antt =====
-- What the cache keeps to: a node lies under its name or under its number.
use bee_php.Prelude.{
  ℕ, ◌≡◌, refl, sym, ◌∙◌, ◌⊎◌, inl, inr, Bool-cases, some, Bytes, bytes_eq, bytes_eq→eq,
}
use bee_php.Engine.MHash.{MHash, IsMHash}
use bee_php.Engine.MsgPuck.{MsgPuck}
use bee_php.Schema.{
  SchemaIndexValue, SchemaSpaceValue, BeeSchema, le32, put_space, schema_add_space,
  schema_add_index, bee_schema_add_spaces, bee_schema_add_indexes,
}
use bee_php.Schema.Free.{IsKeyed}
use bee_php.Schema.Holds.{Returns, schema_add_space-Holds, schema_add_index-Holds, add_all-Holds}

module _ {Spaces : Type 0} ⦃space_hash : MHash Spaces SchemaSpaceValue⦄
    (tables : IsMHash space_hash) where
  put-IsKeyed :
      (k : Bytes) (v : SchemaSpaceValue) (t : Spaces)
      → IsKeyed t
      → (k ≡ v.space_name) ⊎ (k ≡ le32 v.space_number)
      → IsKeyed (space_hash.put k v t)
  put-IsKeyed j w t keyed own k v found = elim (Bool-cases (bytes_eq j k)) [
    | inl same ↦
        let e : some w ≡ some v = sym (tables.find-put k j w t ∙ rw same) ∙ found in
        let e' : w ≡ v = cc in rw (← e', ← bytes_eq→eq j k same) own
    | inr other ↦ keyed k v (sym (tables.find-put k j w t ∙ rw other) ∙ found)
  ]

module _ {Spaces Indexes : Type 0} ⦃space_hash : MHash Spaces SchemaSpaceValue⦄
    ⦃index_hash : MHash Indexes SchemaIndexValue⦄ (tables : IsMHash space_hash) where
  pub put_space-IsKeyed :
      (name : Bytes) (number : ℕ) (s : BeeSchema Spaces Indexes)
      → IsKeyed s.space_hash
      → IsKeyed (put_space name number s).space_hash
  unfolding put_space
  put_space-IsKeyed name number s keyed =
      put-IsKeyed tables _ _ _ (put-IsKeyed tables _ _ _ keyed (inl refl)) (inr refl)

  module _ ⦃mp : MsgPuck⦄ where
    pub bee_schema_add-IsKeyed :
        (s : BeeSchema Spaces Indexes) (buf : Bytes)
        → IsKeyed s.space_hash
        → Returns (λ (s', more). IsKeyed s'.space_hash) (bee_schema_add_spaces s buf)
          × Returns (λ (s', more). IsKeyed s'.space_hash) (bee_schema_add_indexes s buf)
    unfolding bee_schema_add_spaces bee_schema_add_indexes
    bee_schema_add-IsKeyed s buf keyed = (
      add_all-Holds (λ x. IsKeyed x.space_hash) schema_add_space
          (schema_add_space-Holds (λ x. IsKeyed x.space_hash) put_space-IsKeyed) s buf keyed,
      add_all-Holds (λ x. IsKeyed x.space_hash) schema_add_index
          (schema_add_index-Holds (λ x. IsKeyed x.space_hash) (λ x i t k. k)) s buf keyed,
    )
