-- ===== src/Schema/Free.antt =====
-- bee_schema_flush of src/bee_schema.c: the cache is empty afterwards.
use bee_php.Prelude.{
  ◌≡◌, refl, sym, ap, ◌∙◌, ◌⊎◌, inl, inr, Bool-cases, Option-cases, none, some, List, [], ◌∷◌,
  Occurs, at_first, at_later, negsuc, Bytes, bytes_eq, bytes_eq_refl,
}
use bee_php.Engine.MHash.{MHash, IsMHash}
use bee_php.Schema.{
  SchemaIndexValue, SchemaSpaceValue, BeeSchema, le32, sid_of, del_found, with_released, free_nodes,
  free_each, schema_space_free, bee_schema_flush, bee_schema_get_sid_by_string,
}

module _ {Spaces : Type 0} ⦃space_hash : MHash Spaces SchemaSpaceValue⦄ where
  -- A node lies under its name or under its number.
  abbrev pub IsKeyed : Spaces → Type 0
  IsKeyed t =
      (k : Bytes) (v : SchemaSpaceValue)
      → space_hash.find k t ≡ some v
      → (k ≡ v.space_name) ⊎ (k ≡ le32 v.space_number)

module _ {Spaces : Type 0} ⦃space_hash : MHash Spaces SchemaSpaceValue⦄
    (tables : IsMHash space_hash) where
  del_found_self : (k : Bytes) (t : Spaces) → space_hash.find k (del_found k t) ≡ none
  del_found_self k t = elim (Option-cases (space_hash.find k t)) [
    | inl e ↦ rw (del_found, e) e
    | inr (v, e) ↦ rw (del_found, e, tables.find-del k k t, bytes_eq_refl k)
  ]

  del_found_gone :
      (k j : Bytes) (t : Spaces)
      → space_hash.find k t ≡ none
      → space_hash.find k (del_found j t) ≡ none
  del_found_gone k j t gone = elim (Option-cases (space_hash.find j t)) [
    | inl e ↦ rw (del_found, e) gone
    | inr (v, e) ↦
        rw (del_found, e, tables.find-del k j t)
          (elim (Bool-cases (bytes_eq j k)) [ inl same ↦ rw same | inr other ↦ rw other gone ])
  ]

  pub free_nodes_gone :
      (k : Bytes) (v : SchemaSpaceValue) (t : Spaces)
      → space_hash.find k t ≡ none
      → space_hash.find k (free_nodes v t) ≡ none
  unfolding free_nodes
  free_nodes_gone k v t gone =
      del_found_gone k v.space_name (del_found (le32 v.space_number) t)
        (del_found_gone k (le32 v.space_number) t gone)

  pub free_nodes_self :
      (k : Bytes) (v : SchemaSpaceValue) (t : Spaces)
      → (k ≡ v.space_name) ⊎ (k ≡ le32 v.space_number)
      → space_hash.find k (free_nodes v t) ≡ none
  unfolding free_nodes
  free_nodes_self k v t (inl name) =
      rw name (del_found_self v.space_name (del_found (le32 v.space_number) t))
  free_nodes_self k v t (inr number) = rw number (
      del_found_gone (le32 v.space_number) v.space_name (del_found (le32 v.space_number) t)
        (del_found_self (le32 v.space_number) t))

  -- A round at a slot that was emptied, and one at a slot that was not.
  pub free_each_passed :
      (k : Bytes) (v : SchemaSpaceValue) (nodes : List (Bytes × SchemaSpaceValue)) (t : Spaces)
      → space_hash.find k t ≡ none
      → free_each ((k, v) ∷ nodes) t ≡ free_each nodes t
  unfolding free_each
  free_each_passed k v nodes t e = rw (e, free_each) refl

  pub free_each_freed :
      (k : Bytes) (v w : SchemaSpaceValue) (nodes : List (Bytes × SchemaSpaceValue)) (t : Spaces)
      → space_hash.find k t ≡ some w
      → free_each ((k, v) ∷ nodes) t ≡ with_released v (free_each nodes (free_nodes v t))
  unfolding free_each
  free_each_freed k v w nodes t e = rw (e, free_each) refl

  free_each_gone :
      (k : Bytes) (nodes : List (Bytes × SchemaSpaceValue)) (t : Spaces)
      → space_hash.find k t ≡ none
      → space_hash.find k (free_each nodes t).0 ≡ none
  unfolding free_each
  free_each_gone k [] t gone = gone
  free_each_gone k ((j, v) ∷ nodes) t gone = elim (Option-cases (space_hash.find j t)) [
    | inl e ↦ rw (free_each_passed j v nodes t e) (free_each_gone k nodes t gone)
    | inr (w, e) ↦
        rw (free_each_freed j v w nodes t e)
          (free_each_gone k nodes (free_nodes v t) (free_nodes_gone k v t gone))
  ]

  free_each_met :
      (k : Bytes) (v : SchemaSpaceValue) (nodes : List (Bytes × SchemaSpaceValue)) (t : Spaces)
      → (k ≡ v.space_name) ⊎ (k ≡ le32 v.space_number)
      → Occurs (k, v) nodes
      → space_hash.find k (free_each nodes t).0 ≡ none
  unfolding free_each
  free_each_met k v [] t own m = elim m [ ]
  free_each_met k v ((j, w) ∷ nodes) t own (at_later m) =
      elim (Option-cases (space_hash.find j t)) [
        | inl e ↦ rw (free_each_passed j w nodes t e) (free_each_met k v nodes t own m)
        | inr (x, e) ↦
            rw (free_each_freed j w x nodes t e) (free_each_met k v nodes (free_nodes w t) own m)
      ]
  free_each_met k v ((j, w) ∷ nodes) t own (at_first e) =
      elim (Option-cases (space_hash.find j t)) [
        | inl gone ↦
            rw (free_each_passed j w nodes t gone)
              (free_each_gone k nodes t (rw (ap (λ p. p.0) e) gone))
        | inr (x, found) ↦ rw (free_each_freed j w x nodes t found) (
            free_each_gone k nodes (free_nodes w t)
              (rw (← ap (λ p. p.1) e) (free_nodes_self k v t own)))
      ]

  pub schema_space_free-Empty :
      (t : Spaces) → IsKeyed t → (k : Bytes) → space_hash.find k (schema_space_free t).0 ≡ none
  unfolding schema_space_free
  schema_space_free-Empty t keyed k = elim (Option-cases (space_hash.find k t)) [
    | inl e ↦ free_each_gone k (space_hash.nodes t) t e
    | inr (v, e) ↦ free_each_met k v (space_hash.nodes t) t (keyed k v e) (tables.nodes-all k v t e)
  ]

  -- bee_schema_flush leaves no name known, in a cache where each node lies under its name or its
  -- number.
  pub flush-get_sid :
      {Indexes : Type 0} ⦃index_hash : MHash Indexes SchemaIndexValue⦄
      (s : BeeSchema Spaces Indexes) (name : Bytes)
      → IsKeyed s.space_hash
      → bee_schema_get_sid_by_string (bee_schema_flush s) name ≡ negsuc 0
  unfolding bee_schema_flush bee_schema_get_sid_by_string
  flush-get_sid s name keyed = ap sid_of (schema_space_free-Empty s.space_hash keyed name)

  pub bee_schema_flush-IsKeyed :
      {Indexes : Type 0} ⦃index_hash : MHash Indexes SchemaIndexValue⦄
      (s : BeeSchema Spaces Indexes)
      → IsKeyed s.space_hash
      → IsKeyed (bee_schema_flush s).space_hash
  unfolding bee_schema_flush
  bee_schema_flush-IsKeyed s keyed k v found =
      let gone : none ≡ some v = sym (schema_space_free-Empty s.space_hash keyed k) ∙ found in cc
