-- ===== src/Schema/Releases.antt =====
-- The two nodes of a space share a table of indexes: when the cache is flushed, each such table is
-- given back at most once.
use bee_php.Prelude.{
  ℕ, ◌≡◌, ◌≢◌, refl, sym, ap, ◌∙◌, inl, inr, ◌⊎◌, Bool-cases, Option-cases, none, some, List, [],
  ◌∷◌, if◌then◌else◌, Occurs, at_first, at_later, Bytes, bytes_eq,
}
use bee_php.Engine.MHash.{MHash, IsMHash}
use bee_php.Schema.{SchemaSpaceValue, le32, del_found, free_nodes, free_each, schema_space_free}
use bee_php.Schema.Free.{IsKeyed, free_nodes_self, free_each_passed, free_each_freed}

-- No number stands in a list twice.
abbrev pub AreDistinct : List ℕ → Type 0
AreDistinct [] = Unit {0}
AreDistinct (n ∷ ns) = (Occurs n ns → ⊥) × AreDistinct ns

module _ {Spaces : Type 0} ⦃space_hash : MHash Spaces SchemaSpaceValue⦄ where
  -- Nodes that share a table of indexes are those of one space.
  abbrev pub IsPaired : Spaces → Type 0
  IsPaired t =
      (k j : Bytes) (v w : SchemaSpaceValue)
      → space_hash.find k t ≡ some v
      → space_hash.find j t ≡ some w
      → v.index_hash ≡ w.index_hash
      → (v.space_name ≡ w.space_name) × (v.space_number ≡ w.space_number)

  -- The nodes of one table are all in another.
  abbrev IsWithin : Spaces → Spaces → Type 0
  IsWithin t t₀ =
      (k : Bytes) (v : SchemaSpaceValue)
      → space_hash.find k t ≡ some v
      → space_hash.find k t₀ ≡ some v

  -- No node has a table of indexes.
  abbrev pub Lacks : ℕ → Spaces → Type 0
  Lacks i t = (k : Bytes) (v : SchemaSpaceValue) → space_hash.find k t ≡ some v → v.index_hash ≢ i

  abbrev AreNodes : List (Bytes × SchemaSpaceValue) → Spaces → Type 0
  AreNodes nodes t =
      (k : Bytes) (v : SchemaSpaceValue) → Occurs (k, v) nodes → space_hash.find k t ≡ some v

module _ {Spaces : Type 0} ⦃space_hash : MHash Spaces SchemaSpaceValue⦄
    (tables : IsMHash space_hash) where
  del_found-IsWithin : (j : Bytes) (t : Spaces) → IsWithin (del_found j t) t
  del_found-IsWithin j t k w found = elim (Option-cases (space_hash.find j t)) [
    | inl e ↦ (rw (del_found, e) at found)
    | inr (v, e) ↦
        let deleted : (if bytes_eq j k then none else space_hash.find k t) ≡ some w =
          sym (tables.find-del k j t) ∙ (rw (del_found, e) at found) in
        elim (Bool-cases (bytes_eq j k)) [
          | inl same ↦ (let none_some : none ≡ some w = (rw same at deleted) in cc)
          | inr other ↦ (rw other at deleted)
        ]
  ]

  free_nodes-IsWithin : (v : SchemaSpaceValue) (t : Spaces) → IsWithin (free_nodes v t) t
  unfolding free_nodes
  free_nodes-IsWithin v t k w found =
      del_found-IsWithin (le32 v.space_number) t k w
        (del_found-IsWithin v.space_name (del_found (le32 v.space_number) t) k w found)

  -- Once a node's round is over, no node has its table of indexes.
  free_nodes-Lacks :
      (v : SchemaSpaceValue) (k : Bytes) (t t₀ : Spaces)
      → IsKeyed t₀
      → IsPaired t₀
      → IsWithin t t₀
      → space_hash.find k t₀ ≡ some v
      → Lacks v.index_hash (free_nodes v t)
  free_nodes-Lacks v k t t₀ keyed paired within at_k j u found same =
      let at_j = within j u (free_nodes-IsWithin v t j u found) in
      let (names, numbers) = paired j k u v at_j at_k same in
      let own : (j ≡ v.space_name) ⊎ (j ≡ le32 v.space_number) = elim (keyed j u at_j) [
        | inl e ↦ inl (e ∙ names)
        | inr e ↦ inr (e ∙ ap le32 numbers)
      ] in
      let gone : none ≡ some u = sym (free_nodes_self tables j v t own) ∙ found in cc

  free_each-Lacks :
      (i : ℕ) (nodes : List (Bytes × SchemaSpaceValue)) (t t₀ : Spaces)
      → AreNodes nodes t₀
      → IsWithin t t₀
      → Lacks i t
      → Occurs i (free_each nodes t).1
      → ⊥
  unfolding free_each
  free_each-Lacks i [] t t₀ whole within lacks m = elim m [ ]
  free_each-Lacks i ((k, v) ∷ nodes) t t₀ whole within lacks m =
      elim (Option-cases (space_hash.find k t)) [
        | inl e ↦
            free_each-Lacks i nodes t t₀ (λ j w o. whole j w (at_later o)) within lacks
              (rw (free_each_passed tables k v nodes t e) at m)
        | inr (w, e) ↦
            let found = whole k v (at_first refl) in
            let same : some w ≡ some v = sym (within k w e) ∙ found in
            let same' : w ≡ v = cc in
            elim (rw (free_each_freed tables k v w nodes t e) at m) [
              | at_first head ↦ lacks k w e (ap (λ x. x.index_hash) same' ∙ sym head)
              | at_later m' ↦
                  free_each-Lacks i nodes (free_nodes v t) t₀ (λ j x o. whole j x (at_later o))
                    (λ j x y. within j x (free_nodes-IsWithin v t j x y))
                    (λ j x y. lacks j x (free_nodes-IsWithin v t j x y)) m'
            ]
      ]

  free_each-AreDistinct :
      (nodes : List (Bytes × SchemaSpaceValue)) (t t₀ : Spaces)
      → IsKeyed t₀
      → IsPaired t₀
      → AreNodes nodes t₀
      → IsWithin t t₀
      → AreDistinct (free_each nodes t).1
  unfolding free_each
  free_each-AreDistinct [] t t₀ keyed paired whole within = tt
  free_each-AreDistinct ((k, v) ∷ nodes) t t₀ keyed paired whole within =
      elim (Option-cases (space_hash.find k t)) [
        | inl e ↦
            rw (free_each_passed tables k v nodes t e) (
              free_each-AreDistinct nodes t t₀ keyed paired (λ j w o. whole j w (at_later o))
                within)
        | inr (w, e) ↦ rw (free_each_freed tables k v w nodes t e) (
          free_each-Lacks v.index_hash nodes (free_nodes v t) t₀ (λ j x o. whole j x (at_later o))
              (λ j x y. within j x (free_nodes-IsWithin v t j x y))
              (free_nodes-Lacks v k t t₀ keyed paired within (whole k v (at_first refl))),
          free_each-AreDistinct nodes (free_nodes v t) t₀ keyed paired
              (λ j w o. whole j w (at_later o))
              (λ j x y. within j x (free_nodes-IsWithin v t j x y)),
        )
      ]

  -- A table of indexes that no node has is not released.
  pub schema_space_free-Lacks :
      (i : ℕ) (t : Spaces) → Lacks i t → Occurs i (schema_space_free t).1 → ⊥
  unfolding schema_space_free
  schema_space_free-Lacks i t =
      free_each-Lacks i (space_hash.nodes t) t t (λ k v o. tables.nodes-find k v t o) (λ k v e. e)

  pub schema_space_free-AreDistinct :
      (t : Spaces) → IsKeyed t → IsPaired t → AreDistinct (schema_space_free t).1
  unfolding schema_space_free
  schema_space_free-AreDistinct t keyed paired =
      free_each-AreDistinct (space_hash.nodes t) t t keyed paired
        (λ k v o. tables.nodes-find k v t o) (λ k v e. e)
