-- ===== src/Schema/Placed.antt =====
-- Nodes of the spaces and the tables of indexes that belong to them.
use bee_php.Prelude.{
  ℕ, zero, suc, ◌+◌, ◌<◌, ◌≡◌, refl, sym, ap, ◌∙◌, inl, inr, ◌⊎◌, Bool-cases, none, some, List, [],
  ◌∷◌, Option-cases, arith, length, length-append, Bytes, bytes_eq,
}
use bee_php.Engine.MHash.{MHash, IsMHash}
use bee_php.Schema.{
  SchemaIndexValue, SchemaSpaceValue, BeeSchema, le32, set_nth, put_space, bee_schema_flush,
  free_indexes, schema_index_free, nth,
}
use bee_php.Schema.Lookup.{node_of, find-put_space}
use bee_php.Schema.Free.{IsKeyed, schema_space_free-Empty}
use bee_php.Schema.Keyed.{put_space-IsKeyed}
use bee_php.Schema.Releases.{IsPaired}

pub length-set_nth {ℓ} :
    {A : Type ℓ} (i : ℕ) (b : A) (xs : List A) → length (set_nth i b xs) ≡ length xs
length-set_nth i b [] = refl
length-set_nth zero b (a ∷ xs) = refl
length-set_nth (suc i) b (a ∷ xs) = ap suc (length-set_nth i b xs)

pub length-free_indexes :
    {Indexes : Type 0} ⦃index_hash : MHash Indexes SchemaIndexValue⦄ (places : List ℕ)
    (tables : List Indexes)
    → length (free_indexes places tables) ≡ length tables
unfolding free_indexes
length-free_indexes [] tables = refl
length-free_indexes (place ∷ places) tables = elim (Option-cases (nth place tables)) [
  | inl e ↦ rw e (length-free_indexes places tables)
  | inr (t, e) ↦ rw e (
      length-free_indexes places (set_nth place (schema_index_free t) tables)
      ∙ length-set_nth place (schema_index_free t) tables)
]

module _ {Spaces Indexes : Type 0} ⦃space_hash : MHash Spaces SchemaSpaceValue⦄
    ⦃index_hash : MHash Indexes SchemaIndexValue⦄ where
  -- Nodes lie under their keys, those that share a table of indexes are of one space, and each has
  -- a table.
  pub record IsOwned (s : BeeSchema Spaces Indexes) : Type 0 where
    pub keyed : IsKeyed s.space_hash
    pub paired : IsPaired s.space_hash
    pub placed :
        (k : Bytes) (v : SchemaSpaceValue)
        → space_hash.find k s.space_hash ≡ some v
        → v.index_hash < length s.index_hashes

  pub set_index-IsOwned :
      (s : BeeSchema Spaces Indexes) (i : ℕ) (t : Indexes)
      → IsOwned s
      → IsOwned (record s { index_hashes = set_nth i t s.index_hashes })
  set_index-IsOwned s i t o = record {
    keyed = o.keyed;
    paired = o.paired;
    placed = λ k v found. omega (arith, o.placed k v found, length-set_nth i t s.index_hashes);
  }

  pub length-put_space :
      (name : Bytes) (number : ℕ) (s : BeeSchema Spaces Indexes)
      → length (put_space name number s).index_hashes ≡ length s.index_hashes + 1
  unfolding put_space
  length-put_space name number s = length-append s.index_hashes (index_hash.new ∷ [])

  module _ (tables : IsMHash space_hash) where
    pub put_space-cases :
        (key name : Bytes) (number : ℕ) (s : BeeSchema Spaces Indexes) (v : SchemaSpaceValue)
        → space_hash.find key (put_space name number s).space_hash ≡ some v
        → (node_of name number s ≡ v) ⊎ (space_hash.find key s.space_hash ≡ some v)
    put_space-cases key name number s v found =
        let found' = sym (find-put_space tables key name number s) ∙ found in
        elim (Bool-cases (bytes_eq (le32 number) key)) [
          | inl e ↦ inl (let e' : some (node_of name number s) ≡ some v = (rw e at found') in cc)
          | inr e ↦ elim (Bool-cases (bytes_eq name key)) [
            | inl f ↦
                inl (let e' : some (node_of name number s) ≡ some v = (rw (e, f) at found') in cc)
            | inr f ↦ inr (rw (e, f) at found')
          ]
        ]

    pub put_space-IsOwned :
        (name : Bytes) (number : ℕ) (s : BeeSchema Spaces Indexes)
        → IsOwned s
        → IsOwned (put_space name number s)
    put_space-IsOwned name number s o = record {
      keyed = put_space-IsKeyed tables name number s o.keyed;
      paired = λ k j v w at_k at_j same. elim (put_space-cases k name number s v at_k) [
        | inl new ↦ elim (put_space-cases j name number s w at_j) [
          | inl new' ↦
              (ap (λ x. x.space_name) (sym new ∙ new'), ap (λ x. x.space_number) (sym new ∙ new'))
          | inr old' ↦ absurd (omega (arith, o.placed j w old', ap (λ x. x.index_hash) new, same))
        ]
        | inr old ↦ elim (put_space-cases j name number s w at_j) [
          | inl new' ↦ absurd (omega (arith, o.placed k v old, ap (λ x. x.index_hash) new', same))
          | inr old' ↦ o.paired k j v w old old' same
        ]
      ];
      placed = λ k v found.
          let more = length-put_space name number s in
          elim (put_space-cases k name number s v found) [
            | inl new ↦ omega (arith, more, ap (λ x. x.index_hash) new)
            | inr old ↦ omega (arith, more, o.placed k v old)
          ];
    }

    pub flush-IsOwned : (s : BeeSchema Spaces Indexes) → IsOwned s → IsOwned (bee_schema_flush s)
    unfolding bee_schema_flush
    flush-IsOwned s o =
        let gone = schema_space_free-Empty tables s.space_hash o.keyed in
        record {
          keyed = λ k v found. (let e : none ≡ some v = sym (gone k) ∙ found in cc);
          paired = λ k j v w found at_j same. (let e : none ≡ some v = sym (gone k) ∙ found in cc);
          placed = λ k v found. (let e : none ≡ some v = sym (gone k) ∙ found in cc);
        }
