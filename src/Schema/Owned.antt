-- ===== src/Schema/Owned.antt =====
-- Whatever is read into a cache, and however often it is flushed, each table of indexes belongs to
-- one space.
use bee_php.Prelude.{
  ℕ, ◌<◌, ◌≡◌, refl, sym, ap, ◌∙◌, inl, inr, ◌⊎◌, Bool, Bool-cases, none, some, List, [], ◌∷◌, ◌++◌,
  Occurs, at_first, at_later, ltb, arith, length, Bytes,
}
use mathlib.Core.Path.{subst}
use bee_php.Engine.MHash.{MHash, IsMHash}
use bee_php.Engine.MsgPuck.{MsgPuck}
use bee_php.Engine.Outcome.{ok}
use bee_php.Schema.{
  SchemaIndexValue, SchemaSpaceValue, BeeSchema, set_nth, put_space, bee_schema_new,
  bee_schema_add_spaces, bee_schema_add_indexes, bee_schema_flush, bee_schema_delete,
  schema_add_space, schema_add_index, flush_releases,
}
use bee_php.Schema.Holds.{Returns, schema_add_space-Holds, schema_add_index-Holds, add_all-Holds}
use bee_php.Schema.Free.{schema_space_free-Empty}
use bee_php.Schema.Releases.{
  AreDistinct, Lacks, schema_space_free-Lacks, schema_space_free-AreDistinct,
}
use bee_php.Schema.Placed.{
  length-set_nth, length-free_indexes, IsOwned, set_index-IsOwned, length-put_space,
  put_space-cases, put_space-IsOwned, flush-IsOwned,
}

Occurs-append : {n : ℕ} (ns ms : List ℕ) → Occurs n (ns ++ ms) → Occurs n ns ⊎ Occurs n ms
Occurs-append [] ms o = inr o
Occurs-append (m ∷ ns) ms (at_first e) = inl (at_first e)
Occurs-append (m ∷ ns) ms (at_later o) = elim (Occurs-append ns ms o) [
  | inl l ↦ inl (at_later l)
  | inr r ↦ inr r
]

AreDistinct-append :
    (ns ms : List ℕ)
    → AreDistinct ns
    → AreDistinct ms
    → ((n : ℕ) → Occurs n ns → Occurs n ms → ⊥)
    → AreDistinct (ns ++ ms)
AreDistinct-append [] ms h g apart = g
AreDistinct-append (n ∷ ns) ms (new, h) g apart = (
  λ o. elim (Occurs-append ns ms o) [ inl l ↦ new l | inr r ↦ apart n (at_first refl) r ],
  AreDistinct-append ns ms h g (λ m l r. apart m (at_later l) r),
)

module _ {Spaces Indexes : Type 0} ⦃space_hash : MHash Spaces SchemaSpaceValue⦄
    ⦃index_hash : MHash Indexes SchemaIndexValue⦄ where
  -- No table of indexes was released twice, those that were released are among those that there
  -- were, and no node has one of them.
  pub record IsAccounted (log : List ℕ) (s : BeeSchema Spaces Indexes) : Type 0 where
    pub owned : IsOwned s
    pub distinct : AreDistinct log
    pub bounded : (i : ℕ) → Occurs i log → i < length s.index_hashes
    pub let_go : (i : ℕ) → Occurs i log → Lacks i s.space_hash

  module _ ⦃mp : MsgPuck⦄ where
    -- What is done with a cache, and the tables of indexes that were released: any bytes are read
    -- into it, and it is flushed.
    pub data Fills : List ℕ → BeeSchema Spaces Indexes → Type 0 where
      at_new : Fills [] bee_schema_new
      spaces_read :
          {log : List ℕ} {s s' : BeeSchema Spaces Indexes} {more : Bool} (buf : Bytes)
          → Fills log s
          → bee_schema_add_spaces s buf ≡ ok (s', more)
          → Fills log s'
      indexes_read :
          {log : List ℕ} {s s' : BeeSchema Spaces Indexes} {more : Bool} (buf : Bytes)
          → Fills log s
          → bee_schema_add_indexes s buf ≡ ok (s', more)
          → Fills log s'
      emptied :
          {log : List ℕ} {s : BeeSchema Spaces Indexes}
          → Fills log s
          → Fills (flush_releases s ++ log) (bee_schema_flush s)

  module _ (tables : IsMHash space_hash) where
    put_space-IsAccounted :
        (log : List ℕ) (name : Bytes) (number : ℕ) (s : BeeSchema Spaces Indexes)
        → IsAccounted log s
        → IsAccounted log (put_space name number s)
    put_space-IsAccounted log name number s a = record {
      owned = put_space-IsOwned tables name number s a.owned;
      distinct = a.distinct;
      bounded = λ i o. omega (arith, length-put_space name number s, a.bounded i o);
      let_go = λ i o k v found same. elim (put_space-cases tables k name number s v found) [
        | inl new ↦ absurd (omega (arith, a.bounded i o, ap (λ x. x.index_hash) new, same))
        | inr old ↦ a.let_go i o k v old same
      ];
    }

    set_index-IsAccounted :
        (log : List ℕ) (s : BeeSchema Spaces Indexes) (i : ℕ) (t : Indexes)
        → IsAccounted log s
        → IsAccounted log (record s { index_hashes = set_nth i t s.index_hashes })
    set_index-IsAccounted log s i t a = record {
      owned = set_index-IsOwned s i t a.owned;
      distinct = a.distinct;
      bounded = λ j o. omega (arith, length-set_nth i t s.index_hashes, a.bounded j o);
      let_go = a.let_go;
    }

    -- What a flush or bee_schema_delete releases was not released before.
    releases-AreDistinct :
        (log : List ℕ) (s : BeeSchema Spaces Indexes)
        → IsAccounted log s
        → AreDistinct (flush_releases s ++ log)
    releases-AreDistinct log s a =
        AreDistinct-append (flush_releases s) log
          (schema_space_free-AreDistinct tables s.space_hash a.owned.keyed a.owned.paired)
          a.distinct (λ i o l. schema_space_free-Lacks tables i s.space_hash (a.let_go i l) o)

    released_bounded :
        (s : BeeSchema Spaces Indexes) (i : ℕ)
        → IsOwned s
        → Occurs i (flush_releases s)
        → i < length s.index_hashes
    released_bounded s i o released = elim (Bool-cases (ltb i (length s.index_hashes))) [
      | inl e ↦ ground arith
      | inr e ↦ absurd (
          schema_space_free-Lacks tables i s.space_hash
            (λ k v found same. (let low = o.placed k v found in ground arith)) released)
    ]

    flush-IsAccounted :
        (log : List ℕ) (s : BeeSchema Spaces Indexes)
        → IsAccounted log s
        → IsAccounted (flush_releases s ++ log) (bee_schema_flush s)
    unfolding bee_schema_flush
    flush-IsAccounted log s a =
        let whole = length-free_indexes (flush_releases s) s.index_hashes in
        record {
          owned = flush-IsOwned tables s a.owned;
          distinct = releases-AreDistinct log s a;
          bounded = λ i o. elim (Occurs-append (flush_releases s) log o) [
            | inl new ↦ omega (arith, whole, released_bounded s i a.owned new)
            | inr old ↦ omega (arith, whole, a.bounded i old)
          ];
          let_go = λ i o k v found same.
              (let gone = schema_space_free-Empty tables s.space_hash a.owned.keyed k in
                let e : none ≡ some v = sym gone ∙ found in cc);
        }

    module _ ⦃mp : MsgPuck⦄ where
      add-IsAccounted :
          (log : List ℕ) (s : BeeSchema Spaces Indexes) (buf : Bytes)
          → IsAccounted log s
          → Returns (λ (s', more). IsAccounted log s') (bee_schema_add_spaces s buf)
            × Returns (λ (s', more). IsAccounted log s') (bee_schema_add_indexes s buf)
      unfolding bee_schema_add_spaces bee_schema_add_indexes
      add-IsAccounted log s buf a = (
        add_all-Holds (IsAccounted log) schema_add_space
            (schema_add_space-Holds (IsAccounted log) (put_space-IsAccounted log)) s buf a,
        add_all-Holds (IsAccounted log) schema_add_index
            (schema_add_index-Holds (IsAccounted log) (set_index-IsAccounted log)) s buf a,
      )

      Fills-IsAccounted :
          {log : List ℕ} {s : BeeSchema Spaces Indexes} → Fills log s → IsAccounted log s
      Fills-IsAccounted at_new = record {
        owned = record {
          keyed = λ k v found. (let e : none ≡ some v = sym (tables.find-new k) ∙ found in cc);
          paired = λ k j v w found at_j same.
              (let e : none ≡ some v = sym (tables.find-new k) ∙ found in cc);
          placed = λ k v found. (let e : none ≡ some v = sym (tables.find-new k) ∙ found in cc);
        };
        distinct = tt;
        bounded = λ i o. elim o [ ];
        let_go = λ i o. elim o [ ];
      }
      Fills-IsAccounted (spaces_read {log = log} buf r e) =
          subst (Returns (λ (s', more). IsAccounted log s')) e
            (add-IsAccounted log _ buf (Fills-IsAccounted r)).0
      Fills-IsAccounted (indexes_read {log = log} buf r e) =
          subst (Returns (λ (s', more). IsAccounted log s')) e
            (add-IsAccounted log _ buf (Fills-IsAccounted r)).1
      Fills-IsAccounted (emptied {log = log} {s = s} r) =
          flush-IsAccounted log s (Fills-IsAccounted r)

      -- A cache into which any messages were read, and which was flushed any number of times, in
      -- any order, and then deleted: over its whole life no table of indexes is released twice,
      -- neither by two flushes, nor by a flush and bee_schema_delete, nor within one of them. The
      -- tables of the spaces are those of IsMHash.
      pub bee_schema_delete-AreDistinct :
          (log : List ℕ) (s : BeeSchema Spaces Indexes)
          → Fills log s
          → AreDistinct (bee_schema_delete (some s) ++ log)
      unfolding bee_schema_delete
      bee_schema_delete-AreDistinct log s r = releases-AreDistinct log s (Fills-IsAccounted r)
