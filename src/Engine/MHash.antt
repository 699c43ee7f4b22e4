-- ===== src/Engine/MHash.antt =====
-- The hash tables of third_party/mhash.h, whose keys are bytes. A node's key goes beside it.
use bee_php.Prelude.{◌≡◌, Option, none, some, List, Occurs, if◌then◌else◌, Bytes, bytes_eq}

pub record MHash (Table Node : Type 0) : Type 0 where
  pub new : Table
  pub find : Bytes → Table → Option Node
  pub put : Bytes → Node → Table → Table
  pub del : Bytes → Table → Table
  -- What mh_foreach meets, in its order, each node with its key.
  pub nodes : Table → List (Bytes × Node)

-- A new table is empty, a node that is put takes the place of the one under its key, one that is
-- deleted is not found any more, and mh_foreach meets all nodes and nothing else.
pub record IsMHash {Table Node : Type 0} (h : MHash Table Node) : Type 0 where
  pub find-new : (k : Bytes) → h.find k h.new ≡ none
  pub find-put :
      (k j : Bytes) (v : Node) (t : Table)
      → h.find k (h.put j v t) ≡ (if bytes_eq j k then some v else h.find k t)
  pub find-del :
      (k j : Bytes) (t : Table) → h.find k (h.del j t) ≡ (if bytes_eq j k then none else h.find k t)
  pub nodes-all :
      (k : Bytes) (v : Node) (t : Table) → h.find k t ≡ some v → Occurs (k, v) (h.nodes t)
  pub nodes-find :
      (k : Bytes) (v : Node) (t : Table) → Occurs (k, v) (h.nodes t) → h.find k t ≡ some v
