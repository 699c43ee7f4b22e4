-- ===== src/Tests/Hashes.antt =====
-- Hash tables that are lists.
use bee_php.Prelude.{
  ◌≡◌, ap, sym, ◌∙◌, Bool-cases, Occurs, at_first, at_later, bytes_eq→eq, bytes_eq_refl, refl, inl,
  inr, true, false, none, some, Option, List, [], ◌∷◌, if◌then◌else◌, Bytes, bytes_eq,
}
use bee_php.Engine.MHash.{MHash, IsMHash}
use bee_php.Schema.{SchemaIndexValue, SchemaSpaceValue}

-- The latest node comes first.
abbrev pub find_node {ℓ} : {V : Type ℓ} → Bytes → List (Bytes × V) → Option V
find_node k [] = none
find_node k ((j, v) ∷ t) = if bytes_eq j k then some v else find_node k t

abbrev del_nodes {ℓ} : {V : Type ℓ} → Bytes → List (Bytes × V) → List (Bytes × V)
del_nodes k [] = []
del_nodes k ((j, v) ∷ t) = if bytes_eq j k then del_nodes k t else (j, v) ∷ del_nodes k t

find-del_nodes {ℓ} :
    {V : Type ℓ} (k j : Bytes) (t : List (Bytes × V))
    → find_node k (del_nodes j t) ≡ (if bytes_eq j k then none else find_node k t)
find-del_nodes k j [] = elim (Bool-cases (bytes_eq j k)) [ inl e ↦ rw e | inr e ↦ rw e ]
find-del_nodes k j ((i, v) ∷ t) = elim (Bool-cases (bytes_eq i j)) [
  | inl ij ↦
      let same : bytes_eq i k ≡ bytes_eq j k = ap (λ x. bytes_eq x k) (bytes_eq→eq i j ij) in
      rw ij (
        find-del_nodes k j t
        ∙ elim (Bool-cases (bytes_eq j k)) [ inl jk ↦ rw jk | inr jk ↦ rw (jk, same ∙ jk) ])
  | inr ij ↦ rw ij (elim (Bool-cases (bytes_eq i k)) [
    | inl ik ↦ rw ik (elim (Bool-cases (bytes_eq j k)) [
      | inl jk ↦
          let both : bytes_eq i j ≡ true =
            ap (λ x. bytes_eq x j) (bytes_eq→eq i k ik ∙ sym (bytes_eq→eq j k jk))
            ∙ bytes_eq_refl j in
          cc
      | inr jk ↦ rw jk
    ])
    | inr ik ↦ rw ik (find-del_nodes k j t)
  ])
]

pub find_node-Occurs {ℓ} :
    {V : Type ℓ} (k : Bytes) (v : V) (t : List (Bytes × V))
    → find_node k t ≡ some v
    → Occurs (k, v) t
find_node-Occurs k v [] found = cc
find_node-Occurs k v ((j, w) ∷ t) found = elim (Bool-cases (bytes_eq j k)) [
  | inl jk ↦
      let same : w ≡ v = (let e : some w ≡ some v = (rw jk at found) in cc) in
      at_first (ap (λ x. (x, v)) (sym (bytes_eq→eq j k jk)) ∙ ap (λ x. (j, x)) (sym same))
  | inr jk ↦ at_later (find_node-Occurs k v t (rw jk at found))
]

-- The nodes that are found, each once.
abbrev pub own_nodes {ℓ} : {V : Type ℓ} → List (Bytes × V) → List (Bytes × V)
own_nodes [] = []
own_nodes ((k, v) ∷ t) = (k, v) ∷ del_nodes k (own_nodes t)

find-own_nodes {ℓ} :
    {V : Type ℓ} (k : Bytes) (t : List (Bytes × V)) → find_node k (own_nodes t) ≡ find_node k t
find-own_nodes k [] = refl
find-own_nodes k ((j, w) ∷ t) = elim (Bool-cases (bytes_eq j k)) [
  | inl e ↦ rw e refl
  | inr e ↦ rw e ((find-del_nodes k j (own_nodes t) ∙ rw e refl) ∙ find-own_nodes k t)
]

own_nodes-all {ℓ} :
    {V : Type ℓ} (k : Bytes) (v : V) (t : List (Bytes × V))
    → find_node k t ≡ some v
    → Occurs (k, v) (own_nodes t)
own_nodes-all k v t found = find_node-Occurs k v (own_nodes t) (find-own_nodes k t ∙ found)

not_same : (i j k : Bytes) → bytes_eq i j ≡ false → k ≡ i → bytes_eq j k ≡ false
not_same i j k other e = elim (Bool-cases (bytes_eq j k)) [
  | inl same ↦
      let both : bytes_eq i j ≡ true =
        ap (λ x. bytes_eq x j) (sym e ∙ sym (bytes_eq→eq j k same)) ∙ bytes_eq_refl j in
      cc
  | inr differ ↦ differ
]

kept_first {ℓ} :
    {V : Type ℓ} (k i j : Bytes) (v w : V) (rest t : List (Bytes × V))
    → bytes_eq i j ≡ false
    → Occurs (k, v) ((i, w) ∷ rest)
    → (Occurs (k, v) rest → Occurs (k, v) t × (bytes_eq j k ≡ false))
    → Occurs (k, v) ((i, w) ∷ t) × (bytes_eq j k ≡ false)
kept_first k i j v w rest t other (at_first same) later =
    (at_first same, not_same i j k other (ap (λ p. p.0) same))
kept_first k i j v w rest t other (at_later m) later =
    (let (m', differ) = later m in (at_later m', differ))

Occurs-del_nodes {ℓ} :
    {V : Type ℓ} (k j : Bytes) (v : V) (t : List (Bytes × V))
    → Occurs (k, v) (del_nodes j t)
    → Occurs (k, v) t × (bytes_eq j k ≡ false)
Occurs-del_nodes k j v [] m = elim m [ ]
Occurs-del_nodes k j v ((i, w) ∷ t) m = elim (Bool-cases (bytes_eq i j)) [
  | inl e ↦ let (later, other) = Occurs-del_nodes k j v t (rw e at m) in (at_later later, other)
  | inr e ↦ kept_first k i j v w (del_nodes j t) t e (rw e at m) (Occurs-del_nodes k j v t)
]

own_nodes-find {ℓ} :
    {V : Type ℓ} (k : Bytes) (v : V) (t : List (Bytes × V))
    → Occurs (k, v) (own_nodes t)
    → find_node k t ≡ some v
own_nodes-find k v [] m = elim m [ ]
own_nodes-find k v ((j, w) ∷ t) (at_first e) =
    rw (← ap (λ p. p.0) e, ← ap (λ p. p.1) e, bytes_eq_refl k) refl
own_nodes-find k v ((j, w) ∷ t) (at_later m) =
    let (later, other) = Occurs-del_nodes k j v (own_nodes t) m in
    rw other (own_nodes-find k v t later)

abbrev pub spaces : MHash (List (Bytes × SchemaSpaceValue)) SchemaSpaceValue
spaces = record {
  new = [];
  find = find_node;
  put = λ k v t. (k, v) ∷ t;
  del = del_nodes;
  nodes = own_nodes;
}

abbrev pub indexes : MHash (List (Bytes × SchemaIndexValue)) SchemaIndexValue
indexes = record {
  new = [];
  find = find_node;
  put = λ k v t. (k, v) ∷ t;
  del = del_nodes;
  nodes = own_nodes;
}

pub spaces-IsMHash : IsMHash spaces
spaces-IsMHash = record {
  find-new = λ k. refl;
  find-put = λ k j v t. refl;
  find-del = find-del_nodes;
  nodes-all = own_nodes-all;
  nodes-find = own_nodes-find;
}

pub indexes-IsMHash : IsMHash indexes
indexes-IsMHash = record {
  find-new = λ k. refl;
  find-put = λ k j v t. refl;
  find-del = find-del_nodes;
  nodes-all = own_nodes-all;
  nodes-find = own_nodes-find;
}
