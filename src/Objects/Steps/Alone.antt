-- ===== src/Objects/Steps/Alone.antt =====
-- Objects that are not persistent never share a connection, and none of them points to memory that
-- was given back.
use bee_php.Prelude.{
  ℕ, suc, ◌≤◌, ◌≡◌, ◌≢◌, refl, sym, ap, ◌∙◌, ◌⊎◌, inl, inr, ◌==◌, false, Bool-cases, Option, none,
  some, arith,
}
use bee_php.Objects.{BeeConnection, BeeObject, changed}
use bee_php.Connection.State.{Types}

-- What is found in a changed table is the new entry, or an old one under another key.
changed_cases {ℓ} :
    {A : Type ℓ} (k : ℕ) (a : Option A) (f : ℕ → Option A) (j : ℕ) (b : Option A)
    → changed k a f j ≡ b
    → ((k ≡ j) × (a ≡ b)) ⊎ ((k ≢ j) × (f j ≡ b))
changed_cases k a f j b e = elim (Bool-cases (k == j)) [
  | inl same ↦ inl (ground arith, (rw same at e))
  | inr other ↦ inr ((λ x. ground arith), (rw other at e))
]

pub changed_self {ℓ} : {A : Type ℓ} (k : ℕ) (a : Option A) (f : ℕ → Option A) → changed k a f k ≡ a
changed_self k a f = ground arith

pub changed_other {ℓ} :
    {A : Type ℓ} (k j : ℕ) (a : Option A) (f : ℕ → Option A) → k ≢ j → changed k a f j ≡ f j
changed_other k j a f h = ground arith

pub not_both {ℓ} : {A : Type ℓ} {a : A} → none ≡ some a → ⊥
not_both e = cc

abbrev pub Points : (ℕ → Option BeeObject) → ℕ → ℕ → Type 0
Points objects h p = (o : BeeObject) × (objects h ≡ some o) × (o.obj ≡ some p)

module _ {T : Types} where
  abbrev pub Live : (ℕ → Option (BeeConnection T)) → ℕ → Type 0
  Live cell p = (c : BeeConnection T) × (cell p ≡ some c)

  Live-stored :
      (cell : ℕ → Option (BeeConnection T)) (p q : ℕ) (c : BeeConnection T)
      → Live cell q
      → Live (changed p (some c) cell) q
  Live-stored cell p q c (c', there) = elim (Bool-cases (p == q)) [
    | inl e ↦ (c, rw e refl)
    | inr e ↦ (c', rw e there)
  ]

  -- An address of an object is one of a connection, and no two objects have the same.
  pub record AreAlone (objects : ℕ → Option BeeObject) (cell : ℕ → Option (BeeConnection T))
      (next : ℕ) : Type 0 where
    pub unused : (p : ℕ) → next ≤ p → cell p ≡ none
    pub live : (h p : ℕ) → Points objects h p → Live cell p
    pub plain : (h : ℕ) (o : BeeObject) → objects h ≡ some o → o.is_persistent ≡ false
    pub apart : (h j p : ℕ) → Points objects h p → Points objects j p → h ≡ j

  module _ {objects : ℕ → Option BeeObject} {cell : ℕ → Option (BeeConnection T)} {next : ℕ}
      (s : AreAlone objects cell next) where
    removed-Points :
        (h j p : ℕ) → Points (changed h none objects) j p → (h ≢ j) × Points objects j p
    removed-Points h j p (o, e, q) = elim (changed_cases h none objects j (some o) e) [
      | inl (same, gone) ↦ elim (not_both gone) [ ]
      | inr (other, old) ↦ (other, (o, old, q))
    ]

    pub remove-AreAlone : (h : ℕ) → AreAlone (changed h none objects) cell next
    remove-AreAlone h = record {
      unused = s.unused;
      live = λ j p r. s.live j p (removed-Points h j p r).1;
      plain = λ j o e. elim (changed_cases h none objects j (some o) e) [
        | inl (same, gone) ↦ cc
        | inr (other, old) ↦ s.plain j o old
      ];
      apart = λ i j p q r. s.apart i j p (removed-Points h i p q).1 (removed-Points h j p r).1;
    }

    put-Points :
        (h : ℕ) (o : BeeObject) (j p : ℕ)
        → Points (changed h (some o) objects) j p
        → ((h ≡ j) × (o.obj ≡ some p)) ⊎ ((h ≢ j) × Points objects j p)
    put-Points h o j p (o', e, q) = elim (changed_cases h (some o) objects j (some o') e) [
      | inl (same, now) ↦ inl (same, (let e' : o ≡ o' = cc in ap (λ x. x.obj) e' ∙ q))
      | inr (other, old) ↦ inr (other, (o', old, q))
    ]

    pub put_object-AreAlone :
        (h : ℕ) (o : BeeObject)
        → o.is_persistent ≡ false
        → ((p : ℕ) → o.obj ≡ some p → Live cell p × ((j : ℕ) → Points objects j p → j ≡ h))
        → AreAlone (changed h (some o) objects) cell next
    put_object-AreAlone h o plain own = record {
      unused = s.unused;
      live = λ j p r. elim (put-Points h o j p r) [
        | inl (same, q) ↦ (own p q).0
        | inr (other, old) ↦ s.live j p old
      ];
      plain = λ j o' e. elim (changed_cases h (some o) objects j (some o') e) [
        | inl (same, now) ↦ (let e' : o ≡ o' = cc in rw (← e') plain)
        | inr (other, old) ↦ s.plain j o' old
      ];
      apart = λ i j p q r. elim (put-Points h o i p q) [
        | inl (same, mine) ↦ elim (put-Points h o j p r) [
          | inl (same', mine') ↦ sym same ∙ same'
          | inr (other', old') ↦ sym same ∙ sym ((own p mine).1 j old')
        ]
        | inr (other, old) ↦ elim (put-Points h o j p r) [
          | inl (same', mine') ↦ (own p mine').1 i old ∙ same'
          | inr (other', old') ↦ s.apart i j p old old'
        ]
      ];
    }

    pub extend-AreAlone :
        (c : BeeConnection T) → AreAlone objects (changed next (some c) cell) (suc next)
    extend-AreAlone c = record {
      unused = λ p above.
          changed_other next p (some c) cell (λ e. omega arith) ∙ s.unused p (omega arith);
      live = λ h p r. Live-stored cell next p c (s.live h p r);
      plain = s.plain;
      apart = s.apart;
    }

    pub store-AreAlone :
        (p : ℕ) (c : BeeConnection T)
        → Live cell p
        → AreAlone objects (changed p (some c) cell) next
    store-AreAlone p c (c', there) = record {
      unused = λ q above.
          changed_other p q (some c) cell
            (λ e. not_both (sym (s.unused q above) ∙ ap cell (sym e) ∙ there))
          ∙ s.unused q above;
      live = λ h q r. Live-stored cell p q c (s.live h q r);
      plain = s.plain;
      apart = s.apart;
    }

    pub discard-AreAlone :
        (h p : ℕ)
        → Points objects h p
        → AreAlone (changed h none objects) (changed p none cell) next
    discard-AreAlone h p r = record {
      unused = λ q above. elim (Bool-cases (p == q)) [
        | inl e ↦ rw e refl
        | inr e ↦ rw e (s.unused q above)
      ];
      live = λ j q r'.
          let (other, old) = removed-Points h j q r' in
          let (c, there) = s.live j q old in
          let differs : p ≢ q = (λ e. other (s.apart h j q (rw (← e) r) old)) in
          (c, changed_other p q none cell differs ∙ there);
      plain = (remove-AreAlone h).plain;
      apart = (remove-AreAlone h).apart;
    }
