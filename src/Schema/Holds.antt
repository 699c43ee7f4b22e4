-- ===== src/Schema/Holds.antt =====
-- A predicate on the cache that the puts of spaces and of indexes keep is kept by the reading of
-- rows.
use bee_php.Prelude.{
  ℕ, zero, suc, not, ltb, u32, inl, inr, Bool, true, false, Option-cases, Option, none, some,
  if◌then◌else◌, Bytes,
}
use bee_php.Engine.MHash.{MHash}
use bee_php.Engine.MsgPuck.{MsgPuck, mp_array, mp_uint, mp_str}
use bee_php.Engine.Outcome.{Outcome, ok, failure, fault, out_of_fuel, lift, ◌>>=◌}
use bee_php.Proto.Response.{is_type}
use bee_php.Schema.{
  SchemaIndexValue, SchemaSpaceValue, BeeSchema, le32, nth, set_nth, put_space, schema_add_space,
  add_to, schema_add_index, add_each, add_all,
}

-- A value that is returned has `P`.
abbrev pub Returns {ℓ} : {A : Type ℓ} → (A → Type 0) → Outcome A → Type 0
Returns P (ok a) = P a
Returns P other = Unit {0}

pub >>=-Returns {ℓ κ} :
    {A : Type ℓ} {B : Type κ} (P : B → Type 0) (m : Outcome A) (f : A → Outcome B)
    → ((a : A) → Returns P (f a))
    → Returns P (m >>= f)
>>=-Returns P (ok a) f h = h a
>>=-Returns P (failure e) f h = tt
>>=-Returns P fault f h = tt
>>=-Returns P out_of_fuel f h = tt

if-Returns {ℓ} :
    {A : Type ℓ} (P : A → Type 0) (b : Bool) (x y : Outcome A)
    → Returns P x
    → Returns P y
    → Returns P (if b then x else y)
if-Returns P true x y h k = h
if-Returns P false x y h k = k

after-Returns {ℓ κ} :
    {A : Type ℓ} {B : Type κ} (Q : A → Type 0) (P : B → Type 0) (m : Outcome A) (f : A → Outcome B)
    → Returns Q m
    → ((a : A) → Q a → Returns P (f a))
    → Returns P (m >>= f)
after-Returns Q P (ok a) f h k = k a h
after-Returns Q P (failure e) f h k = tt
after-Returns Q P fault f h k = tt
after-Returns Q P out_of_fuel f h k = tt

pub Returns-weaken {ℓ} :
    {A : Type ℓ} (P Q : A → Type 0) (o : Outcome A)
    → Returns P o
    → ((a : A) → P a → Q a)
    → Returns Q o
Returns-weaken P Q (ok a) h k = k a h
Returns-weaken P Q (failure e) h k = tt
Returns-weaken P Q fault h k = tt
Returns-weaken P Q out_of_fuel h k = tt

module _ {Spaces Indexes : Type 0} ⦃space_hash : MHash Spaces SchemaSpaceValue⦄
    ⦃index_hash : MHash Indexes SchemaIndexValue⦄ (P : BeeSchema Spaces Indexes → Type 0) where
  abbrev Kept : BeeSchema Spaces Indexes × Option Bytes → Type 0
  Kept (s, next) = P s

  module _ ⦃mp : MsgPuck⦄ where
    add_each-Holds :
        (add : BeeSchema Spaces Indexes → Bytes → Outcome (BeeSchema Spaces Indexes × Option Bytes))
        → ((s : BeeSchema Spaces Indexes) (buf : Bytes) → P s → Returns Kept (add s buf))
        → (n : ℕ) (s : BeeSchema Spaces Indexes) (buf : Bytes) → P s
        → Returns (λ (s', more). P s') (add_each add n s buf)
    unfolding add_each
    add_each-Holds add h zero s buf held = held
    add_each-Holds add h (suc n) s buf held =
        go (add s buf) (h s buf held) λ s' p' k. add_each-Holds add h n s' p' k
      where
        go :
            (o : Outcome (BeeSchema Spaces Indexes × Option Bytes))
            → Returns Kept o
            → ((s' : BeeSchema Spaces Indexes) (p' : Bytes)
                → P s'
                → Returns (λ (s'', more). P s'') (add_each add n s' p'))
            → Returns
                (λ (s', more). P s')
                (o >>= λ (s', next). elim next [
                  | none ↦ ok (s', false)
                  | some p' ↦ add_each add n s' p'
                ])
        go (ok (s', none)) k rest = k
        go (ok (s', some p')) k rest = rest s' p' k
        go (failure e) k rest = tt
        go fault k rest = tt
        go out_of_fuel k rest = tt

    pub schema_add_space-Holds :
        (puts : (name : Bytes) (number : ℕ) (s : BeeSchema Spaces Indexes)
          → P s
          → P (put_space name number s))
        (s : BeeSchema Spaces Indexes) (buf : Bytes)
        → P s
        → Returns Kept (schema_add_space s buf)
    unfolding schema_add_space
    schema_add_space-Holds puts s buf held = >>=-Returns Kept (is_type mp_array buf) _ λ is_array.
        if-Returns Kept (not is_array) fault _ tt (
          >>=-Returns Kept (lift (mp.decode_array buf)) _ λ (tuple_len, p).
            if-Returns Kept (ltb (u32 tuple_len) 6) fault _ tt (
              >>=-Returns Kept (is_type mp_uint p) _ λ is_uint.
                if-Returns Kept (not is_uint) (ok (s, none)) _ held (
                  >>=-Returns Kept (lift (mp.decode_uint p)) _ λ (number, p₁).
                    >>=-Returns Kept (lift (mp.next p₁)) _ λ p₂.
                      >>=-Returns Kept (is_type mp_str p₂) _ λ is_str.
                        if-Returns Kept (not is_str) (ok (s, none)) _ held (
                          >>=-Returns Kept (lift (mp.decode_str p₂)) _ λ (name, p₃).
                            >>=-Returns Kept (lift (mp.next p₃)) _ λ p₄.
                              >>=-Returns Kept (lift (mp.next p₄)) _ λ p₅.
                                >>=-Returns Kept (lift (mp.next p₅)) _ λ p₆.
                                  >>=-Returns Kept (lift (mp.next p₆)) _
                                    λ p₇. puts name (u32 number) s held))))

    pub schema_add_index-Holds :
        (sets : (s : BeeSchema Spaces Indexes) (i : ℕ) (t : Indexes)
          → P s
          → P (record s { index_hashes = set_nth i t s.index_hashes }))
        (s : BeeSchema Spaces Indexes) (buf : Bytes)
        → P s
        → Returns Kept (schema_add_index s buf)
    unfolding schema_add_index add_to
    schema_add_index-Holds sets s buf held = >>=-Returns Kept (is_type mp_array buf) _ λ is_array.
        if-Returns Kept (not is_array) fault _ tt (
          >>=-Returns Kept (lift (mp.decode_array buf)) _ λ (tuple_len, p).
            if-Returns Kept (ltb (u32 tuple_len) 6) fault _ tt (
              >>=-Returns Kept (lift (mp.decode_uint p)) _ λ (space_number, p₁).
                >>=-Returns Kept (is_type mp_uint p₁) _ λ is_uint.
                  if-Returns Kept (not is_uint) fault _ tt
                    (elim (Option-cases (space_hash.find (le32 (u32 space_number)) s.space_hash)) [
                      | inl e ↦ rw (e, Returns) held
                      | inr (space, e) ↦
                          rw (e, Returns)
                            (>>=-Returns Kept (lift (mp.decode_uint p₁)) _ λ (number, p₂).
                              >>=-Returns Kept (is_type mp_str p₂) _ λ is_str.
                                if-Returns Kept (not is_str) (ok (s, none)) _ held (
                                  >>=-Returns Kept (lift (mp.decode_str p₂)) _ λ (name, p₃).
                                    >>=-Returns Kept (lift (mp.next p₃)) _ λ p₄.
                                      >>=-Returns Kept (lift (mp.next p₄)) _ λ p₅.
                                        >>=-Returns Kept (lift (mp.next p₅)) _ λ p₆.
                                          after-Returns (λ s'. P s') Kept
                                            (add_to space.index_hash name (u32 number) s) _
                                            (>>=-Returns (λ s'. P s')
                                              (lift (nth space.index_hash s.index_hashes)) _
                                              λ t. sets s space.index_hash _ held)
                                            λ s' k. k))
                    ])))

    pub add_all-Holds :
        (add : BeeSchema Spaces Indexes → Bytes → Outcome (BeeSchema Spaces Indexes × Option Bytes))
        → ((s : BeeSchema Spaces Indexes) (buf : Bytes) → P s → Returns Kept (add s buf))
        → (s : BeeSchema Spaces Indexes) (buf : Bytes) → P s
        → Returns (λ (s', more). P s') (add_all add s buf)
    unfolding add_all
    add_all-Holds add h s buf held = if-Returns _ (not (mp.check buf)) (ok (s, false)) _ held (
        >>=-Returns _ (is_type mp_array buf) _ λ is_array.
          if-Returns _ (not is_array) (ok (s, false)) _ held (
            >>=-Returns _ (lift (mp.decode_array buf)) _
              λ (count, p). add_each-Holds add h (u32 count) s p held))
