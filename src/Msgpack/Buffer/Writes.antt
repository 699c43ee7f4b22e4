-- ===== src/Msgpack/Buffer/Writes.antt =====
-- What an append does to a buffer: no fault, a buffer again, and the bytes behind the old contents.
use bee_php.Prelude.{
  ℕ, ◌+◌, ◌*◌, ◌≤◌, ◌≡◌, refl, sym, ◌∙◌, ap, inl, inr, Option, none, some, Bool-cases, [], ◌++◌,
  append_assoc, append-nil, arith, ltb, le→ltb_false, length, take, drop, length-append,
  length-take, length-drop, take-append_exact, Bytes,
}
use bee_php.Engine.SmartString.{SmartString, IsBuffer, contents, Allocator, IsAllocator, write_at}
use bee_php.Msgpack.Buffer.{Action, ◌>>◌, skip, smart_string_ensure, ensure, put}

-- `a` appends `bs` to every buffer.
pub record Appended (s : SmartString) (bs : Bytes) (s' : SmartString) : Type 0 where
  pub is_buffer : IsBuffer s'
  pub grown : contents s' ≡ contents s ++ bs
  pub len_grown : s'.len ≡ s.len + length bs

pub data Appends (s : SmartString) (bs : Bytes) : Option SmartString → Type 0 where
  appended : {s' : SmartString} → Appended s bs s' → Appends s bs (some s')

abbrev pub Writes : Action → Bytes → Type 0
Writes a bs = (s : SmartString) → IsBuffer s → Appends s bs (a s)

write_at-some :
    (off : ℕ) (bs c : Bytes)
    → off + length bs ≤ length c
    → write_at off bs c ≡ some (take off c ++ (bs ++ drop (off + length bs) c))
unfolding write_at
write_at-some off bs c h = rw (le→ltb_false (length c) (off + length bs) h)

take-write :
    (off : ℕ) (bs c rest : Bytes)
    → off ≤ length c
    → take (off + length bs) (take off c ++ (bs ++ rest)) ≡ take off c ++ bs
take-write off bs c rest h = rw (← append_assoc (take off c) bs rest) (
    take-append_exact (take off c ++ bs) rest (off + length bs)
      (omega (arith, length-append (take off c) bs, length-take off c)))

pub length-write :
    (off : ℕ) (bs c : Bytes)
    → off + length bs ≤ length c
    → length (take off c ++ (bs ++ drop (off + length bs) c)) ≡ length c
length-write off bs c h = omega (
  arith,
  length-append (take off c) (bs ++ drop (off + length bs) c),
  length-append bs (drop (off + length bs) c),
  length-take off c,
  length-drop (off + length bs) c,
)

module _ ⦃al : Allocator⦄ (laws : IsAllocator al) where
  pub record Ensured (s : SmartString) (n : ℕ) (s' : SmartString) : Type 0 where
    pub is_buffer : IsBuffer s'
    pub same_len : s'.len ≡ s.len
    pub same_contents : contents s' ≡ contents s
    pub room : s.len + n ≤ s'.a

  grown : (s : SmartString) (n k : ℕ) → IsBuffer s → n ≤ k → Ensured s n (al.alloc4 s k)
  grown s n k b h = record {
    is_buffer = laws.alloc4-IsBuffer s k b;
    same_len = laws.alloc4-len s k b;
    same_contents = rw (laws.alloc4-len s k b) (laws.alloc4-contents s k b);
    room = omega (arith, laws.alloc4_room s k b);
  }

  -- The buffer keeps its contents and has room for `n` bytes more.
  pub smart_string_ensure-Ensured :
      (n : ℕ) (s : SmartString) → IsBuffer s → Ensured s n (smart_string_ensure n s)
  unfolding smart_string_ensure
  smart_string_ensure-Ensured n s b = elim (Bool-cases (ltb (s.len + n) s.a)) [
    | inl fits ↦
        rw fits
          (record { is_buffer = b; same_len = refl; same_contents = refl; room = ground arith })
    | inr full ↦ rw full (elim (Bool-cases (ltb (s.a * 2) (s.len + n))) [
      | inl far ↦ rw far (grown s n (s.len + n) b (omega arith))
      | inr near ↦ rw near (grown s n (s.a * 2) b (ground arith))
    ])
  ]

  -- An append of as many bytes as announced.
  pub put-Writes : (n : ℕ) (bs : Bytes) → length bs ≡ n → Writes (put n bs) bs
  unfolding put
  put-Writes n bs e s b = go (smart_string_ensure n s) (smart_string_ensure-Ensured n s b)
    where
      go :
          (s' : SmartString)
          → Ensured s n s'
          → Appends s bs (elim (write_at s'.len bs s'.c) [
            | none ↦ none
            | some c' ↦ some (record s' { c = c'; len = s'.len + n })
          ])
      go s' e' =
          let fits : s'.len + length bs ≤ length s'.c =
            omega (arith, e'.is_buffer.block, e'.room) in
          rw (write_at-some s'.len bs s'.c fits) (
            appended (record {
              is_buffer = record {
                block = length-write s'.len bs s'.c fits ∙ e'.is_buffer.block;
                within = omega (arith, e'.room, e'.same_len);
              };
              grown =
                  ap
                    (λ k.
                      take (s'.len + k)
                        (take s'.len s'.c ++ (bs ++ drop (s'.len + length bs) s'.c)))
                    (sym e)
                  ∙ take-write s'.len bs s'.c _ (omega (arith, fits))
                  ∙ ap (λ p. p ++ bs) e'.same_contents;
              len_grown = omega (arith, e'.same_len);
            }))

  after_ensure :
      {s s' : SmartString} {n : ℕ} (bs : Bytes) {r : Option SmartString}
      → Ensured s n s'
      → Appends s' bs r
      → Appends s bs r
  after_ensure bs e (appended h) = appended (record {
    is_buffer = h.is_buffer;
    grown = h.grown ∙ ap (λ p. p ++ bs) e.same_contents;
    len_grown = omega (arith, h.len_grown, e.same_len);
  })

  pub ensure-Writes : (n : ℕ) {a : Action} {bs : Bytes} → Writes a bs → Writes (ensure n >> a) bs
  ensure-Writes n {bs} w s b =
      let e = smart_string_ensure-Ensured n s b in after_ensure bs e (w _ e.is_buffer)

pub skip-Writes : Writes skip []
skip-Writes s b =
    appended
      (record { is_buffer = b; grown = sym (append-nil (contents s)); len_grown = omega arith })

after :
    {s s' : SmartString} (xs ys : Bytes) {r : Option SmartString}
    → Appended s xs s'
    → Appends s' ys r
    → Appends s (xs ++ ys) r
after {s} xs ys h (appended k) = appended (record {
  is_buffer = k.is_buffer;
  grown = k.grown ∙ ap (λ p. p ++ ys) h.grown ∙ append_assoc (contents s) xs ys;
  len_grown = omega (arith, h.len_grown, k.len_grown, length-append xs ys);
})

-- One append after another.
pub >>-Writes :
    {a b : Action} {xs ys : Bytes} → Writes a xs → Writes b ys → Writes (a >> b) (xs ++ ys)
>>-Writes {a} {b} {xs} {ys} wa wb s h = go (wa s h)
  where
    go :
        {r : Option SmartString}
        → Appends s xs r
        → Appends s (xs ++ ys) (elim r [ none ↦ none | some s' ↦ b s' ])
    go (appended k) = after xs ys k (wb _ k.is_buffer)
