-- ===== src/Tests/Codec/Decodes.antt =====
-- The codec's encoders write as many bytes as announced, and its decoders read them back.
use bee_php.Prelude.{
  ℕ, suc, ◌+◌, ◌-◌, ◌*◌, ◌/◌, ◌%◌, ◌^◌, ◌<◌, ◌≡◌, refl, ap, ◌∙◌, inl, inr, Bool, true, false,
  Bool-cases, none, some, [], ◌∷◌, ◌++◌, arith, ltb, le→ltb_false, negsuc, to_long, length, take,
  drop, length-append, Bytes, be32,
}
use bee_php.Engine.MsgPuck.{mp_uint, mp_bool, typeof, EncodesBySize, DecodesBack}
use bee_php.Tests.Codec.{
  read32, be64, read64, read_bytes, tagged, decode_uint, decode_long, decode_bool, decode_text,
  encode_uint, skip_one, or_array, open_value, are_whole, codec,
}

word :
    (n : ℕ)
    → n < 2 ^ 32
    → n / 2 ^ 24 % 256 * 2 ^ 24 + n / 2 ^ 16 % 256 * 2 ^ 16 + n / 2 ^ 8 % 256 * 2 ^ 8 + n % 256 ≡ n
word n h = omega arith

halves : (n : ℕ) → n / 2 ^ 32 * 2 ^ 32 + n % 2 ^ 32 ≡ n
halves n = omega arith

read32-be32 : (n : ℕ) (r : Bytes) → n < 2 ^ 32 → read32 (be32 n ++ r) ≡ some (n, r)
read32-be32 n r h = ap (λ k. some (k, r)) (word n h)

read64-be64 : (n : ℕ) (r : Bytes) → n < 2 ^ 64 → read64 (be64 n ++ r) ≡ some (n, r)
read64-be64 n r h =
    ap (λ k. some (k, r))
      (rw (word (n / 2 ^ 32) (omega arith), word (n % 2 ^ 32) (omega arith)) (halves n))

pub codec-EncodesBySize : EncodesBySize codec
codec-EncodesBySize = record {
  length-nil = refl;
  length-uint = λ n h. ground arith;
  length-int = λ n h. refl;
  length-double = λ d. refl;
  length-bool = λ b. refl;
  length-str = λ s h. ground arith;
  length-array = λ n h. refl;
  length-map = λ n h. refl;
}

-- What the typed decoders make of the encoders' bytes.
decode_uint-encode_uint :
    (n : ℕ) (r : Bytes) → n < 2 ^ 64 → decode_uint (encode_uint n ++ r) ≡ some (n, r)
decode_uint-encode_uint n r h = elim (Bool-cases (ltb n 0x80)) [
  | inl e ↦ rw (e, e) refl
  | inr e ↦ elim (Bool-cases (ltb n (2 ^ 32))) [
    | inl f ↦ rw (e, f) (read32-be32 n r (ground arith))
    | inr f ↦ rw (e, f) (read64-be64 n r h)
  ]
]

typeof-encode_uint :
    (n : ℕ) (r : Bytes) → n < 2 ^ 64 → typeof codec (encode_uint n ++ r) ≡ some mp_uint
typeof-encode_uint n r h = elim (Bool-cases (ltb n 0x80)) [
  | inl e ↦ rw (e, e) refl
  | inr e ↦ elim (Bool-cases (ltb n (2 ^ 32))) [ inl f ↦ rw (e, f) refl | inr f ↦ rw (e, f) refl ]
]

take_all : (s r : Bytes) → (take (length s) (s ++ r) ≡ s) × (drop (length s) (s ++ r) ≡ r)
take_all [] r = (refl, refl)
take_all (b ∷ s) r = let (t, d) = take_all s r in (ap (λ x. b ∷ x) t, d)

read_bytes-append : (s r : Bytes) → read_bytes (some (length s, s ++ r)) ≡ some (s, r)
read_bytes-append s r =
    rw
      (
        le→ltb_false (length (s ++ r)) (length s) (omega (arith, length-append s r)),
        (take_all s r).0,
        (take_all s r).1,
      )
      refl

decode_long-negsuc :
    (n : ℕ) (r : Bytes) → n < 2 ^ 63 → decode_long (be64 (2 ^ 64 - 1 - n) ++ r) ≡ some (negsuc n, r)
decode_long-negsuc n r h =
    ap (λ o. elim o [ none ↦ none | some (k, q) ↦ some (to_long k, q) ])
      (read64-be64 (2 ^ 64 - 1 - n) r (omega arith))
    ∙ ap (λ z. some (z, r)) (ground arith)

decode_str-append :
    (s r : Bytes)
    → length s < 2 ^ 32
    → read_bytes (read32 (be32 (length s) ++ (s ++ r))) ≡ some (s, r)
decode_str-append s r h = ap read_bytes (read32-be32 (length s) (s ++ r) h) ∙ read_bytes-append s r

typeof-encode_bool : (b : Bool) (r : Bytes) → typeof codec (codec.encode_bool b ++ r) ≡ some mp_bool
typeof-encode_bool true r = refl
typeof-encode_bool false r = refl

decode_bool-encode_bool :
    (b : Bool) (r : Bytes) → decode_bool (codec.encode_bool b ++ r) ≡ some (b, r)
decode_bool-encode_bool true r = refl
decode_bool-encode_bool false r = refl

pub codec-DecodesBack : DecodesBack codec
codec-DecodesBack = record {
  typeof-nil = λ r. refl;
  typeof-uint = typeof-encode_uint;
  typeof-int = λ n r h. refl;
  typeof-double = λ d r. refl;
  typeof-bool = typeof-encode_bool;
  typeof-str = λ s r h. refl;
  typeof-array = λ n r h. refl;
  typeof-map = λ n r h. refl;
  decode-nil = λ r. refl;
  decode-uint = decode_uint-encode_uint;
  decode-int = λ n r h. decode_long-negsuc n r h;
  decode-double = λ d r h. read64-be64 d r h;
  decode-bool = decode_bool-encode_bool;
  decode-str = λ s r h. decode_str-append s r h;
  decode-array = λ n r h. read32-be32 n r h;
  decode-map = λ n r h. read32-be32 n r h;
  decode-uint32 = λ n r h. read32-be32 n r h;
  next-uint = λ n r h.
      ap
        (λ o.
          or_array
            (skip_one o (decode_bool (encode_uint n ++ r)) (decode_text (encode_uint n ++ r)))
            (tagged 0xdd read32 (encode_uint n ++ r)))
        (decode_uint-encode_uint n r h);
}

pub next-encode_str :
    (s r : Bytes) → length s < 2 ^ 32 → codec.next (codec.encode_str s ++ r) ≡ some r
next-encode_str s r h = ap (λ o. or_array (skip_one none none o) none) (decode_str-append s r h)

pub are_whole-encode_str :
    (fuel : ℕ) (s r : Bytes)
    → length s < 2 ^ 32
    → are_whole (suc fuel) 1 (codec.encode_str s ++ r) ≡ true
are_whole-encode_str fuel s r h =
    ap
      (λ o. elim (open_value (skip_one none none o) none none) as (λ _. Bool) [
        | none ↦ false
        | some (n, q) ↦ are_whole fuel (n + 0) q
      ])
      (decode_str-append s r h)
