-- ===== src/Tests/Codec/Moves.antt =====
-- The codec's decoders move forward.
use bee_php.Prelude.{
  ℕ, zero, suc, ◌+◌, ◌<◌, ◌≤◌, ◌≡◌, refl, Bool, Option, none, some, [], ◌∷◌, arith, ℤ, length,
  length-drop, Bytes,
}
use bee_php.Engine.MsgPuck.{Advances}
use bee_php.Tests.Codec.{
  read32, read64, read_bytes, tagged, decode_uint, decode_long, decode_bool, decode_text, skip_one,
  skip_scalar, and_then, skip_scalars, or_array, skip_value, codec,
}

read32_advances : (b r : Bytes) (n : ℕ) → read32 b ≡ some (n, r) → length b ≡ 4 + length r
read32_advances b r n h = ground arith

read64_advances : (b r : Bytes) (n : ℕ) → read64 b ≡ some (n, r) → length b ≡ 8 + length r
read64_advances b r n h = ground arith

tagged_advances {ℓ} :
    {A : Type ℓ} (t : ℕ) (f : Bytes → Option (A × Bytes)) (b r : Bytes) (a : A)
    → ((q : Bytes) → f q ≡ some (a, r) → length r ≤ length q)
    → tagged t f b ≡ some (a, r)
    → length r < length b
tagged_advances t f [] r a law h = cc
tagged_advances t f (x ∷ b) r a law h = ground (arith, law b)

read_long_advances : (q r : Bytes) (n : ℤ) → decode_long q ≡ some (n, r) → length r ≤ length q
read_long_advances q r n h = ground (arith, read64_advances q)

string_advances :
    (o : Option (ℕ × Bytes)) (bound : ℕ) (r s : Bytes)
    → ((n : ℕ) (q : Bytes) → o ≡ some (n, q) → length q ≤ bound)
    → read_bytes o ≡ some (s, r)
    → length r ≤ bound
string_advances none bound r s law h = cc
string_advances (some (n, q)) bound r s law h = ground (arith, law n q refl, length-drop n q)

bytes_advances : (q r s : Bytes) → read_bytes (read32 q) ≡ some (s, r) → length r ≤ length q
bytes_advances q r s h =
    string_advances (read32 q) (length q) r s (λ n p e. omega (arith, read32_advances q p n e)) h

decode_uint_advances : (b r : Bytes) (n : ℕ) → decode_uint b ≡ some (n, r) → length r < length b
decode_uint_advances [] r n h = cc
decode_uint_advances (x ∷ b) r n h = ground (arith, read32_advances b r n, read64_advances b r n)

skip_one_advances :
    (o : Option (ℕ × Bytes)) (p : Option (Bool × Bytes)) (t : Option (Bytes × Bytes)) (bound : ℕ)
    (r : Bytes)
    → ((n : ℕ) (q : Bytes) → o ≡ some (n, q) → length q < bound)
    → ((v : Bool) (q : Bytes) → p ≡ some (v, q) → length q < bound)
    → ((s q : Bytes) → t ≡ some (s, q) → length q < bound)
    → skip_one o p t ≡ some r
    → length r < bound
skip_one_advances (some (n, q)) p t bound r uints bools texts h = ground (arith, uints n q refl)
skip_one_advances none (some (v, q)) t bound r uints bools texts h = ground (arith, bools v q refl)
skip_one_advances none none (some (s, q)) bound r uints bools texts h =
    ground (arith, texts s q refl)
skip_one_advances none none none bound r uints bools texts h = cc

decode_bool_advances : (b r : Bytes) (v : Bool) → decode_bool b ≡ some (v, r) → length r < length b
decode_bool_advances b r v h = ground arith

decode_text_advances : (b r s : Bytes) → decode_text b ≡ some (s, r) → length r < length b
decode_text_advances b r s h =
    tagged_advances 0xdb (λ q. read_bytes (read32 q)) b r s (λ q. bytes_advances q r s) h

skip_scalar_advances : (b r : Bytes) → skip_scalar b ≡ some r → length r < length b
skip_scalar_advances b r h =
    skip_one_advances (decode_uint b) (decode_bool b) (decode_text b) (length b) r
      (λ n q. decode_uint_advances b q n) (λ v q. decode_bool_advances b q v)
      (λ s q. decode_text_advances b q s) h

and_then-some :
    (o : Option Bytes) (f : Bytes → Option Bytes) (r : Bytes)
    → and_then o f ≡ some r
    → (q : Bytes) × (o ≡ some q) × (f q ≡ some r)
and_then-some none f r h = cc
and_then-some (some q) f r h = (q, refl, h)

skip_scalars_advances : (n : ℕ) (b r : Bytes) → skip_scalars n b ≡ some r → length r ≤ length b
skip_scalars_advances zero b r h = ground arith
skip_scalars_advances (suc n) b r h =
    let (q, e, f) = and_then-some (skip_scalar b) (skip_scalars n) r h in
    omega (arith, skip_scalar_advances b q e, skip_scalars_advances n q r f)

or_array_advances :
    (o : Option Bytes) (p : Option (ℕ × Bytes)) (bound : ℕ) (r : Bytes)
    → ((q : Bytes) → o ≡ some q → length q < bound)
    → ((n : ℕ) (q : Bytes) → p ≡ some (n, q) → length q < bound)
    → or_array o p ≡ some r
    → length r < bound
or_array_advances (some q) p bound r scalars arrays h = ground (arith, scalars q refl)
or_array_advances none none bound r scalars arrays h = cc
or_array_advances none (some (n, q)) bound r scalars arrays h =
    omega (arith, arrays n q refl, skip_scalars_advances n q r h)

read32_shortens : (b r : Bytes) (n : ℕ) → read32 b ≡ some (n, r) → length r ≤ length b
read32_shortens b r n h = omega (arith, read32_advances b r n h)

read64_shortens : (b r : Bytes) (n : ℕ) → read64 b ≡ some (n, r) → length r ≤ length b
read64_shortens b r n h = omega (arith, read64_advances b r n h)

skip_value_advances : (b r : Bytes) → skip_value b ≡ some r → length r < length b
skip_value_advances b r h =
    or_array_advances (skip_scalar b) (tagged 0xdd read32 b) (length b) r
      (λ q. skip_scalar_advances b q)
      (λ n q. tagged_advances 0xdd read32 b q n (λ m. read32_shortens m q n)) h

pub codec-Advances : Advances codec
codec-Advances = record {
  nil_advances = λ b r h. ground arith;
  uint_advances = decode_uint_advances;
  int_advances =
      λ b r n h. tagged_advances 0xd3 decode_long b r n (λ q. read_long_advances q r n) h;
  float_advances = λ b r n h. tagged_advances 0xca read32 b r n (λ q. read32_shortens q r n) h;
  double_advances = λ b r n h. tagged_advances 0xcb read64 b r n (λ q. read64_shortens q r n) h;
  bool_advances = decode_bool_advances;
  str_advances = decode_text_advances;
  bin_advances = λ b r s h.
      tagged_advances 0xc6 (λ q. read_bytes (read32 q)) b r s (λ q. bytes_advances q r s) h;
  array_advances = λ b r n h. tagged_advances 0xdd read32 b r n (λ q. read32_shortens q r n) h;
  map_advances = λ b r n h. tagged_advances 0xdf read32 b r n (λ q. read32_shortens q r n) h;
  next_advances = skip_value_advances;
}
