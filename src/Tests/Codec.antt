-- ===== src/Tests/Codec.antt =====
-- A MessagePack codec with the narrowest and the widest forms of the format. `next` and `check` know
-- unsigned integers, Booleans and strings, `next` arrays of such, `check` arrays and maps of any depth.
pub mod Decodes
pub mod Moves
use bee_php.Prelude.{
  ℕ, zero, suc, ◌+◌, ◌-◌, ◌*◌, ◌/◌, ◌%◌, ◌^◌, ◌<◌, ◌≤◌, ◌≡◌, refl, ap, sym, ◌∙◌, inl, inr, Bool,
  true, false, Bool-cases, Option, none, some, List, [], ◌∷◌, ◌++◌, append_assoc, arith, ltb,
  lt→ltb, le→ltb_false, ◌==◌, if◌then◌else◌, ℤ, pos, negsuc, to_long, length, take, drop,
  length-append, length-drop, Bytes, be32,
}
use bee_php.Engine.MsgPuck.{
  MsgPuck, MpType, mp_nil, mp_uint, mp_int, mp_str, mp_bin, mp_array, mp_map, mp_bool, mp_float,
  mp_double, mp_ext, typeof, EncodesBySize, DecodesBack, Advances,
}

-- Big-endian words.
abbrev pub read32 : Bytes → Option (ℕ × Bytes)
read32 (a ∷ b ∷ c ∷ d ∷ r) = some (a * 2 ^ 24 + b * 2 ^ 16 + c * 2 ^ 8 + d, r)
read32 other = none

abbrev pub be64 : ℕ → Bytes
be64 n = be32 (n / 2 ^ 32) ++ be32 (n % 2 ^ 32)

abbrev pub read64 : Bytes → Option (ℕ × Bytes)
read64 b = elim (read32 b) [
  | none ↦ none
  | some (hi, r) ↦ elim (read32 r) [ none ↦ none | some (lo, s) ↦ some (hi * 2 ^ 32 + lo, s) ]
]

-- A string behind its length.
abbrev pub read_bytes : Option (ℕ × Bytes) → Option (Bytes × Bytes)
read_bytes none = none
read_bytes (some (n, r)) = if ltb (length r) n then none else some (take n r, drop n r)

-- The decoders, by the first byte.
abbrev pub type_of : ℕ → MpType
type_of b =
    if ltb b 0x80
    then mp_uint
    else if b == 0xc0
    then mp_nil
    else if b == 0xc2
    then mp_bool
    else if b == 0xc3
    then mp_bool
    else if b == 0xc6
    then mp_bin
    else if b == 0xca
    then mp_float
    else if b == 0xcb
    then mp_double
    else if b == 0xce
    then mp_uint
    else if b == 0xcf
    then mp_uint
    else if b == 0xd3
    then mp_int
    else if b == 0xdb
    then mp_str
    else if b == 0xdd
    then mp_array
    else if b == 0xdf
    then mp_map
    else mp_ext

abbrev pub tagged {ℓ} : {A : Type ℓ} → ℕ → (Bytes → Option A) → Bytes → Option A
tagged t f [] = none
tagged t f (b ∷ r) = if b == t then f r else none

abbrev pub decode_uint : Bytes → Option (ℕ × Bytes)
decode_uint [] = none
decode_uint (b ∷ r) =
    if ltb b 0x80
    then some (b, r)
    else if b == 0xce
    then read32 r
    else if b == 0xcf
    then read64 r
    else none

abbrev pub decode_long : Bytes → Option (ℤ × Bytes)
decode_long b = elim (read64 b) [ none ↦ none | some (n, r) ↦ some (to_long n, r) ]

abbrev pub decode_bool : Bytes → Option (Bool × Bytes)
decode_bool [] = none
decode_bool (b ∷ r) =
    if b == 0xc2 then some (false, r) else if b == 0xc3 then some (true, r) else none

abbrev pub encode_uint : ℕ → Bytes
encode_uint n =
    if ltb n 0x80 then n ∷ [] else if ltb n (2 ^ 32) then 0xce ∷ be32 n else 0xcf ∷ be64 n

abbrev pub encode_int : ℤ → Bytes
encode_int (pos n) = 0xd3 ∷ be64 n
encode_int (negsuc n) = 0xd3 ∷ be64 (2 ^ 64 - 1 - n)

abbrev pub decode_text : Bytes → Option (Bytes × Bytes)
decode_text = tagged 0xdb (λ b. read_bytes (read32 b))

abbrev pub skip_one :
    Option (ℕ × Bytes) → Option (Bool × Bytes) → Option (Bytes × Bytes) → Option Bytes
skip_one (some (n, r)) o q = some r
skip_one none (some (v, r)) q = some r
skip_one none none (some (s, r)) = some r
skip_one none none none = none

abbrev pub skip_scalar : Bytes → Option Bytes
skip_scalar b = skip_one (decode_uint b) (decode_bool b) (decode_text b)

abbrev pub and_then : Option Bytes → (Bytes → Option Bytes) → Option Bytes
and_then none f = none
and_then (some r) f = f r

abbrev pub skip_scalars : ℕ → Bytes → Option Bytes
skip_scalars zero b = some b
skip_scalars (suc n) b = and_then (skip_scalar b) (skip_scalars n)

abbrev pub or_array : Option Bytes → Option (ℕ × Bytes) → Option Bytes
or_array (some r) o = some r
or_array none none = none
or_array none (some (n, r)) = skip_scalars n r

-- A scalar, or an array of scalars.
abbrev pub skip_value : Bytes → Option Bytes
skip_value b = or_array (skip_scalar b) (tagged 0xdd read32 b)

-- The number of values inside the value at the front, and what follows its head.
abbrev pub open_value : Option Bytes → Option (ℕ × Bytes) → Option (ℕ × Bytes) → Option (ℕ × Bytes)
open_value (some r) o p = some (0, r)
open_value none (some a) p = some a
open_value none none (some (n, r)) = some (n * 2, r)
open_value none none none = none

-- Are there `k` whole values at the front?
abbrev pub are_whole : (fuel k : ℕ) → Bytes → Bool
are_whole fuel zero b = true
are_whole zero (suc k) b = false
are_whole (suc fuel) (suc k) b =
    elim (open_value (skip_scalar b) (tagged 0xdd read32 b) (tagged 0xdf read32 b)) [
      | none ↦ false
      | some (n, r) ↦ are_whole fuel (n + k) r
    ]

abbrev pub codec : MsgPuck
codec = record {
  sizeof_nil = 1;
  sizeof_uint = λ n. if ltb n 0x80 then 1 else if ltb n (2 ^ 32) then 5 else 9;
  sizeof_int = λ n. 9;
  sizeof_float = 5;
  sizeof_double = 9;
  sizeof_bool = 1;
  sizeof_str = λ n. 5 + n;
  sizeof_bin = λ n. 5 + n;
  sizeof_array = λ n. 5;
  sizeof_map = λ n. 5;
  encode_nil = 0xc0 ∷ [];
  encode_uint = encode_uint;
  encode_int = encode_int;
  encode_double = λ d. 0xcb ∷ be64 d;
  encode_bool = λ b. (if b then 0xc3 else 0xc2) ∷ [];
  encode_str = λ s. 0xdb ∷ be32 (length s) ++ s;
  encode_array = λ n. 0xdd ∷ be32 n;
  encode_map = λ n. 0xdf ∷ be32 n;
  type_of = type_of;
  decode_nil = tagged 0xc0 some;
  decode_uint = decode_uint;
  decode_int = tagged 0xd3 decode_long;
  decode_float = tagged 0xca read32;
  decode_double = tagged 0xcb read64;
  decode_bool = decode_bool;
  decode_str = decode_text;
  decode_bin = tagged 0xc6 (λ b. read_bytes (read32 b));
  decode_array = tagged 0xdd read32;
  decode_map = tagged 0xdf read32;
  next = skip_value;
  check = λ b. are_whole (suc (length b)) 1 b;
}
