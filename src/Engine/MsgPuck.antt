-- ===== src/Engine/MsgPuck.antt =====
-- The functions of third_party/msgpuck.h that the extension calls, and their documented behaviour.
-- A pointer into a message is the bytes from it to the message's end. A decoder gives the value
-- and the pointer behind it, or `none` where the C function would read past the end or abort.
use bee_php.Prelude.{
  ℕ, ◌<◌, ◌^◌, ◌≡◌, Bool, Option, none, some, [], ◌∷◌, ◌++◌, ℤ, negsuc, length, Bytes, be32,
}

pub data MpType : Type 0 where
  mp_nil mp_uint mp_int mp_str mp_bin mp_array mp_map mp_bool mp_float mp_double mp_ext : MpType

pub record MsgPuck : Type 0 where
  pub sizeof_nil : ℕ
  pub sizeof_uint : ℕ → ℕ
  pub sizeof_int : ℤ → ℕ
  pub sizeof_float : ℕ
  pub sizeof_double : ℕ
  pub sizeof_bool : ℕ
  pub sizeof_str : ℕ → ℕ
  pub sizeof_bin : ℕ → ℕ
  pub sizeof_array : ℕ → ℕ
  pub sizeof_map : ℕ → ℕ
  pub encode_nil : Bytes
  pub encode_uint : ℕ → Bytes
  pub encode_int : ℤ → Bytes
  pub encode_double : ℕ → Bytes
  pub encode_bool : Bool → Bytes
  pub encode_str : Bytes → Bytes
  pub encode_array : ℕ → Bytes
  pub encode_map : ℕ → Bytes
  pub type_of : ℕ → MpType
  pub decode_nil : Bytes → Option Bytes
  pub decode_uint : Bytes → Option (ℕ × Bytes)
  pub decode_int : Bytes → Option (ℤ × Bytes)
  pub decode_float : Bytes → Option (ℕ × Bytes)
  pub decode_double : Bytes → Option (ℕ × Bytes)
  pub decode_bool : Bytes → Option (Bool × Bytes)
  pub decode_str : Bytes → Option (Bytes × Bytes)
  pub decode_bin : Bytes → Option (Bytes × Bytes)
  pub decode_array : Bytes → Option (ℕ × Bytes)
  pub decode_map : Bytes → Option (ℕ × Bytes)
  pub next : Bytes → Option Bytes
  -- mp_check of a region: is there a whole value at its start?
  pub check : Bytes → Bool

abbrev pub mp_code : MpType → ℕ
mp_code mp_nil = 0
mp_code mp_uint = 1
mp_code mp_int = 2
mp_code mp_str = 3
mp_code mp_bin = 4
mp_code mp_array = 5
mp_code mp_map = 6
mp_code mp_bool = 7
mp_code mp_float = 8
mp_code mp_double = 9
mp_code mp_ext = 10

-- mp_typeof of the byte that a pointer points at.
abbrev pub typeof : MsgPuck → Bytes → Option MpType
typeof mp [] = none
typeof mp (b ∷ rest) = some (mp.type_of b)

-- Each encoder writes as many bytes as its mp_sizeof function announces.
pub record EncodesBySize (mp : MsgPuck) : Type 0 where
  pub length-nil : length mp.encode_nil ≡ mp.sizeof_nil
  pub length-uint : (n : ℕ) → n < 2 ^ 64 → length (mp.encode_uint n) ≡ mp.sizeof_uint n
  pub length-int :
      (n : ℕ) → n < 2 ^ 63 → length (mp.encode_int (negsuc n)) ≡ mp.sizeof_int (negsuc n)
  pub length-double : (d : ℕ) → length (mp.encode_double d) ≡ mp.sizeof_double
  pub length-bool : (b : Bool) → length (mp.encode_bool b) ≡ mp.sizeof_bool
  pub length-str :
      (s : Bytes) → length s < 2 ^ 32 → length (mp.encode_str s) ≡ mp.sizeof_str (length s)
  pub length-array : (n : ℕ) → n < 2 ^ 32 → length (mp.encode_array n) ≡ mp.sizeof_array n
  pub length-map : (n : ℕ) → n < 2 ^ 32 → length (mp.encode_map n) ≡ mp.sizeof_map n

-- Each decoder reads back what the encoder of its type wrote, and leaves what follows.
pub record DecodesBack (mp : MsgPuck) : Type 0 where
  pub typeof-nil : (r : Bytes) → typeof mp (mp.encode_nil ++ r) ≡ some mp_nil
  pub typeof-uint :
      (n : ℕ) (r : Bytes) → n < 2 ^ 64 → typeof mp (mp.encode_uint n ++ r) ≡ some mp_uint
  pub typeof-int :
      (n : ℕ) (r : Bytes) → n < 2 ^ 63 → typeof mp (mp.encode_int (negsuc n) ++ r) ≡ some mp_int
  pub typeof-double : (d : ℕ) (r : Bytes) → typeof mp (mp.encode_double d ++ r) ≡ some mp_double
  pub typeof-bool : (b : Bool) (r : Bytes) → typeof mp (mp.encode_bool b ++ r) ≡ some mp_bool
  pub typeof-str :
      (s r : Bytes) → length s < 2 ^ 32 → typeof mp (mp.encode_str s ++ r) ≡ some mp_str
  pub typeof-array :
      (n : ℕ) (r : Bytes) → n < 2 ^ 32 → typeof mp (mp.encode_array n ++ r) ≡ some mp_array
  pub typeof-map : (n : ℕ) (r : Bytes) → n < 2 ^ 32 → typeof mp (mp.encode_map n ++ r) ≡ some mp_map
  pub decode-nil : (r : Bytes) → mp.decode_nil (mp.encode_nil ++ r) ≡ some r
  pub decode-uint :
      (n : ℕ) (r : Bytes) → n < 2 ^ 64 → mp.decode_uint (mp.encode_uint n ++ r) ≡ some (n, r)
  pub decode-int :
      (n : ℕ) (r : Bytes)
      → n < 2 ^ 63
      → mp.decode_int (mp.encode_int (negsuc n) ++ r) ≡ some (negsuc n, r)
  pub decode-double :
      (d : ℕ) (r : Bytes) → d < 2 ^ 64 → mp.decode_double (mp.encode_double d ++ r) ≡ some (d, r)
  pub decode-bool : (b : Bool) (r : Bytes) → mp.decode_bool (mp.encode_bool b ++ r) ≡ some (b, r)
  pub decode-str :
      (s r : Bytes) → length s < 2 ^ 32 → mp.decode_str (mp.encode_str s ++ r) ≡ some (s, r)
  pub decode-array :
      (n : ℕ) (r : Bytes) → n < 2 ^ 32 → mp.decode_array (mp.encode_array n ++ r) ≡ some (n, r)
  pub decode-map :
      (n : ℕ) (r : Bytes) → n < 2 ^ 32 → mp.decode_map (mp.encode_map n ++ r) ≡ some (n, r)
  -- The format has one form for a 32-bit unsigned integer: 0xce and four bytes in network order.
  pub decode-uint32 :
      (n : ℕ) (r : Bytes) → n < 2 ^ 32 → mp.decode_uint (0xce ∷ be32 n ++ r) ≡ some (n, r)
  -- mp_next steps over a value.
  pub next-uint : (n : ℕ) (r : Bytes) → n < 2 ^ 64 → mp.next (mp.encode_uint n ++ r) ≡ some r

-- A decoder moves its pointer forward by one byte at least.
pub record Advances (mp : MsgPuck) : Type 0 where
  pub nil_advances : (b r : Bytes) → mp.decode_nil b ≡ some r → length r < length b
  pub uint_advances : (b r : Bytes) (n : ℕ) → mp.decode_uint b ≡ some (n, r) → length r < length b
  pub int_advances : (b r : Bytes) (n : ℤ) → mp.decode_int b ≡ some (n, r) → length r < length b
  pub float_advances : (b r : Bytes) (n : ℕ) → mp.decode_float b ≡ some (n, r) → length r < length b
  pub double_advances :
      (b r : Bytes) (n : ℕ) → mp.decode_double b ≡ some (n, r) → length r < length b
  pub bool_advances :
      (b r : Bytes) (v : Bool) → mp.decode_bool b ≡ some (v, r) → length r < length b
  pub str_advances : (b r s : Bytes) → mp.decode_str b ≡ some (s, r) → length r < length b
  pub bin_advances : (b r s : Bytes) → mp.decode_bin b ≡ some (s, r) → length r < length b
  pub array_advances : (b r : Bytes) (n : ℕ) → mp.decode_array b ≡ some (n, r) → length r < length b
  pub map_advances : (b r : Bytes) (n : ℕ) → mp.decode_map b ≡ some (n, r) → length r < length b
  pub next_advances : (b r : Bytes) → mp.next b ≡ some r → length r < length b
