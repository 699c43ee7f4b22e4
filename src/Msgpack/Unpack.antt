-- ===== src/Msgpack/Unpack.antt =====
-- The unpacking routines of src/bee_msgpack.c. A routine gives the byte count or SUCCESS that it
-- returns, the new value, and the input behind it. What is freed on failure is not described.
pub mod Total
pub mod Image
mod Scalars
pub mod RoundTrip
use bee_php.Prelude.{ℕ, zero, suc, Bool, not, none, some, to_long, length, Bytes}
use bee_php.Engine.Zval.{Zval, null, long, double, bool, array, string}
use bee_php.Engine.HashTable.{empty_array, add_index_zval, add_next_index_zval, add_assoc_zval}
use bee_php.Engine.Php.{Php}
use bee_php.Engine.Outcome.{Outcome, ok, fault, out_of_fuel, bad_key_type, throw, lift, ◌>>=◌}
use bee_php.Engine.MsgPuck.{
  MpType, mp_nil, mp_uint, mp_int, mp_str, mp_bin, mp_array, mp_map, mp_bool, mp_float, mp_double,
  mp_ext, MsgPuck, typeof,
}

abbrev pub Unpacked : Type 0
Unpacked = Outcome (ℕ × Zval × Bytes)

module _ ⦃mp : MsgPuck⦄ where
  php_mp_unpack_nil : Bytes → Unpacked
  php_mp_unpack_nil str = do rest ← lift (mp.decode_nil str); ok (mp.sizeof_nil, null, rest)

  php_mp_unpack_uint : Bytes → Unpacked
  php_mp_unpack_uint str = do
    (val, rest) ← lift (mp.decode_uint str)
    ok (mp.sizeof_uint val, long (to_long val), rest)

  php_mp_unpack_int : Bytes → Unpacked
  php_mp_unpack_int str = do
    (val, rest) ← lift (mp.decode_int str)
    ok (mp.sizeof_int val, long val, rest)

  php_mp_unpack_str : Bytes → Unpacked
  php_mp_unpack_str str = do
    (out, rest) ← lift (mp.decode_str str)
    ok (mp.sizeof_str (length out), string out, rest)

  php_mp_unpack_bin : Bytes → Unpacked
  php_mp_unpack_bin str = do
    (out, rest) ← lift (mp.decode_bin str)
    ok (mp.sizeof_bin (length out), string out, rest)

  php_mp_unpack_bool : Bytes → Unpacked
  php_mp_unpack_bool str = do
    (val, rest) ← lift (mp.decode_bool str)
    ok (mp.sizeof_bool, bool val, rest)

  php_mp_unpack_double : Bytes → Unpacked
  php_mp_unpack_double str = do
    (val, rest) ← lift (mp.decode_double str)
    ok (mp.sizeof_double, double val, rest)

  -- `unpack` is the recursive call, `len` the number of elements still to come.
  unpack_elements : (unpack : Bytes → Unpacked) → ℕ → Zval → Bytes → Unpacked
  unpack_elements unpack zero oval str = ok (0, oval, str)
  unpack_elements unpack (suc len) oval str = do
    (n, value, rest) ← unpack str
    unpack_elements unpack len (add_next_index_zval value oval) rest

  php_mp_unpack_array : (unpack : Bytes → Unpacked) → Bytes → Unpacked
  unfolding unpack_elements
  php_mp_unpack_array unpack str = do
    (len, rest) ← lift (mp.decode_array str)
    unpack_elements unpack len empty_array rest

  module _ ⦃php : Php⦄ where
    php_mp_unpack_float : Bytes → Unpacked
    php_mp_unpack_float str = do
      (val, rest) ← lift (mp.decode_float str)
      ok (mp.sizeof_float, double (php.float_to_double val), rest)

    add_pair : Zval → Zval → Zval → Outcome Zval
    add_pair (long h) value oval = ok (add_index_zval h value oval)
    add_pair (string s) value oval = ok (add_assoc_zval php.numeric_key s value oval)
    add_pair other value oval = throw bad_key_type

    unpack_pairs : (unpack : Bytes → Unpacked) → ℕ → Zval → Bytes → Unpacked
    unfolding add_pair
    unpack_pairs unpack zero oval str = ok (0, oval, str)
    unpack_pairs unpack (suc len) oval str = do
      (n, key, rest) ← unpack str
      (m, value, rest') ← unpack rest
      oval' ← add_pair key value oval
      unpack_pairs unpack len oval' rest'

    php_mp_unpack_map : (unpack : Bytes → Unpacked) → Bytes → Unpacked
    unfolding unpack_pairs
    php_mp_unpack_map unpack str = do
      (len, rest) ← lift (mp.decode_map str)
      unpack_pairs unpack len empty_array rest

    -- The switch on mp_typeof(**str).
    pub unpack_as : (unpack : Bytes → Unpacked) → MpType → Bytes → Unpacked
    unfolding php_mp_unpack_nil php_mp_unpack_uint php_mp_unpack_int php_mp_unpack_str
        php_mp_unpack_bin php_mp_unpack_array php_mp_unpack_map php_mp_unpack_bool
        php_mp_unpack_float php_mp_unpack_double
    unpack_as unpack mp_nil str = php_mp_unpack_nil str
    unpack_as unpack mp_uint str = php_mp_unpack_uint str
    unpack_as unpack mp_int str = php_mp_unpack_int str
    unpack_as unpack mp_str str = php_mp_unpack_str str
    unpack_as unpack mp_bin str = php_mp_unpack_bin str
    unpack_as unpack mp_array str = php_mp_unpack_array unpack str
    unpack_as unpack mp_map str = php_mp_unpack_map unpack str
    unpack_as unpack mp_bool str = php_mp_unpack_bool str
    unpack_as unpack mp_float str = php_mp_unpack_float str
    unpack_as unpack mp_double str = php_mp_unpack_double str
    unpack_as unpack mp_ext str = Outcome.failure none

    pub unpack_on : ℕ → Bytes → Unpacked
    unfolding unpack_as
    unpack_on zero str = out_of_fuel
    unpack_on (suc fuel) str = elim (typeof mp str) [
      | none ↦ fault
      | some type ↦ unpack_as (unpack_on fuel) type str
    ]

    -- Every level of the value takes a byte of the input at least.
    unfoldable pub php_mp_unpack : Bytes → Unpacked
    unfolding unpack_on
    php_mp_unpack str = unpack_on (suc (length str)) str

  unfoldable pub php_mp_check : Bytes → Bool
  php_mp_check str = not (mp.check str)

  unfoldable pub php_mp_unpack_package_size : Bytes → Outcome ℕ
  php_mp_unpack_package_size buf = do (size, rest) ← lift (mp.decode_uint buf); ok size
