-- ===== src/Msgpack/Unpack/Scalars.antt =====
-- The wire forms of scalars are read back.
use bee_php.Prelude.{
  ℕ, zero, suc, ◌<◌, ◌≡◌, ◌^◌, ◌∙◌, Bool, some, [], ◌∷◌, ◌++◌, arith, lt→ltb, ℤ, pos, negsuc,
  IsLong, length, Bytes,
}
use bee_php.Engine.Zval.{Zval, null, long, double, bool, string}
use bee_php.Engine.Php.{Php}
use bee_php.Engine.Outcome.{ok}
use bee_php.Engine.MsgPuck.{MpType, MsgPuck, typeof, DecodesBack}
use bee_php.Msgpack.Pack.Wire.{long_wire}
use bee_php.Msgpack.Unpack.{
  php_mp_unpack_nil, php_mp_unpack_uint, php_mp_unpack_int, php_mp_unpack_str, php_mp_unpack_bool,
  php_mp_unpack_double, unpack_as, unpack_on,
}

module _ ⦃mp : MsgPuck⦄ ⦃php : Php⦄ where
  -- `v` is read off the wire form `w` with fuel above the input's length.
  abbrev pub Reads : ℕ → Bytes → Zval → Type 0
  Reads f w v =
      (rest : Bytes)
      → length (w ++ rest) < f
      → (n : ℕ) × (unpack_on f (w ++ rest) ≡ ok (n, v, rest))

  pub step :
      (f : ℕ) (str : Bytes) {type : MpType}
      → typeof mp str ≡ some type
      → unpack_on (suc f) str ≡ unpack_as (unpack_on f) type str
  unfolding unpack_on
  step f str e = rw (e, unpack_on)

module _ ⦃mp : MsgPuck⦄ where
  pub typeof_pos : (str : Bytes) {type : MpType} → typeof mp str ≡ some type → 0 < length str
  typeof_pos [] e = cc
  typeof_pos (b ∷ rest) e = omega arith

module _ ⦃mp : MsgPuck⦄ ⦃php : Php⦄ (laws : DecodesBack mp) where
  pub Reads-nil : (f : ℕ) → Reads f mp.encode_nil null
  unfolding unpack_as php_mp_unpack_nil
  Reads-nil zero rest h = elim h [ ]
  Reads-nil (suc f) rest h =
      (mp.sizeof_nil, step f _ (laws.typeof-nil rest) ∙ rw (laws.decode-nil rest))

  pub Reads-long : (f : ℕ) (n : ℤ) → IsLong n → Reads f (long_wire n) (long n)
  unfolding unpack_as php_mp_unpack_uint php_mp_unpack_int long_wire
  Reads-long zero n hn rest h = elim h [ ]
  Reads-long (suc f) (pos n) hn rest h =
      let small : n < 2 ^ 64 = omega arith in
      (
        mp.sizeof_uint n,
        step f _ (laws.typeof-uint n rest small)
            ∙ rw (laws.decode-uint n rest small, lt→ltb n (2 ^ 63) hn),
      )
  Reads-long (suc f) (negsuc n) hn rest h = (
    mp.sizeof_int (negsuc n),
    step f _ (laws.typeof-int n rest hn) ∙ rw (laws.decode-int n rest hn),
  )

  pub Reads-string : (f : ℕ) (s : Bytes) → length s < 2 ^ 31 → Reads f (mp.encode_str s) (string s)
  unfolding unpack_as php_mp_unpack_str
  Reads-string zero s hs rest h = elim h [ ]
  Reads-string (suc f) s hs rest h =
      let small : length s < 2 ^ 32 = omega arith in
      (
        mp.sizeof_str (length s),
        step f _ (laws.typeof-str s rest small) ∙ rw (laws.decode-str s rest small),
      )

  pub Reads-double : (f d : ℕ) → d < 2 ^ 64 → Reads f (mp.encode_double d) (double d)
  unfolding unpack_as php_mp_unpack_double
  Reads-double zero d hd rest h = elim h [ ]
  Reads-double (suc f) d hd rest h =
      (mp.sizeof_double, step f _ (laws.typeof-double d rest) ∙ rw (laws.decode-double d rest hd))

  pub Reads-bool : (f : ℕ) (b : Bool) → Reads f (mp.encode_bool b) (bool b)
  unfolding unpack_as php_mp_unpack_bool
  Reads-bool zero b rest h = elim h [ ]
  Reads-bool (suc f) b rest h =
      (mp.sizeof_bool, step f _ (laws.typeof-bool b rest) ∙ rw (laws.decode-bool b rest))
