-- ===== src/Msgpack/Unpack/Total.antt =====
-- The recursion of the unpacking routines ends, and moves the input pointer forward.
use bee_php.Prelude.{
  ℕ, zero, suc, ◌≤◌, ◌<◌, ◌≡◌, ◌≢◌, refl, Option, none, some, ◌∷◌, [], arith, length, Bytes,
}
use bee_php.Engine.Zval.{Zval, null, long, string}
use bee_php.Engine.HashTable.{empty_array, add_next_index_zval}
use bee_php.Engine.Php.{Php}
use bee_php.Engine.Outcome.{Exception, Outcome, ok, failure, fault, out_of_fuel, lift, ◌>>=◌}
use bee_php.Engine.MsgPuck.{
  MpType, mp_nil, mp_uint, mp_int, mp_str, mp_bin, mp_array, mp_map, mp_bool, mp_float, mp_double,
  mp_ext, MsgPuck, Advances,
}
use bee_php.Msgpack.Unpack.{
  Unpacked, unpack_elements, add_pair, unpack_pairs, unpack_as, unpack_on, php_mp_unpack,
}

-- The run is not cut short, and leaves less than `bound` bytes if it succeeds.
pub data Ends (bound : ℕ) : Unpacked → Type 0 where
  ends_ok : {n : ℕ} {v : Zval} {rest : Bytes} → length rest < bound → Ends bound (ok (n, v, rest))
  ends_failure : {e : Option Exception} → Ends bound (failure e)
  ends_fault : Ends bound fault

-- On an input of `limit` bytes at most, a value read takes a byte at least.
abbrev Shrinks : (Bytes → Unpacked) → ℕ → Type 0
Shrinks unpack limit = (str : Bytes) → length str ≤ limit → Ends (length str) (unpack str)

scalar :
    {A : Type 0} (d : Option (A × Bytes)) (size : A → ℕ) (value : A → Zval) (bound : ℕ)
    → ((r : Bytes) (a : A) → d ≡ some (a, r) → length r < bound)
    → Ends bound (lift d >>= λ (a, r). ok (size a, value a, r))
scalar none size value bound h = ends_fault
scalar (some (a, r)) size value bound h = ends_ok (h r a refl)

skipped :
    (d : Option Bytes) (size : ℕ) (value : Zval) (bound : ℕ)
    → ((r : Bytes) → d ≡ some r → length r < bound)
    → Ends bound (lift d >>= λ r. ok (size, value, r))
skipped none size value bound h = ends_fault
skipped (some r) size value bound h = ends_ok (h r refl)

header :
    (d : Option (ℕ × Bytes)) (k : ℕ → Bytes → Unpacked) (bound : ℕ)
    → ((r : Bytes) (n : ℕ) → d ≡ some (n, r) → Ends bound (k n r))
    → Ends bound (lift d >>= λ (n, r). k n r)
header none k bound h = ends_fault
header (some (n, r)) k bound h = h r n refl

then :
    {bound bound' : ℕ} {r : Unpacked} (k : ℕ × Zval × Bytes → Unpacked)
    → Ends bound r
    → ((n : ℕ) (v : Zval) (rest : Bytes) → length rest < bound → Ends bound' (k (n, v, rest)))
    → Ends bound' (r >>= k)
then k (ends_ok h) next = next _ _ _ h
then k ends_failure next = ends_failure
then k ends_fault next = ends_fault

module _ ⦃mp : MsgPuck⦄ ⦃php : Php⦄ (adv : Advances mp) (unpack : Bytes → Unpacked) (limit : ℕ)
    (shrinks : Shrinks unpack limit) where
  elements-Ends :
      (len : ℕ) (oval : Zval) (str : Bytes) (bound : ℕ)
      → length str ≤ limit
      → length str < bound
      → Ends bound (unpack_elements unpack len oval str)
  unfolding unpack_elements
  elements-Ends zero oval str bound fits h = ends_ok h
  elements-Ends (suc len) oval str bound fits h = then _ (shrinks str fits) λ n v rest k.
      elements-Ends len (add_next_index_zval v oval) rest bound (omega arith) (omega arith)

  abbrev Added : Outcome Zval → Type 0
  Added r = (r ≢ out_of_fuel)

  add_pair-Added : (key value oval : Zval) → Added (add_pair key value oval)
  unfolding add_pair
  add_pair-Added (long h) value oval = λ e. cc
  add_pair-Added (string s) value oval = λ e. cc
  add_pair-Added other value oval = λ e. cc

  added :
      {bound : ℕ} (r : Outcome Zval) (k : Zval → Unpacked)
      → Added r
      → ((oval : Zval) → Ends bound (k oval))
      → Ends bound (r >>= k)
  added (ok v) k h next = next v
  added (failure e) k h next = ends_failure
  added fault k h next = ends_fault
  added out_of_fuel k h next = absurd (h refl)

  pairs-Ends :
      (len : ℕ) (oval : Zval) (str : Bytes) (bound : ℕ)
      → length str ≤ limit
      → length str < bound
      → Ends bound (unpack_pairs unpack len oval str)
  unfolding unpack_pairs
  pairs-Ends zero oval str bound fits h = ends_ok h
  pairs-Ends (suc len) oval str bound fits h = then _ (shrinks str fits) λ n key rest j.
      then _ (shrinks rest (omega arith)) λ m value rest' k.
        added (add_pair key value oval) _ (add_pair-Added key value oval)
          λ oval'. pairs-Ends len oval' rest' bound (omega arith) (omega arith)

  as-Ends :
      (type : MpType) (str : Bytes)
      → length str ≤ suc limit
      → Ends (length str) (unpack_as unpack type str)
  unfolding unpack_as
  as-Ends mp_nil str h = skipped (mp.decode_nil str) _ null _ (adv.nil_advances str)
  as-Ends mp_uint str h = scalar (mp.decode_uint str) _ _ _ (λ r n. adv.uint_advances str r n)
  as-Ends mp_int str h = scalar (mp.decode_int str) _ _ _ (λ r n. adv.int_advances str r n)
  as-Ends mp_str str h = scalar (mp.decode_str str) _ _ _ (λ r n. adv.str_advances str r n)
  as-Ends mp_bin str h = scalar (mp.decode_bin str) _ _ _ (λ r n. adv.bin_advances str r n)
  as-Ends mp_bool str h = scalar (mp.decode_bool str) _ _ _ (λ r n. adv.bool_advances str r n)
  as-Ends mp_float str h = scalar (mp.decode_float str) _ _ _ (λ r n. adv.float_advances str r n)
  as-Ends mp_double str h = scalar (mp.decode_double str) _ _ _ (λ r n. adv.double_advances str r n)
  as-Ends mp_array str h = header (mp.decode_array str) _ _ λ r n e.
      elements-Ends n empty_array r _ (omega (arith, adv.array_advances str r n e))
        (adv.array_advances str r n e)
  as-Ends mp_map str h = header (mp.decode_map str) _ _ λ r n e.
      pairs-Ends n empty_array r _ (omega (arith, adv.map_advances str r n e))
        (adv.map_advances str r n e)
  as-Ends mp_ext str h = ends_failure

module _ ⦃mp : MsgPuck⦄ ⦃php : Php⦄ (adv : Advances mp) where
  on-Ends : (fuel : ℕ) (str : Bytes) → length str < fuel → Ends (length str) (unpack_on fuel str)
  unfolding unpack_on
  on-Ends zero str h = elim h [ ]
  on-Ends (suc fuel) [] h = ends_fault
  on-Ends (suc fuel) (b ∷ rest) h =
      as-Ends adv (unpack_on fuel) (length rest) (λ s k. on-Ends fuel s (omega arith))
        (mp.type_of b) (b ∷ rest) (omega arith)

  -- On every input php_mp_unpack ends: it fails, faults, or returns a value and leaves fewer bytes
  -- than it was given. The fuel of the model is never used up.
  -- The decoders are of Advances.
  pub php_mp_unpack-Ends : (str : Bytes) → Ends (length str) (php_mp_unpack str)
  unfolding php_mp_unpack
  php_mp_unpack-Ends str = on-Ends (suc (length str)) str (omega arith)
