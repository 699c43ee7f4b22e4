-- ===== src/Proto/Response.antt =====
-- php_tp_response of src/bee_proto.c. The buffer is the bytes from `buf` to the end of the block:
-- the function does not look at `size`. A string is its bytes, so its length goes with it.
pub mod Parse
pub mod Replies
use Prim.Native.Nat.{bit_or}
use bee_php.Prelude.{
  ℕ, zero, suc, ◌-◌, ◌%◌, ◌^◌, Bool, true, false, not, Option, none, some, ltb, ◌==◌, if◌then◌else◌,
  length, take, Bytes, u32,
}
use bee_php.Engine.MsgPuck.{MpType, mp_uint, mp_str, mp_array, mp_map, mp_code, MsgPuck, typeof}
use bee_php.Engine.Outcome.{Outcome, ok, fault, lift, ◌>>=◌}
use bee_php.Proto.Keys.{beex_code, beex_sync, beex_data, beex_error}

pub record BeexResponse : Type 0 where
  pub bitmap : ℕ
  pub code : ℕ
  pub sync : ℕ
  pub error : Option Bytes
  pub response_data : Option Bytes

-- The record after memset.
abbrev pub blank : BeexResponse
blank = record { bitmap = 0; code = 0; sync = 0; error = none; response_data = none }

-- The response as far as it is filled, and the pointer to go on at; `none` is a return of -1.
abbrev pub Parsed : Type 0
Parsed = Outcome (BeexResponse × Option Bytes)

-- r->bitmap |= (1ULL << key), where a shift by 64 or more is undefined.
abbrev mark : ℕ → BeexResponse → Bytes → Parsed
mark key r p =
    if ltb key 64 then ok (record r { bitmap = bit_or r.bitmap (2 ^ key) }, some p) else fault

-- The bytes between a pointer and a later one.
abbrev pub between : Bytes → Bytes → Bytes
between p q = take (length p - length q) p

module _ ⦃mp : MsgPuck⦄ where
  unfoldable pub is_type : MpType → Bytes → Outcome Bool
  is_type type p = do t ← lift (typeof mp p); ok (mp_code t == mp_code type)

  unfoldable pub header_value : ℕ → BeexResponse → Bytes → Outcome (BeexResponse × Bytes)
  header_value key r p =
      if key == beex_sync
      then (do (val, p') ← lift (mp.decode_uint p); ok (record r { sync = u32 val }, p'))
      else if key == beex_code
      then (do (val, p') ← lift (mp.decode_uint p); ok (record r { code = u32 val }, p'))
      else (do p' ← lift (mp.next p); ok (r, p'))

  unfoldable pub header_entry : BeexResponse → Bytes → Parsed
  unfolding is_type header_value
  header_entry r p = do
    key_ok ← is_type mp_uint p
    if not key_ok then ok (r, none) else do
      (key, p₁) ← lift (mp.decode_uint p)
      value_ok ← is_type mp_uint p₁
      if not value_ok
          then ok (r, none)
          else do (r', p₂) ← header_value (u32 key) r p₁; mark (u32 key) r' p₂

  -- What the body's switch does; a `none` in place of the pointer is a return of -1.
  unfoldable pub body_value : ℕ → BeexResponse → Bytes → Parsed
  unfolding is_type
  body_value key r p =
      if key == beex_error
      then (do
        is_str ← is_type mp_str p
        if not is_str then ok (r, none) else do
          (error, p') ← lift (mp.decode_str p)
          ok (record r { error = some error; code = r.code % 2 ^ 15 }, some p'))
      else if key == beex_data
      then (do
        is_array ← is_type mp_array p
        if not is_array then ok (r, none) else do
          p' ← lift (mp.next p)
          ok (record r { response_data = some (between p p') }, some p'))
      else (do p' ← lift (mp.next p); ok (r, some p'))

  unfoldable pub body_entry : BeexResponse → Bytes → Parsed
  unfolding body_value
  body_entry r p = do
    (key, p₁) ← lift (mp.decode_uint p)
    (r', next) ← body_value (u32 key) r p₁
    elim next [ none ↦ ok (r', none) | some p₂ ↦ mark (u32 key) r' p₂ ]

  -- while (n-- > 0): an entry at a time, until a return.
  unfoldable pub entries :
      (entry : BeexResponse → Bytes → Parsed) → ℕ → BeexResponse → Bytes → Parsed
  entries entry zero r p = ok (r, some p)
  entries entry (suc n) r p = do
    (r', next) ← entry r p
    elim next [ none ↦ ok (r', none) | some p' ↦ entries entry n r' p' ]

  -- A map: its type, its size and its entries.
  unfoldable pub entry_map : (entry : BeexResponse → Bytes → Parsed) → BeexResponse → Bytes → Parsed
  unfolding is_type entries
  entry_map entry r p = do
    is_map ← is_type mp_map p
    if not is_map then ok (r, none) else do (n, p') ← lift (mp.decode_map p); entries entry n r p'

  -- The response, and the number of bytes read or `none` for -1.
  unfoldable pub php_tp_response : Bytes → Outcome (BeexResponse × Option ℕ)
  php_tp_response buf = do
    (r, next) ← entry_map header_entry blank buf
    elim next [
      | none ↦ ok (r, none)
      | some p ↦ do
        (r', next') ← entry_map body_entry r p
        elim next' [ none ↦ ok (r', none) | some p' ↦ ok (r', some (length buf - length p')) ]
    ]
