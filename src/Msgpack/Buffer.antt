-- ===== src/Msgpack/Buffer.antt =====
-- smart_string_ensure, smart_string_nullify and the append step that every packing routine of
-- src/bee_msgpack.c spells out. A routine takes the buffer last; `none` is a write out of bounds.
pub mod Writes
use bee_php.Prelude.{ℕ, ◌+◌, ◌*◌, Option, none, some, ltb, if◌then◌else◌, length, replicate, Bytes}
use bee_php.Engine.SmartString.{SmartString, Allocator, write_at}

abbrev pub Action : Type 0
Action = SmartString → Option SmartString

infixr 5 ◌>>◌
abbrev pub ◌>>◌ : Action → Action → Action
◌>>◌ m k s = elim (m s) [ none ↦ none | some s' ↦ k s' ]

abbrev pub skip : Action
skip s = some s

module _ ⦃al : Allocator⦄ where
  unfoldable pub smart_string_ensure : ℕ → SmartString → SmartString
  smart_string_ensure n s =
      if ltb (s.len + n) s.a
      then s
      else al.alloc4 s (if ltb (s.a * 2) (s.len + n) then s.len + n else s.a * 2)

  abbrev pub ensure : ℕ → Action
  ensure n s = some (smart_string_ensure n s)

  -- smart_string_ensure(str, needed); mp_encode_…(SSTR_POS(str), …); SSTR_LEN(str) += needed;
  unfoldable pub put : ℕ → Bytes → Action
  unfolding smart_string_ensure write_at
  put needed bs s =
      let s' = smart_string_ensure needed s in
      elim (write_at s'.len bs s'.c) [
        | none ↦ none
        | some c' ↦ some (record s' { c = c'; len = s'.len + needed })
      ]

-- memset(SSTR_BEG(str), 0, SSTR_AWA(str)), as far as the block reaches.
unfoldable pub smart_string_nullify : SmartString → SmartString
smart_string_nullify s = record s { c = replicate (length s.c) 0 }
