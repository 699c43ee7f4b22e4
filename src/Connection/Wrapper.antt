-- ===== src/Connection/Wrapper.antt =====
-- src/bee_tp.c but for bee_tp_reserve: the pointers of `struct tp` into the buffer of a connection.
-- An address is a number, a null pointer is `none`.
pub mod Requests
use bee_php.Prelude.{ℕ, ◌+◌, Bool, Option, none, List, [], ◌∷◌}
use bee_php.Engine.SmartString.{SmartString}

-- A smart_string with the address of its block.
pub record Placed : Type 0 where
  pub block_at : ℕ
  pub str : SmartString

-- `wrap->str` is the buffer of the connection, which is passed beside the wrapper.
pub record TpWrapper : Type 0 where
  pub is_persistent : Bool

-- The fields of `struct tp` that the wrapper sets, and its `obj`.
pub record StructTp : Type 0 where
  pub s : ℕ
  pub p : ℕ
  pub e : ℕ
  pub size : Option ℕ
  pub sync : Option ℕ
  pub obj : TpWrapper

-- The two places that are allocated, each with the flag given to pecalloc or pefree.
pub data TpPlace : Type 0 where
  the_tp the_wrapper : TpPlace

-- tp_init of third_party/tp.h.
pub record TpInit : Type 0 where
  pub tp_init : (buf size : ℕ) → TpWrapper → StructTp

module _ ⦃lib : TpInit⦄ where
  unfoldable pub bee_tp_new : Placed → (is_persistent : Bool) → StructTp × List (TpPlace × Bool)
  bee_tp_new b is_persistent = (
    lib.tp_init b.block_at b.str.a (record { is_persistent = is_persistent }),
    (the_tp, is_persistent) ∷ (the_wrapper, is_persistent) ∷ [],
  )

unfoldable pub bee_tp_free : (is_persistent : Bool) → List (TpPlace × Bool)
bee_tp_free is_persistent = (the_wrapper, is_persistent) ∷ (the_tp, is_persistent) ∷ []

unfoldable pub bee_tp_flush : StructTp → StructTp
bee_tp_flush tps = record tps { p = tps.s; size = none; sync = none }

unfoldable pub bee_tp_update : Placed → StructTp → StructTp
bee_tp_update b tps = record tps { s = b.block_at; p = b.block_at; e = b.block_at + b.str.a }
