-- ===== src/Engine/Php.antt =====
-- What the extension relies on in PHP and in the C compiler, beyond the tables and the buffers.
use bee_php.Prelude.{ℕ, ℤ, Option, Bytes}

pub record Php : Type 0 where
  -- The long that a string key spells, if it does (zend_symtable_update).
  pub numeric_key : Bytes → Option ℤ
  -- The conversion of a float to a double, on bit patterns.
  pub float_to_double : ℕ → ℕ
