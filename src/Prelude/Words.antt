-- ===== src/Prelude/Words.antt =====
-- Unsigned machine words as native numbers, and their big-endian bytes.
use Prim.Native.Nat.{ℕ, ◌/◌, ◌%◌, ◌^◌}
use Prim.Native.String.{String}
use Prim.Native.Char.{code}
use mathlib.Core.List.{List, [], ◌∷◌}

abbrev pub u32 : ℕ → ℕ
u32 n = n % 2 ^ 32

-- A `size_t`, 64 bits wide.
abbrev pub u64 : ℕ → ℕ
u64 n = n % 2 ^ 64

abbrev pub Bytes : Type 0
Bytes = List ℕ

-- The four bytes of a `uint32_t` in network order.
abbrev pub be32 : ℕ → Bytes
be32 n = (n / 2 ^ 24 % 256) ∷ (n / 2 ^ 16 % 256) ∷ (n / 2 ^ 8 % 256) ∷ (n % 256) ∷ []

-- The bytes of a C string literal.
abbrev pub codes : String → Bytes
codes String.[] = []
codes (String.◌∷◌ c s) = code c ∷ codes s
