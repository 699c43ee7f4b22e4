-- ===== src/Engine/SmartString.antt =====
-- The smart_string of PHP: `c` is the block it owns, `len` the bytes in use, `a` the size.
-- smart_string_alloc4 belongs to PHP and is a parameter with what PHP promises of it.
use bee_php.Prelude.{
  ℕ, ◌+◌, ◌≤◌, ◌≡◌, Option, none, some, ◌++◌, ltb, if◌then◌else◌, length, take, drop, Bytes,
}

pub record SmartString : Type 0 where
  pub c : Bytes
  pub len : ℕ
  pub a : ℕ

pub record IsBuffer (s : SmartString) : Type 0 where
  pub block : length s.c ≡ s.a
  pub within : s.len ≤ s.a

-- The bytes in use.
abbrev pub contents : SmartString → Bytes
contents s = take s.len s.c

pub record Allocator : Type 0 where
  pub alloc4 : SmartString → ℕ → SmartString

-- The block is grown so that `n` bytes fit behind the bytes in use, which stay.
pub record IsAllocator (al : Allocator) : Type 0 where
  pub alloc4-IsBuffer : (s : SmartString) (n : ℕ) → IsBuffer s → IsBuffer (al.alloc4 s n)
  pub alloc4-len : (s : SmartString) (n : ℕ) → IsBuffer s → (al.alloc4 s n).len ≡ s.len
  pub alloc4-contents :
      (s : SmartString) (n : ℕ) → IsBuffer s → take s.len (al.alloc4 s n).c ≡ contents s
  pub alloc4_room : (s : SmartString) (n : ℕ) → IsBuffer s → s.len + n ≤ (al.alloc4 s n).a

-- Bytes written to a block from an offset on; a write beyond the block is `none`, a fault.
unfoldable pub write_at : ℕ → Bytes → Bytes → Option Bytes
write_at off bs c =
    if ltb (length c) (off + length bs)
    then none
    else some (take off c ++ (bs ++ drop (off + length bs) c))
