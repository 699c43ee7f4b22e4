-- ===== src/Tests/Memory.antt =====
-- A smart_string allocator that grows a block by zeros, and that it keeps PHP's promises.
use bee_php.Prelude.{
  ℕ, ◌+◌, ◌-◌, ◌≤◌, refl, Bool-cases, inl, inr, [], ◌++◌, arith, ltb, if◌then◌else◌, replicate,
  length-append, length-replicate, take-append_le,
}
use bee_php.Engine.SmartString.{SmartString, IsBuffer, Allocator, IsAllocator}

unfoldable pub grow : SmartString → ℕ → SmartString
grow s n = record s { c = s.c ++ replicate (s.len + n + 128 - s.a) 0; a = s.len + n + 128 }

abbrev pub allocator : Allocator
allocator = record { alloc4 = λ s n. if ltb (s.len + n) s.a then s else grow s n }

grow-IsBuffer : (s : SmartString) (n : ℕ) → IsBuffer s → s.a ≤ s.len + n → IsBuffer (grow s n)
unfolding grow
grow-IsBuffer s n b h = record {
  block = omega (
    arith,
    b.block,
    length-append s.c (replicate {A = ℕ} (s.len + n + 128 - s.a) 0),
    length-replicate {A = ℕ} (s.len + n + 128 - s.a) 0,
  );
  within = omega arith;
}

pub allocator-IsAllocator : IsAllocator allocator
unfolding grow
allocator-IsAllocator = record {
  alloc4-IsBuffer = λ s n b. elim (Bool-cases (ltb (s.len + n) s.a)) [
    | inl e ↦ rw (e, allocator) b
    | inr e ↦ rw (e, allocator) (grow-IsBuffer s n b (ground arith))
  ];
  alloc4-len = λ s n b. ground arith;
  alloc4-contents = λ s n b. elim (Bool-cases (ltb (s.len + n) s.a)) [
    | inl e ↦ rw (e, allocator) refl
    | inr e ↦
        rw (e, allocator)
          (take-append_le s.len s.c (replicate (s.len + n + 128 - s.a) 0)
            (omega (arith, b.block, b.within)))
  ];
  alloc4_room = λ s n b. ground arith;
}

-- A buffer as the extension starts with.
abbrev pub fresh : SmartString
fresh = record { c = []; len = 0; a = 0 }

pub fresh-IsBuffer : IsBuffer fresh
fresh-IsBuffer = record { block = refl; within = omega arith }
