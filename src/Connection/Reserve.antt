-- ===== src/Connection/Reserve.antt =====
-- bee_tp_reserve of src/bee_tp.c, which the request builder calls for room in the buffer of a
-- connection.
use bee_php.Prelude.{ℕ, ◌+◌, ◌*◌, ◌≤◌, refl, arith, Bool-cases, inl, inr, ltb, if◌then◌else◌}
use bee_php.Engine.SmartString.{SmartString, IsBuffer, Allocator, IsAllocator}
use bee_php.Msgpack.Buffer.Writes.{Ensured}

module _ ⦃al : Allocator⦄ where
  -- The string afterwards. The out-parameter `size` is never set.
  unfoldable pub bee_tp_reserve : (req : ℕ) → SmartString → SmartString
  bee_tp_reserve req str =
      if ltb (str.len + req) str.a
      then str
      else al.alloc4 str (if ltb (str.a * 2) (str.len + req) then str.len + req else str.a * 2)

  -- bee_tp_reserve, on a buffer, gives a buffer with the same contents that has room for the bytes
  -- asked for behind them, and that is no smaller than it was.
  pub bee_tp_reserve-Ensured :
      (laws : IsAllocator al) (req : ℕ) (str : SmartString)
      → IsBuffer str
      → Ensured laws str req (bee_tp_reserve req str) × (str.a ≤ (bee_tp_reserve req str).a)
  unfolding bee_tp_reserve
  bee_tp_reserve-Ensured laws req str b = elim (Bool-cases (ltb (str.len + req) str.a)) [
    | inl fits ↦ rw fits (
      record { is_buffer = b; same_len = refl; same_contents = refl; room = ground arith },
      omega arith,
    )
    | inr full ↦ rw full (elim (Bool-cases (ltb (str.a * 2) (str.len + req))) [
      | inl far ↦ rw far (grown (str.len + req) (omega arith) (ground arith))
      | inr near ↦ rw near (grown (str.a * 2) (ground arith) (omega arith))
    ])
  ]
    where
      grown :
          (n : ℕ)
          → req ≤ n
          → str.a ≤ n
          → Ensured laws str req (al.alloc4 str n) × (str.a ≤ (al.alloc4 str n).a)
      grown n enough more = (
        record {
          is_buffer = laws.alloc4-IsBuffer str n b;
          same_len = laws.alloc4-len str n b;
          same_contents = rw (laws.alloc4-len str n b) (laws.alloc4-contents str n b);
          room = omega (arith, laws.alloc4_room str n b);
        },
        omega (arith, laws.alloc4_room str n b),
      )
