-- ===== src/Connection/Wrapper/Requests.antt =====
-- What is built between bee_tp_update and bee_tp_flush, and where it lies.
use bee_php.Prelude.{ℕ, ◌+◌, ◌≤◌, ◌<◌, ◌≡◌, refl, Bool, Option, arith}
use bee_php.Engine.SmartString.{Allocator}
use bee_php.Connection.Reserve.{bee_tp_reserve}
use bee_php.Connection.Wrapper.{
  Placed, TpWrapper, StructTp, TpInit, bee_tp_new, bee_tp_flush, bee_tp_update,
}

-- The pointers span the block, and the next byte goes into it.
pub record IsAttached (b : Placed) (tps : StructTp) : Type 0 where
  pub starts : tps.s ≡ b.block_at
  pub ends : tps.e ≡ b.block_at + b.str.a
  pub begun : tps.s ≤ tps.p
  pub within : tps.p ≤ tps.e

-- The documented behaviour of tp_init: an empty request in the buffer given.
pub record IsTpInit (lib : TpInit) : Type 0 where
  pub init-s : (buf size : ℕ) (w : TpWrapper) → (lib.tp_init buf size w).s ≡ buf
  pub init-p : (buf size : ℕ) (w : TpWrapper) → (lib.tp_init buf size w).p ≡ buf
  pub init-e : (buf size : ℕ) (w : TpWrapper) → (lib.tp_init buf size w).e ≡ buf + size

-- What is done to `struct tp` while the buffer `b` stays where it is. It is set up or updated, and
-- requests are flushed. A call of third_party/tp.h for `n` bytes marks the size's and the number's
-- place and moves `p`; tp_ensure lets it do so without bee_tp_reserve where `n` bytes are left.
pub data Request ⦃lib : TpInit⦄ (b : Placed) : StructTp → Type 0 where
  created :
      (is_persistent : Bool) → Request ⦃lib = lib⦄ b (bee_tp_new ⦃lib = lib⦄ b is_persistent).0
  updated : (tps : StructTp) → Request ⦃lib = lib⦄ b (bee_tp_update b tps)
  built :
      (tps : StructTp) (n : ℕ) (size sync : Option ℕ)
      → Request ⦃lib = lib⦄ b tps
      → tps.p + n ≤ tps.e
      → Request ⦃lib = lib⦄ b (record tps { p = tps.p + n; size = size; sync = sync })
  flushed : (tps : StructTp) → Request ⦃lib = lib⦄ b tps → Request ⦃lib = lib⦄ b (bee_tp_flush tps)

module _ ⦃lib : TpInit⦄ (laws : IsTpInit lib) where
  -- The pointers of such a request.
  Request-IsAttached : (b : Placed) (tps : StructTp) → Request b tps → IsAttached b tps
  unfolding bee_tp_new bee_tp_update bee_tp_flush
  Request-IsAttached b tps (created flag) =
      let w : TpWrapper = record { is_persistent = flag } in
      record {
        starts = laws.init-s b.block_at b.str.a w;
        ends = laws.init-e b.block_at b.str.a w;
        begun = omega (arith, laws.init-s b.block_at b.str.a w, laws.init-p b.block_at b.str.a w);
        within = omega (arith, laws.init-p b.block_at b.str.a w, laws.init-e b.block_at b.str.a w);
      }
  Request-IsAttached b tps (updated old) = record {
    starts = refl;
    ends = refl;
    begun = omega arith;
    within = omega arith;
  }
  Request-IsAttached b tps (built old n size sync r fits) =
      let h = Request-IsAttached b old r in
      record { starts = h.starts; ends = h.ends; begun = omega (arith, h.begun); within = fits }
  Request-IsAttached b tps (flushed old r) =
      let h = Request-IsAttached b old r in
      record {
        starts = h.starts;
        ends = h.ends;
        begun = omega arith;
        within = omega (arith, h.begun, h.within);
      }

  -- While a request is built, the buffer's length being 0 until it is done, a call that needs `req`
  -- bytes more than are left asks bee_tp_reserve for them. If they are fewer than the whole block
  -- has, they end behind the block that bee_tp_reserve returns. tp_init is one of IsTpInit.
  pub bee_tp_reserve_short :
      ⦃al : Allocator⦄ (b : Placed) (tps : StructTp) (req : ℕ)
      → Request b tps
      → b.str.len ≡ 0
      → tps.e < tps.p + req
      → req < b.str.a
      → b.block_at + (bee_tp_reserve req b.str).a < tps.p + req
  unfolding bee_tp_reserve
  bee_tp_reserve_short b tps req r building full fewer =
      let h = Request-IsAttached b tps r in ground (arith, h.ends)
